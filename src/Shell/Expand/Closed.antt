-- ===== src/Shell/Expand/Closed.antt =====
-- `expand_env` of oscdsh/src/main.c ends, and where it stays inside its buffer.
use ostd_final.Common.{
  ℕ, zero, suc, not, ◌+◌, ◌-◌, ◌≤◌, ◌<◌, ◌≡◌, ◌≢◌, refl, ◌⊎◌, inl, inr, Bool, true, false, ◌&&◌,
  ◌||◌, Option, none, some, [], ◌∷◌, ◌==◌, ltb, length, length-append, arith, Bool-cases,
}
use ostd_final.Common.Exec.{Outcome, ok, undefined}
use ostd_final.Common.Text.{Text, cut_at}
use ostd_final.Shell.History.{max_cmd_len}
use ostd_final.Shell.Plan.{has_byte}
use ostd_final.Shell.Expand.{
  Environment, Piece, plain, process_id, exit_code, lone_dollar, open_brace, variable, split_name,
  is_name_byte, braced_piece, named_piece, dollar_piece, first_piece, append_fitting, append_value,
  put_piece, terminated, expand_from, expand_env,
}

-- a `${` at the front of the text has a `}` behind it
abbrev pub brace_closed : ℕ → Text → Bool
brace_closed c [] = true
brace_closed c (d ∷ t) = not (c == b'$' && d == b'{') || has_byte b'}' t

-- every `${` of the line has a `}` behind it
abbrev pub Closed : Text → Type 0
Closed [] = Unit {0}
Closed (c ∷ t) = (brace_closed c t ≡ true) × Closed t

-- a string that fits the buffer with its NUL
abbrev pub IsString : Outcome Text → Type 0
IsString r = (t : Text) × (r ≡ ok t) × (length t < max_cmd_len)

-- what a rest of a text has of the text
abbrev Within : Text → Text → Type 0
Within t u = (Closed t → Closed u) × (length u ≤ length t)

split_name-Within : (t : Text) → Within t (split_name t).1
unfolding split_name
split_name-Within [] = (λ h. h, omega arith)
split_name-Within (c ∷ t) = elim (Bool-cases (is_name_byte c)) [
  | inl name ↦ rw name (λ h. (split_name-Within t).0 h.1, omega (arith, (split_name-Within t).1))
  | inr other ↦ rw other (λ h. h, omega arith)
]

abbrev CutWithin : Text → Option Text → Type 0
CutWithin t none = has_byte b'}' t ≡ false
CutWithin t (some rest) = Within t rest

cut_at-Within : (t : Text) → CutWithin t (cut_at (λ d. d == b'}') t).1
unfolding cut_at has_byte
cut_at-Within [] = refl
cut_at-Within (c ∷ t) = elim (Bool-cases (c == b'}')) [
  | inl brace ↦ rw brace (λ h. h.1, omega arith)
  | inr other ↦ rw other (later (cut_at (λ d. d == b'}') t).1 other (cut_at-Within t))
]
  where
    later : (o : Option Text) → (c == b'}') ≡ false → CutWithin t o → CutWithin (c ∷ t) o
    later none other h = rw (other, h) refl
    later (some rest) other h = (λ k. h.0 k.1, omega (arith, h.1))

-- A round takes the text apart without adding to it, and finds an open brace only where one is.
abbrev Step : ℕ → Text → Piece × Text → Type 0
Step c t r = Within t r.1 × (r.0 ≡ open_brace → brace_closed c t ≡ false)

braced_piece-Step :
    (t name : Text) (o : Option Text)
    → CutWithin t o
    → Step (b'$') (b'{' ∷ t) (braced_piece t (name, o))
unfolding braced_piece
braced_piece-Step t name none h = ((λ k. k.1, omega arith), λ e. rw h refl)
braced_piece-Step t name (some rest) h = ((λ k. h.0 k.1, omega (arith, h.1)), λ e. cc)

named_piece-Within : (t : Text) (r : Text × Text) → Within t r.1 → Within t (named_piece r).1
unfolding named_piece
named_piece-Within t ([], rest) h = h
named_piece-Within t (d ∷ name, rest) h = h

named_piece-ne_open : (r : Text × Text) → (named_piece r).0 ≢ open_brace
unfolding named_piece
named_piece-ne_open ([], rest) h = cc
named_piece-ne_open (d ∷ name, rest) h = cc

dollar_piece-Step : (t : Text) → Step (b'$') t (dollar_piece t)
unfolding dollar_piece
dollar_piece-Step [] = ((λ h. h, omega arith), λ e. cc)
dollar_piece-Step (c ∷ t) = elim (Bool-cases (c == b'$')) [
  | inl dollar ↦ rw dollar ((λ h. h.1, omega arith), λ e. cc)
  | inr no_dollar ↦ rw no_dollar (elim (Bool-cases (c == b'?')) [
    | inl mark ↦ rw mark ((λ h. h.1, omega arith), λ e. cc)
    | inr no_mark ↦ rw no_mark (elim (Bool-cases (c == b'{')) [
      | inl brace ↦
          let same : c ≡ b'{' = ground arith in
          rw same (
            braced_piece-Step t (cut_at (λ d. d == b'}') t).0 (cut_at (λ d. d == b'}') t).1
              (cut_at-Within t))
      | inr no_brace ↦ rw no_brace (
        named_piece-Within (c ∷ t) (split_name (c ∷ t)) (split_name-Within (c ∷ t)),
        λ e. absurd (named_piece-ne_open (split_name (c ∷ t)) e),
      )
    ])
  ])
]

first_piece-Step : (c : ℕ) (t : Text) → Step c t (first_piece c t)
unfolding first_piece
first_piece-Step c t = elim (Bool-cases (c == b'$')) [
  | inl dollar ↦ let same : c ≡ b'$' = ground arith in rw same (dollar_piece-Step t)
  | inr other ↦ rw other ((λ h. h, omega arith), λ e. cc)
]

append_fitting_le : (out v : Text) → length out < 1023 → length (append_fitting out v) ≤ 1023
append_fitting_le out v h = ground (arith, length-append out v)

append_value_le :
    (out : Text) (o : Option Text) → length out < 1023 → length (append_value out o) ≤ 1023
append_value_le out none h = omega arith
append_value_le out (some v) h = append_fitting_le out v h

module _ (e : Environment) where
  put_piece_le :
      (out : Text) (p : Piece)
      → length out < 1023
      → (length (put_piece e out p) ≤ 1024) × (p ≢ open_brace → length (put_piece e out p) ≤ 1023)
  unfolding put_piece
  put_piece_le out (plain c) h =
      let sum = length-append out (c ∷ []) in (omega arith, λ p. omega arith)
  put_piece_le out process_id h = let le = append_fitting_le out _ h in (omega arith, λ p. le)
  put_piece_le out exit_code h = let le = append_fitting_le out _ h in (omega arith, λ p. le)
  put_piece_le out lone_dollar h =
      let sum = length-append out (b'$' ∷ []) in (omega arith, λ p. omega arith)
  put_piece_le out open_brace h =
      (omega (arith, length-append out (b'$' ∷ b'{' ∷ [])), λ p. absurd (p refl))
  put_piece_le out (variable name) h =
      let le = append_value_le out (e.getenv name) h in (omega arith, λ p. le)

  terminated-IsString : (out : Text) → length out ≤ 1023 → IsString (terminated e out)
  unfolding terminated
  terminated-IsString out h = (out, ground arith, omega arith)

  terminated-or_undefined :
      (out : Text) → IsString (terminated e out) ⊎ (terminated e out ≡ undefined)
  unfolding terminated
  terminated-or_undefined out = elim (Bool-cases (ltb (length out) max_cmd_len)) [
    | inl fits ↦ inl (out, rw fits refl, ground arith)
    | inr over ↦ inr (rw over refl)
  ]

  expand_from-IsString :
      (n : ℕ) (out t : Text)
      → length t < n
      → length out ≤ 1023
      → Closed t
      → IsString (expand_from e n out t)
  unfolding expand_from
  expand_from-IsString zero out t h le closed = absurd (omega arith)
  expand_from-IsString (suc n) out [] h le closed = terminated-IsString out le
  expand_from-IsString (suc n) out (c ∷ t) h le closed =
      elim (Bool-cases (ltb (length out) (max_cmd_len - 1))) [
        | inr full ↦ rw full (terminated-IsString out le)
        | inl room ↦
            let ((keep, shorter), opened) = first_piece-Step c t in
            let grown =
              (put_piece_le out (first_piece c t).0 (ground arith)).1
                (λ e. cc (opened e, closed.0)) in
            rw room
              (expand_from-IsString n _ (first_piece c t).1 (omega arith) grown (keep closed.1))
      ]

  expand_from-ends :
      (n : ℕ) (out t : Text)
      → length t < n
      → IsString (expand_from e n out t) ⊎ (expand_from e n out t ≡ undefined)
  unfolding expand_from
  expand_from-ends zero out t h = absurd (omega arith)
  expand_from-ends (suc n) out [] h = terminated-or_undefined out
  expand_from-ends (suc n) out (c ∷ t) h = elim (Bool-cases (ltb (length out) (max_cmd_len - 1))) [
    | inr full ↦ rw full (terminated-or_undefined out)
    | inl room ↦
        let ((keep, shorter), opened) = first_piece-Step c t in
        rw room (expand_from-ends n _ (first_piece c t).1 (omega arith))
  ]

-- The expansion of a line ends with a string of less than 1024 bytes, or has written outside the
-- buffer, which it does not do where every `${` of the line has a `}` behind it.
pub expand_env_bounds :
    (e : Environment) (line : Text)
    → (Closed line → IsString (expand_env e line))
      × (IsString (expand_env e line) ⊎ (expand_env e line ≡ undefined))
unfolding expand_env
expand_env_bounds e line = (
  expand_from-IsString e (length line + 1) [] line (omega arith) (omega arith),
  expand_from-ends e (length line + 1) [] line (omega arith),
)

-- ===== src/Shell/Expand/Printed.antt =====
-- `expand_env` of oscdsh/src/main.c on lines that are put together from words and variables.
use ostd_final.Common.{
  ℕ, zero, suc, ◌+◌, ◌-◌, ◌≤◌, ◌<◌, ◌≡◌, refl, sym, inl, inr, true, false, Option, none, some, List,
  [], ◌∷◌, ◌++◌, ◌==◌, ltb, length, length-append, take_all, arith, Bool-cases, ◌∙◌, ap,
}
use ostd_final.Common.Exec.{ok, undefined}
use ostd_final.Common.Text.{Text, cut_at}
use ostd_final.Shell.History.{max_cmd_len}
use ostd_final.Shell.Plan.{has_byte}
use ostd_final.Shell.Plan.Cut.{cut_at-append}
use mathlib.Core.List.{append-nil, append_assoc}
use ostd_final.Shell.Expand.{
  Environment, Piece, plain, process_id, exit_code, variable, split_name, is_name_byte,
  braced_piece, named_piece, dollar_piece, first_piece, append_fitting, append_value, put_piece,
  terminated, expand_from, expand_env, decimal,
}

-- A part of a line: a byte, `$$`, `$?`, `${name}` or `$name`.
pub data Token : Type 0 where
  byte : ℕ → Token
  own_pid last_status : Token
  braced bare : Text → Token

abbrev pub token_text : Token → Text
token_text (byte c) = c ∷ []
token_text own_pid = b'$' ∷ b'$' ∷ []
token_text last_status = b'$' ∷ b'?' ∷ []
token_text (braced name) = b'$' ∷ b'{' ∷ (name ++ b'}' ∷ [])
token_text (bare name) = b'$' ∷ name

-- an unset variable has no text
abbrev pub text_or_empty : Option Text → Text
text_or_empty none = []
text_or_empty (some t) = t

abbrev pub token_value : Environment → Token → Text
token_value e (byte c) = c ∷ []
token_value e own_pid = decimal e.pid
token_value e last_status = decimal e.last_exit_code
token_value e (braced name) = text_or_empty (e.getenv name)
token_value e (bare name) = text_or_empty (e.getenv name)

-- the tokens in front of a text
abbrev pub line_text : List Token → (behind : Text) → Text
line_text [] behind = behind
line_text (k ∷ ks) behind = token_text k ++ line_text ks behind

abbrev pub line_value : Environment → List Token → Text
line_value e [] = []
line_value e (k ∷ ks) = token_value e k ++ line_value e ks

abbrev pub AllNameBytes : Text → Type 0
AllNameBytes [] = Unit {0}
AllNameBytes (c ∷ t) = (is_name_byte c ≡ true) × AllNameBytes t

abbrev pub NoNameFirst : Text → Type 0
NoNameFirst [] = Unit {0}
NoNameFirst (c ∷ t) = is_name_byte c ≡ false

-- A byte is no `$`. A name has at most 127 bytes; in braces it has no `}`, and without braces it is
-- not empty, has letters, digits and underscores only, and ends where none of these follows.
abbrev pub IsToken : Token → (behind : Text) → Type 0
IsToken (byte c) behind = (c == b'$') ≡ false
IsToken own_pid behind = Unit {0}
IsToken last_status behind = Unit {0}
IsToken (braced name) behind = (has_byte b'}' name ≡ false) × (length name ≤ 127)
IsToken (bare name) behind =
    (0 < length name) × AllNameBytes name × NoNameFirst behind × (length name ≤ 127)

abbrev pub AreTokens : List Token → (behind : Text) → Type 0
AreTokens [] behind = Unit {0}
AreTokens (k ∷ ks) behind = IsToken k (line_text ks behind) × AreTokens ks behind

-- what a round finds of a token
abbrev piece_of : Token → Piece
piece_of (byte c) = plain c
piece_of own_pid = process_id
piece_of last_status = exit_code
piece_of (braced name) = variable name
piece_of (bare name) = variable name

split_name-append :
    (name rest : Text)
    → AllNameBytes name
    → NoNameFirst rest
    → split_name (name ++ rest) ≡ (name, rest)
unfolding split_name
split_name-append [] [] h k = refl
split_name-append [] (c ∷ t) h k = rw k refl
split_name-append (c ∷ t) rest h k = rw (h.0, split_name-append t rest h.1 k) refl

name_byte_ne :
    (c : ℕ)
    → is_name_byte c ≡ true
    → ((c == b'$') ≡ false) × ((c == b'?') ≡ false) × ((c == b'{') ≡ false)
name_byte_ne c h = (ground arith, ground arith, ground arith)

-- the round that a token takes
abbrev Round : Token → Text → Type 0
Round k rest =
    (c : ℕ) × (t : Text) × (token_text k ++ rest ≡ c ∷ t) × (first_piece c t ≡ (piece_of k, rest))

round_lem : (k : Token) (rest : Text) → IsToken k rest → Round k rest
unfolding first_piece dollar_piece braced_piece named_piece
round_lem (byte c) rest h = (c, rest, refl, rw h refl)
round_lem own_pid rest h = (b'$', b'$' ∷ rest, refl, refl)
round_lem last_status rest h = (b'$', b'?' ∷ rest, refl, refl)
round_lem (braced name) rest h = (
  b'$',
  b'{' ∷ (name ++ b'}' ∷ rest),
  ap (λ u. b'$' ∷ b'{' ∷ u) (append_assoc name (b'}' ∷ []) rest),
  rw (cut_at-append b'}' name rest h.0, take_all 127 name h.1) refl,
)
round_lem (bare []) rest h = absurd (omega arith)
round_lem (bare (c ∷ t)) rest (nonempty, (letter, letters), stop, short) = (
  b'$',
  c ∷ (t ++ rest),
  refl,
  let (a, b, d) = name_byte_ne c letter in
      rw
        (a, b, d, split_name-append (c ∷ t) rest (letter, letters) stop, take_all 127 (c ∷ t) short)
        refl,
)

length-line_text :
    (k : Token) (ks : List Token) (behind : Text)
    → length (line_text ks behind) < length (line_text (k ∷ ks) behind)
length-line_text (byte c) ks behind = omega arith
length-line_text own_pid ks behind = omega arith
length-line_text last_status ks behind = omega arith
length-line_text (braced name) ks behind =
    omega (arith, length-append (name ++ b'}' ∷ []) (line_text ks behind))
length-line_text (bare name) ks behind = omega (arith, length-append name (line_text ks behind))

empty_of_length : (t : Text) → length t ≡ 0 → t ≡ []
empty_of_length [] h = refl
empty_of_length (c ∷ t) h = absurd (omega arith)

append_fitting_fits :
    (out v : Text) → length out + length v < max_cmd_len → append_fitting out v ≡ out ++ v
append_fitting_fits out v h = ground arith

append_value_fits :
    (out : Text) (o : Option Text)
    → length out + length (text_or_empty o) < max_cmd_len
    → append_value out o ≡ out ++ text_or_empty o
append_value_fits out none h = sym (append-nil out)
append_value_fits out (some v) h = append_fitting_fits out v h

module _ (e : Environment) where
  put_piece-fits :
      (out : Text) (k : Token)
      → length out + length (token_value e k) < max_cmd_len
      → put_piece e out (piece_of k) ≡ out ++ token_value e k
  unfolding put_piece
  put_piece-fits out (byte c) h = refl
  put_piece-fits out own_pid h = append_fitting_fits out _ h
  put_piece-fits out last_status h = append_fitting_fits out _ h
  put_piece-fits out (braced name) h = append_value_fits out (e.getenv name) h
  put_piece-fits out (bare name) h = append_value_fits out (e.getenv name) h

  terminated-fits :
      (out v : Text) → length v ≡ 0 → length out < max_cmd_len → terminated e out ≡ ok (out ++ v)
  unfolding terminated
  terminated-fits out v h fits = rw (empty_of_length v h, append-nil out) (ground arith)

  expand_from-line :
      (n : ℕ) (out : Text) (ks : List Token)
      → length (line_text ks []) < n
      → length out + length (line_value e ks) < max_cmd_len
      → AreTokens ks []
      → expand_from e n out (line_text ks []) ≡ ok (out ++ line_value e ks)
  unfolding expand_from
  expand_from-line zero out ks h fits are = absurd (omega arith)
  expand_from-line (suc n) out [] h fits are = terminated-fits out [] refl (omega arith)
  expand_from-line (suc n) out (k ∷ ks) h fits are =
      let (c, t, text, found) = round_lem k (line_text ks []) are.0 in
      let sum = length-append (token_value e k) (line_value e ks) in
      let shorter = length-line_text k ks [] in
      elim (Bool-cases (ltb (length out) (max_cmd_len - 1))) [
        | inr full ↦ rw (text, full) (terminated-fits out _ (ground arith) (omega arith))
        | inl room ↦
            rw (text, room, found, put_piece-fits out k (omega arith))
              (expand_from-line n (out ++ token_value e k) ks (omega arith)
                  (omega (arith, length-append out (token_value e k))) are.1
                ∙ ap (λ u. ok u) (append_assoc out (token_value e k) (line_value e ks)))
      ]

  -- The loop gets through the tokens, with rounds left for what follows them.
  expand_from-prefix :
      (n : ℕ) (out : Text) (ks : List Token) (behind : Text)
      → length (line_text ks behind) < n
      → length out + length (line_value e ks) < max_cmd_len - 1
      → AreTokens ks behind
      → (m : ℕ) × (length behind < m)
        × (expand_from e n out (line_text ks behind)
            ≡ expand_from e m (out ++ line_value e ks) behind)
  unfolding expand_from
  expand_from-prefix zero out ks behind h fits are = absurd (omega arith)
  expand_from-prefix (suc n) out [] behind h fits are = (suc n, h, rw (append-nil out) refl)
  expand_from-prefix (suc n) out (k ∷ ks) behind h fits are =
      let (c, t, text, found) = round_lem k (line_text ks behind) are.0 in
      let sum = length-append (token_value e k) (line_value e ks) in
      let shorter = length-line_text k ks behind in
      let room : ltb (length out) (max_cmd_len - 1) ≡ true = ground arith in
      let (m, more, same) =
        expand_from-prefix n (out ++ token_value e k) ks behind (omega arith)
          (omega (arith, length-append out (token_value e k))) are.1 in
      (
        m,
        more,
        rw (text, room, found, put_piece-fits out k (omega arith))
            (same
              ∙ ap (λ u. expand_from e m u behind)
                  (append_assoc out (token_value e k) (line_value e ks))),
      )

  overflowing_end :
      (m : ℕ) (out : Text)
      → 2 < m
      → length out ≡ 1022
      → expand_from e m out (b'$' ∷ b'{' ∷ []) ≡ undefined
  unfolding expand_from first_piece dollar_piece braced_piece cut_at put_piece terminated
  overflowing_end (suc (suc m)) out h size =
      let room : ltb (length out) 1023 ≡ true = ground arith in
      let over : ltb (length (out ++ b'$' ∷ b'{' ∷ [])) 1024 ≡ false =
        ground (arith, length-append out (b'$' ∷ b'{' ∷ [])) in
      rw (room, over) refl
  overflowing_end _ out h size = absurd (omega arith)

-- In a line of bytes other than `$` and of `$$`, `$?`, `${name}` and `$name`, each is replaced by its
-- value, and an unset variable by nothing, when all of it has less than 1024 bytes.
pub expand_env-line_text :
    (e : Environment) (ks : List Token)
    → AreTokens ks []
    → length (line_value e ks) < max_cmd_len
    → expand_env e (line_text ks []) ≡ ok (line_value e ks)
unfolding expand_env
expand_env-line_text e ks are fits =
    expand_from-line e (length (line_text ks []) + 1) [] ks (omega arith) (omega arith) are

-- Where the values of such a line have 1022 bytes, and `${` stands behind it, the expansion writes
-- outside its buffer.
pub expand_env-overflows :
    (e : Environment) (ks : List Token)
    → AreTokens ks (b'$' ∷ b'{' ∷ [])
    → length (line_value e ks) ≡ 1022
    → expand_env e (line_text ks (b'$' ∷ b'{' ∷ [])) ≡ undefined
unfolding expand_env
expand_env-overflows e ks are size =
    let line = line_text ks (b'$' ∷ b'{' ∷ []) in
    let (m, more, same) =
      expand_from-prefix e (length line + 1) [] ks (b'$' ∷ b'{' ∷ []) (omega arith) (omega arith)
        are in
    same ∙ overflowing_end e m (line_value e ks) more size

-- ===== src/Fs/Paths/Join.antt =====
-- The walk of `find_inode_by_path` in oscdfs/src/dir.c over a path in two parts.
use ostd_final.Common.{
  ℕ, take_all, length-append, ◌+◌, ◌<◌, ◌≡◌, refl, sym, ap, ◌∙◌, Bool, true, false, inl, inr, List,
  [], ◌∷◌, ◌++◌, length, arith, Bool-cases,
}
use ostd_final.Common.Exec.{Outcome, ok, fail, exited, undefined, unfinished, and_then, Exec, ◌>>=◌}
use ostd_final.Common.Text.{Text, str_eq, tokens, parts_from, not_empty}
use ostd_final.Fs.State.{Device, Fs, Cmd}
use ostd_final.Fs.Dir.{dot, dir_find_entry}
use ostd_final.Fs.Paths.{is_slash, start_of, walk, find_inode_by_path, max_cmd_len}

-- a path that does not begin at the root
abbrev pub IsRelative : Text → Type 0
IsRelative [] = Unit {0}
IsRelative (c ∷ t) = is_slash c ≡ false

parts_from-append :
    (sep : ℕ → Bool) (c : ℕ) (open_part a b : Text)
    → sep c ≡ true
    → parts_from sep open_part (a ++ c ∷ b) ≡ parts_from sep open_part a ++ parts_from sep [] b
unfolding parts_from
parts_from-append sep c open_part [] b e = rw e refl
parts_from-append sep c open_part (d ∷ a) b e = elim (Bool-cases (sep d)) [
  | inl cut ↦ ground (arith, parts_from-append sep c [] a b e)
  | inr inner ↦ ground (arith, parts_from-append sep c (open_part ++ d ∷ []) a b e)
]

not_empty-append : (xs ys : List Text) → not_empty (xs ++ ys) ≡ not_empty xs ++ not_empty ys
unfolding not_empty
not_empty-append [] ys = refl
not_empty-append ([] ∷ xs) ys = not_empty-append xs ys
not_empty-append ((c ∷ t) ∷ xs) ys = ap (λ ts. (c ∷ t) ∷ ts) (not_empty-append xs ys)

tokens-append :
    (sep : ℕ → Bool) (c : ℕ) (a b : Text)
    → sep c ≡ true
    → tokens sep (a ++ c ∷ b) ≡ tokens sep a ++ tokens sep b
unfolding tokens
tokens-append sep c a b e =
    ap not_empty (parts_from-append sep c [] a b e) ∙ not_empty-append (parts_from sep [] a) _

and_then_assoc :
    {S A B C : Type 0} (r : Outcome A × S) (f : A → Exec S B) (g : B → Exec S C)
    → and_then (and_then r f) g ≡ and_then r (λ a s. and_then (f a s) g)
and_then_assoc (ok a, s) f g = refl
and_then_assoc (fail, s) f g = refl
and_then_assoc (exited, s) f g = refl
and_then_assoc (undefined, s) f g = refl
and_then_assoc (unfinished, s) f g = refl

start_of-relative : (t : Text) (i : ℕ) → IsRelative t → start_of t i ≡ i
unfolding start_of
start_of-relative [] i h = refl
start_of-relative (c ∷ t) i h = rw h refl

module _ ⦃dev : Device⦄ where
  walk-append :
      (xs ys : List Text) (i : ℕ) (s : Fs) → walk (xs ++ ys) i s ≡ and_then (walk xs i s) (walk ys)
  unfolding walk
  walk-append [] ys i s = refl
  walk-append (x ∷ xs) ys i s = go (λ j u. walk-append xs ys j u) (str_eq x dot)
    where
      go :
          (rest : (j : ℕ) (u : Fs) → walk (xs ++ ys) j u ≡ and_then (walk xs j u) (walk ys))
          (same : Bool)
          → (elim same as (λ b. Cmd ℕ) [
            | true ↦ walk (xs ++ ys) i
            | false ↦ dir_find_entry i x >>= walk (xs ++ ys)
          ])
              s
            ≡ and_then
                ((elim same as (λ b. Cmd ℕ) [
                  | true ↦ walk xs i
                  | false ↦ dir_find_entry i x >>= walk xs
                ])
                  s)
                (walk ys)
      go rest true = rest i s
      go rest false =
          ap (and_then (dir_find_entry i x s)) (λ k a u. rest a u k)
          ∙ sym (and_then_assoc (dir_find_entry i x s) (walk xs) (walk ys))

  find_short :
      (path : Text) (start : ℕ) (s : Fs)
      → length path < max_cmd_len
      → find_inode_by_path path start s ≡ walk (tokens is_slash path) (start_of path start) s
  unfolding find_inode_by_path
  find_short path start s p =
      ap (λ t. walk (tokens is_slash t) (start_of t start) s) (take_all 1023 path (omega arith))

  -- A path whose second part is relative is walked part by part.
  pub find_inode_by_path-append :
      (c : ℕ) (t rest : Text) (start : ℕ) (s : Fs)
      → IsRelative rest
      → length (c ∷ t) + 1 + length rest < max_cmd_len
      → find_inode_by_path (c ∷ t ++ b'/' ∷ rest) start s
        ≡ and_then (find_inode_by_path (c ∷ t) start s) (find_inode_by_path rest)
  unfolding start_of
  find_inode_by_path-append c t rest start s h p =
      let begin = start_of (c ∷ t) start in
      find_short (c ∷ t ++ b'/' ∷ rest) start s (omega (arith, length-append t (b'/' ∷ rest)))
      ∙ ap (λ ts. walk ts begin s) (tokens-append is_slash (b'/') (c ∷ t) rest refl)
      ∙ walk-append (tokens is_slash (c ∷ t)) (tokens is_slash rest) begin s
      ∙ ap (and_then (walk (tokens is_slash (c ∷ t)) begin s)) (λ k a u. sym (second a u) k)
      ∙ ap (λ r. and_then r (find_inode_by_path rest))
          (sym (find_short (c ∷ t) start s (omega arith)))
    where
      second : (a : ℕ) (u : Fs) → find_inode_by_path rest a u ≡ walk (tokens is_slash rest) a u
      second a u =
          find_short rest a u (omega arith)
          ∙ ap (λ i. walk (tokens is_slash rest) i u) (start_of-relative rest a h)

-- ===== src/Common/Text.antt =====
-- C strings as lists of bytes without the closing NUL.
use ostd_final.Common.{
  ℕ, ◌≡◌, refl, ◌↔◌, Bool, true, false, ◌&&◌, List, [], ◌∷◌, ◌++◌, Option, none, some, arith, ◌==◌,
  take, if◌then◌else◌,
}
use Prim.Native.Char.{code}
use Prim.Native.String.{String}

abbrev pub Text : Type 0
Text = List ℕ

-- a string literal of the source
abbrev pub codes : String → Text
codes String.[] = []
codes (String.◌∷◌ c s) = code c ∷ codes s

-- strcmp(a, b) == 0
unfoldable pub str_eq : Text → Text → Bool
str_eq [] [] = true
str_eq [] (b ∷ ys) = false
str_eq (a ∷ xs) [] = false
str_eq (a ∷ xs) (b ∷ ys) = a == b && str_eq xs ys

pub str_eq_iff : (a b : Text) → (str_eq a b ≡ true) ↔ (a ≡ b)
unfolding str_eq
str_eq_iff [] [] = (λ h. refl, λ h. refl)
str_eq_iff [] (b ∷ ys) = (λ h. cc, λ h. cc)
str_eq_iff (a ∷ xs) [] = (λ h. cc, λ h. cc)
str_eq_iff (a ∷ xs) (b ∷ ys) = (
  λ h.
      let tail : xs ≡ ys = (str_eq_iff xs ys).0 (ground arith) in
      let head : a ≡ b = ground arith in cc,
  λ h. ground (arith, (str_eq_iff xs ys).1 (cc)),
)

-- strncpy(dst, src, n) and the NUL at dst[n]
abbrev pub copy_text : ℕ → Text → Text
copy_text n src = take n src

-- the first part of a text, up to the first byte that a test holds of, and what lies behind that byte
unfoldable pub cut_at : (ℕ → Bool) → Text → Text × Option Text
cut_at stop [] = ([], none)
cut_at stop (c ∷ t) =
    let (first, rest) = cut_at stop t in if stop c then ([], some t) else (c ∷ first, rest)

-- the parts of a text between single separators; the first one is open, and starts with `open_part`
unfoldable pub parts_from : (ℕ → Bool) → Text → Text → List Text
parts_from sep open_part [] = open_part ∷ []
parts_from sep open_part (c ∷ t) = elim (sep c) [
  | true ↦ open_part ∷ parts_from sep [] t
  | false ↦ parts_from sep (open_part ++ c ∷ []) t
]

unfoldable pub not_empty : List Text → List Text
not_empty [] = []
not_empty ([] ∷ ts) = not_empty ts
not_empty ((c ∷ t) ∷ ts) = (c ∷ t) ∷ not_empty ts

-- all that repeated calls of strtok return
unfoldable pub tokens : (ℕ → Bool) → Text → List Text
tokens sep t = not_empty (parts_from sep [] t)

-- ===== src/Shell/Session/Aliases.antt =====
-- The alias expansion of the main loop of oscdsh/src/main.c.
use ostd_final.Common.{
  ℕ, zero, suc, ◌≤◌, ◌<◌, ◌≡◌, refl, ap, ◌∙◌, ◌⊎◌, inl, inr, true, false, none, some, List, [], ◌∷◌,
  ◌++◌, length, take, drop, arith, Option-cases, length-take_le,
}
use mathlib.Core.List.{append-nil, append_assoc}
use ostd_final.Common.Text.{Text, tokens, parts_from, not_empty}
use ostd_final.Shell.Alias.{Alias, get_alias_value}
use ostd_final.Shell.Command.{is_gap}
use ostd_final.Shell.History.{max_cmd_len}
use ostd_final.Shell.Session.{
  line_of, first_of, first_word, skip_gaps, alias_of, substituted, expand_aliases, max_expand,
}

-- What comes out of the expansion does not begin with an alias, and fits `line`.
pub expand_aliases-resolved :
    (n : ℕ) (aliases : List Alias) (line : Text) {line' : Text}
    → length line ≤ 1023
    → expand_aliases n aliases line ≡ some line'
    → (alias_of aliases (first_word line') ≡ none) × (length line' ≤ 1023)
unfolding expand_aliases substituted
expand_aliases-resolved zero aliases line le h = cc
expand_aliases-resolved (suc n) aliases line {line'} le h =
    elim (Option-cases (alias_of aliases (first_word line))) [
      | inl nothing ↦
          let same : line ≡ line' = ground arith in (rw (← same) nothing, rw (← same) le)
      | inr ((first, value), found) ↦
          let rest : expand_aliases n aliases (substituted first value line) ≡ some line' =
            ground arith in
          expand_aliases-resolved n aliases (substituted first value line) (length-take_le 1023 _)
            rest
    ]

-- a word of the line: not empty, and without blanks and tabs
abbrev NoGap : Text → Type 0
NoGap [] = Unit {0}
NoGap (c ∷ t) = (is_gap c ≡ false) × NoGap t

abbrev pub IsWord : Text → Type 0
IsWord t = (0 < length t) × NoGap t

-- the text begins with the word, and ends there or goes on with a blank or tab
abbrev pub BeginsWith : (word t : Text) → Type 0
BeginsWith word t =
    (t ≡ word) ⊎ ((gap : ℕ) × (u : Text) × (is_gap gap ≡ true) × (t ≡ word ++ gap ∷ u))

take-append_gap :
    (n : ℕ) (w : Text) (g : ℕ) (y : Text)
    → length w < n
    → (y' : Text) × (take n (w ++ g ∷ y) ≡ w ++ g ∷ y')
take-append_gap zero w g y h = absurd (omega arith)
take-append_gap (suc n) [] g y h = (take n y, refl)
take-append_gap (suc n) (c ∷ w) g y h =
    let (y', same) = take-append_gap n w g y (omega arith) in (y', ap (λ u. c ∷ u) same)

parts_from-append_gap :
    (o w : Text) (g : ℕ) (y : Text)
    → NoGap w
    → is_gap g ≡ true
    → parts_from is_gap o (w ++ g ∷ y) ≡ (o ++ w) ∷ parts_from is_gap [] y
unfolding parts_from
parts_from-append_gap o [] g y h k = rw (k, parts_from) (rw (append-nil o) refl)
parts_from-append_gap o (c ∷ w) g y h k =
    rw (h.0, parts_from)
      (parts_from-append_gap (o ++ c ∷ []) w g y h.1 k
        ∙ ap (λ u. u ∷ parts_from is_gap [] y) (append_assoc o (c ∷ []) w))

first_word-append_gap :
    (w : Text) (g : ℕ) (y : Text)
    → IsWord w
    → length w < 1023
    → is_gap g ≡ true
    → first_word (line_of (w ++ g ∷ y)) ≡ some w
unfolding first_word tokens not_empty
first_word-append_gap [] g y h short k = absurd (omega arith)
first_word-append_gap (c ∷ w) g y h short k =
    let (y', once) = take-append_gap 1023 (c ∷ w) g y short in
    let (y'', again) = take-append_gap 1023 (c ∷ w) g y' short in
    ap (λ u. first_of (tokens is_gap u)) (ap (λ u. take 1023 u) once ∙ again)
    ∙ ap (λ u. first_of (not_empty u)) (parts_from-append_gap [] (c ∷ w) g y'' h.1 k)

substituted_again :
    (w v line : Text)
    → IsWord w
    → length w < 1023
    → BeginsWith w v
    → first_word (substituted w v line) ≡ some w
unfolding substituted
substituted_again w v line word short (inl same) =
    rw same (first_word-append_gap w b' ' _ word short refl)
substituted_again w v line word short (inr (g, u, gap, same)) =
    rw (same, append_assoc w (g ∷ u) (b' ' ∷ skip_gaps (drop (length w) line)))
      (first_word-append_gap w g _ word short gap)

self_alias-refused :
    (n : ℕ) (aliases : List Alias) (w v line : Text)
    → IsWord w
    → length w < 1023
    → BeginsWith w v
    → get_alias_value w aliases ≡ some v
    → first_word line ≡ some w
    → expand_aliases n aliases line ≡ none
unfolding expand_aliases alias_of first_word tokens not_empty parts_from
self_alias-refused zero aliases w v line word short begins has first = refl
self_alias-refused (suc n) aliases w v line word short begins has first =
    rw (first, has)
      (self_alias-refused n aliases w v (substituted w v line) word short begins has
        (substituted_again w v line word short begins))

-- In at most ten rounds the expansion either refuses a line of less than 1024 bytes, or gives one of
-- less than 1024 bytes whose first word is no alias. It refuses every line that begins with an alias
-- of less than 1023 bytes whose value begins with the same word.
pub expand_aliases_lem :
    (aliases : List Alias) (line : Text)
    → length line < max_cmd_len
    → ((expand_aliases max_expand aliases line ≡ none)
        ⊎ ((line' : Text) × (expand_aliases max_expand aliases line ≡ some line')
            × (alias_of aliases (first_word line') ≡ none)
            × (length line' < max_cmd_len)))
      × ((word value : Text)
          → first_word line ≡ some word
          → IsWord word
          → length word < 1023
          → get_alias_value word aliases ≡ some value
          → BeginsWith word value
          → expand_aliases max_expand aliases line ≡ none)
expand_aliases_lem aliases line short = (
  elim (Option-cases (expand_aliases max_expand aliases line)) [
    | inl refused ↦ inl refused
    | inr (line', found) ↦
        let (resolved, le) = expand_aliases-resolved max_expand aliases line (omega arith) found in
        inr (line', found, resolved, omega arith)
  ],
  λ word value first is_word le has begins.
      self_alias-refused max_expand aliases word value line is_word le begins has first,
)

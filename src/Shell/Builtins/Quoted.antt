-- ===== src/Shell/Builtins/Quoted.antt =====
-- `alias` of oscdsh/src/builtin.c with a value in quotes.
use ostd_final.Common.{
  ℕ, ◌+◌, ◌≤◌, ◌<◌, ◌≡◌, refl, sym, ap, ◌∙◌, ◌⊎◌, Bool, true, false, ◌&&◌, some, List, [], ◌∷◌,
  ◌++◌, ◌==◌, leb, ltb, length, length-append, take_all, arith, if◌then◌else◌,
}
use mathlib.Core.List.{append_assoc}
use ostd_final.Common.Exec.{ok}
use ostd_final.Common.Text.{Text, str_eq, cut_at}
use ostd_final.Shell.Alias.{get_alias_value, has_alias, add_alias, max_aliases}
use ostd_final.Shell.Alias.Unique.{get-add_alias}
use ostd_final.Shell.Command.{is_one_of}
use ostd_final.Shell.History.{max_cmd_len}
use ostd_final.Shell.Plan.{has_byte, ends_with, without_last}
use ostd_final.Shell.Plan.Cut.{cut_at-append}
use ostd_final.Shell.Builtins.{
  Process, definition_in, quote, controls, join_args, unquoted, value_array, add_joined,
  define_alias, builtin_alias,
}

-- The words of a value with single blanks between them.
abbrev pub spaced : (first : Text) → List Text → Text
spaced first [] = first
spaced first (w ∷ ws) = first ++ b' ' ∷ spaced w ws

-- the arguments that a quoted value of such words gives, behind a beginning of the first one
abbrev pub quoted_args : (begin first : Text) → List Text → List Text
quoted_args begin first [] = (begin ++ (first ++ quote ∷ [])) ∷ []
quoted_args begin first (w ∷ ws) = (begin ++ first) ∷ quoted_args [] w ws

-- A word has no quote, and is none of `>`, `>>`, `<` and `|`.
abbrev pub IsPlain : Text → Type 0
IsPlain w = (has_byte quote w ≡ false) × (is_one_of controls w ≡ false)

abbrev pub ArePlain : List Text → Type 0
ArePlain [] = Unit {0}
ArePlain (w ∷ ws) = IsPlain w × ArePlain ws

ends_with-append :
    (c : ℕ) (t : Text) (d : ℕ) (u : Text) → ends_with c (t ++ d ∷ u) ≡ ends_with c (d ∷ u)
unfolding ends_with
ends_with-append c [] d u = refl
ends_with-append c (x ∷ []) d u = refl
ends_with-append c (x ∷ y ∷ t) d u = ends_with-append c (y ∷ t) d u

ends_with-has_byte : (c : ℕ) (t : Text) → has_byte c t ≡ false → ends_with c t ≡ false
unfolding ends_with has_byte
ends_with-has_byte c [] h = refl
ends_with-has_byte c (d ∷ []) h = ground arith
ends_with-has_byte c (d ∷ e ∷ t) h = ends_with-has_byte c (e ∷ t) (ground arith)

-- what ends with a blank and a word without a quote does not end with a quote
open_word : (v w : Text) → has_byte quote w ≡ false → ends_with quote (v ++ b' ' ∷ w) ≡ false
unfolding has_byte
open_word v w h = ends_with-append quote v (b' ') w ∙ ends_with-has_byte quote (b' ' ∷ w) h

closed_word : (v w : Text) → ends_with quote (v ++ b' ' ∷ (w ++ quote ∷ [])) ≡ true
unfolding ends_with
closed_word v w =
    ap (λ t. ends_with quote t) (sym (append_assoc v (b' ' ∷ w) (quote ∷ [])))
    ∙ ends_with-append quote (v ++ b' ' ∷ w) quote []

-- a word with a quote at its end is no control word
not_control : (w : Text) → is_one_of controls (w ++ quote ∷ []) ≡ false
unfolding is_one_of str_eq
not_control [] = refl
not_control (c ∷ []) = ground arith
not_control (c ∷ d ∷ []) = ground arith
not_control (c ∷ d ∷ e ∷ w) = ground arith

and_false : (b : Bool) → (b && false) ≡ false
and_false true = refl
and_false false = refl

-- The loop puts the words together again, and stops behind the quote.
join_args-quoted :
    (first : Text) (ws : List Text) (value : Text)
    → IsPlain first
    → ArePlain ws
    → length value + length (spaced first ws) + 2 < max_cmd_len
    → join_args true value (quoted_args [] first ws)
      ≡ ok (value ++ b' ' ∷ (spaced first ws ++ quote ∷ []))
unfolding join_args
join_args-quoted first [] value plain are fits =
    let size = length-append value (b' ' ∷ (first ++ quote ∷ [])) in
    let size' = length-append first (quote ∷ []) in
    let short : leb max_cmd_len (length (value ++ b' ' ∷ (first ++ quote ∷ []))) ≡ false =
      ground arith in
    let long : ltb 1 (length (value ++ b' ' ∷ (first ++ quote ∷ []))) ≡ true = ground arith in
    rw (not_control first, short, long, closed_word value first) refl
join_args-quoted first (w ∷ ws) value plain are fits =
    let size = length-append value (b' ' ∷ first) in
    let size' = length-append first (b' ' ∷ spaced w ws) in
    let short : leb max_cmd_len (length (value ++ b' ' ∷ first)) ≡ false = ground arith in
    rw
      (
        plain.1,
        short,
        open_word value first plain.0,
        and_false (ltb 1 (length (value ++ b' ' ∷ first))),
      )
      (join_args-quoted w ws (value ++ b' ' ∷ first) are.0 are.1 (omega arith)
        ∙ ap (λ t. ok t)
            (append_assoc value (b' ' ∷ first) (b' ' ∷ (spaced w ws ++ quote ∷ []))
              ∙ ap (λ t. value ++ b' ' ∷ t)
                  (sym (append_assoc first (b' ' ∷ spaced w ws) (quote ∷ [])))))

without_last-append : (t : Text) (c : ℕ) → without_last (t ++ c ∷ []) ≡ t
unfolding without_last
without_last-append [] c = refl
without_last-append (d ∷ []) c = refl
without_last-append (d ∷ e ∷ t) c = ap (λ u. d ∷ u) (without_last-append (e ∷ t) c)

unquoted_lem : (t : Text) → unquoted (quote ∷ (t ++ quote ∷ [])) ≡ t
unfolding unquoted ends_with
unquoted_lem t =
    let size = length-append t (quote ∷ []) in
    let long : leb 2 (length (quote ∷ (t ++ quote ∷ []))) ≡ true = ground arith in
    rw (long, ends_with-append quote (quote ∷ t) quote []) (without_last-append t quote)

definition_in-cut :
    (arg name value : Text) (more : List Text)
    → cut_at (λ c. c == b'=') arg ≡ (name, some value)
    → definition_in (arg ∷ more) ≡ some (name, value, more)
unfolding definition_in
definition_in-cut arg name value more h =
    rw (h, definition_in) (ap (λ r. some (r.0, value, more)) h)

definition_in-append :
    (name value behind : Text) (more : List Text)
    → has_byte b'=' name ≡ false
    → definition_in (((name ++ b'=' ∷ value) ++ behind) ∷ more) ≡ some (name, value ++ behind, more)
definition_in-append name value behind more h =
    ap (λ t. definition_in (t ∷ more)) (append_assoc name (b'=' ∷ value) behind)
    ∙ definition_in-cut _ name (value ++ behind) more (cut_at-append b'=' name (value ++ behind) h)

join_args-nil : (v : Text) → length v ≤ 1023 → join_args true (value_array v) [] ≡ ok v
unfolding join_args
join_args-nil v h = ap (λ t. ok t) (take_all 1023 v h)

-- a first argument with `=` and a quote, and what the loop makes of it and the others
quoted_definition :
    (name first : Text) (ws : List Text)
    → has_byte b'=' name ≡ false
    → has_byte quote first ≡ false
    → ArePlain ws
    → length (spaced first ws) + 2 < max_cmd_len
    → (begin : Text) × (more : List Text) × (definition_in
          (quoted_args (name ++ b'=' ∷ quote ∷ []) first ws)
        ≡ some (name, quote ∷ begin, more))
      × (join_args true (value_array (quote ∷ begin)) more
          ≡ ok (quote ∷ (spaced first ws ++ quote ∷ [])))
quoted_definition name first [] no_eq no_quote are fits = (
  first ++ quote ∷ [],
  [],
  definition_in-append name (quote ∷ []) (first ++ quote ∷ []) [] no_eq,
  join_args-nil (quote ∷ (first ++ quote ∷ [])) (omega (arith, length-append first (quote ∷ []))),
)
quoted_definition name first (w ∷ ws) no_eq no_quote are fits =
    let size = length-append first (b' ' ∷ spaced w ws) in
    (
      first,
      quoted_args [] w ws,
      definition_in-append name (quote ∷ []) first (quoted_args [] w ws) no_eq,
      ap (λ v. join_args true v (quoted_args [] w ws)) (take_all 1023 (quote ∷ first) (omega arith))
          ∙ join_args-quoted w ws (quote ∷ first) are.0 are.1 (omega arith)
          ∙ ap (λ t. ok (quote ∷ t)) (sym (append_assoc first (b' ' ∷ spaced w ws) (quote ∷ []))),
    )

define_alias-joined :
    (name begin value arg : Text) (more : List Text) (p : Process)
    → join_args true (value_array (quote ∷ begin)) more ≡ ok value
    → define_alias (some (name, quote ∷ begin, more)) arg p
      ≡ (ok 0, record p { aliases = add_alias name (unquoted value) p.aliases })
unfolding define_alias
define_alias-joined name begin value arg more p h = ap (λ r. add_joined name r p) h

builtin_alias-define :
    (args : List Text) (p : Process) {d : Text × Text × List Text}
    → definition_in args ≡ some d
    → (arg : Text) × (builtin_alias args p ≡ define_alias (some d) arg p)
unfolding builtin_alias definition_in
builtin_alias-define [] p h = cc
builtin_alias-define (arg ∷ args) p h = (arg, ap (λ o. define_alias o arg p) h)

-- `alias name='words'`, where the words have no quote and the later ones are no redirection or pipe,
-- returns 0; a lookup of the name then gives the words with single blanks between them, and every
-- other lookup what it gave before. The name has no `=` and at most 127 bytes, it is there or finds
-- room, and the value with its quotes has less than 1024 bytes.
pub get-builtin_alias :
    (name first : Text) (ws : List Text) (p : Process) (j : Text)
    → has_byte b'=' name ≡ false
    → length name ≤ 127
    → has_byte quote first ≡ false
    → ArePlain ws
    → length (spaced first ws) + 2 < max_cmd_len
    → (has_alias name p.aliases ≡ true) ⊎ (length p.aliases < max_aliases)
    → ((builtin_alias (quoted_args (name ++ b'=' ∷ quote ∷ []) first ws) p).0 ≡ ok 0)
      × (get_alias_value j
            (builtin_alias (quoted_args (name ++ b'=' ∷ quote ∷ []) first ws) p).1.aliases
          ≡ (if str_eq name j then some (spaced first ws) else get_alias_value j p.aliases))
get-builtin_alias name first ws p j no_eq short no_quote are fits room =
    let (begin, more, defined, joined) = quoted_definition name first ws no_eq no_quote are fits in
    let (arg, same) =
      builtin_alias-define (quoted_args (name ++ b'=' ∷ quote ∷ []) first ws) p defined in
    let whole =
      same
      ∙ define_alias-joined name begin (quote ∷ (spaced first ws ++ quote ∷ [])) arg more p
          joined in
    rw (whole, unquoted_lem (spaced first ws))
      (
        refl,
        rw
            (
              get-add_alias name (spaced first ws) j p.aliases short room,
              take_all 1023 (spaced first ws) (omega arith),
            )
            refl,
      )

-- ===== src/Shell/History/Recent.antt =====
-- `!?text?` and `!!` of oscdsh/src/history.c against the lines that were typed.
use ostd_final.Common.{
  ◌<◌, ◌≡◌, ◌⊎◌, refl, sym, ap, ◌∙◌, true, false, inl, inr, none, some, List, [], ◌∷◌, ◌++◌, ◌==◌,
  length, take, take_all, arith, Bool-cases,
}
use ostd_final.Common.Exec.{ok, fail}
use ostd_final.Common.Text.{Text, str_eq}
use ostd_final.Shell.History.{
  has_prefix, contains, reverse_search_history, before, trim_end, or_null, expand_event,
  expand_history, max_cmd_len,
}

-- A text as it may stand between the question marks: without `?`, `#` and NUL.
abbrev pub IsWord : Text → Type 0
IsWord [] = Unit {0}
IsWord (c ∷ t) = ((c == b'?') ≡ false) × ((c == b'#') ≡ false) × IsWord t

-- The first text stands somewhere in the second.
abbrev pub Occurs : Text → Text → Type 0
Occurs substr t = (a : Text) × (b : Text) × (t ≡ a ++ (substr ++ b))

abbrev pub AllLack : Text → List Text → Type 0
AllLack substr [] = Unit {0}
AllLack substr (line ∷ more) = ¬ Occurs substr line × AllLack substr more

-- The last line of the history with the text in it: the lines behind it lack the text.
pub record Latest (substr line : Text) (h : List Text) : Type 0 where
  pub earlier : List Text
  pub later : List Text
  pub place : h ≡ earlier ++ line ∷ later
  pub has : Occurs substr line
  pub lack : AllLack substr later

has_prefix-some : (p t : Text) → has_prefix p t ≡ true → (b : Text) × (t ≡ p ++ b)
unfolding has_prefix
has_prefix-some [] t h = (t, refl)
has_prefix-some (a ∷ p) [] h = cc
has_prefix-some (a ∷ p) (c ∷ t) h =
    let (b, e) = has_prefix-some p t (ground arith) in
    let same : c ≡ a = ground arith in (b, rw same (ap (λ u. a ∷ u) e))

has_prefix-append : (p b : Text) → has_prefix p (p ++ b) ≡ true
unfolding has_prefix
has_prefix-append [] b = refl
has_prefix-append (a ∷ p) b = ground (arith, has_prefix-append p b)

contains-Occurs : (substr t : Text) → contains substr t ≡ true → Occurs substr t
unfolding contains
contains-Occurs substr [] h = let (b, e) = has_prefix-some substr [] h in ([], b, e)
contains-Occurs substr (c ∷ t) h = elim (Bool-cases (has_prefix substr (c ∷ t))) [
  | inl here ↦ let (b, e) = has_prefix-some substr (c ∷ t) here in ([], b, e)
  | inr later ↦
      let (a, b, e) = contains-Occurs substr t (ground arith) in (c ∷ a, b, ap (λ u. c ∷ u) e)
]

contains-at : (substr a b : Text) → contains substr (a ++ (substr ++ b)) ≡ true
unfolding contains
contains-at substr [] b = contains-start (substr ++ b) (has_prefix-append substr b)
  where
    contains-start : (t : Text) → has_prefix substr t ≡ true → contains substr t ≡ true
    contains-start [] h = h
    contains-start (c ∷ t) h = ground arith
contains-at substr (c ∷ a) b = ground (arith, contains-at substr a b)

lacks_it : (substr t : Text) → contains substr t ≡ false → ¬ Occurs substr t
lacks_it substr t h (a, b, e) = ne (sym h ∙ ap (contains substr) e ∙ contains-at substr a b)
  where
    ne : false ≡ true → ⊥
    ne q = cc

-- The search ends with the last line that has the text, or without one.
reverse_search_cases :
    (substr : Text) (h : List Text)
    → ((reverse_search_history substr h ≡ none) × AllLack substr h)
      ⊎ ((line : Text) × (reverse_search_history substr h ≡ some line) × Latest substr line h)
unfolding reverse_search_history
reverse_search_cases substr [] = inl (refl, tt)
reverse_search_cases substr (line ∷ more) = elim (reverse_search_cases substr more) [
  | inr (found, e, l) ↦ inr (
    found,
    rw e refl,
    record {
      earlier = line ∷ l.earlier;
      later = l.later;
      place = ap (λ u. line ∷ u) l.place;
      has = l.has;
      lack = l.lack;
    },
  )
  | inl (e, lack) ↦ elim (Bool-cases (contains substr line)) [
    | inl here ↦ inr (
      line,
      rw (e, here) refl,
      record {
        earlier = [];
        later = more;
        place = refl;
        has = contains-Occurs substr line here;
        lack = lack;
      },
    )
    | inr gone ↦ inl (rw (e, gone) refl, (lacks_it substr line gone, lack))
  ]
]

before-word : (substr : Text) → IsWord substr → before b'?' (substr ++ b'?' ∷ []) ≡ substr
unfolding before
before-word [] w = refl
before-word (c ∷ t) w = rw w.0 (ap (λ u. c ∷ u) (before-word t w.2))

abbrev NoComment : Text → Type 0
NoComment [] = Unit {0}
NoComment (c ∷ t) = ((c == b'#') ≡ false) × NoComment t

IsWord-NoComment : (t : Text) → IsWord t → NoComment t
IsWord-NoComment [] w = tt
IsWord-NoComment (c ∷ t) w = (w.1, IsWord-NoComment t w.2)

-- No `#` cuts the event, which ends with a question mark.
before-event :
    (substr : Text) → NoComment substr → before b'#' (substr ++ b'?' ∷ []) ≡ substr ++ b'?' ∷ []
unfolding before
before-event [] w = refl
before-event (c ∷ t) w = rw w.0 (ap (λ u. c ∷ u) (before-event t w.1))

trim_end-event : (substr : Text) → trim_end (substr ++ b'?' ∷ []) ≡ substr ++ b'?' ∷ []
unfolding trim_end
trim_end-event [] = refl
trim_end-event (c ∷ []) = refl
trim_end-event (c ∷ d ∷ t) = rw (trim_end-event (d ∷ t)) refl

event_search :
    (substr : Text) (h : List Text)
    → IsWord substr
    → length substr < max_cmd_len
    → expand_event (b'?' ∷ substr ++ b'?' ∷ []) h ≡ or_null (reverse_search_history substr h)
unfolding expand_event str_eq
event_search substr h w p =
    ap (λ t. or_null (reverse_search_history (take 1023 t) h)) (before-word substr w)
    ∙ ap (λ t. or_null (reverse_search_history t h)) (take_all 1023 substr (omega arith))

trimmed_event :
    (substr : Text)
    → IsWord substr
    → trim_end (before b'#' (b'?' ∷ substr ++ b'?' ∷ [])) ≡ b'?' ∷ substr ++ b'?' ∷ []
trimmed_event substr w =
    ap trim_end (before-event (b'?' ∷ substr) (refl, IsWord-NoComment substr w))
    ∙ trim_end-event (b'?' ∷ substr)

expand_search :
    (substr : Text) (h : List Text)
    → IsWord substr
    → length substr < max_cmd_len
    → expand_history (b'!' ∷ b'?' ∷ substr ++ b'?' ∷ []) h
      ≡ or_null (reverse_search_history substr h)
unfolding expand_history
expand_search substr h w p =
    ap (λ t. expand_event t h) (trimmed_event substr w) ∙ event_search substr h w p

-- The event `!?text?`, for a text of less than 1024 bytes without `?` and `#`, is expanded to the last
-- line of the history with the text in it; without such a line it fails.
pub expand_history-Latest :
    (substr : Text) (h : List Text)
    → IsWord substr
    → length substr < max_cmd_len
    → ((expand_history (b'!' ∷ b'?' ∷ substr ++ b'?' ∷ []) h ≡ fail) × AllLack substr h)
      ⊎ ((line : Text) × (expand_history (b'!' ∷ b'?' ∷ substr ++ b'?' ∷ []) h ≡ ok line)
          × Latest substr line h)
expand_history-Latest substr h w p = elim (reverse_search_cases substr h) [
  | inl (e, lack) ↦ inl (expand_search substr h w p ∙ ap or_null e, lack)
  | inr (line, e, l) ↦ inr (line, expand_search substr h w p ∙ ap or_null e, l)
]

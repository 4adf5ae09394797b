-- ===== src/Shell/Alias/Unique.antt =====
-- Lookups in the alias table of oscdsh/src/alias.c after an addition.
use ostd_final.Common.{
  ℕ, zero, suc, ◌≤◌, ◌<◌, ◌≡◌, refl, ap, ◌⊎◌, inl, inr, true, false, none, some, List, [], ◌∷◌,
  ◌++◌, arith, leb, if◌then◌else◌, Bool-cases, length,
}
use ostd_final.Common.Text.{Text, str_eq, str_eq_iff, copy_text}
use ostd_final.Shell.Alias.{Alias, max_aliases, get_alias_value, has_alias, update_alias, add_alias}

-- No two entries have the same name.
abbrev pub Unique : List Alias → Type 0
Unique [] = Unit {0}
Unique (a ∷ more) = (has_alias a.name more ≡ false) × Unique more

pub get_of-has :
    (name : Text) (more : List Alias)
    → has_alias name more ≡ false
    → get_alias_value name more ≡ none
unfolding get_alias_value has_alias
get_of-has name [] h = refl
get_of-has name (a ∷ more) h = ground (arith, get_of-has name more)

get-update :
    (name value j : Text) (more : List Alias)
    → has_alias name more ≡ true
    → get_alias_value j (update_alias name value more)
      ≡ (if str_eq name j then some (copy_text 1023 value) else get_alias_value j more)
unfolding get_alias_value has_alias update_alias
get-update name value j [] h = cc
get-update name value j (a ∷ more) h = ground (
  arith,
  get-update name value j more,
  str_eq_iff a.name name,
  str_eq_iff a.name j,
  str_eq_iff name j,
)

get-append :
    (j : Text) (more : List Alias) (a : Alias)
    → has_alias a.name more ≡ false
    → get_alias_value j (more ++ a ∷ [])
      ≡ (if str_eq a.name j then some a.value else get_alias_value j more)
unfolding get_alias_value has_alias
get-append j [] a h = refl
get-append j (b ∷ more) a h =
    ground (
      arith,
      get-append j more a,
      str_eq_iff b.name j,
      str_eq_iff a.name j,
      str_eq_iff b.name a.name,
    )

pub short_copy : (n : ℕ) (t : Text) → length t ≤ n → copy_text n t ≡ t
short_copy zero [] h = refl
short_copy zero (c ∷ t) h = absurd (omega arith)
short_copy (suc n) [] h = refl
short_copy (suc n) (c ∷ t) h = ap (λ t. c ∷ t) (short_copy n t (omega arith))

-- After `add_alias` a lookup of the name gives the value, cut to 1023 bytes, and every other lookup
-- is as before. The name fits its array, and it is there already or the table has room.
pub get-add_alias :
    (name value j : Text) (more : List Alias)
    → length name ≤ 127
    → (has_alias name more ≡ true) ⊎ (length more < max_aliases)
    → get_alias_value j (add_alias name value more)
      ≡ (if str_eq name j then some (copy_text 1023 value) else get_alias_value j more)
unfolding add_alias
get-add_alias name value j more short room = elim (Bool-cases (has_alias name more)) [
  | inl there ↦ rw there (get-update name value j more there)
  | inr new ↦
      let free : leb max_aliases (length more) ≡ false = ground arith in
      rw (new, free, short_copy 127 name short)
        (get-append j more (record { name = name; value = copy_text 1023 value }) new)
]

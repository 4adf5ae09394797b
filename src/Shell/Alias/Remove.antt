-- ===== src/Shell/Alias/Remove.antt =====
-- Removal from the alias table of oscdsh/src/alias.c, which moves the last entry into the gap.
use ostd_final.Common.{◌≡◌, refl, false, ◌||◌, none, List, [], ◌∷◌, arith, if◌then◌else◌}
use ostd_final.Common.Text.{Text, str_eq, str_eq_iff}
use ostd_final.Shell.Alias.{
  Alias, get_alias_value, has_alias, last_of, init_of, fill_gap, remove_alias,
}
use ostd_final.Shell.Alias.Unique.{Unique, get_of-has}

has_of-get : (j : Text) (l : List Alias) → get_alias_value j l ≡ none → has_alias j l ≡ false
unfolding get_alias_value has_alias
has_of-get j [] h = refl
has_of-get j (a ∷ l) h = ground (arith, has_of-get j l)

pub has-fill_gap :
    (j : Text) (a : Alias) (l : List Alias)
    → (str_eq (last_of a l).name j || has_alias j (init_of a l)) ≡ has_alias j (a ∷ l)
unfolding has_alias last_of init_of
has-fill_gap j a [] = ground arith
has-fill_gap j a (b ∷ l) = ground (arith, has-fill_gap j b l)

-- Moving the last entry to the front changes no lookup.
get-fill_gap :
    (j : Text) (l : List Alias) → Unique l → get_alias_value j (fill_gap l) ≡ get_alias_value j l
unfolding get_alias_value fill_gap last_of init_of has_alias
get-fill_gap j [] u = refl
get-fill_gap j (a ∷ []) u = refl
get-fill_gap j (a ∷ b ∷ l) u = ground (
  arith,
  get-fill_gap j (b ∷ l) u.1,
  has-fill_gap a.name b l,
  u.0,
  str_eq_iff (last_of b l).name j,
  str_eq_iff (last_of b l).name a.name,
  str_eq_iff a.name j,
)

remove_found : (name : Text) (l : List Alias) → (remove_alias name l).1 ≡ has_alias name l
unfolding remove_alias has_alias
remove_found name [] = refl
remove_found name (a ∷ l) = ground (arith, remove_found name l)

-- After `remove_alias` the name is gone and every other lookup is as before, and the result says
-- whether the name was there. No two entries have the same name.
pub get-remove_alias :
    (name j : Text) (l : List Alias)
    → Unique l
    → (get_alias_value j (remove_alias name l).0
        ≡ (if str_eq name j then none else get_alias_value j l))
      × ((remove_alias name l).1 ≡ has_alias name l)
unfolding get_alias_value remove_alias has_alias
get-remove_alias name j [] u = (ground arith, refl)
get-remove_alias name j (a ∷ l) u =
    let ih = get-remove_alias name j l u.1 in
    (
      ground (
        arith,
        ih.0,
        get-fill_gap j l u.1,
        get_of-has a.name l u.0,
        str_eq_iff a.name name,
        str_eq_iff a.name j,
        str_eq_iff name j,
      ),
      ground (arith, ih.1),
    )

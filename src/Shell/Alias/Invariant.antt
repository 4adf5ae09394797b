-- ===== src/Shell/Alias/Invariant.antt =====
-- The well-formed tables of oscdsh/src/alias.c.
use ostd_final.Common.{
  suc, ◌≤◌, ◌≡◌, refl, ap, ◌∙◌, inl, inr, false, ◌||◌, List, [], ◌∷◌, ◌++◌, arith, leb, Bool-cases,
  length, length-append,
}
use ostd_final.Common.Text.{Text, str_eq, str_eq_iff, copy_text}
use ostd_final.Shell.Alias.{
  Alias, max_aliases, has_alias, update_alias, add_alias, last_of, init_of, fill_gap, remove_alias,
}
use ostd_final.Shell.Alias.Unique.{Unique, short_copy}
use ostd_final.Shell.Alias.Remove.{has-fill_gap}

has-update :
    (name value j : Text) (l : List Alias) → has_alias j (update_alias name value l) ≡ has_alias j l
unfolding has_alias update_alias
has-update name value j [] = refl
has-update name value j (a ∷ l) = ground (arith, has-update name value j l)

Unique-update : (name value : Text) (l : List Alias) → Unique l → Unique (update_alias name value l)
unfolding update_alias
Unique-update name value [] u = u
Unique-update name value (a ∷ l) u = elim (Bool-cases (str_eq a.name name)) [
  | inl e ↦ rw e (u.0, u.1)
  | inr e ↦ rw e (has-update name value a.name l ∙ u.0, Unique-update name value l u.1)
]

has-append :
    (j : Text) (l : List Alias) (a : Alias)
    → has_alias j (l ++ a ∷ []) ≡ (has_alias j l || str_eq a.name j)
unfolding has_alias
has-append j [] a = ground arith
has-append j (b ∷ l) a = ground (arith, has-append j l a)

Unique-append :
    (l : List Alias) (a : Alias) → Unique l → has_alias a.name l ≡ false → Unique (l ++ a ∷ [])
unfolding has_alias
Unique-append [] a u h = (refl, tt)
Unique-append (b ∷ l) a u h = (
  ground (arith, has-append b.name l a, str_eq_iff b.name a.name, str_eq_iff a.name b.name, u.0),
  Unique-append l a u.1 (ground arith),
)

length-update : (name value : Text) (l : List Alias) → length (update_alias name value l) ≡ length l
unfolding update_alias
length-update name value [] = refl
length-update name value (a ∷ l) = ground (arith, length-update name value l)

length-init_of : (a : Alias) (l : List Alias) → length (init_of a l) ≡ length l
unfolding init_of
length-init_of a [] = refl
length-init_of a (b ∷ l) = ap suc (length-init_of b l)

Unique-fill_gap : (l : List Alias) → Unique l → Unique (fill_gap l)
unfolding fill_gap has_alias last_of init_of
Unique-fill_gap [] u = u
Unique-fill_gap (a ∷ []) u = (refl, tt)
Unique-fill_gap (a ∷ b ∷ l) u =
    let ih = Unique-fill_gap (b ∷ l) u.1 in
    (
      ground (
        arith,
        has-fill_gap a.name b l,
        str_eq_iff a.name (last_of b l).name,
        str_eq_iff (last_of b l).name a.name,
        u.0,
        ih.0,
      ),
      (ground (arith, has-fill_gap a.name b l, u.0), ih.1),
    )

has-remove :
    (name j : Text) (l : List Alias)
    → has_alias j l ≡ false
    → has_alias j (remove_alias name l).0 ≡ false
unfolding has_alias remove_alias fill_gap
has-remove name j [] h = h
has-remove name j (a ∷ []) h = ground arith
has-remove name j (a ∷ b ∷ l) h = ground (arith, has-remove name j (b ∷ l), has-fill_gap j b l)

Unique-remove : (name : Text) (l : List Alias) → Unique l → Unique (remove_alias name l).0
unfolding remove_alias
Unique-remove name [] u = u
Unique-remove name (a ∷ l) u = elim (Bool-cases (str_eq a.name name)) [
  | inl e ↦ rw e (Unique-fill_gap l u.1)
  | inr e ↦ rw e (has-remove name a.name l u.0, Unique-remove name l u.1)
]

length-remove : (name : Text) (l : List Alias) → length (remove_alias name l).0 ≤ length l
unfolding remove_alias fill_gap
length-remove name [] = omega arith
length-remove name (a ∷ []) = ground arith
length-remove name (a ∷ b ∷ l) = ground (arith, length-remove name (b ∷ l), length-init_of b l)

-- Names are unique, and the entries fit the array.
pub record IsTable (l : List Alias) : Type 0 where
  pub unique : Unique l
  pub bounded : length l ≤ max_aliases

-- Adding and removing an alias with a name of at most 127 bytes keep the names in the table apart
-- and its entries within the array.
pub aliases-IsTable :
    (name value : Text) (l : List Alias)
    → length name ≤ 127
    → IsTable l
    → IsTable (add_alias name value l) × IsTable (remove_alias name l).0
unfolding add_alias
aliases-IsTable name value l short t = (
  elim (Bool-cases (has_alias name l)) [
    | inl there ↦ rw there (record {
      unique = Unique-update name value l t.unique;
      bounded = omega (arith, length-update name value l, t.bounded);
    })
    | inr new ↦ rw new (elim (Bool-cases (leb max_aliases (length l))) [
      | inl full ↦ rw full t
      | inr room ↦
          rw (room, short_copy 127 name short)
            (record {
              unique = Unique-append l _ t.unique new;
              bounded = ground (
                arith,
                length-append l (record { name = name; value = copy_text 1023 value } ∷ []),
              );
            })
    ])
  ],
  record {
    unique = Unique-remove name l t.unique;
    bounded = omega (arith, length-remove name l, t.bounded);
  },
)

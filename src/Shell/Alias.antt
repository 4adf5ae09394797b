-- ===== src/Shell/Alias.antt =====
-- oscdsh/src/alias.c: the first `alias_count` entries of the array are the list.
pub mod Unique
pub mod Remove
pub mod Invariant
use ostd_final.Common.{
  ℕ, Bool, true, false, ◌||◌, Option, none, some, List, [], ◌∷◌, ◌++◌, leb, if◌then◌else◌, length,
}
use ostd_final.Common.Text.{Text, str_eq, copy_text}

-- alias_t
pub record Alias : Type 0 where
  pub name : Text
  pub value : Text

abbrev pub max_aliases : ℕ
max_aliases = 64

-- the loops that look for a name
unfoldable pub get_alias_value : Text → List Alias → Option Text
get_alias_value name [] = none
get_alias_value name (a ∷ more) =
    if str_eq a.name name then some a.value else get_alias_value name more

unfoldable pub has_alias : Text → List Alias → Bool
has_alias name [] = false
has_alias name (a ∷ more) = str_eq a.name name || has_alias name more

-- the update of the first entry that has the name
unfoldable pub update_alias : Text → Text → List Alias → List Alias
update_alias name value [] = []
update_alias name value (a ∷ more) =
    if str_eq a.name name
    then record a { value = copy_text 1023 value } ∷ more
    else a ∷ update_alias name value more

unfoldable pub add_alias : Text → Text → List Alias → List Alias
add_alias name value more =
    if has_alias name more
    then update_alias name value more
    else if leb max_aliases (length more)
    then more
    else more ++ record { name = copy_text 127 name; value = copy_text 1023 value } ∷ []

-- the last entry of a list with a first entry a
unfoldable pub last_of : Alias → List Alias → Alias
last_of a [] = a
last_of a (b ∷ bs) = last_of b bs

-- all entries but the last
unfoldable pub init_of : Alias → List Alias → List Alias
init_of a [] = []
init_of a (b ∷ bs) = a ∷ init_of b bs

-- aliases[i] = aliases[alias_count - 1], at the head of the list, then alias_count--
unfoldable pub fill_gap : List Alias → List Alias
fill_gap [] = []
fill_gap (a ∷ more) = last_of a more ∷ init_of a more

-- the new table, and whether the name was found
unfoldable pub remove_alias : Text → List Alias → List Alias × Bool
remove_alias name [] = ([], false)
remove_alias name (a ∷ more) =
    let (rest, found) = remove_alias name more in
    if str_eq a.name name then (fill_gap more, true) else (a ∷ rest, found)

-- ===== src/Shell/Prompt.antt =====
-- The directory that get_prompt of oscdsh/src/prompt.c shows, with the home directory as `~`.
use ostd_final.Common.{
  ◌≡◌, refl, true, Option, none, some, [], ◌∷◌, ◌++◌, take, drop, length, arith, if◌then◌else◌,
}
use ostd_final.Common.Text.{Text, codes, copy_text}
use ostd_final.Shell.History.{has_prefix}

-- the working directory without the home directory in front of it
abbrev below_home : Text → Text
below_home [] = codes "~"
below_home (c ∷ t) = take 1023 (b'~' ∷ c ∷ t)

-- `getcwd` gives nothing where the path of the working directory has 1024 bytes or more
unfoldable pub shown_dir : (cwd home : Option Text) → Text
shown_dir none home = codes "?"
shown_dir (some cwd) none = copy_text 1023 cwd
shown_dir (some cwd) (some home) =
    if has_prefix home cwd then below_home (drop (length home) cwd) else copy_text 1023 cwd

has_prefix-append :
    (p rest : Text) → (has_prefix p (p ++ rest) ≡ true) × (drop (length p) (p ++ rest) ≡ rest)
unfolding has_prefix
has_prefix-append [] rest = (refl, refl)
has_prefix-append (c ∷ p) rest =
    let (prefix, behind) = has_prefix-append p rest in (ground (arith, prefix), behind)

-- Whatever stands behind the home directory, a slash or not, is shown behind `~`.
pub shown_dir-append :
    (home rest : Text) → shown_dir (some (home ++ rest)) (some home) ≡ take 1023 (b'~' ∷ rest)
unfolding shown_dir
shown_dir-append home rest =
    let (prefix, behind) = has_prefix-append home rest in rw (prefix, behind) (below rest)
  where
    below : (rest : Text) → below_home rest ≡ take 1023 (b'~' ∷ rest)
    below [] = refl
    below (c ∷ t) = refl

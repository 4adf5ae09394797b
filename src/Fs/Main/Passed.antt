-- ===== src/Fs/Main/Passed.antt =====
-- The options of oscdfs/src/main.c, and the arguments that FUSE gets.
use ostd_final.Common.{
  ◌≡◌, refl, ap, ◌∙◌, true, false, Option, some, List, [], ◌∷◌, ◌++◌, leb, length, length-append,
  arith, if◌then◌else◌,
}
use ostd_final.Common.Exec.{ok, undefined}
use ostd_final.Common.Text.{Text, codes, str_eq}
use ostd_final.Fs.Main.{
  Options, other, argument_of, options, is_fuse, parse_options, disk_of, passed_on, serve_fuse,
  fuse_start, start_with, start_of,
}

-- none of the options of the program
abbrev pub AllOther : List Text → Type 0
AllOther [] = Unit {0}
AllOther (a ∷ more) = (argument_of a ≡ other) × AllOther more

passed_on-AllOther : (args : List Text) → AllOther args → passed_on args ≡ args
unfolding passed_on
passed_on-AllOther [] h = refl
passed_on-AllOther (a ∷ []) h = rw (h.0, passed_on) refl
passed_on-AllOther (a ∷ b ∷ more) h =
    rw (h.0, passed_on) (ap (λ t. a ∷ t) (passed_on-AllOther (b ∷ more) h.1))

parse_options-AllOther :
    (args : List Text) (o : Options)
    → AllOther args
    → is_fuse o ≡ true
    → parse_options args o ≡ options o
unfolding parse_options
parse_options-AllOther [] o h fuse = refl
parse_options-AllOther (a ∷ []) o h fuse = rw (h.0, parse_options) (rw fuse refl)
parse_options-AllOther (a ∷ b ∷ more) o h fuse =
    rw (h.0, parse_options) (rw fuse (parse_options-AllOther (b ∷ more) o h.1 fuse))

fuse_start_lem :
    (image program : Text) (args kept : List Text) (mountpoint : Text)
    → passed_on args ≡ kept
    → fuse_start image program args mountpoint ≡ (
        if leb (length kept) 28
        then ok (serve_fuse image (program ∷ codes "-s" ∷ (kept ++ mountpoint ∷ [])))
        else undefined)
unfolding fuse_start
fuse_start_lem image program args kept mountpoint h =
    rw h (ground (arith, length-append kept (mountpoint ∷ [])))

-- With an image, a mountpoint and further arguments, of which none is an option of the program, FUSE
-- gets the name of the program, `-s`, those arguments in their order, and the mountpoint, if there are
-- at most 28 of them; with more the array for them overflows. OSCDISK counts only where the image is
-- `disk.img`.
pub start_of-fuse :
    (env : Option Text) (program image mountpoint : Text) (args : List Text)
    → AllOther args
    → start_of env program (codes "-f" ∷ image ∷ codes "-m" ∷ mountpoint ∷ args) ≡ (
        if leb (length args) 28
        then ok (serve_fuse (disk_of env image) (program ∷ codes "-s" ∷ (args ++ mountpoint ∷ [])))
        else undefined)
unfolding start_of parse_options argument_of str_eq
start_of-fuse env program image mountpoint args h =
    let o : Options = record { disk_path = image; do_init = false; mountpoint = some mountpoint } in
    ap (λ p. start_with env program (codes "-f" ∷ image ∷ codes "-m" ∷ mountpoint ∷ args) p)
      (parse_options-AllOther args o h refl)
    ∙ fuse_start_lem _ program (codes "-f" ∷ image ∷ codes "-m" ∷ mountpoint ∷ args) args mountpoint
        (unfold passed_on in passed_on-AllOther args h)

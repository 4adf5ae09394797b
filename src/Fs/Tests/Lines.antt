-- ===== src/Fs/Tests/Lines.antt =====
-- Command lines on which the lemmas about oscdfs/src/builtin.c and oscdfs/src/main.c run.
use ostd_final.Common.{◌≡◌, refl, none, List, [], ◌∷◌, ◌++◌, leb, length, if◌then◌else◌}
use ostd_final.Common.Exec.{ok, undefined}
use ostd_final.Common.Text.{Text, codes, str_eq}
use ostd_final.Fs.Main.{argument_of, disk_of, serve_fuse, start_of}
use ostd_final.Fs.Main.Passed.{AllOther, start_of-fuse}
use ostd_final.Fs.Commands.{builtin_cd, builtin_dir}
use ostd_final.Fs.Commands.Places.{Settled, cd-dir_lem}
use ostd_final.Fs.Tests.Calls.{open_image}
use ostd_final.Fs.Tests.Dirs.{steady}

cd-dir_lem_example :
    Settled open_image (builtin_cd (codes "." ∷ []) open_image)
    × ((builtin_dir (codes "." ∷ []) open_image).1 ≡ open_image)
cd-dir_lem_example = cd-dir_lem (codes "." ∷ []) open_image

abbrev fuse_options : List Text
fuse_options = codes "-o" ∷ codes "ro" ∷ []

fuse-AllOther : AllOther fuse_options
unfolding argument_of str_eq
fuse-AllOther = (refl, (refl, tt))

start_of-fuse_example :
    start_of none
      (codes "oscdfs")
      (codes "-f" ∷ codes "a.img" ∷ codes "-m" ∷ codes "/mnt" ∷ fuse_options)
    ≡ (if leb (length fuse_options) 28
        then ok (
            serve_fuse
              (disk_of none (codes "a.img"))
              (codes "oscdfs" ∷ codes "-s" ∷ (fuse_options ++ codes "/mnt" ∷ [])))
        else undefined)
start_of-fuse_example =
    start_of-fuse none (codes "oscdfs") (codes "a.img") (codes "/mnt") fuse_options fuse-AllOther

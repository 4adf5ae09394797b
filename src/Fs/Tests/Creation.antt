-- ===== src/Fs/Tests/Creation.antt =====
-- An image in which a file is created.
use ostd_final.Common.{
  ℕ, zero, suc, ◌≤◌, ◌<◌, ◌≡◌, ◌⊎◌, refl, ap, ◌∙◌, true, false, some, arith, ◌==◌, if◌then◌else◌,
}
use ostd_final.Common.Exec.{ok, fail}
use ostd_final.Common.Text.{str_eq, tokens, parts_from, not_empty}
use ostd_final.Fs.Bytes.{load32, store32}
use ostd_final.Fs.State.{Fs}
use ostd_final.Fs.Disk.{read_block}
use ostd_final.Fs.Inode.{read_inode}
use ostd_final.Fs.Inode.Table.{SameInode-refl, inode_at}
use ostd_final.Fs.Access.{is_dir, check_permission}
use ostd_final.Fs.Bitmap.{is_free}
use ostd_final.Fs.Bitmap.Alloc.{MetaOnly}
use ostd_final.Fs.Bitmap.Succeeds.{IsHealthy}
use ostd_final.Fs.Dir.{dir_find_entry, dot}
use ostd_final.Fs.Dir.Found.{IsDirectory, number_at, dir_find_entry_lem}
use ostd_final.Fs.Dir.Kept.{IsDirectory-kept, find-kept, entry_number-kept}
use ostd_final.Fs.Paths.{find_inode_by_path, walk, start_of}
use ostd_final.Fs.Calls.{split_path, at_last_slash, with_name, writable_dir, oscdfs_create}
use ostd_final.Fs.Calls.Create.{Entered, create-Entered}
use ostd_final.Fs.Tests.Dirs.{
  steady, small_image, small-IsHealthy, small-IsDirectory, notes, notes-IsText, notes_absent,
  third_free,
}

-- the inodes 0 and 1 are in use
abbrev used_image : Fs
used_image = record small_image {
  disk = λ n. if n == 3 then (λ i. if i == 0 then 3 else 0) else small_image.disk n;
}

used-IsHealthy : IsHealthy steady used_image
used-IsHealthy = record { opened = refl; reads = λ w n. refl; writes = λ w n. refl }

others_kept : (k : ℕ) → 8 ≤ k → used_image.disk k ≡ small_image.disk k
others_kept k p = ground arith

used-IsDirectory : IsDirectory 1 1 used_image
used-IsDirectory =
    IsDirectory-kept 1 1 small_image used_image small-IsDirectory
      (SameInode-refl (inode_at small_image 1)) others_kept

used_absent : (dir_find_entry 1 notes used_image).0 ≡ fail
used_absent =
    find-kept 1 1 small_image used_image small-IsDirectory (SameInode-refl (inode_at small_image 1))
      others_kept small-IsHealthy used-IsHealthy notes
    ∙ ap (λ r. r.0) (dir_find_entry_lem 1 1 small_image small-IsHealthy small-IsDirectory notes)
    ∙ ap (number_at 1 small_image) notes_absent

notes_split : split_path notes ≡ some (dot, notes)
unfolding split_path at_last_slash with_name
notes_split = refl

here_writable : (writable_dir dot used_image).0 ≡ ok 1
unfolding writable_dir find_inode_by_path walk start_of tokens parts_from not_empty str_eq
    read_inode read_block is_dir check_permission load32 store32
here_writable = refl

two_free : is_free (used_image.disk 3) 2 ≡ true
unfolding is_free
two_free = refl

below_used : (j : ℕ) → j < 2 → is_free (used_image.disk 3) j ≡ false
unfolding is_free
below_used zero p = refl
below_used (suc zero) p = refl
below_used (suc (suc j)) p = absurd (omega arith)

create-Entered_example :
    (((oscdfs_create notes used_image).0 ≡ fail)
      × MetaOnly used_image (oscdfs_create notes used_image).1)
    ⊎ Entered 1 1 2 notes used_image (oscdfs_create notes used_image)
create-Entered_example =
    create-Entered 1 1 2 2 notes used_image used-IsHealthy used-IsDirectory (λ w. omega arith)
      notes-IsText (omega arith) (omega arith)
      (entry_number-kept 1 1 small_image used_image small-IsDirectory
          (SameInode-refl (inode_at small_image 1)) others_kept 2 (omega arith)
        ∙ third_free)
      used_absent (omega arith) (omega arith) (omega arith) (omega arith) refl (omega arith) notes
      dot notes_split here_writable two_free below_used

-- ===== src/Fs/Tests/Dirs.antt =====
-- A small directory on which the lemmas about oscdfs/src/dir.c run.
use ostd_final.Common.{
  ℕ, not, ◌||◌, none, some, ◌<◌, ◌≡◌, refl, ap, ◌∙◌, true, false, [], ◌∷◌, take, arith,
  if◌then◌else◌, ◌==◌,
}
use ostd_final.Common.Bits.{holds_below, holds_below-at}
use ostd_final.Common.Exec.{ok, fail}
use ostd_final.Common.Text.{Text, str_eq}
use ostd_final.Common.Search.{first_where}
use ostd_final.Fs.Bytes.{zero_block, load32, store32, put_bytes}
use ostd_final.Fs.Strings.{c_string, text_bytes}
use ostd_final.Fs.State.{Device, Fs}
use ostd_final.Fs.Bitmap.Succeeds.{IsHealthy}
use ostd_final.Fs.Inode.Table.{inode_at}
use ostd_final.Fs.Access.{is_dir}
use ostd_final.Fs.Dir.{
  dot, dot_dot, entry_inode_no, empty_dir, put_entry, is_named, dir_add_entry, dir_find_entry,
  dir_remove_entry,
}
use ostd_final.Fs.Dir.Entries.{IsText, entry_inode_no-put_entry}
use ostd_final.Fs.Dir.Found.{IsDirectory, entry_at, number_at, dir_find_entry_lem}
use ostd_final.Fs.Dir.Change.{entry_number}
use ostd_final.Fs.Dir.Added.{find-dir_add_entry}
use ostd_final.Fs.Dir.Removed.{find-dir_remove_entry}

instance abbrev pub steady : Device
steady = record {
  read_ok = λ w n. true;
  write_ok = λ w n. true;
  partial = λ w n. 0;
  time = λ w. 1700000000;
}

-- inode 1 is a directory with block 10, which holds `.` and `..`
abbrev pub small_image : Fs
small_image = record {
  opened = true;
  disk = λ n.
      if n == 4
      then store32 (store32 zero_block 136 0o40755) 164 10
      else if n == 10
      then empty_dir 1 1
      else zero_block;
  writes = 0;
  current_dir_inode = 1;
  current_uid = 0;
  current_gid = 0;
  fd_table = λ i. record { inode_no = 0; offset = 0; mode = 0; used = false };
  cwd_path = [];
}

pub small-IsHealthy : IsHealthy steady small_image
small-IsHealthy = record { opened = refl; reads = λ w n. refl; writes = λ w n. refl }

first_block : (l : ℕ) → l < 1 → (inode_at small_image 1).blocks l ≡ 10
unfolding load32 store32
first_block l p = let z : l ≡ 0 = omega arith in rw z refl

no_number : (i : ℕ) → entry_inode_no zero_block i ≡ 0
unfolding load32
no_number i = refl

first_numbers : (i : ℕ) → entry_inode_no (empty_dir 1 1) i < 128
unfolding empty_dir
first_numbers i = ground (
  arith,
  entry_inode_no-put_entry (put_entry zero_block 0 dot 1) 1 dot_dot 1 i (omega arith),
  entry_inode_no-put_entry zero_block 0 dot 1 i (omega arith),
  no_number i,
)

pub small-IsDirectory : IsDirectory 1 1 small_image
unfolding load32 store32 is_dir
small-IsDirectory = record {
  number = omega arith;
  whole = refl;
  kind = refl;
  blocks = record {
    few = omega arith;
    low = λ l p. rw (first_block l p) (omega arith);
    high = λ l p. rw (first_block l p) (omega arith);
    last = refl;
  };
  behind = λ l p. rw (first_block l p) (omega arith);
  distinct = λ l k p q e. omega arith;
  numbers = λ l i p q. rw (first_block l p) (first_numbers i);
}

pub third_free : entry_number 1 small_image 2 ≡ 0
unfolding empty_dir put_entry put_bytes text_bytes store32 load32
third_free = refl

dot_number : number_at 1 small_image (some 0) ≡ ok 1
unfolding empty_dir put_entry put_bytes text_bytes store32 load32
dot_number = refl

-- a name that the directory does not have
abbrev pub notes : Text
notes = b'n' ∷ b'o' ∷ b't' ∷ b'e' ∷ b's' ∷ []

pub notes-IsText : IsText notes
notes-IsText = ground arith

pub notes_absent : first_where (entry_at (is_named notes) 1 small_image) 128 0 ≡ none
unfolding first_where is_named str_eq c_string empty_dir put_entry put_bytes text_bytes store32
    load32
notes_absent = refl

dot_present : first_where (entry_at (is_named dot) 1 small_image) 128 0 ≡ some 0
unfolding first_where is_named str_eq c_string empty_dir put_entry put_bytes text_bytes store32
    load32
dot_present = refl

dot_single : holds_below 128 (λ x. not (entry_at (is_named dot) 1 small_image x) || x == 0) ≡ true
unfolding holds_below is_named str_eq c_string empty_dir put_entry put_bytes text_bytes store32
    load32
dot_single = refl

only_dot :
    (x y : ℕ)
    → x < 128
    → y < 128
    → entry_at (is_named dot) 1 small_image x ≡ true
    → entry_at (is_named dot) 1 small_image y ≡ true
    → y ≡ x
only_dot x y p q hx hy =
    ground (arith, holds_below-at 128 _ x p dot_single, holds_below-at 128 _ y q dot_single)

find-dir_add_entry_example :
    (s' : Fs) × (dir_add_entry 1 notes 5 small_image ≡ (ok tt, s'))
    × IsDirectory 1 1 s'
    × ((j : Text)
        → dir_find_entry 1 j s' ≡ (
          (if str_eq (take 27 notes) (take 28 j) then ok 5 else (dir_find_entry 1 j small_image).0),
          s',
        ))
find-dir_add_entry_example =
    find-dir_add_entry 1 1 5 notes small_image small-IsHealthy small-IsDirectory (λ w. omega arith)
      (notes-IsText) (omega arith) (omega arith) 2 (omega arith) third_free
      (ap (λ r. r.0) (dir_find_entry_lem 1 1 small_image small-IsHealthy small-IsDirectory notes)
        ∙ ap (number_at 1 small_image) notes_absent)

find-dir_remove_entry_example :
    (s' : Fs) × (dir_remove_entry 1 dot small_image ≡ (ok tt, s'))
    × IsDirectory 1 1 s'
    × ((j : Text)
        → dir_find_entry 1 j s' ≡ (
          (if str_eq (take 28 dot) (take 28 j) then fail else (dir_find_entry 1 j small_image).0),
          s',
        ))
find-dir_remove_entry_example =
    find-dir_remove_entry 1 1 dot small_image small-IsHealthy small-IsDirectory (λ w. omega arith) 1
      (ap (λ r. r.0) (dir_find_entry_lem 1 1 small_image small-IsHealthy small-IsDirectory dot)
        ∙ ap (number_at 1 small_image) dot_present
        ∙ dot_number)
      only_dot

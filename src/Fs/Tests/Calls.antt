-- ===== src/Fs/Tests/Calls.antt =====
-- An image with users and a file that is open, on which the lemmas about the calls of oscdfs/src/file.c,
-- oscdfs/src/user.c and oscdfs/src/fuse.c run.
use ostd_final.Common.{
  ℕ, Bool, ◌&&◌, ◌+◌, ◌%◌, ◌^◌, ◌<◌, ◌≡◌, ◌≢◌, refl, true, false, some, [], ◌∷◌, arith,
  if◌then◌else◌, ◌==◌,
}
use ostd_final.Common.Exec.{ok, fail, and_then}
use ostd_final.Common.Text.{str_eq, tokens, parts_from, not_empty}
use ostd_final.Common.Bits.{holds_below, holds_below-at}
use ostd_final.Fs.Dir.Entries.{IsText}
use ostd_final.Common.Search.{first_where}
use ostd_final.Fs.Bytes.{Block, load8, zero_block, load32, store32, put_bytes}
use ostd_final.Fs.Strings.{c_string, text_bytes}
use ostd_final.Fs.State.{Fs}
use ostd_final.Fs.Disk.{read_block}
use ostd_final.Fs.Bitmap.Succeeds.{IsHealthy}
use ostd_final.Fs.Inode.{Inode, read_inode}
use ostd_final.Fs.Inode.Table.{inode_at}
use ostd_final.Fs.Blocks.{inode_get_block, direct_block, return_int}
use ostd_final.Fs.Access.{is_dir}
use ostd_final.Fs.Files.Contents.{file_byte}
use ostd_final.Fs.Dir.{
  empty_dir, put_entry, dot, is_named, scan, open_dir, number_of, dir_find_entry,
}
use ostd_final.Fs.Paths.{find_inode_by_path, walk, start_of, build_path_from_inode}
use ostd_final.Fs.Paths.Join.{find_inode_by_path-append}
use ostd_final.Fs.Paths.Still.{searches_still}
use ostd_final.Fs.Users.{initial_users, put_user, username, password, max_users, root_name, login}
use ostd_final.Fs.Users.Login.{Credentials, RunsAs, IsTerminated, login_lem}
use ostd_final.Fs.Calls.{split_path, at_last_slash, with_name, is_open_on, oscdfs_delete}
use ostd_final.Fs.Calls.Delete.{Refused, delete_Refused}
use ostd_final.Fs.InodeData.{oscdfs_read_inode}
use ostd_final.Fs.InodeData.Contents.{ReadFile, oscdfs_read_inode_lem}
use ostd_final.Fs.Answer.{done}
use ostd_final.Fs.Fuse.{fuse_chmod, fuse_open}
use ostd_final.Fs.Fuse.Unchecked.{denies, chmod-open-grants}
use ostd_final.Fs.Tests.Dirs.{steady, small_image, notes}

-- The file `notes` is inode 2, of 5000 bytes with a hole behind its first block, and open.
abbrev pub open_image : Fs
open_image = record small_image {
  disk = λ n.
      if n == 4
      then store32
          (store32 (store32 (store32 (store32 zero_block 136 0o40755) 164 10) 272 0o100644) 284
            5000)
          300 11
      else if n == 8
      then initial_users
      else if n == 10
      then put_entry (empty_dir 1 1) 2 notes 2
      else if n == 11
      then (λ i. i % 256)
      else zero_block;
  fd_table = λ i. record { inode_no = 2; offset = 0; mode = 0; used = i == 0 };
}

open-IsHealthy : IsHealthy steady open_image
open-IsHealthy = record { opened = refl; reads = λ w n. refl; writes = λ w n. refl }

open_size : (inode_at open_image 2).size < 2 ^ 31
unfolding load32 store32
open_size = omega arith

oscdfs_read_inode_lem_example :
    (result : ℕ × Block) × (s' : Fs) × (oscdfs_read_inode 2 zero_block 4090 20 open_image
      ≡ (ok (done result), s'))
    × ReadFile
        (file_byte (inode_at open_image 2) open_image)
        (inode_at open_image 2).size
        4090
        20
        zero_block
        result
oscdfs_read_inode_lem_example =
    oscdfs_read_inode_lem 2 4090 20 zero_block open_image open-IsHealthy (omega arith) refl
      open_size

find_inode_by_path-append_example :
    find_inode_by_path (b'h' ∷ b'o' ∷ b'm' ∷ b'e' ∷ b'/' ∷ notes) 1 open_image
    ≡ and_then
        (find_inode_by_path (b'h' ∷ b'o' ∷ b'm' ∷ b'e' ∷ []) 1 open_image)
        (find_inode_by_path notes)
find_inode_by_path-append_example =
    find_inode_by_path-append (b'h') (b'o' ∷ b'm' ∷ b'e' ∷ []) notes 1 open_image refl (omega arith)

searches_still_example :
    ((dir_find_entry 1 notes open_image).1 ≡ open_image)
    × ((find_inode_by_path notes 1 open_image).1 ≡ open_image)
    × ((bufsize : ℕ) → (build_path_from_inode 1 bufsize open_image).1 ≡ open_image)
    × ((l : ℕ) (ino : Inode) → (inode_get_block l false (ino, open_image)).1 ≡ (ino, open_image))
searches_still_example = searches_still 1 1 notes open_image

-- the last byte of each name and of each password is 0
abbrev last_bytes_zero : Block → Bool
last_bytes_zero users =
    holds_below max_users
      (λ i. load8 users (username i + 31) == 0 && load8 users (password i + 63) == 0)

initial_zeros : last_bytes_zero (open_image.disk 8) ≡ true
unfolding holds_below initial_users put_user put_bytes text_bytes store32
initial_zeros = refl

initial_users-IsTerminated : IsTerminated (open_image.disk 8)
initial_users-IsTerminated =
    let both = λ (i : ℕ) (h : i < max_users).
      holds_below-at max_users
        (λ i.
          load8 (open_image.disk 8) (username i + 31) == 0
          && load8 (open_image.disk 8) (password i + 63) == 0)
        i h initial_zeros in
    record {
      names = λ i h. (31, omega arith, ground (arith, both i h));
      passwords = λ i h. (63, omega arith, ground (arith, both i h));
    }

root_name-IsText : IsText root_name
root_name-IsText = (
  omega arith,
  omega arith,
  (omega arith, omega arith, (omega arith, omega arith, (omega arith, omega arith, tt))),
)

login_lem_example :
    ((i : ℕ)
      → Credentials (open_image.disk 8) root_name root_name i
      → ((login root_name root_name open_image).0 ≢ fail)
        × RunsAs i open_image (login root_name root_name open_image).1)
    × (((i : ℕ) → ¬ Credentials (open_image.disk 8) root_name root_name i)
        → login root_name root_name open_image ≡ (fail, open_image))
login_lem_example =
    login_lem root_name root_name open_image root_name-IsText root_name-IsText
      initial_users-IsTerminated refl refl

notes_split : split_path notes ≡ some (dot, notes)
unfolding split_path at_last_slash with_name
notes_split = refl

here_found : (find_inode_by_path dot 1 open_image).0 ≡ ok 1
unfolding find_inode_by_path walk start_of tokens parts_from not_empty str_eq
here_found = refl

notes_found : (dir_find_entry 1 notes open_image).0 ≡ ok 2
unfolding dir_find_entry open_dir scan number_of read_inode read_block inode_get_block direct_block
    return_int first_where is_named str_eq c_string empty_dir put_entry put_bytes text_bytes store32
    load32 is_dir
notes_found = refl

notes_open : is_open_on 2 open_image 0 ≡ true
unfolding is_open_on
notes_open = refl

delete_Refused_example : Refused open_image (oscdfs_delete notes open_image)
delete_Refused_example =
    delete_Refused notes dot notes open_image 1 2 0 notes_split here_found notes_found (omega arith)
      notes_open

chmod-open-grants_example :
    (denies (fuse_chmod (some 1001) notes 0o777 open_image).0 ≡ false)
    × (denies (fuse_open (some 1001) notes 0 open_image).0 ≡ false)
chmod-open-grants_example = chmod-open-grants (some 1001) notes 0o777 open_image

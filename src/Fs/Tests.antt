-- ===== src/Fs/Tests.antt =====
-- Concrete images on which the lemmas about oscdfs/src run.
mod Dirs
mod Calls
mod Lines
mod Creation
use ostd_final.Common.{[], ℕ, ◌<◌, ◌≡◌, ◌≢◌, ◌≤◌, ◌↔◌, ◌⊎◌, ◌+◌, refl, true, false, arith}
use ostd_final.Common.Exec.{ok, fail, undefined}
use ostd_final.Common.Bits.{digit}
use ostd_final.Common.Int.{pos, minus_one}
use ostd_final.Fs.Layout.{total_blocks, total_inodes}
use ostd_final.Fs.Bytes.{Block, zero_block, store8, load32, store32, put_bytes}
use ostd_final.Fs.State.{Device, Fs, store_block}
use ostd_final.Fs.Disk.{Failed, read_block, write_block}
use ostd_final.Fs.Super.{
  super_init, super_update_counts, group_desc_update_counts, read_superblock, write_superblock,
  read_group_desc, write_group_desc, encode_desc,
}
use ostd_final.Fs.Super.Counts.{SuperMoved, DescMoved, update_counts_lem}
use ostd_final.Fs.Bitmap.{
  block_bitmap_init, inode_bitmap_init, commit, set_bit, first_free, is_free, alloc_block,
  free_block, alloc_inode, free_inode,
}
use ostd_final.Fs.Bitmap.Bits.{free_count}
use ostd_final.Fs.Bitmap.Alloc.{
  Transacts, Taken, Given, alloc_block_lem, free_block_lem, inode_allocators_lem,
}
use ostd_final.Fs.Bitmap.Consistent.{IsConsistent, allocators-IsConsistent}
use ostd_final.Fs.Bitmap.Succeeds.{IsSized, IsHealthy, block_allocators_succeed}
use ostd_final.Fs.Inode.{Inode, read_inode, write_inode, inode_block}
use ostd_final.Fs.Inode.Table.{SameInode, IsWords, inode_at, read_inode_lem, write_inode_lem}
use ostd_final.Fs.Blocks.{inode_get_block, direct_block, return_int}
use ostd_final.Fs.Blocks.Release.{inode_free_blocks}
use ostd_final.Fs.Blocks.Clear.{Released, inode_free_blocks_lem}
use ostd_final.Fs.Blocks.Persist.{Reads, IsFormatted, inode_get_block_persists}
use ostd_final.Fs.Access.Owners.{IsChmod, Stored, chmod-chown_lem}
use ostd_final.Fs.Access.{no_inode, chmod_inode, chown_inode, check_permission, chmod_mode, w_ok}
use ostd_final.Fs.Access.Roles.{Grants, check_permission_lem, digit-chmod_mode}
use ostd_final.Fs.Files.{Transfer, read_loop, max_open_files, find_slot, take_slot, alloc_fd, close}
use ostd_final.Fs.Files.Contents.{Delivers, file_byte, read_loop_lem}
use ostd_final.Fs.Files.Descriptors.{Opened, alloc_fd_lem, close-alloc_fd}
use ostd_final.Fs.Format.{format_metadata}
use ostd_final.Fs.Format.Fresh.{format-IsConsistent}

instance abbrev healthy : Device
healthy = record {
  read_ok = λ w n. true;
  write_ok = λ w n. true;
  partial = λ w n. 0;
  time = λ w. 1700000000;
}

abbrev blank : Fs
blank = record {
  opened = true;
  disk = λ n. zero_block;
  writes = 0;
  current_dir_inode = 1;
  current_uid = 0;
  current_gid = 0;
  fd_table = λ i. record { inode_no = 0; offset = 0; mode = 0; used = false };
  cwd_path = [];
}

abbrev formatted : Fs
formatted = (format_metadata blank).1

-- a plain file of user 1000 with no block
abbrev plain : Inode
plain = record {
  mode = 0o100640;
  uid = 1000;
  gid = 100;
  size = 0;
  ctime = 1700000000;
  atime = 1700000000;
  mtime = 1700000000;
  blocks = λ i. 0;
  indirect = 0;
  double_indirect = 0;
  triple_indirect = 0;
  reserved = zero_block;
}

blank-IsHealthy : IsHealthy healthy blank
blank-IsHealthy = record { opened = refl; reads = λ w n. refl; writes = λ w n. refl }

formatted-IsHealthy : IsHealthy healthy formatted
unfolding format_metadata super_init block_bitmap_init inode_bitmap_init write_block
formatted-IsHealthy = record { opened = refl; reads = λ w n. refl; writes = λ w n. refl }

inodes_free : free_count (formatted.disk 3) total_inodes ≡ 127
unfolding format_metadata super_init block_bitmap_init inode_bitmap_init write_block free_count
    is_free store8
inodes_free = refl

inodes_fit : free_count (formatted.disk 3) total_inodes + 1 ≤ total_inodes
inodes_fit = rw inodes_free (omega arith)

format-IsConsistent_example :
    ((format_metadata blank).0 ≡ ok tt)
    × IsConsistent 1 formatted
    × IsFormatted formatted
    × IsSized formatted
format-IsConsistent_example = format-IsConsistent blank blank-IsHealthy

fresh-IsConsistent : IsConsistent 1 formatted
fresh-IsConsistent = (format-IsConsistent blank blank-IsHealthy).1

fresh-IsFormatted : IsFormatted formatted
fresh-IsFormatted = (format-IsConsistent blank blank-IsHealthy).2

fresh-IsSized : IsSized formatted
fresh-IsSized = (format-IsConsistent blank blank-IsHealthy).3

allocators-IsConsistent_example :
    Transacts formatted (λ _. IsConsistent 1) (alloc_block formatted)
    × Transacts formatted (λ _. IsConsistent 1) (free_block 5 formatted)
    × Transacts formatted (λ _. IsConsistent 1) (alloc_inode formatted)
    × Transacts formatted (λ _. IsConsistent 1) (free_inode 5 formatted)
allocators-IsConsistent_example =
    allocators-IsConsistent 1 formatted 5 fresh-IsConsistent (omega arith)

alloc_block_lem_example :
    Transacts formatted (Taken 2 total_blocks minus_one (pos 0) formatted) (alloc_block formatted)
alloc_block_lem_example = alloc_block_lem formatted

free_block_lem_example :
    Transacts formatted
      (λ _. Given 2 total_blocks (pos 1) (pos 0) 5 formatted)
      (free_block 5 formatted)
free_block_lem_example = free_block_lem formatted 5

inode_allocators_lem_example :
    Transacts formatted (Taken 3 total_inodes (pos 0) minus_one formatted) (alloc_inode formatted)
    × ((i : ℕ)
        → Transacts formatted
            (λ _. Given 3 total_inodes (pos 0) (pos 1) i formatted)
            (free_inode i formatted))
inode_allocators_lem_example = inode_allocators_lem formatted

block_allocators_succeed_example :
    (((free_count (formatted.disk 2) total_blocks ≡ 0) × ((alloc_block formatted).0 ≡ fail))
      ⊎ ((i : ℕ) × ((alloc_block formatted).0 ≡ ok i)))
    × ((i : ℕ)
        → i < total_blocks
        → is_free (formatted.disk 2) i ≡ false
        → (free_block i formatted).0 ≡ ok tt)
block_allocators_succeed_example =
    block_allocators_succeed 1 formatted fresh-IsConsistent fresh-IsSized formatted-IsHealthy
      inodes_fit

update_counts_lem_example :
    (Failed 0 formatted (super_update_counts minus_one (pos 0) formatted)
      ⊎ ((b : Block) × (super_update_counts minus_one (pos 0) formatted
            ≡ (ok tt, store_block formatted 0 b))
          × SuperMoved minus_one (pos 0) (formatted.disk 0) b))
    × (Failed 1 formatted (group_desc_update_counts minus_one (pos 0) formatted)
        ⊎ ((b : Block) × (group_desc_update_counts minus_one (pos 0) formatted
              ≡ (ok tt, store_block formatted 1 b))
            × DescMoved minus_one (pos 0) (formatted.disk 1) b))
update_counts_lem_example = update_counts_lem minus_one (pos 0) formatted

plain-IsWords : IsWords plain
plain-IsWords = record {
  mode = omega arith;
  uid = omega arith;
  gid = omega arith;
  size = omega arith;
  ctime = omega arith;
  atime = omega arith;
  mtime = omega arith;
  blocks = λ i h. omega arith;
  indirect = omega arith;
  double_indirect = omega arith;
  triple_indirect = omega arith;
}

abbrev stored_plain : Fs
stored_plain = (write_inode 2 plain formatted).1

plain_stored : write_inode 2 plain formatted ≡ (ok tt, stored_plain)
unfolding write_inode read_block write_block format_metadata super_init block_bitmap_init
    inode_bitmap_init
plain_stored = refl

write_inode_lem_example :
    SameInode (inode_at stored_plain 2) plain
    × ((m : ℕ) → m ≢ 2 → SameInode (inode_at stored_plain m) (inode_at formatted m))
    × ((k : ℕ) → k ≢ inode_block 2 → stored_plain.disk k ≡ formatted.disk k)
write_inode_lem_example = write_inode_lem 2 plain formatted stored_plain plain-IsWords plain_stored

read_inode_lem_example : read_inode 30 formatted ≡ (undefined, formatted)
read_inode_lem_example = read_inode_lem 30 formatted (omega arith) formatted-IsHealthy.opened refl

abbrev grown : Inode
grown = (inode_get_block 0 true (plain, formatted)).1.0

abbrev allocated : Fs
allocated = (inode_get_block 0 true (plain, formatted)).1.1

first_block : inode_get_block 0 true (plain, formatted) ≡ (ok 10, (grown, allocated))
unfolding inode_get_block direct_block return_int alloc_block first_free is_free commit set_bit
    super_update_counts group_desc_update_counts read_block write_block format_metadata super_init
    block_bitmap_init inode_bitmap_init store8 read_superblock load32 store32 write_superblock
    read_group_desc encode_desc put_bytes write_group_desc
first_block = refl

all_read : Reads healthy
all_read = record { always = λ w n. refl }

inode_get_block_persists_example :
    inode_get_block 0 false (grown, allocated) ≡ (ok 10, (grown, allocated))
inode_get_block_persists_example =
    inode_get_block_persists all_read 0 10 plain grown formatted allocated (omega arith)
      fresh-IsFormatted first_block

inode_free_blocks_lem_example : Released 2 allocated (inode_free_blocks 2 (grown, allocated))
inode_free_blocks_lem_example = inode_free_blocks_lem 2 grown allocated

abbrev user : ℕ
user = 1000

check_permission_lem_example :
    (check_permission user 100 plain w_ok ≡ true) ↔ ((user ≡ 0) ⊎ Grants user 100 plain w_ok)
check_permission_lem_example = check_permission_lem user 100 plain w_ok (omega arith)

digit-chmod_mode_example : digit (chmod_mode 0o40755 0o170700) 14 ≡ digit 0o40755 14
digit-chmod_mode_example = digit-chmod_mode 0o40755 0o170700 14 (omega arith)

-- a file of 5000 bytes without a block
abbrev sparse : Inode
sparse = record plain { size = 5000 }

abbrev whole : Transfer
whole = record { total = 0; remaining = 6000; cur = 10; buf = zero_block }

read_loop_lem_example :
    (t' : Transfer) × (read_loop 6001 whole (sparse, formatted) ≡ (ok t', (sparse, formatted)))
    × Delivers (file_byte sparse formatted) 5000 whole t'
read_loop_lem_example =
    read_loop_lem sparse formatted 6001 whole formatted-IsHealthy (omega arith) (omega arith)

alloc_fd_lem_example :
    ((alloc_fd blank ≡ (fail, blank))
      × ((j : ℕ) → j < max_open_files → (blank.fd_table j).used ≡ true))
    ⊎ ((fd : ℕ) × ((alloc_fd blank).0 ≡ ok fd) × Opened blank (alloc_fd blank).1 fd)
alloc_fd_lem_example = alloc_fd_lem blank

abbrev one_open : Fs
one_open = (alloc_fd blank).1

first_fd : alloc_fd blank ≡ (ok 0, one_open)
unfolding alloc_fd find_slot take_slot
first_fd = refl

close-alloc_fd_example :
    ((close 0 one_open).0 ≡ ok tt)
    × (((close 0 one_open).1.fd_table 3).used ≡ (blank.fd_table 3).used)
    × ((close 0 (close 0 one_open).1).0 ≡ fail)
close-alloc_fd_example = close-alloc_fd blank one_open 0 3 first_fd

chmod-chown_lem_example :
    ((formatted.current_uid ≡ 0) ⊎ (formatted.current_uid ≡ (inode_at formatted 2).uid)
      → (t : Fs) × (mode : ℕ) × (chmod_inode 2 0o640 formatted ≡ (ok tt, t))
        × IsChmod (inode_at formatted 2).mode 0o640 mode
        × Stored 2 (record (inode_at formatted 2) { mode = mode; mtime = 1700000000 }) formatted t)
    × (formatted.current_uid ≡ 0
        → (t : Fs) × (chown_inode 2 1000 no_inode formatted ≡ (ok tt, t))
          × Stored 2
              (record (inode_at formatted 2) {
                uid = 1000;
                gid = (inode_at formatted 2).gid;
                mtime = 1700000000;
              })
              formatted
              t)
    × (formatted.current_uid ≢ 0
        → formatted.current_uid ≢ (inode_at formatted 2).uid
        → chmod_inode 2 0o640 formatted ≡ (fail, formatted))
    × (formatted.current_uid ≢ 0 → chown_inode 2 1000 no_inode formatted ≡ (fail, formatted))
chmod-chown_lem_example =
    chmod-chown_lem 2 formatted formatted-IsHealthy (omega arith) refl (omega arith) 0o640 1000
      no_inode (omega arith) (omega arith)

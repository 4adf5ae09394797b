-- ===== src/Fs/Bitmap.antt =====
-- oscdfs/src/bitmap.c: the block bitmap (block 2) and the inode bitmap (block 3).
pub mod Bits
pub mod Alloc
pub mod Consistent
pub mod Succeeds
use ostd_final.Common.{
  ℕ, zero, suc, ◌+◌, ◌-◌, ◌/◌, ◌%◌, ◌^◌, bit_and, bit_or, Bool, Option, none, some, ◌==◌, not, ltb,
  if◌then◌else◌,
}
use ostd_final.Common.Exec.{pure, failed, guard, ◌>>=◌, ◌>>◌, exit_on_fail}
use ostd_final.Common.Int.{ℤ, pos, minus_one}
use ostd_final.Fs.Layout.{total_blocks, total_inodes}
use ostd_final.Fs.Bytes.{Block, zero_block, load8, store8}
use ostd_final.Fs.State.{Device, Cmd}
use ostd_final.Fs.Disk.{read_block, write_block}
use ostd_final.Fs.Super.{super_update_counts, group_desc_update_counts}

-- `(buf[i / 8] & (1 << (i % 8))) == 0`
unfoldable pub is_free : Block → ℕ → Bool
is_free buf i = bit_and (load8 buf (i / 8)) (2 ^ (i % 8)) == 0

-- `buf[i / 8] |= 1 << (i % 8)`
unfoldable pub set_bit : Block → ℕ → Block
set_bit buf i = store8 buf (i / 8) (bit_or (load8 buf (i / 8)) (2 ^ (i % 8)))

-- `buf[i / 8] &= ~(1 << (i % 8))`
unfoldable pub clear_bit : Block → ℕ → Block
clear_bit buf i = store8 buf (i / 8) (bit_and (load8 buf (i / 8)) (255 - 2 ^ (i % 8)))

-- `for (; i < i + n; i++)`, up to the first free bit
unfoldable pub first_free : Block → ℕ → ℕ → Option ℕ
first_free buf zero i = none
first_free buf (suc n) i =
    let rest = first_free buf n (i + 1) in if is_free buf i then some i else rest

module _ ⦃dev : Device⦄ where
  unfoldable pub block_bitmap_init : Cmd (Unit {0})
  block_bitmap_init s = exit_on_fail (write_block 2 (store8 (store8 zero_block 0 0xFF) 1 0x03) s)

  unfoldable pub inode_bitmap_init : Cmd (Unit {0})
  inode_bitmap_init s =
      exit_on_fail (write_block 3 (store8 zero_block 0 (bit_or (load8 zero_block 0) 0x01)) s)

  -- write the bitmap back, then adjust the counts of the superblock and the group descriptor
  unfoldable pub commit : ℕ → Block → ℤ → ℤ → Cmd (Unit {0})
  commit block buf delta_blocks delta_inodes = do
    write_block block buf
    super_update_counts delta_blocks delta_inodes
    group_desc_update_counts delta_blocks delta_inodes

  -- what follows the search in `alloc_block`
  unfoldable pub take_block : Block → Option ℕ → Cmd ℕ
  take_block buf none = failed
  take_block buf (some i) = do commit 2 (set_bit buf i) minus_one (pos 0); pure i

  unfoldable pub alloc_block : Cmd ℕ
  unfolding take_block
  alloc_block = do buf ← read_block 2; take_block buf (first_free buf total_blocks 0)

  unfoldable pub free_block : ℕ → Cmd (Unit {0})
  free_block block_no = do
    guard (ltb block_no total_blocks)
    buf ← read_block 2
    guard (not (is_free buf block_no))
    commit 2 (clear_bit buf block_no) (pos 1) (pos 0)

  -- what follows the search in `alloc_inode`
  unfoldable pub take_inode : Block → Option ℕ → Cmd ℕ
  take_inode buf none = failed
  take_inode buf (some i) = do commit 3 (set_bit buf i) (pos 0) minus_one; pure i

  unfoldable pub alloc_inode : Cmd ℕ
  unfolding take_inode
  alloc_inode = do buf ← read_block 3; take_inode buf (first_free buf total_inodes 0)

  unfoldable pub free_inode : ℕ → Cmd (Unit {0})
  free_inode inode_no = do
    guard (ltb inode_no total_inodes)
    buf ← read_block 3
    guard (not (is_free buf inode_no))
    commit 3 (clear_bit buf inode_no) (pos 0) (pos 1)

-- ===== src/Fs/Super.antt =====
-- oscdfs/src/super.c: the superblock and the group descriptor, and their counts of free objects.
pub mod Counts
use ostd_final.Common.{ℕ, ◌-◌, Bool, ◌||◌, ◌==◌, not}
use ostd_final.Common.Exec.{pure, guard, ◌>>=◌, ◌>>◌, exit_on_fail}
use ostd_final.Common.Int.{ℤ, pos, to_int, ◌+ℤ◌, ltb_ℤ, add_int}
use ostd_final.Fs.Layout.{block_size, total_blocks, total_inodes, magic}
use ostd_final.Fs.Bytes.{Block, zero_block, load32, store32, put_bytes, from_byte}
use ostd_final.Fs.State.{Device, Cmd}
use ostd_final.Fs.Disk.{read_block, write_block}

-- struct oscdfs_superblock
pub record Superblock : Type 0 where
  pub magic : ℕ
  pub total_blocks : ℕ
  pub free_blocks : ℕ
  pub total_inodes : ℕ
  pub free_inodes : ℕ
  pub root_inode : ℕ
  pub block_size : ℕ
  pub reserved : Block

-- memcpy(sb, buf, sizeof(struct oscdfs_superblock))
abbrev pub decode_super : Block → Superblock
decode_super b = record {
  magic = load32 b 0;
  total_blocks = load32 b 4;
  free_blocks = load32 b 8;
  total_inodes = load32 b 12;
  free_inodes = load32 b 16;
  root_inode = load32 b 20;
  block_size = load32 b 24;
  reserved = from_byte b 28;
}

-- memcpy(buf, sb, sizeof(struct oscdfs_superblock))
unfoldable pub encode_super : Superblock → Block → Block
encode_super sb b =
    let b = store32 b 0 sb.magic in
    let b = store32 b 4 sb.total_blocks in
    let b = store32 b 8 sb.free_blocks in
    let b = store32 b 12 sb.total_inodes in
    let b = store32 b 16 sb.free_inodes in
    let b = store32 b 20 sb.root_inode in
    let b = store32 b 24 sb.block_size in put_bytes b 28 100 sb.reserved

-- struct oscdfs_group_desc
pub record GroupDesc : Type 0 where
  pub block_bitmap_block : ℕ
  pub inode_bitmap_block : ℕ
  pub inode_table_block : ℕ
  pub free_blocks_count : ℕ
  pub free_inodes_count : ℕ
  pub reserved : Block

-- memcpy(desc, buf, sizeof(struct oscdfs_group_desc))
abbrev pub decode_desc : Block → GroupDesc
decode_desc b = record {
  block_bitmap_block = load32 b 0;
  inode_bitmap_block = load32 b 4;
  inode_table_block = load32 b 8;
  free_blocks_count = load32 b 12;
  free_inodes_count = load32 b 16;
  reserved = from_byte b 20;
}

-- memcpy(buf, desc, sizeof(struct oscdfs_group_desc))
unfoldable pub encode_desc : GroupDesc → Block → Block
encode_desc d b =
    let b = store32 b 0 d.block_bitmap_block in
    let b = store32 b 4 d.inode_bitmap_block in
    let b = store32 b 8 d.inode_table_block in
    let b = store32 b 12 d.free_blocks_count in
    let b = store32 b 16 d.free_inodes_count in put_bytes b 20 40 d.reserved

-- `(int)free + delta < 0 || (int)free + delta > (int)total`
abbrev pub out_of_range : ℕ → ℤ → ℕ → Bool
out_of_range free delta total =
    ltb_ℤ (to_int free +ℤ delta) (pos 0) || ltb_ℤ (to_int total) (to_int free +ℤ delta)

module _ ⦃dev : Device⦄ where
  unfoldable pub super_init : Cmd (Unit {0})
  super_init s =
      let b = store32 zero_block 0 magic in
      let b = store32 b 4 total_blocks in
      let b = store32 b 12 total_inodes in
      let b = store32 b 20 1 in
      let b = store32 b 24 block_size in
      let b = store32 b 8 (total_blocks - 10) in
      let b = store32 b 16 total_inodes in exit_on_fail (write_block 0 b s)

  unfoldable pub read_superblock : Cmd Superblock
  read_superblock = do b ← read_block 0; let sb = decode_super b; guard (sb.magic == magic); pure sb

  unfoldable pub write_superblock : Superblock → Cmd (Unit {0})
  write_superblock sb = do b ← read_block 0; write_block 0 (encode_super sb b)

  unfoldable pub super_update_counts : ℤ → ℤ → Cmd (Unit {0})
  super_update_counts delta_blocks delta_inodes = do
    sb ← read_superblock
    guard (not (out_of_range sb.free_blocks delta_blocks sb.total_blocks))
    guard (not (out_of_range sb.free_inodes delta_inodes sb.total_inodes))
    write_superblock (record sb {
      free_blocks = add_int sb.free_blocks delta_blocks;
      free_inodes = add_int sb.free_inodes delta_inodes;
    })

  unfoldable pub read_group_desc : Cmd GroupDesc
  read_group_desc = do b ← read_block 1; pure (decode_desc b)

  unfoldable pub write_group_desc : GroupDesc → Cmd (Unit {0})
  write_group_desc d = do b ← read_block 1; write_block 1 (encode_desc d b)

  unfoldable pub group_desc_update_counts : ℤ → ℤ → Cmd (Unit {0})
  group_desc_update_counts delta_blocks delta_inodes = do
    d ← read_group_desc
    guard (not (out_of_range d.free_blocks_count delta_blocks total_blocks))
    guard (not (out_of_range d.free_inodes_count delta_inodes total_inodes))
    write_group_desc (record d {
      free_blocks_count = add_int d.free_blocks_count delta_blocks;
      free_inodes_count = add_int d.free_inodes_count delta_inodes;
    })

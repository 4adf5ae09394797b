-- ===== src/Fs/Format.antt =====
-- The metadata that oscdfs/src/mkfs.c writes on a fresh image, before the first directory.
pub mod Fresh
pub mod Image
use ostd_final.Common.{◌-◌}
use ostd_final.Common.Exec.{◌>>=◌, ◌>>◌}
use ostd_final.Fs.Bytes.{zero_block}
use ostd_final.Fs.State.{Device, Cmd}
use ostd_final.Fs.Disk.{write_block}
use ostd_final.Fs.Layout.{total_blocks, total_inodes}
use ostd_final.Fs.Super.{GroupDesc, encode_desc, super_init}
use ostd_final.Fs.Bitmap.{block_bitmap_init, inode_bitmap_init}

-- the group descriptor of a fresh image
abbrev pub fresh_desc : GroupDesc
fresh_desc = record {
  block_bitmap_block = 2;
  inode_bitmap_block = 3;
  inode_table_block = 4;
  free_blocks_count = total_blocks - 10;
  free_inodes_count = total_inodes;
  reserved = zero_block;
}

module _ ⦃dev : Device⦄ where
  unfoldable pub format_metadata : Cmd (Unit {0})
  format_metadata = do
    super_init
    block_bitmap_init
    inode_bitmap_init
    write_block 1 (encode_desc fresh_desc zero_block)

-- ===== src/Fs/Blocks/Lookup.antt =====
-- `inode_get_block` of oscdfs/src/inode.c without allocation, as reads and searches use it.
use ostd_final.Common.{◌-◌, ◌*◌, ℕ, ◌≡◌, false, arith}
use ostd_final.Fs.State.{Device, Fs}
use ostd_final.Fs.Disk.{read_block}
use ostd_final.Fs.Inode.{Inode}
use ostd_final.Fs.Blocks.{
  return_int, direct_block, root_block, child_block, leaf_block, single_block, double_block,
  triple_block, inode_get_block,
}

module _ ⦃dev : Device⦄ (ino : Inode) (s : Fs) where
  direct_lookup : (i : ℕ) → (direct_block i false (ino, s)).1 ≡ (ino, s)
  unfolding direct_block return_int
  direct_lookup i = ground arith

  single_lookup : (offset : ℕ) → (single_block offset false (ino, s)).1 ≡ (ino, s)
  unfolding single_block root_block leaf_block read_block return_int
  single_lookup offset = ground arith

  double_lookup : (offset : ℕ) → (double_block offset false (ino, s)).1 ≡ (ino, s)
  unfolding double_block root_block child_block leaf_block read_block return_int
  double_lookup offset = ground arith

  triple_lookup : (offset : ℕ) → (triple_block offset false (ino, s)).1 ≡ (ino, s)
  unfolding triple_block root_block child_block leaf_block read_block return_int
  triple_lookup offset = ground arith

  -- Without allocation the call changes neither the inode nor anything else, whatever it returns.
  pub lookup_still : (l : ℕ) → (inode_get_block l false (ino, s)).1 ≡ (ino, s)
  unfolding inode_get_block
  lookup_still l = ground (
    arith,
    direct_lookup l,
    single_lookup (l - 12),
    double_lookup (l - 12 - 1024),
    triple_lookup (l - 12 - 1024 - 1024 * 1024),
  )

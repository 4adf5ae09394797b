-- ===== src/Fs/Blocks.antt =====
-- oscdfs/src/inode.c, the block map of a file: twelve direct pointers and three trees of pointer
-- blocks, one, two and three levels deep. `inode_get_block` changes the caller's copy of the inode,
-- so it runs on that copy beside the state of the process.
pub mod Lookup
pub mod Release
pub mod Free
pub mod Clear
pub mod Persist
use ostd_final.Common.Exec.{ok}
use ostd_final.Common.{ℕ, ◌+◌, ◌-◌, ◌*◌, ◌/◌, ◌%◌, ◌^◌, Bool, not, ◌==◌, ltb, if◌then◌else◌}
use ostd_final.Common.Exec.{Exec, pure, guard, in_bounds, get_state, ◌>>=◌, ◌>>◌}
use ostd_final.Fs.Bytes.{zero_block, load32, store32}
use ostd_final.Fs.State.{Device, Fs, Cmd}
use ostd_final.Fs.Disk.{read_block, write_block}
use ostd_final.Fs.Bitmap.{alloc_block}
use ostd_final.Fs.Inode.{Inode}

-- OSCDFS_INDIRECT_POINTERS
abbrev pub indirect_pointers : ℕ
indirect_pointers = 1024

abbrev pub InodeCmd : Type 0 → Type 0
InodeCmd = Exec (Inode × Fs)

abbrev pub on_fs : {A : Type 0} → Cmd A → InodeCmd A
on_fs m (ino, s) = let (r, s') = m s in (r, (ino, s'))

abbrev pub modify_inode : (Inode → Inode) → InodeCmd (Unit {0})
modify_inode f (ino, s) = (ok tt, (f ino, s))

-- `return (int)block`, where callers take a negative result for a failure
unfoldable pub return_int : {S : Type 0} → ℕ → Exec S ℕ
return_int block = do guard (ltb block (2 ^ 31)); pure block

-- inode->blocks[i] = block
abbrev pub set_direct : ℕ → ℕ → Inode → Inode
set_direct i block ino = record ino { blocks = λ j. if j == i then block else ino.blocks j }

-- The pointer fields that are the roots of the three trees.
pub data Root : Type 0 where
  single double triple : Root

abbrev pub root_of : Root → Inode → ℕ
root_of single ino = ino.indirect
root_of double ino = ino.double_indirect
root_of triple ino = ino.triple_indirect

abbrev pub set_root : Root → ℕ → Inode → Inode
set_root single block ino = record ino { indirect = block }
set_root double block ino = record ino { double_indirect = block }
set_root triple block ino = record ino { triple_indirect = block }

module _ ⦃dev : Device⦄ where
  unfoldable pub direct_block : ℕ → Bool → InodeCmd ℕ
  direct_block i allocate = do
    (ino, s) ← get_state
    if not (ino.blocks i == 0) then return_int (ino.blocks i) else do
      guard allocate
      new_blk ← on_fs alloc_block
      modify_inode (set_direct i new_blk)
      pure new_blk

  -- the root of a tree, allocated and zeroed if it is missing
  unfoldable pub root_block : Root → Bool → InodeCmd ℕ
  root_block root allocate = do
    (ino, s) ← get_state
    if not (root_of root ino == 0) then pure (root_of root ino) else do
      guard allocate
      new_blk ← on_fs alloc_block
      modify_inode (set_root root new_blk)
      on_fs (write_block new_blk zero_block)
      pure new_blk

  -- entry idx of a pointer block, a pointer block itself, allocated and zeroed if it is missing
  unfoldable pub child_block : (table idx : ℕ) → Bool → Cmd ℕ
  child_block table idx allocate = do
    buf ← read_block table
    in_bounds (ltb idx indirect_pointers)
    if not (load32 buf (4 * idx) == 0) then pure (load32 buf (4 * idx)) else do
      guard allocate
      blk ← alloc_block
      write_block blk zero_block
      write_block table (store32 buf (4 * idx) blk)
      pure blk

  -- entry idx of a pointer block, a data block, allocated if it is missing
  unfoldable pub leaf_block : (table idx : ℕ) → Bool → Cmd ℕ
  leaf_block table idx allocate = do
    buf ← read_block table
    if not (load32 buf (4 * idx) == 0) then return_int (load32 buf (4 * idx)) else do
      guard allocate
      new_blk ← alloc_block
      write_block table (store32 buf (4 * idx) new_blk)
      pure new_blk

  unfoldable pub single_block : ℕ → Bool → InodeCmd ℕ
  single_block offset allocate = do
    indirect ← root_block single allocate
    on_fs (leaf_block indirect offset allocate)

  unfoldable pub double_block : ℕ → Bool → InodeCmd ℕ
  double_block offset allocate = do
    root ← root_block double allocate
    indirect ← on_fs (child_block root (offset / indirect_pointers) allocate)
    on_fs (leaf_block indirect (offset % indirect_pointers) allocate)

  unfoldable pub triple_block : ℕ → Bool → InodeCmd ℕ
  triple_block offset allocate = do
    root ← root_block triple allocate
    table ← on_fs (child_block root (offset / (indirect_pointers * indirect_pointers)) allocate)
    indirect ← on_fs (child_block table (offset / indirect_pointers % indirect_pointers) allocate)
    on_fs (leaf_block indirect (offset % indirect_pointers) allocate)

  unfoldable pub inode_get_block : ℕ → Bool → InodeCmd ℕ
  inode_get_block l allocate =
      if ltb l 12
      then direct_block l allocate
      else if ltb l (12 + indirect_pointers)
      then single_block (l - 12) allocate
      else if ltb l (12 + indirect_pointers + indirect_pointers * indirect_pointers)
      then double_block (l - 12 - indirect_pointers) allocate
      else triple_block (l - 12 - indirect_pointers - indirect_pointers * indirect_pointers)
          allocate

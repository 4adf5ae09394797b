-- ===== src/Fs/Blocks/Release.antt =====
-- `inode_free_blocks` of oscdfs/src/inode.c. The three loops over pointer blocks are one walk, by
-- its depth; results of `free_block` and of the last `write_inode` are not looked at.
use ostd_final.Common.{ℕ, zero, suc, ◌+◌, ◌*◌, Option, none, some, ◌==◌, if◌then◌else◌}
use ostd_final.Common.Exec.{pure, ◌>>=◌, ◌>>◌, attempt, ignore, get_state}
use ostd_final.Fs.Bytes.{Block, load32}
use ostd_final.Fs.State.{Device, Cmd}
use ostd_final.Fs.Disk.{read_block}
use ostd_final.Fs.Inode.{write_inode}
use ostd_final.Fs.Bitmap.{free_block}
use ostd_final.Fs.Blocks.{
  InodeCmd, on_fs, modify_inode, set_direct, Root, single, double, triple, root_of, set_root,
  indirect_pointers,
}

-- for (; i < i + n; i++) if (buf[i] != 0) visit(buf[i]);
unfoldable pub each_entry : ℕ → ℕ → Block → (ℕ → Cmd (Unit {0})) → Cmd (Unit {0})
each_entry zero i buf visit = pure tt
each_entry (suc n) i buf visit = do
  if load32 buf (4 * i) == 0 then pure tt else visit (load32 buf (4 * i))
  each_entry n (i + 1) buf visit

-- the walk over a pointer block, if it can be read
unfoldable pub read_entries : (ℕ → Cmd (Unit {0})) → Option Block → Cmd (Unit {0})
read_entries visit none = pure tt
read_entries visit (some buf) = each_entry indirect_pointers 0 buf visit

module _ ⦃dev : Device⦄ where
  -- all blocks below a pointer block that has `depth` levels of pointer blocks under it
  unfoldable pub free_tree : (depth table : ℕ) → Cmd (Unit {0})
  unfolding read_entries
  free_tree zero table = do
    found ← attempt (read_block table)
    read_entries (λ blk. ignore (free_block blk)) found
  free_tree (suc depth) table = do
    found ← attempt (read_block table)
    read_entries (λ blk. free_tree depth blk >> ignore (free_block blk)) found

  -- for (; i < i + n; i++), over the direct pointers
  unfoldable pub free_direct : ℕ → ℕ → InodeCmd (Unit {0})
  free_direct zero i = pure tt
  free_direct (suc n) i = do
    (ino, s) ← get_state
    if ino.blocks i == 0
        then pure tt
        else do on_fs (ignore (free_block (ino.blocks i))); modify_inode (set_direct i 0)
    free_direct n (i + 1)

  unfoldable pub free_root : Root → ℕ → InodeCmd (Unit {0})
  free_root root depth = do
    (ino, s) ← get_state
    if root_of root ino == 0 then pure tt else do
      on_fs (free_tree depth (root_of root ino))
      on_fs (ignore (free_block (root_of root ino)))
      modify_inode (set_root root 0)

  unfoldable pub inode_free_blocks : ℕ → InodeCmd (Unit {0})
  inode_free_blocks n = do
    free_direct 12 0
    free_root single 0
    free_root double 1
    free_root triple 2
    modify_inode (λ ino. record ino { size = 0 })
    (ino, s) ← get_state
    on_fs (ignore (write_inode n ino))

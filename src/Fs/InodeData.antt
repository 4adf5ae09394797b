-- ===== src/Fs/InodeData.antt =====
-- oscdfs_read_inode and oscdfs_write_inode of oscdfs/src/file.c: transfers by inode number, for the
-- FUSE callbacks. The offset is not negative.
pub mod Contents
use ostd_final.Common.{
  ℕ, zero, suc, ◌+◌, ◌-◌, ◌/◌, ◌%◌, ◌^◌, true, false, not, ◌&&◌, ◌||◌, min, ltb, leb, ◌==◌,
  if◌then◌else◌,
}
use ostd_final.Common.Exec.{unfinished, get_state, attempt, ignore}
use ostd_final.Common.Exec as exec
use ostd_final.Fs.Layout.{block_size}
use ostd_final.Fs.Bytes.{Block, zero_block, put_bytes}
use ostd_final.Fs.State.{Device, Cmd}
use ostd_final.Fs.Disk.{read_block, write_block}
use ostd_final.Fs.Inode.{Inode, read_inode, write_inode}
use ostd_final.Fs.Blocks.{InodeCmd, on_fs, inode_get_block}
use ostd_final.Fs.Files.{fetch, with_inode}
use ostd_final.Fs.Answer.{Fuse, eio, enospc, ◌>>=◌, ◌>>◌, return, or_error, run}

-- The local variables of the two loops: `buf` is the caller's buffer.
pub record Span : Type 0 where
  pub total : ℕ
  pub remaining : ℕ
  pub blk : ℕ
  pub off : ℕ
  pub buf : Block

-- the variables at the start of a transfer
abbrev pub span_at : (offset nbytes : ℕ) → Block → Span
span_at offset nbytes buf = record {
  total = 0;
  remaining = nbytes;
  blk = offset / block_size % 2 ^ 32;
  off = offset % block_size;
  buf = buf;
}

-- what a round moves; `chunk` is a uint32_t
abbrev pub span_chunk : Span → ℕ
span_chunk p = min (p.remaining % 2 ^ 32) (block_size - p.off)

abbrev pub advance : Span → Span
advance p = record p {
  total = p.total + span_chunk p;
  remaining = p.remaining - span_chunk p;
  blk = (p.blk + 1) % 2 ^ 32;
  off = 0;
}

-- how many bytes of the request lie in the file
unfoldable pub clip : (size offset nbytes : ℕ) → ℕ
clip size offset nbytes = if ltb size (offset + nbytes) then size - offset else nbytes

module _ ⦃dev : Device⦄ where
  -- the loop of `oscdfs_read_inode`, for a number of rounds
  unfoldable pub read_span : (rounds offset : ℕ) → Span → InodeCmd Span
  unfolding fetch
  read_span zero offset p = λ s. (unfinished, s)
  read_span (suc n) offset p = exec.◌>>=◌ get_state λ x.
      if p.remaining == 0 || leb x.0.size (offset + p.total)
      then exec.pure p
      else exec.◌>>=◌ (attempt (inode_get_block p.blk false)) λ phys.
        exec.◌>>=◌ (on_fs (fetch phys)) λ b.
          read_span n offset (
            advance
              (record p { buf = put_bytes p.buf p.total (span_chunk p) (λ i. b (p.off + i)) }))

  -- `oscdfs_read_inode`: the count, and the caller's buffer
  unfoldable pub oscdfs_read_inode : (n : ℕ) → Block → (offset nbytes : ℕ) → Fuse (ℕ × Block)
  oscdfs_read_inode n buf offset nbytes = do
    ino ← or_error eio (read_inode n)
    if leb ino.size offset then return (0, buf) else do
      let nbytes = clip ino.size offset nbytes
      (p, ino) ←
          or_error eio (with_inode ino (read_span (nbytes + 1) offset (span_at offset nbytes buf)))
      s ← run get_state
      or_error eio (write_inode n (record ino { atime = dev.time s.writes }))
      return (p.total, p.buf)

  -- one round of `oscdfs_write_inode` on its block, which is read first if it is not filled
  unfoldable pub write_span_part : (phys : ℕ) → Span → Cmd (Unit {0})
  write_span_part phys p =
      exec.◌>>=◌
        (if ltb (span_chunk p) block_size || not (p.off == 0)
          then read_block phys
          else exec.pure zero_block)
        λ b.
          exec.◌>>=◌
            (exec.in_bounds
              (leb (p.off + span_chunk p) block_size && leb (span_chunk p) p.remaining))
            λ _. write_block phys (put_bytes b p.off (span_chunk p) (λ i. p.buf (p.total + i)))

  -- The loop of `oscdfs_write_inode`, for a number of rounds, with the inode as it stands at the end.
  unfoldable pub write_span : (rounds : ℕ) → Inode → Span → Fuse (Span × Inode)
  write_span zero ino p = λ s. (unfinished, s)
  write_span (suc n) ino p = if p.remaining == 0 then return (p, ino) else do
    (phys, ino) ← or_error enospc (with_inode ino (inode_get_block p.blk true))
    or_error eio (write_span_part phys p)
    write_span n ino (advance p)

  -- `oscdfs_write_inode`: the inode is written back only when the file has grown
  unfoldable pub oscdfs_write_inode : (n : ℕ) → Block → (offset nbytes : ℕ) → Fuse ℕ
  oscdfs_write_inode n buf offset nbytes = do
    ino ← or_error eio (read_inode n)
    (p, ino) ← write_span (nbytes + 1) ino (span_at offset nbytes buf)
    s ← run get_state
    run (
        if ltb ino.size (offset + p.total)
        then ignore (
            write_inode n
              (record ino { size = (offset + p.total) % 2 ^ 32; mtime = dev.time s.writes }))
        else exec.pure tt)
    return p.total

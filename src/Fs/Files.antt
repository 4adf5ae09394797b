-- ===== src/Fs/Files.antt =====
-- The file descriptors of oscdfs/src/file.c, and its reads and writes through them. A negative
-- descriptor is refused like one past the table; descriptors here are the others. Offsets, sizes and
-- counts are `uint32_t`.
pub mod Descriptors
pub mod Contents
pub mod Written
use ostd_final.Common.{
  ℕ, zero, suc, ◌+◌, ◌-◌, ◌/◌, ◌%◌, ◌^◌, true, false, not, ◌&&◌, ◌||◌, Option, none, some, min, ltb,
  leb, ◌==◌, if◌then◌else◌,
}
use ostd_final.Common.Exec.{
  Outcome, ok, fail, exited, undefined, unfinished, pure, failed, guard, get_state, attempt, ignore,
  in_bounds, ◌>>=◌, ◌>>◌,
}
use ostd_final.Fs.Layout.{block_size}
use ostd_final.Fs.Bytes.{Block, zero_block, put_bytes}
use ostd_final.Fs.State.{Device, FileDescriptor, Fs, Cmd}
use ostd_final.Fs.Disk.{read_block, write_block}
use ostd_final.Fs.Inode.{Inode, read_inode, write_inode}
use ostd_final.Fs.Blocks.{InodeCmd, on_fs, inode_get_block}
use ostd_final.Fs.Access.{is_dir, check_permission, r_ok, w_ok}

-- OSCDFS_MAX_OPEN_FILES
abbrev pub max_open_files : ℕ
max_open_files = 64

abbrev pub rdonly : ℕ
rdonly = 0

abbrev pub wronly : ℕ
wronly = 1

-- fd_table[fd] = d
abbrev pub set_slot : ℕ → FileDescriptor → Cmd (Unit {0})
set_slot fd d s = (ok tt, record s { fd_table = λ i. if i == fd then d else s.fd_table i })

-- the loop that looks for an unused slot
unfoldable pub find_slot : ℕ → ℕ → Fs → Option ℕ
find_slot zero i s = none
find_slot (suc n) i s =
    let rest = find_slot n (i + 1) s in if not (s.fd_table i).used then some i else rest

-- what follows the search
unfoldable pub take_slot : Option ℕ → Cmd ℕ
take_slot none = failed
take_slot (some i) = do
  set_slot i (record { inode_no = 0; offset = 0; mode = 0; used = true })
  pure i

unfoldable pub alloc_fd : Cmd ℕ
unfolding take_slot
alloc_fd s = take_slot (find_slot max_open_files 0 s) s

unfoldable pub free_fd : ℕ → Cmd (Unit {0})
free_fd fd = do
  s ← get_state
  if ltb fd max_open_files && (s.fd_table fd).used
      then set_slot fd (record { inode_no = 0; offset = 0; mode = 0; used = false })
      else pure tt

unfoldable pub close : ℕ → Cmd (Unit {0})
close fd = do s ← get_state; guard (ltb fd max_open_files && (s.fd_table fd).used); free_fd fd

-- The local variables of the two loops: `buf` is the user's buffer.
pub record Transfer : Type 0 where
  pub total : ℕ
  pub remaining : ℕ
  pub cur : ℕ
  pub buf : Block

-- what a read round may move
unfoldable pub read_chunk : (size remaining cur : ℕ) → ℕ
read_chunk size remaining cur =
    let chunk = min remaining (block_size - cur % block_size) in
    if ltb size ((cur + chunk) % 2 ^ 32) then size - cur else chunk

-- total += chunk; remaining -= chunk; cur += chunk
abbrev pub moved : ℕ → Transfer → Transfer
moved chunk t = record t {
  total = t.total + chunk;
  remaining = t.remaining - chunk;
  cur = (t.cur + chunk) % 2 ^ 32;
}

-- a call on a local copy of an inode, which is returned beside the result
abbrev pub keep_inode : {A : Type 0} → Outcome A × (Inode × Fs) → Outcome (A × Inode) × Fs
keep_inode (ok a, (ino, s)) = (ok (a, ino), s)
keep_inode (fail, (ino, s)) = (fail, s)
keep_inode (exited, (ino, s)) = (exited, s)
keep_inode (undefined, (ino, s)) = (undefined, s)
keep_inode (unfinished, (ino, s)) = (unfinished, s)

abbrev pub with_inode : {A : Type 0} → Inode → InodeCmd A → Cmd (A × Inode)
with_inode ino m s = keep_inode (m (ino, s))

-- what a write round moves
abbrev pub write_chunk : Transfer → ℕ
write_chunk t = min t.remaining (block_size - t.cur % block_size)

module _ ⦃dev : Device⦄ where
  -- `oscdfs_open`, once the path has been resolved to an inode
  unfoldable pub open_inode : (ino_no flags : ℕ) → Cmd ℕ
  open_inode ino_no flags = do
    ino ← read_inode ino_no
    guard (not (is_dir ino))
    s ← get_state
    guard
        (check_permission s.current_uid s.current_gid ino (if flags == rdonly then r_ok else w_ok))
    fd ← alloc_fd
    set_slot fd (record { inode_no = ino_no; offset = 0; mode = flags; used = true })
    pure fd

  -- the block that a round reads: zeros in a hole, and where the lookup fails
  unfoldable pub fetch : Option ℕ → Cmd Block
  fetch none = pure zero_block
  fetch (some phys) = read_block phys

  -- the loop of `oscdfs_read`, for a number of rounds
  unfoldable pub read_loop : ℕ → Transfer → InodeCmd Transfer
  unfolding fetch
  read_loop zero t = λ s. (unfinished, s)
  read_loop (suc n) t = do
    (ino, s) ← get_state
    if t.remaining == 0 || leb ino.size t.cur then pure t else do
      phys ← attempt (inode_get_block (t.cur / block_size) false)
      b ← on_fs (fetch phys)
      let chunk = read_chunk ino.size t.remaining t.cur
      read_loop n (
          moved chunk
            (record t { buf = put_bytes t.buf t.total chunk (λ i. b (t.cur % block_size + i)) }))

  -- What a write round does to its block: a block that it does not fill is read first. The bytes are copied
  -- into an array of 4096, from the user's, which has `t.remaining` bytes left.
  unfoldable pub write_part : (phys : ℕ) → Transfer → InodeCmd (Unit {0})
  write_part phys t = do
    let off = t.cur % block_size
    let chunk = write_chunk t
    b ← on_fs (if ltb chunk block_size || not (off == 0) then read_block phys else pure zero_block)
    in_bounds (leb (off + chunk) block_size && leb chunk t.remaining)
    on_fs (write_block phys (put_bytes b off chunk (λ i. t.buf (t.total + i))))

  -- the loop of `oscdfs_write`, for a number of rounds; `buf` is not changed
  unfoldable pub write_loop : ℕ → Transfer → InodeCmd Transfer
  write_loop zero t = λ s. (unfinished, s)
  write_loop (suc n) t = if t.remaining == 0 then pure t else do
    found ← attempt (inode_get_block (t.cur / block_size) true)
    elim found [
      | none ↦ pure t
      | some phys ↦ do write_part phys t; write_loop n (moved (write_chunk t) t)
    ]

  -- `oscdfs_read`: the count, and the user's buffer
  unfoldable pub read : (fd : ℕ) → Block → (nbytes : ℕ) → Cmd (ℕ × Block)
  read fd buf nbytes = do
    s ← get_state
    guard (ltb fd max_open_files && (s.fd_table fd).used)
    guard (not ((s.fd_table fd).mode == wronly))
    let n = (s.fd_table fd).inode_no
    let cur = (s.fd_table fd).offset
    ino ← read_inode n
    guard (check_permission s.current_uid s.current_gid ino r_ok)
    if leb ino.size cur then pure (0, buf) else do
      (t, ino) ←
          with_inode ino (
            read_loop (nbytes + 1) (record { total = 0; remaining = nbytes; cur = cur; buf = buf }))
      set_slot fd (record (s.fd_table fd) { offset = t.cur })
      s ← get_state
      write_inode n (record ino { atime = dev.time s.writes })
      pure (t.total, t.buf)

  -- `oscdfs_write` of the bytes `buf`
  unfoldable pub write : (fd : ℕ) → Block → (nbytes : ℕ) → Cmd ℕ
  write fd buf nbytes = do
    s ← get_state
    guard (ltb fd max_open_files && (s.fd_table fd).used)
    guard (not ((s.fd_table fd).mode == rdonly))
    let n = (s.fd_table fd).inode_no
    let cur = (s.fd_table fd).offset
    ino ← read_inode n
    guard (check_permission s.current_uid s.current_gid ino w_ok)
    (t, ino) ←
        with_inode ino
          (write_loop (nbytes + 1) (record { total = 0; remaining = nbytes; cur = cur; buf = buf }))
    set_slot fd (record (s.fd_table fd) { offset = t.cur })
    s ← get_state
    ignore (
        write_inode n (record ino {
          size = if ltb ino.size t.cur then t.cur else ino.size;
          mtime = dev.time s.writes;
        }))
    pure t.total

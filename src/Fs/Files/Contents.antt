-- ===== src/Fs/Files/Contents.antt =====
-- The bytes of a file as a lookup of each finds them, against the loop of `oscdfs_read` in
-- oscdfs/src/file.c.
use ostd_final.Common.{
  ℕ, zero, suc, ◌+◌, ◌-◌, ◌*◌, ◌/◌, ◌%◌, ◌^◌, ◌≤◌, ◌<◌, ◌≡◌, refl, ◌⊎◌, inl, inr, ap, ◌∙◌, Bool,
  true, false, min, ltb, leb, ◌==◌, ◌||◌, arith, if◌then◌else◌, Bool-cases,
}
use ostd_final.Common.Exec.{
  Outcome, ok, fail, exited, undefined, unfinished, and_then, attempt, outcome_of,
}
use ostd_final.Fs.Layout.{block_size}
use ostd_final.Fs.Bytes.{Block, zero_block, put_bytes}
use ostd_final.Fs.State.{Device, Fs}
use ostd_final.Fs.Disk.{read_block}
use ostd_final.Fs.Inode.{Inode}
use ostd_final.Fs.Blocks.{
  InodeCmd, inode_get_block, indirect_pointers, direct_block, single_block, double_block,
  root_block, child_block, leaf_block, return_int, on_fs,
}
use ostd_final.Fs.Blocks.Lookup.{lookup_still}
use ostd_final.Fs.Bitmap.Succeeds.{IsHealthy}
use ostd_final.Fs.Files.{Transfer, read_chunk, moved, fetch, read_loop}

-- What a failed or successful lookup says about a byte.
abbrev byte_at : Outcome ℕ → Fs → ℕ → ℕ
byte_at (ok b) s off = s.disk b off
byte_at fail s off = 0
byte_at exited s off = 0
byte_at undefined s off = 0
byte_at unfinished s off = 0

abbrev answers : Outcome ℕ → Bool
answers (ok b) = true
answers fail = true
answers exited = false
answers undefined = false
answers unfinished = false

module _ ⦃dev : Device⦄ where
  -- Byte k of a file: zero in a hole.
  abbrev pub file_byte : Inode → Fs → ℕ → ℕ
  file_byte ino s k = byte_at (inode_get_block (k / block_size) false (ino, s)).0 s (k % block_size)

  direct_answers : (l : ℕ) (ino : Inode) (s : Fs) → answers (direct_block l false (ino, s)).0 ≡ true
  unfolding direct_block return_int
  direct_answers l ino s = ground arith

  single_answers :
      (offset : ℕ) (ino : Inode) (s : Fs) → answers (single_block offset false (ino, s)).0 ≡ true
  unfolding single_block root_block leaf_block read_block return_int
  single_answers offset ino s = ground arith

  double_answers :
      (offset : ℕ) (ino : Inode) (s : Fs)
      → offset < 1024 * 1024
      → answers (double_block offset false (ino, s)).0 ≡ true
  unfolding double_block root_block child_block leaf_block read_block return_int
  double_answers offset ino s p =
      let inside : ltb (offset / indirect_pointers) indirect_pointers ≡ true = ground arith in
      ground arith

  -- A lookup of any block that a size of 32 bits allows returns, or fails.
  lookup_answers :
      (l : ℕ) (ino : Inode) (s : Fs)
      → l < 1024 * 1024
      → answers (inode_get_block l false (ino, s)).0 ≡ true
  unfolding inode_get_block
  lookup_answers l ino s p = ground (
    arith,
    direct_answers l ino s,
    single_answers (l - 12) ino s,
    double_answers (l - 12 - 1024) ino s,
  )

  -- One lookup and the transfer behind it deliver the bytes of the file to what follows.
  pub fetch_lem :
      {A : Type 0} (l : ℕ) (ino : Inode) (s : Fs) (k : Block → InodeCmd A)
      → IsHealthy dev s
      → l < 1024 * 1024
      → (b : Block) × (and_then
            (attempt (inode_get_block l false) (ino, s))
            (λ phys x. and_then (on_fs (fetch phys) x) k)
          ≡ k b (ino, s))
        × ((off : ℕ) → b off ≡ byte_at (inode_get_block l false (ino, s)).0 s off)
  unfolding fetch read_block
  fetch_lem l ino s k h p =
      go (inode_get_block l false (ino, s)) (lookup_still ino s l) (lookup_answers l ino s p)
    where
      go :
          (r : Outcome ℕ × (Inode × Fs))
          → r.1 ≡ (ino, s)
          → answers r.0 ≡ true
          → (b : Block) × (and_then (outcome_of r) (λ phys x. and_then (on_fs (fetch phys) x) k)
              ≡ k b (ino, s))
            × ((off : ℕ) → b off ≡ byte_at r.0 s off)
      go (ok n, t) e a =
          (s.disk n, rw e (ground (arith, h.opened, h.reads s.writes n)), λ off. refl)
      go (fail, t) e a = (zero_block, rw e refl, λ off. refl)
      go (exited, t) e a = cc
      go (undefined, t) e a = cc
      go (unfinished, t) e a = cc

chunk_bounds :
    (size remaining cur : ℕ)
    → 0 < remaining
    → cur < size
    → size < 2 ^ 31
    → (0 < read_chunk size remaining cur)
      × (read_chunk size remaining cur ≤ remaining)
      × (cur + read_chunk size remaining cur ≤ size)
      × (cur % block_size + read_chunk size remaining cur ≤ block_size)
unfolding read_chunk
chunk_bounds size remaining cur h0 h1 h2 = (ground arith, ground arith, ground arith, ground arith)

pub same_block :
    (cur j : ℕ)
    → cur % block_size + j < block_size
    → ((cur + j) / block_size ≡ cur / block_size) × ((cur + j) % block_size ≡ cur % block_size + j)
same_block cur j h = (omega arith, omega arith)

-- What the loop makes of a transfer: it moves as many bytes as are asked for and left in the
-- file, and puts them behind those that are there.
pub record Delivers (bytes : ℕ → ℕ) (size : ℕ) (t t' : Transfer) : Type 0 where
  pub counted : t'.total + t.cur ≡ t.total + t'.cur
  pub position : t'.cur ≡ (if leb size t.cur then t.cur else min size (t.cur + t.remaining))
  pub delivered : (i : ℕ) → t.total ≤ i → i < t'.total → t'.buf i ≡ bytes (t.cur + (i - t.total))
  pub untouched : (i : ℕ) → (i < t.total) ⊎ (t'.total ≤ i) → t'.buf i ≡ t.buf i

pub stop_Delivers :
    (bytes : ℕ → ℕ) (size : ℕ) (t : Transfer)
    → t.remaining == 0 || leb size t.cur ≡ true
    → Delivers bytes size t t
stop_Delivers bytes size t stop = record {
  counted = refl;
  position = ground arith;
  delivered = λ i p q. absurd (omega arith);
  untouched = λ i p. refl;
}

pub step_Delivers :
    (bytes : ℕ → ℕ) (size c : ℕ) (b : Block) (t t' : Transfer)
    → 0 < c
    → c ≤ t.remaining
    → t.cur + c ≤ size
    → size < 2 ^ 31
    → ((j : ℕ) → j < c → b (t.cur % block_size + j) ≡ bytes (t.cur + j))
    → Delivers bytes size
        (moved c (record t { buf = put_bytes t.buf t.total c (λ i. b (t.cur % block_size + i)) }))
        t'
    → Delivers bytes size t t'
unfolding put_bytes
step_Delivers bytes size c b t t' c0 c1 c2 small copy d =
    let wrap : (t.cur + c) % 2 ^ 32 ≡ t.cur + c = omega arith in
    let grows : t.total + c ≤ t'.total = ground (arith, d.counted, d.position) in
    let above : (i : ℕ) → (i < t.total) ⊎ (t'.total ≤ i) → (i < t.total + c) ⊎ (t'.total ≤ i) =
      λ i p. ground arith in
    record {
      counted = omega (arith, d.counted);
      position = ground (arith, d.position);
      delivered = λ i p q. elim (Bool-cases (ltb i (t.total + c))) [
        | inl low ↦ d.untouched i (inl (ground arith)) ∙ ground (arith, copy (i - t.total))
        | inr high ↦ d.delivered i (ground arith) q ∙ ap bytes (ground arith)
      ];
      untouched = λ i p. d.untouched i (above i p) ∙ ground arith;
    }

module _ ⦃dev : Device⦄ (ino : Inode) (s : Fs) where
  -- On a healthy device, and with more rounds than bytes are asked for, the loop of `oscdfs_read`
  -- ends with the bytes of the file in the buffer, and changes neither the inode nor the image. The
  -- size of the file is below 2^31.
  pub read_loop_lem :
      (n : ℕ) (t : Transfer)
      → IsHealthy dev s
      → ino.size < 2 ^ 31
      → t.remaining < n
      → (t' : Transfer) × (read_loop n t (ino, s) ≡ (ok t', (ino, s)))
        × Delivers (file_byte ino s) ino.size t t'
  unfolding read_loop
  read_loop_lem zero t h small p = absurd (omega arith)
  read_loop_lem (suc n) t h small p = elim (Bool-cases (t.remaining == 0 || leb ino.size t.cur)) [
    | inl stop ↦ (t, rw stop refl, stop_Delivers _ ino.size t stop)
    | inr more ↦
        let c = read_chunk ino.size t.remaining t.cur in
        let (c0, c1, c2, c3) =
          chunk_bounds ino.size t.remaining t.cur (ground arith) (ground arith) small in
        let next = λ (b : Block).
          moved c
            (record t { buf = put_bytes t.buf t.total c (λ i. b (t.cur % block_size + i)) }) in
        let (b, step, bytes) =
          fetch_lem (t.cur / block_size) ino s (λ b. read_loop n (next b)) h (omega arith) in
        let (t', run, d) = read_loop_lem n (next b) h small (omega arith) in
        (
          t',
          rw more (step ∙ run),
          step_Delivers _ ino.size c b t t' c0 c1 c2 small
              (λ j q. let (e, f) = same_block t.cur j (omega arith) in rw (e, f) (bytes _)) d,
        )
  ]

-- ===== src/Fs/InodeData/Contents.antt =====
-- `oscdfs_read_inode` of oscdfs/src/file.c against the bytes of the file.
use ostd_final.Common.{
  ℕ, zero, suc, ◌+◌, ◌-◌, ◌*◌, ◌/◌, ◌%◌, ◌^◌, ◌≤◌, ◌<◌, ◌≡◌, refl, inl, inr, ap, ◌∙◌, false, min,
  leb, ◌==◌, ◌||◌, arith, Bool-cases,
}
use mathlib.Core.Path.{subst}
use ostd_final.Common.Exec.{ok}
use ostd_final.Fs.Layout.{block_size}
use ostd_final.Fs.Bytes.{Block, put_bytes}
use ostd_final.Fs.State.{Device, Fs}
use ostd_final.Fs.Inode.{Inode, inode_block}
use ostd_final.Fs.Inode.Table.{inode_at, overruns, read_inode_lem}
use ostd_final.Fs.Inode.Succeeds.{write_inode_ok}
use ostd_final.Fs.Bitmap.Succeeds.{IsHealthy}
use ostd_final.Fs.Files.{Transfer, moved}
use ostd_final.Fs.Files.Contents.{
  file_byte, Delivers, fetch_lem, same_block, stop_Delivers, step_Delivers,
}
use ostd_final.Fs.Answer.{done}
use ostd_final.Fs.InodeData.{Span, span_at, span_chunk, advance, clip, read_span, oscdfs_read_inode}

-- the transfer of `oscdfs_read` that stands at the same place
abbrev as_transfer : (offset : ℕ) → Span → Transfer
as_transfer offset p = record {
  total = p.total;
  remaining = p.remaining;
  cur = offset + p.total;
  buf = p.buf;
}

-- The block number and the offset in the block are those of the position, while bytes remain.
record IsAt (offset : ℕ) (p : Span) : Type 0 where
  inside : p.off < block_size
  place : 0 < p.remaining → p.blk * block_size + p.off ≡ offset + p.total

advance-IsAt :
    (offset : ℕ) (p : Span) (buf : Block)
    → IsAt offset p
    → offset + p.total + p.remaining < 2 ^ 32
    → IsAt offset (advance (record p { buf = buf }))
advance-IsAt offset p buf a low = record {
  inside = omega arith;
  place = λ more.
      let here = a.place (omega arith) in
      let full : span_chunk p ≡ block_size - p.off = omega arith in omega arith;
}

-- One round as a round of `oscdfs_read`.
next_transfer :
    (offset : ℕ) (p : Span) (b : Block)
    → p.off ≡ (offset + p.total) % block_size
    → offset + p.total + span_chunk p < 2 ^ 32
    → as_transfer offset
        (advance (record p { buf = put_bytes p.buf p.total (span_chunk p) (λ i. b (p.off + i)) }))
      ≡ moved (span_chunk p) (record (as_transfer offset p) {
        buf = put_bytes p.buf p.total (span_chunk p) (λ i. b ((offset + p.total) % block_size + i));
      })
next_transfer offset p b e low =
    let at : ℕ → ℕ → Transfer = λ o cur. record {
      total = p.total + span_chunk p;
      remaining = p.remaining - span_chunk p;
      cur = cur;
      buf = put_bytes p.buf p.total (span_chunk p) (λ i. b (o + i));
    } in
    ap (λ o. at o (offset + (p.total + span_chunk p))) e ∙ ap (at _) (omega arith)

module _ ⦃dev : Device⦄ (ino : Inode) (s : Fs) where
  -- The loop ends with the bytes of the file in the buffer.
  read_span_lem :
      (n offset : ℕ) (p : Span)
      → IsHealthy dev s
      → ino.size < 2 ^ 31
      → p.remaining < n
      → offset + p.total + p.remaining ≤ ino.size
      → IsAt offset p
      → (p' : Span) × (read_span n offset p (ino, s) ≡ (ok p', (ino, s)))
        × Delivers (file_byte ino s) ino.size (as_transfer offset p) (as_transfer offset p')
  unfolding read_span
  read_span_lem zero offset p h small r low a = absurd (omega arith)
  read_span_lem (suc n) offset p h small r low a =
      elim (Bool-cases (p.remaining == 0 || leb ino.size (offset + p.total))) [
        | inl stop ↦ (p, rw stop refl, stop_Delivers _ ino.size (as_transfer offset p) stop)
        | inr more ↦
            let c = span_chunk p in
            let at_place : p.blk * block_size + p.off ≡ offset + p.total = a.place (ground arith) in
            let inside = a.inside in
            let next = λ (b : Block).
              advance (record p { buf = put_bytes p.buf p.total c (λ i. b (p.off + i)) }) in
            let (b, step, bytes) =
              fetch_lem p.blk ino s (λ b. read_span n offset (next b)) h
                (omega (arith, at_place)) in
            let (p', run, d) =
              read_span_lem n offset (next b) h small (ground arith) (omega (arith, low))
                (advance-IsAt offset p _ a (omega (arith, low))) in
            let same_blk : p.blk ≡ (offset + p.total) / block_size =
              omega (arith, at_place, inside) in
            let same_off : p.off ≡ (offset + p.total) % block_size =
              omega (arith, at_place, inside) in
            let start : as_transfer offset (next b) ≡ _ =
              next_transfer offset p b same_off (omega (arith, low)) in
            (
              p',
              rw more (step ∙ run),
              step_Delivers (file_byte ino s) ino.size c b (as_transfer offset p)
                  (as_transfer offset p') (ground arith) (omega arith) (omega (arith, low)) small
                  (λ j q.
                    let (e, f) =
                      same_block (offset + p.total) j (omega (arith, same_off, inside)) in
                    rw (e, f, ← same_blk) (bytes _))
                  (subst (λ t. Delivers (file_byte ino s) ino.size t (as_transfer offset p')) start
                    d),
            )
      ]

-- What a read of an inode returns: how many bytes it put into the buffer, which are those of the file.
pub record ReadFile (bytes : ℕ → ℕ) (size offset nbytes : ℕ) (buf : Block) (result : ℕ × Block)
    : Type 0 where
  pub count : result.0 ≡ min nbytes (size - offset)
  pub delivered : (i : ℕ) → i < result.0 → result.1 i ≡ bytes (offset + i)
  pub untouched : (i : ℕ) → result.0 ≤ i → result.1 i ≡ buf i

Delivers-ReadFile :
    (bytes : ℕ → ℕ) (size offset nbytes : ℕ) (buf : Block) (p : Span)
    → offset < size
    → Delivers bytes size
        (as_transfer offset (span_at offset (clip size offset nbytes) buf))
        (as_transfer offset p)
    → ReadFile bytes size offset nbytes buf (p.total, p.buf)
unfolding clip
Delivers-ReadFile bytes size offset nbytes buf p h d = record {
  count = ground (arith, d.position);
  delivered = λ i q. d.delivered i (omega arith) q ∙ ap bytes (omega arith);
  untouched = λ i q. d.untouched i (inr q);
}

clipped : (size offset nbytes : ℕ) → offset < size → offset + 0 + clip size offset nbytes ≤ size
unfolding clip
clipped size offset nbytes h = ground arith

span_at-IsAt :
    (offset nbytes : ℕ) (buf : Block) → offset < 2 ^ 32 → IsAt offset (span_at offset nbytes buf)
span_at-IsAt offset nbytes buf h = record { inside = omega arith; place = λ more. omega arith }

module _ ⦃dev : Device⦄ where
  -- On a healthy device, `oscdfs_read_inode` of an inode that fits its block and has a size below 2^31
  -- succeeds, and returns how many of the bytes asked for lie in the file; these bytes of the file
  -- (zeros in holes) are then at the start of the buffer, and the rest of the buffer is as it was.
  pub oscdfs_read_inode_lem :
      (n offset nbytes : ℕ) (buf : Block) (s : Fs)
      → IsHealthy dev s
      → n < 128
      → overruns n ≡ false
      → (inode_at s n).size < 2 ^ 31
      → (result : ℕ × Block) × (s' : Fs) × (oscdfs_read_inode n buf offset nbytes s
          ≡ (ok (done result), s'))
        × ReadFile (file_byte (inode_at s n) s) (inode_at s n).size offset nbytes buf result
  unfolding oscdfs_read_inode
  oscdfs_read_inode_lem n offset nbytes buf s h range whole small =
      rw (read_inode_lem n s range h.opened (h.reads s.writes (inode_block n)), whole)
        (elim (Bool-cases (leb (inode_at s n).size offset)) [
          | inl stop ↦ rw stop (
            (0, buf),
            s,
            refl,
            record {
              count = ground arith;
              delivered = λ i q. absurd (omega arith);
              untouched = λ i q. refl;
            },
          )
          | inr more ↦
              let ino = inode_at s n in
              let (p, run, d) =
                read_span_lem ino s (clip ino.size offset nbytes + 1) offset
                  (span_at offset (clip ino.size offset nbytes) buf) h small (omega arith)
                  (clipped ino.size offset nbytes (ground arith))
                  (span_at-IsAt offset _ buf (ground arith)) in
              let (s', wrote, h') =
                write_inode_ok n (record ino { atime = dev.time s.writes }) s h range whole in
              (
                (p.total, p.buf),
                s',
                rw (more, run, wrote) refl,
                Delivers-ReadFile (file_byte ino s) ino.size offset nbytes buf p (ground arith) d,
              )
        ])

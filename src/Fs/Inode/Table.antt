-- ===== src/Fs/Inode/Table.antt =====
-- Where oscdfs/src/inode.c puts each inode, and what a write of one leaves of the others.
use ostd_final.Common.{
  refl, ap, false, if◌then◌else◌, Bool-cases, sym, ℕ, ◌+◌, ◌*◌, ◌<◌, ◌^◌, ◌≡◌, arith, ◌∙◌, inl, inr,
  ◌≤◌, ◌⊎◌, leb, Bool, ◌==◌, ◌≢◌, ◌||◌, true, not,
}
use ostd_final.Common.Exec.{ok, undefined}
use ostd_final.Fs.Bytes.{
  load32, store32, put_bytes, words, load32-words, load32-store32_ne, load32-put_bytes_ne,
  load32-from_byte, Block, load32-put_bytes, from_byte,
}
use ostd_final.Fs.State.{Device, Fs, put_block, store_block}
use ostd_final.Fs.Disk.{read_block, write_block}
use ostd_final.Fs.Layout.{block_size}
use mathlib.Core.Path.{subst}
use ostd_final.Common.Bits.{holds_below, holds_below-at}
use ostd_final.Fs.Inode.{
  Inode, decode_inode, encode_inode, inode_bytes, inode_offset, read_inode, write_inode,
  inode_block,
}

-- The fields that a copy through the table keeps, up to the ends of the arrays.
pub record SameInode (a b : Inode) : Type 0 where
  pub mode : a.mode ≡ b.mode
  pub uid : a.uid ≡ b.uid
  pub gid : a.gid ≡ b.gid
  pub size : a.size ≡ b.size
  pub ctime : a.ctime ≡ b.ctime
  pub atime : a.atime ≡ b.atime
  pub mtime : a.mtime ≡ b.mtime
  pub blocks : (i : ℕ) → i < 12 → a.blocks i ≡ b.blocks i
  pub indirect : a.indirect ≡ b.indirect
  pub double_indirect : a.double_indirect ≡ b.double_indirect
  pub triple_indirect : a.triple_indirect ≡ b.triple_indirect

pub SameInode-refl : (a : Inode) → SameInode a a
SameInode-refl a = record {
  mode = refl;
  uid = refl;
  gid = refl;
  size = refl;
  ctime = refl;
  atime = refl;
  mtime = refl;
  blocks = λ i p. refl;
  indirect = refl;
  double_indirect = refl;
  triple_indirect = refl;
}

-- Every word of the inode is a `uint32_t`.
pub record IsWords (a : Inode) : Type 0 where
  pub mode : a.mode < 2 ^ 32
  pub uid : a.uid < 2 ^ 32
  pub gid : a.gid < 2 ^ 32
  pub size : a.size < 2 ^ 32
  pub ctime : a.ctime < 2 ^ 32
  pub atime : a.atime < 2 ^ 32
  pub mtime : a.mtime < 2 ^ 32
  pub blocks : (i : ℕ) → i < 12 → a.blocks i < 2 ^ 32
  pub indirect : a.indirect < 2 ^ 32
  pub double_indirect : a.double_indirect < 2 ^ 32
  pub triple_indirect : a.triple_indirect < 2 ^ 32

encode-blocks :
    (a : Inode) (i : ℕ)
    → i < 12
    → load32 (encode_inode a) (28 + 4 * i) ≡ load32 (words a.blocks) (4 * i)
unfolding encode_inode
encode-blocks a i h =
    load32-store32_ne _ 84 (28 + 4 * i) _ (inl (omega arith))
    ∙ load32-store32_ne _ 80 (28 + 4 * i) _ (inl (omega arith))
    ∙ load32-store32_ne _ 76 (28 + 4 * i) _ (inl (omega arith))
    ∙ load32-store32_ne _ 24 (28 + 4 * i) _ (inr (omega arith))
    ∙ load32-store32_ne _ 20 (28 + 4 * i) _ (inr (omega arith))
    ∙ load32-store32_ne _ 16 (28 + 4 * i) _ (inr (omega arith))
    ∙ load32-store32_ne _ 12 (28 + 4 * i) _ (inr (omega arith))
    ∙ load32-store32_ne _ 8 (28 + 4 * i) _ (inr (omega arith))
    ∙ load32-store32_ne _ 4 (28 + 4 * i) _ (inr (omega arith))
    ∙ load32-store32_ne _ 0 (28 + 4 * i) _ (inr (omega arith))
    ∙ load32-put_bytes_ne _ 88 48 _ (28 + 4 * i) (inl (omega arith))
    ∙ sym (load32-from_byte _ 28 (4 * i))
    ∙ load32-put_bytes _ 28 48 _ (4 * i) (omega arith)

decode-encode_inode : (a : Inode) → IsWords a → SameInode (decode_inode (encode_inode a)) a
unfolding load32 encode_inode store32 put_bytes
decode-encode_inode a h = record {
  mode = omega arith;
  uid = omega arith;
  gid = omega arith;
  size = omega arith;
  ctime = omega arith;
  atime = omega arith;
  mtime = omega arith;
  blocks = λ i p. encode-blocks a i p ∙ load32-words a.blocks i (h.blocks i p);
  indirect = omega arith;
  double_indirect = omega arith;
  triple_indirect = omega arith;
}

-- The words of the structure at offset o of a buffer that was written there.
copied :
    (a : Inode) (b : Block) (o : ℕ)
    → IsWords a
    → SameInode (decode_inode (from_byte (put_bytes b o inode_bytes (encode_inode a)) o)) a
copied a b o h =
    let e = decode-encode_inode a h in
    let at = load32-put_bytes b o inode_bytes (encode_inode a) in
    record {
      mode = at 0 (omega arith) ∙ e.mode;
      uid = at 4 (omega arith) ∙ e.uid;
      gid = at 8 (omega arith) ∙ e.gid;
      size = at 12 (omega arith) ∙ e.size;
      ctime = at 16 (omega arith) ∙ e.ctime;
      atime = at 20 (omega arith) ∙ e.atime;
      mtime = at 24 (omega arith) ∙ e.mtime;
      blocks = λ i p. at (28 + 4 * i) (omega arith) ∙ e.blocks i p;
      indirect = at 76 (omega arith) ∙ e.indirect;
      double_indirect = at 80 (omega arith) ∙ e.double_indirect;
      triple_indirect = at 84 (omega arith) ∙ e.triple_indirect;
    }

-- The words of the structure at offset o, after a copy to an offset apart from it.
apart :
    (a : Inode) (b : Block) (o o' : ℕ)
    → (o + inode_bytes ≤ o') ⊎ (o' + inode_bytes ≤ o)
    → SameInode
        (decode_inode (from_byte (put_bytes b o inode_bytes (encode_inode a)) o'))
        (decode_inode (from_byte b o'))
apart a b o o' h =
    let at : (k : ℕ)
        → k + 4 ≤ inode_bytes
        → load32 (from_byte (put_bytes b o inode_bytes (encode_inode a)) o') k
          ≡ load32 (from_byte b o') k =
      λ k p.
        load32-from_byte _ o' k
        ∙ load32-put_bytes_ne b o inode_bytes (encode_inode a) (o' + k) (ground arith)
        ∙ sym (load32-from_byte b o' k) in
    record {
      mode = at 0 (omega arith);
      uid = at 4 (omega arith);
      gid = at 8 (omega arith);
      size = at 12 (omega arith);
      ctime = at 16 (omega arith);
      atime = at 20 (omega arith);
      mtime = at 24 (omega arith);
      blocks = λ i p. at (28 + 4 * i) (omega arith);
      indirect = at 76 (omega arith);
      double_indirect = at 80 (omega arith);
      triple_indirect = at 84 (omega arith);
    }

-- The inodes whose 136 bytes do not fit into the rest of their block.
abbrev pub overruns : ℕ → Bool
overruns n = n == 30 || n == 60 || n == 90 || n == 120

straddle_table :
    holds_below 128 (λ n.
      let fit = leb (inode_offset n + inode_bytes) block_size in
      if overruns n then not fit else fit)
    ≡ true
unfolding holds_below
straddle_table = refl

pub fits : (n : ℕ) → n < 128 → leb (inode_offset n + inode_bytes) block_size ≡ not (overruns n)
fits n h = ground (arith, holds_below-at 128 _ n h straddle_table)

-- What the table holds for an inode.
abbrev pub inode_at : Fs → ℕ → Inode
inode_at s n = decode_inode (from_byte (s.disk (inode_block n)) (inode_offset n))

offsets_apart :
    (n m : ℕ)
    → n ≢ m
    → inode_block n ≡ inode_block m
    → (inode_offset n + inode_bytes ≤ inode_offset m)
      ⊎ (inode_offset m + inode_bytes ≤ inode_offset n)
offsets_apart n m h e = omega arith

module _ ⦃dev : Device⦄ where
  -- Where the block can be read, `read_inode` of a number in range runs past its buffer exactly for
  -- the inodes 30, 60, 90 and 120; for all others it returns what the table holds.
  pub read_inode_lem :
      (n : ℕ) (s : Fs)
      → n < 128
      → s.opened ≡ true
      → dev.read_ok s.writes (inode_block n) ≡ true
      → read_inode n s ≡ (if overruns n then (undefined, s) else (ok (inode_at s n), s))
  unfolding read_inode read_block
  read_inode_lem n s h o r = ground (arith, fits n h)

  write_inode_cases :
      (n : ℕ) (a : Inode) (s s' : Fs)
      → write_inode n a s ≡ (ok tt, s')
      → (n < 128)
        × (overruns n ≡ false)
        × (s'
            ≡ store_block s
                (inode_block n)
                (put_bytes (s.disk (inode_block n)) (inode_offset n) inode_bytes (encode_inode a)))
  unfolding write_inode read_block write_block
  write_inode_cases n a s s' h = ground (arith, fits n)

  -- After a successful `write_inode` the table holds the inode at its number, every other inode
  -- is as it was, and no other block was written.
  pub write_inode_lem :
      (n : ℕ) (a : Inode) (s s' : Fs)
      → IsWords a
      → write_inode n a s ≡ (ok tt, s')
      → SameInode (inode_at s' n) a
        × ((m : ℕ) → m ≢ n → SameInode (inode_at s' m) (inode_at s m))
        × ((k : ℕ) → k ≢ inode_block n → s'.disk k ≡ s.disk k)
  write_inode_lem n a s s' w h =
      let (range, fit, e) = write_inode_cases n a s s' h in
      let b = put_bytes (s.disk (inode_block n)) (inode_offset n) inode_bytes (encode_inode a) in
      let at : (k : ℕ) → s'.disk k ≡ put_block s.disk (inode_block n) b k = λ k i. (e i).disk k in
      let self : s'.disk (inode_block n) ≡ b = ground (arith, at (inode_block n)) in
      (
        subst (λ b. SameInode (decode_inode (from_byte b (inode_offset n))) a) (sym self)
            (copied a (s.disk (inode_block n)) (inode_offset n) w),
        λ m ne. elim (Bool-cases (inode_block m == inode_block n)) [
          | inl same ↦
              let eq : inode_block n ≡ inode_block m = ground arith in
              let now : s'.disk (inode_block m) ≡ b = rw (← eq) self in
              let was : s.disk (inode_block n) ≡ s.disk (inode_block m) = ap s.disk eq in
              subst (λ c. SameInode (decode_inode (from_byte c (inode_offset m))) (inode_at s m))
                (sym now)
                (subst
                  (λ c.
                    SameInode (decode_inode (from_byte b (inode_offset m)))
                      (decode_inode (from_byte c (inode_offset m))))
                  was
                  (apart a (s.disk (inode_block n)) (inode_offset n) (inode_offset m)
                    (offsets_apart n m (λ q. ne (sym q)) eq)))
          | inr other ↦
              let now : s'.disk (inode_block m) ≡ s.disk (inode_block m) =
                ground (arith, at (inode_block m)) in
              subst (λ c. SameInode (decode_inode (from_byte c (inode_offset m))) (inode_at s m))
                (sym now) (SameInode-refl (inode_at s m))
        ],
        λ k ne. ground (arith, at k),
      )

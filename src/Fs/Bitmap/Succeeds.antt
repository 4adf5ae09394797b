-- ===== src/Fs/Bitmap/Succeeds.antt =====
-- When the allocators of oscdfs/src/bitmap.c succeed.
use ostd_final.Common.{
  ℕ, zero, suc, ◌+◌, ◌≡◌, ◌≤◌, ◌<◌, refl, arith, true, false, inl, inr, ◌⊎◌, ltb, Option-cases,
}
use ostd_final.Common.Exec.{Outcome, ok, fail, exited, undefined, unfinished, pure, and_then}
use ostd_final.Common.Int.{ℤ, pos, minus_one}
use ostd_final.Fs.Layout.{total_blocks, total_inodes, magic}
use ostd_final.Fs.Bytes.{Block, load32}
use ostd_final.Fs.State.{Device, Fs, store_block}
use ostd_final.Fs.Disk.{read_block, write_block}
use ostd_final.Fs.Super.{
  read_superblock, write_superblock, super_update_counts, read_group_desc, write_group_desc,
  group_desc_update_counts, out_of_range,
}
use ostd_final.Fs.Bitmap.{is_free, set_bit, clear_bit, first_free, commit, alloc_block, free_block}
use ostd_final.Fs.Bitmap.Bits.{
  free_count, first_free-some, first_free-none, free_count-set_bit, free_count-clear_bit,
}
use ostd_final.Fs.Super.Counts.{super_update_counts_lem}
use ostd_final.Fs.Bitmap.Consistent.{IsConsistent, free_count-le}

-- The superblock carries the magic number and the sizes of the image.
pub record IsSized (s : Fs) : Type 0 where
  pub magic_number : load32 (s.disk 0) 0 ≡ magic
  pub blocks : load32 (s.disk 0) 4 ≡ total_blocks
  pub inodes : load32 (s.disk 0) 12 ≡ total_inodes

-- An open image whose every transfer succeeds.
pub record IsHealthy (dev : Device) (s : Fs) : Type 0 where
  pub opened : s.opened ≡ true
  pub reads : (w n : ℕ) → dev.read_ok w n ≡ true
  pub writes : (w n : ℕ) → dev.write_ok w n ≡ true

none-free_count : (b : Block) (n : ℕ) → ((j : ℕ) → j < n → is_free b j ≡ false) → free_count b n ≡ 0
unfolding free_count
none-free_count b zero f = refl
none-free_count b (suc n) f =
    ground (arith, none-free_count b n (λ j h. f j (omega arith)), f n (omega arith))

-- Both counts of a store move within their ranges.
record InRange (db di : ℤ) (s : Fs) : Type 0 where
  super_blocks : out_of_range (load32 (s.disk 0) 8) db total_blocks ≡ false
  super_inodes : out_of_range (load32 (s.disk 0) 16) di total_inodes ≡ false
  desc_blocks : out_of_range (load32 (s.disk 1) 12) db total_blocks ≡ false
  desc_inodes : out_of_range (load32 (s.disk 1) 16) di total_inodes ≡ false

blocks_down : (m n : ℕ) → n ≤ 2048 → m + 1 ≡ n → out_of_range n minus_one 2048 ≡ false
blocks_down m n h e = ground arith

blocks_up : (m n : ℕ) → m ≤ 2048 → m ≡ n + 1 → out_of_range n (pos 1) 2048 ≡ false
blocks_up m n h e = ground arith

inodes_still : (n : ℕ) → n ≤ 128 → out_of_range n (pos 0) 128 ≡ false
inodes_still n h = ground arith

blocks_InRange :
    {slack : ℕ} {s : Fs} (db : ℤ)
    → IsConsistent slack s
    → free_count (s.disk 3) total_inodes + slack ≤ total_inodes
    → out_of_range (free_count (s.disk 2) total_blocks) db total_blocks ≡ false
    → InRange db (pos 0) s
blocks_InRange db c fits h = record {
  super_blocks = rw c.super_blocks h;
  super_inodes = rw c.super_inodes (inodes_still _ fits);
  desc_blocks = rw c.desc_blocks h;
  desc_inodes = rw c.desc_inodes (inodes_still _ fits);
}

module _ ⦃dev : Device⦄ where
  super_succeeds :
      (db di : ℤ) (s : Fs)
      → IsSized s
      → IsHealthy dev s
      → out_of_range (load32 (s.disk 0) 8) db total_blocks ≡ false
      → out_of_range (load32 (s.disk 0) 16) di total_inodes ≡ false
      → (super_update_counts db di s).0 ≡ ok tt
  unfolding super_update_counts read_superblock write_superblock read_block write_block
  super_succeeds db di s z h p q =
      ground (
        arith,
        z.magic_number,
        z.blocks,
        z.inodes,
        h.opened,
        h.reads s.writes 0,
        h.writes s.writes 0,
      )

  desc_succeeds :
      (db di : ℤ) (s : Fs)
      → IsHealthy dev s
      → out_of_range (load32 (s.disk 1) 12) db total_blocks ≡ false
      → out_of_range (load32 (s.disk 1) 16) di total_inodes ≡ false
      → (group_desc_update_counts db di s).0 ≡ ok tt
  unfolding group_desc_update_counts read_group_desc write_group_desc read_block write_block
  desc_succeeds db di s h p q = ground (arith, h.opened, h.reads s.writes 1, h.writes s.writes 1)

  stored : {s : Fs} (n : ℕ) (b : Block) → IsHealthy dev s → IsHealthy dev (store_block s n b)
  stored n b h = record { opened = h.opened; reads = h.reads; writes = h.writes }

  commit_succeeds :
      (block : ℕ) (buf : Block) (db di : ℤ) (s : Fs)
      → 1 < block
      → IsSized s
      → IsHealthy dev s
      → InRange db di s
      → (commit block buf db di s).0 ≡ ok tt
  unfolding commit
  commit_succeeds block buf db di s far z h r =
      let s1 = store_block s block buf in
      let same0 : s1.disk 0 ≡ s.disk 0 = ground arith in
      let same1 : s1.disk 1 ≡ s.disk 1 = ground arith in
      let written : write_block block buf s ≡ (ok tt, s1) =
        unfold write_block in ground (arith, h.opened, h.writes s.writes block) in
      let z1 : IsSized s1 = record {
        magic_number = rw same0 z.magic_number;
        blocks = rw same0 z.blocks;
        inodes = rw same0 z.inodes;
      } in
      let ran =
        super_succeeds db di s1 z1 (stored block buf h) (rw same0 r.super_blocks)
          (rw same0 r.super_inodes) in
      rw written (elim (super_update_counts_lem db di s1) [
        | inl (inl e) ↦ cc
        | inl (inr (b, e)) ↦ cc
        | inr (b0, e, moved) ↦
            let s2 = store_block s1 0 b0 in
            let kept : s2.disk 1 ≡ s.disk 1 = ground arith in
            rw e (
              desc_succeeds db di s2 (stored 0 b0 (stored block buf h)) (rw kept r.desc_blocks)
                (rw kept r.desc_inodes))
      ])

  commit_then :
      {A : Type 0} (a : A) (block : ℕ) (buf : Block) (db di : ℤ) (s : Fs)
      → 1 < block
      → IsSized s
      → IsHealthy dev s
      → InRange db di s
      → (and_then (commit block buf db di s) (λ _. pure a)).0 ≡ ok a
  commit_then a block buf db di s far z h r = go _ (commit_succeeds block buf db di s far z h r)
    where
      go : (r : Outcome (Unit {0}) × Fs) → r.0 ≡ ok tt → (and_then r (λ _. pure a)).0 ≡ ok a
      go (ok u, t) e = refl
      go (fail, t) e = cc
      go (exited, t) e = cc
      go (undefined, t) e = cc
      go (unfinished, t) e = cc

  -- On a healthy device `alloc_block` returns a block whenever the bitmap has a free one, and
  -- fails otherwise. The counts agree with the bitmaps, and do not exceed the image's sizes.
  alloc_block_succeeds :
      (slack : ℕ) (s : Fs)
      → IsConsistent slack s
      → IsSized s
      → IsHealthy dev s
      → free_count (s.disk 3) total_inodes + slack ≤ total_inodes
      → ((free_count (s.disk 2) total_blocks ≡ 0) × ((alloc_block s).0 ≡ fail))
        ⊎ ((i : ℕ) × ((alloc_block s).0 ≡ ok i))
  unfolding alloc_block
  alloc_block_succeeds slack s c z h fits =
      let read : read_block 2 s ≡ (ok (s.disk 2), s) =
        unfold read_block in ground (arith, h.opened, h.reads s.writes 2) in
      rw read (elim (Option-cases (first_free (s.disk 2) total_blocks 0)) [
        | inl e ↦ rw e (
            inl (
              none-free_count (s.disk 2) total_blocks (λ j p.
                  first_free-none (s.disk 2) total_blocks 0 e j (omega arith) (omega arith)),
              refl,
            ))
        | inr (i, e) ↦
            let (free, low, high, below) = first_free-some (s.disk 2) total_blocks 0 e in
            let down = free_count-set_bit (s.disk 2) i total_blocks (omega arith) free in
            rw e (
              inr (
                i,
                commit_then i 2 (set_bit (s.disk 2) i) minus_one (pos 0) s (omega arith) z h (
                    blocks_InRange minus_one c fits
                      (blocks_down _ _ (free_count-le (s.disk 2) total_blocks) down)),
              ))
      ])

  -- On a healthy device `free_block` succeeds for every block in range that is in use.
  free_block_succeeds :
      (slack i : ℕ) (s : Fs)
      → IsConsistent slack s
      → IsSized s
      → IsHealthy dev s
      → free_count (s.disk 3) total_inodes + slack ≤ total_inodes
      → i < total_blocks
      → is_free (s.disk 2) i ≡ false
      → (free_block i s).0 ≡ ok tt
  unfolding free_block
  free_block_succeeds slack i s c z h fits range used =
      let read : read_block 2 s ≡ (ok (s.disk 2), s) =
        unfold read_block in ground (arith, h.opened, h.reads s.writes 2) in
      let inside : ltb i total_blocks ≡ true = ground arith in
      let up = free_count-clear_bit (s.disk 2) i total_blocks range used in
      let room = blocks_up _ _ (free_count-le (clear_bit (s.disk 2) i) total_blocks) up in
      rw (inside, read, used)
        (commit_succeeds 2 (clear_bit (s.disk 2) i) (pos 1) (pos 0) s (omega arith) z h
          (blocks_InRange (pos 1) c fits room))

  -- On a healthy device, with counts that agree with the bitmaps and fit the sizes of the image,
  -- `alloc_block` returns a block, or fails and the bitmap has no free block; `free_block` succeeds for
  -- every block in range that is in use.
  pub block_allocators_succeed :
      (slack : ℕ) (s : Fs)
      → IsConsistent slack s
      → IsSized s
      → IsHealthy dev s
      → free_count (s.disk 3) total_inodes + slack ≤ total_inodes
      → (((free_count (s.disk 2) total_blocks ≡ 0) × ((alloc_block s).0 ≡ fail))
          ⊎ ((i : ℕ) × ((alloc_block s).0 ≡ ok i)))
        × ((i : ℕ) → i < total_blocks → is_free (s.disk 2) i ≡ false → (free_block i s).0 ≡ ok tt)
  block_allocators_succeed slack s c z h fits =
      (alloc_block_succeeds slack s c z h fits, λ i. free_block_succeeds slack i s c z h fits)

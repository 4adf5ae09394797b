-- ===== src/Fs/Bitmap/Consistent.antt =====
-- The counts of free objects against the bitmaps of oscdfs/src/bitmap.c.
use ostd_final.Common.{zero, suc, ◌≤◌, ℕ, ◌+◌, ◌≡◌, ◌<◌, ◌^◌, ap, arith}
use ostd_final.Common.Int.{ℤ, pos, minus_one, to_int, ◌+ℤ◌}
use ostd_final.Fs.Layout.{total_blocks, total_inodes}
use ostd_final.Fs.Bytes.{Block, load32}
use ostd_final.Fs.State.{Device, Fs}
use ostd_final.Fs.Bitmap.{alloc_block, free_block, alloc_inode, free_inode}
use ostd_final.Fs.Bitmap.Bits.{free_count, free_count-set_bit, free_count-clear_bit}
use ostd_final.Fs.Bitmap.Alloc.{
  Committed, Taken, Given, Transacts, Transacts-mono, alloc_block_lem, alloc_inode_lem,
  free_block_lem, free_inode_lem,
}

-- The superblock and the group descriptor both count the free bits of the bitmaps, where the
-- inode counts may be too high by `slack`.
pub record IsConsistent (slack : ℕ) (s : Fs) : Type 0 where
  pub super_blocks : load32 (s.disk 0) 8 ≡ free_count (s.disk 2) total_blocks
  pub desc_blocks : load32 (s.disk 1) 12 ≡ free_count (s.disk 2) total_blocks
  pub super_inodes : load32 (s.disk 0) 16 ≡ free_count (s.disk 3) total_inodes + slack
  pub desc_inodes : load32 (s.disk 1) 16 ≡ free_count (s.disk 3) total_inodes + slack

pub free_count-le : (b : Block) (n : ℕ) → free_count b n ≤ n
unfolding free_count
free_count-le b zero = omega arith
free_count-le b (suc n) = ground (arith, free_count-le b n)

count_down : (a b n m : ℕ) → pos b ≡ to_int a +ℤ minus_one → a ≡ n → m + 1 ≡ n → n < 2 ^ 31 → b ≡ m
count_down a b n m h p q r = ground arith

count_up : (a b n m : ℕ) → pos b ≡ to_int a +ℤ pos 1 → a ≡ n → m ≡ n + 1 → n < 2 ^ 31 → b ≡ m
count_up a b n m h p q r = ground arith

count_same : (a b n m : ℕ) → pos b ≡ to_int a +ℤ pos 0 → a ≡ n → m ≡ n → n < 2 ^ 31 → b ≡ m
count_same a b n m h p q r = ground arith

module _ {slack : ℕ} (s s' : Fs) (h : IsConsistent slack s) (small : slack < 128) where
  blocks_bound : free_count (s.disk 2) total_blocks < 2 ^ 31
  blocks_bound = omega (arith, free_count-le (s.disk 2) total_blocks)

  inodes_bound : free_count (s.disk 3) total_inodes + slack < 2 ^ 31
  inodes_bound = omega (arith, free_count-le (s.disk 3) total_inodes)

  -- The inode bitmap and its counts are as they were.
  InodesKept : Type 0
  InodesKept =
      (load32 (s'.disk 0) 16 ≡ free_count (s'.disk 3) total_inodes + slack)
      × (load32 (s'.disk 1) 16 ≡ free_count (s'.disk 3) total_inodes + slack)

  BlocksKept : Type 0
  BlocksKept =
      (load32 (s'.disk 0) 8 ≡ free_count (s'.disk 2) total_blocks)
      × (load32 (s'.disk 1) 12 ≡ free_count (s'.disk 2) total_blocks)

  inodes_kept : {buf : Block} {db : ℤ} → Committed 2 buf db (pos 0) s s' → InodesKept
  unfolding InodesKept
  inodes_kept c =
      let same : free_count (s'.disk 3) total_inodes + slack
          ≡ free_count (s.disk 3) total_inodes + slack =
        ap (λ b. free_count b total_inodes + slack)
          (c.others 3 (omega arith) (omega arith) (omega arith)) in
      (
        count_same _ _ _ _ c.super.free_inodes h.super_inodes same inodes_bound,
        count_same _ _ _ _ c.desc.free_inodes_count h.desc_inodes same inodes_bound,
      )

  blocks_kept : {buf : Block} {di : ℤ} → Committed 3 buf (pos 0) di s s' → BlocksKept
  unfolding BlocksKept
  blocks_kept c =
      let same : free_count (s'.disk 2) total_blocks ≡ free_count (s.disk 2) total_blocks =
        ap (λ b. free_count b total_blocks)
          (c.others 2 (omega arith) (omega arith) (omega arith)) in
      (
        count_same _ _ _ _ c.super.free_blocks h.super_blocks same blocks_bound,
        count_same _ _ _ _ c.desc.free_blocks_count h.desc_blocks same blocks_bound,
      )

  join : BlocksKept → InodesKept → IsConsistent slack s'
  unfolding BlocksKept InodesKept
  join b i = record { super_blocks = b.0; desc_blocks = b.1; super_inodes = i.0; desc_inodes = i.1 }

  take_block-IsConsistent :
      {i : ℕ} → Taken 2 total_blocks minus_one (pos 0) s i s' → IsConsistent slack s'
  unfolding BlocksKept
  take_block-IsConsistent {i} t =
      let c = t.committed in
      let down : free_count (s'.disk 2) total_blocks + 1 ≡ free_count (s.disk 2) total_blocks =
        rw c.bitmap (free_count-set_bit (s.disk 2) i total_blocks t.in_range t.was_free) in
      join
        (
          count_down _ _ _ _ c.super.free_blocks h.super_blocks down blocks_bound,
          count_down _ _ _ _ c.desc.free_blocks_count h.desc_blocks down blocks_bound,
        )
        (inodes_kept c)

  give_block-IsConsistent :
      (i : ℕ) → Given 2 total_blocks (pos 1) (pos 0) i s s' → IsConsistent slack s'
  unfolding BlocksKept
  give_block-IsConsistent i t =
      let c = t.committed in
      let up : free_count (s'.disk 2) total_blocks ≡ free_count (s.disk 2) total_blocks + 1 =
        rw c.bitmap (free_count-clear_bit (s.disk 2) i total_blocks t.in_range t.was_used) in
      join
        (
          count_up _ _ _ _ c.super.free_blocks h.super_blocks up blocks_bound,
          count_up _ _ _ _ c.desc.free_blocks_count h.desc_blocks up blocks_bound,
        )
        (inodes_kept c)

  take_inode-IsConsistent :
      {i : ℕ} → Taken 3 total_inodes (pos 0) minus_one s i s' → IsConsistent slack s'
  unfolding InodesKept
  take_inode-IsConsistent {i} t =
      let c = t.committed in
      let one : free_count (s'.disk 3) total_inodes + 1 ≡ free_count (s.disk 3) total_inodes =
        rw c.bitmap (free_count-set_bit (s.disk 3) i total_inodes t.in_range t.was_free) in
      let down : free_count (s'.disk 3) total_inodes + slack + 1
          ≡ free_count (s.disk 3) total_inodes + slack =
        omega arith in
      join (blocks_kept c) (
        count_down _ _ _ _ c.super.free_inodes h.super_inodes down inodes_bound,
        count_down _ _ _ _ c.desc.free_inodes_count h.desc_inodes down inodes_bound,
      )

  give_inode-IsConsistent :
      (i : ℕ) → Given 3 total_inodes (pos 0) (pos 1) i s s' → IsConsistent slack s'
  unfolding InodesKept
  give_inode-IsConsistent i t =
      let c = t.committed in
      let one : free_count (s'.disk 3) total_inodes ≡ free_count (s.disk 3) total_inodes + 1 =
        rw c.bitmap (free_count-clear_bit (s.disk 3) i total_inodes t.in_range t.was_used) in
      let up : free_count (s'.disk 3) total_inodes + slack
          ≡ free_count (s.disk 3) total_inodes + slack + 1 =
        omega arith in
      join (blocks_kept c) (
        count_up _ _ _ _ c.super.free_inodes h.super_inodes up inodes_bound,
        count_up _ _ _ _ c.desc.free_inodes_count h.desc_inodes up inodes_bound,
      )

-- Each of the four calls fails, or returns and leaves counts that agree with the bitmaps as they did
-- before: those of the inodes too high by the same number, which is below 128.
pub allocators-IsConsistent :
    ⦃dev : Device⦄ (slack : ℕ) (s : Fs) (i : ℕ)
    → IsConsistent slack s
    → slack < 128
    → Transacts s (λ _. IsConsistent slack) (alloc_block s)
      × Transacts s (λ _. IsConsistent slack) (free_block i s)
      × Transacts s (λ _. IsConsistent slack) (alloc_inode s)
      × Transacts s (λ _. IsConsistent slack) (free_inode i s)
allocators-IsConsistent slack s i h small = (
  Transacts-mono (λ a s'. take_block-IsConsistent s s' h small) (alloc_block_lem s),
  Transacts-mono (λ a s'. give_block-IsConsistent s s' h small i) (free_block_lem s i),
  Transacts-mono (λ a s'. take_inode-IsConsistent s s' h small) (alloc_inode_lem s),
  Transacts-mono (λ a s'. give_inode-IsConsistent s s' h small i) (free_inode_lem s i),
)

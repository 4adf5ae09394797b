-- ===== src/Fs/Bitmap/Alloc.antt =====
-- The allocators of oscdfs/src/bitmap.c: what each outcome leaves on the image.
use ostd_final.Common.{
  ℕ, ◌<◌, ◌≤◌, ◌≡◌, ◌≢◌, refl, sym, ◌∙◌, inl, inr, true, false, some, arith, Bool-cases,
  Option-cases, ltb, ◌==◌, if◌then◌else◌,
}
use ostd_final.Common.Exec.{Outcome, pure, ok, fail, and_then}
use ostd_final.Common.Int.{ℤ, pos, minus_one}
use mathlib.Core.Path.{subst}
use ostd_final.Fs.Layout.{total_blocks, total_inodes}
use ostd_final.Fs.Bytes.{Block}
use ostd_final.Fs.State.{Device, Fs, store_block}
use ostd_final.Fs.Disk.{write_block_cases, read_block_cases}
use ostd_final.Fs.Super.Counts.{
  SuperMoved, DescMoved, super_update_counts_lem, group_desc_update_counts_lem,
}
use ostd_final.Fs.Bitmap.{
  is_free, set_bit, clear_bit, first_free, commit, alloc_block, free_block, alloc_inode, free_inode,
}
use ostd_final.Fs.Bitmap.Bits.{
  bit_of, is_free-bit_of, bit_of-le, bit_of-set_bit, bit_of-clear_bit, first_free-some,
}

-- Only blocks 0 to 3 were written: no data, no inode, no user.
pub record MetaOnly (s s' : Fs) : Type 0 where
  pub blocks : (n : ℕ) → 4 ≤ n → s'.disk n ≡ s.disk n
  pub opened : s'.opened ≡ s.opened
  pub current_dir_inode : s'.current_dir_inode ≡ s.current_dir_inode
  pub current_uid : s'.current_uid ≡ s.current_uid
  pub current_gid : s'.current_gid ≡ s.current_gid
  pub fd_table : s'.fd_table ≡ s.fd_table

-- A call that returns `a`, or fails; in both cases only blocks 0 to 3 were written.
pub data Transacts {A : Type 0} (s : Fs) (P : A → Fs → Type 0) : Outcome A × Fs → Type 0 where
  done : {a : A} {s' : Fs} → P a s' → MetaOnly s s' → Transacts s P (ok a, s')
  refused : {s' : Fs} → MetaOnly s s' → Transacts s P (fail, s')

-- The bitmap in `block` was replaced by `buf`, and both pairs of counts moved by the deltas.
pub record Committed (block : ℕ) (buf : Block) (db di : ℤ) (s s' : Fs) : Type 0 where
  pub bitmap : s'.disk block ≡ buf
  pub super : SuperMoved db di (s.disk 0) (s'.disk 0)
  pub desc : DescMoved db di (s.disk 1) (s'.disk 1)
  pub others : (n : ℕ) → n ≢ 0 → n ≢ 1 → n ≢ block → s'.disk n ≡ s.disk n

store-MetaOnly : (s : Fs) (n : ℕ) (b : Block) → n < 4 → MetaOnly s (store_block s n b)
store-MetaOnly s n b h = record {
  blocks = λ m p. ground arith;
  opened = refl;
  current_dir_inode = refl;
  current_uid = refl;
  current_gid = refl;
  fd_table = refl;
}

pub MetaOnly-refl : (s : Fs) → MetaOnly s s
MetaOnly-refl s = record {
  blocks = λ m p. refl;
  opened = refl;
  current_dir_inode = refl;
  current_uid = refl;
  current_gid = refl;
  fd_table = refl;
}

pub MetaOnly-trans : {s t u : Fs} → MetaOnly s t → MetaOnly t u → MetaOnly s u
MetaOnly-trans a b = record {
  blocks = λ m p. b.blocks m p ∙ a.blocks m p;
  opened = b.opened ∙ a.opened;
  current_dir_inode = b.current_dir_inode ∙ a.current_dir_inode;
  current_uid = b.current_uid ∙ a.current_uid;
  current_gid = b.current_gid ∙ a.current_gid;
  fd_table = b.fd_table ∙ a.fd_table;
}

module _ ⦃dev : Device⦄ where
  -- The transaction is not atomic: a failure may come after the bitmap was written.
  commit_lem :
      (block : ℕ) (buf : Block) (db di : ℤ) (s : Fs)
      → block ≢ 0
      → block ≢ 1
      → block < 4
      → Transacts s (λ _ s'. Committed block buf db di s s') (commit block buf db di s)
  unfolding commit
  commit_lem block buf db di s h0 h1 h4 = elim (write_block_cases block buf s) [
    | inl (inl e) ↦ rw e (refused (MetaOnly-refl s))
    | inl (inr (b, e)) ↦ rw e (refused (store-MetaOnly s block b h4))
    | inr e ↦
        let s1 = store_block s block buf in
        let m1 = store-MetaOnly s block buf h4 in
        rw e (elim (super_update_counts_lem db di s1) [
          | inl (inl e) ↦ rw e (refused m1)
          | inl (inr (b, e)) ↦
              rw e (refused (MetaOnly-trans m1 (store-MetaOnly s1 0 b (omega arith))))
          | inr (b0, e, moved) ↦
              let s2 = store_block s1 0 b0 in
              let m2 = MetaOnly-trans m1 (store-MetaOnly s1 0 b0 (omega arith)) in
              rw e (elim (group_desc_update_counts_lem db di s2) [
                | inl (inl e) ↦ rw e (refused m2)
                | inl (inr (b, e)) ↦
                    rw e (refused (MetaOnly-trans m2 (store-MetaOnly s2 1 b (omega arith))))
                | inr (b1, e, moved') ↦ rw e (
                    done
                      (record {
                        bitmap = ground arith;
                        super = subst (λ b. SuperMoved db di b b0) (ground arith) moved;
                        desc = subst (λ b. DescMoved db di b b1) (ground arith) moved';
                        others = λ n a b c. ground arith;
                      })
                      (MetaOnly-trans m2 (store-MetaOnly s2 1 b1 (omega arith))))
              ])
        ])
  ]

  commit_then :
      {A : Type 0} (a : A) (block : ℕ) (buf : Block) (db di : ℤ) (s : Fs)
      → block ≢ 0
      → block ≢ 1
      → block < 4
      → Transacts s
          (λ r s'. (r ≡ a) × Committed block buf db di s s')
          (and_then (commit block buf db di s) (λ _. pure a))
  commit_then a block buf db di s h0 h1 h4 = go (commit_lem block buf db di s h0 h1 h4)
    where
      go :
          {r : Outcome (Unit {0}) × Fs}
          → Transacts s (λ _ s'. Committed block buf db di s s') r
          → Transacts s
              (λ r s'. (r ≡ a) × Committed block buf db di s s')
              (and_then r (λ _. pure a))
      go (done c m) = done (refl, c) m
      go (refused m) = refused m

-- Object i of a bitmap with n bits was the lowest free one, and is now taken: bit i of the bitmap, which
-- was 0, is 1, and every other bit is as it was.
pub record Taken (block n : ℕ) (db di : ℤ) (s : Fs) (i : ℕ) (s' : Fs) : Type 0 where
  pub in_range : i < n
  pub was_free : is_free (s.disk block) i ≡ true
  pub lowest : (j : ℕ) → j < i → is_free (s.disk block) j ≡ false
  pub was_zero : bit_of (s.disk block) i ≡ 0
  pub bits : (j : ℕ) → bit_of (s'.disk block) j ≡ (if i == j then 1 else bit_of (s.disk block) j)
  pub committed : Committed block (set_bit (s.disk block) i) db di s s'

-- Object i was in use, and has been given back: bit i of the bitmap, which was 1, is 0, and every other
-- bit is as it was.
pub record Given (block n : ℕ) (db di : ℤ) (i : ℕ) (s s' : Fs) : Type 0 where
  pub in_range : i < n
  pub was_used : is_free (s.disk block) i ≡ false
  pub was_one : bit_of (s.disk block) i ≡ 1
  pub bits : (j : ℕ) → bit_of (s'.disk block) j ≡ (if i == j then 0 else bit_of (s.disk block) j)
  pub committed : Committed block (clear_bit (s.disk block) i) db di s s'

pub Transacts-mono :
    {A : Type 0} {s : Fs} {P Q : A → Fs → Type 0} {r : Outcome A × Fs}
    → ((a : A) (s' : Fs) → P a s' → Q a s')
    → Transacts s P r
    → Transacts s Q r
Transacts-mono f (done p m) = done (f _ _ p) m
Transacts-mono f (refused m) = refused m

module _ ⦃dev : Device⦄ (s : Fs) where
  take_lem :
      (block n i : ℕ) (db di : ℤ)
      → block ≢ 0
      → block ≢ 1
      → block < 4
      → first_free (s.disk block) n 0 ≡ some i
      → Transacts s
          (Taken block n db di s)
          (and_then (commit block (set_bit (s.disk block) i) db di s) (λ _. pure i))
  take_lem block n i db di h0 h1 h4 f =
      let (free, low, high, below) = first_free-some (s.disk block) n 0 f in
      Transacts-mono
        (λ r s' (eq, c).
          subst (λ r. Taken block n db di s r s') (sym eq)
            (record {
              in_range = omega arith;
              was_free = free;
              lowest = λ j h. below j (omega arith) h;
              was_zero = ground (arith, is_free-bit_of (s.disk block) i, free);
              bits = λ j. rw c.bitmap (bit_of-set_bit (s.disk block) i j);
              committed = c;
            }))
        (commit_then i block (set_bit (s.disk block) i) db di s h0 h1 h4)

  -- `alloc_block` returns the lowest free block, sets its bit of the bitmap and no other, and moves both
  -- counts of free blocks down by one, or fails; it never ends the process, and writes nothing but blocks
  -- 0 to 3.
  pub alloc_block_lem : Transacts s (Taken 2 total_blocks minus_one (pos 0) s) (alloc_block s)
  unfolding alloc_block
  alloc_block_lem = elim (read_block_cases 2 s) [
    | inl e ↦ rw e (refused (MetaOnly-refl s))
    | inr e ↦ rw e (elim (Option-cases (first_free (s.disk 2) total_blocks 0)) [
      | inl n ↦ rw n (refused (MetaOnly-refl s))
      | inr (i, f) ↦
          rw f (
            take_lem 2 total_blocks i minus_one (pos 0) (omega arith) (omega arith) (omega arith) f)
    ])
  ]

  -- `alloc_inode` takes the lowest free inode and moves both counts of free inodes down by one, or
  -- fails; it never ends the process, and writes nothing but blocks 0 to 3.
  pub alloc_inode_lem : Transacts s (Taken 3 total_inodes (pos 0) minus_one s) (alloc_inode s)
  unfolding alloc_inode
  alloc_inode_lem = elim (read_block_cases 3 s) [
    | inl e ↦ rw e (refused (MetaOnly-refl s))
    | inr e ↦ rw e (elim (Option-cases (first_free (s.disk 3) total_inodes 0)) [
      | inl n ↦ rw n (refused (MetaOnly-refl s))
      | inr (i, f) ↦
          rw f (
            take_lem 3 total_inodes i (pos 0) minus_one (omega arith) (omega arith) (omega arith) f)
    ])
  ]

  give_lem :
      (block n i : ℕ) (db di : ℤ)
      → block ≢ 0
      → block ≢ 1
      → block < 4
      → ltb i n ≡ true
      → is_free (s.disk block) i ≡ false
      → Transacts s
          (λ _. Given block n db di i s)
          (commit block (clear_bit (s.disk block) i) db di s)
  give_lem block n i db di h0 h1 h4 range used =
      Transacts-mono
        (λ r s' c. record {
          in_range = ground arith;
          was_used = used;
          was_one =
              ground (arith, is_free-bit_of (s.disk block) i, used, bit_of-le (s.disk block) i);
          bits = λ j. rw c.bitmap (bit_of-clear_bit (s.disk block) i j);
          committed = c;
        })
        (commit_lem block (clear_bit (s.disk block) i) db di s h0 h1 h4)

  -- `free_block` gives back a block that is in range and in use, clears its bit of the bitmap and no
  -- other, and moves both counts of free blocks up by one, or fails; it never ends the process, and writes
  -- nothing but blocks 0 to 3.
  pub free_block_lem :
      (i : ℕ) → Transacts s (λ _. Given 2 total_blocks (pos 1) (pos 0) i s) (free_block i s)
  unfolding free_block
  free_block_lem i = elim (Bool-cases (ltb i total_blocks)) [
    | inr e ↦ rw e (refused (MetaOnly-refl s))
    | inl range ↦ rw range (elim (read_block_cases 2 s) [
      | inl e ↦ rw e (refused (MetaOnly-refl s))
      | inr e ↦ rw e (elim (Bool-cases (is_free (s.disk 2) i)) [
        | inl f ↦ rw f (refused (MetaOnly-refl s))
        | inr used ↦ rw used (
            give_lem 2 total_blocks i (pos 1) (pos 0) (omega arith) (omega arith) (omega arith)
              range used)
      ])
    ])
  ]

  -- `free_inode` gives back an inode that is in range and in use, and moves both counts up by one,
  -- or fails; it never ends the process, and writes nothing but blocks 0 to 3.
  pub free_inode_lem :
      (i : ℕ) → Transacts s (λ _. Given 3 total_inodes (pos 0) (pos 1) i s) (free_inode i s)
  unfolding free_inode
  free_inode_lem i = elim (Bool-cases (ltb i total_inodes)) [
    | inr e ↦ rw e (refused (MetaOnly-refl s))
    | inl range ↦ rw range (elim (read_block_cases 3 s) [
      | inl e ↦ rw e (refused (MetaOnly-refl s))
      | inr e ↦ rw e (elim (Bool-cases (is_free (s.disk 3) i)) [
        | inl f ↦ rw f (refused (MetaOnly-refl s))
        | inr used ↦ rw used (
            give_lem 3 total_inodes i (pos 0) (pos 1) (omega arith) (omega arith) (omega arith)
              range used)
      ])
    ])
  ]

  -- `alloc_inode` takes the lowest free inode and moves both counts of free inodes down by one, and
  -- `free_inode` gives back an inode that is in range and in use, and moves both counts up by one; or
  -- they fail. They never end the process, and write nothing but blocks 0 to 3.
  pub inode_allocators_lem :
      Transacts s (Taken 3 total_inodes (pos 0) minus_one s) (alloc_inode s)
      × ((i : ℕ) → Transacts s (λ _. Given 3 total_inodes (pos 0) (pos 1) i s) (free_inode i s))
  inode_allocators_lem = (alloc_inode_lem, free_inode_lem)

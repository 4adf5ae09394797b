-- ===== src/Fs/Blocks/Free.antt =====
-- The parts of `inode_free_blocks` of oscdfs/src/inode.c.
use ostd_final.Common.{
  ◌≤◌, ◌<◌, ◌≡◌, refl, sym, ◌∙◌, ◌≢◌, arith, ℕ, zero, suc, ◌+◌, ◌*◌, inl, inr, ◌==◌, Bool-cases,
}
use ostd_final.Common.Exec.{Outcome, ok, pure, and_then, ◌>>◌, ignore, outcome_of}
use ostd_final.Fs.Bytes.{Block, load32}
use ostd_final.Fs.State.{Device, Fs, Cmd}
use ostd_final.Fs.Disk.{read_block, read_block_cases}
use mathlib.Core.Path.{subst}
use ostd_final.Fs.Inode.{Inode}
use ostd_final.Fs.Bitmap.{free_block}
use ostd_final.Fs.Bitmap.Alloc.{
  MetaOnly, MetaOnly-refl, MetaOnly-trans, Transacts, done, refused, free_block_lem,
}
use ostd_final.Fs.Blocks.{
  InodeCmd, modify_inode, set_direct, Root, single, double, triple, root_of, set_root,
  indirect_pointers,
}
use ostd_final.Fs.Blocks.Release.{each_entry, read_entries, free_tree, free_direct, free_root}

-- A call that always returns, and writes only blocks 0 to 3.
data Quiet (s : Fs) : Outcome (Unit {0}) × Fs → Type 0 where
  quiet : {u : Unit {0}} {s' : Fs} → MetaOnly s s' → Quiet s (ok u, s')

Quiet-trans : {s t : Fs} {r : Outcome (Unit {0}) × Fs} → MetaOnly s t → Quiet t r → Quiet s r
Quiet-trans m (quiet m') = quiet (MetaOnly-trans m m')

Quiet-bind :
    {s : Fs} {r : Outcome (Unit {0}) × Fs} (f : Cmd (Unit {0}))
    → Quiet s r
    → ((s : Fs) → Quiet s (f s))
    → Quiet s (and_then r (λ _. f))
Quiet-bind f (quiet {s'} m) k = Quiet-trans m (k s')

module _ ⦃dev : Device⦄ where
  free_block-Quiet : (blk : ℕ) (s : Fs) → Quiet s (ignore (free_block blk) s)
  free_block-Quiet blk s = go (free_block_lem s blk)
    where
      go :
          {P : Unit {0} → Fs → Type 0} {r : Outcome (Unit {0}) × Fs}
          → Transacts s P r
          → Quiet s (and_then (outcome_of r) (λ _. pure tt))
      go (done p m) = quiet m
      go (refused m) = quiet m

  each_entry-Quiet :
      (n i : ℕ) (buf : Block) (visit : ℕ → Cmd (Unit {0}))
      → ((blk : ℕ) (s : Fs) → Quiet s (visit blk s))
      → (s : Fs) → Quiet s (each_entry n i buf visit s)
  unfolding each_entry
  each_entry-Quiet zero i buf visit h s = quiet (MetaOnly-refl s)
  each_entry-Quiet (suc n) i buf visit h s = elim (Bool-cases (load32 buf (4 * i) == 0)) [
    | inl e ↦ rw e (each_entry-Quiet n (i + 1) buf visit h s)
    | inr e ↦ rw e (
        Quiet-bind (each_entry n (i + 1) buf visit) (h (load32 buf (4 * i)) s)
          (each_entry-Quiet n (i + 1) buf visit h))
  ]

  read_entries-Quiet :
      (table : ℕ) (visit : ℕ → Cmd (Unit {0}))
      → ((blk : ℕ) (s : Fs) → Quiet s (visit blk s))
      → (s : Fs) → Quiet s (and_then (outcome_of (read_block table s)) (read_entries visit))
  unfolding read_entries
  read_entries-Quiet table visit h s = elim (read_block_cases table s) [
    | inl e ↦ rw e (quiet (MetaOnly-refl s))
    | inr e ↦ rw e (each_entry-Quiet indirect_pointers 0 (s.disk table) visit h s)
  ]

  free_tree-Quiet : (depth table : ℕ) (s : Fs) → Quiet s (free_tree depth table s)
  unfolding free_tree
  free_tree-Quiet zero table s =
      read_entries-Quiet table (λ blk. ignore (free_block blk)) free_block-Quiet s
  free_tree-Quiet (suc depth) table s =
      read_entries-Quiet table (λ blk. free_tree depth blk >> ignore (free_block blk))
        (λ blk s.
          Quiet-bind (ignore (free_block blk)) (free_tree-Quiet depth blk s) (free_block-Quiet blk))
        s

-- A call on the inode that always returns, with an inode of which Q holds, and writes only blocks
-- 0 to 3.
pub data Frees (Q : Inode → Type 0) (s : Fs) : Outcome (Unit {0}) × (Inode × Fs) → Type 0 where
  frees :
      {u : Unit {0}} {ino : Inode} {s' : Fs} → Q ino → MetaOnly s s' → Frees Q s (ok u, (ino, s'))

Frees-trans :
    {Q : Inode → Type 0} {s t : Fs} {r : Outcome (Unit {0}) × (Inode × Fs)}
    → MetaOnly s t
    → Frees Q t r
    → Frees Q s r
Frees-trans m (frees q m') = frees q (MetaOnly-trans m m')

pub Frees-bind :
    {Q R : Inode → Type 0} {s : Fs} {r : Outcome (Unit {0}) × (Inode × Fs)}
    (f : InodeCmd (Unit {0}))
    → Frees Q s r
    → ((ino : Inode) (s : Fs) → Q ino → Frees R s (f (ino, s)))
    → Frees R s (and_then r (λ _. f))
Frees-bind f (frees {ino} {s'} q m) k = Frees-trans m (k ino s' q)

pub Frees-mono :
    {Q R : Inode → Type 0} {s : Fs} {r : Outcome (Unit {0}) × (Inode × Fs)}
    → ((ino : Inode) → Q ino → R ino)
    → Frees Q s r
    → Frees R s r
Frees-mono f (frees {ino} q m) = frees (f ino q) m

-- a quiet call, then a change of the inode
Quiet-modify :
    {Q : Inode → Type 0} {s : Fs} {r : Outcome (Unit {0}) × Fs} (ino : Inode) (f : Inode → Inode)
    → Quiet s r
    → Q (f ino)
    → Frees Q s (and_then (r.0, (ino, r.1)) (λ _. modify_inode f))
Quiet-modify ino f (quiet m) q = frees q m

Quiet-then :
    {Q : Inode → Type 0} {s : Fs} {r : Outcome (Unit {0}) × Fs} (ino : Inode)
    (f : InodeCmd (Unit {0}))
    → Quiet s r
    → ((t : Fs) → Frees Q t (f (ino, t)))
    → Frees Q s (and_then (r.0, (ino, r.1)) (λ _. f))
Quiet-then ino f (quiet {s'} m) k = Frees-trans m (k s')

-- Direct pointers i to i + n - 1 are clear, and those below i are as before.
pub record DirectCleared (i n : ℕ) (ino ino' : Inode) : Type 0 where
  pub clear : (j : ℕ) → i ≤ j → j < i + n → ino'.blocks j ≡ 0
  pub below : (j : ℕ) → j < i → ino'.blocks j ≡ ino.blocks j

-- The root is clear, what was clear still is, and the direct pointers are as before.
pub record RootCleared (root : Root) (ino ino' : Inode) : Type 0 where
  pub clear : root_of root ino' ≡ 0
  pub others : (r : Root) → root_of r ino ≡ 0 → root_of r ino' ≡ 0
  pub blocks : (j : ℕ) → ino'.blocks j ≡ ino.blocks j

DirectCleared-cons :
    (i n : ℕ) (ino ino1 ino' : Inode)
    → ino1.blocks i ≡ 0
    → ((j : ℕ) → j ≢ i → ino1.blocks j ≡ ino.blocks j)
    → DirectCleared (i + 1) n ino1 ino'
    → DirectCleared i (suc n) ino ino'
DirectCleared-cons i n ino ino1 ino' z k h = record {
  clear = λ j p q. elim (Bool-cases (j == i)) [
    | inl e ↦ let eq : j ≡ i = ground arith in rw eq (h.below i (omega arith) ∙ z)
    | inr e ↦ h.clear j (ground arith) (omega arith)
  ];
  below = λ j p. h.below j (omega arith) ∙ k j (omega arith);
}

root_cleared : (root : Root) (ino : Inode) → RootCleared root ino (set_root root 0 ino)
root_cleared single ino = record { clear = refl; others = zeros; blocks = λ j. refl }
  where
    zeros : (r : Root) → root_of r ino ≡ 0 → root_of r (set_root single 0 ino) ≡ 0
    zeros single h = refl
    zeros double h = h
    zeros triple h = h
root_cleared double ino = record { clear = refl; others = zeros; blocks = λ j. refl }
  where
    zeros : (r : Root) → root_of r ino ≡ 0 → root_of r (set_root double 0 ino) ≡ 0
    zeros single h = h
    zeros double h = refl
    zeros triple h = h
root_cleared triple ino = record { clear = refl; others = zeros; blocks = λ j. refl }
  where
    zeros : (r : Root) → root_of r ino ≡ 0 → root_of r (set_root triple 0 ino) ≡ 0
    zeros single h = h
    zeros double h = h
    zeros triple h = refl

module _ ⦃dev : Device⦄ where
  pub free_direct-Frees :
      (n i : ℕ) (ino : Inode) (s : Fs) → Frees (DirectCleared i n ino) s (free_direct n i (ino, s))
  unfolding free_direct
  free_direct-Frees zero i ino s =
      frees (record { clear = λ j p q. absurd (omega arith); below = λ j p. refl })
        (MetaOnly-refl s)
  free_direct-Frees (suc n) i ino s = elim (Bool-cases (ino.blocks i == 0)) [
    | inl e ↦ rw e (
        Frees-mono (λ ino'. DirectCleared-cons i n ino ino ino' (ground arith) (λ j ne. refl))
          (free_direct-Frees n (i + 1) ino s))
    | inr e ↦ rw e (
        Frees-bind (free_direct n (i + 1))
          (Quiet-modify {Q = λ a. a ≡ set_direct i 0 ino} ino (set_direct i 0)
            (free_block-Quiet (ino.blocks i) s) refl)
          (λ a t eq.
            subst (λ a. Frees (DirectCleared i (suc n) ino) t (free_direct n (i + 1) (a, t)))
              (sym eq)
              (Frees-mono
                (λ ino'.
                  DirectCleared-cons i n ino (set_direct i 0 ino) ino' (ground arith)
                    (λ j ne. ground arith))
                (free_direct-Frees n (i + 1) (set_direct i 0 ino) t))))
  ]

  pub free_root-Frees :
      (root : Root) (depth : ℕ) (ino : Inode) (s : Fs)
      → Frees (RootCleared root ino) s (free_root root depth (ino, s))
  unfolding free_root
  free_root-Frees root depth ino s = elim (Bool-cases (root_of root ino == 0)) [
    | inl e ↦ rw e (
        frees (record { clear = ground arith; others = λ r h. h; blocks = λ j. refl })
          (MetaOnly-refl s))
    | inr e ↦ rw e (
        Quiet-then ino _ (free_tree-Quiet depth (root_of root ino) s) λ t.
          Quiet-modify ino (set_root root 0) (free_block-Quiet (root_of root ino) t)
            (root_cleared root ino))
  ]

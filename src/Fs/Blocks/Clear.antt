-- ===== src/Fs/Blocks/Clear.antt =====
-- `inode_free_blocks` of oscdfs/src/inode.c as a whole.
use ostd_final.Common.{◌≤◌, false, ℕ, ◌<◌, ◌≡◌, refl, ◌∙◌, ◌≢◌, arith}
use ostd_final.Common.Exec.{Outcome, ok, and_then, ignore}
use ostd_final.Fs.State.{Device, Fs}
use ostd_final.Fs.Disk.{read_block, write_block}
use ostd_final.Fs.Inode.Table.{overruns, fits}
use ostd_final.Fs.Inode.{Inode, inode_block, write_inode}
use ostd_final.Fs.Blocks.{on_fs, Root, root_of, InodeCmd, single, double, triple}
use ostd_final.Fs.Blocks.Release.{free_root, inode_free_blocks}
use ostd_final.Fs.Blocks.Free.{
  Frees, RootCleared, free_root-Frees, Frees-mono, frees, free_direct-Frees,
}

-- No pointer is left, and the file is empty.
pub record IsCleared (ino : Inode) : Type 0 where
  pub blocks : (j : ℕ) → j < 12 → ino.blocks j ≡ 0
  pub indirect : ino.indirect ≡ 0
  pub double_indirect : ino.double_indirect ≡ 0
  pub triple_indirect : ino.triple_indirect ≡ 0
  pub size : ino.size ≡ 0

module _ ⦃dev : Device⦄ where
  write_inode-frame :
      (n : ℕ) (ino : Inode) (s : Fs) (k : ℕ)
      → k ≢ inode_block n
      → (write_inode n ino s).1.disk k ≡ s.disk k
  unfolding write_inode read_block write_block
  write_inode-frame n ino s k h = ground arith

  -- the direct pointers below 12 are clear
  abbrev Stage : (Inode → Type 0) → Inode → Type 0
  Stage P ino = ((j : ℕ) → j < 12 → ino.blocks j ≡ 0) × P ino

  next_root :
      (root : Root) (depth : ℕ) (P : Inode → Type 0) (ino : Inode) (s : Fs)
      → ((a b : Inode) → RootCleared root a b → P a → P b)
      → Stage P ino
      → Frees (Stage (λ a. P a × (root_of root a ≡ 0))) s (free_root root depth (ino, s))
  next_root root depth P ino s keep (z, p) =
      Frees-mono (λ a c. (λ j h. c.blocks j ∙ z j h, (keep ino a c p, c.clear)))
        (free_root-Frees root depth ino s)

-- What `inode_free_blocks` leaves: a cleared inode, and all blocks from 4 on but that of the inode
-- as they were. Where the copy of the inode fits its block, the call returns.
pub record Released (n : ℕ) (s : Fs) (r : Outcome (Unit {0}) × (Inode × Fs)) : Type 0 where
  pub inode : IsCleared r.1.0
  pub blocks : (k : ℕ) → 4 ≤ k → k ≢ inode_block n → r.1.1.disk k ≡ s.disk k
  pub returns : overruns n ≡ false → r.0 ≡ ok tt

Released-bind :
    {Q : Inode → Type 0} {s : Fs} {r : Outcome (Unit {0}) × (Inode × Fs)} (n : ℕ)
    (f : InodeCmd (Unit {0}))
    → Frees Q s r
    → ((ino : Inode) (t : Fs) → Q ino → Released n t (f (ino, t)))
    → Released n s (and_then r (λ _. f))
Released-bind n f (frees {ino} {s'} q m) k =
    let rest = k ino s' q in
    record {
      inode = rest.inode;
      blocks = λ b h ne. rest.blocks b h ne ∙ m.blocks b h;
      returns = rest.returns;
    }

module _ ⦃dev : Device⦄ where
  write_inode-returns :
      (n : ℕ) (ino : Inode) (s : Fs) → overruns n ≡ false → (ignore (write_inode n ino) s).0 ≡ ok tt
  unfolding write_inode read_block write_block
  write_inode-returns n ino s h = ground (arith, fits n)

  ignore-frame :
      (n : ℕ) (ino : Inode) (s : Fs) (k : ℕ)
      → k ≢ inode_block n
      → (ignore (write_inode n ino) s).1.disk k ≡ s.disk k
  ignore-frame n ino s k h = ground (arith, write_inode-frame n ino s k)

  last_step :
      (n : ℕ) (ino : Inode) (s : Fs)
      → IsCleared ino
      → Released n s (on_fs (ignore (write_inode n ino)) (ino, s))
  last_step n ino s c = record {
    inode = c;
    blocks = λ k h ne. ignore-frame n ino s k ne;
    returns = write_inode-returns n ino s;
  }

  -- `inode_free_blocks` clears every pointer and the size, overwrites no block but the metadata and
  -- the inode's own, and returns unless the inode is one of those that do not fit their block.
  pub inode_free_blocks_lem :
      (n : ℕ) (ino : Inode) (s : Fs) → Released n s (inode_free_blocks n (ino, s))
  unfolding inode_free_blocks
  inode_free_blocks_lem n ino s = Released-bind n _ (free_direct-Frees 12 0 ino s) λ a t d.
      let z : (j : ℕ) → j < 12 → a.blocks j ≡ 0 = λ j h. d.clear j (omega arith) (omega arith) in
      Released-bind n _ (next_root single 0 (λ _. Unit {0}) a t (λ _ _ _ p. p) (z, tt)) λ a t h.
        Released-bind n _
          (next_root double 1 (λ a. Unit {0} × (a.indirect ≡ 0)) a t
            (λ a b c p. (tt, c.others single p.1)) h)
          λ a t h.
            Released-bind n _
              (next_root triple 2 (λ a. (Unit {0} × (a.indirect ≡ 0)) × (a.double_indirect ≡ 0)) a t
                (λ a b c p. ((tt, c.others single p.0.1), c.others double p.1)) h)
              λ a t h.
                last_step n (record a { size = 0 }) t
                  (record {
                    blocks = h.0;
                    indirect = h.1.0.0.1;
                    double_indirect = h.1.0.1;
                    triple_indirect = h.1.1;
                    size = refl;
                  })

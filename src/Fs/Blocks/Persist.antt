-- ===== src/Fs/Blocks/Persist.antt =====
-- `inode_get_block` of oscdfs/src/inode.c with allocation against a later lookup.
use ostd_final.Common.{
  ◌+◌, ◌-◌, ◌*◌, ◌^◌, refl, sym, ap, ◌⊎◌, ◌==◌, ℕ, ◌≤◌, ◌<◌, ◌≡◌, ◌∙◌, inl, inr, Bool, true, false,
  arith, ltb, Bool-cases,
}
use ostd_final.Common.Exec.{and_then-ok, Outcome, ok}
use ostd_final.Fs.Bytes.{zero_block, load32, store32, load32-store32_self}
use ostd_final.Fs.State.{store_block, Device, Fs}
use ostd_final.Fs.Disk.{read_block, write_block}
use mathlib.Core.Path.{subst}
use ostd_final.Fs.Bitmap.{is_free, alloc_block}
use ostd_final.Fs.Bitmap.Bits.{is_free-set_bit}
use ostd_final.Fs.Bitmap.Alloc.{MetaOnly, Transacts, done, refused, alloc_block_lem}
use ostd_final.Fs.Inode.{Inode}
use ostd_final.Fs.Blocks.{
  single, double, triple, return_int, direct_block, leaf_block, root_block, Root, root_of, set_root,
  single_block, on_fs, inode_get_block, indirect_pointers,
}

-- The blocks of the metadata are marked as used.
pub record IsFormatted (s : Fs) : Type 0 where
  pub meta : (j : ℕ) → j < 10 → is_free (s.disk 2) j ≡ false

-- A device on which every read of an open image succeeds.
pub record Reads (dev : Device) : Type 0 where
  pub always : (w n : ℕ) → dev.read_ok w n ≡ true

Transacts-ok :
    {A : Type 0} {s : Fs} {P : A → Fs → Type 0} {r : Outcome A × Fs}
    → Transacts s P r
    → (a : A) (t : Fs) → r ≡ (ok a, t)
    → P a t × MetaOnly s t
Transacts-ok {s} {P} (done {a = b} {s' = u} p m) a t e =
    let ea : b ≡ a = cc in
    let et : u ≡ t = cc in subst (λ u. P a u × MetaOnly s u) et (subst (λ b. P b u) ea p, m)
Transacts-ok (refused m) a t e = cc

module _ ⦃dev : Device⦄ (s : Fs) (f : IsFormatted s) where
  -- An allocated block lies in the data area and on the image.
  new_block :
      (b : ℕ) (t : Fs)
      → alloc_block s ≡ (ok b, t)
      → (10 ≤ b) × (b < 2048) × IsFormatted t × (t.opened ≡ s.opened)
  new_block b t e =
      let (taken, m) = Transacts-ok (alloc_block_lem s) b t e in
      (
        elim (Bool-cases (ltb b 10)) [
          | inl low ↦ absurd (ne (f.meta b (ground arith)) taken.was_free)
          | inr high ↦ ground arith
        ],
        taken.in_range,
        record {
          meta = λ j h.
              rw taken.committed.bitmap
                (is_free-set_bit (s.disk 2) b j ∙ ground (arith, f.meta j h));
        },
        m.opened,
      )
    where
      ne : {x : Bool} → x ≡ false → x ≡ true → ⊥
      ne p q = cc

module _ ⦃dev : Device⦄ (reads : Reads dev) where
  direct_persists :
      (i b : ℕ) (ino ino' : Inode) (s s' : Fs)
      → IsFormatted s
      → direct_block i true (ino, s) ≡ (ok b, (ino', s'))
      → direct_block i false (ino', s') ≡ (ok b, (ino', s'))
  unfolding direct_block return_int
  direct_persists i b ino ino' s s' f e = ground (arith, new_block s f b s')

  leaf_cases :
      (table idx b : ℕ) (s s' : Fs)
      → leaf_block table idx true s ≡ (ok b, s')
      → ((s' ≡ s) × (load32 (s.disk table) (4 * idx) ≡ b) × ((b == 0) ≡ false) × (b < 2 ^ 31))
        ⊎ ((alloc_block s ≡ (ok b, (alloc_block s).1))
            × (s' ≡ store_block (alloc_block s).1 table (store32 (s.disk table) (4 * idx) b)))
  unfolding leaf_block return_int read_block write_block
  leaf_cases table idx b s s' e = elim (Bool-cases (load32 (s.disk table) (4 * idx) == 0)) [
    | inl empty ↦ inr (ground arith, ground arith)
    | inr full ↦ inl (ground arith, ground arith, ground arith, ground arith)
  ]

  -- A pointer block that holds b at the index is read back so.
  leaf_found :
      (table idx b : ℕ) (s : Fs)
      → s.opened ≡ true
      → load32 (s.disk table) (4 * idx) ≡ b
      → (b == 0) ≡ false
      → b < 2 ^ 31
      → leaf_block table idx false s ≡ (ok b, s)
  unfolding leaf_block return_int read_block
  leaf_found table idx b s o h z small = ground (arith, reads.always s.writes table)

  leaf_opened :
      (table idx b : ℕ) (s s' : Fs) → leaf_block table idx true s ≡ (ok b, s') → s.opened ≡ true
  unfolding leaf_block read_block
  leaf_opened table idx b s s' e = ground arith

  leaf_persists :
      (table idx b : ℕ) (s s' : Fs)
      → IsFormatted s
      → leaf_block table idx true s ≡ (ok b, s')
      → leaf_block table idx false s' ≡ (ok b, s')
  leaf_persists table idx b s s' f e = elim (leaf_cases table idx b s s' e) [
    | inl (same, held, nonzero, small) ↦
        subst (λ t. leaf_block table idx false t ≡ (ok b, t)) (sym same)
          (leaf_found table idx b s (leaf_opened table idx b s s' e) held nonzero small)
    | inr (new, stored) ↦
        let (low, high, f', o) = new_block s f b _ new in
        subst (λ t. leaf_block table idx false t ≡ (ok b, t)) (sym stored)
          (leaf_found table idx b _ (o ∙ leaf_opened table idx b s s' e)
            (ground (arith, load32-store32_self (s.disk table) (4 * idx) b)) (ground arith)
            (omega arith))
  ]

  root_cases :
      (root : Root) (r : ℕ) (ino ino' : Inode) (s s' : Fs)
      → root_block root true (ino, s) ≡ (ok r, (ino', s'))
      → ((ino' ≡ ino) × (s' ≡ s) × (root_of root ino ≡ r) × ((r == 0) ≡ false))
        ⊎ ((alloc_block s ≡ (ok r, (alloc_block s).1))
            × (ino' ≡ set_root root r ino)
            × (s' ≡ store_block (alloc_block s).1 r zero_block))
  unfolding root_block write_block
  root_cases root r ino ino' s s' e = elim (Bool-cases (root_of root ino == 0)) [
    | inl missing ↦ inr (ground arith, ground arith, ground arith)
    | inr found ↦ inl (ground arith, ground arith, ground arith, ground arith)
  ]

  root_of-set_root : (root : Root) (r : ℕ) (ino : Inode) → root_of root (set_root root r ino) ≡ r
  root_of-set_root single r ino = refl
  root_of-set_root double r ino = refl
  root_of-set_root triple r ino = refl

  root_found :
      (root : Root) (r : ℕ) (ino : Inode) (s : Fs)
      → root_of root ino ≡ r
      → (r == 0) ≡ false
      → root_block root false (ino, s) ≡ (ok r, (ino, s))
  unfolding root_block
  root_found root r ino s h z = ground arith

  root_persists :
      (root : Root) (r : ℕ) (ino ino' : Inode) (s s' : Fs)
      → IsFormatted s
      → root_block root true (ino, s) ≡ (ok r, (ino', s'))
      → (root_of root ino' ≡ r) × ((r == 0) ≡ false) × IsFormatted s'
  root_persists root r ino ino' s s' f e = elim (root_cases root r ino ino' s s' e) [
    | inl (same, still, held, nonzero) ↦
        (ap (root_of root) same ∙ held, nonzero, subst IsFormatted (sym still) f)
    | inr (new, put, stored) ↦
        let (low, high, f', o) = new_block s f r _ new in
        (
          ap (root_of root) put ∙ root_of-set_root root r ino,
          ground arith,
          subst IsFormatted (sym stored) (record {
            meta = λ j h. let apart : (2 == r) ≡ false = ground arith in rw apart (f'.meta j h);
          }),
        )
  ]

  single_persists :
      (offset b : ℕ) (ino ino' : Inode) (s s' : Fs)
      → IsFormatted s
      → single_block offset true (ino, s) ≡ (ok b, (ino', s'))
      → single_block offset false (ino', s') ≡ (ok b, (ino', s'))
  unfolding single_block
  single_persists offset b ino ino' s s' f e =
      let (r, (ino1, s1), first, second) =
        and_then-ok (root_block single true (ino, s)) (λ r. on_fs (leaf_block r offset true)) b
          (ino', s') e in
      let (held, nonzero, f') = root_persists single r ino ino1 s s1 f first in
      let leaf : leaf_block r offset true s1 ≡ (ok b, s') = cc second in
      let kept : ino1 ≡ ino' = cc second in
      let held' : root_of single ino' ≡ r = ap (root_of single) (sym kept) ∙ held in
      rw (root_found single r ino' s' held' nonzero) (rw (leaf_persists r offset b s1 s' f' leaf))

  -- A block that a call with allocation returned, for any of the first 1036 blocks of a file, is
  -- what a call without allocation returns in the state that it left. The image marks its metadata
  -- as used, and reads of it do not fail.
  pub inode_get_block_persists :
      (l b : ℕ) (ino ino' : Inode) (s s' : Fs)
      → l < 12 + indirect_pointers
      → IsFormatted s
      → inode_get_block l true (ino, s) ≡ (ok b, (ino', s'))
      → inode_get_block l false (ino', s') ≡ (ok b, (ino', s'))
  unfolding inode_get_block
  inode_get_block_persists l b ino ino' s s' h f e =
      ground
        (arith, direct_persists l b ino ino' s s' f, single_persists (l - 12) b ino ino' s s' f)

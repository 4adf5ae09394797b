-- ===== src/Fs/Dir/Flat.antt =====
-- A directory of oscdfs/src/dir.c as one array of entries, 128 for each of its blocks, against the
-- loop over the blocks.
use ostd_final.Common.{
  ℕ, zero, suc, ◌+◌, ◌*◌, ◌/◌, ◌%◌, ◌^◌, ◌≤◌, ◌<◌, ◌≡◌, refl, sym, ap, ◌∙◌, inl, inr, Bool, false,
  Option, none, some, arith, Option-cases,
}
use ostd_final.Common.Exec.{ok, fail}
use ostd_final.Common.Search.{
  first_where, first_where-append, first_where-zero, first_where-some, first_where-shift,
}
use ostd_final.Fs.Bytes.{Block}
use ostd_final.Fs.State.{Device, Fs}
use ostd_final.Fs.Disk.{read_block}
use ostd_final.Fs.Inode.{Inode}
use ostd_final.Fs.Blocks.{inode_get_block, direct_block, return_int}
use ostd_final.Fs.Bitmap.Succeeds.{IsHealthy}
use ostd_final.Fs.Dir.{Hit, missing, hit, scan}

-- entry x of the array, for a property of an entry of a block
abbrev pub at_entry : (Block → ℕ → Bool) → Inode → Fs → ℕ → Bool
at_entry test ino s x = test (s.disk (ino.blocks (x / 128))) (x % 128)

-- where the loop stops, for the index of the entry that it looks for in n blocks
abbrev pub hit_of : Inode → Fs → (n : ℕ) → Option ℕ → Hit
hit_of ino s n none = missing n
hit_of ino s n (some x) = hit (ino.blocks (x / 128)) (x % 128) (s.disk (ino.blocks (x / 128)))

-- The data blocks of an inode are its first n direct ones, fewer than twelve.
pub record HasBlocks (n : ℕ) (ino : Inode) : Type 0 where
  pub few : n < 12
  pub low : (l : ℕ) → l < n → 0 < ino.blocks l
  pub high : (l : ℕ) → l < n → ino.blocks l < 2 ^ 31
  pub last : ino.blocks n ≡ 0

module _ ⦃dev : Device⦄ (n : ℕ) (ino : Inode) (s : Fs) (h : IsHealthy dev s)
    (d : HasBlocks n ino) where
  inside : (l : ℕ) → l < n → inode_get_block l false (ino, s) ≡ (ok (ino.blocks l), (ino, s))
  unfolding inode_get_block direct_block return_int
  inside l p = ground (arith, d.few, d.low l p, d.high l p)

  behind : inode_get_block n false (ino, s) ≡ (fail, (ino, s))
  unfolding inode_get_block direct_block return_int
  behind = ground (arith, d.few, d.last)

  readable : (l : ℕ) → read_block l s ≡ (ok (s.disk l), s)
  unfolding read_block
  readable l = ground (arith, h.opened, h.reads s.writes l)

  module _ (test : Block → ℕ → Bool) where
    in_block :
        (l j : ℕ)
        → 0 ≤ j
        → j < 0 + 128
        → at_entry test ino s (128 * l + j) ≡ test (s.disk (ino.blocks l)) j
    in_block l j _ p =
        let q : (128 * l + j) / 128 ≡ l = omega arith in
        let r : (128 * l + j) % 128 ≡ j = omega arith in rw (q, r) refl

    block_first :
        (m l : ℕ)
        → first_where (at_entry test ino s) (128 * suc m) (128 * l)
          ≡ elim (first_where (test (s.disk (ino.blocks l))) 128 0) [
            | none ↦ first_where (at_entry test ino s) (128 * m) (128 * (l + 1))
            | some i ↦ some (128 * l + i)
          ]
    block_first m l =
        let e : 128 + 128 * m ≡ 128 * suc m = omega arith in
        let f : 128 * l + 128 ≡ 128 * (l + 1) = omega arith in
        let g : 128 * l + 0 ≡ 128 * l = omega arith in
        let first =
          first_where-shift (at_entry test ino s) (test (s.disk (ino.blocks l))) (128 * l) 128 0
            (in_block l) in
        let all = first_where-append (at_entry test ino s) 128 (128 * m) (128 * l) in
        let start = ap (first_where (at_entry test ino s) 128) (sym g) ∙ first in
        rw (← e) (
          rw all (
            rw start (elim (Option-cases (first_where (test (s.disk (ino.blocks l))) 128 0)) [
              | inl e0 ↦ rw (e0, f) refl
              | inr (i, e0) ↦ rw e0 refl
            ])))

    -- The loop over the blocks finds the first entry of the array with the property.
    pub scan_lem :
        (m rounds l : ℕ)
        → l + m ≡ n
        → m < rounds
        → scan test rounds l (ino, s)
          ≡ (ok (hit_of ino s n (first_where (at_entry test ino s) (128 * m) (128 * l))), (ino, s))
    unfolding scan
    scan_lem m zero l e p = absurd (omega arith)
    scan_lem zero (suc r) l e p =
        let same : l ≡ n = omega arith in
        let none_left : first_where (at_entry test ino s) (128 * 0) (128 * n) ≡ none =
          first_where-zero (at_entry test ino s) (128 * n) in
        rw (same, behind, none_left) (ap (λ k. (ok (missing k), (ino, s))) same)
    scan_lem (suc m) (suc r) l e p =
        let rest = scan_lem m r (l + 1) (omega arith) (omega arith) in
        let found = inside l (omega arith) in
        let content = readable (ino.blocks l) in
        rw (block_first m l)
          (elim (Option-cases (first_where (test (s.disk (ino.blocks l))) 128 0)) [
            | inl e0 ↦ rw e0 (ground (arith, found, content, rest))
            | inr (i, e0) ↦
                let (_, _, p', _) = first_where-some (test (s.disk (ino.blocks l))) 128 0 e0 in
                let q : (128 * l + i) / 128 ≡ l = omega arith in
                let r : (128 * l + i) % 128 ≡ i = omega arith in
                rw e0 (rw (q, r) (ground (arith, found, content)))
          ])

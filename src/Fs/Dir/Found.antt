-- ===== src/Fs/Dir/Found.antt =====
-- Lookups in the directories of oscdfs/src/dir.c, and what a change of one entry leaves of them.
use ostd_final.Common.{
  ℕ, ◌*◌, ◌/◌, ◌%◌, ◌≤◌, ◌<◌, ◌≡◌, refl, inl, inr, Bool, true, false, Option, none, some, arith,
  Option-cases,
}
use ostd_final.Common.Exec.{Outcome, ok, fail}
use ostd_final.Common.Text.{Text}
use ostd_final.Common.Search.{first_where, first_where-some}
use ostd_final.Fs.Bytes.{Block}
use ostd_final.Fs.State.{Device, Fs}
use ostd_final.Fs.Inode.{inode_block}
use ostd_final.Fs.Inode.Table.{inode_at, overruns, read_inode_lem}
use ostd_final.Fs.Blocks.{return_int}
use ostd_final.Fs.Access.{is_dir}
use ostd_final.Fs.Bitmap.Succeeds.{IsHealthy}
use ostd_final.Fs.Dir.{
  scan, open_dir, dir_rounds, dir_find_entry, number_of, entry_inode_no, is_named,
}
use ostd_final.Fs.Dir.Flat.{at_entry, hit_of, HasBlocks, scan_lem}

-- A directory in the table, in front of the user table, with its n blocks apart and behind the
-- metadata, whose entries name inodes of the table or none.
pub record IsDirectory (dir n : ℕ) (s : Fs) : Type 0 where
  pub number : dir < 121
  pub whole : overruns dir ≡ false
  pub kind : is_dir (inode_at s dir) ≡ true
  pub blocks : HasBlocks n (inode_at s dir)
  pub behind : (l : ℕ) → l < n → 8 ≤ (inode_at s dir).blocks l
  pub distinct :
      (l k : ℕ) → l < n → k < n → (inode_at s dir).blocks l ≡ (inode_at s dir).blocks k → l ≡ k
  pub numbers :
      (l i : ℕ) → l < n → i < 128 → entry_inode_no (s.disk ((inode_at s dir).blocks l)) i < 128

-- entry x of a directory, for a property of an entry of a block
abbrev pub entry_at : (Block → ℕ → Bool) → ℕ → Fs → ℕ → Bool
entry_at test dir s = at_entry test (inode_at s dir) s

-- the number in the entry that a lookup found
abbrev pub number_at : (dir : ℕ) → Fs → Option ℕ → Outcome ℕ
number_at dir s none = fail
number_at dir s (some x) =
    ok (entry_inode_no (s.disk ((inode_at s dir).blocks (x / 128))) (x % 128))

module _ ⦃dev : Device⦄ (dir n : ℕ) (s : Fs) (h : IsHealthy dev s) (d : IsDirectory dir n s) where
  pub open_dir_lem : open_dir dir s ≡ (ok (inode_at s dir), s)
  unfolding open_dir
  open_dir_lem = ground (
    arith,
    read_inode_lem dir s (omega (arith, d.number)) h.opened (h.reads s.writes (inode_block dir)),
    d.whole,
    d.kind,
  )

  pub scan_dir :
      (test : Block → ℕ → Bool)
      → scan test dir_rounds 0 (inode_at s dir, s) ≡ (
        ok (hit_of (inode_at s dir) s n (first_where (entry_at test dir s) (128 * n) 0)),
        (inode_at s dir, s),
      )
  scan_dir test =
      scan_lem n (inode_at s dir) s h d.blocks test n dir_rounds 0 (omega arith)
        (omega (arith, d.blocks.few))

  -- A lookup finds the number of the first entry with the name.
  pub dir_find_entry_lem :
      (name : Text)
      → dir_find_entry dir name s
        ≡ (number_at dir s (first_where (entry_at (is_named name) dir s) (128 * n) 0), s)
  unfolding dir_find_entry number_of return_int
  dir_find_entry_lem name = rw open_dir_lem (
      rw (scan_dir (is_named name))
        (elim (Option-cases (first_where (entry_at (is_named name) dir s) (128 * n) 0)) [
          | inl e ↦ rw e refl
          | inr (x, e) ↦
              let (_, _, high, _) =
                first_where-some (entry_at (is_named name) dir s) (128 * n) 0 e in
              let small = d.numbers (x / 128) (x % 128) (omega arith) (omega arith) in
              rw e (ground arith)
        ]))

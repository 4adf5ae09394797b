-- ===== src/Fs/Dir/Kept.antt =====
-- Directories of oscdfs/src/dir.c across changes of other blocks and other inodes.
use ostd_final.Common.{
  ℕ, ◌*◌, ◌/◌, ◌%◌, ◌≤◌, ◌<◌, ◌≡◌, refl, sym, ap, ◌∙◌, Bool, Option, none, some, arith,
}
use ostd_final.Common.Exec.{ok}
use ostd_final.Common.Text.{Text}
use ostd_final.Common.Search.{first_where, first_where-some, first_where-cong}
use ostd_final.Fs.Bytes.{Block}
use ostd_final.Fs.State.{Device, Fs}
use ostd_final.Fs.Inode.{Inode}
use ostd_final.Fs.Inode.Table.{SameInode, inode_at}
use ostd_final.Fs.Access.{is_dir}
use ostd_final.Fs.Bitmap.Succeeds.{IsHealthy}
use ostd_final.Fs.Dir.{dir_find_entry, is_named, entry_inode_no}
use ostd_final.Fs.Dir.Change.{entry_number}
use ostd_final.Fs.Dir.Found.{IsDirectory, entry_at, number_at, dir_find_entry_lem}

is_dir-same : (a b : Inode) → a.mode ≡ b.mode → is_dir a ≡ is_dir b
unfolding is_dir
is_dir-same a b e = rw e refl

-- The inode of the directory reads the same, and so does every block behind the inode table.
module _ (dir n : ℕ) (s t : Fs) (d : IsDirectory dir n s)
    (same : SameInode (inode_at t dir) (inode_at s dir))
    (kept : (k : ℕ) → 8 ≤ k → t.disk k ≡ s.disk k) where
  pointer : (l : ℕ) → l < n → (inode_at t dir).blocks l ≡ (inode_at s dir).blocks l
  pointer l p = same.blocks l (omega (arith, d.blocks.few))

  content :
      (l : ℕ) → l < n → t.disk ((inode_at t dir).blocks l) ≡ s.disk ((inode_at s dir).blocks l)
  content l p = ap t.disk (pointer l p) ∙ kept ((inode_at s dir).blocks l) (d.behind l p)

  pub IsDirectory-kept : IsDirectory dir n t
  IsDirectory-kept = record {
    number = d.number;
    whole = d.whole;
    kind = is_dir-same _ _ same.mode ∙ d.kind;
    blocks = record {
      few = d.blocks.few;
      low = λ l q. rw (pointer l q) (d.blocks.low l q);
      high = λ l q. rw (pointer l q) (d.blocks.high l q);
      last = same.blocks n d.blocks.few ∙ d.blocks.last;
    };
    behind = λ l q. rw (pointer l q) (d.behind l q);
    distinct = λ l m q r e. d.distinct l m q r (sym (pointer l q) ∙ e ∙ pointer m r);
    numbers = λ l i q r. rw (content l q) (d.numbers l i q r);
  }

  pub entry_number-kept : (x : ℕ) → x < 128 * n → entry_number dir t x ≡ entry_number dir s x
  entry_number-kept x p = ap (λ b. entry_inode_no b (x % 128)) (content (x / 128) (omega arith))

  entry_at-kept :
      (test : Block → ℕ → Bool) (x : ℕ)
      → x < 128 * n
      → entry_at test dir t x ≡ entry_at test dir s x
  entry_at-kept test x p = ap (λ b. test b (x % 128)) (content (x / 128) (omega arith))

  number_at-kept :
      (o : Option ℕ) → ((x : ℕ) → o ≡ some x → x < 128 * n) → number_at dir t o ≡ number_at dir s o
  number_at-kept none h = refl
  number_at-kept (some x) h =
      ap (λ b. ok (entry_inode_no b (x % 128))) (content (x / 128) (omega (arith, h x refl)))

  -- Every lookup gives what it gave before.
  pub find-kept :
      ⦃dev : Device⦄ (h : IsHealthy dev s) (h' : IsHealthy dev t) (j : Text)
      → (dir_find_entry dir j t).0 ≡ (dir_find_entry dir j s).0
  find-kept h h' j =
      ap (λ r. r.0) (dir_find_entry_lem dir n t h' IsDirectory-kept j)
      ∙ ap (number_at dir t) (
          first_where-cong (entry_at (is_named j) dir t) (entry_at (is_named j) dir s) (128 * n) 0
            (λ x p q. entry_at-kept (is_named j) x (omega arith)))
      ∙ number_at-kept (first_where (entry_at (is_named j) dir s) (128 * n) 0) (λ x e.
        let (_, _, high, _) = first_where-some (entry_at (is_named j) dir s) (128 * n) 0 e in
        omega arith)
      ∙ sym (ap (λ r. r.0) (dir_find_entry_lem dir n s h d j))

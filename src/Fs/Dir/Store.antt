-- ===== src/Fs/Dir/Store.antt =====
-- The end of the operations of oscdfs/src/dir.c that change a directory: one of its blocks, then its
-- inode.
use ostd_final.Common.{
  ℕ, ◌+◌, ◌^◌, ◌<◌, ◌≡◌, ◌≢◌, refl, sym, ◌∙◌, inl, inr, arith, Bool-cases, ◌==◌, if◌then◌else◌,
}
use ostd_final.Common.Exec.{ok}
use ostd_final.Fs.Bytes.{Block, load32_bound}
use ostd_final.Fs.State.{Device, Fs, store_block}
use ostd_final.Fs.Disk.{write_block}
use ostd_final.Fs.Inode.{Inode, inode_block}
use ostd_final.Fs.Inode.Table.{SameInode, IsWords, inode_at, write_inode_lem}
use ostd_final.Fs.Inode.Succeeds.{write_inode_ok}
use ostd_final.Fs.Access.{is_dir}
use ostd_final.Fs.Bitmap.Succeeds.{IsHealthy}
use ostd_final.Fs.Dir.{store_dir, entry_inode_no}
use ostd_final.Fs.Dir.Found.{IsDirectory}

module _ ⦃dev : Device⦄ where
  -- The state that a change of the block behind the k-th pointer leaves.
  pub record Stored (dir n k : ℕ) (b : Block) (s s' : Fs) : Type 0 where
    pub directory : IsDirectory dir n s'
    pub healthy : IsHealthy dev s'
    pub pointers : (l : ℕ) → l < n → (inode_at s' dir).blocks l ≡ (inode_at s dir).blocks l
    pub contents :
        (l : ℕ)
        → l < n
        → s'.disk ((inode_at s dir).blocks l)
          ≡ (if l == k then b else s.disk ((inode_at s dir).blocks l))

  is_dir-same : (a b : Inode) → a.mode ≡ b.mode → is_dir a ≡ is_dir b
  unfolding is_dir
  is_dir-same a b e = rw e refl

  module _ (dir n k : ℕ) (b : Block) (s : Fs) (h : IsHealthy dev s) (d : IsDirectory dir n s)
      (clock : (w : ℕ) → dev.time w < 2 ^ 32) (p : k < n)
      (numbers : (i : ℕ) → i < 128 → entry_inode_no b i < 128) where
    stored_block : Fs
    stored_block = store_block s ((inode_at s dir).blocks k) b

    stamped : Inode
    stamped = record (inode_at s dir) { mtime = dev.time (s.writes + 1) }

    stamped-IsWords : IsWords stamped
    unfolding stamped
    stamped-IsWords = record {
      mode = load32_bound _ _;
      uid = load32_bound _ _;
      gid = load32_bound _ _;
      size = load32_bound _ _;
      ctime = load32_bound _ _;
      atime = load32_bound _ _;
      mtime = clock _;
      blocks = λ i q. load32_bound _ _;
      indirect = load32_bound _ _;
      double_indirect = load32_bound _ _;
      triple_indirect = load32_bound _ _;
    }

    table_block : inode_block dir < 8
    table_block = omega (arith, d.number)

    -- Behind the other pointers lies what was there.
    stored_contents :
        (l : ℕ)
        → l < n
        → stored_block.disk ((inode_at s dir).blocks l)
          ≡ (if l == k then b else s.disk ((inode_at s dir).blocks l))
    unfolding stored_block
    stored_contents l q = elim (Bool-cases (l == k)) [
      | inl here ↦ let same : l ≡ k = ground arith in rw same (ground arith)
      | inr apart ↦
          let other : (inode_at s dir).blocks l ≢ (inode_at s dir).blocks k =
            λ e. ground (arith, d.distinct l k q p e) in
          ground (arith, other)
    ]

    Stored-write :
        (s' : Fs)
        → IsHealthy dev s'
        → SameInode (inode_at s' dir) stamped
        → ((m : ℕ) → m ≢ inode_block dir → s'.disk m ≡ stored_block.disk m)
        → Stored dir n k b s s'
    unfolding stamped stored_block
    Stored-write s' h' same kept =
        let pointers : (l : ℕ) → l < 12 → (inode_at s' dir).blocks l ≡ (inode_at s dir).blocks l =
          same.blocks in
        let few = d.blocks.few in
        let contents : (l : ℕ)
            → l < n
            → s'.disk ((inode_at s dir).blocks l)
              ≡ (if l == k then b else s.disk ((inode_at s dir).blocks l)) =
          λ l q.
            kept ((inode_at s dir).blocks l) (λ e. omega (arith, e, d.behind l q, table_block))
            ∙ stored_contents l q in
        record {
          directory = record {
            number = d.number;
            whole = d.whole;
            kind = is_dir-same _ _ same.mode ∙ d.kind;
            blocks = record {
              few = few;
              low = λ l q. rw (pointers l (omega arith)) (d.blocks.low l q);
              high = λ l q. rw (pointers l (omega arith)) (d.blocks.high l q);
              last = pointers n few ∙ d.blocks.last;
            };
            behind = λ l q. rw (pointers l (omega arith)) (d.behind l q);
            distinct = λ l m q r e.
                d.distinct l m q r (sym (pointers l (omega arith)) ∙ e ∙ pointers m (omega arith));
            numbers = λ l i q r. rw (pointers l (omega arith)) (
                rw (contents l q) (elim (Bool-cases (l == k)) [
                  | inl here ↦ rw here (numbers i r)
                  | inr apart ↦ rw apart (d.numbers l i q r)
                ]));
          };
          healthy = h';
          pointers = λ l q. pointers l (omega arith);
          contents = contents;
        }

    pub store_dir_lem :
        (s' : Fs) × (store_dir dir (inode_at s dir) ((inode_at s dir).blocks k) b s ≡ (ok tt, s'))
        × Stored dir n k b s s'
    unfolding store_dir write_block stored_block stamped
    store_dir_lem =
        let h1 : IsHealthy dev stored_block = record {
          opened = h.opened;
          reads = h.reads;
          writes = h.writes;
        } in
        let range : dir < 128 = omega (arith, d.number) in
        let (s', run, h') = write_inode_ok dir stamped stored_block h1 range d.whole in
        let (same, _, kept) = write_inode_lem dir stamped stored_block s' stamped-IsWords run in
        (
          s',
          ground (arith, h.opened, h.writes s.writes ((inode_at s dir).blocks k), run),
          Stored-write s' h' same kept,
        )

-- ===== src/Fs/Calls/Create.antt =====
-- `oscdfs_create` of oscdfs/src/file.c, against later lookups.
use ostd_final.Common.{
  ℕ, ◌*◌, ◌^◌, ◌≤◌, ◌<◌, ◌≡◌, ◌≢◌, refl, sym, ap, ◌∙◌, ◌⊎◌, inl, inr, true, false, some, arith,
  take, take_all, length, if◌then◌else◌,
}
use mathlib.Core.Path.{subst}
use ostd_final.Common.Exec.{
  Outcome, ok, fail, exited, undefined, unfinished, and_then, exit_on_fail,
}
use ostd_final.Common.Int.{pos, minus_one}
use ostd_final.Common.Text.{Text, str_eq}
use ostd_final.Fs.Bytes.{zero_block, from_byte}
use ostd_final.Fs.State.{Device, Fs}
use ostd_final.Fs.Layout.{total_inodes}
use ostd_final.Fs.Inode.{Inode, inode_init, inode_block, inode_offset, decode_inode}
use ostd_final.Fs.Inode.Table.{SameInode, IsWords, inode_at, overruns, write_inode_lem}
use ostd_final.Fs.Inode.Succeeds.{write_inode_ok}
use ostd_final.Fs.Bitmap.{is_free, alloc_inode}
use ostd_final.Fs.Bitmap.Alloc.{MetaOnly, Transacts, done, refused, Taken, alloc_inode_lem}
use ostd_final.Fs.Bitmap.Succeeds.{IsHealthy}
use ostd_final.Fs.Dir.{dir_find_entry}
use ostd_final.Fs.Dir.Entries.{IsText}
use ostd_final.Fs.Dir.Found.{IsDirectory}
use ostd_final.Fs.Dir.Change.{entry_number}
use ostd_final.Fs.Dir.Added.{find-dir_add_entry}
use ostd_final.Fs.Dir.Kept.{IsDirectory-kept, find-kept, entry_number-kept}
use ostd_final.Fs.Paths.Still.{searches_still}
use ostd_final.Fs.Calls.{
  split_path, writable_dir, absent, enter_new, oscdfs_create, default_file_mode,
}
use ostd_final.Fs.Calls.Delete.{writable_dir-still}

module _ ⦃dev : Device⦄ where
  -- inode_init of an inode that fits its block
  fresh_inode : (mode uid gid now : ℕ) → Inode
  fresh_inode mode uid gid now = record {
    mode = mode;
    uid = uid;
    gid = gid;
    size = 0;
    ctime = now;
    atime = now;
    mtime = now;
    blocks = λ i. 0;
    indirect = 0;
    double_indirect = 0;
    triple_indirect = 0;
    reserved = zero_block;
  }

  inode_init_ok :
      (i mode uid gid : ℕ) (s : Fs)
      → IsHealthy dev s
      → i < 128
      → overruns i ≡ false
      → mode < 2 ^ 32
      → uid < 2 ^ 32
      → gid < 2 ^ 32
      → ((w : ℕ) → dev.time w < 2 ^ 32)
      → (t : Fs) × (inode_init i mode uid gid s ≡ (ok tt, t))
        × IsHealthy dev t
        × ((m : ℕ) → m ≢ i → SameInode (inode_at t m) (inode_at s m))
        × ((k : ℕ) → k ≢ inode_block i → t.disk k ≡ s.disk k)
  unfolding inode_init fresh_inode
  inode_init_ok i mode uid gid s h range whole m u g clock =
      let a = fresh_inode mode uid gid (dev.time s.writes) in
      let (t, run, h') = write_inode_ok i a s h range whole in
      let words : IsWords a = record {
        mode = m;
        uid = u;
        gid = g;
        size = omega arith;
        ctime = clock _;
        atime = clock _;
        mtime = clock _;
        blocks = λ i p. omega arith;
        indirect = omega arith;
        double_indirect = omega arith;
        triple_indirect = omega arith;
      } in
      let (_, others, blocks) = write_inode_lem i a s t words run in
      (t, ap exit_on_fail run, h', others, blocks)

  -- The file is there: a lookup of its name gives the new inode, every other one what it gave before.
  abbrev pub Entered : (dir n i : ℕ) → Text → Fs → Outcome ℕ × Fs → Type 0
  Entered dir n i name s r =
      (t : Fs) × (r ≡ (ok i, t))
      × IsDirectory dir n t
      × ((j : Text)
          → dir_find_entry dir j t
            ≡ ((if str_eq name (take 28 j) then ok i else (dir_find_entry dir j s).0), t))

  MetaOnly-inode_at : (m : ℕ) {s t : Fs} → MetaOnly s t → inode_at t m ≡ inode_at s m
  MetaOnly-inode_at m same =
      ap (λ b. decode_inode (from_byte b (inode_offset m)))
        (same.blocks (inode_block m) (omega arith))

  module _ (dir n i v : ℕ) (name : Text) (s : Fs) (h : IsHealthy dev s) (d : IsDirectory dir n s)
      (clock : (w : ℕ) → dev.time w < 2 ^ 32) (text : IsText name) (short : length name ≤ 27)
      (range : v < 128 * n) (free : entry_number dir s v ≡ 0)
      (missing : (dir_find_entry dir name s).0 ≡ fail) (u : s.current_uid < 2 ^ 32)
      (g : s.current_gid < 2 ^ 32) (positive : 0 < i) (low : i < 121) (whole : overruns i ≡ false)
      (ne : i ≢ dir) where
    enter_new-Entered : (t : Fs) → MetaOnly s t → Entered dir n i name s (enter_new dir name i t)
    unfolding enter_new
    enter_new-Entered t same =
        let h1 : IsHealthy dev t = record {
          opened = same.opened ∙ h.opened;
          reads = h.reads;
          writes = h.writes;
        } in
        let (x, init, h2, others, kept) =
          inode_init_ok i default_file_mode t.current_uid t.current_gid t h1 (omega arith) whole
            (omega arith) (omega (arith, same.current_uid)) (omega (arith, same.current_gid))
            clock in
        let as_was : SameInode (inode_at x dir) (inode_at s dir) =
          subst (λ a. SameInode (inode_at x dir) a) (MetaOnly-inode_at dir same)
            (others dir (λ e. ne (sym e))) in
        let behind : (k : ℕ) → 8 ≤ k → x.disk k ≡ s.disk k =
          λ k p. kept k (λ e. omega arith) ∙ same.blocks k (omega arith) in
        let find = find-kept dir n s x d as_was behind h h2 in
        let (y, added, directory, lookup) =
          find-dir_add_entry dir n i name x h2 (IsDirectory-kept dir n s x d as_was behind) clock
            text positive (omega arith) v range
            (entry_number-kept dir n s x d as_was behind v range ∙ free)
            (ap (λ t. (dir_find_entry dir t x).0) (take_all 27 name short) ∙ find name ∙ missing) in
        let result : (name : Text) → (j : Text) → Outcome ℕ → Outcome ℕ × Fs =
          λ name j r. (if str_eq name (take 28 j) then ok i else r, y) in
        (
          y,
          rw (init, added) refl,
          directory,
          λ j.
              lookup j
              ∙ ap (λ t. result t j (dir_find_entry dir j x).0) (take_all 27 name short)
              ∙ ap (result name j) (find j),
        )

    absent_lem : absent dir name s ≡ (ok tt, s)
    unfolding absent
    absent_lem =
        let (still, _, _, _) = searches_still dir 0 name s in
        let nothing : dir_find_entry dir name s ≡ (fail, s) = λ k. (missing k, still k) in
        rw nothing refl

    -- On a healthy device, `oscdfs_create` of a name that is not in the directory of its path, which has
    -- a free entry and in which the caller may write, either fails for want of an inode or its counts,
    -- with no block but the metadata blocks 0 to 3 written, or returns the lowest free inode. The
    -- directory is well-formed then, a lookup of the name gives that inode, and every other lookup what
    -- it gave before. The lowest free inode is one that fits its block and lies in front of the users.
    pub create-Entered :
        (path parent : Text)
        → split_path path ≡ some (parent, name)
        → (writable_dir parent s).0 ≡ ok dir
        → is_free (s.disk 3) i ≡ true
        → ((j : ℕ) → j < i → is_free (s.disk 3) j ≡ false)
        → (((oscdfs_create path s).0 ≡ fail) × MetaOnly s (oscdfs_create path s).1)
          ⊎ Entered dir n i name s (oscdfs_create path s)
    unfolding oscdfs_create
    create-Entered path parent split writable first below =
        let writable_here : writable_dir parent s ≡ (ok dir, s) =
          λ k. (writable k, writable_dir-still parent s k) in
        rw split (rw writable_here (rw absent_lem (go (alloc_inode s) (alloc_inode_lem s))))
      where
        go :
            (r : Outcome ℕ × Fs)
            → Transacts s (Taken 3 total_inodes (pos 0) minus_one s) r
            → (((and_then r (enter_new dir name)).0 ≡ fail)
                × MetaOnly s (and_then r (enter_new dir name)).1)
              ⊎ Entered dir n i name s (and_then r (enter_new dir name))
        go (ok a, t) (done taken same) =
            let found : a ≡ i = ground (arith, below a, taken.lowest i, taken.was_free) in
            inr (
              subst (λ a. Entered dir n i name s (enter_new dir name a t)) (sym found)
                (enter_new-Entered t same))
        go (fail, t) (refused same) = inl (refl, same)
        go (exited, t) h = elim h [ ]
        go (undefined, t) h = elim h [ ]
        go (unfinished, t) h = elim h [ ]

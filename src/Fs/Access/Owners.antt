-- ===== src/Fs/Access/Owners.antt =====
-- What `oscdfs_chmod` and `oscdfs_chown` of oscdfs/src/file.c do, and who may use them.
use ostd_final.Common.{
  ℕ, ◌^◌, ◌<◌, ◌≡◌, ◌≢◌, ◌⊎◌, inl, inr, refl, true, false, ◌||◌, ltb, ◌==◌, bit_and, if◌then◌else◌,
  arith,
}
use ostd_final.Common.Bits.{digit, bit_and-le, bit_or-le}
use ostd_final.Common.Exec.{ok, fail}
use ostd_final.Fs.Bytes.{load32_bound}
use ostd_final.Fs.State.{Device, Fs}
use ostd_final.Fs.Inode.{Inode, read_inode, write_inode, inode_block}
use ostd_final.Fs.Inode.Table.{
  inode_at, overruns, SameInode, IsWords, read_inode_lem, write_inode_lem,
}
use ostd_final.Fs.Inode.Succeeds.{write_inode_ok}
use ostd_final.Fs.Bitmap.Succeeds.{IsHealthy}
use ostd_final.Fs.Access.{chmod_mode, chmod_inode, chown_inode, no_inode}
use ostd_final.Fs.Access.Roles.{digit-chmod_mode}

chmod_mode-lt : (mode new_mode : ℕ) → chmod_mode mode new_mode < 2 ^ 16
unfolding chmod_mode
chmod_mode-lt mode new_mode =
    let left = bit_and-le mode 0o170000 mode (omega arith) in
    let right = bit_and-le new_mode 0o7777 new_mode (omega arith) in
    let both =
      bit_or-le (bit_and mode 0o170000) (bit_and new_mode 0o7777) (bit_and mode 0o170000)
        (omega arith) in
    omega arith

below_16 : {m : ℕ} → m < 2 ^ 16 → m < 2 ^ 32
below_16 h = omega arith

may_chmod :
    (caller owner : ℕ) → (caller ≡ 0) ⊎ (caller ≡ owner) → (caller == 0 || caller == owner) ≡ true
may_chmod caller owner (inl root) = ground arith
may_chmod caller owner (inr same) = ground arith

kept_or :
    (new old : ℕ) → old < 2 ^ 32 → new < 2 ^ 32 → (if new == no_inode then old else new) < 2 ^ 32
kept_or new old a b = ground arith

-- Inode n was replaced by `a` and nothing else of the table, and no block but its own.
pub record Stored (n : ℕ) (a : Inode) (s t : Fs) : Type 0 where
  pub inode : SameInode (inode_at t n) a
  pub others : (m : ℕ) → m ≢ n → SameInode (inode_at t m) (inode_at s m)
  pub blocks : (k : ℕ) → k ≢ inode_block n → t.disk k ≡ s.disk k

-- The twelve permission bits are those of `new_mode`, the four bits of the type those of `mode`, and the
-- bits from 16 on are clear.
pub record IsChmod (mode new_mode result : ℕ) : Type 0 where
  pub bits :
      (k : ℕ) → k < 16 → digit result k ≡ (if ltb k 12 then digit new_mode k else digit mode k)
  pub small : result < 2 ^ 16

module _ ⦃dev : Device⦄ (n : ℕ) (s : Fs) (h : IsHealthy dev s) (range : n < 128)
    (whole : overruns n ≡ false) (clock : dev.time s.writes < 2 ^ 32) where
  write_Stored :
      (a : Inode) → IsWords a → (t : Fs) × (write_inode n a s ≡ (ok tt, t)) × Stored n a s t
  write_Stored a words =
      let (t, run, _) = write_inode_ok n a s h range whole in
      let (inode, others, blocks) = write_inode_lem n a s t words run in
      (t, run, record { inode = inode; others = others; blocks = blocks })

  read_lem : read_inode n s ≡ (ok (inode_at s n), s)
  read_lem =
      ground (arith, read_inode_lem n s range h.opened (h.reads s.writes (inode_block n)), whole)

  changed-IsWords :
      (mode uid gid : ℕ)
      → mode < 2 ^ 32
      → uid < 2 ^ 32
      → gid < 2 ^ 32
      → IsWords
          (record (inode_at s n) { mode = mode; uid = uid; gid = gid; mtime = dev.time s.writes })
  changed-IsWords mode uid gid a b c = record {
    mode = a;
    uid = b;
    gid = c;
    size = load32_bound _ _;
    ctime = load32_bound _ _;
    atime = load32_bound _ _;
    mtime = clock;
    blocks = λ i p. load32_bound _ _;
    indirect = load32_bound _ _;
    double_indirect = load32_bound _ _;
    triple_indirect = load32_bound _ _;
  }

  -- On a healthy device, for an inode that fits its block: `oscdfs_chmod` succeeds for root and for the
  -- owner, and replaces the twelve permission bits of the inode's mode and its mtime alone;
  -- `oscdfs_chown` succeeds for root, and replaces the user and the group, except by (uint32_t)-1, and the
  -- mtime alone. No other inode and no other block changes. For every other caller both fail, and leave
  -- the state as it was.
  pub chmod-chown_lem :
      (new_mode new_uid new_gid : ℕ)
      → new_uid < 2 ^ 32
      → new_gid < 2 ^ 32
      → ((s.current_uid ≡ 0) ⊎ (s.current_uid ≡ (inode_at s n).uid)
          → (t : Fs) × (mode : ℕ) × (chmod_inode n new_mode s ≡ (ok tt, t))
            × IsChmod (inode_at s n).mode new_mode mode
            × Stored n (record (inode_at s n) { mode = mode; mtime = dev.time s.writes }) s t)
        × (s.current_uid ≡ 0
            → (t : Fs) × (chown_inode n new_uid new_gid s ≡ (ok tt, t))
              × Stored n
                  (record (inode_at s n) {
                    uid = if new_uid == no_inode then (inode_at s n).uid else new_uid;
                    gid = if new_gid == no_inode then (inode_at s n).gid else new_gid;
                    mtime = dev.time s.writes;
                  })
                  s
                  t)
        × (s.current_uid ≢ 0
            → s.current_uid ≢ (inode_at s n).uid
            → chmod_inode n new_mode s ≡ (fail, s))
        × (s.current_uid ≢ 0 → chown_inode n new_uid new_gid s ≡ (fail, s))
  unfolding chmod_inode chown_inode
  chmod-chown_lem new_mode new_uid new_gid u g =
      let old = inode_at s n in
      let mode = chmod_mode old.mode new_mode in
      (
        λ allowed.
            let passes : (s.current_uid == 0 || s.current_uid == old.uid) ≡ true =
              may_chmod s.current_uid old.uid allowed in
            let (t, run, stored) =
              write_Stored (record old { mode = mode; mtime = dev.time s.writes })
                (changed-IsWords mode old.uid old.gid (below_16 (chmod_mode-lt old.mode new_mode))
                  (load32_bound _ _) (load32_bound _ _)) in
            (
              t,
              mode,
              rw (read_lem, passes) run,
              record {
                bits = λ k p. digit-chmod_mode old.mode new_mode k p;
                small = chmod_mode-lt old.mode new_mode;
              },
              stored,
            ),
        λ root.
            let passes : (s.current_uid == 0) ≡ true = ground arith in
            let uid = if new_uid == no_inode then old.uid else new_uid in
            let gid = if new_gid == no_inode then old.gid else new_gid in
            let (t, run, stored) =
              write_Stored (record old { uid = uid; gid = gid; mtime = dev.time s.writes })
                (changed-IsWords old.mode uid gid (load32_bound _ _)
                  (kept_or new_uid old.uid (load32_bound _ _) u)
                  (kept_or new_gid old.gid (load32_bound _ _) g)) in
            (t, rw (read_lem, passes) run, stored),
        λ user other.
            let stops : (s.current_uid == 0 || s.current_uid == old.uid) ≡ false = ground arith in
            rw (read_lem, stops) refl,
        λ user.
            let stops : (s.current_uid == 0) ≡ false = ground arith in rw (read_lem, stops) refl,
      )

-- ===== src/Fs/Fuse.antt =====
-- oscdfs/src/fuse.c: the callbacks. `user` is the Linux uid of the FUSE context, if there is one.
pub mod Unchecked
use ostd_final.Common.{
  ℕ, zero, suc, ◌+◌, ◌-◌, ◌/◌, ◌%◌, ◌^◌, bit_and, bit_or, Bool, true, false, not, ◌&&◌, ◌||◌,
  Option, none, some, List, [], ◌∷◌, ◌++◌, ◌==◌, ltb, length, take, drop, if◌then◌else◌,
}
use ostd_final.Common.Exec.{ok, fail, undefined, unfinished, get_state, attempt, ignore, in_bounds}
use ostd_final.Common.Exec as exec
use ostd_final.Common.Text.{Text, str_eq}
use ostd_final.Common.Search.{first_where}
use ostd_final.Fs.Layout.{block_size}
use ostd_final.Fs.Bytes.{Block}
use ostd_final.Fs.State.{Device, Cmd}
use ostd_final.Fs.Disk.{read_block, write_block}
use ostd_final.Fs.Inode.{Inode, read_inode, write_inode, inode_init}
use ostd_final.Fs.Bitmap.{alloc_inode, free_inode}
use ostd_final.Fs.Blocks.{InodeCmd, on_fs, inode_get_block}
use ostd_final.Fs.Blocks.Release.{inode_free_blocks}
use ostd_final.Fs.Access.{is_dir, check_permission, dir_flag, no_inode, r_ok, w_ok}
use ostd_final.Fs.Files.{with_inode}
use ostd_final.Fs.Dir.{
  Hit, missing, unreadable, hit, scan, dir_rounds, dir_find_entry, dir_add_entry, dir_remove_entry,
  empty_dir, entry_inode_no, entry_name, entries_per_block, dot, dot_dot,
}
use ostd_final.Fs.Paths.{find_inode_by_path, max_cmd_len}
use ostd_final.Fs.Users.{
  set_user_from_fuse_context, read_user_table, has_linux_uid, max_users, user_uid,
}
use ostd_final.Fs.Calls.{at_last_slash, name_part, default_file_mode, is_none, oscdfs_delete}
use ostd_final.Fs.InodeData.{oscdfs_read_inode, oscdfs_write_inode}
use ostd_final.Fs.Answer.{
  Answer, done, errno, Fuse, enoent, eio, eacces, eexist, enotdir, eisdir, einval, enospc,
  enotempty, ◌>>=◌, ◌>>◌, return, or_error, run, check,
}

-- struct stat, the fields that depend on the inode
pub record Stat : Type 0 where
  pub st_ino : ℕ
  pub st_mode : ℕ
  pub st_uid : ℕ
  pub st_gid : ℕ
  pub st_size : ℕ
  pub st_atime : ℕ
  pub st_mtime : ℕ
  pub st_ctime : ℕ
  pub st_blocks : ℕ

-- S_IFDIR and S_IFREG of the host
abbrev pub stat_of : ℕ → Inode → Stat
stat_of n ino = record {
  st_ino = n;
  st_mode = bit_or (bit_and ino.mode 0o7777) (if is_dir ino then 0o40000 else 0o100000);
  st_uid = ino.uid;
  st_gid = ino.gid;
  st_size = ino.size;
  st_atime = ino.atime;
  st_mtime = ino.mtime;
  st_ctime = ino.ctime;
  st_blocks = (ino.size + 511) % 2 ^ 32 / 512;
}

-- the names of a block that are in use, from entry i on
unfoldable pub names_in : Block → (n i : ℕ) → List Text
names_in b zero i = []
names_in b (suc n) i =
    let rest = names_in b n (i + 1) in
    if entry_inode_no b i == 0 then rest else entry_name b i ∷ rest

-- The access that `fuse_open` asks for: O_RDONLY is 0, O_WRONLY is 1 and O_RDWR is 2.
unfoldable pub access_of : (flags : ℕ) → ℕ
access_of flags =
    if not (bit_and flags 0 == 0)
    then r_ok
    else if not (bit_and flags 1 == 0)
    then w_ok
    else if not (bit_and flags 2 == 0)
    then bit_or r_ok w_ok
    else 0

-- an entry other than `.` and `..`
unfoldable pub is_content : Block → ℕ → Bool
is_content b i =
    not (entry_inode_no b i == 0)
    && not (str_eq (entry_name b i) dot)
    && not (str_eq (entry_name b i) dot_dot)

-- One of the two times of `fuse_utimens`: UTIME_NOW, UTIME_OMIT, or seconds.
pub data TimeSpec : Type 0 where
  now omit : TimeSpec
  seconds : ℕ → TimeSpec

abbrev pub new_time : TimeSpec → (current old : ℕ) → ℕ
new_time now current old = current
new_time omit current old = old
new_time (seconds sec) current old = sec % 2 ^ 32

-- what `fuse_create` and `fuse_mkdir` take for the directory and the name
unfoldable pub split_fuse_path : Text → Cmd (Text × Text)
split_fuse_path path = elim (at_last_slash path) [
  | none ↦ exec.pure (b'/' ∷ [], name_part (drop 1 path))
  | some ([], behind) ↦ exec.pure (b'/' ∷ [], name_part behind)
  | some (c ∷ before, behind) ↦
      exec.◌>>◌ (in_bounds (ltb (length (c ∷ before)) max_cmd_len))
        (exec.pure (c ∷ before, name_part behind))
]

-- the directory part that `fuse_rmdir` takes, for the text before the last slash
unfoldable pub rmdir_parent : Text → Text
rmdir_parent [] = b'/' ∷ []
rmdir_parent (c ∷ t) = c ∷ t

-- a value of a variable that a failed call has not set
abbrev pub unset : {A : Type 0} → Option A → Cmd A
unset none = λ s. (undefined, s)
unset (some a) = exec.pure a

-- (mode & ~07777) | (new_mode & 07777)
unfoldable pub with_permissions : ℕ → ℕ → ℕ
with_permissions mode new_mode = bit_or (bit_and mode 0xFFFFF000) (bit_and new_mode 0o7777)

-- `fuse_rmdir` goes on only when the loop found no content
unfoldable pub no_content : Hit → Fuse (Unit {0})
no_content (missing l) = return tt
no_content unreadable = exec.pure (errno eio)
no_content (hit phys i b) = exec.pure (errno enotempty)

-- the new owner for a Linux uid: the old one where the table cannot be read
unfoldable pub owner_for : (linux_uid old : ℕ) → Option Block → Fuse ℕ
owner_for linux_uid old none = return old
owner_for linux_uid old (some users) =
    elim (first_where (has_linux_uid linux_uid users) max_users 0) [
      | none ↦ exec.pure (errno einval)
      | some i ↦ return (user_uid users i)
    ]

module _ ⦃dev : Device⦄ (user : Option ℕ) where
  -- the resolution of the path with which most callbacks begin
  unfoldable pub lookup : Text → Fuse ℕ
  lookup path = do
    run (set_user_from_fuse_context user)
    or_error enoent (find_inode_by_path path 1)

  unfoldable pub fuse_getattr : Text → Fuse Stat
  fuse_getattr path = do n ← lookup path; ino ← or_error eio (read_inode n); return (stat_of n ino)

  -- the loop of `fuse_readdir`, for a number of rounds: the names that `filler` gets
  unfoldable pub list_blocks : (rounds l : ℕ) → InodeCmd (Answer (List Text))
  list_blocks zero l = λ s. (unfinished, s)
  list_blocks (suc n) l = exec.◌>>=◌ (attempt (inode_get_block l false)) λ found. elim found [
    | none ↦ exec.pure (done [])
    | some phys ↦ exec.◌>>=◌ (attempt (on_fs (read_block phys))) λ found. elim found [
      | none ↦ exec.pure (errno eio)
      | some b ↦ exec.◌>>=◌ (list_blocks n (l + 1)) λ rest. exec.pure (elim rest [
        | errno e ↦ errno e
        | done names ↦ done (names_in b entries_per_block 0 ++ names)
      ])
    ]
  ]

  unfoldable pub fuse_readdir : Text → Fuse (List Text)
  fuse_readdir path = do
    n ← lookup path
    ino ← or_error eio (read_inode n)
    check enotdir (is_dir ino)
    (names, _) ← run (with_inode ino (list_blocks dir_rounds 0))
    exec.pure names

  -- the result is `fi->fh`
  unfoldable pub fuse_open : Text → (flags : ℕ) → Fuse ℕ
  fuse_open path flags = do
    n ← lookup path
    ino ← or_error eio (read_inode n)
    check eisdir (not (is_dir ino))
    s ← run get_state
    check eacces (check_permission s.current_uid s.current_gid ino (access_of flags))
    return n

  unfoldable pub fuse_read : (fh : ℕ) → Block → (size offset : ℕ) → Fuse (ℕ × Block)
  fuse_read fh buf size offset = oscdfs_read_inode fh buf offset size

  unfoldable pub fuse_write : (fh : ℕ) → Block → (size offset : ℕ) → Fuse ℕ
  fuse_write fh buf size offset = do
    run (set_user_from_fuse_context user)
    ino ← or_error eio (read_inode fh)
    s ← run get_state
    check eacces (check_permission s.current_uid s.current_gid ino w_ok)
    oscdfs_write_inode fh buf offset size

  -- the tests on the parent with which `fuse_create` and `fuse_mkdir` begin
  unfoldable pub new_name : Text → Fuse (ℕ × Text)
  new_name path = do
    run (set_user_from_fuse_context user)
    (parent_dir, filename) ← run (split_fuse_path path)
    parent_ino ← or_error enoent (find_inode_by_path parent_dir 1)
    pinode ← or_error enotdir (read_inode parent_ino)
    check enotdir (is_dir pinode)
    s ← run get_state
    check eacces (check_permission s.current_uid s.current_gid pinode w_ok)
    found ← run (attempt (dir_find_entry parent_ino filename))
    check eexist (is_none found)
    return (parent_ino, filename)

  unfoldable pub fuse_create : Text → (mode : ℕ) → Fuse ℕ
  fuse_create path mode = do
    (parent_ino, filename) ← new_name path
    new_ino ← or_error enospc alloc_inode
    s ← run get_state
    run (inode_init new_ino default_file_mode s.current_uid s.current_gid)
    found ← run (attempt (read_inode new_ino))
    new_inode ← run (unset found)
    run (
        ignore
          (write_inode new_ino (record new_inode { mode = with_permissions new_inode.mode mode })))
    added ← run (attempt (dir_add_entry parent_ino filename new_ino))
    elim added [
      | none ↦ do run (ignore (free_inode new_ino)); exec.pure (errno eio)
      | some u ↦ return new_ino
    ]

  unfoldable pub fuse_unlink : Text → Fuse (Unit {0})
  fuse_unlink path = do run (set_user_from_fuse_context user); or_error eacces (oscdfs_delete path)

  -- what `fuse_mkdir` does once the new directory has its block
  unfoldable pub fill_dir : (parent_ino : ℕ) → Text → (new_ino blk : ℕ) → Inode → Fuse (Unit {0})
  fill_dir parent_ino dirname new_ino blk new_inode = do
    run (ignore (write_block blk (empty_dir new_ino parent_ino)))
    s ← run get_state
    let ino : Inode = record new_inode { size = block_size; mtime = dev.time s.writes }
    run (ignore (write_inode new_ino ino))
    added ← run (attempt (dir_add_entry parent_ino dirname new_ino))
    elim added [
      | some u ↦ return tt
      | none ↦ do
        _ ← run (with_inode ino (inode_free_blocks new_ino))
        run (ignore (free_inode new_ino))
        exec.pure (errno eio)
    ]

  unfoldable pub fuse_mkdir : Text → (mode : ℕ) → Fuse (Unit {0})
  fuse_mkdir path mode = do
    (parent_ino, dirname) ← new_name path
    new_ino ← or_error enospc alloc_inode
    s ← run get_state
    run (inode_init new_ino (bit_or dir_flag (bit_and mode 0o7777)) s.current_uid s.current_gid)
    found ← run (attempt (read_inode new_ino))
    new_inode ← run (unset found)
    found ← run (attempt (with_inode new_inode (inode_get_block 0 true)))
    elim found [
      | none ↦ do run (ignore (free_inode new_ino)); exec.pure (errno enospc)
      | some (blk, ino) ↦ fill_dir parent_ino dirname new_ino blk ino
    ]

  -- what `fuse_rmdir` does once the directory is known to be empty
  unfoldable pub unlink_dir : Text → (n : ℕ) → Inode → Fuse (Unit {0})
  unlink_dir path n ino = do
    (_, del_name) ←
        or_error eio (λ s. (elim (at_last_slash path) [ none ↦ fail | some p ↦ ok p ], s))
    (before, _) ← or_error eio (λ s.
        (elim (at_last_slash (take (max_cmd_len - 1) path)) [ none ↦ fail | some p ↦ ok p ], s))
    parent_ino ← or_error enoent (find_inode_by_path (rmdir_parent before) 1)
    pinode ← or_error eio (read_inode parent_ino)
    s ← run get_state
    check eacces (check_permission s.current_uid s.current_gid pinode w_ok)
    or_error eio (dir_remove_entry parent_ino del_name)
    _ ← run (with_inode ino (inode_free_blocks n))
    run (ignore (free_inode n))

  unfoldable pub fuse_rmdir : Text → Fuse (Unit {0})
  unfolding no_content
  fuse_rmdir path = do
    n ← lookup path
    ino ← or_error eio (read_inode n)
    check enotdir (is_dir ino)
    (h, _) ← run (with_inode ino (scan is_content dir_rounds 0))
    no_content h
    unlink_dir path n ino

  unfoldable pub fuse_chmod : Text → (mode : ℕ) → Fuse (Unit {0})
  fuse_chmod path mode = do
    n ← lookup path
    ino ← or_error eio (read_inode n)
    s ← run get_state
    check eacces (
        check_permission s.current_uid s.current_gid ino 0
        || s.current_uid == 0
        || s.current_uid == ino.uid)
    or_error eio (
        write_inode n
          (record ino { mode = with_permissions ino.mode mode; mtime = dev.time s.writes }))

  unfoldable pub fuse_chown : Text → (uid gid : ℕ) → Fuse (Unit {0})
  unfolding owner_for
  fuse_chown path uid gid = do
    run (set_user_from_fuse_context user)
    s ← run get_state
    check eacces (s.current_uid == 0)
    n ← or_error enoent (find_inode_by_path path 1)
    ino ← or_error eio (read_inode n)
    new_uid ←
        if uid == no_inode
        then return ino.uid
        else do found ← run (attempt read_user_table); owner_for uid ino.uid found
    s ← run get_state
    or_error eio (
        write_inode n (record ino {
          uid = new_uid;
          gid = if gid == no_inode then ino.gid else gid;
          mtime = dev.time s.writes;
        }))

  unfoldable pub fuse_utimens : Text → (access modification : TimeSpec) → Fuse (Unit {0})
  fuse_utimens path access modification = do
    n ← lookup path
    ino ← or_error eio (read_inode n)
    s ← run get_state
    or_error eio (
        write_inode n (record ino {
          atime = new_time access (dev.time s.writes) ino.atime;
          mtime = new_time modification (dev.time s.writes) ino.mtime;
        }))

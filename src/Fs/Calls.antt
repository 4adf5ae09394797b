-- ===== src/Fs/Calls.antt =====
-- The calls of oscdfs/src/file.c that take a path.
pub mod Delete
pub mod Create
use ostd_final.Common.{
  ℕ, ◌-◌, Bool, true, false, not, ◌&&◌, Option, none, some, [], ◌∷◌, ◌==◌, leb, length, take,
  if◌then◌else◌,
}
use ostd_final.Common.Exec.{pure, failed, guard, get_state, attempt, ignore, ◌>>=◌, ◌>>◌}
use ostd_final.Common.Text.{Text}
use ostd_final.Common.Search.{first_where}
use ostd_final.Fs.State.{Device, Fs, Cmd}
use ostd_final.Fs.Inode.{read_inode, inode_init}
use ostd_final.Fs.Bitmap.{alloc_inode, free_inode}
use ostd_final.Fs.Blocks.Release.{inode_free_blocks}
use ostd_final.Fs.Access.{is_dir, check_permission, w_ok, chmod_inode, chown_inode}
use ostd_final.Fs.Files.{max_open_files, open_inode, with_inode}
use ostd_final.Fs.Dir.{dot, dir_find_entry, dir_add_entry, dir_remove_entry}
use ostd_final.Fs.Paths.{is_slash, max_cmd_len, find_inode_by_path}

-- OSCDFS_MAX_FILENAME
abbrev pub max_filename : ℕ
max_filename = 28

-- OSCDFS_DEFAULT_FILE_MODE
abbrev pub default_file_mode : ℕ
default_file_mode = 0o100644

-- the parts before and behind the last slash, which strrchr finds
unfoldable pub at_last_slash : Text → Option (Text × Text)
at_last_slash [] = none
at_last_slash (c ∷ t) = elim (at_last_slash t) [
  | some (before, behind) ↦ some (c ∷ before, behind)
  | none ↦ if is_slash c then some ([], t) else none
]

abbrev pub name_part : Text → Text
name_part = take (max_filename - 1)

-- parent_dir and filename, unless the name is empty
unfoldable pub with_name : Text → Text → Option (Text × Text)
with_name parent [] = none
with_name parent (c ∷ t) = some (parent, c ∷ t)

-- The directory part that `split_path` copies, for the text before the last slash.
unfoldable pub parent_part : Text → Option Text
parent_part [] = some (b'/' ∷ [])
parent_part (c ∷ t) = if leb max_cmd_len (length (c ∷ t)) then none else some (c ∷ t)

-- `split_path`: parent_dir and filename
unfoldable pub split_path : Text → Option (Text × Text)
unfolding with_name parent_part
split_path fullpath = elim (at_last_slash fullpath) [
  | none ↦ with_name dot (name_part fullpath)
  | some (before, behind) ↦ elim (parent_part before) [
    | none ↦ none
    | some parent ↦ with_name parent (name_part behind)
  ]
]

-- `if (split_path(...) != 0) return -1`
abbrev pub or_fail : {A : Type 0} → Option A → Cmd A
or_fail none = failed
or_fail (some a) = pure a

-- The entry of the descriptor table is used for the inode.
unfoldable pub is_open_on : ℕ → Fs → ℕ → Bool
is_open_on n s i = (s.fd_table i).used && (s.fd_table i).inode_no == n

abbrev pub is_none {ℓ} : {A : Type ℓ} → Option A → Bool
is_none none = true
is_none (some a) = false

module _ ⦃dev : Device⦄ where
  -- The caller may change the directory: the tests with which creating and deleting begin.
  unfoldable pub writable_dir : Text → Cmd ℕ
  writable_dir parent_dir = do
    s ← get_state
    parent_ino ← find_inode_by_path parent_dir s.current_dir_inode
    pinode ← read_inode parent_ino
    guard (is_dir pinode)
    s ← get_state
    guard (check_permission s.current_uid s.current_gid pinode w_ok)
    pure parent_ino

  -- `dir_find_entry(...) >= 0` is an error
  unfoldable pub absent : ℕ → Text → Cmd (Unit {0})
  absent parent_ino filename = do
    found ← attempt (dir_find_entry parent_ino filename)
    guard (is_none found)

  -- the end of `oscdfs_create`: the inode, and its entry
  unfoldable pub enter_new : (parent_ino : ℕ) → Text → (new_ino : ℕ) → Cmd ℕ
  enter_new parent_ino filename new_ino = do
    s ← get_state
    inode_init new_ino default_file_mode s.current_uid s.current_gid
    added ← attempt (dir_add_entry parent_ino filename new_ino)
    elim added [ none ↦ do ignore (free_inode new_ino); failed | some u ↦ pure new_ino ]

  unfoldable pub oscdfs_create : Text → Cmd ℕ
  oscdfs_create path = do
    (parent_dir, filename) ← or_fail (split_path path)
    parent_ino ← writable_dir parent_dir
    absent parent_ino filename
    new_ino ← alloc_inode
    enter_new parent_ino filename new_ino

  unfoldable pub oscdfs_open : Text → (flags : ℕ) → Cmd ℕ
  oscdfs_open path flags = do
    s ← get_state
    ino ← find_inode_by_path path s.current_dir_inode
    open_inode ino flags

  unfoldable pub oscdfs_delete : Text → Cmd (Unit {0})
  oscdfs_delete path = do
    (parent_dir, filename) ← or_fail (split_path path)
    pino ← writable_dir parent_dir
    fino ← dir_find_entry pino filename
    finode ← read_inode fino
    guard (not (is_dir finode))
    s ← get_state
    guard (is_none (first_where (is_open_on fino s) max_open_files 0))
    dir_remove_entry pino filename
    _ ← with_inode finode (inode_free_blocks fino)
    ignore (free_inode fino)

  unfoldable pub oscdfs_chmod : Text → (new_mode : ℕ) → Cmd (Unit {0})
  oscdfs_chmod path new_mode = do
    s ← get_state
    ino ← find_inode_by_path path s.current_dir_inode
    chmod_inode ino new_mode

  unfoldable pub oscdfs_chown : Text → (new_uid new_gid : ℕ) → Cmd (Unit {0})
  oscdfs_chown path new_uid new_gid = do
    s ← get_state
    ino ← find_inode_by_path path s.current_dir_inode
    chown_inode ino new_uid new_gid

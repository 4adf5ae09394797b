-- ===== src/Fs/Commands.antt =====
-- The commands of oscdfs/src/builtin.c, and oscdfs/src/exec.c, which runs a line. What a command prints
-- is its reply; its return value is 0, 1 for `failure`, and -1 for `unknown`.
pub mod Places
use ostd_final.Common.{
  ℕ, zero, suc, ◌+◌, ◌-◌, ◌^◌, Bool, true, false, ◌||◌, bit_and, Option, none, some, List, [], ◌∷◌,
  ◌++◌, ◌==◌, length, take, if◌then◌else◌,
}
use ostd_final.Common.Int.{ℤ, pos, negsuc}
use ostd_final.Common.Numerals.{atoi, octal_of, unsigned_of}
use ostd_final.Common.Exec.{
  exited, undefined, unfinished, pure, failed, get_state, put_state, attempt, ◌>>=◌, ◌>>◌,
}
use ostd_final.Common.Text.{Text, codes, str_eq, tokens}
use ostd_final.Fs.Bytes.{Block, zero_block}
use ostd_final.Fs.State.{Device, Fs, Cmd}
use ostd_final.Fs.Disk.{read_block}
use ostd_final.Fs.Strings.{text_bytes}
use ostd_final.Fs.Inode.{Inode, read_inode}
use ostd_final.Fs.Blocks.{InodeCmd, on_fs, inode_get_block}
use ostd_final.Fs.Access.{is_dir, no_inode}
use ostd_final.Fs.Files.{max_open_files, rdonly, wronly, with_inode, close, read, write}
use ostd_final.Fs.Dir.{entries_per_block, entry_inode_no, entry_name, dir_rounds}
use ostd_final.Fs.Paths.{max_cmd_len, find_inode_by_path, build_path_from_inode}
use ostd_final.Fs.Users.{get_user_home_inode, login}
use ostd_final.Fs.Calls.{oscdfs_create, oscdfs_open, oscdfs_delete, oscdfs_chmod, oscdfs_chown}

-- A line of the table that `dir` prints: the first direct block is `-` if it is 0.
pub record Row : Type 0 where
  pub inode_no : ℕ
  pub name : Text
  pub phys : ℕ
  pub mode : ℕ
  pub size : ℕ
  pub uid : ℕ

pub data Reply : Type 0 where
  failure unknown done : Reply
  listing : List Row → Reply
  place : Text → Reply
  opened : (fd : ℕ) → Reply
  received : (count : ℕ) → Block → Reply
  sent : (count : ℕ) → Reply

-- `if (call failed) return 1;`
abbrev pub reply_of : {A : Type 0} → Option A → (A → Reply) → Reply
reply_of none f = failure
reply_of (some a) f = f a

abbrev pub row_of : Block → ℕ → Inode → Row
row_of b i ino = record {
  inode_no = entry_inode_no b i;
  name = entry_name b i;
  phys = ino.blocks 0;
  mode = bit_and ino.mode 0o7777;
  size = ino.size;
  uid = ino.uid;
}

abbrev pub put_first : Row → Option (List Row) → Option (List Row)
put_first row none = none
put_first row (some rows) = some (row ∷ rows)

abbrev pub put_before : List Row → Option (List Row) → Option (List Row)
put_before rows none = none
put_before rows (some more) = some (rows ++ more)

abbrev pub listing_of : Option (List Row) → Reply
listing_of none = failure
listing_of (some rows) = listing rows

-- OSCDFS_O_RDWR
abbrev pub rdwr : ℕ
rdwr = 2

-- the flags for the second argument of `open`
unfoldable pub open_flags : List Text → Option ℕ
open_flags [] = some rdonly
open_flags (word ∷ more) =
    if str_eq word (codes "w")
    then some wronly
    else if str_eq word (codes "rw")
    then some rdwr
    else if str_eq word (codes "r")
    then some rdonly
    else none

-- a negative descriptor is refused like one past the table
abbrev pub descriptor_of : ℤ → ℕ
descriptor_of (pos n) = n
descriptor_of (negsuc n) = max_open_files

-- a number that atoi does not define
abbrev pub or_undefined : {A : Type 0} → Option A → Cmd A
or_undefined none = λ s. (undefined, s)
or_undefined (some a) = pure a

abbrev pub first_or : Text → List Text → Text
first_or t [] = t
first_or t (arg ∷ args) = arg

-- the gid of `chown`, (uint32_t)-1 without one
abbrev pub gid_of : List Text → ℕ
gid_of [] = no_inode
gid_of (arg ∷ args) = unsigned_of arg

-- The commands, with their names in the order of `execute_builtin`.
pub data Command : Type 0 where
  hello exit dir cd create open_file close_file read_file write_file delete log_in chmod chown pwd :
      Command

abbrev pub command_table : List (Text × Command)
command_table =
    (codes "hello", hello)
    ∷ (codes "exit", exit)
    ∷ (codes "dir", dir)
    ∷ (codes "cd", cd)
    ∷ (codes "create", create)
    ∷ (codes "open", open_file)
    ∷ (codes "close", close_file)
    ∷ (codes "read", read_file)
    ∷ (codes "write", write_file)
    ∷ (codes "delete", delete)
    ∷ (codes "login", log_in)
    ∷ (codes "chmod", chmod)
    ∷ (codes "chown", chown)
    ∷ (codes "pwd", pwd)
    ∷ []

unfoldable pub lookup_command : List (Text × Command) → Text → Option Command
lookup_command [] word = none
lookup_command ((name, c) ∷ more) word =
    if str_eq word name then some c else lookup_command more word

-- the separators of strtok
abbrev pub is_gap : ℕ → Bool
is_gap c = c == 32 || c == 9

module _ ⦃dev : Device⦄ where
  -- the loop over the entries of a block; `none` is the return value 1
  unfoldable pub entry_rows : Block → (rounds i : ℕ) → Cmd (Option (List Row))
  entry_rows b zero i = pure (some [])
  entry_rows b (suc n) i =
      let rest = entry_rows b n (i + 1) in
      if entry_inode_no b i == 0 then rest else do
        found ← attempt (read_inode (entry_inode_no b i))
        elim found [
          | none ↦ pure none
          | some ino ↦ do rows ← rest; pure (put_first (row_of b i ino) rows)
        ]

  -- the loop over the blocks of a directory
  unfoldable pub block_rows : (rounds l : ℕ) → InodeCmd (Option (List Row))
  block_rows zero l = λ s. (unfinished, s)
  block_rows (suc n) l = do
    found ← attempt (inode_get_block l false)
    elim found [
      | none ↦ pure (some [])
      | some phys ↦ do
        read ← attempt (on_fs (read_block phys))
        elim read [
          | none ↦ pure none
          | some b ↦ do
            rows ← on_fs (entry_rows b entries_per_block 0)
            elim rows [
              | none ↦ pure none
              | some rows ↦ do more ← block_rows n (l + 1); pure (put_before rows more)
            ]
        ]
    ]

  -- the directory that `dir` and `cd` are about, and what they do with its inode
  unfoldable pub in_directory : ℕ → (Inode → Cmd Reply) → Cmd Reply
  in_directory n body = do
    found ← attempt (read_inode n)
    elim found [ none ↦ pure failure | some ino ↦ if is_dir ino then body ino else pure failure ]

  unfoldable pub list_dir : Inode → Cmd Reply
  list_dir ino = do (rows, _) ← with_inode ino (block_rows dir_rounds 0); pure (listing_of rows)

  -- the inode that a path leads to from the current directory
  abbrev pub at_path : Text → (ℕ → Cmd Reply) → Cmd Reply
  at_path path body = do
    s ← get_state
    found ← attempt (find_inode_by_path path s.current_dir_inode)
    elim found [ none ↦ pure failure | some n ↦ body n ]

  unfoldable pub builtin_dir : List Text → Cmd Reply
  builtin_dir [] = do s ← get_state; in_directory s.current_dir_inode list_dir
  builtin_dir (path ∷ args) = at_path path (λ n. in_directory n list_dir)

  -- the assignments of `cd`
  unfoldable pub change_to : ℕ → Inode → Cmd Reply
  change_to target ino = do
    s ← get_state
    put_state (record s { current_dir_inode = target })
    path ← build_path_from_inode target max_cmd_len
    s ← get_state
    put_state (record s { cwd_path = path })
    pure done

  unfoldable pub builtin_cd : List Text → Cmd Reply
  builtin_cd [] = do target ← get_user_home_inode; in_directory target (change_to target)
  builtin_cd (path ∷ args) = at_path path (λ n. in_directory n (change_to n))

  unfoldable pub builtin_pwd : Cmd Reply
  builtin_pwd = do s ← get_state; pure (place s.cwd_path)

  unfoldable pub builtin_create : List Text → Cmd Reply
  builtin_create [] = pure failure
  builtin_create (path ∷ args) = do
    found ← attempt (oscdfs_create path)
    pure (reply_of found (λ n. done))

  unfoldable pub builtin_open : List Text → Cmd Reply
  builtin_open [] = pure failure
  builtin_open (path ∷ args) = elim (open_flags args) [
    | none ↦ pure failure
    | some flags ↦ do found ← attempt (oscdfs_open path flags); pure (reply_of found opened)
  ]

  unfoldable pub builtin_close : List Text → Cmd Reply
  builtin_close [] = pure failure
  builtin_close (word ∷ args) = do
    fd ← or_undefined (atoi word)
    found ← attempt (close (descriptor_of fd))
    pure (reply_of found (λ u. done))

  -- `n` is the second number; the buffer comes from malloc, and only the bytes read are printed
  unfoldable pub read_bytes : (fd n : ℤ) → Cmd Reply
  read_bytes fd (negsuc n) = pure failure
  read_bytes fd (pos zero) = pure failure
  read_bytes fd (pos (suc n)) = do
    found ← attempt (read (descriptor_of fd) zero_block (suc n))
    pure (reply_of found (λ r. received r.0 r.1))

  unfoldable pub builtin_read : List Text → Cmd Reply
  builtin_read [] = pure failure
  builtin_read (word ∷ []) = pure failure
  builtin_read (word ∷ count ∷ args) = do
    fd ← or_undefined (atoi word)
    n ← or_undefined (atoi count)
    read_bytes fd n

  unfoldable pub builtin_write : List Text → Cmd Reply
  builtin_write [] = pure failure
  builtin_write (word ∷ []) = pure failure
  builtin_write (word ∷ text ∷ args) = do
    fd ← or_undefined (atoi word)
    found ← attempt (write (descriptor_of fd) (text_bytes text) (length text))
    pure (reply_of found sent)

  unfoldable pub builtin_delete : List Text → Cmd Reply
  builtin_delete [] = pure failure
  builtin_delete (path ∷ args) = do
    found ← attempt (oscdfs_delete path)
    pure (reply_of found (λ u. done))

  unfoldable pub builtin_login : List Text → Cmd Reply
  builtin_login [] = pure failure
  builtin_login (username ∷ args) = do
    found ← attempt (login username (first_or [] args))
    pure (reply_of found (λ u. done))

  unfoldable pub builtin_chmod : List Text → Cmd Reply
  builtin_chmod [] = pure failure
  builtin_chmod (path ∷ []) = pure failure
  builtin_chmod (path ∷ mode ∷ args) = do
    found ← attempt (oscdfs_chmod path (octal_of mode))
    pure (reply_of found (λ u. done))

  unfoldable pub builtin_chown : List Text → Cmd Reply
  builtin_chown [] = pure failure
  builtin_chown (path ∷ []) = pure failure
  builtin_chown (path ∷ uid ∷ args) = do
    found ← attempt (oscdfs_chown path (unsigned_of uid) (gid_of args))
    pure (reply_of found (λ u. done))

  -- disk_close(); exit(0);
  unfoldable pub builtin_exit : Cmd Reply
  builtin_exit s = (exited, record s { opened = false })

  unfoldable pub run_command : Command → List Text → Cmd Reply
  run_command hello args = pure done
  run_command exit args = builtin_exit
  run_command dir args = builtin_dir args
  run_command cd args = builtin_cd args
  run_command create args = builtin_create args
  run_command open_file args = builtin_open args
  run_command close_file args = builtin_close args
  run_command read_file args = builtin_read args
  run_command write_file args = builtin_write args
  run_command delete args = builtin_delete args
  run_command log_in args = builtin_login args
  run_command chmod args = builtin_chmod args
  run_command chown args = builtin_chown args
  run_command pwd args = builtin_pwd

  unfoldable pub execute_words : List Text → Cmd Reply
  execute_words [] = pure done
  execute_words (word ∷ args) = elim (lookup_command command_table word) [
    | none ↦ pure unknown
    | some c ↦ run_command c args
  ]

  -- `execute_command`: the first fifteen words count
  unfoldable pub execute_command : Text → Cmd Reply
  execute_command line = execute_words (take 15 (tokens is_gap line))

-- ===== src/Fs/Paths.antt =====
-- The paths of oscdfs/src/dir.c: from a path to an inode, and back.
pub mod Join
pub mod Still
use ostd_final.Common.{
  ℕ, zero, suc, ◌-◌, Bool, true, false, not, ◌&&◌, none, some, List, [], ◌∷◌, ◌++◌, ◌==◌, ltb,
  length, take, if◌then◌else◌,
}
use ostd_final.Common.Exec.{unfinished, pure, failed, in_bounds, attempt, ◌>>=◌, ◌>>◌}
use ostd_final.Common.Text.{Text, str_eq, tokens}
use ostd_final.Fs.Bytes.{Block}
use ostd_final.Fs.State.{Device, Cmd}
use ostd_final.Fs.Inode.{read_inode}
use ostd_final.Fs.Files.{with_inode}
use ostd_final.Fs.Dir.{
  Hit, missing, unreadable, hit, scan, dir_rounds, dir_find_entry, dot, dot_dot, entry_inode_no,
  entry_name,
}

-- MAX_CMD_LEN
abbrev pub max_cmd_len : ℕ
max_cmd_len = 1024

abbrev pub is_slash : ℕ → Bool
is_slash c = c == b'/'

-- the inode from which a path starts
unfoldable pub start_of : Text → ℕ → ℕ
start_of [] start_inode = start_inode
start_of (c ∷ t) start_inode = if is_slash c then 1 else start_inode

-- `inode_no != 0 && strcmp(name, "..") == 0`
unfoldable pub is_parent : Block → ℕ → Bool
is_parent b i = not (entry_inode_no b i == 0) && str_eq (entry_name b i) dot_dot

-- `inode_no == cur`
unfoldable pub has_number : ℕ → Block → ℕ → Bool
has_number cur b i = entry_inode_no b i == cur

-- the names from the root down, each behind a slash
unfoldable pub join_names : List Text → Text
join_names [] = []
join_names (name ∷ []) = name
join_names (name ∷ names) = name ++ b'/' ∷ join_names names

module _ ⦃dev : Device⦄ where
  -- the loop over the tokens; `..` is looked up like any other name
  unfoldable pub walk : List Text → ℕ → Cmd ℕ
  walk [] current_inode = pure current_inode
  walk (token ∷ more) current_inode = elim (str_eq token dot) [
    | true ↦ walk more current_inode
    | false ↦ do found ← dir_find_entry current_inode token; walk more found
  ]

  -- `fail` is the result (uint32_t)-1
  unfoldable pub find_inode_by_path : Text → (start_inode : ℕ) → Cmd ℕ
  unfolding start_of
  find_inode_by_path path start_inode =
      let path_copy = take (max_cmd_len - 1) path in
      walk (tokens is_slash path_copy) (start_of path_copy start_inode)

  -- the number and the name of the entry that a loop found
  unfoldable pub entry_of : Hit → Cmd (ℕ × Text)
  entry_of (missing l) = failed
  entry_of unreadable = failed
  entry_of (hit phys i b) = pure (entry_inode_no b i, entry_name b i)

  -- One round of `build_path_from_inode`: the parent of a directory, and its name there. A name of 28
  -- bytes has no end in its array.
  unfoldable pub parent_and_name : ℕ → Cmd (ℕ × Text)
  unfolding entry_of
  parent_and_name cur = do
    dir_inode ← read_inode cur
    (h, _) ← with_inode dir_inode (scan is_parent dir_rounds 0)
    (parent, _) ← entry_of h
    parent_inode ← read_inode parent
    (h, _) ← with_inode parent_inode (scan (has_number cur) dir_rounds 0)
    (_, name) ← entry_of h
    in_bounds (ltb (length name) 28)
    pure (parent, name)

  -- The loop up to the root; `names` holds what has been found, the lowest last. The array has 128
  -- places, and the round that needs one more leaves it, so that there are 129 rounds at most.
  unfoldable pub climb : (rounds cur : ℕ) → List Text → Cmd (List Text)
  climb zero cur names = λ s. (unfinished, s)
  climb (suc n) cur names = if cur == 1 then pure names else do
    (parent, name) ← parent_and_name cur
    in_bounds (ltb (length names) 128)
    climb n parent (name ∷ names)

  -- `build_path_from_inode` into a buffer of `bufsize` bytes
  unfoldable pub build_path_from_inode : (ino bufsize : ℕ) → Cmd Text
  build_path_from_inode ino bufsize = do
    found ← attempt (climb 129 ino [])
    pure (elim found [
      | none ↦ b'?' ∷ []
      | some names ↦ take (bufsize - 1) (b'/' ∷ join_names names)
    ])

-- ===== src/Fs/Format/Image.antt =====
-- oscdfs/src/mkfs.c after the metadata: the root directory, the users and their home directories. The
-- image file is open.
use ostd_final.Common.{ℕ, ◌+◌, ◌*◌, true, Option, none, some, List, [], ◌∷◌, ◌==◌}
use ostd_final.Common.Exec.{undefined, pure, failed, guard, get_state, attempt, ignore, ◌>>=◌, ◌>>◌}
use ostd_final.Common.Text.{Text}
use ostd_final.Common.Search.{first_where}
use ostd_final.Fs.Layout.{block_size}
use ostd_final.Fs.Bytes.{Block, store32}
use ostd_final.Fs.State.{Device, Cmd}
use ostd_final.Fs.Disk.{write_block}
use ostd_final.Fs.Inode.{Inode, read_inode, write_inode, inode_init}
use ostd_final.Fs.Bitmap.{alloc_inode, free_inode}
use ostd_final.Fs.Blocks.{inode_get_block}
use ostd_final.Fs.Blocks.Release.{inode_free_blocks}
use ostd_final.Fs.Files.{with_inode}
use ostd_final.Fs.Dir.{dir_init_root, dir_add_entry, empty_dir}
use ostd_final.Fs.Users.{
  user_table_init, read_user_table, write_user_table, has_uid, max_users, user_bytes, root_name,
  oscd_name, pyc_name, guest_name,
}
use ostd_final.Fs.Format.{format_metadata}

-- OSCDFS_DEFAULT_DIR_MODE
abbrev pub default_dir_mode : ℕ
default_dir_mode = 0o40755

abbrev pub home_name : Text
home_name = b'h' ∷ b'o' ∷ b'm' ∷ b'e' ∷ []

-- usernames, uids and gids
pub record Account : Type 0 where
  pub name : Text
  pub uid : ℕ
  pub gid : ℕ

abbrev pub accounts : List Account
accounts =
    record { name = root_name; uid = 0; gid = 0 }
    ∷ record { name = oscd_name; uid = 1000; gid = 1000 }
    ∷ record { name = pyc_name; uid = 1001; gid = 1000 }
    ∷ record { name = guest_name; uid = 2000; gid = 2000 }
    ∷ []

-- users[j].root_inode = user_ino, for the first user j with the uid
unfoldable pub set_home : (uid user_ino : ℕ) → Block → Block
set_home uid user_ino users = elim (first_where (has_uid uid users) max_users 0) [
  | none ↦ users
  | some j ↦ store32 users (user_bytes * j + 108) user_ino
]

-- a local variable that a failed call has not set
abbrev pub set_by : {A : Type 0} → Option A → Cmd A
set_by none = λ s. (undefined, s)
set_by (some a) = pure a

module _ ⦃dev : Device⦄ where
  -- what `create_dir` does once the directory has its block
  unfoldable pub link_dir : (parent_ino : ℕ) → Text → (dir_ino : ℕ) → Inode → Cmd ℕ
  link_dir parent_ino name dir_ino dir_node = do
    s ← get_state
    let ino : Inode = record dir_node { size = block_size; mtime = dev.time s.writes }
    ignore (write_inode dir_ino ino)
    added ← attempt (dir_add_entry parent_ino name dir_ino)
    elim added [
      | some u ↦ pure dir_ino
      | none ↦ do
        _ ← with_inode ino (inode_free_blocks dir_ino)
        ignore (free_inode dir_ino)
        failed
    ]

  unfoldable pub create_dir : (parent_ino : ℕ) → Text → (owner_uid owner_gid : ℕ) → Cmd ℕ
  create_dir parent_ino name owner_uid owner_gid = do
    dir_ino ← alloc_inode
    inode_init dir_ino default_dir_mode owner_uid owner_gid
    found ← attempt (read_inode dir_ino)
    dir_node ← set_by found
    found ← attempt (with_inode dir_node (inode_get_block 0 true))
    elim found [
      | none ↦ do ignore (free_inode dir_ino); failed
      | some (blk, dir_node) ↦ do
        written ← attempt (write_block blk (empty_dir dir_ino parent_ino))
        elim written [
          | none ↦ do ignore (free_inode dir_ino); failed
          | some u ↦ link_dir parent_ino name dir_ino dir_node
        ]
    ]

  -- the loop over the accounts
  unfoldable pub create_homes : (home_ino : ℕ) → List Account → Block → Cmd Block
  create_homes home_ino [] users = pure users
  create_homes home_ino (a ∷ more) users = do
    user_ino ← create_dir home_ino a.name a.uid a.gid
    create_homes home_ino more (set_home a.uid user_ino users)

  -- `mkfs_disk`, once the image is open; `beyond` is as in user_table_init
  unfoldable pub mkfs_disk : (beyond : Block) → Cmd (Unit {0})
  mkfs_disk beyond = do
    format_metadata
    root_ino ← alloc_inode
    guard (root_ino == 1)
    inode_init root_ino default_dir_mode 0 0
    dir_init_root root_ino
    user_table_init beyond
    home_ino ← create_dir 1 home_name 0 0
    found ← attempt read_user_table
    users ← set_by found
    users ← create_homes home_ino accounts users
    ignore (write_user_table users)

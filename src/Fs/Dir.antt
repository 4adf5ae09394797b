-- ===== src/Fs/Dir.antt =====
-- oscdfs/src/dir.c: directories. The blocks of a directory are arrays of 128 entries of 32 bytes, a
-- number and a name of 28 bytes; number 0 marks a free entry.
pub mod Entries
pub mod Flat
pub mod Found
pub mod Store
pub mod Change
pub mod Added
pub mod Removed
pub mod Kept
use ostd_final.Common.{
  ℕ, zero, suc, ◌+◌, ◌*◌, ◌^◌, ◌%◌, Bool, true, false, not, ◌&&◌, none, some, [], ◌∷◌, ◌==◌, take,
}
use ostd_final.Common.Exec.{unfinished, pure, failed, guard, get_state, attempt, ◌>>=◌, ◌>>◌}
use ostd_final.Common.Text.{Text, str_eq}
use ostd_final.Common.Search.{first_where}
use ostd_final.Fs.Layout.{block_size}
use ostd_final.Fs.Bytes.{Block, zero_block, load32, store32, put_bytes}
use ostd_final.Fs.Strings.{c_string, text_bytes}
use ostd_final.Fs.State.{Device, Cmd}
use ostd_final.Fs.Disk.{read_block, write_block}
use ostd_final.Fs.Inode.{Inode, read_inode, write_inode}
use ostd_final.Fs.Blocks.{InodeCmd, on_fs, return_int, inode_get_block}
use ostd_final.Fs.Access.{is_dir}
use ostd_final.Fs.Files.{with_inode}

-- OSCDFS_DIR_ENTRIES_PER_BLOCK
abbrev pub entries_per_block : ℕ
entries_per_block = 128

-- entries[i].inode_no
abbrev pub entry_inode_no : Block → ℕ → ℕ
entry_inode_no b i = load32 b (32 * i)

-- entries[i].name
abbrev pub entry_name : Block → ℕ → Text
entry_name b i = c_string b (32 * i + 4) 28

-- `entries[i].inode_no != 0 && strncmp(entries[i].name, name, 28) == 0`
unfoldable pub is_named : Text → Block → ℕ → Bool
is_named name b i = not (entry_inode_no b i == 0) && str_eq (entry_name b i) (take 28 name)

-- `entries[i].inode_no == 0`
unfoldable pub is_vacant : Block → ℕ → Bool
is_vacant b i = entry_inode_no b i == 0

-- entries[i] = { inode_no, name }, where the name is cut to 27 bytes and padded with zeros
unfoldable pub put_entry : Block → ℕ → Text → ℕ → Block
put_entry b i name inode_no =
    put_bytes (store32 b (32 * i) inode_no) (32 * i + 4) 28 (text_bytes (take 27 name))

-- the entries `.` and `..` of a new directory
abbrev pub dot : Text
dot = b'.' ∷ []

abbrev pub dot_dot : Text
dot_dot = b'.' ∷ b'.' ∷ []

unfoldable pub empty_dir : (self parent : ℕ) → Block
empty_dir self parent = put_entry (put_entry zero_block 0 dot self) 1 dot_dot parent

-- What the loop over the blocks of a directory ends with: no block at a logical number, a block that
-- cannot be read, or the first entry with a property, in a block whose content was read.
pub data Hit : Type 0 where
  missing : ℕ → Hit
  unreadable : Hit
  hit : (phys i : ℕ) → Block → Hit

-- The image has 2048 blocks.
abbrev pub dir_rounds : ℕ
dir_rounds = 2049

module _ ⦃dev : Device⦄ where
  unfoldable pub scan : (Block → ℕ → Bool) → (rounds l : ℕ) → InodeCmd Hit
  scan test zero l = λ s. (unfinished, s)
  scan test (suc n) l = do
    found ← attempt (inode_get_block l false)
    elim found [
      | none ↦ pure (missing l)
      | some phys ↦ do
        read ← attempt (on_fs (read_block phys))
        elim read [
          | none ↦ pure unreadable
          | some b ↦ elim (first_where (test b) entries_per_block 0) [
            | none ↦ scan test n (l + 1)
            | some i ↦ pure (hit phys i b)
          ]
        ]
    ]

  -- read_inode and the test for a directory, with which the three operations on entries begin
  unfoldable pub open_dir : ℕ → Cmd Inode
  open_dir dir_inode = do ino ← read_inode dir_inode; guard (is_dir ino); pure ino

  -- the end of the operations that change a directory: the block, then the inode
  unfoldable pub store_dir : (dir_inode : ℕ) → Inode → (target : ℕ) → Block → Cmd (Unit {0})
  store_dir dir_inode ino target b = do
    write_block target b
    s ← get_state
    write_inode dir_inode (record ino { mtime = dev.time s.writes })

  unfoldable pub dir_init_root : ℕ → Cmd (Unit {0})
  dir_init_root root_inode = do
    ino ← read_inode root_inode
    (blk, ino) ← with_inode ino (inode_get_block 0 true)
    store_dir root_inode (record ino { size = block_size }) blk (empty_dir root_inode root_inode)

  -- where the new entry goes: a free one, or the first of a new block
  unfoldable pub add_to : (dir_inode : ℕ) → Inode → Text → (inode_no : ℕ) → Hit → Cmd (Unit {0})
  add_to dir_inode ino name inode_no (missing l) = do
    (new_blk, ino) ← with_inode ino (inode_get_block l true)
    store_dir dir_inode (record ino { size = (ino.size + block_size) % 2 ^ 32 }) new_blk
        (put_entry zero_block 0 name inode_no)
  add_to dir_inode ino name inode_no unreadable = failed
  add_to dir_inode ino name inode_no (hit phys i b) =
      store_dir dir_inode ino phys (put_entry b i name inode_no)

  unfoldable pub dir_add_entry : (dir_inode : ℕ) → Text → (inode_no : ℕ) → Cmd (Unit {0})
  unfolding add_to
  dir_add_entry dir_inode name inode_no = do
    ino ← open_dir dir_inode
    (h, ino) ← with_inode ino (scan is_vacant dir_rounds 0)
    add_to dir_inode ino name inode_no h

  unfoldable pub number_of : Hit → Cmd ℕ
  number_of (missing l) = failed
  number_of unreadable = failed
  number_of (hit phys i b) = return_int (entry_inode_no b i)

  unfoldable pub dir_find_entry : (dir_inode : ℕ) → Text → Cmd ℕ
  unfolding number_of
  dir_find_entry dir_inode name = do
    ino ← open_dir dir_inode
    (h, ino) ← with_inode ino (scan (is_named name) dir_rounds 0)
    number_of h

  unfoldable pub clear_at : (dir_inode : ℕ) → Inode → Hit → Cmd (Unit {0})
  clear_at dir_inode ino (missing l) = failed
  clear_at dir_inode ino unreadable = failed
  clear_at dir_inode ino (hit phys i b) = store_dir dir_inode ino phys (put_entry b i [] 0)

  unfoldable pub dir_remove_entry : (dir_inode : ℕ) → Text → Cmd (Unit {0})
  unfolding clear_at
  dir_remove_entry dir_inode name = do
    ino ← open_dir dir_inode
    (h, ino) ← with_inode ino (scan (is_named name) dir_rounds 0)
    clear_at dir_inode ino h

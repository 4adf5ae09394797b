-- ===== src/Fs/State.antt =====
-- The state of an oscdfs process: the globals of oscdfs/src/state.c and the disk image that
-- oscdfs/src/disk.c holds open.
use ostd_final.Common.{ℕ, Bool, ◌+◌, ◌==◌, if◌then◌else◌}
use ostd_final.Common.Exec.{Exec}
use ostd_final.Common.Text.{Text}
use ostd_final.Fs.Bytes.{Block}

-- What the operating system answers. The first argument counts the block writes tried so far, so a
-- fault may begin or end at any of them. A write that fails has written the first `partial` bytes.
pub record Device : Type 0 where
  pub read_ok : ℕ → ℕ → Bool
  pub write_ok : ℕ → ℕ → Bool
  pub partial : ℕ → ℕ → ℕ
  pub time : ℕ → ℕ

-- struct oscdfs_fd
pub record FileDescriptor : Type 0 where
  pub inode_no : ℕ
  pub offset : ℕ
  pub mode : ℕ
  pub used : Bool

pub record Fs : Type 0 where
  pub opened : Bool
  pub disk : ℕ → Block
  pub writes : ℕ
  pub current_dir_inode : ℕ
  pub current_uid : ℕ
  pub current_gid : ℕ
  pub fd_table : ℕ → FileDescriptor
  pub cwd_path : Text

abbrev pub Cmd : Type 0 → Type 0
Cmd = Exec Fs

-- one block of the image replaced
abbrev pub put_block : (ℕ → Block) → ℕ → Block → ℕ → Block
put_block d n b m = if m == n then b else d m

abbrev pub store_block : Fs → ℕ → Block → Fs
store_block s n b = record s { disk = put_block s.disk n b; writes = s.writes + 1 }

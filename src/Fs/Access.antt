-- ===== src/Fs/Access.antt =====
-- oscdfs/src/permission.c, and the changes of mode and owner in oscdfs/src/file.c.
pub mod Roles
pub mod Owners
use ostd_final.Common.{ℕ, ◌-◌, ◌/◌, ◌^◌, bit_and, bit_or, Bool, not, ◌||◌, ◌==◌, if◌then◌else◌}
use ostd_final.Common.Exec.{◌>>=◌, ◌>>◌, guard, get_state}
use ostd_final.Fs.State.{Device, Cmd}
use ostd_final.Fs.Inode.{Inode, read_inode, write_inode}

-- OSCDFS_S_IFDIR
abbrev pub dir_flag : ℕ
dir_flag = 0o40000

abbrev pub r_ok : ℕ
r_ok = 4

abbrev pub w_ok : ℕ
w_ok = 2

abbrev pub x_ok : ℕ
x_ok = 1

-- the bits of the mode for the role that the caller has
unfoldable pub role_bits : (current_uid current_gid : ℕ) → Inode → ℕ
role_bits current_uid current_gid ino =
    if current_uid == ino.uid
    then bit_and (ino.mode / 2 ^ 6) 7
    else if current_gid == ino.gid
    then bit_and (ino.mode / 2 ^ 3) 7
    else bit_and ino.mode 7

-- `oscdfs_check_permission(inode, access_type) == 0`
unfoldable pub check_permission : (current_uid current_gid : ℕ) → Inode → ℕ → Bool
unfolding role_bits
check_permission current_uid current_gid ino access_type =
    current_uid == 0 || bit_and (role_bits current_uid current_gid ino) access_type == access_type

-- `inode.mode & OSCDFS_S_IFDIR`
unfoldable pub is_dir : Inode → Bool
is_dir ino = not (bit_and ino.mode dir_flag == 0)

-- (mode & 0170000) | (new_mode & 07777)
unfoldable pub chmod_mode : ℕ → ℕ → ℕ
chmod_mode mode new_mode = bit_or (bit_and mode 0o170000) (bit_and new_mode 0o7777)

-- (uint32_t)-1
abbrev pub no_inode : ℕ
no_inode = 2 ^ 32 - 1

module _ ⦃dev : Device⦄ where
  -- `oscdfs_chmod`, once the path has been resolved to an inode
  unfoldable pub chmod_inode : (n new_mode : ℕ) → Cmd (Unit {0})
  chmod_inode n new_mode = do
    ino ← read_inode n
    s ← get_state
    guard (s.current_uid == 0 || s.current_uid == ino.uid)
    write_inode n (record ino { mode = chmod_mode ino.mode new_mode; mtime = dev.time s.writes })

  -- `oscdfs_chown`, once the path has been resolved to an inode
  unfoldable pub chown_inode : (n new_uid new_gid : ℕ) → Cmd (Unit {0})
  chown_inode n new_uid new_gid = do
    ino ← read_inode n
    s ← get_state
    guard (s.current_uid == 0)
    write_inode n (record ino {
      uid = if new_uid == no_inode then ino.uid else new_uid;
      gid = if new_gid == no_inode then ino.gid else new_gid;
      mtime = dev.time s.writes;
    })

-- ===== src/Fs/Users.antt =====
-- oscdfs/src/user.c: the table of 16 users in block 8, login, and the mapping of Linux users. An
-- array of users is its bytes; strcmp reads a name or password without a NUL in its field on behind the
-- field, and a read behind the array is undefined.
pub mod Login
use ostd_final.Common.{
  ℕ, zero, suc, ◌-◌, true, false, if◌then◌else◌, ◌+◌, ◌*◌, Bool, not, ◌&&◌, Option, none, some, [],
  ◌∷◌, ◌==◌,
}
use ostd_final.Common.Exec.{
  Outcome, undefined, pure, failed, guard, get_state, put_state, attempt, exit_on_fail, ok, ◌>>=◌,
  ◌>>◌,
}
use ostd_final.Common.Text.{Text}
use ostd_final.Common.Search.{first_where}
use ostd_final.Fs.Bytes.{Block, zero_block, load32, load8, store32, put_bytes}
use ostd_final.Fs.Strings.{strcmp_at, text_bytes}
use ostd_final.Fs.State.{Device, Cmd}
use ostd_final.Fs.Disk.{read_block, write_block}
use ostd_final.Fs.Paths.{build_path_from_inode, max_cmd_len}

-- OSCDFS_MAX_USERS
abbrev pub max_users : ℕ
max_users = 16

-- sizeof(struct oscdfs_user), and of an array of 16
abbrev pub user_bytes : ℕ
user_bytes = 112

abbrev pub users_bytes : ℕ
users_bytes = 1792

-- the places of the fields of users[i]
abbrev pub username : ℕ → ℕ
username i = user_bytes * i

abbrev pub password : ℕ → ℕ
password i = user_bytes * i + 32

abbrev pub user_uid : Block → ℕ → ℕ
user_uid users i = load32 users (user_bytes * i + 96)

abbrev pub user_gid : Block → ℕ → ℕ
user_gid users i = load32 users (user_bytes * i + 100)

abbrev pub user_linux_uid : Block → ℕ → ℕ
user_linux_uid users i = load32 users (user_bytes * i + 104)

abbrev pub user_root_inode : Block → ℕ → ℕ
user_root_inode users i = load32 users (user_bytes * i + 108)

-- `users[i].username[0] != '\0'`
unfoldable pub is_user : Block → ℕ → Bool
is_user users i = not (load8 users (user_bytes * i) == 0)

-- `strcmp(users[i].username, name) == 0` for a user that the loop does not pass over
unfoldable pub has_username : Text → Block → ℕ → Option Bool
has_username name users i =
    if is_user users i
    then strcmp_at users (username i) (users_bytes - username i) name
    else some false

unfoldable pub has_password : Text → Block → ℕ → Option Bool
has_password secret users i = strcmp_at users (password i) (users_bytes - password i) secret

-- the loop of `oscdfs_login` up to the user of the name
unfoldable pub find_user : Text → Block → (n i : ℕ) → Outcome (Option ℕ)
find_user name users zero i = ok none
find_user name users (suc n) i =
    let rest = find_user name users n (i + 1) in
    elim (has_username name users i) [
      | none ↦ undefined
      | some found ↦ if found then ok (some i) else rest
    ]

unfoldable pub has_uid : ℕ → Block → ℕ → Bool
has_uid uid users i = user_uid users i == uid && is_user users i

unfoldable pub has_linux_uid : ℕ → Block → ℕ → Bool
has_linux_uid linux_uid users i = is_user users i && user_linux_uid users i == linux_uid

-- the assignments to one user of a zeroed array; name and password are the same text
unfoldable pub put_user : Block → (i : ℕ) → Text → (uid gid : ℕ) → Block
put_user users i name uid gid =
    let o = user_bytes * i in
    let b = put_bytes users o 32 (text_bytes name) in
    let b = put_bytes b (o + 32) 64 (text_bytes name) in
    let b = store32 b (o + 96) uid in
    let b = store32 b (o + 100) gid in let b = store32 b (o + 104) uid in store32 b (o + 108) 1

abbrev pub root_name : Text
root_name = b'r' ∷ b'o' ∷ b'o' ∷ b't' ∷ []

abbrev pub oscd_name : Text
oscd_name = b'o' ∷ b's' ∷ b'c' ∷ b'd' ∷ []

abbrev pub pyc_name : Text
pyc_name = b'p' ∷ b'y' ∷ b'c' ∷ []

abbrev pub guest_name : Text
guest_name = b'g' ∷ b'u' ∷ b'e' ∷ b's' ∷ b't' ∷ []

-- the array that `user_table_init` fills
unfoldable pub initial_users : Block
initial_users =
    let u = put_user zero_block 0 root_name 0 0 in
    let u = put_user u 1 oscd_name 1000 1000 in
    let u = put_user u 2 pyc_name 1001 1000 in put_user u 3 guest_name 2000 2000

module _ ⦃dev : Device⦄ where
  -- write_block takes 4096 bytes of an array of 1792; what lies behind it on the stack is `beyond`
  unfoldable pub user_table_init : (beyond : Block) → Cmd (Unit {0})
  user_table_init beyond s =
      exit_on_fail (write_block 8 (put_bytes beyond 0 users_bytes initial_users) s)

  unfoldable pub read_user_table : Cmd Block
  read_user_table = read_block 8

  unfoldable pub write_user_table : Block → Cmd (Unit {0})
  write_user_table users = write_block 8 (put_bytes zero_block 0 users_bytes users)

  -- `oscdfs_login` for a user that has the password
  unfoldable pub become_user : Block → (i : ℕ) → Cmd (Unit {0})
  become_user users i = do
    s ← get_state
    put_state (record s {
      current_uid = user_uid users i;
      current_gid = user_gid users i;
      current_dir_inode = user_root_inode users i;
    })
    path ← build_path_from_inode (user_root_inode users i) max_cmd_len
    s ← get_state
    put_state (record s { cwd_path = path })

  -- what follows the search for the name
  unfoldable pub log_in : Block → Text → Option ℕ → Cmd (Unit {0})
  log_in users secret none = failed
  log_in users secret (some i) = elim (has_password secret users i) [
    | none ↦ λ s. (undefined, s)
    | some same ↦ do guard same; become_user users i
  ]

  -- `oscdfs_login`
  unfoldable pub login : (name secret : Text) → Cmd (Unit {0})
  unfolding log_in
  login name secret = do
    users ← read_user_table
    found ← λ s. (find_user name users max_users 0, s)
    log_in users secret found

  unfoldable pub home_in : (uid : ℕ) → Option Block → ℕ
  home_in uid none = 1
  home_in uid (some users) = elim (first_where (has_uid uid users) max_users 0) [
    | none ↦ 1
    | some i ↦ user_root_inode users i
  ]

  unfoldable pub get_user_home_inode : Cmd ℕ
  unfolding home_in
  get_user_home_inode = do
    s ← get_state
    found ← attempt read_user_table
    pure (home_in s.current_uid found)

  abbrev pub become : (uid gid : ℕ) → Cmd (Unit {0})
  become uid gid s = (ok tt, record s { current_uid = uid; current_gid = gid })

  -- `oscdfs_map_linux_uid_to_sim_uid`: guest for an unknown user, root where the table is unreadable
  unfoldable pub map_linux_uid : ℕ → Cmd (Unit {0})
  map_linux_uid linux_uid = do
    found ← attempt read_user_table
    elim found [
      | none ↦ become 0 0
      | some users ↦ elim (first_where (has_linux_uid linux_uid users) max_users 0) [
        | none ↦ become 2000 2000
        | some i ↦ become (user_uid users i) (user_gid users i)
      ]
    ]

  -- `oscdfs_set_user_from_fuse_context`, with the uid of the context, if there is one
  unfoldable pub set_user_from_fuse_context : Option ℕ → Cmd (Unit {0})
  set_user_from_fuse_context none = become 0 0
  set_user_from_fuse_context (some uid) = map_linux_uid uid

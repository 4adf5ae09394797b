-- ===== src/Fs/Users/Login.antt =====
-- `oscdfs_login` of oscdfs/src/user.c.
use ostd_final.Common.{
  ℕ, zero, suc, ◌+◌, ◌-◌, ◌≤◌, ◌==◌, ◌&&◌, ◌∷◌, if◌then◌else◌, ◌<◌, ◌≡◌, ◌≢◌, refl, sym, ap, ◌∙◌,
  Bool, true, false, inl, inr, Option, none, some, [], arith, Bool-cases, Option-cases,
}
use ostd_final.Common.Exec.{
  Outcome, ok, fail, exited, undefined, unfinished, and_then, outcome_of, pure,
}
use ostd_final.Common.Text.{Text, str_eq}
use ostd_final.Common.Search.{first_where, first_where-some, first_where-at}
use ostd_final.Fs.Strings.{c_string, strcmp_at}
use ostd_final.Fs.Dir.Entries.{IsText}
use ostd_final.Fs.Bytes.{Block, load8}
use ostd_final.Fs.State.{Device, Fs, Cmd}
use ostd_final.Fs.Disk.{read_block}
use ostd_final.Fs.Paths.{climb, build_path_from_inode, max_cmd_len}
use ostd_final.Fs.Paths.Still.{searches_still}
use ostd_final.Fs.Users.{
  username, password, is_user, has_username, has_password, find_user, become_user, users_bytes,
  user_uid, user_gid, user_root_inode, max_users, read_user_table, log_in, login,
}

-- the array of bytes at o has a NUL
abbrev HasNul : Block → (o n : ℕ) → Type 0
HasNul b o n = (k : ℕ) × (k < n) × (load8 b (o + k) ≡ 0)

-- every name and password of the table ends in its field
pub record IsTerminated (users : Block) : Type 0 where
  pub names : (i : ℕ) → i < max_users → HasNul users (username i) 32
  pub passwords : (i : ℕ) → i < max_users → HasNul users (password i) 64

-- user i exists and has the name
abbrev pub named : Text → Block → ℕ → Bool
named name users i = is_user users i && str_eq (c_string users (username i) 32) name

abbrev pub password_of : Block → ℕ → Text
password_of users i = c_string users (password i) 64

-- User i is the first of the table with the name, and has the password.
pub record Credentials (users : Block) (name secret : Text) (i : ℕ) : Type 0 where
  pub in_range : i < max_users
  pub is_named : named name users i ≡ true
  pub first : (j : ℕ) → j < i → named name users j ≡ false
  pub matches : str_eq (password_of users i) secret ≡ true

-- strcmp of a text that ends in its field
strcmp_at-c_string :
    (n room : ℕ) (b : Block) (o : ℕ) (t : Text)
    → n ≤ room
    → IsText t
    → HasNul b o n
    → strcmp_at b o room t ≡ some (str_eq (c_string b o n) t)
unfolding strcmp_at c_string str_eq
strcmp_at-c_string zero room b o t h text (k, low, nul) = absurd (omega arith)
strcmp_at-c_string (suc n) zero b o t h text nul = absurd (omega arith)
strcmp_at-c_string (suc n) (suc room) b o [] h text nul = elim (Bool-cases (load8 b o == 0)) [
  | inl ends ↦ rw ends refl
  | inr more ↦ rw more refl
]
strcmp_at-c_string (suc n) (suc room) b o (c ∷ t) h (positive, small, text) (k, low, nul) =
    elim (Bool-cases (load8 b o == 0)) [
      | inl ends ↦ let differ : (load8 b o == c) ≡ false = ground arith in rw (ends, differ) refl
      | inr more ↦
          rw (more, strcmp_at-c_string n room b (o + 1) t (omega arith) text (later k low nul more))
            (joined (load8 b o == c) (str_eq (c_string b (o + 1) n) t))
    ]
  where
    later :
        (k : ℕ) → k < suc n → load8 b (o + k) ≡ 0 → (load8 b o == 0) ≡ false → HasNul b (o + 1) n
    later zero low nul more =
        let e : o + 0 ≡ o = omega arith in
        let here : load8 b o ≡ 0 = ap (load8 b) (sym e) ∙ nul in absurd (ground arith)
    later (suc k) low nul more = (k, omega arith, ap (load8 b) (omega arith) ∙ nul)

    joined : (p q : Bool) → (if p then some q else some false) ≡ some (p && q)
    joined true q = refl
    joined false q = refl

module _ (users : Block) (ends : IsTerminated users) where
  has_username-named :
      (name : Text) (i : ℕ)
      → IsText name
      → i < max_users
      → has_username name users i ≡ some (named name users i)
  unfolding has_username
  has_username-named name i text h = elim (Bool-cases (is_user users i)) [
    | inl user ↦
        rw (user, has_username)
          (strcmp_at-c_string 32 (users_bytes - username i) users (username i) name (omega arith)
            text (ends.names i h))
    | inr other ↦ rw other refl
  ]

  has_password-password_of :
      (secret : Text) (i : ℕ)
      → IsText secret
      → i < max_users
      → has_password secret users i ≡ some (str_eq (password_of users i) secret)
  unfolding has_password
  has_password-password_of secret i text h =
      strcmp_at-c_string 64 (users_bytes - password i) users (password i) secret (omega arith) text
        (ends.passwords i h)

  -- the search does not leave the array
  find_user-first_where :
      (name : Text) (n i : ℕ)
      → IsText name
      → i + n ≤ max_users
      → find_user name users n i ≡ ok (first_where (λ j. named name users j) n i)
  unfolding find_user first_where
  find_user-first_where name zero i text h = refl
  find_user-first_where name (suc n) i text h =
      let rest = find_user-first_where name n (i + 1) text (omega arith) in
      let here = has_username-named name i text (omega arith) in
      elim (Bool-cases (named name users i)) [
        | inl same ↦ rw (find_user, here, same) refl
        | inr other ↦ rw (find_user, here, other, rest) refl
      ]

-- The process runs as user i, and nothing but the globals of the user has changed.
pub record RunsAs (i : ℕ) (s s' : Fs) : Type 0 where
  pub uid : s'.current_uid ≡ user_uid (s.disk 8) i
  pub gid : s'.current_gid ≡ user_gid (s.disk 8) i
  pub home : s'.current_dir_inode ≡ user_root_inode (s.disk 8) i
  pub disk : s'.disk ≡ s.disk
  pub table : s'.fd_table ≡ s.fd_table

-- No user was found, or one with another password.
abbrev RefusedBy : Block → Text → Option ℕ → Type 0
RefusedBy users secret none = Unit {0}
RefusedBy users secret (some i) = has_password secret users i ≡ some false

abbrev as_user : (i : ℕ) → Fs → Fs
as_user i s = record s {
  current_uid = user_uid (s.disk 8) i;
  current_gid = user_gid (s.disk 8) i;
  current_dir_inode = user_root_inode (s.disk 8) i;
}

abbrev set_path : Text → Cmd (Unit {0})
set_path path s = (ok tt, record s { cwd_path = path })

stopped_RunsAs : (i : ℕ) (s t : Fs) → t ≡ as_user i s → RunsAs i s t
stopped_RunsAs i s t e = record {
  uid = ap (λ t. t.current_uid) e;
  gid = ap (λ t. t.current_gid) e;
  home = ap (λ t. t.current_dir_inode) e;
  disk = ap (λ t. t.disk) e;
  table = ap (λ t. t.fd_table) e;
}

-- The end of the call, whatever became of the path.
path_RunsAs :
    (i : ℕ) (s : Fs) (r : Outcome Text × Fs)
    → r.1 ≡ as_user i s
    → r.0 ≢ fail
    → ((and_then r set_path).0 ≢ fail) × RunsAs i s (and_then r set_path).1
path_RunsAs i s (ok path, t) e f = (
  λ h. cc,
  record {
    uid = ap (λ t. t.current_uid) e;
    gid = ap (λ t. t.current_gid) e;
    home = ap (λ t. t.current_dir_inode) e;
    disk = ap (λ t. t.disk) e;
    table = ap (λ t. t.fd_table) e;
  },
)
path_RunsAs i s (fail, t) e f = absurd (f refl)
path_RunsAs i s (exited, t) e f = (λ h. cc, stopped_RunsAs i s t e)
path_RunsAs i s (undefined, t) e f = (λ h. cc, stopped_RunsAs i s t e)
path_RunsAs i s (unfinished, t) e f = (λ h. cc, stopped_RunsAs i s t e)

module _ ⦃dev : Device⦄ where
  attempt_ends :
      {A B : Type 0} (r : Outcome A × Fs) (f : Option A → B)
      → (and_then (outcome_of r) (λ found. pure (f found))).0 ≢ fail
  attempt_ends (ok a, t) f e = cc
  attempt_ends (fail, t) f e = cc
  attempt_ends (exited, t) f e = cc
  attempt_ends (undefined, t) f e = cc
  attempt_ends (unfinished, t) f e = cc

  build_ends : (ino bufsize : ℕ) (s : Fs) → (build_path_from_inode ino bufsize s).0 ≢ fail
  unfolding build_path_from_inode
  build_ends ino bufsize s = attempt_ends (climb 129 ino [] s) _

  become_user-RunsAs :
      (s : Fs) (i : ℕ)
      → ((become_user (s.disk 8) i s).0 ≢ fail) × RunsAs i s (become_user (s.disk 8) i s).1
  unfolding become_user
  become_user-RunsAs s i =
      let home = user_root_inode (s.disk 8) i in
      let (_, _, still, _) = searches_still home 0 [] (as_user i s) in
      path_RunsAs i s (build_path_from_inode home max_cmd_len (as_user i s)) (still max_cmd_len)
        (build_ends home max_cmd_len (as_user i s))

  log_in-right :
      (secret : Text) (s : Fs) (i : ℕ)
      → has_password secret (s.disk 8) i ≡ some true
      → ((log_in (s.disk 8) secret (some i) s).0 ≢ fail)
        × RunsAs i s (log_in (s.disk 8) secret (some i) s).1
  unfolding log_in
  log_in-right secret s i same = rw (log_in, same) (become_user-RunsAs s i)

  table_read :
      (s : Fs)
      → s.opened ≡ true
      → dev.read_ok s.writes 8 ≡ true
      → read_user_table s ≡ (ok (s.disk 8), s)
  unfolding read_user_table read_block
  table_read s o r = ground arith

  log_in-wrong :
      (users : Block) (secret : Text) (o : Option ℕ) (s : Fs)
      → RefusedBy users secret o
      → log_in users secret o s ≡ (fail, s)
  unfolding log_in
  log_in-wrong users secret none s e = refl
  log_in-wrong users secret (some i) s e = rw (log_in, e) refl

  -- Where the user table can be read, and its names and passwords end in their fields, `oscdfs_login` does
  -- not fail for the first user of the name with that user's password, and makes the process run as that
  -- user, in that user's directory, without a change of the disk or the descriptors; with any other name
  -- and password it fails, and changes nothing.
  pub login_lem :
      (name secret : Text) (s : Fs)
      → IsText name
      → IsText secret
      → IsTerminated (s.disk 8)
      → s.opened ≡ true
      → dev.read_ok s.writes 8 ≡ true
      → ((i : ℕ)
          → Credentials (s.disk 8) name secret i
          → ((login name secret s).0 ≢ fail) × RunsAs i s (login name secret s).1)
        × (((i : ℕ) → ¬ Credentials (s.disk 8) name secret i) → login name secret s ≡ (fail, s))
  unfolding login
  login_lem name secret s plain_name plain_secret ends o r =
      let has : ℕ → Bool = λ j. named name (s.disk 8) j in
      let checked : (i : ℕ)
          → i < max_users
          → has_password secret (s.disk 8) i ≡ some (str_eq (password_of (s.disk 8) i) secret) =
        λ i h. has_password-password_of (s.disk 8) ends secret i plain_secret h in
      rw
        (
          table_read s o r,
          find_user-first_where (s.disk 8) ends name max_users 0 plain_name (omega arith),
        )
        (
          λ i c.
              rw
                (first_where-at has max_users 0 i c.is_named (omega arith)
                  (omega (arith, c.in_range)) (λ j p q. c.first j q))
                (log_in-right secret s i (checked i c.in_range ∙ ap some c.matches)),
          λ wrong. elim (Option-cases (first_where has max_users 0)) [
            | inl e ↦ rw e (log_in-wrong (s.disk 8) secret none s tt)
            | inr (i, e) ↦
                let (is_named, _, high, below) = first_where-some has max_users 0 e in
                rw e (
                  log_in-wrong (s.disk 8) secret (some i) s
                    (elim (Bool-cases (str_eq (password_of (s.disk 8) i) secret)) [
                      | inl right ↦ absurd (
                          wrong i (record {
                            in_range = omega arith;
                            is_named = is_named;
                            first = λ j p. below j (omega arith) p;
                            matches = right;
                          }))
                      | inr differs ↦ checked i (omega arith) ∙ ap some differs
                    ]))
          ],
        )

-- ===== src/Fs/Commands/Places.antt =====
-- `cd`, `dir` and `pwd` of oscdfs/src/builtin.c.
use ostd_final.Common.{
  ℕ, zero, suc, ◌+◌, ◌≡◌, ◌≢◌, refl, ap, sym, ◌⊎◌, inl, inr, true, false, none, some, List, [], ◌∷◌,
  ◌==◌, Bool-cases,
}
use mathlib.Core.Path.{subst}
use ostd_final.Common.Exec.{
  Outcome, ok, fail, exited, undefined, unfinished, pure, and_then, outcome_of, attempt,
}
use ostd_final.Common.Text.{Text}
use ostd_final.Fs.Bytes.{Block}
use ostd_final.Fs.State.{Device, Fs, Cmd}
use ostd_final.Fs.Disk.{read_block, read_block_cases}
use ostd_final.Fs.Inode.{Inode, read_inode}
use ostd_final.Fs.Blocks.{on_fs, inode_get_block}
use ostd_final.Fs.Blocks.Lookup.{lookup_still}
use ostd_final.Fs.Access.{is_dir}
use ostd_final.Fs.Files.{with_inode}
use ostd_final.Fs.Dir.{dir_rounds, entries_per_block, entry_inode_no}
use ostd_final.Fs.Paths.{max_cmd_len, find_inode_by_path, build_path_from_inode}
use ostd_final.Fs.Paths.Still.{
  bind_still, attempt_still, keep_inode-still, option_still, read_inode-still, read_block-still,
  find_inode_by_path-still, build_path-still,
}
use ostd_final.Fs.Users.{get_user_home_inode, home_in, read_user_table}
use ostd_final.Fs.Commands.{
  Reply, failure, done, entry_rows, block_rows, in_directory, list_dir, builtin_dir, change_to,
  builtin_cd,
}

-- A search that leaves the state as it was, and what the command does with the result. What holds of
-- every failure in that state, and of the command for every result, holds of the whole.
attempt_then :
    {A : Type 0} (P : Outcome Reply × Fs → Type 0) (r : Outcome A × Fs) (body : A → Cmd Reply)
    (s : Fs)
    → r.1 ≡ s
    → ((o : Outcome Reply) → o ≢ ok done → P (o, s))
    → ((a : A) → r ≡ (ok a, s) → P (body a s))
    → P (
        and_then
          (outcome_of r)
          (λ found. elim found as (λ _. Cmd Reply) [ none ↦ pure failure | some a ↦ body a ]))
attempt_then P (ok a, t) body s e h k =
    subst (λ u. P (body a u)) (sym e) (k a (ap (λ u. (ok a, u)) e))
attempt_then P (fail, t) body s e h k = subst (λ u. P (ok failure, u)) (sym e) (h (ok failure) (cc))
attempt_then P (exited, t) body s e h k = subst (λ u. P (exited, u)) (sym e) (h exited (cc))
attempt_then P (undefined, t) body s e h k =
    subst (λ u. P (undefined, u)) (sym e) (h undefined (cc))
attempt_then P (unfinished, t) body s e h k =
    subst (λ u. P (unfinished, u)) (sym e) (h unfinished (cc))

module _ ⦃dev : Device⦄ where
  entry_rows-still : (b : Block) (n i : ℕ) (s : Fs) → (entry_rows b n i s).1 ≡ s
  unfolding entry_rows
  entry_rows-still b zero i s = refl
  entry_rows-still b (suc n) i s = elim (Bool-cases (entry_inode_no b i == 0)) [
    | inl free ↦ rw free (entry_rows-still b n (i + 1) s)
    | inr used ↦ rw used (
        bind_still (attempt (read_inode (entry_inode_no b i)) s) _ s
          (attempt_still (read_inode (entry_inode_no b i) s) s (read_inode-still _ s))
          (λ found. option_still found _ _ s refl (λ ino.
            bind_still (entry_rows b n (i + 1) s) _ s (entry_rows-still b n (i + 1) s)
              (λ rows. refl))))
  ]

  on_fs-still :
      {A : Type 0} (m : Cmd A) (ino : Inode) (s : Fs)
      → (m s).1 ≡ s
      → (on_fs m (ino, s)).1 ≡ (ino, s)
  on_fs-still m ino s e = ap (λ t. (ino, t)) e

  block_rows-still : (n l : ℕ) (ino : Inode) (s : Fs) → (block_rows n l (ino, s)).1 ≡ (ino, s)
  unfolding block_rows
  block_rows-still zero l ino s = refl
  block_rows-still (suc n) l ino s =
      bind_still (attempt (inode_get_block l false) (ino, s)) _ (ino, s)
        (attempt_still (inode_get_block l false (ino, s)) (ino, s) (lookup_still ino s l))
        (λ found.
          option_still found _ _ (ino, s) refl
            (λ phys.
              bind_still (attempt (on_fs (read_block phys)) (ino, s)) _ (ino, s)
                (attempt_still (on_fs (read_block phys) (ino, s)) (ino, s)
                  (read_block-still phys ino s))
                (λ read.
                  option_still read _ _ (ino, s) refl
                    (λ b.
                      bind_still (on_fs (entry_rows b entries_per_block 0) (ino, s)) _ (ino, s)
                        (on_fs-still (entry_rows b entries_per_block 0) ino s
                          (entry_rows-still b entries_per_block 0 s))
                        (λ rows.
                          option_still rows _ _ (ino, s) refl
                            (λ rows.
                              bind_still (block_rows n (l + 1) (ino, s)) _ (ino, s)
                                (block_rows-still n (l + 1) ino s) (λ more. refl)))))))

  list_dir-still : (ino : Inode) (s : Fs) → (list_dir ino s).1 ≡ s
  unfolding list_dir
  list_dir-still ino s =
      bind_still (with_inode ino (block_rows dir_rounds 0) s) _ s
        (keep_inode-still (block_rows dir_rounds 0 (ino, s)) ino s
          (block_rows-still dir_rounds 0 ino s))
        (λ rows. refl)

  in_directory-then :
      (P : Outcome Reply × Fs → Type 0) (n : ℕ) (body : Inode → Cmd Reply) (s : Fs)
      → ((o : Outcome Reply) → o ≢ ok done → P (o, s))
      → ((ino : Inode) → read_inode n s ≡ (ok ino, s) → is_dir ino ≡ true → P (body ino s))
      → P (in_directory n body s)
  unfolding in_directory
  in_directory-then P n body s h k =
      attempt_then P (read_inode n s) _ s (read_inode-still n s) h (λ ino e.
        elim (Bool-cases (is_dir ino)) [
          | inl directory ↦ rw directory (k ino e directory)
          | inr other ↦ rw other (h (ok failure) (cc))
        ])

  abbrev pub at_dir : ℕ → Fs → Fs
  at_dir n s = record s { current_dir_inode = n }

  -- What `cd` may end with: no success, and the state as it was; or a directory that can be read, which
  -- is the current one then. Either its path is `cwd_path` then and the result is a success, or the
  -- path could not be built, and the command does not return.
  abbrev pub Settled : Fs → Outcome Reply × Fs → Type 0
  Settled s r =
      ((r.0 ≢ ok done) × (r.1 ≡ s))
      ⊎ ((n : ℕ) × (ino : Inode) × (read_inode n s ≡ (ok ino, s))
          × (is_dir ino ≡ true)
          × (((path : Text) × ((build_path_from_inode n max_cmd_len (at_dir n s)).0 ≡ ok path)
                × (r ≡ (ok done, record (at_dir n s) { cwd_path = path })))
              ⊎ (((reply : Reply) → r.0 ≢ ok reply) × (r.1 ≡ at_dir n s))))

  change_to-Settled :
      (n : ℕ) (ino : Inode) (s : Fs)
      → read_inode n s ≡ (ok ino, s)
      → is_dir ino ≡ true
      → Settled s (change_to n ino s)
  unfolding change_to
  change_to-Settled n ino s e directory = inr (
    n,
    ino,
    e,
    directory,
    go (build_path_from_inode n max_cmd_len (at_dir n s)) refl
        (build_path-still n max_cmd_len (at_dir n s)),
  )
    where
      go :
          (r : Outcome Text × Fs)
          → r ≡ build_path_from_inode n max_cmd_len (at_dir n s)
          → r.1 ≡ at_dir n s
          → ((path : Text) × ((build_path_from_inode n max_cmd_len (at_dir n s)).0 ≡ ok path)
              × (and_then r (λ path s. (ok done, record s { cwd_path = path }))
                  ≡ (ok done, record (at_dir n s) { cwd_path = path })))
            ⊎ (((reply : Reply)
                  → (and_then r (λ path s. (ok done, record s { cwd_path = path }))).0 ≢ ok reply)
                × ((and_then r (λ path s. (ok done, record s { cwd_path = path }))).1 ≡ at_dir n s))
      go (ok path, t) whole e =
          inl (path, sym (ap (λ u. u.0) whole), ap (λ u. (ok done, record u { cwd_path = path })) e)
      go (fail, t) whole e = inr (λ reply. cc, e)
      go (exited, t) whole e = inr (λ reply. cc, e)
      go (undefined, t) whole e = inr (λ reply. cc, e)
      go (unfinished, t) whole e = inr (λ reply. cc, e)

  home_found : (s : Fs) → (n : ℕ) × (get_user_home_inode s ≡ (ok n, s))
  unfolding get_user_home_inode read_user_table
  home_found s = elim (read_block_cases 8 s) [
    | inl e ↦ (home_in s.current_uid none, rw e refl)
    | inr e ↦ (home_in s.current_uid (some (s.disk 8)), rw e refl)
  ]

  cd_at : (n : ℕ) (s : Fs) → Settled s (in_directory n (change_to n) s)
  cd_at n s =
      in_directory-then (Settled s) n (change_to n) s (λ o h. inl (h, refl))
        (λ ino e directory. change_to-Settled n ino s e directory)

  cd-Settled : (args : List Text) (s : Fs) → Settled s (builtin_cd args s)
  unfolding builtin_cd
  cd-Settled [] s =
      let (n, e) = home_found s in
      subst (λ r. Settled s (and_then r (λ n. in_directory n (change_to n)))) (sym e) (cd_at n s)
  cd-Settled (path ∷ args) s =
      attempt_then (Settled s) (find_inode_by_path path s.current_dir_inode s) _ s
        (find_inode_by_path-still path s.current_dir_inode s) (λ o h. inl (h, refl))
        (λ n e. cd_at n s)

  dir_still : (args : List Text) (s : Fs) → (builtin_dir args s).1 ≡ s
  unfolding builtin_dir
  dir_still [] s =
      in_directory-then (λ r. r.1 ≡ s) s.current_dir_inode list_dir s (λ o h. refl)
        (λ ino e directory. list_dir-still ino s)
  dir_still (path ∷ args) s =
      attempt_then (λ r. r.1 ≡ s) (find_inode_by_path path s.current_dir_inode s) _ s
        (find_inode_by_path-still path s.current_dir_inode s) (λ o h. refl)
        (λ n e.
          in_directory-then (λ r. r.1 ≡ s) n list_dir s (λ o h. refl)
            (λ ino e directory. list_dir-still ino s))

  -- `cd` either does not succeed and leaves the state as it was, or makes a directory that can be read
  -- the current one and keeps its path for `pwd`; only where that path cannot be built it does not
  -- return. `dir` leaves the state as it was.
  pub cd-dir_lem :
      (args : List Text) (s : Fs) → Settled s (builtin_cd args s) × ((builtin_dir args s).1 ≡ s)
  cd-dir_lem args s = (cd-Settled args s, dir_still args s)

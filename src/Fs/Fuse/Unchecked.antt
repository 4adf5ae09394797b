-- ===== src/Fs/Fuse/Unchecked.antt =====
-- The permission tests of `fuse_chmod` and `fuse_open` in oscdfs/src/fuse.c.
use ostd_final.Common.{ℕ, ◌≡◌, refl, Bool, true, false, not, Option, arith, ◌||◌, ◌==◌}
use ostd_final.Common.Exec.{
  Outcome, ok, fail, exited, undefined, unfinished, and_then, outcome_of, pure,
}
use ostd_final.Common.Bits.{bit_and_zero}
use ostd_final.Common.Text.{Text}
use ostd_final.Fs.State.{Device, Fs}
use ostd_final.Fs.Inode.{Inode, read_inode, write_inode}
use ostd_final.Fs.Access.{check_permission, role_bits, is_dir}
use ostd_final.Fs.Paths.{find_inode_by_path}
use ostd_final.Fs.Users.{set_user_from_fuse_context}
use ostd_final.Fs.Answer.{
  Answer, done, errno, FuseError, enoent, eio, eacces, eexist, enotdir, eisdir, einval, enospc,
  enotempty, return, or_errno, Fuse, continue, check,
}
use ostd_final.Fs.Fuse.{lookup, fuse_open, fuse_chmod, access_of}

-- the answer EACCES
abbrev is_eacces : FuseError → Bool
is_eacces eacces = true
is_eacces enoent = false
is_eacces eio = false
is_eacces eexist = false
is_eacces enotdir = false
is_eacces eisdir = false
is_eacces einval = false
is_eacces enospc = false
is_eacces enotempty = false

abbrev pub denies : {A : Type 0} → Outcome (Answer A) → Bool
denies (ok (done a)) = false
denies (ok (errno e)) = is_eacces e
denies fail = false
denies exited = false
denies undefined = false
denies unfinished = false

bind_grants :
    {A B : Type 0} (r : Outcome (Answer A) × Fs) (f : A → Fuse B)
    → denies r.0 ≡ false
    → ((a : A) (s : Fs) → denies (f a s).0 ≡ false)
    → denies (and_then r (continue f)).0 ≡ false
bind_grants (ok (done a), s) f e g = g a s
bind_grants (ok (errno x), s) f e g = e
bind_grants (fail, s) f e g = refl
bind_grants (exited, s) f e g = refl
bind_grants (undefined, s) f e g = refl
bind_grants (unfinished, s) f e g = refl

error_grants :
    {A : Type 0} (r : Outcome A × Fs) (e : FuseError)
    → is_eacces e ≡ false
    → denies (and_then (outcome_of r) (λ found. pure (or_errno e found))).0 ≡ false
error_grants (ok a, s) e h = refl
error_grants (fail, s) e h = h
error_grants (exited, s) e h = refl
error_grants (undefined, s) e h = refl
error_grants (unfinished, s) e h = refl

run_grants : {A : Type 0} (r : Outcome A × Fs) → denies (and_then r return).0 ≡ false
run_grants (ok a, s) = refl
run_grants (fail, s) = refl
run_grants (exited, s) = refl
run_grants (undefined, s) = refl
run_grants (unfinished, s) = refl

check_grants :
    (e : FuseError) (test : Bool) (s : Fs) → is_eacces e ≡ false → denies (check e test s).0 ≡ false
check_grants e true s h = refl
check_grants e false s h = h

check_passed :
    (e : FuseError) (test : Bool) (s : Fs) → test ≡ true → denies (check e test s).0 ≡ false
check_passed e true s h = refl
check_passed e false s h = cc

-- A request for no access passes, whoever asks.
no_access : (uid gid : ℕ) (ino : Inode) → check_permission uid gid ino 0 ≡ true
unfolding check_permission
no_access uid gid ino =
    let bits = role_bits uid gid ino in ground (arith, bit_and_zero bits bits (omega arith))

module _ ⦃dev : Device⦄ (user : Option ℕ) where
  lookup_grants : (path : Text) (s : Fs) → denies (lookup user path s).0 ≡ false
  unfolding lookup
  lookup_grants path s =
      bind_grants _ _ (run_grants (set_user_from_fuse_context user s))
        (λ u t. error_grants (find_inode_by_path path 1 t) enoent refl)

  -- `fuse_chmod`, for any user, and `fuse_open` with the flags O_RDONLY, which are 0, never answer
  -- EACCES, whatever the mode and the owner of the file.
  pub chmod-open-grants :
      (path : Text) (mode : ℕ) (s : Fs)
      → (denies (fuse_chmod user path mode s).0 ≡ false)
        × (denies (fuse_open user path 0 s).0 ≡ false)
  unfolding fuse_chmod fuse_open access_of
  chmod-open-grants path mode s = (
    bind_grants _ _ (lookup_grants path s) (λ n t.
        bind_grants _ _ (error_grants (read_inode n t) eio refl) (λ ino t.
          bind_grants
            (check eacces
              (check_permission t.current_uid t.current_gid ino 0
                || t.current_uid == 0
                || t.current_uid == ino.uid)
              t)
            _ (check_passed eacces _ t (ground (arith, no_access t.current_uid t.current_gid ino)))
            (λ u t. error_grants (write_inode n _ t) eio refl))),
    bind_grants _ _ (lookup_grants path s) (λ n t.
        bind_grants _ _ (error_grants (read_inode n t) eio refl) (λ ino t.
          bind_grants _ _ (check_grants eisdir (not (is_dir ino)) t refl) (λ u t.
            bind_grants
              (check eacces (check_permission t.current_uid t.current_gid ino (access_of 0)) t) _
              (check_passed eacces _ t (no_access t.current_uid t.current_gid ino))
              (λ u t. refl)))),
  )

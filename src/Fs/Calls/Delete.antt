-- ===== src/Fs/Calls/Delete.antt =====
-- `oscdfs_delete` of oscdfs/src/file.c, for a file that a descriptor is open on.
use ostd_final.Common.{
  ℕ, ◌<◌, ◌≡◌, ◌≢◌, refl, sym, ap, ◌∙◌, Bool, true, false, not, inl, inr, some, arith, Option-cases,
}
use mathlib.Core.Path.{subst}
use ostd_final.Common.Exec.{Outcome, ok, fail, exited, undefined, unfinished, Exec, and_then, guard}
use ostd_final.Common.Text.{Text}
use ostd_final.Common.Search.{first_where, first_where-none}
use ostd_final.Fs.State.{Device, Fs}
use ostd_final.Fs.Inode.{read_inode}
use ostd_final.Fs.Access.{is_dir}
use ostd_final.Fs.Files.{max_open_files}
use ostd_final.Fs.Dir.{dir_find_entry}
use ostd_final.Fs.Paths.{find_inode_by_path}
use ostd_final.Fs.Paths.Still.{bind_still, searches_still, read_inode-still}
use ostd_final.Fs.Calls.{split_path, writable_dir, is_open_on, is_none, oscdfs_delete}

-- The call does not succeed, and leaves the state as it was.
pub record Refused {A : Type 0} (s : Fs) (r : Outcome A × Fs) : Type 0 where
  pub still : r.1 ≡ s
  pub no_success : (a : A) → r.0 ≢ ok a

bind_Refused :
    {A B : Type 0} (s : Fs) (r : Outcome A × Fs) (f : A → Exec Fs B)
    → r.1 ≡ s
    → ((a : A) → r.0 ≡ ok a → Refused s (f a s))
    → Refused s (and_then r f)
bind_Refused s (ok a, t) f e g = subst (λ u. Refused s (f a u)) (sym e) (g a refl)
bind_Refused s (fail, t) f e g = record { still = e; no_success = λ a h. cc }
bind_Refused s (exited, t) f e g = record { still = e; no_success = λ a h. cc }
bind_Refused s (undefined, t) f e g = record { still = e; no_success = λ a h. cc }
bind_Refused s (unfinished, t) f e g = record { still = e; no_success = λ a h. cc }

guard-Refused :
    {B : Type 0} (s : Fs) (test : Bool) (f : Unit {0} → Exec Fs B)
    → (test ≡ true → Refused s (f tt s))
    → Refused s (and_then (guard test s) f)
guard-Refused s true f g = g refl
guard-Refused s false f g = record { still = refl; no_success = λ a h. cc }

module _ ⦃dev : Device⦄ where
  writable_dir-found :
      (parent : Text) (s : Fs) (p : ℕ)
      → (writable_dir parent s).0 ≡ ok p
      → (find_inode_by_path parent s.current_dir_inode s).0 ≡ ok p
  unfolding writable_dir
  writable_dir-found parent s p e = ground arith

  pub writable_dir-still : (parent : Text) (s : Fs) → (writable_dir parent s).1 ≡ s
  unfolding writable_dir
  writable_dir-still parent s =
      let (_, found, _, _) = searches_still 0 s.current_dir_inode parent s in
      bind_still (find_inode_by_path parent s.current_dir_inode s) _ s found
        (λ p. bind_still (read_inode p s) _ s (read_inode-still p s) (λ ino. ground arith))

  -- `oscdfs_delete` of a path that leads to an inode that a descriptor in use refers to does not
  -- succeed, and leaves the state as it was.
  pub delete_Refused :
      (path parent filename : Text) (s : Fs) (pino fino fd : ℕ)
      → split_path path ≡ some (parent, filename)
      → (find_inode_by_path parent s.current_dir_inode s).0 ≡ ok pino
      → (dir_find_entry pino filename s).0 ≡ ok fino
      → fd < max_open_files
      → is_open_on fino s fd ≡ true
      → Refused s (oscdfs_delete path s)
  unfolding oscdfs_delete
  delete_Refused path parent filename s pino fino fd split up down range held = rw split (
      bind_Refused s (writable_dir parent s) _ (writable_dir-still parent s) (λ p e.
        let same_dir : p ≡ pino = ground (arith, writable_dir-found parent s p e) in
        bind_Refused s (dir_find_entry p filename s) _ (searches_still p 0 filename s).0 (λ f e'.
          let alike = ap (λ q. (dir_find_entry q filename s).0) same_dir in
          let same : f ≡ fino = ground (arith, e', alike, down) in
          bind_Refused s (read_inode f s) _ (read_inode-still f s) (λ ino _.
            guard-Refused s (not (is_dir ino)) _ (λ _.
              guard-Refused s (is_none (first_where (is_open_on f s) max_open_files 0)) _
                (λ unused. absurd (in_use f (ap (λ n. is_open_on n s fd) same ∙ held) unused)))))))
    where
      in_use :
          (f : ℕ)
          → is_open_on f s fd ≡ true
          → is_none (first_where (is_open_on f s) max_open_files 0) ≡ true
          → ⊥
      in_use f on unused = elim (Option-cases (first_where (is_open_on f s) max_open_files 0)) [
        | inl e ↦ ground (arith, first_where-none (is_open_on f s) max_open_files 0 e fd)
        | inr (i, e) ↦ ground arith
      ]

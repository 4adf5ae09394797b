-- ===== src/Fs/Paths/Still.antt =====
-- The searches of oscdfs/src/dir.c, which only read.
use ostd_final.Common.{
  ℕ, zero, suc, ◌+◌, ◌≡◌, refl, sym, ap, ◌∙◌, Bool, true, false, inl, inr, Option, none, some, List,
  [], ◌∷◌, ◌==◌, ltb, length, arith, Bool-cases,
}
use mathlib.Core.Path.{subst}
use ostd_final.Common.Exec.{
  Outcome, ok, fail, exited, undefined, unfinished, and_then, attempt, outcome_of, Exec, in_bounds,
  guard, ◌>>=◌,
}
use ostd_final.Common.Text.{Text, str_eq}
use ostd_final.Common.Search.{first_where}
use ostd_final.Fs.Bytes.{Block}
use ostd_final.Fs.State.{Device, Fs, Cmd}
use ostd_final.Fs.Disk.{read_block}
use ostd_final.Fs.Inode.{Inode, read_inode}
use ostd_final.Fs.Blocks.{inode_get_block, on_fs, return_int}
use ostd_final.Fs.Blocks.Lookup.{lookup_still}
use ostd_final.Fs.Files.{with_inode, keep_inode}
use ostd_final.Fs.Access.{is_dir}
use ostd_final.Fs.Dir.{
  Hit, missing, unreadable, hit, scan, dir_rounds, open_dir, dir_find_entry, number_of, dot,
  entries_per_block, is_named,
}
use ostd_final.Fs.Paths.{
  walk, find_inode_by_path, entry_of, is_parent, has_number, parent_and_name, climb,
  build_path_from_inode,
}

-- A sequence leaves the state as it was if its parts do, whatever they return.
pub bind_still :
    {S A B : Type 0} (r : Outcome A × S) (f : A → Exec S B) (s : S)
    → r.1 ≡ s
    → ((a : A) → (f a s).1 ≡ s)
    → (and_then r f).1 ≡ s
bind_still (ok a, t) f s e g = subst (λ u. (f a u).1 ≡ u) (sym e) (g a) ∙ e
bind_still (fail, t) f s e g = e
bind_still (exited, t) f s e g = e
bind_still (undefined, t) f s e g = e
bind_still (unfinished, t) f s e g = e

pub attempt_still : {S A : Type 0} (r : Outcome A × S) (s : S) → r.1 ≡ s → (outcome_of r).1 ≡ s
attempt_still (ok a, t) s e = e
attempt_still (fail, t) s e = e
attempt_still (exited, t) s e = e
attempt_still (undefined, t) s e = e
attempt_still (unfinished, t) s e = e

pub keep_inode-still :
    {A : Type 0} (r : Outcome A × (Inode × Fs)) (ino : Inode) (s : Fs)
    → r.1 ≡ (ino, s)
    → (keep_inode r).1 ≡ s
keep_inode-still (ok a, (i, t)) ino s e = ap (λ x. x.1) e
keep_inode-still (fail, (i, t)) ino s e = ap (λ x. x.1) e
keep_inode-still (exited, (i, t)) ino s e = ap (λ x. x.1) e
keep_inode-still (undefined, (i, t)) ino s e = ap (λ x. x.1) e
keep_inode-still (unfinished, (i, t)) ino s e = ap (λ x. x.1) e

pub option_still :
    {S A X : Type 0} (o : Option X) (f : Exec S A) (g : X → Exec S A) (s : S)
    → (f s).1 ≡ s
    → ((x : X) → (g x s).1 ≡ s)
    → ((elim o as (λ _. Exec S A) [ none ↦ f | some x ↦ g x ]) s).1 ≡ s
option_still none f g s h k = h
option_still (some x) f g s h k = k x

module _ ⦃dev : Device⦄ where
  pub read_inode-still : (n : ℕ) (s : Fs) → (read_inode n s).1 ≡ s
  unfolding read_inode read_block
  read_inode-still n s = ground arith

  pub read_block-still :
      (n : ℕ) (ino : Inode) (s : Fs) → (on_fs (read_block n) (ino, s)).1 ≡ (ino, s)
  unfolding read_block
  read_block-still n ino s = ground arith

  scan_still :
      (test : Block → ℕ → Bool) (rounds l : ℕ) (ino : Inode) (s : Fs)
      → (scan test rounds l (ino, s)).1 ≡ (ino, s)
  unfolding scan
  scan_still test zero l ino s = refl
  scan_still test (suc n) l ino s =
      bind_still (attempt (inode_get_block l false) (ino, s)) _ (ino, s)
        (attempt_still (inode_get_block l false (ino, s)) (ino, s) (lookup_still ino s l))
        (λ found.
          option_still found _ _ (ino, s) refl
            (λ phys.
              bind_still (attempt (on_fs (read_block phys)) (ino, s)) _ (ino, s)
                (attempt_still (on_fs (read_block phys) (ino, s)) (ino, s)
                  (read_block-still phys ino s))
                (λ read.
                  option_still read _ _ (ino, s) refl
                    (λ b.
                      option_still (first_where (test b) entries_per_block 0) _ _ (ino, s)
                        (scan_still test n (l + 1) ino s) (λ i. refl)))))

  guard_still : (test : Bool) (s : Fs) → (guard test s).1 ≡ s
  guard_still true s = refl
  guard_still false s = refl

  open_dir-still : (dir : ℕ) (s : Fs) → (open_dir dir s).1 ≡ s
  unfolding open_dir
  open_dir-still dir s =
      bind_still (read_inode dir s) _ s (read_inode-still dir s)
        (λ ino. bind_still (guard (is_dir ino) s) _ s (guard_still (is_dir ino) s) (λ u. refl))

  scan_dir-still :
      (test : Block → ℕ → Bool) (ino : Inode) (s : Fs)
      → (with_inode ino (scan test dir_rounds 0) s).1 ≡ s
  scan_dir-still test ino s =
      keep_inode-still (scan test dir_rounds 0 (ino, s)) ino s (scan_still test dir_rounds 0 ino s)

  number_of-still : (h : Hit) (s : Fs) → (number_of h s).1 ≡ s
  unfolding number_of return_int
  number_of-still (missing l) s = refl
  number_of-still unreadable s = refl
  number_of-still (hit phys i b) s = ground arith

  dir_find_entry-still : (dir : ℕ) (name : Text) (s : Fs) → (dir_find_entry dir name s).1 ≡ s
  unfolding dir_find_entry
  dir_find_entry-still dir name s = bind_still (open_dir dir s) _ s (open_dir-still dir s) (λ ino.
      bind_still (with_inode ino (scan (is_named name) dir_rounds 0) s) _ s
        (scan_dir-still (is_named name) ino s) (λ found. number_of-still found.0 s))

  walk_still : (names : List Text) (i : ℕ) (s : Fs) → (walk names i s).1 ≡ s
  unfolding walk
  walk_still [] i s = refl
  walk_still (name ∷ names) i s = go (λ j. walk_still names j s) (str_eq name dot)
    where
      go :
          ((j : ℕ) → (walk names j s).1 ≡ s)
          → (same : Bool)
          → ((elim same as (λ _. Cmd ℕ) [
            | true ↦ walk names i
            | false ↦ dir_find_entry i name >>= walk names
          ])
              s).1
            ≡ s
      go rest true = rest i
      go rest false =
          bind_still (dir_find_entry i name s) (walk names) s (dir_find_entry-still i name s) rest

  pub find_inode_by_path-still :
      (path : Text) (start : ℕ) (s : Fs) → (find_inode_by_path path start s).1 ≡ s
  unfolding find_inode_by_path
  find_inode_by_path-still path start s = walk_still _ _ s

  entry_of-still : (h : Hit) (s : Fs) → (entry_of h s).1 ≡ s
  unfolding entry_of
  entry_of-still (missing l) s = refl
  entry_of-still unreadable s = refl
  entry_of-still (hit phys i b) s = refl

  in_bounds-still : (test : Bool) (s : Fs) → (in_bounds test s).1 ≡ s
  in_bounds-still true s = refl
  in_bounds-still false s = refl

  parent_and_name-still : (cur : ℕ) (s : Fs) → (parent_and_name cur s).1 ≡ s
  unfolding parent_and_name
  parent_and_name-still cur s = bind_still (read_inode cur s) _ s (read_inode-still cur s) (λ ino.
      bind_still (with_inode ino (scan is_parent dir_rounds 0) s) _ s
        (scan_dir-still is_parent ino s)
        (λ up. bind_still (entry_of up.0 s) _ s (entry_of-still up.0 s) (λ parent.
          bind_still (read_inode parent.0 s) _ s (read_inode-still parent.0 s) (λ ino.
            bind_still (with_inode ino (scan (has_number cur) dir_rounds 0) s) _ s
              (scan_dir-still (has_number cur) ino s)
              (λ down. bind_still (entry_of down.0 s) _ s (entry_of-still down.0 s) (λ name.
                bind_still (in_bounds (ltb (length name.1) 28) s) _ s (in_bounds-still _ s)
                  (λ u. refl)))))))

  climb_still : (n cur : ℕ) (names : List Text) (s : Fs) → (climb n cur names s).1 ≡ s
  unfolding climb
  climb_still zero cur names s = refl
  climb_still (suc n) cur names s = elim (Bool-cases (cur == 1)) [
    | inl root ↦ rw root refl
    | inr below ↦ rw below (
        bind_still (parent_and_name cur s) _ s (parent_and_name-still cur s) (λ found.
          bind_still (in_bounds (ltb (length names) 128) s) _ s (in_bounds-still _ s)
            (λ u. climb_still n found.0 (found.1 ∷ names) s)))
  ]

  pub build_path-still : (ino bufsize : ℕ) (s : Fs) → (build_path_from_inode ino bufsize s).1 ≡ s
  unfolding build_path_from_inode
  build_path-still ino bufsize s =
      bind_still (attempt (climb 129 ino []) s) _ s
        (attempt_still (climb 129 ino [] s) s (climb_still 129 ino [] s)) (λ found. refl)

  -- Looking up a name in a directory, resolving a path, building the path of an inode, and looking up a
  -- block without allocation leave the state (and the caller's inode) as it was, whatever transfers fail
  -- and whatever they return.
  pub searches_still :
      (n start : ℕ) (text : Text) (s : Fs)
      → ((dir_find_entry n text s).1 ≡ s)
        × ((find_inode_by_path text start s).1 ≡ s)
        × ((bufsize : ℕ) → (build_path_from_inode n bufsize s).1 ≡ s)
        × ((l : ℕ) (ino : Inode) → (inode_get_block l false (ino, s)).1 ≡ (ino, s))
  searches_still n start text s = (
    dir_find_entry-still n text s,
    find_inode_by_path-still text start s,
    λ bufsize. build_path-still n bufsize s,
    λ l ino. lookup_still ino s l,
  )

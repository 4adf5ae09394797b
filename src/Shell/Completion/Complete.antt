-- ===== src/Shell/Completion/Complete.antt =====
-- All names that command_generator of oscdsh/src/completion.c gives, call by call.
use ostd_final.Common.{
  ℕ, ◌≡◌, refl, ap, inl, inr, Bool, true, false, Option, none, some, List, [], ◌∷◌, ◌++◌,
  if◌then◌else◌, Bool-cases, Option-cases,
}
use mathlib.Core.Path.{subst}
use ostd_final.Common.Text.{Text}
use ostd_final.Shell.History.{has_prefix}
use ostd_final.Shell.Completion.{
  Generator, Place, in_open, builtins, cleanup_generator, next_builtin, split_path_env,
  is_candidate, next_entry, next_file, generate_file, generate, command_generator,
}

-- the elements that pass a test
unfoldable pub those : (Text → Bool) → List Text → List Text
those test [] = []
those test (x ∷ xs) = let rest = those test xs in if test x then x ∷ rest else rest

-- a call that gives a name leaves the others, and one that gives none has none left
Gives : {A : Type 0} → (A → List Text) → List Text → Option (Text × A) → Type 0
Gives left names none = names ≡ []
Gives left names (some (name, a)) = names ≡ name ∷ left a

next_builtin_lem :
    (text : Text) (names : List Text)
    → Gives (those (has_prefix text)) (those (has_prefix text) names) (next_builtin text names)
unfolding next_builtin those Gives
next_builtin_lem text [] = refl
next_builtin_lem text (name ∷ names) = elim (Bool-cases (has_prefix text name)) [
  | inl yes_here ↦ rw yes_here refl
  | inr not_here ↦ rw not_here (next_builtin_lem text names)
]

-- the generator has freed what it had allocated
pub record IsClean (g : Generator) : Type 0 where
  pub no_dirs : g.path_dirs ≡ []
  pub closed : g.cur_dir ≡ none
  pub from_names : g.builtin_done ≡ false

module _ (executable : (path : Text) → Bool) (opendir : (path : Text) → Option (List Text))
    (text : Text) where
  unfoldable pub in_dir : Text → List Text → List Text
  in_dir dir = those (is_candidate executable text dir)

  abbrev pub entries_of : Option (List Text) → List Text
  entries_of none = []
  entries_of (some entries) = entries

  -- the commands of the directories, in the order of the directories and of their entries
  unfoldable pub in_dirs : List Text → List Text
  in_dirs [] = []
  in_dirs (dir ∷ dirs) = in_dir dir (entries_of (opendir dir)) ++ in_dirs dirs

  next_entry_lem :
      (dir : Text) (entries : List Text)
      → Gives (in_dir dir) (in_dir dir entries) (next_entry executable text dir entries)
  unfolding next_entry those Gives in_dir
  next_entry_lem dir [] = refl
  next_entry_lem dir (entry ∷ entries) =
      elim (Bool-cases (is_candidate executable text dir entry)) [
        | inl yes_here ↦ rw yes_here refl
        | inr not_here ↦ rw not_here (next_entry_lem dir entries)
      ]

  -- what is left of the directories, of which the first may be open
  files_left : Option (List Text) → List Text → List Text
  files_left cur_dir [] = []
  files_left none (dir ∷ dirs) = in_dirs (dir ∷ dirs)
  files_left (some entries) (dir ∷ dirs) = in_dir dir entries ++ in_dirs dirs

  left_behind : Place → List Text
  left_behind p = files_left (some p.1) p.0

  in_open_lem :
      (dir : Text) (dirs entries : List Text) (r : Option (Text × List Text))
      (later : Option (Text × Place))
      → Gives (in_dir dir) (in_dir dir entries) r
      → Gives left_behind (in_dirs dirs) later
      → Gives left_behind (in_dir dir entries ++ in_dirs dirs) (in_open dir dirs r later)
  unfolding Gives left_behind files_left
  in_open_lem dir dirs entries none none nothing later = rw nothing later
  in_open_lem dir dirs entries none (some found) nothing later = rw nothing later
  in_open_lem dir dirs entries (some (entry, more)) later found _ =
      ap (λ l. l ++ in_dirs dirs) found

  files_left-closed : (dirs : List Text) → files_left none dirs ≡ in_dirs dirs
  unfolding files_left in_dirs
  files_left-closed [] = refl
  files_left-closed (dir ∷ dirs) = refl

  next_file-closed :
      (dirs : List Text)
      → Gives left_behind (in_dirs dirs) (next_file executable opendir text none dirs)
  unfolding next_file in_dirs Gives in_dir those
  next_file-closed [] = refl
  next_file-closed (dir ∷ dirs) = elim (Option-cases (opendir dir)) [
    | inl shut ↦ rw (shut, next_file, in_dir, those) (next_file-closed dirs)
    | inr (entries, opened) ↦
        rw (opened, next_file)
          (in_open_lem dir dirs entries (next_entry executable text dir entries)
            (next_file executable opendir text none dirs) (next_entry_lem dir entries)
            (next_file-closed dirs))
  ]

  next_file_lem :
      (cur_dir : Option (List Text)) (dirs : List Text)
      → Gives left_behind (files_left cur_dir dirs) (next_file executable opendir text cur_dir dirs)
  unfolding next_file files_left Gives
  next_file_lem cur_dir [] = refl
  next_file_lem none (dir ∷ dirs) = next_file-closed (dir ∷ dirs)
  next_file_lem (some entries) (dir ∷ dirs) =
      in_open_lem dir dirs entries (next_entry executable text dir entries)
        (next_file executable opendir text none dirs) (next_entry_lem dir entries)
        (next_file-closed dirs)

  -- all that the generator has left
  names_left : Generator → List Text
  names_left g =
      if g.builtin_done
      then files_left g.cur_dir g.path_dirs
      else those (has_prefix text) g.names ++ files_left g.cur_dir g.path_dirs

  -- what a call gives, with that many names left before it
  GivesCall : List Text → Option Text × Generator → Type 0
  GivesCall names (none, h) = (names ≡ []) × IsClean h
  GivesCall names (some name, h) = names ≡ name ∷ names_left h

  generate_file_lem :
      (g : Generator)
      → g.builtin_done ≡ true
      → GivesCall (files_left g.cur_dir g.path_dirs) (generate_file executable opendir text g)
  unfolding generate_file Gives GivesCall names_left cleanup_generator left_behind
  generate_file_lem g done =
      go (next_file executable opendir text g.cur_dir g.path_dirs)
        (next_file_lem g.cur_dir g.path_dirs)
    where
      go :
          (r : Option (Text × Place))
          → Gives left_behind (files_left g.cur_dir g.path_dirs) r
          → GivesCall (files_left g.cur_dir g.path_dirs) (elim r [
            | none ↦ (none, cleanup_generator g)
            | some (entry, p) ↦ (some entry, record g { path_dirs = p.0; cur_dir = some p.1 })
          ])
      go none nothing = (nothing, record { no_dirs = refl; closed = refl; from_names = refl })
      go (some (entry, p)) found = rw (done, names_left) found

  generate_lem : (g : Generator) → GivesCall (names_left g) (generate executable opendir text g)
  unfolding generate names_left Gives GivesCall
  generate_lem g = elim (Bool-cases g.builtin_done) [
    | inl done ↦ simp done (generate_file_lem g done)
    | inr not_done ↦
        simp not_done (go not_done (next_builtin text g.names) (next_builtin_lem text g.names))
  ]
    where
      go :
          g.builtin_done ≡ false
          → (r : Option (Text × List Text))
          → Gives (those (has_prefix text)) (those (has_prefix text) g.names) r
          → GivesCall
              (those (has_prefix text) g.names ++ files_left g.cur_dir g.path_dirs)
              (elim r [
                | some (name, names) ↦ (some name, record g { names = names })
                | none ↦
                    generate_file executable opendir text
                      (record g { names = []; builtin_done = true })
              ])
      go not_done none nothing =
          rw nothing (generate_file_lem (record g { names = []; builtin_done = true }) refl)
      go not_done (some (name, names)) found =
          rw (not_done, names_left) (ap (λ l. l ++ files_left g.cur_dir g.path_dirs) found)

  -- calls of the generator up to the one that gives nothing, and what they give
  pub data Calls (path_env : Option Text)
      : (state : ℕ) → Generator → List Text → Generator → Type 0 where
    finished :
        {n : ℕ} {g h : Generator}
        → command_generator executable opendir path_env text n g ≡ (none, h)
        → Calls path_env n g [] h
    given :
        {n : ℕ} {g h last : Generator} {name : Text} {names : List Text}
        → command_generator executable opendir path_env text n g ≡ (some name, h)
        → Calls path_env 1 h names last
        → Calls path_env n g (name ∷ names) last

  runs_out :
      (path_env : Option Text) (names : List Text) (n : ℕ) (g : Generator)
      (r : Option Text × Generator)
      → command_generator executable opendir path_env text n g ≡ r
      → GivesCall names r
      → (h : Generator) × Calls path_env n g names h × IsClean h
  unfolding GivesCall command_generator
  runs_out path_env [] n g (none, h) e (_, clean) = (h, Calls.finished e, clean)
  runs_out path_env [] n g (some name, h) e gives = absurd (cc)
  runs_out path_env (x ∷ xs) n g (none, h) e (none_left, _) = absurd (cc)
  runs_out path_env (x ∷ xs) n g (some name, h) e gives =
      let same : x ≡ name = cc in
      let others : xs ≡ names_left h = cc in
      let more : GivesCall xs (generate executable opendir text h) = rw others (generate_lem h) in
      let (last, calls, clean) =
        runs_out path_env xs 1 h (generate executable opendir text h) refl more in
      (last, rw same (Calls.given e calls), clean)

  -- Called until it gives nothing, the generator gives all built-in names of its list that start with the
  -- text, and then, directory by directory of PATH, all entries that start with the text, can be executed
  -- and are not hidden, and it has then freed what it had allocated. In whatever state the first call
  -- finds it, it ends.
  pub command_generator-Calls :
      (path_env : Option Text) (g : Generator)
      → (h : Generator) × Calls path_env 0 g
          (those (has_prefix text) builtins ++ in_dirs (split_path_env path_env))
          h
        × IsClean h
  unfolding command_generator cleanup_generator names_left
  command_generator-Calls path_env g =
      let start : Generator = record (cleanup_generator g) {
        names = builtins;
        path_dirs = split_path_env path_env;
      } in
      runs_out path_env _ 0 g (generate executable opendir text start) refl (
        subst
          (λ l.
            GivesCall (those (has_prefix text) builtins ++ l)
              (generate executable opendir text start))
          (files_left-closed (split_path_env path_env)) (generate_lem start))

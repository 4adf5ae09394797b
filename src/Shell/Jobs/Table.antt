-- ===== src/Shell/Jobs/Table.antt =====
-- The job table of oscdsh/src/jobs.c: its well-formed states and the jobs that run.
use ostd_final.Common.{
  ℕ, suc, ◌+◌, ◌≤◌, ◌<◌, ◌≡◌, refl, ap, ◌∙◌, ◌⊎◌, inl, inr, Bool, true, false, ◌&&◌, ◌||◌, none,
  some, List, [], ◌∷◌, arith, leb, ◌==◌, Bool-cases, length, length-append,
}
use ostd_final.Common.Text.{Text}
use ostd_final.Shell.Jobs.{
  Job, JobTable, max_jobs, compact, append_job, add_job, reap, sigchld_handler,
}

-- Numbers ascend from lo, stay below hi, and a job that runs has not been reported.
abbrev pub Ascending : ℕ → ℕ → List Job → Type 0
Ascending lo hi [] = lo ≤ hi
Ascending lo hi (j ∷ js) =
    (lo ≤ j.job_id) × (j.running ≡ true → j.notified ≡ false) × Ascending (suc j.job_id) hi js

pub record IsTable (t : JobTable) : Type 0 where
  pub ascending : Ascending 0 t.next_job_id t.jobs
  pub bounded : length t.jobs ≤ max_jobs

weaken : (lo lo' hi : ℕ) (js : List Job) → lo' ≤ lo → Ascending lo hi js → Ascending lo' hi js
weaken lo lo' hi [] h a = omega arith
weaken lo lo' hi (j ∷ js) h a = (omega arith, a.1, a.2)

compact-Ascending : (lo hi : ℕ) (js : List Job) → Ascending lo hi js → Ascending lo hi (compact js)
unfolding compact
compact-Ascending lo hi [] a = a
compact-Ascending lo hi (j ∷ js) a = elim (Bool-cases j.notified) [
  | inl e ↦ rw e (
      weaken (suc j.job_id) lo hi (compact js) (omega arith)
        (compact-Ascending (suc j.job_id) hi js a.2))
  | inr e ↦ rw e (a.0, λ h. refl, compact-Ascending (suc j.job_id) hi js a.2)
]

append-Ascending :
    (lo hi pid : ℕ) (cmdline : Text) (js : List Job)
    → Ascending lo hi js
    → Ascending lo (hi + 1) (append_job pid cmdline hi js).1.jobs
unfolding append_job
append-Ascending lo hi pid cmdline [] a = (omega arith, λ h. refl, omega arith)
append-Ascending lo hi pid cmdline (j ∷ js) a =
    (a.0, a.1, append-Ascending (suc j.job_id) hi pid cmdline js a.2)

length-compact : (js : List Job) → length (compact js) ≤ length js
unfolding compact
length-compact [] = omega arith
length-compact (j ∷ js) = ground (arith, length-compact js)

reap-Ascending :
    (lo hi pid : ℕ) (js : List Job) → Ascending lo hi js → Ascending lo hi (reap pid js).0
unfolding reap
reap-Ascending lo hi pid [] a = a
reap-Ascending lo hi pid (j ∷ js) a = elim (Bool-cases (j.running && j.pid == pid)) [
  | inl e ↦ rw e (a.0, λ h. cc, a.2)
  | inr e ↦ rw e (a.0, a.1, reap-Ascending (suc j.job_id) hi pid js a.2)
]

length-reap : (pid : ℕ) (js : List Job) → length (reap pid js).0 ≡ length js
unfolding reap
length-reap pid [] = refl
length-reap pid (j ∷ js) = ground (arith, length-reap pid js)

sigchld-IsTable : (pids : List ℕ) (t : JobTable) → IsTable t → IsTable (sigchld_handler pids t)
unfolding sigchld_handler
sigchld-IsTable [] t h = h
sigchld-IsTable (pid ∷ pids) t h =
    sigchld-IsTable pids (record t { jobs = (reap pid t.jobs).0 })
      (record {
        ascending = reap-Ascending 0 t.next_job_id pid t.jobs h.ascending;
        bounded = omega (arith, length-reap pid t.jobs, h.bounded);
      })

append-IsTable :
    (pid : ℕ) (cmdline : Text) (id : ℕ) (js : List Job)
    → Ascending 0 id js
    → length js < max_jobs
    → IsTable (append_job pid cmdline id js).1
unfolding append_job
append-IsTable pid cmdline id js a h = record {
  ascending = append-Ascending 0 id pid cmdline js a;
  bounded = omega (arith, length-append {0} js);
}

-- The table keeps to its array, with job numbers in ascending order, below the next number to be
-- given out, and no running job marked as reported, whatever jobs are added and children end.
pub jobs-IsTable :
    (t : JobTable) (pid : ℕ) (cmdline : Text) (pids : List ℕ)
    → IsTable t
    → IsTable (add_job pid cmdline t).1 × IsTable (sigchld_handler pids t)
unfolding add_job
jobs-IsTable t pid cmdline pids h = (
  elim (Bool-cases (leb max_jobs (length t.jobs))) [
    | inr room ↦
        rw room (append-IsTable pid cmdline t.next_job_id t.jobs h.ascending (ground arith))
    | inl full ↦ rw full (elim (Bool-cases (length (compact t.jobs) == max_jobs)) [
      | inl stuck ↦ rw stuck h
      | inr freed ↦ rw freed (
          append-IsTable pid cmdline t.next_job_id (compact t.jobs)
            (compact-Ascending 0 t.next_job_id t.jobs h.ascending)
            (ground (arith, length-compact t.jobs, h.bounded)))
    ])
  ],
  sigchld-IsTable pids t h,
)

-- whether a job with this process runs
unfoldable pub runs : ℕ → List Job → Bool
runs pid [] = false
runs pid (j ∷ js) = j.running && j.pid == pid || runs pid js

runs-compact :
    (lo hi pid : ℕ) (js : List Job) → Ascending lo hi js → runs pid (compact js) ≡ runs pid js
unfolding runs compact
runs-compact lo hi pid [] a = refl
runs-compact lo hi pid (j ∷ js) a = ground (arith, runs-compact (suc j.job_id) hi pid js a.2, a.1)

runs-append :
    (p pid : ℕ) (cmdline : Text) (id : ℕ) (js : List Job)
    → runs p (append_job pid cmdline id js).1.jobs ≡ (runs p js || pid == p)
unfolding runs append_job
runs-append p pid cmdline id [] = ground arith
runs-append p pid cmdline id (j ∷ js) = ground (arith, runs-append p pid cmdline id js)

-- `add_job` either refuses and changes nothing, or afterwards exactly the new process and those that
-- ran before run: clearing space loses no running job.
pub runs-add_job :
    (t : JobTable) (pid p : ℕ) (cmdline : Text)
    → IsTable t
    → (add_job pid cmdline t ≡ (none, t))
      ⊎ (((add_job pid cmdline t).0 ≡ some t.next_job_id)
          × (runs p (add_job pid cmdline t).1.jobs ≡ (runs p t.jobs || pid == p)))
unfolding add_job
runs-add_job t pid p cmdline h = elim (Bool-cases (leb max_jobs (length t.jobs))) [
  | inr room ↦ rw room (inr (unfold append_job in refl, runs-append p pid cmdline _ t.jobs))
  | inl full ↦ rw full (elim (Bool-cases (length (compact t.jobs) == max_jobs)) [
    | inl stuck ↦ rw stuck (inl refl)
    | inr freed ↦ rw freed (
        inr (
          unfold append_job in refl,
          runs-append p pid cmdline _ (compact t.jobs)
              ∙ ap (λ b. b || pid == p) (runs-compact 0 t.next_job_id p t.jobs h.ascending),
        ))
  ])
]

-- ===== src/Shell/Jobs.antt =====
-- oscdsh/src/jobs.c: the first `job_count` entries of the array are the list.
pub mod Table
use ostd_final.Common.{
  ℕ, ◌+◌, Bool, true, false, ◌&&◌, Option, none, some, List, [], ◌∷◌, ◌++◌, leb, ◌==◌,
  if◌then◌else◌, length,
}
use ostd_final.Common.Text.{Text, copy_text}

-- job_t
pub record Job : Type 0 where
  pub job_id : ℕ
  pub pid : ℕ
  pub command : Text
  pub running : Bool
  pub notified : Bool

pub record JobTable : Type 0 where
  pub jobs : List Job
  pub next_job_id : ℕ

abbrev pub max_jobs : ℕ
max_jobs = 64

-- the loop that drops the entries whose end has been reported
unfoldable pub compact : List Job → List Job
compact [] = []
compact (j ∷ js) = if j.notified then compact js else j ∷ compact js

-- what follows the test for room
unfoldable pub append_job : ℕ → Text → ℕ → List Job → Option ℕ × JobTable
append_job pid cmdline id js = (
  some id,
  record {
    jobs =
        js
        ++ record {
          job_id = id;
          pid = pid;
          command = copy_text 1023 cmdline;
          running = true;
          notified = false;
        }
          ∷ [];
    next_job_id = id + 1;
  },
)

-- add_job: none for the result -1
unfoldable pub add_job : ℕ → Text → JobTable → Option ℕ × JobTable
unfolding append_job
add_job pid cmdline t =
    if leb max_jobs (length t.jobs)
    then if length (compact t.jobs) == max_jobs
      then (none, t)
      else append_job pid cmdline t.next_job_id (compact t.jobs)
    else append_job pid cmdline t.next_job_id t.jobs

-- one round of the handler: the table, and the job whose end it reports
unfoldable pub reap : ℕ → List Job → List Job × Option Job
reap pid [] = ([], none)
reap pid (j ∷ js) =
    let (rest, reported) = reap pid js in
    if j.running && j.pid == pid
    then (record j { running = false; notified = true } ∷ js, if j.notified then none else some j)
    else (j ∷ rest, reported)

-- sigchld_handler, for the children that waitpid returns in turn
unfoldable pub sigchld_handler : List ℕ → JobTable → JobTable
sigchld_handler [] t = t
sigchld_handler (pid ∷ pids) t = sigchld_handler pids (record t { jobs = (reap pid t.jobs).0 })

-- init_jobs
unfoldable pub init_jobs : JobTable → JobTable
init_jobs t = record t { jobs = [] }

-- ===== src/Shell/Tests.antt =====
-- Concrete tables for the lemmas about oscdsh/src.
mod Lines
mod Sessions
mod Completions
use ostd_final.Common.{
  ◌≡◌, ◌⊎◌, ◌||◌, refl, true, false, none, some, inr, List, [], ◌∷◌, arith, ◌==◌, if◌then◌else◌,
}
use ostd_final.Common.Text.{Text, str_eq, copy_text}
use ostd_final.Shell.Alias.{Alias, get_alias_value, has_alias, add_alias, remove_alias}
use ostd_final.Shell.Alias.Unique.{Unique, get-add_alias}
use ostd_final.Shell.Alias.Remove.{get-remove_alias}
use ostd_final.Shell.Alias.Invariant.{aliases-IsTable}
use ostd_final.Shell.Alias.Invariant as aliases
use ostd_final.Shell.Jobs.{JobTable, add_job, sigchld_handler}
use ostd_final.Shell.Jobs.Table.{jobs-IsTable, runs, runs-add_job}
use ostd_final.Shell.Jobs.Table as jobs

abbrev ll : Text
ll = 108 ∷ 108 ∷ []

abbrev la : Text
la = 108 ∷ 97 ∷ []

abbrev ls : Text
ls = 108 ∷ 115 ∷ []

abbrev two_aliases : List Alias
two_aliases = record { name = ll; value = ls } ∷ record { name = la; value = ls } ∷ []

two-Unique : Unique two_aliases
unfolding has_alias str_eq
two-Unique = (refl, (refl, tt))

get-add_alias_example :
    get_alias_value la (add_alias ll la two_aliases)
    ≡ (if str_eq ll la then some (copy_text 1023 la) else get_alias_value la two_aliases)
get-add_alias_example = get-add_alias ll la la two_aliases (omega arith) (inr (omega arith))

get-remove_alias_example :
    (get_alias_value la (remove_alias ll two_aliases).0
      ≡ (if str_eq ll la then none else get_alias_value la two_aliases))
    × ((remove_alias ll two_aliases).1 ≡ has_alias ll two_aliases)
get-remove_alias_example = get-remove_alias ll la two_aliases two-Unique

two-IsTable : aliases.IsTable two_aliases
two-IsTable = record { unique = two-Unique; bounded = omega arith }

aliases-IsTable_example :
    aliases.IsTable (add_alias ls la two_aliases) × aliases.IsTable (remove_alias ls two_aliases).0
aliases-IsTable_example = aliases-IsTable ls la two_aliases (omega arith) two-IsTable

abbrev one_job : JobTable
one_job = record {
  jobs = record { job_id = 1; pid = 4711; command = ls; running = true; notified = false } ∷ [];
  next_job_id = 2;
}

one-IsTable : jobs.IsTable one_job
one-IsTable = record { ascending = (omega arith, λ h. refl, omega arith); bounded = omega arith }

jobs-IsTable_example :
    jobs.IsTable (add_job 4712 ll one_job).1 × jobs.IsTable (sigchld_handler (4711 ∷ []) one_job)
jobs-IsTable_example = jobs-IsTable one_job 4712 ll (4711 ∷ []) one-IsTable

runs-add_job_example :
    (add_job 4712 ll one_job ≡ (none, one_job))
    ⊎ (((add_job 4712 ll one_job).0 ≡ some one_job.next_job_id)
        × (runs 4711 (add_job 4712 ll one_job).1.jobs ≡ (runs 4711 one_job.jobs || 4712 == 4711)))
runs-add_job_example = runs-add_job one_job 4712 4711 ll one-IsTable

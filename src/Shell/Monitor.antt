-- ===== src/Shell/Monitor.antt =====
-- oscdsh/src/monitor.c: the subcommands of `monitor`, their choice, the list of processes, and the
-- lines of the system's files that the others show. What stands in /proc, /sys and the mounted file
-- systems, and qsort, are parameters. Of the output only the data is kept, without titles and columns.
pub mod Scan
pub mod Processes
pub mod Tables
pub mod Listed
pub mod Loopback
mod Tests
use ostd_final.Common.{ℕ, Bool, true, false, Option, none, some, List, [], ◌∷◌, if◌then◌else◌}
use ostd_final.Common.Text.{Text, codes, str_eq}

pub data Handler : Type 0 where
  overview process memory network filesystem device power save : Handler

abbrev pub monitor_commands : List (Text × Handler)
monitor_commands =
    (codes "overview", overview)
    ∷ (codes "process", process)
    ∷ (codes "memory", memory)
    ∷ (codes "network", network)
    ∷ (codes "filesystem", filesystem)
    ∷ (codes "device", device)
    ∷ (codes "power", power)
    ∷ (codes "save", save)
    ∷ []

-- the loop over `monitor_commands`
unfoldable pub lookup_handler : List (Text × Handler) → Text → Option Handler
lookup_handler [] subcmd = none
lookup_handler ((name, handler) ∷ more) subcmd =
    let rest = lookup_handler more subcmd in if str_eq subcmd name then some handler else rest

-- what is done for the arguments, the command's name among them
unfoldable pub monitor_dispatch : (handler : Handler → List Text → ℕ) → List Text → ℕ
monitor_dispatch handler [] = 0
monitor_dispatch handler (command ∷ []) = handler overview (command ∷ [])
monitor_dispatch handler (command ∷ subcmd ∷ args) =
    if str_eq subcmd (codes "--help") then 0 else elim (lookup_handler monitor_commands subcmd) [
      | none ↦ 1
      | some h ↦ handler h (command ∷ subcmd ∷ args)
    ]

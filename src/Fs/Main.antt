-- ===== src/Fs/Main.antt =====
-- oscdfs/src/main.c: the options of the program, the arguments that it passes on to FUSE, and the loop
-- over the lines that are typed. Opening the image is a system call and lies before the loop.
pub mod Passed
use ostd_final.Common.{
  ℕ, ◌+◌, ◌-◌, Bool, true, false, not, ◌&&◌, ◌||◌, Option, none, some, List, [], ◌∷◌, ◌++◌, leb,
  length, take, if◌then◌else◌,
}
use ostd_final.Common.Exec.{
  Outcome, ok, undefined, pure, failed, get_state, put_state, attempt, ignore, ◌>>=◌, ◌>>◌,
}
use ostd_final.Common.Text.{Text, codes, str_eq, cut_at}
use ostd_final.Fs.State.{Device, Cmd}
use ostd_final.Fs.Paths.{max_cmd_len}
use ostd_final.Fs.Users.{login}
use ostd_final.Fs.Commands.{execute_command}

-- the variables that the options set
pub record Options : Type 0 where
  pub disk_path : Text
  pub do_init : Bool
  pub mountpoint : Option Text

-- What an argument is.
pub data Argument : Type 0 where
  init disk mount help other : Argument

unfoldable pub argument_of : Text → Argument
argument_of a =
    if str_eq a (codes "--init")
    then init
    else if str_eq a (codes "-f") || str_eq a (codes "--disk")
    then disk
    else if str_eq a (codes "-m") || str_eq a (codes "--mount")
    then mount
    else if str_eq a (codes "--help") || str_eq a (codes "-h")
    then help
    else other

-- How the arguments are answered: with the usage and EXIT_FAILURE, with the usage and EXIT_SUCCESS, or
-- by what follows.
pub data Parsed : Type 0 where
  usage_error usage : Parsed
  options : Options → Parsed

-- `do_fuse` is set together with the mountpoint
abbrev pub is_fuse : Options → Bool
is_fuse o = elim o.mountpoint [ none ↦ false | some m ↦ true ]

-- `if (do_fuse) continue;`
abbrev pub if_fuse : Options → Parsed → Parsed
if_fuse o rest = if is_fuse o then rest else usage_error

-- the loop over argv, behind the name of the program
unfoldable pub parse_options : List Text → Options → Parsed
parse_options [] o = options o
parse_options (a ∷ []) o = elim (argument_of a) [
  | init ↦ options (record o { do_init = true })
  | disk ↦ usage_error
  | mount ↦ usage_error
  | help ↦ usage
  | other ↦ if_fuse o (options o)
]
parse_options (a ∷ b ∷ more) o = elim (argument_of a) [
  | init ↦ parse_options (b ∷ more) (record o { do_init = true })
  | disk ↦ parse_options more (record o { disk_path = b })
  | mount ↦ parse_options more (record o { mountpoint = some b })
  | help ↦ usage
  | other ↦ if_fuse o (parse_options (b ∷ more) o)
]

abbrev pub default_disk : Text
default_disk = codes "disk.img"

abbrev pub default_options : Options
default_options = record { disk_path = default_disk; do_init = false; mountpoint = none }

-- the environment variable OSCDISK
unfoldable pub disk_of : (env : Option Text) → (disk_path : Text) → Text
disk_of none disk_path = disk_path
disk_of (some path) disk_path = if str_eq disk_path default_disk then path else disk_path

-- the second loop, which skips the options of the program with their values
unfoldable pub passed_on : List Text → List Text
passed_on [] = []
passed_on (a ∷ []) = elim (argument_of a) [
  | init ↦ []
  | disk ↦ []
  | mount ↦ []
  | help ↦ a ∷ []
  | other ↦ a ∷ []
]
passed_on (a ∷ b ∷ more) = elim (argument_of a) [
  | init ↦ passed_on (b ∷ more)
  | disk ↦ passed_on more
  | mount ↦ passed_on more
  | help ↦ a ∷ passed_on (b ∷ more)
  | other ↦ a ∷ passed_on (b ∷ more)
]

-- What the program does: print its usage and end, create an image, serve FUSE with the arguments of an
-- array of 32 pointers, the last of them NULL, or read commands.
pub data Start : Type 0 where
  print_usage : (success : Bool) → Start
  create_image : Text → Start
  serve_fuse : (image : Text) → List Text → Start
  read_commands : (image : Text) → Start

unfoldable pub fuse_start : (image program : Text) → List Text → (mountpoint : Text) → Outcome Start
fuse_start image program args mountpoint =
    let fuse_argv = program ∷ codes "-s" ∷ (passed_on args ++ mountpoint ∷ []) in
    if leb (length fuse_argv + 1) 32 then ok (serve_fuse image fuse_argv) else undefined

abbrev pub mode_of : (env : Option Text) → (program : Text) → List Text → Options → Outcome Start
mode_of env program args o =
    if o.do_init then ok (create_image (disk_of env o.disk_path)) else elim o.mountpoint [
      | none ↦ ok (read_commands (disk_of env o.disk_path))
      | some m ↦ fuse_start (disk_of env o.disk_path) program args m
    ]

abbrev pub start_with : (env : Option Text) → (program : Text) → List Text → Parsed → Outcome Start
start_with env program args usage_error = ok (print_usage false)
start_with env program args usage = ok (print_usage true)
start_with env program args (options o) = mode_of env program args o

-- `main` up to the point where the image is created or opened
unfoldable pub start_of : (env : Option Text) → (program : Text) → List Text → Outcome Start
start_of env program args = start_with env program args (parse_options args default_options)

-- the text without a last byte c
unfoldable pub without_end : (c : ℕ) → Text → Text
without_end c [] = []
without_end c (d ∷ []) = if str_eq (d ∷ []) (c ∷ []) then [] else d ∷ []
without_end c (d ∷ e ∷ t) = d ∷ without_end c (e ∷ t)

-- The array `line` after fgets and the removal of the line end, for the bytes of a line with its
-- newline, if it has one. What does not fit the array is skipped.
unfoldable pub read_line : Text → Text
read_line typed = without_end b'\r' (without_end b'\n' (take (max_cmd_len - 1) typed))

module _ ⦃dev : Device⦄ where
  -- one round of the loop; what a command returns is not looked at
  unfoldable pub enter : Text → Cmd (Unit {0})
  enter [] = pure tt
  enter (c ∷ t) = ignore (execute_command (c ∷ t))

  -- disk_close()
  unfoldable pub close_disk : Cmd (Unit {0})
  close_disk = do s ← get_state; put_state (record s { opened = false })

  unfoldable pub command_loop : List Text → Cmd (Unit {0})
  command_loop [] = close_disk
  command_loop (typed ∷ more) = do enter (read_line typed); command_loop more

  -- the interactive mode: `fail` is EXIT_FAILURE
  unfoldable pub interactive : List Text → Cmd (Unit {0})
  interactive lines = do
    found ← attempt (login (codes "root") (codes "root"))
    elim found [ none ↦ do close_disk; failed | some u ↦ command_loop lines ]

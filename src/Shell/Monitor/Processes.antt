-- ===== src/Shell/Monitor/Processes.antt =====
-- The list of processes of oscdsh/src/monitor.c.
use ostd_final.Common.{
  ℕ, zero, suc, ◌+◌, Bool, true, false, ◌&&◌, Option, none, some, List, [], ◌∷◌, ◌++◌, ◌==◌, leb,
  map, take, drop, if◌then◌else◌,
}
use ostd_final.Common.Exec.{Outcome, ok, undefined}
use ostd_final.Common.Int.{ℤ, pos, negsuc, ltb_ℤ}
use ostd_final.Common.Numerals.{atoi}
use ostd_final.Common.Text.{Text, codes, str_eq}
use ostd_final.Shell.History.{has_prefix, contains, is_digit}
use ostd_final.Shell.Monitor.Scan.{next, lines_of, word_in, scan_signed}

pub record ProcInfo : Type 0 where
  pub name : Text
  pub state : Text
  pub pid : ℤ
  pub ppid : ℤ
  pub vm_rss_kb : ℤ
  pub threads : ℤ

pub record ProcessOptions : Type 0 where
  pub filter_name : Option Text
  pub sort_by_rss : Bool

abbrev begins_with_dash : Text → Bool
begins_with_dash [] = false
begins_with_dash (c ∷ t) = c == b'-'

-- the loop over the arguments behind `process`
unfoldable pub process_options : ProcessOptions → List Text → ProcessOptions
process_options o [] = o
process_options o (arg ∷ args) =
    process_options
      (if str_eq arg (codes "--sort-rss")
        then record o { sort_by_rss = true }
        else if begins_with_dash arg
        then o
        else record o { filter_name = some arg })
      args

-- a name of digits only
unfoldable pub is_num : Text → Bool
is_num [] = true
is_num (c ∷ t) = is_digit c && is_num t

abbrev pub or_old : Text → Option Text → Text
or_old old none = old
or_old old (some t) = t

-- a line of a status file; the line of `Pid:` goes to `ppid`, as the source has it
unfoldable pub status_line : ProcInfo → Text → Outcome ProcInfo
status_line p line =
    if has_prefix (codes "Name:") line
    then ok (record p { name = or_old p.name (word_in 255 (drop 5 line)) })
    else if has_prefix (codes "State:") line
    then ok (record p { state = or_old p.state (word_in 63 (drop 6 line)) })
    else if has_prefix (codes "Pid:") line
    then next (scan_signed 32 p.ppid (drop 4 line)) (λ n. ok (record p { ppid = n }))
    else if has_prefix (codes "PPid:") line
    then next (scan_signed 32 p.ppid (drop 5 line)) (λ n. ok (record p { ppid = n }))
    else if has_prefix (codes "VmRSS:") line
    then next (scan_signed 64 p.vm_rss_kb (drop 6 line)) (λ n. ok (record p { vm_rss_kb = n }))
    else if has_prefix (codes "Threads:") line
    then next (scan_signed 32 p.threads (drop 8 line)) (λ n. ok (record p { threads = n }))
    else ok p

unfoldable pub read_status : ProcInfo → List Text → Outcome ProcInfo
read_status p [] = ok p
read_status p (line ∷ lines) = next (status_line p line) λ q. read_status q lines

-- tolower
abbrev to_lower : Text → Text
to_lower = map λ c. if leb b'A' c && leb c b'Z' then c + 32 else c

-- strcasestr(s, find) != NULL
abbrev pub strcasestr : (s find : Text) → Bool
strcasestr s find = contains (to_lower find) (to_lower s)

-- whether an entry that has been read is shown
abbrev pub matches : Option Text → ProcInfo → Bool
matches filter_name p = elim p.name [
  | [] ↦ false
  | c ∷ t ↦ elim filter_name [ none ↦ true | some find ↦ strcasestr (c ∷ t) find ]
]

unfoldable pub cmp_proc_by_rss : ProcInfo → ProcInfo → ℤ
cmp_proc_by_rss a b =
    if ltb_ℤ a.vm_rss_kb b.vm_rss_kb
    then pos 1
    else if ltb_ℤ b.vm_rss_kb a.vm_rss_kb
    then negsuc 0
    else pos 0

-- a line of the list, where a field that was not found counts as 0
pub record Row : Type 0 where
  pub pid : ℤ
  pub name : Text
  pub state : Text
  pub ppid : ℤ
  pub threads : ℤ
  pub vm_rss_kb : ℤ

abbrev at_least_0 : ℤ → ℤ
at_least_0 (pos n) = pos n
at_least_0 (negsuc n) = pos 0

abbrev pub row_of : ProcInfo → Row
row_of p = record {
  pid = p.pid;
  name = take 20 p.name;
  state = p.state;
  ppid = p.ppid;
  threads = at_least_0 p.threads;
  vm_rss_kb = at_least_0 p.vm_rss_kb;
}

module _ (file : (path : Text) → Option Text) where
  -- an entry of /proc; nothing where its status file cannot be opened
  unfoldable pub read_proc : Text → Outcome (Option ProcInfo)
  read_proc entry = elim (file (codes "/proc/" ++ entry ++ codes "/status")) [
    | none ↦ ok none
    | some status ↦ elim (atoi entry) [
      | none ↦ undefined
      | some n ↦
          let empty : ProcInfo = record {
            name = [];
            state = [];
            pid = n;
            ppid = pos 0;
            vm_rss_kb = negsuc 0;
            threads = negsuc 0;
          } in
          next (read_status empty (lines_of 256 status)) λ p. ok (some p)
    ]
  ]

  -- the loop over the entries, with the room that `procs` has left
  unfoldable pub collect : Option Text → (room : ℕ) → List Text → Outcome (List ProcInfo)
  collect filter_name zero entries = ok []
  collect filter_name (suc room) [] = ok []
  collect filter_name (suc room) (entry ∷ entries) = elim (is_num entry) [
    | false ↦ collect filter_name (suc room) entries
    | true ↦ next (read_proc entry) λ found. elim found [
      | none ↦ collect filter_name (suc room) entries
      | some p ↦ elim (matches filter_name p) [
        | false ↦ collect filter_name (suc room) entries
        | true ↦ next (collect filter_name room entries) λ ps. ok (p ∷ ps)
      ]
    ]
  ]

module _ (qsort : (ProcInfo → ProcInfo → ℤ) → List ProcInfo → List ProcInfo) where
  -- the status, and the processes in the order of the list
  unfoldable pub list_processes : ProcessOptions → List ProcInfo → ℕ × List Row
  list_processes o [] = (1, [])
  list_processes o (p ∷ ps) =
      (0, map row_of (if o.sort_by_rss then qsort cmp_proc_by_rss (p ∷ ps) else p ∷ ps))

  unfoldable pub monitor_process :
      (directory : (path : Text) → Option (List Text)) (file : (path : Text) → Option Text)
      (args : List Text)
      → Outcome (ℕ × List Row)
  monitor_process directory file args = elim (directory (codes "/proc")) [
    | none ↦ ok (1, [])
    | some entries ↦
        let o =
          process_options (record { filter_name = none; sort_by_rss = false }) (drop 2 args) in
        next (collect file o.filter_name 4096 entries) λ procs. ok (list_processes o procs)
  ]

-- ===== src/Shell/Monitor/Tests.antt =====
-- The monitor on small files, and a sort for qsort.
use ostd_final.Common.{
  ℕ, Bool, ◌==◌, ◌≡◌, refl, ◌∙◌, inl, inr, true, false, Option, none, some, List, [], ◌∷◌, take,
  if◌then◌else◌, arith, Bool-cases,
}
use mathlib.Core.Bool.{Bool-set}
use mathlib.Core.List.{Perm, Pairwise, Pairwise-singleton, forall_mem-cons}
use mathlib.Core.List.Perm
use ostd_final.Common.Exec.{ok}
use ostd_final.Common.Int.{ℤ, pos, ltb_ℤ}
use ostd_final.Common.Text.{Text, codes, str_eq}
use ostd_final.Common.Numerals.{atoi, signed_in, digits_in, skip_space}
use ostd_final.Shell.Command.{is_one_of}
use ostd_final.Shell.History.{has_prefix}
use ostd_final.Shell.Monitor.{monitor_dispatch}
use ostd_final.Shell.Monitor.Scan.{
  lines_from, span, scan_signed, signed_behind, digits_behind, decimal_value, scan_unsigned,
}
use ostd_final.Shell.Monitor.Processes.{
  ProcInfo, process_options, is_num, read_proc, status_line, read_status, monitor_process,
}
use ostd_final.Shell.Monitor.Tables.{shows_disk, shows_mount, uptime_parts, monitor_network}
use ostd_final.Shell.Monitor.Listed.{
  IsComparison, IsQsort, Listed, chosen, no_options, monitor_process-Listed,
}
use ostd_final.Shell.Monitor.Loopback.{
  NetDevice, IsNetDevice, Without, file_of, device_line, listed_as, monitor_network-device_line,
}

module _ (cmp : ProcInfo → ProcInfo → ℤ) where
  insert : ProcInfo → List ProcInfo → List ProcInfo
  insert p [] = p ∷ []
  insert p (q ∷ qs) =
      let later = insert p qs in if ltb_ℤ (pos 0) (cmp p q) then q ∷ later else p ∷ q ∷ qs

  insertion_sort : List ProcInfo → List ProcInfo
  insertion_sort [] = []
  insertion_sort (p ∷ ps) = insert p (insertion_sort ps)

  insert-perm : (p : ProcInfo) (qs : List ProcInfo) → Perm (insert p qs) (p ∷ qs)
  unfolding insert
  insert-perm p [] = Perm.rfl
  insert-perm p (q ∷ qs) = elim (Bool-cases (ltb_ℤ (pos 0) (cmp p q))) [
    | inl after ↦ rw after (Perm.trans (Perm.cons q (insert-perm p qs)) (Perm.swap p q qs))
    | inr before ↦ rw before Perm.rfl
  ]

  insertion_sort-perm : (ps : List ProcInfo) → Perm (insertion_sort ps) ps
  unfolding insertion_sort
  insertion_sort-perm [] = Perm.rfl
  insertion_sort-perm (p ∷ ps) =
      Perm.trans (insert-perm p (insertion_sort ps)) (Perm.cons p (insertion_sort-perm ps))

  abbrev Ordered : List ProcInfo → Type 0
  Ordered = Pairwise λ a b. ltb_ℤ (pos 0) (cmp a b) ≡ false

  module _ (c : IsComparison cmp) where
    swapped : (p q : ProcInfo) → ltb_ℤ (pos 0) (cmp p q) ≡ true → ltb_ℤ (pos 0) (cmp q p) ≡ false
    swapped p q after =
        let behind : ltb_ℤ (cmp q p) (pos 0) ≡ true = c.opposite q p ∙ after in ground arith

    insert-Ordered : (p : ProcInfo) (qs : List ProcInfo) → Ordered qs → Ordered (insert p qs)
    unfolding insert
    insert-Ordered p _ Pairwise.nil = Pairwise-singleton _ p
    insert-Ordered p _ (Pairwise.cons {a = q} {l = qs} below s) =
        elim (Bool-cases (ltb_ℤ (pos 0) (cmp p q))) [
          | inl after ↦ rw after (
              Pairwise.cons
                (λ x m.
                  (forall_mem-cons (λ x. Bool-set _ _)).1 (swapped p q after, below) x
                    ((Perm.mem_iff (insert-perm p qs)).0 m))
                (insert-Ordered p qs s))
          | inr before ↦ rw before (
              Pairwise.cons
                ((forall_mem-cons (λ x. Bool-set _ _)).1
                  (before, λ x m. c.trans p q x before (below x m)))
                (Pairwise.cons below s))
        ]

    insertion_sort-Ordered : (ps : List ProcInfo) → Ordered (insertion_sort ps)
    unfolding insertion_sort
    insertion_sort-Ordered [] = Pairwise.nil
    insertion_sort-Ordered (p ∷ ps) = insert-Ordered p _ (insertion_sort-Ordered ps)

insertion_sort-IsQsort : IsQsort insertion_sort
insertion_sort-IsQsort = record {
  perm = λ cmp c ps. insertion_sort-perm cmp ps;
  sorted = λ cmp c ps. insertion_sort-Ordered cmp c ps;
}

-- the entries of a small /proc: this process, one without memory of its own, and a file
abbrev entries : List Text
entries = codes "1" ∷ codes "meminfo" ∷ codes "42" ∷ []

abbrev status_1 : Text
status_1 =
    codes "Name:\tinit\nState:\tS (sleeping)\nPid:\t1\nPPid:\t0\nVmRSS:\t  900 kB\nThreads:\t1\n"

abbrev status_42 : Text
status_42 =
    codes "Name:\tShell\nState:\tR (running)\nPid:\t42\nPPid:\t1\nVmRSS:\t 7000 kB\nThreads:\t2\n"

abbrev small_file : Text → Option Text
small_file path =
    if str_eq path (codes "/proc/1/status")
    then some status_1
    else if str_eq path (codes "/proc/42/status")
    then some status_42
    else none

abbrev small_directory : Text → Option (List Text)
small_directory path = if str_eq path (codes "/proc") then some entries else none

abbrev init : ProcInfo
init = record {
  name = codes "init";
  state = codes "S";
  pid = pos 1;
  ppid = pos 0;
  vm_rss_kb = pos 900;
  threads = pos 1;
}

abbrev shell : ProcInfo
shell = record {
  name = codes "Shell";
  state = codes "R";
  pid = pos 42;
  ppid = pos 1;
  vm_rss_kb = pos 7000;
  threads = pos 2;
}

abbrev small_info : Text → Option ProcInfo
small_info entry =
    if str_eq entry (codes "1")
    then some init
    else if str_eq entry (codes "42")
    then some shell
    else none

reads_init : read_proc small_file (codes "1") ≡ ok (some init)
unfolding read_proc str_eq atoi signed_in digits_in skip_space read_status status_line has_prefix
    lines_from span scan_signed signed_behind digits_behind decimal_value
reads_init = refl

reads_shell : read_proc small_file (codes "42") ≡ ok (some shell)
unfolding read_proc str_eq atoi signed_in digits_in skip_space read_status status_line has_prefix
    lines_from span scan_signed signed_behind digits_behind decimal_value
reads_shell = refl

-- both processes are listed, the larger one first
monitor_process-Listed_example :
    let o = process_options no_options (codes "--sort-rss" ∷ []) in
    Listed o (take 4096 (chosen o.filter_name small_info entries)) (
      monitor_process insertion_sort small_directory small_file
        (codes "monitor" ∷ codes "process" ∷ codes "--sort-rss" ∷ []))
unfolding is_num str_eq
monitor_process-Listed_example =
    monitor_process-Listed small_file small_info insertion_sort insertion_sort-IsQsort
      small_directory entries (codes "monitor" ∷ codes "process" ∷ codes "--sort-rss" ∷ []) refl
      (λ _. reads_init, (λ no. absurd cc, (λ _. reads_shell, tt)))

abbrev counters_1 : Text
counters_1 = codes " 10 1 0 0 0 0 0 0 20 2 00 0 0 0 0"

lacks : ℕ → Text → Bool
lacks c [] = true
lacks c (d ∷ t) = let rest = lacks c t in if d == c then false else rest

plain_text : (c : ℕ) (t : Text) → lacks c t ≡ true → Without c t
unfolding lacks
plain_text c [] h = tt
plain_text c (d ∷ t) h = elim (Bool-cases (d == c)) [
  | inl same ↦ absurd (ground arith)
  | inr other ↦ (λ e. ground arith, plain_text c t (ground arith))
]

abbrev loopback : NetDevice
loopback = record {
  name = codes "lo";
  counters = counters_1;
  numbers = 10 ∷ 1 ∷ 0 ∷ 0 ∷ 0 ∷ 0 ∷ 0 ∷ 0 ∷ 20 ∷ 2 ∷ 0 ∷ 0 ∷ [];
}

loopback-IsNetDevice : IsNetDevice loopback
unfolding scan_unsigned signed_behind digits_behind decimal_value span skip_space lacks
loopback-IsNetDevice = record {
  no_colon = plain_text b':' (codes "lo") refl;
  short = omega arith;
  fits = (plain_text 10 (device_line loopback) refl, omega arith);
  counted = refl;
}

-- the loopback interface is listed
monitor_network-device_line_example :
    monitor_network (some (file_of (codes "Inter-|" ∷ codes " face |" ∷ device_line loopback ∷ [])))
    ≡ ok (0, listed_as loopback ∷ [])
unfolding lacks
monitor_network-device_line_example =
    monitor_network-device_line (codes "Inter-|") (codes " face |") (loopback ∷ [])
      (plain_text 10 (codes "Inter-|") refl, omega arith)
      (plain_text 10 (codes " face |") refl, omega arith) (loopback-IsNetDevice, tt)

-- a disk whose name ends with a digit is taken for a partition
nvme_hidden : shows_disk (codes "nvme0n1") ≡ false
unfolding shows_disk has_prefix
nvme_hidden = refl

tmpfs_shown : shows_mount (codes "tmpfs") (codes "tmpfs") ≡ true
unfolding shows_mount has_prefix is_one_of str_eq
tmpfs_shown = refl

-- a name with a blank is cut
name_cut : status_line init (codes "Name:\tWeb Content\n") ≡ ok (record init { name = codes "Web" })
unfolding status_line has_prefix skip_space span
name_cut = refl

overview_without_arguments : monitor_dispatch (λ h args. 7) (codes "monitor" ∷ []) ≡ 7
unfolding monitor_dispatch
overview_without_arguments = refl

uptime_parts_100000 : uptime_parts 100000 ≡ (1, 3, 46, 40)
unfolding uptime_parts
uptime_parts_100000 = refl

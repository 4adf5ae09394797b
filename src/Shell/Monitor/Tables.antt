-- ===== src/Shell/Monitor/Tables.antt =====
-- The lines of the system's files that oscdsh/src/monitor.c shows: memory, interfaces, disks, mounted
-- file systems, devices, and the time since the start.
use ostd_final.Common.{
  ℕ, zero, suc, ◌+◌, ◌-◌, ◌*◌, ◌/◌, ◌^◌, ◌%◌, Bool, true, false, not, ◌||◌, Option, none, some,
  List, [], ◌∷◌, ◌==◌, leb, ltb, length, take, drop, if◌then◌else◌,
}
use ostd_final.Common.Exec.{Outcome, ok}
use ostd_final.Common.Text.{Text, codes, str_eq}
use ostd_final.Shell.Command.{is_one_of}
use ostd_final.Shell.History.{has_prefix, is_digit}
use ostd_final.Shell.Plan.{ends_with, without_last}
use ostd_final.Shell.Monitor.Scan.{next, span, lines_of, scan_unsigned}

-- `line[len - 1] = '\0'` where the line ends with a newline
abbrev pub without_newline : Text → Text
without_newline line = if ends_with 10 line then without_last line else line

-- the lines of /proc/meminfo that `monitor memory` shows
abbrev memory_keys : List Text
memory_keys =
    codes "MemTotal:"
    ∷ codes "MemFree:"
    ∷ codes "MemAvailable:"
    ∷ codes "Buffers:"
    ∷ codes "Cached:"
    ∷ codes "SwapCached:"
    ∷ codes "Active:"
    ∷ codes "Inactive:"
    ∷ codes "Active(anon):"
    ∷ codes "Inactive(anon):"
    ∷ codes "Active(file):"
    ∷ codes "Inactive(file):"
    ∷ codes "Unevictable:"
    ∷ codes "Mlocked:"
    ∷ codes "SwapTotal:"
    ∷ codes "SwapFree:"
    ∷ codes "Dirty:"
    ∷ codes "Writeback:"
    ∷ codes "AnonPages:"
    ∷ codes "Mapped:"
    ∷ codes "Shmem:"
    ∷ codes "Slab:"
    ∷ codes "SReclaimable:"
    ∷ codes "SUnreclaim:"
    ∷ codes "KernelStack:"
    ∷ codes "PageTables:"
    ∷ codes "NFS_Unstable:"
    ∷ codes "Bounce:"
    ∷ codes "WritebackTmp:"
    ∷ codes "CommitLimit:"
    ∷ codes "Committed_AS:"
    ∷ codes "VmallocTotal:"
    ∷ codes "VmallocUsed:"
    ∷ codes "VmallocChunk:"
    ∷ codes "HardwareCorrupted:"
    ∷ codes "AnonHugePages:"
    ∷ codes "HugePages_Total:"
    ∷ codes "HugePages_Free:"
    ∷ codes "HugePages_Rsvd:"
    ∷ codes "HugePages_Surp:"
    ∷ codes "Hugepagesize:"
    ∷ codes "DirectMap4k:"
    ∷ codes "DirectMap2M:"
    ∷ codes "DirectMap1G:"
    ∷ []

unfoldable pub has_key : List Text → Text → Bool
has_key [] line = false
has_key (key ∷ keys) line = has_prefix key line || has_key keys line

unfoldable pub memory_lines : List Text → List Text
memory_lines [] = []
memory_lines (line ∷ lines) =
    let rest = memory_lines lines in
    if has_key memory_keys line then without_newline line ∷ rest else rest

-- the loop over /proc/slabinfo behind its titles: the lines that are shown, and whether one was left
unfoldable pub slab_from : (room : ℕ) → List Text → List Text × Bool
slab_from room [] = ([], false)
slab_from zero (line ∷ lines) = ([], true)
slab_from (suc room) (line ∷ lines) =
    let (shown, more) = slab_from room lines in (without_newline line ∷ shown, more)

abbrev pub slab_lines : List Text → List Text × Bool
slab_lines lines = slab_from 30 (drop 2 lines)

-- An interface with its name and the numbers of bytes, packets, errors and drops.
pub record Interface : Type 0 where
  pub ifname : Text
  pub received : List ℕ
  pub sent : List ℕ

-- the numbers behind the name that `%63[^:]` finds
abbrev pub interface_of : (name rest : Text) → Outcome (Option Interface)
interface_of [] rest = ok none
interface_of (c ∷ name) rest = elim (leb 64 (length (c ∷ name))) [
  | true ↦ ok none
  | false ↦ next (scan_unsigned 12 (drop 1 rest)) λ found. elim found [
    | none ↦ ok none
    | some ns ↦
        ok (some (record { ifname = c ∷ name; received = take 4 ns; sent = take 4 (drop 8 ns) }))
  ]
]

-- a line of /proc/net/dev; the numbers behind the twelfth do not count
unfoldable pub interface_in : Text → Outcome (Option Interface)
interface_in line = let (name, rest) = span (λ c. not (c == b':')) line in interface_of name rest

-- an interface that is shown
abbrev pub is_shown : Option Interface → Bool
is_shown none = false
is_shown (some i) = not (str_eq i.ifname (codes "lo"))

unfoldable pub interfaces : List Text → Outcome (List Interface)
interfaces [] = ok []
interfaces (line ∷ lines) = next (interface_in line) λ found. next (interfaces lines) λ rest.
    elim found [ none ↦ ok rest | some i ↦ ok (if is_shown (some i) then i ∷ rest else rest) ]

-- what follows for the lines of /proc/net/dev
abbrev pub listed_interfaces : List Text → Outcome (ℕ × List Interface)
listed_interfaces [] = ok (1, [])
listed_interfaces (title ∷ []) = ok (1, [])
listed_interfaces (title ∷ columns ∷ lines) = next (interfaces lines) λ shown. ok (0, shown)

-- the status of `monitor network` and the interfaces it shows, for the bytes of /proc/net/dev, which are
-- read into an array of 256
unfoldable pub monitor_network : Option Text → Outcome (ℕ × List Interface)
monitor_network none = ok (1, [])
monitor_network (some file) = listed_interfaces (lines_of 256 file)

-- whether a device of /proc/diskstats is shown
unfoldable pub shows_disk : Text → Bool
shows_disk dev_name = not (
    has_prefix (codes "ram") dev_name
    || has_prefix (codes "loop") dev_name
    || has_prefix (codes "zram") dev_name
    || ends_with_digit dev_name)
  where
    ends_with_digit : Text → Bool
    ends_with_digit [] = false
    ends_with_digit (c ∷ []) = is_digit c
    ends_with_digit (c ∷ d ∷ t) = ends_with_digit (d ∷ t)

-- the types of mounted file systems that are not shown
abbrev hidden_types : List Text
hidden_types =
    codes "proc"
    ∷ codes "sysfs"
    ∷ codes "cgroup"
    ∷ codes "cgroup2"
    ∷ codes "devpts"
    ∷ codes "devtmpfs"
    ∷ codes "pstore"
    ∷ codes "securityfs"
    ∷ codes "autofs"
    ∷ codes "debugfs"
    ∷ codes "tracefs"
    ∷ codes "configfs"
    ∷ codes "efivarfs"
    ∷ codes "mqueue"
    ∷ codes "hugetlbfs"
    ∷ codes "bpf"
    ∷ codes "overlay"
    ∷ []

unfoldable pub shows_mount : (mnt_dev mnt_fstype : Text) → Bool
shows_mount mnt_dev mnt_fstype = not (
    is_one_of hidden_types mnt_fstype
    || has_prefix (codes "cgroup") mnt_dev
    || has_prefix (codes "fuse.") mnt_fstype)

-- the sizes of a mounted file system, where statvfs gives its blocks and their size
pub record Usage : Type 0 where
  pub total_size : ℕ
  pub free_size : ℕ
  pub used_size : ℕ

unfoldable pub usage_of : (f_blocks f_bfree f_frsize : ℕ) → Option Usage
usage_of f_blocks f_bfree f_frsize =
    let total = f_blocks * f_frsize % 2 ^ 64 in
    let free = f_bfree * f_frsize % 2 ^ 64 in
    if ltb 0 f_frsize
    then some (record {
      total_size = total;
      free_size = free;
      used_size = (total + (2 ^ 64 - free)) % 2 ^ 64;
    })
    else none

-- the sections of /proc/devices
pub data Section : Type 0 where
  start character_devices block_devices : Section

-- the lines behind the titles, each with its section
unfoldable pub device_lines : Section → List Text → List (Section × Text)
device_lines section [] = []
device_lines section (line ∷ lines) =
    let characters = device_lines character_devices lines in
    let blocks = device_lines block_devices lines in
    let rest = device_lines section lines in
    if str_eq (without_newline line) (codes "Character devices:")
    then characters
    else if str_eq (without_newline line) (codes "Block devices:")
    then blocks
    else listed section (without_newline line) rest
  where
    listed : Section → Text → List (Section × Text) → List (Section × Text)
    listed start line rest = rest
    listed section [] rest = rest
    listed section (c ∷ t) rest = (section, c ∷ t) ∷ rest

-- the entries of /sys/class that are shown
unfoldable pub class_names : (room : ℕ) → List Text → List Text
class_names zero entries = []
class_names (suc room) [] = []
class_names (suc room) (entry ∷ entries) = elim (has_prefix (codes ".") entry) [
  | true ↦ class_names (suc room) entries
  | false ↦ entry ∷ class_names room entries
]

-- days, hours, minutes and seconds of the time since the start
unfoldable pub uptime_parts : (uptime_secs : ℕ) → ℕ × ℕ × ℕ × ℕ
uptime_parts uptime_secs =
    (uptime_secs / 86400, uptime_secs % 86400 / 3600, uptime_secs % 3600 / 60, uptime_secs % 60)

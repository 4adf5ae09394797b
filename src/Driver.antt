-- ===== src/Driver.antt =====
-- oscddrv/src/main.c, the character device: one buffer that all open files share, a position for
-- each open file, and the ioctl commands. Every handler runs under the one mutex of the module, so
-- handlers are steps. What the kernel's helpers answer (copy_to_user, krealloc, ...) is an argument.
pub mod Bounds
pub mod Lifecycle
mod Tests
use ostd_final.Common.{
  ℕ, ◌+◌, ◌-◌, ◌%◌, ◌^◌, min, Bool, true, false, not, ◌&&◌, ◌||◌, Option, none, some, ltb, leb,
  ◌==◌, if◌then◌else◌,
}

-- struct oscddrv_private
pub record Private : Type 0 where
  pub offset : ℕ
  pub writes : ℕ
  pub reads : ℕ

-- the module's globals
pub record Driver : Type 0 where
  pub buffer : ℕ → ℕ
  pub bufsize : ℕ
  pub total_writes : ℕ
  pub total_reads : ℕ
  pub mode : ℕ

pub data Errno : Type 0 where
  enomem efault enospc einval enotty : Errno

-- The return value of a handler: a count, or a negative error number.
pub data Reply : Type 0 where
  count : ℕ → Reply
  error : Errno → Reply

-- an `int` counter plus one, as a 32-bit pattern
abbrev pub next : ℕ → ℕ
next n = (n + 1) % 2 ^ 32

abbrev pub mode_normal : ℕ
mode_normal = 0

abbrev pub mode_performance : ℕ
mode_performance = 1

-- the globals as `oscddrv_init` sets them, over a buffer from kzalloc
abbrev pub loaded : Driver
loaded = record { buffer = λ i. 0; bufsize = 4096; total_writes = 0; total_reads = 0; mode = 0 }

-- oscddrv_open, with whether kzalloc delivers
unfoldable pub open_file : Bool → Reply × Option Private
open_file false = (error enomem, none)
open_file true = (count 0, some (record { offset = 0; writes = 0; reads = 0 }))

-- oscddrv_read, with whether copy_to_user copies all; the last part is what the user's buffer gets
unfoldable pub read_file : Bool → ℕ → Private → Driver → Reply × Private × Driver × (ℕ → Option ℕ)
read_file copied n p d =
    let to_read = min n (d.bufsize - p.offset) in
    if leb d.bufsize p.offset
    then (count 0, p, d, λ i. none)
    else if to_read == 0
    then (count 0, p, d, λ i. none)
    else if not copied
    then (error efault, p, d, λ i. none)
    else (
      count to_read,
      record p { offset = p.offset + to_read; reads = next p.reads },
      record d { total_reads = next d.total_reads },
      λ i. if ltb i to_read then some (d.buffer (p.offset + i)) else none,
    )

-- the buffer with other bytes in a range
abbrev pub replaced : (start size : ℕ) → (ℕ → ℕ) → Driver → (ℕ → ℕ)
replaced start size bytes d i =
    if leb start i && ltb i (start + size) then bytes (i - start) else d.buffer i

-- oscddrv_write of the bytes `src`; where copy_from_user does not copy all, with the bytes that it leaves
-- in the range that it was to fill
unfoldable pub write_file :
    (fault : Option (ℕ → ℕ)) → (ℕ → ℕ) → ℕ → Private → Driver → Reply × Private × Driver
write_file fault src n p d =
    let to_write = min n (d.bufsize - p.offset) in
    if leb d.bufsize p.offset
    then (error enospc, p, d)
    else if to_write == 0
    then (count 0, p, d)
    else elim fault [
      | some left ↦ (error efault, p, record d { buffer = replaced p.offset to_write left d })
      | none ↦ (
        count to_write,
        record p { offset = p.offset + to_write; writes = next p.writes },
        record d { buffer = replaced p.offset to_write src d; total_writes = next d.total_writes },
      )
    ]

-- The ioctl commands, with what get_user delivers, and for `set_bufsize` what krealloc delivers: the
-- bytes behind those that it kept.
pub data Command : Type 0 where
  get_stats : Bool → Command
  reset : Command
  set_bufsize : Option ℕ → Option (ℕ → ℕ) → Command
  set_mode : Option ℕ → Command
  other : Command

-- krealloc(buffer, new_size), then memset of what lies behind the old size
unfoldable pub resize : ℕ → (ℕ → ℕ) → Driver → Driver
resize new_size junk d =
    let kept = λ (i : ℕ). if ltb i (min d.bufsize new_size) then d.buffer i else junk i in
    record d {
      buffer = λ i. if leb d.bufsize i && ltb i new_size then 0 else kept i;
      bufsize = new_size;
    }

-- CMD_SET_BUFSIZE behind get_user
unfoldable pub change_bufsize : ℕ → Option (ℕ → ℕ) → Driver → Reply × Driver
change_bufsize new_size room d =
    if new_size == 0 || ltb 65536 new_size
    then (error einval, d)
    else if new_size == d.bufsize
    then (count 0, d)
    else elim room [ none ↦ (error enomem, d) | some junk ↦ (count 0, resize new_size junk d) ]

-- CMD_SET_MODE behind get_user
unfoldable pub change_mode : ℕ → Driver → Reply × Driver
change_mode mode d =
    if not (mode == mode_normal) && not (mode == mode_performance)
    then (error einval, d)
    else (count 0, record d { mode = mode })

-- oscddrv_ioctl
unfoldable pub ioctl : Command → Driver → Reply × Driver
unfolding change_bufsize change_mode
ioctl (get_stats true) d = (count 0, d)
ioctl (get_stats false) d = (error efault, d)
ioctl reset d = (
  count 0,
  record d {
    buffer = λ i. if ltb i d.bufsize then 0 else d.buffer i;
    total_writes = 0;
    total_reads = 0;
  },
)
ioctl (set_bufsize none room) d = (error efault, d)
ioctl (set_bufsize (some new_size) room) d = change_bufsize new_size room d
ioctl (set_mode none) d = (error efault, d)
ioctl (set_mode (some mode)) d = change_mode mode d
ioctl other d = (error enotty, d)

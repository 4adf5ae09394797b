-- ===== src/Driver/Bounds.antt =====
-- The handlers of oscddrv/src/main.c over the shared buffer.
use ostd_final.Common.{
  refl, inl, ℕ, ◌+◌, ◌≤◌, ◌<◌, ◌≡◌, ◌⊎◌, Bool, true, false, Option, none, some, arith, ltb,
  if◌then◌else◌,
}
use ostd_final.Driver.{
  Private, Driver, count, Command, get_stats, reset, set_bufsize, set_mode, other, read_file,
  write_file, ioctl, resize, mode_normal, mode_performance, loaded,
}

-- The size is one that the driver accepts, and the mode is one of the two.
pub record IsValid (d : Driver) : Type 0 where
  pub nonempty : 0 < d.bufsize
  pub bounded : d.bufsize ≤ 65536
  pub known_mode : (d.mode ≡ mode_normal) ⊎ (d.mode ≡ mode_performance)

-- What one handler does to the globals, whatever the file, the arguments and the answers.
pub data Step : Driver → Driver → Type 0 where
  reading : {d : Driver} (copied : Bool) (n : ℕ) (p : Private) → Step d (read_file copied n p d).2
  writing :
      {d : Driver} (fault : Option (ℕ → ℕ)) (src : ℕ → ℕ) (n : ℕ) (p : Private)
      → Step d (write_file fault src n p d).2
  control : {d : Driver} (c : Command) → Step d (ioctl c d).1

pub data Reach (d : Driver) : Driver → Type 0 where
  here : Reach d d
  further : {e f : Driver} → Reach d e → Step e f → Reach d f

ioctl-IsValid : (c : Command) {d : Driver} → IsValid d → IsValid (ioctl c d).1
unfolding ioctl resize
ioctl-IsValid (get_stats true) v = v
ioctl-IsValid (get_stats false) v = v
ioctl-IsValid reset v = ground arith
ioctl-IsValid (set_bufsize none room) v = v
ioctl-IsValid (set_bufsize (some n) none) v = ground arith
ioctl-IsValid (set_bufsize (some n) (some junk)) v = ground arith
ioctl-IsValid (set_mode none) v = v
ioctl-IsValid (set_mode (some mode)) v = ground arith
ioctl-IsValid other v = v

Step-IsValid : {d e : Driver} → Step d e → IsValid d → IsValid e
unfolding read_file write_file
Step-IsValid (reading copied n p) v = ground arith
Step-IsValid (writing none src n p) v = ground arith
Step-IsValid (writing (some left) src n p) v = ground arith
Step-IsValid (control c) v = ioctl-IsValid c v

keeps_IsValid : {d e : Driver} → IsValid d → Reach d e → IsValid e
keeps_IsValid v here = v
keeps_IsValid v (further r st) = Step-IsValid st (keeps_IsValid v r)

loaded-IsValid : IsValid loaded
loaded-IsValid = record { nonempty = omega arith; bounded = omega arith; known_mode = inl refl }

-- Whatever handlers run after loading, in whatever order, the size stays between 1 and 65536 and
-- the mode is a known one.
pub Reach-IsValid : {e : Driver} → Reach loaded e → IsValid e
Reach-IsValid r = keeps_IsValid loaded-IsValid r

-- A read that returns a positive count moved the position by it, inside the buffer.
read_bounds :
    (copied : Bool) (n k : ℕ) (p : Private) (d : Driver)
    → 0 < k
    → (read_file copied n p d).0 ≡ count k
    → (k ≤ n) × ((read_file copied n p d).1.offset ≡ p.offset + k) × (p.offset + k ≤ d.bufsize)
unfolding read_file
read_bounds copied n k p d h e = ground arith

-- A write that returns a positive count moved the position by it, inside the buffer, and left
-- every byte outside that range as it was.
pub write_bounds :
    (fault : Option (ℕ → ℕ)) (src : ℕ → ℕ) (n k i : ℕ) (p : Private) (d : Driver)
    → 0 < k
    → (write_file fault src n p d).0 ≡ count k
    → (i < p.offset) ⊎ (p.offset + k ≤ i)
    → (k ≤ n)
      × ((write_file fault src n p d).1.offset ≡ p.offset + k)
      × (p.offset + k ≤ d.bufsize)
      × ((write_file fault src n p d).2.buffer i ≡ d.buffer i)
unfolding write_file
write_bounds none src n k i p d h e outside = ground arith
write_bounds (some left) src n k i p d h e outside = ground arith

-- A read of k bytes through any file at the position of a write that returned k returns k, and
-- its i-th byte is the i-th that was written, for i below k. Both copies are complete.
pub read-write :
    (src : ℕ → ℕ) (n k i : ℕ) (p q : Private) (d : Driver)
    → i < k
    → (write_file none src n p d).0 ≡ count k
    → q.offset ≡ p.offset
    → ((read_file true k q (write_file none src n p d).2).0 ≡ count k)
      × ((read_file true k q (write_file none src n p d).2).3 i ≡ some (src i))
unfolding read_file write_file
read-write src n k i p q d b w same = (ground arith, ground arith)

-- A change of the size that succeeds keeps the bytes below both sizes, and all others are zero: none
-- that krealloc left uninitialised can be read.
pub resize-bytes :
    (new_size : ℕ) (room : Option (ℕ → ℕ)) (d d' : Driver) (i : ℕ)
    → ioctl (set_bufsize (some new_size) room) d ≡ (count 0, d')
    → i < d'.bufsize
    → (d'.bufsize ≡ new_size) × (d'.buffer i ≡ (if ltb i d.bufsize then d.buffer i else 0))
unfolding ioctl resize
resize-bytes new_size none d d' i e h = ground arith
resize-bytes new_size (some junk) d d' i e h = ground arith

-- ===== src/Driver/Tests.antt =====
-- Concrete devices for the lemmas about oscddrv/src/main.c.
use ostd_final.Common.{
  ℕ, ◌+◌, ◌≡◌, ◌≤◌, ◌<◌, refl, true, none, some, inr, arith, ltb, if◌then◌else◌,
}
use ostd_final.Driver.{
  Private, Driver, loaded, count, read_file, write_file, set_bufsize, reset, ioctl, change_bufsize,
  resize,
}
use ostd_final.Driver.Bounds.{
  IsValid, here, further, writing, control, Reach-IsValid, write_bounds, read-write, resize-bytes,
}
use ostd_final.Driver.Lifecycle.{Answers, AllOrNothing, init_module, nothing, init-AllOrNothing}

abbrev fresh_file : Private
fresh_file = record { offset = 0; writes = 0; reads = 0 }

abbrev letters : ℕ → ℕ
letters i = 65 + i

abbrev written : Driver
written = (write_file none letters 5 fresh_file loaded).2

wrote : (write_file none letters 5 fresh_file loaded).0 ≡ count 5
unfolding write_file
wrote = refl

have_read : (read_file true 3 fresh_file loaded).0 ≡ count 3
unfolding read_file
have_read = refl

Reach-IsValid_example : IsValid (ioctl reset written).1
Reach-IsValid_example =
    Reach-IsValid (further (further here (writing none letters 5 fresh_file)) (control reset))

write_bounds_example :
    (5 ≤ 5)
    × ((write_file none letters 5 fresh_file loaded).1.offset ≡ fresh_file.offset + 5)
    × (fresh_file.offset + 5 ≤ loaded.bufsize)
    × ((write_file none letters 5 fresh_file loaded).2.buffer 7 ≡ loaded.buffer 7)
write_bounds_example =
    write_bounds none letters 5 5 7 fresh_file loaded (omega arith) wrote (inr (omega arith))

read-write_example :
    ((read_file true 5 fresh_file written).0 ≡ count 5)
    × ((read_file true 5 fresh_file written).3 2 ≡ some (letters 2))
read-write_example = read-write letters 5 5 2 fresh_file fresh_file loaded (omega arith) wrote refl

abbrev shrunk : Driver
shrunk = resize 3 (λ i. 99) written

shrinks : ioctl (set_bufsize (some 3) (some (λ i. 99))) written ≡ (count 0, shrunk)
unfolding ioctl change_bufsize write_file
shrinks = refl

shrunk_size : 1 < shrunk.bufsize
unfolding resize
shrunk_size = omega arith

resize-bytes_example :
    (shrunk.bufsize ≡ 3)
    × (shrunk.buffer 1 ≡ (if ltb 1 written.bufsize then written.buffer 1 else 0))
resize-bytes_example = resize-bytes 3 (some (λ i. 99)) written shrunk 1 shrinks shrunk_size

-- the class cannot be made
abbrev no_class : Answers
no_class = record {
  kzalloc = true;
  alloc_chrdev_region = none;
  cdev_add = none;
  class_create = some 12;
  device_create = none;
}

init-AllOrNothing_example : AllOrNothing (init_module no_class nothing)
init-AllOrNothing_example = init-AllOrNothing no_class

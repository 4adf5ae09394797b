-- ===== src/Driver/Lifecycle.antt =====
-- Loading and unloading of oscddrv/src/main.c: the five resources that `oscddrv_init` takes in turn,
-- and the labels that give them back when a later one cannot be had.
use ostd_final.Common.{ℕ, ◌≡◌, refl, Bool, true, false, Option, none, some, if◌then◌else◌}

-- what the module holds
pub record Held : Type 0 where
  pub buffer : Bool
  pub devno : Bool
  pub cdev : Bool
  pub class : Bool
  pub device : Bool

abbrev pub nothing : Held
nothing = record { buffer = false; devno = false; cdev = false; class = false; device = false }

abbrev pub everything : Held
everything = record { buffer = true; devno = true; cdev = true; class = true; device = true }

-- what kzalloc, alloc_chrdev_region, cdev_add, class_create and device_create answer: none for
-- success, or the error number
pub record Answers : Type 0 where
  pub kzalloc : Bool
  pub alloc_chrdev_region : Option ℕ
  pub cdev_add : Option ℕ
  pub class_create : Option ℕ
  pub device_create : Option ℕ

-- -ENOMEM
abbrev pub enomem : ℕ
enomem = 12

-- err_buffer
abbrev pub err_buffer : Held → Held
err_buffer h = record h { buffer = false }

-- err_cdev, which falls through to err_buffer
abbrev pub err_cdev : Held → Held
err_cdev h = err_buffer (record h { devno = false })

abbrev pub err_class : Held → Held
err_class h = err_cdev (record h { cdev = false })

abbrev pub err_device : Held → Held
err_device h = err_class (record h { class = false })

-- device_create, and what follows
unfoldable pub init_device : Answers → Held → Option ℕ × Held
init_device a h = elim a.device_create [
  | some e ↦ (some e, err_device h)
  | none ↦ (none, record h { device = true })
]

unfoldable pub init_class : Answers → Held → Option ℕ × Held
unfolding init_device
init_class a h = elim a.class_create [
  | some e ↦ (some e, err_class h)
  | none ↦ init_device a (record h { class = true })
]

unfoldable pub init_cdev : Answers → Held → Option ℕ × Held
unfolding init_class
init_cdev a h = elim a.cdev_add [
  | some e ↦ (some e, err_cdev h)
  | none ↦ init_class a (record h { cdev = true })
]

unfoldable pub init_devno : Answers → Held → Option ℕ × Held
unfolding init_cdev
init_devno a h = elim a.alloc_chrdev_region [
  | some e ↦ (some e, err_buffer h)
  | none ↦ init_cdev a (record h { devno = true })
]

-- oscddrv_init: none for the return value 0
unfoldable pub init_module : Answers → Held → Option ℕ × Held
unfolding init_devno
init_module a h = if a.kzalloc then init_devno a (record h { buffer = true }) else (some enomem, h)

-- oscddrv_exit
unfoldable pub exit_module : Held → Held
exit_module h = record h {
  device = false;
  class = false;
  cdev = false;
  devno = false;
  buffer = false;
}

-- A result that loading may have: all five resources, or an error and none.
abbrev pub AllOrNothing : Option ℕ × Held → Type 0
AllOrNothing (none, h) = (h ≡ everything) × (exit_module h ≡ nothing)
AllOrNothing (some e, h) = h ≡ nothing

-- Loading is all or nothing, whichever call fails: on success the module holds all five resources,
-- and unloading gives all back; on an error it holds none.
pub init-AllOrNothing : (a : Answers) → AllOrNothing (init_module a nothing)
unfolding init_module exit_module
init-AllOrNothing a = go a.kzalloc a.alloc_chrdev_region a.cdev_add a.class_create a.device_create
  where
    go :
        (k : Bool) (n c l d : Option ℕ)
        → AllOrNothing (
            init_module
              (record {
                kzalloc = k;
                alloc_chrdev_region = n;
                cdev_add = c;
                class_create = l;
                device_create = d;
              })
              nothing)
    go false n c l d = refl
    go true (some e) c l d = refl
    go true none (some e) l d = refl
    go true none none (some e) d = refl
    go true none none none (some e) = refl
    go true none none none none = (refl, refl)

-- ===== src/Fs/Answer.antt =====
-- What the callbacks of oscdfs/src/fuse.c return: a value, or one of the negative error numbers.
use ostd_final.Common.{Bool, true, false, Option, none, some}
use ostd_final.Common.Exec.{pure, attempt, and_then}
use ostd_final.Fs.State.{Cmd}

pub data FuseError : Type 0 where
  enoent eio eacces eexist enotdir eisdir einval enospc enotempty : FuseError

pub data Answer (A : Type 0) : Type 0 where
  done : A → Answer A
  errno : FuseError → Answer A

abbrev pub Fuse : Type 0 → Type 0
Fuse A = Cmd (Answer A)

abbrev pub continue : {A B : Type 0} → (A → Fuse B) → Answer A → Fuse B
continue k (done a) = k a
continue k (errno e) = pure (errno e)

infixl 5 ◌>>=◌ ◌>>◌
abbrev pub ◌>>=◌ : {A B : Type 0} → Fuse A → (A → Fuse B) → Fuse B
◌>>=◌ m k s = and_then (m s) (continue k)

abbrev pub ◌>>◌ : {B : Type 0} → Fuse (Unit {0}) → Fuse B → Fuse B
m >> k = m >>= λ _. k

abbrev pub return : {A : Type 0} → A → Fuse A
return a = pure (done a)

abbrev pub or_errno : {A : Type 0} → FuseError → Option A → Answer A
or_errno e none = errno e
or_errno e (some a) = done a

-- `if (call fails) return -e;`
abbrev pub or_error : {A : Type 0} → FuseError → Cmd A → Fuse A
or_error e m s = and_then (attempt m s) (λ found. pure (or_errno e found))

-- a call that does not return -1, or whose result is not looked at
abbrev pub run : {A : Type 0} → Cmd A → Fuse A
run m s = and_then (m s) return

-- `if (!test) return -e;`
abbrev pub check : FuseError → Bool → Fuse (Unit {0})
check e true = return tt
check e false = pure (errno e)

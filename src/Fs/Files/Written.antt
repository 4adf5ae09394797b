-- ===== src/Fs/Files/Written.antt =====
-- The loop of `oscdfs_write` in oscdfs/src/file.c.
use ostd_final.Common.{◌+◌, ◌-◌, ◌%◌, ◌^◌, ◌≤◌, ◌≡◌, Bool, true, false}
use ostd_final.Common.Exec.{Outcome, ok, fail, exited, undefined, unfinished}
use ostd_final.Fs.State.{Fs}
use ostd_final.Fs.Inode.{Inode}
use ostd_final.Fs.Files.{Transfer}

-- A value, or the return value -1.
abbrev ends : {A : Type 0} → Outcome A → Bool
ends (ok a) = true
ends fail = true
ends exited = false
ends undefined = false
ends unfinished = false

-- What the loop makes of a transfer: it fails, or moved some of the bytes that remained, and the
-- position by as many.
pub data Wrote (t : Transfer) : Outcome Transfer × (Inode × Fs) → Type 0 where
  stopped : {x : Inode × Fs} → Wrote t (fail, x)
  wrote :
      {t' : Transfer} {x : Inode × Fs}
      → t.total ≤ t'.total
      → t'.total + t'.remaining ≡ t.total + t.remaining
      → t'.cur ≡ (t.cur + (t'.total - t.total)) % 2 ^ 32
      → t'.buf ≡ t.buf
      → Wrote t (ok t', x)

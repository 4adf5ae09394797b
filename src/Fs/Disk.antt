-- ===== src/Fs/Disk.antt =====
-- oscdfs/src/disk.c: whole-block transfer under the process's one descriptor and mutex.
use ostd_final.Common.{
  ℕ, min, not, inl, inr, refl, Bool-cases, ◌&&◌, ◌⊎◌, ◌≡◌, arith, if◌then◌else◌,
}
use ostd_final.Common.Exec.{Outcome, ok, fail}
use ostd_final.Fs.Bytes.{Block, put_bytes}
use ostd_final.Fs.State.{Device, Fs, Cmd, store_block}

-- A call that fails, with block n written at most.
abbrev pub Failed : {A : Type 0} → ℕ → Fs → Outcome A × Fs → Type 0
Failed n s r = (r ≡ (fail, s)) ⊎ ((b : Block) × (r ≡ (fail, store_block s n b)))

module _ ⦃dev : Device⦄ where
  -- The seek and the loop over `read` either deliver all 4096 bytes or fail.
  unfoldable pub read_block : ℕ → Cmd Block
  read_block n s = if s.opened && dev.read_ok s.writes n then (ok (s.disk n), s) else (fail, s)

  -- the block that a write which fails leaves: fewer than 4096 bytes of the new one
  unfoldable pub torn : ℕ → Block → Fs → Block
  torn n b s = put_bytes (s.disk n) 0 (min (dev.partial s.writes n) 4095) b

  -- The seek and the loop over `write` deliver all 4096 bytes, or fail, with some of them written.
  unfoldable pub write_block : ℕ → Block → Cmd (Unit {0})
  write_block n b s =
      if not s.opened
      then (fail, s)
      else if dev.write_ok s.writes n
      then (ok tt, store_block s n b)
      else (fail, store_block s n (torn n b s))

  pub state-read_block : (n : ℕ) (s : Fs) → (read_block n s).1 ≡ s
  unfolding read_block
  state-read_block n s = ground arith

  pub write_block_cases :
      (n : ℕ) (b : Block) (s : Fs)
      → Failed n s (write_block n b s) ⊎ (write_block n b s ≡ (ok tt, store_block s n b))
  unfolding write_block
  write_block_cases n b s = elim (Bool-cases (not s.opened)) [
    | inl shut ↦ inl (inl (rw shut refl))
    | inr open_now ↦ elim (Bool-cases (dev.write_ok s.writes n)) [
      | inl good ↦ inr (rw (open_now, good) refl)
      | inr bad ↦ inl (inr (torn n b s, rw (open_now, bad) refl))
    ]
  ]

  pub read_block_cases :
      (n : ℕ) (s : Fs) → (read_block n s ≡ (fail, s)) ⊎ (read_block n s ≡ (ok (s.disk n), s))
  unfolding read_block
  read_block_cases n s = ground arith

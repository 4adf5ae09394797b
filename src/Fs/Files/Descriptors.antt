-- ===== src/Fs/Files/Descriptors.antt =====
-- The table of descriptors of oscdfs/src/file.c.
use ostd_final.Common.{
  ℕ, zero, suc, ◌+◌, ◌≤◌, ◌<◌, ◌≡◌, ◌≢◌, refl, ◌⊎◌, inl, inr, true, false, none, some, ap, arith,
  Bool-cases, Option-cases,
}
use mathlib.Core.Path.{subst}
use ostd_final.Common.Exec.{ok, fail}
use ostd_final.Fs.State.{Fs}
use ostd_final.Fs.Files.{max_open_files, find_slot, take_slot, alloc_fd, free_fd, close}

find_slot-some :
    (n i : ℕ) (s : Fs) {r : ℕ}
    → find_slot n i s ≡ some r
    → ((s.fd_table r).used ≡ false)
      × (r < i + n)
      × ((j : ℕ) → i ≤ j → j < r → (s.fd_table j).used ≡ true)
unfolding find_slot
find_slot-some zero i s h = cc
find_slot-some (suc n) i s {r} h = elim (Bool-cases (s.fd_table i).used) [
  | inl used ↦
      let rest : find_slot n (i + 1) s ≡ some r = ground arith in
      let (free, high, below) = find_slot-some n (i + 1) s rest in
      (free, omega arith, λ j p q. ground (arith, below j))
  | inr free ↦
      let here : i ≡ r = ground arith in
      (rw (← here) free, omega arith, λ j p q. absurd (omega arith))
]

find_slot-none :
    (n i : ℕ) (s : Fs)
    → find_slot n i s ≡ none
    → (j : ℕ) → i ≤ j
    → j < i + n
    → (s.fd_table j).used ≡ true
unfolding find_slot
find_slot-none zero i s h j p q = absurd (omega arith)
find_slot-none (suc n) i s h j p q =
    let rest : find_slot n (i + 1) s ≡ none = ground arith in
    ground (arith, find_slot-none n (i + 1) s rest j)

-- A descriptor was handed out: the lowest that was unused, and no other slot differs.
pub record Opened (s s' : Fs) (fd : ℕ) : Type 0 where
  pub in_range : fd < max_open_files
  pub was_free : (s.fd_table fd).used ≡ false
  pub lowest : (j : ℕ) → j < fd → (s.fd_table j).used ≡ true
  pub now_used : (s'.fd_table fd).used ≡ true
  pub others : (j : ℕ) → j ≢ fd → s'.fd_table j ≡ s.fd_table j

-- `alloc_fd` hands out the lowest unused descriptor and leaves the other slots as they were; it
-- fails, and changes nothing, only when all 64 are in use.
pub alloc_fd_lem :
    (s : Fs)
    → ((alloc_fd s ≡ (fail, s)) × ((j : ℕ) → j < max_open_files → (s.fd_table j).used ≡ true))
      ⊎ ((fd : ℕ) × ((alloc_fd s).0 ≡ ok fd) × Opened s (alloc_fd s).1 fd)
unfolding alloc_fd take_slot
alloc_fd_lem s = elim (Option-cases (find_slot max_open_files 0 s)) [
  | inl e ↦
      rw e (inl (refl, λ j p. find_slot-none max_open_files 0 s e j (omega arith) (omega arith)))
  | inr (fd, e) ↦
      let (free, high, below) = find_slot-some max_open_files 0 s e in
      rw e (
        inr (
          fd,
          refl,
          record {
            in_range = omega arith;
            was_free = free;
            lowest = λ j p. below j (omega arith) p;
            now_used = ground arith;
            others = λ j ne. ground arith;
          },
        ))
]

close-Opened :
    (s s' : Fs) (fd j : ℕ)
    → Opened s s' fd
    → ((close fd s').0 ≡ ok tt)
      × (((close fd s').1.fd_table j).used ≡ (s.fd_table j).used)
      × ((close fd (close fd s').1).0 ≡ fail)
unfolding close free_fd
close-Opened s s' fd j o = (
  ground (arith, o.in_range, o.now_used),
  ground (arith, o.in_range, o.now_used, o.was_free, used_else),
  ground (arith, o.in_range, o.now_used),
)
  where
    used_else : j ≢ fd → (s'.fd_table j).used ≡ (s.fd_table j).used
    used_else n = ap (λ d. d.used) (o.others j n)

-- A descriptor that `alloc_fd` handed out can be closed. Then exactly those slots are in use that
-- were before, and closing it once more fails.
pub close-alloc_fd :
    (s s' : Fs) (fd j : ℕ)
    → alloc_fd s ≡ (ok fd, s')
    → ((close fd s').0 ≡ ok tt)
      × (((close fd s').1.fd_table j).used ≡ (s.fd_table j).used)
      × ((close fd (close fd s').1).0 ≡ fail)
close-alloc_fd s s' fd j e = close-Opened s s' fd j (elim (alloc_fd_lem s) [
  | inl (f, full) ↦ cc
  | inr (g, r, o) ↦
      let same : g ≡ fd = cc in
      subst (λ x. Opened s x fd) (ap (λ r. r.1) e) (subst (λ i. Opened s (alloc_fd s).1 i) same o)
])

-- ===== src/Shell/Monitor/Listed.antt =====
-- The processes that `monitor process` of oscdsh/src/monitor.c lists, and their order.
use ostd_final.Common.{
  ℕ, zero, suc, ◌≡◌, refl, sym, ◌∙◌, inl, inr, true, false, Option, none, some, List, [], ◌∷◌, map,
  take, drop, if◌then◌else◌, arith, Bool-cases, Option-cases, All,
}
use mathlib.Core.List.{Perm, Pairwise}
use mathlib.Core.List.Pairwise
use mathlib.Core.List.Perm
use ostd_final.Common.Exec.{Outcome, ok}
use ostd_final.Common.Int.{ℤ, pos, ltb_ℤ}
use ostd_final.Common.Text.{Text, codes}
use ostd_final.Shell.Monitor.Processes.{
  ProcInfo, ProcessOptions, Row, process_options, is_num, matches, cmp_proc_by_rss, row_of,
  read_proc, collect, list_processes, monitor_process,
}

-- a comparison that qsort may be given: it orders all values, equal ones in any order
pub record IsComparison (cmp : ProcInfo → ProcInfo → ℤ) : Type 0 where
  pub opposite : (a b : ProcInfo) → ltb_ℤ (cmp a b) (pos 0) ≡ ltb_ℤ (pos 0) (cmp b a)
  pub trans :
      (a b c : ProcInfo)
      → ltb_ℤ (pos 0) (cmp a b) ≡ false
      → ltb_ℤ (pos 0) (cmp b c) ≡ false
      → ltb_ℤ (pos 0) (cmp a c) ≡ false

-- What the C library says of qsort.
pub record IsQsort (qsort : (ProcInfo → ProcInfo → ℤ) → List ProcInfo → List ProcInfo)
    : Type 0 where
  pub perm :
      (cmp : ProcInfo → ProcInfo → ℤ)
      → IsComparison cmp
      → (ps : List ProcInfo) → Perm (qsort cmp ps) ps
  pub sorted :
      (cmp : ProcInfo → ProcInfo → ℤ)
      → IsComparison cmp
      → (ps : List ProcInfo) → Pairwise (λ a b. ltb_ℤ (pos 0) (cmp a b) ≡ false) (qsort cmp ps)

ltb_ℤ_asymm : (x y : ℤ) → ltb_ℤ x y ≡ true → ltb_ℤ y x ≡ false
ltb_ℤ_asymm x y h = ground arith

ltb_ℤ_trans : (x y z : ℤ) → ltb_ℤ x y ≡ false → ltb_ℤ y z ≡ false → ltb_ℤ x z ≡ false
ltb_ℤ_trans x y z h k = ground arith

-- positive where the second process has more memory
cmp-positive :
    (a b : ProcInfo) → ltb_ℤ (pos 0) (cmp_proc_by_rss a b) ≡ ltb_ℤ a.vm_rss_kb b.vm_rss_kb
unfolding cmp_proc_by_rss
cmp-positive a b = elim (Bool-cases (ltb_ℤ a.vm_rss_kb b.vm_rss_kb)) [
  | inl less ↦ rw less refl
  | inr not_less ↦ elim (Bool-cases (ltb_ℤ b.vm_rss_kb a.vm_rss_kb)) [
    | inl more ↦ rw (not_less, more) refl
    | inr equal ↦ rw (not_less, equal) refl
  ]
]

cmp-negative :
    (a b : ProcInfo) → ltb_ℤ (cmp_proc_by_rss a b) (pos 0) ≡ ltb_ℤ b.vm_rss_kb a.vm_rss_kb
unfolding cmp_proc_by_rss
cmp-negative a b = elim (Bool-cases (ltb_ℤ a.vm_rss_kb b.vm_rss_kb)) [
  | inl less ↦ rw (less, ltb_ℤ_asymm a.vm_rss_kb b.vm_rss_kb less) refl
  | inr not_less ↦ elim (Bool-cases (ltb_ℤ b.vm_rss_kb a.vm_rss_kb)) [
    | inl more ↦ rw (not_less, more) refl
    | inr equal ↦ rw (not_less, equal) refl
  ]
]

cmp_proc_by_rss-IsComparison : IsComparison cmp_proc_by_rss
cmp_proc_by_rss-IsComparison = record {
  opposite = λ a b. cmp-negative a b ∙ sym (cmp-positive b a);
  trans = λ a b c h k.
      cmp-positive a c
      ∙ ltb_ℤ_trans a.vm_rss_kb b.vm_rss_kb c.vm_rss_kb (sym (cmp-positive a b) ∙ h)
          (sym (cmp-positive b c) ∙ k);
}

-- the entries of /proc that are processes to be listed, where `info` tells of each what its status file
-- says
pub chosen : Option Text → (Text → Option ProcInfo) → List Text → List ProcInfo
chosen filter_name info [] = []
chosen filter_name info (entry ∷ entries) =
    let rest = chosen filter_name info entries in
    if is_num entry then kept filter_name (info entry) rest else rest
  where
    kept : Option Text → Option ProcInfo → List ProcInfo → List ProcInfo
    kept filter_name none rest = rest
    kept filter_name (some p) rest = if matches filter_name p then p ∷ rest else rest

-- what `monitor process` returns, for the processes that are to be listed
pub Listed : ProcessOptions → (found : List ProcInfo) → Outcome (ℕ × List Row) → Type 0
Listed o [] r = r ≡ ok (1, [])
Listed o (p ∷ found) r =
    (ps : List ProcInfo) × (r ≡ ok (0, map row_of ps))
    × Perm ps (p ∷ found)
    × (o.sort_by_rss ≡ false → ps ≡ p ∷ found)
    × (o.sort_by_rss ≡ true → Pairwise (λ a b. ltb_ℤ a.vm_rss_kb b.vm_rss_kb ≡ false) ps)

abbrev pub no_options : ProcessOptions
no_options = record { filter_name = none; sort_by_rss = false }

module _ (file : (path : Text) → Option Text) (info : Text → Option ProcInfo) where
  -- what the status file of an entry says, if the entry is a process
  abbrev pub Reads : Text → Type 0
  Reads entry = is_num entry ≡ true → read_proc file entry ≡ ok (info entry)

  collect_lem :
      (filter_name : Option Text) (room : ℕ) (entries : List Text)
      → All Reads entries
      → collect file filter_name room entries ≡ ok (take room (chosen filter_name info entries))
  unfolding collect chosen
  collect_lem filter_name zero entries reads = refl
  collect_lem filter_name (suc room) [] reads = refl
  collect_lem filter_name (suc room) (entry ∷ entries) (here, reads) =
      let later : (n : ℕ)
          → collect file filter_name n entries ≡ ok (take n (chosen filter_name info entries)) =
        λ n. collect_lem filter_name n entries reads in
      elim (Bool-cases (is_num entry)) [
        | inr other ↦ rw (other, collect) (later (suc room))
        | inl pid ↦ elim (Option-cases (info entry)) [
          | inl nothing ↦ rw (pid, collect, here pid, collect, nothing) (later (suc room))
          | inr (p, found) ↦ elim (Bool-cases (matches filter_name p)) [
            | inr hidden ↦ rw (pid, collect, here pid, collect, found, hidden) (later (suc room))
            | inl shown ↦ rw (pid, collect, here pid, collect, found, shown, later room) refl
          ]
        ]
      ]

  module _ (qsort : (ProcInfo → ProcInfo → ℤ) → List ProcInfo → List ProcInfo)
      (q : IsQsort qsort) where
    list_processes-Listed :
        (o : ProcessOptions) (found : List ProcInfo)
        → Listed o found (ok (list_processes qsort o found))
    unfolding Listed list_processes
    list_processes-Listed o [] = refl
    list_processes-Listed o (p ∷ found) = elim (Bool-cases o.sort_by_rss) [
      | inl sorts ↦ (
        qsort cmp_proc_by_rss (p ∷ found),
        rw sorts refl,
        q.perm cmp_proc_by_rss cmp_proc_by_rss-IsComparison (p ∷ found),
        λ no. absurd cc,
        λ yes.
            Pairwise.imp (λ a b h. sym (cmp-positive a b) ∙ h)
              (q.sorted cmp_proc_by_rss cmp_proc_by_rss-IsComparison (p ∷ found)),
      )
      | inr keeps ↦ (p ∷ found, rw keeps refl, Perm.rfl, λ no. refl, λ yes. absurd cc)
    ]

    -- Where /proc can be read and the numbers of all status files, of which `info` is what they say, fit
    -- their types, `monitor process` returns 1 and lists nothing if no process is to be listed. Else it
    -- returns 0 and lists the first 4096 of them, in the order of /proc, or with `--sort-rss` rearranged by
    -- qsort, so that none has less memory than a later one.
    pub monitor_process-Listed :
        (directory : (path : Text) → Option (List Text)) (entries args : List Text)
        → directory (codes "/proc") ≡ some entries
        → All Reads entries
        → let o = process_options no_options (drop 2 args) in
          Listed o
            (take 4096 (chosen o.filter_name info entries))
            (monitor_process qsort directory file args)
    unfolding monitor_process
    monitor_process-Listed directory entries args opened reads =
        let o = process_options no_options (drop 2 args) in
        rw (monitor_process, opened, collect_lem o.filter_name 4096 entries reads)
          (list_processes-Listed o (take 4096 (chosen o.filter_name info entries)))

-- ===== src/Fs/Dir/Removed.antt =====
-- `dir_remove_entry` of oscdfs/src/dir.c against later lookups.
use ostd_final.Common.{
  ℕ, ◌*◌, ◌/◌, ◌%◌, ◌^◌, ◌<◌, ◌≡◌, refl, sym, ap, ◌∙◌, inl, inr, true, false, arith, Bool-cases,
  Option-cases, if◌then◌else◌, take, [], Option, none, some,
}
use ostd_final.Common.Exec.{ok, fail}
use ostd_final.Common.Text.{Text, str_eq, str_eq_iff}
use ostd_final.Common.Search.{
  first_where, first_where-some, first_where-all_false, first_where-cong,
}
use ostd_final.Fs.State.{Device, Fs}
use ostd_final.Fs.Inode.Table.{inode_at}
use ostd_final.Fs.Bitmap.Succeeds.{IsHealthy}
use ostd_final.Fs.Dir.{is_named, dir_remove_entry, clear_at, dir_find_entry}
use ostd_final.Fs.Dir.Entries.{entry_inode_no-put_entry, is_named-is_named}
use ostd_final.Fs.Dir.Found.{
  IsDirectory, entry_at, number_at, open_dir_lem, scan_dir, dir_find_entry_lem,
}
use ostd_final.Fs.Dir.Store.{Stored, store_dir_lem}
use ostd_final.Fs.Dir.Change.{edited, number_after, named_without}

number_at-ok :
    (dir : ℕ) (s : Fs) (o : Option ℕ) (e : ℕ) → number_at dir s o ≡ ok e → (x : ℕ) × (o ≡ some x)
number_at-ok dir s none e f = cc
number_at-ok dir s (some x) e f = (x, refl)

module _ ⦃dev : Device⦄ (dir n : ℕ) (name : Text) (s : Fs) (h : IsHealthy dev s)
    (d : IsDirectory dir n s) (clock : (w : ℕ) → dev.time w < 2 ^ 32) where
  removed :
      (x : ℕ)
      → first_where (entry_at (is_named name) dir s) (128 * n) 0 ≡ some x
      → (s' : Fs) × (dir_remove_entry dir name s ≡ (ok tt, s'))
        × Stored dir n (x / 128) (edited dir s x [] 0) s s'
  unfolding dir_remove_entry clear_at
  removed x first =
      let (_, _, high, _) = first_where-some (entry_at (is_named name) dir s) (128 * n) 0 first in
      let (s', run, st) =
        store_dir_lem dir n (x / 128) (edited dir s x [] 0) s h d clock (omega arith) (λ i p.
          ground (
            arith,
            entry_inode_no-put_entry (s.disk ((inode_at s dir).blocks (x / 128))) (x % 128) [] 0 i
                (omega arith),
            d.numbers (x / 128) i (omega arith) p,
          )) in
      (
        s',
        rw (open_dir_lem dir n s h d) (rw (scan_dir dir n s h d (is_named name)) (rw first run)),
        st,
      )

  -- Lookups after the only entry with the name has been cleared.
  lookup_without :
      (x : ℕ) (s' : Fs)
      → first_where (entry_at (is_named name) dir s) (128 * n) 0 ≡ some x
      → Stored dir n (x / 128) (edited dir s x [] 0) s s'
      → ((y : ℕ) → y < 128 * n → entry_at (is_named name) dir s y ≡ true → y ≡ x)
      → (j : Text)
      → dir_find_entry dir j s'
        ≡ ((if str_eq (take 28 name) (take 28 j) then fail else (dir_find_entry dir j s).0), s')
  lookup_without x s' first st single j =
      let (mine, _, high, _) =
        first_where-some (entry_at (is_named name) dir s) (128 * n) 0 first in
      let was = entry_at (is_named j) dir s in
      let now = entry_at (is_named j) dir s' in
      let named = named_without dir n x s s' st j in
      let number = number_after dir n x 0 [] s s' st (omega arith) in
      let here : was x ≡ str_eq (take 28 name) (take 28 j) = is_named-is_named j name _ _ mine in
      let before : (dir_find_entry dir j s).0 ≡ number_at dir s (first_where was (128 * n) 0) =
        ap (λ r. r.0) (dir_find_entry_lem dir n s h d j) in
      let gone : str_eq (take 28 name) (take 28 j) ≡ true → (y : ℕ) → y < 128 * n → now y ≡ false =
        λ same y q. elim (Bool-cases (was y)) [
          | inl has_it ↦
              let alike =
                (str_eq_iff (take 28 j) (take 28 name)).1
                  (sym ((str_eq_iff (take 28 name) (take 28 j)).0 same)) in
              let it = single y q (is_named-is_named name j _ _ has_it ∙ alike) in
              ground (arith, named y, it)
          | inr lacks_it ↦ ground (arith, named y)
        ] in
      rw (dir_find_entry_lem dir n s' st.healthy st.directory j)
        (elim (Bool-cases (str_eq (take 28 name) (take 28 j))) [
          | inl same ↦
              let nothing : first_where now (128 * n) 0 ≡ none =
                first_where-all_false now (128 * n) 0 (λ y p q. gone same y (omega arith)) in
              rw (nothing, same) refl
          | inr other ↦
              let same : first_where now (128 * n) 0 ≡ first_where was (128 * n) 0 =
                first_where-cong now was (128 * n) 0
                  (λ y p q. ground (arith, named y, here, other)) in
              rw (other, same, before)
                (elim (Option-cases (first_where was (128 * n) 0)) [
                  | inl gone ↦ rw gone refl
                  | inr (y, found) ↦
                      let (hit_y, _, high_y, _) = first_where-some was (128 * n) 0 found in
                      rw found (ap (λ v. (ok v, s')) (ground (arith, number y, here, other, hit_y)))
                ])
        ])

  -- On a healthy device, `dir_remove_entry` of a name that a lookup finds, and that one entry has
  -- alone, succeeds. The directory is well-formed afterwards; lookups of the name, which compare its
  -- first 28 bytes, fail, and every other lookup gives what it gave before.
  pub find-dir_remove_entry :
      (e : ℕ)
      → (dir_find_entry dir name s).0 ≡ ok e
      → ((x y : ℕ)
          → x < 128 * n
          → y < 128 * n
          → entry_at (is_named name) dir s x ≡ true
          → entry_at (is_named name) dir s y ≡ true
          → y ≡ x)
      → (s' : Fs) × (dir_remove_entry dir name s ≡ (ok tt, s'))
        × IsDirectory dir n s'
        × ((j : Text)
            → dir_find_entry dir j s' ≡ (
              (if str_eq (take 28 name) (take 28 j) then fail else (dir_find_entry dir j s).0),
              s',
            ))
  find-dir_remove_entry e found single =
      let (x, first) =
        number_at-ok dir s _ e
          (sym (ap (λ r. r.0) (dir_find_entry_lem dir n s h d name)) ∙ found) in
      let (mine, _, high, _) =
        first_where-some (entry_at (is_named name) dir s) (128 * n) 0 first in
      let (s', run, st) = removed x first in
      (
        s',
        run,
        st.directory,
        lookup_without x s' first st (λ y q also. single x y (omega arith) q mine also),
      )

-- ===== src/Fs/Dir/Added.antt =====
-- `dir_add_entry` of oscdfs/src/dir.c into a free entry, against later lookups.
use ostd_final.Common.{
  ℕ, ◌*◌, ◌/◌, ◌%◌, ◌^◌, ◌<◌, ◌≡◌, refl, sym, ap, ◌∙◌, inl, inr, true, false, arith, Bool-cases,
  Option-cases, if◌then◌else◌, take, Option, none, some,
}
use ostd_final.Common.Exec.{ok, fail}
use ostd_final.Common.Text.{Text, str_eq}
use ostd_final.Common.Search.{
  first_where, first_where-some, first_where-none, first_where-at, first_where-cong,
}
use ostd_final.Fs.Bytes.{Block}
use ostd_final.Fs.State.{Device, Fs}
use ostd_final.Fs.Inode.Table.{inode_at}
use ostd_final.Fs.Bitmap.Succeeds.{IsHealthy}
use ostd_final.Fs.Dir.{entry_inode_no, is_named, is_vacant, dir_add_entry, add_to, dir_find_entry}
use ostd_final.Fs.Dir.Entries.{IsText, entry_inode_no-put_entry, is_vacant-named, is_named-cong}
use ostd_final.Fs.Dir.Found.{
  IsDirectory, entry_at, number_at, open_dir_lem, scan_dir, dir_find_entry_lem,
}
use ostd_final.Fs.Dir.Store.{Stored, store_dir_lem}
use ostd_final.Fs.Dir.Change.{entry_number, edited, number_after, named_after}

vacant : (b : Block) (i : ℕ) → entry_inode_no b i ≡ 0 → is_vacant b i ≡ true
unfolding is_vacant
vacant b i e = ground arith

number-vacant : (b : Block) (i : ℕ) → is_vacant b i ≡ true → entry_inode_no b i ≡ 0
unfolding is_vacant
number-vacant b i e = ground arith

-- A search without a number has found nothing.
pub number_at-fail : (dir : ℕ) (s : Fs) (o : Option ℕ) → number_at dir s o ≡ fail → o ≡ none
number_at-fail dir s none f = refl
number_at-fail dir s (some x) f = cc

module _ ⦃dev : Device⦄ (dir n e : ℕ) (name : Text) (s : Fs) (h : IsHealthy dev s)
    (d : IsDirectory dir n s) (clock : (w : ℕ) → dev.time w < 2 ^ 32) (text : IsText name)
    (positive : 0 < e) (small : e < 128) where
  -- the call, where a free entry is found
  added :
      (x : ℕ)
      → first_where (entry_at is_vacant dir s) (128 * n) 0 ≡ some x
      → (s' : Fs) × (dir_add_entry dir name e s ≡ (ok tt, s'))
        × Stored dir n (x / 128) (edited dir s x name e) s s'
  unfolding dir_add_entry add_to
  added x first =
      let (_, _, high, _) = first_where-some (entry_at is_vacant dir s) (128 * n) 0 first in
      let (s', run, st) =
        store_dir_lem dir n (x / 128) (edited dir s x name e) s h d clock (omega arith) (λ i p.
          ground (
            arith,
            entry_inode_no-put_entry (s.disk ((inode_at s dir).blocks (x / 128))) (x % 128) name e i
                (omega arith),
            d.numbers (x / 128) i (omega arith) p,
          )) in
      (s', rw (open_dir_lem dir n s h d) (rw (scan_dir dir n s h d is_vacant) (rw first run)), st)

  -- Lookups after the entry x, which was free, has been written.
  lookup_after :
      (x : ℕ) (s' : Fs)
      → first_where (entry_at is_vacant dir s) (128 * n) 0 ≡ some x
      → Stored dir n (x / 128) (edited dir s x name e) s s'
      → (j : Text) → (str_eq (take 27 name) (take 28 j) ≡ true → (dir_find_entry dir j s).0 ≡ fail)
      → dir_find_entry dir j s'
        ≡ ((if str_eq (take 27 name) (take 28 j) then ok e else (dir_find_entry dir j s).0), s')
  lookup_after x s' first st j absent =
      let (free, _, high, _) = first_where-some (entry_at is_vacant dir s) (128 * n) 0 first in
      let number = number_after dir n x e name s s' st (omega arith) in
      let named = named_after dir n x e name s s' st j text (omega arith) positive in
      let unnamed : entry_at (is_named j) dir s x ≡ false = is_vacant-named _ _ j free in
      let was = entry_at (is_named j) dir s in
      let now = entry_at (is_named j) dir s' in
      let before : (dir_find_entry dir j s).0 ≡ number_at dir s (first_where was (128 * n) 0) =
        ap (λ r. r.0) (dir_find_entry_lem dir n s h d j) in
      rw (dir_find_entry_lem dir n s' st.healthy st.directory j)
        (elim (Bool-cases (str_eq (take 27 name) (take 28 j))) [
          | inl same ↦
              let nothing : first_where was (128 * n) 0 ≡ none =
                number_at-fail dir s _ (sym before ∙ absent same) in
              let found : first_where now (128 * n) 0 ≡ some x =
                first_where-at now (128 * n) 0 x (ground (arith, named x)) (omega arith) high
                  (λ y p q. ground (arith, named y, first_where-none was (128 * n) 0 nothing y)) in
              rw (found, same) (ap (λ v. (ok v, s')) (ground (arith, number x)))
          | inr other ↦
              let same : first_where now (128 * n) 0 ≡ first_where was (128 * n) 0 =
                first_where-cong now was (128 * n) 0 (λ y p q. ground (arith, named y, unnamed)) in
              rw (other, same, before)
                (elim (Option-cases (first_where was (128 * n) 0)) [
                  | inl gone ↦ rw gone refl
                  | inr (y, found) ↦
                      let (hit_y, _, high_y, _) = first_where-some was (128 * n) 0 found in
                      rw found (ap (λ v. (ok v, s')) (ground (arith, number y, unnamed, hit_y)))
                ])
        ])

  -- On a healthy device, `dir_add_entry` of a name that is not in a directory with a free entry
  -- succeeds. The directory is well-formed afterwards; a lookup whose first 28 bytes are the first 27
  -- of the name gives the new number, and every other lookup what it gave before.
  pub find-dir_add_entry :
      (v : ℕ)
      → v < 128 * n
      → entry_number dir s v ≡ 0
      → (dir_find_entry dir (take 27 name) s).0 ≡ fail
      → (s' : Fs) × (dir_add_entry dir name e s ≡ (ok tt, s'))
        × IsDirectory dir n s'
        × ((j : Text)
            → dir_find_entry dir j s' ≡ (
              (if str_eq (take 27 name) (take 28 j) then ok e else (dir_find_entry dir j s).0),
              s',
            ))
  find-dir_add_entry v range free absent =
      elim (Option-cases (first_where (entry_at is_vacant dir s) (128 * n) 0)) [
        | inl full ↦
            let taken =
              first_where-none (entry_at is_vacant dir s) (128 * n) 0 full v (omega arith)
                (omega arith) in
            cc (vacant _ (v % 128) free, taken)
        | inr (x, first) ↦
            let (s', run, st) = added x first in
            (
              s',
              run,
              st.directory,
              λ j. lookup_after x s' first st j (λ same.
                  ap (λ r. r.0) (dir_find_entry_lem dir n s h d j)
                  ∙ ap (number_at dir s) (
                      first_where-cong (entry_at (is_named j) dir s)
                        (entry_at (is_named (take 27 name)) dir s) (128 * n) 0
                        (λ y p q. is_named-cong j name _ _ same))
                  ∙ sym (ap (λ r. r.0) (dir_find_entry_lem dir n s h d (take 27 name)))
                  ∙ absent),
            )
      ]

-- ===== src/Fs/Dir/Change.antt =====
-- One entry of a directory of oscdfs/src/dir.c written anew: what each entry is then.
use ostd_final.Common.{
  ℕ, ◌*◌, ◌/◌, ◌%◌, ◌^◌, ◌<◌, ◌≡◌, refl, ap, ◌∙◌, inl, inr, false, arith, Bool-cases, ◌==◌,
  if◌then◌else◌, take, [],
}
use ostd_final.Common.Text.{Text, str_eq}
use ostd_final.Fs.Bytes.{Block}
use ostd_final.Fs.State.{Device, Fs}
use ostd_final.Fs.Inode.Table.{inode_at}
use ostd_final.Fs.Dir.{put_entry, entry_inode_no, is_named}
use ostd_final.Fs.Dir.Entries.{
  IsText, entry_inode_no-put_entry, is_named-put_entry, entry_name-put_entry_ne,
}
use ostd_final.Fs.Dir.Found.{entry_at}
use ostd_final.Fs.Dir.Store.{Stored}

-- the number in entry x
abbrev pub entry_number : (dir : ℕ) → Fs → ℕ → ℕ
entry_number dir s x = entry_inode_no (s.disk ((inode_at s dir).blocks (x / 128))) (x % 128)

-- the block of entry x with the entry written anew
abbrev pub edited : (dir : ℕ) → Fs → ℕ → Text → ℕ → Block
edited dir s x name v = put_entry (s.disk ((inode_at s dir).blocks (x / 128))) (x % 128) name v

-- One entry of an array of blocks written anew changes what is read at its index.
one_entry :
    {A : Type 0} (read : Block → ℕ → A) (block : ℕ → Block) (b : Block) (a : A) (x : ℕ)
    → ((i : ℕ) → read b i ≡ (if i == x % 128 then a else read (block (x / 128)) i))
    → (y : ℕ)
    → read (if y / 128 == x / 128 then b else block (y / 128)) (y % 128)
      ≡ (if y == x then a else read (block (y / 128)) (y % 128))
one_entry read block b a x edit y = elim (Bool-cases (y / 128 == x / 128)) [
  | inl same ↦
      let eq : y / 128 ≡ x / 128 = ground arith in
      let test : (y == x) ≡ (y % 128 == x % 128) = ground arith in
      rw (same, test, eq) (edit (y % 128))
  | inr apart ↦ let test : (y == x) ≡ false = ground arith in rw (apart, test) refl
]

-- An entry of number 0 has no name.
is_named-clear_entry :
    (b : Block) (i k : ℕ) (j : Text)
    → is_named j (put_entry b i [] 0) k ≡ (if k == i then false else is_named j b k)
unfolding is_named
is_named-clear_entry b i k j = elim (Bool-cases (k == i)) [
  | inl same ↦ rw same (ground (arith, entry_inode_no-put_entry b i [] 0 k))
  | inr apart ↦ ground (
    arith,
    entry_inode_no-put_entry b i [] 0 k,
    entry_name-put_entry_ne b i [] 0 k (λ e. ground arith),
  )
]

module _ ⦃dev : Device⦄ (dir n x v : ℕ) (name : Text) (s s' : Fs)
    (st : Stored dir n (x / 128) (edited dir s x name v) s s') where
  -- what is read of an entry afterwards
  entry_after :
      {A : Type 0} (read : Block → ℕ → A) (a : A)
      → ((i : ℕ)
          → read (edited dir s x name v) i
            ≡ (if i == x % 128 then a else read (s.disk ((inode_at s dir).blocks (x / 128))) i))
      → (y : ℕ) → y < 128 * n
      → read (s'.disk ((inode_at s' dir).blocks (y / 128))) (y % 128)
        ≡ (if y == x then a else read (s.disk ((inode_at s dir).blocks (y / 128))) (y % 128))
  entry_after read a edit y q =
      ap (λ c. read c (y % 128))
        (ap s'.disk (st.pointers (y / 128) (omega arith)) ∙ st.contents (y / 128) (omega arith))
      ∙ one_entry read (λ l. s.disk ((inode_at s dir).blocks l)) (edited dir s x name v) a x edit y

  pub number_after :
      v < 2 ^ 32
      → (y : ℕ) → y < 128 * n
      → entry_number dir s' y ≡ (if y == x then v else entry_number dir s y)
  number_after small =
      entry_after entry_inode_no v (λ i. entry_inode_no-put_entry _ (x % 128) name v i small)

  pub named_after :
      (j : Text)
      → IsText name
      → v < 2 ^ 32
      → 0 < v
      → (y : ℕ) → y < 128 * n
      → entry_at (is_named j) dir s' y
        ≡ (if y == x then str_eq (take 27 name) (take 28 j) else entry_at (is_named j) dir s y)
  named_after j text small positive =
      entry_after (is_named j) _
        (λ i. is_named-put_entry _ (x % 128) name v j i text small positive)

module _ ⦃dev : Device⦄ (dir n x : ℕ) (s s' : Fs)
    (st : Stored dir n (x / 128) (edited dir s x [] 0) s s') where
  pub named_without :
      (j : Text) (y : ℕ)
      → y < 128 * n
      → entry_at (is_named j) dir s' y ≡ (if y == x then false else entry_at (is_named j) dir s y)
  named_without j =
      entry_after dir n x 0 [] s s' st (is_named j) false
        (λ i. is_named-clear_entry _ (x % 128) i j)

-- ===== src/Fs/Dir/Entries.antt =====
-- The entries of a block of oscdfs/src/dir.c, before and after one of them is written.
use ostd_final.Common.{
  ℕ, length-take_le, take_all, zero, suc, ◌+◌, ◌*◌, ◌-◌, ◌^◌, ◌≤◌, ◌<◌, ◌≡◌, ◌≢◌, refl, sym, ap,
  ◌∙◌, ◌⊎◌, inl, inr, not, ◌&&◌, true, false, [], ◌∷◌, ◌==◌, take, length, arith, if◌then◌else◌,
  Bool-cases,
}
use ostd_final.Common.Text.{Text, str_eq, str_eq_iff}
use ostd_final.Fs.Bytes.{
  Block, load8, store32, put_bytes, load32-store32_self, load32-store32_ne, store32_outside,
  put_bytes_outside, load32-put_bytes_ne,
}
use ostd_final.Fs.Strings.{c_string, text_bytes}
use ostd_final.Fs.Dir.{entry_inode_no, entry_name, is_named, is_vacant, put_entry}

-- A C string: its characters are bytes other than NUL.
abbrev pub IsText : Text → Type 0
IsText [] = Unit {0}
IsText (c ∷ t) = (0 < c) × (c < 256) × IsText t

pub IsText-take : (n : ℕ) (t : Text) → IsText t → IsText (take n t)
IsText-take zero t h = tt
IsText-take (suc n) [] h = tt
IsText-take (suc n) (c ∷ t) h = (h.0, h.1, IsText-take n t h.2)

-- The bytes of a text, with a NUL behind them or at the end of the array, are read as the text.
c_string_lem :
    (n : ℕ) (t : Text) (b : Block) (o : ℕ)
    → IsText t
    → length t ≤ n
    → ((k : ℕ) → k < n → b (o + k) ≡ text_bytes t k)
    → c_string b o n ≡ t
unfolding c_string text_bytes
c_string_lem zero [] b o h p e = refl
c_string_lem zero (c ∷ t) b o h p e = absurd (omega arith)
c_string_lem (suc n) [] b o h p e = ground (arith, e 0 (omega arith))
c_string_lem (suc n) (c ∷ t) b o h p e =
    let rest =
      c_string_lem n t b (o + 1) h.2 (omega arith)
        (λ k q. ap b (omega arith) ∙ e (suc k) (omega arith)) in
    let first : b o ≡ c = ap b (omega arith) ∙ e 0 (omega arith) in
    let byte : load8 b o ≡ c = ground (arith, h.0, h.1) in ground (arith, h.0)

c_string-cong :
    (n : ℕ) (b b' : Block) (o : ℕ)
    → ((k : ℕ) → k < n → b (o + k) ≡ b' (o + k))
    → c_string b o n ≡ c_string b' o n
unfolding c_string
c_string-cong zero b b' o e = refl
c_string-cong (suc n) b b' o e =
    let rest =
      c_string-cong n b b' (o + 1)
        (λ k q. ap b (omega arith) ∙ e (suc k) (omega arith) ∙ ap b' (omega arith)) in
    let first : b o ≡ b' o = ap b (omega arith) ∙ e 0 (omega arith) ∙ ap b' (omega arith) in
    ground arith

module _ (b : Block) (i : ℕ) (name : Text) (e : ℕ) where
  pub entry_inode_no-put_entry :
      (k : ℕ)
      → e < 2 ^ 32
      → entry_inode_no (put_entry b i name e) k ≡ (if k == i then e else entry_inode_no b k)
  unfolding put_entry
  entry_inode_no-put_entry k h = elim (Bool-cases (k == i)) [
    | inl e' ↦
        let same : k ≡ i = ground arith in
        rw same (
          ground (
            arith,
            load32-put_bytes_ne (store32 b (32 * i) e) (32 * i + 4) 28 (text_bytes (take 27 name))
                (32 * i),
            load32-store32_self b (32 * i) e h,
          ))
    | inr ne ↦
        let apart : (32 * k + 4 ≤ 32 * i) ⊎ (32 * i + 32 ≤ 32 * k) = ground arith in
        ground (
          arith,
          load32-put_bytes_ne (store32 b (32 * i) e) (32 * i + 4) 28 (text_bytes (take 27 name))
              (32 * k),
          load32-store32_ne b (32 * i) (32 * k) e,
        )
  ]

  pub entry_name-put_entry_self : IsText name → entry_name (put_entry b i name e) i ≡ take 27 name
  unfolding put_entry put_bytes
  entry_name-put_entry_self h =
      c_string_lem 28 (take 27 name) (put_entry b i name e) (32 * i + 4) (IsText-take 27 name h)
        (omega (arith, length-take_le 27 name))
        (λ k p. ground (arith, ap (text_bytes (take 27 name)) (shift k)))
    where
      shift : (k : ℕ) → 32 * i + 4 + k - (32 * i + 4) ≡ k
      shift k = omega arith

  pub entry_name-put_entry_ne :
      (k : ℕ) → k ≢ i → entry_name (put_entry b i name e) k ≡ entry_name b k
  unfolding put_entry
  entry_name-put_entry_ne k ne = c_string-cong 28 (put_entry b i name e) b (32 * k + 4) (λ j p.
      put_bytes_outside (store32 b (32 * i) e) (32 * i + 4) 28 (text_bytes (take 27 name))
        (32 * k + 4 + j) (apart j p)
      ∙ store32_outside b (32 * i) e (32 * k + 4 + j) (away j p))
    where
      apart : (j : ℕ) → j < 28 → (32 * k + 4 + j < 32 * i + 4) ⊎ (32 * i + 4 + 28 ≤ 32 * k + 4 + j)
      apart j p = ground arith

      away : (j : ℕ) → j < 28 → (32 * k + 4 + j < 32 * i) ⊎ (32 * i + 4 ≤ 32 * k + 4 + j)
      away j p = ground arith

  -- Writing an entry changes what it is named, and nothing else is found or lost.
  pub is_named-put_entry :
      (j : Text) (k : ℕ)
      → IsText name
      → e < 2 ^ 32
      → 0 < e
      → is_named j (put_entry b i name e) k
        ≡ (if k == i then str_eq (take 27 name) (take 28 j) else is_named j b k)
  unfolding is_named
  is_named-put_entry j k h bound pos_e = elim (Bool-cases (k == i)) [
    | inl same ↦
        let eq : k ≡ i = ground arith in
        rw eq (ground (arith, entry_inode_no-put_entry i bound, entry_name-put_entry_self h))
    | inr ne ↦
        let n : k ≢ i = λ q. ground arith in
        ground (arith, entry_inode_no-put_entry k bound, entry_name-put_entry_ne k n)
  ]

pub is_vacant-named : (b : Block) (i : ℕ) (j : Text) → is_vacant b i ≡ true → is_named j b i ≡ false
unfolding is_vacant is_named
is_vacant-named b i j h = ground arith

-- Only the first 28 bytes of a name matter.
pub is_named-cong :
    (j name : Text) (b : Block) (i : ℕ)
    → str_eq (take 27 name) (take 28 j) ≡ true
    → is_named j b i ≡ is_named (take 27 name) b i
unfolding is_named
is_named-cong j name b i same =
    let e : take 28 j ≡ take 28 (take 27 name) = sym (
      take_all 28 (take 27 name) (omega (arith, length-take_le 27 name))
      ∙ (str_eq_iff (take 27 name) (take 28 j)).0 same) in
    ap (λ t. not (entry_inode_no b i == 0) && str_eq (entry_name b i) t) e

-- An entry with one name has another if the two agree.
pub is_named-is_named :
    (j name : Text) (b : Block) (i : ℕ)
    → is_named name b i ≡ true
    → is_named j b i ≡ str_eq (take 28 name) (take 28 j)
unfolding is_named
is_named-is_named j name b i h =
    let used : not (entry_inode_no b i == 0) ≡ true = ground arith in
    let same : entry_name b i ≡ take 28 name =
      (str_eq_iff (entry_name b i) (take 28 name)).0 (ground arith) in
    rw used (ap (λ t. str_eq t (take 28 j)) same)

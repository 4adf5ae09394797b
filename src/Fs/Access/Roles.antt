-- ===== src/Fs/Access/Roles.antt =====
-- The permission bits of oscdfs/src/permission.c and of `oscdfs_chmod` in oscdfs/src/file.c.
use ostd_final.Common.{
  ℕ, zero, suc, ◌+◌, ◌/◌, ◌^◌, ◌≤◌, ◌<◌, bit_and, ◌≡◌, refl, sym, ap, ◌∙◌, ◌↔◌, ◌⊎◌, inl, inr, true,
  not, ◌&&◌, arith, ltb, leb, ◌==◌, if◌then◌else◌, Bool-cases,
}
use ostd_final.Common.Bits.{
  holds_below, holds_below-at, test_digit, bit_and_seven, digit, digit-le, digit-bit_and,
  digit-bit_or,
}
use ostd_final.Fs.Inode.{Inode}
use ostd_final.Fs.Access.{role_bits, check_permission, is_dir, chmod_mode}

mask_table :
    holds_below 16 (λ k.
      (digit 0o7777 k == (if ltb k 12 then 1 else 0))
      && (digit 0o170000 k == (if ltb k 12 then 0 else 1)))
    ≡ true
unfolding holds_below digit
mask_table = refl

-- After chmod the twelve permission bits are those that were asked for, and the four bits of the
-- file type are those that were there.
pub digit-chmod_mode :
    (mode new_mode k : ℕ)
    → k < 16
    → digit (chmod_mode mode new_mode) k ≡ (if ltb k 12 then digit new_mode k else digit mode k)
unfolding chmod_mode
digit-chmod_mode mode new_mode k h = ground (
  arith,
  holds_below-at 16 _ k h mask_table,
  digit-bit_or (bit_and mode 0o170000) (bit_and new_mode 0o7777) k,
  digit-bit_and mode 0o170000 k,
  digit-bit_and new_mode 0o7777 k,
  digit-le mode k,
  digit-le new_mode k,
)

-- Whether an inode is a directory is bit 14 of its mode.
is_dir-digit : (ino : Inode) → is_dir ino ≡ not (digit ino.mode 14 == 0)
unfolding is_dir
is_dir-digit ino = ap not (test_digit ino.mode 14)

three_bits :
    holds_below 8 (λ r. holds_below 8 (λ a.
      let covered =
        leb (digit a 0) (digit r 0) && leb (digit a 1) (digit r 1) && leb (digit a 2) (digit r 2) in
      if covered then bit_and r a == a else not (bit_and r a == a)))
    ≡ true
unfolding holds_below digit
three_bits = refl

-- where the bits of the caller's role begin
abbrev pub role_shift : (current_uid current_gid : ℕ) → Inode → ℕ
role_shift current_uid current_gid ino =
    if current_uid == ino.uid then 6 else if current_gid == ino.gid then 3 else 0

role_bits-lt : (u g : ℕ) (ino : Inode) → role_bits u g ino < 8
unfolding role_bits
role_bits-lt u g ino = ground (
  arith,
  bit_and_seven (ino.mode / 2 ^ 6),
  bit_and_seven (ino.mode / 2 ^ 3),
  bit_and_seven ino.mode,
)

low_digit : (m k : ℕ) → k < 3 → digit (bit_and m 7) k ≡ digit m k
unfolding digit
low_digit m zero h = omega (arith, bit_and_seven m)
low_digit m (suc zero) h = omega (arith, bit_and_seven m)
low_digit m (suc (suc zero)) h = omega (arith, bit_and_seven m)
low_digit m (suc (suc (suc k))) h = absurd (omega arith)

shifted_digit :
    (m k : ℕ)
    → k < 3
    → (digit (m / 2 ^ 6) k ≡ digit m (6 + k)) × (digit (m / 2 ^ 3) k ≡ digit m (3 + k))
unfolding digit
shifted_digit m zero h = (omega arith, omega arith)
shifted_digit m (suc zero) h = (omega arith, omega arith)
shifted_digit m (suc (suc zero)) h = (omega arith, omega arith)
shifted_digit m (suc (suc (suc k))) h = absurd (omega arith)

role_digit :
    (u g : ℕ) (ino : Inode) (k : ℕ)
    → k < 3
    → digit (role_bits u g ino) k ≡ digit ino.mode (role_shift u g ino + k)
unfolding role_bits
role_digit u g ino k h =
    let shifted = shifted_digit ino.mode k h in
    let owner = low_digit (ino.mode / 2 ^ 6) k h in
    let group = low_digit (ino.mode / 2 ^ 3) k h in
    let other = low_digit ino.mode k h in
    elim (Bool-cases (u == ino.uid)) [
      | inl e ↦ rw e (owner ∙ shifted.0)
      | inr e ↦ rw e (elim (Bool-cases (g == ino.gid)) [
        | inl e' ↦ rw e' (group ∙ shifted.1)
        | inr e' ↦ rw e' (other ∙ ap (digit ino.mode) (omega arith))
      ])
    ]

-- Every bit that is asked for is set for the caller's role.
abbrev pub Grants : (current_uid current_gid : ℕ) → Inode → ℕ → Type 0
Grants u g ino access = (k : ℕ) → k < 3 → digit access k ≤ digit ino.mode (role_shift u g ino + k)

covers :
    (r a : ℕ)
    → r < 8
    → a < 8
    → (bit_and r a == a)
      ≡ (leb (digit a 0) (digit r 0) && leb (digit a 1) (digit r 1) && leb (digit a 2) (digit r 2))
covers r a hr ha = ground (arith, holds_below-at 8 _ a ha (holds_below-at 8 _ r hr three_bits))

covered_all :
    (r a : ℕ) → r < 8 → a < 8 → (bit_and r a == a) ≡ true → (k : ℕ) → k < 3 → digit a k ≤ digit r k
covered_all r a hr ha h zero p = ground (arith, covers r a hr ha)
covered_all r a hr ha h (suc zero) p = ground (arith, covers r a hr ha)
covered_all r a hr ha h (suc (suc zero)) p = ground (arith, covers r a hr ha)
covered_all r a hr ha h (suc (suc (suc k))) p = absurd (omega arith)

-- The check passes exactly for root, and where the bits of the caller's role (owner before group
-- before others) contain every bit that is asked for.
pub check_permission_lem :
    (u g : ℕ) (ino : Inode) (access : ℕ)
    → access < 8
    → (check_permission u g ino access ≡ true) ↔ ((u ≡ 0) ⊎ Grants u g ino access)
unfolding check_permission
check_permission_lem u g ino access h = (
  λ e. elim (Bool-cases (u == 0)) [
    | inl root ↦ inl (ground arith)
    | inr user ↦ inr λ k p.
        rw (← role_digit u g ino k p)
          (covered_all (role_bits u g ino) access (role_bits-lt u g ino) h (ground arith) k p)
  ],
  λ d. elim d [
    | inl root ↦ ground arith
    | inr grants ↦ ground (
      arith,
      covers (role_bits u g ino) access (role_bits-lt u g ino) h,
      grants 0,
      grants 1,
      grants 2,
      role_digit u g ino 0,
      role_digit u g ino 1,
      role_digit u g ino 2,
    )
  ],
)

-- `oscdfs_chmod` never turns a file into a directory or a directory into a file.
chmod_keeps_type :
    (ino : Inode) (new_mode : ℕ)
    → is_dir (record ino { mode = chmod_mode ino.mode new_mode }) ≡ is_dir ino
chmod_keeps_type ino new_mode =
    is_dir-digit (record ino { mode = chmod_mode ino.mode new_mode })
    ∙ ap (λ d. not (d == 0)) (digit-chmod_mode ino.mode new_mode 14 (omega arith))
    ∙ sym (is_dir-digit ino)

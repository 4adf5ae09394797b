-- ===== src/Common/Search.antt =====
-- Loops that look for the first index with a property.
use ostd_final.Common.{
  ℕ, zero, suc, ◌+◌, ◌≤◌, ◌<◌, ◌≡◌, Bool, true, false, inl, inr, Option, none, some, arith,
  Bool-cases, refl, ap, ◌∙◌, ◌==◌, if◌then◌else◌,
}

-- `for (; i < i + n; i++) if (test(i)) break;`
unfoldable pub first_where : (ℕ → Bool) → ℕ → ℕ → Option ℕ
first_where test zero i = none
first_where test (suc n) i =
    let rest = first_where test n (i + 1) in if test i then some i else rest

pub first_where-some :
    (test : ℕ → Bool) (n i : ℕ) {r : ℕ}
    → first_where test n i ≡ some r
    → (test r ≡ true) × (i ≤ r) × (r < i + n) × ((j : ℕ) → i ≤ j → j < r → test j ≡ false)
unfolding first_where
first_where-some test zero i h = cc
first_where-some test (suc n) i {r} h = elim (Bool-cases (test i)) [
  | inl yes_here ↦
      let here : i ≡ r = ground arith in
      (rw (← here) yes_here, omega arith, omega arith, λ j p q. absurd (omega arith))
  | inr not_here ↦
      let rest : first_where test n (i + 1) ≡ some r = ground arith in
      let (found, low, high, below) = first_where-some test n (i + 1) rest in
      (found, omega arith, omega arith, λ j p q. ground (arith, below j))
]

pub first_where-none :
    (test : ℕ → Bool) (n i : ℕ)
    → first_where test n i ≡ none
    → (j : ℕ) → i ≤ j
    → j < i + n
    → test j ≡ false
unfolding first_where
first_where-none test zero i h j p q = absurd (omega arith)
first_where-none test (suc n) i h j p q =
    let rest : first_where test n (i + 1) ≡ none = ground arith in
    ground (arith, first_where-none test n (i + 1) rest j)

-- The first index with a property is what the search returns.
pub first_where-at :
    (test : ℕ → Bool) (n i r : ℕ)
    → test r ≡ true
    → i ≤ r
    → r < i + n
    → ((j : ℕ) → i ≤ j → j < r → test j ≡ false)
    → first_where test n i ≡ some r
unfolding first_where
first_where-at test zero i r h low high below = absurd (omega arith)
first_where-at test (suc n) i r h low high below = elim (Bool-cases (i == r)) [
  | inl here ↦ let same : i ≡ r = ground arith in rw same (ground arith)
  | inr later ↦
      let rest =
        first_where-at test n (i + 1) r h (ground arith) (omega arith)
          (λ j p q. below j (omega arith) q) in
      let not_here : test i ≡ false = below i (omega arith) (ground arith) in ground arith
]

-- Tests that agree on a range find the same.
pub first_where-cong :
    (test test' : ℕ → Bool) (n i : ℕ)
    → ((j : ℕ) → i ≤ j → j < i + n → test j ≡ test' j)
    → first_where test n i ≡ first_where test' n i
unfolding first_where
first_where-cong test test' zero i same = refl
first_where-cong test test' (suc n) i same = ground (
  arith,
  same i (omega arith) (omega arith),
  first_where-cong test test' n (i + 1) (λ j p q. same j (omega arith) (omega arith)),
)

pub first_where-all_false :
    (test : ℕ → Bool) (n i : ℕ)
    → ((j : ℕ) → i ≤ j → j < i + n → test j ≡ false)
    → first_where test n i ≡ none
unfolding first_where
first_where-all_false test zero i h = refl
first_where-all_false test (suc n) i h = ground (
  arith,
  h i (omega arith) (omega arith),
  first_where-all_false test n (i + 1) (λ j p q. h j (omega arith) (omega arith)),
)

pub first_where-zero : (test : ℕ → Bool) (i : ℕ) → first_where test 0 i ≡ none
unfolding first_where
first_where-zero test i = refl

pub first_where-append :
    (test : ℕ → Bool) (a b i : ℕ)
    → first_where test (a + b) i
      ≡ elim (first_where test a i) [ none ↦ first_where test b (i + a) | some r ↦ some r ]
unfolding first_where
first_where-append test zero b i =
    let e : 0 + b ≡ b = omega arith in let f : i + 0 ≡ i = omega arith in rw (e, f) refl
first_where-append test (suc a) b i = elim (Bool-cases (test i)) [
  | inl yes_here ↦ rw (more, yes_here) refl
  | inr not_here ↦
      let e : i + 1 + a ≡ i + suc a = omega arith in
      rw (more, not_here)
        (first_where-append test a b (i + 1)
          ∙ ap
              (λ z. elim (first_where test a (i + 1)) [
                | none ↦ first_where test b z
                | some r ↦ some r
              ])
              e)
]
  where
    more : suc a + b ≡ suc (a + b)
    more = omega arith

-- A range that starts k later.
pub first_where-shift :
    (test test' : ℕ → Bool) (k n i : ℕ)
    → ((j : ℕ) → i ≤ j → j < i + n → test (k + j) ≡ test' j)
    → first_where test n (k + i)
      ≡ elim (first_where test' n i) [ none ↦ none | some r ↦ some (k + r) ]
unfolding first_where
first_where-shift test test' k zero i same = refl
first_where-shift test test' k (suc n) i same =
    let rest =
      first_where-shift test test' k n (i + 1) (λ j p q. same j (omega arith) (omega arith)) in
    let here = same i (omega arith) (omega arith) in
    let e : k + (i + 1) ≡ k + i + 1 = omega arith in
    elim (Bool-cases (test' i)) [
      | inl yes_here ↦ ground arith
      | inr not_here ↦ rw (here, not_here) (rw (← e) rest)
    ]

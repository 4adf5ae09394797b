-- ===== src/Shell/Startup/Level.antt =====
-- The level of a shell in a shell, which main of oscdsh/src/main.c keeps in SHLVL.
use ostd_final.Common.{
  ℕ, zero, suc, ◌+◌, ◌-◌, ◌*◌, ◌/◌, ◌%◌, ◌^◌, ◌<◌, ◌≡◌, refl, sym, ap, ◌∙◌, inl, inr, true, false,
  Option, none, some, [], ◌∷◌, arith, ltb, leb, Bool-cases, ◌==◌,
}
use native.Mathlib.Nat.{pow-suc}
use ostd_final.Common.Exec.{ok}
use ostd_final.Common.Int.{pos}
use ostd_final.Common.Numerals.{is_space, skip_space, digits_in, signed_in, atoi}
use ostd_final.Common.Text.{Text, codes, str_eq}
use ostd_final.Shell.Builtins.{Process, setenv}
use ostd_final.Shell.Expand.{digits_before, decimal}
use ostd_final.Shell.Plan.{has_byte}
use ostd_final.Shell.Startup.{shlvl_of, set_shell, set_variables, set_with, set_up}

-- a digit in front of a text counts ten times what was there before it
digits_in-digit :
    (v d : ℕ) (behind : Text)
    → d < 10
    → digits_in 10 v ((48 + d) ∷ behind) ≡ digits_in 10 (10 * v + d) behind
unfolding digits_in
digits_in-digit v d behind h =
    let same : 10 * v + (48 + d - 48) ≡ 10 * v + d = omega arith in
    let low : leb 48 (48 + d) ≡ true = ground arith in
    let high : ltb (48 + d) 58 ≡ true = ground arith in rw (low, high, same) refl

fewer : (r n : ℕ) → n < 10 ^ suc r → n / 10 < 10 ^ r
fewer r n h = let power : 10 ^ suc r ≡ 10 ^ r * 10 = pow-suc 10 r in omega arith

some_left : (r n : ℕ) → n < 10 ^ suc r → ltb n 10 ≡ false → 0 < r
some_left zero n h more = ground arith
some_left (suc r) n h more = omega arith

digits_in-digits_before :
    (r n : ℕ) (behind : Text)
    → n < 10 ^ r
    → 0 < r
    → digits_in 10 0 (digits_before r n behind) ≡ digits_in 10 n behind
unfolding digits_before
digits_in-digits_before zero n behind h p = absurd (omega arith)
digits_in-digits_before (suc r) n behind h p = elim (Bool-cases (ltb n 10)) [
  | inl one ↦
      let whole : 10 * 0 + n % 10 ≡ n = ground arith in
      rw one
        (digits_in-digit 0 (n % 10) behind (omega arith) ∙ ap (λ m. digits_in 10 m behind) whole)
  | inr more ↦
      let whole : 10 * (n / 10) + n % 10 ≡ n = omega arith in
      rw more (
        digits_in-digits_before r (n / 10) ((48 + n % 10) ∷ behind) (fewer r n h)
          (some_left r n h more)
        ∙ digits_in-digit (n / 10) (n % 10) behind (omega arith)
        ∙ ap (λ m. digits_in 10 m behind) whole)
]

-- a text with a digit in front
StartsWithDigit : Text → Type 0
StartsWithDigit l = (d : ℕ) × (t : Text) × (l ≡ (48 + d) ∷ t) × (d < 10)

digits_before-StartsWithDigit :
    (r n d : ℕ) (t : Text) → d < 10 → StartsWithDigit (digits_before r n ((48 + d) ∷ t))
unfolding digits_before StartsWithDigit
digits_before-StartsWithDigit zero n d t h = (d, t, refl, h)
digits_before-StartsWithDigit (suc r) n d t h = elim (Bool-cases (ltb n 10)) [
  | inl one ↦ (n % 10, (48 + d) ∷ t, rw one refl, omega arith)
  | inr more ↦
      rw more (digits_before-StartsWithDigit r (n / 10) (n % 10) ((48 + d) ∷ t) (omega arith))
]

decimal-StartsWithDigit : (n : ℕ) → StartsWithDigit (decimal n)
unfolding decimal digits_before StartsWithDigit
decimal-StartsWithDigit n = elim (Bool-cases (ltb n 10)) [
  | inl one ↦ (n % 10, [], rw one refl, omega arith)
  | inr more ↦ rw more (digits_before-StartsWithDigit 9 (n / 10) (n % 10) [] (omega arith))
]

-- a digit is no space and no sign
plain :
    (d : ℕ) (t : Text)
    → d < 10
    → signed_in 10 (skip_space ((48 + d) ∷ t)) ≡ (false, digits_in 10 0 ((48 + d) ∷ t))
unfolding skip_space signed_in
plain d t h =
    let text : is_space (48 + d) ≡ false = ground arith in
    let no_minus : ((48 + d) == 45) ≡ false = ground arith in
    let no_plus : ((48 + d) == 43) ≡ false = ground arith in
    rw (text, skip_space, signed_in, no_minus, no_plus) refl

atoi-decimal : (n : ℕ) → n < 2 ^ 31 → atoi (decimal n) ≡ some (pos n)
unfolding atoi StartsWithDigit decimal digits_in
atoi-decimal n h =
    let (d, t, e, low) = decimal-StartsWithDigit n in
    let value : digits_in 10 0 (decimal n) ≡ n =
      digits_in-digits_before 10 n [] (omega arith) (omega arith) in
    let fits : ltb n (2 ^ 31) ≡ true = ground arith in
    let number : signed_in 10 (skip_space (decimal n)) ≡ (false, n) =
      ap (λ l. signed_in 10 (skip_space l)) e
      ∙ plain d t low
      ∙ ap (λ m. (false, m)) (ap (digits_in 10 0) (sym e) ∙ value) in
    rw (number, fits) refl

shlvl_of-decimal : (n : ℕ) → n + 1 < 2 ^ 31 → shlvl_of (some (decimal n)) ≡ ok (n + 1)
unfolding shlvl_of
shlvl_of-decimal n h =
    let fits : ltb (n + 1) (2 ^ 31) ≡ true = ground arith in
    rw (atoi-decimal n (omega arith), fits) refl

-- the variables that the start sets, and the others as they were
pub record IsStarted (pid ppid shlvl : ℕ) (p q : Process) : Type 0 where
  pub level : q.env (codes "SHLVL") ≡ some (decimal shlvl)
  pub own : q.env (codes "PID") ≡ some (decimal pid)
  pub parent : q.env (codes "PPID") ≡ some (decimal ppid)
  pub others :
      (name : Text)
      → str_eq (codes "SHLVL") name ≡ false
      → str_eq (codes "SHELL") name ≡ false
      → str_eq (codes "PID") name ≡ false
      → str_eq (codes "PPID") name ≡ false
      → q.env name ≡ p.env name

set_variables-IsStarted :
    (exe_path : Option Text) (pid ppid shlvl : ℕ) (p : Process)
    → IsStarted pid ppid shlvl p (set_variables exe_path pid ppid shlvl p)
unfolding set_variables set_shell setenv has_byte str_eq
set_variables-IsStarted none pid ppid shlvl p = record {
  level = refl;
  own = refl;
  parent = refl;
  others = λ name a b c d. rw (d, c, a) refl;
}
set_variables-IsStarted (some path) pid ppid shlvl p = record {
  level = refl;
  own = refl;
  parent = refl;
  others = λ name a b c d. rw (d, c, b, a) refl;
}

-- A shell that is started in a shell whose level is below 2^31 - 1 has the next level; it shows its own
-- number and its parent's, and no variables but SHLVL, SHELL, PID and PPID change.
pub set_up-IsStarted :
    (exe_path : Option Text) (pid ppid n : ℕ) (p : Process)
    → n + 1 < 2 ^ 31
    → p.env (codes "SHLVL") ≡ some (decimal n)
    → (q : Process) × (set_up exe_path pid ppid p ≡ ok q) × IsStarted pid ppid (n + 1) p q
unfolding set_up
set_up-IsStarted exe_path pid ppid n p h level = (
  set_variables exe_path pid ppid (n + 1) p,
  ap (set_with exe_path pid ppid p) (ap shlvl_of level ∙ shlvl_of-decimal n h),
  set_variables-IsStarted exe_path pid ppid (n + 1) p,
)

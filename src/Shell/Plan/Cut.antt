-- ===== src/Shell/Plan/Cut.antt =====
-- Texts cut at the first of a byte, for which oscdsh uses strchr.
use ostd_final.Common.{ℕ, ◌≡◌, refl, false, some, [], ◌∷◌, ◌++◌, ◌==◌, arith}
use ostd_final.Common.Text.{Text, cut_at}
use ostd_final.Shell.Plan.{has_byte}

pub cut_at-append :
    (c : ℕ) (name rest : Text)
    → has_byte c name ≡ false
    → cut_at (λ d. d == c) (name ++ c ∷ rest) ≡ (name, some rest)
unfolding cut_at has_byte
cut_at-append c [] rest h = ground arith
cut_at-append c (d ∷ t) rest h =
    let other : (d == c) ≡ false = ground arith in
    let later : has_byte c t ≡ false = ground arith in rw (other, cut_at-append c t rest later) refl

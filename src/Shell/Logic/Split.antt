-- ===== src/Shell/Logic/Split.antt =====
-- `split_by_logic` of oscdsh/src/exec.c against the line that it splits.
use ostd_final.Common.{ℕ, ◌≡◌, refl, sym, ap, ◌∙◌, List, [], ◌∷◌, ◌++◌, arith}
use ostd_final.Common.Text.{Text}
use ostd_final.Shell.Logic.{
  Operator, op_none, op_and, op_or, Segment, operator_at, last_segment, split_from, split_by_logic,
}

-- how an operator is written
abbrev pub operator_text : Operator → Text
operator_text op_none = []
operator_text op_and = b'&' ∷ b'&' ∷ []
operator_text op_or = b'|' ∷ b'|' ∷ []

-- the segments one behind the other, each with its operator
abbrev pub join_segments : List Segment → Text
join_segments [] = []
join_segments (g ∷ more) = g.text ++ (operator_text g.operator ++ join_segments more)

append_nil : (t : Text) → t ++ [] ≡ t
append_nil [] = refl
append_nil (c ∷ t) = ap (λ u. c ∷ u) (append_nil t)

append_assoc : (a b c : Text) → (a ++ b) ++ c ≡ a ++ (b ++ c)
append_assoc [] b c = refl
append_assoc (x ∷ a) b c = ap (λ u. x ∷ u) (append_assoc a b c)

and_bytes : (a b : ℕ) → operator_at a b ≡ op_and → (a ≡ b'&') × (b ≡ b'&')
unfolding operator_at
and_bytes a b e = (ground arith, ground arith)

or_bytes : (a b : ℕ) → operator_at a b ≡ op_or → (a ≡ b'|') × (b ≡ b'|')
unfolding operator_at
or_bytes a b e = (ground arith, ground arith)

join-last_segment : (t : Text) → join_segments (last_segment t) ≡ t
unfolding last_segment
join-last_segment [] = refl
join-last_segment (c ∷ t) = append_nil (c ∷ t)

join-split_from : (start t : Text) → join_segments (split_from start t) ≡ start ++ t
unfolding split_from
join-split_from start [] = join-last_segment start ∙ sym (append_nil start)
join-split_from start (a ∷ []) = join-last_segment (start ++ a ∷ [])
join-split_from start (a ∷ b ∷ t) =
    go (operator_at a b) refl (join-split_from (start ++ a ∷ []) (b ∷ t)) (join-split_from [] t)
  where
    go :
        (op : Operator)
        → operator_at a b ≡ op
        → join_segments (split_from (start ++ a ∷ []) (b ∷ t)) ≡ (start ++ a ∷ []) ++ b ∷ t
        → join_segments (split_from [] t) ≡ t
        → join_segments (elim op as (λ _. List Segment) [
          | op_none ↦ split_from (start ++ a ∷ []) (b ∷ t)
          | op_and ↦ record { text = start; operator = op_and } ∷ split_from [] t
          | op_or ↦ record { text = start; operator = op_or } ∷ split_from [] t
        ])
          ≡ start ++ a ∷ b ∷ t
    go op_none e further rest = further ∙ append_assoc start (a ∷ []) (b ∷ t)
    go op_and e further rest =
        let (p, q) = and_bytes a b e in rw (p, q) (ap (λ u. start ++ b'&' ∷ b'&' ∷ u) rest)
    go op_or e further rest =
        let (p, q) = or_bytes a b e in rw (p, q) (ap (λ u. start ++ b'|' ∷ b'|' ∷ u) rest)

-- no part of a text is an operator
abbrev pub NoOperator : Text → Type 0
NoOperator [] = Unit {0}
NoOperator (a ∷ []) = Unit {0}
NoOperator (a ∷ b ∷ t) = (operator_at a b ≡ op_none) × NoOperator (b ∷ t)

abbrev pub AllPlain : List Segment → Type 0
AllPlain [] = Unit {0}
AllPlain (g ∷ more) = NoOperator g.text × AllPlain more

-- no operator begins in the open segment, whatever byte of the line comes next
abbrev Open : Text → Text → Type 0
Open start [] = NoOperator start
Open start (a ∷ t) = NoOperator (start ++ a ∷ [])

NoOperator-append :
    (start : Text) (a b : ℕ)
    → NoOperator (start ++ a ∷ [])
    → operator_at a b ≡ op_none
    → NoOperator ((start ++ a ∷ []) ++ b ∷ [])
NoOperator-append [] a b h e = (e, tt)
NoOperator-append (x ∷ []) a b h e = (h.0, (e, tt))
NoOperator-append (x ∷ y ∷ t) a b h e = (h.0, NoOperator-append (y ∷ t) a b h.1 e)

NoOperator-start : (start : Text) (a : ℕ) → NoOperator (start ++ a ∷ []) → NoOperator start
NoOperator-start [] a h = tt
NoOperator-start (x ∷ []) a h = tt
NoOperator-start (x ∷ y ∷ t) a h = (h.0, NoOperator-start (y ∷ t) a h.1)

last_segment-AllPlain : (t : Text) → NoOperator t → AllPlain (last_segment t)
unfolding last_segment
last_segment-AllPlain [] h = tt
last_segment-AllPlain (c ∷ t) h = (h, tt)

fresh_Open : (t : Text) → Open [] t
fresh_Open [] = tt
fresh_Open (a ∷ t) = tt

split_from-AllPlain : (start t : Text) → Open start t → AllPlain (split_from start t)
unfolding split_from
split_from-AllPlain start [] h = last_segment-AllPlain start h
split_from-AllPlain start (a ∷ []) h = last_segment-AllPlain (start ++ a ∷ []) h
split_from-AllPlain start (a ∷ b ∷ t) h =
    go (operator_at a b) refl (split_from-AllPlain (start ++ a ∷ []) (b ∷ t))
      (split_from-AllPlain [] t (fresh_Open t))
  where
    go :
        (op : Operator)
        → operator_at a b ≡ op
        → (Open (start ++ a ∷ []) (b ∷ t) → AllPlain (split_from (start ++ a ∷ []) (b ∷ t)))
        → AllPlain (split_from [] t)
        → AllPlain (elim op as (λ _. List Segment) [
          | op_none ↦ split_from (start ++ a ∷ []) (b ∷ t)
          | op_and ↦ record { text = start; operator = op_and } ∷ split_from [] t
          | op_or ↦ record { text = start; operator = op_or } ∷ split_from [] t
        ])
    go op_none e further rest = further (NoOperator-append start a b h e)
    go op_and e further rest = (NoOperator-start start a h, rest)
    go op_or e further rest = (NoOperator-start start a h, rest)

-- The segments of a line, each with its operator behind it, are the line, and no segment has an
-- operator in it.
pub join-split_by_logic :
    (line : Text) → (join_segments (split_by_logic line) ≡ line) × AllPlain (split_by_logic line)
unfolding split_by_logic
join-split_by_logic line = (join-split_from [] line, split_from-AllPlain [] line (fresh_Open line))

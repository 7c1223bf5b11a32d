-- ===== src/Trackerless/DuplicateMessageDetector/Runs.antt =====
-- The checks of packages/trackerless-network/src/content-delivery-layer/DuplicateMessageDetector.ts, one
-- after the other.
use pombo_storage_node.Base.{
  ℕ, ◌≤◌, ◌≡◌, ◌⊎◌, refl, ap, inl, inr, Bool, true, false, Option, none, some, List, [], ◌∷◌,
  Bool-cases, subst,
}
use pombo_storage_node.Trackerless.DuplicateMessageDetector.{
  NumberPair, endless, Gap, Checked, duplicate, new_number, invalid_numbering, gap_mismatch,
  mark_and_check, greater_than_or_equal,
}
use pombo_storage_node.Trackerless.DuplicateMessageDetector.Gaps.{IsSeen, gt_irrefl}
use pombo_storage_node.Trackerless.DuplicateMessageDetector.Once.{
  IsValid, Counts, mark_and_check-Counts,
}

-- The gaps that a check leaves: those there were, unless the number was new.
abbrev pub after : List Gap → Checked → List Gap
after gaps (new_number gaps') = gaps'
after gaps duplicate = gaps
after gaps invalid_numbering = gaps
after gaps gap_mismatch = gaps

abbrev pub is_new : Checked → Bool
is_new (new_number gaps) = true
is_new duplicate = false
is_new invalid_numbering = false
is_new gap_mismatch = false

abbrev pub Check : Type 0
Check = Option NumberPair × NumberPair

unfoldable pub run : ℕ → List Check → List Gap → List Gap
unfolding mark_and_check
run count [] gaps = gaps
run count ((previous, n) ∷ checks) gaps =
    run count checks (after gaps (mark_and_check count previous n gaps))

-- There is a gap, and the number is in none.
abbrev Marked : NumberPair → List Gap → Type 0
Marked n gaps = IsValid gaps × IsSeen n gaps

after-Marked :
    (m n : NumberPair) (gaps : List Gap) (checked : Checked)
    → Counts n gaps checked
    → Marked m gaps
    → Marked m (after gaps checked)
after-Marked m n gaps duplicate c h = h
after-Marked m n gaps invalid_numbering c h = h
after-Marked m n gaps gap_mismatch c h = h
after-Marked m n gaps (new_number gaps') (valid, counts) (v, seen) = (valid, counts.3 m seen)

run-Marked :
    (count : ℕ) (m : NumberPair) (checks : List Check) (gaps : List Gap)
    → 1 ≤ count
    → Marked m gaps
    → Marked m (run count checks gaps)
unfolding run
run-Marked count m [] gaps h marked = marked
run-Marked count m ((previous, n) ∷ checks) gaps h marked = run-Marked count m checks _ h (
    after-Marked m n gaps (mark_and_check count previous n gaps)
      (mark_and_check-Counts count previous n gaps h marked.0) marked)

-- A number that is marked is not new.
marked_not_new :
    (n : NumberPair) (gaps : List Gap) (checked : Checked)
    → Counts n gaps checked
    → IsSeen n gaps
    → is_new checked ≡ false
marked_not_new n gaps duplicate c h = refl
marked_not_new n gaps invalid_numbering c h = refl
marked_not_new n gaps gap_mismatch c h = refl
marked_not_new n gaps (new_number gaps') (valid, counts) h = absurd (counts.2 h)

-- Before the first number there is no gap; afterwards they are in order.
abbrev Reached : List Gap → Type 0
Reached gaps = (gaps ≡ []) ⊎ IsValid gaps

one_gap : (n : NumberPair) → Marked n (record { lower = n; upper = endless } ∷ [])
one_gap n = ((refl, (tt, tt, tt)), (rw (gt_irrefl n), tt))

first_check :
    (count : ℕ) (previous : Option NumberPair) (n : NumberPair) (gaps' : List Gap)
    → mark_and_check count previous n [] ≡ new_number gaps'
    → Marked n gaps'
unfolding mark_and_check
first_check count none n gaps' e = subst (Marked n) (ap (after []) e) (one_gap n)
first_check count (some p) n gaps' e = elim (Bool-cases (greater_than_or_equal p n)) [
  | inl invalid ↦ absurd (cc (rw (mark_and_check, invalid) at e))
  | inr valid ↦ subst (Marked n) (ap (after []) (rw (mark_and_check, valid) at e)) (one_gap n)
]

after-Reached :
    (count : ℕ) (previous : Option NumberPair) (n : NumberPair) (gaps gaps' : List Gap)
    → 1 ≤ count
    → Reached gaps
    → mark_and_check count previous n gaps ≡ new_number gaps'
    → Marked n gaps'
after-Reached count previous n gaps gaps' h (inl empty) e =
    first_check count previous n gaps'
      (subst (λ g. mark_and_check count previous n g ≡ new_number gaps') empty e)
after-Reached count previous n gaps gaps' h (inr v) e =
    let (valid, counts) =
      subst (Counts n gaps) e (mark_and_check-Counts count previous n gaps h v) in
    (valid, counts.1)

step-Reached :
    (count : ℕ) (previous : Option NumberPair) (n : NumberPair) (gaps : List Gap)
    (checked : Checked)
    → 1 ≤ count
    → Reached gaps
    → mark_and_check count previous n gaps ≡ checked
    → Reached (after gaps checked)
step-Reached count previous n gaps duplicate h r e = r
step-Reached count previous n gaps invalid_numbering h r e = r
step-Reached count previous n gaps gap_mismatch h r e = r
step-Reached count previous n gaps (new_number gaps') h r e =
    inr (after-Reached count previous n gaps gaps' h r e).0

run-Reached :
    (count : ℕ) (checks : List Check) (gaps : List Gap)
    → 1 ≤ count
    → Reached gaps
    → Reached (run count checks gaps)
unfolding run
run-Reached count [] gaps h r = r
run-Reached count ((previous, n) ∷ checks) gaps h r =
    run-Reached count checks _ h
      (step-Reached count previous n gaps (mark_and_check count previous n gaps) h r refl)

-- With room for at least one gap, a number that a new detector took for new, after any checks, is not
-- taken for new again, after any further checks and with any previous number.
pub no_number_new_twice :
    (count : ℕ) (checks later : List Check) (previous again : Option NumberPair) (n : NumberPair)
    (gaps : List Gap)
    → 1 ≤ count
    → mark_and_check count previous n (run count checks []) ≡ new_number gaps
    → is_new (mark_and_check count again n (run count later gaps)) ≡ false
no_number_new_twice count checks later previous again n gaps h e =
    let marked =
      after-Reached count previous n _ gaps h (run-Reached count checks [] h (inl refl)) e in
    let still = run-Marked count n later gaps h marked in
    marked_not_new n _ _ (mark_and_check-Counts count again n _ h still.0) still.1

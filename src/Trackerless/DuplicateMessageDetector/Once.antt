-- ===== src/Trackerless/DuplicateMessageDetector/Once.antt =====
-- That packages/trackerless-network/src/content-delivery-layer/DuplicateMessageDetector.ts takes no
-- number for new twice.
use pombo_storage_node.Base.{
  ℕ, ◌≤◌, ◌≡◌, refl, inl, inr, true, false, Option, none, some, List, [], ◌∷◌, All, ltb, length,
  arith, Bool-cases,
}
use pombo_storage_node.Trackerless.DuplicateMessageDetector.{
  NumberPair, Bound, bound, endless, greater_than, equal_to, greater_than_or_equal, reaches,
  exceeds, ends, Gap, Checked, duplicate, new_number, invalid_numbering, gap_mismatch, onto,
  split_gap, check_gaps, drop_last, drop_lowest, dropping, mark_and_check,
}
use pombo_storage_node.Trackerless.DuplicateMessageDetector.Gaps.{
  covers, Within, Above, Descending, Takes, Result, split_gap-Takes, Descending-weaken,
  Within-higher, gt_irrefl, gt_trans, Above-IsSeen, lt_of_not_ge,
}

onto-Result :
    (n : NumberPair) (top : Bound) (gap : Gap) (gaps : List Gap) (checked : Checked)
    → Within gap.upper top
    → Above gap.lower gap.upper
    → covers n gap ≡ false
    → Result n (bound gap.lower) gaps checked
    → Result n top (gap ∷ gaps) (onto gap checked)
onto-Result n top gap gaps duplicate under above outside h = tt
onto-Result n top gap gaps invalid_numbering under above outside h = tt
onto-Result n top gap gaps gap_mismatch under above outside h = tt
onto-Result n top gap gaps (new_number gaps') under above outside (d, seen, was_new, keeps) =
    ((under, above, d), (outside, seen), λ h. was_new h.1, λ m h. (h.0, keeps m h.1))

check_gaps-Result :
    (p n : NumberPair) (top : Bound) (gaps : List Gap)
    → greater_than n p ≡ true
    → Descending top gaps
    → Result n top gaps (check_gaps p n gaps)
unfolding check_gaps
check_gaps-Result p n top [] after d = tt
check_gaps-Result p n top (gap ∷ gaps) after (under, above, d) =
    elim (Bool-cases (reaches p gap.upper)) [
      | inl beyond ↦ rw (check_gaps, beyond) tt
      | inr within ↦ elim (Bool-cases (greater_than_or_equal p gap.lower)) [
        | inl from ↦ elim (Bool-cases (exceeds n gap.upper)) [
          | inl overlap ↦ rw (check_gaps, within, from, overlap) tt
          | inr inside ↦
              rw (check_gaps, within, from, inside)
                (split_gap-Takes p n gap gaps top after from inside (under, above, d))
        ]
        | inr earlier ↦ elim (Bool-cases (greater_than n gap.lower)) [
          | inl overlap ↦ rw (check_gaps, within, earlier, overlap) tt
          | inr lower ↦
              rw (check_gaps, within, earlier, lower)
                (onto-Result n top gap gaps (check_gaps p n gaps) under above
                  (ground (arith, lower)) (check_gaps-Result p n (bound gap.lower) gaps after d))
        ]
      ]
    ]

drop_last-All : (P : Gap → Type 0) (gaps : List Gap) → All P gaps → All P (drop_last gaps)
drop_last-All P [] h = tt
drop_last-All P (gap ∷ []) h = tt
drop_last-All P (gap ∷ next ∷ gaps) (first, h) = (first, drop_last-All P (next ∷ gaps) h)

drop_last-Descending :
    (top : Bound) (gaps : List Gap) → Descending top gaps → Descending top (drop_last gaps)
drop_last-Descending top [] d = tt
drop_last-Descending top (gap ∷ []) d = tt
drop_last-Descending top (gap ∷ next ∷ gaps) (under, above, d) =
    (under, above, drop_last-Descending (bound gap.lower) (next ∷ gaps) d)

-- The highest gap is endless, once there is one.
abbrev pub IsEndless : List Gap → Type 0
IsEndless [] = ⊥
IsEndless (gap ∷ gaps) = gap.upper ≡ endless

abbrev Ends : Checked → Type 0
Ends (new_number gaps) = IsEndless gaps
Ends duplicate = Unit
Ends invalid_numbering = Unit
Ends gap_mismatch = Unit

onto-Ends : (gap : Gap) (checked : Checked) → gap.upper ≡ endless → Ends (onto gap checked)
onto-Ends gap duplicate e = tt
onto-Ends gap invalid_numbering e = tt
onto-Ends gap gap_mismatch e = tt
onto-Ends gap (new_number gaps) e = e

split_gap-IsEndless :
    (p n : NumberPair) (gap : Gap) (gaps : List Gap)
    → gap.upper ≡ endless
    → IsEndless (split_gap p n gap gaps)
unfolding split_gap ends
split_gap-IsEndless p n gap gaps e = elim (Bool-cases (equal_to p gap.lower)) [
  | inl start ↦ rw (split_gap, start, e) refl
  | inr later ↦ rw (split_gap, later, e) refl
]

check_gaps-Ends : (p n : NumberPair) (gaps : List Gap) → IsEndless gaps → Ends (check_gaps p n gaps)
unfolding check_gaps
check_gaps-Ends p n [] e = tt
check_gaps-Ends p n (gap ∷ gaps) e = elim (Bool-cases (reaches p gap.upper)) [
  | inl beyond ↦ rw (check_gaps, beyond) tt
  | inr within ↦ elim (Bool-cases (greater_than_or_equal p gap.lower)) [
    | inl from ↦ elim (Bool-cases (exceeds n gap.upper)) [
      | inl overlap ↦ rw (check_gaps, within, from, overlap) tt
      | inr inside ↦ rw (check_gaps, within, from, inside) (split_gap-IsEndless p n gap gaps e)
    ]
    | inr earlier ↦ elim (Bool-cases (greater_than n gap.lower)) [
      | inl overlap ↦ rw (check_gaps, within, earlier, overlap) tt
      | inr lower ↦ rw (check_gaps, within, earlier, lower) (onto-Ends gap (check_gaps p n gaps) e)
    ]
  ]
]

drop_lowest-IsEndless :
    (count : ℕ) (gaps : List Gap) → 1 ≤ count → IsEndless gaps → IsEndless (drop_lowest count gaps)
unfolding drop_lowest
drop_lowest-IsEndless count [] h e = absurd e
drop_lowest-IsEndless count (gap ∷ []) h e =
    let few : ltb count 1 ≡ false = ground (arith, h) in rw few e
drop_lowest-IsEndless count (gap ∷ next ∷ gaps) h e =
    elim (Bool-cases (ltb count (length (gap ∷ next ∷ gaps)))) [
      | inl many ↦ rw (drop_lowest, many) e
      | inr few ↦ rw (drop_lowest, few) e
    ]

-- The gaps after the first number.
abbrev pub IsValid : List Gap → Type 0
IsValid gaps = IsEndless gaps × Descending endless gaps

-- A number that is taken for new was in a gap, is in none afterwards, and no other number gets into one.
abbrev pub Counts : NumberPair → List Gap → Checked → Type 0
Counts n gaps (new_number gaps') = IsValid gaps' × Takes n endless gaps gaps'
Counts n gaps duplicate = Unit
Counts n gaps invalid_numbering = Unit
Counts n gaps gap_mismatch = Unit

dropping-Counts :
    (count : ℕ) (n : NumberPair) (gaps : List Gap) (checked : Checked)
    → 1 ≤ count
    → Ends checked
    → Result n endless gaps checked
    → Counts n gaps (dropping count checked)
unfolding drop_lowest
dropping-Counts count n gaps duplicate h e r = tt
dropping-Counts count n gaps invalid_numbering h e r = tt
dropping-Counts count n gaps gap_mismatch h e r = tt
dropping-Counts count n gaps (new_number gaps') h e (d, seen, was_new, keeps) =
    elim (Bool-cases (ltb count (length gaps'))) [
      | inr few ↦ rw (drop_lowest, few) ((e, d), (d, seen, was_new, keeps))
      | inl many ↦
          let still = drop_lowest-IsEndless count gaps' h e in
          rw (drop_lowest, many)
            (
              ((rw (drop_lowest, many) at still), drop_last-Descending endless gaps' d),
              (
                drop_last-Descending endless gaps' d,
                drop_last-All (λ gap. covers n gap ≡ false) gaps' seen,
                was_new,
                λ m s. drop_last-All (λ gap. covers m gap ≡ false) gaps' (keeps m s),
              ),
            )
    ]

-- The number is above the lower bound of the latest gap, which has no end.
raised-Counts :
    (n : NumberPair) (latest : Gap) (lower : List Gap)
    → IsValid (latest ∷ lower)
    → greater_than n latest.lower ≡ true
    → Counts n (latest ∷ lower) (new_number (record latest { lower = n } ∷ lower))
unfolding exceeds
raised-Counts n latest lower (e, (under, above, d)) over =
    let order =
      Descending-weaken (bound latest.lower) (bound n) lower
        (λ w. Within-higher latest.lower n w over) d in
    let open_end : Above n latest.upper = rw e tt in
    (
      (e, (under, open_end, order)),
      (
        (under, open_end, order),
        (ground (arith, gt_irrefl n), Above-IsSeen n latest.lower lower over d),
        λ h. absurd (ground (arith, h.0, over, e)),
        λ m h. (ground (arith, h.0, e, gt_trans m n latest.lower, over), h.1),
      ),
    )

pub mark_and_check-Counts :
    (count : ℕ) (previous : Option NumberPair) (n : NumberPair) (gaps : List Gap)
    → 1 ≤ count
    → IsValid gaps
    → Counts n gaps (mark_and_check count previous n gaps)
unfolding mark_and_check greater_than_or_equal
mark_and_check-Counts count previous n [] h v = absurd v.0
mark_and_check-Counts count none n (latest ∷ lower) h v =
    elim (Bool-cases (greater_than n latest.lower)) [
      | inl over ↦ rw (mark_and_check, over) (raised-Counts n latest lower v over)
      | inr under ↦ rw (mark_and_check, under) tt
    ]
mark_and_check-Counts count (some p) n (latest ∷ lower) h v =
    elim (Bool-cases (greater_than_or_equal p n)) [
      | inl invalid ↦ rw (mark_and_check, invalid) tt
      | inr valid ↦
          rw (mark_and_check, valid)
            (dropping-Counts count n (latest ∷ lower) (check_gaps p n (latest ∷ lower)) h
              (check_gaps-Ends p n (latest ∷ lower) v.0)
              (check_gaps-Result p n endless (latest ∷ lower) (lt_of_not_ge p n valid) v.1))
    ]

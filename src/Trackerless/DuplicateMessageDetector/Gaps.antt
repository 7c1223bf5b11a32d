-- ===== src/Trackerless/DuplicateMessageDetector/Gaps.antt =====
-- How the numbers of a check split a gap, in
-- packages/trackerless-network/src/content-delivery-layer/DuplicateMessageDetector.ts.
use pombo_storage_node.Base.{
  ◌≡◌, inl, inr, Bool, true, false, not, ◌&&◌, List, [], ◌∷◌, All, arith, Bool-cases,
}
use pombo_storage_node.Trackerless.DuplicateMessageDetector.{
  NumberPair, Bound, bound, endless, compare_to, greater_than, equal_to, greater_than_or_equal,
  exceeds, ends, Gap, Checked, duplicate, new_number, invalid_numbering, gap_mismatch, split_gap,
}

abbrev pub covers : NumberPair → Gap → Bool
covers n gap = greater_than n gap.lower && not (exceeds n gap.upper)

abbrev pub IsSeen : NumberPair → List Gap → Type 0
IsSeen n = All (λ gap. covers n gap ≡ false)

abbrev pub Within : Bound → Bound → Type 0
Within u endless = Unit
Within endless (bound t) = ⊥
Within (bound v) (bound t) = greater_than v t ≡ false

abbrev pub Above : NumberPair → Bound → Type 0
Above l endless = Unit
Above l (bound v) = greater_than v l ≡ true

-- Gaps that hold something, each below the one before it.
abbrev pub Descending : Bound → List Gap → Type 0
Descending top [] = Unit
Descending top (gap ∷ gaps) =
    Within gap.upper top × Above gap.lower gap.upper × Descending (bound gap.lower) gaps

pub gt_trans :
    (x y z : NumberPair)
    → greater_than x y ≡ true
    → greater_than y z ≡ true
    → greater_than x z ≡ true
unfolding greater_than compare_to
gt_trans x y z h k = ground (arith, h, k)

gt_ge_trans :
    (x y z : NumberPair)
    → greater_than x y ≡ true
    → greater_than_or_equal y z ≡ true
    → greater_than x z ≡ true
unfolding greater_than compare_to greater_than_or_equal equal_to
gt_ge_trans x y z h k = ground (arith, h, k)

le_gt_trans :
    (x y z : NumberPair)
    → greater_than y x ≡ false
    → greater_than y z ≡ true
    → greater_than x z ≡ true
unfolding greater_than compare_to
le_gt_trans x y z h k = ground (arith, h, k)

pub gt_irrefl : (x : NumberPair) → greater_than x x ≡ false
unfolding greater_than compare_to
gt_irrefl x = ground arith

pub lt_of_not_ge : (x y : NumberPair) → greater_than_or_equal x y ≡ false → greater_than y x ≡ true
unfolding greater_than compare_to greater_than_or_equal equal_to
lt_of_not_ge x y h = ground (arith, h)

gt_asymm : (x y : NumberPair) → greater_than x y ≡ true → greater_than y x ≡ false
unfolding greater_than compare_to
gt_asymm x y h = ground (arith, h)

ge_not_eq :
    (x y : NumberPair)
    → greater_than_or_equal x y ≡ true
    → equal_to x y ≡ false
    → greater_than x y ≡ true
unfolding greater_than compare_to greater_than_or_equal equal_to
ge_not_eq x y h k = ground (arith, h, k)

le_not_eq :
    (x y : NumberPair) → greater_than x y ≡ false → equal_to x y ≡ false → greater_than y x ≡ true
unfolding greater_than compare_to equal_to
le_not_eq x y h k = ground (arith, h, k)

gt_le_trans :
    (x y z : NumberPair)
    → greater_than x y ≡ true
    → greater_than z y ≡ false
    → greater_than x z ≡ true
unfolding greater_than compare_to
gt_le_trans x y z h k = ground (arith, h, k)

Above-bound :
    (n l low : NumberPair) (u : Bound)
    → greater_than n l ≡ true
    → Within u (bound l)
    → Above low u
    → (exceeds n u ≡ true) × (greater_than n low ≡ true)
unfolding exceeds
Above-bound n l low endless h within above = absurd within
Above-bound n l low (bound v) h within above =
    let higher = gt_le_trans n l v h within in (higher, gt_trans n v low higher above)

-- Whatever is above the bound of a list of gaps is in none of them.
pub Above-IsSeen :
    (n l : NumberPair) (gaps : List Gap)
    → greater_than n l ≡ true
    → Descending (bound l) gaps
    → IsSeen n gaps
Above-IsSeen n l [] h d = tt
Above-IsSeen n l (gap ∷ gaps) h (within, above, d) =
    let (higher, over) = Above-bound n l gap.lower gap.upper h within above in
    (ground (arith, higher), Above-IsSeen n gap.lower gaps over d)

-- What a check that takes a number for new does to the gaps.
abbrev pub Takes : NumberPair → Bound → List Gap → List Gap → Type 0
Takes n top gaps gaps' =
    Descending top gaps'
    × IsSeen n gaps'
    × ¬ IsSeen n gaps
    × ((m : NumberPair) → IsSeen m gaps → IsSeen m gaps')

abbrev pub Result : NumberPair → Bound → List Gap → Checked → Type 0
Result n top gaps (new_number gaps') = Takes n top gaps gaps'
Result n top gaps duplicate = Unit
Result n top gaps invalid_numbering = Unit
Result n top gaps gap_mismatch = Unit

-- Bounds under which a list of gaps stays in order.
pub Descending-weaken :
    (b c : Bound) (gaps : List Gap)
    → ((u : Bound) → Within u b → Within u c)
    → Descending b gaps
    → Descending c gaps
Descending-weaken b c [] f d = tt
Descending-weaken b c (gap ∷ gaps) f (within, above, d) = (f gap.upper within, above, d)

pub Within-higher :
    (l n : NumberPair) (w : Bound)
    → greater_than n l ≡ true
    → Within w (bound l)
    → Within w (bound n)
unfolding greater_than compare_to
Within-higher l n endless h within = within
Within-higher l n (bound v) h within = ground (arith, h, within)

Within-top :
    (l : NumberPair) (u top w : Bound)
    → Above l u
    → Within u top
    → Within w (bound l)
    → Within w top
unfolding greater_than compare_to
Within-top l u endless w above under within = tt
Within-top l endless (bound t) w above under within = absurd under
Within-top l (bound v) (bound t) endless above under within = within
Within-top l (bound v) (bound t) (bound x) above under within = ground (arith, above, under, within)

previous-Within :
    (p n : NumberPair) (u top : Bound)
    → greater_than n p ≡ true
    → exceeds n u ≡ false
    → Within u top
    → Within (bound p) top
unfolding greater_than compare_to exceeds
previous-Within p n u endless after inside under = tt
previous-Within p n endless (bound t) after inside under = absurd under
previous-Within p n (bound v) (bound t) after inside under = ground (arith, after, inside, under)

Above-number : (n : NumberPair) (u : Bound) → exceeds n u ≡ false → ends n u ≡ false → Above n u
unfolding exceeds ends
Above-number n endless inside apart = tt
Above-number n (bound v) inside apart = le_not_eq n v inside apart

exceeds_previous :
    (m p n : NumberPair) (u : Bound)
    → greater_than n p ≡ true
    → exceeds n u ≡ false
    → exceeds m u ≡ true
    → greater_than m p ≡ true
unfolding greater_than compare_to exceeds
exceeds_previous m p n endless after inside out = absurd cc
exceeds_previous m p n (bound v) after inside out = ground (arith, after, inside, out)

-- The numbers of a check fall in a gap.
pub split_gap-Takes :
    (p n : NumberPair) (gap : Gap) (gaps : List Gap) (top : Bound)
    → greater_than n p ≡ true
    → greater_than_or_equal p gap.lower ≡ true
    → exceeds n gap.upper ≡ false
    → Descending top (gap ∷ gaps)
    → Takes n top (gap ∷ gaps) (split_gap p n gap gaps)
unfolding split_gap exceeds
split_gap-Takes p n gap gaps top after from inside (under, above, d) =
    let l = gap.lower in
    let u = gap.upper in
    let over = gt_ge_trans n p l after from in
    let seen = Above-IsSeen n l gaps over d in
    let was_new : ¬ IsSeen n (gap ∷ gaps) = λ h. ground (arith, h.0, over, inside) in
    let upper_piece : Gap = record { lower = n; upper = u } in
    let lower_piece : Gap = record { lower = l; upper = bound p } in
    let self : covers n upper_piece ≡ false = ground (arith, gt_irrefl n) in
    let self_low : covers n lower_piece ≡ false = ground (arith, after) in
    let keeps : (m : NumberPair) → covers m gap ≡ false → covers m upper_piece ≡ false =
      λ m c. ground (arith, c, gt_trans m n l, over) in
    let keeps_low : (m : NumberPair) → covers m gap ≡ false → covers m lower_piece ≡ false =
      λ m c. ground (arith, c, exceeds_previous m p n u after inside) in
    elim (Bool-cases (equal_to p l)) [
      | inl start ↦ elim (Bool-cases (ends n u)) [
        | inl end ↦
            rw (split_gap, start, end)
              (
                Descending-weaken (bound l) top gaps (λ w. Within-top l u top w above under) d,
                seen,
                was_new,
                λ m h. h.1,
              )
        | inr short ↦
            rw (split_gap, start, short)
              (
                (
                  under,
                  Above-number n u inside short,
                  Descending-weaken (bound l) (bound n) gaps (λ w. Within-higher l n w over) d,
                ),
                (self, seen),
                was_new,
                λ m h. (keeps m h.0, h.1),
              )
      ]
      | inr later ↦
          let lower_above = ge_not_eq p l from later in
          elim (Bool-cases (ends n u)) [
            | inl end ↦
                rw (split_gap, later, end)
                  (
                    (previous-Within p n u top after inside under, lower_above, d),
                    (self_low, seen),
                    was_new,
                    λ m h. (keeps_low m h.0, h.1),
                  )
            | inr short ↦
                rw (split_gap, later, short)
                  (
                    (under, Above-number n u inside short, (gt_asymm n p after, lower_above, d)),
                    (self, (self_low, seen)),
                    was_new,
                    λ m h. (keeps m h.0, (keeps_low m h.0, h.1)),
                  )
          ]
    ]

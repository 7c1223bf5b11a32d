-- ===== src/Trackerless/DuplicateMessageDetector.antt =====
-- packages/trackerless-network/src/content-delivery-layer/DuplicateMessageDetector.ts. The gaps are held
-- highest first, the order in which the loop goes through them. The pair of infinities, which is only
-- ever an upper bound, is `endless`.
pub mod Gaps
pub mod Once
pub mod Runs
use pombo_storage_node.Base.{
  ℕ, suc, Bool, true, false, ◌||◌, Option, none, some, List, [], ◌∷◌, if◌then◌else◌, ltb, leb,
  nat_eq, length,
}
use Prim.Native.Nat.{Ordering}
use pombo_storage_node.Utils.Heap.{is_eq}

pub record NumberPair : Type 0 where
  pub a : ℕ
  pub b : ℕ

pub data Bound : Type 0 where
  bound : NumberPair → Bound
  endless : Bound

unfoldable pub compare_to : NumberPair → NumberPair → Ordering
compare_to x y =
    if ltb y.a x.a
    then Ordering.gt
    else if ltb x.a y.a
    then Ordering.lt
    else if ltb y.b x.b
    then Ordering.gt
    else if ltb x.b y.b
    then Ordering.lt
    else Ordering.eq

abbrev is_gt : Ordering → Bool
is_gt Ordering.gt = true
is_gt _ = false

unfoldable pub greater_than : NumberPair → NumberPair → Bool
unfolding compare_to
greater_than x y = is_gt (compare_to x y)

unfoldable pub equal_to : NumberPair → NumberPair → Bool
unfolding compare_to
equal_to x y = is_eq (compare_to x y)

unfoldable pub greater_than_or_equal : NumberPair → NumberPair → Bool
unfolding greater_than equal_to
greater_than_or_equal x y = greater_than x y || equal_to x y

-- The comparisons with an upper bound.
unfoldable pub reaches : NumberPair → Bound → Bool
unfolding greater_than_or_equal
reaches x (bound y) = greater_than_or_equal x y
reaches x endless = false

unfoldable pub exceeds : NumberPair → Bound → Bool
unfolding greater_than
exceeds x (bound y) = greater_than x y
exceeds x endless = false

unfoldable pub ends : NumberPair → Bound → Bool
unfolding equal_to
ends x (bound y) = equal_to x y
ends x endless = false

-- The numbers above the lower bound and up to the upper one.
pub record Gap : Type 0 where
  pub lower : NumberPair
  pub upper : Bound

-- What a check comes to: `false`, `true` with the gaps afterwards, or an error.
pub data Checked : Type 0 where
  duplicate : Checked
  new_number : List Gap → Checked
  invalid_numbering gap_mismatch : Checked

abbrev pub onto : Gap → Checked → Checked
onto gap (new_number gaps) = new_number (gap ∷ gaps)
onto gap duplicate = duplicate
onto gap invalid_numbering = invalid_numbering
onto gap gap_mismatch = gap_mismatch

-- What is left of a gap that holds the two numbers.
unfoldable pub split_gap : NumberPair → NumberPair → Gap → List Gap → List Gap
unfolding equal_to ends
split_gap previous number gap gaps =
    if equal_to previous gap.lower
    then if ends number gap.upper then gaps else record { lower = number; upper = gap.upper } ∷ gaps
    else if ends number gap.upper
    then record { lower = gap.lower; upper = bound previous } ∷ gaps
    else record { lower = number; upper = gap.upper }
      ∷ (record { lower = gap.lower; upper = bound previous } ∷ gaps)

-- The loop, without the drop of the lowest gap.
unfoldable pub check_gaps : NumberPair → NumberPair → List Gap → Checked
unfolding reaches exceeds greater_than greater_than_or_equal split_gap
check_gaps previous number [] = duplicate
check_gaps previous number (gap ∷ gaps) =
    let rest = onto gap (check_gaps previous number gaps) in
    if reaches previous gap.upper
    then duplicate
    else if greater_than_or_equal previous gap.lower
    then if exceeds number gap.upper
      then gap_mismatch
      else new_number (split_gap previous number gap gaps)
    else if greater_than number gap.lower
    then gap_mismatch
    else rest

abbrev pub drop_last : List Gap → List Gap
drop_last [] = []
drop_last (gap ∷ []) = []
drop_last (gap ∷ next ∷ gaps) = gap ∷ drop_last (next ∷ gaps)

unfoldable pub drop_lowest : ℕ → List Gap → List Gap
drop_lowest max_gap_count gaps = if ltb max_gap_count (length gaps) then drop_last gaps else gaps

abbrev pub dropping : ℕ → Checked → Checked
unfolding drop_lowest
dropping max_gap_count (new_number gaps) = new_number (drop_lowest max_gap_count gaps)
dropping max_gap_count checked = checked

abbrev precedes_not : Option NumberPair → NumberPair → Bool
unfolding greater_than_or_equal
precedes_not none number = false
precedes_not (some previous) number = greater_than_or_equal previous number

unfoldable pub mark_and_check : ℕ → Option NumberPair → NumberPair → List Gap → Checked
unfolding check_gaps greater_than
mark_and_check max_gap_count previous number gaps =
    if precedes_not previous number then invalid_numbering else elim gaps [
      | [] ↦ new_number (record { lower = number; upper = endless } ∷ [])
      | latest ∷ lower ↦ elim previous [
        | none ↦
            if greater_than number latest.lower
            then new_number (record latest { lower = number } ∷ lower)
            else duplicate
        | some p ↦ dropping max_gap_count (check_gaps p number (latest ∷ lower))
      ]
    ]

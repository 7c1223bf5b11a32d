-- ===== src/Utils/Heap.antt =====
-- packages/utils/src/Heap.ts: a priority queue as a list in ascending order, with the place of an item
-- found by bisection. What `compare` returns is known by its sign. The fuel of the loop is the number
-- of items, and each round halves the range.
pub mod Order
use pombo_storage_node.Base.{
  ℕ, zero, suc, ◌+◌, ◌-◌, ◌/◌, ◌≤◌, ◌<◌, ◌≡◌, ◌≢◌, refl, sym, ◌∙◌, ap, inl, inr, Bool, true, false,
  Option, none, some, List, [], ◌∷◌, length, All, All-map, if◌then◌else◌, ltb, arith, Bool-cases,
  Option-cases, subst,
}
use Prim.Native.Nat.{Ordering}

module _ {A : Type 0} where
  unfoldable pub at : List A → ℕ → Option A
  at [] i = none
  at (x ∷ xs) zero = some x
  at (x ∷ xs) (suc i) = at xs i

  -- `items.splice(index, 0, item)`.
  unfoldable pub insert_at : ℕ → A → List A → List A
  insert_at zero item items = item ∷ items
  insert_at (suc i) item [] = item ∷ []
  insert_at (suc i) item (x ∷ items) = x ∷ insert_at i item items

abbrev pub is_lt : Ordering → Bool
is_lt Ordering.lt = true
is_lt _ = false

abbrev pub is_eq : Ordering → Bool
is_eq Ordering.eq = true
is_eq _ = false

-- The loop: `goes_right middle` says that the item at that place comes before the one looked for.
-- `none` is a loop that has not ended when the fuel is used up.
unfoldable pub bisect : ℕ → (ℕ → Bool) → ℕ → ℕ → Option ℕ
bisect zero goes_right first last = if ltb first last then none else some last
bisect (suc fuel) goes_right first last =
    let middle = (first + last) / 2 in
    let right = bisect fuel goes_right (middle + 1) last in
    let left = bisect fuel goes_right first middle in
    if ltb first last then if goes_right middle then right else left else some last

module _ {A : Type 0} (compare : A → A → Ordering) where
  unfoldable pub before : A → Option A → Bool
  before item none = false
  before item (some x) = is_lt (compare x item)

  unfoldable pub get_item_index : List A → A → Option ℕ
  unfolding bisect before at
  get_item_index items item = bisect (length items) (λ i. before item (at items i)) 0 (length items)

  -- `contains` and `push`, from the index on.
  unfoldable pub push_at : Option ℕ → List A → A → List A
  unfolding insert_at
  push_at none items item = items
  push_at (some index) items item = insert_at index item items

  unfoldable pub contains_at : Option ℕ → List A → A → Bool
  unfolding at
  contains_at none items item = false
  contains_at (some index) items item = elim (at items index) [
    | none ↦ false
    | some x ↦ is_eq (compare x item)
  ]

  unfoldable pub push : List A → A → List A
  unfolding get_item_index push_at
  push items item = push_at (get_item_index items item) items item

  unfoldable pub contains : List A → A → Bool
  unfolding get_item_index contains_at
  contains items item = contains_at (get_item_index items item) items item

-- Where a test turns from true to false.
abbrev pub Turns : (ℕ → Bool) → ℕ → Type 0
Turns p r = ((i : ℕ) → i < r → p i ≡ true) × ((i : ℕ) → r ≤ i → p i ≡ false)

-- The search ended at the place where the test turns.
abbrev pub Finds : (ℕ → Bool) → Option ℕ → Type 0
Finds p index = (r : ℕ) × (index ≡ some r) × Turns p r

pub bisect-Finds :
    (fuel : ℕ) (p : ℕ → Bool) (first last : ℕ)
    → ((i j : ℕ) → i ≤ j → p j ≡ true → p i ≡ true)
    → ((i : ℕ) → i < first → p i ≡ true)
    → ((i : ℕ) → last ≤ i → p i ≡ false)
    → first ≤ last
    → last ≤ first + fuel
    → Finds p (bisect fuel p first last)
unfolding bisect
bisect-Finds zero p first last mono low high le enough =
    let done : ltb first last ≡ false = ground (arith, le, enough) in
    (last, rw (bisect, done), (λ i h. low i (omega arith), high))
bisect-Finds (suc fuel) p first last mono low high le enough =
    let middle = (first + last) / 2 in
    elim (Bool-cases (ltb first last)) [
      | inr done ↦ (last, rw (bisect, done), (λ i h. low i (ground (arith, h, done)), high))
      | inl more ↦ elim (Bool-cases (p middle)) [
        | inl right ↦
            rw (bisect, more, right)
              (bisect-Finds fuel p (middle + 1) last mono
                (λ i h. mono i middle (omega (arith, h)) right) high (ground (arith, more))
                (ground (arith, more)))
        | inr left ↦
            rw (bisect, more, left)
              (bisect-Finds fuel p first middle mono low
                (λ i h. elim (Bool-cases (p i)) [
                  | inl higher ↦ absurd (cc (mono middle i h higher, left))
                  | inr lower ↦ lower
                ])
                (ground (arith, more)) (ground (arith, more, enough)))
      ]
    ]

-- Where a test is passed by all places before one and by none from it on, the loop ends within as many
-- rounds as there are places in the range, and returns the place where the test turns.
pub bisect-ltb :
    (fuel : ℕ) (p : ℕ → Bool) (first last : ℕ)
    → ((i j : ℕ) → i ≤ j → p j ≡ true → p i ≡ true)
    → ((i : ℕ) → i < first → p i ≡ true)
    → ((i : ℕ) → last ≤ i → p i ≡ false)
    → first ≤ last
    → last ≤ first + fuel
    → (r : ℕ) × (bisect fuel p first last ≡ some r) × ((i : ℕ) → ltb i r ≡ p i)
bisect-ltb fuel p first last mono low high le enough =
    let (r, ended, (lower, higher)) = bisect-Finds fuel p first last mono low high le enough in
    (
      r,
      ended,
      λ i. elim (Bool-cases (ltb i r)) [
        | inl before_it ↦ rw before_it (sym (lower i (ground (arith, before_it))))
        | inr from_it ↦ rw from_it (sym (higher i (ground (arith, from_it))))
      ],
    )

-- ===== src/Utils/Heap/Order.antt =====
-- That the list of packages/utils/src/Heap.ts stays in order, and that bisection finds what is in it.
use pombo_storage_node.Base.{
  ℕ, zero, suc, ◌+◌, ◌≤◌, ◌≡◌, refl, inl, inr, Bool, true, false, none, some, List, [], ◌∷◌, length,
  All, All-map, any, sum_of, arith, Bool-cases, Option-cases,
}
use Prim.Native.Nat.{Ordering}
use pombo_storage_node.Utils.Heap.{
  at, insert_at, is_lt, is_eq, before, get_item_index, push_at, contains_at, push, contains, Turns,
  Finds, bisect-Finds,
}

-- What a comparison has to be like.
pub record IsOrder {A : Type 0} (compare : A → A → Ordering) : Type 0 where
  pub lt_trans :
      (a b c : A)
      → is_lt (compare a b) ≡ true
      → is_lt (compare b c) ≡ true
      → is_lt (compare a c) ≡ true
  pub lt_eq_trans :
      (a b c : A)
      → is_lt (compare a b) ≡ true
      → is_eq (compare b c) ≡ true
      → is_lt (compare a c) ≡ true
  pub total :
      (a b : A)
      → is_lt (compare a b) ≡ false
      → is_eq (compare a b) ≡ false
      → is_lt (compare b a) ≡ true

lt_not_eq : (o : Ordering) → is_lt o ≡ true → is_eq o ≡ false
lt_not_eq Ordering.lt h = refl
lt_not_eq Ordering.eq h = cc
lt_not_eq Ordering.gt h = refl

module _ {A : Type 0} (compare : A → A → Ordering) where
  abbrev pub Below : A → List A → Type 0
  Below x = All (λ y. is_lt (compare x y) ≡ true)

  abbrev pub Ascending : List A → Type 0
  Ascending [] = Unit
  Ascending (x ∷ xs) = Below x xs × Ascending xs

  All-insert_at {κ} :
      (P : A → Type κ) (r : ℕ) (item : A) (items : List A)
      → P item
      → All P items
      → All P (insert_at r item items)
  unfolding insert_at
  All-insert_at P zero item items p h = (p, h)
  All-insert_at P (suc r) item [] p h = (p, tt)
  All-insert_at P (suc r) item (x ∷ items) p (first, h) = (first, All-insert_at P r item items p h)

  pub All-push {κ} :
      (P : A → Type κ) (item : A) (items : List A)
      → P item
      → All P items
      → All P (push compare items item)
  unfolding push push_at
  All-push P item items p h = elim (Option-cases (get_item_index compare items item)) [
    | inl lost ↦ rw (push, lost) h
    | inr (r, found) ↦ rw (push, found) (All-insert_at P r item items p h)
  ]

  sum_of-insert_at :
      (f : A → ℕ) (r : ℕ) (item : A) (items : List A)
      → sum_of f (insert_at r item items) ≡ f item + sum_of f items
  unfolding insert_at
  sum_of-insert_at f zero item items = refl
  sum_of-insert_at f (suc r) item [] = refl
  sum_of-insert_at f (suc r) item (x ∷ items) = omega (arith, sum_of-insert_at f r item items)

  any-false : (p : A → Bool) (xs : List A) → All (λ x. p x ≡ false) xs → any p xs ≡ false
  any-false p [] h = refl
  any-false p (x ∷ xs) (e, h) = rw e (any-false p xs h)

  at-length : (items : List A) (i : ℕ) → length items ≤ i → at items i ≡ none
  unfolding at
  at-length [] i h = refl
  at-length (x ∷ items) zero h = absurd (omega arith)
  at-length (x ∷ items) (suc i) h = at-length items i (omega arith)

module _ {A : Type 0} (compare : A → A → Ordering) (order : IsOrder compare) where
  abbrev test : List A → A → ℕ → Bool
  test items item i = before compare item (at items i)

  Below-before :
      (x item : A) (xs : List A) (i : ℕ)
      → Below compare x xs
      → test xs item i ≡ true
      → is_lt (compare x item) ≡ true
  unfolding at before
  Below-before x item [] i h e = absurd cc
  Below-before x item (y ∷ xs) zero h e = order.lt_trans x y item h.0 e
  Below-before x item (y ∷ xs) (suc i) h e = Below-before x item xs i h.1 e

  before_mono :
      (items : List A) (item : A)
      → Ascending compare items
      → (i j : ℕ) → i ≤ j
      → test items item j ≡ true
      → test items item i ≡ true
  unfolding at before
  before_mono [] item h i j le e = absurd cc
  before_mono (x ∷ items) item h zero zero le e = e
  before_mono (x ∷ items) item h zero (suc j) le e = Below-before x item items j h.0 e
  before_mono (x ∷ items) item h (suc i) zero le e = absurd (omega arith)
  before_mono (x ∷ items) item h (suc i) (suc j) le e =
      before_mono items item h.1 i j (omega arith) e

  index-Finds :
      (items : List A) (item : A)
      → Ascending compare items
      → Finds (test items item) (get_item_index compare items item)
  unfolding get_item_index before
  index-Finds items item h =
      bisect-Finds (length items) (test items item) 0 (length items) (before_mono items item h)
        (λ i low. absurd (omega arith)) (λ i high. rw (at-length compare items i high))
        (omega arith) (omega arith)

  turned : (p : ℕ → Bool) (r : ℕ) → Turns p (suc r) → Turns (λ i. p (suc i)) r
  turned p r (low, high) =
      (λ i h. low (suc i) (omega (arith, h)), λ i h. high (suc i) (omega (arith, h)))

  abbrev found : List A → A → ℕ → Bool
  found items item r = elim (at items r) [ none ↦ false | some x ↦ is_eq (compare x item) ]

  found-any :
      (items : List A) (item : A) (r : ℕ)
      → Ascending compare items
      → Turns (test items item) r
      → found items item r ≡ any (λ x. is_eq (compare x item)) items
  unfolding at before
  found-any [] item r h t = refl
  found-any (x ∷ items) item zero h t = elim (Bool-cases (is_eq (compare x item))) [
    | inl same ↦ rw same
    | inr apart ↦ rw (
      apart,
      any-false compare (λ y. is_eq (compare y item)) items
          (All-map (λ y. is_lt (compare x y) ≡ true) (λ y. is_eq (compare y item) ≡ false)
            (λ y higher. elim (Bool-cases (is_eq (compare y item))) [
              | inl equal ↦
                  absurd (cc (order.lt_eq_trans x y item higher equal, t.1 0 (omega arith)))
              | inr other ↦ other
            ])
            items h.0),
    )
  ]
  found-any (x ∷ items) item (suc r) h t =
      rw (lt_not_eq (compare x item) (t.0 0 (omega arith)))
        (found-any items item r h.1 (turned (test (x ∷ items) item) r t))

  insert_at-Ascending :
      (items : List A) (item : A) (r : ℕ)
      → Ascending compare items
      → Turns (test items item) r
      → found items item r ≡ false
      → Ascending compare (insert_at r item items)
  unfolding at before insert_at
  insert_at-Ascending [] item zero h t e = (tt, tt)
  insert_at-Ascending [] item (suc r) h t e = (tt, tt)
  insert_at-Ascending (x ∷ items) item zero h t e =
      let lower = order.total x item (t.1 0 (omega arith)) e in
      (
        (
          lower,
          All-map (λ y. is_lt (compare x y) ≡ true) (λ y. is_lt (compare item y) ≡ true)
              (λ y higher. order.lt_trans item x y lower higher) items h.0,
        ),
        h,
      )
  insert_at-Ascending (x ∷ items) item (suc r) h t e = (
    All-insert_at compare (λ y. is_lt (compare x y) ≡ true) r item items (t.0 0 (omega arith)) h.0,
    insert_at-Ascending items item r h.1 (turned (test (x ∷ items) item) r t) e,
  )

  -- In a list that ascends, the item that bisection looks for is found exactly if some item of the
  -- list compares as equal to it.
  pub contains-eq-any :
      (items : List A) (item : A)
      → Ascending compare items
      → contains compare items item ≡ any (λ x. is_eq (compare x item)) items
  unfolding contains contains_at
  contains-eq-any items item h =
      let (r, ended, t) = index-Finds items item h in
      rw (contains, ended) (found-any items item r h t)

  -- An item that is pushed on a list that ascends and does not contain it goes to a place that keeps
  -- the list ascending, with all the items that were there: any sum over the list grows by what the
  -- item weighs.
  pub push-Ascending :
      (items : List A) (item : A) (f : A → ℕ)
      → Ascending compare items
      → contains compare items item ≡ false
      → Ascending compare (push compare items item)
        × (sum_of f (push compare items item) ≡ f item + sum_of f items)
  unfolding push push_at contains contains_at
  push-Ascending items item f h new =
      let (r, ended, t) = index-Finds items item h in
      rw (push, ended)
        (
          insert_at-Ascending items item r h t (rw (contains, ended) at new),
          sum_of-insert_at compare f r item items,
        )

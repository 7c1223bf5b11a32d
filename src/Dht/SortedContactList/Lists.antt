-- ===== src/Dht/SortedContactList/Lists.antt =====
-- Lists that are sorted or without repetitions, under an insertion and a `pop`, as
-- packages/dht/src/dht/contact/SortedContactList.ts uses them.
use pombo_storage_node.Base.{
  ℕ, zero, suc, ◌-◌, ◌≤◌, ◌≡◌, refl, ap, inl, inr, Bool, true, false, not, ◌&&◌, ◌||◌, none, some,
  List, [], ◌∷◌, length, All, All-map, ltb, ◌==◌, ==_sym, eq_list, eq_nat, arith, Bool-cases, subst,
  Eq,
}
use mathlib.Core.Option.{some-injective}
use pombo_storage_node.Base.Members.{has}
use pombo_storage_node.Utils.Heap.{at, insert_at}
use pombo_storage_node.Dht.SortedContactList.{last_of, pop}

pub length-insert_at :
    {A : Type 0} (r : ℕ) (a : A) (xs : List A) → length (insert_at r a xs) ≡ suc (length xs)
unfolding insert_at
length-insert_at zero a xs = refl
length-insert_at (suc r) a [] = refl
length-insert_at (suc r) a (x ∷ xs) = ap suc (length-insert_at r a xs)

pub All-insert_at :
    {A : Type 0} (P : A → Type 0) (r : ℕ) (a : A) (xs : List A)
    → P a
    → All P xs
    → All P (insert_at r a xs)
unfolding insert_at
All-insert_at P zero a xs p h = (p, h)
All-insert_at P (suc r) a [] p h = (p, tt)
All-insert_at P (suc r) a (x ∷ xs) p (first, h) = (first, All-insert_at P r a xs p h)

pub length-pop : {A : Type 0} (xs : List A) → length (pop xs) ≡ length xs - 1
unfolding pop
length-pop [] = omega arith
length-pop (x ∷ []) = omega arith
length-pop (x ∷ y ∷ xs) = omega (arith, length-pop (y ∷ xs))

pub All-pop : {A : Type 0} (P : A → Type 0) (xs : List A) → All P xs → All P (pop xs)
unfolding pop
All-pop P [] h = tt
All-pop P (x ∷ []) h = tt
All-pop P (x ∷ y ∷ xs) (p, h) = (p, All-pop P (y ∷ xs) h)

pub All-last :
    {A : Type 0} (P : A → Type 0) (xs : List A) (r : A) → All P xs → last_of xs ≡ some r → P r
unfolding last_of
All-last P [] r h e = absurd cc
All-last P (x ∷ []) r h e = subst P (some-injective x r e) h.0
All-last P (x ∷ y ∷ xs) r h e = All-last P (y ∷ xs) r h.1 e

pub at-last : {A : Type 0} (k : ℕ) (xs : List A) → length xs ≡ k → at xs (k - 1) ≡ last_of xs
unfolding at last_of
at-last k [] h = refl
at-last k (x ∷ []) h = let first : k - 1 ≡ 0 = omega (arith, h) in rw first
at-last k (x ∷ y ∷ xs) h =
    let next : k - 1 ≡ suc (k - 1 - 1) = omega (arith, h) in
    rw next (at-last (k - 1) (y ∷ xs) (omega (arith, h)))

module _ {A : Type 0} ⦃e : Eq A⦄ where
  -- Lists without repetitions.
  abbrev pub Distinct : List A → Type 0
  Distinct [] = Unit
  Distinct (x ∷ xs) = (has x xs ≡ false) × Distinct xs

  pub has-insert_at :
      (b : A) (r : ℕ) (a : A) (xs : List A) → has b (insert_at r a xs) ≡ ((a == b) || has b xs)
  unfolding has insert_at
  has-insert_at b zero a xs = refl
  has-insert_at b (suc r) a [] = refl
  has-insert_at b (suc r) a (x ∷ xs) = ground (arith, has-insert_at b r a xs)

  pub Distinct-insert_at :
      (r : ℕ) (a : A) (xs : List A) → has a xs ≡ false → Distinct xs → Distinct (insert_at r a xs)
  unfolding has insert_at
  Distinct-insert_at zero a xs new d = (new, d)
  Distinct-insert_at (suc r) a [] new d = (new, tt)
  Distinct-insert_at (suc r) a (x ∷ xs) new (alone, d) = (
    ground (arith, has-insert_at x r a xs, ==_sym x a, alone, new),
    Distinct-insert_at r a xs (ground (arith, new)) d,
  )

  pub has-last : (xs : List A) (r : A) → last_of xs ≡ some r → has r xs ≡ true
  unfolding last_of has
  has-last [] r h = absurd cc
  has-last (x ∷ []) r h = ground (arith, e.beq_iff x r, some-injective x r h)
  has-last (x ∷ y ∷ xs) r h = ground (arith, has-last (y ∷ xs) r h)

  pub has-pop :
      (b : A) (xs : List A) (r : A)
      → Distinct xs
      → last_of xs ≡ some r
      → has b (pop xs) ≡ (has b xs && not (r == b))
  unfolding pop has last_of
  has-pop b [] r d h = absurd cc
  has-pop b (x ∷ []) r d h = ground (arith, e.beq_iff x b, e.beq_iff r b, some-injective x r h)
  has-pop b (x ∷ y ∷ xs) r d h =
      let there = has-last (y ∷ xs) r h in
      let apart : (r == x) ≡ false = elim (Bool-cases (r == x)) [
        | inr other ↦ other
        | inl same ↦
            absurd (cc (subst (λ z. has z (y ∷ xs) ≡ true) ((e.beq_iff r x).0 same) there, d.0))
      ] in
      ground (arith, has-pop b (y ∷ xs) r d.1 h, e.beq_iff x b, e.beq_iff r b, e.beq_iff r x, apart)

  pub pop-absent : (b : A) (xs : List A) → has b xs ≡ false → has b (pop xs) ≡ false
  unfolding pop has
  pop-absent b [] h = h
  pop-absent b (x ∷ []) h = refl
  pop-absent b (x ∷ y ∷ xs) h = ground (arith, pop-absent b (y ∷ xs), h)

  pub Distinct-pop : (xs : List A) → Distinct xs → Distinct (pop xs)
  unfolding pop has
  Distinct-pop [] d = tt
  Distinct-pop (x ∷ []) d = tt
  Distinct-pop (x ∷ y ∷ xs) (alone, d) = (pop-absent x (y ∷ xs) alone, Distinct-pop (y ∷ xs) d)

module _ {A : Type 0} (d : A → ℕ) where
  abbrev pub Sorted : List A → Type 0
  Sorted [] = Unit
  Sorted (x ∷ xs) = All (λ y. d x ≤ d y) xs × Sorted xs

  -- The item at a place is closer than another.
  abbrev pub closer_at : List A → A → ℕ → Bool
  closer_at xs a i = elim (at xs i) [ none ↦ false | some x ↦ ltb (d x) (d a) ]

  pub insert_at-Sorted :
      (r : ℕ) (a : A) (xs : List A)
      → ((i : ℕ) → ltb i r ≡ closer_at xs a i)
      → Sorted xs
      → Sorted (insert_at r a xs)
  unfolding at insert_at
  insert_at-Sorted zero a [] h s = (tt, tt)
  insert_at-Sorted (suc r) a [] h s = (tt, tt)
  insert_at-Sorted zero a (x ∷ xs) h (low, s) =
      let le : d a ≤ d x = ground (arith, h 0) in
      (
        (le, All-map (λ y. d x ≤ d y) (λ y. d a ≤ d y) (λ y l. omega (arith, le, l)) xs low),
        (low, s),
      )
  insert_at-Sorted (suc r) a (x ∷ xs) h (low, s) = (
    All-insert_at (λ y. d x ≤ d y) r a xs (ground (arith, h 0)) low,
    insert_at-Sorted r a xs (λ i. ground (arith, h (suc i))) s,
  )

  pub pop-Sorted : (xs : List A) → Sorted xs → Sorted (pop xs)
  unfolding pop
  pop-Sorted [] s = tt
  pop-Sorted (x ∷ []) s = tt
  pop-Sorted (x ∷ y ∷ xs) (low, s) = (All-pop (λ z. d x ≤ d z) (y ∷ xs) low, pop-Sorted (y ∷ xs) s)

  pub last-furthest :
      (xs : List A) (r : A) → Sorted xs → last_of xs ≡ some r → All (λ y. d y ≤ d r) xs
  unfolding last_of
  last-furthest [] r s h = tt
  last-furthest (x ∷ []) r s h = (subst (λ z. d x ≤ d z) (some-injective x r h) (omega arith), tt)
  last-furthest (x ∷ y ∷ xs) r (low, s) h =
      (All-last (λ z. d x ≤ d z) (y ∷ xs) r low h, last-furthest (y ∷ xs) r s h)

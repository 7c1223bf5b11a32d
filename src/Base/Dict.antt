-- ===== src/Base/Dict.antt =====
-- `Map`: an association list in insertion order. A key that is set again keeps its place.
use mathlib.Core.Path.{◌≡◌, refl, subst, ap, ◌∙◌}
use mathlib.Core.Logic.{inl, inr, ◌≢◌}
use mathlib.Core.Bool.{Bool, true, false}
use mathlib.Core.Option.{Option, none, some, some-injective}
use mathlib.Core.List.{List, [], ◌∷◌}
use native.Mathlib.Omega.{arith}
use pombo_storage_node.Base.Tests.{Eq, ◌==◌, if◌then◌else◌, ==_refl, ==_sym, Bool-cases}
use pombo_storage_node.Base.Lists.{All, keep}

module _ {ℓ κ} {K : Type ℓ} {V : Type κ} ⦃e : Eq K⦄ where
  unfoldable pub lookup : K → List (K × V) → Option V
  lookup k [] = none
  lookup k ((q, v) ∷ d) = if q == k then some v else lookup k d

  unfoldable pub insert : K → V → List (K × V) → List (K × V)
  insert k v [] = (k, v) ∷ []
  insert k v ((q, u) ∷ d) = if q == k then (k, v) ∷ d else (q, u) ∷ insert k v d

  unfoldable pub erase : K → List (K × V) → List (K × V)
  erase k [] = []
  erase k ((q, v) ∷ d) = let rest = erase k d in if q == k then rest else (q, v) ∷ rest

  unfoldable pub has_key : K → List (K × V) → Bool
  has_key k d = elim (lookup k d) [ none ↦ false | some v ↦ true ]

  pub lookup-insert :
      (k q : K) (v : V) (d : List (K × V))
      → lookup q (insert k v d) ≡ (if k == q then some v else lookup q d)
  unfolding lookup insert
  lookup-insert k q v [] = refl
  lookup-insert k q v ((r, u) ∷ d) =
      ground (lookup-insert k q v d, e.beq_iff r q, e.beq_iff r k, e.beq_iff k q, arith)

  pub lookup-erase :
      (k q : K) (d : List (K × V)) → lookup q (erase k d) ≡ (if k == q then none else lookup q d)
  unfolding lookup erase
  lookup-erase k q [] = ground arith
  lookup-erase k q ((r, u) ∷ d) =
      ground (arith, e.beq_iff k q, e.beq_iff r k, e.beq_iff r q, lookup-erase k q d)

  pub lookup-nil : (k : K) (v : V) → lookup k [] ≢ some v
  unfolding lookup
  lookup-nil k v h = cc

  pub lookup-insert_self : (k : K) (v : V) (d : List (K × V)) → lookup k (insert k v d) ≡ some v
  lookup-insert_self k v d = rw (lookup-insert k k v d, ==_refl k)

  pub lookup-erase_self : (k : K) (d : List (K × V)) → lookup k (erase k d) ≡ none
  lookup-erase_self k d = rw (lookup-erase k k d, ==_refl k)

  -- What holds of every entry holds of the one that is found.
  pub All-lookup {μ} :
      (P : K × V → Type μ) (k : K) (d : List (K × V)) (v : V)
      → All P d
      → lookup k d ≡ some v
      → P (k, v)
  unfolding lookup
  All-lookup P k [] v h f = absurd (cc)
  All-lookup P k ((q, u) ∷ d) v (p, h) f = elim (Bool-cases (q == k)) [
    | inl same ↦ found ((e.beq_iff q k).0 same) (rw same at f) p
    | inr other ↦ All-lookup P k d v h (rw other at f)
  ]
    where
      found : q ≡ k → some u ≡ some v → P (q, u) → P (k, v)
      found a b p = subst (λ x. P (x, v)) a (subst (λ x. P (q, x)) (some-injective u v b) p)

module _ {ℓ κ} {K : Type ℓ} {V : Type κ} ⦃e : Eq K⦄ where
  -- A `Map` holds one entry for a key.
  abbrev pub Unique : List (K × V) → Type κ
  Unique [] = Unit
  Unique ((q, v) ∷ d) = (lookup q d ≡ none) × Unique d

  -- The entry of a key, where only the entries that pass a test are left.
  abbrev pub passing : (K × V → Bool) → K → Option V → Option V
  passing p k none = none
  passing p k (some v) = if p (k, v) then some v else none

  pub lookup-keep :
      (p : K × V → Bool) (k : K) (d : List (K × V))
      → Unique d
      → lookup k (keep p d) ≡ passing p k (lookup k d)
  unfolding lookup
  lookup-keep p k [] h = refl
  lookup-keep p k ((q, v) ∷ d) (alone, h) = elim (Bool-cases (q == k)) [
    | inr apart ↦ elim (Bool-cases (p (q, v))) [
      | inl passed ↦ rw (passed, lookup, apart) (lookup-keep p k d h)
      | inr failed ↦ rw (failed, lookup, apart) (lookup-keep p k d h)
    ]
    | inl same ↦
        let equal = (e.beq_iff q k).0 same in
        elim (Bool-cases (p (q, v))) [
          | inl passed ↦ rw (passed, lookup, same, subst (λ x. p (x, v) ≡ true) equal passed)
          | inr failed ↦
              rw (failed, same, subst (λ x. p (x, v) ≡ false) equal failed)
                (lookup-keep p k d h
                  ∙ ap (passing p k) (subst (λ x. lookup x d ≡ none) equal alone))
        ]
  ]

  pub Unique-keep : (p : K × V → Bool) (d : List (K × V)) → Unique d → Unique (keep p d)
  Unique-keep p [] h = tt
  Unique-keep p ((q, v) ∷ d) (alone, h) = elim (Bool-cases (p (q, v))) [
    | inr failed ↦ rw failed (Unique-keep p d h)
    | inl passed ↦ rw passed (lookup-keep p q d h ∙ ap (passing p q) alone, Unique-keep p d h)
  ]

  pub Unique-insert : (k : K) (v : V) (d : List (K × V)) → Unique d → Unique (insert k v d)
  unfolding insert lookup
  Unique-insert k v [] h = (refl, tt)
  Unique-insert k v ((q, u) ∷ d) (alone, h) = elim (Bool-cases (q == k)) [
    | inl same ↦ rw same (subst (λ x. lookup x d ≡ none) ((e.beq_iff q k).0 same) alone, h)
    | inr apart ↦
        rw apart (lookup-insert k q v d ∙ (rw (==_sym k q, apart) alone), Unique-insert k v d h)
  ]

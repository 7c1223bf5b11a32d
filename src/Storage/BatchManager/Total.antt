-- ===== src/Storage/BatchManager/Total.antt =====
-- Weights of lists and of maps, added up.
pub use pombo_storage_node.Base.{sum_of, sum_of-append}
use pombo_storage_node.Base.{
  ℕ, ◌+◌, ◌≤◌, ◌≡◌, refl, ◌∙◌, ap, inl, inr, Option, none, some, List, [], ◌∷◌, Eq, ◌==◌, arith,
  Bool-cases, All,
}
use pombo_storage_node.Base.Dict.{lookup, insert, erase, Unique, lookup-erase}

abbrev pub weight {ℓ} : {V : Type ℓ} → (V → ℕ) → Option V → ℕ
weight f none = 0
weight f (some v) = f v

module _ {K V : Type 0} ⦃e : Eq K⦄ (f : V → ℕ) where
  abbrev pub total : List (K × V) → ℕ
  total [] = 0
  total ((k, v) ∷ d) = f v + total d

  pub total-insert :
      (k : K) (v : V) (d : List (K × V))
      → total (insert k v d) + weight f (lookup k d) ≡ total d + f v
  unfolding insert lookup
  total-insert k v [] = omega arith
  total-insert k v ((q, u) ∷ d) = elim (Bool-cases (q == k)) [
    | inl same ↦ rw same (omega arith)
    | inr apart ↦ rw apart (omega (arith, total-insert k v d))
  ]

  erase_absent : (k : K) (d : List (K × V)) → lookup k d ≡ none → erase k d ≡ d
  unfolding erase lookup
  erase_absent k [] h = refl
  erase_absent k ((q, u) ∷ d) h = elim (Bool-cases (q == k)) [
    | inl same ↦ cc (rw (lookup, same) at h)
    | inr apart ↦ rw apart (ap (λ t. (q, u) ∷ t) (erase_absent k d (rw apart at h)))
  ]

  pub total-erase :
      (k : K) (d : List (K × V)) → Unique d → total (erase k d) + weight f (lookup k d) ≡ total d
  unfolding erase lookup
  total-erase k [] h = omega arith
  total-erase k ((q, u) ∷ d) (alone, h) = elim (Bool-cases (q == k)) [
    | inr apart ↦ rw apart (omega (arith, total-erase k d h))
    | inl same ↦ rw (same, erase_absent k d (rw ((e.beq_iff q k).0 same) at alone)) (omega arith)
  ]

  pub lookup-le-total : (k : K) (d : List (K × V)) → weight f (lookup k d) ≤ total d
  unfolding lookup
  lookup-le-total k [] = omega arith
  lookup-le-total k ((q, u) ∷ d) = elim (Bool-cases (q == k)) [
    | inl same ↦ rw same (omega arith)
    | inr apart ↦ rw apart (omega (arith, lookup-le-total k d))
  ]

module _ {K V : Type 0} ⦃e : Eq K⦄ where
  pub Unique-erase : (k : K) (d : List (K × V)) → Unique d → Unique (erase k d)
  unfolding erase
  Unique-erase k [] h = tt
  Unique-erase k ((q, u) ∷ d) (alone, h) = elim (Bool-cases (q == k)) [
    | inl same ↦ rw same (Unique-erase k d h)
    | inr apart ↦ rw apart (lookup-erase k q d ∙ (rw alone (ground arith)), Unique-erase k d h)
  ]

  pub All-insert :
      (P : K × V → Type 0) (k : K) (v : V) (d : List (K × V))
      → P (k, v)
      → All P d
      → All P (insert k v d)
  unfolding insert
  All-insert P k v [] p h = (p, tt)
  All-insert P k v ((q, u) ∷ d) p (first, h) = elim (Bool-cases (q == k)) [
    | inl same ↦ rw same (p, h)
    | inr apart ↦ rw apart (first, All-insert P k v d p h)
  ]

  pub All-erase : (P : K × V → Type 0) (k : K) (d : List (K × V)) → All P d → All P (erase k d)
  unfolding erase
  All-erase P k [] h = tt
  All-erase P k ((q, u) ∷ d) (first, h) = elim (Bool-cases (q == k)) [
    | inl same ↦ rw same (All-erase P k d h)
    | inr apart ↦ rw apart (first, All-erase P k d h)
  ]

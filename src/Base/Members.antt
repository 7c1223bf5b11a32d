-- ===== src/Base/Members.antt =====
-- `Set` of values compared by `===`: a list without repetitions, in insertion order.
use mathlib.Core.Path.{◌≡◌, refl, ap}
use mathlib.Core.Bool.{Bool, false, ◌||◌, ◌&&◌, not}
use mathlib.Core.List.{List, [], ◌∷◌}
use native.Mathlib.Omega.{arith}
use pombo_storage_node.Base.Tests.{Eq, ◌==◌, if◌then◌else◌}
use pombo_storage_node.Base.Lists.{keep}

module _ {ℓ} {A : Type ℓ} ⦃e : Eq A⦄ where
  unfoldable pub has : A → List A → Bool
  has a [] = false
  has a (x ∷ xs) = (x == a) || has a xs

  unfoldable pub remove : A → List A → List A
  remove a [] = []
  remove a (x ∷ xs) = let rest = remove a xs in if x == a then rest else x ∷ rest

  -- `add`: a value that is there already keeps its place.
  unfoldable pub put : A → List A → List A
  put a [] = a ∷ []
  put a (x ∷ xs) = if x == a then x ∷ xs else x ∷ put a xs

  pub has-put : (a b : A) (s : List A) → has b (put a s) ≡ ((a == b) || has b s)
  unfolding has put
  has-put a b [] = refl
  has-put a b (x ∷ xs) = ground (arith, e.beq_iff a b, e.beq_iff x a, e.beq_iff x b, has-put a b xs)

  pub has-remove : (a b : A) (s : List A) → has b (remove a s) ≡ (not (a == b) && has b s)
  unfolding has remove
  has-remove a b [] = ground arith
  has-remove a b (x ∷ xs) =
      ground (arith, e.beq_iff a b, e.beq_iff x a, e.beq_iff x b, has-remove a b xs)

  -- `filter` with a test that looks at the value alone.
  pub has-keep : (p : A → Bool) (b : A) (s : List A) → has b (keep p s) ≡ (p b && has b s)
  unfolding has
  has-keep p b [] = ground arith
  has-keep p b (x ∷ xs) = ground (arith, has-keep p b xs, e.beq_iff x b, ap p {x = x} {y = b})

-- ===== src/Base/Tests.antt =====
-- Boolean tests on the native numbers, the conditional, and the interface of `===`.
use Prim.Native.Nat.{ℕ, ◌≤◌, ◌<◌, compare, Ordering}
use mathlib.Core.Path.{◌≡◌, refl, sym}
use mathlib.Core.Logic.{◌↔◌, ◌⊎◌, inl, inr, ◌≢◌}
use mathlib.Core.Bool.{Bool, true, false, ◌&&◌}
use mathlib.Core.List.{List, [], ◌∷◌}
use mathlib.Core.Option.{Option, none, some}
use native.Mathlib.Omega.{arith}

abbrev pub ltb : ℕ → ℕ → Bool
ltb a b = elim (compare a b) [ Ordering.lt ↦ true | _ ↦ false ]

abbrev pub leb : ℕ → ℕ → Bool
leb a b = elim (compare a b) [ Ordering.gt ↦ false | _ ↦ true ]

abbrev pub nat_eq : ℕ → ℕ → Bool
nat_eq a b = elim (compare a b) [ Ordering.eq ↦ true | _ ↦ false ]

infix 1 if◌then◌else◌
abbrev pub if◌then◌else◌ {ℓ} : {A : Type ℓ} → Bool → A → A → A
if true then x else y = x
if false then x else y = y

pub ltb→lt : (a b : ℕ) → ltb a b ≡ true → a < b
ltb→lt a b h = ground arith

pub leb→le : (a b : ℕ) → leb a b ≡ true → a ≤ b
leb→le a b h = ground arith

pub lt→ltb : (a b : ℕ) → a < b → ltb a b ≡ true
lt→ltb a b h = ground arith

pub le→leb : (a b : ℕ) → a ≤ b → leb a b ≡ true
le→leb a b h = ground arith

pub nat_eq_iff : (a b : ℕ) → (nat_eq a b ≡ true) ↔ (a ≡ b)
nat_eq_iff a b = ground arith

pub Bool-cases : (b : Bool) → (b ≡ true) ⊎ (b ≡ false)
Bool-cases true = inl refl
Bool-cases false = inr refl

pub Option-cases {ℓ} : {A : Type ℓ} (o : Option A) → (o ≡ none) ⊎ ((a : A) × (o ≡ some a))
Option-cases none = inl refl
Option-cases (some a) = inr (a, refl)

-- `===` on the values that the program compares.
pub record Eq {ℓ} (A : Type ℓ) : Type ℓ where
  pub equals : A → A → Bool
  pub beq_iff : (a b : A) → (equals a b ≡ true) ↔ (a ≡ b)

abbrev pub ◌==◌ {ℓ} : {A : Type ℓ} ⦃e : Eq A⦄ → A → A → Bool
◌==◌ ⦃e⦄ a b = e.equals a b

infix 50 ◌==◌
instance abbrev pub eq_nat : Eq ℕ
eq_nat = record { equals = nat_eq; beq_iff = nat_eq_iff }

module _ {ℓ} {A : Type ℓ} ⦃e : Eq A⦄ where
  pub ==_refl : (a : A) → (a == a) ≡ true
  ==_refl a = (e.beq_iff a a).1 refl

  pub ==_false : (a b : A) → a ≢ b → (a == b) ≡ false
  ==_false a b h = elim (Bool-cases (a == b)) [
    | inl same ↦ absurd (h ((e.beq_iff a b).0 same))
    | inr other ↦ other
  ]

  pub ==_sym : (a b : A) → (a == b) ≡ (b == a)
  ==_sym a b = elim (Bool-cases (a == b)) [
    | inl same ↦ rw (same, (e.beq_iff b a).1 (sym ((e.beq_iff a b).0 same)))
    | inr other ↦ elim (Bool-cases (b == a)) [
      | inl back ↦ cc ((e.beq_iff a b).1 (sym ((e.beq_iff b a).0 back)))
      | inr back ↦ rw (other, back)
    ]
  ]

  unfoldable pub list_beq : List A → List A → Bool
  list_beq [] [] = true
  list_beq (a ∷ as') (b ∷ bs) = (a == b) && list_beq as' bs
  list_beq _ _ = false

  list_beq_sound : (as' bs : List A) → list_beq as' bs ≡ true → as' ≡ bs
  unfolding list_beq
  list_beq_sound [] [] h = refl
  list_beq_sound [] (b ∷ bs) h = cc
  list_beq_sound (a ∷ as') [] h = cc
  list_beq_sound (a ∷ as') (b ∷ bs) h = ground (arith, e.beq_iff a b, list_beq_sound as' bs)

  pub list_beq_refl : (as' : List A) → list_beq as' as' ≡ true
  unfolding list_beq
  list_beq_refl [] = refl
  list_beq_refl (a ∷ as') = rw (==_refl a) (list_beq_refl as')

  pub list_beq_iff : (as' bs : List A) → (list_beq as' bs ≡ true) ↔ (as' ≡ bs)
  list_beq_iff as' bs = (list_beq_sound as' bs, λ h. rw h (list_beq_refl bs))

instance abbrev pub eq_list {ℓ} : {A : Type ℓ} ⦃e : Eq A⦄ → Eq (List A)
eq_list ⦃e⦄ = record { equals = list_beq ⦃e = e⦄; beq_iff = list_beq_iff ⦃e = e⦄ }

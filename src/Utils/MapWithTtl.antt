-- ===== src/Utils/MapWithTtl.antt =====
-- packages/utils/src/MapWithTtl.ts. An entry stands for the one timer that is pending for it, by the
-- time at which that is due: `set`, `delete` and `clear` call `clearTimeout` for the timer of an entry
-- that they replace or remove, which here goes with the entry. Timers run between the calls, at their
-- due time or later; times to live are below 2^31 milliseconds, from where on a timer runs at once.
pub mod Laws
use pombo_storage_node.Base.{
  ℕ, ◌+◌, ◌≡◌, Bool, true, false, Option, none, some, List, [], ◌∷◌, Eq, ◌==◌, leb, if◌then◌else◌,
}
use pombo_storage_node.Base.Dict.{lookup, insert, erase, has_key}
use mathlib.Core.Option

pub record ValueWrapper {ℓ} (V : Type ℓ) : Type ℓ where
  pub value : V
  pub due : ℕ

abbrev pub MapWithTtl {ℓ κ} : Type ℓ → Type κ → Type (ℓ ⊔ κ)
MapWithTtl K V = List (K × ValueWrapper V)

module _ {ℓ κ} {K : Type ℓ} {V : Type κ} ⦃e : Eq K⦄ where
  -- `clearTimeout` of the entry that was there is its replacement.
  unfoldable pub set : (V → ℕ) → ℕ → K → V → MapWithTtl K V → MapWithTtl K V
  set get_ttl now key value delegate =
      insert key (record { value = value; due = now + get_ttl value }) delegate

  unfoldable pub get : K → MapWithTtl K V → Option V
  get key delegate = Option.map (λ w. w.value) (lookup key delegate)

  unfoldable pub has : K → MapWithTtl K V → Bool
  has key delegate = has_key key delegate

  unfoldable pub delete : K → MapWithTtl K V → MapWithTtl K V
  delete key delegate = erase key delegate

  unfoldable pub clear : MapWithTtl K V → MapWithTtl K V
  clear delegate = []

  -- The callback that `createTimeout` schedules, which deletes the entry. It runs only if it is due
  -- and its timer was not cleared.
  unfoldable pub fire : ℕ → K → MapWithTtl K V → MapWithTtl K V
  unfolding delete
  fire now key delegate = elim (lookup key delegate) [
    | none ↦ delegate
    | some w ↦ if leb w.due now then delete key delegate else delegate
  ]

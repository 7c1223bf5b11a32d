-- ===== src/Utils/MapWithTtl/Laws.antt =====
-- What a cache returns after writes and timers.
use mathlib.Core.Option
use pombo_storage_node.Base.{
  ℕ, ◌+◌, ◌≤◌, ◌<◌, ◌≡◌, none, some, List, [], ◌∷◌, Eq, ◌==◌, leb, arith, Option-cases, Bool-cases,
  ◌⊎◌, ap, ap₂, inl, inr, leb→le,
}
use pombo_storage_node.Base.Dict.{
  lookup, erase, lookup-insert, lookup-erase, lookup-erase_self, lookup-nil,
}
use pombo_storage_node.Utils.MapWithTtl.{ValueWrapper, MapWithTtl, set, get, delete, fire}

-- What happens to a map: calls, each at its time, and timers.
pub data Event {ℓ κ} (K : Type ℓ) (V : Type κ) : Type (ℓ ⊔ κ) where
  sets : ℕ → K → V → Event K V
  deletes : K → Event K V
  fires : ℕ → K → Event K V

module _ {ℓ κ} {K : Type ℓ} {V : Type κ} ⦃e : Eq K⦄ where
  -- A timer either finds its entry due and removes it, or changes nothing.
  pub data Fired (now : ℕ) (key : K) (m : MapWithTtl K V) : Type (ℓ ⊔ κ) where
    absent : lookup key m ≡ none → fire now key m ≡ m → Fired now key m
    early :
        (w : ValueWrapper V)
        → lookup key m ≡ some w
        → now < w.due
        → fire now key m ≡ m
        → Fired now key m
    expired :
        (w : ValueWrapper V)
        → lookup key m ≡ some w
        → w.due ≤ now
        → fire now key m ≡ erase key m
        → Fired now key m

  pub fire-Fired : (now : ℕ) (key : K) (m : MapWithTtl K V) → Fired now key m
  unfolding fire delete
  fire-Fired now key m = elim (Option-cases (lookup key m)) [
    | inl missing ↦ absent missing (rw (missing, fire))
    | inr (w, found) ↦ elim (Bool-cases (leb w.due now)) [
      | inl over ↦ expired w found (leb→le w.due now over) (rw (found, fire, over))
      | inr running ↦ early w found (ground arith) (rw (found, fire, running))
    ]
  ]

module _ {K V : Type 0} ⦃e : Eq K⦄ (get_ttl : V → ℕ) where
  unfoldable pub step : Event K V → MapWithTtl K V → MapWithTtl K V
  step (sets now key value) m = set get_ttl now key value m
  step (deletes key) m = delete key m
  step (fires now key) m = fire now key m

  unfoldable pub run : List (Event K V) → MapWithTtl K V → MapWithTtl K V
  unfolding step
  run [] m = m
  run (ev ∷ evs) m = run evs (step ev m)

  abbrev pub Happens : Event K V → List (Event K V) → Type 0
  Happens ev [] = ⊥
  Happens ev (x ∷ xs) = (x ≡ ev) ⊎ Happens ev xs

  -- An entry that is there after a step was there before it, or was just set.
  abbrev Origin : K → ValueWrapper V → Event K V → MapWithTtl K V → Type 0
  Origin key w ev m =
      (lookup key m ≡ some w)
      ⊎ ((now : ℕ) × (ev ≡ sets now key w.value) × (w.due ≡ now + get_ttl w.value))

  lookup-step-Origin :
      (key : K) (w : ValueWrapper V) (ev : Event K V) (m : MapWithTtl K V)
      → lookup key (step ev m) ≡ some w
      → Origin key w ev m
  unfolding step set delete
  lookup-step-Origin key w (sets now other value) m h = elim (Bool-cases (other == key)) [
    | inl same ↦
        let eq : some (record { value = value; due = now + get_ttl value }) ≡ some w =
          rw (lookup-insert other key _ m, same) at h in
        let k = (e.beq_iff other key).0 same in
        let v = Option.some-injective _ w eq in
        inr (now, ap₂ (sets now) k (ap (λ (x : ValueWrapper V). x.value) v), rw (← v))
    | inr apart ↦ inl (rw (lookup-insert other key _ m, apart) at h)
  ]
  lookup-step-Origin key w (deletes other) m h = elim (Bool-cases (other == key)) [
    | inl same ↦ cc (rw (lookup-erase other key m, same) at h)
    | inr apart ↦ inl (rw (lookup-erase other key m, apart) at h)
  ]
  lookup-step-Origin key w (fires now other) m h = elim (fire-Fired now other m) [
    | absent missing same ↦ inl (rw same at h)
    | early w' found running same ↦ inl (rw same at h)
    | expired w' found over same ↦ elim (Bool-cases (other == key)) [
      | inl equal ↦ cc (rw (same, lookup-erase other key m, equal) at h)
      | inr apart ↦ inl (rw (same, lookup-erase other key m, apart) at h)
    ]
  ]

  lookup-run_origin :
      (key : K) (w : ValueWrapper V) (evs : List (Event K V)) (m : MapWithTtl K V)
      → lookup key (run evs m) ≡ some w
      → (lookup key m ≡ some w)
        ⊎ ((now : ℕ) × Happens (sets now key w.value) evs × (w.due ≡ now + get_ttl w.value))
  unfolding run
  lookup-run_origin key w [] m h = inl h
  lookup-run_origin key w (ev ∷ evs) m h = elim (lookup-run_origin key w evs (step ev m) h) [
    | inl now_there ↦ elim (lookup-step-Origin key w ev m now_there) [
      | inl before ↦ inl before
      | inr (now, set_now, due) ↦ inr (now, inl set_now, due)
    ]
    | inr (now, later, due) ↦ inr (now, inr later, due)
  ]

  -- After the timer of a key ran at a time, a value that is still served for it was set less than
  -- its time to live before, in whatever history the map had.
  pub get-fire-run :
      (now : ℕ) (key : K) (v : V) (evs : List (Event K V))
      → get key (fire now key (run evs [])) ≡ some v
      → (t : ℕ) × Happens (sets t key v) evs × (now < t + get_ttl v)
  unfolding get
  get-fire-run now key v evs h = elim (fire-Fired now key (run evs [])) [
    | absent missing same ↦ cc (rw (same, missing) at h)
    | expired w found over same ↦ cc (rw (same, lookup-erase_self key (run evs [])) at h)
    | early w found running same ↦
        let value : w.value ≡ v = Option.some-injective w.value v (rw (same, found) at h) in
        elim (lookup-run_origin key w evs [] found) [
          | inl nowhere ↦ absurd (lookup-nil key w nowhere)
          | inr (t, set_then, due) ↦ (t, rw (← value) set_then, rw (← value, ← due) running)
        ]
  ]

-- ===== src/Storage/PomboGates/Lookups.antt =====
-- One cache that agrees with what it caches.
use pombo_storage_node.Base.{
  ℕ, ◌+◌, ◌≡◌, refl, sym, inl, inr, Bool, some, [], ◌∷◌, ◌++◌, if◌then◌else◌, Result, ok, ◌==◌,
  eq_list, eq_nat, Option-cases, Result-cases, Bool-cases, list_beq_iff,
}
use pombo_storage_node.Base.Text.{Text, Lacks, no_split}
use pombo_storage_node.Base.Dict.{lookup-insert}
use pombo_storage_node.Utils.MapWithTtl.{MapWithTtl, ValueWrapper, get, set}
use pombo_storage_node.Storage.Outside.{ErrorCode}
use pombo_storage_node.Storage.PomboGates.{cache_key, cached_lookup, ttl_of}

pub get-set :
    {V : Type 0} (ttl : V → ℕ) (now : ℕ) (key other : Text) (v : V) (m : MapWithTtl Text V)
    → get other (set ttl now key v m) ≡ (if key == other then some v else get other m)
unfolding get set
get-set ttl now key other v m =
    let entry : ValueWrapper _ = record { value = v; due = now + ttl v } in
    elim (Bool-cases (key == other)) [
      | inl same ↦ rw (lookup-insert key other entry m, same)
      | inr apart ↦ rw (lookup-insert key other entry m, apart)
    ]

-- Two texts that agree and are cut at their last separators are cut at the same place.
last_split_unique :
    (c : ℕ) (s t u v : Text)
    → Lacks c t
    → Lacks c v
    → s ++ (c ∷ t) ≡ u ++ (c ∷ v)
    → (s ≡ u) × (t ≡ v)
last_split_unique c [] t [] v ht hv e = (refl, cc e)
last_split_unique c [] t (b ∷ u) v ht hv e = absurd (no_split c t u v ht (cc e))
last_split_unique c (a ∷ s) t [] v ht hv e = absurd (no_split c v s t hv (cc e))
last_split_unique c (a ∷ s) t (b ∷ u) v ht hv e =
    let rest : s ++ (c ∷ t) ≡ u ++ (c ∷ v) = cc e in
    let (front, back) = last_split_unique c s t u v ht hv rest in
    let first : a ≡ b = cc e in (cc (first, front), back)

pub cache_key_injective :
    (s t u v : Text)
    → Lacks b'_' t
    → Lacks b'_' v
    → cache_key s t ≡ cache_key u v
    → (s ≡ u) × (t ≡ v)
unfolding cache_key
cache_key_injective s t u v ht hv e = last_split_unique b'_' s t u v ht hv e

module _ (answer : Text → Text → Result ErrorCode Bool) where
  -- Every cached answer is the one that would be given now.
  abbrev pub Caches : MapWithTtl Text Bool → Type 0
  Caches cache =
      (subject user : Text) (b : Bool)
      → Lacks b'_' user
      → get (cache_key subject user) cache ≡ some b
      → answer subject user ≡ ok b

  pub cached_lookup-eq :
      (now : ℕ) (cache : MapWithTtl Text Bool) (subject user : Text)
      → Lacks b'_' user
      → Caches cache
      → (cached_lookup now cache (cache_key subject user) (answer subject user)).0
        ≡ answer subject user
  unfolding cached_lookup
  cached_lookup-eq now cache subject user plain agrees =
      elim (Option-cases (get (cache_key subject user) cache)) [
        | inl missing ↦ elim (Result-cases (answer subject user)) [
          | inl (b, said) ↦ rw (missing, cached_lookup, said)
          | inr (e, said) ↦ rw (missing, cached_lookup, said)
        ]
        | inr (b, found) ↦ rw (found, cached_lookup) (sym (agrees subject user b plain found))
      ]

  pub cached_lookup-Caches :
      (now : ℕ) (cache : MapWithTtl Text Bool) (subject user : Text)
      → Lacks b'_' user
      → Caches cache
      → Caches (cached_lookup now cache (cache_key subject user) (answer subject user)).1
  unfolding cached_lookup
  cached_lookup-Caches now cache subject user plain agrees s u b plain' hit =
      elim (Option-cases (get (cache_key subject user) cache)) [
        | inl missing ↦ elim (Result-cases (answer subject user)) [
          | inl (b', said) ↦ elim (Bool-cases (cache_key subject user == cache_key s u)) [
            | inl same ↦
                let (subjects, users) =
                  cache_key_injective subject user s u plain plain' ((list_beq_iff _ _).0 same) in
                let value : some b' ≡ some b =
                  rw
                    (
                      missing,
                      cached_lookup,
                      said,
                      get-set ttl_of now (cache_key subject user) (cache_key s u) b' cache,
                      same,
                    )
                    at hit in
                cc (said, subjects, users, value)
            | inr apart ↦ agrees s u b plain' (
                rw
                  (
                    missing,
                    cached_lookup,
                    said,
                    get-set ttl_of now (cache_key subject user) (cache_key s u) b' cache,
                    apart,
                  )
                  at hit)
          ]
          | inr (e, said) ↦ agrees s u b plain' (rw (missing, cached_lookup, said) at hit)
        ]
        | inr (b', found) ↦ agrees s u b plain' (rw (found, cached_lookup) at hit)
      ]

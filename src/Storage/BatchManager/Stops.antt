-- ===== src/Storage/BatchManager/Stops.antt =====
-- What `stop` of packages/node/src/plugins/storage/BatchManager.ts leaves: the batches whose insert is
-- awaited, cleared.
use pombo_storage_node.Base.{
  ℕ, ◌+◌, ◌≤◌, ◌≡◌, refl, ap, inl, inr, Bool, true, none, some, List, [], ◌∷◌, ◌++◌, All, All-map,
  All-append, nat_eq, eq_list, eq_nat, arith, Option-cases, Bool-cases,
}
use pombo_storage_node.Base.Text.{Text}
use pombo_storage_node.Base.Dict.{lookup, Unique, All-lookup}
use pombo_storage_node.Storage.Batch.{Batch, BatchOptions, InsertRecord, clear}
use pombo_storage_node.Storage.BatchManager.{BatchManager, awaited, stop}
use pombo_storage_node.Storage.BatchManager.Total.{
  sum_of, sum_of-append, total, weight, lookup-le-total,
}
use pombo_storage_node.Storage.BatchManager.World.{
  IsValid, GoodPending, GoodDetached, load, is_id, flight, held, all_records, idle_records,
}

total-append : (g : Batch → ℕ) (d e : List (ℕ × Batch)) → total g (d ++ e) ≡ total g d + total g e
total-append g [] e = omega arith
total-append g ((k, b) ∷ d) e = omega (arith, total-append g d e)

sum_of-all_records :
    (f : InsertRecord → ℕ) (d : List (Text × Batch)) → sum_of f (all_records d) ≡ total (load f) d
unfolding all_records
sum_of-all_records f [] = refl
sum_of-all_records f ((k, b) ∷ d) =
    omega (arith, sum_of-append f b.records (all_records d), sum_of-all_records f d)

module _ (opts : BatchOptions) where
  awaited_ids :
      (i : ℕ) (d : List (ℕ × Batch)) → total (is_id i) (awaited opts d) ≤ total (is_id i) d
  unfolding awaited clear
  awaited_ids i [] = omega arith
  awaited_ids i ((k, b) ∷ d) = elim (Option-cases b.in_flight) [
    | inl idle ↦ rw (awaited, idle) (omega (arith, awaited_ids i d))
    | inr (queries, flying) ↦ rw (awaited, flying) (omega (arith, awaited_ids i d))
  ]

  -- The records of the batches that no insert is awaited for are gone; the others are in the inserts.
  awaited-load :
      (f : InsertRecord → ℕ) (d : List (ℕ × Batch))
      → All (λ p. GoodPending opts p.1) d
      → (total (load f) (awaited opts d) ≡ 0)
        × (total (flight f) (awaited opts d) + sum_of f (idle_records d) ≡ total (load f) d)
  unfolding awaited clear idle_records
  awaited-load f [] h = (refl, refl)
  awaited-load f ((k, b) ∷ d) (good, h) =
      let rest = awaited-load f d h in
      elim good.0 [
        | inl waiting ↦
            rw (awaited, idle_records, waiting.2)
              (rest.0, omega (arith, rest.1, sum_of-append f b.records (idle_records d)))
        | inr flying ↦
            let same : flight f (clear b) ≡ load f b =
              ap (λ q. sum_of f (elim q [ none ↦ [] | some queries ↦ queries ])) flying.1 in
            rw (awaited, idle_records, flying.1)
              (omega (arith, rest.0), omega (arith, rest.1, same))
      ]

  awaited-GoodDetached :
      (d : List (ℕ × Batch))
      → All (λ p. p.1.id ≡ p.0) d
      → All (λ p. p.1.id ≡ p.0) (awaited opts d)
        × All (λ p. GoodDetached opts true p.1) (awaited opts d)
  unfolding awaited clear
  awaited-GoodDetached [] h = (tt, tt)
  awaited-GoodDetached ((k, b) ∷ d) (own, h) =
      let rest = awaited-GoodDetached d h in
      elim (Option-cases b.in_flight) [
        | inl idle ↦ rw (awaited, idle) rest
        | inr (queries, flying) ↦
            rw (awaited, flying) ((own, rest.0), ((refl, refl, inr refl), rest.1))
      ]

  lookup-awaited-none :
      (k : ℕ) (d e : List (ℕ × Batch))
      → lookup k d ≡ none
      → lookup k e ≡ none
      → lookup k (awaited opts d ++ e) ≡ none
  unfolding awaited lookup
  lookup-awaited-none k [] e h absent = absent
  lookup-awaited-none k ((q, b) ∷ d) e h absent = elim (Bool-cases (nat_eq q k)) [
    | inl same ↦ absurd (cc (rw same at h))
    | inr apart ↦
        let rest = lookup-awaited-none k d e (rw apart at h) absent in
        elim (Option-cases b.in_flight) [
          | inl idle ↦ rw (awaited, idle) rest
          | inr (queries, flying) ↦ rw (awaited, flying, lookup, apart) rest
        ]
  ]

  Unique-awaited :
      (d e : List (ℕ × Batch))
      → Unique d
      → Unique e
      → All (λ p. p.1.id ≡ p.0) d
      → All (λ p. p.1.id ≡ p.0) e
      → ((i : ℕ) → total (is_id i) d + total (is_id i) e ≤ 1)
      → Unique (awaited opts d ++ e)
  unfolding awaited
  Unique-awaited [] e u w own_d own_e once = w
  Unique-awaited ((k, b) ∷ d) e (alone, u) w (own, own_d) own_e once =
      let rest = Unique-awaited d e u w own_d own_e (λ i. omega (arith, once i)) in
      let apart : lookup k e ≡ none = elim (Option-cases (lookup k e)) [
        | inl absent ↦ absent
        | inr (b', found) ↦
            let own' = All-lookup (λ p. p.1.id ≡ p.0) k e b' own_e found in
            absurd (
              ground (
                arith,
                own,
                own',
                ap (weight (is_id k)) found,
                lookup-le-total (is_id k) k e,
                once k,
              ))
      ] in
      elim (Option-cases b.in_flight) [
        | inl idle ↦ rw (awaited, idle) rest
        | inr (queries, flying) ↦ rw (awaited, flying) (lookup-awaited-none k d e alone apart, rest)
      ]

  pub stop-IsValid :
      (s : Bool) (m : BatchManager) (n : ℕ) → IsValid opts s m n → IsValid opts true (stop opts m) n
  unfolding stop
  stop-IsValid s m n v =
      let (own, good) = awaited-GoodDetached m.pending_batches v.own_ids in
      let ids = λ (i : ℕ). awaited_ids i m.pending_batches in
      let both = λ (i : ℕ). total-append (is_id i) (awaited opts m.pending_batches) m.detached in
      record {
        unique_buckets = tt;
        unique_ids = tt;
        unique_detached =
            Unique-awaited m.pending_batches m.detached v.unique_ids v.unique_detached v.own_ids
              v.own_detached (λ i. omega (arith, v.once i));
        own_ids = tt;
        own_detached = All-append (λ p. p.1.id ≡ p.0) _ _ own v.own_detached;
        once = λ i. omega (arith, v.once i, ids i, both i);
        unused = λ i h. omega (arith, v.unused i h, ids i, both i);
        good_open = tt;
        good_pending = tt;
        good_detached =
            All-append (λ p. GoodDetached opts true p.1) _ _ good
              (All-map (λ p. GoodDetached opts s p.1) (λ p. GoodDetached opts true p.1)
                (λ p h. (refl, h.1, h.2)) m.detached v.good_detached);
      }

  pub held-stop :
      (f : InsertRecord → ℕ) (s : Bool) (m : BatchManager) (n : ℕ)
      → IsValid opts s m n
      → held f (stop opts m) + sum_of f (all_records m.batches ++ idle_records m.pending_batches)
        ≡ held f m
  unfolding stop
  held-stop f s m n v =
      let now = awaited-load f m.pending_batches v.good_pending in
      omega (
        arith,
        now.0,
        now.1,
        total-append (load f) (awaited opts m.pending_batches) m.detached,
        total-append (flight f) (awaited opts m.pending_batches) m.detached,
        sum_of-all_records f m.batches,
        sum_of-append f (all_records m.batches) (idle_records m.pending_batches),
      )

-- ===== src/Storage/BatchManager/Timers.antt =====
-- The timers of packages/node/src/plugins/storage/BatchManager.ts, and the ends of its inserts.
use pombo_storage_node.Base.{
  ℕ, ◌+◌, ◌≡◌, refl, ◌∙◌, ap, inl, inr, none, some, [], if◌then◌else◌, nat_eq, Bool, leb, eq_list,
  eq_nat, arith, Bool-cases, Option-cases,
}
use pombo_storage_node.Base.Text.{Text}
use pombo_storage_node.Base.Dict.{lookup, insert, erase, Unique-insert, All-lookup}
use pombo_storage_node.Storage.Batch.{
  Batch, BatchOptions, InsertRecord, schedule_insert, become_pending, lock,
}
use pombo_storage_node.Storage.BatchManager.{
  BatchManager, lock_timer, begin_insert, is_due, insert_timer,
}
use pombo_storage_node.Storage.BatchManager.Total.{
  sum_of, total, total-insert, total-erase, weight, Unique-erase, All-insert, All-erase,
}
use pombo_storage_node.Storage.BatchManager.World.{
  IsValid, GoodOpen, GoodPending, GoodDetached, load, is_id, live, flight, held,
}
use pombo_storage_node.Storage.BatchManager.Keeps.{lock-IsValid, live-lock_batch}

module _ (opts : BatchOptions) (s : Bool) where
  -- A step that keeps the batches in order and the records where they are.
  abbrev pub Keeps : ℕ → BatchManager → BatchManager → Type 0
  Keeps n m m' = IsValid opts s m' n × ((f : InsertRecord → ℕ) → held f m' ≡ held f m)

  pub lock_timer-Keeps :
      (now n : ℕ) (k : Text) (m : BatchManager)
      → IsValid opts s m n
      → Keeps n m (lock_timer opts now k m)
  unfolding lock_timer schedule_insert lock
  lock_timer-Keeps now n k m v = elim (Option-cases (lookup k m.batches)) [
    | inl absent ↦ rw (lock_timer, absent) (v, λ f. refl)
    | inr (b, found) ↦
        let good = All-lookup (λ p. GoodOpen opts p.1) k m.batches b v.good_open found in
        elim (Bool-cases (leb good.0.0 now)) [
          | inr early ↦ rw (lock_timer, found, good.0.1, early) (v, λ f. refl)
          | inl due ↦
              rw (lock_timer, found, good.0.1, due)
                (
                  lock-IsValid opts s now k b m n v found,
                  λ f.
                      ap (λ x. x + total (flight f) m.detached)
                        (live-lock_batch opts s (load f) now k b m n v found refl),
                )
        ]
  ]

  -- Another batch in a pending batch's place.
  live-pending :
      (g : Batch → ℕ) (id : ℕ) (b b' : Batch) (m : BatchManager)
      → lookup id m.pending_batches ≡ some b
      → g b' ≡ g b
      → live g (record m { pending_batches = insert id b' m.pending_batches }) ≡ live g m
  live-pending g id b b' m found same =
      omega (arith, same, total-insert g id b' m.pending_batches, ap (weight g) found)

  pub replaced-Keeps :
      (n id : ℕ) (b b' : Batch) (m : BatchManager)
      → IsValid opts s m n
      → lookup id m.pending_batches ≡ some b
      → b'.id ≡ b.id
      → b'.records ≡ b.records
      → GoodPending opts b'
      → Keeps n m (record m { pending_batches = insert id b' m.pending_batches })
  replaced-Keeps n id b b' m v found ids records good =
      let same = λ (i : ℕ).
        live-pending (is_id i) id b b' m found
          (ap {B = ℕ} (λ j. if nat_eq j i then 1 else 0) ids) in
      let own = All-lookup (λ p. p.1.id ≡ p.0) id m.pending_batches b v.own_ids found in
      (
        record {
          unique_buckets = v.unique_buckets;
          unique_ids = Unique-insert id b' m.pending_batches v.unique_ids;
          own_ids = All-insert (λ p. p.1.id ≡ p.0) id b' m.pending_batches (ids ∙ own) v.own_ids;
          once = λ i. rw (same i) (v.once i);
          unused = λ i h. same i ∙ v.unused i h;
          good_open = v.good_open;
          good_pending =
              All-insert (λ p. GoodPending opts p.1) id b' m.pending_batches good v.good_pending;
          good_detached = v.good_detached;
          unique_detached = v.unique_detached;
          own_detached = v.own_detached;
        },
        λ f.
            ap (λ x. x + total (flight f) m.detached)
              (live-pending (load f) id b b' m found (ap (sum_of f) records)),
      )

  pub detached_gone-IsValid :
      (n id : ℕ) (b : Batch) (m : BatchManager)
      → IsValid opts s m n
      → lookup id m.detached ≡ some b
      → IsValid opts s (record m { detached = erase id m.detached }) n
  detached_gone-IsValid n id b m v found =
      let less = λ (i : ℕ). total-erase (is_id i) id m.detached v.unique_detached in
      record {
        unique_buckets = v.unique_buckets;
        unique_ids = v.unique_ids;
        unique_detached = Unique-erase id m.detached v.unique_detached;
        own_ids = v.own_ids;
        own_detached = All-erase (λ p. p.1.id ≡ p.0) id m.detached v.own_detached;
        once = λ i. omega (arith, less i, v.once i);
        unused = λ i h. omega (arith, less i, v.unused i h);
        good_open = v.good_open;
        good_pending = v.good_pending;
        good_detached = All-erase (λ p. GoodDetached opts s p.1) id m.detached v.good_detached;
      }

  pub detached_gone_load :
      (f : InsertRecord → ℕ) (n id : ℕ) (b : Batch) (m : BatchManager)
      → IsValid opts s m n
      → lookup id m.detached ≡ some b
      → held f (record m { detached = erase id m.detached }) + load f b + flight f b ≡ held f m
  detached_gone_load f n id b m v found = omega (
    arith,
    total-erase (load f) id m.detached v.unique_detached,
    total-erase (flight f) id m.detached v.unique_detached,
    ap (weight (load f)) found,
    ap (weight (flight f)) found,
  )

  -- A batch that is not one of the manager's any more, and no insert is awaited for.
  pub detached_gone-Keeps :
      (n id : ℕ) (b : Batch) (m : BatchManager)
      → IsValid opts s m n
      → lookup id m.detached ≡ some b
      → b.in_flight ≡ none
      → Keeps n m (record m { detached = erase id m.detached })
  detached_gone-Keeps n id b m v found idle =
      let good = All-lookup (λ p. GoodDetached opts s p.1) id m.detached b v.good_detached found in
      (
        detached_gone-IsValid n id b m v found,
        λ f. omega (
          arith,
          detached_gone_load f n id b m v found,
          ap (sum_of f) good.1,
          ap (λ q. sum_of f (elim q [ none ↦ [] | some queries ↦ queries ])) idle,
        ),
      )

  pub insert_timer-Keeps :
      (now n id : ℕ) (m : BatchManager)
      → IsValid opts s m n
      → Keeps n m (insert_timer opts now id m).1
  unfolding insert_timer begin_insert become_pending is_due lookup
  insert_timer-Keeps now n id m v = elim (Option-cases (lookup id m.pending_batches)) [
    | inr (b, found) ↦
        let good =
          All-lookup (λ p. GoodPending opts p.1) id m.pending_batches b v.good_pending found in
        elim (Bool-cases (is_due opts now b)) [
          | inr early ↦ rw (insert_timer, found, early) (v, λ f. refl)
          | inl due ↦
              rw (insert_timer, found, due)
                (replaced-Keeps n id b (begin_insert opts b) m v found refl refl
                  (inr (refl, refl), ground (arith, good.1), good.2))
        ]
    | inl absent ↦ elim (Option-cases (lookup id m.detached)) [
      | inl unknown ↦ rw (insert_timer, absent, unknown) (v, λ f. refl)
      | inr (b, found) ↦
          let good =
            All-lookup (λ p. GoodDetached opts s p.1) id m.detached b v.good_detached found in
          elim (Bool-cases (is_due opts now b)) [
            | inr early ↦ rw (insert_timer, absent, found, early) (v, λ f. refl)
            | inl due ↦
                rw (insert_timer, absent, found, due)
                  (detached_gone-Keeps n id b m v found (elim good.2 [
                    | inl idle ↦ idle
                    | inr unset ↦ absurd (cc (rw (is_due, unset) at due))
                  ]))
          ]
    ]
  ]

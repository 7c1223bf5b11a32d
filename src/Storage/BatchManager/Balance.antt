-- ===== src/Storage/BatchManager/Balance.antt =====
-- That no step of packages/node/src/plugins/storage/BatchManager.ts loses or doubles a record.
use pombo_storage_node.Base.{
  ℕ, ◌+◌, ◌≡◌, refl, ap, inl, inr, Bool, true, false, none, some, List, [], ◌∷◌, ◌++◌, All,
  All-append, eq_list, eq_nat, arith, Bool-cases, Option-cases,
}
use pombo_storage_node.Base.Dict.{lookup, All-lookup}
use pombo_storage_node.Storage.Batch.{
  Batch, BatchOptions, InsertRecord, schedule_insert, done, reached_max_retries,
}
use pombo_storage_node.Storage.BatchManager.{BatchManager, store, settle, insert_ended}
use pombo_storage_node.Storage.BatchManager.Total.{sum_of, sum_of-append, total}
use pombo_storage_node.Storage.BatchManager.World.{
  World, fresh_world, Event, stores, lock_fires, insert_fires, insert_ends, stops, step, run,
  IsValid, GoodPending, GoodDetached, load, held, all_records, idle_records, lost_by,
}
use pombo_storage_node.Storage.BatchManager.Keeps.{store-IsValid}
use pombo_storage_node.Storage.BatchManager.Timers.{
  Keeps, lock_timer-Keeps, insert_timer-Keeps, replaced-Keeps, detached_gone-IsValid,
  detached_gone_load,
}
use pombo_storage_node.Storage.BatchManager.Stops.{stop-IsValid, held-stop}
use pombo_storage_node.Storage.BatchManager.Ends.{
  removed-IsValid, removed_load, detached_again-IsValid, detached_again_load,
}

module _ {A : Type 0} (P : A → Type 0) where
  always : ((x : A) → P x) → (xs : List A) → All P xs
  always h [] = tt
  always h (x ∷ xs) = (h x, always h xs)

  none_of : ((x : A) → ¬ P x) → (xs : List A) → All P xs → xs ≡ []
  none_of h [] all = refl
  none_of h (x ∷ xs) (p, all) = absurd (h x p)

module _ (opts : BatchOptions) where
  -- The records of a world, weighed.
  abbrev pub Balanced : (InsertRecord → ℕ) → World → Type 0
  Balanced f w =
      sum_of f w.accepted
      ≡ held f w.manager + sum_of f w.written + sum_of f w.dropped + sum_of f w.lost

  abbrev pub Good : World → Type 0
  Good w =
      IsValid opts w.stopped w.manager w.next_id
      × ((f : InsertRecord → ℕ) → Balanced f w)
      × All (λ r. w.stopped ≡ true) w.lost

  -- A step of the batches alone.
  moved-Good :
      (w : World) (m' : BatchManager)
      → Good w
      → Keeps opts w.stopped w.next_id w.manager m'
      → Good (record w { manager = m' })
  moved-Good w m' (v, balance, lost) (v', same) =
      (v', (λ f. omega (arith, balance f, same f)), lost)

  pending_ends-Good :
      (w : World) (now id : ℕ) (succeeded : Bool) (b : Batch)
      → Good w
      → lookup id w.manager.pending_batches ≡ some b
      → Good (step opts w (insert_ends now id succeeded))
  unfolding step insert_ended settle reached_max_retries schedule_insert done lost_by
  pending_ends-Good w now id succeeded b (v, balance, lost) found =
      let m = w.manager in
      let good =
        All-lookup (λ p. GoodPending opts p.1) id m.pending_batches b v.good_pending found in
      let gone = λ (f : InsertRecord → ℕ). removed_load opts w.stopped f w.next_id id b m v found in
      let without = removed-IsValid opts w.stopped w.next_id id b m v found in
      elim good.0 [
        | inl waiting ↦
            rw (step, insert_ended, lost_by, found, settle, waiting.2)
              (moved-Good w _ (v, balance, lost)
                (replaced-Keeps opts w.stopped w.next_id id b b m v found refl refl good))
        | inr awaited ↦ elim (Bool-cases succeeded) [
          | inl written ↦
              rw (step, insert_ended, lost_by, found, settle, awaited.1, written)
                (
                  without,
                  (λ f. omega (arith, balance f, gone f, sum_of-append f b.records w.written)),
                  lost,
                )
          | inr failed ↦ elim (Bool-cases (reached_max_retries opts b)) [
            | inl reached ↦
                rw (step, insert_ended, lost_by, found, settle, awaited.1, failed, reached)
                  (
                    without,
                    (λ f. omega (arith, balance f, gone f, sum_of-append f b.records w.dropped)),
                    lost,
                  )
            | inr more ↦
                rw (step, insert_ended, lost_by, found, settle, awaited.1, failed, more)
                  (moved-Good w _ (v, balance, lost)
                    (replaced-Keeps opts w.stopped w.next_id id b _ m v found refl refl
                      (inl (_, refl, refl), good.1, good.2)))
          ]
        ]
      ]

  -- The insert of a batch that `stop` cleared.
  detached_ends-Good :
      (w : World) (now id : ℕ) (succeeded : Bool) (b : Batch)
      → Good w
      → lookup id w.manager.pending_batches ≡ none
      → lookup id w.manager.detached ≡ some b
      → Good (step opts w (insert_ends now id succeeded))
  unfolding step insert_ended settle reached_max_retries schedule_insert done lost_by
  detached_ends-Good w now id succeeded b (v, balance, lost) absent found =
      let m = w.manager in
      let good =
        All-lookup (λ p. GoodDetached opts w.stopped p.1) id m.detached b v.good_detached found in
      let gone =
        λ (f : InsertRecord → ℕ). detached_gone_load opts w.stopped f w.next_id id b m v found in
      let without = detached_gone-IsValid opts w.stopped w.next_id id b m v found in
      let empty = λ (f : InsertRecord → ℕ). ap (sum_of f) good.1 in
      let all_lost = λ (queries : List InsertRecord).
        All-append (λ r. w.stopped ≡ true) queries w.lost
          (always (λ r. w.stopped ≡ true) (λ r. good.0) queries) lost in
      elim (Option-cases b.in_flight) [
        | inl idle ↦
            let kept = detached_again-IsValid opts w.stopped w.next_id id b b m v found refl good in
            let same =
              λ (f : InsertRecord → ℕ). detached_again_load opts w.stopped f id b b m found refl in
            elim (Bool-cases succeeded) [
              | inl written ↦
                  rw (step, insert_ended, lost_by, absent, found, settle, idle, written)
                    (kept, (λ f. omega (arith, balance f, same f)), lost)
              | inr failed ↦
                  rw (step, insert_ended, lost_by, absent, found, settle, idle, failed)
                    (kept, (λ f. omega (arith, balance f, same f)), lost)
            ]
        | inr (queries, flying) ↦
            let flown = λ (f : InsertRecord → ℕ).
              ap (λ q. sum_of f (elim q [ none ↦ [] | some queries' ↦ queries' ])) flying in
            elim (Bool-cases succeeded) [
              | inl written ↦
                  rw (step, insert_ended, lost_by, absent, found, settle, flying, written)
                    (
                      without,
                      (λ f. omega (
                        arith,
                        balance f,
                        gone f,
                        empty f,
                        flown f,
                        sum_of-append f queries w.written,
                      )),
                      lost,
                    )
              | inr failed ↦ elim (Bool-cases (reached_max_retries opts b)) [
                | inl reached ↦
                    rw (step, insert_ended, lost_by, absent, found, settle, flying, failed, reached)
                      (
                        without,
                        (λ f. omega (
                          arith,
                          balance f,
                          gone f,
                          flown f,
                          sum_of-append f b.records w.dropped,
                          sum_of-append f queries w.lost,
                        )),
                        all_lost queries,
                      )
                | inr more ↦
                    rw (step, insert_ended, lost_by, absent, found, settle, flying, failed, more)
                      (
                        detached_again-IsValid opts w.stopped w.next_id id b _ m v found refl
                            (good.0, good.1, inl refl),
                        (λ f. omega (
                          arith,
                          balance f,
                          flown f,
                          detached_again_load opts w.stopped f id b
                              (record (schedule_insert opts now b) { in_flight = none }) m found
                              refl,
                          sum_of-append f queries w.lost,
                        )),
                        all_lost queries,
                      )
              ]
            ]
      ]

  insert_ends-Good :
      (w : World) (now id : ℕ) (succeeded : Bool)
      → Good w
      → Good (step opts w (insert_ends now id succeeded))
  unfolding step insert_ended lost_by
  insert_ends-Good w now id succeeded good =
      let m = w.manager in
      elim (Option-cases (lookup id m.pending_batches)) [
        | inr (b, found) ↦ pending_ends-Good w now id succeeded b good found
        | inl absent ↦ elim (Option-cases (lookup id m.detached)) [
          | inr (b, found) ↦ detached_ends-Good w now id succeeded b good absent found
          | inl unknown ↦ rw (step, insert_ended, lost_by, absent, unknown) good
        ]
      ]

  stops-Good : (w : World) → Good w → Good (step opts w stops)
  unfolding step
  stops-Good w (v, balance, lost) =
      let m = w.manager in
      let cleared = all_records m.batches ++ idle_records m.pending_batches in
      (
        stop-IsValid opts w.stopped m w.next_id v,
        (λ f. omega (
          arith,
          balance f,
          held-stop opts f w.stopped m w.next_id v,
          sum_of-append f cleared w.lost,
        )),
        always (λ r. true ≡ true) (λ r. refl) (cleared ++ w.lost),
      )

  step-Good : (w : World) (e : Event) → Good w → Good (step opts w e)
  unfolding step
  step-Good w (stores now k r cb) (v, balance, lost) =
      elim (Option-cases (store opts now w.next_id k r cb w.manager)) [
        | inl refused ↦ rw (step, refused) (v, balance, lost)
        | inr (m', stored) ↦
            let (v', more) =
              store-IsValid opts w.stopped now w.next_id k r cb w.manager m' v stored in
            rw (step, stored) (v', (λ f. omega (arith, balance f, more f)), lost)
      ]
  step-Good w (lock_fires now k) good =
      moved-Good w _ good (lock_timer-Keeps opts w.stopped now w.next_id k w.manager good.0)
  step-Good w (insert_fires now id) good =
      moved-Good w _ good (insert_timer-Keeps opts w.stopped now w.next_id id w.manager good.0)
  step-Good w (insert_ends now id succeeded) good = insert_ends-Good w now id succeeded good
  step-Good w stops good = stops-Good w good

  pub run-Good : (w : World) (es : List Event) → Good w → Good (run opts w es)
  unfolding run
  run-Good w [] good = good
  run-Good w (e ∷ es) good = run-Good (step opts w e) es (step-Good w e good)

  pub fresh-Good : Good fresh_world
  fresh-Good = (
    record {
      unique_buckets = tt;
      unique_ids = tt;
      own_ids = tt;
      once = λ i. omega arith;
      unused = λ i h. refl;
      good_open = tt;
      good_pending = tt;
      good_detached = tt;
      unique_detached = tt;
      own_detached = tt;
    },
    (λ f. refl),
    tt,
  )

  -- The batches that `stop` cleared hold no records.
  pub detached_load :
      (f : InsertRecord → ℕ) (s : Bool) (d : List (ℕ × Batch))
      → All (λ p. GoodDetached opts s p.1) d
      → total (load f) d ≡ 0
  detached_load f s [] h = refl
  detached_load f s ((id, b) ∷ d) (good, h) =
      omega (arith, ap (sum_of f) good.1, detached_load f s d h)

  pub none_lost :
      (w : World) → Good w → w.stopped ≡ false → (w.lost ≡ []) × (w.manager.detached ≡ [])
  none_lost w (v, balance, lost) running = (
    none_of (λ r. w.stopped ≡ true) (λ r h. cc (h, running)) w.lost lost,
    none_of (λ p. GoodDetached opts w.stopped p.1) (λ p h. cc (h.0, running)) w.manager.detached
        v.good_detached,
  )

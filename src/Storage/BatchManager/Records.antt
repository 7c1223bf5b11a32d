-- ===== src/Storage/BatchManager/Records.antt =====
-- Where the records that packages/node/src/plugins/storage/BatchManager.ts takes end up, and what its
-- batches are like at any time.
use pombo_storage_node.Base.{
  ℕ, ◌+◌, ◌≤◌, ◌≡◌, ◌⊎◌, ap, inl, inr, none, some, List, length, All, All-map, if◌then◌else◌, leb,
  eq_list, eq_nat, arith, Bool-cases,
}
use pombo_storage_node.Base.Text.{Text}
use pombo_storage_node.Base.Dict.{lookup, All-lookup, lookup-erase_self}
use pombo_storage_node.Storage.Batch.{Batch, BatchOptions, InsertRecord, lock_at, insert_at}
use pombo_storage_node.Storage.BatchManager.{
  started, idle, is_due, lock_timer, lock_batch, move_full_batch, insert_timer,
}
use pombo_storage_node.Storage.BatchManager.Total.{sum_of, total}
use pombo_storage_node.Storage.BatchManager.World.{
  fresh_world, Event, run, GoodOpen, GoodPending, load, flight,
}
use pombo_storage_node.Storage.BatchManager.Balance.{run-Good, fresh-Good, none_lost, detached_load}

module _ (opts : BatchOptions) where
  -- After any calls of `store` and `stop`, timers and ends of inserts on a new manager, in any order,
  -- the records that were accepted are those of the open and the pending batches, those written to
  -- the table, those of batches given up and, only if the manager was stopped, those of inserts
  -- awaited since before and those that stopping it lost, in batches that no insert was awaited for
  -- and in inserts that failed later: with any weight put on the records, the sums agree.
  pub records_conserved :
      (es : List Event) (f : InsertRecord → ℕ)
      → let w = run opts fresh_world es in
        sum_of f w.accepted
        ≡ total (load f) w.manager.batches
          + total (load f) w.manager.pending_batches
          + sum_of f w.written
          + sum_of f w.dropped
          + (if w.stopped then total (flight f) w.manager.detached + sum_of f w.lost else 0)
  records_conserved es f =
      let w = run opts fresh_world es in
      let good = run-Good opts fresh_world es (fresh-Good opts) in
      elim (Bool-cases w.stopped) [
        | inl stopped ↦ rw stopped (
            omega (
              arith,
              good.1 f,
              detached_load opts f w.stopped w.manager.detached good.0.good_detached,
            ))
        | inr running ↦
            let (no_loss, no_detached) = none_lost opts w good running in
            rw running (
              omega (
                arith,
                good.1 f,
                ap (sum_of f) no_loss,
                ap (total (load f)) no_detached,
                ap (total (flight f)) no_detached,
              ))
      ]

  -- After any calls of `store` and `stop`, timers and ends of inserts on a new manager, no open or pending batch holds more records than
  -- `maxRecordCount`, and no pending batch counts more retries than `maxRetries`.
  pub batches_bounded :
      (es : List Event)
      → let w = run opts fresh_world es in
        All (λ p. length p.1.records ≤ opts.max_record_count) w.manager.batches
        × All
            (λ p. (p.1.retries ≤ opts.max_retries) × (length p.1.records ≤ opts.max_record_count))
            w.manager.pending_batches
  batches_bounded es =
      let (v, balance, lost) = run-Good opts fresh_world es (fresh-Good opts) in
      (
        All-map (λ p. GoodOpen opts p.1) (λ p. length p.1.records ≤ opts.max_record_count)
            (λ p good. good.3) _ v.good_open,
        All-map (λ p. GoodPending opts p.1)
            (λ p. (p.1.retries ≤ opts.max_retries) × (length p.1.records ≤ opts.max_record_count))
            (λ p good. (good.1, good.2)) _ v.good_pending,
      )

  -- After any calls of `store` and `stop`, timers and ends of inserts on a new manager, an open batch has a lock timer, which takes it from
  -- the open ones if it runs when it is due.
  pub open_batch_locks :
      (es : List Event) (now : ℕ) (k : Text) (b : Batch)
      → lookup k (run opts fresh_world es).manager.batches ≡ some b
      → (due : ℕ) × (b.timeout ≡ some (lock_at due))
        × (lookup k (lock_timer opts now k (run opts fresh_world es).manager).batches
            ≡ (if leb due now then none else some b))
  unfolding lock_timer lock_batch move_full_batch
  open_batch_locks es now k b found =
      let m = (run opts fresh_world es).manager in
      let (v, balance, lost) = run-Good opts fresh_world es (fresh-Good opts) in
      let (due, timed) = (All-lookup (λ p. GoodOpen opts p.1) k m.batches b v.good_open found).0 in
      (
        due,
        timed,
        elim (Bool-cases (leb due now)) [
          | inl late ↦
              rw (lock_timer, found, timed, late, lock_batch, move_full_batch)
                (lookup-erase_self k m.batches)
          | inr early ↦
              let kept : lock_timer opts now k m ≡ m = rw (lock_timer, found, timed, early) in
              rw (kept, early) found
        ],
      )

  -- After any calls of `store` and `stop`, timers and ends of inserts on a new manager, a batch that is pending under an id either has all its
  -- records in an insert that is awaited, or has an insert timer that starts an insert if it runs when
  -- it is due.
  pub pending_batch_starts :
      (es : List Event) (now id : ℕ) (b : Batch)
      → lookup id (run opts fresh_world es).manager.pending_batches ≡ some b
      → (b.in_flight ≡ some b.records)
        ⊎ ((due : ℕ) × (b.timeout ≡ some (insert_at due))
            × ((insert_timer opts now id (run opts fresh_world es).manager).0
                ≡ (if leb due now then started else idle)))
  unfolding insert_timer is_due
  pending_batch_starts es now id b found =
      let (v, balance, lost) = run-Good opts fresh_world es (fresh-Good opts) in
      elim ((All-lookup (λ p. GoodPending opts p.1) id _ b v.good_pending found).0) [
        | inr awaited ↦ inl awaited.1
        | inl waiting ↦ inr (
          waiting.0,
          waiting.1,
          elim (Bool-cases (leb waiting.0 now)) [
            | inl late ↦ rw (insert_timer, found, is_due, waiting.1, late)
            | inr early ↦ rw (insert_timer, found, is_due, waiting.1, early)
          ],
        )
      ]

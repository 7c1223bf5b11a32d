-- ===== src/Storage/BatchManager/Retries.antt =====
-- What becomes of a batch of packages/node/src/plugins/storage/BatchManager.ts whose inserts fail, in a
-- running manager and in one that was stopped while an insert was awaited.
use mathlib.Core.Option.{some-injective}
use pombo_storage_node.Base.{
  ◌*◌, ℕ, ◌+◌, ◌≤◌, ◌<◌, ◌≡◌, ◌↔◌, sym, ap, inl, inr, true, false, Option, none, some, List, [],
  ◌∷◌, ◌++◌, length, if◌then◌else◌, nat_eq, eq_list, eq_nat, arith, Bool-cases, Option-cases, subst,
  le→leb, lt→ltb,
}
use pombo_storage_node.Base.Dict.{lookup, lookup-insert_self}
use pombo_storage_node.Storage.Batch.{
  Batch, BatchOptions, InsertRecord, clear, schedule_insert, become_pending, reached_max_retries,
}
use pombo_storage_node.Storage.BatchManager.{
  BatchManager, is_due, insert_timer, crashed, stop, awaited, begin_insert, settle, insert_ended,
  retries_later,
}

module _ (opts : BatchOptions) where
  -- A batch whose inserts fail one after the other: each round is the insert timer and then the
  -- failure, at a time of its own.
  unfoldable pub rounds : List ℕ → Batch → Option Batch
  unfolding settle begin_insert
  rounds [] b = some b
  rounds (now ∷ times) b = elim ((settle opts now false (begin_insert opts b)).1) [
    | none ↦ none
    | some b' ↦ rounds times b'
  ]

  abbrev retried : ℕ → Batch → Batch
  retried now b = record (schedule_insert opts now (begin_insert opts b)) { in_flight = none }

  retries-begin_insert :
      (b : Batch) → b.retries < opts.max_retries → (begin_insert opts b).retries ≡ b.retries + 1
  unfolding begin_insert become_pending
  retries-begin_insert b h = rw (lt→ltb b.retries opts.max_retries h)

  rounds-next :
      (b : Batch) (now : ℕ) (times : List ℕ)
      → b.retries < opts.max_retries
      → rounds (now ∷ times) b
        ≡ (if nat_eq (b.retries + 1) opts.max_retries then none else rounds times (retried now b))
  unfolding rounds settle begin_insert become_pending reached_max_retries
  rounds-next b now times h = elim (Bool-cases (nat_eq (b.retries + 1) opts.max_retries)) [
    | inl reached ↦
        let now_reached : nat_eq (begin_insert opts b).retries opts.max_retries ≡ true =
          rw (retries-begin_insert b h) reached in
        rw (rounds, settle, reached_max_retries, now_reached, reached)
    | inr more ↦
        let not_reached : nat_eq (begin_insert opts b).retries opts.max_retries ≡ false =
          rw (retries-begin_insert b h) more in
        rw (rounds, settle, reached_max_retries, not_reached, more)
  ]

  -- A batch that has been retried fewer than `maxRetries` times is given up after as many failures
  -- as bring its retries to `maxRetries`, and not before.
  pub failing_batch_given_up :
      (b : Batch) (times : List ℕ)
      → b.retries < opts.max_retries
      → (rounds times b ≡ none) ↔ (opts.max_retries ≤ b.retries + length times)
  unfolding rounds schedule_insert
  failing_batch_given_up b [] h = (λ e. absurd cc, λ le. absurd (omega arith))
  failing_batch_given_up b (now ∷ times) h =
      let more = retries-begin_insert b h in
      elim (Bool-cases (nat_eq (b.retries + 1) opts.max_retries)) [
        | inl reached ↦ (λ e. ground arith, λ le. rw (rounds-next b now times h, reached))
        | inr later ↦
            let next =
              failing_batch_given_up (retried now b) times (ground (arith, more, h, later)) in
            rw (rounds-next b now times h, later)
              (λ e. omega (arith, next.0 e, more), λ le. next.1 (omega (arith, more, le)))
      ]

-- The batches that `stop` clears are still known to the inserts that are awaited.
lookup-awaited :
    (opts : BatchOptions) (id : ℕ) (d e : List (ℕ × Batch)) (b : Batch)
    (queries : List InsertRecord)
    → lookup id d ≡ some b
    → b.in_flight ≡ some queries
    → lookup id (awaited opts d ++ e) ≡ some (clear b)
unfolding lookup awaited
lookup-awaited opts id [] e b queries found flight = absurd cc
lookup-awaited opts id ((q, c) ∷ d) e b queries found flight = elim (Bool-cases (nat_eq q id)) [
  | inl same ↦
      let first = some-injective c b (rw same at found) in
      let flying = subst (λ (x : Batch). x.in_flight ≡ some queries) (sym first) flight in
      rw (awaited, flying, lookup, same) (ap {B = Option Batch} (λ x. some (clear x)) first)
  | inr apart ↦
      let later = lookup-awaited opts id d e b queries (rw apart at found) flight in
      elim (Option-cases c.in_flight) [
        | inl idle ↦ rw (awaited, idle) later
        | inr (_, flying) ↦ rw (awaited, flying, lookup, apart) later
      ]
]

-- Where a manager is stopped while the insert of a batch is awaited, and that insert then fails with
-- retries left, the batch is scheduled again, and its timer makes `insert` throw on a batch that the
-- manager no longer knows.
pub stopped_retry_crashes :
    (opts : BatchOptions) (m : BatchManager) (id now later : ℕ) (b : Batch)
    (queries : List InsertRecord)
    → lookup id m.pending_batches ≡ some b
    → b.in_flight ≡ some queries
    → b.retries < opts.max_retries
    → now + opts.close_timeout * b.retries ≤ later
    → let (ended, m') = insert_ended opts now id false (stop opts m) in
      (ended ≡ retries_later) × ((insert_timer opts later id m').0 ≡ crashed)
unfolding insert_ended stop settle reached_max_retries schedule_insert insert_timer is_due lookup
    clear
stopped_retry_crashes opts m id now later b queries found flight left due =
    let known = lookup-awaited opts id m.pending_batches m.detached b queries found flight in
    let below : nat_eq b.retries opts.max_retries ≡ false = ground arith in
    (
      rw (insert_ended, stop, lookup, known, settle, flight, reached_max_retries, below),
      rw (insert_ended, stop, lookup, known, settle, flight, reached_max_retries, below)
          (rw (
            insert_timer,
            lookup,
            lookup-insert_self {K = ℕ} {V = Batch},
            is_due,
            le→leb _ later due,
          )),
    )

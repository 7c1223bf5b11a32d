-- ===== src/Storage/BatchManager.antt =====
-- packages/node/src/plugins/storage/BatchManager.ts. A batch is in one of three places: open for a
-- bucket, pending, or, where the manager was stopped while its insert was awaited, detached.
pub mod Total
pub mod World
pub mod Keeps
pub mod Timers
pub mod Stops
pub mod Ends
pub mod Balance
pub mod Records
pub mod Retries
use pombo_storage_node.Base.{
  ℕ, ◌+◌, Bool, true, false, not, Option, none, some, List, [], ◌∷◌, ◌++◌, map, if◌then◌else◌, leb,
  ◌==◌, eq_list, eq_nat,
}
use pombo_storage_node.Base.Text.{Text}
use pombo_storage_node.Base.Dict.{lookup, insert, erase}
use pombo_storage_node.Storage.Batch
use pombo_storage_node.Storage.Batch.{
  Batch, BatchOptions, InsertRecord, lock_at, insert_at, create, reached_max_retries,
  schedule_insert, become_pending, is_full, lock, done, push,
}

pub record BatchManager : Type 0 where
  pub batches : List (Text × Batch)
  pub pending_batches : List (ℕ × Batch)
  pub detached : List (ℕ × Batch)

abbrev pub no_batches : BatchManager
no_batches = record { batches = []; pending_batches = []; detached = [] }

-- How an insert ended: the records are in the table and the callbacks called, it is tried again, or
-- the batch is given up.
pub data Ended : Type 0 where
  wrote : List InsertRecord → List ℕ → Ended
  retries_later not_awaited : Ended
  gave_up : List InsertRecord → Ended

-- What a timer started; a batch that is no longer pending makes `insert` throw twice.
pub data Fired : Type 0 where
  started idle crashed : Fired

module _ (opts : BatchOptions) where
  unfoldable pub move_full_batch : ℕ → Text → Batch → BatchManager → BatchManager
  unfolding schedule_insert
  move_full_batch now bucket_id b m = record m {
    pending_batches = insert b.id (schedule_insert opts now b) m.pending_batches;
    batches = erase bucket_id m.batches;
  }

  -- `lock`, with the listener of its event.
  unfoldable pub lock_batch : ℕ → Text → Batch → BatchManager → BatchManager
  unfolding move_full_batch lock
  lock_batch now bucket_id b m = move_full_batch now bucket_id (lock b) m

  unfoldable pub make_room : ℕ → Text → BatchManager → BatchManager
  unfolding lock_batch is_full
  make_room now bucket_id m = elim (lookup bucket_id m.batches) [
    | none ↦ m
    | some b ↦ if is_full opts b then lock_batch now bucket_id b m else m
  ]

  -- The batch that a record for a bucket goes to, made with an id of its own if there is none.
  unfoldable pub open_batch : ℕ → ℕ → Text → BatchManager → Option Batch
  unfolding create
  open_batch now id bucket_id m = elim (lookup bucket_id m.batches) [
    | none ↦ create opts now id bucket_id
    | some b ↦ some b
  ]

  -- `none` is the TypeError of a new batch.
  unfoldable pub store : ℕ → ℕ → Text → InsertRecord → Option ℕ → BatchManager → Option BatchManager
  unfolding make_room open_batch push
  store now id bucket_id r done_cb m =
      let m' = make_room now bucket_id m in
      elim (open_batch now id bucket_id m') [
        | none ↦ none
        | some b ↦ some (record m' { batches = insert bucket_id (push r done_cb b) m'.batches })
      ]

  unfoldable pub lock_timer : ℕ → Text → BatchManager → BatchManager
  unfolding lock_batch
  lock_timer now bucket_id m = elim (lookup bucket_id m.batches) [
    | none ↦ m
    | some b ↦ elim b.timeout [
      | none ↦ m
      | some t ↦ elim t [
        | insert_at due ↦ m
        | lock_at due ↦ if leb due now then lock_batch now bucket_id b m else m
      ]
    ]
  ]

  -- The batch with an insert under way: the queries are made of the records that it holds then.
  unfoldable pub begin_insert : Batch → Batch
  unfolding become_pending
  begin_insert b = let b' = become_pending opts b in record b' { in_flight = some b'.records }

  unfoldable pub is_due : ℕ → Batch → Bool
  is_due now b = elim b.timeout [
    | none ↦ false
    | some t ↦ elim t [ lock_at due ↦ false | insert_at due ↦ leb due now ]
  ]

  unfoldable pub insert_timer : ℕ → ℕ → BatchManager → Fired × BatchManager
  unfolding begin_insert is_due
  insert_timer now id m = elim (lookup id m.pending_batches) [
    | some b ↦
        if is_due now b
        then (started, record m { pending_batches = insert id (begin_insert b) m.pending_batches })
        else (idle, m)
    | none ↦ elim (lookup id m.detached) [
      | none ↦ (idle, m)
      | some b ↦
          if is_due now b then (crashed, record m { detached = erase id m.detached }) else (idle, m)
    ]
  ]

  -- The rest of `insert` after its batch query: what it comes to, and the batch if it is kept.
  unfoldable pub settle : ℕ → Bool → Batch → Ended × Option Batch
  unfolding reached_max_retries schedule_insert done
  settle now succeeded b = elim b.in_flight [
    | none ↦ (not_awaited, some b)
    | some queries ↦
        if succeeded
        then (wrote queries (done b).0, none)
        else if reached_max_retries opts b
        then (gave_up b.records, none)
        else (retries_later, some (record (schedule_insert opts now b) { in_flight = none }))
  ]

  abbrev put_back : ℕ → Option Batch → List (ℕ × Batch) → List (ℕ × Batch)
  put_back id none batches = erase id batches
  put_back id (some b) batches = insert id b batches

  unfoldable pub insert_ended : ℕ → ℕ → Bool → BatchManager → Ended × BatchManager
  unfolding settle
  insert_ended now id succeeded m = elim (lookup id m.pending_batches) [
    | some b ↦
        let (ended, left) = settle now succeeded b in
        (ended, record m { pending_batches = put_back id left m.pending_batches })
    | none ↦ elim (lookup id m.detached) [
      | none ↦ (not_awaited, m)
      | some b ↦
          let (ended, left) = settle now succeeded b in
          (ended, record m { detached = put_back id left m.detached })
    ]
  ]

  -- Every batch is cleared; those whose insert is awaited are known to that insert alone.
  unfoldable pub awaited : List (ℕ × Batch) → List (ℕ × Batch)
  unfolding Batch.clear
  awaited [] = []
  awaited ((id, b) ∷ batches) =
      let rest = awaited batches in
      elim b.in_flight [ none ↦ rest | some queries ↦ (id, Batch.clear b) ∷ rest ]

  unfoldable pub stop : BatchManager → BatchManager
  unfolding awaited
  stop m = record {
    batches = [];
    pending_batches = [];
    detached = awaited m.pending_batches ++ m.detached;
  }

-- ===== src/Storage/BatchManager/World.antt =====
-- The batches of a running manager together with what became of the records handed to `store`:
-- packages/node/src/plugins/storage/BatchManager.ts driven by calls and timers, one at a time.
use pombo_storage_node.Base.{
  ℕ, suc, ◌+◌, ◌≤◌, ◌≡◌, ◌⊎◌, Bool, true, false, Option, none, some, List, [], ◌∷◌, ◌++◌, length,
  All, if◌then◌else◌, nat_eq, eq_list, eq_nat,
}
use pombo_storage_node.Base.Text.{Text}
use pombo_storage_node.Base.Dict.{Unique, lookup}
use pombo_storage_node.Storage.Batch.{Batch, BatchOptions, InsertRecord, lock_at, insert_at}
use pombo_storage_node.Storage.BatchManager.{
  BatchManager, no_batches, Ended, wrote, retries_later, not_awaited, gave_up, store, lock_timer,
  insert_timer, insert_ended, stop,
}
use pombo_storage_node.Storage.BatchManager.Total.{sum_of, total}

-- The ids of batches are drawn one after the other; the records are those accepted, those in the
-- table, those of batches that were given up, and those lost because the manager was stopped: in a
-- batch that `stop` cleared, or in an insert that failed after it.
pub record World : Type 0 where
  pub manager : BatchManager
  pub next_id : ℕ
  pub stopped : Bool
  pub accepted : List InsertRecord
  pub written : List InsertRecord
  pub dropped : List InsertRecord
  pub lost : List InsertRecord

abbrev pub fresh_world : World
fresh_world = record {
  manager = no_batches;
  next_id = 0;
  stopped = false;
  accepted = [];
  written = [];
  dropped = [];
  lost = [];
}

pub data Event : Type 0 where
  stores : ℕ → Text → InsertRecord → Option ℕ → Event
  lock_fires : ℕ → Text → Event
  insert_fires : ℕ → ℕ → Event
  insert_ends : ℕ → ℕ → Bool → Event
  stops : Event

-- The records weighed, by any weight of a record.
abbrev pub load : (InsertRecord → ℕ) → Batch → ℕ
load f b = sum_of f b.records

abbrev pub is_id : ℕ → Batch → ℕ
is_id i b = if nat_eq b.id i then 1 else 0

abbrev pub live : (Batch → ℕ) → BatchManager → ℕ
live g m = total g m.batches + total g m.pending_batches + total g m.detached

-- The records of the insert that is awaited for a batch.
abbrev pub in_flight_of : Batch → List InsertRecord
in_flight_of b = elim b.in_flight [ none ↦ [] | some queries ↦ queries ]

abbrev pub flight : (InsertRecord → ℕ) → Batch → ℕ
flight f b = sum_of f (in_flight_of b)

-- The batches of a manager, and the inserts that are awaited since before it was stopped.
abbrev pub held : (InsertRecord → ℕ) → BatchManager → ℕ
held f m = live (load f) m + total (flight f) m.detached

-- What `stop` clears: the records of the batches that no insert is awaited for.
unfoldable pub all_records : List (Text × Batch) → List InsertRecord
all_records [] = []
all_records ((k, b) ∷ d) = b.records ++ all_records d

unfoldable pub idle_records : List (ℕ × Batch) → List InsertRecord
idle_records [] = []
idle_records ((id, b) ∷ d) =
    let rest = idle_records d in elim b.in_flight [ none ↦ b.records ++ rest | some queries ↦ rest ]

-- What a failing insert loses: its batch is no longer one of the manager's.
unfoldable pub lost_by : ℕ → Bool → BatchManager → List InsertRecord
lost_by id succeeded m = elim (lookup id m.pending_batches) [
  | some b ↦ []
  | none ↦ elim (lookup id m.detached) [
    | none ↦ []
    | some b ↦ if succeeded then [] else in_flight_of b
  ]
]

module _ (opts : BatchOptions) where
  abbrev ended : World → Ended × BatchManager → World
  ended w (wrote records cbs, m) = record w { manager = m; written = records ++ w.written }
  ended w (retries_later, m) = record w { manager = m }
  ended w (not_awaited, m) = record w { manager = m }
  ended w (gave_up records, m) = record w { manager = m; dropped = records ++ w.dropped }

  unfoldable pub step : World → Event → World
  unfolding store lock_timer insert_timer insert_ended stop lost_by all_records idle_records
  step w (stores now bucket_id r done_cb) =
      elim (store opts now w.next_id bucket_id r done_cb w.manager) [
        | none ↦ w
        | some m ↦ record w { manager = m; next_id = suc w.next_id; accepted = r ∷ w.accepted }
      ]
  step w (lock_fires now bucket_id) = record w { manager = lock_timer opts now bucket_id w.manager }
  step w (insert_fires now id) = record w { manager = (insert_timer opts now id w.manager).1 }
  step w (insert_ends now id succeeded) =
      ended (record w { lost = lost_by id succeeded w.manager ++ w.lost })
        (insert_ended opts now id succeeded w.manager)
  step w stops = record w {
    manager = stop opts w.manager;
    stopped = true;
    lost = (all_records w.manager.batches ++ idle_records w.manager.pending_batches) ++ w.lost;
  }

  unfoldable pub run : World → List Event → World
  unfolding step
  run w [] = w
  run w (e ∷ es) = run (step w e) es

  -- An open batch waits for its lock timer and has room for one record or has just been filled.
  abbrev pub GoodOpen : Batch → Type 0
  GoodOpen b =
      ((due : ℕ) × (b.timeout ≡ some (lock_at due)))
      × (b.in_flight ≡ none)
      × (b.retries ≡ 0)
      × (length b.records ≤ opts.max_record_count)

  -- A pending batch waits for its insert timer, or for the insert of all of its records.
  abbrev pub Waits : Batch → Type 0
  Waits b =
      ((due : ℕ) × (b.timeout ≡ some (insert_at due)) × (b.in_flight ≡ none))
      ⊎ ((b.timeout ≡ none) × (b.in_flight ≡ some b.records))

  abbrev pub GoodPending : Batch → Type 0
  GoodPending b =
      Waits b × (b.retries ≤ opts.max_retries) × (length b.records ≤ opts.max_record_count)

  -- A batch that was cleared by `stop`: its insert is awaited, or its timer is set.
  abbrev pub GoodDetached : Bool → Batch → Type 0
  GoodDetached stopped b =
      (stopped ≡ true) × (b.records ≡ []) × ((b.in_flight ≡ none) ⊎ (b.timeout ≡ none))

  pub record IsValid (stopped : Bool) (m : BatchManager) (next_id : ℕ) : Type 0 where
    pub unique_buckets : Unique m.batches
    pub unique_ids : Unique m.pending_batches
    pub unique_detached : Unique m.detached
    pub own_ids : All (λ p. p.1.id ≡ p.0) m.pending_batches
    pub own_detached : All (λ p. p.1.id ≡ p.0) m.detached
    pub once : (i : ℕ) → live (is_id i) m ≤ 1
    pub unused : (i : ℕ) → next_id ≤ i → live (is_id i) m ≡ 0
    pub good_open : All (λ p. GoodOpen p.1) m.batches
    pub good_pending : All (λ p. GoodPending p.1) m.pending_batches
    pub good_detached : All (λ p. GoodDetached stopped p.1) m.detached

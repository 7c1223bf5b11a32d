-- ===== src/Storage/Batch.antt =====
-- packages/node/src/plugins/storage/Batch.ts. A batch holds the timer that is pending for it, and the
-- records of the insert that is awaited for it (a local variable of `insert` in BatchManager.ts).
use pombo_storage_node.Base.{
  ℕ, ◌+◌, ◌*◌, Bool, ◌||◌, Option, none, some, List, [], ◌∷◌, ◌++◌, if◌then◌else◌, length, leb, ltb,
  nat_eq,
}
use pombo_storage_node.Base.Text.{Text}
use pombo_storage_node.Base.Number.{Number}

pub record InsertRecord : Type 0 where
  pub stream_id : Text
  pub partition : ℕ
  pub timestamp : Number
  pub sequence_no : ℕ
  pub publisher_id : Text
  pub msg_chain_id : Text
  pub payload : Text
  pub stored_at : ℕ

pub record BatchOptions : Type 0 where
  pub max_size : ℕ
  pub max_record_count : ℕ
  pub close_timeout : ℕ
  pub max_retries : ℕ

pub data BatchState : Type 0 where
  opened locked pending inserted : BatchState

pub data Timer : Type 0 where
  lock_at insert_at : ℕ → Timer

-- A callback is known by a number.
pub record Batch : Type 0 where
  pub id : ℕ
  pub bucket_id : Text
  pub records : List InsertRecord
  pub size : ℕ
  pub retries : ℕ
  pub state : BatchState
  pub done_cbs : List ℕ
  pub timeout : Option Timer
  pub in_flight : Option (List InsertRecord)

module _ (opts : BatchOptions) where
  -- The constructor, where a TypeError is `none`.
  unfoldable pub create : ℕ → ℕ → Text → Option Batch
  create now id bucket_id =
      if nat_eq (length bucket_id) 0
        || nat_eq opts.max_size 0
        || nat_eq opts.max_record_count 0
        || nat_eq opts.close_timeout 0
        || nat_eq opts.max_retries 0
      then none
      else some (record {
        id = id;
        bucket_id = bucket_id;
        records = [];
        size = 0;
        retries = 0;
        state = opened;
        done_cbs = [];
        timeout = some (lock_at (now + opts.close_timeout));
        in_flight = none;
      })

  unfoldable pub reached_max_retries : Batch → Bool
  reached_max_retries b = nat_eq b.retries opts.max_retries

  unfoldable pub schedule_insert : ℕ → Batch → Batch
  schedule_insert now b = record b {
    timeout = some (insert_at (now + opts.close_timeout * b.retries));
  }

  -- The callback of the timer that `scheduleInsert` sets, up to the event that it emits.
  unfoldable pub become_pending : Batch → Batch
  become_pending b = record b {
    retries = if ltb b.retries opts.max_retries then b.retries + 1 else b.retries;
    state = pending;
    timeout = none;
  }

  unfoldable pub is_full : Batch → Bool
  is_full b = leb opts.max_size b.size || leb opts.max_record_count (length b.records)

unfoldable pub lock : Batch → Batch
lock b = record b { timeout = none; state = locked }

unfoldable pub clear : Batch → Batch
clear b = record b { timeout = none; records = []; state = inserted }

-- The callbacks that `done` calls, and the batch after them.
unfoldable pub done : Batch → List ℕ × Batch
done b = (b.done_cbs, record b { done_cbs = [] })

abbrev append_cb : Option ℕ → List ℕ → List ℕ
append_cb none cbs = cbs
append_cb (some cb) cbs = cbs ++ (cb ∷ [])

unfoldable pub push : InsertRecord → Option ℕ → Batch → Batch
push r done_cb b = record b {
  records = b.records ++ (r ∷ []);
  size = b.size + length r.payload;
  done_cbs = append_cb done_cb b.done_cbs;
}

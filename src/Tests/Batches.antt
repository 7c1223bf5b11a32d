-- ===== src/Tests/Batches.antt =====
-- Runs and concrete cases of packages/node/src/plugins/storage/BatchManager.ts.
use pombo_storage_node.Base.{
  ℕ, ◌+◌, ◌≡◌, ◌≤◌, ◌⊎◌, ◌↔◌, refl, true, false, none, some, List, [], ◌∷◌, length, All, sum_of,
  arith, if◌then◌else◌, leb, list_beq, eq_list, eq_nat,
}
use pombo_storage_node.Base.Dict.{lookup, insert, erase}
use pombo_storage_node.Base.Text.{Text, codes}
use pombo_storage_node.Base.Number.{int}
use pombo_storage_node.Storage.Batch.{
  Batch, BatchOptions, InsertRecord, lock_at, insert_at, opened, locked, pending, create,
  schedule_insert, become_pending, is_full, lock, done, push,
}
use pombo_storage_node.Storage.BatchManager.{
  BatchManager, no_batches, retries_later, started, idle, crashed, move_full_batch, lock_batch,
  make_room, open_batch, store, lock_timer, begin_insert, insert_timer, settle, insert_ended, stop,
  is_due,
}
use pombo_storage_node.Storage.BatchManager.Total.{total}
use pombo_storage_node.Storage.BatchManager.World.{
  fresh_world, Event, stores, lock_fires, insert_fires, insert_ends, stops, step, run, load, flight,
  lost_by, all_records, idle_records,
}
use pombo_storage_node.Storage.BatchManager.Records.{
  records_conserved, batches_bounded, open_batch_locks, pending_batch_starts,
}
use pombo_storage_node.Storage.BatchManager.Retries.{
  rounds, failing_batch_given_up, stopped_retry_crashes,
}

abbrev opts : BatchOptions
opts = record { max_size = 100; max_record_count = 2; close_timeout = 10; max_retries = 2 }

abbrev message : InsertRecord
message = record {
  stream_id = codes "s";
  partition = 0;
  timestamp = int 5;
  sequence_no = 0;
  publisher_id = codes "p";
  msg_chain_id = codes "c";
  payload = codes "hi";
  stored_at = 6;
}

abbrev bucket : Text
bucket = codes "b"

-- Three records: the first two fill a batch, whose first insert fails and whose second succeeds.
abbrev events : List Event
events =
    stores 0 bucket message none
    ∷ stores 1 bucket message none
    ∷ stores 2 bucket message (some 7)
    ∷ insert_fires 2 0
    ∷ insert_ends 3 0 false
    ∷ insert_fires 13 0
    ∷ insert_ends 14 0 true
    ∷ stops
    ∷ []

abbrev half : List Event
half = stores 0 bucket message none ∷ lock_fires 10 bucket ∷ []

abbrev size_of : InsertRecord → ℕ
size_of r = length r.payload

two_written : length (run opts fresh_world events).written ≡ 2
unfolding list_beq run step store make_room open_batch create is_full lock_batch move_full_batch
    lock schedule_insert push insert_timer is_due begin_insert become_pending insert_ended settle
    done lookup insert erase
two_written = refl

one_lost : length (run opts fresh_world events).lost ≡ 1
unfolding list_beq run step store make_room open_batch create is_full lock_batch move_full_batch
    lock schedule_insert push insert_timer is_due begin_insert become_pending insert_ended settle
    done lookup insert erase stop lost_by all_records idle_records
one_lost = refl

records_conserved_example :
    sum_of size_of (run opts fresh_world events).accepted
    ≡ total (load size_of) (run opts fresh_world events).manager.batches
      + total (load size_of) (run opts fresh_world events).manager.pending_batches
      + sum_of size_of (run opts fresh_world events).written
      + sum_of size_of (run opts fresh_world events).dropped
      + (if (run opts fresh_world events).stopped
          then total (flight size_of) (run opts fresh_world events).manager.detached
            + sum_of size_of (run opts fresh_world events).lost
          else 0)
records_conserved_example = records_conserved opts events size_of

batches_bounded_example :
    All (λ p. length p.1.records ≤ 2) (run opts fresh_world events).manager.batches
    × All
        (λ p. (p.1.retries ≤ 2) × (length p.1.records ≤ 2))
        (run opts fresh_world events).manager.pending_batches
batches_bounded_example = batches_bounded opts events

abbrev one : List Event
one = stores 0 bucket message none ∷ []

abbrev open_one : Batch
open_one = record {
  id = 0;
  bucket_id = bucket;
  records = message ∷ [];
  size = 2;
  retries = 0;
  state = opened;
  done_cbs = [];
  timeout = some (lock_at 10);
  in_flight = none;
}

one_open : lookup bucket (run opts fresh_world one).manager.batches ≡ some open_one
unfolding list_beq run step store make_room open_batch create push lookup insert
one_open = refl

open_batch_locks_example :
    (due : ℕ) × (open_one.timeout ≡ some (lock_at due))
    × (lookup bucket (lock_timer opts 10 bucket (run opts fresh_world one).manager).batches
        ≡ (if leb due 10 then none else some open_one))
open_batch_locks_example = open_batch_locks opts one 10 bucket open_one one_open

abbrev pending_one : Batch
pending_one = record open_one { state = locked; timeout = some (insert_at 10) }

one_pending : lookup 0 (run opts fresh_world half).manager.pending_batches ≡ some pending_one
unfolding list_beq run step store make_room open_batch create push lookup insert erase lock_timer
    lock_batch move_full_batch lock schedule_insert
one_pending = refl

pending_batch_starts_example :
    (pending_one.in_flight ≡ some pending_one.records)
    ⊎ ((due : ℕ) × (pending_one.timeout ≡ some (insert_at due))
        × ((insert_timer opts 12 0 (run opts fresh_world half).manager).0
            ≡ (if leb due 12 then started else idle)))
pending_batch_starts_example = pending_batch_starts opts half 12 0 pending_one one_pending

failing_batch_given_up_example :
    (rounds opts (10 ∷ 20 ∷ []) pending_one ≡ none) ↔ (2 ≤ pending_one.retries + 2)
failing_batch_given_up_example =
    failing_batch_given_up opts pending_one (10 ∷ 20 ∷ []) (omega arith)

abbrev awaiting : Batch
awaiting = record pending_one {
  timeout = none;
  retries = 1;
  state = pending;
  in_flight = some (message ∷ []);
}

abbrev busy : BatchManager
busy = record no_batches { pending_batches = (0, awaiting) ∷ [] }

stopped_retry_crashes_example :
    ((insert_ended opts 12 0 false (stop opts busy)).0 ≡ retries_later)
    × ((insert_timer opts 30 0 (insert_ended opts 12 0 false (stop opts busy)).1).0 ≡ crashed)
unfolding lookup
stopped_retry_crashes_example =
    stopped_retry_crashes opts busy 0 12 30 awaiting (message ∷ []) refl refl (omega arith)
      (omega arith)

-- ===== src/Tests/Stored.antt =====
-- A purge of two stored rows, and a watchdog through an outage.
use pombo_storage_node.Base.{
  ℕ, ◌≡◌, ◌≢◌, none, ◌↔◌, true, false, not, Option, some, List, [], ◌∷◌, keep, arith,
}
use pombo_storage_node.Base.Text.{Text, codes}
use pombo_storage_node.Base.Number.{Number, int}
use pombo_storage_node.Storage.IngestValidator.{Message, message}
use pombo_storage_node.Storage.PurgeEndpoint.{
  StoredRow, PurgeTarget, Outage, found_rows, no_outage, Context, purge_targets, Request, State,
}
use pombo_storage_node.Storage.PurgeEndpoint.Purges.{purged, purge_targets-eq}
use pombo_storage_node.Storage.CassandraWatchdog.{
  CassandraWatchdogOptions, answered, no_host_available,
}
use pombo_storage_node.Storage.CassandraWatchdog.Outages
use pombo_storage_node.Storage.CassandraWatchdog.Outages.{
  Check, LongOutage, run-unreachable_calls_iff,
}
use pombo_storage_node.Tests.Toy.{alice, chat, recover_alice, empty_gates, empty_verifier, claim_of}

abbrev pub one_bucket : Text → Number → Number → List Text
one_bucket s p t = codes "b1" ∷ []

abbrev pub row_at : ℕ → StoredRow
row_at t = record {
  stream_id = chat;
  partition = int 0;
  bucket_id = codes "b1";
  timestamp = int t;
  sequence_no = int 0;
  publisher_id = alice;
  msg_chain_id = codes "c";
  payload = codes "hello";
}

abbrev pub table : List StoredRow
table = row_at 7 ∷ row_at 8 ∷ []

abbrev pub target : PurgeTarget
target = record { timestamp = int 7; sequence_number = int 0 }

abbrev pub parsed : Text → Option Message
parsed payload = some (record {
  stream_id = chat;
  partition = 0;
  message_type = message;
  timestamp = 7;
  sequence_number = 0;
  payload = payload;
})

abbrev author : Context
author = record { admin = false; author_rule_applies = true }

purge_targets-eq_example :
    ((purge_targets one_bucket parsed recover_alice
        (λ i. no_outage)
        chat
        (int 0)
        author
        alice
        (target ∷ target ∷ [])
        table).0
      ≢ none)
    × ((purge_targets one_bucket parsed recover_alice
          (λ i. no_outage)
          chat
          (int 0)
          author
          alice
          (target ∷ target ∷ [])
          table).1
        ≡ keep
            (λ row. not (
              purged one_bucket parsed recover_alice chat
                (int 0)
                author
                alice
                table
                (target ∷ target ∷ [])
                row))
            table)
purge_targets-eq_example =
    purge_targets-eq one_bucket parsed recover_alice chat (int 0) author alice
      (target ∷ target ∷ []) table

abbrev pub purge_request : Request
purge_request = record {
  id = chat;
  partition = codes "0";
  targets = some (target ∷ []);
  claimed = claim_of alice;
}

abbrev pub before : State
before = record { gates = empty_gates; verifier = empty_verifier; table = table }

-- The row is found, and its deletion fails.
abbrev deletion_fails : ℕ → Outage
deletion_fails i = found_rows (some 0)

abbrev opts : CassandraWatchdogOptions
opts = record { check_interval_ms = 30; max_unreachable_ms = 120 }

abbrev outage : List Check
outage =
    (160, no_host_available)
    ∷ (90, no_host_available)
    ∷ (40, no_host_available)
    ∷ (10, answered)
    ∷ []

run-unreachable_calls_iff_example :
    (((Outages.run opts 0 outage).unreachable_calls ≡ 1) ↔ LongOutage opts 0 outage)
    × (((Outages.run opts 0 outage).unreachable_calls ≡ 0) ↔ (¬ LongOutage opts 0 outage))
run-unreachable_calls_iff_example =
    run-unreachable_calls_iff opts 0 outage
      (omega arith, (omega arith, (omega arith, (omega arith, tt))))

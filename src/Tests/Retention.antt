-- ===== src/Tests/Retention.antt =====
-- A sweep over one stream that is gone and one that is there.
use pombo_storage_node.Base.{
  ℕ, ◌≤◌, ◌≡◌, ◌⊎◌, refl, List, [], ◌∷◌, some, Result, ok, err, if◌then◌else◌, ◌==◌, eq_list,
  eq_nat, All, length, list_beq,
}
use pombo_storage_node.Base.Text.{Text, codes}
use pombo_storage_node.Base.Members.{has, remove}
use pombo_storage_node.Storage.Outside.{ErrorCode, stream_not_found}
use pombo_storage_node.Storage.RetentionScheduler.{
  RetentionConfig, StreamPart, Bucket, orphan_sweep, stream_ids, newest_of, collect_buckets,
  collect, attempt_from, classify,
}
use pombo_storage_node.Storage.RetentionScheduler.Orphans.{
  Guarded, SaidMissing, Old, orphan_sweep-Guarded,
}
use pombo_storage_node.Tests.Toy.{chat}

abbrev config : RetentionConfig
config = record {
  interval_hours = 24;
  grace_days = 7;
  abort_fraction_percent = 20;
  abort_min_streams = 10;
  bucket_delete_limit = 100;
  row_delete_limit = 3;
}

abbrev get_stream : Text → ℕ → Result ErrorCode (Unit {0})
get_stream sid attempt = if sid == chat then err stream_not_found else ok tt

abbrev bucket : Bucket
bucket = record { id = codes "b1"; date_create = some 5; max_ts = some 9 }

abbrev buckets_of : StreamPart → List Bucket
buckets_of part = bucket ∷ []

abbrev gone_part : StreamPart
gone_part = record { stream_id = chat; partition = 0 }

abbrev pairs : List StreamPart
pairs = gone_part ∷ record { stream_id = codes "other"; partition = 0 } ∷ []

sweeps_the_gone_one :
    orphan_sweep config 1000000000 get_stream buckets_of pairs
    ≡ record { part = gone_part; bucket = bucket } ∷ []
unfolding orphan_sweep stream_ids newest_of collect_buckets collect attempt_from classify has remove
    list_beq
sweeps_the_gone_one = refl

orphan_sweep-Guarded_example :
    (orphan_sweep config 1000000000 get_stream buckets_of pairs ≡ [])
    ⊎ (Guarded config 1000000000 get_stream buckets_of pairs
        × All
            (λ c. SaidMissing get_stream c.part.stream_id × Old config 1000000000 c)
            (orphan_sweep config 1000000000 get_stream buckets_of pairs)
        × (length (orphan_sweep config 1000000000 get_stream buckets_of pairs)
            ≤ config.bucket_delete_limit))
orphan_sweep-Guarded_example = orphan_sweep-Guarded config 1000000000 get_stream buckets_of pairs

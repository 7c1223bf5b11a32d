-- ===== src/Tests/Sweeps.antt =====
-- Concrete cases of the delay and the row sweep of
-- packages/node/src/plugins/storage/RetentionScheduler.ts, and of DeleteExpiredCmd.ts there.
use pombo_storage_node.Base.{
  false, if◌then◌else◌, leb, ltb, ℕ, ◌+◌, ◌≡◌, ◌≤◌, refl, Option, some, List, [], ◌∷◌, length,
  sum_of, arith, Result, ok, eq_list, eq_nat, list_beq,
}
use pombo_storage_node.Base.Text.{Text, codes}
use pombo_storage_node.Storage.Outside.{ErrorCode}
use pombo_storage_node.Storage.RetentionScheduler.{RetentionConfig, StreamPart, day_ms}
use pombo_storage_node.Storage.RetentionScheduler.RowSweep.{
  Row, storage_days_of, sweep_buckets, sweep_part, sweep_parts, row_sweep, row_sweep-Bounded,
}
use pombo_storage_node.Storage.DeleteExpiredCmd.{
  BucketRow, BucketInfo, Tables, Failures, fetch_streams_info, get_potentially_expired_buckets,
  filter_expired_buckets, is_expired, newest, delete_expired, run,
}
use pombo_storage_node.Storage.DeleteExpiredCmd.Expired.{IsStale, IsFinished, run-Bounded}

abbrev config : RetentionConfig
config = record {
  interval_hours = 24;
  grace_days = 7;
  abort_fraction_percent = 20;
  abort_min_streams = 10;
  bucket_delete_limit = 100;
  row_delete_limit = 1;
}

abbrev get_days : Text → Result ErrorCode (Option ℕ)
get_days stream_id = ok (some 1)

abbrev now_at : StreamPart → ℕ
now_at part = day_ms + 10

abbrev bucket_id : Text
bucket_id = codes "b"

abbrev buckets_by : StreamPart → ℕ → List Text
buckets_by part cutoff = bucket_id ∷ []

abbrev part : StreamPart
part = record { stream_id = codes "s"; partition = 0 }

abbrev row_at : ℕ → Row
row_at ts = record { part = part; bucket_id = bucket_id; ts = ts }

abbrev table : List Row
table = row_at 3 ∷ row_at 30 ∷ []

one_swept : (row_sweep config get_days now_at buckets_by (part ∷ []) table).table ≡ row_at 30 ∷ []
unfolding row_sweep sweep_parts sweep_part sweep_buckets storage_days_of list_beq
one_swept = refl

-- A weight that no row has.
row_sweep-Bounded_example :
    ((row_sweep config get_days now_at buckets_by (part ∷ []) table).rows_deleted
        + length (row_sweep config get_days now_at buckets_by (part ∷ []) table).table
      ≡ length table)
    × ((row_sweep config get_days now_at buckets_by (part ∷ []) table).rows_deleted ≤ 1)
    × (sum_of (λ row. 0) (row_sweep config get_days now_at buckets_by (part ∷ []) table).table
        ≡ sum_of (λ row. 0) table)
row_sweep-Bounded_example =
    row_sweep-Bounded config get_days now_at buckets_by (part ∷ []) table (λ row. 0)
      (λ row stale. refl)

abbrev no_failures : Failures
no_failures = record {
  finding = λ part'. false;
  filtering = λ info. false;
  deleting = λ info. false;
}

abbrev other : StreamPart
other = record { stream_id = codes "t"; partition = 0 }

abbrev old_bucket : BucketRow
old_bucket = record { part = part; id = bucket_id; date_create = 1 }

abbrev young_bucket : BucketRow
young_bucket = record { part = part; id = codes "c"; date_create = 50 }

abbrev buckets : List BucketRow
buckets = old_bucket ∷ young_bucket ∷ []

abbrev rows : List Row
rows = row_at 3 ∷ record (row_at 50) { part = other } ∷ row_at 30 ∷ []

abbrev after_run : ℕ → List BucketInfo × Tables
after_run now = run false 5 get_days no_failures (day_ms + 10) now (part ∷ []) buckets rows

-- The bucket holds a row that is young enough, until a day later.
bucket_stays : (after_run (day_ms + 20)).1 ≡ (buckets, rows)
unfolding run fetch_streams_info get_potentially_expired_buckets filter_expired_buckets is_expired
    newest delete_expired storage_days_of list_beq
bucket_stays = refl

bucket_expires :
    (after_run (day_ms + 40)).1 ≡ (young_bucket ∷ [], record (row_at 50) { part = other } ∷ [])
unfolding run fetch_streams_info get_potentially_expired_buckets filter_expired_buckets is_expired
    newest delete_expired storage_days_of list_beq
bucket_expires = refl

-- Everything that is young enough counts.
abbrev young_rows : Row → ℕ
young_rows row = if ltb row.ts 40 then 0 else 1

abbrev young_buckets : BucketRow → ℕ
young_buckets row = if leb row.date_create 10 then 0 else 1

one_day :
    (part' : StreamPart) (days : ℕ)
    → storage_days_of get_days part'.stream_id ≡ some days
    → days ≡ 1
unfolding storage_days_of
one_day part' days h = ground (arith, h)

stale_weightless : (row : Row) → IsStale get_days (day_ms + 40) row → young_rows row ≡ 0
stale_weightless row (days, known, old) = ground (arith, one_day row.part days known, old)

finished_weightless :
    (row : BucketRow)
    → IsFinished get_days (day_ms + 10) (day_ms + 40) buckets rows row
    → young_buckets row ≡ 0
finished_weightless row (id, days, (known, old, listed, rest)) =
    ground (arith, one_day row.part days known, old)

run-Bounded_example :
    (length (after_run (day_ms + 40)).0 ≤ 5)
    × (sum_of young_buckets (after_run (day_ms + 40)).1.0 ≡ sum_of young_buckets buckets)
    × (sum_of young_rows (after_run (day_ms + 40)).1.1 ≡ sum_of young_rows rows)
    × (◌≡◌ {A = Tables} (buckets, rows) (buckets, rows))
run-Bounded_example =
    run-Bounded get_days false 5 (day_ms + 10) (day_ms + 40) no_failures (part ∷ []) buckets rows
      young_buckets young_rows finished_weightless stale_weightless

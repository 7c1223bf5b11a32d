-- ===== src/Storage/DeleteExpiredCmd.antt =====
-- packages/node/src/plugins/storage/DeleteExpiredCmd.ts, on the rows of `bucket` and of `stream_data`.
-- What the chain says of a stream, which queries fail, and the clock where the buckets are looked for
-- and where they are filtered are parameters; nothing is written in between.
pub mod Deletions
pub mod Expired
use pombo_storage_node.Base.{
  ℕ, zero, suc, ◌+◌, ◌*◌, Bool, true, false, not, ◌&&◌, Option, none, some, List, [], ◌∷◌, ◌++◌,
  keep, max, if◌then◌else◌, leb, ltb, nat_eq, Result, ◌==◌, eq_list, eq_nat,
}
use pombo_storage_node.Base.Text.{Text}
use pombo_storage_node.Storage.Outside.{ErrorCode}
use pombo_storage_node.Storage.RetentionScheduler.{StreamPart, day_ms}
use pombo_storage_node.Storage.RetentionScheduler.RowSweep.{Row, storage_days_of}

pub record StreamPartInfo : Type 0 where
  pub part : StreamPart
  pub storage_days : ℕ

pub record BucketRow : Type 0 where
  pub part : StreamPart
  pub id : Text
  pub date_create : ℕ

pub record BucketInfo : Type 0 where
  pub part : StreamPart
  pub bucket_id : Text
  pub date_create : ℕ
  pub storage_days : ℕ

abbrev pub is_part : StreamPart → StreamPart → Bool
is_part a b = (a.stream_id == b.stream_id) && nat_eq a.partition b.partition

unfoldable pub fetch_streams_info :
    (Text → Result ErrorCode (Option ℕ)) → List StreamPart → List StreamPartInfo
unfolding storage_days_of
fetch_streams_info get_days [] = []
fetch_streams_info get_days (part ∷ streams) =
    let rest = fetch_streams_info get_days streams in
    elim (storage_days_of get_days part.stream_id) [
      | none ↦ rest
      | some storage_days ↦ record { part = part; storage_days = storage_days } ∷ rest
    ]

abbrev pub info_of : ℕ → BucketRow → BucketInfo
info_of storage_days row = record {
  part = row.part;
  bucket_id = row.id;
  date_create = row.date_create;
  storage_days = storage_days;
}

abbrev infos_of : ℕ → List BucketRow → List BucketInfo
infos_of storage_days [] = []
infos_of storage_days (row ∷ rows) = info_of storage_days row ∷ infos_of storage_days rows

unfoldable pub get_potentially_expired_buckets :
    ℕ → (StreamPart → Bool) → List BucketRow → List StreamPartInfo → List BucketInfo
get_potentially_expired_buckets now fails buckets [] = []
get_potentially_expired_buckets now fails buckets (info ∷ infos) =
    let rest = get_potentially_expired_buckets now fails buckets infos in
    let found = infos_of info.storage_days (
      keep (λ b. is_part b.part info.part && leb (b.date_create + info.storage_days * day_ms) now)
        buckets) in
    if fails info.part then rest else found ++ rest

abbrev pub take : ℕ → List BucketInfo → List BucketInfo
take zero infos = []
take (suc n) [] = []
take (suc n) (info ∷ infos) = info ∷ take n infos

-- The rows of a bucket, and the newest time among them.
abbrev pub in_bucket : BucketInfo → Row → Bool
in_bucket info row = is_part row.part info.part && (row.bucket_id == info.bucket_id)

abbrev later : Option ℕ → ℕ → ℕ
later none t = t
later (some m) t = max m t

unfoldable pub newest : BucketInfo → List Row → Option ℕ
newest info [] = none
newest info (row ∷ rows) =
    let rest = newest info rows in if in_bucket info row then some (later rest row.ts) else rest

unfoldable pub is_expired : ℕ → (BucketInfo → Bool) → List Row → BucketInfo → Bool
unfolding newest
is_expired now fails table info = not (fails info) && (elim (newest info table) [
  | none ↦ true
  | some m ↦ ltb (m + info.storage_days * day_ms) now
])

unfoldable pub filter_expired_buckets :
    ℕ → (BucketInfo → Bool) → List Row → List BucketInfo → List BucketInfo
unfolding is_expired
filter_expired_buckets now fails table infos = keep (is_expired now fails table) infos

-- The row of `bucket` that a batch deletes: the one that was created at the time of the bucket.
abbrev pub is_row_of : BucketInfo → BucketRow → Bool
is_row_of info row = is_part row.part info.part && nat_eq row.date_create info.date_create

-- The rows of `bucket` and of `stream_data`.
abbrev pub Tables : Type 0
Tables = List BucketRow × List Row

-- One batch for each bucket, on both tables; one that fails leaves both as they are.
unfoldable pub delete_expired :
    (BucketInfo → Bool) → List BucketInfo → List BucketRow → List Row → Tables
delete_expired fails [] buckets table = (buckets, table)
delete_expired fails (info ∷ infos) buckets table =
    let left : Tables = (
      keep (λ row. not (is_row_of info row)) buckets,
      keep (λ row. not (in_bucket info row)) table,
    ) in
    let failed = delete_expired fails infos buckets table in
    let deleted = delete_expired fails infos left.0 left.1 in if fails info then failed else deleted

pub record Failures : Type 0 where
  pub finding : StreamPart → Bool
  pub filtering : BucketInfo → Bool
  pub deleting : BucketInfo → Bool

-- The buckets that are taken for expired, and the rows that are left in `bucket` and `stream_data`.
unfoldable pub run :
    Bool
    → ℕ
    → (Text → Result ErrorCode (Option ℕ))
    → Failures
    → ℕ
    → ℕ
    → List StreamPart
    → List BucketRow
    → List Row
    → List BucketInfo × Tables
unfolding fetch_streams_info get_potentially_expired_buckets filter_expired_buckets delete_expired
run dry_run bucket_limit get_days failures earlier now streams buckets table =
    let potential =
      get_potentially_expired_buckets earlier failures.finding buckets
        (fetch_streams_info get_days streams) in
    let expired =
      filter_expired_buckets now failures.filtering table (take bucket_limit potential) in
    if dry_run
    then (expired, (buckets, table))
    else (expired, delete_expired failures.deleting expired buckets table)

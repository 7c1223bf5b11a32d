-- ===== src/Storage/RetentionScheduler.antt =====
-- packages/node/src/plugins/storage/RetentionScheduler.ts: the sweep of the data of streams that were
-- deleted on chain. The answers of `getStream` to its attempts and the rows of the tables are
-- parameters. The fractions are compared exactly, as products.
pub mod Orphans
pub mod RowSweep
pub mod Delay
use pombo_storage_node.Base.{
  ℕ, zero, suc, ◌+◌, ◌*◌, Bool, true, false, ◌&&◌, Option, none, some, List, [], ◌∷◌, ◌++◌,
  if◌then◌else◌, leb, ltb, nat_eq, length, map, keep, any, Result, ok, err, ◌==◌, eq_list, eq_nat,
}
use pombo_storage_node.Base.Text.{Text}
use pombo_storage_node.Base.Members.{has, remove}
use pombo_storage_node.Storage.Outside.{ErrorCode, unknown}
use pombo_storage_node.Storage.PomboGates.{is_not_found}

abbrev pub day_ms : ℕ
day_ms = 24 * 60 * 60 * 1000

pub record RetentionConfig : Type 0 where
  pub interval_hours : ℕ
  pub grace_days : ℕ
  pub abort_fraction_percent : ℕ
  pub abort_min_streams : ℕ
  pub bucket_delete_limit : ℕ
  pub row_delete_limit : ℕ

pub data StreamState : Type 0 where
  exists_on_chain deleted : StreamState
  error : ErrorCode → StreamState

pub record StreamPart : Type 0 where
  pub stream_id : Text
  pub partition : ℕ

-- A row of `bucket`, with the newest time of the messages in it.
pub record Bucket : Type 0 where
  pub id : Text
  pub date_create : Option ℕ
  pub max_ts : Option ℕ

pub record Candidate : Type 0 where
  pub part : StreamPart
  pub bucket : Bucket

-- The attempts that are left, from the number of the next one on.
unfoldable pub attempt_from : (ℕ → Result ErrorCode (Unit {0})) → ErrorCode → ℕ → ℕ → StreamState
attempt_from get_stream code attempt zero = error code
attempt_from get_stream code attempt (suc left) = elim (get_stream attempt) [
  | ok _ ↦ exists_on_chain
  | err e ↦ elim (is_not_found e) [
    | true ↦ deleted
    | false ↦ attempt_from get_stream e (suc attempt) left
  ]
]

unfoldable pub classify : (Text → ℕ → Result ErrorCode (Unit {0})) → Text → StreamState
unfolding attempt_from
classify get_stream stream_id = attempt_from (get_stream stream_id) unknown 0 3

abbrev pub is_error : StreamState → Bool
is_error (error code) = true
is_error _ = false

abbrev pub is_deleted : StreamState → Bool
is_deleted deleted = true
is_deleted _ = false

-- `[...new Set(pairs.map((p) => p.streamId))]`.
unfoldable pub stream_ids : List StreamPart → List Text
stream_ids [] = []
stream_ids (p ∷ pairs) = p.stream_id ∷ remove p.stream_id (stream_ids pairs)

unfoldable pub newest_of : Bucket → ℕ
newest_of bucket = elim bucket.max_ts [
  | some ts ↦ ts
  | none ↦ elim bucket.date_create [ some created ↦ created | none ↦ 0 ]
]

module _ (config : RetentionConfig) (now : ℕ) where
  -- The inner loop; it breaks at the limit.
  unfoldable pub collect_buckets : StreamPart → List Bucket → List Candidate → List Candidate
  unfolding newest_of
  collect_buckets part [] candidates = candidates
  collect_buckets part (bucket ∷ buckets) candidates =
      let more =
        collect_buckets part buckets
          (candidates ++ (record { part = part; bucket = bucket } ∷ [])) in
      let same = collect_buckets part buckets candidates in
      if leb config.bucket_delete_limit (length candidates)
      then candidates
      else if leb (newest_of bucket + config.grace_days * day_ms) now
      then more
      else same

  unfoldable pub collect :
      (StreamPart → List Bucket) → List StreamPart → List Candidate → List Candidate
  unfolding collect_buckets
  collect buckets_of [] candidates = candidates
  collect buckets_of (part ∷ parts) candidates =
      collect buckets_of parts (collect_buckets part (buckets_of part) candidates)

  -- The candidates, whose buckets and data the sweep then deletes.
  unfoldable pub orphan_sweep :
      (Text → ℕ → Result ErrorCode (Unit {0}))
      → (StreamPart → List Bucket)
      → List StreamPart
      → List Candidate
  unfolding stream_ids classify collect
  orphan_sweep get_stream buckets_of pairs =
      let ids = stream_ids pairs in
      let gone = keep (λ sid. is_deleted (classify get_stream sid)) ids in
      if any (λ sid. is_error (classify get_stream sid)) ids
      then []
      else if leb config.abort_min_streams (length ids)
          && ltb (config.abort_fraction_percent * length ids) (100 * length gone)
      then []
      else if nat_eq (length gone) 0
      then []
      else collect buckets_of (keep (λ p. has p.stream_id gone) pairs) []

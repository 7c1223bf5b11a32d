-- ===== src/Storage/BucketManager.antt =====
-- packages/node/src/plugins/storage/BucketManager.ts: which bucket a message goes to, and which
-- buckets a query reads. A heap (of the package `heap`) is what `toArray` gives of it, in an order
-- that the package chooses. The bucket objects are kept by their ids, and a heap holds ids. The
-- check for full buckets and the writing of buckets are left out.
pub mod Found
use pombo_storage_node.Base.{
  ℕ, ◌+◌, Bool, true, false, not, ◌&&◌, Option, none, some, List, [], ◌∷◌, ◌++◌, map, keep,
  if◌then◌else◌, leb, ltb, nat_eq, min, ◌==◌, eq_list, eq_nat,
}
use pombo_storage_node.Base.Text.{Text}
use pombo_storage_node.Base.Number.{decimal}
use pombo_storage_node.Base.Dict.{lookup, insert, erase}
use pombo_storage_node.Storage.Bucket.{
  Bucket, set_stored, is_almost_full, increment_bucket, is_alive,
}

pub record StreamPartState : Type 0 where
  pub stream_id : Text
  pub partition : ℕ
  pub buckets : List Text
  pub min_timestamp : Option ℕ

pub record BucketManager : Type 0 where
  pub stream_parts : List (Text × StreamPartState)
  pub buckets : List (Text × Bucket)

unfoldable pub to_key : Text → ℕ → Text
to_key stream_id partition = stream_id ++ (b'-' ∷ decimal partition)

-- The objects of a heap.
unfoldable pub to_array : List (Text × Bucket) → List Text → List Bucket
unfolding lookup
to_array objects [] = []
to_array objects (id ∷ ids) =
    let rest = to_array objects ids in elim (lookup id objects) [ none ↦ rest | some b ↦ b ∷ rest ]

-- The first bucket begun by the time.
unfoldable pub first_begun : ℕ → List Bucket → Option Bucket
first_begun timestamp [] = none
first_begun timestamp (b ∷ others) =
    let rest = first_begun timestamp others in if leb b.date_create timestamp then some b else rest

-- The search through the array of the heap, whose first member is what `peek` gives.
unfoldable pub find_bucket : ℕ → List Bucket → Option Bucket
unfolding first_begun is_almost_full
find_bucket timestamp [] = none
find_bucket timestamp (latest_bucket ∷ others) =
    if not (is_almost_full latest_bucket) && leb latest_bucket.date_create timestamp
    then some latest_bucket
    else if ltb timestamp latest_bucket.date_create
    then first_begun timestamp others
    else none

abbrev id_of : Option Bucket → Option Text
id_of none = none
id_of (some b) = some b.id

unfoldable pub find_bucket_id : Text → ℕ → BucketManager → Option Text
unfolding find_bucket to_array lookup
find_bucket_id key timestamp m = elim (lookup key m.stream_parts) [
  | none ↦ none
  | some stream ↦ id_of (find_bucket timestamp (to_array m.buckets stream.buckets))
]

abbrev earlier : Option ℕ → ℕ → ℕ
earlier none timestamp = timestamp
earlier (some t) timestamp = min t timestamp

unfoldable pub get_bucket_id : Text → ℕ → ℕ → BucketManager → Option Text × BucketManager
unfolding find_bucket_id to_key lookup insert
get_bucket_id stream_id partition timestamp m =
    let key = to_key stream_id partition in
    elim (lookup key m.stream_parts) [
      | some stream ↦ elim (find_bucket_id key timestamp m) [
        | some id ↦ (some id, m)
        | none ↦ (
          none,
          record m {
            stream_parts =
                insert key
                  (record stream { min_timestamp = some (earlier stream.min_timestamp timestamp) })
                  m.stream_parts;
          },
        )
      ]
      | none ↦ (
        none,
        record m {
          stream_parts =
              insert key
                (record {
                  stream_id = stream_id;
                  partition = partition;
                  buckets = [];
                  min_timestamp = some timestamp;
                })
                m.stream_parts;
        },
      )
    ]

unfoldable pub increment : ℕ → Text → ℕ → BucketManager → BucketManager
unfolding increment_bucket lookup insert
increment now bucket_id size m = elim (lookup bucket_id m.buckets) [
  | none ↦ m
  | some b ↦ record m { buckets = insert bucket_id (increment_bucket now size b) m.buckets }
]

-- The rows of `bucket` for a stream part, which the queries give latest first.
abbrev pub latest : List Bucket → List Bucket
latest [] = []
latest (b ∷ rows) = b ∷ []

-- `none` is the TypeError.
unfoldable pub get_buckets_by_timestamp : Option ℕ → Option ℕ → List Bucket → Option (List Bucket)
get_buckets_by_timestamp none none rows = none
get_buckets_by_timestamp none (some to) rows = some (keep (λ b. leb b.date_create to) rows)
get_buckets_by_timestamp (some from) none rows =
    some
      (keep (λ b. ltb from b.date_create) rows ++ latest (keep (λ b. leb b.date_create from) rows))
get_buckets_by_timestamp (some from) (some to) rows = some (
    keep (λ b. ltb from b.date_create && leb b.date_create to) rows
    ++ latest (keep (λ b. leb b.date_create from) rows))

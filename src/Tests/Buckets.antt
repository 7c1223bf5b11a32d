-- ===== src/Tests/Buckets.antt =====
-- Concrete cases of packages/node/src/plugins/storage/BucketManager.ts.
use pombo_storage_node.Base.{
  ℕ, ◌≡◌, ◌≤◌, ◌<◌, ◌⊎◌, ◌↔◌, refl, true, false, none, some, List, [], ◌∷◌, All, arith,
}
use pombo_storage_node.Base.Text.{Text, codes}
use pombo_storage_node.Storage.Bucket.{Bucket, is_almost_full, check_size}
use pombo_storage_node.Storage.BucketManager.{first_begun, find_bucket, get_buckets_by_timestamp}
use pombo_storage_node.Storage.BucketManager.Found.{
  In, find_bucket-eq-none_iff, get_buckets_by_timestamp-Covers,
}

abbrev bucket : Text → ℕ → Bucket
bucket id date_create = record {
  id = id;
  stream_id = codes "s";
  partition = 0;
  size = 10;
  records = 1;
  date_create = date_create;
  max_size = 100;
  max_record_count = 10;
  keep_alive_seconds = 60;
  ttl = 60000;
  stored = false;
}

abbrev first_bucket : Bucket
first_bucket = bucket (codes "a") 10

abbrev second_bucket : Bucket
second_bucket = bucket (codes "b") 20

abbrev third_bucket : Bucket
third_bucket = bucket (codes "c") 30

abbrev latest_first : List Bucket
latest_first = third_bucket ∷ second_bucket ∷ first_bucket ∷ []

-- An array that a heap may have: the latest first, the others in the order of the heap.
abbrev heap_order : List Bucket
heap_order = third_bucket ∷ first_bucket ∷ second_bucket ∷ []

-- In the order of the heap an older bucket than the right one is found.
found_first : find_bucket 25 heap_order ≡ some first_bucket
unfolding find_bucket first_begun is_almost_full check_size
found_first = refl

find_bucket-eq-none_iff_example : (find_bucket 5 latest_first ≡ none) ↔ (
    (third_bucket.date_create ≤ 5) × (is_almost_full third_bucket ≡ true)
    ⊎ All (λ c. 5 < c.date_create) latest_first)
find_bucket-eq-none_iff_example =
    find_bucket-eq-none_iff 5 third_bucket (second_bucket ∷ first_bucket ∷ [])

abbrev read : List Bucket
read = third_bucket ∷ second_bucket ∷ []

first_at : first_begun 25 latest_first ≡ some second_bucket
unfolding first_begun
first_at = refl

read_both : get_buckets_by_timestamp (some 22) (some 35) latest_first ≡ some read
unfolding get_buckets_by_timestamp
read_both = refl

get_buckets_by_timestamp-Covers_example : In second_bucket read
get_buckets_by_timestamp-Covers_example =
    get_buckets_by_timestamp-Covers 22 35 25 latest_first read second_bucket (omega arith)
      (omega arith) first_at read_both

-- ===== src/Storage/Bucket.antt =====
-- packages/node/src/plugins/storage/Bucket.ts. Times are in milliseconds, and the shares of the sizes
-- are compared exactly, as products. Sizes and partitions are natural numbers.
use pombo_storage_node.Base.{
  ℕ, ◌+◌, ◌-◌, ◌*◌, Bool, true, false, ◌||◌, Option, none, some, length, if◌then◌else◌, leb, nat_eq,
}
use pombo_storage_node.Base.Text.{Text}

pub record Bucket : Type 0 where
  pub id : Text
  pub stream_id : Text
  pub partition : ℕ
  pub size : ℕ
  pub records : ℕ
  pub date_create : ℕ
  pub max_size : ℕ
  pub max_record_count : ℕ
  pub keep_alive_seconds : ℕ
  pub ttl : ℕ
  pub stored : Bool

unfoldable pub update_ttl : ℕ → Bucket → Bucket
update_ttl now b = record b { ttl = now + b.keep_alive_seconds * 1000 }

-- The constructor, where an error is `none`.
unfoldable pub create : ℕ → Text → Text → ℕ → ℕ → ℕ → ℕ → ℕ → ℕ → ℕ → Option Bucket
unfolding update_ttl
create now id stream_id partition size records date_create max_size max_record_count
      keep_alive_seconds =
    if nat_eq (length id) 0
      || nat_eq (length stream_id) 0
      || nat_eq max_size 0
      || nat_eq max_record_count 0
      || nat_eq keep_alive_seconds 0
    then none
    else some (
        update_ttl now (record {
          id = id;
          stream_id = stream_id;
          partition = partition;
          size = size;
          records = records;
          date_create = date_create;
          max_size = max_size;
          max_record_count = max_record_count;
          keep_alive_seconds = keep_alive_seconds;
          ttl = now;
          stored = false;
        }))

unfoldable pub set_stored : Bucket → Bucket
set_stored b = record b { stored = true }

unfoldable pub check_size : ℕ → Bucket → Bool
check_size percent_deduction b =
    leb (b.max_size * (100 - percent_deduction)) (b.size * 100)
    || leb (b.max_record_count * (100 - percent_deduction)) (b.records * 100)

unfoldable pub is_almost_full : Bucket → Bool
unfolding check_size
is_almost_full b = check_size 30 b

unfoldable pub increment_bucket : ℕ → ℕ → Bucket → Bucket
unfolding update_ttl
increment_bucket now size b =
    update_ttl now (record b { size = b.size + size; records = b.records + 1; stored = false })

unfoldable pub is_alive : ℕ → Bucket → Bool
is_alive now b = leb now b.ttl

-- ===== src/Storage/StoredEndpoint/Oracle.antt =====
-- One who may not read the stream learns nothing of rows that are not their own.
use pombo_storage_node.Base.{
  ◌≡◌, refl, inl, inr, Bool, true, false, Option, List, [], ◌∷◌, map, if◌then◌else◌, length, ltb,
  all, All, All-keep, ◌==◌, eq_list, eq_nat, arith, Bool-cases,
}
use pombo_storage_node.Base.Text.{Text}
use pombo_storage_node.Base.Number.{Number}
use pombo_storage_node.Utils.EthereumAddress.{to_lower_case}
use pombo_storage_node.Storage.IngestValidator.{Message}
use pombo_storage_node.Storage.PurgeEndpoint.{StoredRow, PurgeTarget, get_messages, is_author}
use pombo_storage_node.Storage.StoredEndpoint.{
  StoredResult, present, absent, signed_by, get_row_keys, publishers_of, is_present, stored_results,
}

all_none :
    {A : Type 0} (p : A → Bool) (xs : List A)
    → All (λ x. p x ≡ false) xs
    → ltb 0 (length xs) ≡ true
    → all p xs ≡ false
all_none p [] h long = cc long
all_none p (x ∷ xs) (no_first, h) long = rw no_first

All-over :
    {A B : Type 0} (Q : B → Type 0) (f : A → B) (xs : List A)
    → All (λ x. Q (f x)) xs
    → All Q (map f xs)
All-over Q f [] h = tt
All-over Q f (x ∷ xs) (q, h) = (q, All-over Q f xs h)

All-weaken :
    {A : Type 0} (P Q : A → Type 0) → ((x : A) → P x → Q x) → (xs : List A) → All P xs → All Q xs
All-weaken P Q f [] h = tt
All-weaken P Q f (x ∷ xs) (p, h) = (f x p, All-weaken P Q f xs h)

module _ (to_stream_message : Text → Option Message) (recover : Message → Option Text)
    (signer : Text) where
  -- A row that the signer neither published nor signed.
  abbrev pub Foreign : StoredRow → Type 0
  Foreign row =
      ((to_lower_case row.publisher_id == to_lower_case signer) ≡ false)
      × (is_author to_stream_message recover (row ∷ []) signer ≡ false)

  signed_by-Foreign :
      (rows : List StoredRow)
      → All Foreign rows
      → signed_by to_stream_message recover rows signer ≡ false
  unfolding signed_by is_author
  signed_by-Foreign [] h = refl
  signed_by-Foreign (row ∷ rows) ((p, a), h) = ground arith

  module _ (buckets_by_timestamp : Text → Number → Number → List Text)
      (buckets_between : Text → Number → List Number → List Text) (stream_id : Text)
      (partition : Number) where
    is_present-Foreign :
        (table keys : List StoredRow) (target : PurgeTarget)
        → All Foreign table
        → All Foreign keys
        → is_present buckets_by_timestamp buckets_between to_stream_message recover stream_id
            partition false signer table keys target
          ≡ false
    unfolding is_present publishers_of get_messages
    is_present-Foreign table keys target foreign foreign_keys =
        elim (Bool-cases (
          ltb 0 (
            length (
              publishers_of buckets_by_timestamp buckets_between to_stream_message recover stream_id
                partition keys target)))) [
                  | inr none_there ↦ rw (is_present, none_there)
                  | inl some_there ↦ rw (
                    is_present,
                    some_there,
                    strangers some_there,
                    signed_by-Foreign
                        (get_messages buckets_by_timestamp stream_id partition target table)
                        (All-keep Foreign _ table foreign),
                  )
                ]
      where
        strangers :
            ltb 0 (
                length (
                  publishers_of buckets_by_timestamp buckets_between to_stream_message recover
                    stream_id partition keys target))
              ≡ true
            → all
                (λ publisher. publisher == to_lower_case signer)
                (publishers_of buckets_by_timestamp buckets_between to_stream_message recover
                  stream_id partition keys target)
              ≡ false
        strangers some_there =
            all_none (λ publisher. publisher == to_lower_case signer) _
              (All-over (λ publisher. (publisher == to_lower_case signer) ≡ false)
                (λ (key : StoredRow). to_lower_case key.publisher_id) _
                (All-weaken Foreign
                  (λ key. (to_lower_case key.publisher_id == to_lower_case signer) ≡ false)
                  (λ key f. f.0) _ (All-keep Foreign _ keys foreign_keys)))
              some_there

    answers_absent :
        (table keys : List StoredRow) (targets : List PurgeTarget)
        → All Foreign table
        → All Foreign keys
        → map {B = PurgeTarget × StoredResult}
            (λ target. (
              target,
              if is_present buckets_by_timestamp buckets_between to_stream_message recover stream_id
                    partition false signer table keys target
                  then present
                  else absent,
            ))
            targets
          ≡ map {B = PurgeTarget × StoredResult} (λ target. (target, absent)) targets
    answers_absent table keys [] foreign foreign_keys = refl
    answers_absent table keys (target ∷ targets) foreign foreign_keys = rw (
      is_present-Foreign table keys target foreign foreign_keys,
      answers_absent table keys targets foreign foreign_keys,
    )

    -- One who may not read the stream, and neither published nor signed any row of the table, is
    -- told that each target is absent, whatever the table holds.
    pub stored_results-absent :
        (table : List StoredRow) (targets : List PurgeTarget)
        → All Foreign table
        → stored_results buckets_by_timestamp buckets_between to_stream_message recover stream_id
            partition false signer table targets
          ≡ map {B = PurgeTarget × StoredResult} (λ target. (target, absent)) targets
    unfolding stored_results get_row_keys
    stored_results-absent table targets foreign =
        answers_absent table _ targets foreign (All-keep Foreign _ table foreign)

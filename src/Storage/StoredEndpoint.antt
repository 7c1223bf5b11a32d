-- ===== src/Storage/StoredEndpoint.antt =====
-- packages/node/src/plugins/storage/storedEndpoint.ts, with the query `getRowKeys` of Storage.ts. The
-- lookup of the buckets between two times is a parameter, as those of the purge endpoint are.
pub mod Entitled
pub mod Oracle
use pombo_storage_node.Base.{
  ℕ, Bool, true, false, ◌&&◌, ◌||◌, not, Option, none, some, List, [], ◌∷◌, map, if◌then◌else◌,
  length, ltb, nat_eq, all, keep, Result, ok, err, ◌==◌, eq_list, eq_nat,
}
use pombo_storage_node.Base.Text.{Text, codes}
use pombo_storage_node.Base.Members.{has}
use pombo_storage_node.Base.Number.{Number, eq_number, is_nan, parse_int}
use pombo_storage_node.Utils.EthereumAddress.{to_lower_case}
use pombo_storage_node.Storage.Outside.{Outside}
use pombo_storage_node.Storage.PomboGates.{PomboGates, can_read, was_last_seen_public}
use pombo_storage_node.Storage.SignedRequest.{SignedRequestError, verify}
use pombo_storage_node.Storage.IngestValidator.{Message}
use pombo_storage_node.Storage.PurgeEndpoint.{
  StoredRow, PurgeTarget, target_to_line, get_messages, is_author, checked_targets, Request, State,
}

pub data StoredResult : Type 0 where
  present absent : StoredResult

pub data Response : Type 0 where
  bad_partition_400 bad_targets_400 unavailable_503 : Response
  unauthorized_401 : SignedRequestError → Response
  results_200 : List (PurgeTarget × StoredResult) → Response

unfoldable pub signed_by :
    (Text → Option Message) → (Message → Option Text) → List StoredRow → Text → Bool
unfolding is_author
signed_by to_stream_message recover rows signer =
    ltb 0 (length rows) && is_author to_stream_message recover rows signer

-- Whether the signer may know of any row, and the gates after the question; none is a refusal.
unfoldable pub reads : Outside → Text → Text → PomboGates → Option Bool × PomboGates
reads out stream_id signer g =
    let (r, g') = can_read out stream_id signer g in
    elim r [
      | ok allowed ↦ (some allowed, g')
      | err e ↦ (if was_last_seen_public stream_id g' then some true else none, g')
    ]

module _ (buckets_by_timestamp : Text → Number → Number → List Text)
    (buckets_between : Text → Number → List Number → List Text)
    (to_stream_message : Text → Option Message) (recover : Message → Option Text) (stream_id : Text)
    (partition : Number) where
  -- `WHERE stream_id = ? AND partition = ? AND bucket_id IN ? AND ts IN ?`.
  unfoldable pub get_row_keys : List Number → List StoredRow → List StoredRow
  get_row_keys timestamps table =
      keep
        (λ row.
          row.stream_id == stream_id
          && row.partition == partition
          && has row.bucket_id (buckets_between stream_id partition timestamps)
          && has row.timestamp timestamps)
        table

  -- The publishers of the keys at a target.
  unfoldable pub publishers_of : List StoredRow → PurgeTarget → List Text
  publishers_of keys target =
      map (λ key. to_lower_case key.publisher_id)
        (keep
          (λ key. key.timestamp == target.timestamp && key.sequence_no == target.sequence_number)
          keys)

  unfoldable pub is_present : Bool → Text → List StoredRow → List StoredRow → PurgeTarget → Bool
  unfolding publishers_of signed_by
  is_present may signer table keys target =
      let publishers = publishers_of keys target in
      if ltb 0 (length publishers)
      then if may || all (λ publisher. publisher == to_lower_case signer) publishers
        then true
        else signed_by to_stream_message recover
            (get_messages buckets_by_timestamp stream_id partition target table) signer
      else false

  unfoldable pub stored_results :
      Bool → Text → List StoredRow → List PurgeTarget → List (PurgeTarget × StoredResult)
  unfolding get_row_keys is_present
  stored_results may signer table targets =
      let keys = get_row_keys (map (λ (t : PurgeTarget). t.timestamp) targets) table in
      map (λ target. (target, if is_present may signer table keys target then present else absent))
        targets

module _ (buckets_by_timestamp : Text → Number → Number → List Text)
    (buckets_between : Text → Number → List Number → List Text)
    (to_stream_message : Text → Option Message) (recover : Message → Option Text)
    (verify_message : Text → Text → Option Text) (out : Outside) where
  -- The handler once the signer of the request is known.
  unfoldable pub answer_signed : Text → Number → List PurgeTarget → Text → State → Response × State
  unfolding reads stored_results
  answer_signed stream_id partition targets signer s =
      let (may, gates) = reads out stream_id signer s.gates in
      elim may [
        | none ↦ (unavailable_503, record s { gates = gates })
        | some allowed ↦ (
          results_200 (
              stored_results buckets_by_timestamp buckets_between to_stream_message recover
                stream_id partition allowed signer s.table targets),
          record s { gates = gates },
        )
      ]

  unfoldable pub handler : Request → State → Response × State
  unfolding checked_targets target_to_line answer_signed
  handler req s =
      if is_nan (parse_int req.partition)
      then (bad_partition_400, s)
      else elim (checked_targets req.targets) [
        | none ↦ (bad_targets_400, s)
        | some targets ↦
            let (verified, verifier) =
              verify verify_message out.now s.verifier req.claimed (codes "stored") req.id
                (parse_int req.partition) (map target_to_line targets) in
            elim verified [
              | err e ↦ (unauthorized_401 e, record s { verifier = verifier })
              | ok signer ↦
                  answer_signed req.id (parse_int req.partition) targets signer
                    (record s { verifier = verifier })
            ]
      ]

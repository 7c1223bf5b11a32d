-- ===== src/Storage/PurgeEndpoint.antt =====
-- packages/node/src/plugins/storage/purgeEndpoint.ts, with the two queries of Storage.ts that it makes
-- (`getMessages`, `deleteMessage`) on the table `stream_data` as a list of rows. The lookup of the
-- buckets that a row may stand in, the parsing of a stored envelope and which queries fail are
-- parameters.
pub mod Rows
pub mod Losses
pub mod Rights
pub mod Purges
use pombo_storage_node.Base.{
  ℕ, zero, suc, Bool, true, false, ◌&&◌, ◌||◌, not, Option, none, some, List, [], ◌∷◌, ◌++◌, map,
  if◌then◌else◌, length, leb, nat_eq, all, any, keep, Result, ok, err, ◌==◌, eq_list, eq_nat,
}
use mathlib.Core.Option
use pombo_storage_node.Base.Text.{Text, codes}
use pombo_storage_node.Base.Members.{has}
use pombo_storage_node.Base.Number.{
  Number, nan, infinity, minus_infinity, int, below, eq_number, to_text, is_nan, parse_int,
}
use pombo_storage_node.Storage.Outside.{Outside, ErrorCode, user_delete}
use pombo_storage_node.Storage.PomboGates.{PomboGates, GateInfo, get_gate, is_moderator}
use pombo_storage_node.Storage.SignedRequest.{
  Claimed, SignedRequestError, SignedRequestVerifier, verify,
}
use pombo_storage_node.Storage.IngestValidator.{Message, get_message_signer}

abbrev pub max_targets : ℕ
max_targets = 100

-- A row of `stream_data`: its key and its payload.
pub record StoredRow : Type 0 where
  pub stream_id : Text
  pub partition : Number
  pub bucket_id : Text
  pub timestamp : Number
  pub sequence_no : Number
  pub publisher_id : Text
  pub msg_chain_id : Text
  pub payload : Text

-- A target of a request. What is no number, or a fraction, stands as NaN.
pub record PurgeTarget : Type 0 where
  pub timestamp : Number
  pub sequence_number : Number

abbrev is_integer : Number → Bool
is_integer (int n) = true
is_integer (below n) = true
is_integer _ = false

abbrev is_natural : Number → Bool
is_natural (int n) = true
is_natural _ = false

unfoldable pub is_target : PurgeTarget → Bool
is_target value = is_integer value.timestamp && is_natural value.sequence_number

unfoldable pub target_to_line : PurgeTarget → Text
target_to_line target = to_text target.timestamp ++ (b':' ∷ to_text target.sequence_number)

pub data PurgeResult : Type 0 where
  deleted forbidden not_found : PurgeResult

-- The part of the table that a request is about, and the buckets that the lookup names for a time.
module _ (buckets_by_timestamp : Text → Number → Number → List Text) (stream_id : Text)
    (partition : Number) where
  -- `WHERE stream_id = ? AND partition = ? AND bucket_id IN ? AND ts = ? AND sequence_no = ?`.
  unfoldable pub matches : PurgeTarget → StoredRow → Bool
  matches target row =
      row.stream_id == stream_id
      && row.partition == partition
      && has row.bucket_id (buckets_by_timestamp stream_id partition target.timestamp)
      && row.timestamp == target.timestamp
      && row.sequence_no == target.sequence_number

  unfoldable pub get_messages : PurgeTarget → List StoredRow → List StoredRow
  unfolding matches
  get_messages target table = keep (matches target) table

module _ (stream_id : Text) (partition : Number) where
  -- The `WHERE` of the deletion of a row.
  unfoldable pub addresses : StoredRow → StoredRow → Bool
  addresses row other =
      other.stream_id == stream_id
      && other.partition == partition
      && other.bucket_id == row.bucket_id
      && other.timestamp == row.timestamp
      && other.sequence_no == row.sequence_no
      && other.publisher_id == row.publisher_id
      && other.msg_chain_id == row.msg_chain_id

  unfoldable pub delete_message : StoredRow → List StoredRow → List StoredRow
  unfolding addresses
  delete_message row table = keep (λ other. not (addresses row other)) table

  unfoldable pub delete_messages : List StoredRow → List StoredRow → List StoredRow
  unfolding delete_message
  delete_messages [] table = table
  delete_messages (row ∷ rows) table = delete_messages rows (delete_message row table)

  -- The same where the deletion after some rows fails, and whether it came to an end.
  unfoldable pub delete_until : ℕ → List StoredRow → List StoredRow → Bool × List StoredRow
  unfolding delete_message
  delete_until n [] table = (true, table)
  delete_until zero (row ∷ rows) table = (false, table)
  delete_until (suc n) (row ∷ rows) table = delete_until n rows (delete_message row table)

-- How the queries for a target end: the lookup fails, or it does not, and the deletion after some rows
-- fails or none does.
pub data Outage : Type 0 where
  lookup_fails : Outage
  found_rows : Option ℕ → Outage

abbrev pub no_outage : Outage
no_outage = found_rows none

-- `createContext` and `isAuthor` of the `PurgeAuthorizer`.
pub record Context : Type 0 where
  pub admin : Bool
  pub author_rule_applies : Bool

abbrev pub granted : Result ErrorCode Bool → Bool
granted (ok b) = b
granted (err e) = false

unfoldable pub gate_context : Outside → Text → Bool → GateInfo → PomboGates → Context × PomboGates
gate_context out signer admin gate g =
    if admin || (signer == gate.owner)
    then (record { admin = true; author_rule_applies = gate.visible }, g)
    else let (r, g') = is_moderator out gate.address signer g in
      elim r [
        | err e ↦ (record { admin = false; author_rule_applies = false }, g')
        | ok moderates ↦ (record { admin = moderates; author_rule_applies = gate.visible }, g')
      ]

unfoldable pub create_context : Outside → Text → Text → PomboGates → Context × PomboGates
unfolding gate_context
create_context out stream_id signer g =
    let admin = granted (out.has_permission (user_delete stream_id signer)) in
    let (r, g') = get_gate out stream_id g in
    elim r [
      | err e ↦ (record { admin = admin; author_rule_applies = false }, g')
      | ok found ↦ elim found [
        | none ↦ (record { admin = admin; author_rule_applies = true }, g')
        | some gate ↦ gate_context out signer admin gate g'
      ]
    ]

unfoldable pub is_author :
    (Text → Option Message) → (Message → Option Text) → List StoredRow → Text → Bool
is_author to_stream_message recover rows signer =
    all
      (λ row. elim (to_stream_message row.payload) [
        | none ↦ false
        | some msg ↦ elim (get_message_signer recover msg) [
          | none ↦ false
          | some actual ↦ actual == signer
        ]
      ])
      rows

-- What the endpoint answers, and the state that its handler works on. A failing query rejects the
-- promise of the handler, which answers nothing.
pub data Response : Type 0 where
  bad_partition_400 bad_targets_400 unanswered : Response
  unauthorized_401 : SignedRequestError → Response
  results_200 : List (PurgeTarget × PurgeResult) → Response

pub record State : Type 0 where
  pub gates : PomboGates
  pub verifier : SignedRequestVerifier
  pub table : List StoredRow

pub record Request : Type 0 where
  pub id : Text
  pub partition : Text
  pub targets : Option (List PurgeTarget)
  pub claimed : Claimed

-- The targets of a body, if they are what the endpoint takes.
unfoldable pub checked_targets : Option (List PurgeTarget) → Option (List PurgeTarget)
unfolding is_target
checked_targets none = none
checked_targets (some targets) =
    if nat_eq (length targets) 0
      || not (leb (length targets) max_targets)
      || not (all is_target targets)
    then none
    else some targets

-- Whether a request may delete the rows found at a target.
unfoldable pub allows :
    (Text → Option Message) → (Message → Option Text) → Context → Text → List StoredRow → Bool
unfolding is_author
allows to_stream_message recover context signer rows =
    context.admin
    || (context.author_rule_applies && is_author to_stream_message recover rows signer)

-- The loop over the rows found at a target, where the deletion after some of them may fail.
unfoldable pub delete_rows :
    Text → Number → Option ℕ → List StoredRow → List StoredRow → Option PurgeResult × List StoredRow
unfolding delete_messages delete_until
delete_rows stream_id partition none rows table =
    (some deleted, delete_messages stream_id partition rows table)
delete_rows stream_id partition (some n) rows table =
    let (ended, left) = delete_until stream_id partition n rows table in
    ((if ended then some deleted else none), left)

module _ (buckets_by_timestamp : Text → Number → Number → List Text)
    (to_stream_message : Text → Option Message) (recover : Message → Option Text) where
  unfoldable pub purge_target :
      Outage
      → Text
      → Number
      → Context
      → Text
      → PurgeTarget
      → List StoredRow
      → Option PurgeResult × List StoredRow
  unfolding get_messages delete_rows allows
  purge_target lookup_fails stream_id partition context signer target table = (none, table)
  purge_target (found_rows limit) stream_id partition context signer target table =
      let rows = get_messages buckets_by_timestamp stream_id partition target table in
      if nat_eq (length rows) 0
      then (some not_found, table)
      else if allows to_stream_message recover context signer rows
      then delete_rows stream_id partition limit rows table
      else (some forbidden, table)

  -- The queries for each target end in their own way.
  unfoldable pub purge_targets :
      (ℕ → Outage)
      → Text
      → Number
      → Context
      → Text
      → List PurgeTarget
      → List StoredRow
      → Option (List (PurgeTarget × PurgeResult)) × List StoredRow
  unfolding purge_target
  purge_targets outage stream_id partition context signer [] table = (some [], table)
  purge_targets outage stream_id partition context signer (target ∷ targets) table =
      let (result, table') =
        purge_target (outage 0) stream_id partition context signer target table in
      let (results, table'') =
        purge_targets (λ i. outage (suc i)) stream_id partition context signer targets table' in
      elim result [
        | none ↦ (none, table')
        | some r ↦ (Option.map (λ rs. (target, r) ∷ rs) results, table'')
      ]

  module _ (verify_message : Text → Text → Option Text) (out : Outside) (outage : ℕ → Outage) where
    -- The handler once the signer of the request is known.
    unfoldable pub purge_signed : Text → Number → List PurgeTarget → Text → State → Response × State
    unfolding create_context purge_targets
    purge_signed stream_id partition targets signer s =
        let (context, gates) = create_context out stream_id signer s.gates in
        let (results, table) =
          purge_targets outage stream_id partition context signer targets s.table in
        (
          elim results [ none ↦ unanswered | some rs ↦ results_200 rs ],
          record s { gates = gates; table = table },
        )

    unfoldable pub handler : Request → State → Response × State
    unfolding checked_targets target_to_line purge_signed
    handler req s =
        if is_nan (parse_int req.partition)
        then (bad_partition_400, s)
        else elim (checked_targets req.targets) [
          | none ↦ (bad_targets_400, s)
          | some targets ↦
              let (verified, verifier) =
                verify verify_message out.now s.verifier req.claimed (codes "purge") req.id
                  (parse_int req.partition) (map target_to_line targets) in
              elim verified [
                | err e ↦ (unauthorized_401 e, record s { verifier = verifier })
                | ok signer ↦
                    purge_signed req.id (parse_int req.partition) targets signer
                      (record s { verifier = verifier })
              ]
        ]

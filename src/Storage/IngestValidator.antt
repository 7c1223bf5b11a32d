-- ===== src/Storage/IngestValidator.antt =====
-- packages/node/src/plugins/storage/IngestValidator.ts, the message listener of StoragePlugin.ts and
-- `getMessageSigner` of packages/sdk/src/StreamrClient.ts. The SDK's validation of a message and the
-- recovery of the one who signed it are parameters.
pub mod Verdicts
use pombo_storage_node.Base.{
  ℕ, ◌+◌, Bool, true, false, ◌&&◌, ◌||◌, not, Option, none, some, if◌then◌else◌, Result, ok, err,
  ◌==◌, eq_list, eq_nat,
}
use pombo_storage_node.Base.Text.{Text, codes, ends_with}
use pombo_storage_node.Utils.EthereumAddress.{to_ethereum_address}
use pombo_storage_node.Storage.Outside.{
  Outside, ErrorCode, invalid_signature, missing_permission, invalid_partition,
  signature_policy_violation,
}
use pombo_storage_node.Storage.PomboGates.{PomboGates, GateInfo, get_gate, is_moderator}

pub data MessageType : Type 0 where
  message group_key_request group_key_response : MessageType

pub record Message : Type 0 where
  pub stream_id : Text
  pub partition : ℕ
  pub message_type : MessageType
  pub timestamp : ℕ
  pub sequence_number : ℕ
  pub payload : Text

abbrev pub conversation_stream_suffix : Text
conversation_stream_suffix = codes "-1"

-- The codes that `DEFINITIVE_REJECTIONS` holds.
unfoldable pub is_definitive : ErrorCode → Bool
is_definitive invalid_signature = true
is_definitive missing_permission = true
is_definitive invalid_partition = true
is_definitive signature_policy_violation = true
is_definitive _ = false

pub data Reason : Type 0 where
  failed_validation : ErrorCode → Reason
  unrecoverable_signer read_only : Reason

pub data IngestVerdict : Type 0 where
  store : IngestVerdict
  discard : Reason → IngestVerdict

pub record IngestValidator : Type 0 where
  pub gates : PomboGates
  pub rejected_messages : ℕ

-- `getMessageSigner`, where `recover` stands for the payload that was signed, in its present or its
-- legacy form by the type of the signature, and for the account of the key that signed it.
unfoldable pub get_message_signer : (Message → Option Text) → Message → Option Text
get_message_signer recover msg = elim (recover msg) [
  | none ↦ none
  | some account ↦ to_ethereum_address account
]

unfoldable pub reject : Reason → IngestValidator → IngestVerdict × IngestValidator
reject reason v = (discard reason, record v { rejected_messages = v.rejected_messages + 1 })

unfoldable pub is_storable_message : Message → Bool
is_storable_message msg = elim msg.message_type [
  | message ↦ true
  | group_key_request ↦ false
  | group_key_response ↦ false
]

module _ (recover : Message → Option Text) (out : Outside) where
  unfoldable pub enforce_signer :
      GateInfo → Text → IngestValidator → IngestVerdict × IngestValidator
  unfolding reject
  enforce_signer gate signer v =
      if signer == gate.owner
      then (store, v)
      else let (r, gates) = is_moderator out gate.address signer v.gates in
        elim r [
          | err e ↦ (store, record v { gates = gates })
          | ok moderates ↦
              if moderates
              then (store, record v { gates = gates })
              else reject read_only (record v { gates = gates })
        ]

  unfoldable pub enforce_gate :
      Message → Option GateInfo → IngestValidator → IngestVerdict × IngestValidator
  unfolding enforce_signer get_message_signer
  enforce_gate msg none v = (store, v)
  enforce_gate msg (some gate) v =
      if not gate.read_only || not gate.visible
      then (store, v)
      else elim (get_message_signer recover msg) [
        | none ↦ reject unrecoverable_signer v
        | some signer ↦ enforce_signer gate signer v
      ]

  unfoldable pub enforce_read_only : Message → IngestValidator → IngestVerdict × IngestValidator
  unfolding enforce_gate
  enforce_read_only msg v =
      if not (ends_with conversation_stream_suffix msg.stream_id)
      then (store, v)
      else let (r, gates) = get_gate out msg.stream_id v.gates in
        elim r [
          | err e ↦ (store, record v { gates = gates })
          | ok gate ↦ enforce_gate msg gate (record v { gates = gates })
        ]

  unfoldable pub validate :
      (Message → Result ErrorCode (Unit {0}))
      → Message
      → IngestValidator
      → IngestVerdict × IngestValidator
  unfolding enforce_read_only
  validate validate_message msg v = elim (validate_message msg) [
    | err code ↦ if is_definitive code then reject (failed_validation code) v else (store, v)
    | ok _ ↦ enforce_read_only msg v
  ]

  -- The message listener: the message to store, if it is to be.
  unfoldable pub message_listener :
      (Message → Result ErrorCode (Unit {0}))
      → (Message → Bool)
      → Message
      → IngestValidator
      → Option (Message × ℕ) × IngestValidator
  unfolding validate is_storable_message
  message_listener validate_message has_stream_part msg v =
      if is_storable_message msg && has_stream_part msg
      then (let (verdict, v') = validate validate_message msg v in
          (elim verdict [ store ↦ some (msg, out.now) | discard reason ↦ none ], v'))
      else (none, v)

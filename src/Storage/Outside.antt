-- ===== src/Storage/Outside.antt =====
-- What the plugin asks of code outside itself while it handles one request or message: the chain
-- (through `StreamrClient` and the gate contracts), the clock, `JSON.parse` and the recovery of
-- signers. All of it is a parameter; an error is the `code` that the thrown error carries.
use pombo_storage_node.Base.{ℕ, Bool, Option, List, Result}
use pombo_storage_node.Base.Text.{Text}

pub data ErrorCode : Type 0 where
  stream_not_found invalid_signature missing_permission invalid_partition : ErrorCode
  signature_policy_violation unknown : ErrorCode

-- What `JSON.parse` gives: an object shows the fields that hold strings.
pub data Json : Type 0 where
  null scalar array : Json
  object : List (Text × Text) → Json

-- The `description` of a stream's metadata, if it is a string.
abbrev pub Metadata : Type 0
Metadata = Option Text

pub data Permission : Type 0 where
  public_subscribe : Text → Permission
  user_subscribe user_delete : Text → Text → Permission

pub record Outside : Type 0 where
  pub now : ℕ
  pub json_parse : Text → Option Json
  pub get_stream_metadata : Text → Result ErrorCode Metadata
  pub has_permission : Permission → Result ErrorCode Bool
  -- The view functions of a gate contract.
  pub gate_owner : Text → Result ErrorCode Text
  pub gate_read_only : Text → Result ErrorCode Bool
  pub gate_wire_identity : Text → Result ErrorCode ℕ
  pub gate_moderators : Text → Text → Result ErrorCode Bool
  pub gate_check_access : Text → Text → Result ErrorCode Bool

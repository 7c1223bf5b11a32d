-- ===== src/Tests/Reads.antt =====
-- Requests to read, and messages at ingest, of the gated stream.
use pombo_storage_node.Base.{◌≡◌, ◌↔◌, ◌⊎◌, true, false, Bool, Option, some, [], Result, ok, arith}
use pombo_storage_node.Base.Text.{Text, codes, ends_with, Lacks}
use pombo_storage_node.Base.Number.{is_nan, parse_int}
use pombo_storage_node.Storage.Outside.{ErrorCode}
use pombo_storage_node.Storage.PomboGates.{can_read}
use pombo_storage_node.Storage.PomboGates.Uncached.{may_read}
use pombo_storage_node.Storage.PomboGates.Agrees.{Answers}
use pombo_storage_node.Storage.PomboGates.Transparent.{can_read-Answers}
use pombo_storage_node.Storage.SignedReads.{Request, State, next, guard, open_stream_suffix}
use pombo_storage_node.Storage.SignedReads.Serves.{MayServe, guard-eq-next_iff}
use pombo_storage_node.Storage.IngestValidator.{
  Message, message, Reason, read_only, discard, IngestValidator, validate, is_storable_message,
  message_listener,
}
use pombo_storage_node.Storage.IngestValidator.Verdicts.{
  Rejected, validate-eq-discard_iff, message_listener-eq-some_iff,
}
use pombo_storage_node.Tests.Toy.{
  alice, bob, chat, nonce, start_time, recover_self, recover_alice, date_of, toy, empty_gates,
  empty_gates-Agrees, empty_verifier,
}

abbrev read_request : Request
read_request = record {
  id = chat;
  partition = codes "0";
  resend_type = some (codes "last");
  query = [];
  user = some alice;
  issued_at = some (codes "1000000");
  nonce = some nonce;
  signature = some alice;
}

abbrev idle : State
idle = record { gates = empty_gates; verifier = empty_verifier }

guard-eq-next_iff_example : ((guard recover_self date_of true toy read_request idle).0 ≡ next) ↔ (
    (true ≡ false)
    ⊎ (is_nan (parse_int read_request.partition) ≡ true)
    ⊎ (ends_with open_stream_suffix read_request.id ≡ true)
    ⊎ MayServe recover_self date_of toy read_request idle)
guard-eq-next_iff_example =
    guard-eq-next_iff recover_self date_of toy read_request idle true (empty_gates-Agrees toy)

alice-Lacks : Lacks b'_' alice
alice-Lacks = omega arith

can_read-Answers_example :
    Answers toy (can_read toy chat alice empty_gates) (may_read toy chat alice)
can_read-Answers_example =
    can_read-Answers toy chat alice empty_gates alice-Lacks (empty_gates-Agrees toy)

abbrev hello : Message
hello = record {
  stream_id = chat;
  partition = 0;
  message_type = message;
  timestamp = 7;
  sequence_number = 0;
  payload = codes "hello";
}

abbrev valid : Message → Result ErrorCode (Unit {0})
valid msg = ok tt

abbrev everywhere : Message → Bool
everywhere msg = true

abbrev validator : IngestValidator
validator = record { gates = empty_gates; rejected_messages = 0 }

abbrev recover_bob : Message → Option Text
recover_bob msg = some bob

validate-eq-discard_iff_example :
    ((validate recover_bob toy valid hello validator).0 ≡ discard read_only)
    ↔ Rejected recover_bob toy valid hello validator read_only
validate-eq-discard_iff_example =
    validate-eq-discard_iff recover_bob toy valid hello validator read_only (empty_gates-Agrees toy)

message_listener-eq-some_iff_example :
    ((message_listener recover_alice toy valid everywhere hello validator).0
      ≡ some (hello, start_time))
    ↔ ((is_storable_message hello ≡ true)
        × (true ≡ true)
        × ((reason : Reason) → ¬ Rejected recover_alice toy valid hello validator reason))
message_listener-eq-some_iff_example =
    message_listener-eq-some_iff recover_alice toy valid hello validator everywhere
      (empty_gates-Agrees toy)

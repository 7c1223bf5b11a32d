-- ===== src/Storage/SignedReads.antt =====
-- packages/node/src/plugins/storage/signedReads.ts: the guard in front of the endpoints that read.
-- `Number` on a header, and the recovery of signers, are parameters.
pub mod Query
pub mod Rules
pub mod Serves
use pombo_storage_node.Base.{
  Bool, true, false, ◌||◌, Option, none, some, List, [], ◌∷◌, if◌then◌else◌, Result, ok, err,
}
use pombo_storage_node.Base.Text.{Text, codes, ends_with}
use pombo_storage_node.Base.Number.{Number, parse_int, is_nan}
use pombo_storage_node.Storage.Outside.{Outside}
use pombo_storage_node.Storage.PomboGates.{
  PomboGates, GateInfo, Called, is_not_found, get_gate, is_public_subscribe, was_last_seen_public,
  has_subscribe, gate_admits,
}
use pombo_storage_node.Storage.SignedRequest.{
  undefined, string, number, Claimed, SignedRequestError, SignedRequestVerifier, verify,
}
use Query.{QueryValue, canonical_query}

abbrev pub open_stream_suffix : Text
open_stream_suffix = codes "-3"

pub record Request : Type 0 where
  pub id : Text
  pub partition : Text
  pub resend_type : Option Text
  pub query : List (Text × QueryValue)
  pub user : Option Text
  pub issued_at : Option Text
  pub nonce : Option Text
  pub signature : Option Text

abbrev pub nothing_claimed : Claimed
nothing_claimed = record {
  user = undefined;
  issued_at = undefined;
  nonce = undefined;
  signature = undefined;
}

unfoldable pub read_headers :
    (Text → Number) → Option Text → Option Text → Option Text → Option Text → Claimed
read_headers to_number (some user) (some issued_at) (some nonce) (some signature) = record {
  user = string user;
  issued_at = number (to_number issued_at);
  nonce = string nonce;
  signature = string signature;
}
read_headers to_number _ _ _ _ = nothing_claimed

unfoldable pub read_envelope : (Text → Number) → Request → Claimed
unfolding read_headers
read_envelope to_number req = read_headers to_number req.user req.issued_at req.nonce req.signature

-- How the guard ends: it calls `next`, or answers with a status.
pub data Ending : Type 0 where
  next : Ending
  stream_not_found_404 unavailable_503 no_access_403 : Ending
  unauthorized_401 : SignedRequestError → Ending

pub data AccessCheck : Type 0 where
  holds_subscribe : AccessCheck
  passes_gate : GateInfo → AccessCheck

pub data Picked : Type 0 where
  ends : Ending → Picked
  check : AccessCheck → Picked

-- A read that the chain cannot answer for.
abbrev pub unanswered : Text → PomboGates → Picked
unanswered stream_id g =
    if was_last_seen_public stream_id g then ends next else ends unavailable_503

unfoldable pub pick_public : Outside → Text → PomboGates → Picked × PomboGates
pick_public out stream_id g =
    let (r, g') = is_public_subscribe out stream_id g in
    elim r [
      | err e ↦ (unanswered stream_id g', g')
      | ok is_public ↦ (if is_public then ends next else check holds_subscribe, g')
    ]

-- The access rule of a stream, or the answer where none is needed or none can be found.
unfoldable pub pick_rule : Outside → Text → PomboGates → Picked × PomboGates
unfolding pick_public
pick_rule out stream_id g =
    let (r, g') = get_gate out stream_id g in
    elim r [
      | err e ↦ (if is_not_found e then ends stream_not_found_404 else unanswered stream_id g', g')
      | ok gate ↦ elim gate [
        | some info ↦ (check (passes_gate info), g')
        | none ↦ pick_public out stream_id g'
      ]
    ]

unfoldable pub access_check : Outside → Text → AccessCheck → Text → PomboGates → Called Bool
access_check out stream_id holds_subscribe user g = has_subscribe out stream_id user g
access_check out stream_id (passes_gate info) user g = gate_admits out info user g

pub record State : Type 0 where
  pub gates : PomboGates
  pub verifier : SignedRequestVerifier

-- What follows the verification of the request.
unfoldable pub admit :
    Outside → Text → AccessCheck → Result SignedRequestError Text → PomboGates → Ending × PomboGates
unfolding access_check
admit out stream_id rule (err e) g = (unauthorized_401 e, g)
admit out stream_id rule (ok user) g =
    let (r, g') = access_check out stream_id rule user g in
    elim r [
      | err e ↦ (unavailable_503, g')
      | ok allowed ↦ (if allowed then next else no_access_403, g')
    ]

module _ (verify_message : Text → Text → Option Text) (to_number : Text → Number) where
  -- The claim of a request, verified as one to read.
  unfoldable pub verify_read :
      Outside
      → Request
      → SignedRequestVerifier
      → Result SignedRequestError Text × SignedRequestVerifier
  unfolding read_envelope
  verify_read out req v =
      verify verify_message out.now v (read_envelope to_number req) (codes "read") req.id
        (parse_int req.partition)
        ((elim req.resend_type [ none ↦ [] | some t ↦ t ]) ∷ canonical_query req.query ∷ [])

  unfoldable pub guard_closed : Outside → Request → State → Ending × State
  unfolding pick_rule admit
  guard_closed out req s =
      let (picked, g) = pick_rule out req.id s.gates in
      elim picked [
        | ends ending ↦ (ending, record s { gates = g })
        | check rule ↦
            let (verified, v) = verify_read out req s.verifier in
            let (ending, g') = admit out req.id rule verified g in
            (ending, record { gates = g'; verifier = v })
      ]

  unfoldable pub guard : Bool → Outside → Request → State → Ending × State
  unfolding guard_closed
  guard enabled out req s =
      if enabled
      then if is_nan (parse_int req.partition) || ends_with open_stream_suffix req.id
        then (next, s)
        else guard_closed out req s
      else (next, s)

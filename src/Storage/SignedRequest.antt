-- ===== src/Storage/SignedRequest.antt =====
-- packages/node/src/plugins/storage/SignedRequest.ts. The recovery of a signer from a signature
-- (`verifyMessage` of ethers) is a parameter, which answers `none` where it throws.
pub mod Message
pub mod Accept
pub mod Replay
pub mod Loopholes
use pombo_storage_node.Base.{
  ℕ, ◌*◌, ◌≤◌, Bool, true, false, ◌&&◌, Option, none, some, List, [], ◌∷◌, ◌++◌, leb, if◌then◌else◌,
  length, Result, ok, err, ◌==◌, eq_list, eq_nat,
}
use pombo_storage_node.Base.Text.{Text, codes, join, newline}
use pombo_storage_node.Base.Number.{Number, further_than, to_text}
use pombo_storage_node.Utils.MapWithTtl.{MapWithTtl, set, has, clear}
use pombo_storage_node.Utils.EthereumAddress.{to_ethereum_address}

abbrev pub max_clock_skew : ℕ
max_clock_skew = 5 * 60 * 1000

-- A field of a request that the node did not make: anything.
pub data Value : Type 0 where
  undefined other : Value
  string : Text → Value
  number : Number → Value

pub record Claimed : Type 0 where
  pub user : Value
  pub issued_at : Value
  pub nonce : Value
  pub signature : Value

pub record SignedRequestEnvelope : Type 0 where
  pub user : Text
  pub issued_at : Number
  pub nonce : Text
  pub signature : Text

pub data SignedRequestError : Type 0 where
  not_an_envelope too_old_or_far invalid_signature not_the_user nonce_used : SignedRequestError

unfoldable pub create_signed_request_message :
    Text → Text → Number → Number → Text → List Text → Text
create_signed_request_message purpose stream_id partition issued_at nonce payload_lines =
    join newline (
      codes "pombo-storage-node"
      ∷ purpose
      ∷ stream_id
      ∷ to_text partition
      ∷ to_text issued_at
      ∷ nonce
      ∷ payload_lines)

-- `isEnvelope`, with the envelope that it makes of the value.
unfoldable pub is_envelope : Value → Value → Value → Value → Option SignedRequestEnvelope
is_envelope (string user) (number issued_at) (string nonce) (string signature) =
    if leb 8 (length nonce) && leb (length nonce) 128
    then some (record { user = user; issued_at = issued_at; nonce = nonce; signature = signature })
    else none
is_envelope _ _ _ _ = none

pub record SignedRequestVerifier : Type 0 where
  pub seen_nonces : MapWithTtl Text (Unit {0})

abbrev pub nonce_ttl : Unit {0} → ℕ
nonce_ttl _ = 2 * max_clock_skew

unfoldable pub nonce_key : Text → Text → Text
nonce_key user nonce = user ++ (b'_' ∷ nonce)

-- The `try` block: the user that the envelope names, and the one that its signature recovers to.
unfoldable pub signer_of :
    (Text → Text → Option Text) → SignedRequestEnvelope → Text → Option (Text × Text)
signer_of verify_message envelope message = elim (to_ethereum_address envelope.user) [
  | none ↦ none
  | some user ↦ elim (verify_message message envelope.signature) [
    | none ↦ none
    | some recovered ↦ elim (to_ethereum_address recovered) [
      | none ↦ none
      | some signer ↦ some (user, signer)
    ]
  ]
]

-- The end of `verify`: the nonce is accepted once.
unfoldable pub use_nonce :
    ℕ → SignedRequestVerifier → Text → Text → Result SignedRequestError Text × SignedRequestVerifier
use_nonce now v user nonce =
    if has (nonce_key user nonce) v.seen_nonces then (err nonce_used, v) else (
      ok user,
      record v { seen_nonces = set nonce_ttl now (nonce_key user nonce) tt v.seen_nonces },
    )

unfoldable pub verify_envelope :
    (Text → Text → Option Text)
    → ℕ
    → SignedRequestVerifier
    → SignedRequestEnvelope
    → Text
    → Text
    → Number
    → List Text
    → Result SignedRequestError Text × SignedRequestVerifier
verify_envelope verify_message now v envelope purpose stream_id partition payload_lines =
    if further_than max_clock_skew now envelope.issued_at
    then (err too_old_or_far, v)
    else elim (signer_of verify_message envelope (
        create_signed_request_message purpose stream_id partition envelope.issued_at envelope.nonce
          payload_lines)) [
            | none ↦ (err invalid_signature, v)
            | some (user, signer) ↦
                if signer == user
                then use_nonce now v user envelope.nonce
                else (err not_the_user, v)
          ]

unfoldable pub verify :
    (Text → Text → Option Text)
    → ℕ
    → SignedRequestVerifier
    → Claimed
    → Text
    → Text
    → Number
    → List Text
    → Result SignedRequestError Text × SignedRequestVerifier
verify verify_message now v claimed purpose stream_id partition payload_lines =
    elim (is_envelope claimed.user claimed.issued_at claimed.nonce claimed.signature) [
      | none ↦ (err not_an_envelope, v)
      | some envelope ↦
          verify_envelope verify_message now v envelope purpose stream_id partition payload_lines
    ]

unfoldable pub destroy : SignedRequestVerifier → SignedRequestVerifier
destroy v = record v { seen_nonces = clear v.seen_nonces }

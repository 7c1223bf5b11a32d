-- ===== src/Storage/SignedRequest/Loopholes.antt =====
-- Two ways in which a request that was accepted is accepted again.
use pombo_storage_node.Base.{
  ℕ, ◌+◌, ◌*◌, ◌≤◌, ◌≡◌, refl, sym, ◌∙◌, ap, subst, false, Option, some, List, ◌∷◌, ◌++◌, length,
  length-append, Result, ok, arith, eq_list, eq_nat,
}
use pombo_storage_node.Base.Text.{Text, newline}
use pombo_storage_node.Base.Dict.{lookup, erase, has_key, lookup-insert_self, lookup-erase_self}
use pombo_storage_node.Base.Number.{Number, nan, further_than}
use pombo_storage_node.Utils.MapWithTtl.{MapWithTtl, ValueWrapper, set, has, fire}
use mathlib.Core.Option.{some-injective}
use pombo_storage_node.Utils.MapWithTtl.Laws.{absent, early, expired, fire-Fired}
use pombo_storage_node.Storage.SignedRequest.{
  Value, string, number, Claimed, SignedRequestEnvelope, SignedRequestError, SignedRequestVerifier,
  max_clock_skew, is_envelope, nonce_ttl, nonce_key, signer_of, verify,
}
use pombo_storage_node.Storage.SignedRequest.Message.{message_regroup}
use pombo_storage_node.Storage.SignedRequest.Accept.{verify_Accepts, verify-Accepts_iff}
use pombo_storage_node.Storage.SignedRequest.Replay.{timer, step}

is_envelope_nan :
    (user issued_at nonce signature : Value) (envelope : SignedRequestEnvelope)
    → issued_at ≡ number nan
    → is_envelope user issued_at nonce signature ≡ some envelope
    → envelope.issued_at ≡ nan
unfolding is_envelope
is_envelope_nan user issued_at nonce signature envelope dated shaped = ground arith

envelope_nonce :
    (user issued_at nonce signature : Value) (envelope : SignedRequestEnvelope)
    → is_envelope user issued_at nonce signature ≡ some envelope
    → nonce ≡ string envelope.nonce
unfolding is_envelope
envelope_nonce user issued_at nonce signature envelope shaped = ground arith

regrouped :
    (user issued_at nonce' signature : Value) (nonce line : Text) (envelope : SignedRequestEnvelope)
    → nonce' ≡ string nonce
    → length (nonce ++ (newline ∷ line)) ≤ 128
    → is_envelope user issued_at nonce' signature ≡ some envelope
    → (is_envelope user issued_at (string (nonce ++ (newline ∷ line))) signature
        ≡ some (record {
          user = envelope.user;
          issued_at = envelope.issued_at;
          nonce = nonce ++ (newline ∷ line);
          signature = envelope.signature;
        }))
      × (envelope.nonce ≡ nonce)
unfolding is_envelope
regrouped user issued_at nonce' signature nonce line envelope named short shaped =
    ground (arith, length-append nonce (newline ∷ line))

signer_of_message :
    (verify_message : Text → Text → Option Text) (envelope : SignedRequestEnvelope)
    (nonce message : Text)
    → signer_of verify_message
        (record {
          user = envelope.user;
          issued_at = envelope.issued_at;
          nonce = nonce;
          signature = envelope.signature;
        })
        message
      ≡ signer_of verify_message envelope message
unfolding signer_of
signer_of_message verify_message envelope nonce message = refl

further_than-nan : (bound now : ℕ) → further_than bound now nan ≡ false
unfolding further_than
further_than-nan bound now = refl

has-erase_self : (key : Text) (m : MapWithTtl Text (Unit {0})) → has key (erase key m) ≡ false
unfolding has has_key
has-erase_self key m = rw (lookup-erase_self key m, has_key)

-- The timer of a nonce that is due forgets it.
forgotten :
    (t₁ t₂ : ℕ) (key : Text) (m : MapWithTtl Text (Unit {0}))
    → t₁ + 2 * max_clock_skew ≤ t₂
    → has key (fire t₂ key (set nonce_ttl t₁ key tt m)) ≡ false
unfolding set
forgotten t₁ t₂ key m late = elim (fire-Fired t₂ key (set nonce_ttl t₁ key tt m)) [
  | absent missing same ↦ cc (missing, there)
  | early w found running same ↦ absurd (
      omega (
        arith,
        ap (λ (x : ValueWrapper (Unit {0})). x.due) (some-injective _ w (sym there ∙ found)),
      ))
  | expired w found over same ↦ rw same (has-erase_self key _)
]
  where
    there :
        lookup key (set nonce_ttl t₁ key tt m)
        ≡ some (record { value = tt; due = t₁ + 2 * max_clock_skew })
    there = lookup-insert_self key (record { value = tt; due = t₁ + 2 * max_clock_skew }) m

module _ (verify_message : Text → Text → Option Text) where
  -- A request whose date is NaN and that was accepted is accepted once more at any time at which the
  -- timer of its nonce has run, however old the request is by then.
  pub verify-nan_again :
      (t₁ t₂ : ℕ) (v : SignedRequestVerifier) (claimed : Claimed) (user purpose stream_id : Text)
      (partition : Number) (lines : List Text)
      → claimed.issued_at ≡ number nan
      → t₁ + 2 * max_clock_skew ≤ t₂
      → (verify verify_message t₁ v claimed purpose stream_id partition lines).0 ≡ ok user
      → (nonce : Text) × (claimed.nonce ≡ string nonce)
        × ((verify verify_message t₂
              (step verify_message
                (timer t₂ (nonce_key user nonce))
                (verify verify_message t₁ v claimed purpose stream_id partition lines).1)
              claimed
              purpose
              stream_id
              partition
              lines).0
            ≡ ok user)
  unfolding step fire
  verify-nan_again t₁ t₂ v claimed user purpose stream_id partition lines dated late accepted =
      let a =
        (verify-Accepts_iff verify_message t₁ v claimed purpose stream_id partition lines user).0
          accepted in
      let v₁ = (verify verify_message t₁ v claimed purpose stream_id partition lines).1 in
      let key = nonce_key user a.envelope.nonce in
      let key_forgotten : has key (step verify_message (timer t₂ key) v₁).seen_nonces ≡ false =
        subst
          (λ (p : Result SignedRequestError Text × SignedRequestVerifier).
            has key (fire t₂ key p.1.seen_nonces) ≡ false)
          (sym
            (verify_Accepts verify_message t₁ v claimed purpose stream_id partition lines user a))
          (forgotten t₁ t₂ key v.seen_nonces late) in
      (
        a.envelope.nonce,
        envelope_nonce claimed.user claimed.issued_at claimed.nonce claimed.signature a.envelope
            a.shaped,
        (verify-Accepts_iff verify_message t₂ _ claimed purpose stream_id partition lines user).1
            (record {
              envelope = a.envelope;
              shaped = a.shaped;
              recent =
                  rw
                    (is_envelope_nan claimed.user claimed.issued_at claimed.nonce claimed.signature
                      a.envelope dated a.shaped)
                    (further_than-nan max_clock_skew t₂);
              signed = a.signed;
              fresh = key_forgotten;
            }),
      )

  -- Of a request that was accepted, the same signature is accepted at once for another request: the
  -- one whose nonce ends in a line feed and the first payload line, and which has the other lines
  -- as its payload, if that nonce has at most 128 units and was not seen.
  pub verify-regroup_again :
      (t : ℕ) (v : SignedRequestVerifier) (claimed : Claimed)
      (user purpose stream_id nonce line : Text) (partition : Number) (lines : List Text)
      → claimed.nonce ≡ string nonce
      → length (nonce ++ (newline ∷ line)) ≤ 128
      → has
          (nonce_key user (nonce ++ (newline ∷ line)))
          (verify verify_message t v claimed purpose stream_id partition
            (line ∷ lines)).1.seen_nonces
        ≡ false
      → (verify verify_message t v claimed purpose stream_id partition (line ∷ lines)).0 ≡ ok user
      → (verify verify_message t
          (verify verify_message t v claimed purpose stream_id partition (line ∷ lines)).1
          (record claimed { nonce = string (nonce ++ (newline ∷ line)) })
          purpose
          stream_id
          partition
          lines).0
        ≡ ok user
  verify-regroup_again t v claimed user purpose stream_id nonce line partition lines named short
        unseen accepted =
      let a =
        (verify-Accepts_iff verify_message t v claimed purpose stream_id partition (line ∷ lines)
            user).0
          accepted in
      let longer =
        regrouped claimed.user claimed.issued_at claimed.nonce claimed.signature nonce line
          a.envelope named short a.shaped in
      let same_nonce = longer.1 in
      (verify-Accepts_iff verify_message t _
          (record claimed { nonce = string (nonce ++ (newline ∷ line)) }) purpose stream_id
          partition lines user).1
        (record {
          envelope = record {
            user = a.envelope.user;
            issued_at = a.envelope.issued_at;
            nonce = nonce ++ (newline ∷ line);
            signature = a.envelope.signature;
          };
          shaped = longer.0;
          recent = a.recent;
          signed =
              signer_of_message verify_message a.envelope (nonce ++ (newline ∷ line)) _
              ∙ rw
                  (← message_regroup purpose stream_id partition a.envelope.issued_at nonce line
                    lines)
                  (rw same_nonce at a.signed);
          fresh = unseen;
        })

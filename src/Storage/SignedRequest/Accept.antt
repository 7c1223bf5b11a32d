-- ===== src/Storage/SignedRequest/Accept.antt =====
-- What an accepted request proves.
use pombo_storage_node.Base.{
  ℕ, ◌+◌, ◌≤◌, ◌⊎◌, ◌∷◌, ◌++◌, length, ◌≡◌, ap, subst, ◌↔◌, inl, inr, false, Option, some, List,
  Result, ok, err, ◌==◌, eq_list, eq_nat, Option-cases, Bool-cases, list_beq_iff, list_beq_refl,
}
use pombo_storage_node.Base.Text.{Text}
use pombo_storage_node.Base.Number.{Number, nan, int, below, further_than}
use pombo_storage_node.Utils.MapWithTtl.{set, has}
use pombo_storage_node.Utils.EthereumAddress.{to_ethereum_address}
use pombo_storage_node.Storage.SignedRequest.{
  string, number, Claimed, SignedRequestEnvelope, SignedRequestError, SignedRequestVerifier,
  max_clock_skew, create_signed_request_message, is_envelope, nonce_ttl, nonce_key, signer_of,
  use_nonce, verify_envelope, verify, too_old_or_far, not_an_envelope, invalid_signature,
  not_the_user, nonce_used,
}

-- The date of a request is within the clock skew of now, or NaN, which compares with nothing.
abbrev pub Recent : ℕ → Number → Type 0
Recent now issued_at =
    (issued_at ≡ nan)
    ⊎ ((t : ℕ) × (issued_at ≡ int t) × (t ≤ now + max_clock_skew) × (now ≤ t + max_clock_skew))
    ⊎ ((n : ℕ) × (issued_at ≡ below n) × (now + n + 1 ≤ max_clock_skew))

module _ (verify_message : Text → Text → Option Text) (now : ℕ) (v : SignedRequestVerifier)
    (claimed : Claimed) (purpose stream_id : Text) (partition : Number) (lines : List Text) where
  -- What it takes for a request to be accepted as one of a user.
  pub record Accepts (user : Text) : Type 0 where
    pub envelope : SignedRequestEnvelope
    pub shaped :
        is_envelope claimed.user claimed.issued_at claimed.nonce claimed.signature ≡ some envelope
    pub recent : further_than max_clock_skew now envelope.issued_at ≡ false
    pub signed :
        signer_of verify_message envelope (
          create_signed_request_message purpose stream_id partition envelope.issued_at
            envelope.nonce lines)
        ≡ some (user, user)
    pub fresh : has (nonce_key user envelope.nonce) v.seen_nonces ≡ false

  abbrev verified : Result SignedRequestError Text × SignedRequestVerifier
  verified = verify verify_message now v claimed purpose stream_id partition lines

  -- The verifier after it accepted a nonce of a user.
  abbrev pub remembering : Text → Text → SignedRequestVerifier
  remembering user nonce = record v {
    seen_nonces = set nonce_ttl now (nonce_key user nonce) tt v.seen_nonces;
  }

  -- A request is refused and changes nothing, or is accepted and its nonce is remembered.
  pub data Outcome : Type 0 where
    refused : (e : SignedRequestError) → verified ≡ (err e, v) → Outcome
    accepted :
        (user : Text) (a : Accepts user)
        → verified ≡ (ok user, remembering user a.envelope.nonce)
        → Outcome

  pub verify-Outcome : Outcome
  unfolding verify verify_envelope use_nonce
  verify-Outcome =
      elim (Option-cases
        (is_envelope claimed.user claimed.issued_at claimed.nonce claimed.signature)) [
          | inl shapeless ↦ refused not_an_envelope (rw (shapeless, verify))
          | inr (envelope, shaped) ↦
              elim (Bool-cases (further_than max_clock_skew now envelope.issued_at)) [
                | inl far ↦ refused too_old_or_far (rw (shaped, verify, verify_envelope, far))
                | inr recent ↦
                    elim (Option-cases (
                      signer_of verify_message envelope (
                        create_signed_request_message purpose stream_id partition envelope.issued_at
                          envelope.nonce lines))) [
                            | inl unsigned ↦
                                refused invalid_signature
                                  (rw (shaped, verify, verify_envelope, recent, unsigned))
                            | inr (pair, signed) ↦ named envelope shaped recent pair.0 pair.1 signed
                          ]
              ]
        ]
    where
      named :
          (envelope : SignedRequestEnvelope)
          → is_envelope claimed.user claimed.issued_at claimed.nonce claimed.signature
            ≡ some envelope
          → further_than max_clock_skew now envelope.issued_at ≡ false
          → (user signer : Text)
          → signer_of verify_message envelope (
              create_signed_request_message purpose stream_id partition envelope.issued_at
                envelope.nonce lines)
            ≡ some (user, signer)
          → Outcome
      named envelope shaped recent user signer signed = elim (Bool-cases (signer == user)) [
        | inr apart ↦
            refused not_the_user (rw (shaped, verify, verify_envelope, recent, signed, apart))
        | inl same ↦ elim (Bool-cases (has (nonce_key user envelope.nonce) v.seen_nonces)) [
          | inl seen ↦
              refused nonce_used
                (rw (shaped, verify, verify_envelope, recent, signed, same, use_nonce, seen))
          | inr unseen ↦
              accepted user
                (record {
                  envelope = envelope;
                  shaped = shaped;
                  recent = recent;
                  signed = rw ((list_beq_iff signer user).0 same) at signed;
                  fresh = unseen;
                })
                (rw (shaped, verify, verify_envelope, recent, signed, same, use_nonce, unseen))
        ]
      ]

  pub verify_Accepts :
      (user : Text) (a : Accepts user) → verified ≡ (ok user, remembering user a.envelope.nonce)
  unfolding verify verify_envelope use_nonce
  verify_Accepts user a = rw (
    a.shaped,
    verify,
    verify_envelope,
    a.recent,
    a.signed,
    list_beq_refl user,
    use_nonce,
    a.fresh,
  )

  ok_user : (user other : Text) → verified.0 ≡ ok user → verified.0 ≡ ok other → other ≡ user
  ok_user user other h k = cc

  pub verify-Accepts_iff : (user : Text) → (verified.0 ≡ ok user) ↔ Accepts user
  verify-Accepts_iff user = (
    forth,
    λ a.
        ap (λ (p : Result SignedRequestError Text × SignedRequestVerifier). p.0)
          (verify_Accepts user a),
  )
    where
      forth : verified.0 ≡ ok user → Accepts user
      forth h = elim verify-Outcome [
        | refused e same ↦
            cc (ap (λ (p : Result SignedRequestError Text × SignedRequestVerifier). p.0) same, h)
        | accepted other a same ↦
            subst Accepts
              (ok_user user other h
                (ap (λ (p : Result SignedRequestError Text × SignedRequestVerifier). p.0) same))
              a
      ]

  -- What a request looks like that is from a user, now, and not seen before.
  pub record Entitled (user : Text) : Type 0 where
    pub name : Text
    pub issued_at : Number
    pub nonce : Text
    pub signature : Text
    pub signer : Text
    pub has_name : claimed.user ≡ string name
    pub has_date : claimed.issued_at ≡ number issued_at
    pub has_nonce : claimed.nonce ≡ string nonce
    pub has_signature : claimed.signature ≡ string signature
    pub nonce_size : (8 ≤ length nonce) × (length nonce ≤ 128)
    pub recent : Recent now issued_at
    pub names_user : to_ethereum_address name ≡ some user
    pub recovers :
        verify_message
          (create_signed_request_message purpose stream_id partition issued_at nonce lines)
          signature
        ≡ some signer
    pub signed_by_user : to_ethereum_address signer ≡ some user
    pub unseen : has (user ++ (b'_' ∷ nonce)) v.seen_nonces ≡ false

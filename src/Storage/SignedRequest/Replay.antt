-- ===== src/Storage/SignedRequest/Replay.antt =====
-- When a request that was accepted is accepted again.
use pombo_storage_node.Base.{
  ℕ, ◌+◌, ◌*◌, ◌≤◌, ◌<◌, ◌≡◌, sym, ◌∙◌, ap, subst, ◌≢◌, inl, inr, true, false, Option, some, List,
  [], ◌∷◌, Result, ok, ◌==◌, eq_list, eq_nat, All, arith, Bool-cases, list_beq_iff,
}
use pombo_storage_node.Base.Text.{Text}
use pombo_storage_node.Base.Dict.{lookup, has_key, lookup-insert, lookup-erase, lookup-insert_self}
use pombo_storage_node.Base.Number.{Number, int, further_than}
use pombo_storage_node.Utils.MapWithTtl.{MapWithTtl, ValueWrapper, set, has, fire}
use pombo_storage_node.Utils.MapWithTtl.Laws.{absent, early, expired, fire-Fired}
use pombo_storage_node.Utils.EthereumAddress.{to_ethereum_address}
use pombo_storage_node.Storage.SignedRequest.{
  Value, number, Claimed, SignedRequestEnvelope, SignedRequestError, SignedRequestVerifier,
  max_clock_skew, is_envelope, nonce_ttl, nonce_key, signer_of, verify,
}
use mathlib.Core.Option.{some-injective}
use pombo_storage_node.Storage.SignedRequest.Accept.{
  Accepts, refused, accepted, verify-Outcome, verify_Accepts, verify-Accepts_iff, remembering,
}

-- What a verifier goes through: requests, each at its time, and timers of nonces.
pub data Call : Type 0 where
  request : ℕ → Claimed → Text → Text → Number → List Text → Call
  timer : ℕ → Text → Call

abbrev pub time_of : Call → ℕ
time_of (request now _ _ _ _ _) = now
time_of (timer now _) = now

module _ (verify_message : Text → Text → Option Text) where
  unfoldable pub step : Call → SignedRequestVerifier → SignedRequestVerifier
  step (request now claimed purpose stream_id partition lines) v =
      (verify verify_message now v claimed purpose stream_id partition lines).1
  step (timer now key) v = record v { seen_nonces = fire now key v.seen_nonces }

  unfoldable pub run : List Call → SignedRequestVerifier → SignedRequestVerifier
  unfolding step
  run [] v = v
  run (c ∷ cs) v = run cs (step c v)

  -- A nonce is remembered at least until a time.
  abbrev Remembers : ℕ → Text → SignedRequestVerifier → Type 0
  Remembers until key v =
      (w : ValueWrapper (Unit {0})) × (lookup key v.seen_nonces ≡ some w) × (until ≤ w.due)

  set-Remembers :
      (until now : ℕ) (key other : Text) (m : MapWithTtl Text (Unit {0}))
      → until ≤ now + 2 * max_clock_skew
      → Remembers until key (record { seen_nonces = m })
      → Remembers until key (record { seen_nonces = set nonce_ttl now other tt m })
  unfolding set
  set-Remembers until now key other m h (w, found, late) = elim (Bool-cases (other == key)) [
    | inl same ↦ (
      record { value = tt; due = now + 2 * max_clock_skew },
      rw (lookup-insert other key (record { value = tt; due = now + 2 * max_clock_skew }) m, same),
      h,
    )
    | inr apart ↦ (
      w,
      rw (lookup-insert other key (record { value = tt; due = now + 2 * max_clock_skew }) m, apart)
          found,
      late,
    )
  ]

  step-Remembers :
      (until : ℕ) (key : Text) (c : Call) (v : SignedRequestVerifier)
      → until ≤ time_of c + 2 * max_clock_skew
      → time_of c < until
      → Remembers until key v
      → Remembers until key (step c v)
  unfolding step
  step-Remembers until key (request now claimed purpose stream_id partition lines) v late soon r =
      elim (verify-Outcome verify_message now v claimed purpose stream_id partition lines) [
        | refused e same ↦
            subst
              (λ (p : Result SignedRequestError Text × SignedRequestVerifier).
                Remembers until key p.1)
              (sym same) r
        | accepted user a same ↦
            subst
              (λ (p : Result SignedRequestError Text × SignedRequestVerifier).
                Remembers until key p.1)
              (sym same)
              (set-Remembers until now key (nonce_key user a.envelope.nonce) v.seen_nonces late r)
      ]
  step-Remembers until key (timer now other) v late soon (w, found, long) =
      elim (fire-Fired now other v.seen_nonces) [
        | absent missing same ↦ (w, rw same found, long)
        | early w' found' running same ↦ (w, rw same found, long)
        | expired w' found' over same ↦ elim (Bool-cases (other == key)) [
          | inl equal ↦
              let twice : some w' ≡ some w =
                sym found'
                ∙ subst (λ k. lookup k v.seen_nonces ≡ some w)
                    (sym ((list_beq_iff other key).0 equal)) found in
              absurd (
                omega
                  (arith, ap (λ (x : ValueWrapper (Unit {0})). x.due) (some-injective w' w twice)))
          | inr apart ↦ (w, rw (same, lookup-erase other key v.seen_nonces, apart) found, long)
        ]
      ]

  run-Remembers :
      (until : ℕ) (key : Text) (cs : List Call) (v : SignedRequestVerifier)
      → All (λ c. (until ≤ time_of c + 2 * max_clock_skew) × (time_of c < until)) cs
      → Remembers until key v
      → Remembers until key (run cs v)
  unfolding run
  run-Remembers until key [] v h r = r
  run-Remembers until key (c ∷ cs) v ((late, soon), h) r =
      run-Remembers until key cs (step c v) h (step-Remembers until key c v late soon r)

  envelope_date :
      (user issued_at nonce signature : Value) (x : ℕ) (envelope : SignedRequestEnvelope)
      → issued_at ≡ number (int x)
      → is_envelope user issued_at nonce signature ≡ some envelope
      → envelope.issued_at ≡ int x
  unfolding is_envelope
  envelope_date user issued_at nonce signature x envelope dated shaped = ground arith

  pub signer_user :
      (envelope : SignedRequestEnvelope) (message user signer : Text)
      → signer_of verify_message envelope message ≡ some (user, signer)
      → to_ethereum_address envelope.user ≡ some user
  unfolding signer_of
  signer_user envelope message user signer h = ground arith

  recent_bound : (t x : ℕ) → further_than max_clock_skew t (int x) ≡ false → t ≤ x + max_clock_skew
  unfolding further_than
  recent_bound t x h = ground arith

  Remembers-has :
      (until : ℕ) (key : Text) (v : SignedRequestVerifier)
      → Remembers until key v
      → has key v.seen_nonces ≡ true
  unfolding has has_key
  Remembers-has until key v (w, found, late) = rw (found, has_key)

  within_until :
      (t₁ t₂ : ℕ) (cs : List Call)
      → t₂ < t₁ + 2 * max_clock_skew
      → All (λ c. (t₁ ≤ time_of c) × (time_of c ≤ t₂)) cs
      → All
          (λ c.
            (t₁ + 2 * max_clock_skew ≤ time_of c + 2 * max_clock_skew)
            × (time_of c < t₁ + 2 * max_clock_skew))
          cs
  within_until t₁ t₂ [] h a = tt
  within_until t₁ t₂ (c ∷ cs) h ((late, soon), a) =
      ((omega arith, omega arith), within_until t₁ t₂ cs h a)

  -- A claim that was accepted is still remembered at any time at which its date is recent.
  accepted_remembered :
      (t₁ t₂ x : ℕ) (v : SignedRequestVerifier) (claimed : Claimed) (user : Text)
      (purpose stream_id : Text) (partition : Number) (lines : List Text) (history : List Call)
      (a : Accepts verify_message t₁ v claimed purpose stream_id partition lines user)
      → t₂ ≤ x + max_clock_skew
      → x < t₁ + max_clock_skew
      → All (λ c. (t₁ ≤ time_of c) × (time_of c ≤ t₂)) history
      → has
          (nonce_key user a.envelope.nonce)
          (run history
            (verify verify_message t₁ v claimed purpose stream_id partition lines).1).seen_nonces
        ≡ true
  unfolding set
  accepted_remembered t₁ t₂ x v claimed user purpose stream_id partition lines history a recent
        before within =
      Remembers-has (t₁ + 2 * max_clock_skew) _ _ (
        run-Remembers (t₁ + 2 * max_clock_skew) _ history _
          (within_until t₁ t₂ history (omega arith) within)
          (subst
            (λ (p : Result SignedRequestError Text × SignedRequestVerifier).
              Remembers (t₁ + 2 * max_clock_skew) (nonce_key user a.envelope.nonce) p.1)
            (sym
              (verify_Accepts verify_message t₁ v claimed purpose stream_id partition lines user a))
            remembered))
    where
      w : ValueWrapper (Unit {0})
      w = record { value = tt; due = t₁ + 2 * max_clock_skew }

      remembered : Remembers (t₁ + 2 * max_clock_skew) (nonce_key user a.envelope.nonce) (
          remembering verify_message t₁ v claimed purpose stream_id partition lines user
            a.envelope.nonce)
      remembered =
          (w, lookup-insert_self (nonce_key user a.envelope.nonce) w v.seen_nonces, omega arith)

  -- A request dated by an integer that was accepted is never accepted again, for any purpose, stream
  -- or payload and whatever requests and timers came in between, provided that it was not dated a
  -- full clock skew after the node's clock at the first time.
  pub verify-run-verify :
      (t₁ t₂ x : ℕ) (v : SignedRequestVerifier) (claimed : Claimed) (user other : Text)
      (purpose purpose' stream_id stream_id' : Text) (partition partition' : Number)
      (lines lines' : List Text) (history : List Call)
      → claimed.issued_at ≡ number (int x)
      → x < t₁ + max_clock_skew
      → (verify verify_message t₁ v claimed purpose stream_id partition lines).0 ≡ ok user
      → All (λ c. (t₁ ≤ time_of c) × (time_of c ≤ t₂)) history
      → (verify verify_message t₂
          (run history (verify verify_message t₁ v claimed purpose stream_id partition lines).1)
          claimed
          purpose'
          stream_id'
          partition'
          lines').0
        ≢ ok other
  verify-run-verify t₁ t₂ x v claimed user other purpose purpose' stream_id stream_id' partition
        partition' lines lines' history dated before accepted₁ within accepted₂ =
      let a₁ =
        (verify-Accepts_iff verify_message t₁ v claimed purpose stream_id partition lines user).0
          accepted₁ in
      let a₂ =
        (verify-Accepts_iff verify_message t₂ _ claimed purpose' stream_id' partition' lines'
            other).0
          accepted₂ in
      let same : a₁.envelope ≡ a₂.envelope = cc (a₁.shaped, a₂.shaped) in
      let date =
        envelope_date claimed.user claimed.issued_at claimed.nonce claimed.signature x a₂.envelope
          dated a₂.shaped in
      let recent = recent_bound t₂ x (rw date at a₂.recent) in
      let one = signer_user a₁.envelope _ user user a₁.signed in
      let two = signer_user a₂.envelope _ other other a₂.signed in
      let users : user ≡ other =
        cc (one, two, ap (λ (e : SignedRequestEnvelope). to_ethereum_address e.user) same) in
      let keys : nonce_key user a₁.envelope.nonce ≡ nonce_key other a₂.envelope.nonce =
        cc (users, same) in
      cc (
        accepted_remembered t₁ t₂ x v claimed user purpose stream_id partition lines history a₁
            recent before within,
        a₂.fresh,
        keys,
      )

-- ===== src/Storage/IngestValidator/Verdicts.antt =====
-- Which messages are kept out of the storage, and that no outage keeps one out.
use pombo_storage_node.Base.{
  ◌≡◌, refl, sym, ◌∙◌, ap, ◌↔◌, ◌⊎◌, inl, inr, Bool, true, false, Option, none, some, Result, ok,
  err, ◌==◌, eq_list, eq_nat, ◌+◌, subst, arith, Option-cases, Result-cases, Bool-cases,
}
use pombo_storage_node.Base.Text.{Text, ends_with, Lacks}
use pombo_storage_node.Utils.EthereumAddress.{to_ethereum_address-Lacks}
use pombo_storage_node.Storage.Outside.{
  Outside, ErrorCode, invalid_signature, missing_permission, invalid_partition,
  signature_policy_violation,
}
use pombo_storage_node.Storage.PomboGates.{PomboGates, GateInfo, get_gate}
use pombo_storage_node.Storage.PomboGates.Uncached.{resolve}
use pombo_storage_node.Storage.PomboGates.Agrees.{Agrees, is_moderator-Answers}
use pombo_storage_node.Storage.PomboGates.Transparent.{get_gate-Answers}
use pombo_storage_node.Storage.IngestValidator.{
  Message, conversation_stream_suffix, is_definitive, Reason, failed_validation,
  unrecoverable_signer, read_only, IngestVerdict, store, discard, IngestValidator,
  get_message_signer, enforce_signer, enforce_gate, reject, enforce_read_only, validate,
  is_storable_message, message_listener,
}

-- The failures of a validation that are no failure of the chain.
abbrev pub Definitive : ErrorCode → Type 0
Definitive code =
    (code ≡ invalid_signature)
    ⊎ (code ≡ missing_permission)
    ⊎ (code ≡ invalid_partition)
    ⊎ (code ≡ signature_policy_violation)

is_definitive-Definitive : (code : ErrorCode) → is_definitive code ≡ true → Definitive code
unfolding is_definitive
is_definitive-Definitive code h = ground arith

Definitive-is_definitive : (code : ErrorCode) → Definitive code → is_definitive code ≡ true
unfolding is_definitive
Definitive-is_definitive code h = ground arith

get_message_signer-Lacks :
    (recover : Message → Option Text) (msg : Message) (signer : Text)
    → get_message_signer recover msg ≡ some signer
    → Lacks b'_' signer
unfolding get_message_signer
get_message_signer-Lacks recover msg signer h = elim (Option-cases (recover msg)) [
  | inl missing ↦ cc (rw (get_message_signer, missing) at h)
  | inr (account, found) ↦
      to_ethereum_address-Lacks account signer (rw (get_message_signer, found) at h)
]

module _ (recover : Message → Option Text) (out : Outside)
    (validate_message : Message → Result ErrorCode (Unit {0})) (msg : Message)
    (v : IngestValidator) where
  -- The stream is a conversation of a channel that is read-only and shows its members.
  pub record Restricted (gate : GateInfo) : Type 0 where
    pub valid : validate_message msg ≡ ok tt
    pub conversation : ends_with conversation_stream_suffix msg.stream_id ≡ true
    pub gated : resolve out msg.stream_id ≡ ok (some gate)
    pub is_read_only : gate.read_only ≡ true
    pub is_visible : gate.visible ≡ true

  -- What it takes for a message to be kept out.
  pub data Rejected : Reason → Type 0 where
    invalid :
        (code : ErrorCode)
        → validate_message msg ≡ err code
        → Definitive code
        → Rejected (failed_validation code)
    unsigned :
        (gate : GateInfo)
        → Restricted gate
        → get_message_signer recover msg ≡ none
        → Rejected unrecoverable_signer
    outsider :
        (gate : GateInfo) (signer : Text)
        → Restricted gate
        → get_message_signer recover msg ≡ some signer
        → (signer == gate.owner) ≡ false
        → out.gate_moderators gate.address signer ≡ ok false
        → Rejected read_only

  abbrev Judged : IngestVerdict → Type 0
  Judged verdict =
      (verdict ≡ store) ⊎ ((reason : Reason) × (verdict ≡ discard reason) × Rejected reason)

  abbrev with_gates : PomboGates → IngestValidator
  with_gates g = record v { gates = g }

  enforce_signer-Judged :
      (gate : GateInfo) (signer : Text) (g : PomboGates)
      → Agrees out g
      → Restricted gate
      → get_message_signer recover msg ≡ some signer
      → Judged (enforce_signer recover out gate signer (with_gates g)).0
  unfolding enforce_signer
  enforce_signer-Judged gate signer g a restricted signed =
      let answers =
        is_moderator-Answers out gate.address signer g
          (get_message_signer-Lacks recover msg signer signed) a in
      elim (Bool-cases (signer == gate.owner)) [
        | inl owner ↦ inl (rw (enforce_signer, owner))
        | inr other ↦ elim (Result-cases (out.gate_moderators gate.address signer)) [
          | inr (e, said) ↦ inl (rw (enforce_signer, other, answers.0, said))
          | inl (moderates, said) ↦ elim (Bool-cases moderates) [
            | inl granted ↦ inl (rw (enforce_signer, other, answers.0, said, granted))
            | inr denied ↦ inr (
              read_only,
              rw (enforce_signer, other, answers.0, said, denied, reject),
              outsider gate signer restricted signed other (said ∙ ap ok denied),
            )
          ]
        ]
      ]

  -- The gate is asked for only for a valid message of a conversation.
  record Asked (gate : Option GateInfo) : Type 0 where
    valid : validate_message msg ≡ ok tt
    conversation : ends_with conversation_stream_suffix msg.stream_id ≡ true
    gated : resolve out msg.stream_id ≡ ok gate

  enforce_gate-Judged :
      (gate : Option GateInfo) (g : PomboGates)
      → Agrees out g
      → Asked gate
      → Judged (enforce_gate recover out msg gate (with_gates g)).0
  unfolding enforce_gate
  enforce_gate-Judged none g a asked = inl refl
  enforce_gate-Judged (some gate) g a asked = elim (Bool-cases gate.read_only) [
    | inr writable ↦ inl (rw (enforce_gate, writable))
    | inl closed ↦ elim (Bool-cases gate.visible) [
      | inr sealed ↦ inl (rw (enforce_gate, closed, sealed))
      | inl shown ↦
          let restricted : Restricted gate = record {
            valid = asked.valid;
            conversation = asked.conversation;
            gated = asked.gated;
            is_read_only = closed;
            is_visible = shown;
          } in
          elim (Option-cases (get_message_signer recover msg)) [
            | inl lost ↦ inr (
              unrecoverable_signer,
              rw (enforce_gate, closed, shown, lost, reject),
              unsigned gate restricted lost,
            )
            | inr (signer, signed) ↦
                rw (enforce_gate, closed, shown, signed)
                  (enforce_signer-Judged gate signer g a restricted signed)
          ]
    ]
  ]

  enforce_read_only-Judged :
      Agrees out v.gates
      → validate_message msg ≡ ok tt
      → Judged (enforce_read_only recover out msg v).0
  unfolding enforce_read_only
  enforce_read_only-Judged a valid =
      let answers = get_gate-Answers out msg.stream_id v.gates a in
      elim (Bool-cases (ends_with conversation_stream_suffix msg.stream_id)) [
        | inr elsewhere ↦ inl (rw (enforce_read_only, elsewhere))
        | inl conversation ↦ elim (Result-cases (resolve out msg.stream_id)) [
          | inr (e, said) ↦ inl (rw (enforce_read_only, conversation, answers.0, said))
          | inl (gate, said) ↦
              rw (enforce_read_only, conversation, answers.0, said)
                (enforce_gate-Judged gate (get_gate out msg.stream_id v.gates).1 answers.1
                  (record { valid = valid; conversation = conversation; gated = said }))
        ]
      ]

  validate-Judged : Agrees out v.gates → Judged (validate recover out validate_message msg v).0
  unfolding validate
  validate-Judged a = elim (Result-cases (validate_message msg)) [
    | inr (code, failed) ↦ elim (Bool-cases (is_definitive code)) [
      | inl definitive ↦ inr (
        failed_validation code,
        rw (validate, failed, definitive, reject),
        invalid code failed (is_definitive-Definitive code definitive),
      )
      | inr outage ↦ inl (rw (validate, failed, outage))
    ]
    | inl (tt, valid) ↦ rw (validate, valid) (enforce_read_only-Judged a valid)
  ]

  -- What is kept out is kept out with its reason.
  Restricted-validate :
      (gate : GateInfo)
      → Agrees out v.gates
      → Restricted gate
      → ((g : PomboGates) × Agrees out g
          × ((validate recover out validate_message msg v) ≡ elim (get_message_signer recover msg) [
            | none ↦ (
              discard unrecoverable_signer,
              record v { gates = g; rejected_messages = v.rejected_messages + 1 },
            )
            | some signer ↦ enforce_signer recover out gate signer (with_gates g)
          ]))
  unfolding validate enforce_read_only enforce_gate
  Restricted-validate gate a r =
      let answers = get_gate-Answers out msg.stream_id v.gates a in
      (
        (get_gate out msg.stream_id v.gates).1,
        answers.1,
        rw (
          validate, r.valid, enforce_read_only, r.conversation, answers.0, r.gated, enforce_gate,
          r.is_read_only, r.is_visible, reject,
        ),
      )

  Rejected-validate :
      (reason : Reason)
      → Agrees out v.gates
      → Rejected reason
      → (validate recover out validate_message msg v).0 ≡ discard reason
  unfolding validate enforce_signer
  Rejected-validate _ a (invalid code failed definitive) =
      rw (validate, failed, Definitive-is_definitive code definitive, reject)
  Rejected-validate _ a (unsigned gate r lost) =
      let (g, agrees, same) = Restricted-validate gate a r in rw (same, lost)
  Rejected-validate _ a (outsider gate signer r signed other denied) =
      let (g, agrees, same) = Restricted-validate gate a r in
      let answers =
        is_moderator-Answers out gate.address signer g
          (get_message_signer-Lacks recover msg signer signed) agrees in
      rw (same, signed, enforce_signer, other, answers.0, denied, reject)

  -- Where the caches agree with the chain, a message is rejected for a reason exactly if its validation
  -- failed with an invalid signature, a missing permission, an invalid partition or a violated
  -- signature policy, or its stream is the conversation of a read-only Visible channel and
  -- its signer cannot be recovered or is neither the owner nor a moderator.
  pub validate-eq-discard_iff :
      (reason : Reason)
      → Agrees out v.gates
      → ((validate recover out validate_message msg v).0 ≡ discard reason) ↔ Rejected reason
  validate-eq-discard_iff reason a = (forth, λ r. Rejected-validate reason a r)
    where
      discard_injective : (r r' : Reason) → discard r ≡ discard r' → r ≡ r'
      discard_injective r r' h = cc

      forth : (validate recover out validate_message msg v).0 ≡ discard reason → Rejected reason
      forth h = elim (validate-Judged a) [
        | inl stored ↦ cc (stored, h)
        | inr (other, same, r) ↦ subst Rejected (discard_injective other reason (sym same ∙ h)) r
      ]

  -- Where the caches agree with the chain, the listener passes a message on to the storage exactly if
  -- it is a content message of a stream part that is assigned to the node, its validation did not fail
  -- with an invalid signature, a missing permission, an invalid partition or a violated signature
  -- policy, and it is not to the conversation of a read-only Visible channel from a signer who cannot
  -- be recovered or is neither the owner nor a moderator.
  pub message_listener-eq-some_iff :
      (has_stream_part : Message → Bool)
      → Agrees out v.gates
      → ((message_listener recover out validate_message has_stream_part msg v).0
          ≡ some (msg, out.now))
        ↔ ((is_storable_message msg ≡ true)
            × (has_stream_part msg ≡ true)
            × ((reason : Reason) → ¬ Rejected reason))
  unfolding message_listener
  message_listener-eq-some_iff has_stream_part a = elim (Bool-cases (is_storable_message msg)) [
    | inr other ↦ (λ h. cc (rw (message_listener, other) at h), λ h. cc (other, h.0))
    | inl storable ↦ elim (Bool-cases (has_stream_part msg)) [
      | inr elsewhere ↦
          (λ h. cc (rw (message_listener, storable, elsewhere) at h), λ h. cc (elsewhere, h.1))
      | inl assigned ↦ elim (validate-Judged a) [
        | inl stored ↦ (
          λ h. (storable, assigned, λ reason r. cc (stored, Rejected-validate reason a r)),
          λ h. rw (message_listener, storable, assigned, stored),
        )
        | inr (reason, same, r) ↦ (
          λ h. cc (rw (message_listener, storable, assigned, same) at h),
          λ h. absurd (h.2 reason r),
        )
      ]
    ]
  ]

-- ===== src/Storage/SignedReads/Serves.antt =====
-- When the guard of signedReads.ts passes a request on to the endpoint.
use pombo_storage_node.Base.{
  ◌≡◌, refl, ◌∙◌, ap, ◌↔◌, ◌⊎◌, inl, inr, Bool, true, false, Option, none, some, if◌then◌else◌, ok,
  err, Option-cases, Result-cases, Bool-cases,
}
use pombo_storage_node.Base.Text.{Text, ends_with}
use pombo_storage_node.Base.Number.{Number, parse_int, is_nan}
use pombo_storage_node.Storage.Outside.{Outside, ErrorCode, public_subscribe, user_subscribe}
use pombo_storage_node.Storage.PomboGates.{GateInfo, is_not_found}
use pombo_storage_node.Storage.PomboGates.Uncached.{resolve, admits}
use pombo_storage_node.Storage.PomboGates.Agrees.{Agrees}
use pombo_storage_node.Storage.SignedReads.{
  Request, Ending, next, stream_not_found_404, unavailable_503, AccessCheck, holds_subscribe,
  passes_gate, ends, check, pick_rule, State, verify_read, guard_closed, guard, open_stream_suffix,
}
use pombo_storage_node.Storage.SignedReads.Rules.{
  allowed, admit-eq-next_iff, verify-Lacks, known, picked_of, pick_rule-eq,
}

module _ (verify_message : Text → Text → Option Text) (to_number : Text → Number) (out : Outside)
    (req : Request) (s : State) where
  -- The request is accepted as one of a user to read.
  abbrev pub Verified : Text → Type 0
  Verified user = (verify_read verify_message to_number out req s.verifier).0 ≡ ok user

  -- What it takes for a closed stream's request to be served.
  pub data MayServe : Type 0 where
    gate_unavailable :
        (e : ErrorCode)
        → resolve out req.id ≡ err e
        → is_not_found e ≡ false
        → known out req.id s.gates ≡ true
        → MayServe
    public_unavailable :
        (e : ErrorCode)
        → resolve out req.id ≡ ok none
        → out.has_permission (public_subscribe req.id) ≡ err e
        → known out req.id s.gates ≡ true
        → MayServe
    public_stream :
        resolve out req.id ≡ ok none
        → out.has_permission (public_subscribe req.id) ≡ ok true
        → MayServe
    subscriber :
        (user : Text)
        → resolve out req.id ≡ ok none
        → out.has_permission (public_subscribe req.id) ≡ ok false
        → Verified user
        → out.has_permission (user_subscribe req.id user) ≡ ok true
        → MayServe
    admitted :
        (info : GateInfo) (user : Text)
        → resolve out req.id ≡ ok (some info)
        → Verified user
        → admits out info user ≡ ok true
        → MayServe

  guard_closed-ends :
      (ending : Ending)
      → (pick_rule out req.id s.gates).0 ≡ ends ending
      → (guard_closed verify_message to_number out req s).0 ≡ ending
  unfolding guard_closed
  guard_closed-ends ending h = rw (guard_closed, h)

  guard_closed-check :
      (rule : AccessCheck)
      → Agrees out (pick_rule out req.id s.gates).1
      → (pick_rule out req.id s.gates).0 ≡ check rule
      → ((guard_closed verify_message to_number out req s).0 ≡ next)
        ↔ ((user : Text) × Verified user × (allowed out req.id rule user ≡ ok true))
  unfolding guard_closed
  guard_closed-check rule a h =
      rw (guard_closed, h)
        (admit-eq-next_iff out req.id rule
          (verify_read verify_message to_number out req s.verifier).0
          (pick_rule out req.id s.gates).1
          (λ user. verify-Lacks verify_message to_number out req s.verifier user) a)

  guard_closed-eq-next_iff :
      Agrees out s.gates → ((guard_closed verify_message to_number out req s).0 ≡ next) ↔ MayServe
  guard_closed-eq-next_iff a = (serves, served)
    where
      rule :
          ((pick_rule out req.id s.gates).0
            ≡ picked_of out req.id s.gates
                (resolve out req.id)
                (out.has_permission (public_subscribe req.id)))
          × Agrees out (pick_rule out req.id s.gates).1
      rule = pick_rule-eq out req.id s.gates a

      unless_known :
          (known out req.id s.gates ≡ true → MayServe)
          → (pick_rule out req.id s.gates).0
            ≡ (if known out req.id s.gates then ends next else ends unavailable_503)
          → (guard_closed verify_message to_number out req s).0 ≡ next
          → MayServe
      unless_known serve picked h = elim (Bool-cases (known out req.id s.gates)) [
        | inl old ↦ serve old
        | inr fresh ↦ cc (guard_closed-ends unavailable_503 (picked ∙ (rw fresh)), h)
      ]

      ungated :
          resolve out req.id ≡ ok none
          → (guard_closed verify_message to_number out req s).0 ≡ next
          → MayServe
      ungated said h = elim (Result-cases (out.has_permission (public_subscribe req.id))) [
        | inr (e, unsaid) ↦
            unless_known (public_unavailable e said unsaid) (rule.0 ∙ (rw (said, unsaid))) h
        | inl (b, told) ↦ elim (Bool-cases b) [
          | inl granted ↦ public_stream said (told ∙ ap ok granted)
          | inr denied ↦
              let (user, verified, may) =
                (guard_closed-check holds_subscribe rule.1 (rule.0 ∙ (rw (said, told, denied)))).0
                  h in
              subscriber user said (told ∙ ap ok denied) verified may
        ]
      ]

      serves : (guard_closed verify_message to_number out req s).0 ≡ next → MayServe
      serves h = elim (Result-cases (resolve out req.id)) [
        | inr (e, said) ↦ elim (Bool-cases (is_not_found e)) [
          | inl gone ↦ cc (guard_closed-ends stream_not_found_404 (rule.0 ∙ (rw (said, gone))), h)
          | inr other ↦ unless_known (gate_unavailable e said other) (rule.0 ∙ (rw (said, other))) h
        ]
        | inl (gate, said) ↦ elim (Option-cases gate) [
          | inl open_gate ↦ ungated (said ∙ ap ok open_gate) h
          | inr (info, gated) ↦
              let (user, verified, may) =
                (guard_closed-check (passes_gate info) rule.1 (rule.0 ∙ (rw (said, gated)))).0 h in
              admitted info user (said ∙ ap ok gated) verified may
        ]
      ]

      served : MayServe → (guard_closed verify_message to_number out req s).0 ≡ next
      served (gate_unavailable e said other old) =
          guard_closed-ends next (rule.0 ∙ (rw (said, other, old)))
      served (public_unavailable e said unsaid old) =
          guard_closed-ends next (rule.0 ∙ (rw (said, unsaid, old)))
      served (public_stream said granted) = guard_closed-ends next (rule.0 ∙ (rw (said, granted)))
      served (subscriber user said denied verified granted) =
          (guard_closed-check holds_subscribe rule.1 (rule.0 ∙ (rw (said, denied)))).1
            (user, verified, granted)
      served (admitted info user said verified granted) =
          (guard_closed-check (passes_gate info) rule.1 (rule.0 ∙ (rw said))).1
            (user, verified, granted)

  -- Where the caches agree with the chain, the guard passes a request on exactly if it is switched
  -- off, or the partition is no number, or the stream's id ends in `-3`, or the stream is public, or it
  -- was last seen to be public and the chain cannot be asked, or the request is accepted as one of a
  -- user who may subscribe to the stream, if it has no gate, or whom its gate admits.
  pub guard-eq-next_iff :
      (enabled : Bool)
      → Agrees out s.gates
      → ((guard verify_message to_number enabled out req s).0 ≡ next) ↔ (
          (enabled ≡ false)
          ⊎ (is_nan (parse_int req.partition) ≡ true)
          ⊎ (ends_with open_stream_suffix req.id ≡ true)
          ⊎ MayServe)
  unfolding guard
  guard-eq-next_iff false a = (λ h. inl refl, λ h. refl)
  guard-eq-next_iff true a = elim (Bool-cases (is_nan (parse_int req.partition))) [
    | inl unnumbered ↦ (λ h. inr (inl unnumbered), λ h. rw (guard, unnumbered))
    | inr numbered ↦ elim (Bool-cases (ends_with open_stream_suffix req.id)) [
      | inl public_suffix ↦
          (λ h. inr (inr (inl public_suffix)), λ h. rw (guard, numbered, public_suffix))
      | inr closed ↦
          let closed_iff = guard_closed-eq-next_iff a in
          (
            λ h. inr (inr (inr (closed_iff.0 (rw (guard, numbered, closed) at h)))),
            λ h. elim h [
              | inl off ↦ cc off
              | inr (inl unnumbered) ↦ cc (unnumbered, numbered)
              | inr (inr (inl suffix)) ↦ cc (suffix, closed)
              | inr (inr (inr serve)) ↦ rw (guard, numbered, closed) (closed_iff.1 serve)
            ],
          )
    ]
  ]

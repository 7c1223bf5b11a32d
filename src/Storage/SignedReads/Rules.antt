-- ===== src/Storage/SignedReads/Rules.antt =====
-- The access rule that the guard of signedReads.ts picks, and whom it lets through.
use pombo_storage_node.Base.{
  arith, ◌≡◌, refl, sym, ◌∙◌, ap, ◌↔◌, inl, inr, Bool, true, false, Option, none, some,
  if◌then◌else◌, Result, ok, err, Option-cases, Result-cases,
}
use pombo_storage_node.Base.Text.{Text, Lacks}
use pombo_storage_node.Base.Number.{Number}
use pombo_storage_node.Utils.EthereumAddress.{to_ethereum_address-Lacks}
use pombo_storage_node.Storage.Outside.{Outside, ErrorCode, public_subscribe, user_subscribe}
use pombo_storage_node.Storage.PomboGates.{
  PomboGates, GateInfo, is_not_found, get_gate, is_public_subscribe, was_last_seen_public,
}
use pombo_storage_node.Storage.PomboGates.Uncached.{resolve, admits}
use pombo_storage_node.Storage.PomboGates.Agrees.{
  Agrees, Answers, has_subscribe-Answers, is_public_subscribe-Answers,
}
use pombo_storage_node.Storage.PomboGates.Transparent.{get_gate-Answers, gate_admits-Answers}
use pombo_storage_node.Storage.SignedRequest.{SignedRequestError, SignedRequestVerifier}
use pombo_storage_node.Storage.SignedRequest.Accept.{verify-Accepts_iff}
use pombo_storage_node.Storage.SignedRequest.Replay.{signer_user}
use pombo_storage_node.Storage.SignedReads.{
  Request, Ending, next, stream_not_found_404, unavailable_503, no_access_403, AccessCheck,
  holds_subscribe, passes_gate, Picked, ends, check, pick_public, pick_rule, access_check, admit,
  verify_read,
}

-- A question that failed leaves the gates as they were.
is_public_subscribe-err :
    (out : Outside) (stream_id : Text) (g : PomboGates) (e : ErrorCode)
    → (is_public_subscribe out stream_id g).0 ≡ err e
    → (is_public_subscribe out stream_id g).1 ≡ g
unfolding is_public_subscribe
is_public_subscribe-err out stream_id g e = ground arith

-- What the chain says of a user and a rule.
abbrev pub allowed : Outside → Text → AccessCheck → Text → Result ErrorCode Bool
allowed out stream_id holds_subscribe user = out.has_permission (user_subscribe stream_id user)
allowed out stream_id (passes_gate info) user = admits out info user

access_check-Answers :
    (out : Outside) (stream_id : Text) (rule : AccessCheck) (user : Text) (g : PomboGates)
    → Lacks b'_' user
    → Agrees out g
    → Answers out (access_check out stream_id rule user g) (allowed out stream_id rule user)
unfolding access_check
access_check-Answers out stream_id holds_subscribe user g plain a =
    has_subscribe-Answers out stream_id user g plain a
access_check-Answers out stream_id (passes_gate info) user g plain a =
    gate_admits-Answers out info user g plain a

abbrev answered : Result ErrorCode Bool → Ending
answered (err e) = unavailable_503
answered (ok b) = if b then next else no_access_403

answered-eq-next_iff : (r : Result ErrorCode Bool) → (answered r ≡ next) ↔ (r ≡ ok true)
answered-eq-next_iff (err e) = (λ h. cc h, λ h. cc h)
answered-eq-next_iff (ok true) = (λ h. refl, λ h. refl)
answered-eq-next_iff (ok false) = (λ h. cc h, λ h. cc h)

admit-ok :
    (out : Outside) (stream_id : Text) (rule : AccessCheck) (user : Text) (g : PomboGates)
    → Lacks b'_' user
    → Agrees out g
    → (admit out stream_id rule (ok user) g).0 ≡ answered (allowed out stream_id rule user)
unfolding admit
admit-ok out stream_id rule user g plain a =
    let answers = access_check-Answers out stream_id rule user g plain a in
    elim (Result-cases (allowed out stream_id rule user)) [
      | inr (e, said) ↦ rw (admit, answers.0, said)
      | inl (b, said) ↦ rw (admit, answers.0, said)
    ]

-- Past the verification, only a verified user whom the chain allows is let through.
pub admit-eq-next_iff :
    (out : Outside) (stream_id : Text) (rule : AccessCheck) (r : Result SignedRequestError Text)
    (g : PomboGates)
    → ((user : Text) → r ≡ ok user → Lacks b'_' user)
    → Agrees out g
    → ((admit out stream_id rule r g).0 ≡ next)
      ↔ ((user : Text) × (r ≡ ok user) × (allowed out stream_id rule user ≡ ok true))
unfolding admit
admit-eq-next_iff out stream_id rule (err e) g plain a = (λ h. cc h, λ (u, h, k). cc h)
admit-eq-next_iff out stream_id rule (ok user) g plain a =
    let same = admit-ok out stream_id rule user g (plain user refl) a in
    let goal = answered-eq-next_iff (allowed out stream_id rule user) in
    (λ h. (user, refl, goal.0 (sym same ∙ h)), λ (other, h, k). same ∙ goal.1 (cc (h, k)))

-- A user whom `verify` returned is an address.
pub verify-Lacks :
    (verify_message : Text → Text → Option Text) (to_number : Text → Number) (out : Outside)
    (req : Request) (v : SignedRequestVerifier) (user : Text)
    → (verify_read verify_message to_number out req v).0 ≡ ok user
    → Lacks b'_' user
unfolding verify_read
verify-Lacks verify_message to_number out req v user h =
    let a = (verify-Accepts_iff verify_message out.now v _ _ _ _ _ user).0 h in
    to_ethereum_address-Lacks a.envelope.user user
      (signer_user verify_message a.envelope _ user user a.signed)

module _ (out : Outside) (stream_id : Text) (g : PomboGates) where
  -- Whether the stream counts as public, once its gate was asked for.
  abbrev pub known : Bool
  known = was_last_seen_public stream_id (get_gate out stream_id g).1

  abbrev is_public : Result ErrorCode Bool
  is_public = out.has_permission (public_subscribe stream_id)

  -- The rule, or the end, of a stream by the chain's answers.
  abbrev pub picked_of : Result ErrorCode (Option GateInfo) → Result ErrorCode Bool → Picked
  picked_of (err e) p =
      if is_not_found e
      then ends stream_not_found_404
      else if known
      then ends next
      else ends unavailable_503
  picked_of (ok (some info)) p = check (passes_gate info)
  picked_of (ok none) (err e) = if known then ends next else ends unavailable_503
  picked_of (ok none) (ok b) = if b then ends next else check holds_subscribe

  pick_public-eq :
      (g' : PomboGates)
      → Agrees out g'
      → was_last_seen_public stream_id g' ≡ known
      → ((pick_public out stream_id g').0 ≡ picked_of (ok none) is_public)
        × Agrees out (pick_public out stream_id g').1
  unfolding pick_public
  pick_public-eq g' a same =
      let answers = is_public_subscribe-Answers out stream_id g' a in
      elim (Result-cases is_public) [
        | inl (b, said) ↦ rw (pick_public, answers.0, said) (refl, answers.1)
        | inr (e, said) ↦
            rw (pick_public, answers.0, said)
              (
                ap (λ b. if b then ends next else ends unavailable_503)
                    (ap (was_last_seen_public stream_id)
                        (is_public_subscribe-err out stream_id g' e (answers.0 ∙ said))
                      ∙ same),
                answers.1,
              )
      ]

  pub pick_rule-eq :
      Agrees out g
      → ((pick_rule out stream_id g).0 ≡ picked_of (resolve out stream_id) is_public)
        × Agrees out (pick_rule out stream_id g).1
  unfolding pick_rule
  pick_rule-eq a =
      let answers = get_gate-Answers out stream_id g a in
      elim (Result-cases (resolve out stream_id)) [
        | inr (e, said) ↦ rw (pick_rule, answers.0, said) (refl, answers.1)
        | inl (gate, said) ↦ elim (Option-cases gate) [
          | inr (info, gated) ↦ rw (pick_rule, answers.0, said, gated) (refl, answers.1)
          | inl ungated ↦
              rw (pick_rule, answers.0, said, ungated)
                (pick_public-eq (get_gate out stream_id g).1 answers.1 refl)
        ]
      ]

-- ===== src/Storage/StoredEndpoint/Entitled.antt =====
-- Whom the endpoint tells that a message is stored.
use pombo_storage_node.Base.{
  ◌≡◌, sym, ◌∙◌, ap, ◌⊎◌, inl, inr, Bool, true, false, Option, some, List, map, ok, err, eq_list,
  eq_nat, Bool-cases, Option-cases, Result-cases,
}
use pombo_storage_node.Base.Text.{Text, codes, Lacks}
use pombo_storage_node.Base.Number.{Number, is_nan, parse_int}
use pombo_storage_node.Utils.EthereumAddress.{to_ethereum_address-Lacks}
use pombo_storage_node.Storage.Outside.{Outside, ErrorCode}
use pombo_storage_node.Storage.PomboGates.{PomboGates, can_read, was_last_seen_public}
use pombo_storage_node.Storage.PomboGates.Uncached.{may_read}
use pombo_storage_node.Storage.PomboGates.Agrees.{Agrees}
use pombo_storage_node.Storage.PomboGates.Transparent.{can_read-Answers}
use pombo_storage_node.Storage.SignedRequest.Accept.{Accepts, refused, accepted, verify-Outcome}
use pombo_storage_node.Storage.SignedRequest.Replay.{signer_user}
use pombo_storage_node.Storage.IngestValidator.{Message}
use pombo_storage_node.Storage.PurgeEndpoint.{
  PurgeTarget, target_to_line, checked_targets, Request, State,
}
use mathlib.Core.Option.{some-injective}
use pombo_storage_node.Storage.StoredEndpoint.{
  Response, results_200, reads, stored_results, answer_signed, handler,
}

-- What the chain says of a signer, or what stands in for it while it cannot be asked.
abbrev pub MayKnow : Outside → Text → Text → PomboGates → Bool → Type 0
MayKnow out stream_id signer g may =
    (may_read out stream_id signer ≡ ok may)
    ⊎ ((e : ErrorCode) × (may_read out stream_id signer ≡ err e)
        × (may ≡ true)
        × (was_last_seen_public stream_id (can_read out stream_id signer g).1 ≡ true))

reads-MayKnow :
    (out : Outside) (stream_id signer : Text) (g : PomboGates) (may : Bool)
    → Lacks b'_' signer
    → Agrees out g
    → (reads out stream_id signer g).0 ≡ some may
    → MayKnow out stream_id signer g may
unfolding reads
reads-MayKnow out stream_id signer g may plain a h =
    let answers = can_read-Answers out stream_id signer g plain a in
    elim (Result-cases (may_read out stream_id signer)) [
      | inl (b, said) ↦ inl (said ∙ ap ok (some-injective b may (rw (reads, answers.0, said) at h)))
      | inr (e, failed) ↦
          elim (Bool-cases (was_last_seen_public stream_id (can_read out stream_id signer g).1)) [
            | inr fresh ↦ cc (rw (reads, answers.0, failed, fresh) at h)
            | inl old ↦ inr (
              e,
              failed,
              sym (some-injective true may (rw (reads, answers.0, failed, old) at h)),
              old,
            )
          ]
    ]

abbrev pub is_results : Response → Bool
is_results (results_200 _) = true
is_results _ = false

module _ (buckets_by_timestamp : Text → Number → Number → List Text)
    (buckets_between : Text → Number → List Number → List Text)
    (to_stream_message : Text → Option Message) (recover : Message → Option Text)
    (verify_message : Text → Text → Option Text) (out : Outside) (req : Request) (s : State) where
  abbrev answer : Response × State
  answer =
      handler buckets_by_timestamp buckets_between to_stream_message recover verify_message out req
        s

  -- The request was accepted as one of a user to ask about targets, and is answered by its rights.
  pub record Told : Type 0 where
    pub signer : Text
    pub targets : List PurgeTarget
    pub may : Bool
    pub checked : checked_targets req.targets ≡ some targets
    pub signed :
        Accepts verify_message out.now s.verifier req.claimed
          (codes "stored")
          req.id
          (parse_int req.partition)
          (map target_to_line targets)
          signer
    pub rights : MayKnow out req.id signer s.gates may
    pub told :
        answer.0
        ≡ results_200 (
            stored_results buckets_by_timestamp buckets_between to_stream_message recover req.id
              (parse_int req.partition)
              may
              signer
              s.table
              targets)

  -- Where the caches agree with the chain, a request is answered with an error, or it was accepted
  -- as one of a user to ask about its targets and is answered by what the chain says of that user's
  -- access, or as to a reader if the chain cannot be asked and the stream was last seen to be public.
  pub handler-Told : Agrees out s.gates → (is_results answer.0 ≡ false) ⊎ Told
  unfolding handler answer_signed
  handler-Told agrees = elim (Bool-cases (is_nan (parse_int req.partition))) [
    | inl bad ↦ inl (rw (handler, bad))
    | inr numbered ↦ elim (Option-cases (checked_targets req.targets)) [
      | inl unfit ↦ inl (rw (handler, numbered, unfit))
      | inr (targets, checked) ↦
          elim (verify-Outcome verify_message out.now s.verifier req.claimed (codes "stored") req.id
            (parse_int req.partition) (map target_to_line targets)) [
              | refused e same ↦ inl (rw (handler, numbered, checked, same))
              | accepted signer a same ↦ elim (Option-cases (reads out req.id signer s.gates).0) [
                | inl refusal ↦ inl (rw (handler, numbered, checked, same, answer_signed, refusal))
                | inr (may, rights) ↦ inr (record {
                  signer = signer;
                  targets = targets;
                  may = may;
                  checked = checked;
                  signed = a;
                  rights =
                      reads-MayKnow out req.id signer s.gates may
                        (to_ethereum_address-Lacks a.envelope.user signer
                          (signer_user verify_message a.envelope _ signer signer a.signed))
                        agrees rights;
                  told = rw (handler, numbered, checked, same, answer_signed, rights);
                })
              ]
            ]
    ]
  ]

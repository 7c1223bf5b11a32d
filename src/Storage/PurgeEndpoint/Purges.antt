-- ===== src/Storage/PurgeEndpoint/Purges.antt =====
-- Which rows a purge request removes.
use pombo_storage_node.Base.{
  ℕ, suc, ◌≡◌, ◌≢◌, ◌↔◌, refl, sym, ◌∙◌, ap, subst, inl, inr, Bool, true, false, ◌&&◌, not, Option,
  [], List, ◌∷◌, if◌then◌else◌, any, keep, length, nat_eq, ◌⊎◌, some, none, map, keep-ext,
  keep-keep, All-of, keep_every, eq_list, eq_nat, arith, Bool-cases,
}
use pombo_storage_node.Base.Text.{Text, codes}
use pombo_storage_node.Base.Number.{Number, eq_number, parse_int}
use pombo_storage_node.Storage.IngestValidator.{Message}
use pombo_storage_node.Storage.PurgeEndpoint.{
  StoredRow, PurgeTarget, PurgeResult, deleted, forbidden, not_found, Outage, lookup_fails,
  found_rows, no_outage, get_messages, delete_until, delete_rows, Context, allows, purge_target,
  purge_targets, Response, results_200, bad_partition_400, bad_targets_400, unauthorized_401,
  unanswered, State, Request, checked_targets, target_to_line, handler,
}
use pombo_storage_node.Storage.Outside.{Outside}
use pombo_storage_node.Storage.PomboGates.Agrees.{Agrees}
use pombo_storage_node.Storage.SignedRequest.Accept.{Accepts}
use pombo_storage_node.Storage.PurgeEndpoint.Rows.{at, delete_messages-get_messages, at_same}
use pombo_storage_node.Storage.PurgeEndpoint.Losses.{
  keep_none, keep-All, LosesOnly, LosesOnly_nothing, LosesOnly_after, delete_until_ended,
  delete_until-LosesOnly,
}
use pombo_storage_node.Storage.PurgeEndpoint.Rights.{MayDelete}

module _ (buckets_by_timestamp : Text → Number → Number → List Text)
    (to_stream_message : Text → Option Message) (recover : Message → Option Text) (stream_id : Text)
    (partition : Number) (context : Context) (signer : Text) where
  abbrev here : PurgeTarget → StoredRow → Bool
  here target row = at buckets_by_timestamp stream_id partition target row

  -- Whether the signer may delete what a table holds at a target.
  abbrev pub may_delete : List StoredRow → PurgeTarget → Bool
  may_delete table target =
      allows to_stream_message recover context signer
        (get_messages buckets_by_timestamp stream_id partition target table)

  -- Whether a row is at one of the targets whose rows the signer may delete.
  abbrev pub purged : List StoredRow → List PurgeTarget → StoredRow → Bool
  purged table targets row = any (λ target. here target row && may_delete table target) targets

  -- What is left of a table where the queries for a target were answered.
  abbrev done_at : PurgeTarget → List StoredRow → List StoredRow
  done_at target table =
      if may_delete table target then keep (λ row. not (here target row)) table else table

  -- The queries for a target were answered, or some row at it may have gone.
  abbrev TargetOutcome : PurgeTarget → List StoredRow → Option PurgeResult × List StoredRow → Type 0
  TargetOutcome target table (result, left) =
      ((r : PurgeResult) × (result ≡ some r) × (left ≡ done_at target table))
      ⊎ ((result ≡ none) × LosesOnly (λ row. here target row && may_delete table target) table left)

  deleted-Outcome :
      (limit : Option ℕ) (target : PurgeTarget) (table : List StoredRow)
      → may_delete table target ≡ true
      → TargetOutcome target table (
          delete_rows stream_id partition limit
            (get_messages buckets_by_timestamp stream_id partition target table)
            table)
  unfolding delete_rows get_messages
  deleted-Outcome none target table granted = inl (
    deleted,
    refl,
    rw granted (delete_messages-get_messages buckets_by_timestamp stream_id partition target table),
  )
  deleted-Outcome (some n) target table granted =
      let rows = get_messages buckets_by_timestamp stream_id partition target table in
      elim (Bool-cases (delete_until stream_id partition n rows table).0) [
        | inl ended ↦ inl (
          deleted,
          rw (delete_rows, ended),
          rw (delete_rows, granted)
              (delete_until_ended stream_id partition n rows table ended
                ∙ delete_messages-get_messages buckets_by_timestamp stream_id partition target
                    table),
        )
        | inr broken ↦
            let lost =
              delete_until-LosesOnly buckets_by_timestamp stream_id partition target n rows table
                (keep-All (here target) table) in
            inr (
              rw (delete_rows, broken),
              (lost.0, lost.1, λ row gone. rw (lost.2 row gone, granted)),
            )
      ]

  purge_target-Outcome :
      (outage : Outage) (target : PurgeTarget) (table : List StoredRow)
      → TargetOutcome target table (
          purge_target buckets_by_timestamp to_stream_message recover outage stream_id partition
            context signer target table)
  unfolding purge_target get_messages
  purge_target-Outcome lookup_fails target table =
      inr (refl, LosesOnly_nothing (λ row. here target row && may_delete table target) table)
  purge_target-Outcome (found_rows limit) target table =
      let rows = get_messages buckets_by_timestamp stream_id partition target table in
      elim (Bool-cases (nat_eq (length rows) 0)) [
        | inl empty ↦ rw (purge_target, empty) (inl (not_found, refl, sym (nothing empty)))
        | inr found ↦ elim (Bool-cases (may_delete table target)) [
          | inl granted ↦
              let same : purge_target buckets_by_timestamp to_stream_message recover
                    (found_rows limit) stream_id partition context signer target table
                  ≡ delete_rows stream_id partition limit rows table =
                rw (purge_target, found, granted) in
              subst (TargetOutcome target table) (sym same)
                (deleted-Outcome limit target table granted)
          | inr denied ↦ rw (purge_target, found, denied) (inl (forbidden, refl, refl))
        ]
      ]
    where
      nothing :
          nat_eq (length (get_messages buckets_by_timestamp stream_id partition target table)) 0
            ≡ true
          → done_at target table ≡ table
      nothing empty = elim (Bool-cases (may_delete table target)) [
        | inl granted ↦ rw granted (keep_none (here target) table (ground arith))
        | inr denied ↦ rw denied
      ]

  purge_target-answered :
      (target : PurgeTarget) (table : List StoredRow)
      → (r : PurgeResult) × ((purge_target buckets_by_timestamp to_stream_message recover no_outage
            stream_id partition context signer target table).0
          ≡ some r)
  unfolding purge_target delete_rows
  purge_target-answered target table =
      let rows = get_messages buckets_by_timestamp stream_id partition target table in
      elim (Bool-cases (nat_eq (length rows) 0)) [
        | inl empty ↦ (not_found, rw (purge_target, empty))
        | inr found ↦ elim (Bool-cases (may_delete table target)) [
          | inl granted ↦ (deleted, rw (purge_target, found, granted))
          | inr denied ↦ (forbidden, rw (purge_target, found, denied))
        ]
      ]

  -- A target has the same rows after the rows of another target are gone.
  may_delete-keep :
      (target other : PurgeTarget) (row : StoredRow) (table : List StoredRow)
      → here target row ≡ false
      → here other row ≡ true
      → may_delete (keep (λ r. not (here target r)) table) other ≡ may_delete table other
  unfolding get_messages
  may_delete-keep target other row table apart found =
      ap (λ rows. allows to_stream_message recover context signer rows)
        (keep-keep (here other) (λ r. not (here target r)) table
          ∙ keep-ext _ _ table (All-of _ same table))
    where
      same : (r : StoredRow) → (not (here target r) && here other r) ≡ here other r
      same r = elim (Bool-cases (here other r)) [
        | inr gone ↦ ground arith
        | inl also ↦ elim (Bool-cases (here target r)) [
          | inl both ↦ cc (
            at_same buckets_by_timestamp stream_id partition target other r row both also found,
            apart,
          )
          | inr no_more ↦ rw (no_more, also)
        ]
      ]

  purged-keep :
      (target : PurgeTarget) (table : List StoredRow) (row : StoredRow) (targets : List PurgeTarget)
      → here target row ≡ false
      → purged (keep (λ r. not (here target r)) table) targets row ≡ purged table targets row
  purged-keep target table row [] apart = refl
  purged-keep target table row (other ∷ targets) apart = elim (Bool-cases (here other row)) [
    | inr gone ↦ rw gone (purged-keep target table row targets apart)
    | inl found ↦ rw (
      found,
      may_delete-keep target other row table apart found,
      purged-keep target table row targets apart,
    )
  ]

  removed :
      (target : PurgeTarget) (targets : List PurgeTarget) (table : List StoredRow)
      → may_delete table target ≡ true
      → (row : StoredRow)
      → (not (here target row) && not (purged (keep (λ r. not (here target r)) table) targets row))
        ≡ not (purged table (target ∷ targets) row)
  removed target targets table granted row = elim (Bool-cases (here target row)) [
    | inl found ↦ rw (found, granted)
    | inr apart ↦ rw (apart, purged-keep target table row targets apart)
  ]

  stayed :
      (target : PurgeTarget) (targets : List PurgeTarget) (table : List StoredRow)
      → may_delete table target ≡ false
      → (row : StoredRow) → purged table targets row ≡ purged table (target ∷ targets) row
  stayed target targets table denied row = elim (Bool-cases (here target row)) [
    | inl found ↦ rw (found, denied)
    | inr apart ↦ rw apart
  ]

  -- The rows at the targets whose rows the signer may delete are gone.
  abbrev pub PurgedAll : List PurgeTarget → List StoredRow → List StoredRow → Type 0
  PurgedAll targets table left = left ≡ keep (λ row. not (purged table targets row)) table

  PurgedAll-next :
      (target : PurgeTarget) (targets : List PurgeTarget) (table left : List StoredRow)
      → PurgedAll targets (done_at target table) left
      → PurgedAll (target ∷ targets) table left
  PurgedAll-next target targets table left h = elim (Bool-cases (may_delete table target)) [
    | inl granted ↦
        rw granted at h
        ∙ keep-keep (λ row. not (purged (keep (λ r. not (here target r)) table) targets row))
            (λ row. not (here target row)) table
        ∙ keep-ext _ _ table (All-of _ (λ row. removed target targets table granted row) table)
    | inr denied ↦
        rw denied at h
        ∙ keep-ext _ _ table
            (All-of _ (λ row. ap not (stayed target targets table denied row)) table)
  ]

  LosesOnly-next :
      (target : PurgeTarget) (targets : List PurgeTarget) (table left : List StoredRow)
      → LosesOnly (purged (done_at target table) targets) (done_at target table) left
      → LosesOnly (purged table (target ∷ targets)) table left
  LosesOnly-next target targets table left h = elim (Bool-cases (may_delete table target)) [
    | inl granted ↦
        let stays = λ (row : StoredRow). not (here target row) in
        let (later, same, rest) = rw granted at h in
        LosesOnly_after (purged table (target ∷ targets)) stays table left
          (λ row gone. elim (Bool-cases (here target row)) [
            | inl found ↦ rw (found, granted)
            | inr apart ↦ absurd (cc (apart, (rw apart at gone)))
          ])
          (
            later,
            same,
            λ row gone. elim (Bool-cases (here target row)) [
              | inl found ↦ rw found
              | inr apart ↦
                  rw apart (sym (purged-keep target table row targets apart) ∙ rest row gone)
            ],
          )
    | inr denied ↦
        let (later, same, rest) = rw denied at h in
        (later, same, λ row gone. sym (stayed target targets table denied row) ∙ rest row gone)
  ]

  -- All targets were dealt with, or a query failed when some rows may have been deleted.
  abbrev pub TargetsOutcome :
      List PurgeTarget
      → List StoredRow
      → Option (List (PurgeTarget × PurgeResult)) × List StoredRow
      → Type 0
  TargetsOutcome targets table (results, left) =
      ((rs : List (PurgeTarget × PurgeResult)) × (results ≡ some rs) × PurgedAll targets table left)
      ⊎ ((results ≡ none) × LosesOnly (purged table targets) table left)

  pub purge_targets-Outcome :
      (outage : ℕ → Outage) (targets : List PurgeTarget) (table : List StoredRow)
      → TargetsOutcome targets table (
          purge_targets buckets_by_timestamp to_stream_message recover outage stream_id partition
            context signer targets table)
  unfolding purge_targets
  purge_targets-Outcome outage [] table = inl (
    [],
    refl,
    sym (keep_every (λ row. true) table (All-of (λ row. true ≡ true) (λ row. refl) table)),
  )
  purge_targets-Outcome outage (target ∷ targets) table =
      let first =
        purge_target buckets_by_timestamp to_stream_message recover (outage 0) stream_id partition
          context signer target table in
      let rest = purge_targets-Outcome (λ i. outage (suc i)) targets first.1 in
      let last =
        (purge_targets buckets_by_timestamp to_stream_message recover (λ i. outage (suc i))
          stream_id partition context signer targets first.1).1 in
      elim (purge_target-Outcome (outage 0) target table) [
        | inr broken ↦
            rw (purge_targets, broken.0)
              (inr
                (refl, (broken.1.0, broken.1.1, λ row gone. ground (arith, broken.1.2 row gone))))
        | inl done ↦ elim rest [
          | inl all ↦
              rw (purge_targets, done.1, all.1)
                (inl (
                  _,
                  refl,
                  PurgedAll-next target targets table last
                      (subst (λ t. PurgedAll targets t last) done.2 all.2),
                ))
          | inr failed ↦
              rw (purge_targets, done.1, failed.0)
                (inr (
                  refl,
                  LosesOnly-next target targets table last
                      (subst (λ t. LosesOnly (purged t targets) t last) done.2 failed.1),
                ))
        ]
      ]

  purge_targets-answered :
      (targets : List PurgeTarget) (table : List StoredRow)
      → (rs : List (PurgeTarget × PurgeResult)) × ((purge_targets buckets_by_timestamp
            to_stream_message recover
            (λ i. no_outage)
            stream_id
            partition
            context
            signer
            targets
            table).0
          ≡ some rs)
  unfolding purge_targets
  purge_targets-answered [] table = ([], refl)
  purge_targets-answered (target ∷ targets) table =
      let (r, first) = purge_target-answered target table in
      let (rs, rest) =
        purge_targets-answered targets
          (purge_target buckets_by_timestamp to_stream_message recover no_outage stream_id partition
            context signer target table).1 in
      ((target, r) ∷ rs, rw (purge_targets, first, rest))

  -- Where no query fails, a purge comes to an end and leaves exactly the rows that are at no target
  -- whose rows the signer may delete, with the rights that the table gave before the first deletion.
  pub purge_targets-eq :
      (targets : List PurgeTarget) (table : List StoredRow)
      → let (results, left) =
          purge_targets buckets_by_timestamp to_stream_message recover
            (λ i. no_outage)
            stream_id
            partition
            context
            signer
            targets
            table in
        (results ≢ none) × (left ≡ keep (λ row. not (purged table targets row)) table)
  purge_targets-eq targets table =
      let (rs, answered) = purge_targets-answered targets table in
      (
        λ h. cc (h, answered),
        elim (purge_targets-Outcome (λ i. no_outage) targets table) [
          | inl all ↦ all.2
          | inr failed ↦ absurd (cc (failed.0, answered))
        ],
      )

abbrev pub is_refusal : Response → Bool
is_refusal bad_partition_400 = true
is_refusal bad_targets_400 = true
is_refusal (unauthorized_401 _) = true
is_refusal _ = false

module _ (buckets_by_timestamp : Text → Number → Number → List Text)
    (to_stream_message : Text → Option Message) (recover : Message → Option Text)
    (verify_message : Text → Text → Option Text) (out : Outside) (outage : ℕ → Outage)
    (req : Request) (s : State) where
  abbrev answer : Response × State
  answer = handler buckets_by_timestamp to_stream_message recover verify_message out outage req s

  -- The request was accepted as one of a user to purge targets, and their rows are gone, or some of
  -- them where a query failed.
  pub record Purged : Type 0 where
    pub signer : Text
    pub targets : List PurgeTarget
    pub context : Context
    pub checked : checked_targets req.targets ≡ some targets
    pub signed :
        Accepts verify_message out.now s.verifier req.claimed
          (codes "purge")
          req.id
          (parse_int req.partition)
          (map target_to_line targets)
          signer
    pub rights :
        (rows : List StoredRow)
        → (allows to_stream_message recover context signer rows ≡ true)
          ↔ MayDelete out req.id signer to_stream_message recover rows
    pub ended :
        ((rs : List (PurgeTarget × PurgeResult)) × (answer.0 ≡ results_200 rs)
          × PurgedAll buckets_by_timestamp to_stream_message recover req.id
              (parse_int req.partition)
              context
              signer
              targets
              s.table
              answer.1.table)
        ⊎ ((answer.0 ≡ unanswered)
            × LosesOnly
                (purged buckets_by_timestamp to_stream_message recover req.id
                  (parse_int req.partition)
                  context
                  signer
                  s.table
                  targets)
                s.table
                answer.1.table)

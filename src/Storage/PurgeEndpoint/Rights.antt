-- ===== src/Storage/PurgeEndpoint/Rights.antt =====
-- Who may delete rows through packages/node/src/plugins/storage/purgeEndpoint.ts, by what the chain says.
use pombo_storage_node.Base.{
  ◌≡◌, refl, sym, subst, ◌∙◌, ap, ◌↔◌, ◌⊎◌, inl, inr, Bool, true, false, ◌&&◌, ◌||◌, Result, Option,
  none, some, List, ok, err, ◌==◌, eq_list, eq_nat, arith, Bool-cases, Option-cases, Result-cases,
}
use pombo_storage_node.Base.Text.{Text, Lacks}
use pombo_storage_node.Storage.Outside.{Outside, ErrorCode, user_delete}
use pombo_storage_node.Storage.PomboGates.{PomboGates, GateInfo, get_gate}
use pombo_storage_node.Storage.PomboGates.Uncached.{resolve}
use pombo_storage_node.Storage.PomboGates.Agrees.{Agrees, is_moderator-Answers}
use pombo_storage_node.Storage.PomboGates.Transparent.{get_gate-Answers}
use pombo_storage_node.Storage.IngestValidator.{Message}
use pombo_storage_node.Storage.PurgeEndpoint.{
  StoredRow, Context, gate_context, create_context, is_author, granted,
}

module _ (out : Outside) (stream_id signer : Text) where
  -- The signer may delete in the stream, or owns or moderates its gate.
  abbrev pub IsAdmin : Type 0
  IsAdmin =
      (out.has_permission (user_delete stream_id signer) ≡ ok true)
      ⊎ ((gate : GateInfo) × (resolve out stream_id ≡ ok (some gate))
          × (((signer == gate.owner) ≡ true) ⊎ (out.gate_moderators gate.address signer ≡ ok true)))

  -- The stream has no gate, or one that shows its members and answers who moderates it.
  abbrev pub AuthorsMayDelete : Type 0
  AuthorsMayDelete =
      (resolve out stream_id ≡ ok none)
      ⊎ ((gate : GateInfo) × (moderates : Bool) × (resolve out stream_id ≡ ok (some gate))
          × (gate.visible ≡ true)
          × (out.gate_moderators gate.address signer ≡ ok moderates))

  abbrev pub MayDelete : (Text → Option Message) → (Message → Option Text) → List StoredRow → Type 0
  MayDelete to_stream_message recover rows =
      IsAdmin ⊎ (AuthorsMayDelete × (is_author to_stream_message recover rows signer ≡ true))

  -- What a context has to say.
  abbrev Tells : Bool → Context → Type 0
  Tells author context =
      ((context.admin || (context.author_rule_applies && author)) ≡ true)
      ↔ (IsAdmin ⊎ (AuthorsMayDelete × (author ≡ true)))

  not-IsAdmin :
      (gate : GateInfo)
      → resolve out stream_id ≡ ok (some gate)
      → ¬ (out.has_permission (user_delete stream_id signer) ≡ ok true)
      → (signer == gate.owner) ≡ false
      → ¬ (out.gate_moderators gate.address signer ≡ ok true)
      → ¬ IsAdmin
  not-IsAdmin gate found denied other no_moderator (inl permitted) = denied permitted
  not-IsAdmin gate found denied other no_moderator (inr (gate', found', inl own)) =
      cc (found, found', own, other)
  not-IsAdmin gate found denied other no_moderator (inr (gate', found', inr moderates)) =
      no_moderator (cc (found, found', moderates))

  AuthorsMayDelete_gate :
      (gate : GateInfo)
      → resolve out stream_id ≡ ok (some gate)
      → AuthorsMayDelete
      → (moderates : Bool) × (gate.visible ≡ true)
        × (out.gate_moderators gate.address signer ≡ ok moderates)
  AuthorsMayDelete_gate gate found (inl gateless) = absurd (cc (found, gateless))
  AuthorsMayDelete_gate gate found (inr (gate', moderates, found', visible, said)) =
      (moderates, cc (found, found', visible), cc (found, found', said))

  gate_context-Tells :
      (author admin : Bool) (gate : GateInfo) (g : PomboGates)
      → Lacks b'_' signer
      → Agrees out g
      → resolve out stream_id ≡ ok (some gate)
      → (admin ≡ true) ↔ (out.has_permission (user_delete stream_id signer) ≡ ok true)
      → Tells author (gate_context out signer admin gate g).0
  unfolding gate_context
  gate_context-Tells author admin gate g plain a found permitted =
      let answers = is_moderator-Answers out gate.address signer g plain a in
      elim (Bool-cases admin) [
        | inl is_admin ↦
            rw (gate_context, is_admin) (λ h. inl (inl (permitted.0 is_admin)), λ h. refl)
        | inr not_admin ↦ elim (Bool-cases (signer == gate.owner)) [
          | inl own ↦
              rw (gate_context, not_admin, own) (λ h. inl (inr (gate, found, inl own)), λ h. refl)
          | inr other ↦
              let denied : ¬ (out.has_permission (user_delete stream_id signer) ≡ ok true) =
                λ h. cc (permitted.1 h, not_admin) in
              elim (Result-cases (out.gate_moderators gate.address signer)) [
                | inr (e, said) ↦
                    rw (gate_context, not_admin, other, answers.0, said)
                      (
                        λ h. absurd cc,
                        λ h. elim h [
                          | inl is_admin ↦
                              absurd
                                (not-IsAdmin gate found denied other (λ x. cc (x, said)) is_admin)
                          | inr both ↦
                              absurd (cc (said, (AuthorsMayDelete_gate gate found both.0).2))
                        ],
                      )
                | inl (moderates, said) ↦ elim (Bool-cases moderates) [
                  | inl granted ↦
                      rw (gate_context, not_admin, other, answers.0, said, granted)
                        (λ h. inl (inr (gate, found, inr (said ∙ ap ok granted))), λ h. refl)
                  | inr unknown ↦
                      rw (gate_context, not_admin, other, answers.0, said, unknown)
                        (
                          λ h. inr (
                            inr (gate, moderates, found, ground (arith, h), said),
                            ground (arith, h),
                          ),
                          λ h. elim h [
                            | inl is_admin ↦ absurd (
                                not-IsAdmin gate found denied other (λ x. cc (x, said, unknown))
                                  is_admin)
                            | inr both ↦
                                ground (arith, both.1, (AuthorsMayDelete_gate gate found both.0).1)
                          ],
                        )
                ]
              ]
        ]
      ]

  granted_iff : (r : Result ErrorCode Bool) → (granted r ≡ true) ↔ (r ≡ ok true)
  granted_iff (ok b) = (λ h. ap ok h, λ h. cc h)
  granted_iff (err e) = (λ h. absurd cc, λ h. absurd (cc h))

  -- Without a gate that can be read, an admin has the permission to delete.
  no_gate :
      (e : ErrorCode)
      → resolve out stream_id ≡ err e
      → IsAdmin
      → out.has_permission (user_delete stream_id signer) ≡ ok true
  no_gate e failed (inl permitted) = permitted
  no_gate e failed (inr (gate, found, rest)) = absurd (cc (failed, found))

  gateless_admin :
      resolve out stream_id ≡ ok none
      → IsAdmin
      → out.has_permission (user_delete stream_id signer) ≡ ok true
  gateless_admin said (inl permitted) = permitted
  gateless_admin said (inr (gate, found, rest)) = absurd (cc (said, found))

  no_authors : (e : ErrorCode) → resolve out stream_id ≡ err e → ¬ AuthorsMayDelete
  no_authors e failed (inl gateless) = cc (failed, gateless)
  no_authors e failed (inr (gate, moderates, found, visible, said)) = cc (failed, found)

  pub create_context-Tells :
      (author : Bool) (g : PomboGates)
      → Lacks b'_' signer
      → Agrees out g
      → Tells author (create_context out stream_id signer g).0
  unfolding create_context
  create_context-Tells author g plain a =
      let answers = get_gate-Answers out stream_id g a in
      let permission = out.has_permission (user_delete stream_id signer) in
      let permitted = granted_iff permission in
      let context = (create_context out stream_id signer g).0 in
      elim (Result-cases (resolve out stream_id)) [
        | inr (e, failed) ↦
            let same : context
                ≡ record { admin = granted permission; author_rule_applies = false } =
              rw (create_context, answers.0, failed) in
            subst (Tells author) (sym same) (
              λ h. inl (inl (permitted.0 (ground (arith, h)))),
              λ h. elim h [
                | inl is_admin ↦ ground (arith, permitted.1 (no_gate e failed is_admin))
                | inr both ↦ absurd (no_authors e failed both.0)
              ],
            )
        | inl (gate, said) ↦ elim (Option-cases gate) [
          | inr (info, found) ↦
              let same : context
                  ≡ (gate_context out signer (granted permission) info
                      (get_gate out stream_id g).1).0 =
                rw (create_context, answers.0, said, found) in
              subst (Tells author) (sym same) (
                gate_context-Tells author (granted permission) info (get_gate out stream_id g).1
                  plain answers.1 (said ∙ ap ok found) permitted)
          | inl gateless ↦
              let open_stream = said ∙ ap ok gateless in
              let same : context
                  ≡ record { admin = granted permission; author_rule_applies = true } =
                rw (create_context, answers.0, said, gateless) in
              subst (Tells author) (sym same) (
                λ h. elim (Bool-cases (granted permission)) [
                  | inl permits ↦ inl (inl (permitted.0 permits))
                  | inr denies ↦ inr (inl open_stream, ground (arith, (rw denies at h)))
                ],
                λ h. elim h [
                  | inl is_admin ↦ ground (arith, permitted.1 (gateless_admin open_stream is_admin))
                  | inr both ↦ ground (arith, both.1)
                ],
              )
        ]
      ]

-- ===== src/Storage/PomboGates/Transparent.antt =====
-- `getGate` and `canRead` give the chain's answers, whatever the caches hold of them.
use pombo_storage_node.Base.{
  ◌≡◌, refl, sym, ◌∙◌, inl, inr, Bool, true, false, Option, none, some, if◌then◌else◌, Result, ok,
  err, ◌==◌, eq_list, eq_nat, Option-cases, Result-cases, Bool-cases,
}
use pombo_storage_node.Base.Text.{Text, Lacks}
use pombo_storage_node.Utils.MapWithTtl.{get}
use pombo_storage_node.Storage.Outside.{Outside, ErrorCode, Metadata}
use pombo_storage_node.Storage.PomboGates.{
  PomboGates, GateInfo, Called, ◌>>=◌, get_info, gate_address_of, tell_public, read_gate, get_gate,
  or_ask, gate_admits, can_read, is_not_found,
}
use pombo_storage_node.Storage.PomboGates.Uncached.{resolve, or_else, admits, may_read}
use pombo_storage_node.Storage.PomboGates.Agrees.{
  Agrees, Answers, is_moderator-Answers, has_access-Answers, has_subscribe-Answers,
  tell_public-Agrees, is_public_subscribe-Answers, remember_gate-Answers,
}

module _ (out : Outside) where
  -- The state may also have been told that a stream is not public.
  maybe_told :
      (b : Bool) (stream_id : Text) (g : PomboGates)
      → Agrees out g
      → Agrees out (if b then tell_public stream_id false g else g)
  maybe_told true stream_id g a = tell_public-Agrees out stream_id false g a
  maybe_told false stream_id g a = a

  resolve_read :
      (stream_id : Text) (metadata : Metadata)
      → out.get_stream_metadata stream_id ≡ ok metadata
      → resolve out stream_id ≡ (
          gate_address_of out stream_id metadata >>= λ address. elim address [
            | none ↦ ok none
            | some gate_address ↦ get_info out gate_address >>= λ info. ok (some info)
          ])
  unfolding resolve
  resolve_read stream_id metadata said = rw said

  resolve_failed :
      (stream_id : Text) (e : ErrorCode)
      → out.get_stream_metadata stream_id ≡ err e
      → resolve out stream_id ≡ err e
  unfolding resolve
  resolve_failed stream_id e said = rw said

  read_gate-Answers :
      (stream_id : Text) (metadata : Metadata) (g : PomboGates)
      → out.get_stream_metadata stream_id ≡ ok metadata
      → Agrees out g
      → Answers out (read_gate out stream_id metadata g) (resolve out stream_id)
  unfolding read_gate
  read_gate-Answers stream_id metadata g said a =
      elim (Result-cases (gate_address_of out stream_id metadata)) [
        | inr (e, unread) ↦
            rw (unread, read_gate) (sym (resolve_read stream_id metadata said ∙ (rw unread)), a)
        | inl (address, named) ↦ go address named
      ]
    where
      go :
          (address : Option Text)
          → gate_address_of out stream_id metadata ≡ ok address
          → Answers out (read_gate out stream_id metadata g) (resolve out stream_id)
      go none named =
          rw (named, read_gate)
            (remember_gate-Answers out stream_id none g
              (resolve_read stream_id metadata said ∙ (rw named)) a)
      go (some gate_address) named = elim (Result-cases (get_info out gate_address)) [
        | inr (e, unread) ↦
            rw (named, read_gate, unread)
              (
                sym (resolve_read stream_id metadata said ∙ (rw (named, unread))),
                tell_public-Agrees out stream_id false g a,
              )
        | inl (info, known) ↦
            rw (named, read_gate, known)
              (remember_gate-Answers out stream_id (some info) _
                (resolve_read stream_id metadata said ∙ (rw (named, known)))
                (tell_public-Agrees out stream_id false g a))
      ]

  pub get_gate-Answers :
      (stream_id : Text) (g : PomboGates)
      → Agrees out g
      → Answers out (get_gate out stream_id g) (resolve out stream_id)
  unfolding get_gate
  get_gate-Answers stream_id g a = elim (Option-cases (get stream_id g.gate_cache)) [
    | inr (info, found) ↦ rw (found, get_gate) (sym (a.gates stream_id info found), a)
    | inl missing ↦ elim (Result-cases (out.get_stream_metadata stream_id)) [
      | inr (e, said) ↦
          rw (missing, get_gate, said)
            (sym (resolve_failed stream_id e said), maybe_told (is_not_found e) stream_id g a)
      | inl (metadata, said) ↦
          rw (missing, get_gate, said) (read_gate-Answers stream_id metadata g said a)
    ]
  ]

  -- The second question is asked in the state that the first one left.
  or_ask-Answers :
      (c : Called Bool) (r s : Result ErrorCode Bool) (ask : PomboGates → Called Bool)
      → Answers out c r
      → ((g : PomboGates) → Agrees out g → Answers out (ask g) s)
      → Answers out (or_ask c ask) (or_else r s)
  or_ask-Answers (ok true, g) r s ask (said, a) next = rw (← said) (refl, a)
  or_ask-Answers (ok false, g) r s ask (said, a) next = rw (← said) (next g a)
  or_ask-Answers (err e, g) r s ask (said, a) next = rw (← said) (refl, a)

  pub gate_admits-Answers :
      (info : GateInfo) (user : Text) (g : PomboGates)
      → Lacks b'_' user
      → Agrees out g
      → Answers out (gate_admits out info user g) (admits out info user)
  unfolding gate_admits admits
  gate_admits-Answers info user g plain a = elim (Bool-cases (user == info.owner)) [
    | inl owner ↦ rw owner (refl, a)
    | inr other ↦ rw other (
        or_ask-Answers _ _ _ _ (is_moderator-Answers out info.address user g plain a)
          (λ g' a'. has_access-Answers out info.address user g' plain a'))
  ]

  -- While the cached answers are those that the chain gives now, `canRead` returns what asking the
  -- chain without any cache returns, errors included, and the answers that it caches are again those
  -- that the chain gives. The user is a text without an underscore, as every address is.
  pub can_read-Answers :
      (stream_id user : Text) (g : PomboGates)
      → Lacks b'_' user
      → Agrees out g
      → Answers out (can_read out stream_id user g) (may_read out stream_id user)
  unfolding can_read may_read
  can_read-Answers stream_id user g plain a =
      let (said, a') = get_gate-Answers stream_id g a in
      elim (Result-cases (resolve out stream_id)) [
        | inr (e, failed) ↦ rw (said, can_read, failed) (refl, a')
        | inl (gate, found) ↦ go gate said a' found
      ]
    where
      go :
          (gate : Option GateInfo)
          → (get_gate out stream_id g).0 ≡ resolve out stream_id
          → Agrees out (get_gate out stream_id g).1
          → resolve out stream_id ≡ ok gate
          → Answers out (can_read out stream_id user g) (may_read out stream_id user)
      go none said a' found =
          rw (said, can_read, found)
            (or_ask-Answers _ _ _ _ (is_public_subscribe-Answers out stream_id _ a')
              (λ g' a''. has_subscribe-Answers out stream_id user g' plain a''))
      go (some info) said a' found =
          rw (said, can_read, found) (gate_admits-Answers info user _ plain a')

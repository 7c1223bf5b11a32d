-- ===== src/Storage/PomboGates/Agrees.antt =====
-- While the chain answers the same, the caches are not seen: each call returns what the chain says.
use pombo_storage_node.Base.{
  ◌≡◌, refl, sym, inl, inr, Bool, Option, some, Result, ok, ◌==◌, eq_list, eq_nat, Option-cases,
  Result-cases, Bool-cases, list_beq_iff,
}
use pombo_storage_node.Base.Text.{Text, Lacks}
use pombo_storage_node.Utils.MapWithTtl.{get, set}
use pombo_storage_node.Storage.Outside.{Outside, ErrorCode, public_subscribe, user_subscribe}
use pombo_storage_node.Storage.PomboGates.{
  PomboGates, GateInfo, Called, ttl_of, gate_ttl, tell_public, remember_gate, is_moderator,
  has_access, is_public_subscribe, has_subscribe,
}
use pombo_storage_node.Storage.PomboGates.Uncached.{resolve}
use pombo_storage_node.Storage.PomboGates.Lookups.{
  get-set, Caches, cached_lookup-eq, cached_lookup-Caches,
}

-- Every answer in a cache is the one that the chain would give now.
pub record Agrees (out : Outside) (g : PomboGates) : Type 0 where
  pub gates :
      (stream_id : Text) (info : Option GateInfo)
      → get stream_id g.gate_cache ≡ some info
      → resolve out stream_id ≡ ok info
  pub moderators : Caches out.gate_moderators g.moderator_cache
  pub accepted : Caches out.gate_check_access g.access_cache
  pub public :
      (stream_id : Text) (b : Bool)
      → get stream_id g.subscribe_public_cache ≡ some b
      → out.has_permission (public_subscribe stream_id) ≡ ok b
  pub subscribers :
      Caches
        (λ stream_id user. out.has_permission (user_subscribe stream_id user))
        g.subscribe_user_cache

-- A call returned an answer, and left the caches in agreement.
abbrev pub Answers : {A : Type 0} → Outside → Called A → Result ErrorCode A → Type 0
Answers out c r = (c.0 ≡ r) × Agrees out c.1

module _ (out : Outside) where
  pub is_moderator-Answers :
      (gate_address user : Text) (g : PomboGates)
      → Lacks b'_' user
      → Agrees out g
      → Answers out (is_moderator out gate_address user g) (out.gate_moderators gate_address user)
  unfolding is_moderator
  is_moderator-Answers gate_address user g plain a = (
    cached_lookup-eq out.gate_moderators out.now g.moderator_cache gate_address user plain
        a.moderators,
    record {
      gates = a.gates;
      moderators =
          cached_lookup-Caches out.gate_moderators out.now g.moderator_cache gate_address user plain
            a.moderators;
      accepted = a.accepted;
      public = a.public;
      subscribers = a.subscribers;
    },
  )

  pub has_access-Answers :
      (gate_address user : Text) (g : PomboGates)
      → Lacks b'_' user
      → Agrees out g
      → Answers out (has_access out gate_address user g) (out.gate_check_access gate_address user)
  unfolding has_access
  has_access-Answers gate_address user g plain a = (
    cached_lookup-eq out.gate_check_access out.now g.access_cache gate_address user plain
        a.accepted,
    record {
      gates = a.gates;
      moderators = a.moderators;
      accepted =
          cached_lookup-Caches out.gate_check_access out.now g.access_cache gate_address user plain
            a.accepted;
      public = a.public;
      subscribers = a.subscribers;
    },
  )

  abbrev subscriber : Text → Text → Result ErrorCode Bool
  subscriber stream_id user = out.has_permission (user_subscribe stream_id user)

  pub has_subscribe-Answers :
      (stream_id user : Text) (g : PomboGates)
      → Lacks b'_' user
      → Agrees out g
      → Answers out (has_subscribe out stream_id user g) (subscriber stream_id user)
  unfolding has_subscribe
  has_subscribe-Answers stream_id user g plain a = (
    cached_lookup-eq subscriber out.now g.subscribe_user_cache stream_id user plain a.subscribers,
    record {
      gates = a.gates;
      moderators = a.moderators;
      accepted = a.accepted;
      public = a.public;
      subscribers =
          cached_lookup-Caches subscriber out.now g.subscribe_user_cache stream_id user plain
            a.subscribers;
    },
  )

  pub tell_public-Agrees :
      (stream_id : Text) (b : Bool) (g : PomboGates)
      → Agrees out g
      → Agrees out (tell_public stream_id b g)
  unfolding tell_public
  tell_public-Agrees stream_id b g a = record {
    gates = a.gates;
    moderators = a.moderators;
    accepted = a.accepted;
    public = a.public;
    subscribers = a.subscribers;
  }

  pub is_public_subscribe-Answers :
      (stream_id : Text) (g : PomboGates)
      → Agrees out g
      → Answers out
          (is_public_subscribe out stream_id g)
          (out.has_permission (public_subscribe stream_id))
  unfolding is_public_subscribe
  is_public_subscribe-Answers stream_id g a =
      elim (Option-cases (get stream_id g.subscribe_public_cache)) [
        | inr (b, found) ↦ rw (found, is_public_subscribe) (sym (a.public stream_id b found), a)
        | inl missing ↦ elim (Result-cases (out.has_permission (public_subscribe stream_id))) [
          | inr (e, said) ↦ rw (missing, is_public_subscribe, said) (refl, a)
          | inl (b, said) ↦
              rw (missing, is_public_subscribe, said)
                (
                  refl,
                  tell_public-Agrees stream_id b _ (record {
                    gates = a.gates;
                    moderators = a.moderators;
                    accepted = a.accepted;
                    public = remembered b said;
                    subscribers = a.subscribers;
                  }),
                )
        ]
      ]
    where
      remembered :
          (b : Bool)
          → out.has_permission (public_subscribe stream_id) ≡ ok b
          → (other : Text) (c : Bool)
          → get other (set ttl_of out.now stream_id b g.subscribe_public_cache) ≡ some c
          → out.has_permission (public_subscribe other) ≡ ok c
      remembered b said other c hit = elim (Bool-cases (stream_id == other)) [
        | inl same ↦
            let v : some b ≡ some c =
              rw (get-set ttl_of out.now stream_id other b g.subscribe_public_cache, same) at hit in
            cc (said, (list_beq_iff stream_id other).0 same, v)
        | inr apart ↦
            a.public other c
              (rw (get-set ttl_of out.now stream_id other b g.subscribe_public_cache, apart) at hit)
      ]

  pub remember_gate-Answers :
      (stream_id : Text) (info : Option GateInfo) (g : PomboGates)
      → resolve out stream_id ≡ ok info
      → Agrees out g
      → Answers out (remember_gate out stream_id info g) (resolve out stream_id)
  unfolding remember_gate
  remember_gate-Answers stream_id info g said a = (
    sym said,
    record {
      gates = remembered;
      moderators = a.moderators;
      accepted = a.accepted;
      public = a.public;
      subscribers = a.subscribers;
    },
  )
    where
      remembered :
          (other : Text) (i : Option GateInfo)
          → get other (set gate_ttl out.now stream_id info g.gate_cache) ≡ some i
          → resolve out other ≡ ok i
      remembered other i hit = elim (Bool-cases (stream_id == other)) [
        | inl same ↦
            let v : some info ≡ some i =
              rw (get-set gate_ttl out.now stream_id other info g.gate_cache, same) at hit in
            cc (said, (list_beq_iff stream_id other).0 same, v)
        | inr apart ↦
            a.gates other i
              (rw (get-set gate_ttl out.now stream_id other info g.gate_cache, apart) at hit)
      ]

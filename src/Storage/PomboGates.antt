-- ===== src/Storage/PomboGates.antt =====
-- packages/node/src/plugins/storage/PomboGates.ts: the gate behind a stream, and the chain's answers
-- about it in five caches. A call is handled at one instant; the timers of the caches run between
-- calls (Utils.MapWithTtl).
pub mod Uncached
pub mod Agrees
pub mod Lookups
pub mod Transparent
use pombo_storage_node.Base.{
  ℕ, ◌*◌, ◌<◌, ltb, nat_eq, Bool, true, false, ◌&&◌, Option, none, some, List, [], ◌∷◌, ◌++◌,
  if◌then◌else◌, length, Result, ok, err, ◌==◌, eq_list, eq_nat,
}
use pombo_storage_node.Base.Text.{Text, codes}
use pombo_storage_node.Base.Dict.{lookup}
use pombo_storage_node.Utils.MapWithTtl.{MapWithTtl, get, set, clear}
use pombo_storage_node.Utils.EthereumAddress.{is_address, to_ethereum_address}
use pombo_storage_node.Storage.KnownPublicStreams
use pombo_storage_node.Storage.KnownPublicStreams.{KnownPublicStreams}
use pombo_storage_node.Storage.Outside.{
  Outside, ErrorCode, stream_not_found, unknown, Json, null, scalar, array, object, Metadata,
  public_subscribe, user_subscribe,
}

abbrev pub wire_identity_visible : ℕ
wire_identity_visible = 0

abbrev pub cache_ttl : ℕ
cache_ttl = 10 * 60 * 1000

abbrev pub denial_ttl : ℕ
denial_ttl = 20 * 1000

pub record GateInfo : Type 0 where
  pub address : Text
  pub owner : Text
  pub read_only : Bool
  pub visible : Bool

abbrev pub ttl_of : Bool → ℕ
ttl_of granted = if granted then cache_ttl else denial_ttl

abbrev pub gate_ttl : Option GateInfo → ℕ
gate_ttl none = denial_ttl
gate_ttl (some gate) = cache_ttl

infixl 5 ◌>>=◌
abbrev pub ◌>>=◌ {ℓ κ} :
    {A : Type ℓ} {B : Type κ} → Result ErrorCode A → (A → Result ErrorCode B) → Result ErrorCode B
ok a >>= f = f a
err e >>= f = err e

-- The fields of the JSON document in a description, if it is a document.
unfoldable pub parse_pombo_description :
    (Text → Option Json) → Metadata → Option (List (Text × Text))
parse_pombo_description json_parse none = none
parse_pombo_description json_parse (some description) = elim (json_parse description) [
  | none ↦ none
  | some json ↦ elim json [
    | null ↦ none
    | scalar ↦ none
    | array ↦ some []
    | object fields ↦ some fields
  ]
]

abbrev field : Text → Option (List (Text × Text)) → Option Text
field key none = none
field key (some fields) = lookup key fields

unfoldable pub parse_gate_address : (Text → Option Json) → Metadata → Option Text
parse_gate_address json_parse metadata =
    elim (field (codes "g") (parse_pombo_description json_parse metadata)) [
      | none ↦ none
      | some gate ↦ if is_address gate then to_ethereum_address gate else none
    ]

unfoldable pub parse_linked_stream : (Text → Option Json) → Metadata → Option Text
parse_linked_stream json_parse metadata =
    elim (field (codes "ln") (parse_pombo_description json_parse metadata)) [
      | none ↦ none
      | some linked ↦ if ltb 0 (length linked) then some linked else none
    ]

-- The reader that `createEthersGateReader` makes. An owner that is no address is a throw.
unfoldable pub get_info : Outside → Text → Result ErrorCode GateInfo
get_info out gate_address = do
  owner ← out.gate_owner gate_address
  read_only ← out.gate_read_only gate_address
  wire_identity ← out.gate_wire_identity gate_address
  elim (to_ethereum_address owner) [
    | none ↦ err unknown
    | some owner_address ↦ ok (record {
      address = gate_address;
      owner = owner_address;
      read_only = read_only;
      visible = nat_eq wire_identity wire_identity_visible;
    })
  ]

pub record PomboGates : Type 0 where
  pub gate_cache : MapWithTtl Text (Option GateInfo)
  pub moderator_cache : MapWithTtl Text Bool
  pub access_cache : MapWithTtl Text Bool
  pub subscribe_public_cache : MapWithTtl Text Bool
  pub subscribe_user_cache : MapWithTtl Text Bool
  pub known_public : KnownPublicStreams

-- Note what a call returns and leaves behind.
abbrev pub Called : Type 0 → Type 0
Called A = Result ErrorCode A × PomboGates

unfoldable pub tell_public : Text → Bool → PomboGates → PomboGates
tell_public stream_id is_public g = record g {
  known_public = KnownPublicStreams.set stream_id is_public g.known_public;
}

-- The address of the gate that a stream's metadata, or that of the stream it links to, names.
unfoldable pub gate_address_of : Outside → Text → Metadata → Result ErrorCode (Option Text)
gate_address_of out stream_id metadata = elim (parse_gate_address out.json_parse metadata) [
  | some gate_address ↦ ok (some gate_address)
  | none ↦ elim (parse_linked_stream out.json_parse metadata) [
    | none ↦ ok none
    | some linked ↦ if linked == stream_id then ok none else do
      linked_metadata ← out.get_stream_metadata linked
      ok (parse_gate_address out.json_parse linked_metadata)
  ]
]

unfoldable pub remember_gate :
    Outside → Text → Option GateInfo → PomboGates → Called (Option GateInfo)
remember_gate out stream_id info g =
    (ok info, record g { gate_cache = set gate_ttl out.now stream_id info g.gate_cache })

-- `getGate` after its cache and the metadata of the stream.
unfoldable pub read_gate : Outside → Text → Metadata → PomboGates → Called (Option GateInfo)
unfolding remember_gate tell_public
read_gate out stream_id metadata g = elim (gate_address_of out stream_id metadata) [
  | err e ↦ (err e, g)
  | ok address ↦ elim address [
    | none ↦ remember_gate out stream_id none g
    | some gate_address ↦
        let told = tell_public stream_id false g in
        elim (get_info out gate_address) [
          | err e ↦ (err e, told)
          | ok info ↦ remember_gate out stream_id (some info) told
        ]
  ]
]

abbrev pub is_not_found : ErrorCode → Bool
is_not_found stream_not_found = true
is_not_found _ = false

unfoldable pub get_gate : Outside → Text → PomboGates → Called (Option GateInfo)
unfolding read_gate
get_gate out stream_id g = elim (get stream_id g.gate_cache) [
  | some cached ↦ (ok cached, g)
  | none ↦ elim (out.get_stream_metadata stream_id) [
    | err e ↦ (err e, if is_not_found e then tell_public stream_id false g else g)
    | ok metadata ↦ read_gate out stream_id metadata g
  ]
]

unfoldable pub cache_key : Text → Text → Text
cache_key subject user = subject ++ (b'_' ∷ user)

-- `cachedLookup`: the chain is asked only where the cache has no answer.
unfoldable pub cached_lookup :
    ℕ
    → MapWithTtl Text Bool
    → Text
    → Result ErrorCode Bool
    → Result ErrorCode Bool × MapWithTtl Text Bool
cached_lookup now cache key answer = elim (get key cache) [
  | some cached ↦ (ok cached, cache)
  | none ↦ elim answer [
    | err e ↦ (err e, cache)
    | ok result ↦ (ok result, set ttl_of now key result cache)
  ]
]

unfoldable pub is_moderator : Outside → Text → Text → PomboGates → Called Bool
is_moderator out gate_address user g =
    let (r, cache) =
      cached_lookup out.now g.moderator_cache (cache_key gate_address user)
        (out.gate_moderators gate_address user) in
    (r, record g { moderator_cache = cache })

unfoldable pub has_access : Outside → Text → Text → PomboGates → Called Bool
has_access out gate_address user g =
    let (r, cache) =
      cached_lookup out.now g.access_cache (cache_key gate_address user)
        (out.gate_check_access gate_address user) in
    (r, record g { access_cache = cache })

unfoldable pub is_public_subscribe : Outside → Text → PomboGates → Called Bool
is_public_subscribe out stream_id g = elim (get stream_id g.subscribe_public_cache) [
  | some cached ↦ (ok cached, g)
  | none ↦ elim (out.has_permission (public_subscribe stream_id)) [
    | err e ↦ (err e, g)
    | ok result ↦ (
      ok result,
      tell_public stream_id result (record g {
        subscribe_public_cache = set ttl_of out.now stream_id result g.subscribe_public_cache;
      }),
    )
  ]
]

unfoldable pub was_last_seen_public : Text → PomboGates → Bool
was_last_seen_public stream_id g = KnownPublicStreams.contains stream_id g.known_public

unfoldable pub has_subscribe : Outside → Text → Text → PomboGates → Called Bool
has_subscribe out stream_id user g =
    let (r, cache) =
      cached_lookup out.now g.subscribe_user_cache (cache_key stream_id user)
        (out.has_permission (user_subscribe stream_id user)) in
    (r, record g { subscribe_user_cache = cache })

-- `a || await b`, where `b` is asked in the state that `a` left.
abbrev pub or_ask : Called Bool → (PomboGates → Called Bool) → Called Bool
or_ask (r, g) ask = elim r [
  | err e ↦ (err e, g)
  | ok allowed ↦ if allowed then (ok true, g) else ask g
]

-- The owner, a moderator, or an account that the gate accepts.
unfoldable pub gate_admits : Outside → GateInfo → Text → PomboGates → Called Bool
gate_admits out info user g =
    if user == info.owner
    then (ok true, g)
    else or_ask (is_moderator out info.address user g) (λ g'. has_access out info.address user g')

unfoldable pub can_read : Outside → Text → Text → PomboGates → Called Bool
unfolding gate_admits
can_read out stream_id user g =
    let (r, g') = get_gate out stream_id g in
    elim r [
      | err e ↦ (err e, g')
      | ok gate ↦ elim gate [
        | some info ↦ gate_admits out info user g'
        | none ↦
            or_ask (is_public_subscribe out stream_id g')
              (λ g''. has_subscribe out stream_id user g'')
      ]
    ]

unfoldable pub destroy : Bool → PomboGates → PomboGates
destroy writable g = record {
  gate_cache = clear g.gate_cache;
  moderator_cache = clear g.moderator_cache;
  access_cache = clear g.access_cache;
  subscribe_public_cache = clear g.subscribe_public_cache;
  subscribe_user_cache = clear g.subscribe_user_cache;
  known_public = KnownPublicStreams.flush writable g.known_public;
}

-- ===== src/Tests/Toy.antt =====
-- The inputs that the tests share: two accounts, a gate, a chain that knows one gated stream, and a
-- signature scheme in which a signature is the signer's address.
use pombo_storage_node.Base.{
  ℕ, ◌≢◌, true, false, Option, some, [], ◌∷◌, if◌then◌else◌, ok, err, ◌==◌, eq_list, eq_nat,
}
use pombo_storage_node.Base.Text.{Text, codes}
use pombo_storage_node.Base.Number.{Number, int}
use pombo_storage_node.Storage.Outside.{Outside, stream_not_found, object}
use pombo_storage_node.Storage.KnownPublicStreams.{KnownPublicStreams}
use pombo_storage_node.Storage.PomboGates.{PomboGates, cache_key}
use pombo_storage_node.Storage.PomboGates.Agrees.{Agrees}
use pombo_storage_node.Storage.SignedRequest.{Claimed, SignedRequestVerifier, string, number}
use pombo_storage_node.Storage.IngestValidator.{Message}
use pombo_storage_node.Base.Dict.{lookup}
use pombo_storage_node.Utils.MapWithTtl.{get}

abbrev pub alice : Text
alice = codes "0xaaaaaaaaaaaaaaaaaaaaaaaaaaaaaaaaaaaaaaaa"

abbrev pub bob : Text
bob = codes "0xbbbbbbbbbbbbbbbbbbbbbbbbbbbbbbbbbbbbbbbb"

abbrev pub gate_address : Text
gate_address = codes "0xcccccccccccccccccccccccccccccccccccccccc"

abbrev pub chat : Text
chat = codes "chat-1"

abbrev pub nonce : Text
nonce = codes "nonce-01"

abbrev pub start_time : ℕ
start_time = 1000000

abbrev pub recover_self : Text → Text → Option Text
recover_self signed signature = some signature

abbrev pub recover_alice : Message → Option Text
recover_alice msg = some alice

abbrev pub date_of : Text → Number
date_of s = int start_time

abbrev pub toy : Outside
toy = record {
  now = start_time;
  json_parse = λ s. some (object ((codes "g", gate_address) ∷ []));
  get_stream_metadata = λ s. if s == chat then ok (some (codes "{}")) else err stream_not_found;
  has_permission = λ p. ok false;
  gate_owner = λ g. ok alice;
  gate_read_only = λ g. ok true;
  gate_wire_identity = λ g. ok 0;
  gate_moderators = λ g u. ok false;
  gate_check_access = λ g u. ok false;
}

abbrev pub no_streams : KnownPublicStreams
no_streams = record { file = false; streams = []; save_timeout = false; saved = [] }

abbrev pub empty_gates : PomboGates
empty_gates = record {
  gate_cache = [];
  moderator_cache = [];
  access_cache = [];
  subscribe_public_cache = [];
  subscribe_user_cache = [];
  known_public = no_streams;
}

empty_get : {V : Type 0} (k : Text) (v : V) → get k [] ≢ some v
unfolding get lookup
empty_get k v h = cc

pub empty_gates-Agrees : (out : Outside) → Agrees out empty_gates
empty_gates-Agrees out = record {
  gates = λ s i h. absurd (empty_get s i h);
  moderators = λ s u b l h. absurd (empty_get (cache_key s u) b h);
  accepted = λ s u b l h. absurd (empty_get (cache_key s u) b h);
  public = λ s b h. absurd (empty_get s b h);
  subscribers = λ s u b l h. absurd (empty_get (cache_key s u) b h);
}

abbrev pub empty_verifier : SignedRequestVerifier
empty_verifier = record { seen_nonces = [] }

abbrev pub claim_of : Text → Claimed
claim_of user = record {
  user = string user;
  issued_at = number (int start_time);
  nonce = string nonce;
  signature = string user;
}

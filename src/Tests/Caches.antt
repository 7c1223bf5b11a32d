-- ===== src/Tests/Caches.antt =====
-- The cache with timers, and the list of the streams last seen to be public.
use pombo_storage_node.Base.{
  ℕ, ◌+◌, ◌<◌, ◌≡◌, refl, true, false, some, List, [], ◌∷◌, if◌then◌else◌, ◌==◌, eq_list, eq_nat,
}
use pombo_storage_node.Base.Dict.{lookup, insert}
use pombo_storage_node.Utils.MapWithTtl.{set, get, fire}
use pombo_storage_node.Utils.MapWithTtl.Laws.{Event, sets, run, step, Happens, get-fire-run}
use pombo_storage_node.Storage.KnownPublicStreams
use pombo_storage_node.Storage.KnownPublicStreams.{listed, create, contains, flush, load}
use pombo_storage_node.Storage.KnownPublicStreams.Laws
use pombo_storage_node.Storage.KnownPublicStreams.Laws.{
  contains-set, contains-create-run, answer, saves,
}
use pombo_storage_node.Tests.Toy.{chat, no_streams}

abbrev ttl : ℕ → ℕ
ttl v = 10

abbrev key : ℕ
key = 1

abbrev past : List (Event ℕ ℕ)
past = sets 0 key 5 ∷ []

served : get key (fire 5 key (run ttl past [])) ≡ some 5
unfolding get fire run step set insert lookup
served = refl

get-fire-run_example : (t : ℕ) × Happens ttl (sets t key 5) past × (5 < t + 10)
get-fire-run_example = get-fire-run ttl 5 key 5 past served

contains-set_example :
    contains chat (KnownPublicStreams.set chat true no_streams)
    ≡ (if chat == chat then true else contains chat no_streams)
contains-set_example = contains-set chat chat true no_streams

abbrev events : List Laws.Event
events = answer chat true ∷ saves ∷ answer chat false ∷ []

contains-create-run_example :
    contains chat
      (create (some (listed (flush true (Laws.run events (create (some (listed []))))).saved)))
    ≡ contains chat (Laws.run events (create (some (listed []))))
contains-create-run_example = contains-create-run [] events chat

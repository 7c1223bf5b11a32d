-- ===== src/Storage/KnownPublicStreams/Laws.antt =====
-- The list answers what it was told last, and the file keeps up with it.
use pombo_storage_node.Base.{
  ◌≡◌, refl, sym, ◌∙◌, ap, Bool, true, false, some, List, [], ◌∷◌, if◌then◌else◌, ◌==◌, eq_list,
  eq_nat, arith, list_beq_iff,
}
use pombo_storage_node.Base.Text.{Text}
use pombo_storage_node.Base.Members.{has, has-put, has-remove}
use pombo_storage_node.Storage.KnownPublicStreams.{
  KnownPublicStreams, listed, load, set_of, create, contains, schedule_save, save, set, flush,
  save_due,
}

-- After an answer about a stream the list says of that stream what the answer was, and of every
-- other stream what it said before.
pub contains-set :
    (stream_id other : Text) (is_public : Bool) (k : KnownPublicStreams)
    → contains other (set stream_id is_public k)
      ≡ (if stream_id == other then is_public else contains other k)
unfolding contains set schedule_save
contains-set stream_id other is_public k = ground (
  arith,
  has-put stream_id other k.streams,
  has-remove stream_id other k.streams,
  list_beq_iff stream_id other,
  ap (λ id. has id k.streams) {x = stream_id} {y = other},
)

has-set_of : (a : Text) (ids : List Text) → has a (set_of ids) ≡ has a ids
unfolding has set_of
has-set_of a [] = refl
has-set_of a (id ∷ ids) =
    ground (arith, has-remove id a (set_of ids), has-set_of a ids, list_beq_iff id a)

-- What is not being saved is saved.
abbrev pub IsKept : KnownPublicStreams → Type 0
IsKept k = k.file ≡ true → k.save_timeout ≡ false → (id : Text) → has id k.saved ≡ has id k.streams

create-IsKept : (ids : List Text) → IsKept (create (some (listed ids)))
unfolding create load
create-IsKept ids on_disk idle id = sym (has-set_of id ids)

set-IsKept :
    (stream_id : Text) (is_public : Bool) (k : KnownPublicStreams)
    → IsKept k
    → IsKept (set stream_id is_public k)
unfolding set schedule_save
set-IsKept stream_id is_public k kept on_disk idle id =
    ground (arith, kept (ground arith) (ground arith) id)

flush-IsKept : (k : KnownPublicStreams) → IsKept k → IsKept (flush true k)
unfolding flush save
flush-IsKept k kept on_disk idle id =
    ground (arith, λ (f : k.file ≡ true) (t : k.save_timeout ≡ false). kept f t id)

save_due-IsKept : (k : KnownPublicStreams) → IsKept (save_due true k)
unfolding save_due save
save_due-IsKept k on_disk idle id = refl

-- What happens to the list while the node runs.
pub data Event : Type 0 where
  answer : Text → Bool → Event
  flushes saves : Event

unfoldable pub step : Event → KnownPublicStreams → KnownPublicStreams
step (answer stream_id is_public) k = set stream_id is_public k
step flushes k = flush true k
step saves k = save_due true k

unfoldable pub run : List Event → KnownPublicStreams → KnownPublicStreams
unfolding step
run [] k = k
run (e ∷ es) k = run es (step e k)

step-IsKept : (e : Event) (k : KnownPublicStreams) → IsKept k → IsKept (step e k)
unfolding step
step-IsKept (answer stream_id is_public) k kept = set-IsKept stream_id is_public k kept
step-IsKept flushes k kept = flush-IsKept k kept
step-IsKept saves k kept = save_due-IsKept k

run-IsKept : (es : List Event) (k : KnownPublicStreams) → IsKept k → IsKept (run es k)
unfolding run
run-IsKept [] k kept = kept
run-IsKept (e ∷ es) k kept = run-IsKept es (step e k) (step-IsKept e k kept)

step-file : (e : Event) (k : KnownPublicStreams) → (step e k).file ≡ k.file
unfolding step set schedule_save flush save save_due
step-file (answer stream_id is_public) k = ground arith
step-file flushes k = ground arith
step-file saves k = refl

run-file : (es : List Event) (k : KnownPublicStreams) → (run es k).file ≡ k.file
unfolding run
run-file [] k = refl
run-file (e ∷ es) k = run-file es (step e k) ∙ step-file e k

create-file : (ids : List Text) → (create (some (listed ids))).file ≡ true
unfolding create
create-file ids = refl

flush_saved :
    (k : KnownPublicStreams) (id : Text)
    → IsKept k
    → k.file ≡ true
    → has id (flush true k).saved ≡ has id k.streams
unfolding flush save
flush_saved k id kept on_disk =
    ground (arith, λ (f : k.file ≡ true) (t : k.save_timeout ≡ false). kept f t id)

reload :
    (k : KnownPublicStreams) (id : Text)
    → IsKept k
    → k.file ≡ true
    → contains id (create (some (listed (flush true k).saved))) ≡ contains id k
unfolding contains create load
reload k id kept on_disk = has-set_of id (flush true k).saved ∙ flush_saved k id kept on_disk

-- A list that was read from a file and lived through any answers, flushes and timed saves, each of
-- which could write the file, answers the same after a last flush and a restart.
pub contains-create-run :
    (ids : List Text) (es : List Event) (id : Text)
    → let k = run es (create (some (listed ids))) in
      contains id (create (some (listed (flush true k).saved))) ≡ contains id k
contains-create-run ids es id =
    reload _ id (run-IsKept es _ (create-IsKept ids)) (run-file es _ ∙ create-file ids)

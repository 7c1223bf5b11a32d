-- ===== src/Storage/KnownPublicStreams.antt =====
-- packages/node/src/plugins/storage/KnownPublicStreams.ts. `saved` is the list in the file, and
-- `save_timeout` says whether the timer of a save is pending. Each write names whether the file
-- system took it.
pub mod Laws
use pombo_storage_node.Base.{
  Bool, true, false, Option, none, some, List, [], ◌∷◌, if◌then◌else◌, ◌==◌, eq_list, eq_nat, Eq,
  not, ◌&&◌, ◌||◌,
}
use pombo_storage_node.Base.Text.{Text}
use pombo_storage_node.Base.Members.{has, put, remove}

pub record KnownPublicStreams : Type 0 where
  pub file : Bool
  pub streams : List Text
  pub save_timeout : Bool
  pub saved : List Text

-- What `readFileSync` and `JSON.parse` make of the file.
pub data Content : Type 0 where
  unreadable not_a_list_of_strings : Content
  listed : List Text → Content

unfoldable pub load : Content → List Text
load unreadable = []
load not_a_list_of_strings = []
load (listed ids) = ids

-- `new Set(ids)`.
unfoldable pub set_of : List Text → List Text
set_of [] = []
set_of (id ∷ ids) = id ∷ remove id (set_of ids)

unfoldable pub create : Option Content → KnownPublicStreams
unfolding load set_of
create none = record { file = false; streams = []; save_timeout = false; saved = [] }
create (some content) = record {
  file = true;
  streams = set_of (load content);
  save_timeout = false;
  saved = load content;
}

unfoldable pub contains : Text → KnownPublicStreams → Bool
contains stream_id k = has stream_id k.streams

unfoldable pub schedule_save : KnownPublicStreams → KnownPublicStreams
schedule_save k = if k.file && not k.save_timeout then record k { save_timeout = true } else k

unfoldable pub save : Bool → KnownPublicStreams → KnownPublicStreams
save writable k = if writable then record k { saved = k.streams } else k

-- `isPublic === this.streams.has(streamId)`.
abbrev agrees : Bool → Bool → Bool
agrees true b = b
agrees false b = not b

unfoldable pub set : Text → Bool → KnownPublicStreams → KnownPublicStreams
unfolding schedule_save contains
set stream_id is_public k =
    if agrees is_public (contains stream_id k)
    then k
    else schedule_save (record k {
      streams = if is_public then put stream_id k.streams else remove stream_id k.streams;
    })

unfoldable pub flush : Bool → KnownPublicStreams → KnownPublicStreams
unfolding save
flush writable k = if k.save_timeout then save writable (record k { save_timeout = false }) else k

-- The callback of the timer.
unfoldable pub save_due : Bool → KnownPublicStreams → KnownPublicStreams
unfolding save
save_due writable k = save writable (record k { save_timeout = false })

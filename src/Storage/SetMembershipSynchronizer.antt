-- ===== src/Storage/SetMembershipSynchronizer.antt =====
-- packages/node/src/plugins/storage/SetMembershipSynchronizer.ts: a set that snapshots define and
-- patches change, each at a sequence number.
pub mod Elements
pub mod Newest
use pombo_storage_node.Base.{
  ℕ, Bool, true, false, not, Option, none, some, List, [], ◌∷◌, if◌then◌else◌, leb, ltb, keep, ◌==◌,
  eq_list, eq_nat,
}
use pombo_storage_node.Base.Text.{Text}
use pombo_storage_node.Base.Members.{has, put, remove}
use pombo_storage_node.Base.Dict.{lookup, insert}

pub record Diff : Type 0 where
  pub added : List Text
  pub removed : List Text

abbrev pub empty_diff : Diff
empty_diff = record { added = []; removed = [] }

unfoldable pub set_difference : List Text → List Text → List Text
set_difference a b = keep (λ el. not (has el b)) a

pub record SetMembershipSynchronizer : Type 0 where
  pub last_snapshot_sequence_no : ℕ
  pub state : List Text
  pub last_sequence_no_by_element : List (Text × ℕ)

abbrev pub empty : SetMembershipSynchronizer
empty = record { last_snapshot_sequence_no = 0; state = []; last_sequence_no_by_element = [] }

pub data Operation : Type 0 where
  adds removes : Operation

-- The patches that a snapshot does not cover.
unfoldable pub later_patches : ℕ → List (Text × ℕ) → List (Text × ℕ)
later_patches sequence_no patches = keep (λ p. not (leb p.1 sequence_no)) patches

-- Each patched element is in the new state exactly if it was in the previous one.
unfoldable pub apply_patches : List (Text × ℕ) → List Text → List Text → List Text
apply_patches [] previous state = state
apply_patches ((element, _) ∷ patches) previous state =
    apply_patches patches previous
      (if has element previous then put element state else remove element state)

unfoldable pub ingest_snapshot :
    List Text → ℕ → SetMembershipSynchronizer → Diff × SetMembershipSynchronizer
unfolding later_patches apply_patches set_difference
ingest_snapshot elements sequence_no s =
    if leb sequence_no s.last_snapshot_sequence_no
    then (empty_diff, s)
    else let patches = later_patches sequence_no s.last_sequence_no_by_element in
      let state = apply_patches patches s.state elements in
      (
        record { added = set_difference state s.state; removed = set_difference s.state state },
        record {
          last_snapshot_sequence_no = sequence_no;
          state = state;
          last_sequence_no_by_element = patches;
        },
      )

abbrev pub or_zero : Option ℕ → ℕ
or_zero none = 0
or_zero (some n) = n

unfoldable pub is_non_stale : ℕ → List (Text × ℕ) → Text → Bool
is_non_stale sequence_no patches element = ltb (or_zero (lookup element patches)) sequence_no

unfoldable pub mark : ℕ → List Text → List (Text × ℕ) → List (Text × ℕ)
mark sequence_no [] patches = patches
mark sequence_no (element ∷ elements) patches =
    mark sequence_no elements (insert element sequence_no patches)

-- `nonStaleElements.filter` with its effect on the state: those that changed it, and the state.
unfoldable pub add_each : List Text → List Text → List Text × List Text
add_each [] state = ([], state)
add_each (element ∷ elements) state =
    let (changed, state') = add_each elements (put element state) in
    (if has element state then changed else element ∷ changed, state')

unfoldable pub remove_each : List Text → List Text → List Text × List Text
remove_each [] state = ([], state)
remove_each (element ∷ elements) state =
    let (changed, state') = remove_each elements (remove element state) in
    (if has element state then element ∷ changed else changed, state')

unfoldable pub ingest_patch :
    List Text → Operation → ℕ → SetMembershipSynchronizer → Diff × SetMembershipSynchronizer
unfolding is_non_stale mark add_each remove_each
ingest_patch elements operation sequence_no s =
    if leb sequence_no s.last_snapshot_sequence_no
    then (empty_diff, s)
    else let fresh = keep (is_non_stale sequence_no s.last_sequence_no_by_element) elements in
      let patches = mark sequence_no fresh s.last_sequence_no_by_element in
      elim operation [
        | adds ↦
            let (changed, state) = add_each fresh s.state in
            (
              record { added = changed; removed = [] },
              record s { state = state; last_sequence_no_by_element = patches },
            )
        | removes ↦
            let (changed, state) = remove_each fresh s.state in
            (
              record { added = []; removed = changed },
              record s { state = state; last_sequence_no_by_element = patches },
            )
      ]

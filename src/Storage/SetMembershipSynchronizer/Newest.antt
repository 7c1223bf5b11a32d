-- ===== src/Storage/SetMembershipSynchronizer/Newest.antt =====
-- In whatever order the messages come, the newest one about an element decides whether it is a member.
use pombo_storage_node.Base.{
  ℕ, ◌≤◌, ◌≡◌, ◌⊎◌, Bool, true, false, List, [], ◌∷◌, max, eq_list, eq_nat, All,
}
use pombo_storage_node.Base.Text.{Text}
use pombo_storage_node.Base.Members.{has}
use pombo_storage_node.Base.Dict.{lookup, Unique}
use pombo_storage_node.Storage.SetMembershipSynchronizer.{
  SetMembershipSynchronizer, empty, adds, removes, or_zero,
}
use pombo_storage_node.Storage.SetMembershipSynchronizer.Elements.{Event, snapshot, patch, ingest}

abbrev pub sequence_no_of : Event → ℕ
sequence_no_of (snapshot elements n) = n
sequence_no_of (patch elements operation n) = n

-- Whether a message is about an element: a snapshot is about every element.
abbrev pub mentions : Text → Event → Bool
mentions e (snapshot elements n) = true
mentions e (patch elements operation n) = has e elements

-- What a message says of an element that it is about.
abbrev pub says : Text → Event → Bool
says e (snapshot elements n) = has e elements
says e (patch elements adds n) = true
says e (patch elements removes n) = false

-- The newest number that counted for an element.
abbrev latest : Text → SetMembershipSynchronizer → ℕ
latest e s = max s.last_snapshot_sequence_no (or_zero (lookup e s.last_sequence_no_by_element))

-- A message about an element either counts, or is not newer than the one that does.
data Effect (e : Text) (ev : Event) (s s' : SetMembershipSynchronizer) : Type 0 where
  ignored :
      (mentions e ev ≡ true → sequence_no_of ev ≤ latest e s)
      → latest e s' ≡ latest e s
      → has e s'.state ≡ has e s.state
      → Effect e ev s s'
  decided :
      mentions e ev ≡ true
      → latest e s ≤ sequence_no_of ev
      → latest e s' ≡ sequence_no_of ev
      → has e s'.state ≡ says e ev
      → Effect e ev s s'

-- The messages that came, the newest arrival first.
unfoldable pub ingest_all : List Event → SetMembershipSynchronizer
unfolding ingest
ingest_all [] = empty
ingest_all (ev ∷ history) = (ingest ev (ingest_all history)).1

abbrev pub Came : Event → List Event → Type 0
Came ev [] = ⊥
Came ev (x ∷ history) = (x ≡ ev) ⊎ Came ev history

-- A message about an element that no message about it is newer than.
abbrev pub Newest : Text → List Event → Event → Type 0
Newest e history ev =
    Came ev history
    × (mentions e ev ≡ true)
    × All (λ x. mentions e x ≡ true → sequence_no_of x ≤ sequence_no_of ev) history

record Follows (e : Text) (history : List Event) (s : SetMembershipSynchronizer) : Type 0 where
  unique : Unique s.last_sequence_no_by_element
  bounded : All (λ x. mentions e x ≡ true → sequence_no_of x ≤ latest e s) history
  decision :
      ((latest e s ≡ 0) × (has e s.state ≡ false))
      ⊎ ((ev : Event) × Came ev history
          × (mentions e ev ≡ true)
          × (sequence_no_of ev ≡ latest e s)
          × (has e s.state ≡ says e ev))

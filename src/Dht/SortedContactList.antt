-- ===== src/Dht/SortedContactList.antt =====
-- packages/dht/src/dht/contact/SortedContactList.ts. The distance of an id to the reference id, and
-- `sortedIndexBy` of lodash, are parameters. A call returns the next state, without the events; of a
-- contact the content is a number.
pub mod Lists
pub mod Steps
pub mod Closest
use pombo_storage_node.Base.{
  ℕ, zero, suc, ◌-◌, Bool, true, false, not, ◌&&◌, ◌||◌, Option, none, some, List, [], ◌∷◌, length,
  map, if◌then◌else◌, ltb, ◌==◌, eq_list, eq_nat,
}
use pombo_storage_node.Base.Text.{Text}
use pombo_storage_node.Base.Dict.{lookup, insert, erase, has_key}
use pombo_storage_node.Base.Members.{has, remove}
use pombo_storage_node.Utils.Heap.{at, insert_at}

pub record Contact : Type 0 where
  pub node_id : Text
  pub content : ℕ

pub record SortedContactListOptions : Type 0 where
  pub reference_id : Text
  pub allow_to_contain_reference_id : Bool
  pub max_size : Option ℕ
  pub node_id_distance_limit : Option Text
  pub excluded_node_ids : Option (List Text)

pub record SortedContactList : Type 0 where
  pub contacts_by_id : List (Text × Contact)
  pub contact_ids : List Text

abbrev pub no_contacts : SortedContactList
no_contacts = record { contacts_by_id = []; contact_ids = [] }

-- `Array.prototype.pop`: the last item, and the others.
unfoldable pub last_of {ℓ} : {A : Type ℓ} → List A → Option A
last_of [] = none
last_of (x ∷ []) = some x
last_of (x ∷ y ∷ xs) = last_of (y ∷ xs)

unfoldable pub pop {ℓ} : {A : Type ℓ} → List A → List A
pop [] = []
pop (x ∷ []) = []
pop (x ∷ y ∷ xs) = x ∷ pop (y ∷ xs)

module _ (options : SortedContactListOptions) (distance : Text → ℕ) where
  -- `compareIds(a, b) < 0`.
  unfoldable pub is_closer : Text → Text → Bool
  is_closer a b = ltb (distance a) (distance b)

  -- The checks that do not look at the list.
  unfoldable pub may_contain : Text → Bool
  unfolding is_closer has
  may_contain id =
      not (elim options.excluded_node_ids [ none ↦ false | some ids ↦ has id ids ])
      && not (not options.allow_to_contain_reference_id && (options.reference_id == id))
      && not
          (elim options.node_id_distance_limit [ none ↦ false | some limit ↦ is_closer limit id ])

  module _ (sorted_index_by : List Text → Text → ℕ) where
    unfoldable pub place : Contact → SortedContactList → SortedContactList
    unfolding insert insert_at
    place contact l = record {
      contacts_by_id = insert contact.node_id contact l.contacts_by_id;
      contact_ids =
          insert_at (sorted_index_by l.contact_ids contact.node_id) contact.node_id l.contact_ids;
    }

    unfoldable pub remove_last : SortedContactList → SortedContactList
    unfolding last_of pop erase
    remove_last l = elim (last_of l.contact_ids) [
      | none ↦ l
      | some id ↦ record {
        contacts_by_id = erase id l.contacts_by_id;
        contact_ids = pop l.contact_ids;
      }
    ]

    abbrev has_room : SortedContactList → Bool
    has_room l = elim options.max_size [ none ↦ true | some n ↦ ltb (length l.contact_ids) n ]

    abbrev limit_of : ℕ
    limit_of = elim options.max_size [ none ↦ 0 | some n ↦ n ]

    -- `none` is the TypeError of a comparison with `undefined`, for a maximum size of zero.
    unfoldable pub add_contact : Contact → SortedContactList → Option SortedContactList
    unfolding may_contain has_key place remove_last is_closer at
    add_contact contact l =
        let id = contact.node_id in
        if not (may_contain id)
        then some l
        else if has_key id l.contacts_by_id
        then some l
        else if has_room l
        then some (place contact l)
        else elim (at l.contact_ids (limit_of - 1)) [
          | none ↦ none
          | some furthest ↦
              if is_closer id furthest then some (place contact (remove_last l)) else some l
        ]

    unfoldable pub add_contacts : List Contact → SortedContactList → Option SortedContactList
    unfolding add_contact
    add_contacts [] l = some l
    add_contacts (contact ∷ contacts) l = elim (add_contact contact l) [
      | none ↦ none
      | some l' ↦ add_contacts contacts l'
    ]

-- `findIndex` and `splice` take out the first place of an id.
unfoldable pub splice_out : Text → List Text → List Text
splice_out id [] = []
splice_out id (x ∷ ids) = if x == id then ids else x ∷ splice_out id ids

unfoldable pub remove_contact : Text → SortedContactList → Bool × SortedContactList
unfolding splice_out has_key erase
remove_contact id l =
    if has_key id l.contacts_by_id
    then (
      true,
      record {
        contacts_by_id = erase id l.contacts_by_id;
        contact_ids = splice_out id l.contact_ids;
      },
    )
    else (false, l)

-- The contacts of the closest ids, all of them without a limit.
abbrev pub take : ℕ → List Text → List Text
take zero ids = []
take (suc n) [] = []
take (suc n) (id ∷ ids) = id ∷ take n ids

unfoldable pub get_closest_contacts : Option ℕ → SortedContactList → List (Option Contact)
unfolding lookup
get_closest_contacts limit l =
    let ids : List Text = elim limit [ none ↦ l.contact_ids | some n ↦ take n l.contact_ids ] in
    map (λ id. lookup id l.contacts_by_id) ids

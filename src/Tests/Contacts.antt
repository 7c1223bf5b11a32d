-- ===== src/Tests/Contacts.antt =====
-- Concrete cases of packages/dht/src/dht/contact/SortedContactList.ts, with the length of an id as its
-- distance and an index that goes through the list.
use pombo_storage_node.Base.{
  ℕ, zero, suc, ◌≡◌, ◌≤◌, refl, inl, inr, false, none, some, List, [], ◌∷◌, length, All, ltb,
  if◌then◌else◌, arith, Bool-cases, list_beq, eq_list, eq_nat,
}
use pombo_storage_node.Base.Text.{Text, codes}
use pombo_storage_node.Base.Dict.{lookup, insert, erase, has_key}
use pombo_storage_node.Base.Members.{has}
use pombo_storage_node.Utils.Heap.{at, insert_at}
use pombo_storage_node.Dht.SortedContactList.{
  Contact, SortedContactListOptions, SortedContactList, no_contacts, last_of, pop, is_closer,
  may_contain, place, remove_last, add_contact, add_contacts,
}
use pombo_storage_node.Dht.SortedContactList.Lists.{Sorted, Distinct, closer_at}
use pombo_storage_node.Dht.SortedContactList.Steps.{IsSettled}
use pombo_storage_node.Dht.SortedContactList.Steps.{IsSettled}
use pombo_storage_node.Dht.SortedContactList.Closest.{add_contacts-IsSettled, add_contacts-Sorted}

index_of : List Text → Text → ℕ
index_of [] id = 0
index_of (x ∷ ids) id =
    let rest = index_of ids id in if ltb (length x) (length id) then suc rest else 0

not_closer :
    (ids : List Text) (n : ℕ) (id : Text) (i : ℕ)
    → All (λ y. n ≤ length y) ids
    → length id ≤ n
    → closer_at length ids id i ≡ false
unfolding at
not_closer [] n id i h le = refl
not_closer (x ∷ ids) n id zero h le = ground (arith, h.0, le)
not_closer (x ∷ ids) n id (suc i) h le = not_closer ids n id i h.1 le

index_of-closer_at :
    (ids : List Text) (id : Text)
    → Sorted length ids
    → (i : ℕ) → ltb i (index_of ids id) ≡ closer_at length ids id i
unfolding index_of at
index_of-closer_at [] id s i = ground arith
index_of-closer_at (x ∷ ids) id s zero = elim (Bool-cases (ltb (length x) (length id))) [
  | inl closer ↦ rw (index_of, closer) (ground arith)
  | inr further ↦ rw (index_of, further) (ground (arith, further))
]
index_of-closer_at (x ∷ ids) id s (suc i) = elim (Bool-cases (ltb (length x) (length id))) [
  | inl closer ↦
      let later = index_of-closer_at ids id s.1 i in rw (index_of, closer) (ground (arith, later))
  | inr further ↦
      let beyond = not_closer ids (length x) id i s.0 (ground (arith, further)) in
      rw (index_of, further) (ground (arith, beyond))
]

abbrev options : SortedContactListOptions
options = record {
  reference_id = codes "";
  allow_to_contain_reference_id = false;
  max_size = some 2;
  node_id_distance_limit = none;
  excluded_node_ids = none;
}

abbrev contact : Text → Contact
contact id = record { node_id = id; content = 0 }

abbrev offered : List Contact
offered = contact (codes "aaa") ∷ contact (codes "bb") ∷ contact (codes "c") ∷ []

abbrev kept : SortedContactList
kept = record {
  contacts_by_id = (codes "bb", contact (codes "bb")) ∷ (codes "c", contact (codes "c")) ∷ [];
  contact_ids = codes "c" ∷ codes "bb" ∷ [];
}

two_closest : add_contacts options length index_of offered no_contacts ≡ some kept
unfolding add_contacts add_contact is_closer may_contain place remove_last last_of pop index_of at
    insert_at lookup insert erase has_key has list_beq
two_closest = refl

add_contacts-IsSettled_example :
    All (IsSettled options length index_of 2 refl index_of-closer_at kept) offered
add_contacts-IsSettled_example =
    add_contacts-IsSettled options length index_of 2 refl index_of-closer_at offered kept
      (omega arith) two_closest

add_contacts-Sorted_example :
    Sorted length kept.contact_ids
    × Distinct kept.contact_ids
    × (length kept.contact_ids ≤ 2)
    × ((b : Text) → has b kept.contact_ids ≡ has_key b kept.contacts_by_id)
add_contacts-Sorted_example =
    add_contacts-Sorted options length index_of 2 refl index_of-closer_at offered kept (omega arith)
      two_closest

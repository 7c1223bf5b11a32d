-- ===== src/Dht/SortedContactList/Closest.antt =====
-- Which contacts packages/dht/src/dht/contact/SortedContactList.ts keeps of those added to it.
use pombo_storage_node.Base.{
  ℕ, ◌≤◌, ◌≡◌, refl, ◌∙◌, inl, inr, some, List, [], ◌∷◌, length, All, All-map, ltb, eq_list, eq_nat,
  arith, Bool-cases, Option-cases, subst,
}
use mathlib.Core.Option.{some-injective}
use pombo_storage_node.Base.Text.{Text}
use pombo_storage_node.Base.Dict.{lookup, has_key}
use pombo_storage_node.Base.Members.{has}
use pombo_storage_node.Dht.SortedContactList.{
  Contact, SortedContactListOptions, SortedContactList, no_contacts, last_of, is_closer,
  may_contain, add_contact, add_contacts,
}
use pombo_storage_node.Dht.SortedContactList.Lists.{
  at-last, Distinct, Sorted, closer_at, last-furthest,
}
use pombo_storage_node.Dht.SortedContactList.Steps.{
  IsValid, IsSettled, Step, place-Step, replace-Step,
}

module _ (options : SortedContactListOptions) (distance : Text → ℕ)
    (sorted_index_by : List Text → Text → ℕ) (k : ℕ) (max_size : options.max_size ≡ some k)
    (index : (ids : List Text) (id : Text)
      → Sorted distance ids
      → (i : ℕ) → ltb i (sorted_index_by ids id) ≡ closer_at distance ids id i) where
  abbrev Valid : SortedContactList → Type 0
  Valid = IsValid options distance sorted_index_by k max_size index

  abbrev Settled : SortedContactList → Contact → Type 0
  Settled = IsSettled options distance sorted_index_by k max_size index

  abbrev Stepped : List Contact → Contact → SortedContactList → Type 0
  Stepped = Step options distance sorted_index_by k max_size index

  -- A contact that changes nothing, with what is said of it.
  same-Step :
      (offered : List Contact) (c : Contact) (l l' : SortedContactList)
      → Valid l
      → All (Settled l) offered
      → Settled l c
      → some l ≡ some l'
      → Stepped offered c l'
  same-Step offered c l l' v settled said e =
      subst (Stepped offered c) (some-injective l l' e) (v, (said, settled))

  add_contact-Step :
      (offered : List Contact) (c : Contact) (l l' : SortedContactList)
      → 1 ≤ k
      → Valid l
      → All (Settled l) offered
      → add_contact options distance sorted_index_by c l ≡ some l'
      → Stepped offered c l'
  unfolding add_contact is_closer
  add_contact-Step offered c l l' some_room v settled e =
      let id = c.node_id in
      elim (Bool-cases (may_contain options distance id)) [
        | inr refused ↦
            same-Step offered c l l' v settled (inl refused) (rw (add_contact, refused) at e)
        | inl may ↦ elim (Bool-cases (has_key id l.contacts_by_id)) [
          | inl there ↦
              same-Step offered c l l' v settled (inr (inl (v.same id ∙ there)))
                (rw (add_contact, may, there) at e)
          | inr new ↦ elim (Bool-cases (ltb (length l.contact_ids) k)) [
            | inl room ↦
                subst (Stepped offered c)
                  (some-injective _ l' (rw (add_contact, may, new, max_size, room) at e))
                  (place-Step options distance sorted_index_by k max_size index offered c l v
                    settled new (ground (arith, room)))
            | inr no_room ↦
                let full : length l.contact_ids ≡ k = ground (arith, no_room, v.size) in
                let placed = at-last k l.contact_ids full in
                elim (Option-cases (last_of l.contact_ids)) [
                  | inl empty ↦
                      absurd
                        (cc (rw (add_contact, may, new, max_size, no_room, placed, empty) at e))
                  | inr (f, last) ↦ elim (Bool-cases (ltb (distance id) (distance f))) [
                    | inl closer ↦
                        subst (Stepped offered c)
                          (some-injective _ l' (
                            rw
                              (
                                add_contact, may, new, max_size, no_room, placed, last, is_closer,
                                closer,
                              )
                              at e))
                          (replace-Step options distance sorted_index_by k max_size index offered c
                            f l v settled new full some_room last (ground (arith, closer)))
                    | inr further ↦
                        let far = last-furthest distance l.contact_ids f v.sorted last in
                        same-Step offered c l l' v settled
                          (inr (
                            inr (
                              full,
                              All-map (λ y. distance y ≤ distance f) (λ y. distance y ≤ distance id)
                                  (λ y h. ground (arith, h, further)) l.contact_ids far,
                            )))
                          (rw
                            (
                              add_contact, may, new, max_size, no_room, placed, last, is_closer,
                              further,
                            )
                            at e)
                  ]
                ]
          ]
        ]
      ]

  add_contacts-IsSettled_from :
      (offered contacts : List Contact) (l l' : SortedContactList)
      → 1 ≤ k
      → Valid l
      → All (Settled l) offered
      → add_contacts options distance sorted_index_by contacts l ≡ some l'
      → Valid l' × All (Settled l') contacts × All (Settled l') offered
  unfolding add_contacts
  add_contacts-IsSettled_from offered [] l l' some_room v settled e =
      let same = some-injective l l' e in
      (subst Valid same v, tt, subst (λ x. All (Settled x) offered) same settled)
  add_contacts-IsSettled_from offered (c ∷ contacts) l l' some_room v settled e =
      elim (Option-cases (add_contact options distance sorted_index_by c l)) [
        | inl failed ↦ absurd (cc (rw (add_contacts, failed) at e))
        | inr (l1, added) ↦
            let (v1, now_settled) = add_contact-Step offered c l l1 some_room v settled added in
            let (v2, later, before) =
              add_contacts-IsSettled_from (c ∷ offered) contacts l1 l' some_room v1 now_settled
                (rw (add_contacts, added) at e) in
            (v2, (before.0, later), before.1)
      ]

  no_contacts-IsValid : Valid no_contacts
  unfolding has has_key lookup
  no_contacts-IsValid = record { distinct = tt; same = λ b. refl; sorted = tt; size = omega arith }

  -- Of contacts added to an empty list with a maximum size above zero, where `sortedIndexBy` gives the
  -- place before which the closer ids are, each may not be in the list, or is in it, or the list is
  -- full of ids that are at least as close.
  pub add_contacts-IsSettled :
      (contacts : List Contact) (l : SortedContactList)
      → 1 ≤ k
      → add_contacts options distance sorted_index_by contacts no_contacts ≡ some l
      → All (IsSettled options distance sorted_index_by k max_size index l) contacts
  add_contacts-IsSettled contacts l some_room e =
      (add_contacts-IsSettled_from [] contacts no_contacts l some_room no_contacts-IsValid tt e).1

  -- The list that contacts give which are added to an empty list with a maximum size above zero, where
  -- `sortedIndexBy` gives the place before which the closer ids are, is sorted by distance, holds no id twice and no more ids than its
  -- maximum size, and its ids are those that it has contacts for.
  pub add_contacts-Sorted :
      (contacts : List Contact) (l : SortedContactList)
      → 1 ≤ k
      → add_contacts options distance sorted_index_by contacts no_contacts ≡ some l
      → Sorted distance l.contact_ids
        × Distinct l.contact_ids
        × (length l.contact_ids ≤ k)
        × ((b : Text) → has b l.contact_ids ≡ has_key b l.contacts_by_id)
  add_contacts-Sorted contacts l some_room e =
      let (v, settled, none_before) =
        add_contacts-IsSettled_from [] contacts no_contacts l some_room no_contacts-IsValid tt e in
      (v.sorted, v.distinct, v.size, v.same)

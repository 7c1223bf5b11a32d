-- ===== src/Dht/SortedContactList/Steps.antt =====
-- What adding one contact does to the list of packages/dht/src/dht/contact/SortedContactList.ts.
use pombo_storage_node.Base.{
  ℕ, ◌≤◌, ◌<◌, ◌≡◌, ◌⊎◌, sym, ◌∙◌, ap, inl, inr, true, false, not, ◌&&◌, ◌||◌, some, List, ◌∷◌,
  length, All, All-map, ltb, ◌==◌, ==_refl, eq_list, eq_nat, arith, Bool-cases, subst,
}
use pombo_storage_node.Base.Text.{Text}
use pombo_storage_node.Base.Dict.{insert, erase, has_key, lookup-insert, lookup-erase}
use pombo_storage_node.Base.Members.{has}
use pombo_storage_node.Utils.Heap.{insert_at}
use pombo_storage_node.Dht.SortedContactList.{
  Contact, SortedContactListOptions, SortedContactList, last_of, pop, may_contain, place,
  remove_last,
}
use pombo_storage_node.Dht.SortedContactList.Lists.{
  length-insert_at, All-insert_at, length-pop, All-pop, All-last, Distinct, has-insert_at,
  Distinct-insert_at, has-pop, Distinct-pop, Sorted, closer_at, insert_at-Sorted, pop-Sorted,
  last-furthest,
}

has_key-insert :
    (k b : Text) (v : Contact) (m : List (Text × Contact))
    → has_key b (insert k v m) ≡ ((k == b) || has_key b m)
unfolding has_key
has_key-insert k b v m = ground (arith, lookup-insert k b v m)

has_key-erase :
    (k b : Text) (m : List (Text × Contact)) → has_key b (erase k m) ≡ (has_key b m && not (k == b))
unfolding has_key
has_key-erase k b m = ground (arith, lookup-erase k b m)

module _ (options : SortedContactListOptions) (distance : Text → ℕ)
    (sorted_index_by : List Text → Text → ℕ) (k : ℕ) (max_size : options.max_size ≡ some k)
    (index : (ids : List Text) (id : Text)
      → Sorted distance ids
      → (i : ℕ) → ltb i (sorted_index_by ids id) ≡ closer_at distance ids id i) where
  pub record IsValid (l : SortedContactList) : Type 0 where
    pub distinct : Distinct l.contact_ids
    pub same : (b : Text) → has b l.contact_ids ≡ has_key b l.contacts_by_id
    pub sorted : Sorted distance l.contact_ids
    pub size : length l.contact_ids ≤ k

  place-IsValid :
      (c : Contact) (l : SortedContactList)
      → IsValid l
      → has_key c.node_id l.contacts_by_id ≡ false
      → length l.contact_ids < k
      → IsValid (place options distance sorted_index_by c l)
  unfolding place
  place-IsValid c l v new room =
      let id = c.node_id in
      let r = sorted_index_by l.contact_ids id in
      record {
        distinct = Distinct-insert_at r id l.contact_ids (v.same id ∙ new) v.distinct;
        same = λ b.
            rw (
              has-insert_at b r id l.contact_ids,
              has_key-insert id b c l.contacts_by_id,
              v.same b,
            );
        sorted =
            insert_at-Sorted distance r id l.contact_ids (index l.contact_ids id v.sorted) v.sorted;
        size = omega (arith, length-insert_at r id l.contact_ids, room);
      }

  remove_last-IsValid :
      (l : SortedContactList) (f : Text)
      → IsValid l
      → last_of l.contact_ids ≡ some f
      → IsValid (remove_last options distance sorted_index_by l)
  unfolding remove_last
  remove_last-IsValid l f v last =
      rw (remove_last, last)
        (record {
          distinct = Distinct-pop l.contact_ids v.distinct;
          same = λ b. rw (
            has-pop b l.contact_ids f v.distinct last,
            has_key-erase f b l.contacts_by_id,
            v.same b,
          );
          sorted = pop-Sorted distance l.contact_ids v.sorted;
          size = omega (arith, length-pop l.contact_ids, v.size);
        })

  -- What is said of a contact that was added: it may not be in the list, or is in it, or the list is
  -- full of ids that are at least as close.
  abbrev pub IsSettled : SortedContactList → Contact → Type 0
  IsSettled l c =
      (may_contain options distance c.node_id ≡ false)
      ⊎ (has c.node_id l.contact_ids ≡ true)
      ⊎ (length l.contact_ids ≡ k) × All (λ y. distance y ≤ distance c.node_id) l.contact_ids

  abbrev pub Step : List Contact → Contact → SortedContactList → Type 0
  Step offered c l' = IsValid l' × All (IsSettled l') (c ∷ offered)

  pub place-Step :
      (offered : List Contact) (c : Contact) (l : SortedContactList)
      → IsValid l
      → All (IsSettled l) offered
      → has_key c.node_id l.contacts_by_id ≡ false
      → length l.contact_ids < k
      → Step offered c (place options distance sorted_index_by c l)
  unfolding place
  place-Step offered c l v settled new room =
      let id = c.node_id in
      let r = sorted_index_by l.contact_ids id in
      (
        place-IsValid c l v new room,
        (
          inr (inl (ground (arith, has-insert_at id r id l.contact_ids, ==_refl id))),
          All-map (IsSettled l) (IsSettled (place options distance sorted_index_by c l))
              (λ c' before. elim before [
                | inl refused ↦ inl refused
                | inr other ↦ elim other [
                  | inl there ↦
                      inr (inl (ground (arith, has-insert_at c'.node_id r id l.contact_ids, there)))
                  | inr full ↦ absurd (omega (arith, full.0, room))
                ]
              ])
              offered settled,
        ),
      )

  pub replace-Step :
      (offered : List Contact) (c : Contact) (f : Text) (l : SortedContactList)
      → IsValid l
      → All (IsSettled l) offered
      → has_key c.node_id l.contacts_by_id ≡ false
      → length l.contact_ids ≡ k
      → 1 ≤ k
      → last_of l.contact_ids ≡ some f
      → distance c.node_id < distance f
      → Step offered c (
          place options distance sorted_index_by c (remove_last options distance sorted_index_by l))
  unfolding place remove_last
  replace-Step offered c f l v settled new full some_room last closer =
      let id = c.node_id in
      let rest = pop l.contact_ids in
      let r = sorted_index_by rest id in
      let l1 : SortedContactList = record {
        contacts_by_id = erase f l.contacts_by_id;
        contact_ids = rest;
      } in
      let removed : remove_last options distance sorted_index_by l ≡ l1 = rw (remove_last, last) in
      let v1 = subst IsValid removed (remove_last-IsValid l f v last) in
      let full_again : length (insert_at r id rest) ≡ k =
        omega (arith, length-insert_at r id rest, length-pop l.contact_ids, full, some_room) in
      let far = last-furthest distance l.contact_ids f v.sorted last in
      subst (λ x. Step offered c (place options distance sorted_index_by c x)) (sym removed)
        (
          place-IsValid c l1 v1 (ground (arith, has_key-erase f id l.contacts_by_id, new))
              (omega (arith, length-pop l.contact_ids, full, some_room)),
          (
            inr (inl (ground (arith, has-insert_at id r id rest, ==_refl id))),
            All-map (IsSettled l) (IsSettled (place options distance sorted_index_by c l1))
                (λ c' before. elim before [
                  | inl refused ↦ inl refused
                  | inr other ↦ elim other [
                    | inl there ↦ elim (Bool-cases (f == c'.node_id)) [
                      | inr apart ↦ inr (
                          inl (
                            ground (
                              arith,
                              has-insert_at c'.node_id r id rest,
                              has-pop c'.node_id l.contact_ids f v.distinct last,
                              there,
                              apart,
                            )))
                      | inl same ↦
                          let equal = ap distance ((eq_list.beq_iff f c'.node_id).0 same) in
                          inr (
                            inr (
                              full_again,
                              All-insert_at (λ y. distance y ≤ distance c'.node_id) r id rest
                                  (omega (arith, closer, equal))
                                  (All-map (λ y. distance y ≤ distance f)
                                    (λ y. distance y ≤ distance c'.node_id)
                                    (λ y h. omega (arith, h, equal)) rest
                                    (All-pop _ l.contact_ids far)),
                            ))
                    ]
                    | inr full_before ↦
                        let beyond =
                          All-last (λ y. distance y ≤ distance c'.node_id) l.contact_ids f
                            full_before.1 last in
                        inr (
                          inr (
                            full_again,
                            All-insert_at (λ y. distance y ≤ distance c'.node_id) r id rest
                                (omega (arith, closer, beyond))
                                (All-pop _ l.contact_ids full_before.1),
                          ))
                  ]
                ])
                offered settled,
          ),
        )

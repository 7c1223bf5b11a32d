-- ===== src/Storage/PurgeEndpoint/Rows.antt =====
-- What the deletion of the rows at a target leaves in the table.
use pombo_storage_node.Base.{
  ◌≡◌, refl, sym, ◌∙◌, ap, subst, inl, inr, Bool, true, false, ◌&&◌, ◌||◌, not, List, [], ◌∷◌, any,
  keep, All, keep-ext, keep-keep, All-of, All-map, keep_every, any-keep, any_member, ◌==◌, ==_refl,
  eq_list, eq_nat, Eq, arith, Bool-cases,
}
use pombo_storage_node.Base.Text.{Text}
use pombo_storage_node.Base.Members.{has}
use pombo_storage_node.Base.Number.{Number, eq_number}
use pombo_storage_node.Storage.PurgeEndpoint.{
  StoredRow, PurgeTarget, matches, get_messages, addresses, delete_message, delete_messages,
}

module _ {ℓ} {A : Type ℓ} ⦃e : Eq A⦄ where
  ==_trans : (a b c : A) → (a == b) ≡ true → (b == c) ≡ true → (a == c) ≡ true
  ==_trans a b c h k = subst (λ x. (x == c) ≡ true) (sym ((e.beq_iff a b).0 h)) k

module _ (buckets_by_timestamp : Text → Number → Number → List Text) (stream_id : Text)
    (partition : Number) where
  abbrev pub at : PurgeTarget → StoredRow → Bool
  at target row = matches buckets_by_timestamp stream_id partition target row

  -- What it is for a row to be at a target.
  record At (target : PurgeTarget) (row : StoredRow) : Type 0 where
    stream : (row.stream_id == stream_id) ≡ true
    part : (row.partition == partition) ≡ true
    bucket : has row.bucket_id (buckets_by_timestamp stream_id partition target.timestamp) ≡ true
    time : (row.timestamp == target.timestamp) ≡ true
    sequence : (row.sequence_no == target.sequence_number) ≡ true

  at-At : (target : PurgeTarget) (row : StoredRow) → at target row ≡ true → At target row
  unfolding matches
  at-At target row h = record {
    stream = ground arith;
    part = ground arith;
    bucket = ground arith;
    time = ground arith;
    sequence = ground arith;
  }

  At-at : (target : PurgeTarget) (row : StoredRow) → At target row → at target row ≡ true
  unfolding matches
  At-at target row a = rw (matches, a.stream, a.part, a.bucket, a.time, a.sequence)

  -- Rows that one key addresses are at the same targets.
  pub addresses-matches :
      (target : PurgeTarget) (row other : StoredRow)
      → addresses stream_id partition row other ≡ true
      → at target row ≡ true
      → at target other ≡ true
  unfolding addresses
  addresses-matches target row other h k =
      let a = at-At target row k in
      At-at target other (record {
        stream = ground arith;
        part = ground arith;
        bucket =
            subst (λ x. has x (buckets_by_timestamp stream_id partition target.timestamp) ≡ true)
              (sym ((eq_list.beq_iff other.bucket_id row.bucket_id).0 (ground arith))) a.bucket;
        time = ==_trans other.timestamp row.timestamp target.timestamp (ground arith) a.time;
        sequence =
            ==_trans other.sequence_no row.sequence_no target.sequence_number (ground arith)
              a.sequence;
      })

  -- A row at a target is addressed by its own key.
  addresses_self :
      (target : PurgeTarget) (row : StoredRow)
      → at target row ≡ true
      → addresses stream_id partition row row ≡ true
  unfolding addresses
  addresses_self target row h =
      let a = at-At target row h in
      rw (
        addresses,
        a.stream,
        a.part,
        ==_refl row.bucket_id,
        ==_refl row.timestamp,
        ==_refl row.sequence_no,
        ==_refl row.publisher_id,
        ==_refl row.msg_chain_id,
      )

  delete_messages-eq :
      (rows table : List StoredRow)
      → delete_messages stream_id partition rows table
        ≡ keep (λ other. not (any (λ row. addresses stream_id partition row other) rows)) table
  unfolding delete_messages delete_message
  delete_messages-eq [] table =
      sym (keep_every (λ _. true) table (All-of (λ _. true ≡ true) (λ _. refl) table))
  delete_messages-eq (row ∷ rows) table =
      delete_messages-eq rows (delete_message stream_id partition row table)
      ∙ keep-keep (λ other. not (any (λ r. addresses stream_id partition r other) rows))
          (λ other. not (addresses stream_id partition row other)) table
      ∙ keep-ext _ _ table (All-of _ (λ other. ground arith) table)

  -- A row of the table is addressed by some row at a target exactly if it is at the target itself.
  addressed-eq :
      (target : PurgeTarget) (table : List StoredRow)
      → All
          (λ other.
            any (λ row. addresses stream_id partition row other) (keep (at target) table)
            ≡ at target other)
          table
  addressed-eq target table =
      All-map _ _ (λ other h. go other h) table
        (any_member
          (λ row other.
            not (at target other) || (at target row && addresses stream_id partition row other))
          table (All-of _ (λ row. self row) table))
    where
      self :
          (row : StoredRow)
          → (not (at target row) || (at target row && addresses stream_id partition row row)) ≡ true
      self row = elim (Bool-cases (at target row)) [
        | inl here ↦ rw (here, addresses_self target row here)
        | inr gone ↦ rw gone
      ]

      absent :
          (other : StoredRow)
          → at target other ≡ false
          → (rows : List StoredRow)
          → any (λ row. addresses stream_id partition row other) (keep (at target) rows) ≡ false
      absent other gone [] = refl
      absent other gone (row ∷ rows) = elim (Bool-cases (at target row)) [
        | inr away ↦ rw away (absent other gone rows)
        | inl here ↦ elim (Bool-cases (addresses stream_id partition row other)) [
          | inl same ↦ cc (addresses-matches target row other same here, gone)
          | inr apart ↦ rw (here, apart) (absent other gone rows)
        ]
      ]

      go :
          (other : StoredRow)
          → any
              (λ row.
                not (at target other) || (at target row && addresses stream_id partition row other))
              table
            ≡ true
          → any (λ row. addresses stream_id partition row other) (keep (at target) table)
            ≡ at target other
      go other h = elim (Bool-cases (at target other)) [
        | inr gone ↦ absent other gone table ∙ sym gone
        | inl here ↦
            any-keep (λ row. addresses stream_id partition row other) (at target) table
            ∙ rw here at h
            ∙ sym here
      ]

  -- Deleting the rows found at a target leaves exactly the rows that are not at it.
  pub delete_messages-get_messages :
      (target : PurgeTarget) (table : List StoredRow)
      → delete_messages stream_id partition
          (get_messages buckets_by_timestamp stream_id partition target table)
          table
        ≡ keep (λ other. not (at target other)) table
  unfolding get_messages
  delete_messages-get_messages target table =
      delete_messages-eq (keep (at target) table) table
      ∙ keep-ext _ _ table
          (All-map _ _ (λ other same. ap not same) table (addressed-eq target table))

  -- Targets that share a row share every row.
  pub at_same :
      (target other : PurgeTarget) (row row' : StoredRow)
      → at target row ≡ true
      → at other row ≡ true
      → at other row' ≡ true
      → at target row' ≡ true
  at_same target other row row' h k h' =
      let a = at-At target row h in
      let b = at-At other row k in
      let b' = at-At other row' h' in
      let times : other.timestamp ≡ target.timestamp =
        sym ((eq_number.beq_iff row.timestamp other.timestamp).0 b.time)
        ∙ (eq_number.beq_iff row.timestamp target.timestamp).0 a.time in
      let sequences : other.sequence_number ≡ target.sequence_number =
        sym ((eq_number.beq_iff row.sequence_no other.sequence_number).0 b.sequence)
        ∙ (eq_number.beq_iff row.sequence_no target.sequence_number).0 a.sequence in
      At-at target row' (record {
        stream = b'.stream;
        part = b'.part;
        bucket =
            subst (λ t. has row'.bucket_id (buckets_by_timestamp stream_id partition t) ≡ true)
              times b'.bucket;
        time = subst (λ t. (row'.timestamp == t) ≡ true) times b'.time;
        sequence = subst (λ t. (row'.sequence_no == t) ≡ true) sequences b'.sequence;
      })

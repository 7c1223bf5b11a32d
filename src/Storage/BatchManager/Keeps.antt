-- ===== src/Storage/BatchManager/Keeps.antt =====
-- What the steps of packages/node/src/plugins/storage/BatchManager.ts keep: the batches are in good
-- order, and no record is lost or doubled.
use pombo_storage_node.Base.{
  ℕ, suc, ◌+◌, ◌≤◌, ◌≡◌, ◌⊎◌, refl, ◌∙◌, ap, inl, inr, Bool, Option, none, some, [], ◌∷◌, length,
  length-append, if◌then◌else◌, nat_eq, eq_list, eq_nat, arith, Bool-cases, Option-cases, subst,
}
use mathlib.Core.Option.{some-injective}
use pombo_storage_node.Base.Text.{Text}
use pombo_storage_node.Base.Dict.{lookup, insert, Unique-insert, All-lookup, lookup-erase_self}
use pombo_storage_node.Storage.Batch.{
  Batch, BatchOptions, InsertRecord, create, schedule_insert, is_full, lock, push,
}
use pombo_storage_node.Storage.BatchManager.{
  BatchManager, move_full_batch, lock_batch, make_room, open_batch, store,
}
use pombo_storage_node.Storage.BatchManager.Total.{
  sum_of, sum_of-append, total, total-insert, total-erase, lookup-le-total, Unique-erase,
  All-insert, All-erase, weight,
}
use pombo_storage_node.Storage.BatchManager.World.{
  IsValid, GoodOpen, GoodPending, load, is_id, live, held, flight,
}

module _ (opts : BatchOptions) (s : Bool) where
  -- The id of an open batch is not that of a pending one.
  open_apart :
      (m : BatchManager) (n : ℕ) (k : Text) (b : Batch)
      → IsValid opts s m n
      → lookup k m.batches ≡ some b
      → lookup b.id m.pending_batches ≡ none
  open_apart m n k b v found = elim (Option-cases (lookup b.id m.pending_batches)) [
    | inl absent ↦ absent
    | inr (b', present) ↦
        let own = All-lookup (λ p. p.1.id ≡ p.0) b.id m.pending_batches b' v.own_ids present in
        absurd (
          ground (
            arith,
            own,
            ap (weight (is_id b.id)) found,
            lookup-le-total (is_id b.id) k m.batches,
            ap (weight (is_id b.id)) present,
            lookup-le-total (is_id b.id) b.id m.pending_batches,
            v.once b.id,
          ))
  ]

  -- A measure that locking leaves alone is not changed by moving a batch.
  pub live-lock_batch :
      (g : Batch → ℕ) (now : ℕ) (k : Text) (b : Batch) (m : BatchManager) (n : ℕ)
      → IsValid opts s m n
      → lookup k m.batches ≡ some b
      → g (schedule_insert opts now (lock b)) ≡ g b
      → live g (lock_batch opts now k b m) ≡ live g m
  unfolding lock_batch move_full_batch
  live-lock_batch g now k b m n v found same = omega (
    arith,
    same,
    ap (weight g) found,
    ap (weight g) (open_apart m n k b v found),
    total-erase g k m.batches v.unique_buckets,
    total-insert g b.id (schedule_insert opts now (lock b)) m.pending_batches,
  )

  pub lock-IsValid :
      (now : ℕ) (k : Text) (b : Batch) (m : BatchManager) (n : ℕ)
      → IsValid opts s m n
      → lookup k m.batches ≡ some b
      → IsValid opts s (lock_batch opts now k b m) n
  unfolding lock_batch move_full_batch lock schedule_insert
  lock-IsValid now k b m n v found =
      let good = All-lookup (λ p. GoodOpen opts p.1) k m.batches b v.good_open found in
      record {
        unique_buckets = Unique-erase k m.batches v.unique_buckets;
        unique_ids = Unique-insert b.id _ m.pending_batches v.unique_ids;
        own_ids = All-insert (λ p. p.1.id ≡ p.0) b.id _ m.pending_batches refl v.own_ids;
        once = λ i. rw (live-lock_batch (is_id i) now k b m n v found refl) (v.once i);
        unused = λ i h. live-lock_batch (is_id i) now k b m n v found refl ∙ v.unused i h;
        good_open = All-erase (λ p. GoodOpen opts p.1) k m.batches v.good_open;
        good_pending =
            All-insert (λ p. GoodPending opts p.1) b.id _ m.pending_batches
              (inl (_, refl, good.1), omega (arith, good.2), good.3) v.good_pending;
        good_detached = v.good_detached;
        unique_detached = v.unique_detached;
        own_detached = v.own_detached;
      }

  make_room-IsValid :
      (now : ℕ) (k : Text) (m : BatchManager) (n : ℕ)
      → IsValid opts s m n
      → IsValid opts s (make_room opts now k m) n
  unfolding make_room
  make_room-IsValid now k m n v = elim (Option-cases (lookup k m.batches)) [
    | inl absent ↦ rw (make_room, absent) v
    | inr (b, found) ↦ elim (Bool-cases (is_full opts b)) [
      | inl full ↦ rw (make_room, found, full) (lock-IsValid now k b m n v found)
      | inr room ↦ rw (make_room, found, room) v
    ]
  ]

  held-make_room :
      (f : InsertRecord → ℕ) (now : ℕ) (k : Text) (m : BatchManager) (n : ℕ)
      → IsValid opts s m n
      → held f (make_room opts now k m) ≡ held f m
  unfolding make_room schedule_insert lock
  held-make_room f now k m n v = elim (Option-cases (lookup k m.batches)) [
    | inl absent ↦ rw (make_room, absent)
    | inr (b, found) ↦ elim (Bool-cases (is_full opts b)) [
      | inl full ↦
          rw (make_room, found, full)
            (ap (λ x. x + total (flight f) m.detached)
              (live-lock_batch (load f) now k b m n v found refl))
      | inr room ↦ rw (make_room, found, room)
    ]
  ]

  abbrev Fresh : ℕ → Batch → Type 0
  Fresh n b = (b.records ≡ []) × (b.id ≡ n) × (1 ≤ opts.max_record_count) × GoodOpen opts b

  -- What the batch for the next record of a bucket is like.
  abbrev HasRoom : ℕ → ℕ → Text → BatchManager → Batch → Type 0
  HasRoom now n k m b =
      (lookup k m.batches ≡ some b) × (suc (length b.records) ≤ opts.max_record_count)
      ⊎ (lookup k m.batches ≡ none) × Fresh n b

  create-Fresh : (now n : ℕ) (k : Text) (b : Batch) → create opts now n k ≡ some b → Fresh n b
  unfolding create
  create-Fresh now n k b h = (
    ground (arith, h),
    ground (arith, h),
    ground (arith, h),
    (
      (now + opts.close_timeout, ground (arith, h)),
      ground (arith, h),
      ground (arith, h),
      ground (arith, h),
    ),
  )

  open_batch-HasRoom :
      (now n : ℕ) (k : Text) (m : BatchManager) (b : Batch)
      → open_batch opts now n k (make_room opts now k m) ≡ some b
      → HasRoom now n k (make_room opts now k m) b
  unfolding make_room open_batch lock_batch move_full_batch is_full
  open_batch-HasRoom now n k m b h = elim (Option-cases (lookup k m.batches)) [
    | inl absent ↦
        rw (make_room, absent)
          (inr (absent, create-Fresh now n k b (rw (make_room, absent, open_batch, absent) at h)))
    | inr (c, found) ↦ elim (Bool-cases (is_full opts c)) [
      | inr room ↦
          let same = rw (make_room, found, room, open_batch, found) at h in
          rw (make_room, found, room)
            (inl (
              cc (found, same),
              subst (λ (x : Batch). suc (length x.records) ≤ opts.max_record_count)
                  (some-injective c b same) (ground (arith, room)),
            ))
      | inl full ↦
          let away = lookup-erase_self k m.batches in
          rw (make_room, found, full)
            (inr (
              away,
              create-Fresh now n k b
                  (rw (make_room, found, full, open_batch, lock_batch, move_full_batch, away) at h),
            ))
    ]
  ]

  -- Putting a batch in its bucket's place.
  live-stored :
      (g : Batch → ℕ) (k : Text) (b' : Batch) (m : BatchManager)
      → live g (record m { batches = insert k b' m.batches }) + weight g (lookup k m.batches)
        ≡ live g m + g b'
  live-stored g k b' m = omega (arith, total-insert g k b' m.batches)

  pushed_ids :
      (now n i : ℕ) (k : Text) (m : BatchManager) (b : Batch) (r : InsertRecord) (cb : Option ℕ)
      → HasRoom now n k m b
      → live (is_id i) (record m { batches = insert k (push r cb b) m.batches })
        ≤ live (is_id i) m + (if nat_eq n i then 1 else 0)
  unfolding push
  pushed_ids now n i k m b r cb (inl (found, room)) =
      omega (arith, live-stored (is_id i) k (push r cb b) m, ap (weight (is_id i)) found)
  pushed_ids now n i k m b r cb (inr (absent, fresh)) = omega (
    arith,
    live-stored (is_id i) k (push r cb b) m,
    ap {B = ℕ} (λ j. if nat_eq j i then 1 else 0) fresh.1,
  )

  pushed-GoodOpen :
      (now n : ℕ) (k : Text) (m : BatchManager) (b : Batch) (r : InsertRecord) (cb : Option ℕ)
      → IsValid opts s m n
      → HasRoom now n k m b
      → GoodOpen opts (push r cb b)
  unfolding push
  pushed-GoodOpen now n k m b r cb v (inl (found, room)) =
      let good = All-lookup (λ p. GoodOpen opts p.1) k m.batches b v.good_open found in
      (good.0, good.1, good.2, omega (arith, room, length-append b.records (r ∷ [])))
  pushed-GoodOpen now n k m b r cb v (inr (absent, fresh)) =
      let good = fresh.3 in
      (
        good.0,
        good.1,
        good.2,
        omega (arith, fresh.2, length-append b.records (r ∷ []), ap length fresh.0),
      )

  pushed-IsValid :
      (now n : ℕ) (k : Text) (m : BatchManager) (b : Batch) (r : InsertRecord) (cb : Option ℕ)
      → IsValid opts s m n
      → HasRoom now n k m b
      → IsValid opts s (record m { batches = insert k (push r cb b) m.batches }) (suc n)
  unfolding push
  pushed-IsValid now n k m b r cb v room = record {
    unique_buckets = Unique-insert k _ m.batches v.unique_buckets;
    unique_ids = v.unique_ids;
    own_ids = v.own_ids;
    once = λ i. ground (arith, pushed_ids now n i k m b r cb room, v.once i, v.unused i);
    unused = λ i h. ground (arith, pushed_ids now n i k m b r cb room, v.unused i);
    good_open =
        All-insert (λ p. GoodOpen opts p.1) k _ m.batches (pushed-GoodOpen now n k m b r cb v room)
          v.good_open;
    good_pending = v.good_pending;
    good_detached = v.good_detached;
    unique_detached = v.unique_detached;
    own_detached = v.own_detached;
  }

  pushed_load :
      (f : InsertRecord → ℕ) (now n : ℕ) (k : Text) (m : BatchManager) (b : Batch)
      (r : InsertRecord) (cb : Option ℕ)
      → HasRoom now n k m b
      → live (load f) (record m { batches = insert k (push r cb b) m.batches })
        ≡ live (load f) m + f r
  unfolding push
  pushed_load f now n k m b r cb (inl (found, room)) = omega (
    arith,
    live-stored (load f) k (push r cb b) m,
    sum_of-append f b.records (r ∷ []),
    ap (weight (load f)) found,
  )
  pushed_load f now n k m b r cb (inr (absent, fresh)) = omega (
    arith,
    live-stored (load f) k (push r cb b) m,
    sum_of-append f b.records (r ∷ []),
    ap (weight (load f)) absent,
    ap (sum_of f) fresh.0,
  )

  pub store-IsValid :
      (now n : ℕ) (k : Text) (r : InsertRecord) (cb : Option ℕ) (m m' : BatchManager)
      → IsValid opts s m n
      → store opts now n k r cb m ≡ some m'
      → IsValid opts s m' (suc n) × ((f : InsertRecord → ℕ) → held f m' ≡ held f m + f r)
  unfolding store
  store-IsValid now n k r cb m m' v h =
      elim (Option-cases (open_batch opts now n k (make_room opts now k m))) [
        | inl refused ↦ absurd (cc (rw (store, refused) at h))
        | inr (b, open_now) ↦
            let m1 = make_room opts now k m in
            let v1 = make_room-IsValid now k m n v in
            let room = open_batch-HasRoom now n k m b open_now in
            let same = some-injective _ _ (rw (store, open_now) at h) in
            subst
              (λ x. IsValid opts s x (suc n) × ((f : InsertRecord → ℕ) → held f x ≡ held f m + f r))
              same
              (
                pushed-IsValid now n k m1 b r cb v1 room,
                λ f.
                    omega
                      (arith, pushed_load f now n k m1 b r cb room, held-make_room f now k m n v),
              )
      ]

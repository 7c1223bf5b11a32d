-- ===== src/Storage/BatchManager/Ends.antt =====
-- What the batches of packages/node/src/plugins/storage/BatchManager.ts hold when an insert has ended.
use pombo_storage_node.Base.{
  ℕ, ◌+◌, ◌≡◌, ◌∙◌, ap, Bool, some, if◌then◌else◌, nat_eq, eq_list, eq_nat, arith,
}
use pombo_storage_node.Base.Dict.{lookup, insert, erase, Unique-insert, All-lookup}
use pombo_storage_node.Storage.Batch.{Batch, BatchOptions, InsertRecord}
use pombo_storage_node.Storage.BatchManager.{BatchManager}
use pombo_storage_node.Storage.BatchManager.Total.{
  sum_of, total-insert, total-erase, weight, Unique-erase, All-insert, All-erase,
}
use pombo_storage_node.Storage.BatchManager.World.{
  IsValid, GoodPending, GoodDetached, load, is_id, live, flight, held,
}

module _ (opts : BatchOptions) (s : Bool) where
  -- A batch taken out of the pending ones.
  pub removed-IsValid :
      (n id : ℕ) (b : Batch) (m : BatchManager)
      → IsValid opts s m n
      → lookup id m.pending_batches ≡ some b
      → IsValid opts s (record m { pending_batches = erase id m.pending_batches }) n
  removed-IsValid n id b m v found =
      let less = λ (i : ℕ). total-erase (is_id i) id m.pending_batches v.unique_ids in
      record {
        unique_buckets = v.unique_buckets;
        unique_ids = Unique-erase id m.pending_batches v.unique_ids;
        unique_detached = v.unique_detached;
        own_ids = All-erase (λ p. p.1.id ≡ p.0) id m.pending_batches v.own_ids;
        own_detached = v.own_detached;
        once = λ i. omega (arith, less i, v.once i);
        unused = λ i h. omega (arith, less i, v.unused i h);
        good_open = v.good_open;
        good_pending = All-erase (λ p. GoodPending opts p.1) id m.pending_batches v.good_pending;
        good_detached = v.good_detached;
      }

  pub removed_load :
      (f : InsertRecord → ℕ) (n id : ℕ) (b : Batch) (m : BatchManager)
      → IsValid opts s m n
      → lookup id m.pending_batches ≡ some b
      → held f (record m { pending_batches = erase id m.pending_batches }) + load f b ≡ held f m
  removed_load f n id b m v found =
      omega
        (arith, total-erase (load f) id m.pending_batches v.unique_ids, ap (weight (load f)) found)

  -- A batch that `stop` cleared, in the place of one with the same records.
  pub detached_again-IsValid :
      (n id : ℕ) (b b' : Batch) (m : BatchManager)
      → IsValid opts s m n
      → lookup id m.detached ≡ some b
      → b'.id ≡ b.id
      → GoodDetached opts s b'
      → IsValid opts s (record m { detached = insert id b' m.detached }) n
  detached_again-IsValid n id b b' m v found ids good =
      let own = All-lookup (λ p. p.1.id ≡ p.0) id m.detached b v.own_detached found in
      let same : (i : ℕ)
          → live (is_id i) (record m { detached = insert id b' m.detached }) ≡ live (is_id i) m =
        λ i. omega (
          arith,
          total-insert (is_id i) id b' m.detached,
          ap (weight (is_id i)) found,
          ap {B = ℕ} (λ j. if nat_eq j i then 1 else 0) ids,
        ) in
      record {
        unique_buckets = v.unique_buckets;
        unique_ids = v.unique_ids;
        unique_detached = Unique-insert id b' m.detached v.unique_detached;
        own_ids = v.own_ids;
        own_detached = All-insert (λ p. p.1.id ≡ p.0) id b' m.detached (ids ∙ own) v.own_detached;
        once = λ i. omega (arith, v.once i, same i);
        unused = λ i h. omega (arith, v.unused i h, same i);
        good_open = v.good_open;
        good_pending = v.good_pending;
        good_detached =
            All-insert (λ p. GoodDetached opts s p.1) id b' m.detached good v.good_detached;
      }

  pub detached_again_load :
      (f : InsertRecord → ℕ) (id : ℕ) (b b' : Batch) (m : BatchManager)
      → lookup id m.detached ≡ some b
      → b'.records ≡ b.records
      → held f (record m { detached = insert id b' m.detached }) + flight f b
        ≡ held f m + flight f b'
  detached_again_load f id b b' m found same = omega (
    arith,
    total-insert (load f) id b' m.detached,
    total-insert (flight f) id b' m.detached,
    ap (weight (load f)) found,
    ap (weight (flight f)) found,
    ap (sum_of f) same,
  )

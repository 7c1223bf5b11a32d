-- ===== src/Storage/DeleteExpiredCmd/Deletions.antt =====
-- What the deletions of packages/node/src/plugins/storage/DeleteExpiredCmd.ts take away, by the weight of
-- the rows.
use pombo_storage_node.Base.{
  ℕ, zero, suc, ◌+◌, ◌≤◌, ◌<◌, ◌≡◌, ◌⊎◌, refl, ◌∙◌, ap, inl, inr, Bool, true, false, not, none,
  some, List, [], ◌∷◌, keep, length, sum_of, All, All-map, All-keep, ltb, arith, Bool-cases,
  Option-cases, ◌==◌, eq_list, eq_nat,
}
use pombo_storage_node.Base.Text.{Text}
use pombo_storage_node.Storage.RetentionScheduler.{StreamPart}
use pombo_storage_node.Storage.RetentionScheduler.RowSweep.{Row}
use pombo_storage_node.Storage.DeleteExpiredCmd.{
  BucketRow, BucketInfo, is_part, take, in_bucket, is_row_of, newest, delete_expired,
}

-- Every row of a bucket is old enough, if the newest one is.
pub newest-All :
    (info : BucketInfo) (age now : ℕ) (rows : List Row)
    → elim (newest info rows) [ none ↦ true | some m ↦ ltb (m + age) now ] ≡ true
    → All (λ row. (in_bucket info row ≡ false) ⊎ (row.ts + age < now)) rows
unfolding newest
newest-All info age now [] h = tt
newest-All info age now (row ∷ rows) h = elim (Bool-cases (in_bucket info row)) [
  | inr outside ↦ (inl outside, newest-All info age now rows (rw (newest, outside) at h))
  | inl inside ↦ elim (Option-cases (newest info rows)) [
    | inl empty ↦ (
      inr (ground (arith, (rw (newest, inside, empty) at h))),
      newest-All info age now rows (rw empty refl),
    )
    | inr (m, found) ↦
        let both = rw (newest, inside, found) at h in
        (inr (ground (arith, both)), newest-All info age now rows (rw found (ground (arith, both))))
  ]
]

-- Deleting rows that weigh nothing.
sum_of-keep :
    {A : Type 0} (p : A → Bool) (f : A → ℕ) (rows : List A)
    → All (λ row. (p row ≡ false) ⊎ (f row ≡ 0)) rows
    → sum_of f (keep (λ row. not (p row)) rows) ≡ sum_of f rows
sum_of-keep p f [] h = refl
sum_of-keep p f (row ∷ rows) (first, h) = elim (Bool-cases (p row)) [
  | inr outside ↦ rw outside (ap (λ n. f row + n) (sum_of-keep p f rows h))
  | inl inside ↦
      let nothing : f row ≡ 0 = elim first [
        | inl outside ↦ absurd (cc (inside, outside))
        | inr e ↦ e
      ] in
      rw inside (omega (arith, nothing, sum_of-keep p f rows h))
]

module _ (g : BucketRow → ℕ) (f : Row → ℕ) (fails : BucketInfo → Bool) where
  -- What the batch of a bucket deletes weighs nothing.
  abbrev pub Weightless : List Row → BucketInfo → Type 0
  Weightless table info =
      ((row : BucketRow) → is_row_of info row ≡ true → g row ≡ 0)
      × All (λ row. (in_bucket info row ≡ false) ⊎ (f row ≡ 0)) table

  rows_weightless :
      (info : BucketInfo)
      → ((row : BucketRow) → is_row_of info row ≡ true → g row ≡ 0)
      → (buckets : List BucketRow) → All (λ row. (is_row_of info row ≡ false) ⊎ (g row ≡ 0)) buckets
  rows_weightless info nothing [] = tt
  rows_weightless info nothing (row ∷ buckets) = (
    elim (Bool-cases (is_row_of info row)) [
      | inl its ↦ inr (nothing row its)
      | inr other ↦ inl other
    ],
    rows_weightless info nothing buckets,
  )

  pub sum_of-delete_expired :
      (infos : List BucketInfo) (buckets : List BucketRow) (table : List Row)
      → All (Weightless table) infos
      → let (left_buckets, left) = delete_expired fails infos buckets table in
        (sum_of g left_buckets ≡ sum_of g buckets) × (sum_of f left ≡ sum_of f table)
  unfolding delete_expired
  sum_of-delete_expired [] buckets table h = (refl, refl)
  sum_of-delete_expired (info ∷ infos) buckets table (first, h) = elim (Bool-cases (fails info)) [
    | inl failed ↦ rw (delete_expired, failed) (sum_of-delete_expired infos buckets table h)
    | inr deleted ↦
        let left_buckets = keep (λ row. not (is_row_of info row)) buckets in
        let left = keep (λ row. not (in_bucket info row)) table in
        let still =
          All-map (Weightless table) (Weightless left)
            (λ i w. (
              w.0,
              All-keep (λ row. (in_bucket i row ≡ false) ⊎ (f row ≡ 0))
                  (λ row. not (in_bucket info row)) table w.1,
            ))
            infos h in
        let rest = sum_of-delete_expired infos left_buckets left still in
        rw (delete_expired, deleted)
          (
            rest.0 ∙ sum_of-keep (is_row_of info) g buckets (rows_weightless info first.0 buckets),
            rest.1 ∙ sum_of-keep (in_bucket info) f table first.1,
          )
  ]

pub is_part-eq : (a b : StreamPart) → is_part a b ≡ true → a ≡ b
is_part-eq a b e =
    let same_stream : (a.stream_id == b.stream_id) ≡ true = ground (arith, e) in
    let same_partition : a.partition ≡ b.partition = ground (arith, e) in
    ap (λ (s : Text). record a { stream_id = s })
      ((eq_list.beq_iff a.stream_id b.stream_id).0 same_stream)
    ∙ ap {B = StreamPart} (λ (n : ℕ). record b { partition = n }) same_partition

pub take-All :
    (P : BucketInfo → Type 0) (n : ℕ) (infos : List BucketInfo) → All P infos → All P (take n infos)
take-All P zero infos h = tt
take-All P (suc n) [] h = tt
take-All P (suc n) (info ∷ infos) (p, h) = (p, take-All P n infos h)

pub length-take-le : (n : ℕ) (infos : List BucketInfo) → length (take n infos) ≤ n
length-take-le zero infos = omega arith
length-take-le (suc n) [] = omega arith
length-take-le (suc n) (info ∷ infos) = omega (arith, length-take-le n infos)

pub All-keep_passed :
    (P : BucketInfo → Type 0) (p : BucketInfo → Bool) (infos : List BucketInfo)
    → All P infos
    → All (λ info. P info × (p info ≡ true)) (keep p infos)
All-keep_passed P p [] h = tt
All-keep_passed P p (info ∷ infos) (first, h) = elim (Bool-cases (p info)) [
  | inl passed ↦ rw passed ((first, passed), All-keep_passed P p infos h)
  | inr failed ↦ rw failed (All-keep_passed P p infos h)
]

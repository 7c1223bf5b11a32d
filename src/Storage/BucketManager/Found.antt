-- ===== src/Storage/BucketManager/Found.antt =====
-- Which buckets packages/node/src/plugins/storage/BucketManager.ts finds for a time and for a query.
use pombo_storage_node.Base.{
  ℕ, ◌≤◌, ◌<◌, ◌≡◌, ◌↔◌, ◌⊎◌, refl, sym, ◌∙◌, ap, inl, inr, Bool, true, false, ◌&&◌, none, some,
  List, [], ◌∷◌, ◌++◌, keep, All, leb, ltb, arith, Bool-cases, subst,
}
use mathlib.Core.Option.{some-injective}
use pombo_storage_node.Storage.Bucket.{Bucket, is_almost_full}
use pombo_storage_node.Storage.BucketManager.{
  first_begun, find_bucket, latest, get_buckets_by_timestamp,
}

-- The buckets of a list, as a type.
abbrev pub In : Bucket → List Bucket → Type 0
In b [] = ⊥
In b (c ∷ cs) = (c ≡ b) ⊎ In b cs

-- Every bucket of the list was created at or before the time that bounds it, as in a heap whose first
-- member is the latest.
abbrev pub Before : ℕ → List Bucket → Type 0
Before t = All (λ b. b.date_create ≤ t)

-- Latest first.
abbrev pub LatestFirst : List Bucket → Type 0
LatestFirst [] = Unit
LatestFirst (b ∷ bs) = Before b.date_create bs × LatestFirst bs

-- Created no later than a bucket, or after a time.
abbrev pub UpTo : ℕ → Bucket → Bucket → Type 0
UpTo t b c = (c.date_create ≤ b.date_create) ⊎ (t < c.date_create)

first_begun-eq-none :
    (t : ℕ) (bs : List Bucket) → (first_begun t bs ≡ none) ↔ All (λ b. t < b.date_create) bs
unfolding first_begun
first_begun-eq-none t [] = (λ e. tt, λ h. refl)
first_begun-eq-none t (b ∷ bs) = elim (Bool-cases (leb b.date_create t)) [
  | inl begun ↦ rw (first_begun, begun) (λ e. absurd cc, λ h. absurd (ground (arith, h.0, begun)))
  | inr later ↦
      rw (first_begun, later)
        (
          λ e. (ground (arith, later), (first_begun-eq-none t bs).0 e),
          λ h. (first_begun-eq-none t bs).1 h.1,
        )
]

first_begun-In :
    (t : ℕ) (bs : List Bucket) (b : Bucket)
    → first_begun t bs ≡ some b
    → In b bs × (b.date_create ≤ t)
unfolding first_begun
first_begun-In t [] b e = absurd cc
first_begun-In t (c ∷ bs) b e = elim (Bool-cases (leb c.date_create t)) [
  | inl begun ↦
      let same = some-injective c b (rw (first_begun, begun) at e) in
      (inl same, subst (λ (x : Bucket). x.date_create ≤ t) same (ground (arith, begun)))
  | inr later ↦
      let (there, time) = first_begun-In t bs b (rw (first_begun, later) at e) in (inr there, time)
]

-- A bucket that is found for a time is one of the heap's and was created by then.
pub find_bucket-Begun :
    (t : ℕ) (bs : List Bucket) (b : Bucket)
    → find_bucket t bs ≡ some b
    → In b bs × (b.date_create ≤ t)
unfolding find_bucket first_begun
find_bucket-Begun t [] b e = absurd cc
find_bucket-Begun t (c ∷ bs) b e = elim (Bool-cases (ltb t c.date_create)) [
  | inl later ↦
      let (there, time) = first_begun-In t bs b (ground (arith, e, later)) in (inr there, time)
  | inr begun ↦
      let same : c ≡ b = some-injective c b (ground (arith, e, begun)) in
      (inl same, subst (λ (x : Bucket). x.date_create ≤ t) same (ground (arith, begun)))
]

-- No bucket is found for a time exactly if the heap's first bucket was created by then but is almost
-- full, or every bucket of the heap was created later.
pub find_bucket-eq-none_iff :
    (t : ℕ) (b : Bucket) (bs : List Bucket)
    → (find_bucket t (b ∷ bs) ≡ none)
      ↔ ((b.date_create ≤ t) × (is_almost_full b ≡ true) ⊎ All (λ c. t < c.date_create) (b ∷ bs))
unfolding find_bucket
find_bucket-eq-none_iff t b bs = elim (Bool-cases (ltb t b.date_create)) [
  | inl later ↦
      let searched : find_bucket t (b ∷ bs) ≡ first_begun t bs = ground (arith, later) in
      let begun = first_begun-eq-none t bs in
      (
        λ e. inr (ground (arith, later), begun.0 (sym searched ∙ e)),
        λ h. elim h [
          | inl full ↦ absurd (ground (arith, full.0, later))
          | inr all_later ↦ searched ∙ begun.1 all_later.1
        ],
      )
  | inr begun ↦ elim (Bool-cases (is_almost_full b)) [
    | inl full ↦ (λ e. inl (ground (arith, begun), full), λ h. ground (arith, begun, full))
    | inr room ↦
        let found : find_bucket t (b ∷ bs) ≡ some b = ground (arith, begun, room) in
        (
          λ e. absurd (cc (found, e)),
          λ h. elim h [
            | inl full ↦ absurd (cc (full.1, room))
            | inr later ↦ absurd (ground (arith, later.0, begun))
          ],
        )
  ]
]

In-append_left : (b : Bucket) (xs ys : List Bucket) → In b xs → In b (xs ++ ys)
In-append_left b [] ys h = absurd h
In-append_left b (x ∷ xs) ys (inl e) = inl e
In-append_left b (x ∷ xs) ys (inr h) = inr (In-append_left b xs ys h)

In-append_right : (b : Bucket) (xs ys : List Bucket) → In b ys → In b (xs ++ ys)
In-append_right b [] ys h = h
In-append_right b (x ∷ xs) ys h = inr (In-append_right b xs ys h)

In-keep :
    (p : Bucket → Bool) (b : Bucket) (bs : List Bucket) → In b bs → p b ≡ true → In b (keep p bs)
In-keep p b [] h e = absurd h
In-keep p b (c ∷ bs) (inl same) e = rw (subst (λ x. p x ≡ true) (sym same) e) (inl same)
In-keep p b (c ∷ bs) (inr h) e = elim (Bool-cases (p c)) [
  | inl passed ↦ rw passed (inr (In-keep p b bs h e))
  | inr failed ↦ rw failed (In-keep p b bs h e)
]

-- Under a later bound, the first one begun is later than the early bound or is the first one begun
-- by that.
latest_begun :
    (from t : ℕ) (bs : List Bucket) (b : Bucket)
    → from ≤ t
    → first_begun t bs ≡ some b
    → b.date_create ≤ from
    → latest (keep (λ c. leb c.date_create from) bs) ≡ b ∷ []
unfolding first_begun
latest_begun from t [] b le e early = absurd cc
latest_begun from t (c ∷ bs) b le e early = elim (Bool-cases (leb c.date_create t)) [
  | inl begun ↦
      let same = some-injective c b (rw (first_begun, begun) at e) in
      let by_then : leb c.date_create from ≡ true =
        subst (λ (x : Bucket). leb x.date_create from ≡ true) (sym same) (ground (arith, early)) in
      rw by_then (ap {B = List Bucket} (λ x. x ∷ []) same)
  | inr later ↦
      let not_by_then : leb c.date_create from ≡ false = ground (arith, later, le) in
      rw not_by_then (latest_begun from t bs b le (rw (first_begun, later) at e) early)
]

-- A query from one time to another reads, for any time between the two, the first bucket begun by
-- that time, where there is one, in the order in which the database gives the rows.
pub get_buckets_by_timestamp-Covers :
    (from to t : ℕ) (rows found : List Bucket) (b : Bucket)
    → from ≤ t
    → t ≤ to
    → first_begun t rows ≡ some b
    → get_buckets_by_timestamp (some from) (some to) rows ≡ some found
    → In b found
unfolding get_buckets_by_timestamp
get_buckets_by_timestamp-Covers from to t rows found b ge le first e =
    let (there, time) = first_begun-In t rows b first in
    let same = some-injective _ found e in
    elim (Bool-cases (leb b.date_create from)) [
      | inl early ↦
          let last = latest_begun from t rows b ge first (ground (arith, early)) in
          subst (In b) same (In-append_right b _ _ (subst (In b) (sym last) (inl refl)))
      | inr later ↦ subst (In b) same (
          In-append_left b _ _ (
            In-keep (λ c. ltb from c.date_create && leb c.date_create to) b rows there
              (ground (arith, later, time, le))))
    ]

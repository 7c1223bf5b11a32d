-- ===== src/Storage/RetentionScheduler/RowSweep.antt =====
-- The row sweep of packages/node/src/plugins/storage/RetentionScheduler.ts, on the rows of `stream_data`.
-- The days that a stream keeps its data, the clock at a stream part and the buckets begun by a time are
-- parameters.
use pombo_storage_node.Base.{
  ℕ, ◌+◌, ◌-◌, ◌*◌, ◌≤◌, ◌<◌, ◌≡◌, refl, ◌∙◌, ap, inl, inr, Bool, true, false, not, ◌&&◌, Option,
  none, some, List, [], ◌∷◌, keep, length, sum_of, if◌then◌else◌, leb, ltb, nat_eq, arith,
  Bool-cases, Option-cases, Result, ok, err, ◌==◌, eq_list, eq_nat,
}
use pombo_storage_node.Base.Text.{Text}
use pombo_storage_node.Storage.Outside.{ErrorCode}
use pombo_storage_node.Storage.RetentionScheduler.{RetentionConfig, StreamPart, day_ms}

pub record Row : Type 0 where
  pub part : StreamPart
  pub bucket_id : Text
  pub ts : ℕ

pub record Swept : Type 0 where
  pub rows_deleted : ℕ
  pub table : List Row
  pub stopped : Bool

-- What `getStream` and then `getStorageDayCount` answer.
unfoldable pub storage_days_of : (Text → Result ErrorCode (Option ℕ)) → Text → Option ℕ
storage_days_of get_days stream_id = elim (get_days stream_id) [
  | err e ↦ none
  | ok days ↦ elim days [ none ↦ some 365 | some n ↦ some n ]
]

-- The condition of the queries that count and that delete.
abbrev selects : StreamPart → Text → ℕ → Row → Bool
selects part bucket_id cutoff row =
    (row.part.stream_id == part.stream_id)
    && nat_eq row.part.partition part.partition
    && (row.bucket_id == bucket_id)
    && ltb row.ts cutoff

abbrev but : (Row → Bool) → List Row → List Row
but p rows = keep (λ row. not (p row)) rows

module _ (config : RetentionConfig) where
  unfoldable pub sweep_buckets : StreamPart → ℕ → List Text → Swept → Swept
  sweep_buckets part cutoff [] s = s
  sweep_buckets part cutoff (id ∷ ids) s =
      let count = length (keep (selects part id cutoff) s.table) in
      let same = sweep_buckets part cutoff ids s in
      let less = sweep_buckets part cutoff ids (record s {
        rows_deleted = s.rows_deleted + count;
        table = but (selects part id cutoff) s.table;
      }) in
      if nat_eq count 0
      then same
      else if ltb config.row_delete_limit (s.rows_deleted + count)
      then record s { stopped = true }
      else less

  module _ (get_days : Text → Result ErrorCode (Option ℕ)) (now_at : StreamPart → ℕ)
      (buckets_by : StreamPart → ℕ → List Text) where
    unfoldable pub sweep_part : StreamPart → Swept → Swept
    unfolding storage_days_of sweep_buckets
    sweep_part part s = elim (storage_days_of get_days part.stream_id) [
      | none ↦ s
      | some storage_days ↦
          let cutoff = now_at part - storage_days * day_ms in
          sweep_buckets part cutoff (buckets_by part cutoff) s
    ]

    unfoldable pub sweep_parts : List StreamPart → Swept → Swept
    unfolding sweep_part
    sweep_parts [] s = s
    sweep_parts (part ∷ pairs) s =
        let swept = sweep_part part s in
        let more = sweep_parts pairs swept in
        if leb config.row_delete_limit s.rows_deleted
        then s
        else if swept.stopped
        then swept
        else more

    unfoldable pub row_sweep : List StreamPart → List Row → Swept
    unfolding sweep_parts
    row_sweep pairs table =
        sweep_parts pairs (record { rows_deleted = 0; table = table; stopped = false })

length-split :
    (p : Row → Bool) (rows : List Row) → length (keep p rows) + length (but p rows) ≡ length rows
length-split p [] = refl
length-split p (row ∷ rows) = ground (arith, length-split p rows)

sum_of-but :
    (p : Row → Bool) (f : Row → ℕ) (rows : List Row)
    → ((row : Row) → p row ≡ true → f row ≡ 0)
    → sum_of f (but p rows) ≡ sum_of f rows
sum_of-but p f [] h = refl
sum_of-but p f (row ∷ rows) h = elim (Bool-cases (p row)) [
  | inl gone ↦ rw gone (omega (arith, h row gone, sum_of-but p f rows h))
  | inr stays ↦ rw stays (ap (λ n. f row + n) (sum_of-but p f rows h))
]

module _ (config : RetentionConfig) (get_days : Text → Result ErrorCode (Option ℕ))
    (now_at : StreamPart → ℕ) (buckets_by : StreamPart → ℕ → List Text) where
  -- A row is older than its stream keeps its data.
  abbrev pub Stale : Row → Type 0
  Stale row =
      (part : StreamPart) × (row.part.stream_id ≡ part.stream_id)
      × (row.part.partition ≡ part.partition)
      × ((days : ℕ) × (storage_days_of get_days part.stream_id ≡ some days)
          × (row.ts < now_at part - days * day_ms))

  -- Rows go only if they are stale, are counted as they go, and go up to the limit.
  abbrev Sweeps : Swept → Swept → Type 0
  Sweeps s s' =
      (s'.rows_deleted + length s'.table ≡ s.rows_deleted + length s.table)
      × (s.rows_deleted ≤ config.row_delete_limit → s'.rows_deleted ≤ config.row_delete_limit)
      × ((f : Row → ℕ)
          → ((row : Row) → Stale row → f row ≡ 0)
          → sum_of f s'.table ≡ sum_of f s.table)

  Sweeps-trans : (s t u : Swept) → Sweeps s t → Sweeps t u → Sweeps s u
  Sweeps-trans s t u a b = (b.0 ∙ a.0, λ h. b.1 (a.1 h), λ f h. b.2 f h ∙ a.2 f h)

  Sweeps-refl : (s : Swept) → Sweeps s s
  Sweeps-refl s = (refl, λ h. h, λ f h. refl)

  selects-Stale :
      (part : StreamPart) (id : Text) (days : ℕ) (row : Row)
      → storage_days_of get_days part.stream_id ≡ some days
      → selects part id (now_at part - days * day_ms) row ≡ true
      → Stale row
  selects-Stale part id days row known e =
      let same : (row.part.stream_id == part.stream_id) ≡ true = ground arith in
      (
        part,
        (eq_list.beq_iff row.part.stream_id part.stream_id).0 same,
        ground (arith, e),
        (days, known, ground (arith, e)),
      )

  sweep_buckets-Sweeps :
      (part : StreamPart) (days : ℕ) (ids : List Text) (s : Swept)
      → storage_days_of get_days part.stream_id ≡ some days
      → Sweeps s (sweep_buckets config part (now_at part - days * day_ms) ids s)
  unfolding sweep_buckets
  sweep_buckets-Sweeps part days [] s known = Sweeps-refl s
  sweep_buckets-Sweeps part days (id ∷ ids) s known =
      let cutoff = now_at part - days * day_ms in
      let p = selects part id cutoff in
      let count = length (keep p s.table) in
      elim (Bool-cases (nat_eq count 0)) [
        | inl nothing ↦ rw (sweep_buckets, nothing) (sweep_buckets-Sweeps part days ids s known)
        | inr something ↦ elim (Bool-cases (ltb config.row_delete_limit (s.rows_deleted + count))) [
          | inl over ↦ rw (sweep_buckets, something, over) (refl, λ h. h, λ f h. refl)
          | inr within ↦
              let t : Swept = record s {
                rows_deleted = s.rows_deleted + count;
                table = but p s.table;
              } in
              let split = length-split p s.table in
              rw (sweep_buckets, something, within)
                (Sweeps-trans s t (sweep_buckets config part cutoff ids t)
                  (
                    omega (arith, split),
                    λ h. ground (arith, within),
                    λ f h.
                        sum_of-but p f s.table
                          (λ row e. h row (selects-Stale part id days row known e)),
                  )
                  (sweep_buckets-Sweeps part days ids t known))
        ]
      ]

  sweep_part-Sweeps :
      (part : StreamPart) (s : Swept)
      → Sweeps s (sweep_part config get_days now_at buckets_by part s)
  unfolding sweep_part
  sweep_part-Sweeps part s = elim (Option-cases (storage_days_of get_days part.stream_id)) [
    | inl unknown ↦ rw (sweep_part, unknown) (Sweeps-refl s)
    | inr (days, known) ↦ rw (sweep_part, known) (sweep_buckets-Sweeps part days _ s known)
  ]

  sweep_parts-Sweeps :
      (pairs : List StreamPart) (s : Swept)
      → Sweeps s (sweep_parts config get_days now_at buckets_by pairs s)
  unfolding sweep_parts
  sweep_parts-Sweeps [] s = Sweeps-refl s
  sweep_parts-Sweeps (part ∷ pairs) s =
      let swept = sweep_part config get_days now_at buckets_by part s in
      elim (Bool-cases (leb config.row_delete_limit s.rows_deleted)) [
        | inl done ↦ rw (sweep_parts, done) (Sweeps-refl s)
        | inr more ↦ elim (Bool-cases swept.stopped) [
          | inl over ↦ rw (sweep_parts, more, over) (sweep_part-Sweeps part s)
          | inr on ↦
              rw (sweep_parts, more, on)
                (Sweeps-trans s swept (sweep_parts config get_days now_at buckets_by pairs swept)
                  (sweep_part-Sweeps part s) (sweep_parts-Sweeps pairs swept))
        ]
      ]

  -- A sweep deletes at most the limit of rows, and counts those that it deletes; with any weight put
  -- on the rows that is nothing on those older than their stream keeps its data, the sum over the
  -- table stays the same, so every other row stays.
  pub row_sweep-Bounded :
      (pairs : List StreamPart) (table : List Row) (f : Row → ℕ)
      → ((row : Row) → Stale row → f row ≡ 0)
      → let s = row_sweep config get_days now_at buckets_by pairs table in
        (s.rows_deleted + length s.table ≡ length table)
        × (s.rows_deleted ≤ config.row_delete_limit)
        × (sum_of f s.table ≡ sum_of f table)
  unfolding row_sweep
  row_sweep-Bounded pairs table f stale =
      let s : Swept = record { rows_deleted = 0; table = table; stopped = false } in
      let (counted, bounded, kept) = sweep_parts-Sweeps pairs s in
      let none_yet : 0 + length table ≡ length table = omega arith in
      (counted ∙ none_yet, bounded (omega arith), kept f stale)

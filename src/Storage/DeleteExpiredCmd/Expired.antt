-- ===== src/Storage/DeleteExpiredCmd/Expired.antt =====
-- Which rows packages/node/src/plugins/storage/DeleteExpiredCmd.ts deletes.
use pombo_storage_node.Base.{
  ℕ, ◌+◌, ◌*◌, ◌≤◌, ◌<◌, ◌≡◌, ◌⊎◌, refl, sym, inl, inr, Bool, true, false, ◌&&◌, Option, some, List,
  [], ◌∷◌, keep, length, length-keep-le, sum_of, All, All-map, All-append, any, any_member,
  list_beq_refl, nat_eq, leb, if◌then◌else◌, arith, Bool-cases, Option-cases, Result, ◌==◌, eq_list,
  eq_nat, subst,
}
use pombo_storage_node.Base.Text.{Text}
use pombo_storage_node.Storage.Outside.{ErrorCode}
use pombo_storage_node.Storage.RetentionScheduler.{StreamPart, day_ms}
use pombo_storage_node.Storage.RetentionScheduler.RowSweep.{Row, storage_days_of}
use pombo_storage_node.Storage.DeleteExpiredCmd.{
  StreamPartInfo, BucketRow, BucketInfo, is_part, fetch_streams_info, infos_of,
  get_potentially_expired_buckets, take, in_bucket, is_expired, filter_expired_buckets, Failures,
  run,
}
use pombo_storage_node.Storage.DeleteExpiredCmd.Deletions.{
  newest-All, Weightless, sum_of-delete_expired, take-All, length-take-le, All-keep_passed,
  is_part-eq,
}

module _ (get_days : Text → Result ErrorCode (Option ℕ)) where
  -- A row is older than its stream keeps its data.
  abbrev pub IsStale : ℕ → Row → Type 0
  IsStale now row =
      (days : ℕ) × (storage_days_of get_days row.part.stream_id ≡ some days)
      × (row.ts + days * day_ms < now)

  same_days :
      (a b : StreamPart) (days : ℕ)
      → is_part a b ≡ true
      → storage_days_of get_days b.stream_id ≡ some days
      → storage_days_of get_days a.stream_id ≡ some days
  same_days a b days e known =
      let same : (a.stream_id == b.stream_id) ≡ true = ground (arith, e) in
      subst (λ x. storage_days_of get_days x ≡ some days)
        (sym ((eq_list.beq_iff a.stream_id b.stream_id).0 same)) known

  fetch-Known :
      (streams : List StreamPart)
      → All
          (λ i. storage_days_of get_days i.part.stream_id ≡ some i.storage_days)
          (fetch_streams_info get_days streams)
  unfolding fetch_streams_info
  fetch-Known [] = tt
  fetch-Known (part ∷ streams) = elim (Option-cases (storage_days_of get_days part.stream_id)) [
    | inl unknown ↦ rw (fetch_streams_info, unknown) (fetch-Known streams)
    | inr (days, known) ↦ rw (fetch_streams_info, known) (known, fetch-Known streams)
  ]

  -- The bucket of a part with an id was created, at a time before which its stream keeps no data, and
  -- all its rows are older than that.
  abbrev Finished : ℕ → ℕ → List BucketRow → List Row → StreamPart → ℕ → Text → ℕ → Type 0
  Finished earlier now buckets table part date id days =
      (storage_days_of get_days part.stream_id ≡ some days)
      × (date + days * day_ms ≤ earlier)
      × (any (λ b. is_part b.part part && nat_eq b.date_create date && (b.id == id)) buckets ≡ true)
      × All
          (λ r. (is_part r.part part && (r.bucket_id == id) ≡ false) ⊎ (r.ts + days * day_ms < now))
          table

  abbrev pub IsFinished : ℕ → ℕ → List BucketRow → List Row → BucketRow → Type 0
  IsFinished earlier now buckets table row =
      (id : Text) × (days : ℕ) × Finished earlier now buckets table row.part row.date_create id days

  -- What is known of a bucket that was found.
  abbrev Found : ℕ → List BucketRow → BucketInfo → Type 0
  Found earlier buckets info =
      (storage_days_of get_days info.part.stream_id ≡ some info.storage_days)
      × (info.date_create + info.storage_days * day_ms ≤ earlier)
      × (any
            (λ b.
              is_part b.part info.part
              && nat_eq b.date_create info.date_create
              && (b.id == info.bucket_id))
            buckets
          ≡ true)

  abbrev same_bucket : BucketRow → BucketRow → Bool
  same_bucket a b = is_part a.part b.part && nat_eq a.date_create b.date_create && (a.id == b.id)

  infos_of-Found :
      (earlier : ℕ) (info : StreamPartInfo) (all rows : List BucketRow)
      → storage_days_of get_days info.part.stream_id ≡ some info.storage_days
      → All (λ b. any (λ a. same_bucket a b) all ≡ true) rows
      → All (Found earlier all) (
          infos_of info.storage_days (
            keep
              (λ b.
                is_part b.part info.part
                && leb (b.date_create + info.storage_days * day_ms) earlier)
              rows))
  infos_of-Found earlier info all [] known listed = tt
  infos_of-Found earlier info all (row ∷ rows) known (here, listed) =
      let rest = infos_of-Found earlier info all rows known listed in
      elim (Bool-cases (
        is_part row.part info.part && leb (row.date_create + info.storage_days * day_ms) earlier)) [
          | inr dropped ↦ rw dropped rest
          | inl kept ↦ rw kept (
            (
              same_days row.part info.part info.storage_days (ground (arith, kept)) known,
              ground (arith, kept),
              here,
            ),
            rest,
          )
        ]

  potential-Found :
      (earlier : ℕ) (fails : StreamPart → Bool) (buckets : List BucketRow)
      (infos : List StreamPartInfo)
      → All (λ b. any (λ a. same_bucket a b) buckets ≡ true) buckets
      → All (λ i. storage_days_of get_days i.part.stream_id ≡ some i.storage_days) infos
      → All (Found earlier buckets) (get_potentially_expired_buckets earlier fails buckets infos)
  unfolding get_potentially_expired_buckets
  potential-Found earlier fails buckets [] listed h = tt
  potential-Found earlier fails buckets (info ∷ infos) listed (known, h) =
      let rest = potential-Found earlier fails buckets infos listed h in
      elim (Bool-cases (fails info.part)) [
        | inl failed ↦ rw (get_potentially_expired_buckets, failed) rest
        | inr answered ↦
            rw (get_potentially_expired_buckets, answered)
              (All-append (Found earlier buckets) _ _
                (infos_of-Found earlier info buckets buckets known listed) rest)
      ]

  -- A bucket is in the list it is in.
  own_buckets_listed :
      (buckets : List BucketRow) → All (λ b. any (λ a. same_bucket a b) buckets ≡ true) buckets
  own_buckets_listed buckets = any_member same_bucket buckets (reflexive buckets)
    where
      reflexive : (rows : List BucketRow) → All (λ b. same_bucket b b ≡ true) rows
      reflexive [] = tt
      reflexive (b ∷ rows) =
          (rw (list_beq_refl b.part.stream_id, list_beq_refl b.id) (ground arith), reflexive rows)

  -- What the batch of an expired bucket deletes weighs nothing, if finished buckets and stale rows do.
  expired-Weightless :
      (g : BucketRow → ℕ) (f : Row → ℕ) (earlier now : ℕ) (fails deleting : BucketInfo → Bool)
      (buckets : List BucketRow) (table : List Row) (info : BucketInfo)
      → ((row : BucketRow) → IsFinished earlier now buckets table row → g row ≡ 0)
      → ((row : Row) → IsStale now row → f row ≡ 0)
      → Found earlier buckets info × (is_expired now fails table info ≡ true)
      → Weightless g f deleting table info
  unfolding is_expired
  expired-Weightless g f earlier now fails deleting buckets table info finished stale
        (found, expired) =
      let old = newest-All info (info.storage_days * day_ms) now table (ground (arith, expired)) in
      let its : Finished earlier now buckets table info.part info.date_create info.bucket_id
          info.storage_days =
        (found.0, found.1, found.2, old) in
      (
        (λ row same. finished row (
          info.bucket_id,
          info.storage_days,
          subst
              (λ (t : ℕ).
                Finished earlier now buckets table row.part t info.bucket_id info.storage_days)
              (ground (arith, same))
              (subst
                (λ (p : StreamPart).
                  Finished earlier now buckets table p info.date_create info.bucket_id
                    info.storage_days)
                (sym (is_part-eq row.part info.part (ground (arith, same)))) its),
        )),
        All-map (λ row. (in_bucket info row ≡ false) ⊎ (row.ts + info.storage_days * day_ms < now))
            (λ row. (in_bucket info row ≡ false) ⊎ (f row ≡ 0))
            (λ row aged. elim (Bool-cases (in_bucket info row)) [
              | inr outside ↦ inl outside
              | inl inside ↦ elim aged [
                | inl outside ↦ inl outside
                | inr late ↦ inr (
                    stale row (
                      info.storage_days,
                      same_days row.part info.part info.storage_days (ground (arith, inside))
                          found.0,
                      late,
                    ))
              ]
            ])
            table old,
      )

  -- A run takes at most its limit of buckets for expired, and a dry one deletes nothing. Let weights
  -- be put on the rows of `stream_data` and on those of `bucket` which are nothing, of the first, on
  -- those older than their stream keeps its data at the time of the filter, and of the second, on
  -- those that were created longer ago than that when the buckets were looked for, where a bucket of
  -- their part that was created at their time has only such rows. Then the sums over both tables stay
  -- the same, so everything else stays, whichever queries fail.
  pub run-Bounded :
      (dry_run : Bool) (bucket_limit earlier now : ℕ) (failures : Failures)
      (streams : List StreamPart) (buckets : List BucketRow) (table : List Row) (g : BucketRow → ℕ)
      (f : Row → ℕ)
      → ((row : BucketRow) → IsFinished earlier now buckets table row → g row ≡ 0)
      → ((row : Row) → IsStale now row → f row ≡ 0)
      → let (expired, left) =
          run dry_run bucket_limit get_days failures earlier now streams buckets table in
        (length expired ≤ bucket_limit)
        × (sum_of g left.0 ≡ sum_of g buckets)
        × (sum_of f left.1 ≡ sum_of f table)
        × ((if dry_run then left else (buckets, table)) ≡ (buckets, table))
  unfolding run filter_expired_buckets
  run-Bounded dry_run bucket_limit earlier now failures streams buckets table g f finished stale =
      let potential =
        get_potentially_expired_buckets earlier failures.finding buckets
          (fetch_streams_info get_days streams) in
      let cut = take bucket_limit potential in
      let expired = keep (is_expired now failures.filtering table) cut in
      let found = take-All (Found earlier buckets) bucket_limit potential (
        potential-Found earlier failures.finding buckets (fetch_streams_info get_days streams)
          (own_buckets_listed buckets) (fetch-Known streams)) in
      let weightless =
        All-map
          (λ info.
            Found earlier buckets info × (is_expired now failures.filtering table info ≡ true))
          (Weightless g f failures.deleting table)
          (λ info h.
            expired-Weightless g f earlier now failures.filtering failures.deleting buckets table
              info finished stale h)
          expired
          (All-keep_passed (Found earlier buckets) (is_expired now failures.filtering table) cut
            found) in
      let few : length expired ≤ bucket_limit = omega (
        arith,
        length-keep-le (is_expired now failures.filtering table) cut,
        length-take-le bucket_limit potential,
      ) in
      elim (Bool-cases dry_run) [
        | inl dry ↦ rw (run, dry) (few, refl, refl, refl)
        | inr wet ↦
            let sums =
              sum_of-delete_expired g f failures.deleting expired buckets table weightless in
            rw (run, wet) (few, sums.0, sums.1, refl)
      ]

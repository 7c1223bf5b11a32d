-- ===== src/Storage/RetentionScheduler/Orphans.antt =====
-- What the sweep of orphans may delete.
use pombo_storage_node.Base.{
  ℕ, zero, suc, ◌+◌, ◌*◌, ◌≤◌, ◌<◌, ◌≡◌, ◌⊎◌, inl, inr, Bool, true, false, ◌&&◌, List, [], ◌∷◌,
  ◌++◌, leb, leb→le, ltb, nat_eq, length, length-append, keep, any, All, All-append, Result, err,
  eq_list, eq_nat, arith, Bool-cases, Result-cases,
}
use pombo_storage_node.Base.Text.{Text}
use pombo_storage_node.Base.Members.{has, has-keep}
use pombo_storage_node.Storage.Outside.{ErrorCode, unknown}
use pombo_storage_node.Storage.PomboGates.{is_not_found}
use pombo_storage_node.Storage.RetentionScheduler.{
  RetentionConfig, day_ms, StreamState, deleted, StreamPart, Bucket, Candidate, attempt_from,
  classify, is_error, is_deleted, stream_ids, newest_of, collect_buckets, collect, orphan_sweep,
}

All-keep_test :
    {A : Type 0} (p : A → Bool) (P : A → Type 0)
    → ((x : A) → p x ≡ true → P x)
    → (xs : List A) → All P (keep p xs)
All-keep_test p P f [] = tt
All-keep_test p P f (x ∷ xs) = elim (Bool-cases (p x)) [
  | inl passed ↦ rw passed (f x passed, All-keep_test p P f xs)
  | inr failed ↦ rw failed (All-keep_test p P f xs)
]

module _ (get_stream : Text → ℕ → Result ErrorCode (Unit {0})) where
  -- The chain said at one of three attempts that there is no such stream.
  abbrev pub SaidMissing : Text → Type 0
  SaidMissing sid =
      (attempt : ℕ) × (attempt < 3)
      × (e : ErrorCode) × (get_stream sid attempt ≡ err e)
      × (is_not_found e ≡ true)

  attempt-deleted :
      (sid : Text) (code : ErrorCode) (attempt left : ℕ)
      → attempt_from (get_stream sid) code attempt left ≡ deleted
      → (n : ℕ) × (n < attempt + left)
        × (e : ErrorCode) × (get_stream sid n ≡ err e)
        × (is_not_found e ≡ true)
  unfolding attempt_from
  attempt-deleted sid code attempt zero h = cc h
  attempt-deleted sid code attempt (suc left) h = elim (Result-cases (get_stream sid attempt)) [
    | inl (_, found) ↦ cc (rw (attempt_from, found) at h)
    | inr (e, failed) ↦ elim (Bool-cases (is_not_found e)) [
      | inl missing ↦ (attempt, omega arith, e, failed, missing)
      | inr other ↦
          let (n, bound, e', said, missing) =
            attempt-deleted sid e (suc attempt) left (rw (attempt_from, failed, other) at h) in
          (n, omega (arith, bound), e', said, missing)
    ]
  ]

  classify-deleted : (sid : Text) → is_deleted (classify get_stream sid) ≡ true → SaidMissing sid
  unfolding classify
  classify-deleted sid h =
      attempt-deleted sid unknown 0 3 (is_deleted_lem (classify get_stream sid) h)
    where
      is_deleted_lem : (s : StreamState) → is_deleted s ≡ true → s ≡ deleted
      is_deleted_lem s h = ground arith

-- A candidate's newest message is as old as the grace period.
abbrev pub Old : RetentionConfig → ℕ → Candidate → Type 0
Old config now c = newest_of c.bucket + config.grace_days * day_ms ≤ now

module _ (config : RetentionConfig) (now : ℕ) (P : StreamPart → Type 0) where
  abbrev Fit : List Candidate → Type 0
  Fit cs = All (λ c. P c.part × Old config now c) cs × (length cs ≤ config.bucket_delete_limit)

  collect_buckets-Fit :
      (part : StreamPart) (buckets : List Bucket) (cs : List Candidate)
      → P part
      → Fit cs
      → Fit (collect_buckets config now part buckets cs)
  unfolding collect_buckets
  collect_buckets-Fit part [] cs p fit = fit
  collect_buckets-Fit part (bucket ∷ buckets) cs p (all_fit, short) =
      elim (Bool-cases (leb config.bucket_delete_limit (length cs))) [
        | inl full ↦ rw full (all_fit, short)
        | inr room ↦ elim (Bool-cases (leb (newest_of bucket + config.grace_days * day_ms) now)) [
          | inr young ↦ rw (room, young) (collect_buckets-Fit part buckets cs p (all_fit, short))
          | inl old ↦
              let c : Candidate = record { part = part; bucket = bucket } in
              rw (room, old)
                (collect_buckets-Fit part buckets (cs ++ (c ∷ [])) p (
                  All-append (λ c'. P c'.part × Old config now c') cs (c ∷ []) all_fit
                      ((p, leb→le _ _ old), tt),
                  ground (arith, length-append cs (c ∷ [])),
                ))
        ]
      ]

  collect-Fit :
      (buckets_of : StreamPart → List Bucket) (parts : List StreamPart) (cs : List Candidate)
      → All P parts
      → Fit cs
      → Fit (collect config now buckets_of parts cs)
  unfolding collect
  collect-Fit buckets_of [] cs ps fit = fit
  collect-Fit buckets_of (part ∷ parts) cs (p, ps) fit =
      collect-Fit buckets_of parts (collect_buckets config now part (buckets_of part) cs) ps
        (collect_buckets-Fit part (buckets_of part) cs p fit)

module _ (config : RetentionConfig) (now : ℕ) (get_stream : Text → ℕ → Result ErrorCode (Unit {0}))
    (buckets_of : StreamPart → List Bucket) (pairs : List StreamPart) where
  abbrev pub gone : List Text
  gone = keep (λ sid. is_deleted (classify get_stream sid)) (stream_ids pairs)

  abbrev pub swept : List Candidate
  swept = orphan_sweep config now get_stream buckets_of pairs

  gone_missing : (p : StreamPart) → has p.stream_id gone ≡ true → SaidMissing get_stream p.stream_id
  gone_missing p h = classify-deleted get_stream p.stream_id (
      ground (
        arith,
        has-keep (λ sid. is_deleted (classify get_stream sid)) p.stream_id (stream_ids pairs),
      ))

  -- What the guards of a sweep that deletes something have let through.
  abbrev pub Guarded : Type 0
  Guarded =
      (any (λ sid. is_error (classify get_stream sid)) (stream_ids pairs) ≡ false)
      × ((length (stream_ids pairs) < config.abort_min_streams)
          ⊎ (100 * length gone ≤ config.abort_fraction_percent * length (stream_ids pairs)))

  fraction_bound :
      (leb config.abort_min_streams (length (stream_ids pairs))
          && ltb (config.abort_fraction_percent * length (stream_ids pairs)) (100 * length gone))
        ≡ false
      → (length (stream_ids pairs) < config.abort_min_streams)
        ⊎ (100 * length gone ≤ config.abort_fraction_percent * length (stream_ids pairs))
  fraction_bound h = elim (Bool-cases (leb config.abort_min_streams (length (stream_ids pairs)))) [
    | inr few ↦ inl (ground arith)
    | inl many ↦ inr (ground arith)
  ]

  -- A sweep deletes nothing, or no stream failed to be classified and either there are fewer streams
  -- than the guard looks at or those gone are at most the allowed share of them, and every bucket
  -- that it deletes is of a stream that the chain said does not exist, is at least as old as
  -- the grace period, and there are at most as many as the limit.
  pub orphan_sweep-Guarded :
      (swept ≡ [])
      ⊎ (Guarded
          × All (λ c. SaidMissing get_stream c.part.stream_id × Old config now c) swept
          × (length swept ≤ config.bucket_delete_limit))
  unfolding orphan_sweep
  orphan_sweep-Guarded =
      elim (Bool-cases (any (λ sid. is_error (classify get_stream sid)) (stream_ids pairs))) [
        | inl failed ↦ inl (rw (orphan_sweep, failed))
        | inr clear ↦
            elim (Bool-cases (
              leb config.abort_min_streams (length (stream_ids pairs))
              && ltb (config.abort_fraction_percent * length (stream_ids pairs))
                  (100 * length gone))) [
                    | inl suspicious ↦ inl (rw (orphan_sweep, clear, suspicious))
                    | inr plausible ↦ elim (Bool-cases (nat_eq (length gone) 0)) [
                      | inl nothing ↦ inl (rw (orphan_sweep, clear, plausible, nothing))
                      | inr something ↦
                          let fit =
                            collect-Fit config now (λ p. SaidMissing get_stream p.stream_id)
                              buckets_of (keep (λ p. has p.stream_id gone) pairs) []
                              (All-keep_test (λ p. has p.stream_id gone)
                                (λ p. SaidMissing get_stream p.stream_id) gone_missing pairs)
                              (tt, omega arith) in
                          inr (
                            (clear, fraction_bound plausible),
                            rw (orphan_sweep, clear, plausible, something) fit.0,
                            rw (orphan_sweep, clear, plausible, something) fit.1,
                          )
                    ]
                  ]
      ]

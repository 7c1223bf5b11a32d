-- ===== src/Storage/CassandraWatchdog/Outages.antt =====
-- The watchdog gives up exactly after an outage without a break that lasted long enough.
use pombo_storage_node.Base.{
  ℕ, ◌+◌, ◌-◌, ◌≤◌, ◌≡◌, refl, sym, ap, ◌↔◌, ◌⊎◌, inl, inr, false, none, some, List, [], ◌∷◌, leb,
  leb→le, subst, arith, Bool-cases, Option-cases,
}
use mathlib.Core.Option.{some-injective}
use pombo_storage_node.Storage.CassandraWatchdog.{
  CassandraWatchdogOptions, Outcome, answered, no_host_available, other_error, CassandraWatchdog,
  new, since_or, stop, schedule, start, check, check_and_schedule,
}

-- A query that ended, the newest first in a history.
abbrev pub Check : Type 0
Check = ℕ × Outcome

abbrev pub time_of : ℕ → List Check → ℕ
time_of began [] = began
time_of began ((now, outcome) ∷ older) = now

-- Times do not run back.
abbrev pub Ordered : ℕ → List Check → Type 0
Ordered began [] = Unit
Ordered began ((now, outcome) ∷ older) = (time_of began older ≤ now) × Ordered began older

-- Since a time, every query up to the newest one found no host.
abbrev pub Streak : ℕ → List Check → Type 0
Streak since [] = ⊥
Streak since ((now, no_host_available) ∷ older) = (since ≡ now) ⊎ Streak since older
Streak since ((now, answered) ∷ older) = ⊥
Streak since ((now, other_error) ∷ older) = ⊥

module _ (opts : CassandraWatchdogOptions) (began : ℕ) where
  -- At some query, a streak had lasted for the allowed time.
  abbrev pub LongOutage : List Check → Type 0
  LongOutage [] = ⊥
  LongOutage ((now, outcome) ∷ older) =
      ((since : ℕ) × Streak since ((now, outcome) ∷ older)
        × (since + opts.max_unreachable_ms ≤ now))
      ⊎ LongOutage older

  -- A query is made only where a timer is pending.
  unfoldable pub tick : Check → CassandraWatchdog → CassandraWatchdog
  unfolding check_and_schedule
  tick (now, outcome) w = elim w.timeout [
    | none ↦ w
    | some due ↦ check_and_schedule opts now outcome w
  ]

  unfoldable pub run : List Check → CassandraWatchdog
  unfolding start tick
  run [] = start opts began new
  run (newest ∷ older) = tick newest (run older)

  -- What a history without a long outage leaves.
  record Watches (h : List Check) (w : CassandraWatchdog) : Type 0 where
    quiet : w.unreachable_calls ≡ 0
    pending : (due : ℕ) × (w.timeout ≡ some due)
    going : w.stopped ≡ false
    sound : (since : ℕ) → w.unreachable_since ≡ some since → Streak since h
    earliest :
        (since : ℕ)
        → Streak since h
        → (first : ℕ) × (w.unreachable_since ≡ some first) × (first ≤ since)

  -- What a history with one leaves.
  record GaveUp (w : CassandraWatchdog) : Type 0 where
    called : w.unreachable_calls ≡ 1
    idle : w.timeout ≡ none

  Streak-le :
      (since : ℕ) (h : List Check) → Ordered began h → Streak since h → since ≤ time_of began h
  Streak-le since [] ordered streak = absurd streak
  Streak-le since ((now, no_host_available) ∷ older) (le, ordered) (inl same) = omega (arith, same)
  Streak-le since ((now, no_host_available) ∷ older) (le, ordered) (inr streak) =
      omega (arith, Streak-le since older ordered streak)
  Streak-le since ((now, answered) ∷ older) ordered streak = absurd streak
  Streak-le since ((now, other_error) ∷ older) ordered streak = absurd streak

  begin-Watches : Watches [] (run [])
  unfolding run start schedule
  begin-Watches = record {
    quiet = refl;
    pending = (began + opts.check_interval_ms, refl);
    going = refl;
    sound = λ since h. cc h;
    earliest = λ since h. absurd h;
  }

  abbrev Judged : List Check → CassandraWatchdog → Type 0
  Judged h w = (Watches h w × (¬ LongOutage h)) ⊎ (GaveUp w × LongOutage h)

  -- A query that ended in another way than without a host begins anew.
  reset-Watches :
      (now : ℕ) (outcome : Outcome) (h : List Check) (w : CassandraWatchdog)
      → ((since : ℕ) → ¬ Streak since ((now, outcome) ∷ h))
      → check opts now outcome (record w { timeout = none })
        ≡ record w { timeout = none; unreachable_since = none }
      → Watches h w
      → Watches ((now, outcome) ∷ h) (tick (now, outcome) w)
  unfolding tick check_and_schedule schedule
  reset-Watches now outcome h w broken same i =
      rw (i.pending.1, tick, check_and_schedule, schedule, same, i.going)
        (record {
          quiet = i.quiet;
          pending = (now + opts.check_interval_ms, refl);
          going = refl;
          sound = λ since e. cc e;
          earliest = λ since e. absurd (broken since e);
        })

  first_of :
      (now : ℕ) (h : List Check) (w : CassandraWatchdog)
      → Watches h w
      → Streak (since_or now w.unreachable_since) ((now, no_host_available) ∷ h)
  first_of now h w i = elim (Option-cases w.unreachable_since) [
    | inl fresh ↦ inl (ap (since_or now) fresh)
    | inr (since, running) ↦
        inr (subst (λ s. Streak (since_or now s) h) (sym running) (i.sound since running))
  ]

  first_of-le :
      (now : ℕ) (h : List Check) (w : CassandraWatchdog)
      → Watches h w
      → time_of began h ≤ now
      → Ordered began h
      → (since : ℕ) → Streak since ((now, no_host_available) ∷ h)
      → since_or now w.unreachable_since ≤ since
  first_of-le now h w i le ordered since (inr streak) =
      let (first, running, before) = i.earliest since streak in rw running before
  first_of-le now h w i le ordered since (inl same) = elim (Option-cases w.unreachable_since) [
    | inl fresh ↦ rw fresh (omega (arith, same))
    | inr (first, running) ↦
        rw running (omega (arith, same, Streak-le first h ordered (i.sound first running)))
  ]

  too_brief :
      {now : ℕ} (first since : ℕ)
      → first ≤ since
      → since + opts.max_unreachable_ms ≤ now
      → first ≤ now
      → leb opts.max_unreachable_ms (now - first) ≡ false
      → ⊥
  too_brief first since h k l brief = ground arith

  tick-no_host :
      (now : ℕ) (h : List Check) (w : CassandraWatchdog)
      → Watches h w
      → (¬ LongOutage h)
      → time_of began h ≤ now
      → Ordered began h
      → Judged ((now, no_host_available) ∷ h) (tick (now, no_host_available) w)
  unfolding tick check_and_schedule check schedule stop
  tick-no_host now h w i short le ordered =
      let least = first_of-le now h w i le ordered in
      let first = first_of now h w i in
      let started =
        Streak-le (since_or now w.unreachable_since) ((now, no_host_available) ∷ h) (le, ordered)
          first in
      elim (Bool-cases (leb opts.max_unreachable_ms (now - since_or now w.unreachable_since))) [
        | inl long ↦ inr (
          rw (i.pending.1, tick, check_and_schedule, check, long, schedule, stop)
              (record { called = rw i.quiet; idle = refl }),
          inl (
            since_or now w.unreachable_since,
            first,
            omega (
              arith,
              leb→le opts.max_unreachable_ms (now - since_or now w.unreachable_since) long,
              started,
            ),
          ),
        )
        | inr brief ↦ inl (
          rw (i.pending.1, tick, check_and_schedule, check, brief, schedule, i.going)
              (record {
                quiet = i.quiet;
                pending = (now + opts.check_interval_ms, refl);
                going = refl;
                sound = λ since e.
                    subst (λ t. Streak t ((now, no_host_available) ∷ h))
                      (some-injective (since_or now w.unreachable_since) since e) first;
                earliest = λ since e. (since_or now w.unreachable_since, refl, least since e);
              }),
          λ long. elim long [
            | inl (since, streak, late) ↦
                too_brief (since_or now w.unreachable_since) since (least since streak) late started
                  brief
            | inr before ↦ short before
          ],
        )
      ]

  tick-Judged :
      (now : ℕ) (outcome : Outcome) (h : List Check) (w : CassandraWatchdog)
      → Judged h w
      → time_of began h ≤ now
      → Ordered began h
      → Judged ((now, outcome) ∷ h) (tick (now, outcome) w)
  unfolding tick check
  tick-Judged now outcome h w (inr (g, long)) le ordered = inr (rw (g.idle, tick) g, inr long)
  tick-Judged now no_host_available h w (inl (i, short)) le ordered =
      tick-no_host now h w i short le ordered
  tick-Judged now answered h w (inl (i, short)) le ordered = inl (
    reset-Watches now answered h w (λ since e. e) refl i,
    λ long. elim long [ inl now_long ↦ now_long.1 | inr before ↦ short before ],
  )
  tick-Judged now other_error h w (inl (i, short)) le ordered = inl (
    reset-Watches now other_error h w (λ since e. e) refl i,
    λ long. elim long [ inl now_long ↦ now_long.1 | inr before ↦ short before ],
  )

  run-Judged : (h : List Check) → Ordered began h → Judged h (run h)
  unfolding run
  run-Judged [] ordered = inl (begin-Watches, λ long. long)
  run-Judged ((now, outcome) ∷ h) (le, ordered) =
      tick-Judged now outcome h (run h) (run-Judged h ordered) le ordered

  -- Whatever the queries that the watchdog makes come to, it calls `onUnreachable` once, and stops,
  -- exactly if at some query every query since a time at least the allowed time before had found no
  -- host; if there was no such outage it never calls it.
  pub run-unreachable_calls_iff :
      (h : List Check)
      → Ordered began h
      → (((run h).unreachable_calls ≡ 1) ↔ LongOutage h)
        × (((run h).unreachable_calls ≡ 0) ↔ (¬ LongOutage h))
  run-unreachable_calls_iff h ordered = elim (run-Judged h ordered) [
    | inl (i, short) ↦
        ((λ e. cc (i.quiet, e), λ long. absurd (short long)), (λ e. short, λ no_long. i.quiet))
    | inr (g, long) ↦
        ((λ e. long, λ l. g.called), (λ e. cc (g.called, e), λ no_long. absurd (no_long long)))
  ]

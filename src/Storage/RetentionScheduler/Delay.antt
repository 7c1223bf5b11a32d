-- ===== src/Storage/RetentionScheduler/Delay.antt =====
-- When packages/node/src/plugins/storage/RetentionScheduler.ts runs for the first time after a start.
-- The number in the state file is a parameter.
use pombo_storage_node.Base.{
  ℕ, ◌+◌, ◌-◌, ◌*◌, ◌≤◌, ◌<◌, ◌≡◌, ◌⊎◌, Option, none, some, max, if◌then◌else◌, leb, ltb,
}
use pombo_storage_node.Base.Number.{Number, int, below, nan, infinity, minus_infinity}
use pombo_storage_node.Storage.RetentionScheduler.{RetentionConfig}

abbrev pub hour_ms : ℕ
hour_ms = 60 * 60 * 1000

abbrev pub startup_delay_ms : ℕ
startup_delay_ms = 10 * 60 * 1000

-- `readLastRun` of a file that was read as a number.
unfoldable read_last_run : Option Number → Option Number
read_last_run none = none
read_last_run (some nan) = none
read_last_run (some infinity) = none
read_last_run (some minus_infinity) = none
read_last_run (some (int n)) = some (int n)
read_last_run (some (below n)) = some (below n)

abbrev delay_after : ℕ → ℕ → ℕ
delay_after interval since =
    if leb interval since then startup_delay_ms else max startup_delay_ms (interval - since)

unfoldable pub first_run_delay : RetentionConfig → Option Number → ℕ → ℕ
unfolding read_last_run
first_run_delay config state_file now =
    let interval = config.interval_hours * hour_ms in
    elim (read_last_run state_file) [
      | none ↦ startup_delay_ms
      | some number ↦ elim number [
        | nan ↦ startup_delay_ms
        | infinity ↦ startup_delay_ms
        | minus_infinity ↦ startup_delay_ms
        | int last ↦ if ltb now last then startup_delay_ms else delay_after interval (now - last)
        | below n ↦ delay_after interval (now + (n + 1))
      ]
    ]

-- `setTimeout` waits for less than 2^31 milliseconds: a longer delay runs at once.
abbrev pub timeout_limit_ms : ℕ
timeout_limit_ms = 2147483648

-- How long to wait for the first run, by what the state file holds: what is left of the interval since
-- the last run, or nothing, and ten minutes at least.
abbrev pub Waits : ℕ → Option Number → ℕ → ℕ → Type 0
Waits interval (some (int last)) now delay =
    ((now < last) × (delay ≡ startup_delay_ms))
    ⊎ ((last ≤ now) × (delay ≡ max startup_delay_ms (last + interval - now)))
Waits interval (some (below n)) now delay = delay ≡ max startup_delay_ms (interval - (now + n + 1))
Waits interval _ now delay = delay ≡ startup_delay_ms

-- ===== src/Storage/CassandraWatchdog.antt =====
-- packages/node/src/plugins/storage/CassandraWatchdog.ts. The query of the driver is an event: when it
-- ended, and how. The call of `onUnreachable` (which ends the process) is counted.
pub mod Outages
use pombo_storage_node.Base.{
  ℕ, ◌+◌, ◌-◌, Bool, true, false, Option, none, some, List, [], ◌∷◌, if◌then◌else◌, leb,
}

pub record CassandraWatchdogOptions : Type 0 where
  pub check_interval_ms : ℕ
  pub max_unreachable_ms : ℕ

pub data Outcome : Type 0 where
  answered no_host_available other_error : Outcome

pub record CassandraWatchdog : Type 0 where
  pub unreachable_since : Option ℕ
  -- When the pending timer is due.
  pub timeout : Option ℕ
  pub stopped : Bool
  pub unreachable_calls : ℕ

abbrev pub new : CassandraWatchdog
new = record { unreachable_since = none; timeout = none; stopped = false; unreachable_calls = 0 }

abbrev since_or : ℕ → Option ℕ → ℕ
since_or now none = now
since_or now (some since) = since

unfoldable pub stop : CassandraWatchdog → CassandraWatchdog
stop w = record w { stopped = true; timeout = none }

module _ (opts : CassandraWatchdogOptions) where
  unfoldable pub schedule : ℕ → CassandraWatchdog → CassandraWatchdog
  schedule now w =
      if w.stopped then w else record w { timeout = some (now + opts.check_interval_ms) }

  unfoldable pub start : ℕ → CassandraWatchdog → CassandraWatchdog
  unfolding schedule
  start now w = schedule now (record w { stopped = false })

  unfoldable pub check : ℕ → Outcome → CassandraWatchdog → CassandraWatchdog
  unfolding stop
  check now answered w = record w { unreachable_since = none }
  check now other_error w = record w { unreachable_since = none }
  check now no_host_available w =
      let since = since_or now w.unreachable_since in
      let waiting = record w { unreachable_since = some since } in
      if leb opts.max_unreachable_ms (now - since)
      then record (stop waiting) { unreachable_calls = w.unreachable_calls + 1 }
      else waiting

  -- What the timer runs: it is no longer pending.
  unfoldable pub check_and_schedule : ℕ → Outcome → CassandraWatchdog → CassandraWatchdog
  unfolding check schedule
  check_and_schedule now outcome w = schedule now (check now outcome (record w { timeout = none }))

-- ===== src/Superchan/Wait.antt =====
-- superchan/superchan.go: Superchan.Wait. Times are in nanoseconds since the context was done.
pub mod Laws
use mostly.Common.{ℕ, zero, suc, Bool, Option, none, some, ltb, if◌then◌else◌}
use mostly.Cancellable.Context.{Err, Store}
use mostly.Cancellable.Handle.{wait}
use mostly.Superchan.State.{Superchan}

-- `time.Second / 100` and the default of MaxWaitDuration.
abbrev pub poll_pause : ℕ
poll_pause = 10000000

abbrev pub max_wait_duration : ℕ
max_wait_duration = 5000000000

-- How the loop ends, with the number of polls before: the superchan was seen dead, or the time was
-- up, which is logged.
pub data Polled : Type 0 where
  seen_dead timed_out : ℕ → Polled

module _ (max_wait : ℕ) (elapsed : ℕ → ℕ) (dead_at : ℕ → Bool) where
  -- The loop at the poll n: `elapsed n` is `time.Since(t1)` and `dead_at n` is IsDead() there. The
  -- rounds are fuel.
  pub poll : ℕ → ℕ → Option Polled
  poll zero n = none
  poll (suc rounds) n =
      let again = poll rounds (suc n) in
      if ltb (elapsed n) max_wait
      then (if dead_at n then some (seen_dead n) else again)
      else some (timed_out n)

  -- Wait blocks (`none`) until the context is done, and then returns the context's cause, however
  -- the polling ends.
  pub wait_superchan : {F T : Type 0} → ℕ → Superchan F T → Store → Option (Err × Option Polled)
  wait_superchan rounds s store = elim (wait s.chan.handle store) [
    | none ↦ none
    | some e ↦ some (e, poll rounds 0)
  ]

-- ===== src/Scheduler/Windows/Laws.antt =====
-- The bounds of the catch-up window and of the delays (src/scheduler.ts).
use bfrost.Prelude.{ℕ, ◌≤◌, some, arith}
use bfrost.Scheduler.Windows.{catch_up_window_ms, catchup_window_ms, max_catchup_window_ms}

-- The window is never shorter than 26 hours nor longer than a week, and grows with the interval.
pub record IsClamped (shorter longer : ℕ) : Type 0 where
  pub at_least : catchup_window_ms ≤ catch_up_window_ms (some shorter)
  pub at_most : catch_up_window_ms (some shorter) ≤ max_catchup_window_ms
  pub grows : catch_up_window_ms (some shorter) ≤ catch_up_window_ms (some longer)

-- For two intervals of which the first is not the longer one: the window is at least 26 hours and at
-- most a week, and that of the first is not the longer one.
pub catch_up_window_ms-IsClamped :
    (shorter longer : ℕ) → shorter ≤ longer → IsClamped shorter longer
unfolding catch_up_window_ms
catch_up_window_ms-IsClamped shorter longer h = record {
  at_least = ground arith;
  at_most = ground arith;
  grows = ground (arith, h);
}

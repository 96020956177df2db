-- ===== src/Scheduler/Windows.antt =====
-- The catch-up window of a missed slot and the delays between retries (src/scheduler.ts). A number that
-- is no finite number is none; a jitter that the source draws at random is a parameter.
pub mod Laws
use bfrost.Prelude.{
  ℕ, ◌+◌, ◌-◌, ◌*◌, ◌/◌, ◌^◌, Bool, ◌&&◌, Option, none, some, ltb, leb, min, max, if◌then◌else◌,
}

abbrev pub catchup_window_ms : ℕ
catchup_window_ms = 93600000

abbrev pub max_catchup_window_ms : ℕ
max_catchup_window_ms = 604800000

-- Half of an odd interval has a half of a millisecond, which no age in milliseconds tells apart.
pub catch_up_window_ms : Option ℕ → ℕ
catch_up_window_ms none = catchup_window_ms
catch_up_window_ms (some slot_interval_ms) =
    if leb slot_interval_ms 0
    then catchup_window_ms
    else min (max (slot_interval_ms / 2) catchup_window_ms) max_catchup_window_ms

-- `slotAgeMs`, which is the difference of two instants, is not positive where the subtraction stops.
pub is_recoverable_slot_age : ℕ → Option ℕ → Bool
unfolding catch_up_window_ms
is_recoverable_slot_age slot_age_ms slot_interval_ms =
    ltb 0 slot_age_ms && leb slot_age_ms (catch_up_window_ms slot_interval_ms)

pub clamp_int : Option ℕ → ℕ → ℕ → ℕ → ℕ
clamp_int none fallback low high = fallback
clamp_int (some value) fallback low high = min (max value low) high

pub record RetryPolicy : Type 0 where
  pub max_retries : ℕ
  pub initial_backoff_ms : ℕ
  pub max_backoff_ms : ℕ

pub record RawRetryPolicy : Type 0 where
  pub max_retries : Option ℕ
  pub initial_backoff_ms : Option ℕ
  pub max_backoff_ms : Option ℕ

abbrev pub default_job_retry_policy : RetryPolicy
default_job_retry_policy = record {
  max_retries = 2;
  initial_backoff_ms = 1000;
  max_backoff_ms = 30000;
}

-- The whole numbers of the policy; the ratio of the jitter is a fraction and stays outside.
pub normalize_retry_policy : RawRetryPolicy → RetryPolicy
unfolding clamp_int
normalize_retry_policy policy = record {
  max_retries = clamp_int policy.max_retries default_job_retry_policy.max_retries 0 10;
  initial_backoff_ms =
      clamp_int policy.initial_backoff_ms default_job_retry_policy.initial_backoff_ms 0 300000;
  max_backoff_ms = clamp_int policy.max_backoff_ms default_job_retry_policy.max_backoff_ms 0 300000;
}

-- The delay before the jitter.
pub base_delay_ms : ℕ → RetryPolicy → ℕ
base_delay_ms attempt policy =
    min policy.max_backoff_ms (policy.initial_backoff_ms * 2 ^ (attempt - 1))

-- A jitter is what the rounded sum of a base and its random part comes to.
unfoldable pub retry_delay_ms : ℕ → RetryPolicy → (ℕ → ℕ) → ℕ
unfolding base_delay_ms
retry_delay_ms attempt policy jitter =
    let base = base_delay_ms attempt policy in if leb base 0 then base else jitter base

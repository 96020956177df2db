-- ===== src/Scheduler/Cron.antt =====
-- The search for the previous slot (`getPreviousCronMatch` of src/cron-internals.ts). The matcher of
-- the scheduled task is a parameter: from an instant to the next one that matches, none where its date
-- is not a number or the matcher throws. A result of none is the source's null.
pub mod Laws
use bfrost.Prelude.{ℕ, zero, suc, ◌-◌, Option, none, some, ltb, leb, get_or_else, if◌then◌else◌}

abbrev pub default_lookback_ms : ℕ
default_lookback_ms = 172800000

abbrev pub default_max_iterations : ℕ
default_max_iterations = 3000

-- The loop, with the instant that it has reached and the last match.
pub search_slots : (ℕ → Option ℕ) → ℕ → ℕ → ℕ → Option ℕ → Option ℕ
search_slots next_match zero before cursor last = last
search_slots next_match (suc iterations) before cursor last = elim (next_match cursor) [
  | none ↦ none
  | some next ↦
      let later = search_slots next_match iterations before next (some next) in
      if leb next cursor then none else if leb before next then last else later
]

pub get_previous_cron_match : Option (ℕ → Option ℕ) → ℕ → Option ℕ → Option ℕ → Option ℕ
unfolding search_slots
get_previous_cron_match none before lookback_ms max_iterations = none
get_previous_cron_match (some next_match) before lookback_ms max_iterations =
    search_slots next_match (get_or_else max_iterations default_max_iterations) before
      (before - get_or_else lookback_ms default_lookback_ms) none

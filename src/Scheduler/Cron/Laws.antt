-- ===== src/Scheduler/Cron/Laws.antt =====
-- The previous slot is the last one before an instant, for schedules whose slots are at least a minute
-- apart (src/cron-internals.ts).
use bfrost.Prelude.{
  ℕ, zero, suc, ◌+◌, ◌*◌, ◌-◌, ◌≤◌, ◌<◌, Bool, true, false, Option, none, some, ◌≡◌, arith, leb,
  Bool-cases, inl, inr,
}
use bfrost.Scheduler.Cron.{
  search_slots, get_previous_cron_match, default_lookback_ms, default_max_iterations,
}

abbrev pub minute : ℕ
minute = 60000

-- A matcher whose next match is the next slot, of slots that are at least a minute apart.
pub record Matches (is_slot : ℕ → Bool) (next_match : ℕ → Option ℕ) : Type 0 where
  pub next : (t : ℕ) → (n : ℕ) × (next_match t ≡ some n) × (t < n) × (is_slot n ≡ true)
  pub nearest : (t n k : ℕ) → next_match t ≡ some n → is_slot k ≡ true → t < k → n ≤ k
  pub spaced : (a b : ℕ) → is_slot a ≡ true → is_slot b ≡ true → a < b → a + minute ≤ b

-- The last slot between two instants, or that there is none.
abbrev pub IsLast : (ℕ → Bool) → ℕ → ℕ → Option ℕ → Type 0
IsLast is_slot from before none = (k : ℕ) → is_slot k ≡ true → from < k → before ≤ k
IsLast is_slot from before (some m) =
    (is_slot m ≡ true)
    × (from < m)
    × (m < before)
    × ((k : ℕ) → is_slot k ≡ true → k < before → k ≤ m)

-- No room is left where the iterations are used up.
no_room : (before cursor : ℕ) → before ≤ cursor + minute * 0 → cursor < before → ⊥
no_room before cursor h b = omega (arith, h, b)

module _ (is_slot : ℕ → Bool) (next_match : ℕ → Option ℕ)
    (matches : Matches is_slot next_match) where
  last_below :
      (cursor n before k : ℕ)
      → next_match cursor ≡ some n
      → leb before n ≡ true
      → is_slot k ≡ true
      → k < before
      → k ≤ cursor
  last_below cursor n before k found e sk kb = elim (Bool-cases (leb k cursor)) [
    | inl low ↦ ground (arith, low)
    | inr high ↦
        let above : cursor < k = ground (arith, high) in
        ground (arith, e, matches.nearest cursor n k found sk above, kb)
  ]

  search-IsLast :
      (iterations before from cursor : ℕ)
      → is_slot cursor ≡ true
      → from < cursor
      → cursor < before
      → before ≤ cursor + minute * iterations
      → IsLast is_slot from before (search_slots next_match iterations before cursor (some cursor))
  unfolding search_slots
  search-IsLast zero before from cursor s f b h = elim (no_room before cursor h b) [ ]
  search-IsLast (suc iterations) before from cursor s f b h =
      let (n, found, above, slot) = matches.next cursor in
      let no_stop : leb n cursor ≡ false = ground (arith, above) in
      let far : cursor + minute ≤ n = matches.spaced cursor n s slot above in
      elim (Bool-cases (leb before n)) [
        | inl e ↦
            rw (search_slots, found, no_stop, e)
              (s, f, b, λ k sk kb. last_below cursor n before k found e sk kb)
        | inr e ↦
            rw (search_slots, found, no_stop, e)
              (search-IsLast iterations before from n slot (omega (arith, f, above))
                (ground (arith, e)) (omega (arith, h, far)))
      ]

  -- From the start of the window, with the iterations of the default for two days.
  pub search_window :
      (before from : ℕ)
      → from < before
      → before ≤ from + default_lookback_ms
      → IsLast is_slot from before (search_slots next_match default_max_iterations before from none)
  unfolding search_slots
  search_window before from f h =
      let (n, found, above, slot) = matches.next from in
      let no_stop : leb n from ≡ false = ground (arith, above) in
      elim (Bool-cases (leb before n)) [
        | inl e ↦
            rw (search_slots, found, no_stop, e)
              (λ k sk fk. ground (arith, e, matches.nearest from n k found sk fk))
        | inr e ↦
            rw (search_slots, found, no_stop, e)
              (search-IsLast 2999 before from n slot above (ground (arith, e))
                (omega (arith, h, above)))
      ]

-- For a matcher whose next match is the next slot, and slots that are at least a minute apart, the
-- search with its defaults finds the last slot of the two days before an instant that is later than
-- these, and null only if there is none.
pub get_previous_cron_match-IsLast :
    (is_slot : ℕ → Bool) (next_match : ℕ → Option ℕ)
    → Matches is_slot next_match
    → (before : ℕ) → default_lookback_ms ≤ before
    → IsLast is_slot
        (before - default_lookback_ms)
        before
        (get_previous_cron_match (some next_match) before none none)
unfolding get_previous_cron_match
get_previous_cron_match-IsLast is_slot next_match matches before h =
    search_window is_slot next_match matches before (before - default_lookback_ms)
      (omega (arith, h)) (omega (arith, h))

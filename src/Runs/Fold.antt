-- ===== src/Runs/Fold.antt =====
-- The entry that a missed run is folded into (src/scheduler-runs.ts), field by field.
use bfrost.Prelude.{
  ℕ, ◌+◌, ◌<◌, ◌≤◌, String, some, List, [], ◌∷◌, ◌≡◌, refl, get_or_else, arith, ltb, ap, ◌∙◌, true,
  false,
}
use bfrost.Platform.{Platform}
use bfrost.Runs.{RunRecord, MissedInput, collapsed, slot_total, is_newer_slot}

-- The slots that the entries count; an entry without a count stands for one.
abbrev pub slots_counted : List RunRecord → ℕ
slots_counted [] = 0
slots_counted (x ∷ runs) = get_or_else x.missed_slot_count 1 + slots_counted runs

-- One entry for the old one, its surplus copies and a new miss.
pub record IsFolded (p : Platform) (input : MissedInput) (existing : RunRecord)
    (surplus : List RunRecord) (one : RunRecord) : Type 0 where
  pub same_id : one.id ≡ existing.id
  pub same_job : one.job ≡ existing.job
  pub named : (one.label ≡ input.label) × (one.model_alias ≡ input.model_alias)
  pub recorded : one.finished_at ≡ some input.recorded_at
  pub counted : one.missed_slot_count ≡ some (slots_counted (existing ∷ surplus) + 1)
  pub moved_on :
      (slot old : ℕ)
      → p.date_parse input.scheduled_at ≡ some slot
      → p.date_parse existing.started_at ≡ some old
      → old < slot
      → (one.started_at ≡ input.scheduled_at) × (one.error ≡ some input.error)
  pub stayed :
      (slot old : ℕ)
      → p.date_parse input.scheduled_at ≡ some slot
      → p.date_parse existing.started_at ≡ some old
      → slot ≤ old
      → (one.started_at ≡ existing.started_at) × (one.error ≡ existing.error)

slot_total-counted :
    (runs : List RunRecord) (total : ℕ) → slot_total runs total ≡ slots_counted runs + total
unfolding slot_total
slot_total-counted [] total = omega arith
slot_total-counted (x ∷ runs) total =
    omega (arith, slot_total-counted runs (total + get_or_else x.missed_slot_count 1))

newer_slot :
    (p : Platform) (a b : String) (slot old : ℕ)
    → p.date_parse a ≡ some slot
    → p.date_parse b ≡ some old
    → is_newer_slot p a b ≡ ltb old slot
unfolding is_newer_slot
newer_slot p a b slot old ha hb = rw (is_newer_slot, ha, hb) refl

pub collapsed-IsFolded :
    (p : Platform) (input : MissedInput) (existing : RunRecord) (surplus : List RunRecord)
    → IsFolded p input existing surplus (collapsed p input existing surplus)
unfolding collapsed
collapsed-IsFolded p input existing surplus = record {
  same_id = refl;
  same_job = refl;
  named = (refl, refl);
  recorded = refl;
  counted = ap (λ n. some n) (slot_total-counted (existing ∷ surplus) 1);
  moved_on = λ slot old hs ho later.
      let newer : is_newer_slot p input.scheduled_at existing.started_at ≡ true =
        newer_slot p input.scheduled_at existing.started_at slot old hs ho
        ∙ ground (arith, later) in
      (rw newer refl, rw newer refl);
  stayed = λ slot old hs ho earlier.
      let older : is_newer_slot p input.scheduled_at existing.started_at ≡ false =
        newer_slot p input.scheduled_at existing.started_at slot old hs ho
        ∙ ground (arith, earlier) in
      (rw older refl, rw older refl);
}

-- ===== src/Runs/Missed.antt =====
-- How the missed runs of a job fold into one entry (src/scheduler-runs.ts).
use bfrost.Prelude.{
  ◌≤◌, String, Bool, true, false, not, ◌&&◌, List, [], ◌∷◌, ◌≡◌, refl, arith, length, length-take,
  keep, length-keep-le, All, Bool-cases, inl, inr, includes, Distinct, str_eq, eq_iff, ap, sym,
  keep-here, ◌∙◌, keep-skip, subst,
}
use bfrost.Platform.{Platform}
use bfrost.Runs.{
  RunRecord, MissedInput, newest_first, insert_by_start, save_runs, load_scheduler_runs,
  run_retention, missed_of, update_where, fold_missed, collapsed, record_missed_in,
  record_missed_scheduled_run, run_ids, is_recoverable_missed_run,
}
use bfrost.Runs.Fold.{IsFolded, collapsed-IsFolded}
use bfrost.Runs.Loads.{length-newest_first, take_all}

length-update :
    (test : RunRecord → Bool) (f : RunRecord → RunRecord) (runs : List RunRecord)
    → length (update_where test f runs) ≡ length runs
unfolding update_where
length-update test f [] = refl
length-update test f (x ∷ runs) = omega (arith, length-update test f runs)

-- A run that the test refuses goes unseen where it is put.
keep-insert_skip :
    (test : RunRecord → Bool) (p : Platform) (x : RunRecord) (runs : List RunRecord)
    → test x ≡ false
    → keep test (insert_by_start p x runs) ≡ keep test runs
unfolding insert_by_start
keep-insert_skip test p x [] e = ground (arith, e)
keep-insert_skip test p x (y ∷ runs) e = ground (arith, e, keep-insert_skip test p x runs e)

keep-insert_here :
    (test : RunRecord → Bool) (p : Platform) (x : RunRecord) (runs : List RunRecord)
    → test x ≡ true
    → keep test runs ≡ []
    → keep test (insert_by_start p x runs) ≡ x ∷ []
unfolding insert_by_start
keep-insert_here test p x [] e h = ground (arith, e)
keep-insert_here test p x (y ∷ runs) e h = ground (arith, e, keep-insert_here test p x runs e)

keep-newest_none :
    (test : RunRecord → Bool) (p : Platform) (runs : List RunRecord)
    → keep test runs ≡ []
    → keep test (newest_first p runs) ≡ []
unfolding newest_first
keep-newest_none test p [] h = refl
keep-newest_none test p (x ∷ runs) h = elim (Bool-cases (test x)) [
  | inl e ↦ let absurd = sym (keep-here test x runs e) ∙ h in cc
  | inr e ↦
      keep-insert_skip test p x (newest_first p runs) e
      ∙ keep-newest_none test p runs (sym (keep-skip test x runs e) ∙ h)
]

-- The order plays no part where one run alone passes the test.
keep-newest_one :
    (test : RunRecord → Bool) (p : Platform) (runs : List RunRecord) (one : RunRecord)
    → keep test runs ≡ one ∷ []
    → keep test (newest_first p runs) ≡ one ∷ []
unfolding newest_first
keep-newest_one test p [] one h = cc
keep-newest_one test p (x ∷ runs) one h = elim (Bool-cases (test x)) [
  | inl e ↦
      let same = sym (keep-here test x runs e) ∙ h in
      let none_left : keep test runs ≡ [] = cc in
      let is_one : x ≡ one = cc in
      keep-insert_here test p x (newest_first p runs) e (keep-newest_none test p runs none_left)
      ∙ ap (λ run. run ∷ []) is_one
  | inr e ↦
      keep-insert_skip test p x (newest_first p runs) e
      ∙ keep-newest_one test p runs one (sym (keep-skip test x runs e) ∙ h)
]

-- The runs that are left when those with one of the ids are taken out and one is replaced.
abbrev refold : String → RunRecord → List String → List RunRecord → List RunRecord
refold id merged ids runs =
    update_where (λ run. str_eq run.id id) (λ _. merged)
      (keep (λ run. not (includes ids run.id)) runs)

refold-none :
    (test : RunRecord → Bool) (id : String) (merged : RunRecord) (ids : List String)
    (runs : List RunRecord)
    → includes (run_ids runs) id ≡ false
    → All (λ run. test run ≡ true → includes ids run.id ≡ true) runs
    → keep test (refold id merged ids runs) ≡ []
unfolding update_where
refold-none test id merged ids [] h a = refl
refold-none test id merged ids (x ∷ runs) h a =
    ground (arith, a.0, refold-none test id merged ids runs, eq_iff x.id id)

includes-run_ids-keep :
    (test : RunRecord → Bool) (runs : List RunRecord) (id : String)
    → includes (run_ids runs) id ≡ false
    → includes (run_ids (keep test runs)) id ≡ false
includes-run_ids-keep test [] id h = refl
includes-run_ids-keep test (x ∷ runs) id h = ground (arith, includes-run_ids-keep test runs id)

All-in_kept :
    (test : RunRecord → Bool) (ids : List String) (runs : List RunRecord)
    → All (λ run. test run ≡ true → includes ids run.id ≡ true) runs
    → (id : String) → All (λ run. test run ≡ true → includes (id ∷ ids) run.id ≡ true) runs
All-in_kept test ids [] a id = tt
All-in_kept test ids (x ∷ runs) a id =
    ((λ h. ground (arith, a.0 h)), All-in_kept test ids runs a.1 id)

kept_ids :
    (test : RunRecord → Bool) (runs : List RunRecord)
    → All (λ run. test run ≡ true → includes (run_ids (keep test runs)) run.id ≡ true) runs
kept_ids test [] = tt
kept_ids test (x ∷ runs) = elim (Bool-cases (test x)) [
  | inl e ↦
      subst
        (λ kept. All (λ run. test run ≡ true → includes (run_ids kept) run.id ≡ true) (x ∷ runs))
        (sym (keep-here test x runs e))
        (
          (λ h. ground (arith, eq_iff x.id x.id)),
          All-in_kept test (run_ids (keep test runs)) runs (kept_ids test runs) x.id,
        )
  | inr e ↦
      subst
        (λ kept. All (λ run. test run ≡ true → includes (run_ids kept) run.id ≡ true) (x ∷ runs))
        (sym (keep-skip test x runs e)) ((λ h. cc), kept_ids test runs)
]

refold_here :
    (test : RunRecord → Bool) (x : RunRecord) (runs : List RunRecord) (merged : RunRecord)
    → test merged ≡ true
    → Distinct (run_ids (x ∷ runs))
    → keep test (refold x.id merged (run_ids (keep test runs)) (x ∷ runs)) ≡ merged ∷ []
unfolding update_where
refold_here test x runs merged m d = ground (
  arith,
  m,
  eq_iff x.id x.id,
  includes-run_ids-keep test runs x.id d.0,
  refold-none test x.id merged (run_ids (keep test runs)) runs d.0 (kept_ids test runs),
)

-- An id of the runs that are kept is an id of the runs.
kept_apart :
    (test : RunRecord → Bool) (runs : List RunRecord) (existing : RunRecord)
    (surplus : List RunRecord) (id : String)
    → keep test runs ≡ existing ∷ surplus
    → includes (run_ids runs) id ≡ false
    → includes (run_ids (existing ∷ surplus)) id ≡ false
kept_apart test runs existing surplus id h a =
    subst (λ kept. includes (run_ids kept) id ≡ false) h (includes-run_ids-keep test runs id a)

refold_skip :
    (test : RunRecord → Bool) (x : RunRecord) (runs : List RunRecord) (existing : RunRecord)
    (surplus : List RunRecord) (merged : RunRecord)
    → test x ≡ false
    → Distinct (run_ids (x ∷ runs))
    → keep test runs ≡ existing ∷ surplus
    → keep test (refold existing.id merged (run_ids surplus) (x ∷ runs))
      ≡ keep test (refold existing.id merged (run_ids surplus) runs)
unfolding update_where
refold_skip test x runs existing surplus merged e d h =
    let apart = kept_apart test runs existing surplus x.id h d.0 in
    ground (arith, e, apart, eq_iff x.id existing.id, eq_iff existing.id x.id)

-- Where the ids differ, the entry that is first stands alone for all that passed the test.
refold-one :
    (test : RunRecord → Bool) (runs : List RunRecord) (existing : RunRecord)
    (surplus : List RunRecord) (merged : RunRecord)
    → test merged ≡ true
    → Distinct (run_ids runs)
    → keep test runs ≡ existing ∷ surplus
    → keep test (refold existing.id merged (run_ids surplus) runs) ≡ merged ∷ []
refold-one test [] existing surplus merged m d h = cc
refold-one test (x ∷ runs) existing surplus merged m d h = elim (Bool-cases (test x)) [
  | inl e ↦
      let same = sym (keep-here test x runs e) ∙ h in
      let is_surplus : surplus ≡ keep test runs = cc in
      let is_existing : existing ≡ x = cc in
      subst (λ s. keep test (refold existing.id merged (run_ids s) (x ∷ runs)) ≡ merged ∷ [])
        (sym is_surplus)
        (subst
          (λ r. keep test (refold r.id merged (run_ids (keep test runs)) (x ∷ runs)) ≡ merged ∷ [])
          (sym is_existing) (refold_here test x runs merged m d))
  | inr e ↦
      let later_kept = sym (keep-skip test x runs e) ∙ h in
      refold_skip test x runs existing surplus merged e d later_kept
      ∙ refold-one test runs existing surplus merged m d.1 later_kept
]

keep-head :
    (test : RunRecord → Bool) (runs : List RunRecord) (one : RunRecord) (rest : List RunRecord)
    → keep test runs ≡ one ∷ rest
    → test one ≡ true
keep-head test [] one rest h = cc
keep-head test (x ∷ runs) one rest h = ground (arith, keep-head test runs one rest)

bounded_load :
    (p : Platform) (stored : List RunRecord)
    → length (load_scheduler_runs p stored run_retention) ≤ run_retention
unfolding load_scheduler_runs
bounded_load p stored = omega (arith, length-take run_retention (newest_first p stored))

-- A write of runs of which one alone passes a test, and that are not too many, keeps this one.
save-one :
    (test : RunRecord → Bool) (p : Platform) (runs : List RunRecord) (one : RunRecord)
    → length runs ≤ run_retention
    → keep test runs ≡ one ∷ []
    → keep test (save_runs p runs) ≡ one ∷ []
unfolding save_runs
save-one test p runs one b h =
    ap (λ kept. keep test kept)
      (take_all run_retention (newest_first p runs) (omega (arith, b, length-newest_first p runs)))
    ∙ keep-newest_one test p runs one h

record_missed-one :
    (p : Platform) (stored : List RunRecord) (id : String) (input : MissedInput)
    (existing : RunRecord) (surplus : List RunRecord)
    → Distinct (run_ids (load_scheduler_runs p stored run_retention))
    → missed_of input.job (load_scheduler_runs p stored run_retention) ≡ existing ∷ surplus
    → missed_of input.job (record_missed_scheduled_run p stored id input).1
      ≡ collapsed p input existing surplus ∷ []
unfolding record_missed_scheduled_run missed_of fold_missed collapsed record_missed_in
    is_recoverable_missed_run
record_missed-one p stored id input existing surplus d h =
    let runs = load_scheduler_runs p stored run_retention in
    let test : RunRecord → Bool =
      λ run. is_recoverable_missed_run run && str_eq run.job input.job in
    let merged = collapsed p input existing surplus in
    let passes : test merged ≡ true = keep-head test runs existing surplus h in
    let folded = refold existing.id merged (run_ids surplus) runs in
    let fits : length folded ≤ run_retention = omega (
      arith,
      length-update (λ run. str_eq run.id existing.id) (λ _. merged)
          (keep (λ run. not (includes (run_ids surplus) run.id)) runs),
      length-keep-le (λ run. not (includes (run_ids surplus) run.id)) runs,
      bounded_load p stored,
    ) in
    subst (λ found. keep test (record_missed_in p id input runs found).1 ≡ merged ∷ []) (sym h)
      (save-one test p folded merged fits (refold-one test runs existing surplus merged passes d h))

-- When a run of a job is missed and the loaded runs, whose ids differ, hold missed runs of this job,
-- then afterwards the job has one missed run. It has the id of the first of the old ones, names the model
-- of the new one and counts the slots of all of them and one more. Where both times can be read, its slot
-- and its error are those of the new miss if this is the later one, and those of the first old one if not.
pub record_missed-folds :
    (p : Platform) (stored : List RunRecord) (id : String) (input : MissedInput)
    (existing : RunRecord) (surplus : List RunRecord)
    → Distinct (run_ids (load_scheduler_runs p stored run_retention))
    → missed_of input.job (load_scheduler_runs p stored run_retention) ≡ existing ∷ surplus
    → (one : RunRecord) × (missed_of input.job (record_missed_scheduled_run p stored id input).1
        ≡ one ∷ [])
      × IsFolded p input existing surplus one
record_missed-folds p stored id input existing surplus d h = (
  collapsed p input existing surplus,
  record_missed-one p stored id input existing surplus d h,
  collapsed-IsFolded p input existing surplus,
)

-- ===== src/Runs/Ended.antt =====
-- What a write to one run leaves of the runs with its id (src/scheduler-runs.ts).
use bfrost.Prelude.{
  ◌≤◌, String, Bool, false, ◌||◌, none, some, List, [], ◌∷◌, ◌≡◌, refl, All, any, length, str_eq,
  eq_iff, arith, Bool-cases, Option-cases, inl, inr, sym, ◌∙◌, ap, length-take,
}
use bfrost.Platform.{Platform}
use bfrost.Runs.{
  RunRecord, FinishInput, newest_first, insert_by_start, load_scheduler_runs, run_retention,
  save_runs, update_run, update_where, last_updated, finish_scheduler_run, finished, run_status,
  record_scheduler_run_attempt, RunAttempt, with_attempt,
}
use bfrost.Runs.Laws.{All-take, All-newest_first}
use bfrost.Runs.Loads.{load_all}

any-insert_by_start :
    (p : Platform) (test : RunRecord → Bool) (x : RunRecord) (runs : List RunRecord)
    → any test (insert_by_start p x runs) ≡ (test x || any test runs)
unfolding insert_by_start
any-insert_by_start p test x [] = refl
any-insert_by_start p test x (y ∷ runs) = ground (arith, any-insert_by_start p test x runs)

any-newest_first :
    (p : Platform) (test : RunRecord → Bool) (runs : List RunRecord)
    → any test (newest_first p runs) ≡ any test runs
unfolding newest_first
any-newest_first p test [] = refl
any-newest_first p test (x ∷ runs) =
    rw (any-insert_by_start p test x (newest_first p runs), any-newest_first p test runs) refl

last_updated-none :
    (test : RunRecord → Bool) (f : RunRecord → RunRecord) (runs : List RunRecord)
    → last_updated test f runs ≡ none
    → any test runs ≡ false
unfolding last_updated
last_updated-none test f [] e = refl
last_updated-none test f (x ∷ runs) e =
    ground (arith, e, Option-cases (last_updated test f runs), last_updated-none test f runs)

abbrev pub OfId : String → (RunRecord → Type 0) → RunRecord → Type 0
OfId id Q run = run.id ≡ id → Q run

apart : (id : String) (x : RunRecord) → str_eq x.id id ≡ false → x.id ≡ id → ⊥
apart id x e same = ground (arith, e, eq_iff x.id id, same)

any_tail :
    (test : RunRecord → Bool) (x : RunRecord) (runs : List RunRecord)
    → any test (x ∷ runs) ≡ false
    → (test x ≡ false) × (any test runs ≡ false)
any_tail test x runs e = (ground (arith, e), ground (arith, e))

All-absent :
    (id : String) (Q : RunRecord → Type 0) (runs : List RunRecord)
    → any (λ run. str_eq run.id id) runs ≡ false
    → All (OfId id Q) runs
All-absent id Q [] e = tt
All-absent id Q (x ∷ runs) e =
    let tail = any_tail (λ run. str_eq run.id id) x runs e in
    (λ same. elim (apart id x tail.0 same) [ ], All-absent id Q runs tail.1)

module _ (id : String) (Q : RunRecord → Type 0) (f : RunRecord → RunRecord)
    (new : (x : RunRecord) → Q (f x)) where
  All-update_where :
      (runs : List RunRecord) → All (OfId id Q) (update_where (λ run. str_eq run.id id) f runs)
  unfolding update_where
  All-update_where [] = tt
  All-update_where (x ∷ runs) = elim (Bool-cases (str_eq x.id id)) [
    | inl e ↦ rw e (λ same. new x, All-update_where runs)
    | inr e ↦ rw e (λ same. elim (apart id x e same) [ ], All-update_where runs)
  ]

  pub All-update_run :
      (p : Platform) (stored : List RunRecord)
      → length stored ≤ run_retention
      → All (OfId id Q) (update_run p stored id f).1
  unfolding update_run save_runs
  All-update_run p stored h =
      let has_id = λ (run : RunRecord). str_eq run.id id in
      let runs = load_scheduler_runs p stored run_retention in
      elim (Option-cases (last_updated has_id f runs)) [
        | inl e ↦
            rw (update_run, e)
              (All-absent id Q stored (
                sym (any-newest_first p has_id stored)
                ∙ ap (any has_id) (sym (load_all p stored h))
                ∙ last_updated-none has_id f runs e))
        | inr (updated, e) ↦
            rw (update_run, e)
              (All-take (OfId id Q) run_retention (newest_first p (update_where has_id f runs)) (
                All-newest_first (OfId id Q) p (update_where has_id f runs)
                  (All-update_where runs)))
      ]

length-update_run :
    (p : Platform) (stored : List RunRecord) (id : String) (f : RunRecord → RunRecord)
    → length stored ≤ run_retention
    → length (update_run p stored id f).1 ≤ run_retention
unfolding update_run save_runs
length-update_run p stored id f h =
    let has_id = λ (run : RunRecord). str_eq run.id id in
    let runs = load_scheduler_runs p stored run_retention in
    elim (Option-cases (last_updated has_id f runs)) [
      | inl e ↦ rw (update_run, e) h
      | inr (updated, e) ↦
          rw (update_run, e)
            (omega (arith, length-take run_retention (newest_first p (update_where has_id f runs))))
    ]

-- A finished run as the input describes it.
abbrev pub FinishedAs : FinishInput → RunRecord → Type 0
FinishedAs input run =
    (run.finished_at ≡ some input.finished_at)
    × ((run.status ≡ run_status input.status)
        × ((run.summary ≡ input.summary) × (run.error ≡ input.error)))

pub All-finish :
    (p : Platform) (stored : List RunRecord) (id : String) (input : FinishInput)
    → length stored ≤ run_retention
    → All (OfId id (FinishedAs input)) (finish_scheduler_run p stored id input).1
unfolding finish_scheduler_run finished
All-finish p stored id input h =
    All-update_run id (FinishedAs input) (finished input) (λ run. (refl, (refl, (refl, refl)))) p
      stored h

pub length-record_attempt :
    (p : Platform) (stored : List RunRecord) (id : String) (attempt : RunAttempt)
    → length stored ≤ run_retention
    → length (record_scheduler_run_attempt p stored id attempt).1 ≤ run_retention
unfolding record_scheduler_run_attempt
length-record_attempt p stored id attempt = length-update_run p stored id (with_attempt attempt)

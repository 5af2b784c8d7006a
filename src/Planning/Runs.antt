-- ===== src/Planning/Runs.antt =====
-- What a run of app/services/planning.py says of itself.
use piggyon.Base.{
  ℕ, ◌≡◌, refl, sym, subst, Option-cases, inl, inr, Bool, true, Option, none, some, List, [], ◌∷◌,
  String, Memᴰ, is_all, Bool-cases, is_empty, arith,
}
use piggyon.Base.Dict.{Dict}
use piggyon.Snapshot.{ScenarioInputSnapshot}
use piggyon.Snapshot.Resolved.{IsResolved}
use piggyon.Eligibility.{evaluate_scenario, evaluate_with}
use piggyon.Eligibility.Types.{Candidate, ScenarioEvaluation}
use piggyon.Eligibility.Lookup.{Index}
use piggyon.Eligibility.Groups.{IsIndexOf, evaluate_scenario_total, evaluate_scenario-eq-some}
use piggyon.Baseline.{SolverParameters, SolveResult}
use piggyon.Baseline.Cp.{CpSolver, IsSound}
use piggyon.Baseline.Problem.{all_candidates, all_known}
use piggyon.Baseline.Solve.{empty_result, first_answer, posable, solve_from, solve_baseline}
use piggyon.Base.Lookups.{some_inj, some-ne-none}
use piggyon.Planning.Range.{
  IsInRange, coefficients_fit_in_range, scores_fit_in_range, plan_raises-false,
}
use piggyon.Validator.{pass, plan_raises}
use piggyon.Validator.Placement.{ids_for, owner_of, known_order, known_wagon}
use piggyon.Validator.Agreement.{first_wagon_of_id}
use piggyon.Validator.Passes.{validate_plan-solve_baseline}
use piggyon.Planning.{Run, packaged, run_baseline}

is_all_of_mem :
    (test : Candidate → Bool) (cs : List Candidate)
    → ((c : Candidate) → Memᴰ c cs → test c ≡ true)
    → is_all test cs ≡ true
is_all_of_mem test [] h = refl
is_all_of_mem test (c ∷ cs) h =
    rw (h c (Memᴰ.head refl)) (is_all_of_mem test cs (λ d m. h d (Memᴰ.tail m)))

module _ (s : ScenarioInputSnapshot) (ids : Option (List String))
    (per_order : Dict (List String)) where
  all_known_of_index :
      (index : Index)
      → IsResolved s
      → IsIndexOf s index
      → all_known s (all_candidates (evaluate_with s ids per_order index)) ≡ true
  unfolding all_known
  all_known_of_index index r ix =
      is_all_of_mem _ (all_candidates (evaluate_with s ids per_order index)) λ c m.
        let (order, listed, f) = owner_of s ids per_order index r ix c m in
        rw
          (
            known_order s ids per_order index r ix (ids_for s ids per_order order) order listed
                (λ x mx. mx) c f,
            first_wagon_of_id s r c.wagon_id (
                known_wagon s ids per_order index r ix (ids_for s ids per_order order) order listed
                  (λ x mx. mx) c f),
          )
          refl

  -- The solver's lookups all answer over a resolved snapshot.
  pub solve_baseline_total :
      (solve : CpSolver) (clock : ℕ → ℕ) (parameters : SolverParameters)
      (evaluation : ScenarioEvaluation)
      → IsResolved s
      → IsInRange s
      → evaluate_scenario s ids per_order ≡ some evaluation
      → (result : SolveResult) × (solve_baseline solve clock parameters s evaluation ≡ some result)
  unfolding solve_baseline
  solve_baseline_total solve clock parameters evaluation r range evaluated =
      let (index, ix, same) = evaluate_scenario-eq-some s ids per_order evaluated in
      let known : all_known s (all_candidates evaluation) ≡ true =
        rw same (all_known_of_index index r ix) in
      let no_exception : posable solve clock parameters s evaluation ≡ true =
        rw
          (
            known,
            coefficients_fit_in_range s range (all_candidates evaluation),
            scores_fit_in_range s range (all_candidates evaluation),
          )
          (ground arith) in
      elim (Bool-cases (is_empty (all_candidates evaluation))) [
        | inl none_left ↦ (empty_result evaluation, rw (none_left, solve_baseline) refl)
        | inr some_left ↦ (
          solve_from solve clock parameters s evaluation
              (first_answer solve clock parameters s evaluation).status,
          rw (some_left, solve_baseline, no_exception) refl,
        )
      ]

-- A run that is produced over a resolved snapshot and a sound solver passes the re-check.
pub produced-pass :
    (solve : CpSolver) (clock : ℕ → ℕ) (parameters : SolverParameters) (run_id scenario_id : String)
    (s : ScenarioInputSnapshot) (run : Run)
    → IsSound solve
    → IsResolved s
    → run_baseline solve clock run_id scenario_id s parameters ≡ some run
    → run.validator_status ≡ pass
unfolding run_baseline packaged
produced-pass solve clock parameters run_id scenario_id s run sound r e =
    elim (Option-cases (evaluate_scenario s none [])) [
      | inl broken ↦ absurd (some-ne-none {x = run} (sym (rw (broken, run_baseline) at e)))
      | inr (evaluation, evaluated) ↦
          elim (Option-cases (solve_baseline solve clock parameters s evaluation)) [
            | inl broken ↦
                absurd (some-ne-none {x = run} (sym (rw (evaluated, run_baseline, broken) at e)))
            | inr (result, solved) ↦ elim (Bool-cases (plan_raises s result.assignments)) [
              | inl raises ↦
                  absurd (
                    some-ne-none {x = run}
                      (sym (rw (evaluated, run_baseline, solved, raises) at e)))
              | inr quiet ↦
                  subst (λ (q : Run). q.validator_status ≡ pass)
                    (some_inj (rw (evaluated, run_baseline, solved, quiet) at e))
                    (validate_plan-solve_baseline solve clock parameters s none [] none evaluation
                      result sound r (λ order m x mx. mx) evaluated solved)
            ]
          ]
    ]

-- Over a resolved snapshot in the ranges of dates and of 64-bit numbers, and a sound solver, a run is
-- produced, and its plan passes the re-check.
pub run_baseline-pass :
    (solve : CpSolver) (clock : ℕ → ℕ) (parameters : SolverParameters) (run_id scenario_id : String)
    (s : ScenarioInputSnapshot)
    → IsSound solve
    → IsResolved s
    → IsInRange s
    → (run : Run) × (run_baseline solve clock run_id scenario_id s parameters ≡ some run)
      × (run.validator_status ≡ pass)
unfolding run_baseline packaged
run_baseline-pass solve clock parameters run_id scenario_id s sound r range =
    let (evaluation, evaluated) = evaluate_scenario_total s none [] r range.calendar in
    let (result, solved) =
      solve_baseline_total s none [] solve clock parameters evaluation r range evaluated in
    (
      packaged run_id scenario_id s parameters result,
      rw (evaluated, run_baseline)
          (rw (solved, run_baseline)
            (rw (plan_raises-false s range result.assignments, run_baseline) refl)),
      validate_plan-solve_baseline solve clock parameters s none [] none evaluation result sound r
          (λ order m x mx. mx) evaluated solved,
    )

-- ===== src/Scenarios.antt =====
-- app/routers/scenarios.py: the endpoints that validate, solve and delete a scenario, as steps on
-- the store. A step gives the store after it and a reply; an `ApiError` is a reply. The text of a
-- run's id and the time of the clock are arguments.
pub mod Creation
pub mod Reads
pub mod Undo
pub mod States
pub mod Solving
use piggyon.Base.{
  ℕ, Bool, true, false, not, ◌&&◌, ◌⊎◌, inl, inr, Option, none, some, List, [], ◌∷◌, map, String,
  ◌==◌, is_empty, nat_eq, select, if◌then◌else◌,
}
use piggyon.Errors.{
  invalid_input, scenario_not_found, validation_required, policy_violation, solver_unavailable,
  no_detail, derived_scenarios, ApiError, api_error, internal,
}
use piggyon.Eligibility.{evaluate_scenario}
use piggyon.Eligibility.Types.{ScenarioEvaluation, has_any_candidate}
use piggyon.Baseline.{SolverParameters, RunState, run_error}
use piggyon.Baseline.Cp.{CpSolver}
use piggyon.Planning.{ValidationResult, build_validation_result, Run, run_baseline}
use piggyon.Storage.{
  ScenarioState, validation_required, ready_to_solve, solved, ScenarioRecord, RunRecord,
  MemoryStore, validation_completed, run_completed, get_scenario, list_scenarios,
  update_scenario_state, save_validation, get_validation, next_run_id, save_run, append_trace,
}
use piggyon.Storage

abbrev pub Step : Type 0 → Type 0 → Type 0
Step E A = MemoryStore E × (ApiError ⊎ A)

abbrev pub waits_for_validation : ScenarioState → Bool
waits_for_validation validation_required = true
waits_for_validation _ = false

abbrev pub is_error : RunState → Bool
is_error run_error = true
is_error _ = false

abbrev pub is_child_of : String → ScenarioRecord → Bool
is_child_of id r = elim r.parent_scenario_id [ none ↦ false | some parent ↦ parent == id ]

module _ {E : Type 0} where
  -- from the evaluation on
  unfoldable pub record_validation :
      String → ScenarioRecord → ScenarioEvaluation → MemoryStore E → MemoryStore E
  unfolding save_validation update_scenario_state append_trace has_any_candidate
      build_validation_result
  record_validation id scenario evaluation s =
      let saved = save_validation id (build_validation_result id evaluation) s in
      append_trace id validation_completed (
        if has_any_candidate evaluation && waits_for_validation scenario.state
        then update_scenario_state id ready_to_solve saved
        else saved)

  unfoldable pub validate_scenario : String → MemoryStore E → Step E ValidationResult
  unfolding get_scenario evaluate_scenario record_validation
  validate_scenario id s = elim (get_scenario id s) [
    | none ↦ (s, inl (api_error scenario_not_found no_detail))
    | some scenario ↦ elim (evaluate_scenario scenario.input_snapshot none []) [
      | none ↦ (s, inl internal)
      | some evaluation ↦
          (record_validation id scenario evaluation s, inr (build_validation_result id evaluation))
    ]
  ]

  unfoldable pub delete_scenario : String → MemoryStore E → Step E Unit
  unfolding get_scenario list_scenarios Storage.delete_scenario select
  delete_scenario id s = elim (get_scenario id s) [
    | none ↦ (s, inl (api_error scenario_not_found no_detail))
    | some scenario ↦
        let children =
          map (λ (r : ScenarioRecord). r.scenario_id)
            (select (is_child_of id) (list_scenarios 100 s)) in
        if is_empty children
        then (Storage.delete_scenario id s, inr tt)
        else (s, inl (api_error policy_violation (derived_scenarios children)))
  ]

  module _ (solve : CpSolver) (clock : ℕ → ℕ) (run_id_of : ℕ → String) (now : String) where
    -- from the run's document on
    unfoldable pub record_run : String → Run → MemoryStore E → Step E Run
    unfolding save_run update_scenario_state append_trace
    record_run id run s =
        if is_error run.run_state then (s, inl (api_error solver_unavailable no_detail)) else (
          append_trace id run_completed (
              update_scenario_state id solved
                (save_run (record { run = run; created_at = some now }) s)),
          inr run,
        )

    unfoldable pub solve_scenario :
        String → ScenarioRecord → SolverParameters → MemoryStore E → Step E Run
    unfolding next_run_id run_baseline record_run
    solve_scenario id scenario parameters s =
        let (taken, sequence) = next_run_id s in
        elim (run_baseline solve clock (run_id_of sequence) id scenario.input_snapshot parameters) [
          | none ↦ (taken, inl internal)
          | some run ↦ record_run id run taken
        ]

    unfoldable pub create_run : String → SolverParameters → MemoryStore E → Step E Run
    unfolding get_scenario get_validation solve_scenario
    create_run id parameters s = elim (get_scenario id s) [
      | none ↦ (s, inl (api_error scenario_not_found no_detail))
      | some scenario ↦
          if not (nat_eq parameters.num_search_workers 1)
          then (s, inl (api_error invalid_input no_detail))
          else elim (get_validation id s) [
            | none ↦ (s, inl (api_error validation_required no_detail))
            | some validation ↦ solve_scenario id scenario parameters s
          ]
    ]

-- ===== src/Planning.antt =====
-- app/services/planning.py: the gate, the solver and the re-check, one after the other. Of the
-- `reproducibility` block of a run the solver's parameters are kept, and the hashes left out.
pub mod Range
pub mod Runs
use piggyon.Base.{
  if◌then◌else◌, ℕ, Bool, Option, none, some, List, [], map, String, text_le, sort_by,
}
use piggyon.Base.Dict.{Dict}
use piggyon.Base.Int.{ℤ}
use piggyon.ReasonCodes.{Code}
use piggyon.Snapshot.{ScenarioInputSnapshot}
use piggyon.Eligibility.{evaluate_scenario}
use piggyon.Eligibility.Types.{
  InputState, EligibilityState, OrderEvaluation, ScenarioEvaluation, eligible_slot_ids,
  primary_reason_code,
}
use piggyon.Baseline.{
  SolverParameters, SolverStatus, RunState, Assignment, OrderOutcome, SolveResult,
}
use piggyon.Baseline.Cp.{CpSolver}
use piggyon.Baseline.Solve.{solve_baseline}
use piggyon.Validator.{ValidatorStatus, validate_plan, plan_raises}
use piggyon.Validator.Checks.{ValidationFinding}

-- one entry of `"orders"`
pub record OrderValidation : Type 0 where
  pub order_id : String
  pub input_state : InputState
  pub eligibility_state : EligibilityState
  pub reason_codes : List Code
  pub missing_fields : List String
  pub eligible_slot_ids : List String
  pub primary_reason_code : Option Code

pub record ValidationResult : Type 0 where
  pub scenario_id : String
  pub orders : List OrderValidation

abbrev pub order_validation : OrderEvaluation → OrderValidation
order_validation e = record {
  order_id = e.order_id;
  input_state = e.input_state;
  eligibility_state = e.eligibility_state;
  reason_codes = e.reason_codes;
  missing_fields = e.missing_fields;
  eligible_slot_ids = eligible_slot_ids e;
  primary_reason_code = primary_reason_code e;
}

unfoldable pub build_validation_result : String → ScenarioEvaluation → ValidationResult
unfolding sort_by
build_validation_result scenario_id evaluation = record {
  scenario_id = scenario_id;
  orders = map order_validation (
      sort_by (λ (d : OrderEvaluation) (e : OrderEvaluation). text_le d.order_id e.order_id)
        evaluation.evaluations);
}

-- An outcome as `as_dict` writes it, with the keys that `apply_to_baseline` adds later.
pub record OutcomeDocument : Type 0 where
  pub outcome : OrderOutcome
  pub display_badges : Option (List String)
  pub alternative_scenario_id : Option String

abbrev pub as_document : OrderOutcome → OutcomeDocument
as_document o = record { outcome = o; display_badges = none; alternative_scenario_id = none }

-- The document of one run.
pub record Run : Type 0 where
  pub run_id : String
  pub scenario_id : String
  pub parent_run_id : Option String
  pub solver_status : SolverStatus
  pub run_state : RunState
  pub is_optimal : Bool
  pub validator_status : ValidatorStatus
  pub validator_findings : List ValidationFinding
  pub solver_parameters : SolverParameters
  pub assignments : List Assignment
  pub order_outcomes : List OutcomeDocument
  pub objective_values : Dict ℤ

-- What `run_baseline` packs, from what the solver returned.
unfoldable pub packaged :
    String → String → ScenarioInputSnapshot → SolverParameters → SolveResult → Run
unfolding validate_plan
packaged run_id scenario_id snapshot parameters result =
    let validation = validate_plan snapshot result.assignments result.order_outcomes none in
    record {
      run_id = run_id;
      scenario_id = scenario_id;
      parent_run_id = none;
      solver_status = result.solver_status;
      run_state = result.run_state;
      is_optimal = result.is_optimal;
      validator_status = validation.status;
      validator_findings = validation.findings;
      solver_parameters = parameters;
      assignments = result.assignments;
      order_outcomes = map as_document result.order_outcomes;
      objective_values = result.objective_values;
    }

module _ (solve : CpSolver) (clock : ℕ → ℕ) where
  -- `run_baseline`; `none` where the gate, the solver or the validator raises
  unfoldable pub run_baseline :
      String → String → ScenarioInputSnapshot → SolverParameters → Option Run
  unfolding packaged evaluate_scenario solve_baseline plan_raises
  run_baseline run_id scenario_id snapshot parameters = elim (evaluate_scenario snapshot none []) [
    | none ↦ none
    | some evaluation ↦ elim (solve_baseline solve clock parameters snapshot evaluation) [
      | none ↦ none
      | some result ↦
          if plan_raises snapshot result.assignments
          then none
          else some (packaged run_id scenario_id snapshot parameters result)
    ]
  ]

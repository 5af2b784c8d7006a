-- ===== src/Alternatives/Search.antt =====
-- app/services/alternatives.py: `search_alternative`.
use piggyon.Base.{
  ℕ, Option, none, some, List, [], ◌∷◌, map, String, ◌==◌, contains, is_empty, sort_by, text_le,
  if◌then◌else◌,
}
use piggyon.ReasonCodes.{
  Verdict, because, alternative_requires_forbidden_change, alternative_not_required,
  alternative_available, no_feasible_alternative,
}
use piggyon.Snapshot.{ForbiddenAdjustment, ScenarioInputSnapshot}
use piggyon.Eligibility.{evaluate_scenario}
use piggyon.Eligibility.Types.{ScenarioEvaluation}
use piggyon.Baseline.{SolverParameters, Assignment, OrderOutcome, available, SolveResult}
use piggyon.Baseline.Cp.{CpSolver}
use piggyon.Baseline.Solve.{solve_baseline}
use piggyon.Validator.{ValidatorStatus, validate_plan, plan_raises}
use piggyon.Planning.{OutcomeDocument, as_document, Run, ValidationResult, build_validation_result}
use piggyon.Alternatives.Changes.{
  AdjustmentType, Change, ChangeSet, changes, policy_violation, ambiguous_alternative,
  build_change_set,
}
use piggyon.Alternatives.Derive.{derive_snapshot}
use piggyon.Alternatives.Deltas.{AssignmentDelta, assignment_deltas, distinct_ids}

-- the fields of an `AlternativeOutcome` that are set when one is found
pub record Found : Type 0 where
  pub change_set : List Change
  pub alternative_scenario_id : String
  pub alternative_run_id : String
  pub alternative_snapshot : ScenarioInputSnapshot
  pub alternative_run : Run
  pub impacted_order_ids : List String
  pub assignment_deltas : List AssignmentDelta
  pub alternative_run_order_outcome : OutcomeDocument
  pub validator_status : ValidatorStatus
  pub alternative_validation : ValidationResult

-- What is returned, or what is raised: `raised` is an exception that no caller handles.
pub data SearchResult : Type 0 where
  found : Found → SearchResult
  not_found : List Change → Verdict → SearchResult
  refused : List ForbiddenAdjustment → SearchResult
  ambiguous : String → List String → SearchResult
  raised : SearchResult

abbrev pub verdict_on : Option OrderOutcome → Verdict
verdict_on none = because no_feasible_alternative
verdict_on (some o) = o.primary_reason_code

-- `next((o for o in order_outcomes if o.order_id == order_id), None)`
unfoldable pub first_outcome : String → List OrderOutcome → Option OrderOutcome
first_outcome id [] = none
first_outcome id (o ∷ os) = if o.order_id == id then some o else first_outcome id os

-- the two lines on `target_outcome`
abbrev pub made_available : OrderOutcome → OrderOutcome
made_available o = record {
  order_id = o.order_id;
  input_state = o.input_state;
  eligibility_state = o.eligibility_state;
  assignment_state = o.assignment_state;
  alternative_state = available;
  primary_reason_code = because alternative_available;
  evidence = o.evidence;
  next_actions = o.next_actions;
}

-- The outcomes with the target's changed in its place.
unfoldable pub mark_first : String → List OrderOutcome → List OrderOutcome
mark_first id [] = []
mark_first id (o ∷ os) =
    let rest = mark_first id os in if o.order_id == id then made_available o ∷ os else o ∷ rest

module _ (solve : CpSolver) (clock : ℕ → ℕ) (parameters : SolverParameters)
    (scenario_id run_id order_id : String) (baseline_run : Run) (change_set : List Change) where
  unfoldable pub found_with :
      ScenarioInputSnapshot
      → ScenarioEvaluation
      → SolveResult
      → List AssignmentDelta
      → OrderOutcome
      → Found
  unfolding mark_first validate_plan build_validation_result distinct_ids sort_by
  found_with derived evaluation result deltas target =
      let validation =
        validate_plan derived result.assignments result.order_outcomes
          (some derived.baseline_service_ids) in
      record {
        change_set = change_set;
        alternative_scenario_id = scenario_id;
        alternative_run_id = run_id;
        alternative_snapshot = derived;
        alternative_run = record {
          run_id = run_id;
          scenario_id = scenario_id;
          parent_run_id = some baseline_run.run_id;
          solver_status = result.solver_status;
          run_state = result.run_state;
          is_optimal = result.is_optimal;
          validator_status = validation.status;
          validator_findings = validation.findings;
          solver_parameters = parameters;
          assignments = result.assignments;
          order_outcomes = map as_document (mark_first order_id result.order_outcomes);
          objective_values = result.objective_values;
        };
        impacted_order_ids =
            sort_by text_le (distinct_ids (map (λ (d : AssignmentDelta). d.order_id) deltas));
        assignment_deltas = deltas;
        alternative_run_order_outcome = as_document (made_available target);
        validator_status = validation.status;
        alternative_validation = build_validation_result scenario_id evaluation;
      }

  -- From the result of the derived solve on.
  unfoldable pub judge : ScenarioInputSnapshot → ScenarioEvaluation → SolveResult → SearchResult
  unfolding contains first_outcome found_with assignment_deltas
  judge derived evaluation result =
      let target = first_outcome order_id result.order_outcomes in
      let deltas = assignment_deltas baseline_run.assignments result.assignments in
      if contains order_id (map (λ (a : Assignment). a.order_id) result.assignments)
      then if is_empty deltas
        then not_found change_set (because alternative_not_required)
        else elim target [
          | none ↦ raised
          | some o ↦ found (found_with derived evaluation result deltas o)
        ]
      else not_found change_set (verdict_on target)

  -- The derived scenario is evaluated and solved. All other orders stay on the original services.
  unfoldable pub explore :
      ScenarioInputSnapshot → ScenarioInputSnapshot → List String → SearchResult
  unfolding judge evaluate_scenario solve_baseline plan_raises
  explore snapshot derived order_services =
      elim (evaluate_scenario derived (some snapshot.baseline_service_ids)
        ((order_id, order_services) ∷ [])) [
          | none ↦ raised
          | some evaluation ↦ elim (solve_baseline solve clock parameters derived evaluation) [
            | none ↦ raised
            | some result ↦
                if plan_raises derived result.assignments
                then raised
                else judge derived evaluation result
          ]
        ]

module _ (solve : CpSolver) (clock : ℕ → ℕ) (parameters : SolverParameters)
    (scenario_id run_id order_id : String) (baseline_run : Run) where
  unfoldable pub search_changes : ScenarioInputSnapshot → ChangeSet → SearchResult
  unfolding derive_snapshot explore
  search_changes snapshot (policy_violation forbidden) = refused forbidden
  search_changes snapshot (ambiguous_alternative id terminal_ids) = ambiguous id terminal_ids
  search_changes snapshot (changes []) =
      not_found [] (because alternative_requires_forbidden_change)
  search_changes snapshot (changes (c ∷ cs)) =
      elim (derive_snapshot snapshot scenario_id order_id (c ∷ cs)) [
        | none ↦ raised
        | some derivation ↦
            explore solve clock parameters scenario_id run_id order_id baseline_run (c ∷ cs)
              snapshot derivation.0 derivation.1
      ]

  unfoldable pub search_alternative : ScenarioInputSnapshot → List AdjustmentType → SearchResult
  unfolding build_change_set search_changes
  search_alternative snapshot adjustment_types =
      search_changes snapshot (build_change_set snapshot order_id adjustment_types)

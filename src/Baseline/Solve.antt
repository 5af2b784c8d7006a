-- ===== src/Baseline/Solve.antt =====
-- app/solver/baseline.py: `solve_baseline`, from the candidates to the result.
use piggyon.Base.{
  ℕ, Bool, not, ◌&&◌, ◌||◌, Option, none, some, List, [], ◌∷◌, ◌++◌, map, ◌==◌, text_lt, text_le,
  is_empty, sort_by, if◌then◌else◌,
}
use piggyon.Base.Dict.{Dict, put, values}
use piggyon.Base.Int.{pos}
use piggyon.Snapshot.{ScenarioInputSnapshot}
use piggyon.Eligibility.Types.{Candidate, ScenarioEvaluation}
use piggyon.Baseline.{
  SolverParameters, Assignment, SolverStatus, error, run_state_by_solver_status, run_error,
  solved_optimal, model_infeasible, SolveResult,
}
use piggyon.Baseline.Cp.{
  Valuation, pinned, CpStatus, usable, unknown, model_invalid, CpSolver, Answer,
}
use piggyon.Baseline.Outcomes.{build_outcomes}
use piggyon.Baseline.Stages.{Progress, request, refine, is_optimal}
use piggyon.Baseline.Problem.{
  all_candidates, variable, all_known, coefficients_fit, base_constraints,
}
use piggyon.Baseline.Objectives.{first_stage, scores_fit, refinements}

-- `if best[(c.order_id, c.slot_id)]: assignment_by_order[c.order_id] = c`
unfoldable pub chosen_into : Valuation → List Candidate → Dict Candidate → Dict Candidate
unfolding put
chosen_into best [] plan = plan
chosen_into best (c ∷ cs) plan =
    chosen_into best cs (if best (variable c) then put c.order_id c plan else plan)

-- the key `(order_id, service_id, wagon_id, slot_id)`
unfoldable pub candidate_le : Candidate → Candidate → Bool
candidate_le a b =
    text_lt a.order_id b.order_id
    || a.order_id == b.order_id
      && (text_lt a.service_id b.service_id
          || a.service_id == b.service_id
            && (text_lt a.wagon_id b.wagon_id
                || a.wagon_id == b.wagon_id && text_le a.slot_id b.slot_id))

abbrev pub to_assignment : Candidate → Assignment
to_assignment c = record {
  order_id = c.order_id;
  service_id = c.service_id;
  wagon_id = c.wagon_id;
  slot_id = c.slot_id;
}

unfoldable pub plan_assignments : Dict Candidate → List Assignment
unfolding candidate_le
plan_assignments plan = map to_assignment (sort_by candidate_le (values plan))

-- `_errored`
abbrev pub errored : SolveResult
errored = record {
  solver_status = error;
  run_state = run_error;
  is_optimal = Bool.false;
  assignments = [];
  order_outcomes = [];
  objective_values = [];
}

-- `_infeasible`
abbrev pub infeasible_result : ScenarioEvaluation → SolveResult
infeasible_result evaluation = record {
  solver_status = SolverStatus.infeasible;
  run_state = model_infeasible;
  is_optimal = Bool.false;
  assignments = [];
  order_outcomes = build_outcomes evaluation [];
  objective_values = [];
}

-- the return for no candidates
abbrev pub empty_result : ScenarioEvaluation → SolveResult
empty_result evaluation = record {
  solver_status = SolverStatus.optimal;
  run_state = solved_optimal;
  is_optimal = Bool.true;
  assignments = [];
  order_outcomes = build_outcomes evaluation [];
  objective_values = ("assigned_count", pos 0) ∷ ("priority_score", pos 0) ∷ [];
}

-- What follows the stages.
unfoldable pub solved : ScenarioEvaluation → Option Progress → SolveResult
unfolding chosen_into plan_assignments
solved evaluation none = infeasible_result evaluation
solved evaluation (some p) =
    let plan = chosen_into p.best (all_candidates evaluation) [] in
    let solver_status = if p.stages_optimal then SolverStatus.optimal else SolverStatus.feasible in
    record {
      solver_status = solver_status;
      run_state = run_state_by_solver_status solver_status;
      is_optimal = p.stages_optimal;
      assignments = plan_assignments plan;
      order_outcomes = build_outcomes evaluation plan;
      objective_values = p.objective_values;
    }

module _ (solve : CpSolver) (clock : ℕ → ℕ) (parameters : SolverParameters)
    (snapshot : ScenarioInputSnapshot) (evaluation : ScenarioEvaluation) where
  -- The first call: the budget's start is reading 0, its own reading is 1.
  abbrev pub first_answer : Answer
  first_answer = solve 0 (
      request solve clock parameters (first_stage snapshot (all_candidates evaluation))
        (base_constraints snapshot (all_candidates evaluation)) 1)

  -- The state after the first stage.
  abbrev pub first_progress : Progress
  first_progress = record {
    constraints =
        base_constraints snapshot (all_candidates evaluation)
        ++ pinned (first_stage snapshot (all_candidates evaluation)).expression
            first_answer.objective_value
          ∷ [];
    stages_optimal = is_optimal first_answer.status;
    best = first_answer.solution;
    objective_values = ("assigned_count", first_answer.objective_value) ∷ [];
    readings = 2;
    calls = 1;
  }

  unfoldable pub solve_from : CpStatus → SolveResult
  unfolding solved refinements
  solve_from CpStatus.infeasible = infeasible_result evaluation
  solve_from unknown = errored
  solve_from model_invalid = errored
  solve_from _ = solved evaluation (
      refine solve clock parameters (refinements snapshot (all_candidates evaluation))
        first_progress)

  -- No exception: all orders and wagons are known, the numbers of the constraints fit into the model,
  -- and those of the objectives do, where these are reached.
  abbrev pub posable : Bool
  posable =
      all_known snapshot (all_candidates evaluation)
      && (coefficients_fit snapshot (all_candidates evaluation)
          && (not (usable first_answer.status) || scores_fit snapshot (all_candidates evaluation)))

  -- `none` where building the model raises.
  unfoldable pub solve_baseline : Option SolveResult
  unfolding solve_from all_known coefficients_fit
  solve_baseline =
      if is_empty (all_candidates evaluation)
      then some (empty_result evaluation)
      else if posable
      then some (solve_from first_answer.status)
      else none

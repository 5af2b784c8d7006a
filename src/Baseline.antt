-- ===== src/Baseline.antt =====
-- app/solver/baseline.py: the data of a solve. The children hold the constraint model with the
-- interface of CP-SAT, the stages, the outcomes and the whole solve.
pub mod Cp
pub mod Outcomes
pub mod Stages
pub mod Problem
pub mod Objectives
pub mod Solve
pub mod Lexicographic
pub mod Feasible
pub mod Magnitude
pub mod Limits
pub mod Plan
pub mod Results
use piggyon.Base.{ℕ, Bool, List, String}
use piggyon.Base.Dict.{Dict}
use piggyon.Base.Int.{ℤ}
use piggyon.ReasonCodes.{Code, Verdict}
use piggyon.Eligibility.Types.{InputState, EligibilityState, ServiceEvidence}

pub record SolverParameters : Type 0 where
  pub random_seed : ℕ
  pub num_search_workers : ℕ
  pub max_time_seconds : ℕ

pub record Assignment : Type 0 where
  pub order_id : String
  pub service_id : String
  pub wagon_id : String
  pub slot_id : String

pub data AssignmentState : Type 0 where
  assigned unassigned not_applicable : AssignmentState

pub data AlternativeState : Type 0 where
  not_searched available no_alternative : AlternativeState

pub data NextAction : Type 0 where
  complete_required_fields correct_input_values review_alternative review_next_service : NextAction

-- the `evidence` dictionaries that `_build_outcomes` writes
pub data OutcomeEvidence : Type 0 where
  missing : List String → OutcomeEvidence
  reasons : List Code → OutcomeEvidence
  reasons_by_service : List Code → Dict ServiceEvidence → OutcomeEvidence
  eligible_slots : List String → OutcomeEvidence

pub record OrderOutcome : Type 0 where
  pub order_id : String
  pub input_state : InputState
  pub eligibility_state : EligibilityState
  pub assignment_state : AssignmentState
  pub alternative_state : AlternativeState
  pub primary_reason_code : Verdict
  pub evidence : OutcomeEvidence
  pub next_actions : List NextAction

pub data SolverStatus : Type 0 where
  optimal feasible infeasible error : SolverStatus

pub data RunState : Type 0 where
  solved_optimal solved_feasible model_infeasible run_error : RunState

-- `_RUN_STATE_BY_SOLVER_STATUS`
abbrev pub run_state_by_solver_status : SolverStatus → RunState
run_state_by_solver_status optimal = solved_optimal
run_state_by_solver_status feasible = solved_feasible
run_state_by_solver_status infeasible = model_infeasible
run_state_by_solver_status error = run_error

pub record SolveResult : Type 0 where
  pub solver_status : SolverStatus
  pub run_state : RunState
  pub is_optimal : Bool
  pub assignments : List Assignment
  pub order_outcomes : List OrderOutcome
  pub objective_values : Dict ℤ

-- ===== src/Baseline/Stages.antt =====
-- app/solver/baseline.py: the lexicographic solve. Each stage is optimised and then pinned.
-- Times are milliseconds; `clock n` is the n-th reading of `time.monotonic()`.
use Prim.Native.Nat.{max}
use piggyon.Base.{
  ℕ, ◌+◌, ◌-◌, ◌*◌, Bool, true, false, ◌&&◌, Option, none, some, List, [], ◌∷◌, ◌++◌, String, leb,
  if◌then◌else◌,
}
use piggyon.Base.Dict.{Dict, put}
use piggyon.Base.Int.{ℤ}
use piggyon.Baseline.{SolverParameters}
use piggyon.Baseline.Cp.{
  Expr, Constraint, pinned, Valuation, CpStatus, optimal, feasible, infeasible, unknown,
  model_invalid, Request, Answer, CpSolver,
}

-- `_MIN_STAGE_SECONDS`, in milliseconds
abbrev pub min_stage_ms : ℕ
min_stage_ms = 50

-- An entry of `refinements`.
pub record Stage : Type 0 where
  pub name : Option String
  pub expression : Expr
  pub maximise : Bool

-- The variables of the solve that the stages change, with the readings of the clock and the calls
-- of the solver so far.
pub record Progress : Type 0 where
  pub constraints : List Constraint
  pub stages_optimal : Bool
  pub best : Valuation
  pub objective_values : Dict ℤ
  pub readings : ℕ
  pub calls : ℕ

pub data StepResult : Type 0 where
  no_solution : StepResult
  halt : Progress → StepResult
  advance : Progress → StepResult

abbrev pub is_optimal : CpStatus → Bool
is_optimal optimal = true
is_optimal _ = false

abbrev pub record_value : Option String → ℤ → Dict ℤ → Dict ℤ
record_value none value values = values
record_value (some name) value values = put name value values

module _ (solve : CpSolver) (clock : ℕ → ℕ) (parameters : SolverParameters) where
  -- `_Budget`: the deadline is set at the first reading.
  abbrev pub deadline : ℕ
  deadline = clock 0 + parameters.max_time_seconds * 1000

  -- `remaining() <= _MIN_STAGE_SECONDS`
  unfoldable pub exhausted : ℕ → Bool
  exhausted reading = leb deadline (clock reading + min_stage_ms)

  -- The request of `_optimise`. `max(0.05, remaining)`: a negative rest is below the minimum.
  unfoldable pub request : Stage → List Constraint → ℕ → Request
  request stage constraints reading = record {
    constraints = constraints;
    objective = stage.expression;
    maximise = stage.maximise;
    random_seed = parameters.random_seed;
    num_search_workers = parameters.num_search_workers;
    max_time_ms = max min_stage_ms (deadline - clock reading);
  }

  -- The solution is kept as `best`, and the value is pinned.
  unfoldable pub accept : Stage → Progress → Answer → Progress
  accept stage p answer = record {
    constraints = p.constraints ++ pinned stage.expression answer.objective_value ∷ [];
    stages_optimal = p.stages_optimal && is_optimal answer.status;
    best = answer.solution;
    objective_values = record_value stage.name answer.objective_value p.objective_values;
    readings = p.readings + 2;
    calls = p.calls + 1;
  }

  unfoldable pub stopped : Progress → Progress
  stopped p = record p { stages_optimal = false }

  unfoldable pub answered : Stage → Progress → Answer → CpStatus → StepResult
  unfolding accept stopped
  answered stage p answer infeasible = no_solution
  answered stage p answer optimal = advance (accept stage p answer)
  answered stage p answer feasible = advance (accept stage p answer)
  answered stage p answer unknown = halt (stopped p)
  answered stage p answer model_invalid = halt (stopped p)

  -- One round of `for name, expression, maximise in refinements`.
  unfoldable pub step : Stage → Progress → StepResult
  unfolding exhausted request answered
  step stage p =
      if exhausted p.readings
      then halt (stopped p)
      else (let answer = solve p.calls (request stage p.constraints (p.readings + 1)) in
          answered stage p answer answer.status)

  -- The loop; `none` is the early return of `_infeasible`.
  unfoldable pub refine : List Stage → Progress → Option Progress
  unfolding step
  refine [] p = some p
  refine (stage ∷ stages) p = elim (step stage p) [
    | no_solution ↦ none
    | halt p' ↦ some p'
    | advance p' ↦ refine stages p'
  ]

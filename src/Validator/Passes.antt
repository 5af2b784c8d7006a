-- ===== src/Validator/Passes.antt =====
-- app/services/planning.py runs the re-check on what the solver returns: it passes, and each
-- assignment uses a service that its order was offered.
use mathlib.Core.List.Memᴰ
use piggyon.Base.{ℕ, ◌≡◌, sym, ap, ◌∙◌, subst, Option, some, List, [], String, Memᴰ}
use piggyon.Base.Dict.{Dict}
use piggyon.Snapshot.{Order, ScenarioInputSnapshot}
use piggyon.Snapshot.Resolved.{IsResolved, Within}
use piggyon.Eligibility.{evaluate_with, evaluate_scenario}
use piggyon.Eligibility.Types.{ScenarioEvaluation}
use piggyon.Eligibility.Lookup.{Index}
use piggyon.Eligibility.Groups.{IsIndexOf, evaluate_scenario-eq-some}
use piggyon.Baseline.{SolverParameters, Assignment, SolveResult}
use piggyon.Baseline.Cp.{CpSolver, IsSound}
use piggyon.Baseline.Problem.{all_candidates}
use piggyon.Baseline.Solve.{solve_baseline}
use piggyon.Baseline.Plan.{mem-plan_assignments}
use piggyon.Baseline.Results.{IsResult, solve_baseline-IsResult}
use piggyon.Validator.{pass, permitted_of, validate_plan}
use piggyon.Validator.Placement.{ids_for, owner_of}
use piggyon.Validator.Agreement.{result_passes}

no_member : {a : Assignment} {plan : List Assignment} → plan ≡ [] → Memᴰ a plan → ⊥
no_member e m = Memᴰ.not-nil (rw e at m)

-- The re-check passes every result of a sound solver: over a resolved snapshot whose orders are
-- evaluated on services within the permitted ones, the validator, which shares no rule with the gate and none with the
-- constraints, has no finding.
pub validate_plan-solve_baseline :
    (solve : CpSolver) (clock : ℕ → ℕ) (parameters : SolverParameters) (s : ScenarioInputSnapshot)
    (ids : Option (List String)) (per_order : Dict (List String)) (allowed : Option (List String))
    (evaluation : ScenarioEvaluation) (result : SolveResult)
    → IsSound solve
    → IsResolved s
    → ((order : Order)
        → Memᴰ order s.orders
        → Within (ids_for s ids per_order order) (permitted_of allowed s.baseline_service_ids))
    → evaluate_scenario s ids per_order ≡ some evaluation
    → solve_baseline solve clock parameters s evaluation ≡ some result
    → (validate_plan s result.assignments result.order_outcomes allowed).status ≡ pass
validate_plan-solve_baseline solve clock parameters s ids per_order allowed evaluation result sound
      r scope evaluated solved =
    let (index, ix, same) = evaluate_scenario-eq-some s ids per_order evaluated in
    result_passes s ids per_order index r ix allowed scope result
      (rw same at (solve_baseline-IsResult solve clock parameters sound s evaluation result solved))

-- Over a resolved snapshot and a sound solver, every assignment of a result is of an order of the
-- snapshot and uses a service that this order was evaluated on.
pub solve_baseline-offered :
    (solve : CpSolver) (clock : ℕ → ℕ) (parameters : SolverParameters) (s : ScenarioInputSnapshot)
    (ids : Option (List String)) (per_order : Dict (List String)) (evaluation : ScenarioEvaluation)
    (result : SolveResult) (a : Assignment)
    → IsSound solve
    → IsResolved s
    → evaluate_scenario s ids per_order ≡ some evaluation
    → solve_baseline solve clock parameters s evaluation ≡ some result
    → Memᴰ a result.assignments
    → (order : Order) × Memᴰ order s.orders
      × (order.order_id ≡ a.order_id)
      × Memᴰ a.service_id (ids_for s ids per_order order)
solve_baseline-offered solve clock parameters s ids per_order evaluation result a sound r evaluated
      solved m =
    let (index, ix, same) = evaluate_scenario-eq-some s ids per_order evaluated in
    go index ix
      (rw same at (solve_baseline-IsResult solve clock parameters sound s evaluation result solved))
  where
    go :
        (index : Index)
        → IsIndexOf s index
        → IsResult s (evaluate_with s ids per_order index) result
        → (order : Order) × Memᴰ order s.orders
          × (order.order_id ≡ a.order_id)
          × Memᴰ a.service_id (ids_for s ids per_order order)
    go index ix (IsResult.nothing_to_place none_left same) =
        absurd (no_member (ap (λ (r : SolveResult). r.assignments) same) m)
    go index ix (IsResult.unproved same) =
        absurd (no_member (ap (λ (r : SolveResult). r.assignments) same) m)
    go index ix (IsResult.contradicted same inexact) =
        absurd (no_member (ap (λ (r : SolveResult). r.assignments) same) m)
    go index ix (IsResult.planned p) =
        let (c, entry, mc, same) =
          mem-plan_assignments p.valuation (all_candidates (evaluate_with s ids per_order index)) a
            (rw p.assignments_eq at m) in
        let (order, listed, f) = owner_of s ids per_order index r ix c entry.candidate in
        (
          order,
          listed,
          sym f.same_order ∙ sym (ap (λ (a : Assignment). a.order_id) same),
          subst (λ (id : String). Memᴰ id (ids_for s ids per_order order))
              (sym (ap (λ (a : Assignment). a.service_id) same)) f.offered,
        )

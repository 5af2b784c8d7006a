-- ===== src/Alternatives/Storable.antt =====
-- What app/routers/runs.py needs of an alternative to store it: the derived scenario can be used
-- again, and its run is a result.
use mathlib.Core.List.Memᴰ
use piggyon.Base.{
  ℕ, ◌≡◌, ◌≢◌, refl, sym, ap, ◌∙◌, subst, inl, inr, Bool, true, false, Option, some, none, List, [],
  ◌∷◌, map, String, Memᴰ, Bool-cases, is_empty, if◌then◌else◌, mem-sort_by_of_mem, text_le, sort_by,
}
use piggyon.Snapshot.{ScenarioInputSnapshot}
use piggyon.Snapshot.Resolved.{IsResolved}
use piggyon.Eligibility.Types.{ScenarioEvaluation}
use piggyon.Baseline.{
  SolverParameters, SolverStatus, run_error, run_state_by_solver_status, Assignment, SolveResult,
}
use piggyon.Baseline.Cp.{CpSolver, CpStatus, unknown, model_invalid, IsSound}
use piggyon.Baseline.Cp
use piggyon.Baseline.Problem.{all_candidates}
use piggyon.Baseline.Stages.{Progress}
use piggyon.Baseline.Solve.{posable, solved, solve_from, solve_baseline}
use piggyon.Baseline.Results.{IsResult, solve_baseline-IsResult}
use piggyon.Planning.{Run}
use piggyon.Alternatives.Changes.{AdjustmentType, Change}
use piggyon.Alternatives.Deltas.{AssignmentDelta, distinct_ids}
use piggyon.Alternatives.Differences.{mem-distinct_ids_of}
use piggyon.Alternatives.Search.{Found, found, found_with, search_alternative}
use piggyon.Alternatives.Verified.{IsSearched, judge-IsFoundWith, found-IsSearched}

some-eq : {r q : SolveResult} → some r ≡ some q → q ≡ r
some-eq h = cc

none≢some : {r : SolveResult} → none ≡ some r → ⊥
none≢some h = cc

-- A result's two states agree.
abbrev pub Agrees : SolveResult → Type 0
Agrees r = r.run_state ≡ run_state_by_solver_status r.solver_status

module _ (solve : CpSolver) (clock : ℕ → ℕ) (parameters : SolverParameters)
    (s : ScenarioInputSnapshot) (evaluation : ScenarioEvaluation) where
  solved-Agrees : (o : Option Progress) → Agrees (solved evaluation o)
  unfolding solved
  solved-Agrees none = refl
  solved-Agrees (some p) = refl

  solve_from-Agrees :
      (status : CpStatus) → Agrees (solve_from solve clock parameters s evaluation status)
  unfolding solve_from
  solve_from-Agrees Cp.infeasible = refl
  solve_from-Agrees unknown = refl
  solve_from-Agrees model_invalid = refl
  solve_from-Agrees Cp.optimal = solved-Agrees _
  solve_from-Agrees Cp.feasible = solved-Agrees _

  pub solve_baseline-Agrees :
      (r : SolveResult) → solve_baseline solve clock parameters s evaluation ≡ some r → Agrees r
  unfolding solve_baseline
  solve_baseline-Agrees r e = elim (Bool-cases (is_empty (all_candidates evaluation))) [
    | inl none_left ↦ rw (some-eq (rw (none_left, solve_baseline) at e)) refl
    | inr some_left ↦ elim (Bool-cases (posable solve clock parameters s evaluation)) [
      | inl known ↦ rw (some-eq (rw (some_left, solve_baseline, known) at e)) (solve_from-Agrees _)
      | inr lacking ↦ absurd (none≢some (rw (some_left, solve_baseline, lacking) at e))
    ]
  ]

placed-nonempty :
    (r : SolveResult) {x : String}
    → r.assignments ≡ []
    → Memᴰ x (map (λ (a : Assignment). a.order_id) r.assignments)
    → ⊥
placed-nonempty r {x} e m =
    Memᴰ.not-nil
      (subst (λ (plan : List Assignment). Memᴰ x (map (λ (a : Assignment). a.order_id) plan)) e m)

planned_state :
    (b : Bool)
    → run_state_by_solver_status (if b then SolverStatus.optimal else SolverStatus.feasible)
      ≢ run_error
planned_state true h = cc
planned_state false h = cc

-- A result that places an order is not an error.
result_of_placed :
    (s : ScenarioInputSnapshot) (evaluation : ScenarioEvaluation) (r : SolveResult) {x : String}
    → IsResult s evaluation r
    → Agrees r
    → Memᴰ x (map (λ (a : Assignment). a.order_id) r.assignments)
    → r.run_state ≢ run_error
result_of_placed s evaluation r (IsResult.nothing_to_place none_left e) agrees m =
    absurd (placed-nonempty r (ap (λ (q : SolveResult). q.assignments) e) m)
result_of_placed s evaluation r (IsResult.unproved e) agrees m =
    absurd (placed-nonempty r (ap (λ (q : SolveResult). q.assignments) e) m)
result_of_placed s evaluation r (IsResult.contradicted e inexact) agrees m =
    absurd (placed-nonempty r (ap (λ (q : SolveResult). q.assignments) e) m)
result_of_placed s evaluation r (IsResult.planned p) agrees m = λ bad.
    planned_state r.is_optimal (sym (ap run_state_by_solver_status p.status) ∙ sym agrees ∙ bad)

-- What the store may rely on in an alternative.
pub record IsStorable (scenario_id run_id : String) (f : Found) : Type 0 where
  pub same_run_id : f.alternative_run.run_id ≡ run_id
  pub same_scenario_id : f.alternative_run.scenario_id ≡ scenario_id
  pub own_scenario_id : f.alternative_scenario_id ≡ scenario_id
  pub resolved : IsResolved f.alternative_snapshot
  pub served : f.alternative_snapshot.baseline_service_ids ≢ []
  pub has_result : f.alternative_run.run_state ≢ run_error
  pub impacted : f.impacted_order_ids ≢ []

impacted-nonempty :
    (deltas : List AssignmentDelta)
    → deltas ≢ []
    → sort_by text_le (distinct_ids (map (λ (d : AssignmentDelta). d.order_id) deltas)) ≢ []
impacted-nonempty [] n = absurd (n refl)
impacted-nonempty (d ∷ deltas) n = λ e. Memᴰ.not-nil (
    subst (λ ids. Memᴰ d.order_id ids) e
      (mem-sort_by_of_mem text_le _ (mem-distinct_ids_of _ (Memᴰ.head refl))))

module _ (solve : CpSolver) (clock : ℕ → ℕ) (parameters : SolverParameters)
    (scenario_id run_id order_id : String) (baseline_run : Run) (s : ScenarioInputSnapshot)
    (types : List AdjustmentType) (sound : IsSound solve) (r : IsResolved s)
    (some_left : s.baseline_service_ids ≢ []) where
  search-IsStorable :
      (cs : List Change) (f : Found)
      → IsSearched solve clock parameters s scenario_id run_id order_id baseline_run cs (found f)
      → IsStorable scenario_id run_id f
  unfolding found_with
  search-IsStorable cs f h =
      let w =
        judge-IsFoundWith solve clock parameters scenario_id run_id order_id baseline_run cs
          h.derived h.evaluation h.result f (sym h.answer_eq) in
      rw w.made (record {
        same_run_id = refl;
        same_scenario_id = refl;
        own_scenario_id = refl;
        resolved = h.is_derived.resolved;
        served = λ e. still_served s.baseline_service_ids some_left (λ x m. Memᴰ.cast refl (
            subst (λ ids. Memᴰ x ids) (sym h.is_derived.same_scope ∙ e)
              (h.is_derived.keeps_baseline x m)));
        has_result =
            result_of_placed h.derived h.evaluation h.result
              (solve_baseline-IsResult solve clock parameters sound h.derived h.evaluation h.result
                h.solved)
              (solve_baseline-Agrees solve clock parameters h.derived h.evaluation h.result
                h.solved)
              w.placed;
        impacted = impacted-nonempty _ w.differs;
      })
    where
      still_served : (ids : List String) → ids ≢ [] → ((x : String) → Memᴰ x ids → Memᴰ x []) → ⊥
      still_served [] n keeps = n refl
      still_served (x ∷ xs) n keeps = Memᴰ.not-nil (keeps x (Memᴰ.head refl))

  pub search_alternative-IsStorable :
      (f : Found)
      → search_alternative solve clock parameters scenario_id run_id order_id baseline_run s types
        ≡ found f
      → IsStorable scenario_id run_id f
  search_alternative-IsStorable f e =
      let (cs, h) =
        found-IsSearched solve clock parameters scenario_id run_id order_id baseline_run s types
          sound r some_left f e in
      search-IsStorable cs f h

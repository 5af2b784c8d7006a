-- ===== src/Baseline/Results.antt =====
-- What `solve_baseline` of app/solver/baseline.py can return over a sound solver.
use piggyon.Base.{
  ℕ, ◌≡◌, refl, sym, ◌∙◌, inl, inr, Bool, true, false, All, Option-cases, none, some, List, [], ◌∷◌,
  ◌++◌, map, String, arith, Bool-cases, is_empty, is_empty-nil, if◌then◌else◌, subst,
}
use piggyon.Base.Dict.{Dict}
use piggyon.Snapshot.{ScenarioInputSnapshot}
use piggyon.Eligibility.Types.{Candidate, ScenarioEvaluation}
use piggyon.Baseline.{
  SolverParameters, SolverStatus, RunState, run_state_by_solver_status, SolveResult,
}
use piggyon.Baseline.Cp.{
  Var, eval, at_most, pinned, Satisfies, Valuation, AsGood, weigh, CpStatus, optimal, feasible,
  infeasible, unknown, model_invalid, usable, Request, Answer, CpSolver, IsSound,
}
use piggyon.Baseline.Outcomes.{build_outcomes}
use piggyon.Baseline.Problem.{
  all_candidates, by_order, by_slot, by_wagon, order_limits, slot_limits, base_constraints,
}
use piggyon.Baseline.Objectives.{first_stage, refinements}
use piggyon.Baseline.Stages.{Progress, request, refine}
use piggyon.Baseline.Solve.{
  plan_assignments, errored, empty_result, infeasible_result, solved, first_answer, first_progress,
  posable, solve_from, solve_baseline,
}
use piggyon.Baseline.Lexicographic.{
  IsLexOptimal, Satisfies-append, Satisfies-split, Refined, Refines, refine-Refined, is_optimal-eq,
  StageExact,
}
use piggyon.Baseline.Feasible.{refine-Satisfies}
use piggyon.Base.Lookups.{some_inj, some-ne-none}
use piggyon.Baseline.Plan.{plan_of}

-- A double holds every value that an objective of the solve can take.
abbrev pub ObjectivesExact : ScenarioInputSnapshot → ScenarioEvaluation → Type 0
ObjectivesExact s evaluation =
    All StageExact
      (first_stage s (all_candidates evaluation) ∷ refinements s (all_candidates evaluation))

-- A result made from a valuation that meets every constraint.
pub record IsPlanned (snapshot : ScenarioInputSnapshot) (evaluation : ScenarioEvaluation)
    (r : SolveResult) : Type 0 where
  pub valuation : Valuation
  pub satisfied : Satisfies valuation (base_constraints snapshot (all_candidates evaluation))
  pub assignments_eq :
      r.assignments ≡ plan_assignments (plan_of valuation (all_candidates evaluation))
  pub outcomes_eq :
      r.order_outcomes ≡ build_outcomes evaluation (plan_of valuation (all_candidates evaluation))
  pub status :
      r.solver_status ≡ (if r.is_optimal then SolverStatus.optimal else SolverStatus.feasible)
  pub state :
      r.run_state ≡ (if r.is_optimal then RunState.solved_optimal else RunState.solved_feasible)
  pub lex_optimal :
      ObjectivesExact snapshot evaluation
      → r.is_optimal ≡ true
      → IsLexOptimal
          (base_constraints snapshot (all_candidates evaluation))
          (first_stage snapshot (all_candidates evaluation)
            ∷ refinements snapshot (all_candidates evaluation))
          valuation

-- No candidates; nothing proved in time; a plan; or, only where a value was rounded, no plan.
pub data IsResult (snapshot : ScenarioInputSnapshot) (evaluation : ScenarioEvaluation)
    (r : SolveResult) : Type 0 where
  nothing_to_place :
      all_candidates evaluation ≡ [] → r ≡ empty_result evaluation → IsResult snapshot evaluation r
  unproved : r ≡ errored → IsResult snapshot evaluation r
  planned : IsPlanned snapshot evaluation r → IsResult snapshot evaluation r
  contradicted :
      r ≡ infeasible_result evaluation
      → ¬ ObjectivesExact snapshot evaluation
      → IsResult snapshot evaluation r

planned_state :
    (b : Bool)
    → run_state_by_solver_status (if b then SolverStatus.optimal else SolverStatus.feasible)
      ≡ (if b then RunState.solved_optimal else RunState.solved_feasible)
planned_state true = refl
planned_state false = refl

some-eq : {A : Type 0} {x y : A} → some x ≡ some y → y ≡ x
some-eq h = cc

none≢some : {A : Type 0} {x : A} → none ≡ some x → ⊥
none≢some h = cc

abbrev pub nobody : Valuation
nobody x = false

weigh-nobody : (terms : List (Var × ℕ)) → weigh nobody terms ≡ 0
weigh-nobody [] = refl
weigh-nobody (t ∷ terms) = omega (arith, weigh-nobody terms)

limits-nobody :
    (term_of : String → Candidate → Var × ℕ) (bound : String → ℕ) (d : Dict (List Candidate))
    → Satisfies nobody
        (map (λ (e : String × List Candidate). at_most (map (term_of e.0) e.1) (bound e.0)) d)
limits-nobody term_of bound [] = tt
limits-nobody term_of bound (e ∷ d) =
    (omega (arith, weigh-nobody (map (term_of e.0) e.1)), limits-nobody term_of bound d)

-- To place nobody meets all constraints.
pub nobody-Satisfies :
    (s : ScenarioInputSnapshot) (cs : List Candidate) → Satisfies nobody (base_constraints s cs)
nobody-Satisfies s cs =
    Satisfies-append nobody (order_limits s cs) _ (limits-nobody _ (λ _. 1) (by_order cs)) (
      Satisfies-append nobody (slot_limits s cs) _ (limits-nobody _ (λ _. 1) (by_slot cs))
        (limits-nobody _ _ (by_wagon cs)))

module _ (solve : CpSolver) (clock : ℕ → ℕ) (parameters : SolverParameters) (sound : IsSound solve)
    (snapshot : ScenarioInputSnapshot) (evaluation : ScenarioEvaluation) where
  abbrev cs : List Candidate
  cs = all_candidates evaluation

  abbrev answer : Answer
  answer = first_answer solve clock parameters snapshot evaluation

  abbrev progress : Progress
  progress = first_progress solve clock parameters snapshot evaluation

  abbrev first_request : Request
  first_request =
      request solve clock parameters (first_stage snapshot cs) (base_constraints snapshot cs) 1

  within_limits :
      usable answer.status ≡ true → Satisfies progress.best (base_constraints snapshot cs)
  within_limits ok = unfold request in sound.solution_satisfies 0 first_request ok

  first_valued :
      usable answer.status ≡ true
      → StageExact (first_stage snapshot cs)
      → eval answer.solution (first_stage snapshot cs).expression ≡ answer.objective_value
  first_valued ok exact =
      unfold request in sound.value_is_objective 0 first_request ok (exact answer.solution)

  first_satisfied :
      usable answer.status ≡ true
      → StageExact (first_stage snapshot cs)
      → Satisfies progress.best progress.constraints
  first_satisfied ok exact =
      Satisfies-append answer.solution (base_constraints snapshot cs) _ (within_limits ok)
        (first_valued ok exact, tt)

  first_best :
      answer.status ≡ optimal
      → StageExact (first_stage snapshot cs)
      → (v : Valuation) → Satisfies v (base_constraints snapshot cs)
      → AsGood true answer.objective_value (eval v (first_stage snapshot cs).expression)
  first_best e exact v sat =
      subst (λ z. AsGood true z (eval v (first_stage snapshot cs).expression))
        (first_valued (rw e refl) exact)
        (unfold request in sound.optimal_is_best 0 first_request v e sat)

  -- The first stage and the loop after it, where a double holds every value.
  Refined-IsLexOptimal :
      (q : Progress)
      → Refined solve clock parameters sound (refinements snapshot cs) progress q
      → StageExact (first_stage snapshot cs)
      → q.stages_optimal ≡ true
      → IsLexOptimal
          (base_constraints snapshot cs)
          (first_stage snapshot cs ∷ refinements snapshot cs)
          q.best
  Refined-IsLexOptimal q h exact e =
      let (base, pin) = Satisfies-split q.best (base_constraints snapshot cs) _ h.satisfied in
      let (first, rest) = h.lex_optimal e in
      (
        λ v s. rw pin.0 (first_best (is_optimal-eq answer.status first) exact v s),
        subst
            (λ z.
              IsLexOptimal
                (base_constraints snapshot cs ++ pinned (first_stage snapshot cs).expression z ∷ [])
                (refinements snapshot cs) q.best)
            (sym pin.0) rest,
      )

  refines :
      usable answer.status ≡ true
      → ObjectivesExact snapshot evaluation
      → Refines solve clock parameters sound (refinements snapshot cs) progress
  refines ok exact =
      refine-Refined solve clock parameters sound (refinements snapshot cs) progress exact.1
        (first_satisfied ok exact.0)

  refined-IsPlanned :
      (q : Progress)
      → usable answer.status ≡ true
      → refine solve clock parameters (refinements snapshot cs) progress ≡ some q
      → IsPlanned snapshot evaluation (solved evaluation (some q))
  unfolding solved
  refined-IsPlanned q ok done = record {
    valuation = q.best;
    satisfied =
        refine-Satisfies solve clock parameters sound (base_constraints snapshot cs)
          (refinements snapshot cs) progress q
          (λ v k. (Satisfies-split v (base_constraints snapshot cs) _ k).0) (within_limits ok) done;
    assignments_eq = refl;
    outcomes_eq = refl;
    status = refl;
    state = planned_state q.stages_optimal;
    lex_optimal = λ exact e.
        let (p, at_end, good) = refines ok exact in
        let same : p ≡ q = some_inj (sym at_end ∙ done) in
        Refined-IsLexOptimal q
          (subst (Refined solve clock parameters sound (refinements snapshot cs) progress) same
            good)
          exact.0 e;
  }

  solved_IsResult :
      usable answer.status ≡ true
      → IsResult snapshot evaluation
          (solved evaluation (refine solve clock parameters (refinements snapshot cs) progress))
  unfolding solved
  solved_IsResult ok =
      elim (Option-cases (refine solve clock parameters (refinements snapshot cs) progress)) [
        | inl broken ↦ rw broken (
            IsResult.contradicted refl λ exact.
              let (p, at_end, good) = refines ok exact in
              some-ne-none {x = p} (sym at_end ∙ broken))
        | inr (q, done) ↦ rw done (IsResult.planned (refined-IsPlanned q ok done))
      ]

  solve_from-IsResult :
      (status : CpStatus)
      → answer.status ≡ status
      → IsResult snapshot evaluation (solve_from solve clock parameters snapshot evaluation status)
  unfolding solve_from
  solve_from-IsResult optimal e = solved_IsResult (rw e refl)
  solve_from-IsResult feasible e = solved_IsResult (rw e refl)
  solve_from-IsResult unknown e = IsResult.unproved refl
  solve_from-IsResult model_invalid e = IsResult.unproved refl
  solve_from-IsResult infeasible e = absurd (
      unfold request in
      sound.infeasible_has_none 0 first_request nobody e (nobody-Satisfies snapshot cs))

  -- Over a sound solver every result is one of four: nothing to place; nothing proved in time; a plan
  -- that meets every limit, with the state SOLVED_OPTIMAL or SOLVED_FEASIBLE; or MODEL_INFEASIBLE,
  -- and this only where some value of an objective is past 2^53 in size, so that a double rounds it.
  -- Where all values are within it, a plan that is reported as optimal is the lexicographic optimum.
  pub solve_baseline-IsResult :
      (r : SolveResult)
      → solve_baseline solve clock parameters snapshot evaluation ≡ some r
      → IsResult snapshot evaluation r
  unfolding solve_baseline
  solve_baseline-IsResult r e = elim (Bool-cases (is_empty cs)) [
    | inl none_left ↦
        IsResult.nothing_to_place (is_empty-nil cs none_left)
          (some-eq (rw (none_left, solve_baseline) at e))
    | inr some_left ↦ elim (Bool-cases (posable solve clock parameters snapshot evaluation)) [
      | inl known ↦
          rw (some-eq (rw (some_left, solve_baseline, known) at e))
            (solve_from-IsResult answer.status refl)
      | inr lacking ↦ absurd (none≢some (rw (some_left, solve_baseline, lacking) at e))
    ]
  ]

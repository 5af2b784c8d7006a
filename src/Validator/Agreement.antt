-- ===== src/Validator/Agreement.antt =====
-- The re-check of app/validation/plan_validator.py over the plans of app/solver/baseline.py.
use mathlib.Core.List.Memᴰ
use piggyon.Base.{
  ◌≤◌, ◌≡◌, ◌≢◌, refl, sym, ap, ◌∙◌, inl, inr, true, Option, none, some, List, [], ◌∷◌, map, String,
  ◌==◌, eq_iff, Memᴰ, arith, contains, contains→mem, mem→contains, flat_map, flat_map-nil,
  nil-append, index_by_sound, unique_by_name, IsUnique, Option-cases, if◌then◌else◌, sum_over,
  sort_by, select,
}
use piggyon.Base.Dict.{Dict, get, get→mem, index_by}
use piggyon.Snapshot.{Order, Wagon, ScenarioInputSnapshot}
use piggyon.Snapshot.Resolved.{IsResolved, Within}
use piggyon.Eligibility.{evaluate_order, evaluate_with}
use piggyon.Eligibility.Types.{Candidate, OrderEvaluation, ScenarioEvaluation}
use piggyon.Eligibility.Lookup.{Index}
use piggyon.Eligibility.Candidates.{candidates-Fits_iff}
use piggyon.Eligibility.Verdicts.{evaluate_order-IsVerdict, order_id-evaluate_order}
use piggyon.Eligibility.Groups.{IsIndexOf}
use piggyon.Baseline.{Assignment, OrderOutcome, SolveResult}
use piggyon.Baseline.Cp.{Valuation, Satisfies}
use piggyon.Baseline.Outcomes.{build_outcomes}
use piggyon.Baseline.Problem.{all_candidates, first_wagon, order_table, weight_of, base_constraints}
use piggyon.Baseline.Solve.{chosen_into, plan_assignments}
use piggyon.Baseline.Limits.{order_once, slot_once, wagon_load}
use piggyon.Baseline.Plan.{plan_of, IsEntry-of_mem, mem-plan_assignments, sum_over-assignments}
use piggyon.Baseline.Results.{nobody, nobody-Satisfies, IsResult}
use piggyon.Validator.{
  pass, uniqueness_from, load_into, unreported, check_uniqueness, check_wagon_capacity,
  check_outcome_consistency, tables_of, permitted_of, plan_findings, validate_plan,
}
use piggyon.Validator.Checks.{check_assignment}
use piggyon.Validator.Placement.{ids_for, owner_of, check_assignment-nil}
use piggyon.Validator.Sums.{check_uniqueness-nil, check_wagon_capacity-nil}
use piggyon.Validator.Outcomes.{Matches, mem→get, mem-assignments, check_outcome_consistency-nil}

-- The first wagon of a name is the only one.
first_wagon_of_mem :
    {w : Wagon} (ws : List Wagon)
    → IsUnique (map (λ (x : Wagon). x.wagon_id) ws)
    → Memᴰ w ws
    → first_wagon w.wagon_id ws ≡ some w
unfolding first_wagon
first_wagon_of_mem [] u m = elim m [ ]
first_wagon_of_mem {w} (x ∷ ws) u (Memᴰ.head e) =
    rw e (ground (arith, eq_iff x.wagon_id x.wagon_id))
first_wagon_of_mem {w} (x ∷ ws) u (Memᴰ.tail m) =
    let seen : contains w.wagon_id (map (λ (x : Wagon). x.wagon_id) ws) ≡ true =
      mem→contains (Memᴰ.map (λ (x : Wagon). x.wagon_id) m) in
    ground (arith, eq_iff x.wagon_id w.wagon_id, first_wagon_of_mem ws u.1 m)

-- What the table of wagons answers is the first wagon of the name.
pub first_wagon_of_id :
    (s : ScenarioInputSnapshot)
    → IsResolved s
    → (id : String) {w : Wagon} → index_by (λ (x : Wagon). x.wagon_id) s.wagons id ≡ some w
    → first_wagon id s.wagons ≡ some w
first_wagon_of_id s r id found =
    let (m, key) = index_by_sound (λ (w : Wagon). w.wagon_id) s.wagons id found in
    rw (← key) (first_wagon_of_mem s.wagons r.unique_wagons m)

nobody_chosen : (cs : List Candidate) → chosen_into nobody cs [] ≡ []
unfolding chosen_into
nobody_chosen [] = refl
nobody_chosen (c ∷ cs) = nobody_chosen cs

no_assignments : plan_assignments [] ≡ []
unfolding plan_assignments sort_by
no_assignments = refl

nothing-nil :
    (s : ScenarioInputSnapshot) (allowed : Option (List String))
    → plan_findings s [] [] allowed ≡ []
unfolding plan_findings check_uniqueness uniqueness_from check_wagon_capacity load_into
    check_outcome_consistency flat_map unreported select sort_by
nothing-nil s allowed = refl

module _ (s : ScenarioInputSnapshot) (ids : Option (List String)) (per_order : Dict (List String))
    (index : Index) (r : IsResolved s) (ix : IsIndexOf s index) where
  abbrev evaluation : ScenarioEvaluation
  evaluation = evaluate_with s ids per_order index

  abbrev cs : List Candidate
  cs = all_candidates evaluation

  abbrev evaluated : Order → OrderEvaluation
  evaluated order = evaluate_order order index (ids_for s ids per_order order)

  evaluated-mem :
      (order : Order) → Memᴰ order s.orders → Memᴰ (evaluated order) evaluation.evaluations
  unfolding evaluate_with
  evaluated-mem order m = Memᴰ.map evaluated m

  mem-evaluated :
      (e : OrderEvaluation)
      → Memᴰ e evaluation.evaluations
      → (order : Order) × Memᴰ order s.orders × (evaluated order ≡ e)
  unfolding evaluate_with
  mem-evaluated e m = Memᴰ.of_map evaluated s.orders m

  -- The candidates of an order's name are among the order's own.
  own_candidate :
      (order : Order) (c : Candidate)
      → Memᴰ order s.orders
      → Memᴰ c cs
      → c.order_id ≡ order.order_id
      → Memᴰ c (evaluated order).candidates
  own_candidate order c listed m e =
      let (owner, owner_listed, f) = owner_of s ids per_order index r ix c m in
      let same : owner ≡ order =
        unique_by_name (λ (o : Order). o.order_id) s.orders r.unique_orders owner_listed listed
          (sym f.same_order ∙ e) in
      rw (← same) ((candidates-Fits_iff owner index (ids_for s ids per_order owner) c).1 f)

  module _ (v : Valuation) (sat : Satisfies v (base_constraints s cs)) where
    abbrev plan : Dict Candidate
    plan = plan_of v cs

    abbrev assignments : List Assignment
    assignments = plan_assignments plan

    only_eligible :
        (order : Order)
        → Memᴰ order s.orders
        → contains (evaluated order).order_id (map (λ (a : Assignment). a.order_id) assignments)
          ≡ true
        → ((evaluated order).candidates ≢ []) × (get (evaluated order).order_id plan ≢ none)
    only_eligible order listed h =
        let (a, ma, ea) =
          Memᴰ.of_map (λ (a : Assignment). a.order_id) assignments (contains→mem _ _ h) in
        let (c, entry, mc, same) = mem-plan_assignments v cs a ma in
        let key : c.order_id ≡ (evaluated order).order_id =
          sym (ap (λ (a : Assignment). a.order_id) same) ∙ ea in
        let own =
          own_candidate order c listed entry.candidate
            (key ∙ order_id-evaluate_order order index (ids_for s ids per_order order)) in
        (λ e. Memᴰ.not-nil (rw e at own), rw (← key) (mem→get plan mc))

    reported :
        (id : String)
        → get id plan ≢ none
        → contains id (map (λ (a : Assignment). a.order_id) assignments) ≡ true
    reported id h = elim (Option-cases (get id plan)) [
      | inl absent ↦ absurd (h absent)
      | inr (c, found) ↦
          let m = get→mem id plan found in
          mem→contains (
            Memᴰ.cast (sym (IsEntry-of_mem v cs (id, c) m).own_key)
              (Memᴰ.map (λ (a : Assignment). a.order_id) (mem-assignments plan m)))
    ]

    matches : (e : OrderEvaluation) → Memᴰ e evaluation.evaluations → Matches plan e
    matches e m =
        let (order, listed, same) = mem-evaluated e m in
        rw (← same) (record {
          verdict = evaluate_order-IsVerdict order index (ids_for s ids per_order order);
          only_eligible = only_eligible order listed;
          reported = reported (evaluated order).order_id;
        })

    owned :
        (a : Assignment)
        → Memᴰ a assignments
        → (e : OrderEvaluation) × Memᴰ e evaluation.evaluations × (e.order_id ≡ a.order_id)
    owned a m =
        let (c, entry, mc, same) = mem-plan_assignments v cs a m in
        let (order, listed, f) = owner_of s ids per_order index r ix c entry.candidate in
        (
          evaluated order,
          evaluated-mem order listed,
          order_id-evaluate_order order index (ids_for s ids per_order order)
              ∙ sym f.same_order
              ∙ sym (ap (λ (a : Assignment). a.order_id) same),
        )

    within_capacity :
        (id : String) (w : Wagon)
        → (tables_of s).wagons id ≡ some w
        → sum_over
            (λ (a : Assignment).
              if a.wagon_id == id then weight_of (order_table s a.order_id) else 0)
            assignments
          ≤ w.max_total_weight_kg
    within_capacity id w found =
        let first = first_wagon_of_id s r id found in
        omega (
          arith,
          sum_over-assignments v cs
              (λ a. if a.wagon_id == id then weight_of (order_table s a.order_id) else 0),
          rw first at (wagon_load s cs v sat id),
        )

    module _ (allowed : Option (List String))
        (scope : (order : Order)
          → Memᴰ order s.orders
          → Within
              (ids_for s ids per_order order)
              (permitted_of allowed s.baseline_service_ids)) where
      each_sound :
          (a : Assignment)
          → Memᴰ a assignments
          → check_assignment (tables_of s) (permitted_of allowed s.baseline_service_ids) a ≡ []
      each_sound a m =
          let (c, entry, mc, same) = mem-plan_assignments v cs a m in
          let (order, listed, f) = owner_of s ids per_order index r ix c entry.candidate in
          rw same (
            check_assignment-nil s ids per_order index r ix
              (permitted_of allowed s.baseline_service_ids) order listed (scope order listed) c f)

      plan_findings-nil : plan_findings s assignments (build_outcomes evaluation plan) allowed ≡ []
      unfolding plan_findings
      plan_findings-nil =
          nil-append
            (check_uniqueness-nil assignments
              (λ id. omega (
                arith,
                sum_over-assignments v cs (λ a. if a.order_id == id then 1 else 0),
                order_once s cs v sat id,
              ))
              (λ id. omega (
                arith,
                sum_over-assignments v cs (λ a. if a.slot_id == id then 1 else 0),
                slot_once s cs v sat id,
              )))
            (nil-append
              (flat_map-nil
                (check_assignment (tables_of s) (permitted_of allowed s.baseline_service_ids))
                assignments each_sound)
              (nil-append
                (check_wagon_capacity-nil (tables_of s).orders (tables_of s).wagons assignments
                  within_capacity)
                (check_outcome_consistency-nil evaluation plan matches owned)))

  passes :
      (allowed : Option (List String)) (assignments : List Assignment)
      (outcomes : List OrderOutcome)
      → plan_findings s assignments outcomes allowed ≡ []
      → (validate_plan s assignments outcomes allowed).status ≡ pass
  unfolding validate_plan
  passes allowed assignments outcomes h = rw h refl

  -- An empty plan is the plan of nobody.
  nobody_planned : plan_of nobody cs ≡ []
  nobody_planned = nobody_chosen cs

  -- Nobody placed, with the outcomes of that.
  empty_passes :
      (allowed : Option (List String))
      (scope : (order : Order)
        → Memᴰ order s.orders
        → Within (ids_for s ids per_order order) (permitted_of allowed s.baseline_service_ids))
      → (validate_plan s [] (build_outcomes evaluation []) allowed).status ≡ pass
  empty_passes allowed scope = passes allowed [] (build_outcomes evaluation []) (
      rw (nobody_planned, no_assignments) at
        (plan_findings-nil nobody (nobody-Satisfies s cs) allowed scope))

  pub result_passes :
      (allowed : Option (List String))
      (scope : (order : Order)
        → Memᴰ order s.orders
        → Within (ids_for s ids per_order order) (permitted_of allowed s.baseline_service_ids))
      (result : SolveResult)
      → IsResult s evaluation result
      → (validate_plan s result.assignments result.order_outcomes allowed).status ≡ pass
  result_passes allowed scope result (IsResult.unproved same) =
      rw same (passes allowed [] [] (nothing-nil s allowed))
  result_passes allowed scope result (IsResult.planned p) =
      passes allowed result.assignments result.order_outcomes (
        rw (p.assignments_eq, p.outcomes_eq)
          (plan_findings-nil p.valuation p.satisfied allowed scope))
  result_passes allowed scope result (IsResult.nothing_to_place none_left same) =
      rw same (empty_passes allowed scope)
  result_passes allowed scope result (IsResult.contradicted same inexact) =
      rw same (empty_passes allowed scope)

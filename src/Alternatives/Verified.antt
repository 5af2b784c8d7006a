-- ===== src/Alternatives/Verified.antt =====
-- What `search_alternative` of app/services/alternatives.py hands out when it finds one.
use piggyon.Base.{
  ◌⊎◌, ℕ, ◌≡◌, ◌≢◌, refl, sym, ◌∙◌, subst, inl, inr, true, false, some, List, [], ◌∷◌, map, String,
  ◌==◌, eq_iff, Memᴰ, contains, contains→mem, is_empty, Bool-cases, Option-cases,
}
use piggyon.Base.Dict.{get}
use piggyon.ReasonCodes.{Verdict}
use piggyon.Snapshot.{ForbiddenAdjustment, Order, ScenarioInputSnapshot}
use piggyon.Snapshot.Resolved.{IsResolved, Within}
use piggyon.Eligibility.{evaluate_scenario, ids_or}
use piggyon.Eligibility.Types.{ScenarioEvaluation}
use piggyon.Eligibility.Groups.{evaluate_scenario_total}
use piggyon.Baseline.{SolverParameters, Assignment, OrderOutcome, SolveResult}
use piggyon.Baseline.Cp.{CpSolver, IsSound}
use piggyon.Baseline.Solve.{solve_baseline}
use piggyon.Validator.{pass, validate_plan, permitted_of}
use piggyon.Validator.Placement.{ids_for}
use piggyon.Validator.Passes.{validate_plan-solve_baseline, solve_baseline-offered}
use piggyon.Planning.{Run}
use piggyon.Planning.Runs.{solve_baseline_total}
use piggyon.Planning.Range.{IsInRange, plan_raises-false, derived-IsInRange}
use piggyon.Validator.{plan_raises}
use piggyon.Alternatives.Derive.{derive_snapshot}
use piggyon.Alternatives.Changes.{
  AdjustmentType, Change, ChangeSet, changes, policy_violation, ambiguous_alternative,
  build_change_set,
}
use piggyon.Alternatives.Scope.{IsDerived, derive_snapshot-IsDerived}
use piggyon.Alternatives.Deltas.{AssignmentDelta, assignment_deltas}
use piggyon.Alternatives.Search.{
  Found, SearchResult, found, not_found, refused, ambiguous, raised, first_outcome, found_with,
  judge, explore, search_changes, search_alternative,
}

found-eq : {f g : Found} → found g ≡ found f → f ≡ g
found-eq h = cc

not_found≢found : {cs : List Change} {v : Verdict} {f : Found} → not_found cs v ≡ found f → ⊥
not_found≢found h = cc

raised≢found : {f : Found} → raised ≡ found f → ⊥
raised≢found h = cc

refused≢found : {fs : List ForbiddenAdjustment} {f : Found} → refused fs ≡ found f → ⊥
refused≢found h = cc

ambiguous≢found : {id : String} {ids : List String} {f : Found} → ambiguous id ids ≡ found f → ⊥
ambiguous≢found h = cc

module _ (solve : CpSolver) (clock : ℕ → ℕ) (parameters : SolverParameters)
    (scenario_id run_id order_id : String) (baseline_run : Run) (cs : List Change)
    (derived : ScenarioInputSnapshot) (evaluation : ScenarioEvaluation) (result : SolveResult) where
  abbrev judged : SearchResult
  judged =
      judge solve clock parameters scenario_id run_id order_id baseline_run cs derived evaluation
        result

  abbrev deltas : List AssignmentDelta
  deltas = assignment_deltas baseline_run.assignments result.assignments

  -- What is found is made from the result, which places the order, differently.
  pub record IsFoundWith (f : Found) : Type 0 where
    pub target : OrderOutcome
    pub made :
        f
        ≡ found_with solve clock parameters scenario_id run_id order_id baseline_run cs derived
            evaluation result deltas target
    pub placed : Memᴰ order_id (map (λ (a : Assignment). a.order_id) result.assignments)
    pub differs : deltas ≢ []

  pub judge-IsFoundWith : (f : Found) → judged ≡ found f → IsFoundWith f
  unfolding judge
  judge-IsFoundWith f e =
      elim (Bool-cases
        (contains order_id (map (λ (a : Assignment). a.order_id) result.assignments))) [
          | inr lacking ↦ absurd (not_found≢found (rw (lacking, judge) at e))
          | inl placed ↦ elim (Bool-cases (is_empty deltas)) [
            | inl unchanged ↦ absurd (not_found≢found (rw (placed, judge, unchanged) at e))
            | inr changed ↦ elim (Option-cases (first_outcome order_id result.order_outcomes)) [
              | inl absent ↦ absurd (raised≢found (rw (placed, judge, changed, absent) at e))
              | inr (o, present) ↦ record {
                target = o;
                made = found-eq (rw (placed, judge, changed, present) at e);
                placed = contains→mem order_id _ placed;
                differs = λ same. cc (rw same at changed);
              }
            ]
          ]
        ]

-- What the caller may rely on in an alternative.
pub record IsVerifiedChange (s : ScenarioInputSnapshot) (baseline_run : Run) (order_id : String)
    (f : Found) : Type 0 where
  pub verified : f.validator_status ≡ pass
  pub run_verified : f.alternative_run.validator_status ≡ pass
  pub placed : Memᴰ order_id (map (λ (a : Assignment). a.order_id) f.alternative_run.assignments)
  pub differs : f.assignment_deltas ≢ []
  pub own_deltas :
      f.assignment_deltas ≡ assignment_deltas baseline_run.assignments f.alternative_run.assignments
  pub others_stay :
      (a : Assignment)
      → Memᴰ a f.alternative_run.assignments
      → a.order_id ≢ order_id
      → Memᴰ a.service_id s.baseline_service_ids

ids_or-some : (ids fallback : List String) → ids ≢ [] → ids_or (some ids) fallback ≡ ids
ids_or-some [] fallback n = absurd (n refl)
ids_or-some (x ∷ xs) fallback n = refl

permitted_of-same : (ids : List String) → permitted_of (some ids) ids ≡ ids
permitted_of-same [] = refl
permitted_of-same (x ∷ xs) = refl

-- Without an entry of its own, an order is offered the original services.
others_offered :
    (s derived : ScenarioInputSnapshot) (order_id id : String) (order_services : List String)
    (order : Order)
    → s.baseline_service_ids ≢ []
    → order.order_id ≡ id
    → id ≢ order_id
    → ids_for derived (some s.baseline_service_ids) ((order_id, order_services) ∷ []) order
      ≡ s.baseline_service_ids
unfolding get
others_offered s derived order_id id order_services order some_left same other =
    rw (not_own order_id order.order_id (λ e. other (sym same ∙ sym e)))
      (ids_or-some s.baseline_service_ids derived.baseline_service_ids some_left)
  where
    not_own : (x y : String) → (x ≡ y → ⊥) → (x == y) ≡ false
    not_own x y n = elim (Bool-cases (x == y)) [ inl e ↦ absurd (n ((eq_iff x y).0 e)) | inr e ↦ e ]

offered_in_scope :
    (s derived : ScenarioInputSnapshot) (order_id : String) (cs : List Change)
    (order_services : List String) (order : Order)
    → s.baseline_service_ids ≢ []
    → IsDerived s order_id cs derived order_services
    → Within
        (ids_for derived (some s.baseline_service_ids) ((order_id, order_services) ∷ []) order)
        (permitted_of (some derived.baseline_service_ids) derived.baseline_service_ids)
unfolding get
offered_in_scope s derived order_id cs order_services order some_left d x m =
    elim (Bool-cases (order_id == order.order_id)) [
      | inl own ↦ in_scope (rw d.same_scope (own_entry own))
      | inr other ↦ in_scope (rw d.same_scope (d.keeps_baseline x (original other)))
    ]
  where
    in_scope :
        Memᴰ x derived.baseline_service_ids
        → Memᴰ x (permitted_of (some derived.baseline_service_ids) derived.baseline_service_ids)
    in_scope mx = rw (permitted_of-same derived.baseline_service_ids) mx

    own_entry : (order_id == order.order_id) ≡ true → Memᴰ x order_services
    own_entry own = rw own at m

    original : (order_id == order.order_id) ≡ false → Memᴰ x s.baseline_service_ids
    original other =
        rw (ids_or-some s.baseline_service_ids derived.baseline_service_ids some_left) at
          (rw other at m)

-- How a search goes on once there are changes: the derived scenario is accepted, evaluated and
-- solved, and its plan passes the re-check.
pub record IsSearched (solve : CpSolver) (clock : ℕ → ℕ) (parameters : SolverParameters)
    (s : ScenarioInputSnapshot) (scenario_id run_id order_id : String) (baseline_run : Run)
    (cs : List Change) (answer : SearchResult) : Type 0 where
  pub derived : ScenarioInputSnapshot
  pub order_services : List String
  pub evaluation : ScenarioEvaluation
  pub result : SolveResult
  pub is_derived : IsDerived s order_id cs derived order_services
  pub evaluated :
      evaluate_scenario derived (some s.baseline_service_ids) ((order_id, order_services) ∷ [])
      ≡ some evaluation
  pub solved : solve_baseline solve clock parameters derived evaluation ≡ some result
  pub passes :
      (validate_plan derived result.assignments result.order_outcomes
        (some derived.baseline_service_ids)).status
      ≡ pass
  pub answer_eq :
      answer
      ≡ judge solve clock parameters scenario_id run_id order_id baseline_run cs derived evaluation
          result

module _ (solve : CpSolver) (clock : ℕ → ℕ) (parameters : SolverParameters)
    (scenario_id run_id order_id : String) (baseline_run : Run) (s : ScenarioInputSnapshot)
    (types : List AdjustmentType) (sound : IsSound solve) (r : IsResolved s)
    (some_left : s.baseline_service_ids ≢ []) where
  abbrev search : SearchResult
  search =
      search_alternative solve clock parameters scenario_id run_id order_id baseline_run s types

  -- The search goes on to the end where nothing raises.
  IsSearched-with :
      {c : Change} {cs : List Change} {derived : ScenarioInputSnapshot}
      {order_services : List String} {evaluation : ScenarioEvaluation} {result : SolveResult}
      → build_change_set s order_id types ≡ changes (c ∷ cs)
      → derive_snapshot s scenario_id order_id (c ∷ cs) ≡ some (derived, order_services)
      → IsDerived s order_id (c ∷ cs) derived order_services
      → evaluate_scenario derived (some s.baseline_service_ids) ((order_id, order_services) ∷ [])
        ≡ some evaluation
      → solve_baseline solve clock parameters derived evaluation ≡ some result
      → plan_raises derived result.assignments ≡ false
      → IsSearched solve clock parameters s scenario_id run_id order_id baseline_run (c ∷ cs) search
  unfolding search_alternative search_changes explore
  IsSearched-with {c} {cs} {derived} {order_services} {evaluation} {result} e accepted d evaluated
        solved quiet =
      record {
        derived = derived;
        order_services = order_services;
        evaluation = evaluation;
        result = result;
        is_derived = d;
        evaluated = evaluated;
        solved = solved;
        passes =
            validate_plan-solve_baseline solve clock parameters derived
              (some s.baseline_service_ids) ((order_id, order_services) ∷ [])
              (some derived.baseline_service_ids) evaluation result sound d.resolved
              (λ order m.
                offered_in_scope s derived order_id (c ∷ cs) order_services order some_left d)
              evaluated solved;
        answer_eq =
            rw (e, search_alternative)
              (rw (accepted, search_changes)
                (rw (evaluated, explore) (rw (solved, explore) (rw (quiet, explore) refl))));
      }

  -- In the ranges of dates and of 64-bit numbers nothing raises.
  pub is_searched :
      (c : Change) (cs : List Change)
      → IsInRange s
      → build_change_set s order_id types ≡ changes (c ∷ cs)
      → IsSearched solve clock parameters s scenario_id run_id order_id baseline_run (c ∷ cs) search
  is_searched c cs range e =
      let (derived, order_services, accepted, d) =
        derive_snapshot-IsDerived s scenario_id order_id types (c ∷ cs) r e in
      let within = derived-IsInRange d range in
      let (evaluation, evaluated) =
        evaluate_scenario_total derived (some s.baseline_service_ids)
          ((order_id, order_services) ∷ []) d.resolved within.calendar in
      let (result, solved) =
        solve_baseline_total derived (some s.baseline_service_ids) ((order_id, order_services) ∷ [])
          solve clock parameters evaluation d.resolved within evaluated in
      IsSearched-with e accepted d evaluated solved
        (plan_raises-false derived within result.assignments)

  -- It goes on to the end, or an exception is raised.
  IsSearched-or_raised :
      (c : Change) (cs : List Change)
      → build_change_set s order_id types ≡ changes (c ∷ cs)
      → (search ≡ raised)
        ⊎ IsSearched solve clock parameters s scenario_id run_id order_id baseline_run
            (c ∷ cs)
            search
  unfolding search_alternative search_changes explore
  IsSearched-or_raised c cs e =
      let (derived, order_services, accepted, d) =
        derive_snapshot-IsDerived s scenario_id order_id types (c ∷ cs) r e in
      elim (Option-cases (
        evaluate_scenario derived (some s.baseline_service_ids)
          ((order_id, order_services) ∷ []))) [
            | inl broken ↦ inl (
                rw (e, search_alternative)
                  (rw (accepted, search_changes) (rw (broken, explore) refl)))
            | inr (evaluation, evaluated) ↦
                elim (Option-cases (solve_baseline solve clock parameters derived evaluation)) [
                  | inl broken ↦ inl (
                      rw (e, search_alternative)
                        (rw (accepted, search_changes)
                          (rw (evaluated, explore) (rw (broken, explore) refl))))
                  | inr (result, solved) ↦
                      elim (Bool-cases (plan_raises derived result.assignments)) [
                        | inl raises ↦ inl (
                            rw (e, search_alternative)
                              (rw (accepted, search_changes)
                                (rw (evaluated, explore)
                                  (rw (solved, explore) (rw (raises, explore) refl)))))
                        | inr quiet ↦ inr (IsSearched-with e accepted d evaluated solved quiet)
                      ]
                ]
          ]

  found_of_searched :
      (cs : List Change) (f : Found)
      → IsSearched solve clock parameters s scenario_id run_id order_id baseline_run cs (found f)
      → IsVerifiedChange s baseline_run order_id f
  unfolding found_with
  found_of_searched cs f h =
      let w =
        judge-IsFoundWith solve clock parameters scenario_id run_id order_id baseline_run cs
          h.derived h.evaluation h.result f (sym h.answer_eq) in
      rw w.made (record {
        verified = h.passes;
        run_verified = h.passes;
        placed = w.placed;
        differs = w.differs;
        own_deltas = refl;
        others_stay = λ a m other.
            let (order, listed, same, offered) =
              solve_baseline-offered solve clock parameters h.derived (some s.baseline_service_ids)
                ((order_id, h.order_services) ∷ []) h.evaluation h.result a sound
                h.is_derived.resolved h.evaluated h.solved m in
            subst (λ (ids : List String). Memᴰ a.service_id ids)
              (others_offered s h.derived order_id a.order_id h.order_services order some_left same
                other)
              offered;
      })

  -- What is found comes from a search that was carried through.
  pub found-IsSearched :
      (f : Found)
      → search ≡ found f
      → (cs : List Change) × IsSearched solve clock parameters s scenario_id run_id order_id
          baseline_run cs
          (found f)
  unfolding search_alternative search_changes
  found-IsSearched f e = go (build_change_set s order_id types) refl
    where
      go :
          (built : ChangeSet)
          → build_change_set s order_id types ≡ built
          → (cs : List Change) × IsSearched solve clock parameters s scenario_id run_id order_id
              baseline_run cs
              (found f)
      go (policy_violation fs) b = absurd (refused≢found (rw (b, search_alternative) at e))
      go (ambiguous_alternative id ids) b =
          absurd (ambiguous≢found (rw (b, search_alternative) at e))
      go (changes []) b = absurd (not_found≢found (rw (b, search_alternative) at e))
      go (changes (c ∷ cs)) b = elim (IsSearched-or_raised c cs b) [
        | inl broken ↦ absurd (raised≢found (sym broken ∙ e))
        | inr h ↦ (c ∷ cs, rw e at h)
      ]

  -- Over a resolved scenario with baseline services and a sound solver, an alternative that is
  -- found has passed the re-check, places the named order, differs from the given plan in the
  -- differences it lists, and leaves all other orders on the original baseline services.
  pub search_alternative-IsVerifiedChange :
      (f : Found) → search ≡ found f → IsVerifiedChange s baseline_run order_id f
  search_alternative-IsVerifiedChange f e =
      let (cs, h) = found-IsSearched f e in found_of_searched cs f h

-- ===== src/Alternatives/Total.antt =====
-- Where `search_alternative` of app/services/alternatives.py could raise: its lookups, the validation
-- of the derived scenario, its `next` without a default, dates and numbers out of range.
use mathlib.Core.List.Memᴰ
use piggyon.Base.{
  ℕ, ◌≡◌, ◌≢◌, refl, sym, ◌∙◌, inl, inr, Bool, true, false, not, Option, some, List, [], ◌∷◌, map,
  String, ◌==◌, eq_iff, Memᴰ, arith, contains, contains→mem, is_empty, is_empty-nil, Bool-cases,
  select, append-eq-nil, mem-sort_by_of_mem, text_le, flat_map,
}
use piggyon.Snapshot.{ScenarioInputSnapshot}
use piggyon.ReasonCodes.{Verdict}
use piggyon.Snapshot.{ForbiddenAdjustment}
use piggyon.Snapshot.Resolved.{IsResolved}
use piggyon.Eligibility.Types.{ScenarioEvaluation}
use piggyon.Baseline.{SolverParameters, Assignment, OrderOutcome, SolveResult}
use piggyon.Baseline.Cp.{CpSolver, IsSound}
use piggyon.Validator.{
  pass, check_uniqueness, tables_of, permitted_of, check_wagon_capacity, unreported, check_outcome,
  check_outcome_consistency, plan_findings, validate_plan,
}
use piggyon.Validator.Checks.{finding, outcome_check, check_assignment}
use piggyon.Planning.{Run}
use piggyon.Alternatives.Changes.{
  AdjustmentType, Change, ChangeSet, changes, policy_violation, ambiguous_alternative,
  build_change_set,
}
use piggyon.Alternatives.Deltas.{assignment_deltas}
use piggyon.Alternatives.Search.{
  Found, found, not_found, refused, ambiguous, raised, first_outcome, judge, search_changes,
  search_alternative,
}
use piggyon.Planning.Range.{IsInRange}
use piggyon.Alternatives.Verified.{is_searched}

mem-select :
    (test : String → Bool) {x : String} (xs : List String)
    → Memᴰ x xs
    → test x ≡ true
    → Memᴰ x (select test xs)
unfolding select
mem-select test [] m t = elim m [ ]
mem-select test {x} (y ∷ xs) m t = elim (Bool-cases (test y)) [
  | inl e ↦ rw e (elim (Memᴰ.cases_cons m) [
    | inl here ↦ Memᴰ.head here
    | inr later ↦ Memᴰ.tail (mem-select test xs later t)
  ])
  | inr e ↦ elim (Memᴰ.cases_cons m) [
    | inl here ↦ absurd (true≢false (sym t) (rw (← here) at e))
    | inr later ↦ rw e (mem-select test xs later t)
  ]
]
  where
    true≢false : {b : Bool} → true ≡ b → b ≡ false → ⊥
    true≢false p q = cc

reported_of_nil :
    (ids reported : List String) (x : String)
    → unreported ids reported ≡ []
    → Memᴰ x ids
    → contains x reported ≡ true
unfolding unreported
reported_of_nil ids reported x h m = elim (Bool-cases (contains x reported)) [
  | inl e ↦ e
  | inr e ↦
      let left =
        mem-sort_by_of_mem text_le _
          (mem-select (λ id. not (contains id reported)) ids m (rw e refl)) in
      absurd (Memᴰ.not-nil (rw h at left))
]

map-eq-nil : {A B : Type 0} (f : A → B) (xs : List A) → map f xs ≡ [] → xs ≡ []
map-eq-nil f [] h = refl
map-eq-nil f (x ∷ xs) h = cc

first_outcome_of_mem :
    (id : String) (os : List OrderOutcome)
    → Memᴰ id (map (λ (o : OrderOutcome). o.order_id) os)
    → (o : OrderOutcome) × (first_outcome id os ≡ some o)
unfolding first_outcome
first_outcome_of_mem id [] m = elim m [ ]
first_outcome_of_mem id (o ∷ os) m = elim (Bool-cases (o.order_id == id)) [
  | inl e ↦ (o, rw e refl)
  | inr e ↦ elim (Memᴰ.cases_cons m) [
    | inl here ↦ (o, absurd (ground (arith, eq_iff o.order_id id)))
    | inr later ↦ let (p, at_later) = first_outcome_of_mem id os later in (p, rw e at_later)
  ]
]

findings_of_pass :
    (s : ScenarioInputSnapshot) (assignments : List Assignment) (outcomes : List OrderOutcome)
    (allowed : Option (List String))
    → (validate_plan s assignments outcomes allowed).status ≡ pass
    → plan_findings s assignments outcomes allowed ≡ []
unfolding validate_plan
findings_of_pass s assignments outcomes allowed h = is_empty-nil _ (ground arith)

-- In a plan that passes the re-check, every placed order has an outcome.
outcome_of_pass :
    (s : ScenarioInputSnapshot) (assignments : List Assignment) (outcomes : List OrderOutcome)
    (allowed : Option (List String)) (id : String)
    → (validate_plan s assignments outcomes allowed).status ≡ pass
    → contains id (map (λ (a : Assignment). a.order_id) assignments) ≡ true
    → (o : OrderOutcome) × (first_outcome id outcomes ≡ some o)
unfolding plan_findings check_outcome_consistency
outcome_of_pass s assignments outcomes allowed id h placed =
    let (uniqueness, r1) =
      append-eq-nil (check_uniqueness assignments)
        (findings_of_pass s assignments outcomes allowed h) in
    let (each, r2) =
      append-eq-nil
        (flat_map (check_assignment (tables_of s) (permitted_of allowed s.baseline_service_ids))
          assignments)
        r1 in
    let (capacity, r3) =
      append-eq-nil (check_wagon_capacity (tables_of s).orders (tables_of s).wagons assignments)
        r2 in
    let (outcomes_quiet, r4) =
      append-eq-nil
        (flat_map (check_outcome (map (λ (a : Assignment). a.order_id) assignments)) outcomes) r3 in
    first_outcome_of_mem id outcomes (
      contains→mem id _ (
        reported_of_nil _ _ id (map-eq-nil (λ id. finding outcome_check (some id)) _ r4)
          (contains→mem id _ placed)))

found≢raised : {f : Found} → found f ≡ raised → ⊥
found≢raised h = cc

not_found≢raised : {cs : List Change} {v : Verdict} → not_found cs v ≡ raised → ⊥
not_found≢raised h = cc

refused≢raised : {fs : List ForbiddenAdjustment} → refused fs ≡ raised → ⊥
refused≢raised h = cc

ambiguous≢raised : {id : String} {ids : List String} → ambiguous id ids ≡ raised → ⊥
ambiguous≢raised h = cc

judge-ne-raised :
    (solve : CpSolver) (clock : ℕ → ℕ) (parameters : SolverParameters)
    (scenario_id run_id order_id : String) (baseline_run : Run) (cs : List Change)
    (derived : ScenarioInputSnapshot) (evaluation : ScenarioEvaluation) (result : SolveResult)
    → (validate_plan derived result.assignments result.order_outcomes
        (some derived.baseline_service_ids)).status
      ≡ pass
    → judge solve clock parameters scenario_id run_id order_id baseline_run cs derived evaluation
        result
      ≢ raised
unfolding judge
judge-ne-raised solve clock parameters scenario_id run_id order_id baseline_run cs derived
      evaluation result ok e =
    elim (Bool-cases
      (contains order_id (map (λ (a : Assignment). a.order_id) result.assignments))) [
        | inr lacking ↦ not_found≢raised (rw (lacking, judge) at e)
        | inl placed ↦
            elim (Bool-cases
              (is_empty (assignment_deltas baseline_run.assignments result.assignments))) [
                | inl unchanged ↦ not_found≢raised (rw (placed, judge, unchanged) at e)
                | inr changed ↦
                    let (o, present) =
                      outcome_of_pass derived result.assignments result.order_outcomes
                        (some derived.baseline_service_ids) order_id ok placed in
                    found≢raised (rw (placed, judge, changed, present) at e)
              ]
      ]

-- Over a resolved scenario with baseline services, in the ranges of dates and of 64-bit numbers, and a
-- sound solver, no exception is raised: the search ends in one of its four answers: an alternative, none with the reason, a refusal by the policy, or an ambiguity.
pub search_alternative-ne-raised :
    (solve : CpSolver) (clock : ℕ → ℕ) (parameters : SolverParameters)
    (scenario_id run_id order_id : String) (baseline_run : Run) (s : ScenarioInputSnapshot)
    (types : List AdjustmentType)
    → IsSound solve
    → IsResolved s
    → s.baseline_service_ids ≢ []
    → IsInRange s
    → search_alternative solve clock parameters scenario_id run_id order_id baseline_run s types
      ≢ raised
unfolding search_alternative search_changes
search_alternative-ne-raised solve clock parameters scenario_id run_id order_id baseline_run s types
      sound r some_left range e =
    go (build_change_set s order_id types) refl
  where
    go : (built : ChangeSet) → build_change_set s order_id types ≡ built → ⊥
    go (policy_violation fs) b = refused≢raised (rw (b, search_alternative) at e)
    go (ambiguous_alternative id ids) b = ambiguous≢raised (rw (b, search_alternative) at e)
    go (changes []) b = not_found≢raised (rw (b, search_alternative) at e)
    go (changes (c ∷ cs)) b =
        let h =
          is_searched solve clock parameters scenario_id run_id order_id baseline_run s types sound
            r some_left c cs range b in
        judge-ne-raised solve clock parameters scenario_id run_id order_id baseline_run (c ∷ cs)
          h.derived h.evaluation h.result h.passes (sym h.answer_eq ∙ e)

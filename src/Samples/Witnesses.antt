-- ===== src/Samples/Witnesses.antt =====
-- The theorems of the other files, each applied to the concrete scenario.
use mathlib.Core.List.Memᴰ
use piggyon.Base.{
  inr, contains, ◌≡◌, ◌≢◌, refl, ◌↔◌, none, some, List, [], ◌∷◌, map, Memᴰ, ◌≤◌, String,
  if◌then◌else◌, ◌==◌,
}
use piggyon.Base.Dict.{get}
use piggyon.ReasonCodes.{no_eligible_slot, ready_after_cutoff, select_primary}
use piggyon.ReasonCodes.Primary.{IsRankedFirst, select_primary-eq-some_iff, select_primary_same}
use piggyon.Snapshot.{
  change_weight_limit, ScenarioInputSnapshot, Order, ForbiddenAdjustment, AdjustmentWindow,
}
use piggyon.Snapshot.References.{references_resolve}
use piggyon.Snapshot.Resolved.{IsResolved}
use piggyon.Snapshot.Accepts.{references_resolve-IsResolved_iff}
use piggyon.Eligibility.{evaluate_order, evaluate_scenario}
use piggyon.Eligibility.Types.{Candidate, ScenarioEvaluation}
use piggyon.Eligibility.Checks.{validate_input, check_service, check_slot}
use piggyon.Eligibility.Candidates.{Fits, candidates-Fits_iff}
use piggyon.Eligibility.Verdicts.{IsVerdict, evaluate_order-IsVerdict}
use piggyon.Eligibility.Groups.{evaluate_scenario_total}
use piggyon.Rules.Gate.{
  ServiceAdmits, SlotAdmits, IsComplete, check_service-ServiceAdmits_iff, check_slot-SlotAdmits_iff,
  validate_input-IsComplete_iff,
}
use piggyon.Rules.Recheck.{IsSoundPlacement, check_resolved-IsSoundPlacement_iff}
use piggyon.Baseline.{available}
use piggyon.Baseline.Cp.{IsSound}
use piggyon.Baseline.Problem.{weight_of, order_table, capacity_of, first_wagon}
use piggyon.Baseline.Objectives.{refinements}
use piggyon.Baseline.Lexicographic.{Refines, refine-Refined}
use piggyon.Baseline.Limits.{chosen_sum, order_once, slot_once, wagon_load}
use piggyon.Baseline.Results.{IsResult, solve_baseline-IsResult}
use piggyon.Validator.{pass, validate_plan, tables_of}
use piggyon.Validator.Checks.{check_resolved}
use piggyon.Validator.Placement.{ids_for}
use piggyon.Validator.Passes.{validate_plan-solve_baseline, solve_baseline-offered}
use piggyon.Planning.{Run, run_baseline, as_document, build_validation_result}
use piggyon.Planning.Runs.{run_baseline-pass}
use piggyon.Alternatives.Changes.{add_service, policy_violation, build_change_set, forbidden}
use piggyon.Alternatives.Derive.{derive_snapshot}
use piggyon.Alternatives.Deltas.{by_order_id, assignment_deltas, apply_to_baseline}
use piggyon.Alternatives.Search.{search_alternative, raised}
use piggyon.Alternatives.Approved.{IsWindowOf, IsApproved, build_change_set-IsApproved}
use piggyon.Alternatives.Refusals.{build_change_set-policy_violation_iff}
use piggyon.Alternatives.Scope.{IsDerived, derive_snapshot-IsDerived}
use piggyon.Alternatives.Differences.{
  Recorded, assignment_deltas-nil_iff, apply_to_baseline-Recorded,
}
use piggyon.Alternatives.Verified.{IsVerifiedChange, search_alternative-IsVerifiedChange}
use piggyon.Alternatives.Total.{search_alternative-ne-raised}
use piggyon.Storage.{
  ScenarioRecord, get_scenario, get_validation, next_run_id, MemoryStore, ready_to_solve,
  scenario_created, run_completed, delete_scenario,
}
use piggyon.Scenarios.{validate_scenario, create_run, solve_scenario, record_run}
use piggyon.Scenarios.States.{Advances, validate_scenario-Advances}
use piggyon.Scenarios.Solving.{IsSettled, create_run-IsSettled}
use piggyon.Storage.Deletion.{IsDeleted, delete_scenario-IsDeleted}
use piggyon.Samples.{
  scenario, early_order, late_order, unweighed_order, parameters, still_clock, wanted, barred,
  service_at, wagon_on, slot_on,
}
use piggyon.Samples.Range.{scenario-IsInRange, scenario-IsInCalendar}
use piggyon.Planning.Range.{plan_raises-false}
use piggyon.Samples.Solver.{chosen, solver, propose-IsSound}
use piggyon.Samples.Runs.{
  scenario-IsResolved, index, evaluation, scenario_evaluated, result, scenario_solved,
  scenario_planned, early_assignment, late_assignment, run, change_set, scenario_changes,
  alternative, searched, run_ok, candidates, limits_met, progress, progress_met, stages_exact,
}

served : scenario.baseline_service_ids ≢ []
served h = cc

sound : IsSound solver
sound = propose-IsSound chosen

first_assigned : Memᴰ early_assignment result.assignments
first_assigned = rw scenario_planned (Memᴰ.head refl)

validate_plan-solve_baseline_example :
    (validate_plan scenario result.assignments result.order_outcomes none).status ≡ pass
unfolding get
validate_plan-solve_baseline_example =
    validate_plan-solve_baseline solver still_clock parameters scenario none [] none evaluation
      result sound scenario-IsResolved (λ order m x mx. mx) scenario_evaluated scenario_solved

run_baseline-pass_example :
    (r : Run) × (run_baseline solver still_clock "RUN-001" "SCN-001" scenario parameters ≡ some r)
    × (r.validator_status ≡ pass)
run_baseline-pass_example =
    run_baseline-pass solver still_clock parameters "RUN-001" "SCN-001" scenario sound
      scenario-IsResolved scenario-IsInRange

search_alternative-IsVerifiedChange_example : IsVerifiedChange scenario run "O2" alternative
search_alternative-IsVerifiedChange_example =
    search_alternative-IsVerifiedChange solver still_clock parameters "SCN-ALT-001" "RUN-ALT-001"
      "O2" run scenario wanted sound scenario-IsResolved served alternative searched

search_alternative-ne-raised_example :
    search_alternative solver still_clock parameters "SCN-ALT-001" "RUN-ALT-001" "O2" run scenario
      wanted
    ≢ raised
search_alternative-ne-raised_example =
    search_alternative-ne-raised solver still_clock parameters "SCN-ALT-001" "RUN-ALT-001" "O2" run
      scenario wanted sound scenario-IsResolved served scenario-IsInRange

solve_baseline-IsResult_example : IsResult scenario evaluation result
solve_baseline-IsResult_example =
    solve_baseline-IsResult solver still_clock parameters sound scenario evaluation result
      scenario_solved

refine-Refined_example :
    Refines solver still_clock parameters sound (refinements scenario candidates) progress
refine-Refined_example =
    refine-Refined solver still_clock parameters sound (refinements scenario candidates) progress
      stages_exact progress_met

solve_baseline-offered_example :
    (order : Order) × Memᴰ order scenario.orders
    × (order.order_id ≡ early_assignment.order_id)
    × Memᴰ early_assignment.service_id (ids_for scenario none [] order)
solve_baseline-offered_example =
    solve_baseline-offered solver still_clock parameters scenario none [] evaluation result
      early_assignment sound scenario-IsResolved scenario_evaluated scenario_solved first_assigned

order_once_example : chosen_sum chosen (λ c. if c.order_id == "O1" then 1 else 0) candidates ≤ 1
order_once_example = order_once scenario candidates chosen limits_met "O1"

slot_once_example : chosen_sum chosen (λ c. if c.slot_id == "L1" then 1 else 0) candidates ≤ 1
slot_once_example = slot_once scenario candidates chosen limits_met "L1"

wagon_load_example :
    chosen_sum chosen
      (λ c. if c.wagon_id == "W1" then weight_of (order_table scenario c.order_id) else 0)
      candidates
    ≤ capacity_of (first_wagon "W1" scenario.wagons)
wagon_load_example = wagon_load scenario candidates chosen limits_met "W1"

abbrev early_candidate : Candidate
early_candidate = record { order_id = "O1"; service_id = "S1"; wagon_id = "W1"; slot_id = "L1" }

candidates-Fits_iff_example :
    Memᴰ early_candidate (evaluate_order early_order index ("S1" ∷ [])).candidates
    ↔ Fits early_order index ("S1" ∷ []) early_candidate
candidates-Fits_iff_example = candidates-Fits_iff early_order index ("S1" ∷ []) early_candidate

evaluate_order-IsVerdict_example : IsVerdict (evaluate_order unweighed_order index ("S1" ∷ []))
evaluate_order-IsVerdict_example = evaluate_order-IsVerdict unweighed_order index ("S1" ∷ [])

evaluate_scenario_total_example :
    (e : ScenarioEvaluation) × (evaluate_scenario scenario none [] ≡ some e)
evaluate_scenario_total_example =
    evaluate_scenario_total scenario none [] scenario-IsResolved scenario-IsInCalendar

check_service-ServiceAdmits_iff_example :
    (check_service late_order (service_at "S1" 100 300) index ≡ [])
    ↔ ServiceAdmits late_order (service_at "S1" 100 300) index
check_service-ServiceAdmits_iff_example =
    check_service-ServiceAdmits_iff late_order (service_at "S1" 100 300) index

check_slot-SlotAdmits_iff_example :
    (check_slot early_order (wagon_on "W1" "S1") (slot_on "L1" "W1") ≡ [])
    ↔ SlotAdmits early_order (wagon_on "W1" "S1") (slot_on "L1" "W1")
check_slot-SlotAdmits_iff_example =
    check_slot-SlotAdmits_iff early_order (wagon_on "W1" "S1") (slot_on "L1" "W1")

validate_input-IsComplete_iff_example :
    (validate_input unweighed_order ≡ []) ↔ IsComplete unweighed_order
validate_input-IsComplete_iff_example = validate_input-IsComplete_iff unweighed_order

check_resolved-IsSoundPlacement_iff_example :
    (check_resolved
        (tables_of scenario)
        ("S1" ∷ [])
        early_assignment
        early_order
        (service_at "S1" 100 300)
        (wagon_on "W1" "S1")
        (slot_on "L1" "W1")
      ≡ [])
    ↔ IsSoundPlacement
        (tables_of scenario)
        ("S1" ∷ [])
        early_assignment
        early_order
        (service_at "S1" 100 300)
        (wagon_on "W1" "S1")
        (slot_on "L1" "W1")
check_resolved-IsSoundPlacement_iff_example =
    check_resolved-IsSoundPlacement_iff (tables_of scenario) ("S1" ∷ []) early_assignment
      early_order (service_at "S1" 100 300) (wagon_on "W1" "S1") (slot_on "L1" "W1")

references_resolve-IsResolved_iff_example : (references_resolve scenario ≡ []) ↔ IsResolved scenario
references_resolve-IsResolved_iff_example = references_resolve-IsResolved_iff scenario

build_change_set-IsApproved_example :
    (order : Order) × (window : AdjustmentWindow) × IsWindowOf scenario "O2" order window
    × IsApproved wanted scenario.policy window (add_service "S2")
build_change_set-IsApproved_example =
    build_change_set-IsApproved scenario "O2" wanted change_set (add_service "S2") scenario_changes
      (Memᴰ.head refl)

build_change_set-policy_violation_iff_example :
    ((fs : List ForbiddenAdjustment) × (build_change_set scenario "O2" barred ≡ policy_violation fs)
      × Memᴰ change_weight_limit fs)
    ↔ (Memᴰ (forbidden change_weight_limit) barred
        × Memᴰ change_weight_limit scenario.policy.forbidden_adjustments)
build_change_set-policy_violation_iff_example =
    build_change_set-policy_violation_iff scenario "O2" barred change_weight_limit

derive_snapshot-IsDerived_example :
    (derived : ScenarioInputSnapshot) × (order_services : List String) × (derive_snapshot scenario
        "SCN-ALT-001" "O2" change_set
      ≡ some (derived, order_services))
    × IsDerived scenario "O2" change_set derived order_services
derive_snapshot-IsDerived_example =
    derive_snapshot-IsDerived scenario "SCN-ALT-001" "O2" wanted change_set scenario-IsResolved
      scenario_changes

assignment_deltas-nil_iff_example :
    (assignment_deltas (early_assignment ∷ []) (early_assignment ∷ late_assignment ∷ []) ≡ []) ↔ (
      (id : String)
      → by_order_id (early_assignment ∷ []) id
        ≡ by_order_id (early_assignment ∷ late_assignment ∷ []) id)
assignment_deltas-nil_iff_example =
    assignment_deltas-nil_iff (early_assignment ∷ []) (early_assignment ∷ late_assignment ∷ [])

apply_to_baseline-Recorded_example :
    Recorded "O2"
      (map as_document result.order_outcomes)
      (apply_to_baseline
        (map as_document result.order_outcomes)
        "O2"
        available
        (some "SCN-ALT-001")).0
apply_to_baseline-Recorded_example =
    apply_to_baseline-Recorded (map as_document result.order_outcomes) "O2" available
      (some "SCN-ALT-001")

select_primary-eq-some_iff_example :
    (select_primary (no_eligible_slot ∷ ready_after_cutoff ∷ []) ≡ some ready_after_cutoff)
    ↔ IsRankedFirst (no_eligible_slot ∷ ready_after_cutoff ∷ []) ready_after_cutoff
select_primary-eq-some_iff_example =
    select_primary-eq-some_iff (no_eligible_slot ∷ ready_after_cutoff ∷ []) ready_after_cutoff

swapped : {A : Type 0} {x y c : A} → Memᴰ c (x ∷ y ∷ []) → Memᴰ c (y ∷ x ∷ [])
swapped (Memᴰ.head e) = Memᴰ.tail (Memᴰ.head e)
swapped (Memᴰ.tail m) = Memᴰ.head (Memᴰ.eq_of_singleton m)

select_primary_same_example :
    select_primary (no_eligible_slot ∷ ready_after_cutoff ∷ [])
    ≡ select_primary (ready_after_cutoff ∷ no_eligible_slot ∷ [])
select_primary_same_example =
    select_primary_same (no_eligible_slot ∷ ready_after_cutoff ∷ [])
      (ready_after_cutoff ∷ no_eligible_slot ∷ []) (λ c m. swapped m) (λ c m. swapped m)

abbrev record_of_scenario : ScenarioRecord
record_of_scenario = record {
  scenario_id = "SCN-001";
  scenario_name = "a";
  state = ready_to_solve;
  created_at = "1";
  as_of = 0;
  baseline_service_ids = "S1" ∷ [];
  policy_version = "1";
  assumption_ids = "A1" ∷ [];
  input_snapshot = scenario;
  parent_scenario_id = none;
  change_set = [];
}

-- A scenario with a run, and a run of another.
abbrev store : MemoryStore String
store = record {
  scenarios = ("SCN-001", record_of_scenario) ∷ [];
  validations = [];
  runs =
      ("RUN-001", record { run = run; created_at = some "2" })
      ∷ (
        "RUN-002",
        record {
          run = record run { run_id = "RUN-002"; scenario_id = "SCN-002" };
          created_at = some "3";
        },
      )
      ∷ [];
  explanations = ("RUN-001", "why") ∷ ("RUN-002", "why not") ∷ [];
  decisions = [];
  trace = ("SCN-001", scenario_created ∷ run_completed ∷ []) ∷ [];
  scenario_seq = 2;
  run_seq = 2;
  alternative_seq = 0;
}

delete_scenario-IsDeleted_example : IsDeleted "SCN-001" store (delete_scenario "SCN-001" store)
unfolding contains
delete_scenario-IsDeleted_example = delete_scenario-IsDeleted "SCN-001" store (refl, (refl, tt))

-- A validated scenario without a run.
abbrev validated_store : MemoryStore String
validated_store = record store {
  runs = [];
  run_seq = 0;
  validations = ("SCN-001", build_validation_result "SCN-001" evaluation) ∷ [];
}

validate_scenario-Advances_example : Advances store (validate_scenario "SCN-001" store).0
validate_scenario-Advances_example = validate_scenario-Advances "SCN-001" store

produced : run_baseline solver still_clock "RUN-001" "SCN-001" scenario parameters ≡ some run
unfolding run_baseline
produced =
    rw (scenario_evaluated, run_baseline)
      (rw (scenario_solved, run_baseline)
        (rw (plan_raises-false scenario scenario-IsInRange result.assignments, run_baseline) refl))

reply_settled :
    (solve_scenario solver still_clock
      (λ n. "RUN-001")
      "4"
      "SCN-001"
      record_of_scenario
      parameters
      validated_store).1
    ≡ inr run
unfolding solve_scenario record_run next_run_id
reply_settled = rw (produced, solve_scenario) (rw (run_ok, record_run) refl)

solved_run :
    (create_run solver still_clock (λ n. "RUN-001") "4" "SCN-001" parameters validated_store).1
    ≡ inr run
unfolding create_run get_scenario get get_validation
solved_run = reply_settled

create_run-IsSettled_example :
    IsSettled solver still_clock
      (λ n. "RUN-001")
      "4"
      "SCN-001"
      parameters
      validated_store
      (create_run solver still_clock (λ n. "RUN-001") "4" "SCN-001" parameters validated_store)
create_run-IsSettled_example =
    create_run-IsSettled solver still_clock (λ n. "RUN-001") "4" "SCN-001" parameters
      validated_store

-- ===== src/Samples/ApiWitnesses.antt =====
-- The theorems on the store and the API, each applied to concrete calls.
use mathlib.Core.List.Memᴰ
use piggyon.Base.{
  ◌≡◌, ◌≢◌, refl, ap, true, false, some, inr, List, [], ◌∷◌, String, Memᴰ, eq_iff, arith,
}
use piggyon.Baseline.Cp.{usable, IsSound}
use piggyon.Baseline.Solve.{first_answer}
use piggyon.Planning.{Run, as_document, OutcomeDocument}
use piggyon.Storage.{
  ScenarioRecord, RunRecord, MemoryStore, accepted, run_completed, get_scenario, get_run,
  list_decisions, list_trace, get_explanation, update_order_outcome, next_scenario_id,
  save_scenario, append_trace,
}
use piggyon.Storage.Abstract.{
  Write, put_scenario, put_run, put_explanation, add_event, drop_scenario, view, apply_all,
  meaning_all, empty_store, empty_view,
}
use piggyon.Storage.Refinement.{view-apply_all}
use piggyon.Storage.Outcomes.{BothKept, update_order_outcome-BothKept}
use piggyon.Scenarios.{create_run, delete_scenario, is_child_of}
use piggyon.Scenarios.Creation.{create_scenario, inconsistencies, new_record, body_refused}
use piggyon.Scenarios.Undo.{IsUnused, delete_scenario-create_scenario}
use piggyon.Scenarios.Solving.{IsRecorded}
use piggyon.Runs.{create_decision, create_alternative, export_run}
use piggyon.Runs
use piggyon.Runs.Replies.{ExportBundle}
use piggyon.Runs.Decisions.{IsDecided, create_decision-IsDecided}
use piggyon.Api.Consistency.{IsHost, IsConsistent}
use piggyon.Api.Reachable.{Reachable-IsConsistent}
use piggyon.Api.Live.{create_run_answers, export_run_answers}
use piggyon.Api.Kept.{IsKept, create_alternative-IsKept}
use piggyon.Samples.{scenario, parameters, still_clock, wanted}
use piggyon.Samples.Range.{scenario-IsInRange}
use piggyon.Samples.Solver.{chosen, solver, propose, propose-IsSound}
use piggyon.Samples.Runs.{evaluation, scenario_evaluated, run}
use piggyon.Api.Ids.{padded, naming, naming-IsNaming}
use piggyon.Samples.Calls.{
  creation, created_store, validated_store, solved_store, created_row, created-Reachable,
  solved-Reachable, outcome_for,
}
use piggyon.Alternatives.Changes.{
  forbidden_among, distinct, sorted_set, asks_for, requested, first_order, change_le, changes_of,
  build_change_set,
}
use piggyon.Alternatives.Deltas.{
  delta, distinct_ids, all_order_ids, assignment_deltas, apply_to_baseline,
}
use piggyon.Alternatives.Derive.{apply_all as apply_changes, derive_snapshot}
use piggyon.Alternatives.Search.{
  first_outcome, mark_first, found_with, judge, explore, search_changes, search_alternative,
}
use piggyon.Base.Dict.{get, put, pop, index_by, add_to_group}
use piggyon.Base.Int.{◌+ℤ◌, ◌-ℤ◌, ◌*ℤ◌}
use piggyon.Base.{any, select, flat_map, contains}
use piggyon.Base.{insert_by, sort_by}
use piggyon.Baseline.Cp.{eval}
use piggyon.Baseline.Objectives.{sum_expr, rank_in, canonical_cost, refinements}
use piggyon.Baseline.Outcomes.{
  eligible_outcome, review_outcome, ineligible_outcome, outcome_at, outcome, build_outcomes,
}
use piggyon.Baseline.Problem.{add_variable, group_into, first_wagon, all_known}
use piggyon.Baseline.Solve.{
  chosen_into, candidate_le, plan_assignments, solved, solve_from, solve_baseline,
}
use piggyon.Baseline.Stages.{exhausted, request, accept, stopped, answered, step, refine}
use piggyon.Eligibility.{
  pair_le, slot_candidate, scan_slots, scan_checked, scan_service, scan_services, conclude,
  evaluate_order, evaluate_with, evaluate_scenario,
}
use piggyon.Eligibility.Checks.{
  tags_within, missing_fields_of, validate_input, check_terminal, check_route, check_service,
  check_slot,
}
use piggyon.Eligibility.Lookup.{group_slots, build_index}
use piggyon.Eligibility.Types.{has_any_candidate}
use piggyon.Planning.{build_validation_result, packaged, run_baseline}
use piggyon.ReasonCodes.{key_lt, least, select_primary, insert_code, sorted_codes}
use piggyon.Snapshot.References.{
  duplicates_from, reject_duplicates, unless_known, service_errors, window_errors, order_errors,
  duplicate_errors, references_resolve,
}
use piggyon.Validator.{
  uniqueness_from, check_uniqueness, load_into, over_capacity, check_wagon_capacity, check_outcome,
  unreported, check_outcome_consistency, plan_findings, validate_plan,
}
use piggyon.Validator.Checks.{
  subset_of, handles, check_terminals, check_times, check_clearance, check_dimensions,
  check_resolved, check_assignment,
}

sound : IsSound solver
sound = propose-IsSound chosen

abbrev row : ScenarioRecord
row = new_record "SCN-001" "1" creation

abbrev run_row : RunRecord
run_row = record { run = run; created_at = some "2" }

abbrev writes : List (Write String)
writes =
    put_scenario row
    ∷ put_run run_row
    ∷ put_explanation "RUN-001" "why"
    ∷ add_event "SCN-001" run_completed
    ∷ drop_scenario "SCN-001"
    ∷ []

view-apply_all_example : view (apply_all writes empty_store) ≡ meaning_all writes empty_view
view-apply_all_example = view-apply_all writes

abbrev store : MemoryStore String
store = record empty_store {
  scenario_seq = 1;
  scenarios = ("SCN-001", row) ∷ [];
  runs =
      (
        "RUN-001",
        record run_row {
          run = record run {
            order_outcomes = as_document (outcome_for "O1") ∷ as_document (outcome_for "O2") ∷ [];
          };
        },
      )
      ∷ [];
}

apart : ◌≢◌ {A = String} "O1" "O2"
apart = ground (arith, eq_iff "O1" "O2")

abbrev stored_row : RunRecord
stored_row = record run_row {
  run = record run {
    order_outcomes = as_document (outcome_for "O1") ∷ as_document (outcome_for "O2") ∷ [];
  };
}

-- an outcome of `order_id` that an alternative was found for
abbrev offered : String → OutcomeDocument
offered id = record (as_document (outcome_for id)) { alternative_scenario_id = some "SCN-ALT-001" }

update_order_outcome-BothKept_example :
    BothKept "RUN-001" "O1" "O2" (offered "O1") (offered "O2") store stored_row (
      update_order_outcome "RUN-001" "O1"
        (offered "O1")
        (update_order_outcome "RUN-001" "O2" (offered "O2") store))
unfolding get
update_order_outcome-BothKept_example =
    update_order_outcome-BothKept "RUN-001" "O1" "O2" (offered "O1") (offered "O2") store stored_row
      apart refl refl refl (λ h. cc) (λ h. cc)

body_accepted : body_refused creation ≡ false
unfolding duplicates_from reject_duplicates unless_known service_errors window_errors order_errors
    duplicate_errors references_resolve contains any flat_map
body_accepted = refl

consistent_body : inconsistencies creation ≡ []
unfolding inconsistencies contains flat_map
consistent_body = refl

no_child : (r : ScenarioRecord) → Memᴰ r (row ∷ []) → is_child_of "SCN-002" r ≡ false
no_child r m = ap (is_child_of "SCN-002") (Memᴰ.eq_of_singleton m)

unused : IsUnused "SCN-002" store
unfolding get select packaged
unused = record {
  no_scenario = refl;
  no_validation = refl;
  no_trace = refl;
  no_runs = refl;
  no_children = no_child;
}

delete_scenario-create_scenario_example :
    delete_scenario "SCN-002" (create_scenario naming.scenario_id_of "1" creation store).0
    ≡ (record store { scenario_seq = 2 }, inr tt)
unfolding padded
delete_scenario-create_scenario_example =
    delete_scenario-create_scenario naming.scenario_id_of "1" creation store body_accepted
      consistent_body unused refl

create_decision-IsDecided_example :
    IsDecided "DEC-1" "RUN-001" accepted store (create_decision "DEC-1" "RUN-001" accepted store)
create_decision-IsDecided_example = create_decision-IsDecided "DEC-1" "RUN-001" accepted store

Reachable-IsConsistent_example : IsConsistent naming solved_store
Reachable-IsConsistent_example =
    Reachable-IsConsistent naming naming-IsNaming solver sound solved-Reachable

created_found : get_scenario "SCN-001" created_store ≡ some created_row
unfolding create_scenario get_scenario next_scenario_id save_scenario append_trace inconsistencies
    contains flat_map get put add_to_group duplicates_from reject_duplicates unless_known
    service_errors window_errors order_errors duplicate_errors references_resolve any padded
created_found = refl

first_answered :
    usable (first_answer solver still_clock parameters scenario evaluation).status ≡ true
unfolding forbidden_among distinct sorted_set asks_for requested first_order change_le changes_of
    build_change_set delta distinct_ids all_order_ids assignment_deltas apply_to_baseline
    apply_changes derive_snapshot first_outcome mark_first found_with judge explore search_changes
    search_alternative get put pop index_by add_to_group ◌+ℤ◌ ◌-ℤ◌ ◌*ℤ◌ any select flat_map contains
    insert_by sort_by eval sum_expr rank_in canonical_cost refinements eligible_outcome
    review_outcome ineligible_outcome outcome_at outcome build_outcomes add_variable group_into
    first_wagon all_known chosen_into candidate_le plan_assignments solved solve_from solve_baseline
    exhausted request accept stopped answered step refine pair_le slot_candidate scan_slots
    scan_checked scan_service scan_services conclude evaluate_order evaluate_with evaluate_scenario
    tags_within missing_fields_of validate_input check_terminal check_route check_service check_slot
    group_slots build_index has_any_candidate build_validation_result packaged run_baseline key_lt
    least select_primary insert_code sorted_codes duplicates_from reject_duplicates unless_known
    service_errors window_errors order_errors duplicate_errors references_resolve uniqueness_from
    check_uniqueness load_into over_capacity check_wagon_capacity check_outcome unreported
    check_outcome_consistency plan_findings validate_plan subset_of handles check_terminals
    check_times check_clearance check_dimensions check_resolved check_assignment propose
first_answered = refl

abbrev Answered : Type 0
Answered =
    (r : Run) × ((create_run solver still_clock naming.run_id_of "2" "SCN-001" parameters
        validated_store).1
      ≡ inr r)
    × IsRecorded "SCN-001" "2" parameters validated_store solved_store r

create_run_answers_example : Answered
create_run_answers_example =
    create_run_answers naming naming-IsNaming solver sound created-Reachable still_clock "2"
      "SCN-001" parameters created_row evaluation created_found scenario_evaluated refl
      first_answered scenario-IsInRange

first_solve : Answered
first_solve =
    create_run_answers naming naming-IsNaming solver sound created-Reachable still_clock "2"
      "SCN-001" parameters created_row evaluation created_found scenario_evaluated refl
      first_answered scenario-IsInRange

abbrev solved_row : RunRecord
solved_row = record { run = first_solve.0; created_at = some "2" }

solved_found : get_run first_solve.0.run_id solved_store ≡ some solved_row
solved_found = first_solve.2.stored

export_run_answers_example :
    (Runs.get_run first_solve.0.run_id solved_store ≡ (solved_store, inr solved_row))
    × (b : ExportBundle String) × (export_run first_solve.0.run_id solved_store
        ≡ (solved_store, inr b))
    × (host : IsHost solved_store solved_row.run.scenario_id) × (b ≡ (record {
      scenario_id = host.row.scenario_id;
      state = host.row.state;
      created_at = host.row.created_at;
      input_snapshot = host.row.input_snapshot;
      policy = host.row.input_snapshot.policy;
      run = solved_row;
      validation_result = host.validation;
      decisions = list_decisions first_solve.0.run_id solved_store;
      trace_events = list_trace solved_row.run.scenario_id solved_store;
      explanation = get_explanation first_solve.0.run_id solved_store;
    }))
export_run_answers_example =
    export_run_answers naming naming-IsNaming solver sound solved-Reachable first_solve.0.run_id
      solved_row solved_found

solved_got : get first_solve.0.run_id solved_store.runs ≡ some solved_row
unfolding get_run
solved_got = solved_found

create_alternative-IsKept_example :
    (q : RunRecord) × (get first_solve.0.run_id
        (create_alternative solver still_clock naming.alternative_scenario_id_of
          naming.alternative_run_id_of "3" first_solve.0.run_id "O2" wanted solved_store).0.runs
      ≡ some q)
    × IsKept "O2" solved_row q
create_alternative-IsKept_example =
    create_alternative-IsKept naming naming-IsNaming solver sound solved-Reachable still_clock "3"
      first_solve.0.run_id "O2" wanted first_solve.0.run_id solved_row solved_got

-- ===== src/Samples/Runs.antt =====
-- What the code computes on the concrete scenario.
use piggyon.Base.{
  ◌≡◌, refl, ◌∙◌, ap, ap₂, true, false, none, some, List, [], ◌∷◌, map, or_else, is_empty,
}
use piggyon.Snapshot.Resolved.{IsResolved}
use piggyon.Snapshot.Accepts.{references_resolve-IsResolved_iff}
use piggyon.Snapshot.{ScenarioInputSnapshot}
use piggyon.Eligibility.Lookup.{Index}
use piggyon.Eligibility.Types.{Candidate, ScenarioEvaluation}
use piggyon.Baseline.{Assignment, OrderOutcome, SolveResult}
use piggyon.Baseline.Cp.{Satisfies}
use piggyon.Baseline.Problem.{all_candidates, base_constraints}
use piggyon.Baseline.Stages.{Progress}
use piggyon.Baseline.Solve.{errored, first_progress}
use piggyon.Planning.{Run}
use piggyon.Alternatives.Changes.{Change, add_service, changes}
use piggyon.Alternatives.Derive.{derivation, derived_of}
use piggyon.Alternatives.Search.{Found, SearchResult, found}
use piggyon.Scenarios.{is_error}
use piggyon.Samples.{scenario, wagon_on, slot_on, parameters, still_clock, wanted, late_order}
use piggyon.Baseline.Lexicographic.{StageExact}
use piggyon.Baseline.Magnitude.{size-IsExact}
use piggyon.Baseline.Objectives.{priority_score, due_cost}
use piggyon.Base.{All}
use piggyon.Validator.{plan_raises}
use piggyon.Samples.Solver.{chosen, solver, propose, fits-Satisfies}
use piggyon.Alternatives.Changes.{
  forbidden_among, distinct, sorted_set, asks_for, requested, first_order, change_le, changes_of,
  build_change_set,
}
use piggyon.Alternatives.Deltas.{
  delta, distinct_ids, all_order_ids, assignment_deltas, apply_to_baseline,
}
use piggyon.Alternatives.Derive.{apply_all, derive_snapshot}
use piggyon.Alternatives.Search.{
  first_outcome, mark_first, found_with, judge, explore, search_changes, search_alternative,
}
use piggyon.Base.Dict.{get, put, pop, index_by, add_to_group}
use piggyon.Base.Int.{◌+ℤ◌, ◌-ℤ◌, ◌*ℤ◌}
use piggyon.Base.{any, select, flat_map, contains}
use piggyon.Base.{insert_by, sort_by}
use piggyon.Baseline.Cp.{eval}
use piggyon.Baseline.Objectives.{sum_expr, rank_in, canonical_cost, refinements}
use piggyon.Baseline.Outcomes.{
  eligible_outcome, review_outcome, ineligible_outcome, outcome_at, outcome, build_outcomes,
}
use piggyon.Baseline.Problem.{add_variable, group_into, first_wagon, all_known}
use piggyon.Baseline.Solve.{
  chosen_into, candidate_le, plan_assignments, solved, solve_from, solve_baseline,
}
use piggyon.Baseline.Stages.{exhausted, request, accept, stopped, answered, step, refine}
use piggyon.Eligibility.{
  pair_le, slot_candidate, scan_slots, scan_checked, scan_service, scan_services, conclude,
  evaluate_order, evaluate_with, evaluate_scenario,
}
use piggyon.Eligibility.Checks.{
  tags_within, missing_fields_of, validate_input, check_terminal, check_route, check_service,
  check_slot,
}
use piggyon.Eligibility.Lookup.{group_slots, build_index}
use piggyon.Eligibility.Types.{has_any_candidate}
use piggyon.Planning.{build_validation_result, packaged, run_baseline}
use piggyon.ReasonCodes.{key_lt, least, select_primary, insert_code, sorted_codes}
use piggyon.Snapshot.References.{
  duplicates_from, reject_duplicates, unless_known, service_errors, window_errors, order_errors,
  duplicate_errors, references_resolve,
}
use piggyon.Validator.{
  uniqueness_from, check_uniqueness, load_into, over_capacity, check_wagon_capacity, check_outcome,
  unreported, check_outcome_consistency, plan_findings, validate_plan,
}
use piggyon.Validator.Checks.{
  subset_of, handles, check_terminals, check_times, check_clearance, check_dimensions,
  check_resolved, check_assignment,
}

pub scenario-IsResolved : IsResolved scenario
unfolding forbidden_among distinct sorted_set asks_for requested first_order change_le changes_of
    build_change_set delta distinct_ids all_order_ids assignment_deltas apply_to_baseline apply_all
    derive_snapshot first_outcome mark_first found_with judge explore search_changes
    search_alternative get put pop index_by add_to_group ◌+ℤ◌ ◌-ℤ◌ ◌*ℤ◌ any select flat_map contains
    insert_by sort_by eval sum_expr rank_in canonical_cost refinements eligible_outcome
    review_outcome ineligible_outcome outcome_at outcome build_outcomes add_variable group_into
    first_wagon all_known chosen_into candidate_le plan_assignments solved solve_from solve_baseline
    exhausted request accept stopped answered step refine pair_le slot_candidate scan_slots
    scan_checked scan_service scan_services conclude evaluate_order evaluate_with evaluate_scenario
    tags_within missing_fields_of validate_input check_terminal check_route check_service check_slot
    group_slots build_index has_any_candidate build_validation_result packaged run_baseline key_lt
    least select_primary insert_code sorted_codes duplicates_from reject_duplicates unless_known
    service_errors window_errors order_errors duplicate_errors references_resolve uniqueness_from
    check_uniqueness load_into over_capacity check_wagon_capacity check_outcome unreported
    check_outcome_consistency plan_findings validate_plan subset_of handles check_terminals
    check_times check_clearance check_dimensions check_resolved check_assignment propose
scenario-IsResolved = (references_resolve-IsResolved_iff scenario).0 refl

abbrev pub index : Index
index = record {
  terminals = index_by (λ t. t.terminal_id) scenario.terminals;
  routes = index_by (λ r. r.route_constraint_id) scenario.route_constraints;
  services = index_by (λ v. v.service_id) scenario.services;
  wagons = index_by (λ w. w.wagon_id) scenario.wagons;
  slots_by_service =
      ("S1", (wagon_on "W1" "S1", slot_on "L1" "W1") ∷ [])
      ∷ ("S2", (wagon_on "W2" "S2", slot_on "L2" "W2") ∷ [])
      ∷ [];
}

abbrev pub evaluation : ScenarioEvaluation
evaluation = evaluate_with scenario none [] index

pub scenario_evaluated : evaluate_scenario scenario none [] ≡ some evaluation
unfolding forbidden_among distinct sorted_set asks_for requested first_order change_le changes_of
    build_change_set delta distinct_ids all_order_ids assignment_deltas apply_to_baseline apply_all
    derive_snapshot first_outcome mark_first found_with judge explore search_changes
    search_alternative get put pop index_by add_to_group ◌+ℤ◌ ◌-ℤ◌ ◌*ℤ◌ any select flat_map contains
    insert_by sort_by eval sum_expr rank_in canonical_cost refinements eligible_outcome
    review_outcome ineligible_outcome outcome_at outcome build_outcomes add_variable group_into
    first_wagon all_known chosen_into candidate_le plan_assignments solved solve_from solve_baseline
    exhausted request accept stopped answered step refine pair_le slot_candidate scan_slots
    scan_checked scan_service scan_services conclude evaluate_order evaluate_with evaluate_scenario
    tags_within missing_fields_of validate_input check_terminal check_route check_service check_slot
    group_slots build_index has_any_candidate build_validation_result packaged run_baseline key_lt
    least select_primary insert_code sorted_codes duplicates_from reject_duplicates unless_known
    service_errors window_errors order_errors duplicate_errors references_resolve uniqueness_from
    check_uniqueness load_into over_capacity check_wagon_capacity check_outcome unreported
    check_outcome_consistency plan_findings validate_plan subset_of handles check_terminals
    check_times check_clearance check_dimensions check_resolved check_assignment propose
scenario_evaluated = refl

abbrev pub result : SolveResult
result = or_else (solve_baseline solver still_clock parameters scenario evaluation) errored

pub scenario_solved : solve_baseline solver still_clock parameters scenario evaluation ≡ some result
unfolding forbidden_among distinct sorted_set asks_for requested first_order change_le changes_of
    build_change_set delta distinct_ids all_order_ids assignment_deltas apply_to_baseline apply_all
    derive_snapshot first_outcome mark_first found_with judge explore search_changes
    search_alternative get put pop index_by add_to_group ◌+ℤ◌ ◌-ℤ◌ ◌*ℤ◌ any select flat_map contains
    insert_by sort_by eval sum_expr rank_in canonical_cost refinements eligible_outcome
    review_outcome ineligible_outcome outcome_at outcome build_outcomes add_variable group_into
    first_wagon all_known chosen_into candidate_le plan_assignments solved solve_from solve_baseline
    exhausted request accept stopped answered step refine pair_le slot_candidate scan_slots
    scan_checked scan_service scan_services conclude evaluate_order evaluate_with evaluate_scenario
    tags_within missing_fields_of validate_input check_terminal check_route check_service check_slot
    group_slots build_index has_any_candidate build_validation_result packaged run_baseline key_lt
    least select_primary insert_code sorted_codes duplicates_from reject_duplicates unless_known
    service_errors window_errors order_errors duplicate_errors references_resolve uniqueness_from
    check_uniqueness load_into over_capacity check_wagon_capacity check_outcome unreported
    check_outcome_consistency plan_findings validate_plan subset_of handles check_terminals
    check_times check_clearance check_dimensions check_resolved check_assignment propose
scenario_solved = refl

abbrev pub early_assignment : Assignment
early_assignment = record { order_id = "O1"; service_id = "S1"; wagon_id = "W1"; slot_id = "L1" }

abbrev pub late_assignment : Assignment
late_assignment = record { order_id = "O2"; service_id = "S2"; wagon_id = "W2"; slot_id = "L2" }

pub scenario_planned : result.assignments ≡ early_assignment ∷ []
unfolding forbidden_among distinct sorted_set asks_for requested first_order change_le changes_of
    build_change_set delta distinct_ids all_order_ids assignment_deltas apply_to_baseline apply_all
    derive_snapshot first_outcome mark_first found_with judge explore search_changes
    search_alternative get put pop index_by add_to_group ◌+ℤ◌ ◌-ℤ◌ ◌*ℤ◌ any select flat_map contains
    insert_by sort_by eval sum_expr rank_in canonical_cost refinements eligible_outcome
    review_outcome ineligible_outcome outcome_at outcome build_outcomes add_variable group_into
    first_wagon all_known chosen_into candidate_le plan_assignments solved solve_from solve_baseline
    exhausted request accept stopped answered step refine pair_le slot_candidate scan_slots
    scan_checked scan_service scan_services conclude evaluate_order evaluate_with evaluate_scenario
    tags_within missing_fields_of validate_input check_terminal check_route check_service check_slot
    group_slots build_index has_any_candidate build_validation_result packaged run_baseline key_lt
    least select_primary insert_code sorted_codes duplicates_from reject_duplicates unless_known
    service_errors window_errors order_errors duplicate_errors references_resolve uniqueness_from
    check_uniqueness load_into over_capacity check_wagon_capacity check_outcome unreported
    check_outcome_consistency plan_findings validate_plan subset_of handles check_terminals
    check_times check_clearance check_dimensions check_resolved check_assignment propose
scenario_planned = refl

abbrev pub run : Run
run = packaged "RUN-001" "SCN-001" scenario parameters result

abbrev pub search : SearchResult
search =
    search_alternative solver still_clock parameters "SCN-ALT-001" "RUN-ALT-001" "O2" run scenario
      wanted

abbrev pub change_set : List Change
change_set = add_service "S2" ∷ []

pub scenario_changes : build_change_set scenario "O2" wanted ≡ changes change_set
unfolding forbidden_among distinct sorted_set asks_for requested first_order change_le changes_of
    build_change_set delta distinct_ids all_order_ids assignment_deltas apply_to_baseline apply_all
    derive_snapshot first_outcome mark_first found_with judge explore search_changes
    search_alternative get put pop index_by add_to_group ◌+ℤ◌ ◌-ℤ◌ ◌*ℤ◌ any select flat_map contains
    insert_by sort_by eval sum_expr rank_in canonical_cost refinements eligible_outcome
    review_outcome ineligible_outcome outcome_at outcome build_outcomes add_variable group_into
    first_wagon all_known chosen_into candidate_le plan_assignments solved solve_from solve_baseline
    exhausted request accept stopped answered step refine pair_le slot_candidate scan_slots
    scan_checked scan_service scan_services conclude evaluate_order evaluate_with evaluate_scenario
    tags_within missing_fields_of validate_input check_terminal check_route check_service check_slot
    group_slots build_index has_any_candidate build_validation_result packaged run_baseline key_lt
    least select_primary insert_code sorted_codes duplicates_from reject_duplicates unless_known
    service_errors window_errors order_errors duplicate_errors references_resolve uniqueness_from
    check_uniqueness load_into over_capacity check_wagon_capacity check_outcome unreported
    check_outcome_consistency plan_findings validate_plan subset_of handles check_terminals
    check_times check_clearance check_dimensions check_resolved check_assignment propose
scenario_changes = refl

abbrev pub derived : ScenarioInputSnapshot
derived = derived_of scenario "SCN-ALT-001" (derivation scenario "O2" change_set)

derived_accepted :
    derive_snapshot scenario "SCN-ALT-001" "O2" change_set ≡ some (derived, "S1" ∷ "S2" ∷ [])
unfolding forbidden_among distinct sorted_set asks_for requested first_order change_le changes_of
    build_change_set delta distinct_ids all_order_ids assignment_deltas apply_to_baseline apply_all
    derive_snapshot first_outcome mark_first found_with judge explore search_changes
    search_alternative get put pop index_by add_to_group ◌+ℤ◌ ◌-ℤ◌ ◌*ℤ◌ any select flat_map contains
    insert_by sort_by eval sum_expr rank_in canonical_cost refinements eligible_outcome
    review_outcome ineligible_outcome outcome_at outcome build_outcomes add_variable group_into
    first_wagon all_known chosen_into candidate_le plan_assignments solved solve_from solve_baseline
    exhausted request accept stopped answered step refine pair_le slot_candidate scan_slots
    scan_checked scan_service scan_services conclude evaluate_order evaluate_with evaluate_scenario
    tags_within missing_fields_of validate_input check_terminal check_route check_service check_slot
    group_slots build_index has_any_candidate build_validation_result packaged run_baseline key_lt
    least select_primary insert_code sorted_codes duplicates_from reject_duplicates unless_known
    service_errors window_errors order_errors duplicate_errors references_resolve uniqueness_from
    check_uniqueness load_into over_capacity check_wagon_capacity check_outcome unreported
    check_outcome_consistency plan_findings validate_plan subset_of handles check_terminals
    check_times check_clearance check_dimensions check_resolved check_assignment propose
derived_accepted = refl

abbrev pub derived_evaluation : ScenarioEvaluation
derived_evaluation = evaluate_with derived (some ("S1" ∷ [])) (("O2", "S1" ∷ "S2" ∷ []) ∷ []) index

derived_evaluated :
    evaluate_scenario derived (some ("S1" ∷ [])) (("O2", "S1" ∷ "S2" ∷ []) ∷ [])
    ≡ some derived_evaluation
unfolding forbidden_among distinct sorted_set asks_for requested first_order change_le changes_of
    build_change_set delta distinct_ids all_order_ids assignment_deltas apply_to_baseline apply_all
    derive_snapshot first_outcome mark_first found_with judge explore search_changes
    search_alternative get put pop index_by add_to_group ◌+ℤ◌ ◌-ℤ◌ ◌*ℤ◌ any select flat_map contains
    insert_by sort_by eval sum_expr rank_in canonical_cost refinements eligible_outcome
    review_outcome ineligible_outcome outcome_at outcome build_outcomes add_variable group_into
    first_wagon all_known chosen_into candidate_le plan_assignments solved solve_from solve_baseline
    exhausted request accept stopped answered step refine pair_le slot_candidate scan_slots
    scan_checked scan_service scan_services conclude evaluate_order evaluate_with evaluate_scenario
    tags_within missing_fields_of validate_input check_terminal check_route check_service check_slot
    group_slots build_index has_any_candidate build_validation_result packaged run_baseline key_lt
    least select_primary insert_code sorted_codes duplicates_from reject_duplicates unless_known
    service_errors window_errors order_errors duplicate_errors references_resolve uniqueness_from
    check_uniqueness load_into over_capacity check_wagon_capacity check_outcome unreported
    check_outcome_consistency plan_findings validate_plan subset_of handles check_terminals
    check_times check_clearance check_dimensions check_resolved check_assignment propose
derived_evaluated = refl

abbrev pub derived_result : SolveResult
derived_result =
    or_else (solve_baseline solver still_clock parameters derived derived_evaluation) errored

derived_solved :
    solve_baseline solver still_clock parameters derived derived_evaluation ≡ some derived_result
unfolding forbidden_among distinct sorted_set asks_for requested first_order change_le changes_of
    build_change_set delta distinct_ids all_order_ids assignment_deltas apply_to_baseline apply_all
    derive_snapshot first_outcome mark_first found_with judge explore search_changes
    search_alternative get put pop index_by add_to_group ◌+ℤ◌ ◌-ℤ◌ ◌*ℤ◌ any select flat_map contains
    insert_by sort_by eval sum_expr rank_in canonical_cost refinements eligible_outcome
    review_outcome ineligible_outcome outcome_at outcome build_outcomes add_variable group_into
    first_wagon all_known chosen_into candidate_le plan_assignments solved solve_from solve_baseline
    exhausted request accept stopped answered step refine pair_le slot_candidate scan_slots
    scan_checked scan_service scan_services conclude evaluate_order evaluate_with evaluate_scenario
    tags_within missing_fields_of validate_input check_terminal check_route check_service check_slot
    group_slots build_index has_any_candidate build_validation_result packaged run_baseline key_lt
    least select_primary insert_code sorted_codes duplicates_from reject_duplicates unless_known
    service_errors window_errors order_errors duplicate_errors references_resolve uniqueness_from
    check_uniqueness load_into over_capacity check_wagon_capacity check_outcome unreported
    check_outcome_consistency plan_findings validate_plan subset_of handles check_terminals
    check_times check_clearance check_dimensions check_resolved check_assignment propose
derived_solved = refl

pub derived_planned : derived_result.assignments ≡ early_assignment ∷ late_assignment ∷ []
unfolding forbidden_among distinct sorted_set asks_for requested first_order change_le changes_of
    build_change_set delta distinct_ids all_order_ids assignment_deltas apply_to_baseline apply_all
    derive_snapshot first_outcome mark_first found_with judge explore search_changes
    search_alternative get put pop index_by add_to_group ◌+ℤ◌ ◌-ℤ◌ ◌*ℤ◌ any select flat_map contains
    insert_by sort_by eval sum_expr rank_in canonical_cost refinements eligible_outcome
    review_outcome ineligible_outcome outcome_at outcome build_outcomes add_variable group_into
    first_wagon all_known chosen_into candidate_le plan_assignments solved solve_from solve_baseline
    exhausted request accept stopped answered step refine pair_le slot_candidate scan_slots
    scan_checked scan_service scan_services conclude evaluate_order evaluate_with evaluate_scenario
    tags_within missing_fields_of validate_input check_terminal check_route check_service check_slot
    group_slots build_index has_any_candidate build_validation_result packaged run_baseline key_lt
    least select_primary insert_code sorted_codes duplicates_from reject_duplicates unless_known
    service_errors window_errors order_errors duplicate_errors references_resolve uniqueness_from
    check_uniqueness load_into over_capacity check_wagon_capacity check_outcome unreported
    check_outcome_consistency plan_findings validate_plan subset_of handles check_terminals
    check_times check_clearance check_dimensions check_resolved check_assignment propose
derived_planned = refl

run_planned : run.assignments ≡ early_assignment ∷ []
unfolding packaged
run_planned = scenario_planned

abbrev target : OrderOutcome
target =
    or_else (first_outcome "O2" derived_result.order_outcomes)
      (outcome [] (evaluate_order late_order index []))

targeted : first_outcome "O2" derived_result.order_outcomes ≡ some target
unfolding forbidden_among distinct sorted_set asks_for requested first_order change_le changes_of
    build_change_set delta distinct_ids all_order_ids assignment_deltas apply_to_baseline apply_all
    derive_snapshot first_outcome mark_first found_with judge explore search_changes
    search_alternative get put pop index_by add_to_group ◌+ℤ◌ ◌-ℤ◌ ◌*ℤ◌ any select flat_map contains
    insert_by sort_by eval sum_expr rank_in canonical_cost refinements eligible_outcome
    review_outcome ineligible_outcome outcome_at outcome build_outcomes add_variable group_into
    first_wagon all_known chosen_into candidate_le plan_assignments solved solve_from solve_baseline
    exhausted request accept stopped answered step refine pair_le slot_candidate scan_slots
    scan_checked scan_service scan_services conclude evaluate_order evaluate_with evaluate_scenario
    tags_within missing_fields_of validate_input check_terminal check_route check_service check_slot
    group_slots build_index has_any_candidate build_validation_result packaged run_baseline key_lt
    least select_primary insert_code sorted_codes duplicates_from reject_duplicates unless_known
    service_errors window_errors order_errors duplicate_errors references_resolve uniqueness_from
    check_uniqueness load_into over_capacity check_wagon_capacity check_outcome unreported
    check_outcome_consistency plan_findings validate_plan subset_of handles check_terminals
    check_times check_clearance check_dimensions check_resolved check_assignment propose
targeted = refl

abbrev pub alternative : Found
alternative =
    found_with solver still_clock parameters "SCN-ALT-001" "RUN-ALT-001" "O2" run change_set derived
      derived_evaluation derived_result
      (assignment_deltas run.assignments derived_result.assignments) target

placed_late : contains "O2" (map (λ (a : Assignment). a.order_id) derived_result.assignments) ≡ true
unfolding contains
placed_late = rw derived_planned refl

deltas_differ :
    is_empty (assignment_deltas (early_assignment ∷ []) (early_assignment ∷ late_assignment ∷ []))
    ≡ false
unfolding forbidden_among distinct sorted_set asks_for requested first_order change_le changes_of
    build_change_set delta distinct_ids all_order_ids assignment_deltas apply_to_baseline apply_all
    derive_snapshot first_outcome mark_first found_with judge explore search_changes
    search_alternative get put pop index_by add_to_group ◌+ℤ◌ ◌-ℤ◌ ◌*ℤ◌ any select flat_map contains
    insert_by sort_by eval sum_expr rank_in canonical_cost refinements eligible_outcome
    review_outcome ineligible_outcome outcome_at outcome build_outcomes add_variable group_into
    first_wagon all_known chosen_into candidate_le plan_assignments solved solve_from solve_baseline
    exhausted request accept stopped answered step refine pair_le slot_candidate scan_slots
    scan_checked scan_service scan_services conclude evaluate_order evaluate_with evaluate_scenario
    tags_within missing_fields_of validate_input check_terminal check_route check_service check_slot
    group_slots build_index has_any_candidate build_validation_result packaged run_baseline key_lt
    least select_primary insert_code sorted_codes duplicates_from reject_duplicates unless_known
    service_errors window_errors order_errors duplicate_errors references_resolve uniqueness_from
    check_uniqueness load_into over_capacity check_wagon_capacity check_outcome unreported
    check_outcome_consistency plan_findings validate_plan subset_of handles check_terminals
    check_times check_clearance check_dimensions check_resolved check_assignment propose
deltas_differ = refl

changed : is_empty (assignment_deltas run.assignments derived_result.assignments) ≡ false
changed = ap₂ (λ x y. is_empty (assignment_deltas x y)) run_planned derived_planned ∙ deltas_differ

judged :
    judge solver still_clock parameters "SCN-ALT-001" "RUN-ALT-001" "O2" run change_set derived
      derived_evaluation derived_result
    ≡ found alternative
unfolding judge
judged = rw (placed_late, judge) (rw (changed, judge) (rw (targeted, judge) refl))

derived_plan_quiet : plan_raises derived (early_assignment ∷ late_assignment ∷ []) ≡ false
unfolding forbidden_among distinct sorted_set asks_for requested first_order change_le changes_of
    build_change_set delta distinct_ids all_order_ids assignment_deltas apply_to_baseline apply_all
    derive_snapshot first_outcome mark_first found_with judge explore search_changes
    search_alternative get put pop index_by add_to_group ◌+ℤ◌ ◌-ℤ◌ ◌*ℤ◌ any select flat_map contains
    insert_by sort_by eval sum_expr rank_in canonical_cost refinements eligible_outcome
    review_outcome ineligible_outcome outcome_at outcome build_outcomes add_variable group_into
    first_wagon all_known chosen_into candidate_le plan_assignments solved solve_from solve_baseline
    exhausted request accept stopped answered step refine pair_le slot_candidate scan_slots
    scan_checked scan_service scan_services conclude evaluate_order evaluate_with evaluate_scenario
    tags_within missing_fields_of validate_input check_terminal check_route check_service check_slot
    group_slots build_index has_any_candidate build_validation_result packaged run_baseline key_lt
    least select_primary insert_code sorted_codes duplicates_from reject_duplicates unless_known
    service_errors window_errors order_errors duplicate_errors references_resolve uniqueness_from
    check_uniqueness load_into over_capacity check_wagon_capacity check_outcome unreported
    check_outcome_consistency plan_findings validate_plan subset_of handles check_terminals
    check_times check_clearance check_dimensions check_resolved check_assignment propose plan_raises
derived_plan_quiet = refl

derived_quiet : plan_raises derived derived_result.assignments ≡ false
derived_quiet = ap (plan_raises derived) derived_planned ∙ derived_plan_quiet

pub searched : search ≡ found alternative
unfolding search_alternative search_changes explore
searched =
    rw (scenario_changes, search_alternative)
      (rw (derived_accepted, search_changes)
        (rw (derived_evaluated, explore)
          (rw (derived_solved, explore) (rw (derived_quiet, explore) judged))))

abbrev pub candidates : List Candidate
candidates = all_candidates evaluation

pub limits_met : Satisfies chosen (base_constraints scenario candidates)
unfolding forbidden_among distinct sorted_set asks_for requested first_order change_le changes_of
    build_change_set delta distinct_ids all_order_ids assignment_deltas apply_to_baseline apply_all
    derive_snapshot first_outcome mark_first found_with judge explore search_changes
    search_alternative get put pop index_by add_to_group ◌+ℤ◌ ◌-ℤ◌ ◌*ℤ◌ any select flat_map contains
    insert_by sort_by eval sum_expr rank_in canonical_cost refinements eligible_outcome
    review_outcome ineligible_outcome outcome_at outcome build_outcomes add_variable group_into
    first_wagon all_known chosen_into candidate_le plan_assignments solved solve_from solve_baseline
    exhausted request accept stopped answered step refine pair_le slot_candidate scan_slots
    scan_checked scan_service scan_services conclude evaluate_order evaluate_with evaluate_scenario
    tags_within missing_fields_of validate_input check_terminal check_route check_service check_slot
    group_slots build_index has_any_candidate build_validation_result packaged run_baseline key_lt
    least select_primary insert_code sorted_codes duplicates_from reject_duplicates unless_known
    service_errors window_errors order_errors duplicate_errors references_resolve uniqueness_from
    check_uniqueness load_into over_capacity check_wagon_capacity check_outcome unreported
    check_outcome_consistency plan_findings validate_plan subset_of handles check_terminals
    check_times check_clearance check_dimensions check_resolved check_assignment propose
limits_met = fits-Satisfies chosen (base_constraints scenario candidates) refl

pub stages_exact : All StageExact (refinements scenario candidates)
unfolding forbidden_among distinct sorted_set asks_for requested first_order change_le changes_of
    build_change_set delta distinct_ids all_order_ids assignment_deltas apply_to_baseline apply_all
    derive_snapshot first_outcome mark_first found_with judge explore search_changes
    search_alternative get put pop index_by add_to_group ◌+ℤ◌ ◌-ℤ◌ ◌*ℤ◌ any select flat_map contains
    insert_by sort_by eval sum_expr rank_in canonical_cost refinements eligible_outcome
    review_outcome ineligible_outcome outcome_at outcome build_outcomes add_variable group_into
    first_wagon all_known chosen_into candidate_le plan_assignments solved solve_from solve_baseline
    exhausted request accept stopped answered step refine pair_le slot_candidate scan_slots
    scan_checked scan_service scan_services conclude evaluate_order evaluate_with evaluate_scenario
    tags_within missing_fields_of validate_input check_terminal check_route check_service check_slot
    group_slots build_index has_any_candidate build_validation_result packaged run_baseline key_lt
    least select_primary insert_code sorted_codes duplicates_from reject_duplicates unless_known
    service_errors window_errors order_errors duplicate_errors references_resolve uniqueness_from
    check_uniqueness load_into over_capacity check_wagon_capacity check_outcome unreported
    check_outcome_consistency plan_findings validate_plan subset_of handles check_terminals
    check_times check_clearance check_dimensions check_resolved check_assignment propose
stages_exact = (
  λ v. size-IsExact v (priority_score scenario candidates) refl,
  (
    λ v. size-IsExact v (due_cost scenario candidates) refl,
    (λ v. size-IsExact v (canonical_cost scenario candidates "O1") refl, tt),
  ),
)

abbrev pub progress : Progress
progress = first_progress solver still_clock parameters scenario evaluation

pub progress_met : Satisfies progress.best progress.constraints
unfolding forbidden_among distinct sorted_set asks_for requested first_order change_le changes_of
    build_change_set delta distinct_ids all_order_ids assignment_deltas apply_to_baseline apply_all
    derive_snapshot first_outcome mark_first found_with judge explore search_changes
    search_alternative get put pop index_by add_to_group ◌+ℤ◌ ◌-ℤ◌ ◌*ℤ◌ any select flat_map contains
    insert_by sort_by eval sum_expr rank_in canonical_cost refinements eligible_outcome
    review_outcome ineligible_outcome outcome_at outcome build_outcomes add_variable group_into
    first_wagon all_known chosen_into candidate_le plan_assignments solved solve_from solve_baseline
    exhausted request accept stopped answered step refine pair_le slot_candidate scan_slots
    scan_checked scan_service scan_services conclude evaluate_order evaluate_with evaluate_scenario
    tags_within missing_fields_of validate_input check_terminal check_route check_service check_slot
    group_slots build_index has_any_candidate build_validation_result packaged run_baseline key_lt
    least select_primary insert_code sorted_codes duplicates_from reject_duplicates unless_known
    service_errors window_errors order_errors duplicate_errors references_resolve uniqueness_from
    check_uniqueness load_into over_capacity check_wagon_capacity check_outcome unreported
    check_outcome_consistency plan_findings validate_plan subset_of handles check_terminals
    check_times check_clearance check_dimensions check_resolved check_assignment propose
progress_met = fits-Satisfies chosen progress.constraints refl

pub run_ok : is_error run.run_state ≡ false
unfolding forbidden_among distinct sorted_set asks_for requested first_order change_le changes_of
    build_change_set delta distinct_ids all_order_ids assignment_deltas apply_to_baseline apply_all
    derive_snapshot first_outcome mark_first found_with judge explore search_changes
    search_alternative get put pop index_by add_to_group ◌+ℤ◌ ◌-ℤ◌ ◌*ℤ◌ any select flat_map contains
    insert_by sort_by eval sum_expr rank_in canonical_cost refinements eligible_outcome
    review_outcome ineligible_outcome outcome_at outcome build_outcomes add_variable group_into
    first_wagon all_known chosen_into candidate_le plan_assignments solved solve_from solve_baseline
    exhausted request accept stopped answered step refine pair_le slot_candidate scan_slots
    scan_checked scan_service scan_services conclude evaluate_order evaluate_with evaluate_scenario
    tags_within missing_fields_of validate_input check_terminal check_route check_service check_slot
    group_slots build_index has_any_candidate build_validation_result packaged run_baseline key_lt
    least select_primary insert_code sorted_codes duplicates_from reject_duplicates unless_known
    service_errors window_errors order_errors duplicate_errors references_resolve uniqueness_from
    check_uniqueness load_into over_capacity check_wagon_capacity check_outcome unreported
    check_outcome_consistency plan_findings validate_plan subset_of handles check_terminals
    check_times check_clearance check_dimensions check_resolved check_assignment propose
run_ok = refl

-- ===== src/Baseline/Outcomes.antt =====
-- app/solver/baseline.py: `_build_outcomes`.
use piggyon.Base.{
  Bool, not, List, [], ◌∷◌, map, text_le, is_empty, is_none, or_else, sort_by, if◌then◌else◌,
}
use piggyon.Base.Dict.{Dict, get}
use piggyon.ReasonCodes.{
  Verdict, because, missing_required_field, no_eligible_slot, capacity_conflict,
}
use piggyon.Eligibility.Types.{
  Candidate, InputState, valid, review_required, EligibilityState, ineligible, OrderEvaluation,
  ScenarioEvaluation, eligible_slot_ids, primary_reason_code,
}
use piggyon.Baseline.{
  assigned, unassigned, not_applicable, not_searched, complete_required_fields,
  correct_input_values, review_alternative, review_next_service, missing, reasons,
  reasons_by_service, eligible_slots, OrderOutcome,
}

-- The outcome of an order that passed the gate, placed or not.
unfoldable pub eligible_outcome : OrderEvaluation → Bool → OrderOutcome
eligible_outcome e placed =
    if placed
    then record {
      order_id = e.order_id;
      input_state = e.input_state;
      eligibility_state = e.eligibility_state;
      assignment_state = assigned;
      alternative_state = not_searched;
      primary_reason_code = Verdict.assigned;
      evidence = eligible_slots (eligible_slot_ids e);
      next_actions = [];
    }
    else record {
      order_id = e.order_id;
      input_state = e.input_state;
      eligibility_state = e.eligibility_state;
      assignment_state = unassigned;
      alternative_state = not_searched;
      primary_reason_code = because capacity_conflict;
      evidence = eligible_slots (eligible_slot_ids e);
      next_actions = review_next_service ∷ [];
    }

unfoldable pub review_outcome : OrderEvaluation → OrderOutcome
review_outcome e = record {
  order_id = e.order_id;
  input_state = e.input_state;
  eligibility_state = e.eligibility_state;
  assignment_state = not_applicable;
  alternative_state = not_searched;
  primary_reason_code = because (or_else (primary_reason_code e) missing_required_field);
  evidence = if is_empty e.missing_fields then reasons e.reason_codes else missing e.missing_fields;
  next_actions =
      (if is_empty e.missing_fields then correct_input_values else complete_required_fields) ∷ [];
}

unfoldable pub ineligible_outcome : OrderEvaluation → OrderOutcome
ineligible_outcome e = record {
  order_id = e.order_id;
  input_state = e.input_state;
  eligibility_state = e.eligibility_state;
  assignment_state = not_applicable;
  alternative_state = not_searched;
  primary_reason_code = because (or_else (primary_reason_code e) no_eligible_slot);
  evidence = reasons_by_service e.reason_codes e.evidence;
  next_actions = review_alternative ∷ [];
}

-- One round of the loop: the tests on the two states, then on the plan.
unfoldable pub outcome_at : InputState → EligibilityState → OrderEvaluation → Bool → OrderOutcome
unfolding review_outcome ineligible_outcome eligible_outcome
outcome_at review_required _ e placed = review_outcome e
outcome_at valid ineligible e placed = ineligible_outcome e
outcome_at valid _ e placed = eligible_outcome e placed

unfoldable pub outcome : Dict Candidate → OrderEvaluation → OrderOutcome
unfolding outcome_at
outcome plan e =
    outcome_at e.input_state e.eligibility_state e (not (is_none (get e.order_id plan)))

unfoldable pub build_outcomes : ScenarioEvaluation → Dict Candidate → List OrderOutcome
unfolding outcome
build_outcomes evaluation plan = map (outcome plan) (
    sort_by (λ (d : OrderEvaluation) (e : OrderEvaluation). text_le d.order_id e.order_id)
      evaluation.evaluations)

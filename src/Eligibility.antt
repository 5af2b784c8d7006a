-- ===== src/Eligibility.antt =====
-- app/rules/eligibility.py: the evaluation of an order and of a scenario.
pub mod Types
pub mod Lookup
pub mod Checks
pub mod Candidates
pub mod Verdicts
pub mod Groups
use piggyon.Base.{
  ℕ, ◌+◌, ◌*◌, Bool, true, false, ◌&&◌, ◌||◌, not, Option, none, some, List, [], ◌∷◌, ◌++◌, map,
  String, ◌==◌, ltb, leb, nat_eq, text_lt, text_le, when, any, is_all, is_none, is_empty, flat_map,
  contains, sort_by, if◌then◌else◌, or_else,
}
use piggyon.Base.Dict.{Dict, get, put, index_by, add_to_group}
use piggyon.ReasonCodes.{
  Code, missing_required_field, invalid_time_range, ready_after_cutoff, due_time_exceeded,
  terminal_not_compatible, terminal_not_on_service_route, tunnel_height_exceeded,
  route_width_exceeded, route_weight_exceeded, slot_height_exceeded, slot_width_exceeded,
  slot_length_exceeded, slot_weight_exceeded, wagon_weight_exceeded, service_unavailable,
  wagon_unavailable, slot_unavailable, slot_tag_not_supported, no_eligible_slot, select_primary,
  sorted_codes,
}
use piggyon.Snapshot.{
  Instant, CompatibilityTag, trailer_standard, trailer_tall, Terminal, RouteConstraint, Service,
  Wagon, Slot, Order, ScenarioInputSnapshot,
}
use piggyon.Eligibility.Types.{
  Candidate, InputState, valid, review_required, EligibilityState, not_evaluated, eligible,
  ineligible, ServiceEvidence, OrderEvaluation, ScenarioEvaluation,
}
use piggyon.Eligibility.Lookup.{Index, build_index}
use piggyon.Eligibility.Checks.{
  missing_fields_of, validate_input, check_service, check_slot, overflows,
}

-- the key `(display_order, position, slot_id)`
unfoldable pub pair_le : Wagon × Slot → Wagon × Slot → Bool
pair_le (w, s) (v, t) =
    ltb w.display_order v.display_order
    || nat_eq w.display_order v.display_order
      && (ltb s.position t.position || nat_eq s.position t.position && text_le s.slot_id t.slot_id)

-- What the inner loop appends to `candidates` for one wagon and slot.
unfoldable pub slot_candidate : Order → String → Wagon × Slot → List Candidate
slot_candidate order service_id (wagon, slot) =
    when (is_empty (check_slot order wagon slot)) (record {
      order_id = order.order_id;
      service_id = service_id;
      wagon_id = wagon.wagon_id;
      slot_id = slot.slot_id;
    })

-- The variables of the loop over `service_ids`.
pub record Scan : Type 0 where
  pub candidates : List Candidate
  pub violations : List Code
  pub evidence : Dict ServiceEvidence

-- The inner loop over the sorted slots of a service, and what follows it.
unfoldable pub scan_slots : Order → String → List (Wagon × Slot) → Scan → Scan
unfolding slot_candidate
scan_slots order service_id pairs s =
    let candidates = s.candidates ++ flat_map (slot_candidate order service_id) pairs in
    let slot_codes = flat_map (λ (p : Wagon × Slot). check_slot order p.0 p.1) pairs in
    record {
      candidates = candidates;
      violations = if is_empty candidates then s.violations ++ slot_codes else s.violations;
      evidence =
          put service_id
            (record { service_violations = []; slot_violations = some (sorted_codes slot_codes) })
            s.evidence;
    }

-- The rest of the loop body, once `_check_service` has answered.
unfoldable pub scan_checked : Order → Index → String → List Code → Scan → Scan
unfolding scan_slots pair_le
scan_checked order index service_id [] s =
    scan_slots order service_id
      (sort_by pair_le (or_else (get service_id index.slots_by_service) [])) s
scan_checked order index service_id (code ∷ codes) s = record s {
  violations = s.violations ++ code ∷ codes;
  evidence =
      put service_id
        (record { service_violations = sorted_codes (code ∷ codes); slot_violations = none })
        s.evidence;
}

unfoldable pub scan_service : Order → Index → String → Scan → Scan
unfolding scan_checked check_service
scan_service order index service_id s = elim (index.services service_id) [
  | none ↦ record s { violations = s.violations ++ service_unavailable ∷ [] }
  | some service ↦ scan_checked order index service_id (check_service order service index) s
]

unfoldable pub scan_services : Order → Index → List String → Scan → Scan
unfolding scan_service
scan_services order index [] s = s
scan_services order index (id ∷ ids) s =
    scan_services order index ids (scan_service order index id s)

-- what `_evaluate_order` returns from the loop's result
unfoldable pub conclude : Order → Scan → OrderEvaluation
conclude order s =
    if not (is_empty s.candidates)
    then record {
      order_id = order.order_id;
      input_state = valid;
      eligibility_state = eligible;
      reason_codes = [];
      missing_fields = [];
      candidates = s.candidates;
      evidence = s.evidence;
    }
    else record {
      order_id = order.order_id;
      input_state = valid;
      eligibility_state = ineligible;
      reason_codes =
          sorted_codes (if is_empty s.violations then no_eligible_slot ∷ [] else s.violations);
      missing_fields = [];
      candidates = [];
      evidence = s.evidence;
    }

abbrev pub start : Scan
start = record { candidates = []; violations = []; evidence = [] }

-- `_evaluate_order`
unfoldable pub evaluate_order : Order → Index → List String → OrderEvaluation
unfolding validate_input missing_fields_of scan_services conclude
evaluate_order order index service_ids =
    let input_codes = validate_input order in
    if not (is_empty input_codes)
    then record {
      order_id = order.order_id;
      input_state = review_required;
      eligibility_state = not_evaluated;
      reason_codes = sorted_codes input_codes;
      missing_fields = missing_fields_of order;
      candidates = [];
      evidence = [];
    }
    else conclude order (scan_services order index service_ids start)

-- `service_ids or snapshot.baseline_service_ids`: no list and an empty one fall back alike
abbrev pub ids_or : Option (List String) → List String → List String
ids_or none fallback = fallback
ids_or (some []) fallback = fallback
ids_or (some (id ∷ ids)) fallback = id ∷ ids

-- The evaluations of all orders with one index.
unfoldable pub evaluate_with :
    ScenarioInputSnapshot → Option (List String) → Dict (List String) → Index → ScenarioEvaluation
unfolding evaluate_order
evaluate_with snapshot service_ids service_ids_by_order index =
    let default_service_ids = ids_or service_ids snapshot.baseline_service_ids in
    record {
      evaluations =
          map
            (λ (order : Order).
              evaluate_order order index
                (or_else (get order.order_id service_ids_by_order) default_service_ids))
            snapshot.orders;
    }

-- `_check_service` raises for the service of that id.
abbrev pub service_raises : Index → String → Bool
service_raises index service_id = elim (index.services service_id) [
  | none ↦ false
  | some service ↦ overflows service (index.terminals service.destination_terminal_id)
]

-- `_evaluate_order` raises: every service on the list is checked, unless the input is incomplete.
unfoldable pub order_raises : Index → List String → Order → Bool
unfolding validate_input any
order_raises index service_ids order =
    is_empty (validate_input order) && any (service_raises index) service_ids

-- The evaluation of some order raises. What is evaluated before it has no other effect.
unfoldable pub any_raises :
    ScenarioInputSnapshot → Option (List String) → Dict (List String) → Index → Bool
unfolding order_raises any
any_raises snapshot service_ids service_ids_by_order index =
    any
      (λ (order : Order).
        order_raises index
          (or_else (get order.order_id service_ids_by_order)
            (ids_or service_ids snapshot.baseline_service_ids))
          order)
      snapshot.orders

-- `evaluate_scenario`; `none` is the KeyError of the index or the OverflowError of `_add_minutes`
unfoldable pub evaluate_scenario :
    ScenarioInputSnapshot → Option (List String) → Dict (List String) → Option ScenarioEvaluation
unfolding build_index evaluate_with any_raises
evaluate_scenario snapshot service_ids service_ids_by_order = elim (build_index snapshot) [
  | none ↦ none
  | some index ↦
      if any_raises snapshot service_ids service_ids_by_order index
      then none
      else some (evaluate_with snapshot service_ids service_ids_by_order index)
]

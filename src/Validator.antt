-- ===== src/Validator.antt =====
-- app/validation/plan_validator.py: the independent re-check of a solved plan. It shares no rule
-- with the eligibility gate; only the tag test on sets is the language's.
pub mod Checks
pub mod Placement
pub mod Sums
pub mod Outcomes
pub mod Agreement
pub mod Passes
use piggyon.Base.{
  ℕ, ◌+◌, any, Bool, true, false, not, ◌&&◌, Option, none, some, List, [], ◌∷◌, ◌++◌, map, String,
  ◌==◌, contains, flat_map, is_empty, when, ltb, or_else, sort_by, text_le, select, if◌then◌else◌,
}
use piggyon.Base.Dict.{Dict, get, put, index_by}
use piggyon.Snapshot.{Terminal, RouteConstraint, Service, Wagon, Slot, Order, ScenarioInputSnapshot}
use piggyon.Eligibility.Types.{InputState, EligibilityState}
use piggyon.Baseline.{Assignment, AssignmentState, OrderOutcome}
use piggyon.Validator.Checks.{
  Check, duplicate_order, duplicate_slot, wagon_capacity, reference, service_scope, outcome_check,
  ValidationFinding, finding, check_assignment, assignment_raises, Tables,
}

pub data ValidatorStatus : Type 0 where
  pass fail : ValidatorStatus

pub record PlanValidation : Type 0 where
  pub status : ValidatorStatus
  pub findings : List ValidationFinding

-- `_check_uniqueness`, with its two sets
unfoldable pub uniqueness_from :
    List String → List String → List Assignment → List ValidationFinding
uniqueness_from seen_orders seen_slots [] = []
uniqueness_from seen_orders seen_slots (a ∷ rest) =
    when (contains a.order_id seen_orders) (finding duplicate_order (some a.order_id))
    ++ (when (contains a.slot_id seen_slots) (finding duplicate_slot (some a.order_id))
        ++ uniqueness_from (a.order_id ∷ seen_orders) (a.slot_id ∷ seen_slots) rest)

unfoldable pub check_uniqueness : List Assignment → List ValidationFinding
unfolding uniqueness_from
check_uniqueness = uniqueness_from [] []

-- `loaded`: an assignment of an unknown order is skipped
unfoldable pub load_into : (String → Option Order) → List Assignment → Dict ℕ → Dict ℕ
unfolding get put
load_into orders [] loaded = loaded
load_into orders (a ∷ rest) loaded = load_into orders rest (elim (orders a.order_id) [
  | none ↦ loaded
  | some order ↦
      put a.wagon_id (or_else (get a.wagon_id loaded) 0 + or_else order.gross_weight_kg 0) loaded
])

unfoldable pub over_capacity : Option Wagon → ℕ → List ValidationFinding
over_capacity none total = []
over_capacity (some wagon) total =
    when (ltb wagon.max_total_weight_kg total) (finding wagon_capacity none)

-- `_check_wagon_capacity`
unfoldable pub check_wagon_capacity :
    (String → Option Order) → (String → Option Wagon) → List Assignment → List ValidationFinding
unfolding load_into over_capacity
check_wagon_capacity orders wagons assignments =
    flat_map (λ (e : String × ℕ). over_capacity (wagons e.0) e.1) (load_into orders assignments [])

abbrev pub reports_assigned : AssignmentState → Bool
reports_assigned AssignmentState.assigned = true
reports_assigned _ = false

abbrev pub marked_eligible : EligibilityState → Bool
marked_eligible EligibilityState.eligible = true
marked_eligible _ = false

abbrev pub under_review : InputState → Bool
under_review InputState.review_required = true
under_review _ = false

unfoldable pub check_outcome : List String → OrderOutcome → List ValidationFinding
check_outcome assigned_ids o =
    let is_assigned = contains o.order_id assigned_ids in
    let found = finding outcome_check (some o.order_id) in
    when (is_assigned && not (reports_assigned o.assignment_state)) found
    ++ (when (not is_assigned && reports_assigned o.assignment_state) found
        ++ (when (is_assigned && not (marked_eligible o.eligibility_state)) found
            ++ when (under_review o.input_state && is_assigned) found))

-- `sorted(assigned_ids - reported)` as a list of the set's elements
unfoldable pub unreported : List String → List String → List String
unfolding select
unreported assigned_ids reported =
    sort_by text_le (select (λ id. not (contains id reported)) assigned_ids)

-- `_check_outcome_consistency`
unfoldable pub check_outcome_consistency :
    List Assignment → List OrderOutcome → List ValidationFinding
unfolding check_outcome unreported
check_outcome_consistency assignments outcomes =
    let assigned_ids = map (λ (a : Assignment). a.order_id) assignments in
    flat_map (check_outcome assigned_ids) outcomes
    ++ map (λ id. finding outcome_check (some id))
        (unreported assigned_ids (map (λ (o : OrderOutcome). o.order_id) outcomes))

abbrev pub tables_of : ScenarioInputSnapshot → Tables
tables_of s = record {
  orders = index_by (λ o. o.order_id) s.orders;
  terminals = index_by (λ t. t.terminal_id) s.terminals;
  routes = index_by (λ r. r.route_constraint_id) s.route_constraints;
  services = index_by (λ v. v.service_id) s.services;
  wagons = index_by (λ w. w.wagon_id) s.wagons;
  slots = index_by (λ t. t.slot_id) s.slots;
}

-- `allowed_service_ids or snapshot.baseline_service_ids`
abbrev pub permitted_of : Option (List String) → List String → List String
permitted_of none fallback = fallback
permitted_of (some []) fallback = fallback
permitted_of (some (id ∷ ids)) fallback = id ∷ ids

unfoldable pub plan_findings :
    ScenarioInputSnapshot
    → List Assignment
    → List OrderOutcome
    → Option (List String)
    → List ValidationFinding
unfolding check_uniqueness check_assignment check_wagon_capacity check_outcome_consistency
plan_findings s assignments outcomes allowed_service_ids =
    let tables = tables_of s in
    check_uniqueness assignments
    ++ (flat_map (check_assignment tables (permitted_of allowed_service_ids s.baseline_service_ids))
          assignments
        ++ (check_wagon_capacity tables.orders tables.wagons assignments
            ++ check_outcome_consistency assignments outcomes))

-- `validate_plan`
unfoldable pub validate_plan :
    ScenarioInputSnapshot
    → List Assignment
    → List OrderOutcome
    → Option (List String)
    → PlanValidation
unfolding plan_findings
validate_plan s assignments outcomes allowed_service_ids =
    let findings = plan_findings s assignments outcomes allowed_service_ids in
    record { status = if is_empty findings then pass else fail; findings = findings }

-- `validate_plan` raises, by the dates of one of the assignments; else it returns what
-- `validate_plan` here gives.
unfoldable pub plan_raises : ScenarioInputSnapshot → List Assignment → Bool
unfolding any
plan_raises snapshot assignments = any (assignment_raises (tables_of snapshot)) assignments

-- ===== src/Validator/Checks.antt =====
-- app/validation/plan_validator.py: the checks of one assignment.
use piggyon.Base.{
  ℕ, ◌+◌, ◌*◌, Bool, true, false, not, ◌&&◌, ◌||◌, Option, none, some, List, [], ◌∷◌, ◌++◌, String,
  ◌==◌, any, is_all, contains, is_none, when, ltb, or_else,
}
use piggyon.Snapshot.{
  CompatibilityTag, trailer_standard, trailer_tall, Terminal, RouteConstraint, Service, Wagon, Slot,
  Order,
}
use piggyon.Baseline.{Assignment}

-- the first argument of `ValidationFinding`
pub data Check : Type 0 where
  duplicate_order duplicate_slot reference service_scope topology availability input : Check
  terminal time dimension weight tag route wagon_capacity outcome_check : Check

-- The message texts carry no further state and are left out.
pub record ValidationFinding : Type 0 where
  pub check : Check
  pub order_id : Option String

abbrev pub finding : Check → Option String → ValidationFinding
finding check order_id = record { check = check; order_id = order_id }

-- The dictionaries of `validate_plan`.
pub record Tables : Type 0 where
  pub orders : String → Option Order
  pub terminals : String → Option Terminal
  pub routes : String → Option RouteConstraint
  pub services : String → Option Service
  pub wagons : String → Option Wagon
  pub slots : String → Option Slot

abbrev pub same_tag : CompatibilityTag → CompatibilityTag → Bool
same_tag trailer_standard trailer_standard = true
same_tag trailer_tall trailer_tall = true
same_tag _ _ = false

-- `tags.issubset(set(supported))`
unfoldable pub subset_of : List CompatibilityTag → List CompatibilityTag → Bool
unfolding any
subset_of tags supported = is_all (λ t. any (same_tag t) supported) tags

unfoldable pub handles : Order → Option Terminal → Bool
unfolding subset_of
handles order none = false
handles order (some t) = subset_of order.compatibility_tags t.supported_tags

-- `_check_terminals`
unfoldable pub check_terminals :
    String → Order → Service → (String → Option Terminal) → List ValidationFinding
unfolding handles
check_terminals id order service terminals =
    let found = finding terminal (some id) in
    when (not (contains service.origin_terminal_id order.origin_terminal_ids)) found
    ++ (when (not (contains service.destination_terminal_id order.destination_terminal_ids)) found
        ++ (when (not (handles order (terminals service.origin_terminal_id))) found
            ++ when (not (handles order (terminals service.destination_terminal_id))) found))

abbrev pub handling_of : Option Terminal → ℕ
handling_of none = 0
handling_of (some t) = t.minimum_handling_minutes

-- `_check_times` raises: the sum is past the last instant of the calendar.
abbrev pub times_raise : Service → (String → Option Terminal) → Bool
times_raise service terminals =
    ltb service.arrival_left (handling_of (terminals service.destination_terminal_id) * 60000000)

-- `_check_times`, in microseconds, where `times_raise` does not say that it raises
unfoldable pub check_times :
    String → Order → Service → (String → Option Terminal) → List ValidationFinding
check_times id order service terminals =
    let handling = handling_of (terminals service.destination_terminal_id) in
    when (ltb service.planning_cutoff_at order.ready_at) (finding time (some id))
    ++ when (ltb order.due_at (service.arrival_at + handling * 60000000)) (finding time (some id))

unfoldable pub check_clearance : String → Order → Option RouteConstraint → List ValidationFinding
check_clearance id order none = finding route (some id) ∷ []
check_clearance id order (some r) =
    when (ltb r.max_height_mm order.dimensions_mm.height) (finding route (some id))
    ++ (when (ltb r.max_width_mm order.dimensions_mm.width) (finding route (some id))
        ++ when (ltb r.max_weight_kg (or_else order.gross_weight_kg 0)) (finding route (some id)))

-- `_check_dimensions`
unfoldable pub check_dimensions :
    String → Order → Service → Slot → (String → Option RouteConstraint) → List ValidationFinding
unfolding subset_of check_clearance
check_dimensions id order service slot routes =
    let dims = order.dimensions_mm in
    let limit = slot.max_dimensions_mm in
    when (ltb limit.height dims.height) (finding dimension (some id))
    ++ (when (ltb limit.width dims.width) (finding dimension (some id))
        ++ (when (ltb limit.length dims.length) (finding dimension (some id))
            ++ (when (ltb slot.max_weight_kg (or_else order.gross_weight_kg 0))
                  (finding weight (some id))
                ++ (when (not (subset_of order.compatibility_tags slot.supported_tags))
                      (finding tag (some id))
                    ++ check_clearance id order (routes service.route_constraint_id)))))

-- The loop body of `validate_plan`, once the four lookups have answered.
unfoldable pub check_resolved :
    Tables → List String → Assignment → Order → Service → Wagon → Slot → List ValidationFinding
unfolding check_terminals check_times check_dimensions
check_resolved tables permitted a order service wagon slot =
    when (not (contains a.service_id permitted)) (finding service_scope (some a.order_id))
    ++ (when (not (slot.wagon_id == wagon.wagon_id) || not (wagon.service_id == service.service_id))
          (finding topology (some a.order_id))
        ++ (when (not (service.available && (wagon.available && slot.available)))
              (finding availability (some a.order_id))
            ++ (when (is_none order.gross_weight_kg) (finding input (some a.order_id))
                ++ (check_terminals a.order_id order service tables.terminals
                    ++ (check_times a.order_id order service tables.terminals
                        ++ check_dimensions a.order_id order service slot tables.routes)))))

abbrev pub found_raises : Tables → Option Order → Option Service → Option Wagon → Option Slot → Bool
found_raises tables (some order) (some service) (some wagon) (some slot) =
    times_raise service tables.terminals
found_raises tables _ _ _ _ = false

-- The round of the loop for the assignment raises.
abbrev pub assignment_raises : Tables → Assignment → Bool
assignment_raises tables a =
    found_raises tables (tables.orders a.order_id) (tables.services a.service_id)
      (tables.wagons a.wagon_id) (tables.slots a.slot_id)

abbrev pub check_found :
    Tables
    → List String
    → Assignment
    → Option Order
    → Option Service
    → Option Wagon
    → Option Slot
    → List ValidationFinding
check_found tables permitted a (some order) (some service) (some wagon) (some slot) =
    check_resolved tables permitted a order service wagon slot
check_found tables permitted a _ _ _ _ = finding reference (some a.order_id) ∷ []

unfoldable pub check_assignment : Tables → List String → Assignment → List ValidationFinding
unfolding check_resolved
check_assignment tables permitted a =
    check_found tables permitted a (tables.orders a.order_id) (tables.services a.service_id)
      (tables.wagons a.wagon_id) (tables.slots a.slot_id)

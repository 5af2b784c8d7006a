-- ===== src/Rules.antt =====
-- The hard constraints of a placement, written as inequalities and inclusions. The eligibility gate
-- (app/rules/eligibility.py) and the plan validator (app/validation/plan_validator.py) check them by
-- separate code; the modules below relate each to this description.
pub mod Tags
pub mod Gate
pub mod Recheck
use piggyon.Base.{ℕ, ◌+◌, ◌*◌, ◌≤◌, ◌≡◌, Bool, true, Option, some, none, List, String, Memᴰ}
use piggyon.Snapshot.{CompatibilityTag, Terminal, RouteConstraint, Service, Wagon, Slot, Order}

-- Every tag of the order is supported.
abbrev pub Covers : List CompatibilityTag → List CompatibilityTag → Type 0
Covers tags supported = (t : CompatibilityTag) → Memᴰ t tags → Memᴰ t supported

-- A weight that is not stated exceeds nothing.
abbrev pub WeightWithin : Option ℕ → ℕ → Type 0
WeightWithin none limit = Unit
WeightWithin (some weight) limit = weight ≤ limit

abbrev pub Handles : Order → Option Terminal → Type 0
Handles order none = ⊥
Handles order (some terminal) = Covers order.compatibility_tags terminal.supported_tags

abbrev pub handling : Option Terminal → ℕ
handling none = 0
handling (some terminal) = terminal.minimum_handling_minutes

pub record Clears (order : Order) (route : RouteConstraint) : Type 0 where
  pub height : order.dimensions_mm.height ≤ route.max_height_mm
  pub width : order.dimensions_mm.width ≤ route.max_width_mm
  pub weight : WeightWithin order.gross_weight_kg route.max_weight_kg

-- A service without a route constraint limits nothing.
abbrev pub ClearsIfAny : Order → Option RouteConstraint → Type 0
ClearsIfAny order none = Unit
ClearsIfAny order (some route) = Clears order route

pub record Travels (terminals : String → Option Terminal) (order : Order) (service : Service)
    : Type 0 where
  pub from_origin : Memᴰ service.origin_terminal_id order.origin_terminal_ids
  pub to_destination : Memᴰ service.destination_terminal_id order.destination_terminal_ids
  pub origin_handles : Handles order (terminals service.origin_terminal_id)
  pub destination_handles : Handles order (terminals service.destination_terminal_id)
  pub ready_in_time : order.ready_at ≤ service.planning_cutoff_at
  pub delivered_in_time :
      service.arrival_at + handling (terminals service.destination_terminal_id) * 60000000
      ≤ order.due_at

pub record FitsSlot (order : Order) (slot : Slot) : Type 0 where
  pub tags : Covers order.compatibility_tags slot.supported_tags
  pub height : order.dimensions_mm.height ≤ slot.max_dimensions_mm.height
  pub width : order.dimensions_mm.width ≤ slot.max_dimensions_mm.width
  pub length : order.dimensions_mm.length ≤ slot.max_dimensions_mm.length
  pub weight : WeightWithin order.gross_weight_kg slot.max_weight_kg

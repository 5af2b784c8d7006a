-- ===== src/Snapshot.antt =====
-- app/models/snapshot.py: the typed input snapshot.
-- An instant is its number of microseconds since the earliest one. The map decorations (`Geo`,
-- `DisplayPosition`) hold floats that no rule reads, and are left out.
pub mod References
pub mod Resolved
pub mod Accepts
use piggyon.Base.{
  ℕ, Bool, ◌&&◌, not, Option, none, some, List, [], ◌∷◌, ◌++◌, map, String, ◌==◌, ltb, leb, when,
  contains, flat_map, if◌then◌else◌,
}
use piggyon.Base.Int.{ℤ}

abbrev pub Instant : Type 0
Instant = ℕ

pub data CompatibilityTag : Type 0 where
  trailer_standard trailer_tall : CompatibilityTag

pub data PriorityClass : Type 0 where
  p1 p2 p3 : PriorityClass

pub data AllowedAdjustment : Type 0 where
  add_order_approved_service change_to_approved_terminal : AllowedAdjustment

pub data ForbiddenAdjustment : Type 0 where
  change_weight_limit change_dimension_limit change_route_clearance change_due_at :
      ForbiddenAdjustment

pub record OperatingWindow : Type 0 where
  pub opens : String
  pub closes : String

pub record Dimensions : Type 0 where
  pub length : ℕ
  pub width : ℕ
  pub height : ℕ

pub record Assumption : Type 0 where
  pub assumption_id : String
  pub source_type : String
  pub description : String
  pub impact_scope : String

pub record Shipper : Type 0 where
  pub shipper_id : String
  pub display_name : String

pub record Terminal : Type 0 where
  pub terminal_id : String
  pub display_name : String
  pub operating_window : OperatingWindow
  pub intake_cutoff_minutes : Option ℕ
  pub minimum_handling_minutes : ℕ
  pub supported_tags : List CompatibilityTag

pub record RouteConstraint : Type 0 where
  pub route_constraint_id : String
  pub max_height_mm : ℕ
  pub max_width_mm : ℕ
  pub max_weight_kg : ℕ

pub record Service : Type 0 where
  pub service_id : String
  pub origin_terminal_id : String
  pub destination_terminal_id : String
  pub departure_at : Instant
  pub arrival_at : Instant
  -- what the calendar has left after `arrival_at`, on its own clock, in microseconds: a sum beyond
  -- it raises OverflowError
  pub arrival_left : ℕ
  pub planning_cutoff_at : Instant
  pub route_constraint_id : String
  pub available : Bool

pub record Wagon : Type 0 where
  pub wagon_id : String
  pub service_id : String
  pub max_total_weight_kg : ℕ
  pub available : Bool
  pub display_order : ℕ

pub record Slot : Type 0 where
  pub slot_id : String
  pub wagon_id : String
  pub position : ℕ
  pub max_weight_kg : ℕ
  pub max_dimensions_mm : Dimensions
  pub supported_tags : List CompatibilityTag
  pub available : Bool

pub record AdjustmentWindow : Type 0 where
  pub alternative_service_ids : List String
  pub alternative_destination_terminal_ids : List String

pub record Order : Type 0 where
  pub order_id : String
  pub shipper_id : String
  pub origin_terminal_ids : List String
  pub destination_terminal_ids : List String
  pub ready_at : Instant
  pub due_at : Instant
  pub gross_weight_kg : Option ℕ
  pub dimensions_mm : Dimensions
  pub compatibility_tags : List CompatibilityTag
  pub priority_class : PriorityClass
  pub adjustment_window : Option AdjustmentWindow

pub record PriorityScores : Type 0 where
  pub p1 : ℤ
  pub p2 : ℤ
  pub p3 : ℤ

pub record Policy : Type 0 where
  pub policy_id : String
  pub policy_version : String
  pub priority_scores : PriorityScores
  pub objective_order : List String
  pub allowed_adjustments : List AllowedAdjustment
  pub forbidden_adjustments : List ForbiddenAdjustment

pub data ScenarioType : Type 0 where
  baseline alternative : ScenarioType

pub record ScenarioInputSnapshot : Type 0 where
  pub schema_version : String
  pub scenario_id : String
  pub scenario_type : ScenarioType
  pub as_of : Instant
  pub timezone : String
  pub baseline_service_ids : List String
  pub assumptions : List Assumption
  pub shippers : List Shipper
  pub terminals : List Terminal
  pub route_constraints : List RouteConstraint
  pub services : List Service
  pub wagons : List Wagon
  pub slots : List Slot
  pub orders : List Order
  pub policy : Policy

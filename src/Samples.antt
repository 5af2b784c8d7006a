-- ===== src/Samples.antt =====
-- A small scenario and a small solver, on which the theorems of the other files are applied.
pub mod Solver
pub mod Range
pub mod Runs
pub mod Calls
pub mod ApiWitnesses
pub mod AiWitnesses
pub mod Witnesses
use piggyon.Base.{ℕ, Bool, true, false, Option, none, some, List, [], ◌∷◌, String}
use piggyon.Base.Int.{pos}
use piggyon.Snapshot.{
  trailer_standard, PriorityClass, p1, p2, add_order_approved_service, change_to_approved_terminal,
  change_weight_limit, OperatingWindow, Dimensions, Assumption, Shipper, Terminal, RouteConstraint,
  Service, Wagon, Slot, AdjustmentWindow, Order, Policy, ScenarioInputSnapshot, baseline,
}
use piggyon.Baseline.{SolverParameters}
use piggyon.Alternatives.Changes.{AdjustmentType, allowed, forbidden}

abbrev pub trailer : Dimensions
trailer = record { length = 13600; width = 2550; height = 2700 }

abbrev pub terminal_at : String → Terminal
terminal_at id = record {
  terminal_id = id;
  display_name = id;
  operating_window = record { opens = "06:00"; closes = "22:00" };
  intake_cutoff_minutes = some 60;
  minimum_handling_minutes = 30;
  supported_tags = trailer_standard ∷ [];
}

-- A service that closes at `cutoff`, in hours, and needs four hours.
abbrev pub service_at : String → ℕ → ℕ → Service
service_at id cutoff arrival = record {
  service_id = id;
  origin_terminal_id = "T1";
  destination_terminal_id = "T2";
  departure_at = cutoff;
  arrival_at = arrival;
  arrival_left = 251000000000000000;
  planning_cutoff_at = cutoff;
  route_constraint_id = "R1";
  available = true;
}

abbrev pub wagon_on : String → String → Wagon
wagon_on id service_id = record {
  wagon_id = id;
  service_id = service_id;
  max_total_weight_kg = 30000;
  available = true;
  display_order = 1;
}

abbrev pub slot_on : String → String → Slot
slot_on id wagon_id = record {
  slot_id = id;
  wagon_id = wagon_id;
  position = 1;
  max_weight_kg = 28000;
  max_dimensions_mm = trailer;
  supported_tags = trailer_standard ∷ [];
  available = true;
}

abbrev pub order_of : String → ℕ → Option ℕ → Option AdjustmentWindow → Order
order_of id ready weight window = record {
  order_id = id;
  shipper_id = "H1";
  origin_terminal_ids = "T1" ∷ [];
  destination_terminal_ids = "T2" ∷ [];
  ready_at = ready;
  due_at = 9000000000;
  gross_weight_kg = weight;
  dimensions_mm = trailer;
  compatibility_tags = trailer_standard ∷ [];
  priority_class = p1;
  adjustment_window = window;
}

abbrev pub early_order : Order
early_order = order_of "O1" 50 (some 20000) none

-- Ready after the first service closes; the second one is approved for it.
abbrev pub late_order : Order
late_order = order_of "O2" 150 (some 20000) (
    some
      (record { alternative_service_ids = "S2" ∷ []; alternative_destination_terminal_ids = [] }))

abbrev pub unweighed_order : Order
unweighed_order = order_of "O3" 50 none none

abbrev pub policy : Policy
policy = record {
  policy_id = "P";
  policy_version = "1";
  priority_scores = record { p1 = pos 100; p2 = pos 60; p3 = pos 30 };
  objective_order =
      "maximize_assigned_order_count" ∷ "maximize_priority_score" ∷ "minimize_due_at"
      ∷ "canonical_order_slot" ∷ [];
  allowed_adjustments = add_order_approved_service ∷ change_to_approved_terminal ∷ [];
  forbidden_adjustments = change_weight_limit ∷ [];
}

abbrev pub scenario : ScenarioInputSnapshot
scenario = record {
  schema_version = "1.0.0";
  scenario_id = "SCN-001";
  scenario_type = baseline;
  as_of = 0;
  timezone = "Asia/Seoul";
  baseline_service_ids = "S1" ∷ [];
  assumptions =
      record {
        assumption_id = "A1";
        source_type = "DEMO_ASSUMPTION";
        description = "a";
        impact_scope = "a";
      }
      ∷ [];
  shippers = record { shipper_id = "H1"; display_name = "H1" } ∷ [];
  terminals = terminal_at "T1" ∷ terminal_at "T2" ∷ [];
  route_constraints =
      record {
        route_constraint_id = "R1";
        max_height_mm = 4000;
        max_width_mm = 2600;
        max_weight_kg = 40000;
      }
      ∷ [];
  services = service_at "S1" 100 300 ∷ service_at "S2" 200 400 ∷ [];
  wagons = wagon_on "W1" "S1" ∷ wagon_on "W2" "S2" ∷ [];
  slots = slot_on "L1" "W1" ∷ slot_on "L2" "W2" ∷ [];
  orders = early_order ∷ late_order ∷ unweighed_order ∷ [];
  policy = policy;
}

abbrev pub parameters : SolverParameters
parameters = record { random_seed = 20260801; num_search_workers = 1; max_time_seconds = 10 }

abbrev pub wanted : List AdjustmentType
wanted = allowed add_order_approved_service ∷ []

abbrev pub barred : List AdjustmentType
barred = allowed add_order_approved_service ∷ forbidden change_weight_limit ∷ []

abbrev pub still_clock : ℕ → ℕ
still_clock n = 0

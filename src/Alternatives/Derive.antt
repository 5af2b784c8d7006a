-- ===== src/Alternatives/Derive.antt =====
-- app/services/alternatives.py: `derive_snapshot`.
use piggyon.Base.{
  Option, none, some, List, [], ◌∷◌, ◌++◌, map, String, ◌==◌, contains, is_empty, if◌then◌else◌,
}
use piggyon.Snapshot.{Order, ScenarioInputSnapshot, alternative}
use piggyon.Snapshot.References.{references_resolve}
use piggyon.Alternatives.Changes.{Change, change_terminal, add_service}

-- `if service_id not in ids: ids.append(service_id)`
abbrev pub append_new : String → List String → List String
append_new id ids = if contains id ids then ids else ids ++ id ∷ []

-- `order["destination_terminal_ids"] = [terminal_id]`, for the order of that name
abbrev pub redirected : String → String → Order → Order
redirected order_id terminal_id o =
    if o.order_id == order_id
    then record {
      order_id = o.order_id;
      shipper_id = o.shipper_id;
      origin_terminal_ids = o.origin_terminal_ids;
      destination_terminal_ids = terminal_id ∷ [];
      ready_at = o.ready_at;
      due_at = o.due_at;
      gross_weight_kg = o.gross_weight_kg;
      dimensions_mm = o.dimensions_mm;
      compatibility_tags = o.compatibility_tags;
      priority_class = o.priority_class;
      adjustment_window = o.adjustment_window;
    }
    else o

-- The loop: the orders of the payload, `order_services` and `permitted`.
pub record Derivation : Type 0 where
  pub orders : List Order
  pub order_services : List String
  pub permitted : List String

abbrev pub applied : String → Change → Derivation → Derivation
applied order_id (change_terminal id) d = record {
  orders = map (redirected order_id id) d.orders;
  order_services = d.order_services;
  permitted = d.permitted;
}
applied order_id (add_service id) d = record {
  orders = d.orders;
  order_services = append_new id d.order_services;
  permitted = append_new id d.permitted;
}

unfoldable pub apply_all : String → List Change → Derivation → Derivation
unfolding contains
apply_all order_id [] d = d
apply_all order_id (c ∷ cs) d = apply_all order_id cs (applied order_id c d)

abbrev pub derivation : ScenarioInputSnapshot → String → List Change → Derivation
derivation snapshot order_id change_set = apply_all order_id change_set (record {
  orders = snapshot.orders;
  order_services = snapshot.baseline_service_ids;
  permitted = snapshot.baseline_service_ids;
})

-- the payload
abbrev pub derived_of : ScenarioInputSnapshot → String → Derivation → ScenarioInputSnapshot
derived_of s scenario_id d = record {
  schema_version = s.schema_version;
  scenario_id = scenario_id;
  scenario_type = alternative;
  as_of = s.as_of;
  timezone = s.timezone;
  baseline_service_ids = d.permitted;
  assumptions = s.assumptions;
  shippers = s.shippers;
  terminals = s.terminals;
  route_constraints = s.route_constraints;
  services = s.services;
  wagons = s.wagons;
  slots = s.slots;
  orders = d.orders;
  policy = s.policy;
}

-- `none` where `model_validate` refuses the payload. All that it changes is checked by the names'
-- check alone.
unfoldable pub derive_snapshot :
    ScenarioInputSnapshot
    → String
    → String
    → List Change
    → Option (ScenarioInputSnapshot × List String)
unfolding apply_all references_resolve
derive_snapshot snapshot scenario_id order_id change_set =
    let d = derivation snapshot order_id change_set in
    let derived = derived_of snapshot scenario_id d in
    if is_empty (references_resolve derived) then some (derived, d.order_services) else none

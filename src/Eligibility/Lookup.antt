-- ===== src/Eligibility/Lookup.antt =====
-- app/rules/eligibility.py: `_Index`, the lookup tables over one snapshot.
use piggyon.Base.{Option, none, some, List, [], ◌∷◌, String}
use piggyon.Base.Dict.{Dict, index_by, add_to_group}
use piggyon.Snapshot.{Terminal, RouteConstraint, Service, Wagon, Slot, ScenarioInputSnapshot}

-- `_Index`
pub record Index : Type 0 where
  pub terminals : String → Option Terminal
  pub routes : String → Option RouteConstraint
  pub services : String → Option Service
  pub wagons : String → Option Wagon
  pub slots_by_service : Dict (List (Wagon × Slot))

-- The loop over the slots. `none` is the KeyError of `self.wagons[slot.wagon_id]`.
unfoldable pub group_slots :
    (String → Option Wagon)
    → List Slot
    → Dict (List (Wagon × Slot))
    → Option (Dict (List (Wagon × Slot)))
group_slots wagons [] groups = some groups
group_slots wagons (slot ∷ slots) groups = elim (wagons slot.wagon_id) [
  | none ↦ none
  | some wagon ↦ group_slots wagons slots (add_to_group wagon.service_id (wagon, slot) groups)
]

unfoldable pub build_index : ScenarioInputSnapshot → Option Index
unfolding group_slots
build_index s =
    let wagons = index_by (λ (w : Wagon). w.wagon_id) s.wagons in
    elim (group_slots wagons s.slots []) [
      | none ↦ none
      | some groups ↦ some (record {
        terminals = index_by (λ t. t.terminal_id) s.terminals;
        routes = index_by (λ r. r.route_constraint_id) s.route_constraints;
        services = index_by (λ v. v.service_id) s.services;
        wagons = wagons;
        slots_by_service = groups;
      })
    ]

-- ===== src/Scenarios/Creation.antt =====
-- app/routers/scenarios.py: `create_scenario`, with the checks of the request's models before it.
use piggyon.Base.{
  ℕ, Bool, not, ◌||◌, inl, inr, Option, List, [], ◌++◌, map, String, ◌==◌, when, contains, flat_map,
  is_empty, if◌then◌else◌,
}
use piggyon.Errors.{
  invalid_input, Mismatch, other_policy_version, unknown_service, unknown_assumption, no_detail,
  mismatches, api_error,
}
use piggyon.Snapshot.{Assumption, ScenarioInputSnapshot}
use piggyon.Snapshot.References.{service_ids, references_resolve}
use piggyon.Storage.{
  validation_required, ScenarioRecord, scenario_created, MemoryStore, next_scenario_id,
  save_scenario, append_trace,
}
use piggyon.Scenarios.{Step}

pub record ScenarioCreateRequest : Type 0 where
  pub scenario_name : String
  pub as_of : ℕ
  pub baseline_service_ids : List String
  pub input_snapshot : ScenarioInputSnapshot
  pub policy_version : String
  pub assumption_ids : List String
  pub parent_scenario_id : Option String

-- The lists with `min_length=1`, of the request and of the snapshot, and the snapshot's own check.
abbrev pub body_refused : ScenarioCreateRequest → Bool
body_refused p =
    is_empty p.baseline_service_ids
    || is_empty p.input_snapshot.baseline_service_ids
    || is_empty p.input_snapshot.assumptions
    || is_empty p.input_snapshot.shippers
    || is_empty p.input_snapshot.terminals
    || is_empty p.input_snapshot.route_constraints
    || is_empty p.input_snapshot.services
    || is_empty p.input_snapshot.wagons
    || is_empty p.input_snapshot.slots
    || is_empty p.input_snapshot.orders
    || not (is_empty (references_resolve p.input_snapshot))

abbrev pub assumption_ids_of : ScenarioInputSnapshot → List String
assumption_ids_of s = map (λ (a : Assumption). a.assumption_id) s.assumptions

-- `_reject_inconsistent_request`: the details it collects
unfoldable pub inconsistencies : ScenarioCreateRequest → List Mismatch
unfolding contains flat_map
inconsistencies p =
    when (not (p.policy_version == p.input_snapshot.policy.policy_version)) other_policy_version
    ++ flat_map (λ id. when (not (contains id (service_ids p.input_snapshot))) (unknown_service id))
        p.baseline_service_ids
    ++ flat_map
        (λ id.
          when (not (contains id (assumption_ids_of p.input_snapshot))) (unknown_assumption id))
        p.assumption_ids

abbrev pub new_record : String → String → ScenarioCreateRequest → ScenarioRecord
new_record id now p = record {
  scenario_id = id;
  scenario_name = p.scenario_name;
  state = validation_required;
  created_at = now;
  as_of = p.as_of;
  baseline_service_ids = p.baseline_service_ids;
  policy_version = p.policy_version;
  assumption_ids = p.assumption_ids;
  input_snapshot = p.input_snapshot;
  parent_scenario_id = p.parent_scenario_id;
  change_set = [];
}

module _ {E : Type 0} (scenario_id_of : ℕ → String) (now : String) where
  unfoldable pub create_scenario : ScenarioCreateRequest → MemoryStore E → Step E ScenarioRecord
  unfolding inconsistencies next_scenario_id save_scenario append_trace references_resolve
  create_scenario p s =
      if body_refused p
      then (s, inl (api_error invalid_input no_detail))
      else if not (is_empty (inconsistencies p))
      then (s, inl (api_error invalid_input (mismatches (inconsistencies p))))
      else let (taken, sequence) = next_scenario_id s in
        let id = scenario_id_of sequence in
        let made = new_record id now p in
        (append_trace id scenario_created (save_scenario made taken), inr made)

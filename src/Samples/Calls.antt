-- ===== src/Samples/Calls.antt =====
-- Concrete stores, ids and calls of the API.
use piggyon.Base.{none, [], ◌∷◌, String}
use piggyon.Storage.{ScenarioRecord, MemoryStore}
use piggyon.ReasonCodes.{because, ready_after_cutoff}
use piggyon.Eligibility.Types.{valid, ineligible}
use piggyon.Baseline.{OrderOutcome, AssignmentState, not_searched, reasons}
use piggyon.Storage.Abstract.{empty_store}
use piggyon.Scenarios.{validate_scenario, create_run}
use piggyon.Scenarios.Creation.{ScenarioCreateRequest, new_record, create_scenario}
use piggyon.Api.Ids.{naming}
use piggyon.Api.Reachable.{Calls, Reachable}
use piggyon.Samples.{scenario, parameters, still_clock}
use piggyon.Samples.Solver.{solver}

abbrev pub creation : ScenarioCreateRequest
creation = record {
  scenario_name = "a";
  as_of = 0;
  baseline_service_ids = "S1" ∷ [];
  input_snapshot = scenario;
  policy_version = "1";
  assumption_ids = "A1" ∷ [];
  parent_scenario_id = none;
}

-- The store after a scenario was created, after it was validated, and after it was solved.
abbrev pub created_store : MemoryStore String
created_store = (create_scenario naming.scenario_id_of "1" creation empty_store).0

abbrev pub validated_store : MemoryStore String
validated_store = (validate_scenario "SCN-001" created_store).0

abbrev pub solved_store : MemoryStore String
solved_store =
    (create_run solver still_clock naming.run_id_of "2" "SCN-001" parameters validated_store).0

abbrev pub created_row : ScenarioRecord
created_row = new_record "SCN-001" "1" creation

pub created-Reachable : Reachable naming solver created_store
created-Reachable = Reachable.after Reachable.start (Calls.creates "1" creation)

pub solved-Reachable : Reachable naming solver solved_store
solved-Reachable =
    Reachable.after (Reachable.after created-Reachable (Calls.validates "SCN-001"))
      (Calls.solves still_clock "2" "SCN-001" parameters)

-- an order that is ready too late
abbrev pub outcome_for : String → OrderOutcome
outcome_for id = record {
  order_id = id;
  input_state = valid;
  eligibility_state = ineligible;
  assignment_state = AssignmentState.unassigned;
  alternative_state = not_searched;
  primary_reason_code = because ready_after_cutoff;
  evidence = reasons (ready_after_cutoff ∷ []);
  next_actions = [];
}

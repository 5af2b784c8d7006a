-- ===== src/Scenarios/Reads.antt =====
-- app/routers/scenarios.py: the endpoints that read scenarios. They leave the store as it is.
use piggyon.Base.{
  ℕ, inl, inr, Option, none, some, List, [], ◌∷◌, map, String, length, ◌⊎◌, ◌==◌, if◌then◌else◌,
}
use piggyon.Errors.{scenario_not_found, validation_required, no_detail, ApiError, api_error}
use piggyon.Planning.{ValidationResult}
use piggyon.Alternatives.Changes.{Change}
use piggyon.Storage.{
  ScenarioState, ScenarioRecord, DecisionState, DecisionRecord, MemoryStore, get_validation,
  latest_run_id, list_decisions,
}
use piggyon.Storage

-- `ScenarioSummary`
pub record ScenarioSummary : Type 0 where
  pub scenario_id : String
  pub scenario_name : String
  pub state : ScenarioState
  pub created_at : String
  pub parent_scenario_id : Option String
  pub change_set : List Change
  pub order_count : ℕ
  pub latest_run_id : Option String
  pub decision_state : Option DecisionState

-- `ScenarioDetail`: the row, with the run that is read beside it
pub record ScenarioDetail : Type 0 where
  pub row : ScenarioRecord
  pub latest_run_id : Option String

-- `decisions[-1]["decision_state"] if decisions else None`
unfoldable pub standing : List DecisionRecord → Option DecisionState
standing [] = none
standing (d ∷ []) = some d.decision_state
standing (d ∷ e ∷ ds) = standing (e ∷ ds)

-- `record.get("scenario_name") or record["scenario_id"]`
abbrev pub name_or : String → String → String
name_or name id = if name == "" then id else name

module _ {E : Type 0} (s : MemoryStore E) where
  -- `list_decisions(latest_run_id) if latest_run_id else []`
  abbrev pub decisions_on : Option String → List DecisionRecord
  decisions_on none = []
  decisions_on (some run_id) = list_decisions run_id s

  unfoldable pub summarise : ScenarioRecord → ScenarioSummary
  unfolding latest_run_id list_decisions standing
  summarise r =
      let latest = Storage.latest_run_id r.scenario_id s in
      record {
        scenario_id = r.scenario_id;
        scenario_name = name_or r.scenario_name r.scenario_id;
        state = r.state;
        created_at = r.created_at;
        parent_scenario_id = r.parent_scenario_id;
        change_set = r.change_set;
        order_count = length r.input_snapshot.orders;
        latest_run_id = latest;
        decision_state = standing (decisions_on latest);
      }

  unfoldable pub list_scenarios : ℕ → List ScenarioSummary
  unfolding Storage.list_scenarios summarise
  list_scenarios limit = map summarise (Storage.list_scenarios limit s)

  unfoldable pub get_scenario : String → ApiError ⊎ ScenarioDetail
  unfolding Storage.get_scenario latest_run_id
  get_scenario id = elim (Storage.get_scenario id s) [
    | none ↦ inl (api_error scenario_not_found no_detail)
    | some r ↦ inr (record { row = r; latest_run_id = Storage.latest_run_id id s })
  ]

  unfoldable pub read_validation : String → ApiError ⊎ ValidationResult
  unfolding Storage.get_scenario get_validation
  read_validation id = elim (Storage.get_scenario id s) [
    | none ↦ inl (api_error scenario_not_found no_detail)
    | some r ↦ elim (get_validation id s) [
      | none ↦ inl (api_error validation_required no_detail)
      | some result ↦ inr result
    ]
  ]

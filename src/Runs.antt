-- ===== src/Runs.antt =====
-- app/routers/runs.py: the endpoints that read a run, search an alternative for one order, record a
-- decision and export the bundle, as steps on the store. The texts of the ids and the time of the
-- clock are arguments. Actor, reason and selected plan of a decision are not kept.
pub mod Replies
pub mod Decisions
use Prim.Native.String.{◌++◌}
use piggyon.Base.{
  ℕ, Bool, true, false, not, ◌&&◌, ◌||◌, inl, inr, Option, none, some, List, String, ◌==◌, any,
  is_empty, if◌then◌else◌,
}
use piggyon.Errors.{
  invalid_input, scenario_not_found, run_not_found, validation_required, policy_violation,
  run_not_acceptable, no_detail, unknown_order, many_terminals, forbidden_types, ApiError,
  api_error, internal,
}
use piggyon.Snapshot.{Order, ScenarioInputSnapshot}
use piggyon.Baseline.{SolverStatus, optimal, available, no_alternative}
use piggyon.Baseline.Cp.{CpSolver}
use piggyon.Validator.{ValidatorStatus, pass}
use piggyon.Planning.{OutcomeDocument, Run}
use piggyon.Alternatives.Changes.{AdjustmentType, Change}
use piggyon.Alternatives.Deltas.{apply_to_baseline}
use piggyon.Alternatives.Search.{
  Found, SearchResult, found, not_found, refused, ambiguous, raised, search_alternative,
}
use piggyon.Storage.{
  solved, ScenarioRecord, RunRecord, DecisionState, accepted, DecisionRecord, alternative_created,
  decision_recorded, MemoryStore, save_scenario, get_scenario, save_validation, get_validation,
  save_run, get_explanation, clear_explanation, update_order_outcome, next_alternative_sequence,
  save_decision, list_decisions, append_trace, list_trace,
}
use piggyon.Storage
use piggyon.Scenarios.{Step, is_error}
use piggyon.Runs.Replies.{
  AlternativeReply, created, unavailable, alternative_result, unavailable_result, ExportBundle,
}

-- `run["solver_status"] == "OPTIMAL"`
abbrev pub is_optimal_status : SolverStatus → Bool
is_optimal_status optimal = true
is_optimal_status _ = false

abbrev pub is_pass : ValidatorStatus → Bool
is_pass pass = true
is_pass _ = false

-- `acceptable`
abbrev pub acceptable : Run → Bool
acceptable run = is_optimal_status run.solver_status && is_pass run.validator_status

abbrev pub is_accepted : DecisionState → Bool
is_accepted accepted = true
is_accepted _ = false

-- `any(o.order_id == payload.order_id for o in snapshot.orders)`
abbrev pub has_order : String → ScenarioInputSnapshot → Bool
has_order order_id snapshot = any (λ (o : Order). o.order_id == order_id) snapshot.orders

-- the run's document with the outcomes that `apply_to_baseline` leaves
abbrev pub with_outcomes : List OutcomeDocument → RunRecord → RunRecord
with_outcomes outcomes r = record r { run = record r.run { order_outcomes = outcomes } }

-- the row of the derived scenario
abbrev pub derived_record : ScenarioRecord → String → String → Found → ScenarioRecord
derived_record scenario order_id now f = record {
  scenario_id = f.alternative_scenario_id;
  scenario_name = scenario.scenario_name ++ ("-alt-" ++ order_id);
  state = solved;
  created_at = now;
  as_of = scenario.as_of;
  baseline_service_ids = f.alternative_snapshot.baseline_service_ids;
  policy_version = scenario.policy_version;
  assumption_ids = scenario.assumption_ids;
  input_snapshot = f.alternative_snapshot;
  parent_scenario_id = some scenario.scenario_id;
  change_set = f.change_set;
}

module _ {E : Type 0} where
  -- `get_run`: the response model has no state ERROR
  unfoldable pub get_run : String → MemoryStore E → Step E RunRecord
  unfolding Storage.get_run
  get_run run_id s = elim (Storage.get_run run_id s) [
    | none ↦ (s, inl (api_error run_not_found no_detail))
    | some r ↦ (s, if is_error r.run.run_state then inl internal else inr r)
  ]

  -- The writes for an alternative that is found, in the code's order.
  unfoldable pub store_found :
      String
      → String
      → String
      → ScenarioRecord
      → String
      → Found
      → OutcomeDocument
      → MemoryStore E
      → MemoryStore E
  unfolding save_scenario save_run save_validation update_order_outcome clear_explanation
      append_trace
  store_found run_id order_id now scenario owner f update s =
      let derived_stored = save_scenario (derived_record scenario order_id now f) s in
      let run_stored =
        save_run (record { run = f.alternative_run; created_at = none }) derived_stored in
      let validated =
        save_validation f.alternative_scenario_id f.alternative_validation run_stored in
      let linked =
        clear_explanation run_id (update_order_outcome run_id order_id update validated) in
      append_trace f.alternative_scenario_id alternative_created
        (append_trace owner alternative_created linked)

  -- From the outcome of the search on. `baseline_run` is the stored row itself, so what
  -- `apply_to_baseline` writes into it is stored at once, also where the model then refuses the body.
  unfoldable pub settle :
      String
      → String
      → String
      → ScenarioRecord
      → RunRecord
      → SearchResult
      → MemoryStore E
      → Step E AlternativeReply
  unfolding apply_to_baseline save_run append_trace store_found alternative_result
      unavailable_result
  settle run_id order_id now scenario r (refused types) s =
      (s, inl (api_error policy_violation (forbidden_types types)))
  settle run_id order_id now scenario r (ambiguous id terminal_ids) s =
      (s, inl (api_error invalid_input (many_terminals terminal_ids)))
  settle run_id order_id now scenario r raised s = (s, inl internal)
  settle run_id order_id now scenario r (not_found change_set verdict) s =
      let (outcomes, update) =
        apply_to_baseline r.run.order_outcomes order_id no_alternative none in
      (
        append_trace r.run.scenario_id alternative_created (save_run (with_outcomes outcomes r) s),
        unavailable_result order_id change_set verdict update,
      )
  settle run_id order_id now scenario r (found f) s =
      let (outcomes, update) =
        apply_to_baseline r.run.order_outcomes order_id available
          (some f.alternative_scenario_id) in
      elim (alternative_result run_id f update) [
        | none ↦ (save_run (with_outcomes outcomes r) s, inl internal)
        | some (body, written) ↦ (
          store_found run_id order_id now scenario r.run.scenario_id f written s,
          inr (created body),
        )
      ]

  module _ (solve : CpSolver) (clock : ℕ → ℕ) (scenario_id_of run_id_of : ℕ → String)
      (now : String) where
    -- from the number of the alternative on
    unfoldable pub search_and_settle :
        String
        → String
        → List AdjustmentType
        → ScenarioRecord
        → RunRecord
        → MemoryStore E
        → Step E AlternativeReply
    unfolding next_alternative_sequence search_alternative settle
    search_and_settle run_id order_id types scenario r s =
        let (taken, sequence) = next_alternative_sequence s in
        settle run_id order_id now scenario r
          (search_alternative solve clock r.run.solver_parameters (scenario_id_of sequence)
            (run_id_of sequence) order_id r.run scenario.input_snapshot types)
          taken

    unfoldable pub create_alternative :
        String → String → List AdjustmentType → MemoryStore E → Step E AlternativeReply
    unfolding Storage.get_run get_scenario any search_and_settle
    create_alternative run_id order_id types s = elim (Storage.get_run run_id s) [
      | none ↦ (s, inl (api_error run_not_found no_detail))
      | some r ↦ elim (get_scenario r.run.scenario_id s) [
        | none ↦ (s, inl (api_error scenario_not_found no_detail))
        | some scenario ↦
            if not (has_order order_id scenario.input_snapshot)
            then (s, inl (api_error invalid_input unknown_order))
            else search_and_settle run_id order_id types scenario r s
      ]
    ]

  unfoldable pub create_decision :
      String → String → DecisionState → MemoryStore E → Step E DecisionRecord
  unfolding Storage.get_run save_decision append_trace
  create_decision decision_id run_id state s = elim (Storage.get_run run_id s) [
    | none ↦ (s, inl (api_error run_not_found no_detail))
    | some r ↦
        if is_accepted state && not (acceptable r.run)
        then (s, inl (api_error run_not_acceptable no_detail))
        else let decision : DecisionRecord = record {
          decision_id = decision_id;
          run_id = run_id;
          decision_state = state;
        } in
          (
            append_trace r.run.scenario_id decision_recorded (save_decision decision s),
            inr decision,
          )
  ]

  unfoldable pub export_run : String → MemoryStore E → Step E (ExportBundle E)
  unfolding Storage.get_run get_scenario get_validation list_decisions list_trace get_explanation
  export_run run_id s = elim (Storage.get_run run_id s) [
    | none ↦ (s, inl (api_error run_not_found no_detail))
    | some r ↦ elim (get_scenario r.run.scenario_id s) [
      | none ↦ (s, inl (api_error scenario_not_found no_detail))
      | some scenario ↦ elim (get_validation r.run.scenario_id s) [
        | none ↦ (s, inl (api_error validation_required no_detail))
        | some validation ↦ (
          s,
          if is_error r.run.run_state
              then inl internal
              else inr (record {
                scenario_id = scenario.scenario_id;
                state = scenario.state;
                created_at = scenario.created_at;
                input_snapshot = scenario.input_snapshot;
                policy = scenario.input_snapshot.policy;
                run = r;
                validation_result = validation;
                decisions = list_decisions run_id s;
                trace_events = list_trace r.run.scenario_id s;
                explanation = get_explanation run_id s;
              }),
        )
      ]
    ]
  ]

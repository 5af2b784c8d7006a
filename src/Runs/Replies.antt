-- ===== src/Runs/Replies.antt =====
-- The bodies that app/routers/runs.py answers with: models of app/models/api.py.
use piggyon.Base.{inl, inr, ◌⊎◌, Option, none, some, List, String, is_empty, ◌||◌, if◌then◌else◌}
use piggyon.Errors.{ApiError, internal}
use piggyon.ReasonCodes.{Verdict}
use piggyon.Snapshot.{Policy, ScenarioInputSnapshot}
use piggyon.Validator.{ValidatorStatus}
use piggyon.Planning.{OutcomeDocument, ValidationResult}
use piggyon.Alternatives.Changes.{Change}
use piggyon.Alternatives.Deltas.{AssignmentDelta}
use piggyon.Alternatives.Search.{Found}
use piggyon.Storage.{ScenarioState, RunRecord, DecisionRecord, TraceEvent}

pub record AlternativeResult : Type 0 where
  pub parent_run_id : String
  pub alternative_scenario_id : String
  pub alternative_run_id : String
  pub change_set : List Change
  pub impacted_order_ids : List String
  pub baseline_order_update : OutcomeDocument
  pub alternative_run_order_outcome : OutcomeDocument
  pub assignment_deltas : List AssignmentDelta
  pub validator_status : ValidatorStatus

-- `AlternativeUnavailableResult`; its two literals are left out
pub record AlternativeUnavailable : Type 0 where
  pub order_id : String
  pub change_set : List Change
  pub baseline_order_update : OutcomeDocument
  pub reason_code : Verdict

pub data AlternativeReply : Type 0 where
  created : AlternativeResult → AlternativeReply
  unavailable : AlternativeUnavailable → AlternativeReply

-- The body with the outcome it reports; `none` where the model refuses it: `min_length=1`, and an
-- update that is `{}`.
unfoldable pub alternative_result :
    String → Found → Option OutcomeDocument → Option (AlternativeResult × OutcomeDocument)
alternative_result run_id f none = none
alternative_result run_id f (some update) =
    if is_empty f.impacted_order_ids || is_empty f.assignment_deltas
    then none
    else some (
      record {
        parent_run_id = run_id;
        alternative_scenario_id = f.alternative_scenario_id;
        alternative_run_id = f.alternative_run_id;
        change_set = f.change_set;
        impacted_order_ids = f.impacted_order_ids;
        baseline_order_update = update;
        alternative_run_order_outcome = f.alternative_run_order_outcome;
        assignment_deltas = f.assignment_deltas;
        validator_status = f.validator_status;
      },
      update,
    )

unfoldable pub unavailable_result :
    String → List Change → Verdict → Option OutcomeDocument → ApiError ⊎ AlternativeReply
unavailable_result order_id change_set verdict none = inl internal
unavailable_result order_id change_set verdict (some update) = inr (
    unavailable (record {
      order_id = order_id;
      change_set = change_set;
      baseline_order_update = update;
      reason_code = verdict;
    }))

-- `ExportBundle`, whose `scenario` is spread over the first three fields
pub record ExportBundle (E : Type 0) : Type 0 where
  pub scenario_id : String
  pub state : ScenarioState
  pub created_at : String
  pub input_snapshot : ScenarioInputSnapshot
  pub policy : Policy
  pub run : RunRecord
  pub validation_result : ValidationResult
  pub decisions : List DecisionRecord
  pub trace_events : List TraceEvent
  pub explanation : Option E

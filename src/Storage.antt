-- ===== src/Storage.antt =====
-- app/storage.py: `MemoryStore`. Each method is one step under the store's lock. The numbers of the
-- sequences stand for the ids that are made of them, and an explanation is a value of any type.
pub mod Deletion
pub mod Abstract
pub mod Refinement
pub mod Outcomes
use piggyon.Base.{
  ℕ, ◌+◌, Bool, not, ◌&&◌, ◌||◌, Option, none, some, List, [], ◌∷◌, ◌++◌, map, String, ◌==◌,
  or_else, sort_by, select, text_le, text_lt, if◌then◌else◌, contains,
}
use piggyon.Base.Dict.{Dict, get, put, pop, values, add_to_group}
use piggyon.Snapshot.{ScenarioInputSnapshot}
use piggyon.Baseline.{OrderOutcome}
use piggyon.Planning.{OutcomeDocument, Run, ValidationResult}
use piggyon.Alternatives.Changes.{Change}

pub data ScenarioState : Type 0 where
  validation_required ready_to_solve solved : ScenarioState

-- The stored row of a scenario.
pub record ScenarioRecord : Type 0 where
  pub scenario_id : String
  pub scenario_name : String
  pub state : ScenarioState
  pub created_at : String
  pub as_of : ℕ
  pub baseline_service_ids : List String
  pub policy_version : String
  pub assumption_ids : List String
  pub input_snapshot : ScenarioInputSnapshot
  pub parent_scenario_id : Option String
  pub change_set : List Change

-- A run's document, with the time that the router adds to it.
pub record RunRecord : Type 0 where
  pub run : Run
  pub created_at : Option String

pub data DecisionState : Type 0 where
  accepted held rejected : DecisionState

pub record DecisionRecord : Type 0 where
  pub decision_id : String
  pub run_id : String
  pub decision_state : DecisionState

-- An audit event, by its type.
pub data TraceEvent : Type 0 where
  scenario_created validation_completed run_completed alternative_created decision_recorded :
      TraceEvent

pub record MemoryStore (E : Type 0) : Type 0 where
  pub scenarios : Dict ScenarioRecord
  pub validations : Dict ValidationResult
  pub runs : Dict RunRecord
  pub explanations : Dict E
  pub decisions : Dict (List DecisionRecord)
  pub trace : Dict (List TraceEvent)
  pub scenario_seq : ℕ
  pub run_seq : ℕ
  pub alternative_seq : ℕ

abbrev pub with_state : ScenarioState → ScenarioRecord → ScenarioRecord
with_state state r = record r { state = state }

-- the sort key `(created_at, scenario_id)`, largest first
abbrev pub newest_first : ScenarioRecord → ScenarioRecord → Bool
newest_first a b =
    text_lt b.created_at a.created_at
    || a.created_at == b.created_at && text_le b.scenario_id a.scenario_id

abbrev pub take {ℓ} : {A : Type ℓ} → ℕ → List A → List A
take Prim.Native.Nat.zero xs = []
take (Prim.Native.Nat.suc n) [] = []
take (Prim.Native.Nat.suc n) (x ∷ xs) = x ∷ take n xs

-- `run.get("scenario_id") == scenario_id`
abbrev pub belongs_to : String → String × RunRecord → Bool
belongs_to scenario_id e = e.1.run.scenario_id == scenario_id

-- `[rid for rid, run in self._runs.items() if …]`
abbrev pub run_ids_of : String → Dict RunRecord → List String
run_ids_of scenario_id runs =
    map (λ (e : String × RunRecord). e.0) (select (belongs_to scenario_id) runs)

-- `<` on the key `(created_at or "", run_id)`
abbrev pub older : RunRecord → RunRecord → Bool
older a b =
    text_lt (or_else a.created_at "") (or_else b.created_at "")
    || or_else a.created_at "" == or_else b.created_at "" && text_lt a.run.run_id b.run.run_id

-- `max(…, key=…)`: the first of the greatest
unfoldable pub latest_of : RunRecord → List RunRecord → RunRecord
latest_of best [] = best
latest_of best (r ∷ rs) = latest_of (if older best r then r else best) rs

abbrev pub latest_id : List RunRecord → Option String
latest_id [] = none
latest_id (r ∷ rs) = some (latest_of r rs).run.run_id

-- the loop's `pop` of every listed key
unfoldable pub pop_all {ℓ} : {V : Type ℓ} → List String → Dict V → Dict V
unfolding pop
pop_all [] d = d
pop_all (k ∷ ks) d = pop_all ks (pop k d)

-- the first outcome of that order replaced
unfoldable pub replace_outcome :
    String → OutcomeDocument → List OutcomeDocument → List OutcomeDocument
replace_outcome order_id outcome [] = []
replace_outcome order_id outcome (d ∷ ds) =
    let rest = replace_outcome order_id outcome ds in
    if d.outcome.order_id == order_id then outcome ∷ ds else d ∷ rest

abbrev pub with_outcome : String → OutcomeDocument → RunRecord → RunRecord
with_outcome order_id outcome r = record r {
  run = record r.run { order_outcomes = replace_outcome order_id outcome r.run.order_outcomes };
}

module _ {E : Type 0} where
  unfoldable pub next_scenario_id : MemoryStore E → MemoryStore E × ℕ
  next_scenario_id s = (record s { scenario_seq = s.scenario_seq + 1 }, s.scenario_seq + 1)

  unfoldable pub save_scenario : ScenarioRecord → MemoryStore E → MemoryStore E
  unfolding put
  save_scenario r s = record s { scenarios = put r.scenario_id r s.scenarios }

  unfoldable pub get_scenario : String → MemoryStore E → Option ScenarioRecord
  unfolding get
  get_scenario id s = get id s.scenarios

  unfoldable pub list_scenarios : ℕ → MemoryStore E → List ScenarioRecord
  unfolding sort_by
  list_scenarios limit s = take limit (sort_by newest_first (values s.scenarios))

  unfoldable pub delete_scenario : String → MemoryStore E → MemoryStore E
  unfolding pop pop_all select
  delete_scenario id s =
      let run_ids = run_ids_of id s.runs in
      record s {
        scenarios = pop id s.scenarios;
        validations = pop id s.validations;
        trace = pop id s.trace;
        runs = pop_all run_ids s.runs;
        explanations = pop_all run_ids s.explanations;
        decisions = pop_all run_ids s.decisions;
      }

  unfoldable pub update_scenario_state : String → ScenarioState → MemoryStore E → MemoryStore E
  unfolding get put
  update_scenario_state id state s = elim (get id s.scenarios) [
    | none ↦ s
    | some r ↦ record s { scenarios = put id (with_state state r) s.scenarios }
  ]

  unfoldable pub save_validation : String → ValidationResult → MemoryStore E → MemoryStore E
  unfolding put
  save_validation id result s = record s { validations = put id result s.validations }

  unfoldable pub get_validation : String → MemoryStore E → Option ValidationResult
  unfolding get
  get_validation id s = get id s.validations

  unfoldable pub next_run_id : MemoryStore E → MemoryStore E × ℕ
  next_run_id s = (record s { run_seq = s.run_seq + 1 }, s.run_seq + 1)

  unfoldable pub save_run : RunRecord → MemoryStore E → MemoryStore E
  unfolding put
  save_run r s = record s { runs = put r.run.run_id r s.runs }

  unfoldable pub get_run : String → MemoryStore E → Option RunRecord
  unfolding get
  get_run id s = get id s.runs

  unfoldable pub latest_run_id : String → MemoryStore E → Option String
  unfolding select latest_of
  latest_run_id id s =
      latest_id (select (λ (r : RunRecord). r.run.scenario_id == id) (values s.runs))

  unfoldable pub list_run_ids : String → MemoryStore E → List String
  unfolding sort_by select
  list_run_ids id s = sort_by text_le (run_ids_of id s.runs)

  unfoldable pub save_explanation : String → E → MemoryStore E → MemoryStore E
  unfolding put
  save_explanation id result s = record s { explanations = put id result s.explanations }

  unfoldable pub get_explanation : String → MemoryStore E → Option E
  unfolding get
  get_explanation id s = get id s.explanations

  unfoldable pub clear_explanation : String → MemoryStore E → MemoryStore E
  unfolding pop
  clear_explanation id s = record s { explanations = pop id s.explanations }

  unfoldable pub update_order_outcome :
      String → String → OutcomeDocument → MemoryStore E → MemoryStore E
  unfolding get put replace_outcome
  update_order_outcome run_id order_id outcome s = elim (get run_id s.runs) [
    | none ↦ s
    | some r ↦ record s { runs = put run_id (with_outcome order_id outcome r) s.runs }
  ]

  unfoldable pub next_alternative_sequence : MemoryStore E → MemoryStore E × ℕ
  next_alternative_sequence s =
      (record s { alternative_seq = s.alternative_seq + 1 }, s.alternative_seq + 1)

  unfoldable pub save_decision : DecisionRecord → MemoryStore E → MemoryStore E
  unfolding add_to_group
  save_decision r s = record s { decisions = add_to_group r.run_id r s.decisions }

  unfoldable pub list_decisions : String → MemoryStore E → List DecisionRecord
  unfolding get
  list_decisions id s = or_else (get id s.decisions) []

  unfoldable pub append_trace : String → TraceEvent → MemoryStore E → MemoryStore E
  unfolding add_to_group
  append_trace id event s = record s { trace = add_to_group id event s.trace }

  unfoldable pub list_trace : String → MemoryStore E → List TraceEvent
  unfolding get
  list_trace id s = or_else (get id s.trace) []

-- ===== src/Storage/Abstract.antt =====
-- What a store of app/storage.py promises, without order and representation: a table of each kind
-- as a function on its keys, and each write as a change of these functions.
use mathlib.Core.Option
use piggyon.Base.{
  ℕ, ◌+◌, Bool, false, Option, none, some, List, [], ◌∷◌, ◌++◌, String, ◌==◌, if◌then◌else◌,
}
use piggyon.Planning.{OutcomeDocument, ValidationResult}
use piggyon.Storage.{
  ScenarioState, ScenarioRecord, RunRecord, DecisionRecord, TraceEvent, MemoryStore, with_state,
  with_outcome, replace_outcome, next_scenario_id, save_scenario, get_scenario, delete_scenario,
  update_scenario_state, save_validation, get_validation, next_run_id, save_run, get_run,
  save_explanation, get_explanation, clear_explanation, update_order_outcome,
  next_alternative_sequence, save_decision, list_decisions, append_trace, list_trace,
}

pub record View (E : Type 0) : Type 0 where
  pub scenario : String → Option ScenarioRecord
  pub validation : String → Option ValidationResult
  pub run : String → Option RunRecord
  pub explanation : String → Option E
  pub decisions : String → List DecisionRecord
  pub trace : String → List TraceEvent
  pub scenario_seq : ℕ
  pub run_seq : ℕ
  pub alternative_seq : ℕ

-- The methods of the store's protocol that change it.
pub data Write (E : Type 0) : Type 0 where
  take_scenario take_run take_alternative : Write E
  put_scenario : ScenarioRecord → Write E
  drop_scenario : String → Write E
  set_state : String → ScenarioState → Write E
  put_validation : String → ValidationResult → Write E
  put_run : RunRecord → Write E
  put_explanation : String → E → Write E
  drop_explanation : String → Write E
  set_outcome : String → String → OutcomeDocument → Write E
  add_decision : DecisionRecord → Write E
  add_event : String → TraceEvent → Write E

abbrev pub set {ℓ} : {A : Type ℓ} → String → A → (String → A) → String → A
set k a f j = if k == j then a else f j

-- Whether a run that may be there is of that scenario.
abbrev pub is_of : String → Option RunRecord → Bool
is_of id none = false
is_of id (some r) = r.run.scenario_id == id

module _ {E : Type 0} where
  unfoldable pub view : MemoryStore E → View E
  unfolding get_scenario get_validation get_run get_explanation list_decisions list_trace
  view s = record {
    scenario = λ id. get_scenario id s;
    validation = λ id. get_validation id s;
    run = λ id. get_run id s;
    explanation = λ id. get_explanation id s;
    decisions = λ id. list_decisions id s;
    trace = λ id. list_trace id s;
    scenario_seq = s.scenario_seq;
    run_seq = s.run_seq;
    alternative_seq = s.alternative_seq;
  }

  -- The method of the memory store that makes a write.
  unfoldable pub apply : Write E → MemoryStore E → MemoryStore E
  unfolding next_scenario_id save_scenario delete_scenario update_scenario_state save_validation
      next_run_id save_run save_explanation clear_explanation update_order_outcome
      next_alternative_sequence save_decision append_trace
  apply take_scenario s = (next_scenario_id s).0
  apply take_run s = (next_run_id s).0
  apply take_alternative s = (next_alternative_sequence s).0
  apply (put_scenario r) s = save_scenario r s
  apply (drop_scenario id) s = delete_scenario id s
  apply (set_state id state) s = update_scenario_state id state s
  apply (put_validation id result) s = save_validation id result s
  apply (put_run r) s = save_run r s
  apply (put_explanation id result) s = save_explanation id result s
  apply (drop_explanation id) s = clear_explanation id s
  apply (set_outcome run_id order_id outcome) s = update_order_outcome run_id order_id outcome s
  apply (add_decision d) s = save_decision d s
  apply (add_event id event) s = append_trace id event s

  -- What it means.
  unfoldable pub meaning : Write E → View E → View E
  unfolding replace_outcome
  meaning take_scenario v = record v { scenario_seq = v.scenario_seq + 1 }
  meaning take_run v = record v { run_seq = v.run_seq + 1 }
  meaning take_alternative v = record v { alternative_seq = v.alternative_seq + 1 }
  meaning (put_scenario r) v = record v { scenario = set r.scenario_id (some r) v.scenario }
  meaning (drop_scenario id) v = record v {
    scenario = set id none v.scenario;
    validation = set id none v.validation;
    trace = set id [] v.trace;
    run = λ k. if is_of id (v.run k) then none else v.run k;
    explanation = λ k. if is_of id (v.run k) then none else v.explanation k;
    decisions = λ k. if is_of id (v.run k) then [] else v.decisions k;
  }
  meaning (set_state id state) v = record v {
    scenario = set id (Option.map (with_state state) (v.scenario id)) v.scenario;
  }
  meaning (put_validation id result) v = record v { validation = set id (some result) v.validation }
  meaning (put_run r) v = record v { run = set r.run.run_id (some r) v.run }
  meaning (put_explanation id result) v = record v {
    explanation = set id (some result) v.explanation;
  }
  meaning (drop_explanation id) v = record v { explanation = set id none v.explanation }
  meaning (set_outcome run_id order_id outcome) v = record v {
    run = set run_id (Option.map (with_outcome order_id outcome) (v.run run_id)) v.run;
  }
  meaning (add_decision d) v = record v {
    decisions = set d.run_id (v.decisions d.run_id ++ d ∷ []) v.decisions;
  }
  meaning (add_event id event) v = record v { trace = set id (v.trace id ++ event ∷ []) v.trace }

  unfoldable pub apply_all : List (Write E) → MemoryStore E → MemoryStore E
  unfolding apply
  apply_all [] s = s
  apply_all (w ∷ ws) s = apply_all ws (apply w s)

  unfoldable pub meaning_all : List (Write E) → View E → View E
  unfolding meaning
  meaning_all [] v = v
  meaning_all (w ∷ ws) v = meaning_all ws (meaning w v)

  -- The store as `__init__` leaves it, and what it means.
  abbrev pub empty_store : MemoryStore E
  empty_store = record {
    scenarios = [];
    validations = [];
    runs = [];
    explanations = [];
    decisions = [];
    trace = [];
    scenario_seq = 0;
    run_seq = 0;
    alternative_seq = 0;
  }

  abbrev pub empty_view : View E
  empty_view = record {
    scenario = λ id. none;
    validation = λ id. none;
    run = λ id. none;
    explanation = λ id. none;
    decisions = λ id. [];
    trace = λ id. [];
    scenario_seq = 0;
    run_seq = 0;
    alternative_seq = 0;
  }

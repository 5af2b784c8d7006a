-- ===== src/Api/Consistency.antt =====
-- What every store of the API has, and how the single writes keep it.
use piggyon.Base.{
  ℕ, ◌≤◌, ◌≡◌, ◌≢◌, sym, subst, ◌⊎◌, inl, inr, true, false, none, some, List, [], String, Memᴰ,
  arith, or_else,
}
use piggyon.Base.Dict.{Dict, get, put}
use piggyon.Base.Lookups.{put-cases, put_present}
use piggyon.Snapshot.{ScenarioInputSnapshot}
use piggyon.Snapshot.Resolved.{IsResolved}
use piggyon.Validator.{pass}
use piggyon.Planning.{ValidationResult, Run}
use piggyon.Storage.{ScenarioRecord, RunRecord, accepted, DecisionRecord, MemoryStore, TraceEvent}
use piggyon.Scenarios.{is_error}
use piggyon.Runs.{acceptable}
use piggyon.Api.{Naming}

-- A snapshot that can be evaluated, solved and derived from.
abbrev pub IsUsable : ScenarioInputSnapshot → Type 0
IsUsable s = IsResolved s × (s.baseline_service_ids ≢ [])

-- The id is one that was given out.
abbrev pub IsNumbered : Naming → ℕ → ℕ → String → Type 0
IsNumbered n run_seq alternative_seq id =
    ((k : ℕ) × (k ≤ run_seq) × (id ≡ n.run_id_of k))
    ⊎ ((k : ℕ) × (k ≤ alternative_seq) × (id ≡ n.alternative_run_id_of k))

-- A run that is stored under its own id, passed the re-check and is not an error.
pub record IsSoundRun (id : String) (run : Run) : Type 0 where
  pub own_id : run.run_id ≡ id
  pub passes : run.validator_status ≡ pass
  pub has_result : is_error run.run_state ≡ false

-- The scenario of that id is stored and validated.
pub record IsHost {E : Type 0} (s : MemoryStore E) (id : String) : Type 0 where
  pub row : ScenarioRecord
  pub row_found : get id s.scenarios ≡ some row
  pub validation : ValidationResult
  pub validation_found : get id s.validations ≡ some validation

-- All scenarios are usable; all runs are sound, of a stored and validated scenario, and under an id
-- that was given out; only stored runs have decisions, and only OPTIMAL runs are accepted.
pub record IsConsistent {E : Type 0} (n : Naming) (s : MemoryStore E) : Type 0 where
  pub usable :
      (id : String) (r : ScenarioRecord) → get id s.scenarios ≡ some r → IsUsable r.input_snapshot
  pub sound : (id : String) (r : RunRecord) → get id s.runs ≡ some r → IsSoundRun id r.run
  pub hosted : (id : String) (r : RunRecord) → get id s.runs ≡ some r → IsHost s r.run.scenario_id
  pub numbered :
      (id : String) (r : RunRecord)
      → get id s.runs ≡ some r
      → IsNumbered n s.run_seq s.alternative_seq id
  pub undecided : (id : String) → get id s.runs ≡ none → or_else (get id s.decisions) [] ≡ []
  pub decided :
      (id : String) (r : RunRecord) (d : DecisionRecord)
      → get id s.runs ≡ some r
      → Memᴰ d (or_else (get id s.decisions) [])
      → d.decision_state ≡ accepted
      → acceptable r.run ≡ true

module _ {E : Type 0} (n : Naming) (s : MemoryStore E) (h : IsConsistent n s) where
  -- The rest of the store does not matter, and the sequences may grow.
  pub touched-IsConsistent :
      (i j k : ℕ) (explanations : Dict E) (trace : Dict (List TraceEvent))
      → s.run_seq ≤ j
      → s.alternative_seq ≤ k
      → IsConsistent n (record s {
        scenario_seq = i;
        run_seq = j;
        alternative_seq = k;
        explanations = explanations;
        trace = trace;
      })
  touched-IsConsistent i j k explanations trace lj lk = record {
    usable = h.usable;
    sound = h.sound;
    hosted = λ id r e.
        let host = h.hosted id r e in
        record {
          row = host.row;
          row_found = host.row_found;
          validation = host.validation;
          validation_found = host.validation_found;
        };
    numbered = λ id r e. elim (h.numbered id r e) [
      | inl (m, l, same) ↦ inl (m, omega arith, same)
      | inr (m, l, same) ↦ inr (m, omega arith, same)
    ];
    undecided = h.undecided;
    decided = h.decided;
  }

  pub put_scenario-IsConsistent :
      (id : String) (q : ScenarioRecord)
      → IsUsable q.input_snapshot
      → IsConsistent n (record s { scenarios = put id q s.scenarios })
  put_scenario-IsConsistent id q ok = record {
    usable = λ j r e. elim (put-cases id j q s.scenarios e) [
      | inl (same, is_new) ↦
          subst (λ (x : ScenarioRecord). IsUsable x.input_snapshot) (sym is_new) ok
      | inr (other, old) ↦ h.usable j r old
    ];
    sound = h.sound;
    hosted = λ j r e.
        let host = h.hosted j r e in
        let (row, found) = put_present id r.run.scenario_id q s.scenarios host.row_found in
        record {
          row = row;
          row_found = found;
          validation = host.validation;
          validation_found = host.validation_found;
        };
    numbered = h.numbered;
    undecided = h.undecided;
    decided = h.decided;
  }

  pub put_validation-IsConsistent :
      (id : String) (v : ValidationResult)
      → IsConsistent n (record s { validations = put id v s.validations })
  put_validation-IsConsistent id v = record {
    usable = h.usable;
    sound = h.sound;
    hosted = λ j r e.
        let host = h.hosted j r e in
        let (w, found) = put_present id r.run.scenario_id v s.validations host.validation_found in
        record {
          row = host.row;
          row_found = host.row_found;
          validation = w;
          validation_found = found;
        };
    numbered = h.numbered;
    undecided = h.undecided;
    decided = h.decided;
  }

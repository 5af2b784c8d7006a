-- ===== src/Runs/Decisions.antt =====
-- What `create_decision` of app/routers/runs.py records, and when it refuses.
use piggyon.Base.{
  ◌≡◌, ◌≢◌, refl, ap, inl, inr, true, false, not, ◌&&◌, none, some, [], ◌∷◌, ◌++◌, String, arith,
  Bool-cases, Option-cases, or_else,
}
use piggyon.Base.Dict.{get}
use piggyon.Base.Lookups.{put-same, add_to_group-other}
use piggyon.Errors.{run_not_found, run_not_acceptable, no_detail, api_error}
use piggyon.Storage.{
  RunRecord, DecisionState, accepted, DecisionRecord, MemoryStore, get_run, save_decision,
  list_decisions, list_trace, append_trace, decision_recorded,
}
use piggyon.Scenarios.{Step}
use piggyon.Runs.{acceptable, is_accepted, create_decision}

-- Refused, with the store as it was, or recorded after the run's other decisions.
pub data IsDecided {E : Type 0} (decision_id run_id : String) (state : DecisionState)
    (s : MemoryStore E) (reply : Step E DecisionRecord) : Type 0 where
  no_run :
      get_run run_id s ≡ none
      → reply ≡ (s, inl (api_error run_not_found no_detail))
      → IsDecided decision_id run_id state s reply
  not_acceptable :
      (r : RunRecord)
      → get_run run_id s ≡ some r
      → state ≡ accepted
      → acceptable r.run ≡ false
      → reply ≡ (s, inl (api_error run_not_acceptable no_detail))
      → IsDecided decision_id run_id state s reply
  recorded :
      (r : RunRecord) (d : DecisionRecord)
      → get_run run_id s ≡ some r
      → (state ≡ accepted → acceptable r.run ≡ true)
      → d ≡ (record { decision_id = decision_id; run_id = run_id; decision_state = state })
      → reply.1 ≡ inr d
      → list_decisions run_id reply.0 ≡ list_decisions run_id s ++ d ∷ []
      → ((other : String) → run_id ≢ other → list_decisions other reply.0 ≡ list_decisions other s)
      → list_trace r.run.scenario_id reply.0
        ≡ list_trace r.run.scenario_id s ++ decision_recorded ∷ []
      → ((other : String)
          → r.run.scenario_id ≢ other
          → list_trace other reply.0 ≡ list_trace other s)
      → reply.0.runs ≡ s.runs
      → reply.0.scenarios ≡ s.scenarios
      → reply.0.validations ≡ s.validations
      → reply.0.explanations ≡ s.explanations
      → IsDecided decision_id run_id state s reply

barred_accepted :
    (state : DecisionState) (r : RunRecord)
    → (is_accepted state && not (acceptable r.run)) ≡ true
    → (state ≡ accepted) × (acceptable r.run ≡ false)
barred_accepted accepted r h = (refl, ground (arith, h))
barred_accepted DecisionState.held r h = cc
barred_accepted DecisionState.rejected r h = cc

allowed :
    (state : DecisionState) (r : RunRecord)
    → (is_accepted state && not (acceptable r.run)) ≡ false
    → state ≡ accepted
    → acceptable r.run ≡ true
allowed accepted r h e = ground (arith, h)
allowed DecisionState.held r h e = cc
allowed DecisionState.rejected r h e = cc

-- Without the run the reply is RUN_NOT_FOUND, and to accept a run that is not OPTIMAL with validator
-- PASS is RUN_NOT_ACCEPTABLE; both leave the store as it was. In every other case the decision is
-- recorded after the others of its run, and one event after those of its scenario; no other list
-- and no other table changes.
pub create_decision-IsDecided :
    {E : Type 0} (decision_id run_id : String) (state : DecisionState) (s : MemoryStore E)
    → IsDecided decision_id run_id state s (create_decision decision_id run_id state s)
unfolding create_decision get_run save_decision append_trace list_decisions list_trace
create_decision-IsDecided decision_id run_id state s = elim (Option-cases (get run_id s.runs)) [
  | inl absent ↦ IsDecided.no_run absent (rw (absent, create_decision) refl)
  | inr (r, present) ↦ elim (Bool-cases (is_accepted state && not (acceptable r.run))) [
    | inl barred ↦
        let (is_acceptance, unfit) = barred_accepted state r barred in
        IsDecided.not_acceptable r present is_acceptance unfit
          (rw (present, create_decision) (rw (barred, create_decision) refl))
    | inr free ↦
        let d : DecisionRecord = record {
          decision_id = decision_id;
          run_id = run_id;
          decision_state = state;
        } in
        let replied : create_decision decision_id run_id state s
            ≡ (append_trace r.run.scenario_id decision_recorded (save_decision d s), inr d) =
          rw (present, create_decision) (rw (free, create_decision) refl) in
        rw replied (
          IsDecided.recorded r d present (allowed state r free) refl refl
            (ap (λ o. or_else o []) (put-same run_id run_id _ s.decisions))
            (λ other n. add_to_group-other run_id other d s.decisions n)
            (ap (λ o. or_else o []) (put-same r.run.scenario_id r.run.scenario_id _ s.trace))
            (λ other n. add_to_group-other r.run.scenario_id other decision_recorded s.trace n) refl
            refl refl refl)
  ]
]

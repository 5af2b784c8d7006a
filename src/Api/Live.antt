-- ===== src/Api/Live.antt =====
-- What the API is sure to answer.
use piggyon.Base.{
  ℕ, ◌+◌, ◌≡◌, refl, sym, ap, ◌∙◌, subst, inl, inr, Bool, true, false, ◌&&◌, Option, none, some, [],
  String, is_empty, nat_eq, Bool-cases, Option-cases, if◌then◌else◌,
}
use piggyon.Base.Dict.{get}
use piggyon.Base.Lookups.{some_inj, put-same}
use piggyon.Snapshot.{ScenarioInputSnapshot}
use piggyon.Snapshot.Resolved.{IsResolved}
use piggyon.Eligibility.{evaluate_scenario}
use piggyon.Eligibility.Types.{ScenarioEvaluation, has_any_candidate}
use piggyon.Baseline.{SolverParameters, SolverStatus, run_state_by_solver_status, SolveResult}
use piggyon.Baseline.Cp.{CpSolver, CpStatus, usable, unknown, model_invalid, IsSound}
use piggyon.Baseline.Cp
use piggyon.Baseline.Problem.{all_candidates}
use piggyon.Baseline.Stages.{Progress}
use piggyon.Baseline.Solve.{solved, first_answer, posable, solve_from, solve_baseline}
use piggyon.Planning.{Run, ValidationResult, build_validation_result, run_baseline, packaged}
use piggyon.Planning.Range.{IsInRange, plan_raises-false}
use piggyon.Validator.{plan_raises}
use piggyon.Planning.Runs.{solve_baseline_total}
use piggyon.Storage.{
  ScenarioState, ScenarioRecord, RunRecord, MemoryStore, ready_to_solve, get_scenario,
  get_validation, get_run, list_decisions, list_trace, get_explanation, update_scenario_state,
  save_validation, append_trace, next_run_id,
}
use piggyon.Scenarios.{
  is_error, waits_for_validation, record_validation, validate_scenario, record_run, solve_scenario,
  create_run,
}
use piggyon.Scenarios.States.{Advances-at, validate_scenario-Advances}
use piggyon.Scenarios.Solving.{IsRecorded, create_run-IsRecorded}
use piggyon.Runs.{export_run}
use piggyon.Runs
use piggyon.Runs.Replies.{ExportBundle}
use piggyon.Api.{Naming, IsNaming}
use piggyon.Api.Consistency.{IsHost, IsConsistent}
use piggyon.Api.Reachable.{Reachable, Reachable-IsConsistent}

none≢some : {r : SolveResult} → none ≡ some r → ⊥
none≢some h = cc

plan_state :
    (b : Bool)
    → is_error
        (run_state_by_solver_status (if b then SolverStatus.optimal else SolverStatus.feasible))
      ≡ false
plan_state true = refl
plan_state false = refl

module _ (solve : CpSolver) (clock : ℕ → ℕ) (parameters : SolverParameters)
    (s : ScenarioInputSnapshot) (evaluation : ScenarioEvaluation) where
  solved_ok : (o : Option Progress) → is_error (solved evaluation o).run_state ≡ false
  unfolding solved
  solved_ok none = refl
  solved_ok (some p) = plan_state p.stages_optimal

  solve_from_ok :
      (status : CpStatus)
      → usable status ≡ true
      → is_error (solve_from solve clock parameters s evaluation status).run_state ≡ false
  unfolding solve_from
  solve_from_ok Cp.infeasible h = cc
  solve_from_ok unknown h = cc
  solve_from_ok model_invalid h = cc
  solve_from_ok Cp.optimal h = solved_ok _
  solve_from_ok Cp.feasible h = solved_ok _

  -- Once the first stage is answered, the result is not an error.
  solve_baseline_ok :
      (r : SolveResult)
      → usable (first_answer solve clock parameters s evaluation).status ≡ true
      → solve_baseline solve clock parameters s evaluation ≡ some r
      → is_error r.run_state ≡ false
  unfolding solve_baseline
  solve_baseline_ok r answered e = elim (Bool-cases (is_empty (all_candidates evaluation))) [
    | inl none_left ↦
        ap (λ (q : SolveResult). is_error q.run_state)
          (sym (some_inj (rw (none_left, solve_baseline) at e)))
    | inr some_left ↦ elim (Bool-cases (posable solve clock parameters s evaluation)) [
      | inl known ↦
          subst (λ (q : SolveResult). is_error q.run_state ≡ false)
            (some_inj (rw (some_left, solve_baseline, known) at e)) (solve_from_ok _ answered)
      | inr lacking ↦ absurd (none≢some (rw (some_left, solve_baseline, lacking) at e))
    ]
  ]

-- The reply of a solve, from what its parts answer.
create_run_reply :
    {E : Type 0} (solve : CpSolver) (clock : ℕ → ℕ) (run_id_of : ℕ → String) (now id : String)
    (parameters : SolverParameters) (t : MemoryStore E) (q : ScenarioRecord)
    (validation : ValidationResult) (evaluation : ScenarioEvaluation) (result : SolveResult)
    → get id t.scenarios ≡ some q
    → nat_eq parameters.num_search_workers 1 ≡ true
    → get id t.validations ≡ some validation
    → evaluate_scenario q.input_snapshot none [] ≡ some evaluation
    → solve_baseline solve clock parameters q.input_snapshot evaluation ≡ some result
    → plan_raises q.input_snapshot result.assignments ≡ false
    → is_error result.run_state ≡ false
    → (create_run solve clock run_id_of now id parameters t).1
      ≡ inr (packaged (run_id_of (t.run_seq + 1)) id q.input_snapshot parameters result)
unfolding create_run solve_scenario record_run get_scenario get_validation next_run_id run_baseline
    packaged
create_run_reply solve clock run_id_of now id parameters t q validation evaluation result found one
      validated evaluated solved quiet ok =
    rw (found, create_run)
      (rw (one, create_run)
        (rw (validated, create_run)
          (rw (evaluated, solve_scenario)
            (rw (solved, solve_scenario) (rw (quiet, solve_scenario) (rw (ok, record_run) refl))))))

module _ {E : Type 0} (n : Naming) (names : IsNaming n) (solve : CpSolver) (sound : IsSound solve)
    {s : MemoryStore E} (reached : Reachable n solve s) where
  consistent : IsConsistent n s
  consistent = Reachable-IsConsistent n names solve sound reached

  -- In every store that the API can reach, each stored run can be read and exported: neither its
  -- scenario nor its validation is missing, and the bundle holds the run, the state, snapshot and
  -- policy of the stored scenario, the stored validation, the decisions of the run, the events of the
  -- scenario, and the explanation that is kept.
  pub export_run_answers :
      (id : String) (r : RunRecord)
      → get_run id s ≡ some r
      → (Runs.get_run id s ≡ (s, inr r))
        × (b : ExportBundle E) × (export_run id s ≡ (s, inr b))
        × (host : IsHost s r.run.scenario_id) × (b ≡ (record {
          scenario_id = host.row.scenario_id;
          state = host.row.state;
          created_at = host.row.created_at;
          input_snapshot = host.row.input_snapshot;
          policy = host.row.input_snapshot.policy;
          run = r;
          validation_result = host.validation;
          decisions = list_decisions id s;
          trace_events = list_trace r.run.scenario_id s;
          explanation = get_explanation id s;
        }))
  unfolding Runs.get_run export_run get_run get_scenario get_validation
  export_run_answers id r found =
      let host = consistent.hosted id r found in
      let good = (consistent.sound id r found).has_result in
      (
        rw (found, Runs.get_run) (rw (good, Runs.get_run) refl),
        record {
          scenario_id = host.row.scenario_id;
          state = host.row.state;
          created_at = host.row.created_at;
          input_snapshot = host.row.input_snapshot;
          policy = host.row.input_snapshot.policy;
          run = r;
          validation_result = host.validation;
          decisions = list_decisions id s;
          trace_events = list_trace r.run.scenario_id s;
          explanation = get_explanation id s;
        },
        rw (found, export_run)
            (rw (host.row_found, export_run)
              (rw (host.validation_found, export_run) (rw (good, export_run) refl))),
        host,
        refl,
      )

  update_state-validations :
      (t : MemoryStore E) (id : String) (state : ScenarioState)
      → (update_scenario_state id state t).validations ≡ t.validations
  unfolding update_scenario_state
  update_state-validations t id state = elim (Option-cases (get id t.scenarios)) [
    | inl absent ↦ rw (absent, update_scenario_state) refl
    | inr (r, found) ↦ rw (found, update_scenario_state) refl
  ]

  -- A validation that was evaluated is stored.
  validated :
      (id : String) (r : ScenarioRecord) (evaluation : ScenarioEvaluation)
      → get id s.scenarios ≡ some r
      → evaluate_scenario r.input_snapshot none [] ≡ some evaluation
      → get id (validate_scenario id s).0.validations ≡ some (build_validation_result id evaluation)
  unfolding validate_scenario get_scenario record_validation save_validation append_trace
  validated id r evaluation found evaluated =
      rw (found, validate_scenario)
        (rw (evaluated, validate_scenario)
          (elim (Bool-cases (has_any_candidate evaluation && waits_for_validation r.state)) [
            | inl ready ↦
                rw (ready, record_validation)
                  (ap (get id) (update_state-validations _ id ready_to_solve)
                    ∙ put-same id id (build_validation_result id evaluation) s.validations)
            | inr waiting ↦
                rw (waiting, record_validation)
                  (put-same id id (build_validation_result id evaluation) s.validations)
          ]))

  -- In every store that the API can reach: to validate a stored scenario and then to ask for a run,
  -- with one worker, numbers and dates in range, and a solver that answers the first stage, gives a
  -- run, which is then stored, and leaves the scenario SOLVED.
  pub create_run_answers :
      (clock : ℕ → ℕ) (now id : String) (parameters : SolverParameters) (r : ScenarioRecord)
      (evaluation : ScenarioEvaluation)
      → get_scenario id s ≡ some r
      → evaluate_scenario r.input_snapshot none [] ≡ some evaluation
      → nat_eq parameters.num_search_workers 1 ≡ true
      → usable (first_answer solve clock parameters r.input_snapshot evaluation).status ≡ true
      → IsInRange r.input_snapshot
      → let t = (validate_scenario id s).0 in
        let reply = create_run solve clock n.run_id_of now id parameters t in
        (run : Run) × (reply.1 ≡ inr run) × IsRecorded id now parameters t reply.0 run
  unfolding get_scenario
  create_run_answers clock now id parameters r evaluation found evaluated one answered range =
      let t = (validate_scenario id s).0 in
      let (q, q_found, same_input, _) =
        Advances-at s t id r (validate_scenario-Advances id s) found in
      let q_evaluated : evaluate_scenario q.input_snapshot none [] ≡ some evaluation =
        ap (λ (x : ScenarioInputSnapshot). evaluate_scenario x none []) same_input ∙ evaluated in
      let q_answered : usable
            (first_answer solve clock parameters q.input_snapshot evaluation).status
          ≡ true =
        ap
          (λ (x : ScenarioInputSnapshot).
            usable (first_answer solve clock parameters x evaluation).status)
          same_input
        ∙ answered in
      let resolved = (consistent.usable id r found).0 in
      let (result, solved) =
        solve_baseline_total q.input_snapshot none [] solve clock parameters evaluation
          (subst IsResolved (sym same_input) resolved) (subst IsInRange (sym same_input) range)
          q_evaluated in
      let ok =
        solve_baseline_ok solve clock parameters q.input_snapshot evaluation result q_answered
          solved in
      let run =
        packaged (n.run_id_of ((validate_scenario id s).0.run_seq + 1)) id q.input_snapshot
          parameters result in
      let replied =
        create_run_reply solve clock n.run_id_of now id parameters t q
          (build_validation_result id evaluation) evaluation result q_found one
          (validated id r evaluation found evaluated) q_evaluated solved
          (plan_raises-false q.input_snapshot (subst IsInRange (sym same_input) range)
            result.assignments)
          ok in
      (run, replied, create_run-IsRecorded solve clock n.run_id_of now id parameters t run replied)

-- ===== src/Api/Solving.antt =====
-- `validate_scenario`, `create_run` and `delete_scenario` of app/routers/scenarios.py keep the store
-- consistent.
use piggyon.Base.{
  ℕ, ◌+◌, ◌≤◌, ◌≡◌, refl, sym, ap, subst, inl, inr, ◌&&◌, none, some, [], String, arith, is_empty,
  nat_eq, Bool-cases, Option-cases, select, map,
}
use piggyon.Base.Dict.{get, put}
use piggyon.Base.Lookups.{some_inj}
use piggyon.Snapshot.{ScenarioInputSnapshot}
use piggyon.Eligibility.{evaluate_scenario}
use piggyon.Eligibility.Types.{ScenarioEvaluation, has_any_candidate}
use piggyon.Baseline.{SolverParameters}
use piggyon.Baseline.Cp.{CpSolver, IsSound}
use piggyon.Baseline.Solve.{solve_baseline}
use piggyon.Planning.{Run, run_baseline, packaged, build_validation_result}
use piggyon.Planning.Runs.{produced-pass}
use piggyon.Validator.{plan_raises}
use piggyon.Storage.{
  ready_to_solve, solved, ScenarioRecord, MemoryStore, get_scenario, list_scenarios,
  update_scenario_state, save_validation, get_validation, next_run_id, save_run, append_trace,
  validation_completed, run_completed,
}
use piggyon.Scenarios.{
  is_error, is_child_of, waits_for_validation, record_validation, validate_scenario,
  delete_scenario, record_run, solve_scenario, create_run,
}
use piggyon.Api.{Naming, IsNaming}
use piggyon.Api.Consistency.{
  IsUsable, IsSoundRun, IsHost, IsConsistent, touched-IsConsistent, put_validation-IsConsistent,
}
use piggyon.Api.Writes.{put_run-IsConsistent, delete_scenario-IsConsistent}
use piggyon.Api.Scenarios.{update_scenario_state-IsConsistent, append_trace-IsConsistent}

module _ {E : Type 0} (n : Naming) (s : MemoryStore E) (h : IsConsistent n s) where
  record_validation-IsConsistent :
      (id : String) (scenario : ScenarioRecord) (evaluation : ScenarioEvaluation)
      → IsConsistent n (record_validation id scenario evaluation s)
  unfolding record_validation save_validation
  record_validation-IsConsistent id scenario evaluation =
      let saved = put_validation-IsConsistent n s h id (build_validation_result id evaluation) in
      elim (Bool-cases (has_any_candidate evaluation && waits_for_validation scenario.state)) [
        | inl ready ↦
            rw (ready, record_validation)
              (append_trace-IsConsistent n _
                (update_scenario_state-IsConsistent n _ saved id ready_to_solve) id
                validation_completed)
        | inr waiting ↦
            rw (waiting, record_validation)
              (append_trace-IsConsistent n _ saved id validation_completed)
      ]

  pub validate_scenario-IsConsistent : (id : String) → IsConsistent n (validate_scenario id s).0
  unfolding validate_scenario get_scenario
  validate_scenario-IsConsistent id = elim (Option-cases (get id s.scenarios)) [
    | inl absent ↦ rw (absent, validate_scenario) h
    | inr (scenario, found) ↦
        elim (Option-cases (evaluate_scenario scenario.input_snapshot none [])) [
          | inl broken ↦ rw (found, validate_scenario) (rw (broken, validate_scenario) h)
          | inr (evaluation, done) ↦
              rw (found, validate_scenario)
                (rw (done, validate_scenario)
                  (record_validation-IsConsistent id scenario evaluation))
        ]
  ]

  pub delete_endpoint-IsConsistent : (id : String) → IsConsistent n (delete_scenario id s).0
  unfolding delete_scenario get_scenario
  delete_endpoint-IsConsistent id = elim (Option-cases (get id s.scenarios)) [
    | inl absent ↦ rw (absent, delete_scenario) h
    | inr (scenario, found) ↦
        elim (Bool-cases (
          is_empty (
            map (λ (r : ScenarioRecord). r.scenario_id)
              (select (is_child_of id) (list_scenarios 100 s))))) [
                | inl free ↦
                    rw (found, delete_scenario)
                      (rw (free, delete_scenario) (delete_scenario-IsConsistent n s h id))
                | inr parent ↦ rw (found, delete_scenario) (rw (parent, delete_scenario) h)
              ]
  ]

-- The ids that a run carries are those it was made with.
run_baseline-ids :
    (solve : CpSolver) (clock : ℕ → ℕ) (run_id scenario_id : String) (s : ScenarioInputSnapshot)
    (parameters : SolverParameters) (run : Run)
    → run_baseline solve clock run_id scenario_id s parameters ≡ some run
    → (run.run_id ≡ run_id) × (run.scenario_id ≡ scenario_id)
unfolding run_baseline packaged
run_baseline-ids solve clock run_id scenario_id s parameters run e =
    elim (Option-cases (evaluate_scenario s none [])) [
      | inl broken ↦ absurd (none≢some (rw (broken, run_baseline) at e))
      | inr (evaluation, evaluated) ↦
          elim (Option-cases (solve_baseline solve clock parameters s evaluation)) [
            | inl broken ↦ absurd (none≢some (rw (evaluated, run_baseline, broken) at e))
            | inr (result, done) ↦ elim (Bool-cases (plan_raises s result.assignments)) [
              | inl raises ↦ absurd (none≢some (rw (evaluated, run_baseline, done, raises) at e))
              | inr quiet ↦
                  let made : packaged run_id scenario_id s parameters result ≡ run =
                    some_inj (rw (evaluated, run_baseline, done, quiet) at e) in
                  (
                    ap (λ (r : Run). r.run_id) (sym made),
                    ap (λ (r : Run). r.scenario_id) (sym made),
                  )
            ]
          ]
    ]
  where
    none≢some : none ≡ some run → ⊥
    none≢some p = cc

-- An id that is taken next is not in use.
pub run_id_fresh :
    {E : Type 0} (n : Naming) (s : MemoryStore E)
    → IsNaming n
    → IsConsistent n s
    → get (n.run_id_of (s.run_seq + 1)) s.runs ≡ none
run_id_fresh n s names h = elim (Option-cases (get (n.run_id_of (s.run_seq + 1)) s.runs)) [
  | inl absent ↦ absent
  | inr (r, found) ↦ elim (h.numbered (n.run_id_of (s.run_seq + 1)) r found) [
    | inl (k, l, same) ↦ absurd (too_many k l (names.runs_apart (s.run_seq + 1) k same))
    | inr (k, l, same) ↦ absurd (names.kinds_apart (s.run_seq + 1) k same)
  ]
]
  where
    too_many : (k : ℕ) → k ≤ s.run_seq → s.run_seq + 1 ≡ k → ⊥
    too_many k l e = omega arith

module _ {E : Type 0} (n : Naming) (names : IsNaming n) (solve : CpSolver) (sound : IsSound solve)
    (clock : ℕ → ℕ) (now : String) (s : MemoryStore E) (h : IsConsistent n s) where
  taken-IsConsistent : IsConsistent n (next_run_id s).0
  unfolding next_run_id
  taken-IsConsistent =
      touched-IsConsistent n s h s.scenario_seq (s.run_seq + 1) s.alternative_seq s.explanations
        s.trace (omega arith) (omega arith)

  recorded-IsConsistent :
      (id : String) (run : Run)
      → IsHost s id
      → run.scenario_id ≡ id
      → IsSoundRun (n.run_id_of (s.run_seq + 1)) run
      → IsConsistent n (
          append_trace id run_completed (
            update_scenario_state id solved
              (save_run (record { run = run; created_at = some now }) (next_run_id s).0)))
  unfolding save_run next_run_id
  recorded-IsConsistent id run host own good =
      append_trace-IsConsistent n _
        (update_scenario_state-IsConsistent n _
          (subst
            (λ k. IsConsistent n (record (next_run_id s).0 {
              runs = put k (record { run = run; created_at = some now }) s.runs;
            }))
            (sym good.own_id)
            (put_run-IsConsistent n (next_run_id s).0 taken-IsConsistent
              (n.run_id_of (s.run_seq + 1)) (record { run = run; created_at = some now }) good
              (subst (IsHost (next_run_id s).0) (sym own) (record {
                row = host.row;
                row_found = host.row_found;
                validation = host.validation;
                validation_found = host.validation_found;
              }))
              (inl (s.run_seq + 1, omega arith, refl)) (inl (run_id_fresh n s names h))))
          id solved)
        id run_completed

  solve_scenario-IsConsistent :
      (id : String) (scenario : ScenarioRecord) (parameters : SolverParameters)
      → IsHost s id
      → IsUsable scenario.input_snapshot
      → IsConsistent n (solve_scenario solve clock n.run_id_of now id scenario parameters s).0
  unfolding solve_scenario next_run_id record_run
  solve_scenario-IsConsistent id scenario parameters host usable =
      let rid = n.run_id_of (s.run_seq + 1) in
      elim (Option-cases (run_baseline solve clock rid id scenario.input_snapshot parameters)) [
        | inl broken ↦ rw (broken, solve_scenario) taken-IsConsistent
        | inr (run, produced) ↦
            let passes =
              produced-pass solve clock parameters rid id scenario.input_snapshot run sound usable.0
                produced in
            let (own, hosted) =
              run_baseline-ids solve clock rid id scenario.input_snapshot parameters run produced in
            elim (Bool-cases (is_error run.run_state)) [
              | inl bad ↦ rw (produced, solve_scenario) (rw (bad, record_run) taken-IsConsistent)
              | inr ok ↦
                  rw (produced, solve_scenario)
                    (rw (ok, record_run)
                      (recorded-IsConsistent id run host hosted
                        (record { own_id = own; passes = passes; has_result = ok })))
            ]
      ]

  pub create_run-IsConsistent :
      (id : String) (parameters : SolverParameters)
      → IsConsistent n (create_run solve clock n.run_id_of now id parameters s).0
  unfolding create_run get_scenario get_validation
  create_run-IsConsistent id parameters = elim (Option-cases (get id s.scenarios)) [
    | inl absent ↦ rw (absent, create_run) h
    | inr (scenario, found) ↦ elim (Bool-cases (nat_eq parameters.num_search_workers 1)) [
      | inr many ↦ rw (found, create_run) (rw (many, create_run) h)
      | inl one ↦ elim (Option-cases (get id s.validations)) [
        | inl unvalidated ↦
            rw (found, create_run) (rw (one, create_run) (rw (unvalidated, create_run) h))
        | inr (validation, validated) ↦
            rw (found, create_run)
              (rw (one, create_run)
                (rw (validated, create_run)
                  (solve_scenario-IsConsistent id scenario parameters
                    (record {
                      row = scenario;
                      row_found = found;
                      validation = validation;
                      validation_found = validated;
                    })
                    (h.usable id scenario found))))
      ]
    ]
  ]

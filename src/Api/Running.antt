-- ===== src/Api/Running.antt =====
-- `create_alternative` and `create_decision` of app/routers/runs.py keep the store consistent.
use piggyon.Base.{
  ℕ, ◌+◌, ◌≤◌, ◌≡◌, ◌≢◌, refl, sym, ◌∙◌, subst, inl, inr, Bool, true, false, not, ◌&&◌, none, some,
  List, String, arith, Bool-cases, Option-cases,
}
use piggyon.Base.Dict.{get, put}
use piggyon.Base.Lookups.{put-same}
use piggyon.Baseline.{available, no_alternative, RunState, run_error}
use piggyon.Baseline.Cp.{CpSolver, IsSound}
use piggyon.Planning.{OutcomeDocument}
use piggyon.Alternatives.Changes.{AdjustmentType}
use piggyon.Alternatives.Deltas.{apply_to_baseline}
use piggyon.Alternatives.Search.{
  Found, SearchResult, found, not_found, refused, ambiguous, raised, search_alternative,
}
use piggyon.Alternatives.Verified.{search_alternative-IsVerifiedChange}
use piggyon.Alternatives.Storable.{IsStorable, search_alternative-IsStorable}
use piggyon.Validator.{pass}
use piggyon.Storage.{
  ScenarioRecord, RunRecord, DecisionState, accepted, DecisionRecord, MemoryStore, with_outcome,
  alternative_created, decision_recorded, get_scenario, save_scenario, save_validation, save_run,
  clear_explanation, update_order_outcome, next_alternative_sequence, save_decision, append_trace,
}
use piggyon.Storage
use piggyon.Scenarios.{is_error}
use piggyon.Runs.{
  acceptable, is_accepted, has_order, with_outcomes, derived_record, store_found, settle,
  search_and_settle, create_alternative, create_decision,
}
use piggyon.Runs.Replies.{alternative_result}
use piggyon.Api.{Naming, IsNaming}
use piggyon.Api.Consistency.{
  IsSoundRun, IsHost, IsConsistent, touched-IsConsistent, put_scenario-IsConsistent,
  put_validation-IsConsistent,
}
use piggyon.Api.Writes.{put_run-IsConsistent, add_decision-IsConsistent}
use piggyon.Api.Scenarios.{append_trace-IsConsistent}

not_error : (state : RunState) → state ≢ run_error → is_error state ≡ false
not_error RunState.solved_optimal h = refl
not_error RunState.solved_feasible h = refl
not_error RunState.model_infeasible h = refl
not_error run_error h = absurd (h refl)

allowed_of :
    (state : DecisionState) (b : Bool)
    → (is_accepted state && not b) ≡ false
    → state ≡ accepted
    → b ≡ true
allowed_of state b h a = ground (arith, h, a)

-- An alternative's id that is taken next is not in use.
pub alternative_id_fresh :
    {E : Type 0} (n : Naming) (s : MemoryStore E)
    → IsNaming n
    → IsConsistent n s
    → get (n.alternative_run_id_of (s.alternative_seq + 1)) s.runs ≡ none
alternative_id_fresh n s names h =
    elim (Option-cases (get (n.alternative_run_id_of (s.alternative_seq + 1)) s.runs)) [
      | inl absent ↦ absent
      | inr (r, present) ↦
          elim (h.numbered (n.alternative_run_id_of (s.alternative_seq + 1)) r present) [
            | inr (k, l, same) ↦
                absurd (too_many k l (names.alternatives_apart (s.alternative_seq + 1) k same))
            | inl (k, l, same) ↦ absurd (names.kinds_apart k (s.alternative_seq + 1) (sym same))
          ]
    ]
  where
    too_many : (k : ℕ) → k ≤ s.alternative_seq → s.alternative_seq + 1 ≡ k → ⊥
    too_many k l e = omega arith

module _ {E : Type 0} (n : Naming) (s : MemoryStore E) (h : IsConsistent n s) where
  -- A stored run with other outcomes.
  rewritten-IsConsistent :
      (id : String) (r q : RunRecord)
      → get id s.runs ≡ some r
      → IsSoundRun id q.run
      → q.run.scenario_id ≡ r.run.scenario_id
      → acceptable q.run ≡ acceptable r.run
      → IsConsistent n (record s { runs = put id q s.runs })
  rewritten-IsConsistent id r q present good own as_before =
      put_run-IsConsistent n s h id q good (subst (IsHost s) (sym own) (h.hosted id r present))
        (h.numbered id r present) (inr (r, present, as_before))

  update_order_outcome-IsConsistent :
      (run_id order_id : String) (d : OutcomeDocument)
      → IsConsistent n (update_order_outcome run_id order_id d s)
  unfolding update_order_outcome
  update_order_outcome-IsConsistent run_id order_id d = elim (Option-cases (get run_id s.runs)) [
    | inl absent ↦ rw (absent, update_order_outcome) h
    | inr (r, present) ↦
        let good = h.sound run_id r present in
        rw (present, update_order_outcome)
          (rewritten-IsConsistent run_id r (with_outcome order_id d r) present
            (record { own_id = good.own_id; passes = good.passes; has_result = good.has_result })
            refl refl)
  ]

  with_outcomes-IsConsistent :
      (id : String) (r : RunRecord) (ds : List OutcomeDocument)
      → get id s.runs ≡ some r
      → IsConsistent n (save_run (with_outcomes ds r) s)
  unfolding save_run
  with_outcomes-IsConsistent id r ds present =
      let good = h.sound id r present in
      subst (λ k. IsConsistent n (record s { runs = put k (with_outcomes ds r) s.runs }))
        (sym good.own_id)
        (rewritten-IsConsistent id r (with_outcomes ds r) present
          (record { own_id = good.own_id; passes = good.passes; has_result = good.has_result }) refl
          refl)

  clear_explanation-IsConsistent : (id : String) → IsConsistent n (clear_explanation id s)
  unfolding clear_explanation
  clear_explanation-IsConsistent id =
      touched-IsConsistent n s h s.scenario_seq s.run_seq s.alternative_seq _ s.trace (omega arith)
        (omega arith)

  pub create_decision-IsConsistent :
      (decision_id run_id : String) (state : DecisionState)
      → IsConsistent n (create_decision decision_id run_id state s).0
  unfolding create_decision Storage.get_run save_decision
  create_decision-IsConsistent decision_id run_id state = elim (Option-cases (get run_id s.runs)) [
    | inl absent ↦ rw (absent, create_decision) h
    | inr (r, present) ↦ elim (Bool-cases (is_accepted state && not (acceptable r.run))) [
      | inl barred ↦ rw (present, create_decision) (rw (barred, create_decision) h)
      | inr free ↦
          rw (present, create_decision)
            (rw (free, create_decision)
              (append_trace-IsConsistent n _
                (add_decision-IsConsistent n s h run_id
                  (record { decision_id = decision_id; run_id = run_id; decision_state = state }) r
                  present (allowed_of state (acceptable r.run) free))
                r.run.scenario_id decision_recorded))
    ]
  ]

module _ {E : Type 0} (n : Naming) (names : IsNaming n) (s : MemoryStore E)
    (h : IsConsistent n s) where
  abbrev alternative_run_id : String
  alternative_run_id = n.alternative_run_id_of (s.alternative_seq + 1)

  abbrev taken : MemoryStore E
  taken = (next_alternative_sequence s).0

  taken-IsConsistent : IsConsistent n taken
  unfolding next_alternative_sequence
  taken-IsConsistent =
      touched-IsConsistent n s h s.scenario_seq s.run_seq (s.alternative_seq + 1) s.explanations
        s.trace (omega arith) (omega arith)

  -- The derived scenario, its run and its validation together.
  derived-IsConsistent :
      (scenario : ScenarioRecord) (order_id now scenario_id : String) (f : Found)
      → IsStorable scenario_id alternative_run_id f
      → f.alternative_run.validator_status ≡ pass
      → IsConsistent n (
          save_validation f.alternative_scenario_id f.alternative_validation (
            save_run
              (record { run = f.alternative_run; created_at = none })
              (save_scenario (derived_record scenario order_id now f) taken)))
  unfolding save_validation save_run save_scenario next_alternative_sequence
  derived-IsConsistent scenario order_id now scenario_id f storable passes =
      let alternative : RunRecord = record { run = f.alternative_run; created_at = none } in
      let hosting : MemoryStore E = record taken {
        scenarios =
            put f.alternative_scenario_id (derived_record scenario order_id now f) s.scenarios;
        validations = put f.alternative_scenario_id f.alternative_validation s.validations;
      } in
      let ready : IsConsistent n hosting =
        put_validation-IsConsistent n _
          (put_scenario-IsConsistent n taken taken-IsConsistent f.alternative_scenario_id
            (derived_record scenario order_id now f) (storable.resolved, storable.served))
          f.alternative_scenario_id f.alternative_validation in
      let own : f.alternative_run.scenario_id ≡ f.alternative_scenario_id =
        storable.same_scenario_id ∙ sym storable.own_scenario_id in
      subst (λ k. IsConsistent n (record hosting { runs = put k alternative s.runs }))
        (sym storable.same_run_id)
        (put_run-IsConsistent n hosting ready alternative_run_id alternative
          (record {
            own_id = storable.same_run_id;
            passes = passes;
            has_result = not_error f.alternative_run.run_state storable.has_result;
          })
          (subst (IsHost hosting) (sym own) (record {
            row = derived_record scenario order_id now f;
            row_found = put-same f.alternative_scenario_id alternative_run_id _ s.scenarios;
            validation = f.alternative_validation;
            validation_found =
                put-same f.alternative_scenario_id alternative_run_id f.alternative_validation
                  s.validations;
          }))
          (inr (s.alternative_seq + 1, omega arith, refl)) (inl (alternative_id_fresh n s names h)))

  store_found-IsConsistent :
      (run_id order_id now scenario_id owner : String) (scenario : ScenarioRecord) (f : Found)
      (update : OutcomeDocument)
      → IsStorable scenario_id alternative_run_id f
      → f.alternative_run.validator_status ≡ pass
      → IsConsistent n (store_found run_id order_id now scenario owner f update taken)
  unfolding store_found
  store_found-IsConsistent run_id order_id now scenario_id owner scenario f update storable passes =
      append_trace-IsConsistent n _
        (append_trace-IsConsistent n _
          (clear_explanation-IsConsistent n _
            (update_order_outcome-IsConsistent n _
              (derived-IsConsistent scenario order_id now scenario_id f storable passes) run_id
              order_id update)
            run_id)
          owner alternative_created)
        f.alternative_scenario_id alternative_created

  settle-IsConsistent :
      (run_id order_id now scenario_id : String) (scenario : ScenarioRecord) (r : RunRecord)
      (answer : SearchResult)
      → get run_id s.runs ≡ some r
      → ((f : Found)
          → answer ≡ found f
          → IsStorable scenario_id alternative_run_id f
            × (f.alternative_run.validator_status ≡ pass))
      → IsConsistent n (settle run_id order_id now scenario r answer taken).0
  unfolding settle next_alternative_sequence
  settle-IsConsistent run_id order_id now scenario_id scenario r (refused types) present ok =
      taken-IsConsistent
  settle-IsConsistent run_id order_id now scenario_id scenario r (ambiguous id ids) present ok =
      taken-IsConsistent
  settle-IsConsistent run_id order_id now scenario_id scenario r raised present ok =
      taken-IsConsistent
  settle-IsConsistent run_id order_id now scenario_id scenario r (not_found cs verdict) present ok =
      append_trace-IsConsistent n _
        (with_outcomes-IsConsistent n taken taken-IsConsistent run_id r
          (apply_to_baseline r.run.order_outcomes order_id no_alternative none).0 present)
        r.run.scenario_id alternative_created
  settle-IsConsistent run_id order_id now scenario_id scenario r (found f) present ok =
      let update =
        (apply_to_baseline r.run.order_outcomes order_id available
          (some f.alternative_scenario_id)).1 in
      elim (Option-cases (alternative_result run_id f update)) [
        | inl refused_body ↦
            rw (refused_body, settle)
              (with_outcomes-IsConsistent n taken taken-IsConsistent run_id r
                (apply_to_baseline r.run.order_outcomes order_id available
                  (some f.alternative_scenario_id)).0
                present)
        | inr (body, accepted_body) ↦
            let (storable, passes) = ok f refl in
            rw (accepted_body, settle)
              (store_found-IsConsistent run_id order_id now scenario_id r.run.scenario_id scenario f
                body.1 storable passes)
      ]

  pub create_alternative-IsConsistent :
      (solve : CpSolver) (sound : IsSound solve) (clock : ℕ → ℕ) (now run_id order_id : String)
      (types : List AdjustmentType)
      → IsConsistent n
          (create_alternative solve clock n.alternative_scenario_id_of n.alternative_run_id_of now
            run_id order_id types s).0
  unfolding create_alternative search_and_settle Storage.get_run get_scenario
      next_alternative_sequence
  create_alternative-IsConsistent solve sound clock now run_id order_id types =
      elim (Option-cases (get run_id s.runs)) [
        | inl absent ↦ rw (absent, create_alternative) h
        | inr (r, present) ↦ elim (Option-cases (get r.run.scenario_id s.scenarios)) [
          | inl homeless ↦ rw (present, create_alternative) (rw (homeless, create_alternative) h)
          | inr (scenario, housed) ↦
              elim (Bool-cases (has_order order_id scenario.input_snapshot)) [
                | inr foreign ↦
                    rw (present, create_alternative)
                      (rw (housed, create_alternative) (rw (foreign, create_alternative) h))
                | inl known ↦
                    let (resolved, served) = h.usable r.run.scenario_id scenario housed in
                    let scenario_id = n.alternative_scenario_id_of (s.alternative_seq + 1) in
                    rw (present, create_alternative)
                      (rw (housed, create_alternative)
                        (rw (known, create_alternative)
                          (settle-IsConsistent run_id order_id now scenario_id scenario r
                            (search_alternative solve clock r.run.solver_parameters scenario_id
                              alternative_run_id order_id r.run scenario.input_snapshot types)
                            present
                            λ f e. (
                              search_alternative-IsStorable solve clock r.run.solver_parameters
                                  scenario_id alternative_run_id order_id r.run
                                  scenario.input_snapshot types sound resolved served f e,
                              (search_alternative-IsVerifiedChange solve clock
                                  r.run.solver_parameters scenario_id alternative_run_id order_id
                                  r.run scenario.input_snapshot types sound resolved served f
                                  e).run_verified,
                            ))))
              ]
        ]
      ]

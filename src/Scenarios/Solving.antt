-- ===== src/Scenarios/Solving.antt =====
-- What `create_run` of app/routers/scenarios.py records, and when.
use piggyon.Base.{
  ℕ, ◌≡◌, ◌≢◌, refl, sym, ap, subst, ◌∙◌, ◌⊎◌, inl, inr, true, false, none, some, String, ◌+◌, ◌==◌,
  eq_iff, eq_refl, Bool-cases, Option-cases, nat_eq,
}
use piggyon.Base.Dict.{get, get-put}
use piggyon.Baseline.{SolverParameters}
use piggyon.Baseline.Cp.{CpSolver}
use piggyon.Errors.{solver_unavailable, no_detail, ApiError, api_error, internal}
use piggyon.Planning.{Run, run_baseline, ValidationResult}
use piggyon.Storage.{
  ScenarioState, solved, run_completed, ScenarioRecord, MemoryStore, with_state, get_scenario,
  update_scenario_state, append_trace, get_validation, next_run_id, save_run, get_run,
}
use piggyon.Scenarios.{Step, is_error, record_run, solve_scenario, create_run}
use piggyon.Scenarios.States.{update-present}

-- What a successful solve finds and leaves.
pub record IsRecorded {E : Type 0} (id now : String) (parameters : SolverParameters)
    (s t : MemoryStore E) (run : Run) : Type 0 where
  pub one_worker : nat_eq parameters.num_search_workers 1 ≡ true
  pub validated : get_validation id s ≢ none
  pub has_result : is_error run.run_state ≡ false
  pub stored : get_run run.run_id t ≡ some (record { run = run; created_at = some now })
  pub other_runs : (k : String) → k ≢ run.run_id → get_run k t ≡ get_run k s
  pub scenario_solved :
      (r : ScenarioRecord)
      → get_scenario id s ≡ some r
      → get_scenario id t ≡ some (with_state solved r)

inl≢inr : {e : ApiError} {r : Run} → inl e ≡ inr r → ⊥
inl≢inr h = cc

inr-eq : (x y : Run) {z : ApiError ⊎ Run} → z ≡ inr x → z ≡ inr y → y ≡ x
inr-eq x y p q = cc

some≢none : {r : ValidationResult} → some r ≡ none → ⊥
some≢none h = cc

not_same : (x y : String) → x ≢ y → (x == y) ≡ false
not_same x y n = elim (Bool-cases (x == y)) [ inl e ↦ absurd (n ((eq_iff x y).0 e)) | inr e ↦ e ]

update-runs :
    {E : Type 0} (id : String) (state : ScenarioState) (s : MemoryStore E)
    → (update_scenario_state id state s).runs ≡ s.runs
unfolding update_scenario_state
update-runs id state s = elim (Option-cases (get id s.scenarios)) [
  | inl absent ↦ rw (absent, update_scenario_state) refl
  | inr (r, present) ↦ rw (present, update_scenario_state) refl
]

module _ {E : Type 0} (solve : CpSolver) (clock : ℕ → ℕ) (run_id_of : ℕ → String) (now id : String)
    (parameters : SolverParameters) (s : MemoryStore E) where
  abbrev reply : Step E Run
  reply = create_run solve clock run_id_of now id parameters s

  abbrev taken : MemoryStore E
  taken = (next_run_id s).0

  abbrev settled : Run → Step E Run
  settled run = (
    append_trace id run_completed (
        update_scenario_state id solved
          (save_run (record { run = run; created_at = some now }) taken)),
    inr run,
  )

  settled-IsRecorded :
      (run : Run) (validation : ValidationResult)
      → nat_eq parameters.num_search_workers 1 ≡ true
      → get_validation id s ≡ some validation
      → is_error run.run_state ≡ false
      → IsRecorded id now parameters s (settled run).0 run
  unfolding append_trace save_run next_run_id get_run get_scenario
  settled-IsRecorded run validation workers validated ok = record {
    one_worker = workers;
    validated = λ absent. some≢none (sym validated ∙ absent);
    has_result = ok;
    stored =
        ap (get run.run_id)
          (update-runs id solved (save_run (record { run = run; created_at = some now }) taken))
        ∙ get-put run.run_id run.run_id (record { run = run; created_at = some now }) s.runs
        ∙ rw (eq_refl run.run_id) refl;
    other_runs = λ k other.
        ap (get k)
          (update-runs id solved (save_run (record { run = run; created_at = some now }) taken))
        ∙ get-put run.run_id k (record { run = run; created_at = some now }) s.runs
        ∙ rw (not_same run.run_id k λ e. other (sym e)) refl;
    scenario_solved = λ r found.
        ap (get id) (
          update-present id solved (save_run (record { run = run; created_at = some now }) taken) r
            found)
        ∙ get-put id id (with_state solved r) s.scenarios
        ∙ rw (eq_refl id) refl;
  }

  module _ (scenario : ScenarioRecord) (validation : ValidationResult)
      (workers : nat_eq parameters.num_search_workers 1 ≡ true)
      (validated : get_validation id s ≡ some validation) where
    abbrev solving : Step E Run
    solving = solve_scenario solve clock run_id_of now id scenario parameters s

    solving-eq :
        (run : Run)
        → run_baseline solve clock
            (run_id_of (next_run_id s).1)
            id
            scenario.input_snapshot
            parameters
          ≡ some run
        → is_error run.run_state ≡ false
        → solving ≡ settled run
    unfolding solve_scenario record_run
    solving-eq run produced ok = rw (produced, solve_scenario) (rw (ok, record_run) refl)

    solving-failed :
        run_baseline solve clock (run_id_of (next_run_id s).1) id scenario.input_snapshot parameters
          ≡ none
        → solving.1 ≡ inl internal
    unfolding solve_scenario
    solving-failed broken = rw (broken, solve_scenario) refl

    solving-errored :
        (run : Run)
        → run_baseline solve clock
            (run_id_of (next_run_id s).1)
            id
            scenario.input_snapshot
            parameters
          ≡ some run
        → is_error run.run_state ≡ true
        → solving.1 ≡ inl (api_error solver_unavailable no_detail)
    unfolding solve_scenario record_run
    solving-errored run produced bad = rw (produced, solve_scenario) (rw (bad, record_run) refl)

    solving-IsRecorded :
        (run : Run) → solving.1 ≡ inr run → IsRecorded id now parameters s solving.0 run
    solving-IsRecorded run e =
        elim (Option-cases (
          run_baseline solve clock (run_id_of (next_run_id s).1) id scenario.input_snapshot
            parameters)) [
              | inl broken ↦ absurd (inl≢inr (sym (solving-failed broken) ∙ e))
              | inr (made, produced) ↦ elim (Bool-cases (is_error made.run_state)) [
                | inl bad ↦ absurd (inl≢inr (sym (solving-errored made produced bad) ∙ e))
                | inr ok ↦
                    let done = solving-eq made produced ok in
                    let same : run ≡ made = inr-eq made run (ap (λ (q : Step E Run). q.1) done) e in
                    subst (λ (q : Step E Run). IsRecorded id now parameters s q.0 run) (sym done)
                      (subst (λ (r : Run). IsRecorded id now parameters s (settled made).0 r)
                        (sym same) (settled-IsRecorded made validation workers validated ok))
              ]
            ]

    reply-eq : get id s.scenarios ≡ some scenario → reply ≡ solving
    unfolding create_run get_scenario
    reply-eq found =
        rw (found, create_run) (rw (workers, create_run) (rw (validated, create_run) refl))

  pub create_run-IsRecorded :
      (run : Run) → reply.1 ≡ inr run → IsRecorded id now parameters s reply.0 run
  unfolding create_run get_scenario
  create_run-IsRecorded run e = elim (Option-cases (get id s.scenarios)) [
    | inl absent ↦ absurd (inl≢inr (rw (absent, create_run) at e))
    | inr (scenario, found) ↦ elim (Bool-cases (nat_eq parameters.num_search_workers 1)) [
      | inr workers ↦ absurd (inl≢inr (rw (found, create_run, workers) at e))
      | inl workers ↦ elim (Option-cases (get_validation id s)) [
        | inl unvalidated ↦ absurd (inl≢inr (rw (found, create_run, workers, unvalidated) at e))
        | inr (validation, validated) ↦
            let same = reply-eq scenario validation workers validated found in
            subst (λ (q : Step E Run). IsRecorded id now parameters s q.0 run) (sym same)
              (solving-IsRecorded scenario validation workers validated run
                (sym (ap (λ (q : Step E Run). q.1) same) ∙ e))
      ]
    ]
  ]

  -- The store after a refusal is the one before, but for the number of a run that is not stored.
  abbrev Untouched : MemoryStore E → Type 0
  Untouched t = (t ≡ s) ⊎ (t ≡ record s { run_seq = s.run_seq + 1 })

  -- What a request to solve ends in.
  pub data IsSettled : Step E Run → Type 0 where
    answered :
        {t : MemoryStore E} {run : Run}
        → IsRecorded id now parameters s t run
        → IsSettled (t, inr run)
    turned_away : {t : MemoryStore E} {e : ApiError} → Untouched t → IsSettled (t, inl e)

  IsSettled-of :
      (q : Step E Run)
      → ((run : Run) → q.1 ≡ inr run → IsRecorded id now parameters s q.0 run)
      → ((e : ApiError) → q.1 ≡ inl e → Untouched q.0)
      → IsSettled q
  IsSettled-of (t, inl e) recorded refused = turned_away (refused e refl)
  IsSettled-of (t, inr run) recorded refused = answered (recorded run refl)

  inr≢inl : {r : Run} {e : ApiError} → inr r ≡ inl e → ⊥
  inr≢inl h = cc

  solving-Untouched :
      (scenario : ScenarioRecord) (e : ApiError)
      → (solve_scenario solve clock run_id_of now id scenario parameters s).1 ≡ inl e
      → Untouched (solve_scenario solve clock run_id_of now id scenario parameters s).0
  unfolding solve_scenario record_run next_run_id
  solving-Untouched scenario e refused =
      elim (Option-cases (
        run_baseline solve clock (run_id_of (s.run_seq + 1)) id scenario.input_snapshot
          parameters)) [
            | inl broken ↦ inr (rw (broken, solve_scenario) refl)
            | inr (made, produced) ↦ elim (Bool-cases (is_error made.run_state)) [
              | inl bad ↦ inr (rw (produced, solve_scenario) (rw (bad, record_run) refl))
              | inr ok ↦ absurd (inr≢inl (rw (produced, solve_scenario, ok, record_run) at refused))
            ]
          ]

  refused-Untouched : (e : ApiError) → reply.1 ≡ inl e → Untouched reply.0
  unfolding create_run get_scenario
  refused-Untouched e refused = elim (Option-cases (get id s.scenarios)) [
    | inl absent ↦ inl (rw (absent, create_run) refl)
    | inr (scenario, found) ↦ elim (Bool-cases (nat_eq parameters.num_search_workers 1)) [
      | inr workers ↦ inl (rw (found, create_run, workers) refl)
      | inl workers ↦ elim (Option-cases (get_validation id s)) [
        | inl unvalidated ↦ inl (rw (found, create_run, workers, unvalidated) refl)
        | inr (validation, validated) ↦
            let same = reply-eq scenario validation workers validated found in
            subst (λ (q : Step E Run). Untouched q.0) (sym same)
              (solving-Untouched scenario e (sym (ap (λ (q : Step E Run). q.1) same) ∙ refused))
      ]
    ]
  ]

  -- A request to solve is answered with a run or refused. If it is answered, it asked for one worker
  -- of a validated scenario, the run is no error and is stored under its id, all other runs stay as
  -- they were, and the scenario, where it is stored, is in the state SOLVED. If it is refused, an
  -- exception included, the whole store is as it was, but that the number of a run may be used up.
  pub create_run-IsSettled : IsSettled reply
  create_run-IsSettled = IsSettled-of reply create_run-IsRecorded refused-Untouched

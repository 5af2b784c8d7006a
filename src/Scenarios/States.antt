-- ===== src/Scenarios/States.antt =====
-- The life of a scenario under the endpoints of app/routers/scenarios.py.
use piggyon.Base.{
  ℕ, ◌≤◌, ◌≡◌, refl, sym, ap, ◌∙◌, inl, inr, Bool, true, false, ◌&&◌, none, some, [], String, ◌==◌,
  eq_iff, arith, Bool-cases, Option-cases,
}
use piggyon.Base.Dict.{get, put, get-put}
use piggyon.Eligibility.{evaluate_scenario}
use piggyon.Eligibility.Types.{ScenarioEvaluation, has_any_candidate}
use piggyon.Storage.{
  ScenarioState, validation_required, ready_to_solve, solved, ScenarioRecord, MemoryStore,
  with_state, get_scenario, update_scenario_state, save_validation, append_trace,
}
use piggyon.Scenarios.{waits_for_validation, record_validation, validate_scenario}

abbrev pub stage : ScenarioState → ℕ
stage validation_required = 0
stage ready_to_solve = 1
stage solved = 2

-- Every scenario of `s` is in `t`, on the same input and in no earlier state.
pub Advances : {E : Type 0} → MemoryStore E → MemoryStore E → Type 0
Advances s t =
    (id : String) (r : ScenarioRecord)
    → get id s.scenarios ≡ some r
    → (q : ScenarioRecord) × (get id t.scenarios ≡ some q)
      × (q.input_snapshot ≡ r.input_snapshot)
      × (stage r.state ≤ stage q.state)

-- Where a scenario that was there is afterwards.
pub Advances-at :
    {E : Type 0} (s t : MemoryStore E) (id : String) (r : ScenarioRecord)
    → Advances s t
    → get id s.scenarios ≡ some r
    → (q : ScenarioRecord) × (get id t.scenarios ≡ some q)
      × (q.input_snapshot ≡ r.input_snapshot)
      × (stage r.state ≤ stage q.state)
unfolding Advances
Advances-at s t id r h found = h id r found

some-eq : {x y : ScenarioRecord} → some x ≡ some y → y ≡ x
some-eq h = cc

waits-stage :
    (state next : ScenarioState) → waits_for_validation state ≡ true → stage state ≤ stage next
waits-stage validation_required next h = omega arith
waits-stage ready_to_solve next h = cc
waits-stage solved next h = cc

module _ {E : Type 0} where
  update-absent :
      (id : String) (state : ScenarioState) (s : MemoryStore E)
      → get id s.scenarios ≡ none
      → (update_scenario_state id state s).scenarios ≡ s.scenarios
  unfolding update_scenario_state
  update-absent id state s h = rw (h, update_scenario_state) refl

  pub update-present :
      (id : String) (state : ScenarioState) (s : MemoryStore E) (p : ScenarioRecord)
      → get id s.scenarios ≡ some p
      → (update_scenario_state id state s).scenarios ≡ put id (with_state state p) s.scenarios
  unfolding update_scenario_state
  update-present id state s p h = rw (h, update_scenario_state) refl

  pub stays : (s t : MemoryStore E) → t.scenarios ≡ s.scenarios → Advances s t
  unfolding Advances
  stays s t same id r found = (r, rw same found, refl, omega arith)

  pub update-Advances :
      (id : String) (state : ScenarioState) (s : MemoryStore E)
      → ((r : ScenarioRecord) → get id s.scenarios ≡ some r → stage r.state ≤ stage state)
      → Advances s (update_scenario_state id state s)
  unfolding Advances
  update-Advances id state s later j r found = elim (Option-cases (get id s.scenarios)) [
    | inl absent ↦ (r, ap (get j) (update-absent id state s absent) ∙ found, refl, omega arith)
    | inr (p, present) ↦
        let now =
          ap (get j) (update-present id state s p present)
          ∙ get-put id j (with_state state p) s.scenarios in
        elim (Bool-cases (id == j)) [
          | inl e ↦
              let own : get j s.scenarios ≡ some p = rw (← (eq_iff id j).0 e) present in
              let same : r ≡ p = some-eq (sym own ∙ found) in
              (with_state state p, now ∙ rw e refl, rw same refl, rw same (later p present))
          | inr e ↦ (r, now ∙ rw e found, refl, omega arith)
        ]
  ]

  record_validation-Advances :
      (id : String) (scenario : ScenarioRecord) (evaluation : ScenarioEvaluation)
      (s : MemoryStore E)
      → get id s.scenarios ≡ some scenario
      → Advances s (record_validation id scenario evaluation s)
  unfolding record_validation Advances append_trace save_validation
  record_validation-Advances id scenario evaluation s found =
      elim (Bool-cases (has_any_candidate evaluation && waits_for_validation scenario.state)) [
        | inl ready ↦ λ j r at_j.
            rw (ready, record_validation)
              (update-Advances id ready_to_solve _
                (λ p e.
                  rw (some-eq (sym found ∙ e))
                    (waits-stage scenario.state ready_to_solve (second _ _ ready)))
                j r at_j)
        | inr waiting ↦ λ j r at_j. (r, rw (waiting, record_validation) at_j, refl, omega arith)
      ]
    where
      second : (a b : Bool) → (a && b) ≡ true → b ≡ true
      second true b h = h
      second false b h = cc

  -- A call of the validation endpoint removes no scenario from the store, moves none back to an
  -- earlier state and changes no input.
  pub validate_scenario-Advances :
      (id : String) (s : MemoryStore E) → Advances s (validate_scenario id s).0
  unfolding validate_scenario get_scenario
  validate_scenario-Advances id s = elim (Option-cases (get id s.scenarios)) [
    | inl absent ↦ rw (absent, validate_scenario) (stays s s refl)
    | inr (scenario, found) ↦
        elim (Option-cases (evaluate_scenario scenario.input_snapshot none [])) [
          | inl broken ↦
              rw (found, validate_scenario) (rw (broken, validate_scenario) (stays s s refl))
          | inr (evaluation, done) ↦
              rw (found, validate_scenario)
                (rw (done, validate_scenario)
                  (record_validation-Advances id scenario evaluation s found))
        ]
  ]

-- ===== src/Api/Scenarios.antt =====
-- The endpoints of app/routers/scenarios.py keep the store consistent.
use piggyon.Base.{
  ◌+◌, ◌≡◌, refl, inl, inr, Bool, true, false, ◌||◌, List, [], String, arith, is_empty,
  is_empty-nil, Bool-cases, Option-cases,
}
use piggyon.Base.Dict.{get, put}
use piggyon.Snapshot.References.{references_resolve}
use piggyon.Snapshot.Accepts.{references_resolve-IsResolved_iff}
use piggyon.Storage.{
  ScenarioState, MemoryStore, with_state, update_scenario_state, append_trace, next_scenario_id,
  save_scenario, TraceEvent,
}
use piggyon.Scenarios.Creation.{
  ScenarioCreateRequest, body_refused, inconsistencies, new_record, create_scenario,
}
use piggyon.Api.{Naming}
use piggyon.Api.Consistency.{
  IsUsable, IsConsistent, touched-IsConsistent, put_scenario-IsConsistent,
}

or_left : (a b : Bool) → (a || b) ≡ false → a ≡ false
or_left true b h = cc
or_left false b h = refl

or_right : (a b : Bool) → (a || b) ≡ false → b ≡ false
or_right true b h = cc
or_right false b h = h

-- A request that is not refused carries a usable snapshot.
accepted-IsUsable : (p : ScenarioCreateRequest) → body_refused p ≡ false → IsUsable p.input_snapshot
accepted-IsUsable p h = (
  (references_resolve-IsResolved_iff p.input_snapshot).0
      (is_empty-nil (references_resolve p.input_snapshot) (ground (arith, h))),
  λ e. served p.input_snapshot.baseline_service_ids e (ground (arith, h)),
)
  where
    served : (ids : List String) → ids ≡ [] → is_empty ids ≡ false → ⊥
    served ids e f = cc

module _ {E : Type 0} (n : Naming) (s : MemoryStore E) (h : IsConsistent n s) where
  pub create_scenario-IsConsistent :
      (now : String) (p : ScenarioCreateRequest)
      → IsConsistent n (create_scenario n.scenario_id_of now p s).0
  unfolding create_scenario next_scenario_id save_scenario append_trace
  create_scenario-IsConsistent now p = elim (Bool-cases (body_refused p)) [
    | inl refused ↦ rw (refused, create_scenario) h
    | inr accepted ↦ elim (Bool-cases (is_empty (inconsistencies p))) [
      | inr differs ↦ rw (accepted, create_scenario) (rw (differs, create_scenario) h)
      | inl agrees ↦
          let id = n.scenario_id_of (s.scenario_seq + 1) in
          rw (accepted, create_scenario)
            (rw (agrees, create_scenario)
              (touched-IsConsistent n
                (record s { scenarios = put id (new_record id now p) s.scenarios })
                (put_scenario-IsConsistent n s h id (new_record id now p)
                  (accepted-IsUsable p accepted))
                (s.scenario_seq + 1) s.run_seq s.alternative_seq s.explanations _ (omega arith)
                (omega arith)))
    ]
  ]

  pub update_scenario_state-IsConsistent :
      (id : String) (state : ScenarioState) → IsConsistent n (update_scenario_state id state s)
  unfolding update_scenario_state
  update_scenario_state-IsConsistent id state = elim (Option-cases (get id s.scenarios)) [
    | inl absent ↦ rw (absent, update_scenario_state) h
    | inr (r, found) ↦
        rw (found, update_scenario_state)
          (put_scenario-IsConsistent n s h id (with_state state r) (h.usable id r found))
  ]

  -- An event more, and nothing else.
  pub append_trace-IsConsistent :
      (id : String) (event : TraceEvent) → IsConsistent n (append_trace id event s)
  unfolding append_trace
  append_trace-IsConsistent id event =
      touched-IsConsistent n s h s.scenario_seq s.run_seq s.alternative_seq s.explanations _
        (omega arith) (omega arith)

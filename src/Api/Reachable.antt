-- ===== src/Api/Reachable.antt =====
-- The stores that calls of the API can lead to, from the empty store of app/storage.py. A read
-- leaves the store as it is; an explanation that is kept is any value.
use piggyon.Base.{ℕ, refl, sym, List, String, arith}
use piggyon.Base.Dict.{get}
use piggyon.Base.Lookups.{some-ne-none}
use piggyon.Baseline.{SolverParameters}
use piggyon.Baseline.Cp.{CpSolver, IsSound}
use piggyon.Alternatives.Changes.{AdjustmentType}
use piggyon.Storage.{DecisionState, MemoryStore, save_explanation}
use piggyon.Storage.Abstract.{empty_store}
use piggyon.Scenarios.{validate_scenario, delete_scenario, create_run}
use piggyon.Scenarios.Creation.{ScenarioCreateRequest, create_scenario}
use piggyon.Runs.{create_alternative, create_decision}
use piggyon.Api.{Naming, IsNaming}
use piggyon.Api.Consistency.{IsConsistent, touched-IsConsistent}
use piggyon.Api.Scenarios.{create_scenario-IsConsistent}
use piggyon.Api.Solving.{
  validate_scenario-IsConsistent, delete_endpoint-IsConsistent, create_run-IsConsistent,
}
use piggyon.Api.Running.{create_decision-IsConsistent, create_alternative-IsConsistent}

-- One call, of one of the endpoints that change the store. Each has its own time and clock.
pub data Calls {E : Type 0} (n : Naming) (solve : CpSolver) (s : MemoryStore E)
    : MemoryStore E → Type 0 where
  creates :
      (now : String) (p : ScenarioCreateRequest)
      → Calls n solve s (create_scenario n.scenario_id_of now p s).0
  validates : (id : String) → Calls n solve s (validate_scenario id s).0
  solves :
      (clock : ℕ → ℕ) (now id : String) (parameters : SolverParameters)
      → Calls n solve s (create_run solve clock n.run_id_of now id parameters s).0
  deletes : (id : String) → Calls n solve s (delete_scenario id s).0
  searches :
      (clock : ℕ → ℕ) (now run_id order_id : String) (types : List AdjustmentType)
      → Calls n solve s
          (create_alternative solve clock n.alternative_scenario_id_of n.alternative_run_id_of now
            run_id order_id types s).0
  decides :
      (decision_id run_id : String) (state : DecisionState)
      → Calls n solve s (create_decision decision_id run_id state s).0
  explains : (run_id : String) (cards : E) → Calls n solve s (save_explanation run_id cards s)

pub data Reachable {E : Type 0} (n : Naming) (solve : CpSolver) : MemoryStore E → Type 0 where
  start : Reachable n solve empty_store
  after : {s t : MemoryStore E} → Reachable n solve s → Calls n solve s t → Reachable n solve t

empty-IsConsistent : {E : Type 0} (n : Naming) → IsConsistent {E = E} n empty_store
unfolding get
empty-IsConsistent n = record {
  usable = λ id r e. absurd (some-ne-none {x = r} (sym e));
  sound = λ id r e. absurd (some-ne-none {x = r} (sym e));
  hosted = λ id r e. absurd (some-ne-none {x = r} (sym e));
  numbered = λ id r e. absurd (some-ne-none {x = r} (sym e));
  undecided = λ id e. refl;
  decided = λ id r d e m a. absurd (some-ne-none {x = r} (sym e));
}

module _ {E : Type 0} (n : Naming) (names : IsNaming n) (solve : CpSolver)
    (sound : IsSound solve) where
  Calls-IsConsistent :
      {s t : MemoryStore E} → Calls n solve s t → IsConsistent n s → IsConsistent n t
  unfolding save_explanation
  Calls-IsConsistent {s} (Calls.creates now p) h = create_scenario-IsConsistent n s h now p
  Calls-IsConsistent {s} (Calls.validates id) h = validate_scenario-IsConsistent n s h id
  Calls-IsConsistent {s} (Calls.solves clock now id parameters) h =
      create_run-IsConsistent n names solve sound clock now s h id parameters
  Calls-IsConsistent {s} (Calls.deletes id) h = delete_endpoint-IsConsistent n s h id
  Calls-IsConsistent {s} (Calls.searches clock now run_id order_id types) h =
      create_alternative-IsConsistent n names s h solve sound clock now run_id order_id types
  Calls-IsConsistent {s} (Calls.decides decision_id run_id state) h =
      create_decision-IsConsistent n s h decision_id run_id state
  Calls-IsConsistent {s} (Calls.explains run_id cards) h =
      touched-IsConsistent n s h s.scenario_seq s.run_seq s.alternative_seq _ s.trace (omega arith)
        (omega arith)

  -- Whatever is called, in whatever order, over a sound solver and with ids that do not collide:
  -- each stored scenario has a resolved input with baseline services; each stored run is under its
  -- own id, passed the re-check, is not an error and belongs to a stored, validated scenario; and
  -- a decision ACCEPTED stands on an OPTIMAL run only.
  pub Reachable-IsConsistent : {s : MemoryStore E} → Reachable n solve s → IsConsistent n s
  Reachable-IsConsistent Reachable.start = empty-IsConsistent n
  Reachable-IsConsistent (Reachable.after reached call) =
      Calls-IsConsistent call (Reachable-IsConsistent reached)

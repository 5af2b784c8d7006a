-- ===== src/Storage/Refinement.antt =====
-- The memory store of app/storage.py does what its abstract view says.
use mathlib.Core.List.Memᴰ
use mathlib.Core.Path.{fun_ext}
use piggyon.Base.{
  ◌≡◌, refl, sym, ap, ◌∙◌, inl, inr, Bool, true, false, none, some, List, [], ◌∷◌, ◌++◌, String,
  ◌==◌, eq_iff, contains, contains→mem, if◌then◌else◌, Bool-cases, Option-cases, or_else, IsUnique,
}
use piggyon.Base.Dict.{Dict, get, put, pop, add_to_group, get-put, get-pop}
use piggyon.Base.Keys.{keys, put-IsUnique, pop-IsUnique}
use piggyon.Planning.{OutcomeDocument}
use piggyon.Storage.{
  ScenarioState, RunRecord, MemoryStore, pop_all, run_ids_of, with_state, with_outcome,
  next_scenario_id, save_scenario, get_scenario, delete_scenario, update_scenario_state,
  save_validation, get_validation, next_run_id, save_run, get_run, save_explanation,
  get_explanation, clear_explanation, update_order_outcome, next_alternative_sequence,
  save_decision, list_decisions, append_trace, list_trace,
}
use piggyon.Storage.Deletion.{get-pop_all, listed_of_get, unlisted_of_get, get_of_mem, mem-select}
use piggyon.Storage.Abstract.{
  Write, take_scenario, take_run, take_alternative, put_scenario, drop_scenario, set_state,
  put_validation, put_run, put_explanation, drop_explanation, set_outcome, add_decision, add_event,
  set, is_of, view, apply, meaning, apply_all, meaning_all, empty_store, empty_view,
}

-- Reading from a changed dictionary.
get-put-set :
    {V : Type 0} (k : String) (v : V) (d : Dict V)
    → (λ (j : String). get j (put k v d)) ≡ set k (some v) (λ j. get j d)
get-put-set k v d = fun_ext λ j. get-put k j v d

get-pop-set :
    {V : Type 0} (k : String) (d : Dict V)
    → (λ (j : String). get j (pop k d)) ≡ set k none (λ j. get j d)
get-pop-set k d = fun_ext λ j. get-pop k j d

group-set :
    {V : Type 0} (k : String) (v : V) (d : Dict (List V))
    → (λ (j : String). or_else (get j (add_to_group k v d)) [])
      ≡ set k (or_else (get k d) [] ++ v ∷ []) (λ j. or_else (get j d) [])
unfolding add_to_group
group-set k v d =
    fun_ext λ j.
      ap (λ o. or_else o []) (get-put k j (or_else (get k d) [] ++ v ∷ []) d) ∙ pushed (k == j) j
  where
    pushed :
        (b : Bool) (j : String)
        → or_else (if b then some (or_else (get k d) [] ++ v ∷ []) else get j d) []
          ≡ (if b then or_else (get k d) [] ++ v ∷ [] else or_else (get j d) [])
    pushed true j = refl
    pushed false j = refl

dropped-set :
    {V : Type 0} (k : String) (d : Dict (List V))
    → (λ (j : String). or_else (get j (pop k d)) []) ≡ set k [] (λ j. or_else (get j d) [])
dropped-set k d = fun_ext λ j. ap (λ o. or_else o []) (get-pop k j d) ∙ pushed (k == j) j
  where
    pushed :
        (b : Bool) (j : String)
        → or_else (if b then none else get j d) [] ≡ (if b then [] else or_else (get j d) [])
    pushed true j = refl
    pushed false j = refl

kept-set : {A : Type 0} (k : String) (a : A) (f : String → A) → f k ≡ a → f ≡ set k a f
kept-set k a f same =
    fun_ext λ j. elim (Bool-cases (k == j)) [
      | inl e ↦ rw (e, ← (eq_iff k j).0 e) same
      | inr e ↦ rw e refl
    ]

-- A run is listed for deletion exactly if it is of the scenario.
listed-is_of :
    (id k : String) (d : Dict RunRecord)
    → IsUnique (keys d)
    → contains k (run_ids_of id d) ≡ is_of id (get k d)
listed-is_of id k d unique = elim (Option-cases (get k d)) [
  | inl absent ↦ elim (Bool-cases (contains k (run_ids_of id d))) [
    | inr unlisted ↦ rw absent unlisted
    | inl listed ↦
        let (e, me, key) =
          Memᴰ.of_map (λ (e : String × RunRecord). e.0) _ (contains→mem k _ listed) in
        let (md, own) = mem-select id d me in
        absurd (none≢some (sym absent ∙ ap (λ j. get j d) (sym key) ∙ get_of_mem d unique md))
  ]
  | inr (r, found) ↦ elim (Bool-cases (r.run.scenario_id == id)) [
    | inl own ↦ rw (found, own) (listed_of_get id k d found ((eq_iff r.run.scenario_id id).0 own))
    | inr other ↦
        rw (found, other)
          (unlisted_of_get id k d unique found
            (λ e. true≢false (sym ((eq_iff r.run.scenario_id id).1 e) ∙ other)))
  ]
]
  where
    none≢some : {r : RunRecord} → none ≡ some r → ⊥
    none≢some h = cc

    true≢false : true ≡ false → ⊥
    true≢false h = cc

module _ {E : Type 0} (s : MemoryStore E) where
  set_state-meaning :
      (id : String) (state : ScenarioState)
      → view (apply (set_state id state) s) ≡ meaning (set_state id state) (view s)
  unfolding view apply meaning update_scenario_state get_scenario
  set_state-meaning id state = elim (Option-cases (get id s.scenarios)) [
    | inl absent ↦
        rw (absent, update_scenario_state)
          (ap (λ f. record (view s) { scenario = f })
            (kept-set id none (λ j. get j s.scenarios) absent))
    | inr (r, found) ↦
        rw (found, update_scenario_state)
          (ap (λ f. record (view s) { scenario = f })
            (get-put-set id (with_state state r) s.scenarios))
  ]

  set_outcome-meaning :
      (run_id order_id : String) (d : OutcomeDocument)
      → view (apply (set_outcome run_id order_id d) s)
        ≡ meaning (set_outcome run_id order_id d) (view s)
  unfolding view apply meaning update_order_outcome get_run
  set_outcome-meaning run_id order_id d = elim (Option-cases (get run_id s.runs)) [
    | inl absent ↦
        rw (absent, update_order_outcome)
          (ap (λ f. record (view s) { run = f }) (kept-set run_id none (λ j. get j s.runs) absent))
    | inr (r, found) ↦
        rw (found, update_order_outcome)
          (ap (λ f. record (view s) { run = f })
            (get-put-set run_id (with_outcome order_id d r) s.runs))
  ]

  drop_scenario-meaning :
      (id : String)
      → IsUnique (keys s.runs)
      → view (apply (drop_scenario id) s) ≡ meaning (drop_scenario id) (view s)
  unfolding view apply meaning delete_scenario get_scenario get_validation get_run get_explanation
      list_decisions list_trace
  drop_scenario-meaning id unique = λ i. record {
    scenario = get-pop-set id s.scenarios i;
    validation = get-pop-set id s.validations i;
    run = λ k. gone s.runs k i;
    explanation = λ k. gone s.explanations k i;
    decisions = λ k. emptied k i;
    trace = dropped-set id s.trace i;
    scenario_seq = s.scenario_seq;
    run_seq = s.run_seq;
    alternative_seq = s.alternative_seq;
  }
    where
      gone :
          {V : Type 0} (d : Dict V) (k : String)
          → get k (pop_all (run_ids_of id s.runs) d)
            ≡ (if is_of id (get k s.runs) then none else get k d)
      gone d k =
          get-pop_all (run_ids_of id s.runs) k d
          ∙ ap (λ b. if b then none else get k d) (listed-is_of id k s.runs unique)

      emptied :
          (k : String)
          → or_else (get k (pop_all (run_ids_of id s.runs) s.decisions)) []
            ≡ (if is_of id (get k s.runs) then [] else or_else (get k s.decisions) [])
      emptied k = ap (λ o. or_else o []) (gone s.decisions k) ∙ pushed (is_of id (get k s.runs))
        where
          pushed :
              (b : Bool)
              → or_else (if b then none else get k s.decisions) []
                ≡ (if b then [] else or_else (get k s.decisions) [])
          pushed true = refl
          pushed false = refl

  apply-meaning : (w : Write E) → IsUnique (keys s.runs) → view (apply w s) ≡ meaning w (view s)
  unfolding view apply meaning get_scenario get_validation get_run get_explanation list_decisions
      list_trace next_scenario_id next_run_id next_alternative_sequence save_scenario
      save_validation save_run save_explanation clear_explanation save_decision append_trace
  apply-meaning take_scenario u = refl
  apply-meaning take_run u = refl
  apply-meaning take_alternative u = refl
  apply-meaning (put_scenario r) u =
      ap (λ f. record (view s) { scenario = f }) (get-put-set r.scenario_id r s.scenarios)
  apply-meaning (drop_scenario id) u = drop_scenario-meaning id u
  apply-meaning (set_state id state) u = set_state-meaning id state
  apply-meaning (put_validation id result) u =
      ap (λ f. record (view s) { validation = f }) (get-put-set id result s.validations)
  apply-meaning (put_run r) u =
      ap (λ f. record (view s) { run = f }) (get-put-set r.run.run_id r s.runs)
  apply-meaning (put_explanation id result) u =
      ap (λ f. record (view s) { explanation = f }) (get-put-set id result s.explanations)
  apply-meaning (drop_explanation id) u =
      ap (λ f. record (view s) { explanation = f }) (get-pop-set id s.explanations)
  apply-meaning (set_outcome run_id order_id d) u = set_outcome-meaning run_id order_id d
  apply-meaning (add_decision d) u =
      ap (λ f. record (view s) { decisions = f }) (group-set d.run_id d s.decisions)
  apply-meaning (add_event id event) u =
      ap (λ f. record (view s) { trace = f }) (group-set id event s.trace)

pop_all-IsUnique :
    {V : Type 0} (ks : List String) (d : Dict V)
    → IsUnique (keys d)
    → IsUnique (keys (pop_all ks d))
unfolding pop_all
pop_all-IsUnique [] d u = u
pop_all-IsUnique (k ∷ ks) d u = pop_all-IsUnique ks (pop k d) (pop-IsUnique k d u)

apply-IsUnique :
    {E : Type 0} (w : Write E) (s : MemoryStore E)
    → IsUnique (keys s.runs)
    → IsUnique (keys (apply w s).runs)
unfolding apply next_scenario_id next_run_id next_alternative_sequence save_scenario
    update_scenario_state save_validation save_run save_explanation clear_explanation
    update_order_outcome delete_scenario save_decision append_trace
apply-IsUnique take_scenario s u = u
apply-IsUnique take_run s u = u
apply-IsUnique take_alternative s u = u
apply-IsUnique (put_scenario r) s u = u
apply-IsUnique (drop_scenario id) s u = pop_all-IsUnique (run_ids_of id s.runs) s.runs u
apply-IsUnique (set_state id state) s u = elim (Option-cases (get id s.scenarios)) [
  | inl absent ↦ rw (absent, update_scenario_state) u
  | inr (r, found) ↦ rw (found, update_scenario_state) u
]
apply-IsUnique (put_validation id result) s u = u
apply-IsUnique (put_run r) s u = put-IsUnique r.run.run_id r s.runs u
apply-IsUnique (put_explanation id result) s u = u
apply-IsUnique (drop_explanation id) s u = u
apply-IsUnique (set_outcome run_id order_id d) s u = elim (Option-cases (get run_id s.runs)) [
  | inl absent ↦ rw (absent, update_order_outcome) u
  | inr (r, found) ↦
      rw (found, update_order_outcome) (put-IsUnique run_id (with_outcome order_id d r) s.runs u)
]
apply-IsUnique (add_decision d) s u = u
apply-IsUnique (add_event id event) s u = u

meaning_of_unique :
    {E : Type 0} (ws : List (Write E)) (s : MemoryStore E)
    → IsUnique (keys s.runs)
    → view (apply_all ws s) ≡ meaning_all ws (view s)
unfolding apply_all meaning_all
meaning_of_unique [] s u = refl
meaning_of_unique (w ∷ ws) s u =
    meaning_of_unique ws (apply w s) (apply-IsUnique w s u)
    ∙ ap (meaning_all ws) (apply-meaning s w u)

-- After any writes at all to the empty store, what the memory store answers to every key, in all of
-- its tables, is what the writes mean on functions from keys: a deleted scenario takes its runs and
-- all that hangs on them along, and nothing else moves.
pub view-apply_all :
    {E : Type 0} (ws : List (Write E)) → view (apply_all ws empty_store) ≡ meaning_all ws empty_view
unfolding view get_scenario get_validation get_run get_explanation list_decisions list_trace
view-apply_all ws = meaning_of_unique ws empty_store tt

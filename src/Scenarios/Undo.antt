-- ===== src/Scenarios/Undo.antt =====
-- To create a scenario and delete it again, by app/routers/scenarios.py.
use mathlib.Core.List.Memᴰ
use piggyon.Base.{
  ℕ, zero, suc, ◌+◌, ◌≡◌, refl, ap, ◌∙◌, ◌⊎◌, inl, inr, Bool, false, none, some, List, [], ◌∷◌,
  ◌++◌, String, ◌==◌, eq_refl, Memᴰ, Bool-cases, select, mem-sort_by, or_else,
}
use piggyon.Base.Dict.{Dict, get, put, pop, values, add_to_group}
use piggyon.Base.Lookups.{put-same}
use piggyon.Storage.{
  ScenarioRecord, RunRecord, MemoryStore, take, newest_first, run_ids_of, pop_all, scenario_created,
  list_scenarios, next_scenario_id, save_scenario, append_trace, get_scenario,
}
use piggyon.Storage
use piggyon.Scenarios.{is_child_of, delete_scenario}
use piggyon.Scenarios.Creation.{
  ScenarioCreateRequest, body_refused, inconsistencies, new_record, create_scenario,
}

pop-absent : {V : Type 0} (k : String) (d : Dict V) → get k d ≡ none → pop k d ≡ d
unfolding get pop
pop-absent k [] h = refl
pop-absent k ((j, v) ∷ d) h = elim (Bool-cases (j == k)) [
  | inl e ↦ absurd (some≢none (rw e at h))
  | inr e ↦ rw e (ap (λ rest. (j, v) ∷ rest) (pop-absent k d (rw e at h)))
]
  where
    some≢none : some v ≡ none → ⊥
    some≢none p = cc

pop-put : {V : Type 0} (k : String) (v : V) (d : Dict V) → get k d ≡ none → pop k (put k v d) ≡ d
unfolding get put pop
pop-put k v [] h = rw (eq_refl k) refl
pop-put k v ((j, w) ∷ d) h = elim (Bool-cases (j == k)) [
  | inl e ↦ absurd (some≢none (rw e at h))
  | inr e ↦ rw (e, pop, e) (ap (λ rest. (j, w) ∷ rest) (pop-put k v d (rw e at h)))
]
  where
    some≢none : some w ≡ none → ⊥
    some≢none p = cc

mem-take : {A : Type 0} {x : A} (n : ℕ) (xs : List A) → Memᴰ x (take n xs) → Memᴰ x xs
mem-take zero xs m = elim m [ ]
mem-take (suc n) [] m = elim m [ ]
mem-take (suc n) (y ∷ ys) (Memᴰ.head e) = Memᴰ.head e
mem-take (suc n) (y ∷ ys) (Memᴰ.tail m) = Memᴰ.tail (mem-take n ys m)

select-nil :
    {A : Type 0} (test : A → Bool) (xs : List A)
    → ((x : A) → Memᴰ x xs → test x ≡ false)
    → select test xs ≡ []
unfolding select
select-nil test [] h = refl
select-nil test (x ∷ xs) h =
    rw (h x (Memᴰ.head refl)) (select-nil test xs (λ y m. h y (Memᴰ.tail m)))

mem-values-put :
    {V : Type 0} {x : V} (k : String) (v : V) (d : Dict V)
    → Memᴰ x (values (put k v d))
    → (x ≡ v) ⊎ Memᴰ x (values d)
unfolding put
mem-values-put k v [] m = inl (Memᴰ.eq_of_singleton m)
mem-values-put k v ((j, w) ∷ d) m = elim (Bool-cases (j == k)) [
  | inl e ↦ elim (Memᴰ.cases_cons (rw e at m)) [
    | inl here ↦ inl here
    | inr later ↦ inr (Memᴰ.tail later)
  ]
  | inr e ↦ elim (Memᴰ.cases_cons (rw e at m)) [
    | inl here ↦ inr (Memᴰ.head here)
    | inr later ↦ elim (mem-values-put k v d later) [
      | inl new ↦ inl new
      | inr old ↦ inr (Memᴰ.tail old)
    ]
  ]
]

-- Nothing is stored under the id, and nothing names it as its parent.
pub record IsUnused {E : Type 0} (id : String) (s : MemoryStore E) : Type 0 where
  pub no_scenario : get id s.scenarios ≡ none
  pub no_validation : get id s.validations ≡ none
  pub no_trace : get id s.trace ≡ none
  pub no_runs : run_ids_of id s.runs ≡ []
  pub no_children : (r : ScenarioRecord) → Memᴰ r (values s.scenarios) → is_child_of id r ≡ false

module _ {E : Type 0} (scenario_id_of : ℕ → String) (now : String) (p : ScenarioCreateRequest)
    (s : MemoryStore E) where
  abbrev id : String
  id = scenario_id_of (s.scenario_seq + 1)

  abbrev made : ScenarioRecord
  made = new_record id now p

  abbrev created : MemoryStore E
  created = record s {
    scenarios = put id made s.scenarios;
    trace = add_to_group id scenario_created s.trace;
    scenario_seq = s.scenario_seq + 1;
  }

  created-eq :
      body_refused p ≡ false
      → inconsistencies p ≡ []
      → (create_scenario scenario_id_of now p s).0 ≡ created
  unfolding create_scenario next_scenario_id save_scenario append_trace
  created-eq accepted agrees = rw (accepted, create_scenario) (rw (agrees, create_scenario) refl)

  childless :
      IsUnused id s
      → is_child_of id made ≡ false
      → select (is_child_of id) (list_scenarios 100 created) ≡ []
  unfolding list_scenarios
  childless unused apart = select-nil (is_child_of id) (list_scenarios 100 created) λ r m.
      elim (mem-values-put id made s.scenarios (mem-sort_by newest_first _ (mem-take 100 _ m))) [
        | inl new ↦ ap (is_child_of id) new ∙ apart
        | inr old ↦ unused.no_children r old
      ]

  removed :
      IsUnused id s
      → Storage.delete_scenario id created ≡ record s { scenario_seq = s.scenario_seq + 1 }
  unfolding Storage.delete_scenario pop_all add_to_group
  removed unused = rw unused.no_runs (λ i. record s {
    scenarios = pop-put id made s.scenarios unused.no_scenario i;
    validations = pop-absent id s.validations unused.no_validation i;
    trace =
        pop-put id (or_else (get id s.trace) [] ++ scenario_created ∷ []) s.trace unused.no_trace i;
    scenario_seq = s.scenario_seq + 1;
  })

  -- A scenario that is created under an unused id, and does not name itself as its parent, can be
  -- deleted, which gives back the store before it in all but the number that was taken.
  pub delete_scenario-create_scenario :
      body_refused p ≡ false
      → inconsistencies p ≡ []
      → IsUnused (scenario_id_of (s.scenario_seq + 1)) s
      → is_child_of id (new_record id now p) ≡ false
      → delete_scenario id (create_scenario scenario_id_of now p s).0
        ≡ (record s { scenario_seq = s.scenario_seq + 1 }, inr tt)
  unfolding delete_scenario get_scenario
  delete_scenario-create_scenario accepted agrees unused apart = rw (created-eq accepted agrees) (
      rw (put-same id id made s.scenarios, delete_scenario)
        (rw (childless unused apart, delete_scenario) (ap (λ t. (t, inr tt)) (removed unused))))

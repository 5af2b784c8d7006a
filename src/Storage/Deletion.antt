-- ===== src/Storage/Deletion.antt =====
-- What `delete_scenario` of app/storage.py removes, and what it keeps.
use mathlib.Core.List.Memᴰ
use piggyon.Base.{
  ◌≡◌, ◌≢◌, refl, sym, ap, ◌∙◌, inl, inr, true, false, none, some, List, [], ◌∷◌, map, String, ◌==◌,
  eq_iff, eq_refl, Memᴰ, arith, contains, contains→mem, mem→contains, select, if◌then◌else◌,
  Bool-cases, or_else, IsUnique,
}
use piggyon.Base.Dict.{Dict, get, pop, get-pop, get→mem}
use piggyon.Storage.{
  RunRecord, MemoryStore, belongs_to, run_ids_of, pop_all, get_scenario, get_validation, get_run,
  get_explanation, list_decisions, list_trace, delete_scenario,
}

-- A key is gone exactly if it was popped.
pub get-pop_all :
    {V : Type 0} (ks : List String) (k : String) (d : Dict V)
    → get k (pop_all ks d) ≡ (if contains k ks then none else get k d)
unfolding pop_all contains
get-pop_all [] k d = refl
get-pop_all (x ∷ ks) k d = ground (arith, get-pop_all ks k (pop x d), get-pop x k d, eq_iff x k)

mem-select_of :
    (scenario_id : String) {e : String × RunRecord} (d : Dict RunRecord)
    → Memᴰ e d
    → belongs_to scenario_id e ≡ true
    → Memᴰ e (select (belongs_to scenario_id) d)
unfolding select
mem-select_of scenario_id [] m b = elim m [ ]
mem-select_of scenario_id (x ∷ d) (Memᴰ.head e) b = rw (rw e at b) (Memᴰ.head e)
mem-select_of scenario_id (x ∷ d) (Memᴰ.tail m) b = elim (Bool-cases (belongs_to scenario_id x)) [
  | inl h ↦ rw h (Memᴰ.tail (mem-select_of scenario_id d m b))
  | inr h ↦ rw h (mem-select_of scenario_id d m b)
]

pub listed_of_get :
    (scenario_id id : String) (d : Dict RunRecord) {r : RunRecord}
    → get id d ≡ some r
    → r.run.scenario_id ≡ scenario_id
    → contains id (run_ids_of scenario_id d) ≡ true
listed_of_get scenario_id id d {r} found own = mem→contains (
    Memᴰ.map (λ (e : String × RunRecord). e.0)
      (mem-select_of scenario_id d (get→mem id d found)
        ((eq_iff r.run.scenario_id scenario_id).1 own)))

pub get_of_mem :
    {V : Type 0} {k : String} {v : V} (d : Dict V)
    → IsUnique (map (λ (e : String × V). e.0) d)
    → Memᴰ (k, v) d
    → get k d ≡ some v
unfolding get
get_of_mem [] u m = elim m [ ]
get_of_mem {V} {k} {v} ((j, w) ∷ d) u (Memᴰ.head e) =
    ground (arith, eq_iff j k, ap (λ (p : String × V). p.0) e, ap (λ (p : String × V). p.1) e)
get_of_mem {V} {k} ((j, w) ∷ d) u (Memᴰ.tail m) =
    let seen : contains k (map (λ (e : String × V). e.0) d) ≡ true =
      mem→contains (Memᴰ.map (λ (e : String × V). e.0) m) in
    ground (arith, eq_iff j k, get_of_mem d u.1 m)

pub mem-select :
    (scenario_id : String) {e : String × RunRecord} (d : Dict RunRecord)
    → Memᴰ e (select (belongs_to scenario_id) d)
    → Memᴰ e d × (belongs_to scenario_id e ≡ true)
unfolding select
mem-select scenario_id [] m = elim m [ ]
mem-select scenario_id (x ∷ d) m = elim (Bool-cases (belongs_to scenario_id x)) [
  | inl h ↦ elim (Memᴰ.cases_cons (rw h at m)) [
    | inl here ↦ (Memᴰ.head here, rw here h)
    | inr later ↦ let (md, b) = mem-select scenario_id d later in (Memᴰ.tail md, b)
  ]
  | inr h ↦ let (md, b) = mem-select scenario_id d (rw h at m) in (Memᴰ.tail md, b)
]

pub unlisted_of_get :
    (scenario_id id : String) (d : Dict RunRecord) {r : RunRecord}
    → IsUnique (map (λ (e : String × RunRecord). e.0) d)
    → get id d ≡ some r
    → r.run.scenario_id ≢ scenario_id
    → contains id (run_ids_of scenario_id d) ≡ false
unlisted_of_get scenario_id id d {r} u found other =
    elim (Bool-cases (contains id (run_ids_of scenario_id d))) [
      | inr absent ↦ absent
      | inl listed ↦
          let (e, me, key) =
            Memᴰ.of_map (λ (e : String × RunRecord). e.0) _ (contains→mem id _ listed) in
          let (md, own) = mem-select scenario_id d me in
          let found' : get e.0 d ≡ some e.1 = get_of_mem d u md in
          let same : r ≡ e.1 =
            some-eq (sym found ∙ ap (λ (k : String). get k d) (sym key) ∙ found') in
          absurd (
            other (
              ap (λ (x : RunRecord). x.run.scenario_id) same
              ∙ (eq_iff e.1.run.scenario_id scenario_id).0 own))
    ]
  where
    some-eq : {x y : RunRecord} → some x ≡ some y → x ≡ y
    some-eq h = cc

-- What `t` holds after the scenario `id` is deleted from `s`.
pub record IsDeleted {E : Type 0} (id : String) (s t : MemoryStore E) : Type 0 where
  pub no_scenario : get_scenario id t ≡ none
  pub no_validation : get_validation id t ≡ none
  pub no_trace : list_trace id t ≡ []
  pub no_run :
      (run_id : String) (r : RunRecord)
      → get_run run_id s ≡ some r
      → r.run.scenario_id ≡ id
      → (get_run run_id t ≡ none)
        × (get_explanation run_id t ≡ none)
        × (list_decisions run_id t ≡ [])
  pub other_scenarios :
      (other : String)
      → other ≢ id
      → (get_scenario other t ≡ get_scenario other s)
        × (get_validation other t ≡ get_validation other s)
        × (list_trace other t ≡ list_trace other s)
  pub other_runs :
      (run_id : String) (r : RunRecord)
      → get_run run_id s ≡ some r
      → r.run.scenario_id ≢ id
      → (get_run run_id t ≡ some r)
        × (get_explanation run_id t ≡ get_explanation run_id s)
        × (list_decisions run_id t ≡ list_decisions run_id s)

popped : {V : Type 0} (k : String) (d : Dict V) → get k (pop k d) ≡ none
popped k d = get-pop k k d ∙ rw (eq_refl k) refl

kept : {V : Type 0} (k j : String) (d : Dict V) → j ≢ k → get j (pop k d) ≡ get j d
kept k j d n = elim (Bool-cases (k == j)) [
  | inl e ↦ absurd (n (sym ((eq_iff k j).0 e)))
  | inr e ↦ get-pop k j d ∙ rw e refl
]

popped_all :
    {V : Type 0} (ks : List String) (k : String) (d : Dict V)
    → contains k ks ≡ true
    → get k (pop_all ks d) ≡ none
popped_all ks k d h = get-pop_all ks k d ∙ rw h refl

kept_all :
    {V : Type 0} (ks : List String) (k : String) (d : Dict V)
    → contains k ks ≡ false
    → get k (pop_all ks d) ≡ get k d
kept_all ks k d h = get-pop_all ks k d ∙ rw h refl

-- To delete a scenario removes it with its validation and trace, and each of its runs with the
-- run's explanation and decisions; all other scenarios and runs keep everything. The store's table
-- of runs has each key once, as a dictionary has.
pub delete_scenario-IsDeleted :
    {E : Type 0} (id : String) (s : MemoryStore E)
    → IsUnique (map (λ (e : String × RunRecord). e.0) s.runs)
    → IsDeleted id s (delete_scenario id s)
unfolding delete_scenario get_scenario get_validation list_trace get_run get_explanation
    list_decisions
delete_scenario-IsDeleted id s unique = record {
  no_scenario = popped id s.scenarios;
  no_validation = popped id s.validations;
  no_trace = ap (λ o. or_else o []) (popped id s.trace);
  no_run = λ run_id r found own.
      let listed = listed_of_get id run_id s.runs found own in
      (
        popped_all (run_ids_of id s.runs) run_id s.runs listed,
        popped_all (run_ids_of id s.runs) run_id s.explanations listed,
        ap (λ o. or_else o []) (popped_all (run_ids_of id s.runs) run_id s.decisions listed),
      );
  other_scenarios = λ other n. (
    kept id other s.scenarios n,
    kept id other s.validations n,
    ap (λ o. or_else o []) (kept id other s.trace n),
  );
  other_runs = λ run_id r found n.
      let unlisted = unlisted_of_get id run_id s.runs unique found n in
      (
        kept_all (run_ids_of id s.runs) run_id s.runs unlisted ∙ found,
        kept_all (run_ids_of id s.runs) run_id s.explanations unlisted,
        ap (λ o. or_else o []) (kept_all (run_ids_of id s.runs) run_id s.decisions unlisted),
      );
}

-- ===== src/Api/Kept.antt =====
-- What `create_alternative` of app/routers/runs.py leaves of the runs that are stored.
use piggyon.Base.{
  ℕ, ◌+◌, ◌≡◌, refl, sym, ap, ◌∙◌, subst, inl, inr, true, false, Option, none, some, List, [], ◌∷◌,
  String, ◌==◌, eq_iff, arith, Bool-cases, Option-cases,
}
use piggyon.Base.Dict.{get, put}
use piggyon.Base.Lookups.{some_inj, some-ne-none, put-same, put-other}
use piggyon.Baseline.{AlternativeState, available, no_alternative}
use piggyon.Baseline.Cp.{CpSolver, IsSound}
use piggyon.Planning.{OutcomeDocument}
use piggyon.Alternatives.Changes.{AdjustmentType}
use piggyon.Alternatives.Deltas.{apply_to_baseline}
use piggyon.Alternatives.Differences.{Recorded, Recorded-refl, apply_to_baseline-Recorded}
use piggyon.Alternatives.Search.{
  Found, SearchResult, found, not_found, refused, ambiguous, raised, search_alternative,
}
use piggyon.Alternatives.Storable.{search_alternative-IsStorable}
use piggyon.Storage.{
  ScenarioRecord, RunRecord, MemoryStore, replace_outcome, with_outcome, save_scenario, save_run,
  save_validation, clear_explanation, update_order_outcome, next_alternative_sequence, append_trace,
  get_scenario,
}
use piggyon.Storage
use piggyon.Runs.{
  has_order, with_outcomes, derived_record, store_found, settle, search_and_settle,
  create_alternative,
}
use piggyon.Runs.Replies.{AlternativeResult, alternative_result}
use piggyon.Api.{Naming, IsNaming}
use piggyon.Api.Running.{alternative_id_fresh}
use piggyon.Api.Reachable.{Reachable, Reachable-IsConsistent}

-- The run is what it was, but for what its outcomes say of alternatives for that order.
pub record IsKept (order_id : String) (r q : RunRecord) : Type 0 where
  pub same_time : q.created_at ≡ r.created_at
  pub same_run : q.run ≡ record r.run { order_outcomes = q.run.order_outcomes }
  pub outcomes : Recorded order_id r.run.order_outcomes q.run.order_outcomes

IsKept-refl : (order_id : String) (r : RunRecord) → IsKept order_id r r
IsKept-refl order_id r = record {
  same_time = refl;
  same_run = refl;
  outcomes = Recorded-refl order_id _;
}

-- The outcome that `apply_to_baseline` returns, put in the place of the order's, gives the outcomes
-- that it leaves.
replace_outcome-apply_to_baseline :
    (ds : List OutcomeDocument) (order_id : String) (state : AlternativeState)
    (scenario_id : Option String) (update : OutcomeDocument)
    → (apply_to_baseline ds order_id state scenario_id).1 ≡ some update
    → replace_outcome order_id update ds ≡ (apply_to_baseline ds order_id state scenario_id).0
unfolding apply_to_baseline replace_outcome
replace_outcome-apply_to_baseline [] order_id state scenario_id update e = refl
replace_outcome-apply_to_baseline (d ∷ ds) order_id state scenario_id update e =
    elim (Bool-cases (d.outcome.order_id == order_id)) [
      | inl own ↦ rw own (ap (λ x. x ∷ ds) (sym (some_inj (rw own at e))))
      | inr other ↦ rw other (
          ap (λ rest. d ∷ rest)
            (replace_outcome-apply_to_baseline ds order_id state scenario_id update
              (rw other at e)))
    ]

written_update :
    (run_id : String) (f : Found) (o : Option OutcomeDocument)
    (body : AlternativeResult × OutcomeDocument)
    → alternative_result run_id f o ≡ some body
    → o ≡ some body.1
unfolding alternative_result
written_update run_id f none body e = absurd (some-ne-none {x = body} (sym e))
written_update run_id f (some u) body e = ground arith

module _ {E : Type 0} (s : MemoryStore E) (id : String) (r : RunRecord)
    (present : get id s.runs ≡ some r) where
  put_run-IsKept :
      (order_id run_id : String) (p q : RunRecord)
      → get run_id s.runs ≡ some p
      → IsKept order_id p q
      → (x : RunRecord) × (get id (put run_id q s.runs) ≡ some x) × IsKept order_id r x
  put_run-IsKept order_id run_id p q there kept = elim (Bool-cases (run_id == id)) [
    | inl e ↦
        let same = (eq_iff run_id id).0 e in
        let own : p ≡ r = some_inj (sym there ∙ ap (λ k. get k s.runs) same ∙ present) in
        (
          q,
          subst (λ k. get k (put run_id q s.runs) ≡ some q) same (put-same run_id id q s.runs),
          subst (λ (x : RunRecord). IsKept order_id x q) own kept,
        )
    | inr other ↦ (
      r,
      put-other run_id id q s.runs (λ same. true≢false (sym ((eq_iff run_id id).1 same) ∙ other))
          ∙ present,
      IsKept-refl order_id r,
    )
  ]
    where
      true≢false : true ≡ false → ⊥
      true≢false h = cc

abbrev Keeps : {E : Type 0} → String → MemoryStore E → MemoryStore E → Type 0
Keeps order_id s t =
    (id : String) (r : RunRecord)
    → get id s.runs ≡ some r
    → (q : RunRecord) × (get id t.runs ≡ some q) × IsKept order_id r q

same-Keeps :
    {E : Type 0} (order_id : String) (s t : MemoryStore E) → t.runs ≡ s.runs → Keeps order_id s t
same-Keeps order_id s t e id r present = (r, ap (get id) e ∙ present, IsKept-refl order_id r)

update-runs :
    {E : Type 0} (s : MemoryStore E) (run_id order_id : String) (d : OutcomeDocument)
    (r : RunRecord)
    → get run_id s.runs ≡ some r
    → (update_order_outcome run_id order_id d s).runs
      ≡ put run_id (with_outcome order_id d r) s.runs
unfolding update_order_outcome
update-runs s run_id order_id d r present = rw (present, update_order_outcome) refl

module _ {E : Type 0} (s : MemoryStore E) (run_id order_id now : String) (scenario : ScenarioRecord)
    (r : RunRecord) (present : get run_id s.runs ≡ some r) where
  -- The found branch: the new run stands elsewhere, and the order's outcome is replaced.
  store_found-Keeps :
      (owner : String) (f : Found) (update : OutcomeDocument)
      → get f.alternative_run.run_id s.runs ≡ none
      → (apply_to_baseline r.run.order_outcomes order_id available
          (some f.alternative_scenario_id)).1
        ≡ some update
      → Keeps order_id s (store_found run_id order_id now scenario owner f update s)
  unfolding store_found save_scenario save_run save_validation clear_explanation append_trace
  store_found-Keeps owner f update fresh written id p there =
      let alternative : RunRecord = record { run = f.alternative_run; created_at = none } in
      let alt_id = f.alternative_run.run_id in
      let stored : MemoryStore E =
        save_validation f.alternative_scenario_id f.alternative_validation
          (save_run alternative (save_scenario (derived_record scenario order_id now f) s)) in
      let still : (k : String) (x : RunRecord)
          → get k s.runs ≡ some x
          → get k stored.runs ≡ some x =
        λ k x e.
          put-other alt_id k alternative s.runs
            (λ same. some-ne-none {x = x} (sym e ∙ ap (λ j. get j s.runs) (sym same) ∙ fresh))
          ∙ e in
      let (q, q_found, kept) =
        put_run-IsKept stored id p (still id p there) order_id run_id r
          (with_outcome order_id update r) (still run_id r present)
          (record {
            same_time = refl;
            same_run = refl;
            outcomes =
                subst (Recorded order_id r.run.order_outcomes)
                  (sym (
                    replace_outcome-apply_to_baseline r.run.order_outcomes order_id available
                      (some f.alternative_scenario_id) update written))
                  (apply_to_baseline-Recorded r.run.order_outcomes order_id available
                    (some f.alternative_scenario_id));
          }) in
      (
        q,
        ap (get id) (update-runs stored run_id order_id update r (still run_id r present))
            ∙ q_found,
        kept,
      )

  -- What `apply_to_baseline` writes into the stored row.
  written-Keeps :
      (state : AlternativeState) (link : Option String)
      → r.run.run_id ≡ run_id
      → Keeps order_id s (
          save_run
            (with_outcomes (apply_to_baseline r.run.order_outcomes order_id state link).0 r)
            s)
  unfolding save_run
  written-Keeps state link own id p there =
      put_run-IsKept s id p there order_id r.run.run_id r
        (with_outcomes (apply_to_baseline r.run.order_outcomes order_id state link).0 r)
        (subst (λ k. get k s.runs ≡ some r) (sym own) present)
        (record {
          same_time = refl;
          same_run = refl;
          outcomes = apply_to_baseline-Recorded r.run.order_outcomes order_id state link;
        })

  settle-Keeps :
      (answer : SearchResult)
      → r.run.run_id ≡ run_id
      → ((f : Found) → answer ≡ found f → get f.alternative_run.run_id s.runs ≡ none)
      → Keeps order_id s (settle run_id order_id now scenario r answer s).0
  unfolding settle save_run append_trace
  settle-Keeps (refused types) own fresh = same-Keeps order_id s s refl
  settle-Keeps (ambiguous id ids) own fresh = same-Keeps order_id s s refl
  settle-Keeps raised own fresh = same-Keeps order_id s s refl
  settle-Keeps (not_found cs verdict) own fresh = written-Keeps no_alternative none own
  settle-Keeps (found f) own fresh =
      let update =
        (apply_to_baseline r.run.order_outcomes order_id available
          (some f.alternative_scenario_id)).1 in
      elim (Option-cases (alternative_result run_id f update)) [
        | inl refused_body ↦
            rw (refused_body, settle) (written-Keeps available (some f.alternative_scenario_id) own)
        | inr (body, accepted_body) ↦
            rw (accepted_body, settle)
              (store_found-Keeps r.run.scenario_id f body.1 (fresh f refl)
                (written_update run_id f update body accepted_body))
      ]

module _ {E : Type 0} (n : Naming) (names : IsNaming n) (solve : CpSolver) (sound : IsSound solve)
    {s : MemoryStore E} (reached : Reachable n solve s) where
  -- In every store that the API can reach, a search for an alternative, whatever it answers, keeps
  -- every stored run: its plan, its statuses and its verdicts stand, and only what its outcomes say
  -- of alternatives for the named order may change.
  pub create_alternative-IsKept :
      (clock : ℕ → ℕ) (now run_id order_id : String) (types : List AdjustmentType) (id : String)
      (r : RunRecord)
      → get id s.runs ≡ some r
      → (q : RunRecord) × (get id
            (create_alternative solve clock n.alternative_scenario_id_of n.alternative_run_id_of now
              run_id order_id types s).0.runs
          ≡ some q)
        × IsKept order_id r q
  unfolding create_alternative search_and_settle Storage.get_run get_scenario
      next_alternative_sequence
  create_alternative-IsKept clock now run_id order_id types id p there =
      let h = Reachable-IsConsistent n names solve sound reached in
      elim (Option-cases (get run_id s.runs)) [
        | inl absent ↦ rw (absent, create_alternative) (same-Keeps order_id s s refl id p there)
        | inr (r, present) ↦ elim (Option-cases (get r.run.scenario_id s.scenarios)) [
          | inl homeless ↦
              rw (present, create_alternative)
                (rw (homeless, create_alternative) (same-Keeps order_id s s refl id p there))
          | inr (scenario, housed) ↦
              elim (Bool-cases (has_order order_id scenario.input_snapshot)) [
                | inr foreign ↦
                    rw (present, create_alternative)
                      (rw (housed, create_alternative)
                        (rw (foreign, create_alternative)
                          (same-Keeps order_id s s refl id p there)))
                | inl known ↦
                    let (resolved, served) = h.usable r.run.scenario_id scenario housed in
                    let scenario_id = n.alternative_scenario_id_of (s.alternative_seq + 1) in
                    let alt_id = n.alternative_run_id_of (s.alternative_seq + 1) in
                    rw (present, create_alternative)
                      (rw (housed, create_alternative)
                        (rw (known, create_alternative)
                          (settle-Keeps (next_alternative_sequence s).0 run_id order_id now scenario
                            r present
                            (search_alternative solve clock r.run.solver_parameters scenario_id
                              alt_id order_id r.run scenario.input_snapshot types)
                            (h.sound run_id r present).own_id
                            (λ f e.
                              ap (λ k. get k s.runs)
                                (search_alternative-IsStorable solve clock r.run.solver_parameters
                                  scenario_id alt_id order_id r.run scenario.input_snapshot types
                                  sound resolved served f e).same_run_id
                              ∙ alternative_id_fresh n s names h)
                            id p there)))
              ]
        ]
      ]

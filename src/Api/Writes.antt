-- ===== src/Api/Writes.antt =====
-- How the writes of runs and decisions, and a deletion, keep the store consistent.
use mathlib.Core.List.Memᴰ
use piggyon.Base.{
  ◌≡◌, ◌≢◌, refl, sym, ap, ◌∙◌, subst, ◌⊎◌, inl, inr, true, false, none, some, List, [], String,
  Memᴰ, or_else, Bool-cases, contains,
}
use piggyon.Base.Dict.{Dict, get, put, add_to_group}
use piggyon.Base.Lookups.{
  some_inj, some-ne-none, put-cases, put-none, pop-other, pop-some, mem-add_to_group,
  add_to_group-other,
}
use piggyon.Storage.{
  RunRecord, accepted, DecisionRecord, MemoryStore, run_ids_of, pop_all, delete_scenario,
}
use piggyon.Storage.Deletion.{get-pop_all, listed_of_get}
use piggyon.Runs.{acceptable}
use piggyon.Api.{Naming}
use piggyon.Api.Consistency.{IsNumbered, IsSoundRun, IsHost, IsConsistent}

none_member : {ds : List DecisionRecord} {d : DecisionRecord} → ds ≡ [] → Memᴰ d ds → ⊥
none_member {ds} {d} e m = Memᴰ.not-nil (subst (λ (l : List DecisionRecord). Memᴰ d l) e m)

module _ {E : Type 0} (n : Naming) (s : MemoryStore E) (h : IsConsistent n s) where
  -- A run is stored that is new, or that stands to be accepted as the one before it does.
  pub put_run-IsConsistent :
      (id : String) (q : RunRecord)
      → IsSoundRun id q.run
      → IsHost s q.run.scenario_id
      → IsNumbered n s.run_seq s.alternative_seq id
      → (get id s.runs ≡ none)
        ⊎ ((r : RunRecord) × (get id s.runs ≡ some r) × (acceptable q.run ≡ acceptable r.run))
      → IsConsistent n (record s { runs = put id q s.runs })
  put_run-IsConsistent id q sound host numbered before = record {
    usable = h.usable;
    sound = λ j r e. elim (put-cases id j q s.runs e) [
      | inl (same, is_new) ↦
          subst (λ (x : RunRecord). IsSoundRun j x.run) (sym is_new)
            (subst (λ k. IsSoundRun k q.run) same sound)
      | inr (other, old) ↦ h.sound j r old
    ];
    hosted = λ j r e. elim (put-cases id j q s.runs e) [
      | inl (same, is_new) ↦
          moved r.run.scenario_id
            (subst (λ (x : RunRecord). IsHost s x.run.scenario_id) (sym is_new) host)
      | inr (other, old) ↦ moved r.run.scenario_id (h.hosted j r old)
    ];
    numbered = λ j r e. elim (put-cases id j q s.runs e) [
      | inl (same, is_new) ↦ subst (IsNumbered n s.run_seq s.alternative_seq) same numbered
      | inr (other, old) ↦ h.numbered j r old
    ];
    undecided = λ j e. h.undecided j (put-none id j q s.runs e).1;
    decided = λ j r d e m a. elim (put-cases id j q s.runs e) [
      | inr (other, old) ↦ h.decided j r d old m a
      | inl (same, is_new) ↦ elim before [
        | inl absent ↦
            absurd (none_member (h.undecided j (subst (λ k. get k s.runs ≡ none) same absent)) m)
        | inr (old, found, as_before) ↦
            ap (λ (x : RunRecord). acceptable x.run) is_new
            ∙ as_before
            ∙ h.decided j old d (subst (λ k. get k s.runs ≡ some old) same found) m a
      ]
    ];
  }
    where
      moved :
          (scenario_id : String)
          → IsHost s scenario_id
          → IsHost (record s { runs = put id q s.runs }) scenario_id
      moved scenario_id x = record {
        row = x.row;
        row_found = x.row_found;
        validation = x.validation;
        validation_found = x.validation_found;
      }

  -- A decision is recorded on a stored run, which can be accepted if it is accepted.
  pub add_decision-IsConsistent :
      (id : String) (c : DecisionRecord) (q : RunRecord)
      → get id s.runs ≡ some q
      → (c.decision_state ≡ accepted → acceptable q.run ≡ true)
      → IsConsistent n (record s { decisions = add_to_group id c s.decisions })
  add_decision-IsConsistent id c q found allowed = record {
    usable = h.usable;
    sound = h.sound;
    hosted = λ j r e.
        let x = h.hosted j r e in
        record {
          row = x.row;
          row_found = x.row_found;
          validation = x.validation;
          validation_found = x.validation_found;
        };
    numbered = h.numbered;
    undecided = λ j e.
        add_to_group-other id j c s.decisions
          (λ same. some-ne-none {x = q} (sym found ∙ ap (λ k. get k s.runs) same ∙ e))
        ∙ h.undecided j e;
    decided = λ j r d e m a. elim (mem-add_to_group id j c s.decisions m) [
      | inr old ↦ h.decided j r d e old a
      | inl (same, is_new) ↦
          ap (λ (x : RunRecord). acceptable x.run)
            (some_inj (sym e ∙ ap (λ k. get k s.runs) (sym same) ∙ found))
          ∙ allowed (ap (λ (x : DecisionRecord). x.decision_state) (sym is_new) ∙ a)
    ];
  }

-- Of a run that is still there after a deletion.
record IsLeft (id j : String) (runs : Dict RunRecord) (r : RunRecord) : Type 0 where
  stored : get j runs ≡ some r
  unlisted : contains j (run_ids_of id runs) ≡ false

get-pop_all-IsLeft :
    (id j : String) (runs : Dict RunRecord) {r : RunRecord}
    → get j (pop_all (run_ids_of id runs) runs) ≡ some r
    → IsLeft id j runs r
get-pop_all-IsLeft id j runs {r} e = elim (Bool-cases (contains j (run_ids_of id runs))) [
  | inl listed ↦
      absurd
        (some-ne-none {x = r} (sym e ∙ get-pop_all (run_ids_of id runs) j runs ∙ rw listed refl))
  | inr unlisted ↦ record {
    stored = sym (get-pop_all (run_ids_of id runs) j runs ∙ rw unlisted refl) ∙ e;
    unlisted = unlisted;
  }
]

module _ {E : Type 0} (n : Naming) (s : MemoryStore E) (h : IsConsistent n s) (id : String) where
  elsewhere : (j : String) (r : RunRecord) → IsLeft id j s.runs r → id ≢ r.run.scenario_id
  elsewhere j r left own =
      true≢false (sym (listed_of_get id j s.runs left.stored (sym own)) ∙ left.unlisted)
    where
      true≢false : true ≡ false → ⊥
      true≢false p = cc

  decisions_left :
      (j : String)
      → contains j (run_ids_of id s.runs) ≡ false
      → get j (pop_all (run_ids_of id s.runs) s.decisions) ≡ get j s.decisions
  decisions_left j unlisted = get-pop_all (run_ids_of id s.runs) j s.decisions ∙ rw unlisted refl

  decisions_gone :
      (j : String)
      → contains j (run_ids_of id s.runs) ≡ true
      → get j (pop_all (run_ids_of id s.runs) s.decisions) ≡ none
  decisions_gone j listed = get-pop_all (run_ids_of id s.runs) j s.decisions ∙ rw listed refl

  pub delete_scenario-IsConsistent : IsConsistent n (delete_scenario id s)
  unfolding delete_scenario
  delete_scenario-IsConsistent = record {
    usable = λ j r e. h.usable j r (pop-some id j s.scenarios e);
    sound = λ j r e. h.sound j r (get-pop_all-IsLeft id j s.runs e).stored;
    hosted = λ j r e.
        let left = get-pop_all-IsLeft id j s.runs e in
        let host = h.hosted j r left.stored in
        let other = elsewhere j r left in
        record {
          row = host.row;
          row_found = pop-other id r.run.scenario_id s.scenarios other ∙ host.row_found;
          validation = host.validation;
          validation_found =
              pop-other id r.run.scenario_id s.validations other ∙ host.validation_found;
        };
    numbered = λ j r e. h.numbered j r (get-pop_all-IsLeft id j s.runs e).stored;
    undecided = λ j e. elim (Bool-cases (contains j (run_ids_of id s.runs))) [
      | inl listed ↦ ap (λ o. or_else o []) (decisions_gone j listed)
      | inr unlisted ↦
          ap (λ o. or_else o []) (decisions_left j unlisted)
          ∙ h.undecided j (sym (get-pop_all (run_ids_of id s.runs) j s.runs ∙ rw unlisted refl) ∙ e)
    ];
    decided = λ j r d e m a.
        let left = get-pop_all-IsLeft id j s.runs e in
        h.decided j r d left.stored
          (subst (λ o. Memᴰ d (or_else o [])) (decisions_left j left.unlisted) m) a;
  }

-- ===== src/Storage/Outcomes.antt =====
-- `update_order_outcome` of app/storage.py, by two callers.
use piggyon.Base.{
  ◌≡◌, ◌≢◌, Option, if◌then◌else◌, refl, sym, ap, ◌∙◌, inl, inr, none, some, List, [], ◌∷◌, String,
  ◌==◌, eq_iff, eq_refl, arith, Bool-cases, Option-cases,
}
use piggyon.Base.Dict.{Dict, get, put, get-put}
use piggyon.Planning.{OutcomeDocument}
use piggyon.Storage.{MemoryStore, RunRecord, replace_outcome, with_outcome, update_order_outcome}

put-put : {V : Type 0} (k : String) (v w : V) (d : Dict V) → put k v (put k w d) ≡ put k v d
unfolding put
put-put k v w [] = rw (eq_refl k) refl
put-put k v w ((j, u) ∷ d) = elim (Bool-cases (j == k)) [
  | inl e ↦ rw (e, put, e) refl
  | inr e ↦ rw (e, put, e) (ap (λ rest. (j, u) ∷ rest) (put-put k v w d))
]

replace-replace :
    (a b : String) (x y : OutcomeDocument) (ds : List OutcomeDocument)
    → a ≢ b
    → x.outcome.order_id ≡ a
    → y.outcome.order_id ≡ b
    → replace_outcome a x (replace_outcome b y ds) ≡ replace_outcome b y (replace_outcome a x ds)
unfolding replace_outcome
replace-replace a b x y [] n ex ey = refl
replace-replace a b x y (d ∷ ds) n ex ey = ground (
  arith,
  replace-replace a b x y ds n ex ey,
  eq_iff d.outcome.order_id a,
  eq_iff d.outcome.order_id b,
  eq_iff x.outcome.order_id b,
  eq_iff y.outcome.order_id a,
)

module _ {E : Type 0} (run_id : String) (s : MemoryStore E) where
  update-absent :
      (order_id : String) (d : OutcomeDocument)
      → get run_id s.runs ≡ none
      → update_order_outcome run_id order_id d s ≡ s
  unfolding update_order_outcome
  update-absent order_id d absent = rw (absent, update_order_outcome) refl

  update-present :
      (order_id : String) (d : OutcomeDocument) (r : RunRecord)
      → get run_id s.runs ≡ some r
      → update_order_outcome run_id order_id d s
        ≡ record s { runs = put run_id (with_outcome order_id d r) s.runs }
  unfolding update_order_outcome
  update-present order_id d r found = rw (found, update_order_outcome) refl

update-update :
    {E : Type 0} (run_id a b : String) (x y : OutcomeDocument) (s : MemoryStore E) (r : RunRecord)
    → get run_id s.runs ≡ some r
    → update_order_outcome run_id a x (update_order_outcome run_id b y s)
      ≡ record s { runs = put run_id (with_outcome a x (with_outcome b y r)) s.runs }
update-update run_id a b x y s r found =
    ap (update_order_outcome run_id a x) (update-present run_id s b y r found)
    ∙ update-present run_id (record s { runs = put run_id (with_outcome b y r) s.runs }) a x
        (with_outcome b y r)
        (get-put run_id run_id (with_outcome b y r) s.runs ∙ rw (eq_refl run_id) refl)
    ∙ ap (λ d. record s { runs = d })
        (put-put run_id (with_outcome a x (with_outcome b y r)) (with_outcome b y r) s.runs)

update_order_outcome_comm :
    {E : Type 0} (run_id a b : String) (x y : OutcomeDocument) (s : MemoryStore E)
    → a ≢ b
    → x.outcome.order_id ≡ a
    → y.outcome.order_id ≡ b
    → update_order_outcome run_id a x (update_order_outcome run_id b y s)
      ≡ update_order_outcome run_id b y (update_order_outcome run_id a x s)
update_order_outcome_comm run_id a b x y s n ex ey = elim (Option-cases (get run_id s.runs)) [
  | inl absent ↦
      ap (update_order_outcome run_id a x) (update-absent run_id s b y absent)
      ∙ update-absent run_id s a x absent
      ∙ sym (update-absent run_id s b y absent)
      ∙ ap (update_order_outcome run_id b y) (sym (update-absent run_id s a x absent))
  | inr (r, found) ↦
      update-update run_id a b x y s r found
      ∙ ap
          (λ ds. record s {
            runs = put run_id (record r { run = record r.run { order_outcomes = ds } }) s.runs;
          })
          (replace-replace a b x y r.run.order_outcomes n ex ey)
      ∙ sym (update-update run_id b a y x s r found)
]

-- what a run's outcomes report of an order: the first of the order's
abbrev pub outcome_of : String → List OutcomeDocument → Option OutcomeDocument
outcome_of id [] = none
outcome_of id (d ∷ ds) = if d.outcome.order_id == id then some d else outcome_of id ds

outcome_of-replace :
    (a : String) (x : OutcomeDocument) (ds : List OutcomeDocument)
    → x.outcome.order_id ≡ a
    → outcome_of a ds ≢ none
    → outcome_of a (replace_outcome a x ds) ≡ some x
unfolding replace_outcome
outcome_of-replace a x [] ex there = absurd (there refl)
outcome_of-replace a x (d ∷ ds) ex there = elim (Bool-cases (d.outcome.order_id == a)) [
  | inl own ↦ rw (own, (eq_iff x.outcome.order_id a).1 ex) refl
  | inr other ↦ rw (other, other) (outcome_of-replace a x ds ex λ absent. there (rw other absent))
]

outcome_of-replace-other :
    (a c : String) (x : OutcomeDocument) (ds : List OutcomeDocument)
    → c ≢ a
    → x.outcome.order_id ≡ a
    → outcome_of c (replace_outcome a x ds) ≡ outcome_of c ds
unfolding replace_outcome
outcome_of-replace-other a c x [] n ex = refl
outcome_of-replace-other a c x (d ∷ ds) n ex = ground (
  arith,
  outcome_of-replace-other a c x ds n ex,
  eq_iff d.outcome.order_id a,
  eq_iff d.outcome.order_id c,
  eq_iff x.outcome.order_id c,
)

-- What is left of two updates: either order gives it, and both are in it.
pub record BothKept {E : Type 0} (run_id a b : String) (x y : OutcomeDocument) (s : MemoryStore E)
    (r : RunRecord) (t : MemoryStore E) : Type 0 where
  pub either_order : t ≡ update_order_outcome run_id b y (update_order_outcome run_id a x s)
  pub after : List OutcomeDocument
  pub stored : t ≡ record s {
    runs = put run_id (record r { run = record r.run { order_outcomes = after } }) s.runs;
  }
  pub first_kept : outcome_of a after ≡ some x
  pub second_kept : outcome_of b after ≡ some y
  pub others_kept :
      (c : String) → c ≢ a → c ≢ b → outcome_of c after ≡ outcome_of c r.run.order_outcomes

-- Two updates of different orders that a stored run reports, each with an outcome of its own order,
-- leave the same store in either order. In it the run reports both new outcomes, and of each other
-- order what it reported; nothing else of the run and of the store is changed.
pub update_order_outcome-BothKept :
    {E : Type 0} (run_id a b : String) (x y : OutcomeDocument) (s : MemoryStore E) (r : RunRecord)
    → a ≢ b
    → x.outcome.order_id ≡ a
    → y.outcome.order_id ≡ b
    → get run_id s.runs ≡ some r
    → outcome_of a r.run.order_outcomes ≢ none
    → outcome_of b r.run.order_outcomes ≢ none
    → BothKept run_id a b x y s r
        (update_order_outcome run_id a x (update_order_outcome run_id b y s))
update_order_outcome-BothKept run_id a b x y s r n ex ey found has_a has_b =
    let before = r.run.order_outcomes in
    record {
      either_order = update_order_outcome_comm run_id a b x y s n ex ey;
      after = replace_outcome a x (replace_outcome b y before);
      stored = update-update run_id a b x y s r found;
      first_kept =
          outcome_of-replace a x (replace_outcome b y before) ex
            λ absent. has_a (sym (outcome_of-replace-other b a y before n ey) ∙ absent);
      second_kept =
          outcome_of-replace-other a b x (replace_outcome b y before) (λ e. n (sym e)) ex
          ∙ outcome_of-replace b y before ey has_b;
      others_kept = λ c na nb.
          outcome_of-replace-other a c x (replace_outcome b y before) na ex
          ∙ outcome_of-replace-other b c y before nb ey;
    }

-- ===== src/Baseline/Limits.antt =====
-- What the constraints of app/solver/baseline.py say of a valuation, summed over the candidates.
use mathlib.Core.List.{append_assoc, append-nil}
use piggyon.Base.{
  ℕ, ◌≤◌, ◌≡◌, refl, sym, ap, ◌∙◌, inl, inr, Bool, true, false, List, [], ◌∷◌, ◌++◌, map, String,
  ◌==◌, eq_iff, Memᴰ, arith, Bool-cases, Option-cases, or_else, select, sum_over, if◌then◌else◌,
  get-add_to_group,
}
use piggyon.Base.Dict.{Dict, get, get→mem}
use piggyon.Snapshot.{ScenarioInputSnapshot}
use piggyon.Eligibility.Types.{Candidate}
use piggyon.Baseline.Cp.{Var, Valuation, weigh, at_most, Satisfies}
use piggyon.Baseline.Problem.{
  variable, group_into, order_table, weight_of, first_wagon, capacity_of, order_limits, slot_limits,
  wagon_limits, base_constraints,
}
use piggyon.Baseline.Lexicographic.{Satisfies-split}

module _ (key : Candidate → String) where
  -- The group of a key holds the candidates of that key.
  get-group_into :
      (cs : List Candidate) (groups : Dict (List Candidate)) (k : String)
      → or_else (get k (group_into key cs groups)) []
        ≡ or_else (get k groups) [] ++ select (λ c. key c == k) cs
  unfolding group_into select
  get-group_into [] groups k = sym (append-nil _)
  get-group_into (c ∷ cs) groups k =
      get-group_into cs _ k
      ∙ ap (λ l. l ++ select (λ d. key d == k) cs) (get-add_to_group (key c) k c groups)
      ∙ regroup (key c == k)
    where
      regroup :
          (b : Bool)
          → (if b then or_else (get k groups) [] ++ c ∷ [] else or_else (get k groups) [])
              ++ select (λ d. key d == k) cs
            ≡ or_else (get k groups) []
              ++ (if b then c ∷ select (λ d. key d == k) cs else select (λ d. key d == k) cs)
      regroup true = append_assoc (or_else (get k groups) []) (c ∷ []) _
      regroup false = refl

  group-eq :
      (cs : List Candidate) (k : String)
      → or_else (get k (group_into key cs [])) [] ≡ select (λ c. key c == k) cs
  unfolding get
  group-eq cs k = get-group_into cs [] k

module _ (v : Valuation) (f : Candidate → ℕ) where
  -- the load of the chosen candidates
  abbrev pub chosen_sum : List Candidate → ℕ
  chosen_sum cs = sum_over (λ c. if v (variable c) then f c else 0) cs

module _ (v : Valuation) (key : Candidate → String) (term_of : String → Candidate → Var × ℕ) where
  -- A limit on every group bounds the sum over the candidates of each key.
  group_limit :
      (cs : List Candidate) (bound : String → ℕ) (k : String)
      → Satisfies v (
          map
            (λ (e : String × List Candidate). at_most (map (term_of e.0) e.1) (bound e.0))
            (group_into key cs []))
      → weigh v (map (term_of k) (select (λ c. key c == k) cs)) ≤ bound k
  group_limit cs bound k h = elim (Option-cases (get k (group_into key cs []))) [
    | inl absent ↦ rw (← group-eq key cs k) (rw absent (omega arith))
    | inr (g, found) ↦
        let held = All_map (group_into key cs []) h (get→mem k (group_into key cs []) found) in
        rw (← group-eq key cs k) (rw found held)
  ]
    where
      All_map :
          (d : Dict (List Candidate))
          → Satisfies v
              (map (λ (e : String × List Candidate). at_most (map (term_of e.0) e.1) (bound e.0)) d)
          → {e : String × List Candidate} → Memᴰ e d
          → weigh v (map (term_of e.0) e.1) ≤ bound e.0
      All_map [] s m = elim m [ ]
      All_map (x ∷ d) s (Memᴰ.head same) = rw same s.0
      All_map (x ∷ d) s (Memᴰ.tail m) = All_map d s.1 m

-- The sum of a limit is the sum over the chosen candidates of the key.
weigh-select :
    (v : Valuation) (key : Candidate → String) (f : Candidate → ℕ)
    (term_of : String → Candidate → Var × ℕ) (k : String)
    → ((c : Candidate) → key c ≡ k → term_of k c ≡ (variable c, f c))
    → (cs : List Candidate)
    → weigh v (map (term_of k) (select (λ c. key c == k) cs))
      ≡ chosen_sum v (λ c. if key c == k then f c else 0) cs
unfolding select
weigh-select v key f term_of k same [] = refl
weigh-select v key f term_of k same (c ∷ cs) = elim (Bool-cases (key c == k)) [
  | inl e ↦
      let here : term_of k c ≡ (variable c, f c) = same c ((eq_iff (key c) k).0 e) in
      rw (e, here) (ground (arith, weigh-select v key f term_of k same cs))
  | inr e ↦ rw e (ground (arith, weigh-select v key f term_of k same cs))
]

module _ (s : ScenarioInputSnapshot) (cs : List Candidate) (v : Valuation)
    (sat : Satisfies v (base_constraints s cs)) where
  abbrev weight_at : Candidate → ℕ
  weight_at c = weight_of (order_table s c.order_id)

  parts :
      Satisfies v (order_limits s cs)
      × Satisfies v (slot_limits s cs)
      × Satisfies v (wagon_limits s cs)
  parts =
      let (orders, rest) = Satisfies-split v (order_limits s cs) _ sat in
      let (slots, wagons) = Satisfies-split v (slot_limits s cs) _ rest in (orders, slots, wagons)

  -- A valuation that meets the constraints of the model chooses at most one candidate of an order.
  pub order_once : (id : String) → chosen_sum v (λ c. if c.order_id == id then 1 else 0) cs ≤ 1
  order_once id =
      rw
        (← weigh-select v (λ c. c.order_id) (λ _. 1) (λ k c. ((k, c.slot_id), 1)) id
          (λ c e. ap (λ (k : String). ((k, c.slot_id), 1)) (sym e)) cs)
        (group_limit v (λ c. c.order_id) (λ k c. ((k, c.slot_id), 1)) cs (λ _. 1) id parts.0)

  -- A valuation that meets the constraints of the model chooses at most one candidate of a slot.
  pub slot_once : (id : String) → chosen_sum v (λ c. if c.slot_id == id then 1 else 0) cs ≤ 1
  slot_once id =
      rw
        (← weigh-select v (λ c. c.slot_id) (λ _. 1) (λ k c. ((c.order_id, k), 1)) id
          (λ c e. ap (λ (k : String). ((c.order_id, k), 1)) (sym e)) cs)
        (group_limit v (λ c. c.slot_id) (λ k c. ((c.order_id, k), 1)) cs (λ _. 1) id parts.1)

  -- The candidates of a wagon that are chosen by a valuation that meets the constraints of the model
  -- weigh no more than the wagon may carry.
  pub wagon_load :
      (id : String)
      → chosen_sum v (λ c. if c.wagon_id == id then weight_at c else 0) cs
        ≤ capacity_of (first_wagon id s.wagons)
  wagon_load id =
      rw
        (← weigh-select v (λ c. c.wagon_id) weight_at (λ k c. (variable c, weight_at c)) id
          (λ c e. refl) cs)
        (group_limit v (λ c. c.wagon_id) (λ k c. (variable c, weight_at c)) cs
          (λ k. capacity_of (first_wagon k s.wagons)) id parts.2)

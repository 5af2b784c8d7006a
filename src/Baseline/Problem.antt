-- ===== src/Baseline/Problem.antt =====
-- app/solver/baseline.py: `solve_baseline`, the variables and the constraints of the model.
use piggyon.Base.{
  ℕ, Bool, ◌&&◌, not, Option, none, some, List, [], ◌∷◌, ◌++◌, map, String, ◌==◌, is_none, is_all,
  or_else, any, flat_map, if◌then◌else◌,
}
use piggyon.Base.Dict.{Dict, index_by, add_to_group}
use piggyon.Snapshot.{Wagon, Order, ScenarioInputSnapshot}
use piggyon.Eligibility.Types.{Candidate, OrderEvaluation, ScenarioEvaluation}
use piggyon.Baseline.Cp.{Var, Constraint, at_most, fits_ℕ}

abbrev pub all_candidates : ScenarioEvaluation → List Candidate
all_candidates e = flat_map (λ (o : OrderEvaluation). o.candidates) e.evaluations

abbrev pub variable : Candidate → Var
variable c = (c.order_id, c.slot_id)

abbrev var_eq : Var → Var → Bool
var_eq (a, b) (c, d) = a == c && b == d

-- The keys of the dictionary `x`: each once, where it came first.
unfoldable pub add_variable : List Var → List Candidate → List Var
unfolding any
add_variable seen [] = seen
add_variable seen (c ∷ cs) =
    add_variable (if any (var_eq (variable c)) seen then seen else seen ++ variable c ∷ []) cs

-- `for c in candidates: groups.setdefault(key(c), []).append(c)`
unfoldable pub group_into :
    (Candidate → String) → List Candidate → Dict (List Candidate) → Dict (List Candidate)
unfolding add_to_group
group_into key [] groups = groups
group_into key (c ∷ cs) groups = group_into key cs (add_to_group (key c) c groups)

abbrev pub by_order : List Candidate → Dict (List Candidate)
by_order cs = group_into (λ c. c.order_id) cs []

abbrev pub by_slot : List Candidate → Dict (List Candidate)
by_slot cs = group_into (λ c. c.slot_id) cs []

abbrev pub by_wagon : List Candidate → Dict (List Candidate)
by_wagon cs = group_into (λ c. c.wagon_id) cs []

abbrev pub order_table : ScenarioInputSnapshot → String → Option Order
order_table s = index_by (λ (o : Order). o.order_id) s.orders

-- `orders[order_id].gross_weight_kg or 0`
abbrev pub weight_of : Option Order → ℕ
weight_of none = 0
weight_of (some order) = or_else order.gross_weight_kg 0

-- `next(w for w in snapshot.wagons if w.wagon_id == wagon_id)`
unfoldable pub first_wagon : String → List Wagon → Option Wagon
first_wagon id [] = none
first_wagon id (w ∷ ws) = if w.wagon_id == id then some w else first_wagon id ws

abbrev pub capacity_of : Option Wagon → ℕ
capacity_of none = 0
capacity_of (some wagon) = wagon.max_total_weight_kg

module _ (snapshot : ScenarioInputSnapshot) (cs : List Candidate) where
  -- `orders[…]` and `next(…)` raise for a candidate whose order or wagon the snapshot lacks.
  unfoldable pub all_known : Bool
  unfolding first_wagon
  all_known =
      is_all
        (λ (c : Candidate).
          not (is_none (order_table snapshot c.order_id))
          && not (is_none (first_wagon c.wagon_id snapshot.wagons)))
        cs

  -- the numbers of the wagons' constraints
  unfoldable pub coefficients_fit : Bool
  unfolding first_wagon
  coefficients_fit =
      is_all
        (λ (c : Candidate).
          fits_ℕ (weight_of (order_table snapshot c.order_id))
          && fits_ℕ (capacity_of (first_wagon c.wagon_id snapshot.wagons)))
        cs

  abbrev pub order_limits : List Constraint
  order_limits =
      map
        (λ (e : String × List Candidate).
          at_most (map (λ (c : Candidate). ((e.0, c.slot_id), 1)) e.1) 1)
        (by_order cs)

  abbrev pub slot_limits : List Constraint
  slot_limits =
      map
        (λ (e : String × List Candidate).
          at_most (map (λ (c : Candidate). ((c.order_id, e.0), 1)) e.1) 1)
        (by_slot cs)

  abbrev pub wagon_limits : List Constraint
  wagon_limits =
      map
        (λ (e : String × List Candidate).
          at_most
            (map (λ (c : Candidate). (variable c, weight_of (order_table snapshot c.order_id))) e.1)
            (capacity_of (first_wagon e.0 snapshot.wagons)))
        (by_wagon cs)

  abbrev pub base_constraints : List Constraint
  base_constraints = order_limits ++ (slot_limits ++ wagon_limits)

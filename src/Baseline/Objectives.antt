-- ===== src/Baseline/Objectives.antt =====
-- app/solver/baseline.py: `solve_baseline`, the objectives in the order of the policy.
use piggyon.Base.{
  ℕ, ◌+◌, ◌-◌, Bool, is_all, Option, none, some, List, [], ◌∷◌, map, String, ◌==◌, text_le, leb,
  or_else, length, sort_by, if◌then◌else◌,
}
use Prim.Native.Nat.{◌/◌}
use piggyon.Base.Dict.{Dict, get}
use piggyon.Base.Int.{ℤ, pos, sub_ℕ}
use piggyon.Snapshot.{PriorityClass, PriorityScores, Wagon, Order, ScenarioInputSnapshot, Instant}
use piggyon.Snapshot
use piggyon.Eligibility.Types.{Candidate}
use piggyon.Baseline.Cp.{Var, fits_ℤ, Expr, lit, term, plus, minus, times}
use piggyon.Baseline.Stages.{Stage}
use piggyon.Baseline.Problem.{by_order, by_slot, order_table, add_variable}

-- `sum(…)` of expressions
unfoldable pub sum_expr {ℓ} : {A : Type ℓ} → (A → Expr) → List A → Expr
sum_expr f [] = lit (pos 0)
sum_expr f (x ∷ xs) = plus (f x) (sum_expr f xs)

abbrev pub score : PriorityScores → PriorityClass → ℤ
score s Snapshot.p1 = s.p1
score s Snapshot.p2 = s.p2
score s Snapshot.p3 = s.p3

abbrev pub score_of : PriorityScores → Option Order → ℤ
score_of scores none = pos 0
score_of scores (some order) = score scores order.priority_class

-- `int((moment - as_of).total_seconds())`: `int` cuts off towards zero
abbrev pub seconds_from : Instant → Instant → ℤ
seconds_from as_of moment =
    if leb as_of moment
    then pos ((moment - as_of) / 1000000)
    else sub_ℕ 0 ((as_of - moment) / 1000000)

abbrev pub due_of : Instant → Option Order → ℤ
due_of as_of none = pos 0
due_of as_of (some order) = seconds_from as_of order.due_at

abbrev pub keys {ℓ} : {V : Type ℓ} → Dict V → List String
keys d = map (λ e. e.0) d

-- the place of a name in a list, from 1
unfoldable pub rank_in : String → List String → ℕ
rank_in id [] = 1
rank_in id (x ∷ xs) = if x == id then 1 else rank_in id xs + 1

module _ (snapshot : ScenarioInputSnapshot) (cs : List Candidate) where
  abbrev pub variables : List Var
  variables = add_variable [] cs

  abbrev pub assigned_count : Expr
  assigned_count = sum_expr (λ (x : Var). term x (pos 1)) variables

  -- the stage that is solved before the loop
  abbrev pub first_stage : Stage
  first_stage = record {
    name = some "assigned_count";
    expression = assigned_count;
    maximise = Bool.true;
  }

  abbrev pub priority_score : Expr
  priority_score =
      sum_expr
        (λ (x : Var). term x (score_of snapshot.policy.priority_scores (order_table snapshot x.0)))
        variables

  -- its coefficients; those of the other objectives are counts of slots, and of seconds between two
  -- dates
  abbrev pub scores_fit : Bool
  scores_fit =
      is_all
        (λ (x : Var). fits_ℤ (score_of snapshot.policy.priority_scores (order_table snapshot x.0)))
        variables

  abbrev pub due_cost : Expr
  due_cost =
      sum_expr (λ (x : Var). term x (due_of snapshot.as_of (order_table snapshot x.0))) variables

  abbrev pub sorted_slots : List String
  sorted_slots = sort_by text_le (keys (by_slot cs))

  abbrev pub unassigned_penalty : ℕ
  unassigned_penalty = length sorted_slots + 1

  -- `canonical_cost`
  unfoldable pub canonical_cost : String → Expr
  unfolding sum_expr rank_in
  canonical_cost order_id =
      let group = or_else (get order_id (by_order cs)) [] in
      plus
        (sum_expr
          (λ (c : Candidate). term (order_id, c.slot_id) (pos (rank_in c.slot_id sorted_slots)))
          group)
        (times (pos unassigned_penalty) (
          minus (lit (pos 1))
            (sum_expr (λ (c : Candidate). term (order_id, c.slot_id) (pos 1)) group)))

  -- `refinements`
  unfoldable pub refinements : List Stage
  unfolding sum_expr canonical_cost
  refinements =
      record { name = some "priority_score"; expression = priority_score; maximise = Bool.true }
      ∷ record { name = some "due_cost"; expression = due_cost; maximise = Bool.false }
      ∷ map
          (λ (id : String). record {
            name = none;
            expression = canonical_cost id;
            maximise = Bool.false;
          })
          (sort_by text_le (keys (by_order cs)))

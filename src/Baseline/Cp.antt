-- ===== src/Baseline/Cp.antt =====
-- The part of OR-tools' CP-SAT that app/solver/baseline.py uses: Boolean variables, linear
-- constraints, an objective and an answer. The solver itself is a parameter of the model, an answer
-- for each call; `IsSound` states what its documentation promises of an answer.
use piggyon.Base.{ℕ, ◌+◌, ◌*◌, ◌≤◌, ◌≡◌, Bool, true, false, leb, List, String, All, sum_over}
use piggyon.Base.Int.{ℤ, pos, negsuc, pos_part, neg_part, ◌+ℤ◌, ◌-ℤ◌, ◌*ℤ◌, ◌≤ℤ◌}

-- A coefficient or a bound that is no signed integer of 64 bits is refused with an exception where
-- the model is built.
abbrev pub fits_ℕ : ℕ → Bool
fits_ℕ n = leb n 9223372036854775807

abbrev pub fits_ℤ : ℤ → Bool
fits_ℤ (pos n) = fits_ℕ n
fits_ℤ (negsuc n) = fits_ℕ n

-- The variable `x[(order_id, slot_id)]`.
abbrev pub Var : Type 0
Var = String × String

abbrev pub Valuation : Type 0
Valuation = Var → Bool

abbrev pub bit : Bool → ℕ
bit true = 1
bit false = 0

pub data Expr : Type 0 where
  lit : ℤ → Expr
  term : Var → ℤ → Expr
  plus : Expr → Expr → Expr
  minus : Expr → Expr → Expr
  times : ℤ → Expr → Expr

unfoldable pub eval : Valuation → Expr → ℤ
eval v (lit n) = n
eval v (term x n) = pos (bit (v x)) *ℤ n
eval v (plus a b) = eval v a +ℤ eval v b
eval v (minus a b) = eval v a -ℤ eval v b
eval v (times n a) = n *ℤ eval v a

-- `model.Add(sum(x * n for …) <= bound)` with `n` not negative, and `model.Add(e == value)`.
pub data Constraint : Type 0 where
  at_most : List (Var × ℕ) → ℕ → Constraint
  pinned : Expr → ℤ → Constraint

abbrev pub weigh : Valuation → List (Var × ℕ) → ℕ
weigh v terms = sum_over (λ t. bit (v t.0) * t.1) terms

abbrev pub Holds : Valuation → Constraint → Type 0
Holds v (at_most terms bound) = weigh v terms ≤ bound
Holds v (pinned e value) = eval v e ≡ value

abbrev pub Satisfies : Valuation → List Constraint → Type 0
Satisfies v constraints = All (Holds v) constraints

pub data CpStatus : Type 0 where
  optimal feasible infeasible unknown model_invalid : CpStatus

-- `_usable`
abbrev pub usable : CpStatus → Bool
usable optimal = true
usable feasible = true
usable _ = false

pub record Request : Type 0 where
  pub constraints : List Constraint
  pub objective : Expr
  pub maximise : Bool
  pub random_seed : ℕ
  pub num_search_workers : ℕ
  pub max_time_ms : ℕ

-- `objective_value` is what the code reads off, `int(round(solver.ObjectiveValue()))`: the value
-- has gone through a double.
pub record Answer : Type 0 where
  pub status : CpStatus
  pub solution : Valuation
  pub objective_value : ℤ

-- What `solver.Solve(model)` answers at its n-th call; the time it takes is in no one's hands.
abbrev pub CpSolver : Type 0
CpSolver = ℕ → Request → Answer

-- `a` is at least as good an objective value as `b`.
abbrev pub AsGood : Bool → ℤ → ℤ → Type 0
AsGood true a b = b ≤ℤ a
AsGood false a b = a ≤ℤ b

-- An integer up to 2^53 in size is held by a double without rounding.
abbrev pub magnitude : ℤ → ℕ
magnitude z = pos_part z + neg_part z

abbrev pub IsExact : ℤ → Type 0
IsExact z = magnitude z ≤ 9007199254740992

-- The documented meaning of the statuses, and of the objective value where a double holds it.
pub record IsSound (solve : CpSolver) : Type 0 where
  pub solution_satisfies :
      (n : ℕ) (r : Request)
      → usable (solve n r).status ≡ true
      → Satisfies (solve n r).solution r.constraints
  pub value_is_objective :
      (n : ℕ) (r : Request)
      → usable (solve n r).status ≡ true
      → IsExact (eval (solve n r).solution r.objective)
      → eval (solve n r).solution r.objective ≡ (solve n r).objective_value
  pub optimal_is_best :
      (n : ℕ) (r : Request) (v : Valuation)
      → (solve n r).status ≡ optimal
      → Satisfies v r.constraints
      → AsGood r.maximise (eval (solve n r).solution r.objective) (eval v r.objective)
  pub infeasible_has_none :
      (n : ℕ) (r : Request) (v : Valuation)
      → (solve n r).status ≡ infeasible
      → ¬ Satisfies v r.constraints

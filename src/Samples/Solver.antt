-- ===== src/Samples/Solver.antt =====
-- A solver that only ever proposes one fixed valuation: it answers with it where it meets all
-- constraints, and with nothing where it does not.
use piggyon.Base.{
  ◌≡◌, refl, Bool, true, false, ◌&&◌, ◌||◌, List, [], ◌∷◌, ◌==◌, arith, leb, nat_eq, is_all,
  if◌then◌else◌, Bool-cases, inl, inr,
}
use piggyon.Base.Int.{ℤ, pos, negsuc}
use piggyon.Baseline.Cp.{
  Valuation, eval, Constraint, at_most, pinned, weigh, Holds, Satisfies, optimal, feasible,
  infeasible, unknown, usable, CpSolver, IsSound,
}

abbrev same_ℤ : ℤ → ℤ → Bool
same_ℤ (pos m) (pos n) = nat_eq m n
same_ℤ (negsuc m) (negsuc n) = nat_eq m n
same_ℤ _ _ = false

same_ℤ-eq : (a b : ℤ) → same_ℤ a b ≡ true → a ≡ b
same_ℤ-eq (pos m) (pos n) h = ground arith
same_ℤ-eq (negsuc m) (negsuc n) h = ground arith
same_ℤ-eq (pos m) (negsuc n) h = cc
same_ℤ-eq (negsuc m) (pos n) h = cc

abbrev meets : Valuation → Constraint → Bool
meets v (at_most terms bound) = leb (weigh v terms) bound
meets v (pinned e value) = same_ℤ (eval v e) value

meets-Holds : (v : Valuation) (c : Constraint) → meets v c ≡ true → Holds v c
meets-Holds v (at_most terms bound) h = ground arith
meets-Holds v (pinned e value) h = same_ℤ-eq (eval v e) value h

abbrev pub fits : Valuation → List Constraint → Bool
fits v cs = is_all (meets v) cs

pub fits-Satisfies : (v : Valuation) (cs : List Constraint) → fits v cs ≡ true → Satisfies v cs
fits-Satisfies v [] h = tt
fits-Satisfies v (c ∷ cs) h = elim (Bool-cases (meets v c)) [
  | inl e ↦ (meets-Holds v c e, fits-Satisfies v cs (rw e at h))
  | inr e ↦ absurd (false≢true (rw e at h))
]
  where
    false≢true : false ≡ true → ⊥
    false≢true p = cc

unfoldable pub propose : Valuation → CpSolver
propose v n r = record {
  status = if fits v r.constraints then feasible else unknown;
  solution = v;
  objective_value = eval v r.objective;
}

usable-fits : (b : Bool) → usable (if b then feasible else unknown) ≡ true → b ≡ true
usable-fits true h = refl
usable-fits false h = cc

never_optimal : (b : Bool) → (if b then feasible else unknown) ≡ optimal → ⊥
never_optimal true h = cc
never_optimal false h = cc

never_infeasible : (b : Bool) → (if b then feasible else unknown) ≡ infeasible → ⊥
never_infeasible true h = cc
never_infeasible false h = cc

pub propose-IsSound : (v : Valuation) → IsSound (propose v)
unfolding propose
propose-IsSound v = record {
  solution_satisfies =
      λ n r h. fits-Satisfies v r.constraints (usable-fits (fits v r.constraints) h);
  value_is_objective = λ n r h exact. refl;
  optimal_is_best = λ n r w h sat. absurd (never_optimal (fits v r.constraints) h);
  infeasible_has_none = λ n r w h. absurd (never_infeasible (fits v r.constraints) h);
}

-- The first order on the first slot, the second on the second.
abbrev pub chosen : Valuation
chosen (order_id, slot_id) =
    order_id == "O1" && slot_id == "L1" || order_id == "O2" && slot_id == "L2"

abbrev pub solver : CpSolver
solver = propose chosen

-- ===== src/Baseline/Plan.antt =====
-- The plan that app/solver/baseline.py reads off a valuation: who is in it, and its sums.
use mathlib.Core.List.Memᴰ
use piggyon.Base.{
  ℕ, ◌+◌, ◌≤◌, ◌≡◌, refl, sym, ap, ◌∙◌, ◌⊎◌, inl, inr, true, List, [], ◌∷◌, map, String, ◌==◌,
  eq_iff, Memᴰ, arith, Bool-cases, sum_over, sort_by, mem-sort_by, sum_over-sort_by,
}
use piggyon.Base.Dict.{Dict, put, values}
use piggyon.Eligibility.Types.{Candidate}
use piggyon.Baseline.{Assignment}
use piggyon.Baseline.Cp.{Valuation}
use piggyon.Baseline.Problem.{variable}
use piggyon.Baseline.Solve.{chosen_into, candidate_le, to_assignment, plan_assignments}
use piggyon.Baseline.Limits.{chosen_sum}

sum_over-put :
    (f : Candidate → ℕ) (k : String) (c : Candidate) (d : Dict Candidate)
    → sum_over f (values (put k c d)) ≤ f c + sum_over f (values d)
unfolding put
sum_over-put f k c [] = omega arith
sum_over-put f k c ((j, w) ∷ d) = ground (arith, sum_over-put f k c d)

-- The sum over the plan is at most the sum over the chosen candidates.
sum_over-chosen :
    (v : Valuation) (f : Candidate → ℕ) (cs : List Candidate) (plan : Dict Candidate)
    → sum_over f (values (chosen_into v cs plan)) ≤ sum_over f (values plan) + chosen_sum v f cs
unfolding chosen_into
sum_over-chosen v f [] plan = omega arith
sum_over-chosen v f (c ∷ cs) plan = elim (Bool-cases (v (variable c))) [
  | inl e ↦ rw e (
      omega
        (arith, sum_over-chosen v f cs (put c.order_id c plan), sum_over-put f c.order_id c plan))
  | inr e ↦ rw e (omega (arith, sum_over-chosen v f cs plan))
]

-- An entry of the plan is a chosen candidate, under its order.
pub record IsEntry (v : Valuation) (cs : List Candidate) (k : String) (c : Candidate) : Type 0 where
  pub candidate : Memᴰ c cs
  pub is_chosen : v (variable c) ≡ true
  pub own_key : c.order_id ≡ k

mem-put :
    (k : String) (c : Candidate) (d : Dict Candidate) {e : String × Candidate}
    → Memᴰ e (put k c d)
    → (e ≡ (k, c)) ⊎ Memᴰ e d
unfolding put
mem-put k c [] m = inl (Memᴰ.eq_of_singleton m)
mem-put k c ((j, w) ∷ d) m = elim (Bool-cases (j == k)) [
  | inl same ↦ elim (Memᴰ.cases_cons (rw same at m)) [
    | inl here ↦ inl (here ∙ ap (λ (x : String). (x, c)) ((eq_iff j k).0 same))
    | inr later ↦ inr (Memᴰ.tail later)
  ]
  | inr other ↦ elim (Memᴰ.cases_cons (rw other at m)) [
    | inl here ↦ inr (Memᴰ.head here)
    | inr later ↦ elim (mem-put k c d later) [ inl new ↦ inl new | inr old ↦ inr (Memᴰ.tail old) ]
  ]
]

IsEntry-tail :
    {v : Valuation} {d : Candidate} {cs : List Candidate} {k : String} {c : Candidate}
    → IsEntry v cs k c
    → IsEntry v (d ∷ cs) k c
IsEntry-tail h = record {
  candidate = Memᴰ.tail h.candidate;
  is_chosen = h.is_chosen;
  own_key = h.own_key;
}

mem-chosen :
    (v : Valuation) (cs : List Candidate) (plan : Dict Candidate) (e : String × Candidate)
    → Memᴰ e (chosen_into v cs plan)
    → IsEntry v cs e.0 e.1 ⊎ Memᴰ e plan
unfolding chosen_into
mem-chosen v [] plan e m = inr m
mem-chosen v (c ∷ cs) plan e m = elim (Bool-cases (v (variable c))) [
  | inr b ↦ elim (mem-chosen v cs plan e (rw b at m)) [
    | inl entry ↦ inl (IsEntry-tail entry)
    | inr old ↦ inr old
  ]
  | inl b ↦ elim (mem-chosen v cs (put c.order_id c plan) e (rw b at m)) [
    | inl entry ↦ inl (IsEntry-tail entry)
    | inr old ↦ elim (mem-put c.order_id c plan old) [
      | inl new ↦
          inl (rw new (record { candidate = Memᴰ.head refl; is_chosen = b; own_key = refl }))
      | inr older ↦ inr older
    ]
  ]
]

module _ (v : Valuation) (cs : List Candidate) where
  abbrev pub plan_of : Dict Candidate
  plan_of = chosen_into v cs []

  pub IsEntry-of_mem : (e : String × Candidate) → Memᴰ e plan_of → IsEntry v cs e.0 e.1
  IsEntry-of_mem e m = elim (mem-chosen v cs [] e m) [ inl entry ↦ entry | inr old ↦ elim old [ ] ]

  -- Each assignment of the plan is a chosen candidate, and stands in the plan under its order.
  pub mem-plan_assignments :
      (a : Assignment)
      → Memᴰ a (plan_assignments plan_of)
      → (c : Candidate) × IsEntry v cs c.order_id c
        × Memᴰ (c.order_id, c) plan_of
        × (a ≡ to_assignment c)
  unfolding plan_assignments
  mem-plan_assignments a m =
      let (c, mc, e) = Memᴰ.of_map to_assignment (sort_by candidate_le (values plan_of)) m in
      let (entry, me, ec) =
        Memᴰ.of_map (λ (x : String × Candidate). x.1) plan_of
          (mem-sort_by candidate_le (values plan_of) mc) in
      let h = IsEntry-of_mem entry me in
      let key : c.order_id ≡ entry.0 = cc (h.own_key, ec) in
      (
        c,
        rw (← ec) (record { candidate = h.candidate; is_chosen = h.is_chosen; own_key = refl }),
        Memᴰ.cast (ground (arith, key, ec)) me,
        sym e,
      )

  sum_over-map :
      (f : Assignment → ℕ) (xs : List Candidate)
      → sum_over f (map to_assignment xs) ≡ sum_over (λ c. f (to_assignment c)) xs
  sum_over-map f [] = refl
  sum_over-map f (x ∷ xs) = ap (λ (n : ℕ). f (to_assignment x) + n) (sum_over-map f xs)

  -- A sum over the assignments is at most the sum over the chosen candidates.
  pub sum_over-assignments :
      (f : Assignment → ℕ)
      → sum_over f (plan_assignments plan_of) ≤ chosen_sum v (λ c. f (to_assignment c)) cs
  unfolding plan_assignments
  sum_over-assignments f = omega (
    arith,
    sum_over-map f (sort_by candidate_le (values plan_of)),
    sum_over-sort_by candidate_le (λ c. f (to_assignment c)) (values plan_of),
    sum_over-chosen v (λ c. f (to_assignment c)) cs [],
  )

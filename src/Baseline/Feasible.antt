-- ===== src/Baseline/Feasible.antt =====
-- The loop of app/solver/baseline.py where a value may be pinned inexactly: what stays of its plan.
use piggyon.Base.{ℕ, ◌+◌, ◌≡◌, refl, sym, subst, inl, inr, true, some, List, [], ◌∷◌, Bool-cases}
use piggyon.Base.Lookups.{some_inj, some-ne-none}
use piggyon.Baseline.{SolverParameters}
use piggyon.Baseline.Cp.{
  Constraint, Satisfies, Valuation, CpStatus, optimal, feasible, infeasible, unknown, model_invalid,
  usable, Request, Answer, CpSolver, IsSound,
}
use piggyon.Baseline.Stages.{
  Stage, Progress, StepResult, no_solution, halt, advance, exhausted, request, accept, stopped,
  answered, step, refine,
}
use piggyon.Baseline.Lexicographic.{Satisfies-split}

module _ (solve : CpSolver) (clock : ℕ → ℕ) (parameters : SolverParameters)
    (sound : IsSound solve) where
  -- A step that goes on has a plan within the constraints before it, and keeps these.
  abbrev StepKeeps : Progress → StepResult → Type 0
  StepKeeps p no_solution = Unit
  StepKeeps p (halt q) = q.best ≡ p.best
  StepKeeps p (advance q) =
      Satisfies q.best p.constraints
      × ((v : Valuation) → Satisfies v q.constraints → Satisfies v p.constraints)

  accept-keeps :
      (stage : Stage) (p : Progress) (a : Answer)
      → Satisfies a.solution p.constraints
      → StepKeeps p (advance (accept solve clock parameters stage p a))
  unfolding accept
  accept-keeps stage p a h = (h, λ v k. (Satisfies-split v p.constraints _ k).0)

  answered-keeps :
      (stage : Stage) (p : Progress) (a : Answer) (status : CpStatus)
      → (usable status ≡ true → Satisfies a.solution p.constraints)
      → StepKeeps p (answered solve clock parameters stage p a status)
  unfolding answered stopped
  answered-keeps stage p a optimal f = accept-keeps stage p a (f refl)
  answered-keeps stage p a feasible f = accept-keeps stage p a (f refl)
  answered-keeps stage p a infeasible f = tt
  answered-keeps stage p a unknown f = refl
  answered-keeps stage p a model_invalid f = refl

  step-keeps : (stage : Stage) (p : Progress) → StepKeeps p (step solve clock parameters stage p)
  unfolding step stopped
  step-keeps stage p = elim (Bool-cases (exhausted solve clock parameters p.readings)) [
    | inl e ↦ rw (e, step) refl
    | inr e ↦
        let r : Request = request solve clock parameters stage p.constraints (p.readings + 1) in
        rw (e, step)
          (answered-keeps stage p (solve p.calls r) (solve p.calls r).status
            (λ ok. unfold request in sound.solution_satisfies p.calls r ok))
  ]

  module _ (limits : List Constraint) where
    -- The constraints at hand imply the limits.
    abbrev Within : Progress → Type 0
    Within p = (v : Valuation) → Satisfies v p.constraints → Satisfies v limits

    after_step :
        (stages : List Stage)
        → ((p q : Progress)
            → Within p
            → Satisfies p.best limits
            → refine solve clock parameters stages p ≡ some q
            → Satisfies q.best limits)
        → (stage : Stage) (p q : Progress) → Within p
        → Satisfies p.best limits
        → refine solve clock parameters (stage ∷ stages) p ≡ some q
        → (r : StepResult) → step solve clock parameters stage p ≡ r
        → StepKeeps p r
        → Satisfies q.best limits
    unfolding refine
    after_step stages ih stage p q within sat e no_solution s h =
        absurd (some-ne-none {x = q} (sym (rw (s, refine) at e)))
    after_step stages ih stage p q within sat e (halt p') s h =
        subst (λ (x : Progress). Satisfies x.best limits) (some_inj (rw (s, refine) at e))
          (subst (λ v. Satisfies v limits) (sym h) sat)
    after_step stages ih stage p q within sat e (advance p') s h =
        ih p' q (λ v k. within v (h.1 v k)) (within p'.best h.0) (rw (s, refine) at e)

    pub refine-Satisfies :
        (stages : List Stage) (p q : Progress)
        → Within p
        → Satisfies p.best limits
        → refine solve clock parameters stages p ≡ some q
        → Satisfies q.best limits
    unfolding refine
    refine-Satisfies [] p q within sat e =
        subst (λ (x : Progress). Satisfies x.best limits) (some_inj e) sat
    refine-Satisfies (stage ∷ stages) p q within sat e =
        after_step stages (refine-Satisfies stages) stage p q within sat e
          (step solve clock parameters stage p) refl (step-keeps stage p)

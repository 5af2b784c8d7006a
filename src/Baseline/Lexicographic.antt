-- ===== src/Baseline/Lexicographic.antt =====
-- The loop over the stages in app/solver/baseline.py, over a sound solver: what each round and the
-- whole loop keep, and the lexicographic optimum.
use piggyon.Base.{
  ℕ, ◌+◌, ◌≡◌, refl, sym, subst, inl, inr, true, some, List, [], ◌∷◌, ◌++◌, All, arith, Bool-cases,
}
use piggyon.Base.Int.{ℤ}
use piggyon.Baseline.{SolverParameters}
use piggyon.Baseline.Cp.{
  eval, Constraint, pinned, Satisfies, Valuation, AsGood, CpStatus, optimal, feasible, infeasible,
  unknown, model_invalid, usable, Request, Answer, CpSolver, IsSound, IsExact,
}
use piggyon.Baseline.Stages.{
  Stage, Progress, StepResult, no_solution, halt, advance, is_optimal, exhausted, request, accept,
  stopped, answered, step, refine,
}

-- No valuation beats `b` at a stage among those that tie with it at all stages before.
abbrev pub IsLexOptimal : List Constraint → List Stage → Valuation → Type 0
IsLexOptimal cs [] b = Unit
IsLexOptimal cs (stage ∷ stages) b =
    ((v : Valuation)
      → Satisfies v cs
      → AsGood stage.maximise (eval b stage.expression) (eval v stage.expression))
    × IsLexOptimal (cs ++ pinned stage.expression (eval b stage.expression) ∷ []) stages b

pub Satisfies-append :
    (v : Valuation) (cs ds : List Constraint)
    → Satisfies v cs
    → Satisfies v ds
    → Satisfies v (cs ++ ds)
Satisfies-append v [] ds h k = k
Satisfies-append v (c ∷ cs) ds h k = (h.0, Satisfies-append v cs ds h.1 k)

pub Satisfies-split :
    (v : Valuation) (cs ds : List Constraint)
    → Satisfies v (cs ++ ds)
    → Satisfies v cs × Satisfies v ds
Satisfies-split v [] ds h = (tt, h)
Satisfies-split v (c ∷ cs) ds h = let (hc, hd) = Satisfies-split v cs ds h.1 in ((h.0, hc), hd)

pub is_optimal-eq : (s : CpStatus) → is_optimal s ≡ true → s ≡ optimal
is_optimal-eq s h = ground arith

-- A double holds every value of the stage's objective.
abbrev pub StageExact : Stage → Type 0
StageExact stage = (v : Valuation) → IsExact (eval v stage.expression)

module _ (solve : CpSolver) (clock : ℕ → ℕ) (parameters : SolverParameters)
    (sound : IsSound solve) where
  -- What a step leaves, when it goes on.
  record Advanced (stage : Stage) (p q : Progress) : Type 0 where
    value : ℤ
    pinned_now : q.constraints ≡ p.constraints ++ pinned stage.expression value ∷ []
    satisfied : Satisfies q.best q.constraints
    best_if_optimal :
        q.stages_optimal ≡ true
        → (p.stages_optimal ≡ true)
          × ((v : Valuation)
              → Satisfies v p.constraints
              → AsGood stage.maximise value (eval v stage.expression))

  -- `a` answers the request of `stage` over `p`.
  record Answers (stage : Stage) (p : Progress) (a : Answer) : Type 0 where
    sat : Satisfies a.solution p.constraints
    valued : eval a.solution stage.expression ≡ a.objective_value
    best :
        (v : Valuation)
        → a.status ≡ optimal
        → Satisfies v p.constraints
        → AsGood stage.maximise a.objective_value (eval v stage.expression)

  accept-Advanced :
      (stage : Stage) (p : Progress) (a : Answer)
      → Answers stage p a
      → Advanced stage p (accept solve clock parameters stage p a)
  unfolding accept
  accept-Advanced stage p a h = record {
    value = a.objective_value;
    pinned_now = refl;
    satisfied = Satisfies-append a.solution p.constraints _ h.sat (h.valued, tt);
    best_if_optimal =
        λ e. (ground arith, λ v sat. h.best v (is_optimal-eq a.status (ground arith)) sat);
  }

  answers :
      (stage : Stage) (p : Progress) (reading : ℕ)
      → StageExact stage
      → usable (solve p.calls (request solve clock parameters stage p.constraints reading)).status
        ≡ true
      → Answers stage p (solve p.calls (request solve clock parameters stage p.constraints reading))
  unfolding request
  answers stage p reading exact ok =
      let r : Request = request solve clock parameters stage p.constraints reading in
      let valued_at = sound.value_is_objective p.calls r ok (exact (solve p.calls r).solution) in
      record {
        sat = sound.solution_satisfies p.calls r ok;
        valued = valued_at;
        best = λ v o s.
            subst (λ z. AsGood stage.maximise z (eval v stage.expression)) valued_at
              (sound.optimal_is_best p.calls r v o s);
      }

  -- The three ways in which a step ends.
  abbrev StepGood : Stage → Progress → StepResult → Type 0
  StepGood stage p no_solution = (v : Valuation) → Satisfies v p.constraints → ⊥
  StepGood stage p (halt q) = q ≡ stopped solve clock parameters p
  StepGood stage p (advance q) = Advanced stage p q

  answered-good :
      (stage : Stage) (p : Progress) (a : Answer) (status : CpStatus)
      → (usable status ≡ true → Answers stage p a)
      → (status ≡ infeasible → (v : Valuation) → Satisfies v p.constraints → ⊥)
      → StepGood stage p (answered solve clock parameters stage p a status)
  unfolding answered
  answered-good stage p a optimal f g = accept-Advanced stage p a (f refl)
  answered-good stage p a feasible f g = accept-Advanced stage p a (f refl)
  answered-good stage p a infeasible f g = g refl
  answered-good stage p a unknown f g = refl
  answered-good stage p a model_invalid f g = refl

  step-good :
      (stage : Stage) (p : Progress)
      → StageExact stage
      → StepGood stage p (step solve clock parameters stage p)
  unfolding step
  step-good stage p exact = elim (Bool-cases (exhausted solve clock parameters p.readings)) [
    | inl e ↦ rw (e, step) refl
    | inr e ↦
        let r : Request = request solve clock parameters stage p.constraints (p.readings + 1) in
        rw (e, step)
          (answered-good stage p (solve p.calls r) (solve p.calls r).status
            (answers stage p (p.readings + 1) exact)
            (λ bad v. unfold request in sound.infeasible_has_none p.calls r v bad))
  ]

  -- What the loop establishes, from a plan that satisfies the constraints so far.
  pub record Refined (stages : List Stage) (p q : Progress) : Type 0 where
    pub satisfied : Satisfies q.best p.constraints
    pub lex_optimal :
        q.stages_optimal ≡ true
        → (p.stages_optimal ≡ true) × IsLexOptimal p.constraints stages q.best

  Refined-stop :
      (stage : Stage) (stages : List Stage) (p : Progress)
      → Satisfies p.best p.constraints
      → Refined (stage ∷ stages) p (stopped solve clock parameters p)
  unfolding stopped
  Refined-stop stage stages p sat = record { satisfied = sat; lex_optimal = λ e. cc }

  Refined-advance :
      (stage : Stage) (stages : List Stage) (p q r : Progress)
      → Advanced stage p q
      → Refined stages q r
      → Refined (stage ∷ stages) p r
  Refined-advance stage stages p q r a h =
      let sat = rw a.pinned_now at h.satisfied in
      let (old, new) = Satisfies-split r.best p.constraints _ sat in
      record {
        satisfied = old;
        lex_optimal = λ e.
            let (q_optimal, rest) = h.lex_optimal e in
            let (p_optimal, best) = a.best_if_optimal q_optimal in
            (
              p_optimal,
              (
                λ v s. rw new.0 (best v s),
                subst
                    (λ z.
                      IsLexOptimal (p.constraints ++ pinned stage.expression z ∷ []) stages r.best)
                    (sym new.0) (rw a.pinned_now at rest),
              ),
            );
      }

  abbrev pub Refines : List Stage → Progress → Type 0
  Refines stages p =
      (q : Progress) × (refine solve clock parameters stages p ≡ some q) × Refined stages p q

  refine_step :
      (stage : Stage) (stages : List Stage) (p : Progress)
      → Satisfies p.best p.constraints
      → ((q : Progress) → Satisfies q.best q.constraints → Refines stages q)
      → (r : StepResult) → step solve clock parameters stage p ≡ r
      → StepGood stage p r
      → Refines (stage ∷ stages) p
  unfolding refine
  refine_step stage stages p sat ih no_solution e h = absurd (h p.best sat)
  refine_step stage stages p sat ih (halt q) e h =
      (q, rw (e, refine) refl, rw h (Refined-stop stage stages p sat))
  refine_step stage stages p sat ih (advance q) e h =
      let (r, done, good) = ih q h.satisfied in
      (r, rw (e, refine) done, Refined-advance stage stages p q r h good)

  -- Over a sound solver, from a plan that meets the constraints at hand, and where a double holds
  -- every value of the stages' objectives, the loop comes to an end with a plan that meets them too,
  -- and that is the lexicographic optimum of the stages where it reports optimality.
  pub refine-Refined :
      (stages : List Stage) (p : Progress)
      → All StageExact stages
      → Satisfies p.best p.constraints
      → Refines stages p
  unfolding refine
  refine-Refined [] p exact sat = (p, refl, record { satisfied = sat; lex_optimal = λ e. (e, tt) })
  refine-Refined (stage ∷ stages) p exact sat =
      refine_step stage stages p sat (λ q. refine-Refined stages q exact.1)
        (step solve clock parameters stage p) refl (step-good stage p exact.0)

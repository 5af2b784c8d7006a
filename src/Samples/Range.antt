-- ===== src/Samples/Range.antt =====
-- The concrete scenario keeps to the calendar and to 64 bits.
use piggyon.Base.{
  ℕ, ◌*◌, ◌≤◌, ◌≡◌, refl, Bool, true, List, [], ◌∷◌, Memᴰ, arith, is_all, leb, or_else,
}
use piggyon.Snapshot.{p1, p2, p3, Service, Terminal, Order, Wagon}
use piggyon.Baseline.Cp.{fits_ℕ, fits_ℤ}
use piggyon.Baseline.Objectives.{score}
use piggyon.Planning.Range.{IsInRange}
use piggyon.Eligibility.Groups.{IsInCalendar}
use piggyon.Samples.{scenario}

mem-is_all :
    {A : Type 0} (test : A → Bool) (xs : List A) (x : A)
    → Memᴰ x xs
    → is_all test xs ≡ true
    → test x ≡ true
mem-is_all test [] x m all = elim m [ ]
mem-is_all test (y ∷ ys) x (Memᴰ.head e) all = ground (arith, e, all)
mem-is_all test (y ∷ ys) x (Memᴰ.tail m) all = mem-is_all test ys x m (ground (arith, all))

leb-le : (a b : ℕ) → leb a b ≡ true → a ≤ b
leb-le a b e = ground (arith, e)

pub scenario-IsInCalendar : IsInCalendar scenario
scenario-IsInCalendar = record {
  handled = λ v mv t mt. leb-le (t.minimum_handling_minutes * 60000000) v.arrival_left (
      mem-is_all (λ (u : Terminal). leb (u.minimum_handling_minutes * 60000000) v.arrival_left)
        scenario.terminals t mt
        (mem-is_all
          (λ (w : Service).
            is_all (λ (u : Terminal). leb (u.minimum_handling_minutes * 60000000) w.arrival_left)
              scenario.terminals)
          scenario.services v mv refl));
}

pub scenario-IsInRange : IsInRange scenario
scenario-IsInRange = record {
  calendar = scenario-IsInCalendar;
  weights = λ o m.
      mem-is_all (λ (x : Order). fits_ℕ (or_else x.gross_weight_kg 0)) scenario.orders o m refl;
  capacities =
      λ w m. mem-is_all (λ (x : Wagon). fits_ℕ x.max_total_weight_kg) scenario.wagons w m refl;
  scores = λ p. elim p as (λ k. fits_ℤ (score scenario.policy.priority_scores k) ≡ true) [
    | p1 ↦ refl
    | p2 ↦ refl
    | p3 ↦ refl
  ];
}

-- ===== src/Base/Sums.antt =====
-- Sums of a number over a list.
use Prim.Native.Nat.{ℕ, ◌+◌, ◌≤◌}
use mathlib.Core.Path.{◌≡◌, refl}
use mathlib.Core.Bool.{Bool}
use mathlib.Core.List.{List, [], ◌∷◌, ◌++◌, Memᴰ}
use native.Mathlib.Omega.{arith}
use piggyon.Base.Tests.{if◌then◌else◌}
use piggyon.Base.Lists.{select}

module _ {ℓ} {A : Type ℓ} (f : A → ℕ) where
  -- `sum(f(x) for x in xs)`
  abbrev pub sum_over : List A → ℕ
  sum_over [] = 0
  sum_over (x ∷ xs) = f x + sum_over xs

  pub sum_over-append : (xs ys : List A) → sum_over (xs ++ ys) ≡ sum_over xs + sum_over ys
  sum_over-append [] ys = omega arith
  sum_over-append (x ∷ xs) ys = omega (arith, sum_over-append xs ys)

  pub le-sum_over : {x : A} (xs : List A) → Memᴰ x xs → f x ≤ sum_over xs
  le-sum_over [] m = elim m [ ]
  le-sum_over (y ∷ xs) (Memᴰ.head e) = rw e (omega arith)
  le-sum_over (y ∷ xs) (Memᴰ.tail m) = omega (arith, le-sum_over xs m)

module _ {ℓ} {A : Type ℓ} (test : A → Bool) (f : A → ℕ) where
  pub sum_over-select :
      (xs : List A) → sum_over f (select test xs) ≡ sum_over (λ x. if test x then f x else 0) xs
  unfolding select
  sum_over-select [] = refl
  sum_over-select (x ∷ xs) = ground (arith, sum_over-select xs)

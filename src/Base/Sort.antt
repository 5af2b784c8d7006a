-- ===== src/Base/Sort.antt =====
-- Python's `sorted` with a key: a stable sort, by insertion.
use Prim.Native.Nat.{ℕ, ◌+◌}
use mathlib.Core.Path.{◌≡◌, refl}
use mathlib.Core.Logic.{◌⊎◌, inl, inr}
use mathlib.Core.Bool.{Bool}
use mathlib.Core.List.Memᴰ
use mathlib.Core.List.{List, [], ◌∷◌, Memᴰ, Perm}
use mathlib.Core.List.Perm
use native.Mathlib.Omega.{arith}
use piggyon.Base.Tests.{if◌then◌else◌, Bool-cases}
use piggyon.Base.Sums.{sum_over}

module _ {ℓ} {A : Type ℓ} (le : A → A → Bool) where
  unfoldable pub insert_by : A → List A → List A
  insert_by x [] = x ∷ []
  insert_by x (y ∷ ys) = if le x y then x ∷ y ∷ ys else y ∷ insert_by x ys

  unfoldable pub sort_by : List A → List A
  unfolding insert_by
  sort_by [] = []
  sort_by (x ∷ xs) = insert_by x (sort_by xs)

  mem-insert_by : {z : A} (x : A) (ys : List A) → Memᴰ z (insert_by x ys) → (z ≡ x) ⊎ Memᴰ z ys
  unfolding insert_by
  mem-insert_by x [] m = Memᴰ.cases_cons m
  mem-insert_by x (y ∷ ys) m = elim (Bool-cases (le x y)) [
    | inl e ↦ Memᴰ.cases_cons (rw e at m)
    | inr e ↦ elim (Memᴰ.cases_cons (rw e at m)) [
      | inl here ↦ inr (Memᴰ.head here)
      | inr later ↦ elim (mem-insert_by x ys later) [
        | inl e' ↦ inl e'
        | inr m' ↦ inr (Memᴰ.tail m')
      ]
    ]
  ]

  pub mem-sort_by : {z : A} (xs : List A) → Memᴰ z (sort_by xs) → Memᴰ z xs
  unfolding sort_by
  mem-sort_by [] m = m
  mem-sort_by (x ∷ xs) m = elim (mem-insert_by x (sort_by xs) m) [
    | inl e ↦ Memᴰ.head e
    | inr later ↦ Memᴰ.tail (mem-sort_by xs later)
  ]

  insert_by-perm : (x : A) (ys : List A) → Perm (insert_by x ys) (x ∷ ys)
  unfolding insert_by
  insert_by-perm x [] = Perm.rfl
  insert_by-perm x (y ∷ ys) = elim (Bool-cases (le x y)) [
    | inl e ↦ rw e Perm.rfl
    | inr e ↦ rw e (Perm.trans (Perm.cons y (insert_by-perm x ys)) (Perm.swap x y ys))
  ]

  pub sort_by-perm : (xs : List A) → Perm (sort_by xs) xs
  unfolding sort_by
  sort_by-perm [] = Perm.rfl
  sort_by-perm (x ∷ xs) = Perm.trans (insert_by-perm x (sort_by xs)) (Perm.cons x (sort_by-perm xs))

  mem-insert_self : (x : A) (ys : List A) → Memᴰ x (insert_by x ys)
  unfolding insert_by
  mem-insert_self x [] = Memᴰ.head refl
  mem-insert_self x (y ∷ ys) = elim (Bool-cases (le x y)) [
    | inl e ↦ rw e (Memᴰ.head refl)
    | inr e ↦ rw e (Memᴰ.tail (mem-insert_self x ys))
  ]

  mem-insert_other : {z : A} (x : A) (ys : List A) → Memᴰ z ys → Memᴰ z (insert_by x ys)
  unfolding insert_by
  mem-insert_other x [] m = elim m [ ]
  mem-insert_other x (y ∷ ys) m = elim (Bool-cases (le x y)) [
    | inl e ↦ rw e (Memᴰ.tail m)
    | inr e ↦ elim (Memᴰ.cases_cons m) [
      | inl here ↦ rw e (Memᴰ.head here)
      | inr later ↦ rw e (Memᴰ.tail (mem-insert_other x ys later))
    ]
  ]

  pub mem-sort_by_of_mem : {z : A} (xs : List A) → Memᴰ z xs → Memᴰ z (sort_by xs)
  unfolding sort_by
  mem-sort_by_of_mem [] m = elim m [ ]
  mem-sort_by_of_mem (x ∷ xs) (Memᴰ.head e) = rw e (mem-insert_self x (sort_by xs))
  mem-sort_by_of_mem (x ∷ xs) (Memᴰ.tail m) =
      mem-insert_other x (sort_by xs) (mem-sort_by_of_mem xs m)

module _ {ℓ} {A : Type ℓ} (le : A → A → Bool) (f : A → ℕ) where
  sum_over-insert_by : (x : A) (ys : List A) → sum_over f (insert_by le x ys) ≡ f x + sum_over f ys
  unfolding insert_by
  sum_over-insert_by x [] = refl
  sum_over-insert_by x (y ∷ ys) = ground (arith, sum_over-insert_by x ys)

  pub sum_over-sort_by : (xs : List A) → sum_over f (sort_by le xs) ≡ sum_over f xs
  unfolding sort_by
  sum_over-sort_by [] = refl
  sum_over-sort_by (x ∷ xs) =
      omega (arith, sum_over-insert_by x (sort_by le xs), sum_over-sort_by xs)

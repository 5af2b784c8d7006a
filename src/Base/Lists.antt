-- ===== src/Base/Lists.antt =====
-- Lists as Python uses them: membership tests, comprehensions, conditional appends.
use Prim.Native.Nat.{ℕ, zero, suc}
use mathlib.Core.Option.{Option, none, some}
use Prim.Native.String.{String}
use mathlib.Core.Path.{◌≡◌, refl, sym}
use mathlib.Core.Logic.{inl, inr}
use mathlib.Core.Bool.{Bool, true, false, ◌&&◌, ◌||◌}
use mathlib.Core.List.Memᴰ
use mathlib.Core.List.{List, [], ◌∷◌, ◌++◌, Memᴰ}
use native.Mathlib.Omega.{arith}
use text.Mathlib.Text.{◌==◌}
use text.Mathlib.TextEquality.{eq_iff}
use piggyon.Base.Tests.{if◌then◌else◌, Bool-cases}

module _ {ℓ} {A : Type ℓ} where
  abbrev pub length : List A → ℕ
  length [] = 0
  length (x ∷ xs) = suc (length xs)

  -- `if test: out.append(x)`
  abbrev pub when : Bool → A → List A
  when true x = x ∷ []
  when false x = []

  abbrev pub get_elem? : List A → ℕ → Option A
  get_elem? [] i = none
  get_elem? (x ∷ xs) zero = some x
  get_elem? (x ∷ xs) (suc i) = get_elem? xs i

  -- `not xs`
  abbrev pub is_empty : List A → Bool
  is_empty [] = true
  is_empty (x ∷ xs) = false

  -- `any(test(x) for x in xs)`
  unfoldable pub any : (A → Bool) → List A → Bool
  any test [] = false
  any test (x ∷ xs) = test x || any test xs

  -- `[x for x in xs if test(x)]`
  unfoldable pub select : (A → Bool) → List A → List A
  select test [] = []
  select test (x ∷ xs) = let rest = select test xs in if test x then x ∷ rest else rest

  abbrev pub All {κ} : (A → Type κ) → List A → Type κ
  All P [] = Unit
  All P (x ∷ xs) = P x × All P xs

module _ {ℓ κ} {A : Type ℓ} {B : Type κ} where
  -- `[y for x in xs for y in f(x)]`
  unfoldable pub flat_map : (A → List B) → List A → List B
  flat_map f [] = []
  flat_map f (x ∷ xs) = f x ++ flat_map f xs

-- `k in xs`
unfoldable pub contains : String → List String → Bool
contains k [] = false
contains k (x ∷ xs) = x == k || contains k xs

-- `all(test(x) for x in xs)`
abbrev pub is_all {ℓ} : {A : Type ℓ} → (A → Bool) → List A → Bool
is_all test [] = true
is_all test (x ∷ xs) = test x && is_all test xs

module _ {ℓ} {A : Type ℓ} where
  pub when-nil : (b : Bool) (x : A) → when b x ≡ [] → b ≡ false
  when-nil true x h = cc
  when-nil false x h = refl

  pub is_empty-nil : (xs : List A) → is_empty xs ≡ true → xs ≡ []
  is_empty-nil [] h = refl
  is_empty-nil (x ∷ xs) h = cc

  pub append-eq-nil : (xs : List A) {ys : List A} → xs ++ ys ≡ [] → (xs ≡ []) × (ys ≡ [])
  append-eq-nil [] h = (refl, h)
  append-eq-nil (x ∷ xs) h = cc

  pub nil-append : {xs ys : List A} → xs ≡ [] → ys ≡ [] → xs ++ ys ≡ []
  nil-append p q = cc (p, q)

module _ {ℓ κ} {A : Type ℓ} (P : A → Type κ) where
  pub All-at : {x : A} (xs : List A) → All P xs → Memᴰ x xs → P x
  All-at [] h m = elim m [ ]
  All-at (y ∷ xs) h (Memᴰ.head e) = rw e h.0
  All-at (y ∷ xs) h (Memᴰ.tail m) = All-at xs h.1 m

  pub All-of : (xs : List A) → ((x : A) → Memᴰ x xs → P x) → All P xs
  All-of [] f = tt
  All-of (x ∷ xs) f = (f x (Memᴰ.head refl), All-of xs (λ y m. f y (Memᴰ.tail m)))

module _ {ℓ κ} {A : Type ℓ} {B : Type κ} (f : A → List B) where
  pub flat_map-eq-nil : (xs : List A) {x : A} → flat_map f xs ≡ [] → Memᴰ x xs → f x ≡ []
  unfolding flat_map
  flat_map-eq-nil [] h m = elim m [ ]
  flat_map-eq-nil (y ∷ xs) h (Memᴰ.head e) = rw e (append-eq-nil (f y) h).0
  flat_map-eq-nil (y ∷ xs) h (Memᴰ.tail m) = flat_map-eq-nil xs (append-eq-nil (f y) h).1 m

  pub flat_map-nil : (xs : List A) → ((x : A) → Memᴰ x xs → f x ≡ []) → flat_map f xs ≡ []
  unfolding flat_map
  flat_map-nil [] h = refl
  flat_map-nil (x ∷ xs) h =
      nil-append (h x (Memᴰ.head refl)) (flat_map-nil xs (λ y m. h y (Memᴰ.tail m)))

  pub mem-flat_map :
      (xs : List A) {b : B} → Memᴰ b (flat_map f xs) → (x : A) × Memᴰ x xs × Memᴰ b (f x)
  unfolding flat_map
  mem-flat_map [] m = elim m [ ]
  mem-flat_map (x ∷ xs) m = elim (Memᴰ.append_cases (f x) m) [
    | inl here ↦ (x, Memᴰ.head refl, here)
    | inr later ↦ let (y, my, mb) = mem-flat_map xs later in (y, Memᴰ.tail my, mb)
  ]

  pub mem-flat_map_of_mem :
      {x : A} {xs : List A} {b : B} → Memᴰ x xs → Memᴰ b (f x) → Memᴰ b (flat_map f xs)
  unfolding flat_map
  mem-flat_map_of_mem (Memᴰ.head {xs = ys} e) mb = Memᴰ.append_left (flat_map f ys) (rw e at mb)
  mem-flat_map_of_mem (Memᴰ.tail {x = y} m) mb = Memᴰ.append_right (f y) (mem-flat_map_of_mem m mb)

pub contains→mem : (k : String) (xs : List String) → contains k xs ≡ true → Memᴰ k xs
unfolding contains
contains→mem k [] h = cc
contains→mem k (x ∷ xs) h = elim (Bool-cases (x == k)) [
  | inl e ↦ Memᴰ.head (sym ((eq_iff x k).0 e))
  | inr e ↦ Memᴰ.tail (contains→mem k xs (rw e at h))
]

pub mem→contains : {k : String} {xs : List String} → Memᴰ k xs → contains k xs ≡ true
unfolding contains
mem→contains {xs = []} m = elim m [ ]
mem→contains {k} {xs = x ∷ xs} (Memᴰ.head e) = rw ((eq_iff x k).1 (sym e))
mem→contains {k} {xs = x ∷ xs} (Memᴰ.tail m) = ground (arith, mem→contains m)

-- The names in a list are pairwise different.
abbrev pub IsUnique : List String → Type 0
IsUnique [] = Unit
IsUnique (x ∷ xs) = (contains x xs ≡ false) × IsUnique xs

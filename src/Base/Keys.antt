-- ===== src/Base/Keys.antt =====
-- A dictionary's keys stay unique.
use mathlib.Core.Path.{◌≡◌, refl}
use mathlib.Core.Logic.{inl, inr}
use mathlib.Core.Bool.{false}
use mathlib.Core.List.{List, [], ◌∷◌, map}
use Prim.Native.String.{String}
use native.Mathlib.Omega.{arith}
use text.Mathlib.Text.{◌==◌}
use text.Mathlib.TextEquality.{eq_iff}
use piggyon.Base.Tests.{Bool-cases}
use piggyon.Base.Lists.{contains, IsUnique}
use piggyon.Base.Dict.{Dict, put, pop}

abbrev pub keys {ℓ} : {V : Type ℓ} → Dict V → List String
keys d = map (λ (e : String × _). e.0) d

module _ {ℓ} {V : Type ℓ} where
  absent-put :
      (k j : String) (v : V) (d : Dict V)
      → (k == j) ≡ false
      → contains j (keys d) ≡ false
      → contains j (keys (put k v d)) ≡ false
  unfolding put contains
  absent-put k j v [] n h = ground (arith, n)
  absent-put k j v ((i, w) ∷ d) n h = elim (Bool-cases (i == k)) [
    | inl e ↦ rw e h
    | inr e ↦ rw e (ground (arith, h, absent-put k j v d n))
  ]

  absent-pop :
      (k j : String) (d : Dict V)
      → contains j (keys d) ≡ false
      → contains j (keys (pop k d)) ≡ false
  unfolding pop contains
  absent-pop k j [] h = refl
  absent-pop k j ((i, w) ∷ d) h = elim (Bool-cases (i == k)) [
    | inl e ↦ rw e (ground (arith, h, absent-pop k j d))
    | inr e ↦ rw e (ground (arith, h, absent-pop k j d))
  ]

  pub put-IsUnique :
      (k : String) (v : V) (d : Dict V) → IsUnique (keys d) → IsUnique (keys (put k v d))
  unfolding put contains
  put-IsUnique k v [] u = (refl, tt)
  put-IsUnique k v ((i, w) ∷ d) u = elim (Bool-cases (i == k)) [
    | inl e ↦ rw e u
    | inr e ↦
        let other : (k == i) ≡ false = ground (arith, eq_iff i k, eq_iff k i, e) in
        rw e (absent-put k i v d other u.0, put-IsUnique k v d u.1)
  ]

  pub pop-IsUnique : (k : String) (d : Dict V) → IsUnique (keys d) → IsUnique (keys (pop k d))
  unfolding pop
  pop-IsUnique k [] u = tt
  pop-IsUnique k ((i, w) ∷ d) u = elim (Bool-cases (i == k)) [
    | inl e ↦ rw e (pop-IsUnique k d u.1)
    | inr e ↦ rw e (absent-pop k i d u.0, pop-IsUnique k d u.1)
  ]

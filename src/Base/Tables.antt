-- ===== src/Base/Tables.antt =====
-- What `{key(x): x for x in xs}` answers, and what a grouping holds.
use mathlib.Core.List.Memᴰ
use mathlib.Core.Path.{◌≡◌, refl, sym, ap, ◌∙◌}
use mathlib.Core.Logic.{inl, inr}
use mathlib.Core.Bool.{true}
use mathlib.Core.List.{List, [], ◌∷◌, ◌++◌, map, Memᴰ}
use mathlib.Core.Option.{some}
use Prim.Native.String.{String}
use native.Mathlib.Omega.{arith}
use text.Mathlib.Text.{◌==◌}
use text.Mathlib.TextEquality.{eq_iff}
use piggyon.Base.Tests.{if◌then◌else◌, or_else, Bool-cases, Option-cases}
use piggyon.Base.Lists.{contains, mem→contains, IsUnique}
use piggyon.Base.Dict.{Dict, get, index_by, add_to_group, get-put}

module _ {ℓ} {V : Type ℓ} (key : V → String) where
  -- What is found is in the list, under its key.
  pub index_by_sound :
      (xs : List V) (k : String) {x : V} → index_by key xs k ≡ some x → Memᴰ x xs × (key x ≡ k)
  unfolding index_by
  index_by_sound [] k h = cc
  index_by_sound (y ∷ ys) k {x} h = elim (Option-cases (index_by key ys k)) [
    | inr (z, e) ↦
        let found : index_by key ys k ≡ some x = ground arith in
        let (m, p) = index_by_sound ys k found in (Memᴰ.tail m, p)
    | inl e ↦
        let here : (key y == k) ≡ true = ground arith in
        let same : x ≡ y = ground arith in (Memᴰ.head same, rw same ((eq_iff (key y) k).0 here))
  ]

  -- A name that is in the list is found.
  pub index_by-known :
      (xs : List V) (k : String)
      → contains k (map key xs) ≡ true
      → (x : V) × (index_by key xs k ≡ some x)
  unfolding index_by contains
  index_by-known [] k h = cc
  index_by-known (y ∷ ys) k h = elim (Option-cases (index_by key ys k)) [
    | inr (z, e) ↦ (z, rw e refl)
    | inl e ↦ elim (Bool-cases (key y == k)) [
      | inl b ↦ (y, ground arith)
      | inr b ↦
          let later : contains k (map key ys) ≡ true = ground arith in
          let (x, found) = index_by-known ys k later in (x, absurd (ground (arith, found)))
    ]
  ]

  -- Where the names are different, each entry is found under its name.
  pub index_by_of_mem :
      {x : V} (xs : List V) → IsUnique (map key xs) → Memᴰ x xs → index_by key xs (key x) ≡ some x
  unfolding index_by
  index_by_of_mem [] u m = elim m [ ]
  index_by_of_mem (y ∷ ys) u (Memᴰ.tail m) = rw (index_by_of_mem ys u.1 m) refl
  index_by_of_mem {x} (y ∷ ys) u (Memᴰ.head e) = elim (Option-cases (index_by key ys (key x))) [
    | inl absent ↦ ground (arith, ap key e, eq_iff (key y) (key x))
    | inr (z, found) ↦
        let (m, p) = index_by_sound ys (key x) found in
        let seen : contains (key y) (map key ys) ≡ true =
          mem→contains (Memᴰ.cast (sym (p ∙ ap key e)) (Memᴰ.map key m)) in
        cc (u.0, seen)
  ]

  -- Two entries with one name are one entry.
  pub unique_by_name :
      {x y : V} (xs : List V)
      → IsUnique (map key xs)
      → Memᴰ x xs
      → Memᴰ y xs
      → key x ≡ key y
      → x ≡ y
  unique_by_name {x} {y} xs u mx my e =
      cc (index_by_of_mem xs u mx, index_by_of_mem xs u my, ap (index_by key xs) e)

module _ {ℓ} {V : Type ℓ} where
  -- The group of `j` after an append to the group of `k`.
  pub get-add_to_group :
      (k j : String) (v : V) (d : Dict (List V))
      → or_else (get j (add_to_group k v d)) []
        ≡ (if k == j then or_else (get j d) [] ++ v ∷ [] else or_else (get j d) [])
  unfolding add_to_group
  get-add_to_group k j v d = elim (Bool-cases (k == j)) [
    | inl e ↦ ground (arith, get-put k j (or_else (get k d) [] ++ v ∷ []) d, eq_iff k j)
    | inr e ↦ ground (arith, get-put k j (or_else (get k d) [] ++ v ∷ []) d)
  ]

-- ===== src/Base/Dict.antt =====
-- Python's `dict` with text keys: entries in the order of insertion, each key once.
use Prim.Native.String.{String}
use mathlib.Core.Path.{◌≡◌, refl}
use mathlib.Core.Logic.{inl, inr}
use mathlib.Core.List.{List, [], ◌∷◌, ◌++◌, map, Memᴰ}
use mathlib.Core.Option.{Option, none, some}
use native.Mathlib.Omega.{arith}
use text.Mathlib.Text.{◌==◌}
use text.Mathlib.TextEquality.{eq_iff}
use piggyon.Base.Tests.{if◌then◌else◌, or_else, Bool-cases}

abbrev pub Dict {ℓ} : Type ℓ → Type ℓ
Dict V = List (String × V)

module _ {ℓ} {V : Type ℓ} where
  -- `d.get(k)`
  unfoldable pub get : String → Dict V → Option V
  get k [] = none
  get k ((j, v) ∷ d) = if j == k then some v else get k d

  -- `d[k] = v`: an old key keeps its place
  unfoldable pub put : String → V → Dict V → Dict V
  put k v [] = (k, v) ∷ []
  put k v ((j, w) ∷ d) = if j == k then (j, v) ∷ d else (j, w) ∷ put k v d

  -- `d.pop(k, None)`
  unfoldable pub pop : String → Dict V → Dict V
  pop k [] = []
  pop k ((j, v) ∷ d) = let rest = pop k d in if j == k then rest else (j, v) ∷ rest

  -- `list(d.values())`
  abbrev pub values : Dict V → List V
  values = map (λ e. e.1)

  -- `{key(x): x for x in xs}`: the last of equal keys wins
  unfoldable pub index_by : (V → String) → List V → String → Option V
  index_by key [] k = none
  index_by key (x ∷ xs) k =
      let rest = index_by key xs k in
      elim rest [ some y ↦ some y | none ↦ if key x == k then some x else none ]

-- `d.setdefault(k, []).append(v)`
unfoldable pub add_to_group {ℓ} : {V : Type ℓ} → String → V → Dict (List V) → Dict (List V)
unfolding get put
add_to_group k v d = put k (or_else (get k d) [] ++ v ∷ []) d

module _ {ℓ} {V : Type ℓ} where
  pub get-put :
      (k j : String) (v : V) (d : Dict V) → get j (put k v d) ≡ (if k == j then some v else get j d)
  unfolding get put
  get-put k j v [] = refl
  get-put k j v ((i, w) ∷ d) = ground (arith, eq_iff k j, eq_iff i k, eq_iff i j, get-put k j v d)

  pub get-pop : (k j : String) (d : Dict V) → get j (pop k d) ≡ (if k == j then none else get j d)
  unfolding get pop
  get-pop k j [] = ground arith
  get-pop k j ((i, w) ∷ d) = ground (arith, eq_iff k j, eq_iff i k, eq_iff i j, get-pop k j d)

  pub get→mem : (k : String) (d : Dict V) {v : V} → get k d ≡ some v → Memᴰ (k, v) d
  unfolding get
  get→mem k [] h = cc
  get→mem k ((j, w) ∷ d) h = elim (Bool-cases (j == k)) [
    | inl e ↦ Memᴰ.head (cc ((eq_iff j k).0 e, rw e at h))
    | inr e ↦ Memᴰ.tail (get→mem k d (rw e at h))
  ]

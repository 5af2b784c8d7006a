-- ===== src/Alternatives/Scope.antt =====
-- The derived scenario of app/services/alternatives.py: what changes in it and what does not.
use mathlib.Core.List.Memᴰ
use piggyon.Base.{
  ◌≡◌, ◌≢◌, refl, sym, ap, ◌∙◌, subst, ◌⊎◌, inl, inr, Option, none, some, List, [], ◌∷◌, map,
  String, ◌==◌, eq_iff, Memᴰ, arith, contains, contains→mem, if◌then◌else◌, Bool-cases, IsUnique,
}
use piggyon.Snapshot.{alternative, AdjustmentWindow, Order, ScenarioInputSnapshot}
use piggyon.Snapshot.References.{terminal_ids, service_ids, order_ids, shipper_ids}
use piggyon.Snapshot.Resolved.{IsResolved, OrderResolves, Within}
use piggyon.Snapshot.Accepts.{references_resolve-IsResolved_iff}
use piggyon.Alternatives.Changes.{
  AdjustmentType, Change, change_terminal, add_service, changes, build_change_set,
}
use piggyon.Alternatives.Derive.{
  append_new, redirected, Derivation, applied, apply_all, derivation, derived_of, derive_snapshot,
}
use piggyon.Alternatives.Approved.{IsApproved, build_change_set-IsApproved}

-- The name in the change is declared.
abbrev Declared : ScenarioInputSnapshot → Change → Type 0
Declared s (change_terminal id) = Memᴰ id (terminal_ids s)
Declared s (add_service id) = Memᴰ id (service_ids s)

-- Between the original scenario and a derivation of it by the changes `cs`.
record IsDerivation (s : ScenarioInputSnapshot) (order_id : String) (cs : List Change)
    (d : Derivation) : Type 0 where
  same_ids : map (λ (o : Order). o.order_id) d.orders ≡ order_ids s
  resolves :
      (o : Order)
      → Memᴰ o d.orders
      → OrderResolves (shipper_ids s) (terminal_ids s) (service_ids s) o
  others : (o : Order) → Memᴰ o d.orders → o.order_id ≢ order_id → Memᴰ o s.orders
  same_scope : d.permitted ≡ d.order_services
  keeps : Within s.baseline_service_ids d.order_services
  widened :
      (id : String)
      → Memᴰ id d.order_services
      → Memᴰ id s.baseline_service_ids ⊎ Memᴰ (add_service id) cs

module _ (order_id id : String) where
  order_id-redirected : (o : Order) → (redirected order_id id o).order_id ≡ o.order_id
  order_id-redirected o = ground arith

  ids-redirected :
      (os : List Order)
      → map (λ (o : Order). o.order_id) (map (redirected order_id id) os)
        ≡ map (λ (o : Order). o.order_id) os
  ids-redirected [] = refl
  ids-redirected (o ∷ os) = ap₂' (order_id-redirected o) (ids-redirected os)
    where
      ap₂' : {x y : String} {xs ys : List String} → x ≡ y → xs ≡ ys → x ∷ xs ≡ y ∷ ys
      ap₂' p q = cc (p, q)

  redirected-other :
      (o : Order) → (redirected order_id id o).order_id ≢ order_id → redirected order_id id o ≡ o
  redirected-other o n = elim (Bool-cases (o.order_id == order_id)) [
    | inl e ↦ absurd (n (order_id-redirected o ∙ (eq_iff o.order_id order_id).0 e))
    | inr e ↦ rw e refl
  ]

  redirected-resolves :
      (shippers terminals services : List String) (o : Order)
      → Memᴰ id terminals
      → OrderResolves shippers terminals services o
      → OrderResolves shippers terminals services (redirected order_id id o)
  redirected-resolves shippers terminals services o known r =
      elim (Bool-cases (o.order_id == order_id)) [
        | inr e ↦ rw e r
        | inl e ↦ rw e (record {
          shipper = r.shipper;
          origins = r.origins;
          destinations = λ x m. Memᴰ.cast (Memᴰ.eq_of_singleton m) known;
          window_services = r.window_services;
          window_terminals = r.window_terminals;
        })
      ]

mem-append_new :
    (id x : String) (xs : List String) → Memᴰ x (append_new id xs) → (x ≡ id) ⊎ Memᴰ x xs
mem-append_new id x xs m = elim (Bool-cases (contains id xs)) [
  | inl e ↦ inr (rw e at m)
  | inr e ↦ elim (Memᴰ.append_cases xs (rw e at m)) [
    | inl old ↦ inr old
    | inr new ↦ inl (Memᴰ.eq_of_singleton new)
  ]
]

append_new-keeps : (id x : String) (xs : List String) → Memᴰ x xs → Memᴰ x (append_new id xs)
append_new-keeps id x xs m = elim (Bool-cases (contains id xs)) [
  | inl e ↦ rw e m
  | inr e ↦ rw e (Memᴰ.append_left (id ∷ []) m)
]

mem-append_new_self : (id : String) (xs : List String) → Memᴰ id (append_new id xs)
mem-append_new_self id xs = elim (Bool-cases (contains id xs)) [
  | inl e ↦ rw e (contains→mem id xs e)
  | inr e ↦ rw e (Memᴰ.append_right xs (Memᴰ.head refl))
]

module _ (s : ScenarioInputSnapshot) (order_id : String) (cs : List Change) where
  applied-IsDerivation :
      (c : Change) (d : Derivation)
      → Memᴰ c cs
      → Declared s c
      → IsDerivation s order_id cs d
      → IsDerivation s order_id cs (applied order_id c d)
  applied-IsDerivation (add_service id) d listed known h = record {
    same_ids = h.same_ids;
    resolves = h.resolves;
    others = h.others;
    same_scope = ap (append_new id) h.same_scope;
    keeps = λ x m. append_new-keeps id x d.order_services (h.keeps x m);
    widened = λ x m. elim (mem-append_new id x d.order_services m) [
      | inl same ↦ inr (rw same listed)
      | inr old ↦ h.widened x old
    ];
  }
  applied-IsDerivation (change_terminal id) d listed known h = record {
    same_ids = ids-redirected order_id id d.orders ∙ h.same_ids;
    resolves = λ o m.
        let (p, mp, e) = Memᴰ.of_map (redirected order_id id) d.orders m in
        rw (← e) (
          redirected-resolves order_id id (shipper_ids s) (terminal_ids s) (service_ids s) p known
            (h.resolves p mp));
    others = λ o m n.
        let (p, mp, e) = Memᴰ.of_map (redirected order_id id) d.orders m in
        let same : redirected order_id id p ≡ p = redirected-other order_id id p (rw (← e) at n) in
        rw (← e) (rw same (h.others p mp (rw (← e, same) at n)));
    same_scope = h.same_scope;
    keeps = h.keeps;
    widened = h.widened;
  }

  apply_all-IsDerivation :
      (rest : List Change) (d : Derivation)
      → ((c : Change) → Memᴰ c rest → Memᴰ c cs × Declared s c)
      → IsDerivation s order_id cs d
      → IsDerivation s order_id cs (apply_all order_id rest d)
  unfolding apply_all
  apply_all-IsDerivation [] d known h = h
  apply_all-IsDerivation (c ∷ rest) d known h =
      let (listed, declared) = known c (Memᴰ.head refl) in
      apply_all-IsDerivation rest (applied order_id c d) (λ x m. known x (Memᴰ.tail m))
        (applied-IsDerivation c d listed declared h)

-- The terminal that the changes send the order to: the last of them, if any.
abbrev pub destination_of : Option String → List Change → Option String
destination_of found [] = found
destination_of found (change_terminal id ∷ cs) = destination_of (some id) cs
destination_of found (add_service id ∷ cs) = destination_of found cs

-- The named order with that terminal as its only destination.
abbrev pub sent : String → Option String → Order → Order
sent order_id none o = o
sent order_id (some id) o =
    if o.order_id == order_id then record o { destination_terminal_ids = id ∷ [] } else o

module _ (order_id : String) where
  redirected-sent :
      (found : Option String) (id : String) (o : Order)
      → redirected order_id id (sent order_id found o) ≡ sent order_id (some id) o
  redirected-sent none id o = refl
  redirected-sent (some old) id o = elim (Bool-cases (o.order_id == order_id)) [
    | inl own ↦ rw (own, own) refl
    | inr other ↦ rw (other, other) refl
  ]

  map-redirected :
      (found : Option String) (id : String) (os : List Order)
      → map (redirected order_id id) (map (sent order_id found) os)
        ≡ map (sent order_id (some id)) os
  map-redirected found id [] = refl
  map-redirected found id (o ∷ os) =
      ap (λ x. x ∷ map (redirected order_id id) (map (sent order_id found) os))
        (redirected-sent found id o)
      ∙ ap (λ xs. sent order_id (some id) o ∷ xs) (map-redirected found id os)

  apply_all-orders :
      (os : List Order) (found : Option String) (rest : List Change) (d : Derivation)
      → d.orders ≡ map (sent order_id found) os
      → (apply_all order_id rest d).orders ≡ map (sent order_id (destination_of found rest)) os
  unfolding apply_all
  apply_all-orders os found [] d e = e
  apply_all-orders os found (add_service id ∷ rest) d e =
      apply_all-orders os found rest (applied order_id (add_service id) d) e
  apply_all-orders os found (change_terminal id ∷ rest) d e =
      apply_all-orders os (some id) rest (applied order_id (change_terminal id) d)
        (ap (map (redirected order_id id)) e ∙ map-redirected found id os)

  apply_all-keeps :
      (rest : List Change) (d : Derivation) (x : String)
      → Memᴰ x d.order_services
      → Memᴰ x (apply_all order_id rest d).order_services
  unfolding apply_all
  apply_all-keeps [] d x m = m
  apply_all-keeps (change_terminal id ∷ rest) d x m =
      apply_all-keeps rest (applied order_id (change_terminal id) d) x m
  apply_all-keeps (add_service id ∷ rest) d x m =
      apply_all-keeps rest (applied order_id (add_service id) d) x
        (append_new-keeps id x d.order_services m)

  apply_all-adds :
      (rest : List Change) (d : Derivation) (id : String)
      → Memᴰ (add_service id) rest
      → Memᴰ id (apply_all order_id rest d).order_services
  unfolding apply_all
  apply_all-adds [] d id m = elim m [ ]
  apply_all-adds (c ∷ rest) d id (Memᴰ.tail m) = apply_all-adds rest (applied order_id c d) id m
  apply_all-adds (c ∷ rest) d id (Memᴰ.head e) = apply_all-keeps rest (applied order_id c d) id (
      subst (λ x. Memᴰ id (applied order_id x d).order_services) e
        (mem-append_new_self id d.order_services))

derived_of-IsResolved :
    (s : ScenarioInputSnapshot) (scenario_id order_id : String) (cs : List Change) (d : Derivation)
    → IsResolved s
    → ((c : Change) → Memᴰ c cs → Declared s c)
    → IsDerivation s order_id cs d
    → IsResolved (derived_of s scenario_id d)
derived_of-IsResolved s scenario_id order_id cs d r declared h = record {
  unique_terminals = r.unique_terminals;
  unique_services = r.unique_services;
  unique_wagons = r.unique_wagons;
  unique_slots = r.unique_slots;
  unique_orders = subst IsUnique (sym h.same_ids) r.unique_orders;
  unique_shippers = r.unique_shippers;
  unique_routes = r.unique_routes;
  baseline_services = λ x m. elim (h.widened x (rw h.same_scope at m)) [
    | inl old ↦ r.baseline_services x old
    | inr new ↦ declared (add_service x) new
  ];
  services = r.services;
  wagons = r.wagons;
  slots = r.slots;
  orders = h.resolves;
}

map-id : (os : List Order) → map (λ o. o) os ≡ os
map-id [] = refl
map-id (o ∷ os) = ap (λ xs. o ∷ xs) (map-id os)

-- The relation of a derived scenario, with the services of its order, to the original.
pub record IsDerived (s : ScenarioInputSnapshot) (order_id : String) (cs : List Change)
    (derived : ScenarioInputSnapshot) (order_services : List String) : Type 0 where
  pub resolved : IsResolved derived
  pub same_orders : order_ids derived ≡ order_ids s
  pub other_orders : (o : Order) → Memᴰ o derived.orders → o.order_id ≢ order_id → Memᴰ o s.orders
  pub orders_eq : derived.orders ≡ map (sent order_id (destination_of none cs)) s.orders
  pub added : (id : String) → Memᴰ (add_service id) cs → Memᴰ id order_services
  pub same_rest : derived ≡ (record s {
    scenario_id = derived.scenario_id;
    scenario_type = alternative;
    baseline_service_ids = derived.baseline_service_ids;
    orders = derived.orders;
  })
  pub same_scope : derived.baseline_service_ids ≡ order_services
  pub keeps_baseline : Within s.baseline_service_ids order_services
  pub widened :
      (id : String)
      → Memᴰ id order_services
      → Memᴰ id s.baseline_service_ids ⊎ Memᴰ (add_service id) cs

Declared-of_window :
    (s : ScenarioInputSnapshot) (types : List AdjustmentType) (order : Order)
    (window : AdjustmentWindow) (c : Change)
    → order.adjustment_window ≡ some window
    → OrderResolves (shipper_ids s) (terminal_ids s) (service_ids s) order
    → IsApproved types s.policy window c
    → Declared s c
Declared-of_window s types order window (change_terminal id) w r
      (IsApproved.to_terminal asked listed) =
    r.window_terminals window w id listed
Declared-of_window s types order window (add_service id) w r (IsApproved.on_service asked listed) =
    r.window_services window w id listed

window_known :
    (s : ScenarioInputSnapshot) (order_id : String) (types : List AdjustmentType) (cs : List Change)
    → IsResolved s
    → build_change_set s order_id types ≡ changes cs
    → (c : Change) → Memᴰ c cs
    → Declared s c
window_known s order_id types cs r e c m =
    let (order, window, w, approved) = build_change_set-IsApproved s order_id types cs c e m in
    Declared-of_window s types order window c w.open_window (r.orders order w.listed) approved

-- The approved changes of a resolved scenario always derive a scenario that the model's check
-- accepts. Its orders are the original ones, but that the named order goes to the terminal of the
-- change, if there is one. Its baseline, which is what the named order is offered, is the original
-- baseline with the added services and no other. Nothing else differs.
pub derive_snapshot-IsDerived :
    (s : ScenarioInputSnapshot) (scenario_id order_id : String) (types : List AdjustmentType)
    (cs : List Change)
    → IsResolved s
    → build_change_set s order_id types ≡ changes cs
    → (derived : ScenarioInputSnapshot) × (order_services : List String) × (derive_snapshot s
          scenario_id order_id cs
        ≡ some (derived, order_services))
      × IsDerived s order_id cs derived order_services
unfolding derive_snapshot
derive_snapshot-IsDerived s scenario_id order_id types cs r e =
    let declared = window_known s order_id types cs r e in
    let d : Derivation = derivation s order_id cs in
    let h : IsDerivation s order_id cs (derivation s order_id cs) =
      apply_all-IsDerivation s order_id cs cs _ (λ c m. (m, declared c m))
        (record {
          same_ids = refl;
          resolves = r.orders;
          others = λ o m n. m;
          same_scope = refl;
          keeps = λ x m. m;
          widened = λ x m. inl m;
        }) in
    let resolved =
      derived_of-IsResolved s scenario_id order_id cs (derivation s order_id cs) r declared h in
    (
      derived_of s scenario_id (derivation s order_id cs),
      (derivation s order_id cs).order_services,
      rw
          ((references_resolve-IsResolved_iff
              (derived_of s scenario_id (derivation s order_id cs))).1
            resolved)
          refl,
      record {
        resolved = resolved;
        same_orders = h.same_ids;
        other_orders = h.others;
        orders_eq = apply_all-orders order_id s.orders none cs _ (sym (map-id s.orders));
        added = λ id m. apply_all-adds order_id cs _ id m;
        same_rest = refl;
        same_scope = h.same_scope;
        keeps_baseline = h.keeps;
        widened = h.widened;
      },
    )

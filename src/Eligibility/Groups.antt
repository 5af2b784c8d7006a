-- ===== src/Eligibility/Groups.antt =====
-- The index of app/rules/eligibility.py over a resolved snapshot, how it groups the slots, and what
-- the evaluation raises.
use mathlib.Core.List.Memᴰ
use piggyon.Base.{
  ◌≡◌, refl, sym, ap, ◌∙◌, ◌*◌, ◌≤◌, ◌&&◌, any, is_empty, index_by_sound, Bool-cases, ◌⊎◌, inl, inr,
  Bool, true, false, Option, none, some, List, [], ◌∷◌, ◌++◌, String, ◌==◌, eq_iff, Memᴰ, arith,
  Option-cases, or_else, if◌then◌else◌, index_by-known, get-add_to_group, mem→contains,
}
use piggyon.Base.Dict.{Dict, get, index_by, add_to_group}
use piggyon.Snapshot.{Service, Terminal, Wagon, Slot, ScenarioInputSnapshot}
use piggyon.Snapshot.Resolved.{IsResolved}
use piggyon.Eligibility.Lookup.{Index, group_slots, build_index}
use piggyon.Eligibility.Types.{ScenarioEvaluation}
use piggyon.Base.Lookups.{some_inj, some-ne-none}
use piggyon.Eligibility.Checks.{overflows, validate_input}
use piggyon.Eligibility.{
  ids_or, service_raises, order_raises, any_raises, evaluate_with, evaluate_scenario,
}

abbrev pub Groups : Type 0
Groups = Dict (List (Wagon × Slot))

abbrev pub group_of : String → Groups → List (Wagon × Slot)
group_of id groups = or_else (get id groups) []

-- The pair is of a slot on the list and the wagon found for it, which runs on service `id`.
pub record IsPlaced (wagons : String → Option Wagon) (slots : List Slot) (id : String)
    (p : Wagon × Slot) : Type 0 where
  pub listed : Memᴰ p.1 slots
  pub found : wagons p.1.wagon_id ≡ some p.0
  pub on_service : p.0.service_id ≡ id

module _ (wagons : String → Option Wagon) where
  mem-added :
      (id j : String) (p q : Wagon × Slot) (groups : Groups)
      → Memᴰ p (group_of j (add_to_group id q groups))
      → Memᴰ p (group_of j groups) ⊎ ((p ≡ q) × (id ≡ j))
  mem-added id j p q groups m =
      let m' = rw (get-add_to_group id j q groups) at m in go (id == j) refl m'
    where
      go :
          (b : Bool)
          → (id == j) ≡ b
          → Memᴰ p (if b then group_of j groups ++ q ∷ [] else group_of j groups)
          → Memᴰ p (group_of j groups) ⊎ ((p ≡ q) × (id ≡ j))
      go false e m = inl m
      go true e m = elim (Memᴰ.append_cases (group_of j groups) m) [
        | inl old ↦ inl old
        | inr new ↦ inr (Memᴰ.eq_of_singleton new, (eq_iff id j).0 e)
      ]

  IsPlaced-tail :
      {slot : Slot} {slots : List Slot} {id : String} {p : Wagon × Slot}
      → IsPlaced wagons slots id p
      → IsPlaced wagons (slot ∷ slots) id p
  IsPlaced-tail h = record {
    listed = Memᴰ.tail h.listed;
    found = h.found;
    on_service = h.on_service;
  }

  pub mem-group_slots :
      (slots : List Slot) (groups done : Groups) (id : String) (p : Wagon × Slot)
      → group_slots wagons slots groups ≡ some done
      → Memᴰ p (group_of id done)
      → Memᴰ p (group_of id groups) ⊎ IsPlaced wagons slots id p
  unfolding group_slots
  mem-group_slots [] groups done id p e m = let same : done ≡ groups = cc in inl (rw same at m)
  mem-group_slots (slot ∷ slots) groups done id p e m = elim (Option-cases (wagons slot.wagon_id)) [
    | inl absent ↦ absurd (none≢some (rw (absent, group_slots) at e))
    | inr (wagon, found) ↦
        let e' : group_slots wagons slots (add_to_group wagon.service_id (wagon, slot) groups)
            ≡ some done =
          ground arith in
        elim (mem-group_slots slots (add_to_group wagon.service_id (wagon, slot) groups) done id p
          e' m) [
            | inr later ↦ inr (IsPlaced-tail later)
            | inl added ↦ elim (mem-added wagon.service_id id p (wagon, slot) groups added) [
              | inl old ↦ inl old
              | inr (same, at) ↦
                  inr (rw same (record { listed = Memᴰ.head refl; found = found; on_service = at }))
            ]
          ]
  ]
    where
      none≢some : {A : Type 0} {x : A} → none ≡ some x → ⊥
      none≢some h = cc

-- The fields of an index are the snapshot's own tables.
pub record IsIndexOf (s : ScenarioInputSnapshot) (index : Index) : Type 0 where
  pub terminals : index.terminals ≡ index_by (λ t. t.terminal_id) s.terminals
  pub routes : index.routes ≡ index_by (λ r. r.route_constraint_id) s.route_constraints
  pub services : index.services ≡ index_by (λ v. v.service_id) s.services
  pub placed :
      (id : String) (p : Wagon × Slot)
      → Memᴰ p (group_of id index.slots_by_service)
      → IsPlaced (index_by (λ w. w.wagon_id) s.wagons) s.slots id p

abbrev wagon_table : ScenarioInputSnapshot → String → Option Wagon
wagon_table s = index_by (λ (w : Wagon). w.wagon_id) s.wagons

abbrev index_with : ScenarioInputSnapshot → Groups → Index
index_with s groups = record {
  terminals = index_by (λ t. t.terminal_id) s.terminals;
  routes = index_by (λ r. r.route_constraint_id) s.route_constraints;
  services = index_by (λ v. v.service_id) s.services;
  wagons = wagon_table s;
  slots_by_service = groups;
}

pub build_index-IsIndexOf :
    (s : ScenarioInputSnapshot) (index : Index) → build_index s ≡ some index → IsIndexOf s index
unfolding build_index get
build_index-IsIndexOf s index e = elim (Option-cases (group_slots (wagon_table s) s.slots [])) [
  | inl absent ↦ absurd (none≢some (rw (absent, build_index) at e))
  | inr (groups, built) ↦
      let same : index ≡ index_with s groups = ground arith in
      rw same (record {
        terminals = refl;
        routes = refl;
        services = refl;
        placed = λ id p m. at_end groups built id p m;
      })
]
  where
    none≢some : {A : Type 0} {x : A} → none ≡ some x → ⊥
    none≢some h = cc

    at_end :
        (groups : Groups)
        → group_slots (wagon_table s) s.slots [] ≡ some groups
        → (id : String) (p : Wagon × Slot) → Memᴰ p (group_of id groups)
        → IsPlaced (wagon_table s) s.slots id p
    at_end groups built id p m =
        elim (mem-group_slots (wagon_table s) s.slots [] groups id p built m) [
          | inl impossible ↦ elim impossible [ ]
          | inr h ↦ h
        ]

group_slots_total :
    (wagons : String → Option Wagon) (slots : List Slot) (groups : Groups)
    → ((t : Slot) → Memᴰ t slots → (w : Wagon) × (wagons t.wagon_id ≡ some w))
    → (done : Groups) × (group_slots wagons slots groups ≡ some done)
unfolding group_slots
group_slots_total wagons [] groups known = (groups, refl)
group_slots_total wagons (slot ∷ slots) groups known =
    let (wagon, found) = known slot (Memᴰ.head refl) in
    let (done, built) =
      group_slots_total wagons slots (add_to_group wagon.service_id (wagon, slot) groups)
        (λ t m. known t (Memᴰ.tail m)) in
    (done, rw (found, group_slots) built)

build_index_total :
    (s : ScenarioInputSnapshot) → IsResolved s → (index : Index) × (build_index s ≡ some index)
unfolding build_index
build_index_total s r =
    let known : (t : Slot) → Memᴰ t s.slots → (w : Wagon) × (wagon_table s t.wagon_id ≡ some w) =
      λ t m. index_by-known (λ w. w.wagon_id) s.wagons t.wagon_id (mem→contains (r.slots t m)) in
    let (groups, built) = group_slots_total (wagon_table s) s.slots [] known in
    (index_with s groups, rw (built, build_index) refl)

-- No sum of an arrival and a handling time is past the end of the calendar.
pub record IsInCalendar (s : ScenarioInputSnapshot) : Type 0 where
  pub handled :
      (v : Service)
      → Memᴰ v s.services
      → (t : Terminal) → Memᴰ t s.terminals
      → t.minimum_handling_minutes * 60000000 ≤ v.arrival_left

not-any :
    {A : Type 0} (test : A → Bool) (xs : List A) → ((x : A) → test x ≡ false) → any test xs ≡ false
unfolding any
not-any test [] h = refl
not-any test (x ∷ xs) h = rw (h x) (not-any test xs h)

pub overflows-false :
    (s : ScenarioInputSnapshot) (v : Service) (id : String)
    → IsInCalendar s
    → Memᴰ v s.services
    → overflows v (index_by (λ (t : Terminal). t.terminal_id) s.terminals id) ≡ false
overflows-false s v id c m =
    elim (Option-cases (index_by (λ (t : Terminal). t.terminal_id) s.terminals id)) [
      | inl absent ↦ rw absent (ground arith)
      | inr (t, found) ↦
          let (listed, same) =
            index_by_sound (λ (t : Terminal). t.terminal_id) s.terminals id found in
          let fits = c.handled v m t listed in rw found (ground (arith, fits))
    ]

service_raises-false :
    (s : ScenarioInputSnapshot) (index : Index) (id : String)
    → IsIndexOf s index
    → IsInCalendar s
    → service_raises index id ≡ false
service_raises-false s index id ix c = elim (Option-cases (index.services id)) [
  | inl absent ↦ rw (absent, service_raises) refl
  | inr (v, found) ↦
      let (listed, same) =
        index_by_sound (λ (x : Service). x.service_id) s.services id
          (ap (λ f. f id) (sym ix.services) ∙ found) in
      rw (found, service_raises)
        (ap (λ f. overflows v (f v.destination_terminal_id)) ix.terminals
          ∙ overflows-false s v v.destination_terminal_id c listed)
]

any_raises-false :
    (s : ScenarioInputSnapshot) (ids : Option (List String)) (per_order : Dict (List String))
    (index : Index)
    → IsIndexOf s index
    → IsInCalendar s
    → any_raises s ids per_order index ≡ false
unfolding any_raises order_raises
any_raises-false s ids per_order index ix c = not-any _ s.orders λ order.
    rw
      (not-any (service_raises index)
        (or_else (get order.order_id per_order) (ids_or ids s.baseline_service_ids))
        (λ id. service_raises-false s index id ix c))
      (and-false (is_empty (validate_input order)))
  where
    and-false : (b : Bool) → (b && false) ≡ false
    and-false true = refl
    and-false false = refl

-- A snapshot that the referential check accepts, with no sum past the end of the calendar, is
-- evaluated: neither a lookup of the index nor the arithmetic of dates raises.
pub evaluate_scenario_total :
    (s : ScenarioInputSnapshot) (ids : Option (List String)) (per_order : Dict (List String))
    → IsResolved s
    → IsInCalendar s
    → (e : ScenarioEvaluation) × (evaluate_scenario s ids per_order ≡ some e)
unfolding evaluate_scenario
evaluate_scenario_total s ids per_order r c =
    let (index, built) = build_index_total s r in
    let quiet = any_raises-false s ids per_order index (build_index-IsIndexOf s index built) c in
    (
      evaluate_with s ids per_order index,
      rw (built, evaluate_scenario) (rw (quiet, evaluate_scenario) refl),
    )

-- The evaluation is that of an index of the snapshot.
pub evaluate_scenario-eq-some :
    (s : ScenarioInputSnapshot) (ids : Option (List String)) (per_order : Dict (List String))
    {e : ScenarioEvaluation}
    → evaluate_scenario s ids per_order ≡ some e
    → (index : Index) × IsIndexOf s index × (e ≡ evaluate_with s ids per_order index)
unfolding evaluate_scenario
evaluate_scenario-eq-some s ids per_order {e} h = elim (Option-cases (build_index s)) [
  | inl absent ↦ absurd (some-ne-none {x = e} (sym (rw (absent, evaluate_scenario) at h)))
  | inr (index, built) ↦ elim (Bool-cases (any_raises s ids per_order index)) [
    | inl raises ↦ absurd (some-ne-none {x = e} (sym (rw (built, evaluate_scenario, raises) at h)))
    | inr quiet ↦ (
      index,
      build_index-IsIndexOf s index built,
      sym (some_inj (rw (built, evaluate_scenario, quiet) at h)),
    )
  ]
]

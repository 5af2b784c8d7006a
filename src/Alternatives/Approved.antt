-- ===== src/Alternatives/Approved.antt =====
-- Which changes `build_change_set` of app/services/alternatives.py may propose.
use mathlib.Core.List.Memᴰ
use piggyon.Base.{
  ◌≡◌, refl, ap, ◌⊎◌, inl, inr, Bool, true, false, ◌&&◌, ◌||◌, Option, none, some, List, [], ◌∷◌,
  ◌++◌, String, ◌==◌, eq_iff, Memᴰ, arith, any, sort_by, mem-sort_by, Bool-cases,
}
use piggyon.Snapshot.{
  AllowedAdjustment, add_order_approved_service, change_to_approved_terminal, AdjustmentWindow,
  Order, Policy, ScenarioInputSnapshot,
}
use piggyon.Alternatives.Changes.{
  AdjustmentType, allowed, forbidden, Change, change_terminal, add_service, changes, asks_for,
  same_allowed, requested, first_order, change_le, terminal_changes, service_changes, changes_of,
  changes_for, window_of, build_change_set,
}

-- The caller asked for the adjustment and the policy allows it.
pub record IsRequested (a : AllowedAdjustment) (types : List AdjustmentType) (policy : Policy)
    : Type 0 where
  pub asked : Memᴰ (allowed a) types
  pub in_policy : Memᴰ a policy.allowed_adjustments

-- A change of a requested kind, to a name that the order's window approves.
pub data IsApproved (types : List AdjustmentType) (policy : Policy) (window : AdjustmentWindow)
    : Change → Type 0 where
  to_terminal :
      {id : String}
      → IsRequested change_to_approved_terminal types policy
      → Memᴰ id window.alternative_destination_terminal_ids
      → IsApproved types policy window (change_terminal id)
  on_service :
      {id : String}
      → IsRequested add_order_approved_service types policy
      → Memᴰ id window.alternative_service_ids
      → IsApproved types policy window (add_service id)

same_allowed-eq : (a b : AllowedAdjustment) → same_allowed a b ≡ true → a ≡ b
same_allowed-eq add_order_approved_service add_order_approved_service h = refl
same_allowed-eq add_order_approved_service change_to_approved_terminal h = cc
same_allowed-eq change_to_approved_terminal add_order_approved_service h = cc
same_allowed-eq change_to_approved_terminal change_to_approved_terminal h = refl

or-true : (a b : Bool) → (a || b) ≡ true → (a ≡ true) ⊎ (b ≡ true)
or-true true b h = inl refl
or-true false b h = inr h

and-true : (a b : Bool) → (a && b) ≡ true → (a ≡ true) × (b ≡ true)
and-true true b h = (refl, h)
and-true false b h = cc

mem_of_any :
    (a : AllowedAdjustment) (xs : List AllowedAdjustment)
    → any (same_allowed a) xs ≡ true
    → Memᴰ a xs
unfolding any
mem_of_any a [] h = cc
mem_of_any a (x ∷ xs) h = elim (or-true (same_allowed a x) _ h) [
  | inl e ↦ Memᴰ.head (same_allowed-eq a x e)
  | inr later ↦ Memᴰ.tail (mem_of_any a xs later)
]

mem_of_asks_for :
    (a : AllowedAdjustment) (types : List AdjustmentType)
    → asks_for a types ≡ true
    → Memᴰ (allowed a) types
unfolding asks_for
mem_of_asks_for a [] h = cc
mem_of_asks_for a (allowed b ∷ types) h = elim (or-true (same_allowed a b) _ h) [
  | inl e ↦ Memᴰ.head (ap allowed (same_allowed-eq a b e))
  | inr later ↦ Memᴰ.tail (mem_of_asks_for a types later)
]
mem_of_asks_for a (forbidden f ∷ types) h = Memᴰ.tail (mem_of_asks_for a types h)

IsRequested-of :
    (a : AllowedAdjustment) (types : List AdjustmentType) (policy : Policy)
    → requested a types policy ≡ true
    → IsRequested a types policy
unfolding requested
IsRequested-of a types policy h =
    let (asked, listed) = and-true (asks_for a types) _ h in
    record {
      asked = mem_of_asks_for a types asked;
      in_policy = mem_of_any a policy.allowed_adjustments listed;
    }

pub first_order-eq-some :
    (id : String) (os : List Order) {o : Order}
    → first_order id os ≡ some o
    → Memᴰ o os × (o.order_id ≡ id)
unfolding first_order
first_order-eq-some id [] h = cc
first_order-eq-some id (x ∷ os) {o} h = elim (Bool-cases (x.order_id == id)) [
  | inl e ↦
      let same : o ≡ x = ground arith in (Memᴰ.head same, rw same ((eq_iff x.order_id id).0 e))
  | inr e ↦
      let later : first_order id os ≡ some o = ground arith in
      let (m, p) = first_order-eq-some id os later in (Memᴰ.tail m, p)
]

module _ (types : List AdjustmentType) (policy : Policy) (window : AdjustmentWindow) where
  terminal-IsApproved :
      (b : Bool) {c : Change}
      → requested change_to_approved_terminal types policy ≡ b
      → Memᴰ c (terminal_changes b window)
      → IsApproved types policy window c
  terminal-IsApproved false r m = elim m [ ]
  terminal-IsApproved true r m =
      let (id, mi, e) = Memᴰ.of_map change_terminal window.alternative_destination_terminal_ids m in
      rw (← e)
        (IsApproved.to_terminal (IsRequested-of change_to_approved_terminal types policy r) mi)

  service-IsApproved :
      (b : Bool) {c : Change}
      → requested add_order_approved_service types policy ≡ b
      → Memᴰ c (service_changes b window)
      → IsApproved types policy window c
  service-IsApproved false r m = elim m [ ]
  service-IsApproved true r m =
      let (id, mi, e) = Memᴰ.of_map add_service window.alternative_service_ids m in
      rw (← e) (IsApproved.on_service (IsRequested-of add_order_approved_service types policy r) mi)

  changes_of-IsApproved :
      (order_id : String) (cs : List Change) {c : Change}
      → changes_of order_id
          (requested change_to_approved_terminal types policy)
          (requested add_order_approved_service types policy)
          window
        ≡ changes cs
      → Memᴰ c cs
      → IsApproved types policy window c
  unfolding changes_of
  changes_of-IsApproved order_id cs {c} e m =
      let terminal : Bool = requested change_to_approved_terminal types policy in
      let service : Bool = requested add_order_approved_service types policy in
      let sorted : cs
          ≡ sort_by change_le (terminal_changes terminal window ++ service_changes service window) =
        ground arith in
      elim (Memᴰ.append_cases (terminal_changes terminal window)
        (mem-sort_by change_le _ (rw sorted at m))) [
          | inl mt ↦ terminal-IsApproved terminal refl mt
          | inr ms ↦ service-IsApproved service refl ms
        ]

-- The order that a change is for, and its window.
pub record IsWindowOf (s : ScenarioInputSnapshot) (order_id : String) (order : Order)
    (window : AdjustmentWindow) : Type 0 where
  pub listed : Memᴰ order s.orders
  pub same_order : order.order_id ≡ order_id
  pub open_window : order.adjustment_window ≡ some window

changes_for-IsApproved :
    (types : List AdjustmentType) (policy : Policy) (order_id : String)
    (found : Option AdjustmentWindow) (cs : List Change) {c : Change}
    → changes_for order_id types policy found ≡ changes cs
    → Memᴰ c cs
    → (window : AdjustmentWindow) × (found ≡ some window) × IsApproved types policy window c
changes_for-IsApproved types policy order_id none cs e m =
    let same : cs ≡ [] = cc in absurd (Memᴰ.not-nil (rw same at m))
changes_for-IsApproved types policy order_id (some window) cs e m =
    (window, refl, changes_of-IsApproved types policy window order_id cs e m)

window_of-some :
    (s : ScenarioInputSnapshot) (order_id : String) (found : Option Order)
    {window : AdjustmentWindow}
    → first_order order_id s.orders ≡ found
    → window_of found ≡ some window
    → (order : Order) × IsWindowOf s order_id order window
window_of-some s order_id none e w = cc
window_of-some s order_id (some order) e w =
    let (m, p) = first_order-eq-some order_id s.orders e in
    (order, record { listed = m; same_order = p; open_window = w })

-- Every change that is proposed is of a kind that the caller asked for and the policy allows, and
-- its name is one that the window of the named order approves.
pub build_change_set-IsApproved :
    (s : ScenarioInputSnapshot) (order_id : String) (types : List AdjustmentType) (cs : List Change)
    (c : Change)
    → build_change_set s order_id types ≡ changes cs
    → Memᴰ c cs
    → (order : Order) × (window : AdjustmentWindow) × IsWindowOf s order_id order window
      × IsApproved types s.policy window c
unfolding build_change_set
build_change_set-IsApproved s order_id types cs c e m =
    let chosen : changes_for order_id types s.policy (window_of (first_order order_id s.orders))
        ≡ changes cs =
      ground arith in
    let (window, found, approved) = changes_for-IsApproved types s.policy order_id _ cs chosen m in
    let (order, of_order) = window_of-some s order_id (first_order order_id s.orders) refl found in
    (order, window, of_order, approved)

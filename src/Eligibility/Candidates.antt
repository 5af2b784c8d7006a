-- ===== src/Eligibility/Candidates.antt =====
-- Which candidates `_evaluate_order` of app/rules/eligibility.py hands out.
use mathlib.Core.List.Memᴰ
use mathlib.Core.List.{append_assoc, append-nil}
use piggyon.Base.{
  ◌≡◌, refl, sym, ◌∙◌, ap, inl, inr, ◌↔◌, Bool, true, false, Option, none, some, List, [], ◌∷◌,
  ◌++◌, String, Memᴰ, arith, Option-cases, is_empty, is_empty-nil, when, flat_map, mem-flat_map,
  mem-flat_map_of_mem, or_else, sort_by, mem-sort_by, mem-sort_by_of_mem,
}
use piggyon.Base.Dict.{get}
use piggyon.ReasonCodes.{Code}
use piggyon.Snapshot.{Service, Wagon, Slot, Order}
use piggyon.Eligibility.{
  Scan, start, pair_le, slot_candidate, scan_slots, scan_checked, scan_service, scan_services,
  conclude, evaluate_order,
}
use piggyon.Eligibility.Types.{Candidate}
use piggyon.Eligibility.Lookup.{Index}
use piggyon.Eligibility.Checks.{validate_input, check_service, check_slot}

-- The slots of a service, as the index groups them.
abbrev pub slots_of : Index → String → List (Wagon × Slot)
slots_of index id = or_else (get id index.slots_by_service) []

-- `c` places `order` on a slot that no hard constraint excludes.
pub record Fits (order : Order) (index : Index) (service_ids : List String) (c : Candidate)
    : Type 0 where
  pub valid_input : validate_input order ≡ []
  pub same_order : c.order_id ≡ order.order_id
  pub offered : Memᴰ c.service_id service_ids
  pub service : Service
  pub known_service : index.services c.service_id ≡ some service
  pub service_passes : check_service order service index ≡ []
  pub wagon : Wagon
  pub slot : Slot
  pub on_service : Memᴰ (wagon, slot) (slots_of index c.service_id)
  pub slot_passes : check_slot order wagon slot ≡ []
  pub same_wagon : c.wagon_id ≡ wagon.wagon_id
  pub same_slot : c.slot_id ≡ slot.slot_id

module _ (order : Order) (index : Index) where
  abbrev slots_if_passed : String → List Code → List Candidate
  slots_if_passed id [] = flat_map (slot_candidate order id) (sort_by pair_le (slots_of index id))
  slots_if_passed id (code ∷ codes) = []

  -- what one service contributes
  abbrev contributed : String → Option Service → List Candidate
  contributed id none = []
  contributed id (some service) = slots_if_passed id (check_service order service index)

  abbrev service_candidates : String → List Candidate
  service_candidates id = contributed id (index.services id)

  candidates-scan_checked :
      (id : String) (codes : List Code) (s : Scan)
      → (scan_checked order index id codes s).candidates ≡ s.candidates ++ slots_if_passed id codes
  unfolding scan_checked scan_slots
  candidates-scan_checked id [] s = refl
  candidates-scan_checked id (code ∷ codes) s = sym (append-nil s.candidates)

  candidates-scan_service :
      (id : String) (s : Scan)
      → (scan_service order index id s).candidates ≡ s.candidates ++ service_candidates id
  unfolding scan_service
  candidates-scan_service id s = elim (Option-cases (index.services id)) [
    | inl e ↦ rw (e, scan_service) (sym (append-nil s.candidates))
    | inr (service, e) ↦
        rw (e, scan_service) (candidates-scan_checked id (check_service order service index) s)
  ]

  candidates-scan_services :
      (ids : List String) (s : Scan)
      → (scan_services order index ids s).candidates
        ≡ s.candidates ++ flat_map service_candidates ids
  unfolding scan_services flat_map
  candidates-scan_services [] s = sym (append-nil s.candidates)
  candidates-scan_services (id ∷ ids) s =
      candidates-scan_services ids (scan_service order index id s)
      ∙ ap (λ l. l ++ flat_map service_candidates ids) (candidates-scan_service id s)
      ∙ append_assoc s.candidates (service_candidates id) (flat_map service_candidates ids)

  candidates-conclude : (s : Scan) → (conclude order s).candidates ≡ s.candidates
  unfolding conclude
  candidates-conclude s = go s.candidates refl
    where
      go : (cs : List Candidate) → s.candidates ≡ cs → (conclude order s).candidates ≡ s.candidates
      go [] e = rw e refl
      go (c ∷ cs) e = rw e refl

  candidates-evaluate_order :
      (ids : List String)
      → validate_input order ≡ []
      → (evaluate_order order index ids).candidates ≡ flat_map service_candidates ids
  unfolding evaluate_order
  candidates-evaluate_order ids ok = rw ok (
      candidates-conclude (scan_services order index ids start)
      ∙ candidates-scan_services ids start)

  no-candidates :
      (ids : List String)
      → is_empty (validate_input order) ≡ false
      → (evaluate_order order index ids).candidates ≡ []
  unfolding evaluate_order
  no-candidates ids bad = rw bad refl

mem-when : {c d : Candidate} (b : Bool) → Memᴰ c (when b d) → (b ≡ true) × (c ≡ d)
mem-when true m = (refl, Memᴰ.eq_of_singleton m)
mem-when false m = elim m [ ]

abbrev placed : Order → String → Wagon → Slot → Candidate
placed order id wagon slot = record {
  order_id = order.order_id;
  service_id = id;
  wagon_id = wagon.wagon_id;
  slot_id = slot.slot_id;
}

mem-slot_candidate :
    (order : Order) (id : String) (wagon : Wagon) (slot : Slot) {c : Candidate}
    → Memᴰ c (slot_candidate order id (wagon, slot))
    → (check_slot order wagon slot ≡ []) × (c ≡ placed order id wagon slot)
unfolding slot_candidate
mem-slot_candidate order id wagon slot m =
    let (passes, e) = mem-when (is_empty (check_slot order wagon slot)) m in
    (is_empty-nil (check_slot order wagon slot) passes, e)

mem-slot_candidate_of :
    (order : Order) (wagon : Wagon) (slot : Slot) {c : Candidate}
    → check_slot order wagon slot ≡ []
    → c.order_id ≡ order.order_id
    → c.wagon_id ≡ wagon.wagon_id
    → c.slot_id ≡ slot.slot_id
    → Memᴰ c (slot_candidate order c.service_id (wagon, slot))
unfolding slot_candidate
mem-slot_candidate_of order wagon slot passes same_order same_wagon same_slot =
    rw passes (Memᴰ.head (ground arith))

module _ (order : Order) (index : Index) (ids : List String) {c : Candidate}
    (ok : validate_input order ≡ []) where
  Fits-slots :
      (id : String) (service : Service) (codes : List Code)
      → Memᴰ id ids
      → index.services id ≡ some service
      → check_service order service index ≡ codes
      → Memᴰ c (slots_if_passed order index id codes)
      → Fits order index ids c
  Fits-slots id service (code ∷ codes) listed known passes m = elim m [ ]
  Fits-slots id service [] listed known passes m =
      let (pair, mp, mc) =
        mem-flat_map (slot_candidate order id) (sort_by pair_le (slots_of index id)) m in
      let (free, e) = mem-slot_candidate order id pair.0 pair.1 mc in
      rw e (record {
        valid_input = ok;
        same_order = refl;
        offered = listed;
        service = service;
        known_service = known;
        service_passes = passes;
        wagon = pair.0;
        slot = pair.1;
        on_service = mem-sort_by pair_le (slots_of index id) mp;
        slot_passes = free;
        same_wagon = refl;
        same_slot = refl;
      })

  Fits-service :
      (id : String) (found : Option Service)
      → Memᴰ id ids
      → index.services id ≡ found
      → Memᴰ c (contributed order index id found)
      → Fits order index ids c
  Fits-service id none listed e m = elim m [ ]
  Fits-service id (some service) listed e m =
      Fits-slots id service (check_service order service index) listed e refl m

  Fits-all : Memᴰ c (flat_map (service_candidates order index) ids) → Fits order index ids c
  Fits-all m =
      let (id, listed, mc) = mem-flat_map (service_candidates order index) ids m in
      Fits-service id (index.services id) listed refl mc

  mem_of_Fits : Fits order index ids c → Memᴰ c (flat_map (service_candidates order index) ids)
  mem_of_Fits f = mem-flat_map_of_mem (service_candidates order index) f.offered (
      rw (f.known_service, f.service_passes)
        (mem-flat_map_of_mem (slot_candidate order c.service_id)
          (mem-sort_by_of_mem pair_le (slots_of index c.service_id) f.on_service)
          (mem-slot_candidate_of order f.wagon f.slot f.slot_passes f.same_order f.same_wagon
            f.same_slot)))

-- A slot is a candidate of an order exactly when the order's input is valid, the slot belongs to a
-- known service on the list that no service-level constraint excludes, and no slot-level constraint
-- excludes the slot.
pub candidates-Fits_iff :
    (order : Order) (index : Index) (ids : List String) (c : Candidate)
    → Memᴰ c (evaluate_order order index ids).candidates ↔ Fits order index ids c
candidates-Fits_iff order index ids c = (
  λ m. go (validate_input order) refl m,
  λ f.
      rw (candidates-evaluate_order order index ids f.valid_input)
        (mem_of_Fits order index ids f.valid_input f),
)
  where
    go :
        (codes : List Code)
        → validate_input order ≡ codes
        → Memᴰ c (evaluate_order order index ids).candidates
        → Fits order index ids c
    go [] ok m =
        Fits-all order index ids ok (rw (candidates-evaluate_order order index ids ok) at m)
    go (code ∷ codes) bad m =
        absurd (Memᴰ.not-nil (rw (no-candidates order index ids (rw bad refl)) at m))

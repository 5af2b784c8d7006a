-- ===== src/Eligibility/Verdicts.antt =====
-- The states that `_evaluate_order` of app/rules/eligibility.py can report together.
use piggyon.Base.{◌≡◌, ◌≢◌, refl, List, [], ◌∷◌, String, arith}
use piggyon.ReasonCodes.{Code, sorted_codes, insert_code, no_eligible_slot}
use piggyon.Snapshot.{Order}
use piggyon.Eligibility.{Scan, start, scan_services, conclude, evaluate_order}
use piggyon.Eligibility.Types.{
  Candidate, valid, review_required, not_evaluated, eligible, ineligible, OrderEvaluation,
}
use piggyon.Eligibility.Lookup.{Index}
use piggyon.Eligibility.Checks.{validate_input}

-- The three verdicts: held for review, eligible with candidates, ineligible with reasons.
pub data IsVerdict (e : OrderEvaluation) : Type 0 where
  reviewed :
      e.input_state ≡ review_required
      → e.eligibility_state ≡ not_evaluated
      → e.candidates ≡ []
      → e.reason_codes ≢ []
      → IsVerdict e
  accepted :
      e.input_state ≡ valid
      → e.eligibility_state ≡ eligible
      → e.candidates ≢ []
      → e.reason_codes ≡ []
      → IsVerdict e
  refused :
      e.input_state ≡ valid
      → e.eligibility_state ≡ ineligible
      → e.candidates ≡ []
      → e.reason_codes ≢ []
      → IsVerdict e

insert_code-ne-nil : (c : Code) (codes : List Code) → insert_code c codes ≢ []
unfolding insert_code
insert_code-ne-nil c [] = λ e. cc
insert_code-ne-nil c (d ∷ codes) = λ e. ground arith

sorted_codes-ne-nil : (c : Code) (codes : List Code) → sorted_codes (c ∷ codes) ≢ []
unfolding sorted_codes
sorted_codes-ne-nil c codes = insert_code-ne-nil c (sorted_codes codes)

conclude-IsVerdict : (order : Order) (s : Scan) → IsVerdict (conclude order s)
unfolding conclude
conclude-IsVerdict order s = go s.candidates s.violations refl refl
  where
    go :
        (cs : List Candidate) (codes : List Code)
        → s.candidates ≡ cs
        → s.violations ≡ codes
        → IsVerdict (conclude order s)
    go (c ∷ cs) codes e f = rw e (IsVerdict.accepted refl refl (λ h. cc) refl)
    go [] [] e f =
        rw (e, f) (IsVerdict.refused refl refl refl (sorted_codes-ne-nil no_eligible_slot []))
    go [] (code ∷ codes) e f =
        rw (e, f) (IsVerdict.refused refl refl refl (sorted_codes-ne-nil code codes))

order_id-conclude : (order : Order) (s : Scan) → (conclude order s).order_id ≡ order.order_id
unfolding conclude
order_id-conclude order s = ground arith

pub order_id-evaluate_order :
    (order : Order) (index : Index) (ids : List String)
    → (evaluate_order order index ids).order_id ≡ order.order_id
unfolding evaluate_order
order_id-evaluate_order order index ids =
    ground (arith, order_id-conclude order (scan_services order index ids start))

-- Every evaluation is one of the three verdicts: an order under review has no candidates and says
-- why, an eligible one has candidates and no reasons, an ineligible one has reasons and no candidates.
pub evaluate_order-IsVerdict :
    (order : Order) (index : Index) (ids : List String) → IsVerdict (evaluate_order order index ids)
unfolding evaluate_order
evaluate_order-IsVerdict order index ids = go (validate_input order) refl
  where
    go :
        (codes : List Code)
        → validate_input order ≡ codes
        → IsVerdict (evaluate_order order index ids)
    go [] e = rw e (conclude-IsVerdict order (scan_services order index ids start))
    go (code ∷ codes) e = rw e (IsVerdict.reviewed refl refl refl (sorted_codes-ne-nil code codes))

-- ===== src/Baseline/Magnitude.antt =====
-- How large the objectives of app/solver/baseline.py can get: no more than their coefficients
-- together.
use piggyon.Base.{
  ℕ, zero, suc, ◌+◌, ◌*◌, ◌≤◌, ◌≡◌, inl, inr, arith, Bool, true, false, leb, Bool-cases,
}
use piggyon.Base.Int.{ℤ, pos, pos_part, neg_part, sub_ℕ, ◌+ℤ◌, ◌-ℤ◌, ◌*ℤ◌}
use piggyon.Baseline.Cp.{
  Expr, lit, term, plus, minus, times, Valuation, bit, eval, magnitude, IsExact,
}

-- the coefficients, added up
abbrev pub size : Expr → ℕ
size (lit n) = magnitude n
size (term x n) = magnitude n
size (plus a b) = size a + size b
size (minus a b) = size a + size b
size (times n a) = magnitude n * size a

magnitude-sub_ℕ : (a b : ℕ) → magnitude (sub_ℕ a b) ≤ a + b
magnitude-sub_ℕ a b = elim (Bool-cases (leb b a)) [
  | inl e ↦ rw e (omega arith)
  | inr e ↦ rw e (ground (arith, e))
]

magnitude-times : (a b : ℤ) → magnitude (a *ℤ b) ≤ magnitude a * magnitude b
unfolding ◌*ℤ◌
magnitude-times a b = omega (
  arith,
  magnitude-sub_ℕ (pos_part a * pos_part b + neg_part a * neg_part b)
      (pos_part a * neg_part b + neg_part a * pos_part b),
)

bit-le-one : (b : Bool) (n : ℕ) → bit b * n ≤ n
bit-le-one true n = omega arith
bit-le-one false n = omega arith

mul_le : (k : ℕ) {a b : ℕ} → a ≤ b → k * a ≤ k * b
mul_le zero h = omega arith
mul_le (suc k) h = omega (arith, h, mul_le k h)

magnitude-eval : (v : Valuation) (e : Expr) → magnitude (eval v e) ≤ size e
unfolding eval ◌+ℤ◌ ◌-ℤ◌
magnitude-eval v (lit n) = omega arith
magnitude-eval v (term x n) =
    omega (arith, magnitude-times (pos (bit (v x))) n, bit-le-one (v x) (magnitude n))
magnitude-eval v (plus a b) = omega (
  arith,
  magnitude-sub_ℕ (pos_part (eval v a) + pos_part (eval v b))
      (neg_part (eval v a) + neg_part (eval v b)),
  magnitude-eval v a,
  magnitude-eval v b,
)
magnitude-eval v (minus a b) = omega (
  arith,
  magnitude-sub_ℕ (pos_part (eval v a) + neg_part (eval v b))
      (neg_part (eval v a) + pos_part (eval v b)),
  magnitude-eval v a,
  magnitude-eval v b,
)
magnitude-eval v (times n a) =
    omega (arith, magnitude-times n (eval v a), mul_le (magnitude n) (magnitude-eval v a))

le_trans : {a b : ℕ} → a ≤ b → leb b 9007199254740992 ≡ true → a ≤ 9007199254740992
le_trans h k = ground (arith, h, k)

-- An objective whose coefficients together are small enough has no value that a double rounds.
pub size-IsExact :
    (v : Valuation) (e : Expr) → leb (size e) 9007199254740992 ≡ true → IsExact (eval v e)
size-IsExact v e h = le_trans (magnitude-eval v e) h

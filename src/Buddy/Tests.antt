-- ===== src/Buddy/Tests.antt =====
-- The order of a size at concrete inputs.
use liballo.Base.{
  ℕ, zero, suc, ◌+◌, ◌-◌, ◌^◌, ◌≤◌, ◌<◌, ◌≡◌, refl, ◌≢◌, inl, inr, arith, ◌==◌, ==_iff,
  if◌then◌else◌, Bool-cases,
}
use native.Mathlib.Decide.{dec_lt}
use liballo.Buddy.{narrow, last_bit, get_order_portable, get_order}
use liballo.Buddy.Order.{IsOrder, CountsLeadingZeros, get_order_portable_lem, get_order-portable}

orders :
    (get_order_portable 1 ≡ 0)
    × (get_order_portable 32 ≡ 5)
    × (get_order_portable 33 ≡ 6)
    × (get_order_portable (2 ^ 64 - 1) ≡ 64)
unfolding get_order_portable narrow last_bit
orders = (refl, refl, refl, refl)

-- A count of leading zeros, by way of the order.
leading_zeros : ℕ → ℕ
leading_zeros x = if x == 2 ^ 64 - 1 then 0 else 64 - get_order_portable (x + 1)

bounds_of_order :
    (x k : ℕ)
    → 0 < x
    → IsOrder (x + 1) k
    → x + 1 ≤ 2 ^ 64
    → (0 < k) × (k ≤ 64) × (2 ^ (k - 1) ≤ x) × (x < 2 ^ k)
bounds_of_order x zero pos o small = absurd (omega (arith, o.holds))
bounds_of_order x (suc k) pos o small = (
  omega arith,
  o.least 64 small,
  elim (dec_lt x (2 ^ k)) [
    | yes h ↦ absurd (omega (arith, o.least k (omega arith)))
    | no h ↦ let e : suc k - 1 ≡ k = omega arith in rw e (omega arith)
  ],
  omega (arith, o.holds),
)

leading_zeros_lem : CountsLeadingZeros leading_zeros
unfolding leading_zeros
leading_zeros_lem x pos small = elim (Bool-cases (x == 2 ^ 64 - 1)) [
  | inl t ↦
      let e : x ≡ 2 ^ 64 - 1 = (==_iff _ _).0 t in rw t (omega arith, omega arith, omega arith)
  | inr t ↦
      let below : x ≢ 2 ^ 64 - 1 = ground (arith, t) in
      let b =
        bounds_of_order x (get_order_portable (x + 1)) pos
          (get_order_portable_lem (x + 1) (omega arith)) (omega arith) in
      let high : 64 - (64 - get_order_portable (x + 1)) ≡ get_order_portable (x + 1) =
        omega (arith, b.1) in
      let low : 63 - (64 - get_order_portable (x + 1)) ≡ get_order_portable (x + 1) - 1 =
        omega (arith, b.0, b.1) in
      rw (t, high, low) (omega (arith, b.0), b.2, b.3)
]

get_order_portable_lem_example : IsOrder 1000 (get_order_portable 1000)
get_order_portable_lem_example = get_order_portable_lem 1000 (omega arith)

get_order-portable_example : get_order leading_zeros 1000 ≡ get_order_portable 1000
get_order-portable_example = get_order-portable leading_zeros leading_zeros_lem 1000 (omega arith)

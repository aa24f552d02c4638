-- ===== src/Buddy/Order.antt =====
-- `get_order`: both builds give the least power of two that holds the size.
use native.Mathlib.Decide.{dec_lt}
use native.Mathlib.Nat.{pow-suc, one-le-pow, pow-le-pow_right}
use liballo.Base.{
  ℕ, suc, ◌+◌, ◌-◌, ◌*◌, ◌/◌, ◌^◌, ◌≤◌, ◌<◌, ◌≡◌, refl, ap, mul-le, mul-div-le, lt-mul-div, inl,
  inr, arith, leb, ◌==◌, ==_iff, Bool-cases, leb→le,
}
use liballo.Base.Bits.{bit_and_clear, pow-add}
use liballo.Buddy.{narrow, last_bit, get_order_portable, get_order}

-- `order` is the least exponent whose power of two is at least `size`.
pub record IsOrder (size order : ℕ) : Type 0 where
  pub holds : size ≤ 2 ^ order
  pub least : (k : ℕ) → size ≤ 2 ^ k → order ≤ k

-- `val` is what is left of `whole` when its `order` lowest digits are dropped.
record IsDropped (whole bound : ℕ) (r : ℕ × ℕ) : Type 0 where
  pos : 0 < r.0
  small : r.0 < bound
  low : 2 ^ r.1 * r.0 ≤ whole
  high : whole < 2 ^ r.1 * (r.0 + 1)

div-lt : (s v : ℕ) → v < s * s → v / s < s
div-lt s v h = grind arith

-- Dropping `s` more digits keeps the bounds.
drop_bounds :
    (whole o s v : ℕ)
    → 2 ^ o * v ≤ whole
    → whole < 2 ^ o * (v + 1)
    → (2 ^ (o + s) * (v / 2 ^ s) ≤ whole) × (whole < 2 ^ (o + s) * (v / 2 ^ s + 1))
drop_bounds whole o s v low high = rw (pow-add o s) (
  omega (arith, mul-le (2 ^ o) (mul-div-le (2 ^ s) v)),
  omega (arith, mul-le (2 ^ o) (lt-mul-div (2 ^ s) v (one-le-pow s 2 (omega arith)))),
)

narrow-IsDropped :
    (whole mask shift : ℕ) (r : ℕ × ℕ)
    → mask ≡ (2 ^ shift - 1) * 2 ^ shift
    → IsDropped whole (2 ^ shift * 2 ^ shift) r
    → IsDropped whole (2 ^ shift) (narrow mask shift r)
unfolding narrow
narrow-IsDropped whole mask shift (v, o) e d =
    let test = bit_and_clear shift shift v d.small in
    let pos = one-le-pow shift 2 (omega arith) in
    elim (Bool-cases (v / 2 ^ shift * 2 ^ shift == 0)) [
      | inl none_above ↦
          let none_left : v / 2 ^ shift * 2 ^ shift ≡ 0 = (==_iff _ _).0 none_above in
          rw (e, test, none_above)
            (record {
              pos = d.pos;
              small = omega (arith, lt-mul-div (2 ^ shift) v pos);
              low = d.low;
              high = d.high;
            })
      | inr above ↦
          let bounds = drop_bounds whole o shift v d.low d.high in
          rw (e, test, above)
            (record {
              pos = ground (arith, above);
              small = div-lt (2 ^ shift) v d.small;
              low = bounds.0;
              high = bounds.1;
            })
    ]

-- The chain of tests leaves the one digit on top.
last_bit-IsDropped :
    (whole : ℕ) (r : ℕ × ℕ)
    → IsDropped whole 2 r
    → (order : ℕ) × (last_bit r ≡ suc order) × (2 ^ order ≤ whole) × (whole < 2 ^ suc order)
unfolding last_bit
last_bit-IsDropped whole (v, o) d =
    let one : v ≡ 1 = omega (arith, d.pos, d.small) in
    let top = ap (λ (t : ℕ). 2 ^ o * t) one in
    (o, rw one (omega arith), omega (arith, d.low, top), omega (arith, d.high, top, pow-suc 2 o))

-- The order is the length in binary of `size - 1`.
IsOrder-of_bounds :
    (size order : ℕ) → 2 ^ order < size → size ≤ 2 ^ suc order → IsOrder size (suc order)
IsOrder-of_bounds size order low high = record {
  holds = high;
  least = λ k h. elim (dec_lt order k) [
    | yes p ↦ p
    | no p ↦
        absurd
          (omega (arith, pow-le-pow_right {n = 2} (omega arith) {i = k} {j = order} (omega arith)))
  ];
}

IsOrder-unique : (size j k : ℕ) → IsOrder size j → IsOrder size k → j ≡ k
IsOrder-unique size j k a b = omega (arith, a.least k b.holds, b.least j a.holds)

-- `get_order_portable`, the shifts and masks of the build without compiler builtins, is the least
-- exponent whose power of two is at least the size, for every `size_t`.
pub get_order_portable_lem : (size : ℕ) → size < 2 ^ 64 → IsOrder size (get_order_portable size)
unfolding get_order_portable
get_order_portable_lem size h = elim (Bool-cases (leb size 1)) [
  | inl tiny ↦ rw tiny (record { holds = leb→le _ _ tiny; least = λ k le. omega arith })
  | inr big ↦
      let start : IsDropped (size - 1) (2 ^ 32 * 2 ^ 32) (size - 1, 0) = record {
        pos = ground (arith, big);
        small = omega arith;
        low = omega arith;
        high = omega arith;
      } in
      let (order, e, low, high) = last_bit-IsDropped (size - 1) _ (
        narrow-IsDropped _ _ 1 _ refl (
          narrow-IsDropped _ _ 2 _ refl (
            narrow-IsDropped _ _ 4 _ refl (
              narrow-IsDropped _ _ 8 _ refl
                (narrow-IsDropped _ _ 16 _ refl (narrow-IsDropped _ _ 32 _ refl start)))))) in
      rw (big, e) (IsOrder-of_bounds size order (omega arith) (omega arith))
]

-- What GCC and Clang document of `__builtin_clzll`: the number of leading 0 bits.
abbrev pub CountsLeadingZeros : (ℕ → ℕ) → Type 0
CountsLeadingZeros clzll =
    (x : ℕ)
    → 0 < x
    → x < 2 ^ 64
    → (clzll x ≤ 63) × (2 ^ (63 - clzll x) ≤ x) × (x < 2 ^ (64 - clzll x))

-- `get_order` by the builtin is the least exponent whose power of two is at least the size.
pub get_order_lem :
    (clzll : ℕ → ℕ)
    → CountsLeadingZeros clzll
    → (size : ℕ) → size < 2 ^ 64
    → IsOrder size (get_order clzll size)
unfolding get_order
get_order_lem clzll counts size h = elim (Bool-cases (leb size 1)) [
  | inl tiny ↦ rw tiny (record { holds = leb→le _ _ tiny; least = λ k le. omega arith })
  | inr big ↦
      let c = counts (size - 1) (ground (arith, big)) (omega arith) in
      let e : 64 - clzll (size - 1) ≡ suc (63 - clzll (size - 1)) = omega (arith, c.0) in
      let above : size - 1 < 2 ^ suc (63 - clzll (size - 1)) = rw (← e) c.2 in
      rw (big, e)
        (IsOrder-of_bounds size (63 - clzll (size - 1)) (omega (arith, c.1)) (omega (arith, above)))
]

-- `get_order` of the builds with GCC and Clang computes the same order as the portable code.
pub get_order-portable :
    (clzll : ℕ → ℕ)
    → CountsLeadingZeros clzll
    → (size : ℕ) → size < 2 ^ 64
    → get_order clzll size ≡ get_order_portable size
get_order-portable clzll counts size h =
    IsOrder-unique size _ _ (get_order_lem clzll counts size h) (get_order_portable_lem size h)

-- ===== src/Base/Bits.antt =====
-- `&` with a mask of low bits, and with a mask whose low bits are clear, at every width.
use Prim.Native.Nat.{
  ℕ, zero, suc, ◌+◌, ◌-◌, ◌*◌, ◌/◌, ◌%◌, ◌^◌, ◌≤◌, ◌<◌, min, bit_and, digits, bit_and-bitwise,
}
use mathlib.Core.Path.{◌≡◌, ap, ◌∙◌}
use native.Mathlib.Nat.{pow-suc, one-le-pow, zero-add, mod-eq_of_lt}
use native.Mathlib.Omega.{arith}

-- The recursion that the native operation stands for, with any number of rounds.
abbrev meet : (rounds a b : ℕ) → ℕ
meet rounds a b = digits (λ x. 0) min rounds a b

shift_in : (x k : ℕ) → x * 2 ^ suc k ≡ 2 * (x * 2 ^ k)
shift_in x k = let double = pow-suc 2 k in grind arith

-- With a mask of `k` ones the digits below `k` are left.
meet_low :
    (rounds a k q r : ℕ)
    → a ≤ rounds
    → a ≡ q * 2 ^ k + r
    → r < 2 ^ k
    → meet rounds a (2 ^ k - 1) ≡ r
meet_low zero zero k q r h e small = omega arith
meet_low zero (suc a) k q r h e small = absurd (omega arith)
meet_low (suc n) zero k q r h e small = omega arith
meet_low (suc n) (suc a) zero q r h e small =
    let rest = meet_low n (suc a / 2) 0 (suc a / 2) 0 (omega arith) (omega arith) (omega arith) in
    omega (arith, rest)
meet_low (suc n) (suc a) (suc k) q r h e small =
    let more = shift_in q k in
    let double = pow-suc 2 k in
    let rest = meet_low n (suc a / 2) k q (r / 2) (omega arith) (omega arith) (omega arith) in
    let half : (2 ^ suc k - 1) / 2 ≡ 2 ^ k - 1 = omega (arith, one-le-pow k 2) in
    let odd : (2 ^ suc k - 1) % 2 ≡ 1 = omega (arith, one-le-pow k 2) in
    rw (half, odd, rest) (omega arith)

no_digits : (k m q r : ℕ) → 0 ≡ q * 2 ^ k + r → 0 ≡ q % 2 ^ m * 2 ^ k
no_digits k m zero r e =
    let zero_mod : 0 % 2 ^ m ≡ 0 = grind (arith, one-le-pow m 2) in rw zero_mod (omega arith)
no_digits k m (suc q) r e = absurd (grind (arith, one-le-pow k 2))

-- With a mask of `m` ones above `k` zeros, `m` digits from `k` on are left in their places.
meet_high :
    (rounds a k m q r : ℕ)
    → a ≤ rounds
    → a ≡ q * 2 ^ k + r
    → r < 2 ^ k
    → meet rounds a ((2 ^ m - 1) * 2 ^ k) ≡ q % 2 ^ m * 2 ^ k
meet_high rounds a zero m q r h e small =
    let low =
      meet_low rounds a m (q / 2 ^ m) (q % 2 ^ m) h (grind arith) (grind (arith, one-le-pow m 2)) in
    let whole : (2 ^ m - 1) * 2 ^ 0 ≡ 2 ^ m - 1 = omega arith in rw (whole, low) (omega arith)
meet_high zero zero (suc k) m q r h e small = no_digits (suc k) m q r e
meet_high zero (suc a) (suc k) m q r h e small = absurd (omega arith)
meet_high (suc n) zero (suc k) m q r h e small = no_digits (suc k) m q r e
meet_high (suc n) (suc a) (suc k) m q r h e small =
    let more = shift_in q k in
    let double = pow-suc 2 k in
    let rest = meet_high n (suc a / 2) k m q (r / 2) (omega arith) (omega arith) (omega arith) in
    let half : ((2 ^ m - 1) * 2 ^ suc k) / 2 ≡ (2 ^ m - 1) * 2 ^ k =
      omega (arith, shift_in (2 ^ m - 1) k) in
    let even : ((2 ^ m - 1) * 2 ^ suc k) % 2 ≡ 0 = omega (arith, shift_in (2 ^ m - 1) k) in
    rw (half, even, rest) (omega (arith, shift_in (q % 2 ^ m) k))

pub bit_and_mask : (k a : ℕ) → bit_and a (2 ^ k - 1) ≡ a % 2 ^ k
bit_and_mask k a =
    bit_and-bitwise a (2 ^ k - 1)
    ∙ meet_low a a k (a / 2 ^ k) (a % 2 ^ k) (omega arith) (grind arith)
        (grind (arith, one-le-pow k 2))

-- The complement of a mask of `k` low bits, in a word of `k + m` bits, clears those bits.
pub bit_and_clear :
    (k m a : ℕ) → a < 2 ^ m * 2 ^ k → bit_and a ((2 ^ m - 1) * 2 ^ k) ≡ a / 2 ^ k * 2 ^ k
bit_and_clear k m a h =
    let small : a / 2 ^ k < 2 ^ m = grind (arith, one-le-pow k 2) in
    bit_and-bitwise a ((2 ^ m - 1) * 2 ^ k)
    ∙ meet_high a a k m (a / 2 ^ k) (a % 2 ^ k) (omega arith) (grind arith)
        (grind (arith, one-le-pow k 2))
    ∙ ap (λ t. t * 2 ^ k) (mod-eq_of_lt small)

pub pow-add : (j k : ℕ) → 2 ^ (j + k) ≡ 2 ^ j * 2 ^ k
pow-add zero k = rw zero-add (omega arith)
pow-add (suc j) k =
    let next : suc j + k ≡ suc (j + k) = omega arith in
    let up = pow-suc 2 (j + k) in
    let up' = pow-suc 2 j in let rest = pow-add j k in rw (next, up, up', rest) (grind arith)

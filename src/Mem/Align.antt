-- ===== src/Mem/Align.antt =====
-- `allo_align_up` and `ALLO_IS_ALIGNED` for the powers of two, as arithmetic.
use native.Mathlib.Nat.{one-le-pow, mul_comm}
use liballo.Base.{
  refl, ℕ, ◌+◌, ◌-◌, ◌*◌, ◌/◌, ◌%◌, ◌^◌, ◌≤◌, ◌<◌, ◌≡◌, zero, suc, ap, sym, ◌∙◌, ◌↔◌, true, arith,
  ==_iff, add64, sub64, not64,
}
use liballo.Base.Bits.{bit_and_clear, bit_and_mask, pow-add}
use liballo.Mem.{align_up, is_aligned}

-- `2 ^ 64` as the product of its parts.
pow_split : (k m : ℕ) → k + m ≡ 64 → 2 ^ m * 2 ^ k ≡ 2 ^ 64
pow_split k m e = mul_comm (2 ^ m) (2 ^ k) ∙ sym (pow-add k m) ∙ ap (λ t. 2 ^ t) e

sub_one-mul : (a b : ℕ) → 1 ≤ a → (a - 1) * b + b ≡ a * b
sub_one-mul zero b h = absurd (omega arith)
sub_one-mul (suc a) b h = let e : suc a - 1 ≡ a = omega arith in rw e (omega arith)

le-mul : (a b : ℕ) → 1 ≤ a → b ≤ a * b
le-mul a b h = grind arith

-- `~(align - 1)`
mask_eq : (k m : ℕ) → k + m ≡ 64 → not64 (sub64 (2 ^ k) 1) ≡ (2 ^ m - 1) * 2 ^ k
mask_eq k m e = omega (
  arith,
  pow_split k m e,
  one-le-pow k 2,
  sub_one-mul (2 ^ m) (2 ^ k) (one-le-pow m 2 (omega arith)),
  le-mul (2 ^ m) (2 ^ k) (one-le-pow m 2 (omega arith)),
)

-- Rounding up to a power of two is the next multiple of it, or wraps past the end of `size_t`.
pub align_up_lem :
    (k m size : ℕ)
    → k + m ≡ 64
    → size < 2 ^ 64
    → align_up size (2 ^ k) ≡ (size + 2 ^ k - 1) % 2 ^ 64 / 2 ^ k * 2 ^ k
unfolding align_up
align_up_lem k m size e h =
    let whole : sub64 (add64 size (2 ^ k)) 1 ≡ (size + 2 ^ k - 1) % 2 ^ 64 =
      omega (arith, one-le-pow k 2) in
    let fits : (size + 2 ^ k - 1) % 2 ^ 64 < 2 ^ m * 2 ^ k = omega (arith, pow_split k m e) in
    rw (whole, mask_eq k m e) (bit_and_clear k m _ fits)

-- The alignment that all allocators use.
pub align_up_eight : (size : ℕ) → size < 2 ^ 64 → align_up size 8 ≡ (size + 7) % 2 ^ 64 / 8 * 8
align_up_eight size h = align_up_lem 3 61 size refl h ∙ omega arith

-- The test of an alignment is that the pointer is a multiple of it.
pub is_aligned_iff : (k ptr : ℕ) → k < 64 → (is_aligned ptr (2 ^ k) ≡ true) ↔ (ptr % 2 ^ k ≡ 0)
unfolding is_aligned
is_aligned_iff k ptr h =
    let mask : sub64 (2 ^ k) 1 ≡ 2 ^ k - 1 = omega (
      arith,
      pow_split k (64 - k) (omega arith),
      one-le-pow k 2,
      le-mul (2 ^ (64 - k)) (2 ^ k) (one-le-pow (64 - k) 2 (omega arith)),
    ) in
    rw (mask, bit_and_mask) (==_iff (ptr % 2 ^ k) 0)

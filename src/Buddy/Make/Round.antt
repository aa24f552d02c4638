-- ===== src/Buddy/Make/Round.antt =====
-- The first loop of `make_buddy_allocator`: a size is rounded up to a power of two.
use liballo.Base.{
  ℕ, zero, suc, ◌+◌, ◌^◌, ◌≤◌, ◌<◌, ◌≡◌, refl, ap, ◌⊎◌, inl, inr, true, none, some, arith, ltb,
  Bool-cases, mul64,
}
use native.Mathlib.Nat.{pow-suc, pow-le-pow_right}
use native.Mathlib.Decide.{dec_lt}
use liballo.Buddy.{get_order_portable}
use liballo.Buddy.Order.{IsOrder, get_order_portable_lem}
use liballo.Buddy.Make.{round_loop}

double : (j : ℕ) → j < 63 → mul64 (2 ^ j) 2 ≡ 2 ^ suc j
double j h =
    omega (
      arith,
      pow-suc 2 j,
      pow-le-pow_right {n = 2} (omega arith) {i = suc j} {j = 63} (omega arith),
    )

-- From 2 ^ j, with the rounds that are left.
round_from :
    (rounds j o size : ℕ)
    → IsOrder size o
    → j ≤ o
    → o ≤ 63
    → o < j + rounds
    → round_loop rounds (2 ^ j) size ≡ some (2 ^ o)
unfolding round_loop
round_from zero j o size r le top h = absurd (omega arith)
round_from (suc k) j o size r le top h = elim (Bool-cases (ltb (2 ^ j) size)) [
  | inl below ↦
      let holds : (j ≡ o) ⊎ (j < o) = omega arith in
      elim holds [
        | inl e ↦ absurd (ground (arith, below, r.holds, ap (λ x. 2 ^ x) e))
        | inr lt ↦
            rw (below, double j (omega arith))
              (round_from k (suc j) o size r (omega arith) top (omega arith))
      ]
  | inr enough ↦
      let e : j ≡ o = omega (arith, r.least j (ground (arith, enough))) in rw (enough, e) refl
]

-- For a size of at most 2^63, 64 rounds are enough, and the loop ends with the least power of two that
-- holds the size.
pub round_loop_lem :
    (size : ℕ) → size ≤ 2 ^ 63 → round_loop 64 1 size ≡ some (2 ^ get_order_portable size)
round_loop_lem size h =
    let r = get_order_portable_lem size (omega arith) in
    let top = r.least 63 h in
    round_from 64 0 (get_order_portable size) size r (omega arith) top (omega arith)

-- For a size above 2 ^ 63 the loop does not end, whatever the number of rounds: the power of two wraps to 0.
pub round_loop-endless : (size : ℕ) → 2 ^ 63 < size → (rounds : ℕ) → round_loop rounds 1 size ≡ none
unfolding round_loop
round_loop-endless size h rounds = powers rounds 0 (omega arith)
  where
    zeros : (rounds : ℕ) → round_loop rounds 0 size ≡ none
    zeros zero = refl
    zeros (suc k) = let below : ltb 0 size ≡ true = ground arith in rw below (zeros k)

    powers : (rounds j : ℕ) → j ≤ 63 → round_loop rounds (2 ^ j) size ≡ none
    powers zero j le = refl
    powers (suc k) j le =
        let up = pow-le-pow_right {n = 2} (omega arith) {i = j} {j = 63} le in
        let below : ltb (2 ^ j) size ≡ true = ground (arith, up) in
        elim (dec_lt j 63) [
          | yes lt ↦ rw (below, double j lt) (powers k (suc j) lt)
          | no last ↦
              let e : j ≡ 63 = omega arith in
              let wrap : mul64 (2 ^ j) 2 ≡ 0 = rw e refl in rw (below, wrap) (zeros k)
        ]

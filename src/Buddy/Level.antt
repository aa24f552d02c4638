-- ===== src/Buddy/Level.antt =====
-- The level of a request, and the first loop of `buddy_alloc_fn`.
use liballo.Base.{
  ℕ, zero, suc, ◌+◌, ◌-◌, ◌*◌, ◌^◌, ◌≤◌, ◌<◌, ◌≡◌, refl, ap, ◌≢◌, ◌⊎◌, inl, inr, none, some, arith,
  ltb, ◌==◌, ==_iff, Bool-cases, subst,
}
use native.Mathlib.Nat.{pow-le-pow_right}
use liballo.Base.Bits.{pow-add}
use liballo.Mem.{Ptr, null}
use liballo.Buddy.{BuddyContext, get_order_portable, order_of, find_level, narrow, last_bit}
use liballo.Buddy.Order.{get_order_portable_lem}

-- The order of a request.
pub order_of_lem :
    (c : BuddyContext) (size : ℕ)
    → c.min_block_size ≡ 32
    → size < 2 ^ 64
    → (5 ≤ order_of c size)
      × (size ≤ 2 ^ order_of c size)
      × ((k : ℕ) → 5 ≤ k → size ≤ 2 ^ k → order_of c size ≤ k)
unfolding order_of get_order_portable narrow last_bit
order_of_lem c size e h =
    let o = get_order_portable_lem size h in
    let five : get_order_portable c.min_block_size ≡ 5 = ap get_order_portable e in
    elim (Bool-cases (ltb (get_order_portable size) 5)) [
      | inl small ↦
          let up =
            pow-le-pow_right {n = 2} (omega arith) {i = get_order_portable size} {j = 5}
              (ground (arith, small)) in
          rw (five, small) (omega arith, omega (arith, o.holds, up), λ k h5 hk. h5)
      | inr large ↦ rw (five, large) (ground (arith, large), o.holds, λ k h5 hk. o.least k hk)
    ]

-- The first loop.
pub find_level_lem :
    (heads : ℕ → Ptr) (t : ℕ)
    → ((l : ℕ) × (find_level heads t ≡ some l) × (l ≤ t) × (heads l ≢ null))
      ⊎ ((find_level heads t ≡ none) × ((m : ℕ) → m ≤ t → heads m ≡ null))
unfolding find_level
find_level_lem heads zero = elim (Bool-cases (heads 0 == null)) [
  | inl e ↦ rw e (inr (refl, λ m h. subst (λ x. heads x ≡ null) (omega arith) ((==_iff _ _).0 e)))
  | inr e ↦ rw e (inl (0, refl, omega arith, ground (arith, e)))
]
find_level_lem heads (suc n) = elim (Bool-cases (heads (suc n) == null)) [
  | inl e ↦ rw e (elim (find_level_lem heads n) [
    | inl (l, found, h, ne) ↦ inl (l, found, omega arith, ne)
    | inr (missing, all) ↦ inr (
      missing,
      λ m h. elim (Bool-cases (suc n == m)) [
        | inl at ↦ subst (λ x. heads x ≡ null) ((==_iff _ _).0 at) ((==_iff _ _).0 e)
        | inr at ↦ all m (ground (arith, at))
      ],
    )
  ])
  | inr e ↦ rw e (inl (suc n, refl, omega arith, ground (arith, e)))
]

pub block_lem : (depth m : ℕ) → 32 * 2 ^ (depth - m) ≡ 2 ^ ((depth - m) + 5)
block_lem depth m = rw (pow-add (depth - m) 5) (grind arith)

-- ===== src/Buddy/Make/Start.antt =====
-- The state that `make_buddy_allocator` ends with.
use liballo.Base.{
  ℕ, suc, ◌+◌, ◌-◌, ◌/◌, ◌%◌, ◌^◌, ◌≤◌, ◌<◌, ◌≡◌, refl, sym, ap, ◌∙◌, ◌≢◌, inl, inr, [], ◌∷◌, arith,
  ◌==◌, ==_iff, Bool-cases,
}
use native.Mathlib.Nat.{one-le-pow, pow-suc, pow-le-pow_right, div-eq_of_lt}
use native.Mathlib.Decide.{dec_lt}
use liballo.Mem.{null}
use liballo.Buddy.{State, get_order_portable, get_bit, node_index, mark_free, list_push}
use liballo.Buddy.Order.{get_order_portable_lem}
use liballo.Buddy.Links.{Seg}
use liballo.Buddy.Tiling.{Tiles, Tiles-same}
use liballo.Buddy.Inv.{addr, IsValid}
use liballo.Buddy.Steps.{plus, with_list}
use liballo.Buddy.Give.{give_step}
use liballo.Buddy.Halve.{IsValid-used}
use liballo.Buddy.Whole.{total-at, total-zero, nothing}

-- What the context holds before the buffer becomes the first free block.
pub record IsReady (s : State) (depth : ℕ) : Type 0 where
  pub ne_null : s.ctx.buffer ≢ null
  pub total_size : s.ctx.total_size ≡ 2 ^ (depth + 5)
  pub max_order : s.ctx.max_order ≡ get_order_portable s.ctx.total_size
  pub min : s.ctx.min_block_size ≡ 32
  pub small : depth + 5 < 64
  pub fits : s.ctx.buffer + 2 ^ (depth + 5) < 2 ^ 64
  pub heads : (l : ℕ) → s.ctx.heads l ≡ null
  pub bits : (i : ℕ) → s.ctx.bits i ≡ 0

pow-inj_le : (a b : ℕ) → 2 ^ a ≤ 2 ^ b → a ≤ b
pow-inj_le a b h = elim (dec_lt b a) [
  | no le ↦ omega arith
  | yes lt ↦
      let up = pow-le-pow_right {n = 2} (omega arith) {i = suc b} {j = a} lt in
      absurd (omega (arith, up, pow-suc 2 b, one-le-pow b 2))
]

-- The order of a power of two.
order-pow : (k : ℕ) → k < 64 → get_order_portable (2 ^ k) ≡ k
order-pow k h =
    let up = pow-le-pow_right {n = 2} (omega arith) {i = k} {j = 63} (omega arith) in
    let r = get_order_portable_lem (2 ^ k) (omega (arith, up)) in
    omega (arith, r.least k (omega arith), pow-inj_le k (get_order_portable (2 ^ k)) r.holds)

abbrev root : ℕ → ℕ → ℕ
root = plus nothing 0 0

root-at : (l i : ℕ) → 0 < root l i → (l ≡ 0) × (i ≡ 0)
root-at l i h = elim (Bool-cases (0 == l)) [
  | inl e ↦ elim (Bool-cases (0 == i)) [
    | inl e' ↦ (sym ((==_iff _ _).0 e), sym ((==_iff _ _).0 e'))
    | inr e' ↦ absurd (ground (arith, h, e, e'))
  ]
  | inr e ↦ absurd (ground (arith, h, e))
]

-- The root covers all.
root-Tiles : (depth : ℕ) → Tiles depth root
root-Tiles depth = record {
  inside = λ l i h. let (e, e') = root-at l i h in rw (e, e') (omega arith, omega arith);
  cover = λ u h.
      let top : u / 2 ^ (depth - 0) ≡ 0 = div-eq_of_lt (rw all_levels h) in
      let one : root 0 (u / 2 ^ (depth - 0)) ≡ 1 = rw top refl in
      omega (
        arith,
        one,
        total-zero depth,
        total-at depth 0 (λ l. root l (u / 2 ^ (depth - l))) (λ l. 0) (omega arith)
            (λ m hm ne. ground arith),
      );
}
  where
    all_levels : depth - 0 ≡ depth
    all_levels = omega arith

no_bit : (bits : ℕ → ℕ) (i : ℕ) → bits (i / 8) ≡ 0 → get_bit bits i ≡ 0
unfolding get_bit
no_bit bits i e =
    let low : 0 / 2 ^ (i % 8) ≡ 0 = div-eq_of_lt (one-le-pow (i % 8) 2 (omega arith)) in
    rw (e, low) refl

-- The factory's last step makes a valid state, in which the whole buffer is free and no block is handed
-- out.
pub first_block_lem :
    (s : State) (depth : ℕ)
    → IsReady s depth
    → IsValid
        (mark_free 0 0 (list_push 0 s.ctx.buffer s))
        depth
        (with_list (λ l. []) 0 (0 ∷ []))
        nothing
first_block_lem s depth r =
    let at : addr s.ctx.buffer depth 0 0 ≡ s.ctx.buffer = grind arith in
    let before : IsValid s depth (λ l. []) root = record {
      ne_null = r.ne_null;
      max_order = r.max_order ∙ ap get_order_portable r.total_size ∙ order-pow (depth + 5) r.small;
      small = r.small;
      total_size = r.total_size;
      min = r.min;
      fits = r.fits;
      lists = λ l h. (null, Seg.done (r.heads l) refl);
      marks = λ l i h h'. no_bit s.ctx.bits (node_index l i) (r.bits _);
      bytes = λ i. omega (arith, r.bits i);
      tiles = Tiles-same depth root _ (λ l i. omega arith) (root-Tiles depth);
      merged = λ l i j same ne h. refl;
    } in
    let after =
      give_step depth (λ l. []) root before 0 0 (omega arith) (omega arith) (λ j same ne. refl) in
    IsValid-used _ _ (λ m k. omega arith) (rw at at after)

-- ===== src/Buddy/Apart.antt =====
-- No two blocks of the tree that are in use have a byte in common.
use liballo.Base.{
  ℕ, ◌+◌, ◌-◌, ◌*◌, ◌/◌, ◌^◌, ◌≤◌, ◌<◌, ◌≡◌, sym, ap, ◌∙◌, ◌≢◌, ◌⊎◌, inl, inr, arith, subst, List,
}
use native.Mathlib.Nat.{one-le-pow, div-eq_of_lt-le}
use native.Mathlib.Decide.{dec_lt}
use liballo.Mem.{Apart}
use liballo.Buddy.{State}
use liballo.Buddy.Tiling.{Tiles, cell, cell-lt, cell-div, two_le-total}
use liballo.Buddy.Inv.{addr, node_end, in_use, IsValid}

module _ (depth : ℕ) (a : ℕ → ℕ → ℕ) (t : Tiles depth a) where
  in_first :
      (l i u : ℕ)
      → cell depth l i ≤ u
      → u < cell depth l i + 2 ^ (depth - l)
      → u / 2 ^ (depth - l) ≡ i
  in_first l i u lo hi = div-eq_of_lt-le (2 ^ (depth - l)) lo (grind arith)

  -- No block in use starts inside another one.
  not_inside :
      (l i m j : ℕ)
      → 0 < a l i
      → 0 < a m j
      → (l ≡ m → i ≢ j)
      → cell depth l i ≤ cell depth m j
      → cell depth l i + 2 ^ (depth - l) ≤ cell depth m j
  not_inside l i m j p q ne le = elim (dec_lt (cell depth m j) (cell depth l i + 2 ^ (depth - l))) [
    | no h ↦ omega arith
    | yes h ↦
        let u = cell depth m j in
        let (hl, lt) = t.inside l i p in
        let (hm, ltm) = t.inside m j q in
        let at_l : a l (u / 2 ^ (depth - l)) ≡ a l i = ap (a l) (in_first l i u le h) in
        let at_m : a m (u / 2 ^ (depth - m)) ≡ a m j = ap (a m) (cell-div depth m j) in
        let one = t.cover u (omega (arith, cell-lt depth m j hm ltm, one-le-pow (depth - m) 2)) in
        let f : ℕ → ℕ = λ k. a k (u / 2 ^ (depth - k)) in
        elim (dec_lt l m) [
          | yes lm ↦ absurd (omega (arith, two_le-total depth l m f lm hm, one, at_l, at_m))
          | no nlm ↦ elim (dec_lt m l) [
            | yes ml ↦ absurd (omega (arith, two_le-total depth m l f ml hl, one, at_l, at_m))
            | no nml ↦
                let e : l ≡ m = omega arith in
                let i_is : u / 2 ^ (depth - l) ≡ j =
                  subst (λ x. u / 2 ^ (depth - x) ≡ j) (sym e) (cell-div depth m j) in
                absurd (ne e (sym (in_first l i u le h) ∙ i_is))
          ]
        ]
  ]

  cells_apart :
      (l i m j : ℕ)
      → 0 < a l i
      → 0 < a m j
      → (l ≡ m → i ≢ j)
      → (cell depth l i + 2 ^ (depth - l) ≤ cell depth m j)
        ⊎ (cell depth m j + 2 ^ (depth - m) ≤ cell depth l i)
  cells_apart l i m j p q ne = elim (dec_lt (cell depth m j) (cell depth l i)) [
    | yes h ↦ inr (not_inside m j l i q p (λ e e'. ne (sym e) (sym e')) (omega arith))
    | no h ↦ inl (not_inside l i m j p q ne (omega arith))
  ]

-- In a valid state two different blocks of the tree, free or handed out, have no byte in common, and
-- each of them ends within the buffer.
pub blocks_apart_lem :
    (s : State) (depth l i m j : ℕ) (free : ℕ → List ℕ) (used : ℕ → ℕ → ℕ)
    → IsValid s depth free used
    → 0 < in_use free used l i
    → 0 < in_use free used m j
    → (l ≡ m → i ≢ j)
    → Apart
        (addr s.ctx.buffer depth l i)
        (32 * 2 ^ (depth - l))
        (addr s.ctx.buffer depth m j)
        (32 * 2 ^ (depth - m))
      × (addr s.ctx.buffer depth l i + 32 * 2 ^ (depth - l) ≤ s.ctx.buffer + 2 ^ (depth + 5))
blocks_apart_lem s depth l i m j free used v p q ne =
    let bound = node_end s.ctx.buffer depth (in_use free used) v.tiles v.ne_null v.fits l i p in
    elim (cells_apart depth (in_use free used) v.tiles l i m j p q ne) [
      | inl before ↦ (inl (omega arith), bound)
      | inr after ↦ (inr (omega arith), bound)
    ]

-- ===== src/Buddy/Alloc.antt =====
-- `buddy_alloc_fn` as a whole.
use liballo.Base.{
  ℕ, ◌+◌, ◌-◌, ◌*◌, ◌^◌, ◌≤◌, ◌<◌, ◌≡◌, refl, sym, ap, ◌∙◌, ◌≢◌, ◌⊎◌, inl, inr, List, [], ◌∷◌,
  count, arith, ltb, ◌==◌, ==_refl, ==_iff, Bool-cases,
}
use native.Mathlib.Nat.{pow-le-pow_right}
use liballo.Base.Cmd.{Returns}
use liballo.Mem.{Ptr, null}
use liballo.Buddy.{State, order_of, take_from, buddy_alloc_fn}
use liballo.Buddy.Inv.{addr, in_use, IsValid}
use liballo.Buddy.Steps.{one_at, plus, once}
use liballo.Buddy.Level.{order_of_lem, block_lem, find_level_lem}
use liballo.Buddy.TakeFrom.{head_cases, cell-down, take_from_lem}

-- No request, or one that no free block holds.
abbrev pub TooLarge : (depth : ℕ) → (free : ℕ → List ℕ) → (size : ℕ) → Type 0
TooLarge depth free size =
    (size ≡ 0) ⊎ ((m : ℕ) → m ≤ depth → size ≤ 32 * 2 ^ (depth - m) → free m ≡ [])

some_holds :
    (depth size l i : ℕ) (free : ℕ → List ℕ) (js : List ℕ)
    → size ≢ 0
    → l ≤ depth
    → size ≤ 32 * 2 ^ (depth - l)
    → free l ≡ i ∷ js
    → ¬ TooLarge depth free size
some_holds depth size l i free js nonzero h fits e (inl zero_size) = nonzero zero_size
some_holds depth size l i free js nonzero h fits e (inr all) =
    ground (arith, ap (count i) (sym e ∙ all l h fits), ==_refl i)

-- The level that a size belongs to.
pub record Fits (depth size level : ℕ) : Type 0 where
  pub holds : size ≤ 32 * 2 ^ (depth - level)
  pub tight : (m : ℕ) → m ≤ depth → size ≤ 32 * 2 ^ (depth - m) → m ≤ level

-- The block that is handed out: its node was in no use before.
pub record Handed (s : State) (depth : ℕ) (used : ℕ → ℕ → ℕ) (size : ℕ) (ptr : Ptr) (s' : State)
    : Type 0 where
  pub level : ℕ
  pub index : ℕ
  pub free : ℕ → List ℕ
  pub at : ptr ≡ addr s.ctx.buffer depth level index
  pub within_depth : level ≤ depth
  pub index-lt : index < 2 ^ level
  pub fresh : used level index ≡ 0
  pub fits : Fits depth size level
  pub ne_null : ptr ≢ null
  pub same_buffer : s'.ctx.buffer ≡ s.ctx.buffer
  pub same_bytes : s'.mem.byte ≡ s.mem.byte
  pub keeps : IsValid s' depth free (plus used level index)

-- A level whose blocks hold the size is at most the level of its order.
level_lem :
    (s : State) (depth size : ℕ) (free : ℕ → List ℕ) (used : ℕ → ℕ → ℕ)
    → IsValid s depth free used
    → size < 2 ^ 64
    → (m : ℕ) → m ≤ depth
    → size ≤ 32 * 2 ^ (depth - m)
    → (order_of s.ctx size ≤ s.ctx.max_order) × (m ≤ s.ctx.max_order - order_of s.ctx size)
level_lem s depth size free used v h m hm fits =
    let (five, holds, least) = order_of_lem s.ctx size v.min h in
    let le = least ((depth - m) + 5) (omega arith) (rw block_lem at fits) in
    (omega (arith, v.max_order), omega (arith, v.max_order))

abbrev pub Outcome :
    (s : State) (depth : ℕ) (free : ℕ → List ℕ) (used : ℕ → ℕ → ℕ) (size : ℕ) → Ptr → State → Type 0
Outcome s depth free used size ptr s' =
    ((ptr ≡ null) × (s' ≡ s) × TooLarge depth free size)
    ⊎ (Handed s depth used size ptr s' × ¬ TooLarge depth free size)

module _ (s : State) (depth size : ℕ) (free : ℕ → List ℕ) (used : ℕ → ℕ → ℕ)
    (v : IsValid s depth free used) (h : size < 2 ^ 64) where
  abbrev target : ℕ
  target = s.ctx.max_order - order_of s.ctx size

  null_head : (m : ℕ) → m ≤ depth → s.ctx.heads m ≡ null → free m ≡ []
  null_head m hm e =
      elim (head_cases s.ctx.buffer depth m s.mem.word (s.ctx.heads m) (free m) (v.lists m hm)) [
        | inl (e', empty) ↦ empty
        | inr (i, js, e', at, ne) ↦ absurd (ne e)
      ]

  handed :
      (l : ℕ)
      → order_of s.ctx size ≤ s.ctx.max_order
      → l ≤ target
      → s.ctx.heads l ≢ null
      → size ≢ 0
      → Returns (Outcome s depth free used size) (take_from target l s)
  handed l fits below ne nonzero =
      let (five, holds, least) = order_of_lem s.ctx size v.min h in
      let ht : target ≤ depth = omega (arith, v.max_order) in
      elim (head_cases s.ctx.buffer depth l s.mem.word (s.ctx.heads l) (free l)
        (v.lists l (omega arith))) [
          | inl (e, empty) ↦ absurd (ne e)
          | inr (i, js, e, at, some_head) ↦
              let t = take_from_lem s depth target l i free used js v below ht e at in
              let j = i * 2 ^ (target - l) in
              let whole : (depth - target) + 5 ≡ order_of s.ctx size = omega (arith, v.max_order) in
              let self : one_at target j target j ≡ 1 = ground (arith, ==_refl target, ==_refl j) in
              let p : 0 < in_use t.free (plus used target j) target j = omega (arith, self) in
              let up =
                pow-le-pow_right {n = 2} (omega arith) {i = order_of s.ctx size}
                  {j = (depth - l) + 5} (omega (arith, v.max_order)) in
              let enough : size ≤ 32 * 2 ^ (depth - l) =
                rw (block_lem depth l) (omega (arith, holds, up)) in
              rw t.run (
                inr (
                  record {
                    level = target;
                    index = j;
                    free = t.free;
                    at =
                        ap (λ c. s.ctx.buffer + 32 * c) (sym (cell-down depth l target i below ht));
                    within_depth = ht;
                    index-lt = (t.keeps.tiles.inside target j p).1;
                    fresh =
                        omega
                          (arith, once depth t.free (plus used target j) t.keeps target j, self);
                    fits = record {
                      holds = rw (block_lem, whole) holds;
                      tight = λ m hm hs. (level_lem s depth size free used v h m hm hs).1;
                    };
                    ne_null = omega (arith, v.ne_null);
                    same_buffer = t.same_buffer;
                    same_bytes = t.same_bytes;
                    keeps = t.keeps;
                  },
                  some_holds depth size l i free js nonzero (omega arith) enough e,
                ))
        ]

-- An allocation of a size below 2^64 in a valid state returns. The result is NULL, with nothing
-- changed, when the size is 0 or no free block is large enough, and only then. Otherwise it is the
-- address of a block of the tree that was not handed out before and is now, alone among the blocks
-- whose status changes; the block holds the size, no smaller block of the tree does, and the state is
-- valid again, so that the block overlaps no free block and none that is handed out.
pub buddy_alloc_lem :
    (s : State) (depth size : ℕ) (free : ℕ → List ℕ) (used : ℕ → ℕ → ℕ)
    → IsValid s depth free used
    → size < 2 ^ 64
    → Returns (Outcome s depth free used size) (buddy_alloc_fn size s)
unfolding buddy_alloc_fn
buddy_alloc_lem s depth size free used v h = elim (Bool-cases (size == 0)) [
  | inl zero_size ↦ rw zero_size (inl (refl, refl, inl ((==_iff _ _).0 zero_size)))
  | inr nonzero ↦
      let too_large = level_lem s depth size free used v h in
      elim (Bool-cases (ltb s.ctx.max_order (order_of s.ctx size))) [
        | inl large ↦
            rw (nonzero, large)
              (inl (refl, refl, inr (λ m hm hs. ground (arith, large, too_large m hm hs))))
        | inr fits ↦
            rw (nonzero, fits)
              (elim (find_level_lem s.ctx.heads (s.ctx.max_order - order_of s.ctx size)) [
                | inr (missing, all) ↦ rw missing (
                    inl (
                      refl,
                      refl,
                      inr (λ m hm hs.
                          null_head s depth size free used v h m hm (all m (too_large m hm hs).1)),
                    ))
                | inl (l, found, below, ne) ↦ rw found (
                    handed s depth size free used v h l (ground (arith, fits)) below ne
                      (ground (arith, nonzero)))
              ])
      ]
]

-- ===== src/Buddy/TakeFrom.antt =====
-- `buddy_alloc_fn` from the list that it takes the block from.
use liballo.Base.{
  ℕ, ◌+◌, ◌-◌, ◌*◌, ◌/◌, ◌%◌, ◌^◌, ◌≤◌, ◌<◌, ◌≡◌, refl, sym, ap, ◌∙◌, ◌≢◌, ◌⊎◌, inl, inr, some,
  List, [], ◌∷◌, arith, ==_refl, sub64,
}
use native.Mathlib.Nat.{one-le-pow, mul-div_cancel}
use liballo.Base.Bits.{pow-add}
use liballo.Mem.{Ptr, null, update}
use liballo.Buddy.{State, take_from, size_at, list_remove, mark_used, split_loop}
use liballo.Buddy.Links.{Linked, Seg, Seg-head}
use liballo.Buddy.Tiling.{cell}
use liballo.Buddy.Inv.{addr, addrs, node_end, in_use, IsValid}
use liballo.Buddy.Steps.{one_at, plus, list_remove_lem, list_remove-byte}
use liballo.Buddy.Take.{take_step}
use liballo.Buddy.Split.{split_loop_lem, split_loop-buffer, split_loop-byte}
use liballo.Buddy.Halve.{IsValid-used, size_at_lem}

-- The record of the orders takes no part in the invariant.
IsValid-orders :
    {s : State} {depth : ℕ} {free : ℕ → List ℕ} {used : ℕ → ℕ → ℕ} (orders : ℕ → ℕ)
    → IsValid s depth free used
    → IsValid (record s { ctx = record (s.ctx) { orders = orders } }) depth free used
IsValid-orders orders v = record {
  ne_null = v.ne_null;
  max_order = v.max_order;
  small = v.small;
  total_size = v.total_size;
  min = v.min;
  fits = v.fits;
  lists = v.lists;
  marks = v.marks;
  bytes = v.bytes;
  tiles = v.tiles;
  merged = v.merged;
}

-- What a list with this head has in front.
pub head_cases :
    (base : Ptr) (depth l : ℕ) (w : Ptr → ℕ) (head : Ptr) (is : List ℕ)
    → Linked w head (addrs base depth l is)
    → ((head ≡ null) × (is ≡ []))
      ⊎ ((i : ℕ) × (js : List ℕ) × (is ≡ i ∷ js) × (head ≡ addr base depth l i) × (head ≢ null))
head_cases base depth l w head [] (last, Seg.done e f) = inl (e, refl)
head_cases base depth l w head (i ∷ is) (last, s) =
    let (e, n, p) = Seg-head s in inr (i, is, refl, sym e, n.0)

-- The index that a node's address stands for.
pub index_lem :
    (s : State) (depth l i : ℕ) (free : ℕ → List ℕ) (used : ℕ → ℕ → ℕ)
    → IsValid s depth free used
    → 0 < in_use free used l i
    → sub64 (addr s.ctx.buffer depth l i) s.ctx.buffer / size_at s.ctx l ≡ i
index_lem s depth l i free used v p =
    let (h, lt) = v.tiles.inside l i p in
    let bound = node_end s.ctx.buffer depth (in_use free used) v.tiles v.ne_null v.fits l i p in
    let offset : sub64 (addr s.ctx.buffer depth l i) s.ctx.buffer ≡ 32 * cell depth l i =
      omega (arith, bound, v.fits) in
    let blocks : 32 * cell depth l i ≡ i * (32 * 2 ^ (depth - l)) = grind arith in
    rw (offset, blocks, size_at_lem s.ctx depth l v.total_size h)
      (mul-div_cancel i (omega (arith, one-le-pow (depth - l) 2)))

list_remove-buffer :
    (l : ℕ) (node : Ptr) (s : State) → (list_remove l node s).ctx.buffer ≡ s.ctx.buffer
list_remove-buffer l node s = ap (λ t. t.ctx.buffer) (list_remove_lem l node s)

pub cell-down :
    (depth l t i : ℕ) → l ≤ t → t ≤ depth → cell depth t (i * 2 ^ (t - l)) ≡ cell depth l i
cell-down depth l t i h ht =
    let e : (t - l) + (depth - t) ≡ depth - l = omega arith in
    let p : 2 ^ (t - l) * 2 ^ (depth - t) ≡ 2 ^ (depth - l) =
      sym (pow-add (t - l) (depth - t)) ∙ ap (λ k. 2 ^ k) e in
    rw (← p) (grind arith)

pub record Taken (s : State) (depth t l i : ℕ) (used : ℕ → ℕ → ℕ) : Type 0 where
  pub next : State
  pub free : ℕ → List ℕ
  pub run : take_from t l s ≡ some (addr s.ctx.buffer depth l i, next)
  pub keeps : IsValid next depth free (plus used t (i * 2 ^ (t - l)))
  pub same_buffer : next.ctx.buffer ≡ s.ctx.buffer
  pub same_bytes : next.mem.byte ≡ s.mem.byte

-- From the list of level `l`, for a block of level `t` below it.
pub take_from_lem :
    (s : State) (depth t l i : ℕ) (free : ℕ → List ℕ) (used : ℕ → ℕ → ℕ) (js : List ℕ)
    → IsValid s depth free used
    → l ≤ t
    → t ≤ depth
    → free l ≡ i ∷ js
    → s.ctx.heads l ≡ addr s.ctx.buffer depth l i
    → Taken s depth t l i used
unfolding take_from mark_used
take_from_lem s depth t l i free used js v h ht e head =
    let p : 0 < in_use free used l i = rw (e, ==_refl) (omega arith) in
    let step = take_step depth free used v l i (omega arith) [] js e in
    let s1 = mark_used l i (list_remove l (addr s.ctx.buffer depth l i) s) in
    let b : s1.ctx.buffer ≡ s.ctx.buffer = list_remove-buffer l (addr s.ctx.buffer depth l i) s in
    let there : one_at l i l i ≡ 1 = ground (arith, ==_refl l, ==_refl i) in
    let (free', w) =
      split_loop_lem depth (t - l) l i s1 s.ctx.buffer _ (plus used l i) step b (omega arith)
        (omega (arith, there)) in
    let below : l + (t - l) ≡ t = omega arith in
    let used' : (m k : ℕ) → _ ≡ plus used t (i * 2 ^ (t - l)) m k =
      λ m k. omega (arith, ap (λ x. one_at x (i * 2 ^ (t - l)) m k) below) in
    let s2 = split_loop (t - l) l i (addr s.ctx.buffer depth l i) s1 in
    let block = sub64 (addr s.ctx.buffer depth l i) s.ctx.buffer / s.ctx.min_block_size in
    record {
      next = record s2 { ctx = record (s2.ctx) { orders = update s2.ctx.orders block (t % 256) } };
      free = free';
      run = rw (head, index_lem s depth l i free used v p) refl;
      keeps = IsValid-orders _ (IsValid-used _ _ used' w);
      same_buffer = split_loop-buffer (t - l) l i (addr s.ctx.buffer depth l i) s1 ∙ b;
      same_bytes =
          split_loop-byte (t - l) l i (addr s.ctx.buffer depth l i) s1
          ∙ list_remove-byte l (addr s.ctx.buffer depth l i) s;
    }

-- ===== src/Buddy/Inv.antt =====
-- The invariant of src/allo_buddy.c: its free lists, its bit set and the blocks that are handed out
-- describe one tiling of the buffer.
use liballo.Base.{
  ℕ, ◌+◌, ◌-◌, ◌*◌, ◌/◌, ◌^◌, ◌≤◌, ◌<◌, ◌≡◌, refl, ap, ◌≢◌, List, [], ◌∷◌, ◌++◌, count, arith,
  ==_refl,
}
use native.Mathlib.Nat.{one-le-pow}
use native.Mathlib.Decide.{ℕ_discrete}
use liballo.Base.Bits.{pow-add}
use liballo.Mem.{Ptr, null}
use liballo.Buddy.{State, get_bit, node_index}
use liballo.Buddy.Links.{Far, Node, AllFar, Spread, Linked}
use liballo.Buddy.Unlink.{Cross}
use liballo.Buddy.Flags.{Bytes}
use liballo.Buddy.Tiling.{Tiles, cell, cell-lt, Tiles-cell}

-- The address of a node of the tree over `base`. The smallest blocks have 32 bytes.
abbrev pub addr : (base : Ptr) → (depth l i : ℕ) → Ptr
addr base depth l i = base + 32 * cell depth l i

abbrev pub addrs : (base : Ptr) → (depth l : ℕ) → List ℕ → List Ptr
addrs base depth l [] = []
addrs base depth l (i ∷ is) = addr base depth l i ∷ addrs base depth l is

pub addrs-append :
    (base : Ptr) (depth l : ℕ) (is js : List ℕ)
    → addrs base depth l (is ++ js) ≡ addrs base depth l is ++ addrs base depth l js
addrs-append base depth l [] js = refl
addrs-append base depth l (i ∷ is) js =
    ap (λ ps. addr base depth l i ∷ ps) (addrs-append base depth l is js)

-- Nodes in use are apart.
module _ (base : Ptr) (depth : ℕ) (a : ℕ → ℕ → ℕ) (t : Tiles depth a) (some_base : base ≢ null)
    (fits : base + 2 ^ (depth + 5) < 2 ^ 64) where
  pub node_end :
      (l i : ℕ) → 0 < a l i → addr base depth l i + 32 * 2 ^ (depth - l) ≤ base + 2 ^ (depth + 5)
  node_end l i p =
      let (h, lt) = t.inside l i p in omega (arith, cell-lt depth l i h lt, pow-add depth 5)

  pub addr-Node : (l i : ℕ) → 0 < a l i → Node (addr base depth l i)
  addr-Node l i p = (omega arith, omega (arith, node_end l i p, one-le-pow (depth - l) 2))

  pub addr-Far :
      (l i m j : ℕ)
      → 0 < a l i
      → 0 < a m j
      → ((l ≡ m) → i ≢ j)
      → Far (addr base depth l i) (addr base depth m j)
  addr-Far l i m j p q ne = elim (ℕ_discrete (cell depth l i) (cell depth m j)) [
    | yes e ↦ let (same, same') = Tiles-cell depth a t l i m j p q e in absurd (ne same same')
    | no h ↦ omega arith
  ]

  pub addr-AllFar :
      (l i m : ℕ) (js : List ℕ)
      → 0 < a l i
      → ((j : ℕ) → 0 < count j js → 0 < a m j)
      → ((l ≡ m) → count i js ≡ 0)
      → AllFar (addr base depth l i) (addrs base depth m js)
  addr-AllFar l i m [] p q ne = tt
  addr-AllFar l i m (j ∷ js) p q ne = (
    addr-Far l i m j p (q j (rw ==_refl (omega arith))) (λ e e'. ground (arith, ne e)),
    addr-AllFar l i m js p (λ k h. q k (omega arith)) (λ e. omega (arith, ne e)),
  )

  pub addrs-Spread :
      (l : ℕ) (js : List ℕ)
      → ((j : ℕ) → 0 < count j js → 0 < a l j)
      → ((j : ℕ) → count j js ≤ 1)
      → Spread (addrs base depth l js)
  addrs-Spread l [] q once = tt
  addrs-Spread l (j ∷ js) q once = (
    addr-AllFar l j l js (q j (rw ==_refl (omega arith))) (λ k h. q k (omega arith))
        (λ e. omega (arith, rw ==_refl at (once j))),
    addrs-Spread l js (λ k h. q k (omega arith)) (λ k. omega (arith, once k)),
  )

  pub addrs-Cross :
      (l m : ℕ) (is js : List ℕ)
      → l ≢ m
      → ((i : ℕ) → 0 < count i is → 0 < a l i)
      → ((j : ℕ) → 0 < count j js → 0 < a m j)
      → Cross (addrs base depth l is) (addrs base depth m js)
  addrs-Cross l m [] js ne p q = tt
  addrs-Cross l m (i ∷ is) js ne p q = (
    addr-AllFar l i m js (p i (rw ==_refl (omega arith))) q (λ e. absurd (ne e)),
    addrs-Cross l m is js ne (λ k h. p k (omega arith)) q,
  )

-- How often a node is free or handed out.
abbrev pub in_use : (ℕ → List ℕ) → (ℕ → ℕ → ℕ) → ℕ → ℕ → ℕ
in_use free used l i = count i (free l) + used l i

-- Of two buddies, which have one parent, at most one is in the list.
abbrev pub Merged : List ℕ → Type 0
Merged is = (i j : ℕ) → i / 2 ≡ j / 2 → i ≢ j → 0 < count i is → count j is ≡ 0

-- `free` are the nodes of the free lists, level by level and in their order; `used` says which nodes
-- are handed out. The smallest blocks are at level `depth`.
pub record IsValid (s : State) (depth : ℕ) (free : ℕ → List ℕ) (used : ℕ → ℕ → ℕ) : Type 0 where
  pub ne_null : s.ctx.buffer ≢ null
  pub max_order : s.ctx.max_order ≡ depth + 5
  pub small : depth + 5 < 64
  pub total_size : s.ctx.total_size ≡ 2 ^ (depth + 5)
  pub min : s.ctx.min_block_size ≡ 32
  pub fits : s.ctx.buffer + 2 ^ (depth + 5) < 2 ^ 64
  pub lists :
      (l : ℕ) → l ≤ depth → Linked s.mem.word (s.ctx.heads l) (addrs s.ctx.buffer depth l (free l))
  pub marks :
      (l i : ℕ) → l ≤ depth → i < 2 ^ l → get_bit s.ctx.bits (node_index l i) ≡ count i (free l)
  pub bytes : Bytes s.ctx.bits
  pub tiles : Tiles depth (in_use free used)
  pub merged : (l : ℕ) → Merged (free l)

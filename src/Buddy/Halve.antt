-- ===== src/Buddy/Halve.antt =====
-- One round of the second loop of `buddy_alloc_fn`: a block that is handed out is cut in two, and its
-- right half becomes free.
use liballo.Base.{
  ℕ, suc, ◌+◌, ◌-◌, ◌*◌, ◌/◌, ◌^◌, ◌≤◌, ◌<◌, ◌≡◌, ap, ◌∙◌, ◌≢◌, inl, inr, List, ◌∷◌, count, arith,
  ◌==◌, ==_refl, ==_iff, Bool-cases, if◌then◌else◌, subst, fun_ext,
}
use native.Mathlib.Nat.{one-le-pow, pow-suc, mul-div_cancel}
use liballo.Base.Bits.{pow-add}
use liballo.Buddy.{
  BuddyContext, State, clear_bit, size_at, get_bit, node_index, list_push, mark_free, mark_used,
}
use liballo.Buddy.Flags.{get_bit-clear_bit, clear_bit-Bytes, node_index_inj}
use liballo.Buddy.Tiling.{Halves, Tiles-split, cell, pow-split}
use liballo.Buddy.Inv.{addr, in_use, IsValid}
use liballo.Buddy.Steps.{one_at, plus, minus, with_list, once}
use liballo.Buddy.Give.{give_step}

-- The size of the blocks of a level.
pub size_at_lem :
    (c : BuddyContext) (depth l : ℕ)
    → c.total_size ≡ 2 ^ (depth + 5)
    → l ≤ depth
    → size_at c l ≡ 32 * 2 ^ (depth - l)
size_at_lem c depth l e h =
    let k : 2 ^ (depth + 5) ≡ 32 * 2 ^ (depth - l) * 2 ^ l =
      rw (pow-add depth 5, ← pow-split depth l h) (grind arith) in
    rw (e, k) (mul-div_cancel (32 * 2 ^ (depth - l)) (one-le-pow l 2 (omega arith)))

pub IsValid-used :
    {s : State} {depth : ℕ} {free : ℕ → List ℕ} (used used' : ℕ → ℕ → ℕ)
    → ((m k : ℕ) → used m k ≡ used' m k)
    → IsValid s depth free used
    → IsValid s depth free used'
IsValid-used {s} {depth} {free} used used' same v =
    subst (IsValid s depth free) (fun_ext (λ m. fun_ext (same m))) v

-- To clear the bit of a node that is handed out changes nothing.
clear_step :
    {s : State} {depth : ℕ} (free : ℕ → List ℕ) (used : ℕ → ℕ → ℕ) (l i : ℕ)
    → IsValid s depth free used
    → 0 < used l i
    → IsValid (mark_used l i s) depth free used
unfolding mark_used
clear_step {s} {depth} free used l i v out = record {
  ne_null = v.ne_null;
  max_order = v.max_order;
  small = v.small;
  total_size = v.total_size;
  min = v.min;
  fits = v.fits;
  lists = v.lists;
  marks = kept;
  bytes = clear_bit-Bytes s.ctx.bits (node_index l i) v.bytes;
  tiles = v.tiles;
  merged = v.merged;
}
  where
    kept :
        (m k : ℕ)
        → m ≤ depth
        → k < 2 ^ m
        → get_bit (clear_bit s.ctx.bits (node_index l i)) (node_index m k) ≡ count k (free m)
    kept m k hm hk =
        let (hl, hi) = v.tiles.inside l i (omega arith) in
        rw (get_bit-clear_bit s.ctx.bits (node_index l i) (node_index m k) v.bytes)
          (elim (Bool-cases (node_index l i == node_index m k)) [
            | inl at ↦
                let (p, q) =
                  node_index_inj l i m k (omega (arith, v.small)) (omega (arith, v.small)) hi hk
                    ((==_iff _ _).0 at) in
                let e : used l i ≡ used m k = ap (λ x. used x i) p ∙ ap (used m) q in
                rw at (omega (arith, once depth free used v m k, e))
            | inr at ↦ rw at (v.marks m k hm hk)
          ])

-- The halves of a block are handed out in its place.
abbrev halved : (ℕ → ℕ → ℕ) → (l i : ℕ) → ℕ → ℕ → ℕ
halved used l i = plus (plus (minus used l i) (suc l) (i * 2)) (suc l) (i * 2 + 1)

halved_whole :
    (used : ℕ → ℕ → ℕ) (l i k : ℕ)
    → 0 < used l i
    → used l k ≡ halved used l i l k + (if k == i then 1 else 0)
halved_whole used l i k out = elim (Bool-cases (i == k)) [
  | inl at ↦
      let out' : 0 < used l k = subst (λ y. 0 < used l y) ((==_iff _ _).0 at) out in
      ground (arith, at, out')
  | inr at ↦ ground (arith, at)
]

halved-Halves :
    (free : ℕ → List ℕ) (used : ℕ → ℕ → ℕ) (l i : ℕ)
    → 0 < used l i
    → Halves (in_use free used) (in_use free (halved used l i)) l i
halved-Halves free used l i out = record {
  whole = λ k. omega (arith, halved_whole used l i k out);
  halves = λ k. ground arith;
  rest = λ m ne ne' k. ground arith;
}

-- A block whose halves are there too is inside the tree.
abbrev pub moved : (ℕ → ℕ → ℕ) → (l i m j : ℕ) → ℕ → ℕ → ℕ
moved used l i m j = plus (minus used l i) m j

pub one_at_self : (l i : ℕ) → one_at l i l i ≡ 1
one_at_self l i = ground (arith, ==_refl l, ==_refl i)

pub moved_self : (used : ℕ → ℕ → ℕ) (l i m k : ℕ) → 0 < used l i → used m k ≡ moved used l i l i m k
moved_self used l i m k out = elim (Bool-cases (l == m)) [
  | inl p ↦ elim (Bool-cases (i == k)) [
    | inl q ↦
        let e : used l i ≡ used m k =
          ap (λ x. used x i) ((==_iff _ _).0 p) ∙ ap (used m) ((==_iff _ _).0 q) in
        rw (p, q) (omega (arith, e))
    | inr q ↦ rw (p, q) (omega arith)
  ]
  | inr p ↦ rw p (omega arith)
]

pub cell-half : (depth l i : ℕ) → l < depth → cell depth (suc l) (i * 2) ≡ cell depth l i
cell-half depth l i h =
    let e : depth - l ≡ suc (depth - suc l) = omega arith in
    rw (e, pow-suc 2 (depth - suc l)) (grind arith)

pub cell-second :
    (depth l i : ℕ)
    → l < depth
    → cell depth (suc l) (i * 2 + 1) ≡ cell depth l i + 2 ^ (depth - suc l)
cell-second depth l i h = rw (← cell-half depth l i h) (grind arith)

-- One round of the loop.
pub round_step :
    (depth l i : ℕ) (s : State) (free : ℕ → List ℕ) (used : ℕ → ℕ → ℕ)
    → IsValid s depth free used
    → l < depth
    → 0 < used l i
    → IsValid
        (mark_used (suc l) (i * 2) (
          mark_free
            (suc l)
            (i * 2 + 1)
            (list_push (suc l) (addr s.ctx.buffer depth (suc l) (i * 2 + 1)) s)))
        depth
        (with_list free (suc l) ((i * 2 + 1) ∷ free (suc l)))
        (moved used l i (suc l) (i * 2))
round_step depth l i s free used v h out =
    let hi = (v.tiles.inside l i (omega arith)).1 in
    let cut =
      Tiles-split depth (in_use free used) (in_use free (halved used l i)) l i h hi
        (halved-Halves free used l i out) v.tiles in
    let v' : IsValid s depth free (halved used l i) = record {
      ne_null = v.ne_null;
      max_order = v.max_order;
      small = v.small;
      total_size = v.total_size;
      min = v.min;
      fits = v.fits;
      lists = v.lists;
      marks = v.marks;
      bytes = v.bytes;
      tiles = cut;
      merged = v.merged;
    } in
    let left : count (i * 2) (free (suc l)) ≡ 0 =
      omega (
        arith,
        once depth free (halved used l i) v' (suc l) (i * 2),
        one_at_self (suc l) (i * 2),
      ) in
    let alone : (j : ℕ) → (i * 2 + 1) / 2 ≡ j / 2 → i * 2 + 1 ≢ j → count j (free (suc l)) ≡ 0 =
      λ j same ne. subst (λ x. count x (free (suc l)) ≡ 0) (omega arith) left in
    let given =
      give_step depth free (halved used l i) v' (suc l) (i * 2 + 1) h
        (omega (arith, one_at_self (suc l) (i * 2 + 1))) alone in
    clear_step _ (moved used l i (suc l) (i * 2)) (suc l) (i * 2)
      (IsValid-used _ (moved used l i (suc l) (i * 2)) (λ m k. omega arith) given)
      (omega (arith, one_at_self (suc l) (i * 2)))

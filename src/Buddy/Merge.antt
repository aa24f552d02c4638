-- ===== src/Buddy/Merge.antt =====
-- The loop of `buddy_free_fn`: a block that is given back joins its free buddy, level by level.
use Prim.Native.Nat.{digits, differ, bit_xor-bitwise}
use liballo.Base.{
  ℕ, zero, suc, ◌+◌, ◌-◌, ◌*◌, ◌/◌, ◌%◌, ◌^◌, ◌≤◌, ◌<◌, ◌≡◌, refl, sym, ap, ◌∙◌, ◌≢◌, inl, inr,
  true, false, List, ◌∷◌, ◌++◌, count, count-split, arith, ◌==◌, ==_refl, ==_iff, Bool-cases,
  if◌then◌else◌, subst, add64, mul64, bit_xor,
}
use native.Mathlib.Nat.{pow-suc}
use liballo.Base.Bits.{pow-add}
use liballo.Buddy.{
  State, size_at, list_push, list_remove, mark_free, mark_used, get_bit, node_index, insert,
  merge_loop,
}
use liballo.Buddy.Tiling.{Halves, Tiles-join, cell, cell-lt}
use liballo.Buddy.Inv.{addr, in_use, IsValid}
use liballo.Buddy.Steps.{
  one_at, plus, minus, with_list, list_push_lem, list_push-byte, list_remove-byte,
}
use liballo.Buddy.Give.{give_step}
use liballo.Buddy.Take.{take_step}
use liballo.Buddy.Halve.{IsValid-used, size_at_lem}

differ_zero : (x : ℕ) → differ x 0 ≡ x
differ_zero zero = refl
differ_zero (suc x) = refl

digits_zero : (n a : ℕ) → a ≤ n → digits (λ b. b) differ n a 0 ≡ a
digits_zero zero a h = omega arith
digits_zero (suc n) zero h = refl
digits_zero (suc n) (suc a) h =
    rw (digits_zero n (suc a / 2) (omega arith), differ_zero (suc a % 2)) (omega arith)

flip_one : (x : ℕ) → x < 2 → differ x 1 ≡ 1 - x
flip_one zero h = refl
flip_one (suc zero) h = refl
flip_one (suc (suc x)) h = absurd (omega arith)

-- The index of the buddy.
pub buddy_index : (i : ℕ) → bit_xor i 1 ≡ i / 2 * 2 + (1 - i % 2)
buddy_index zero = bit_xor-bitwise 0 1 ∙ refl
buddy_index (suc i) =
    bit_xor-bitwise (suc i) 1
    ∙ rw (digits_zero i (suc i / 2) (omega arith), flip_one (suc i % 2) (omega arith)) refl

-- The buddy is the other block with the same parent.
pub buddy_only : (i j : ℕ) → i / 2 ≡ j / 2 → i ≢ j → j ≡ bit_xor i 1
buddy_only i j e ne = rw buddy_index (omega arith)

-- The address of a block from its index.
node_at :
    {s : State} {depth : ℕ} {free : ℕ → List ℕ} {used : ℕ → ℕ → ℕ}
    → IsValid s depth free used
    → (l i : ℕ) → l ≤ depth
    → i < 2 ^ l
    → add64 s.ctx.buffer (mul64 i (size_at s.ctx l)) ≡ addr s.ctx.buffer depth l i
node_at {s} {depth} v l i h lt =
    let bound = cell-lt depth l i h lt in
    let scaled : i * (32 * 2 ^ (depth - l)) ≡ 32 * cell depth l i = grind arith in
    rw (size_at_lem s.ctx depth l v.total_size h, scaled)
      (omega (arith, bound, v.fits, pow-add depth 5))

insert_step :
    {s : State} (depth l i : ℕ) (free : ℕ → List ℕ) (used : ℕ → ℕ → ℕ)
    → IsValid s depth free used
    → 0 < used l i
    → ((j : ℕ) → i / 2 ≡ j / 2 → i ≢ j → count j (free l) ≡ 0)
    → IsValid (insert l i s) depth (with_list free l (i ∷ free l)) (minus used l i)
unfolding insert mark_free
insert_step {s} depth l i free used v out alone =
    let (h, lt) = v.tiles.inside l i (omega arith) in
    let given = give_step depth free used v l i h out alone in
    let node = addr s.ctx.buffer depth l i in
    let order : mark_free l i (list_push l node s) ≡ list_push l node (mark_free l i s) =
      ap (mark_free l i) (list_push_lem l node s) ∙ sym (list_push_lem l node (mark_free l i s)) in
    rw (node_at v l i h lt)
      (subst (λ t. IsValid t depth (with_list free l (i ∷ free l)) (minus used l i)) order given)

-- The parent in place of a block and its buddy.
abbrev joined : (ℕ → ℕ → ℕ) → (l i : ℕ) → ℕ → ℕ → ℕ
joined used l i = plus (minus used (suc l) i) l (i / 2)

one_at-le : (used : ℕ → ℕ → ℕ) (l i m k : ℕ) → 0 < used l i → one_at l i m k ≤ used m k
one_at-le used l i m k out = elim (Bool-cases (l == m)) [
  | inl p ↦ elim (Bool-cases (i == k)) [
    | inl q ↦
        let e : used l i ≡ used m k =
          ap (λ x. used x i) ((==_iff _ _).0 p) ∙ ap (used m) ((==_iff _ _).0 q) in
        rw (p, q) (omega (arith, e))
    | inr q ↦ rw (p, q) (omega arith)
  ]
  | inr p ↦ rw p (omega arith)
]

two_children :
    (i k : ℕ)
    → (if k / 2 == i / 2 then 1 else 0)
      ≡ (if i == k then 1 else 0) + (if bit_xor i 1 == k then 1 else 0)
two_children i k = rw buddy_index (ground arith)

one_at_level :
    (used : ℕ → ℕ → ℕ) (l i k : ℕ)
    → (one_at (suc l) i (suc l) k ≡ (if i == k then 1 else 0))
      × (one_at (suc l) (bit_xor i 1) (suc l) k ≡ (if bit_xor i 1 == k then 1 else 0))
      × (one_at l (i / 2) (suc l) k ≡ 0)
one_at_level used l i k =
    (ground (arith, ==_refl (suc l)), ground (arith, ==_refl (suc l)), ground arith)

joined-Halves :
    (free : ℕ → List ℕ) (used : ℕ → ℕ → ℕ) (l i : ℕ)
    → 0 < used (suc l) i
    → Halves
        (in_use free (joined used l i))
        (in_use free (plus used (suc l) (bit_xor i 1)))
        l
        (i / 2)
joined-Halves free used l i out = record {
  whole = λ k. ground (arith, ==_refl l);
  halves = λ k.
      omega
        (arith, two_children i k, one_at-le used (suc l) i (suc l) k out, one_at_level used l i k);
  rest = λ m ne ne' k. ground arith;
}

module _ (depth l i : ℕ) {s : State} (free : ℕ → List ℕ) (used : ℕ → ℕ → ℕ)
    (v : IsValid s depth free used) (out : 0 < used (suc l) i) where
  abbrev buddy : ℕ
  buddy = bit_xor i 1

  abbrev merged_state : State
  merged_state =
      mark_used (suc l) buddy
        (list_remove (suc l) (add64 s.ctx.buffer (mul64 buddy (size_at s.ctx (suc l)))) s)

  in_tree : (suc l ≤ depth) × (i < 2 ^ suc l)
  in_tree = v.tiles.inside (suc l) i (omega arith)

  buddy_in_tree : buddy < 2 ^ suc l
  buddy_in_tree = rw buddy_index (omega (arith, in_tree, pow-suc 2 l))

  -- The free buddy leaves its list, and the parent takes the place of both.
  join_step :
      (ps qs : List ℕ)
      → free (suc l) ≡ ps ++ buddy ∷ qs
      → IsValid merged_state depth (with_list free (suc l) (ps ++ qs)) (joined used l i)
  join_step ps qs e =
      let (h, lt) = in_tree in
      let taken = take_step depth free used v (suc l) buddy h ps qs e in
      let free' = with_list free (suc l) (ps ++ qs) in
      let parent : i / 2 < 2 ^ l = omega (arith, lt, pow-suc 2 l) in
      rw (node_at v (suc l) buddy h buddy_in_tree) (record {
        ne_null = taken.ne_null;
        max_order = taken.max_order;
        small = taken.small;
        total_size = taken.total_size;
        min = taken.min;
        fits = taken.fits;
        lists = taken.lists;
        marks = taken.marks;
        bytes = taken.bytes;
        tiles =
            Tiles-join depth (in_use free' (joined used l i))
              (in_use free' (plus used (suc l) buddy)) l (i / 2) (omega arith) parent
              (joined-Halves free' used l i out) taken.tiles;
        merged = taken.merged;
      })

  buddy_free :
      (get_bit s.ctx.bits (node_index (suc l) buddy) == 0) ≡ false → 0 < count buddy (free (suc l))
  buddy_free bit = ground (arith, bit, v.marks (suc l) buddy in_tree.0 buddy_in_tree)

  buddy_busy :
      (get_bit s.ctx.bits (node_index (suc l) buddy) == 0) ≡ true
      → (j : ℕ) → i / 2 ≡ j / 2
      → i ≢ j
      → count j (free (suc l)) ≡ 0
  buddy_busy bit j same ne =
      let none_free : count buddy (free (suc l)) ≡ 0 =
        sym (v.marks (suc l) buddy in_tree.0 buddy_in_tree) ∙ (==_iff _ _).0 bit in
      subst (λ x. count x (free (suc l)) ≡ 0) (sym (buddy_only i j same ne)) none_free

-- The root has no buddy.
root_alone :
    {s : State} (depth i : ℕ) (free : ℕ → List ℕ) (used : ℕ → ℕ → ℕ)
    → IsValid s depth free used
    → 0 < used 0 i
    → (j : ℕ) → i / 2 ≡ j / 2
    → i ≢ j
    → count j (free 0) ≡ 0
root_alone depth i free used v out j same ne = elim (Bool-cases (count j (free 0) == 0)) [
  | inl e ↦ (==_iff _ _).0 e
  | inr there ↦ absurd (
      omega (
        arith,
        (v.tiles.inside 0 i (omega arith)).1,
        (v.tiles.inside 0 j (ground (arith, there))).1,
      ))
]

-- The loop, from a block that is handed out: the block is so no longer.
pub merge_loop_lem :
    (depth l i : ℕ) (s : State) (free : ℕ → List ℕ) (used : ℕ → ℕ → ℕ)
    → IsValid s depth free used
    → 0 < used l i
    → (free' : ℕ → List ℕ) × IsValid (merge_loop l i s) depth free' (minus used l i)
unfolding merge_loop
merge_loop_lem depth zero i s free used v out =
    (_, insert_step depth 0 i free used v out (root_alone depth i free used v out))
merge_loop_lem depth (suc l) i s free used v out =
    elim (Bool-cases (get_bit s.ctx.bits (node_index (suc l) (bit_xor i 1)) == 0)) [
      | inl busy ↦ rw busy (
        _,
        insert_step depth (suc l) i free used v out (buddy_busy depth l i free used v out busy),
      )
      | inr idle ↦
          let (ps, qs, e) =
            count-split (bit_xor i 1) (free (suc l)) (buddy_free depth l i free used v out idle) in
          let v' = join_step depth l i free used v out ps qs e in
          let (free', w) =
            merge_loop_lem depth l (i / 2) (merged_state depth l i free used v out) _
              (joined used l i) v' (ground (arith, ==_refl l, ==_refl (i / 2))) in
          rw idle (free', IsValid-used _ _ (λ m k. omega arith) w)
    ]

pub merge_loop-byte : (l i : ℕ) (s : State) → (merge_loop l i s).mem.byte ≡ s.mem.byte
unfolding merge_loop insert mark_used mark_free
merge_loop-byte zero i s = list_push-byte 0 _ (mark_free 0 i s)
merge_loop-byte (suc l) i s =
    elim (Bool-cases (get_bit s.ctx.bits (node_index (suc l) (bit_xor i 1)) == 0)) [
      | inl busy ↦ rw busy (list_push-byte (suc l) _ (mark_free (suc l) i s))
      | inr idle ↦ rw idle (
          merge_loop-byte l (i / 2) _
          ∙ list_remove-byte (suc l)
              (add64 s.ctx.buffer (mul64 (bit_xor i 1) (size_at s.ctx (suc l)))) s)
    ]

-- ===== src/Buddy/Whole.antt =====
-- Free buddies are always joined: once nothing is handed out, the buffer is one free block.
use liballo.Base.{
  ℕ, zero, suc, ◌+◌, ◌-◌, ◌*◌, ◌/◌, ◌^◌, ◌≤◌, ◌<◌, ◌≡◌, refl, sym, ap, ◌∙◌, ◌≢◌, inl, inr, List, [],
  ◌∷◌, count, arith, ◌==◌, ==_refl, ==_iff, Bool-cases, bit_xor,
}
use native.Mathlib.Nat.{one-le-pow, pow-suc, pow-le-pow_right, mul-div_cancel, div-div-eq-div-mul}
use native.Mathlib.Decide.{dec_lt}
use liballo.Base.Bits.{pow-add}
use liballo.Base.Cmd.{Returns, Returns-map}
use liballo.Buddy.{State, buddy_alloc_fn}
use liballo.Buddy.Tiling.{total, total-same, cell, cell-lt, cell-div}
use liballo.Buddy.Inv.{in_use, IsValid}
use liballo.Buddy.Alloc.{Handed, Outcome, buddy_alloc_lem}
use liballo.Buddy.Level.{block_lem}
use liballo.Buddy.Merge.{buddy_index}

-- Two sums that differ in one place.
pub total-at :
    (n l : ℕ) (f g : ℕ → ℕ)
    → l ≤ n
    → ((m : ℕ) → m ≤ n → m ≢ l → f m ≡ g m)
    → total n f + g l ≡ total n g + f l
total-at zero l f g h same = let e : l ≡ 0 = omega arith in rw e (omega arith)
total-at (suc n) l f g h same = elim (Bool-cases (l == suc n)) [
  | inl last ↦
      let e : l ≡ suc n = (==_iff _ _).0 last in
      rw e (omega (arith, total-same n f g (λ m k. same m (omega arith) (omega arith))))
  | inr before ↦ omega (
    arith,
    total-at n l f g (ground (arith, before)) (λ m k. same m (omega arith)),
    same (suc n) (omega arith) (ground (arith, before)),
  )
]

-- The block of a level above that a block is in, by the block's parent.
ancestor :
    (depth m k i : ℕ)
    → m ≤ depth
    → k < m
    → cell depth m i / 2 ^ (depth - k) ≡ i / 2 / 2 ^ (m - suc k)
ancestor depth m k i h lt =
    let a = 2 ^ (depth - m) in
    let c = 2 ^ (m - suc k) in
    let e : depth - k ≡ (depth - m) + suc (m - suc k) = omega arith in
    let p : 2 ^ (depth - k) ≡ a * (2 * c) =
      ap (λ x. 2 ^ x) e
      ∙ pow-add (depth - m) (suc (m - suc k))
      ∙ ap (λ x. a * x) (rw (pow-suc 2 (m - suc k)) (grind arith)) in
    rw
      (
        p,
        ← div-div-eq-div-mul (i * a) a (2 * c),
        mul-div_cancel i (one-le-pow (depth - m) 2 (omega arith)),
        ← div-div-eq-div-mul i 2 c,
      )
      refl

pub total-zero : (n : ℕ) → total n (λ l. 0) ≡ 0
total-zero zero = refl
total-zero (suc n) = omega (arith, total-zero n)

no_elements : (xs : List ℕ) → ((i : ℕ) → count i xs ≡ 0) → xs ≡ []
no_elements [] h = refl
no_elements (x ∷ xs) h = absurd (ground (arith, h x, ==_refl x))

one_element : (xs : List ℕ) → count 0 xs ≡ 1 → ((i : ℕ) → 0 < count i xs → i < 1) → xs ≡ 0 ∷ []
one_element [] one h = absurd (omega arith)
one_element (x ∷ xs) one h =
    let first : x ≡ 0 = omega (arith, h x (rw ==_refl (omega arith))) in
    let rest : (i : ℕ) → count i xs ≡ 0 = λ i. elim (Bool-cases (i == 0)) [
      | inl at ↦ let e : i ≡ 0 = (==_iff _ _).0 at in rw e (ground (arith, rw first at one))
      | inr at ↦ ground (arith, at, h i)
    ] in
    rw (first, no_elements xs rest) refl

one_not_empty : (x : ℕ) → ¬ (x ∷ [] ≡ [])
one_not_empty x e = ground (arith, ap (count x) e, ==_refl x)

abbrev pub nothing : ℕ → ℕ → ℕ
nothing l i = 0

module _ {s : State} (depth : ℕ) (free : ℕ → List ℕ) (v : IsValid s depth free nothing) where
  -- The blocks of `free` over a smallest block, level by level.
  abbrev over : ℕ → ℕ → ℕ
  over u l = in_use free nothing l (u / 2 ^ (depth - l))

  -- With nothing below it, a level that has a block has its buddy too.
  no_single :
      (m i : ℕ)
      → 0 < m
      → m ≤ depth
      → ((k : ℕ) → m < k → k ≤ depth → (j : ℕ) → count j (free k) ≡ 0)
      → count i (free m) ≡ 0
  no_single m i pos h below = elim (Bool-cases (count i (free m) == 0)) [
    | inl e ↦ (==_iff _ _).0 e
    | inr there ↦
        let p : 0 < count i (free m) = ground (arith, there) in
        let lt = (v.tiles.inside m i (omega arith)).1 in
        let j = bit_xor i 1 in
        let parent : i / 2 ≡ j / 2 = rw buddy_index (omega arith) in
        let other : i ≢ j = rw buddy_index (omega arith) in
        let even : 2 ^ m ≡ 2 * 2 ^ (m - 1) =
          ap (λ x. 2 ^ x) (omega arith) ∙ pow-suc 2 (m - 1) ∙ omega arith in
        let lt' : j < 2 ^ m = rw buddy_index (omega (arith, lt, even)) in
        let one =
          v.tiles.cover (cell depth m i)
            (omega (arith, cell-lt depth m i h lt, one-le-pow (depth - m) 2)) in
        let one' =
          v.tiles.cover (cell depth m j)
            (omega (arith, cell-lt depth m j h lt', one-le-pow (depth - m) 2)) in
        let same : (k : ℕ) → k ≤ depth → k ≢ m → over (cell depth m i) k ≡ over (cell depth m j) k =
          λ k hk ne. elim (dec_lt k m) [
            | yes above ↦
                rw (ancestor depth m k i h above, ancestor depth m k j h above, parent) refl
            | no not_above ↦ omega (
              arith,
              below k (omega arith) hk (cell depth m i / 2 ^ (depth - k)),
              below k (omega arith) hk (cell depth m j / 2 ^ (depth - k)),
            )
          ] in
        let both = total-at depth m (over (cell depth m i)) (over (cell depth m j)) h same in
        let here = ap (λ x. count x (free m)) (cell-div depth m i) in
        let there' = ap (λ x. count x (free m)) (cell-div depth m j) in
        omega (arith, both, one, one', here, there', v.merged m i j parent other p)
  ]

  only_root : (k m : ℕ) → depth < m + k → 0 < m → m ≤ depth → (i : ℕ) → count i (free m) ≡ 0
  only_root zero m far pos h i = absurd (omega arith)
  only_root (suc k) m far pos h i =
      no_single m i pos h (λ m' lt h' j. only_root k m' (omega arith) (omega arith) h' j)

  root_once : count 0 (free 0) ≡ 1
  root_once =
      let one = v.tiles.cover 0 (one-le-pow depth 2 (omega arith)) in
      let alone =
        total-at depth 0 (over 0) (λ l. 0) (omega arith)
          (λ m hm ne. omega (
            arith,
            only_root (suc depth) m (omega arith) (omega arith) hm (0 / 2 ^ (depth - m)),
          )) in
      let zero_cell : 0 * 2 ^ (depth - 0) ≡ 0 = grind arith in
      let root : 0 / 2 ^ (depth - 0) ≡ 0 =
        ap (λ x. x / 2 ^ (depth - 0)) (sym zero_cell) ∙ cell-div depth 0 0 in
      omega (arith, one, alone, total-zero depth, ap (λ x. count x (free 0)) root)

  -- When no block is handed out, the whole buffer is free as one block, and no other block is: every
  -- free block has been joined with its buddy, whatever the order of the calls was.
  all_free_lem : (free 0 ≡ 0 ∷ []) × ((l : ℕ) → 0 < l → l ≤ depth → free l ≡ [])
  all_free_lem = (
    one_element (free 0) root_once (λ i h. (v.tiles.inside 0 i (omega arith)).1),
    λ l pos h. no_elements (free l) (only_root (suc depth) l (omega arith) pos h),
  )

-- Then a request of any size up to that of the buffer gets a block.
pub buddy_alloc-all_free :
    (s : State) (depth size : ℕ) (free : ℕ → List ℕ)
    → IsValid s depth free nothing
    → 0 < size
    → size ≤ 2 ^ (depth + 5)
    → Returns (Handed s depth nothing size) (buddy_alloc_fn size s)
buddy_alloc-all_free s depth size free v pos le =
    let all_levels : depth - 0 ≡ depth = omega arith in
    let whole : size ≤ 32 * 2 ^ (depth - 0) = rw (block_lem depth 0, all_levels) le in
    let up =
      pow-le-pow_right {n = 2} (omega arith) {i = depth + 5} {j = 63} (omega (arith, v.small)) in
    Returns-map (Outcome s depth free nothing size) _ (buddy_alloc_fn size s)
      (buddy_alloc_lem s depth size free nothing v (omega (arith, up)))
      (λ ptr s' r. elim r [
        | inl (e, same, inl zero_size) ↦ absurd (omega arith)
        | inl (e, same, inr all) ↦
            absurd (one_not_empty 0 (sym (all_free_lem depth free v).0 ∙ all 0 (omega arith) whole))
        | inr (handed, _) ↦ handed
      ])

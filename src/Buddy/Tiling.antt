-- ===== src/Buddy/Tiling.antt =====
-- A binary tree over a buffer: the nodes in use cover every smallest block exactly once.
use liballo.Base.{
  ℕ, zero, suc, ◌+◌, ◌-◌, ◌*◌, ◌/◌, ◌^◌, ◌≤◌, ◌<◌, ◌≡◌, sym, ap, ◌∙◌, ◌≢◌, inl, inr, arith, ◌==◌,
  ==_iff, Bool-cases, if◌then◌else◌, subst,
}
use native.Mathlib.Nat.{one-le-pow, pow-suc, mul-div_cancel, div-div-eq-div-mul}
use native.Mathlib.Decide.{dec_lt}
use liballo.Base.Bits.{pow-add}

-- The sum over the levels from 0 to `n`.
abbrev pub total : (n : ℕ) → (ℕ → ℕ) → ℕ
total zero f = f 0
total (suc n) f = f (suc n) + total n f

le-total : (n l : ℕ) (f : ℕ → ℕ) → l ≤ n → f l ≤ total n f
le-total zero l f h = let e : l ≡ 0 = omega arith in rw e (omega arith)
le-total (suc n) l f h = elim (Bool-cases (l == suc n)) [
  | inl last ↦ let e : l ≡ suc n = (==_iff _ _).0 last in rw e (omega arith)
  | inr before ↦ omega (arith, le-total n l f (ground (arith, before)))
]

pub two_le-total : (n l m : ℕ) (f : ℕ → ℕ) → l < m → m ≤ n → f l + f m ≤ total n f
two_le-total zero l m f h h' = absurd (omega arith)
two_le-total (suc n) l m f h h' = elim (Bool-cases (m == suc n)) [
  | inl last ↦
      let e : m ≡ suc n = (==_iff _ _).0 last in rw e (omega (arith, le-total n l f (omega arith)))
  | inr before ↦ omega (arith, two_le-total n l m f h (ground (arith, before)))
]

pub total-same : (n : ℕ) (f g : ℕ → ℕ) → ((l : ℕ) → l ≤ n → f l ≡ g l) → total n f ≡ total n g
total-same zero f g h = h 0 (omega arith)
total-same (suc n) f g h =
    omega (arith, h (suc n) (omega arith), total-same n f g (λ l k. h l (omega arith)))

total-top :
    (n : ℕ) (f g : ℕ → ℕ) → ((m : ℕ) → m < n → f m ≡ g m) → total n f + g n ≡ total n g + f n
total-top zero f g same = omega arith
total-top (suc n) f g same = omega (arith, total-same n f g (λ l k. same l (omega arith)))

-- Two functions that differ at two neighbours only.
total-step :
    (n l : ℕ) (f g : ℕ → ℕ)
    → l < n
    → f l + f (suc l) ≡ g l + g (suc l)
    → ((m : ℕ) → m ≢ l → m ≢ suc l → f m ≡ g m)
    → total n f ≡ total n g
total-step zero l f g h e same = absurd (omega arith)
total-step (suc n) l f g h e same = elim (Bool-cases (l == n)) [
  | inl last ↦
      let q : l ≡ n = (==_iff _ _).0 last in
      let e' : f n + f (suc n) ≡ g n + g (suc n) =
        subst (λ k. f k + f (suc k) ≡ g k + g (suc k)) q e in
      let below = total-top n f g (λ m k. same m (omega arith) (omega arith)) in
      omega (arith, e', below)
  | inr before ↦ omega (
    arith,
    total-step n l f g (ground (arith, before)) e same,
    same (suc n) (omega arith) (ground (arith, before)),
  )
]

-- The nodes of a tree of depth `depth`: how often each is in use.
pub record Tiles (depth : ℕ) (a : ℕ → ℕ → ℕ) : Type 0 where
  pub inside : (l i : ℕ) → 0 < a l i → (l ≤ depth) × (i < 2 ^ l)
  pub cover : (u : ℕ) → u < 2 ^ depth → total depth (λ l. a l (u / 2 ^ (depth - l))) ≡ 1

-- The first of the smallest blocks under a node.
abbrev pub cell : (depth l i : ℕ) → ℕ
cell depth l i = i * 2 ^ (depth - l)

pub cell-div : (depth l i : ℕ) → cell depth l i / 2 ^ (depth - l) ≡ i
cell-div depth l i = mul-div_cancel i (one-le-pow (depth - l) 2 (omega arith))

pub pow-split : (depth l : ℕ) → l ≤ depth → 2 ^ l * 2 ^ (depth - l) ≡ 2 ^ depth
pow-split depth l h = sym (pow-add l (depth - l)) ∙ ap (λ k. 2 ^ k) (omega arith)

pub cell-lt : (depth l i : ℕ) → l ≤ depth → i < 2 ^ l → cell depth l i + 2 ^ (depth - l) ≤ 2 ^ depth
cell-lt depth l i h lt =
    let whole = pow-split depth l h in
    let up : (i + 1) * 2 ^ (depth - l) ≤ 2 ^ l * 2 ^ (depth - l) = grind arith in
    omega (arith, whole, up)

-- No node is in use twice, and no two nodes in use have a smallest block in common.
pub Tiles-le_one : (depth : ℕ) (a : ℕ → ℕ → ℕ) → Tiles depth a → (l i : ℕ) → a l i ≤ 1
Tiles-le_one depth a t l i = elim (Bool-cases (a l i == 0)) [
  | inl none_there ↦ ground (arith, none_there)
  | inr some_there ↦
      let (h, lt) = t.inside l i (ground (arith, some_there)) in
      let one =
        t.cover (cell depth l i)
          (omega (arith, cell-lt depth l i h lt, one-le-pow (depth - l) 2)) in
      let le = le-total depth l (λ m. a m (cell depth l i / 2 ^ (depth - m))) h in
      omega (arith, one, rw cell-div at le)
]

cell_level :
    (depth : ℕ) (a : ℕ → ℕ → ℕ)
    → Tiles depth a
    → (l i m j : ℕ) → 0 < a l i
    → 0 < a m j
    → l < m
    → cell depth l i ≢ cell depth m j
cell_level depth a t l i m j p q h e =
    let (hl, lt) = t.inside l i p in
    let (hm, ltm) = t.inside m j q in
    let one =
      t.cover (cell depth l i) (omega (arith, cell-lt depth l i hl lt, one-le-pow (depth - l) 2)) in
    let two = two_le-total depth l m (λ k. a k (cell depth l i / 2 ^ (depth - k))) h hm in
    let first : a l (cell depth l i / 2 ^ (depth - l)) ≡ a l i = ap (a l) (cell-div depth l i) in
    let second : a m (cell depth l i / 2 ^ (depth - m)) ≡ a m j =
      ap (λ c. a m (c / 2 ^ (depth - m))) e ∙ ap (a m) (cell-div depth m j) in
    omega (arith, one, two, first, second)

pub Tiles-cell :
    (depth : ℕ) (a : ℕ → ℕ → ℕ)
    → Tiles depth a
    → (l i m j : ℕ) → 0 < a l i
    → 0 < a m j
    → cell depth l i ≡ cell depth m j
    → (l ≡ m) × (i ≡ j)
Tiles-cell depth a t l i m j p q e = elim (dec_lt l m) [
  | yes h ↦ absurd (cell_level depth a t l i m j p q h e)
  | no h ↦ elim (dec_lt m l) [
    | yes h' ↦ absurd (cell_level depth a t m j l i q p h' (sym e))
    | no h' ↦
        let same : l ≡ m = omega arith in
        let e' : cell depth m i ≡ cell depth m j =
          subst (λ k. cell depth k i ≡ cell depth m j) same e in
        (same, sym (cell-div depth m i) ∙ ap (λ c. c / 2 ^ (depth - m)) e' ∙ cell-div depth m j)
  ]
]

-- A node and its two halves: `a` has the node where `b` has the halves.
pub record Halves (a b : ℕ → ℕ → ℕ) (l i : ℕ) : Type 0 where
  pub whole : (k : ℕ) → a l k ≡ b l k + (if k == i then 1 else 0)
  pub halves : (k : ℕ) → b (suc l) k ≡ a (suc l) k + (if k / 2 == i then 1 else 0)
  pub rest : (m : ℕ) → m ≢ l → m ≢ suc l → (k : ℕ) → a m k ≡ b m k

div-level : (depth l u : ℕ) → l < depth → u / 2 ^ (depth - l) ≡ u / 2 ^ (depth - suc l) / 2
div-level depth l u h =
    let e : depth - l ≡ suc (depth - suc l) = omega arith in
    rw e (
      ap (λ w. u / w) (pow-suc 2 (depth - suc l))
      ∙ sym (div-div-eq-div-mul u (2 ^ (depth - suc l)) 2))

Halves-total :
    (depth : ℕ) (a b : ℕ → ℕ → ℕ) (l i : ℕ)
    → l < depth
    → Halves a b l i
    → (u : ℕ)
    → total depth (λ m. a m (u / 2 ^ (depth - m))) ≡ total depth (λ m. b m (u / 2 ^ (depth - m)))
Halves-total depth a b l i h v u =
    total-step depth l _ _ h
      (rw (div-level depth l u h)
        (omega (arith, v.whole (u / 2 ^ (depth - suc l) / 2), v.halves (u / 2 ^ (depth - suc l)))))
      (λ m ne ne'. v.rest m ne ne' _)

below_halves : (l i k : ℕ) → i < 2 ^ l → k / 2 ≡ i → k < 2 ^ suc l
below_halves l i k lt e = omega (arith, pow-suc 2 l)

split_inside :
    (depth : ℕ) (a b : ℕ → ℕ → ℕ) (l i : ℕ)
    → l < depth
    → i < 2 ^ l
    → Halves a b l i
    → Tiles depth a
    → (m k : ℕ) → 0 < b m k
    → (m ≤ depth) × (k < 2 ^ m)
split_inside depth a b l i h lt v t m k p = elim (Bool-cases (m == l)) [
  | inl e ↦
      let q : m ≡ l = (==_iff _ _).0 e in
      t.inside m k (rw q (omega (arith, v.whole k, subst (λ x. 0 < b x k) q p)))
  | inr ne ↦ elim (Bool-cases (m == suc l)) [
    | inl e ↦
        let q : m ≡ suc l = (==_iff _ _).0 e in
        let p' : 0 < b (suc l) k = subst (λ x. 0 < b x k) q p in
        elim (Bool-cases (k / 2 == i)) [
          | inl half ↦ rw q (omega arith, below_halves l i k lt ((==_iff _ _).0 half))
          | inr other ↦ rw q (t.inside (suc l) k (ground (arith, other, v.halves k)))
        ]
    | inr ne' ↦ t.inside m k (omega (arith, v.rest m (ground (arith, ne)) (ground (arith, ne')) k))
  ]
]

join_inside :
    (depth : ℕ) (a b : ℕ → ℕ → ℕ) (l i : ℕ)
    → l < depth
    → i < 2 ^ l
    → Halves a b l i
    → Tiles depth b
    → (m k : ℕ) → 0 < a m k
    → (m ≤ depth) × (k < 2 ^ m)
join_inside depth a b l i h lt v t m k p = elim (Bool-cases (m == l)) [
  | inl e ↦
      let q : m ≡ l = (==_iff _ _).0 e in
      let p' : 0 < a l k = subst (λ x. 0 < a x k) q p in
      elim (Bool-cases (k == i)) [
        | inl same ↦ let r : k ≡ i = (==_iff _ _).0 same in rw (q, r) (omega arith, lt)
        | inr other ↦ rw q (t.inside l k (ground (arith, other, v.whole k)))
      ]
  | inr ne ↦ elim (Bool-cases (m == suc l)) [
    | inl e ↦
        let q : m ≡ suc l = (==_iff _ _).0 e in
        t.inside m k (rw q (omega (arith, v.halves k, subst (λ x. 0 < a x k) q p)))
    | inr ne' ↦ t.inside m k (omega (arith, v.rest m (ground (arith, ne)) (ground (arith, ne')) k))
  ]
]

-- To cut a node into its halves, or to join them, keeps the tiling.
module _ (depth : ℕ) (a b : ℕ → ℕ → ℕ) (l i : ℕ) (h : l < depth) (lt : i < 2 ^ l)
    (v : Halves a b l i) where
  pub Tiles-split : Tiles depth a → Tiles depth b
  Tiles-split t = record {
    inside = split_inside depth a b l i h lt v t;
    cover = λ u k. sym (Halves-total depth a b l i h v u) ∙ t.cover u k;
  }

  pub Tiles-join : Tiles depth b → Tiles depth a
  Tiles-join t = record {
    inside = join_inside depth a b l i h lt v t;
    cover = λ u k. Halves-total depth a b l i h v u ∙ t.cover u k;
  }

pub Tiles-same :
    (depth : ℕ) (a b : ℕ → ℕ → ℕ) → ((l i : ℕ) → a l i ≡ b l i) → Tiles depth a → Tiles depth b
Tiles-same depth a b e t = record {
  inside = λ l i p. t.inside l i (rw e p);
  cover = λ u h. total-same depth _ _ (λ l k. sym (e l _)) ∙ t.cover u h;
}

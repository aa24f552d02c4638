-- ===== src/Buddy/Links.antt =====
-- The doubly linked lists of src/allo_buddy.c: what `list_push` and `list_remove` do to the words.
use liballo.Base.{
  ℕ, ◌+◌, ◌^◌, ◌≤◌, ◌≡◌, refl, sym, ◌≢◌, ◌⊎◌, inl, inr, true, false, List, [], ◌∷◌, arith, ◌==◌,
  ==_refl, if◌then◌else◌, add64, subst,
}
use liballo.Mem.{Ptr, null, update}

-- Two nodes, of 16 bytes each, with no address in common.
abbrev pub Far : Ptr → Ptr → Type 0
Far p q = (p + 16 ≤ q) ⊎ (q + 16 ≤ p)

-- A node that the address space holds.
abbrev pub Node : Ptr → Type 0
Node p = (p ≢ null) × (p + 16 ≤ 2 ^ 64)

-- From `head`, whose `prev` is `before`, the links lead both ways through these nodes, up to `last`,
-- whose `next` is `after`.
pub data Seg (w : Ptr → ℕ) (after last : Ptr) : (before head : Ptr) → List Ptr → Type 0 where
  done : {before head : Ptr} → head ≡ after → before ≡ last → Seg w after last before head []
  node :
      {before head : Ptr} {ps : List Ptr}
      → Node head
      → w (add64 head 8) ≡ before
      → Seg w after last head (w head) ps
      → Seg w after last before head (head ∷ ps)

abbrev pub All : (Ptr → Type 0) → List Ptr → Type 0
All P [] = Unit
All P (q ∷ qs) = P q × All P qs

abbrev pub AllFar : Ptr → List Ptr → Type 0
AllFar p = All (Far p)

-- Pairwise.
abbrev pub Spread : List Ptr → Type 0
Spread [] = Unit
Spread (p ∷ ps) = AllFar p ps × Spread ps

-- A write to a field of a node elsewhere changes no links.
pub Seg-update :
    {w : Ptr → ℕ} (q v : ℕ) {after last before head : Ptr} {ps : List Ptr}
    → Node q
    → Seg w after last before head ps
    → AllFar q ps
    → Seg (update w q v) after last before head ps
Seg-update q v n (done e f) far = done e f
Seg-update {w} q v {after} {last} n (node {head = h} {ps} m p s) (f, far) =
    let same : update w q v h ≡ w h = ground arith in
    node m (ground arith)
      (subst (λ t. Seg (update w q v) after last h t ps) (sym same) (Seg-update q v n s far))

pub Seg-update_prev :
    {w : Ptr → ℕ} (q v : ℕ) {after last before head : Ptr} {ps : List Ptr}
    → Node q
    → Seg w after last before head ps
    → AllFar q ps
    → Seg (update w (add64 q 8) v) after last before head ps
Seg-update_prev q v n (done e f) far = done e f
Seg-update_prev {w} q v {after} {last} n (node {head = h} {ps} m p s) (f, far) =
    let same : update w (add64 q 8) v h ≡ w h = ground arith in
    node m (ground arith) (
      subst (λ t. Seg (update w (add64 q 8) v) after last h t ps) (sym same)
        (Seg-update_prev q v n s far))

pub Seg-head :
    {w : Ptr → ℕ} {after last before head p : Ptr} {ps : List Ptr}
    → Seg w after last before head (p ∷ ps)
    → (p ≡ head) × Node head × (w (add64 head 8) ≡ before)
Seg-head (node m e s) = (refl, m, e)

-- The first node gets another `prev`.
pub Seg-set_first :
    {w : Ptr → ℕ} (v : ℕ) {after last before head p : Ptr} {ps : List Ptr}
    → Seg w after last before head (p ∷ ps)
    → AllFar p ps
    → Seg (update w (add64 head 8) v) after last v head (p ∷ ps)
Seg-set_first {w} v {after} {last} (node {head = h} {ps} m e s) far =
    let same : update w (add64 h 8) v h ≡ w h = ground arith in
    node m (rw ==_refl refl) (
      subst (λ t. Seg (update w (add64 h 8) v) after last h t ps) (sym same)
        (Seg-update_prev h v m s far))

-- The last node is one of the nodes.
pub Seg-last :
    {w : Ptr → ℕ} (P : Ptr → Type 0) {after last before head p : Ptr} {ps : List Ptr}
    → Seg w after last before head (p ∷ ps)
    → All P (p ∷ ps)
    → Node last × P last
Seg-last P (node m e (done f g)) (holds, rest) = subst (λ t. Node t × P t) g (m, holds)
Seg-last P (node m e (node m' e' s)) (holds, rest) = Seg-last P (node m' e' s) rest

pub Seg-last_Node :
    {w : Ptr → ℕ} {after last before head p : Ptr} {ps : List Ptr}
    → Seg w after last before head (p ∷ ps)
    → Node last
Seg-last_Node (node m e (done f g)) = subst Node g m
Seg-last_Node (node m e (node m' e' s)) = Seg-last_Node (node m' e' s)

-- The last node gets another `next`.
pub Seg-set_last :
    {w : Ptr → ℕ} (v : ℕ) {after last before head p : Ptr} {ps : List Ptr}
    → Seg w after last before head (p ∷ ps)
    → Spread (p ∷ ps)
    → Seg (update w last v) v last before head (p ∷ ps)
Seg-set_last {w} v (node {head = h} m e (done f g)) sp =
    node m (ground arith) (done (ground arith) g)
Seg-set_last {w} v {after} {last} (node {head = h} m e (node {ps} m' e' s)) (far, sp) =
    let at = Seg-last (Far h) (node m' e' s) far in
    let same : update w last v h ≡ w h = ground (arith, at) in
    node m (ground (arith, at)) (
      subst (λ t. Seg (update w last v) v last h t (w h ∷ ps)) (sym same)
        (Seg-set_last v (node m' e' s) sp))

-- The words after `list_push` of `a` before `head`.
unfoldable pub push_words : (Ptr → ℕ) → (a head : Ptr) → Ptr → ℕ
push_words w a head =
    let w' = update (update w a head) (add64 a 8) null in
    if head == null then w' else update w' (add64 head 8) a

-- A whole list.
abbrev pub Linked : (Ptr → ℕ) → (head : Ptr) → List Ptr → Type 0
Linked w head ps = (last : Ptr) × Seg w null last null head ps

pub push_words-Linked :
    (w : Ptr → ℕ) (a head : Ptr) (ps : List Ptr)
    → Node a
    → Linked w head ps
    → AllFar a ps
    → Spread ps
    → Linked (push_words w a head) a (a ∷ ps)
unfolding push_words
push_words-Linked w a head [] n (l, done e f) far sp =
    (a, node n (ground arith) (done (ground arith) refl))
push_words-Linked w a head (p ∷ ps) n (l, s) far sp =
    let at = Seg-head s in
    let some_head : (head == null) ≡ false = ground (arith, at) in
    let e : p ≡ head = at.0 in
    let far' : Far a head = subst (Far a) e far.0 in
    let w' = update (update w a head) (add64 a 8) null in
    let moved = Seg-update_prev a null n (Seg-update a head n s far) far in
    let first = Seg-set_first a moved sp.0 in
    let w'' = update w' (add64 head 8) a in
    let same : w'' a ≡ head = ground (arith, at) in
    rw some_head
      (l, node n (ground (arith, at)) (subst (λ t. Seg w'' null l a t (p ∷ ps)) (sym same) first))

-- A list elsewhere does not notice.
pub push_words-frame :
    (w : Ptr → ℕ) (a head : Ptr) {after last before first : Ptr} (rs : List Ptr)
    → Node a
    → (head ≡ null) ⊎ (Node head × AllFar head rs)
    → AllFar a rs
    → Seg w after last before first rs
    → Seg (push_words w a head) after last before first rs
unfolding push_words
push_words-frame w a head rs n h far s =
    let moved = Seg-update_prev a null n (Seg-update a head n s far) far in
    elim h [
      | inl none_there ↦ let t : (head == null) ≡ true = ground (arith, none_there) in rw t moved
      | inr (m, far') ↦
          let t : (head == null) ≡ false = ground (arith, m) in
          rw t (Seg-update_prev head a m moved far')
    ]

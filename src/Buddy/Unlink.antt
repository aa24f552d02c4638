-- ===== src/Buddy/Unlink.antt =====
-- `list_remove` of src/allo_buddy.c takes one node out of its list.
use liballo.Base.{
  ℕ, ◌≡◌, refl, sym, ◌⊎◌, inl, inr, true, false, List, [], ◌∷◌, ◌++◌, arith, ◌==◌, if◌then◌else◌,
  add64, subst,
}
use liballo.Mem.{Ptr, null, update}
use liballo.Buddy.Links.{
  Far, Node, Seg, done, node, All, AllFar, Spread, Seg-update, Seg-update_prev, Seg-set_first,
  Seg-set_last, Seg-last, Seg-last_Node, Seg-head, Linked,
}

Seg-split :
    {w : Ptr → ℕ} (ps : List Ptr) {a : Ptr} {qs : List Ptr} {after last before head : Ptr}
    → Seg w after last before head (ps ++ a ∷ qs)
    → (m : Ptr) × Seg w a m before head ps × Seg w after last m a (a ∷ qs)
Seg-split [] {before} (node m e s) = (before, done refl refl, node m e s)
Seg-split (p ∷ ps) (node m e s) = let (l, left, right) = Seg-split ps s in (l, node m e left, right)

Seg-join :
    {w : Ptr → ℕ} {a m after last before head : Ptr} {ps qs : List Ptr}
    → Seg w a m before head ps
    → Seg w after last m a qs
    → Seg w after last before head (ps ++ qs)
Seg-join {w} {a} {after} {last} {before} {qs} (done e f) t =
    subst (λ x. Seg w after last before x qs) (sym e)
      (subst (λ x. Seg w after last x a qs) (sym f) t)
Seg-join (node m e s) t = node m e (Seg-join s t)

-- Every node of the first list is far from every node of the second.
abbrev pub Cross : List Ptr → List Ptr → Type 0
Cross ps qs = All (λ p. AllFar p qs) ps

All-append : (P : Ptr → Type 0) (ps qs : List Ptr) → All P (ps ++ qs) → All P ps × All P qs
All-append P [] qs h = (tt, h)
All-append P (p ∷ ps) qs (h, t) = let (l, r) = All-append P ps qs t in ((h, l), r)

pub Spread-append : (ps qs : List Ptr) → Spread (ps ++ qs) → Spread ps × Spread qs × Cross ps qs
Spread-append [] qs h = (tt, h, tt)
Spread-append (p ∷ ps) qs (far, h) =
    let (l, r, c) = Spread-append ps qs h in
    let (far_l, far_r) = All-append (Far p) ps qs far in ((far_l, l), r, (far_r, c))

Cross-head :
    (ps : List Ptr) (q : Ptr) (qs : List Ptr) → Cross ps (q ∷ qs) → AllFar q ps × Cross ps qs
Cross-head [] q qs c = (tt, tt)
Cross-head (p ∷ ps) q qs ((f, far), c) =
    let (l, r) = Cross-head ps q qs c in ((ground arith, l), (far, r))

-- The words and the head after `list_remove` of `a`.
unfoldable pub unlink_words : (Ptr → ℕ) → Ptr → Ptr → ℕ
unlink_words w a =
    let w' = if w (add64 a 8) == null then w else update w (w (add64 a 8)) (w a) in
    if w' a == null then w' else update w' (add64 (w' a) 8) (w' (add64 a 8))

abbrev pub unlink_head : (Ptr → ℕ) → (a head : Ptr) → Ptr
unlink_head w a head = if w (add64 a 8) == null then w a else head

-- What comes before `a` now leads to `n`.
unlink_left :
    (w : Ptr → ℕ) (n : Ptr) {a m head : Ptr} (ps : List Ptr)
    → Seg w a m null head ps
    → Spread ps
    → Seg (if m == null then w else update w m n) n m null (if m == null then n else head) ps
unlink_left w n {a} {m} [] (done e f) sp =
    let none_before : (m == null) ≡ true = ground (arith, f) in rw none_before (done refl f)
unlink_left w n {a} {m} (p ∷ ps) s sp =
    let at = Seg-last_Node s in
    let some_before : (m == null) ≡ false = ground (arith, at) in
    rw some_before (Seg-set_last n s sp)

-- What comes after `a` now leads back to `m`.
unlink_right :
    (w : Ptr → ℕ) (m : Ptr) {a n last : Ptr} (qs : List Ptr)
    → Seg w null last a n qs
    → Spread qs
    → (l : Ptr) × Seg (if n == null then w else update w (add64 n 8) m) null l m n qs
unlink_right w m {n} [] (done e f) sp = (m, done e refl)
unlink_right w m {n} {last} (q ∷ qs) s sp =
    let at = Seg-head s in
    let some_after : (n == null) ≡ false = ground (arith, at.1) in
    rw some_after (last, Seg-set_first m s sp.0)

Seg-tail :
    {w : Ptr → ℕ} {after last before head p : Ptr} {ps : List Ptr}
    → Seg w after last before head (p ∷ ps)
    → Seg w after last head (w head) ps
Seg-tail (node m e s) = s

-- Where `last` is NULL or one of the nodes, and `head` likewise.
last_Cross :
    {w : Ptr → ℕ} {after last head : Ptr} (ps qs : List Ptr)
    → Seg w after last null head ps
    → Cross ps qs
    → (last ≡ null) ⊎ (Node last × AllFar last qs)
last_Cross [] qs (done e f) c = inl (sym f)
last_Cross (p ∷ ps) qs s c = inr (Seg-last (λ x. AllFar x qs) s c)

head_Cross :
    {w : Ptr → ℕ} {last before head : Ptr} (ps qs : List Ptr)
    → Seg w null last before head qs
    → Cross ps qs
    → (head ≡ null) ⊎ (Node head × AllFar head ps)
head_Cross ps [] (done e f) c = inl e
head_Cross ps (q ∷ qs) (node m e s) c = inr (m, (Cross-head ps q qs c).0)

-- The second half of `list_remove`.
unlink_rest :
    (w : Ptr → ℕ) {a m n last head : Ptr} (ps qs : List Ptr)
    → Seg w n m null head ps
    → Seg w null last a n qs
    → Spread qs
    → Cross ps qs
    → w a ≡ n
    → w (add64 a 8) ≡ m
    → Linked (if w a == null then w else update w (add64 (w a) 8) (w (add64 a 8))) head (ps ++ qs)
unlink_rest w {m} {n} ps qs left right sp c e e' =
    let (l, right') = unlink_right w m qs right sp in
    rw (e, e')
      (elim (head_Cross ps qs right c) [
        | inl none_after ↦
            let t : (n == null) ≡ true = ground (arith, none_after) in
            rw t (l, Seg-join left (rw t at right'))
        | inr (some, far) ↦
            let t : (n == null) ≡ false = ground (arith, some) in
            rw t (l, Seg-join (Seg-update_prev n m some left far) (rw t at right'))
      ])

pub unlink_words-Linked :
    (w : Ptr → ℕ) (a head : Ptr) (ps qs : List Ptr)
    → Linked w head (ps ++ a ∷ qs)
    → Spread (ps ++ a ∷ qs)
    → Linked (unlink_words w a) (unlink_head w a head) (ps ++ qs)
unfolding unlink_words
unlink_words-Linked w a head ps qs (l, s) sp =
    let (m, left, right) = Seg-split ps s in
    let (same, some, prev) = Seg-head right in
    let (sp_left, (far_a, sp_right), cross) = Spread-append ps (a ∷ qs) sp in
    let (far_ps, cross') = Cross-head ps a qs cross in
    let left' = unlink_left w (w a) ps left sp_left in
    rw prev (elim (last_Cross ps (a ∷ qs) left cross) [
      | inl none_before ↦
          let t : (m == null) ≡ true = ground (arith, none_before) in
          rw t (unlink_rest w ps qs (rw t at left') (Seg-tail right) sp_right cross' refl prev)
      | inr (some_m, far_m) ↦
          let t : (m == null) ≡ false = ground (arith, some_m) in
          rw t (
            unlink_rest (update w m (w a)) ps qs (rw t at left')
              (Seg-update m (w a) some_m (Seg-tail right) far_m.1) sp_right cross'
              (ground (arith, some, some_m, far_m.0)) (ground (arith, some, some_m, far_m.0, prev)))
    ])

pub first_Cross :
    {w : Ptr → ℕ} {last before head : Ptr} (qs rs : List Ptr)
    → Seg w null last before head qs
    → Cross qs rs
    → (head ≡ null) ⊎ (Node head × AllFar head rs)
first_Cross [] rs (done e f) c = inl e
first_Cross (q ∷ qs) rs (node m e s) c = inr (m, c.0)

unlink_rest-frame :
    (w : Ptr → ℕ) {a m n : Ptr} {after last before first : Ptr} (rs : List Ptr)
    → (n ≡ null) ⊎ (Node n × AllFar n rs)
    → w a ≡ n
    → w (add64 a 8) ≡ m
    → Seg w after last before first rs
    → Seg
        (if w a == null then w else update w (add64 (w a) 8) (w (add64 a 8)))
        after
        last
        before
        first
        rs
unlink_rest-frame w {m} {n} rs h e e' t =
    rw (e, e')
      (elim h [
        | inl none_after ↦ let test : (n == null) ≡ true = ground (arith, none_after) in rw test t
        | inr (some, far) ↦
            let test : (n == null) ≡ false = ground (arith, some) in
            rw test (Seg-update_prev n m some t far)
      ])

-- A list elsewhere does not notice.
pub unlink_words-frame :
    (w : Ptr → ℕ) (a head : Ptr) (ps qs : List Ptr) {after last before first : Ptr} (rs : List Ptr)
    → Linked w head (ps ++ a ∷ qs)
    → Spread (ps ++ a ∷ qs)
    → Cross (ps ++ a ∷ qs) rs
    → Seg w after last before first rs
    → Seg (unlink_words w a) after last before first rs
unfolding unlink_words
unlink_words-frame w a head ps qs rs (l, s) sp c t =
    let (m, left, right) = Seg-split ps s in
    let (same, some, prev) = Seg-head right in
    let (sp_left, sp_right, cross) = Spread-append ps (a ∷ qs) sp in
    let (c_left, (c_a, c_right)) = All-append (λ p. AllFar p rs) ps (a ∷ qs) c in
    let after_a = first_Cross qs rs (Seg-tail right) c_right in
    rw prev (elim (last_Cross ps (a ∷ qs) left cross) [
      | inl none_before ↦
          let test : (m == null) ≡ true = ground (arith, none_before) in
          rw test (unlink_rest-frame w rs after_a refl prev t)
      | inr (some_m, far_m) ↦
          let test : (m == null) ≡ false = ground (arith, some_m) in
          let w' = update w m (w a) in
          elim (last_Cross ps rs left c_left) [
            | inl none_before ↦ absurd (some_m.0 none_before)
            | inr (m_node, m_far) ↦ rw test (
                unlink_rest-frame w' {m = m} rs after_a (ground (arith, some, some_m, far_m.0))
                  (ground (arith, some, some_m, far_m.0, prev)) (Seg-update m (w a) m_node t m_far))
          ]
    ])

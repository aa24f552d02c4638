-- ===== src/Buddy/Steps.antt =====
-- What `buddy_alloc_fn` and `buddy_free_fn` do to a list and to a bit, one node at a time.
use liballo.Base.{
  ℕ, ◌+◌, ◌-◌, ◌^◌, ◌≤◌, ◌<◌, ◌≡◌, refl, ap, ◌∙◌, ◌≢◌, inl, inr, true, false, ◌&&◌, List, count,
  arith, ◌==◌, ==_refl, ==_iff, Bool-cases, if◌then◌else◌, add64,
}
use liballo.Mem.{Ptr, null, update}
use liballo.Buddy.{State, node_index, list_push, list_remove}
use liballo.Buddy.Links.{Spread, push_words}
use liballo.Buddy.Unlink.{Cross, unlink_words, unlink_head}
use liballo.Buddy.Flags.{node_index_inj}
use liballo.Buddy.Tiling.{Tiles-le_one}
use liballo.Buddy.Inv.{addrs, addrs-Spread, addrs-Cross, in_use, IsValid}

abbrev pub with_list : (ℕ → List ℕ) → ℕ → List ℕ → ℕ → List ℕ
with_list free l is m = if l == m then is else free m

-- 1 for this node, and 0 for all others.
abbrev pub one_at : (l i m k : ℕ) → ℕ
one_at l i m k = if l == m && i == k then 1 else 0

abbrev pub plus : (ℕ → ℕ → ℕ) → (l i : ℕ) → ℕ → ℕ → ℕ
plus used l i m k = used m k + one_at l i m k

abbrev pub minus : (ℕ → ℕ → ℕ) → (l i : ℕ) → ℕ → ℕ → ℕ
minus used l i m k = used m k - one_at l i m k

pub list_push_lem :
    (l : ℕ) (node : Ptr) (s : State)
    → list_push l node s ≡ record {
      ctx = record (s.ctx) { heads = update s.ctx.heads l node };
      mem = record (s.mem) { word = push_words s.mem.word node (s.ctx.heads l) };
    }
unfolding list_push push_words
list_push_lem l node s = elim (Bool-cases (s.ctx.heads l == null)) [
  | inl e ↦ rw e refl
  | inr e ↦ rw e refl
]

-- The heads after `list_remove`.
abbrev pub heads_without : State → (l : ℕ) → Ptr → ℕ → Ptr
heads_without s l node =
    if s.mem.word (add64 node 8) == null
    then update s.ctx.heads l (s.mem.word node)
    else s.ctx.heads

pub list_remove_lem :
    (l : ℕ) (node : Ptr) (s : State)
    → list_remove l node s ≡ record {
      ctx = record (s.ctx) { heads = heads_without s l node };
      mem = record (s.mem) { word = unlink_words s.mem.word node };
    }
unfolding list_remove unlink_words
list_remove_lem l node s = elim (Bool-cases (s.mem.word (add64 node 8) == null)) [
  | inl e ↦
      rw e
        (elim (Bool-cases (s.mem.word node == null)) [ inl e' ↦ rw e' refl | inr e' ↦ rw e' refl ])
  | inr e ↦
      rw e
        (elim (Bool-cases
          (update s.mem.word (s.mem.word (add64 node 8)) (s.mem.word node) node == null)) [
            | inl e' ↦ rw e' refl
            | inr e' ↦ rw e' refl
          ])
]

-- The lists are not in the `char` objects.
pub list_push-byte : (l : ℕ) (node : Ptr) (s : State) → (list_push l node s).mem.byte ≡ s.mem.byte
list_push-byte l node s = ap (λ t. t.mem.byte) (list_push_lem l node s)

pub list_remove-byte :
    (l : ℕ) (node : Ptr) (s : State) → (list_remove l node s).mem.byte ≡ s.mem.byte
list_remove-byte l node s = ap (λ t. t.mem.byte) (list_remove_lem l node s)

pub heads_without_self :
    (s : State) (l : ℕ) (node : Ptr)
    → heads_without s l node l ≡ unlink_head s.mem.word node (s.ctx.heads l)
heads_without_self s l node = elim (Bool-cases (s.mem.word (add64 node 8) == null)) [
  | inl e ↦ rw (e, ==_refl) refl
  | inr e ↦ rw e refl
]

pub heads_without-other :
    (s : State) (l m : ℕ) (node : Ptr) → (l == m) ≡ false → heads_without s l node m ≡ s.ctx.heads m
heads_without-other s l m node ne = elim (Bool-cases (s.mem.word (add64 node 8) == null)) [
  | inl e ↦ rw (e, ne) refl
  | inr e ↦ rw e refl
]

-- One bit, one node.
pub one_at-same :
    (l i m k : ℕ)
    → l < 64
    → m < 64
    → i < 2 ^ l
    → k < 2 ^ m
    → (node_index l i == node_index m k) ≡ true
    → one_at l i m k ≡ 1
one_at-same l i m k hl hm hi hk e =
    let (p, q) = node_index_inj l i m k hl hm hi hk ((==_iff _ _).0 e) in ground (arith, p, q)

pub one_at-other : (l i m k : ℕ) → (node_index l i == node_index m k) ≡ false → one_at l i m k ≡ 0
one_at-other l i m k e = elim (Bool-cases (l == m)) [
  | inl p ↦ elim (Bool-cases (i == k)) [
    | inl q ↦
        let same : node_index l i ≡ node_index m k =
          ap (λ x. node_index x i) ((==_iff _ _).0 p) ∙ ap (node_index m) ((==_iff _ _).0 q) in
        ground (arith, e, same)
    | inr q ↦ rw (p, q) refl
  ]
  | inr p ↦ rw p refl
]

-- What follows from the invariant for the lists.
module _ {s : State} (depth : ℕ) (free : ℕ → List ℕ) (used : ℕ → ℕ → ℕ)
    (v : IsValid s depth free used) where
  abbrev base : Ptr
  base = s.ctx.buffer

  pub some_free : (m k : ℕ) → 0 < count k (free m) → 0 < in_use free used m k
  some_free m k h = omega arith

  pub once : (m k : ℕ) → count k (free m) + used m k ≤ 1
  once m k = Tiles-le_one depth (in_use free used) v.tiles m k

  pub spread : (m : ℕ) → Spread (addrs base depth m (free m))
  spread m =
      addrs-Spread base depth (in_use free used) v.tiles v.ne_null v.fits m (free m) (some_free m)
        (λ k. omega (arith, once m k))

  pub cross : (l m : ℕ) → l ≢ m → Cross (addrs base depth l (free l)) (addrs base depth m (free m))
  cross l m ne =
      addrs-Cross base depth (in_use free used) v.tiles v.ne_null v.fits l m (free l) (free m) ne
        (some_free l) (some_free m)

-- ===== src/Buddy/Give.antt =====
-- To put a node that is handed out into the list of its level keeps the invariant.
use liballo.Base.{
  ℕ, ◌+◌, ◌/◌, ◌^◌, ◌≤◌, ◌<◌, ◌≡◌, ◌≢◌, inl, inr, List, ◌∷◌, count, arith, ◌==◌, ==_refl, ==_iff,
  Bool-cases, if◌then◌else◌, subst,
}
use liballo.Mem.{Ptr, update}
use liballo.Buddy.{State, get_bit, set_bit, node_index, list_push, mark_free}
use liballo.Buddy.Links.{Node, AllFar, Linked, push_words, push_words-Linked, push_words-frame}
use liballo.Buddy.Unlink.{first_Cross}
use liballo.Buddy.Flags.{get_bit-set_bit, set_bit-Bytes}
use liballo.Buddy.Tiling.{Tiles-same}
use liballo.Buddy.Inv.{addr, addrs, addr-Node, addr-AllFar, in_use, Merged, IsValid}
use liballo.Buddy.Steps.{
  with_list, one_at, minus, list_push_lem, one_at-same, one_at-other, some_free, once, spread,
  cross,
}

module _ {s : State} (depth : ℕ) (free : ℕ → List ℕ) (used : ℕ → ℕ → ℕ)
    (v : IsValid s depth free used) (l i : ℕ) (h : l ≤ depth) where
  abbrev base : Ptr
  base = s.ctx.buffer

  -- A node that is handed out is put at the head of the list of its level.
  module _ (out : 0 < used l i)
      (alone : (j : ℕ) → i / 2 ≡ j / 2 → i ≢ j → count j (free l) ≡ 0) where
    abbrev given : Ptr
    given = addr base depth l i

    give_count :
        (m k : ℕ) → count k (with_list free l (i ∷ free l) m) ≡ count k (free m) + one_at l i m k
    give_count m k = elim (Bool-cases (l == m)) [
      | inl at ↦ rw at (
          subst
            (λ x.
              (if k == i then 1 else 0) + count k (free l)
              ≡ count k (free x) + (if i == k then 1 else 0))
            ((==_iff _ _).0 at) (ground arith))
      | inr at ↦ rw at (omega arith)
    ]

    one_at-le : (m k : ℕ) → one_at l i m k ≤ used m k
    one_at-le m k = elim (Bool-cases (l == m)) [
      | inl at ↦ elim (Bool-cases (i == k)) [
        | inl at' ↦
            rw (at, at')
              (subst (λ x. 1 ≤ used x k) ((==_iff _ _).0 at)
                (subst (λ y. 1 ≤ used l y) ((==_iff _ _).0 at') out))
        | inr at' ↦ rw (at, at') (omega arith)
      ]
      | inr at ↦ rw at (omega arith)
    ]

    given-Node : Node given
    given-Node = addr-Node base depth (in_use free used) v.tiles v.ne_null v.fits l i (omega arith)

    given_far : (m : ℕ) → AllFar given (addrs base depth m (free m))
    given_far m =
        addr-AllFar base depth (in_use free used) v.tiles v.ne_null v.fits l i m (free m)
          (omega arith) (some_free depth free used v m)
          (λ e. subst (λ x. count i (free x) ≡ 0) e (omega (arith, once depth free used v l i)))

    give_lists :
        (m : ℕ)
        → m ≤ depth
        → Linked
            (push_words s.mem.word given (s.ctx.heads l))
            (update s.ctx.heads l given m)
            (addrs base depth m (with_list free l (i ∷ free l) m))
    give_lists m hm =
        let (last, whole) = v.lists l h in
        elim (Bool-cases (l == m)) [
          | inl at ↦
              subst
                (λ x.
                  Linked (push_words s.mem.word given (s.ctx.heads l))
                    (update s.ctx.heads l given x)
                    (addrs base depth x (with_list free l (i ∷ free l) x)))
                ((==_iff _ _).0 at)
                (rw ==_refl (
                  push_words-Linked s.mem.word given (s.ctx.heads l) (addrs base depth l (free l))
                    given-Node (last, whole) (given_far l) (spread depth free used v l)))
          | inr at ↦
              let other = cross depth free used v l m (ground (arith, at)) in
              let (last', list) = v.lists m hm in
              rw at (
                last',
                push_words-frame s.mem.word given (s.ctx.heads l) (addrs base depth m (free m))
                    given-Node
                    (first_Cross (addrs base depth l (free l)) (addrs base depth m (free m)) whole
                      other)
                    (given_far m) list,
              )
        ]

    give_marks :
        (m k : ℕ)
        → m ≤ depth
        → k < 2 ^ m
        → get_bit (set_bit s.ctx.bits (node_index l i)) (node_index m k)
          ≡ count k (with_list free l (i ∷ free l) m)
    give_marks m k hm hk =
        let hi = (v.tiles.inside l i (omega arith)).1 in
        rw (get_bit-set_bit s.ctx.bits (node_index l i) (node_index m k) v.bytes)
          (elim (Bool-cases (node_index l i == node_index m k)) [
            | inl at ↦
                let one =
                  one_at-same l i m k (omega (arith, v.small)) (omega (arith, v.small)) hi hk at in
                rw at
                  (omega (arith, one, give_count m k, one_at-le m k, once depth free used v m k))
            | inr at ↦
                let none_at = one_at-other l i m k at in
                rw at (omega (arith, none_at, give_count m k, v.marks m k hm hk))
          ])

    give-Merged : (m : ℕ) → Merged (with_list free l (i ∷ free l) m)
    give-Merged m k j same ne h = elim (Bool-cases (l == m)) [
      | inl at ↦
          rw at (grind (arith, alone, v.merged l k j same ne, rw at at h, ==_iff i k, ==_iff i j))
      | inr at ↦ rw at (v.merged m k j same ne (rw at at h))
    ]

    pub give_step :
        IsValid
          (mark_free l i (list_push l given s))
          depth
          (with_list free l (i ∷ free l))
          (minus used l i)
    unfolding mark_free
    give_step = rw (list_push_lem l given s) (record {
      ne_null = v.ne_null;
      max_order = v.max_order;
      small = v.small;
      total_size = v.total_size;
      min = v.min;
      fits = v.fits;
      lists = give_lists;
      marks = give_marks;
      bytes = set_bit-Bytes s.ctx.bits (node_index l i) v.bytes;
      tiles =
          Tiles-same depth (in_use free used) _
            (λ m k. omega (arith, give_count m k, one_at-le m k)) v.tiles;
      merged = give-Merged;
    })

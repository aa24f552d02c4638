-- ===== src/Buddy/Take.antt =====
-- To take a free node out of its list, and to hand it out, keeps the invariant.
use liballo.Base.{
  ℕ, ◌+◌, ◌^◌, ◌≤◌, ◌<◌, ◌≡◌, ap, ◌∙◌, inl, inr, List, ◌∷◌, ◌++◌, count, count-append, arith, ◌==◌,
  ==_refl, ==_iff, Bool-cases, if◌then◌else◌, subst,
}
use liballo.Mem.{Ptr}
use liballo.Buddy.{State, get_bit, clear_bit, node_index, list_remove, mark_used}
use liballo.Buddy.Links.{Spread, Linked}
use liballo.Buddy.Unlink.{Cross, unlink_words, unlink_words-Linked, unlink_words-frame}
use liballo.Buddy.Flags.{get_bit-clear_bit, clear_bit-Bytes}
use liballo.Buddy.Tiling.{Tiles-same}
use liballo.Buddy.Inv.{addr, addrs, addrs-append, in_use, IsValid}
use liballo.Buddy.Steps.{
  with_list, one_at, plus, list_remove_lem, heads_without, heads_without_self, heads_without-other,
  one_at-same, one_at-other, once, spread, cross,
}

module _ {s : State} (depth : ℕ) (free : ℕ → List ℕ) (used : ℕ → ℕ → ℕ)
    (v : IsValid s depth free used) (l i : ℕ) (h : l ≤ depth) where
  abbrev base : Ptr
  base = s.ctx.buffer

  -- A node that is taken out of the list of its level is handed out.
  module _ (ps qs : List ℕ) (e : free l ≡ ps ++ i ∷ qs) where
    abbrev node : Ptr
    node = addr base depth l i

    list_lem : addrs base depth l (free l) ≡ addrs base depth l ps ++ node ∷ addrs base depth l qs
    list_lem = ap (addrs base depth l) e ∙ addrs-append base depth l ps (i ∷ qs)

    take_count :
        (m k : ℕ) → count k (free m) ≡ count k (with_list free l (ps ++ qs) m) + one_at l i m k
    take_count m k = elim (Bool-cases (l == m)) [
      | inl at ↦ rw at (
          subst (λ x. count k (free x) ≡ count k (ps ++ qs) + (if i == k then 1 else 0))
            ((==_iff _ _).0 at)
            (ground (arith, ap (count k) e, count-append k ps (i ∷ qs), count-append k ps qs)))
      | inr at ↦ rw at (omega arith)
    ]

    take_lists :
        (m : ℕ)
        → m ≤ depth
        → Linked
            (unlink_words s.mem.word node)
            (heads_without s l node m)
            (addrs base depth m (with_list free l (ps ++ qs) m))
    take_lists m hm =
        let whole = subst (Linked s.mem.word (s.ctx.heads l)) list_lem (v.lists l h) in
        let apart = subst Spread list_lem (spread depth free used v l) in
        elim (Bool-cases (l == m)) [
          | inl at ↦
              subst
                (λ x.
                  Linked (unlink_words s.mem.word node) (heads_without s l node x)
                    (addrs base depth x (with_list free l (ps ++ qs) x)))
                ((==_iff _ _).0 at)
                (rw (==_refl, heads_without_self s l node, addrs-append base depth l ps qs)
                  (unlink_words-Linked s.mem.word node (s.ctx.heads l) (addrs base depth l ps)
                    (addrs base depth l qs) whole apart))
          | inr at ↦
              let other = cross depth free used v l m (ground (arith, at)) in
              let (last, list) = v.lists m hm in
              rw (at, heads_without-other s l m node at)
                (
                  last,
                  unlink_words-frame s.mem.word node (s.ctx.heads l) (addrs base depth l ps)
                      (addrs base depth l qs) (addrs base depth m (free m)) whole apart
                      (subst (λ xs. Cross xs (addrs base depth m (free m))) list_lem other) list,
                )
        ]

    take_marks :
        (m k : ℕ)
        → m ≤ depth
        → k < 2 ^ m
        → get_bit (clear_bit s.ctx.bits (node_index l i)) (node_index m k)
          ≡ count k (with_list free l (ps ++ qs) m)
    take_marks m k hm hk =
        let there : 0 < count i (free l) =
          ground (arith, ap (count i) e, count-append i ps (i ∷ qs)) in
        let hi = (v.tiles.inside l i (omega arith)).1 in
        rw (get_bit-clear_bit s.ctx.bits (node_index l i) (node_index m k) v.bytes)
          (elim (Bool-cases (node_index l i == node_index m k)) [
            | inl at ↦
                let one =
                  one_at-same l i m k (omega (arith, v.small)) (omega (arith, v.small)) hi hk at in
                rw at (omega (arith, one, take_count m k, once depth free used v m k))
            | inr at ↦
                let none_at = one_at-other l i m k at in
                rw at (omega (arith, none_at, take_count m k, v.marks m k hm hk))
          ])

    pub take_step :
        IsValid
          (mark_used l i (list_remove l node s))
          depth
          (with_list free l (ps ++ qs))
          (plus used l i)
    unfolding mark_used
    take_step = rw (list_remove_lem l node s) (record {
      ne_null = v.ne_null;
      max_order = v.max_order;
      small = v.small;
      total_size = v.total_size;
      min = v.min;
      fits = v.fits;
      lists = take_lists;
      marks = take_marks;
      bytes = clear_bit-Bytes s.ctx.bits (node_index l i) v.bytes;
      tiles = Tiles-same depth (in_use free used) _ (λ m k. omega (arith, take_count m k)) v.tiles;
      merged = λ m k j same ne h.
          omega (arith, v.merged m k j same ne (omega (arith, take_count m k)), take_count m j);
    })

-- ===== src/Fallback/FixedBuffer.antt =====
-- The fixed buffer of src/allo_buffer.c as the primary allocator of src/allo_fallback.c.
use liballo.Base.{ℕ, ◌^◌, ◌<◌, ◌≡◌, ◌⊎◌, inl, inr, some, refl, sym, ◌∙◌, ap, Option-cases, subst}
use liballo.Base.Cmd.{Cmd, zoom, Returns, Slot}
use liballo.Mem.{Ptr, null, MemOps, InRange}
use liballo.Allo.{Allo, contains_yes, contains_no, allo_contains}
use liballo.Buffer.{State, buf_allocator, buf_alloc_fn, buf_contains_fn}
use liballo.Buffer.Inv.{InBuffer, buf_alloc-InBuffer}
use liballo.Buffer.Realloc.{buf_contains-mine, buf_contains-others}
use liballo.Fallback.Routing.{Tracks}

zoom_at :
    {W S A : Type 0} (slot : Slot W S) (m : Cmd S A) (w : W) {a : A} {s : S}
    → m (slot.get w) ≡ some (a, s)
    → zoom slot m w ≡ some (a, slot.put s w)
zoom_at slot m w e = rw (zoom, e) refl

abbrev Answered : (buffer size : ℕ) → Ptr → State → Type 0
Answered buffer size p s = InBuffer buffer size s × ((p ≡ null) ⊎ InRange buffer size p)

module _ {W : Type 0} (ops : MemOps) (self : Slot W State) (fallback : Allo W)
    (buffer size : ℕ) where
  -- It tracks the addresses of its buffer, over any second allocator that ends, serves from
  -- elsewhere and leaves the first one's state in order.
  pub buf_allocator-Tracks :
      ((n : ℕ) (w : W)
        → InBuffer buffer size (self.get w)
        → n < 2 ^ 64
        → Returns
            (λ p w'. InBuffer buffer size (self.get w') × ((p ≡ null) ⊎ ¬ InRange buffer size p))
            (fallback.alloc n w))
      → Tracks
          (buf_allocator ops self)
          fallback
          (λ w. InBuffer buffer size (self.get w))
          (InRange buffer size)
  unfolding allo_contains
  buf_allocator-Tracks elsewhere = record {
    mine = λ p w i own.
        let (live, v, at, whole) = i in
        let answer = buf_contains-mine p v (rw (at, whole) own) in
        zoom_at self (buf_contains_fn p) w answer
        ∙ ap (λ w'. some (contains_yes, w')) (self.put-get w);
    others = λ p w i other.
        let (live, v, at, whole) = i in
        let answer = buf_contains-others p v (λ h. other (rw (at, whole) at h)) in
        zoom_at self (buf_contains_fn p) w answer
        ∙ ap (λ w'. some (contains_no, w')) (self.put-get w);
    from_primary = λ n w i small. elim (Option-cases (buf_alloc_fn n (self.get w))) [
      | inl e ↦ absurd (subst (Returns (Answered buffer size)) e (buf_alloc-InBuffer n small i))
      | inr ((p, s'), e) ↦
          let (i', whose) =
            subst (Returns (Answered buffer size)) e (buf_alloc-InBuffer n small i) in
          subst
            (Returns
              (λ p w'. InBuffer buffer size (self.get w') × ((p ≡ null) ⊎ InRange buffer size p)))
            (sym (zoom_at self (buf_alloc_fn n) w e)) (rw (self.get-put s' w) i', whose)
    ];
    from_fallback = elsewhere;
  }

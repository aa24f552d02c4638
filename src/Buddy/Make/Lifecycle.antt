-- ===== src/Buddy/Make/Lifecycle.antt =====
-- `make_buddy_allocator`, and the destruction of what it made.
use liballo.Base.{
  ℕ, ◌+◌, ◌^◌, ◌≤◌, ◌<◌, ◌≡◌, refl, ◌≢◌, ◌⊎◌, inl, inr, ◌||◌, List, Option, some, none, arith, ◌==◌,
  Bool-cases,
}
use native.Mathlib.Nat.{pow-le-pow_right}
use liballo.Base.Cmd.{Cmd, pure, ◌>>=◌, Slot, Returns, Returns-bind, Returns-map}
use liballo.Mem.{Ptr, null, MemOps}
use liballo.Blocks.{Block}
use liballo.Allo.{Error, err_inval, Allo, allo_destroy}
use liballo.Buddy.{State, get_order_portable}
use liballo.Buddy.Order.{get_order_portable_lem}
use liballo.Buddy.Make.{make_buddy_allocator, make_buffer}
use liballo.Buddy.Make.Round.{round_loop_lem}
use liballo.Buddy.Make.Lease.{Lends, buddy_destroy_lem}
use liballo.Buddy.Make.Factory.{buffer_step}
use liballo.Buddy.Make.Undo.{Answer}

order-small : (size : ℕ) → size ≤ 2 ^ 63 → 2 ^ get_order_portable size < 2 ^ 64
order-small size h =
    let le : get_order_portable size ≤ 63 =
      (get_order_portable_lem size (omega arith)).least 63 h in
    let up = pow-le-pow_right {n = 2} (omega arith) {i = get_order_portable size} {j = 63} le in
    omega (arith, up)

module _ {W : Type 0} (Lent : List Block → W → Type 0) (self : Slot W State) (ops : MemOps)
    (child : Allo W) (lends : Lends Lent self child) where
  -- The arguments that the factory rejects.
  abbrev pub Rejected : (out : Ptr) → (size : ℕ) → Error × Option (Allo W) → (w w' : W) → Type 0
  Rejected out size r w w' = (r ≡ (err_inval, none)) × (w' ≡ w) × ((out ≡ null) ⊎ (size ≡ 0))

  -- With a child that lends it blocks, a size of at most 2^63, 64 rounds of its loop, and a caller's
  -- buffer, if there is one, that ends within the address space at the rounded size, the factory
  -- returns. It rejects a NULL `out` and the size 0 with nothing changed, and only those; or it reports
  -- missing memory, with nothing on loan that was not before; or it has on loan the three arrays, and
  -- the buffer if the caller gave none, with a total size of the least power of two that holds the size,
  -- and if that is at least 32, the state is valid and the whole buffer is one free block.
  pub make_buddy_lem :
      (bs : List Block) (out buffer : Ptr) (size : ℕ) (w : W)
      → Lent bs w
      → size ≤ 2 ^ 63
      → (buffer ≢ null → buffer + 2 ^ get_order_portable size < 2 ^ 64)
      → Returns
          (λ r w'.
            Rejected out size r w w'
            ⊎ ((out ≢ null)
                × (size ≢ 0)
                × Answer Lent self ops child lends (2 ^ get_order_portable size) bs r w'))
          (make_buddy_allocator self ops 64 out (some child) buffer size w)
  unfolding make_buddy_allocator
  make_buddy_lem bs out buffer size w l h fits = elim (Bool-cases ((out == null) || (size == 0))) [
    | inl bad ↦ rw bad (inl (refl, refl, ground (arith, bad)))
    | inr good ↦
        rw (good, round_loop_lem size h)
          (Returns-map _ _ (make_buffer self ops child buffer (2 ^ get_order_portable size) w)
            (buffer_step Lent self ops child lends (2 ^ get_order_portable size) bs buffer w l
              (order-small size h) fits)
            (λ r w' answer. inr (ground (arith, good), ground (arith, good), answer)))
  ]

  -- The factory, and the destruction if it made an allocator.
  pub make_and_destroy : (out buffer : Ptr) → (size : ℕ) → Cmd W (Unit {0})
  make_and_destroy out buffer size = do
    r ← make_buddy_allocator self ops 64 out (some child) buffer size
    elim (r.1) [ none ↦ pure tt | some made ↦ allo_destroy made ]

  -- With a child that lends it blocks, a size of at most 2^63, 64 rounds of the first loop, and a
  -- caller's buffer, if there is one, that ends within the address space at the rounded size: to make
  -- an allocator and to destroy it, if it was made, leaves on loan exactly what was before.
  pub make_buddy-destroy :
      (bs : List Block) (out buffer : Ptr) (size : ℕ) (w : W)
      → Lent bs w
      → size ≤ 2 ^ 63
      → (buffer ≢ null → buffer + 2 ^ get_order_portable size < 2 ^ 64)
      → Returns (λ _ w'. Lent bs w') (make_and_destroy out buffer size w)
  unfolding make_and_destroy allo_destroy
  make_buddy-destroy bs out buffer size w l h fits =
      Returns-bind _ _ (make_buddy_allocator self ops 64 out (some child) buffer size) _ w
        (make_buddy_lem bs out buffer size w l h fits)
        (λ r w' answer. elim answer [
          | inl (e, same, why) ↦ rw (e, same) l
          | inr (ne, some_size, inl (e, l')) ↦ rw e l'
          | inr (ne, some_size, inr (e, total, all, l', valid)) ↦
              rw e (buddy_destroy_lem Lent self ops child lends bs w' all l')
        ])

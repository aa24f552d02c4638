-- ===== src/Buddy/Make/Refused.antt =====
-- The factory of src/allo_buddy.c over a child that has no memory.
use liballo.Base.{ℕ, ◌^◌, ◌≤◌, ◌≡◌, refl, ◌≢◌, true, false, none, some, arith, ◌||◌, ◌==◌}
use liballo.Base.Cmd.{Slot, ◌>>=◌}
use liballo.Mem.{null, MemOps}
use liballo.Allo.{err_nomem, Allo}
use liballo.Buddy.{State, get_order_portable}
use liballo.Buddy.Make.{make_buddy_allocator, make_buffer, prepare}
use liballo.Buddy.Make.Round.{round_loop_lem}

-- When the child refuses the buffer, the factory reports that there is too little memory.
pub make_buddy-refused :
    {W : Type 0} (self : Slot W State) (ops : MemOps) (child : Allo W) (out size : ℕ) (w : W)
    → out ≢ null
    → size ≢ 0
    → size ≤ 2 ^ 63
    → ((n : ℕ) (s : State) → child.alloc n (self.put s w) ≡ some (null, self.put s w))
    → (w' : W) × (make_buddy_allocator self ops 64 out (some child) null size w
        ≡ some ((err_nomem, none), w'))
unfolding make_buddy_allocator make_buffer
make_buddy-refused self ops child out size w ne some_size h refuses =
    let good : ((out == null) || (size == 0)) ≡ false = ground arith in
    let c = prepare (2 ^ get_order_portable size) true in
    let w₁ = self.put (record (self.get w) { ctx = c }) w in
    let s₁ = self.get w₁ in
    (
      self.put (record s₁ { ctx = record (s₁.ctx) { buffer = null } }) w₁,
      rw (good, round_loop_lem size h)
          (rw (refuses (2 ^ get_order_portable size) (record (self.get w) { ctx = c }), ◌>>=◌)
            refl),
    )

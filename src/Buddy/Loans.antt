-- ===== src/Buddy/Loans.antt =====
-- The factory and the destruction of the buddy allocator over a child that counts what it lends.
use liballo.Base.{
  ℕ, suc, ◌+◌, ◌-◌, ◌^◌, ◌≡◌, refl, ◌≢◌, ◌⊎◌, inl, inr, false, ◌||◌, ltb, List, [], length, some,
  none, arith, ◌==◌, Bool-cases, if◌then◌else◌,
}
use liballo.Base.Cmd.{Slot, Returns}
use liballo.Mem.{Ptr, null}
use liballo.Mem.Copy.{freestanding}
use liballo.Blocks.{Block, Removed, here, there}
use liballo.Allo.{Allo}
use liballo.Buddy.{State, get_order_portable, narrow, last_bit}
use liballo.Buddy.Make.{make_buddy_allocator}
use liballo.Buddy.Make.Lease.{Lends}
use liballo.Buddy.Make.Undo.{Answer}
use liballo.Buddy.Make.Lifecycle.{Rejected, make_and_destroy, make_buddy_lem, make_buddy-destroy}

record Lending : Type 0 where
  buddy : State
  next : Ptr
  lent : ℕ

self : Slot Lending State
self = record {
  get = λ w. w.buddy;
  put = λ s w. record w { buddy = s };
  get-put = λ s w. refl;
  put-get = λ w. refl;
  put-put = λ s t w. refl;
}

-- Blocks one after the other, up to the end of the address space.
child : Allo Lending
child = record {
  alloc = λ n w.
      if (w.next == null) || ltb (2 ^ 64 - 1) (w.next + n)
      then some (null, w)
      else some (w.next, record w { next = w.next + n; lent = w.lent + 1 });
  realloc = λ p n k w. none;
  free_mem = λ p n w. if w.lent == 0 then none else some (tt, record w { lent = w.lent - 1 });
  destroy = none;
  contains = none;
}

abbrev Lent : List Block → Lending → Type 0
Lent bs w = w.lent ≡ length bs

length-Removed : {b : Block} {bs cs : List Block} → Removed b bs cs → length bs ≡ suc (length cs)
length-Removed here = refl
length-Removed (there r) = omega (arith, length-Removed r)

child_lends : Lends Lent self child
unfolding self child
child_lends = record {
  alloc = λ n bs w small l. elim (Bool-cases ((w.next == null) || ltb (2 ^ 64 - 1) (w.next + n))) [
    | inl full ↦ rw full (refl, inl (refl, l))
    | inr room ↦ rw room (refl, inr (ground (arith, room), ground (arith, room), omega (arith, l)))
  ];
  release = λ bs rest p n w l r.
      let some_lent : (w.lent == 0) ≡ false = ground (arith, l, length-Removed r) in
      rw some_lent (omega (arith, l, length-Removed r));
  apart = λ s bs w l. l;
}

abbrev no_state : State
no_state = record {
  ctx = record {
    buffer = null;
    total_size = 0;
    min_block_size = 0;
    max_order = 0;
    free_lists = null;
    bitset = null;
    block_orders = null;
    own_buffer = false;
    heads = λ l. null;
    bits = λ i. 0;
    orders = λ i. 0;
  };
  mem = record { byte = λ p. 0; word = λ p. 0 };
}

abbrev start : Lending
start = record { buddy = no_state; next = 4096; lent = 0 }

make_buddy_lem_example :
    Returns
      (λ r w'.
        Rejected Lent self freestanding child child_lends 65536 100 r start w'
        ⊎ ((◌≢◌ {A = ℕ} 65536 null)
            × (◌≢◌ {A = ℕ} 100 0)
            × Answer Lent self freestanding child child_lends (2 ^ get_order_portable 100) [] r w'))
      (make_buddy_allocator self freestanding 64 65536 (some child) null 100 start)
make_buddy_lem_example =
    make_buddy_lem Lent self freestanding child child_lends [] 65536 null 100 start refl
      (omega arith) (λ ne. absurd (ne refl))

make_buddy-destroy_example :
    Returns
      (λ _ w'. w'.lent ≡ 0)
      (make_and_destroy Lent self freestanding child child_lends 65536 8192 100 start)
unfolding get_order_portable narrow last_bit
make_buddy-destroy_example =
    make_buddy-destroy Lent self freestanding child child_lends [] 65536 8192 100 start refl
      (omega arith) (λ ne. omega arith)

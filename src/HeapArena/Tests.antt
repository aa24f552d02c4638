-- ===== src/HeapArena/Tests.antt =====
-- The loop of examples/heap-arena/main.c, over the heap of Arena/Heap.
use liballo.Base.{◌+◌, ◌^◌, ◌≡◌, refl, ◌≢◌, true, none, some, [], ltb, lt→ltb, arith}
use liballo.Base.Cmd.{Returns}
use liballo.Mem.{null}
use liballo.Mem.Copy.{freestanding}
use liballo.Allo.{ok, err_nomem, allo_destroy}
use liballo.Arena.{header}
use liballo.Arena.Heap.{Heap, self, child, Lent, child-Lends, empty_heap, empty_heap-Lent}
use liballo.HeapArena.{block_size, main_with}
use liballo.HeapArena.Rounds.{main_lem}

-- Without a page allocator the answer is 1.
no_pages : main_with self freestanding 2 64 (err_nomem, none) empty_heap ≡ some (1, empty_heap)
unfolding main_with
no_pages = refl

child_room :
    (w : Heap) → Lent [] w → Returns (λ p w'. p ≢ null) (child.alloc (header + block_size) w)
child_room w l =
    let at : w.next ≡ 8192 = l.afresh l.count in
    let room : ltb (w.next + (header + block_size) + 8) (2 ^ 64) ≡ true =
      lt→ltb _ _ (omega arith) in
    rw room l.ne_null

child_destroy : (w : Heap) → Lent [] w → Returns (λ _ w'. w'.lent ≡ 0) (allo_destroy child w)
unfolding allo_destroy
child_destroy w l = l.count

main_lem_example :
    Returns
      (λ code w'. (code ≡ 0) × (w'.lent ≡ 0))
      (main_with self freestanding 2 64 (ok, some child) empty_heap)
main_lem_example =
    main_lem Lent self freestanding 2 64 child child-Lends (omega arith) (omega arith) child_room
      (λ w. w.lent ≡ 0) child_destroy empty_heap empty_heap-Lent

-- ===== src/Gen/Make/Tests.antt =====
-- The factory of src/allo_gen.c with a page allocator that has room for the state only.
use liballo.Base.{
  ℕ, ◌*◌, ◌≡◌, refl, sym, ap, Option, Bool, true, false, none, some, arith, add64, if◌then◌else◌,
}
use liballo.Mem.{null, Memory}
use liballo.Mem.Copy.{freestanding}
use liballo.Allo.{err_nomem, Allo}
use liballo.Page.{PageContext}
use liballo.Pool
use liballo.Buddy
use liballo.Buddy.Make.Refused.{make_buddy-refused}
use liballo.Gen.Make.{Parts, sizeof_allo, make_tiers}
use liballo.Gen.Make.Failure.{make_tiers_faults}

-- The state of the general allocator is at 8192, while it is mapped.
record World : Type 0 where
  page : PageContext
  buddy : Buddy.State
  pool : Pool.State
  mem : Memory
  mapped : Bool

abbrev parts : Parts World
parts = record {
  page_self = record {
    get = λ w. w.page;
    put = λ s w. record w { page = s };
    get-put = λ s w. refl;
    put-get = λ w. refl;
    put-put = λ s t w. refl;
  };
  buddy_self = record {
    get = λ w. w.buddy;
    put = λ s w. record w { buddy = s };
    get-put = λ s w. refl;
    put-get = λ w. refl;
    put-put = λ s t w. refl;
  };
  pool_self = λ i. record {
    get = λ w. w.pool;
    put = λ s w. record w { pool = s };
    get-put = λ s w. refl;
    put-get = λ w. refl;
    put-put = λ s t w. refl;
  };
  memory = record {
    get = λ w. w.mem;
    put = λ m w. record w { mem = m };
    get-put = λ m w. refl;
    put-get = λ w. refl;
    put-put = λ m n w. refl;
  };
  ops = freestanding;
  os = record {
    page_size = 4096;
    mmap = λ n w. none;
    munmap = λ p n w. none;
    mremap = λ p old new w. none;
  };
  readable = λ w p. w.mapped;
}

-- It gives one block, and refuses all else until that is back.
abbrev page : Allo World
page = record {
  alloc = λ n w. if w.mapped then some (null, w) else some (8192, record w { mapped = true });
  realloc = λ p old new w. some (null, w);
  free_mem = λ p n w. some (tt, record w { mapped = false });
  destroy = none;
  contains = none;
}

abbrev blank : Memory
blank = record { byte = λ p. 0; word = λ p. 0 }

abbrev at_start : World
at_start = record {
  page = record {
    page_size = 4096;
    registry = 4096;
    entry = λ i. record { addr = 0; size = 0 };
    count = 0;
    capacity = 256;
  };
  buddy = record { ctx = Buddy.Make.prepare 32 true; mem = blank };
  pool = record {
    ctx = record { buffer = 0; block_size = 8; total_blocks = 0; free_list = 0; own_buffer = true };
    mem = blank;
  };
  mem = blank;
  mapped = false;
}

page_unmaps :
    (p n : ℕ) (w w' : World) → page.free_mem p n w ≡ some (tt, w') → parts.readable w' p ≡ false
page_unmaps p n w w' e = ap still (sym e)
  where
    still : Option (Unit {0} × World) → Bool
    still none = false
    still (some (u, x)) = x.mapped

make_tiers_faults_example : make_tiers parts 64 page at_start ≡ none
make_tiers_faults_example =
    let with_state : World = record at_start { mapped = true } in
    let (w₂, refused) =
      make_buddy-refused parts.buddy_self freestanding page (add64 8192 sizeof_allo)
        (16 * 1024 * 1024) with_state (omega arith) (omega arith) (omega arith) (λ n s. refl) in
    make_tiers_faults parts page page_unmaps 64 8192 err_nomem at_start with_state w₂ refl
      (omega arith) refused

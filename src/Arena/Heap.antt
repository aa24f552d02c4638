-- ===== src/Arena/Heap.antt =====
-- A child for arenas of src/allo_arena.c: it cuts its blocks from one stretch of memory, and starts
-- over when all of them came back.
use liballo.Base.{
  ℕ, ◌+◌, ◌-◌, ◌*◌, ◌/◌, ◌%◌, ◌^◌, ◌≤◌, ◌<◌, ◌≡◌, refl, sym, ◌≢◌, inl, inr, false, none, some, List,
  [], ◌∷◌, arith, length, ltb, ltb→lt, ◌==◌, Bool-cases, if◌then◌else◌,
}
use liballo.Base.Cmd.{Slot, Returns}
use liballo.Mem.{Ptr, null}
use liballo.Blocks.{Block, block, All, All-map, All-of, Removed, here, there, Removed-All}
use liballo.Allo.{Allo}
use liballo.Arena.{State}
use liballo.Arena.Inv.{Loan, Lends}

pub record Heap : Type 0 where
  pub arena : State
  pub next : Ptr
  pub lent : ℕ

abbrev pub self : Slot Heap State
self = record {
  get = λ w. w.arena;
  put = λ s w. record w { arena = s };
  get-put = λ s w. refl;
  put-get = λ w. refl;
  put-put = λ s t w. refl;
}

abbrev given_back : Heap → Heap
given_back w =
    if w.lent == 1 then record w { next = 8192; lent = 0 } else record w { lent = w.lent - 1 }

-- A release fails an assertion when nothing is lent.
abbrev pub child : Allo Heap
child = record {
  alloc = λ n w.
      if ltb (w.next + n + 8) (2 ^ 64)
      then some (w.next, record w { next = (w.next + n + 7) / 8 * 8; lent = w.lent + 1 })
      else some (null, w);
  realloc = λ p old new w. some (null, w);
  free_mem = λ p n w. if w.lent == 0 then none else some (tt, given_back w);
  destroy = none;
  contains = none;
}

pub record Lent (bs : List Block) (w : Heap) : Type 0 where
  pub count : w.lent ≡ length bs
  pub aligned : w.next % 8 ≡ 0
  pub ne_null : w.next ≢ null
  pub below : All (λ b. b.start + b.size ≤ w.next) bs
  pub afresh : w.lent ≡ 0 → w.next ≡ 8192

Removed-length :
    {b : Block} {bs rest : List Block} → Removed b bs rest → length bs ≡ length rest + 1
Removed-length here = omega arith
Removed-length (there r) = omega (arith, Removed-length r)

All-back :
    (P : Block → Type 0) {b : Block} {bs rest : List Block}
    → Removed b bs rest
    → P b
    → All P rest
    → All P bs
All-back P here h k = (h, k)
All-back P (there r) h k = (k.0, All-back P r h k.1)

cut_off :
    (n : ℕ) (bs : List Block) (w : Heap)
    → n < 2 ^ 64
    → Lent bs w
    → Returns (Loan Lent self n bs w) (child.alloc n w)
cut_off n bs w small l = elim (Bool-cases (ltb (w.next + n + 8) (2 ^ 64))) [
  | inr full ↦
      rw full
        (refl, All-of bs (λ b. record { word = λ q h. refl; byte = λ q h. refl }), inl (refl, l))
  | inl room ↦
      let fits = ltb→lt _ _ room in
      let a = l.aligned in
      let c = l.count in
      rw room (
        refl,
        All-of bs (λ b. record { word = λ q h. refl; byte = λ q h. refl }),
        inr (
          l.ne_null,
          l.aligned,
          omega arith,
          All-map bs (λ b h. inr h) l.below,
          λ bs' r. record {
            count = omega (arith, Removed-length r);
            aligned = omega arith;
            ne_null = let ne = l.ne_null in omega arith;
            below = All-back _ r (omega arith) (All-map bs (λ b h. omega arith) l.below);
            afresh = λ e. absurd (omega arith);
          },
        ),
      )
]

given_back-Lent :
    (bs rest : List Block) (p n : ℕ) (w : Heap)
    → Lent bs w
    → Removed (block p n) bs rest
    → Lent rest (given_back w)
given_back-Lent bs rest p n w l r = elim (Bool-cases (w.lent == 1)) [
  | inl last ↦
      let c = l.count in
      let nothing : length rest ≡ 0 = ground (arith, last, Removed-length r) in
      rw last (record {
        count = sym nothing;
        aligned = refl;
        ne_null = omega arith;
        below = All-none _ rest nothing;
        afresh = λ e. refl;
      })
  | inr more ↦
      let c = l.count in
      rw more (record {
        count = omega (arith, Removed-length r);
        aligned = l.aligned;
        ne_null = l.ne_null;
        below = (Removed-All _ r l.below).1;
        afresh = λ e. absurd (ground (arith, more, Removed-length r));
      })
]
  where
    All-none : (P : Block → Type 0) (xs : List Block) → length xs ≡ 0 → All P xs
    All-none P [] e = tt
    All-none P (x ∷ xs) e = absurd (omega arith)

given_back-memory : (w : Heap) (q : Ptr) → (given_back w).arena.mem.word q ≡ w.arena.mem.word q
given_back-memory w q = elim (Bool-cases (w.lent == 1)) [ inl e ↦ rw e refl | inr e ↦ rw e refl ]

pub child-Lends : Lends Lent self child
child-Lends = record {
  alloc = cut_off;
  release = λ bs rest p n w l r.
      let c = l.count in
      let some_lent : (w.lent == 0) ≡ false = ground (arith, Removed-length r) in
      rw some_lent (given_back-Lent bs rest p n w l r, λ q h. given_back-memory w q);
  apart = λ s bs w l. record {
    count = l.count;
    aligned = l.aligned;
    ne_null = l.ne_null;
    below = l.below;
    afresh = l.afresh;
  };
}

abbrev pub blank : State
blank = record {
  ctx = record { first = null; current = null; block_size = 0 };
  mem = record { byte = λ p. 7; word = λ p. 0 };
}

-- Nothing lent, and memory from 8192 on.
abbrev pub empty_heap : Heap
empty_heap = record { arena = blank; next = 8192; lent = 0 }

pub empty_heap-Lent : Lent [] empty_heap
empty_heap-Lent = record {
  count = refl;
  aligned = refl;
  ne_null = omega arith;
  below = tt;
  afresh = λ e. refl;
}

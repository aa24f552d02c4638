-- ===== src/Buddy/Runs.antt =====
-- The buddy allocator on a buffer of 128 bytes.
use liballo.Base.{
  ℕ, ◌+◌, ◌^◌, ◌≡◌, refl, inl, inr, false, List, [], ◌∷◌, Option, some, none, arith, ◌==◌, ==_iff,
  Bool-cases,
}
use liballo.Base.Cmd.{Cmd, pure, ◌>>=◌, ◌>>◌, Returns}
use liballo.Mem.{Ptr, null}
use liballo.Buddy.{
  State, get_order_portable, narrow, last_bit, list_push, list_remove, mark_free, mark_used,
  get_bit, insert, merge_loop, buddy_alloc_fn, buddy_free_fn,
}
use liballo.Buddy.Inv.{IsValid}
use liballo.Buddy.Steps.{plus, minus, with_list}
use liballo.Buddy.Take.{take_step}
use liballo.Buddy.Halve.{round_step, moved}
use liballo.Buddy.Alloc.{Fits, Handed, Outcome, buddy_alloc_lem}
use liballo.Buddy.Free.{buddy_free_lem, buddy_alloc-free}
use liballo.Buddy.Whole.{nothing}
use liballo.Buddy.Calls.{Calls, no_calls, allocated, freed, Calls-whole}
use liballo.Buddy.Make.{round_loop}
use liballo.Buddy.Make.Round.{round_loop_lem, round_loop-endless}
use liballo.Buddy.Make.Start.{IsReady, first_block_lem}

abbrev blank : State
blank = record {
  ctx = record {
    buffer = 4096;
    total_size = 128;
    min_block_size = 32;
    max_order = 7;
    free_lists = 8192;
    bitset = 8256;
    block_orders = 8264;
    own_buffer = false;
    heads = λ l. null;
    bits = λ i. 0;
    orders = λ i. 0;
  };
  mem = record { byte = λ p. 0; word = λ p. 0 };
}

abbrev fresh : State
unfolding mark_free list_push
fresh = mark_free 0 0 (list_push 0 4096 blank)

-- The whole block, and then its left half, handed out.
abbrev taken : State
unfolding mark_used list_remove
taken = mark_used 0 0 (list_remove 0 4096 fresh)

abbrev halved : State
unfolding mark_used mark_free list_push
halved = mark_used 1 0 (mark_free 1 1 (list_push 1 4160 taken))

abbrev all_free : ℕ → List ℕ
all_free = with_list (λ l. []) 0 (0 ∷ [])

abbrev right_free : ℕ → List ℕ
right_free = with_list (with_list all_free 0 []) 1 (1 ∷ [])

abbrev left_used : ℕ → ℕ → ℕ
left_used = moved (plus nothing 0 0) 0 0 1 0

blank-IsReady : IsReady blank 2
unfolding get_order_portable narrow last_bit
blank-IsReady = record {
  ne_null = omega arith;
  total_size = refl;
  max_order = refl;
  min = refl;
  small = omega arith;
  fits = omega arith;
  heads = λ l. refl;
  bits = λ i. refl;
}

fresh-IsValid : IsValid fresh 2 all_free nothing
unfolding fresh mark_free
fresh-IsValid = first_block_lem blank 2 blank-IsReady

halved-IsValid : IsValid halved 2 right_free left_used
unfolding halved taken fresh mark_used
halved-IsValid =
    let v = take_step 2 all_free nothing fresh-IsValid 0 0 (omega arith) [] [] refl in
    round_step 2 0 0 taken (with_list all_free 0 []) (plus nothing 0 0) v (omega arith)
      (omega arith)

half-Fits : Fits 2 64 1
half-Fits = record {
  holds = omega arith;
  tight = λ m h hs. elim (Bool-cases (m == 2)) [
    | inl e ↦ let at : m ≡ 2 = (==_iff _ _).0 e in absurd (omega (arith, rw at at hs))
    | inr e ↦ ground (arith, e)
  ];
}

-- Two blocks are cut from the buffer and given back in the other order, and the whole buffer is free.
there_and_back : Cmd State (Ptr × Ptr × Ptr × Ptr)
unfolding buddy_alloc_fn buddy_free_fn
there_and_back = do
  p ← buddy_alloc_fn 20
  q ← buddy_alloc_fn 64
  full ← buddy_alloc_fn 100
  buddy_free_fn p 20
  buddy_free_fn q 64
  whole ← buddy_alloc_fn 100
  pure (p, q, full, whole)

answers : Option ((Ptr × Ptr × Ptr × Ptr) × State) → Option (Ptr × Ptr × Ptr × Ptr)
answers none = none
answers (some (r, s)) = some r

there_and_back_run : answers (there_and_back fresh) ≡ some (4096, 4160, null, 4096)
unfolding there_and_back fresh merge_loop insert get_bit answers last_bit narrow
there_and_back_run = refl

buddy_alloc_lem_example :
    Returns (Outcome halved 2 right_free left_used 40) (buddy_alloc_fn 40 halved)
buddy_alloc_lem_example =
    buddy_alloc_lem halved 2 40 right_free left_used halved-IsValid (omega arith)

buddy_free_lem_example :
    Returns
      (λ _ s'.
        (free : ℕ → List ℕ) × IsValid s' 2 free (minus left_used 1 0)
        × (s'.mem.byte ≡ halved.mem.byte))
      (buddy_free_fn 4096 64 halved)
unfolding halved taken
buddy_free_lem_example =
    buddy_free_lem halved 2 1 0 64 right_free left_used halved-IsValid (omega arith) (omega arith)
      half-Fits

buddy_alloc-free_example :
    Returns
      (λ _ s'. (free : ℕ → List ℕ) × IsValid s' 2 free left_used × (s'.mem.byte ≡ halved.mem.byte))
      ((buddy_alloc_fn 20 >>= λ ptr. buddy_free_fn ptr 20) halved)
buddy_alloc-free_example =
    buddy_alloc-free halved 2 20 right_free left_used halved-IsValid (omega arith)

-- A block of 64 bytes is allocated and given back.
state_of : {A : Type 0} → Option (A × State) → State
state_of none = blank
state_of (some (a, s)) = s

one_out : State
unfolding state_of
one_out = state_of (buddy_alloc_fn 64 fresh)

all_back : State
unfolding state_of
all_back = state_of (buddy_free_fn 4096 64 one_out)

out_run : buddy_alloc_fn 64 fresh ≡ some (4096, one_out)
unfolding fresh one_out state_of last_bit narrow buddy_alloc_fn
out_run = refl

back_run : buddy_free_fn 4096 64 one_out ≡ some (tt, all_back)
unfolding all_back state_of merge_loop insert get_bit fresh one_out last_bit narrow buddy_free_fn
    buddy_alloc_fn
back_run = refl

out_and_back : Calls 2 fresh nothing all_back (minus (plus nothing 1 0) 1 0)
unfolding fresh one_out state_of buddy_free_fn all_back buddy_alloc_fn last_bit narrow
out_and_back =
    let out : Calls 2 fresh nothing one_out (plus nothing 1 0) =
      allocated 64 1 0 no_calls (omega arith) (omega arith) half-Fits out_run in
    freed 64 1 0 out (omega arith) (omega arith) half-Fits back_run

Calls-whole_example : Returns (Handed all_back 2 nothing 100) (buddy_alloc_fn 100 all_back)
Calls-whole_example =
    Calls-whole 2 all_free 100 fresh-IsValid out_and_back (λ l i. omega arith) (omega arith)
      (omega arith)

round_loop_lem_example : round_loop 64 1 100 ≡ some (2 ^ get_order_portable 100)
round_loop_lem_example = round_loop_lem 100 (omega arith)

round_loop-endless_example : round_loop 1000 1 (2 ^ 63 + 1) ≡ none
round_loop-endless_example = round_loop-endless (2 ^ 63 + 1) (omega arith) 1000

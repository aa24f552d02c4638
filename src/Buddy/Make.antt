-- ===== src/Buddy/Make.antt =====
-- The factory and the destruction of src/allo_buddy.c, over the child that gives the memory.
pub mod Round
pub mod Start
pub mod Lease
pub mod Undo
pub mod Factory
pub mod Lifecycle
pub mod Refused
use liballo.Base.{
  ℕ, zero, suc, ◌+◌, ◌*◌, ◌/◌, ◌%◌, ◌^◌, Bool, Option, none, some, not, ◌&&◌, ◌||◌, ltb, ◌==◌,
  if◌then◌else◌, add64, sub64, mul64,
}
use liballo.Base.Cmd.{Cmd, pure, ◌>>=◌, ◌>>◌, gets, modify, Slot, zoom, within}
use liballo.Mem.{Ptr, null, MemOps}
use liballo.Allo.{Error, ok, err_nomem, err_inval, Allo, allo_alloc, allo_calloc, allo_free}
use liballo.Buddy.{
  State, BuddyContext, memory, get_order_portable, list_push, mark_free, buddy_alloc_fn,
  buddy_realloc_fn, buddy_free_fn, buddy_contains_fn,
}

-- The lengths of the three arrays, in bytes; `num_levels` may be negative before it is a `size_t`.
pub free_lists_count : BuddyContext → ℕ
unfolding get_order_portable
free_lists_count c = add64 (add64 (sub64 c.max_order (get_order_portable c.min_block_size)) 1) 1

pub bit_bytes : BuddyContext → ℕ
bit_bytes c = add64 (mul64 (c.total_size / c.min_block_size) 2) 7 / 8

pub block_orders_len : BuddyContext → ℕ
block_orders_len c = c.total_size / c.min_block_size

-- The loop that rounds a size up to a power of two. It takes the number of rounds that it may make.
pub round_loop : (rounds actual_size size : ℕ) → Option ℕ
round_loop zero actual_size size = none
round_loop (suc k) actual_size size =
    let rest = round_loop k (mul64 actual_size 2) size in
    if ltb actual_size size then rest else some actual_size

-- What the factory writes before it asks for memory; `*out = …` clears the rest of the context.
pub prepare : (actual_size : ℕ) → (own_buffer : Bool) → BuddyContext
unfolding get_order_portable
prepare actual_size own_buffer = record {
  buffer = null;
  total_size = actual_size;
  min_block_size = 32;
  max_order = get_order_portable actual_size;
  free_lists = null;
  bitset = null;
  block_orders = null;
  own_buffer = own_buffer;
  heads = λ level. null;
  bits = λ i. 0;
  orders = λ i. 0;
}

abbrev set_ctx : (BuddyContext → BuddyContext) → State → State
set_ctx f s = record s { ctx = f s.ctx }

module _ {W : Type 0} (self : Slot W State) (ops : MemOps) (child : Allo W) where
  -- `if (own_buffer && buffer) …`, `if (free_lists) …`: a release under a test.
  pub free_if : Bool → Ptr → ℕ → Cmd W (Unit {0})
  free_if test ptr size = if test then allo_free child ptr size else pure tt

  pub buddy_destroy_fn : Cmd W (Unit {0})
  unfolding free_if free_lists_count bit_bytes block_orders_len
  buddy_destroy_fn = do
    ctx ← gets (λ w. (self.get w).ctx)
    free_if (ctx.own_buffer && not (ctx.buffer == null)) ctx.buffer ctx.total_size
    free_if (not (ctx.free_lists == null)) ctx.free_lists (mul64 (free_lists_count ctx) 8)
    free_if (not (ctx.bitset == null)) ctx.bitset (bit_bytes ctx)
    free_if (not (ctx.block_orders == null)) ctx.block_orders (block_orders_len ctx)

  abbrev pub buddy_allocator : Allo W
  buddy_allocator = record {
    alloc = λ size. zoom self (buddy_alloc_fn size);
    realloc = λ ptr old_size new_size. zoom self (buddy_realloc_fn ops ptr old_size new_size);
    free_mem = λ ptr size. zoom self (buddy_free_fn ptr size);
    destroy = some buddy_destroy_fn;
    contains = some (λ ptr. zoom self (buddy_contains_fn ptr));
  }

  abbrev Made : Type 0
  Made = Error × Option (Allo W)

  pub calloc : (nmemb size : ℕ) → Cmd W Ptr
  calloc = allo_calloc child ops (within self memory)

  -- The factory, once it has all its memory: the whole buffer is one free block.
  pub finish : Cmd W Made
  finish = do
    zoom self (modify λ s. mark_free 0 0 (list_push 0 s.ctx.buffer s))
    pure (ok, some buddy_allocator)

  -- The third array, and what is released when there is none.
  make_block_orders : Cmd W Made
  unfolding free_if calloc free_lists_count bit_bytes block_orders_len finish
  make_block_orders = do
    ctx ← gets (λ w. (self.get w).ctx)
    p ← calloc (block_orders_len ctx) 1
    zoom self (modify (set_ctx λ c. record c { block_orders = p; orders = λ i. 0 }))
    if p == null
        then (do
          allo_free child ctx.bitset (bit_bytes ctx)
          allo_free child ctx.free_lists (mul64 (free_lists_count ctx) 8)
          free_if ctx.own_buffer ctx.buffer ctx.total_size
          pure (err_nomem, none))
        else finish

  -- The second array.
  make_bitset : Cmd W Made
  unfolding free_if calloc free_lists_count bit_bytes make_block_orders
  make_bitset = do
    ctx ← gets (λ w. (self.get w).ctx)
    p ← calloc (bit_bytes ctx) 1
    zoom self (modify (set_ctx λ c. record c { bitset = p; bits = λ i. 0 }))
    if p == null
        then (do
          allo_free child ctx.free_lists (mul64 (free_lists_count ctx) 8)
          free_if ctx.own_buffer ctx.buffer ctx.total_size
          pure (err_nomem, none))
        else make_block_orders

  -- The first array.
  make_free_lists : Cmd W Made
  unfolding free_if calloc free_lists_count make_bitset
  make_free_lists = do
    ctx ← gets (λ w. (self.get w).ctx)
    p ← calloc (free_lists_count ctx) 8
    zoom self (modify (set_ctx λ c. record c { free_lists = p; heads = λ level. null }))
    if p == null
        then (do free_if ctx.own_buffer ctx.buffer ctx.total_size; pure (err_nomem, none))
        else make_bitset

  -- The buffer: the caller's, or one from the child.
  pub make_buffer : (buffer : Ptr) → (actual_size : ℕ) → Cmd W Made
  unfolding prepare make_free_lists
  make_buffer buffer actual_size = do
    zoom self (modify (set_ctx λ c. prepare actual_size (buffer == null)))
    start ← (if buffer == null then allo_alloc child actual_size else pure buffer)
    zoom self (modify (set_ctx λ c. record c { buffer = start }))
    if start == null then pure (err_nomem, none) else make_free_lists

-- The factory, with the rounds that its first loop may make.
pub make_buddy_allocator :
    {W : Type 0}
    → Slot W State
    → MemOps
    → (rounds : ℕ) → (out : Ptr) → (child : Option (Allo W)) → (buffer : Ptr) → (size : ℕ)
    → Cmd W (Error × Option (Allo W))
unfolding round_loop make_buffer
make_buddy_allocator self ops rounds out none buffer size = pure (err_inval, none)
make_buddy_allocator self ops rounds out (some child) buffer size =
    if (out == null) || (size == 0)
    then pure (err_inval, none)
    else elim (round_loop rounds 1 size) [
      | none ↦ λ w. none
      | some actual_size ↦ make_buffer self ops child buffer actual_size
    ]

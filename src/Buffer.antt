-- ===== src/Buffer.antt =====
-- src/allo_buffer.c: a linear allocator over a fixed buffer.
pub mod Inv
pub mod Make
pub mod Realloc
mod Tests
use liballo.Base.{
  ℕ, refl, Option, none, some, not, ◌&&◌, ◌||◌, ltb, leb, ◌==◌, if◌then◌else◌, add64, sub64,
}
use liballo.Base.Cmd.{Cmd, pure, ◌>>=◌, ◌>>◌, assert, gets, modify, Slot, zoom}
use liballo.Mem.{Ptr, null, Memory, MemOps, allo_memcpy, align_up, is_aligned}
use liballo.Allo.{Error, ok, err_inval, Contains, contains_no, contains_yes, Allo}

-- `allocator_buf_context_t`
pub record BufContext : Type 0 where
  pub buffer : Ptr
  pub size : ℕ
  pub offset : ℕ

-- What the functions see: the context in `self->_state`, and the memory.
pub record State : Type 0 where
  pub ctx : BufContext
  pub mem : Memory

abbrev pub memory : Slot State Memory
memory = record {
  get = λ s. s.mem;
  put = λ m s. record s { mem = m };
  get-put = λ m s. refl;
  put-get = λ s. refl;
  put-put = λ m n s. refl;
}

abbrev set_offset : ℕ → Cmd State (Unit {0})
set_offset n = modify λ s. record s { ctx = record (s.ctx) { offset = n } }

pub buf_alloc_fn : ℕ → Cmd State Ptr
buf_alloc_fn size = if size == 0 then pure null else (do
  ctx ← gets (λ s. s.ctx)
  assert (leb ctx.offset ctx.size)
  let aligned_offset = align_up ctx.offset 8
  if ltb ctx.size aligned_offset || ltb (sub64 ctx.size aligned_offset) size
      then pure null
      else (do set_offset (add64 aligned_offset size); pure (add64 ctx.buffer aligned_offset)))

pub buf_contains_fn : Ptr → Cmd State Contains
buf_contains_fn ptr = gets λ s.
    if leb s.ctx.buffer ptr && ltb ptr (add64 s.ctx.buffer s.ctx.size)
    then contains_yes
    else contains_no

module _ (ops : MemOps) where
  -- The second half of `buf_realloc_fn`, where the block cannot change in place.
  realloc_moved : Ptr → (old_size new_size : ℕ) → Cmd State Ptr
  unfolding buf_alloc_fn
  realloc_moved ptr old_size new_size = if leb new_size old_size then pure ptr else (do
    new_ptr ← buf_alloc_fn new_size
    if new_ptr == null
        then pure null
        else (do zoom memory (allo_memcpy ops new_ptr ptr old_size); pure new_ptr))

  pub buf_realloc_fn : Ptr → (old_size new_size : ℕ) → Cmd State Ptr
  unfolding realloc_moved
  buf_realloc_fn ptr old_size new_size = do
    ctx ← gets (λ s. s.ctx)
    let is_last_alloc = add64 ptr old_size == add64 ctx.buffer ctx.offset
    let base_offset = sub64 ptr ctx.buffer
    let fits_in_current = leb (add64 base_offset new_size) ctx.size
    if is_last_alloc && fits_in_current
        then (do set_offset (add64 base_offset new_size); pure ptr)
        else realloc_moved ptr old_size new_size

-- Only the shadow memory of a sanitizer changes.
pub buf_free_fn : Ptr → ℕ → Cmd State (Unit {0})
buf_free_fn ptr size = pure tt

pub buf_destroy_fn : Cmd State (Unit {0})
buf_destroy_fn = pure tt

module _ (ops : MemOps) {W : Type 0} (self : Slot W State) where
  -- The functions, run on the whole state.
  abbrev pub buf_allocator : Allo W
  buf_allocator = record {
    alloc = λ size. zoom self (buf_alloc_fn size);
    realloc = λ ptr old_size new_size. zoom self (buf_realloc_fn ops ptr old_size new_size);
    free_mem = λ ptr size. zoom self (buf_free_fn ptr size);
    destroy = some (zoom self buf_destroy_fn);
    contains = some (λ ptr. zoom self (buf_contains_fn ptr));
  }

  pub make_fixed_buf_allocator : (out buffer : Ptr) → ℕ → Cmd W (Error × Option (Allo W))
  make_fixed_buf_allocator out buffer size =
      if (out == null) || (buffer == null) || (size == 0)
      then pure (err_inval, none)
      else if not (is_aligned buffer 8)
      then pure (err_inval, none)
      else (do
        zoom self
            (modify λ s. record s { ctx = record { buffer = buffer; size = size; offset = 0 } })
        pure (ok, some buf_allocator))

-- ===== src/Fallback.antt =====
-- src/allo_fallback.c: a primary allocator, and a second one for what it refuses.
pub mod FixedBuffer
pub mod Routing
mod Tests
use liballo.Base.{ℕ, Option, none, some, ◌||◌, ltb, ◌==◌, if◌then◌else◌}
use liballo.Base.Cmd.{Cmd, pure, ◌>>=◌, ◌>>◌, Slot, zoom}
use liballo.Mem.{Ptr, null, Memory, MemOps, allo_memcpy}
use liballo.Allo.{
  Error, ok, err_inval, Contains, contains_no, contains_yes, contains_unknown, Allo, allo_alloc,
  allo_free, allo_realloc, allo_contains,
}

module _ {W : Type 0} (primary fallback : Allo W) where
  pub fallback_alloc_fn : ℕ → Cmd W Ptr
  fallback_alloc_fn size = do
    ptr ← allo_alloc primary size
    if ptr == null then allo_alloc fallback size else pure ptr

  pub fallback_free_fn : Ptr → ℕ → Cmd W (Unit {0})
  fallback_free_fn ptr size = if ptr == null then pure tt else (do
    primary_contains ← allo_contains primary ptr
    elim primary_contains [
      | contains_no ↦ allo_free fallback ptr size
      | contains_yes ↦ allo_free primary ptr size
      | contains_unknown ↦ allo_free primary ptr size
    ])

  pub fallback_contains_fn : Ptr → Cmd W Contains
  fallback_contains_fn ptr = do
    in_primary ← allo_contains primary ptr
    elim in_primary [
      | contains_yes ↦ pure contains_yes
      | contains_no ↦ (do
        in_fallback ← allo_contains fallback ptr
        elim in_fallback [
          | contains_yes ↦ pure contains_yes
          | contains_no ↦ pure contains_no
          | contains_unknown ↦ pure contains_unknown
        ])
      | contains_unknown ↦ (do
        in_fallback ← allo_contains fallback ptr
        elim in_fallback [
          | contains_yes ↦ pure contains_yes
          | contains_no ↦ pure contains_unknown
          | contains_unknown ↦ pure contains_unknown
        ])
    ]

  module _ (ops : MemOps) (memory : Slot W Memory) where
    -- The branch for a pointer that the primary allocator has, or may have.
    pub realloc_primary : Ptr → (old_size new_size : ℕ) → Cmd W Ptr
    realloc_primary ptr old_size new_size = do
      new_ptr ← allo_realloc primary ptr old_size new_size
      if new_ptr == null
          then (do
            moved ← allo_alloc fallback new_size
            if moved == null then pure null else (do
              zoom memory
                  (allo_memcpy ops moved ptr (if ltb old_size new_size then old_size else new_size))
              allo_free primary ptr old_size
              pure moved))
          else pure new_ptr

    pub fallback_realloc_fn : Ptr → (old_size new_size : ℕ) → Cmd W Ptr
    fallback_realloc_fn ptr old_size new_size =
        if ptr == null then fallback_alloc_fn new_size else (do
          primary_contains ← allo_contains primary ptr
          elim primary_contains [
            | contains_no ↦ allo_realloc fallback ptr old_size new_size
            | contains_yes ↦ realloc_primary ptr old_size new_size
            | contains_unknown ↦ realloc_primary ptr old_size new_size
          ])

    abbrev pub fallback_allocator : Allo W
    fallback_allocator = record {
      alloc = fallback_alloc_fn;
      realloc = fallback_realloc_fn;
      free_mem = fallback_free_fn;
      destroy = none;
      contains = some fallback_contains_fn;
    }

-- The two pointers are `none` where the caller passes NULL.
pub make_fallback_allocator :
    {W : Type 0}
    → MemOps
    → Slot W Memory
    → (out : Ptr) → (primary fallback : Option (Allo W)) → Cmd W (Error × Option (Allo W))
make_fallback_allocator ops memory out none fallback = pure (err_inval, none)
make_fallback_allocator ops memory out (some primary) none = pure (err_inval, none)
make_fallback_allocator ops memory out (some primary) (some fallback) =
    if out == null
    then pure (err_inval, none)
    else pure (ok, some (fallback_allocator primary fallback ops memory))

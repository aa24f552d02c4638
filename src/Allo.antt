-- ===== src/Allo.antt =====
-- The interface of all allocators: include/allo.h and src/allo.c.
--
-- The state `W` is all that the program can change: the memory and the `_state` of every allocator.
-- An `Allo W` is the table of functions of an `allo_t`; `none` is a NULL function.
pub mod Calloc
pub mod Contract
mod Tests
use liballo.Base.{ℕ, ◌/◌, ◌-◌, ◌^◌, Bool, Option, none, some, ◌&&◌, ltb, ◌==◌, if◌then◌else◌, mul64}
use liballo.Base.Cmd.{Cmd, pure, ◌>>=◌, ◌>>◌, Slot, zoom}
use liballo.Mem.{Ptr, null, Memory, MemOps, allo_memset}

-- `allo_error_t`
pub data Error : Type 0 where
  ok err_nomem err_inval : Error

-- `allo_contains_t`
pub data Contains : Type 0 where
  contains_no contains_yes contains_unknown : Contains

-- `allo_t`
pub record Allo (W : Type 0) : Type 0 where
  pub alloc : ℕ → Cmd W Ptr
  pub realloc : Ptr → (old_size new_size : ℕ) → Cmd W Ptr
  pub free_mem : Ptr → ℕ → Cmd W (Unit {0})
  pub destroy : Option (Cmd W (Unit {0}))
  pub contains : Option (Ptr → Cmd W Contains)

module _ {W : Type 0} (a : Allo W) where
  abbrev pub allo_alloc : ℕ → Cmd W Ptr
  allo_alloc size = a.alloc size

  abbrev pub allo_free : Ptr → ℕ → Cmd W (Unit {0})
  allo_free ptr size = a.free_mem ptr size

  unfoldable pub allo_destroy : Cmd W (Unit {0})
  allo_destroy = elim a.destroy [ some destroy ↦ destroy | none ↦ pure tt ]

  unfoldable pub allo_contains : Ptr → Cmd W Contains
  allo_contains ptr = elim a.contains [
    | some contains ↦ contains ptr
    | none ↦ pure contains_unknown
  ]

  unfoldable pub allo_realloc : Ptr → (old_size new_size : ℕ) → Cmd W Ptr
  allo_realloc ptr old_size new_size =
      if new_size == 0
      then (do allo_free ptr old_size; pure null)
      else if ptr == null
      then allo_alloc new_size
      else if old_size == new_size
      then pure ptr
      else a.realloc ptr old_size new_size

  module _ (ops : MemOps) (memory : Slot W Memory) where
    -- `if (ptr) allo_memset(ptr, 0, total)`
    zero_fill : Ptr → ℕ → Cmd W (Unit {0})
    zero_fill ptr total = if ptr == null then pure tt else zoom memory (allo_memset ops ptr 0 total)

    unfoldable pub allo_calloc : (nmemb size : ℕ) → Cmd W Ptr
    unfolding zero_fill
    allo_calloc nmemb size =
        if ltb 0 size && ltb ((2 ^ 64 - 1) / size) nmemb then pure null else (do
          let total = mul64 nmemb size
          ptr ← allo_alloc total
          zero_fill ptr total
          pure ptr)

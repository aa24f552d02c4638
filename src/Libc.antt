-- ===== src/Libc.antt =====
-- src/allo_libc.c: the C library's allocator behind the interface.
pub mod Heap
mod Tests
use liballo.Base.{ℕ, none, some, ◌==◌, if◌then◌else◌, Option}
use liballo.Base.Cmd.{Cmd, pure}
use liballo.Mem.{Ptr, null}
use liballo.Allo.{Error, ok, err_inval, Allo}

-- <stdlib.h>
pub record LibcOps (W : Type 0) : Type 0 where
  pub malloc : ℕ → Cmd W Ptr
  pub realloc : Ptr → ℕ → Cmd W Ptr
  pub free : Ptr → Cmd W (Unit {0})

module _ {W : Type 0} (libc : LibcOps W) where
  pub c_alloc_fn : ℕ → Cmd W Ptr
  c_alloc_fn size = if size == 0 then pure null else libc.malloc size

  pub c_realloc_fn : Ptr → (old_size new_size : ℕ) → Cmd W Ptr
  c_realloc_fn ptr old_size new_size = libc.realloc ptr new_size

  pub c_free_fn : Ptr → ℕ → Cmd W (Unit {0})
  c_free_fn ptr size = if ptr == null then pure tt else libc.free ptr

  abbrev pub c_allocator : Allo W
  c_allocator = record {
    alloc = c_alloc_fn;
    realloc = c_realloc_fn;
    free_mem = c_free_fn;
    destroy = none;
    contains = none;
  }

  pub make_c_allocator : (out : Ptr) → Cmd W (Error × Option (Allo W))
  make_c_allocator out = if out == null then pure (err_inval, none) else pure (ok, some c_allocator)

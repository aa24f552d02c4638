-- ===== src/Mem.antt =====
-- The memory that the allocators manage, and include/allo_mem.h, src/allo_mem.c.
--
-- A pointer is an address below 2 ^ 64, and NULL is 0. The memory keeps `char` objects (`byte`)
-- apart from the pointers and `size_t` fields that the allocators store in blocks (`word`, by the
-- address of the field), as C's effective types keep them apart.
pub mod Align
pub mod Copy
mod Tests
use liballo.Base.{
  ℕ, zero, suc, ◌+◌, ◌≤◌, ◌<◌, ◌%◌, ◌^◌, ◌≡◌, ◌⊎◌, Bool, not, ◌&&◌, ◌||◌, bit_and, leb, ◌==◌,
  if◌then◌else◌, add64, sub64, not64,
}
use liballo.Base.Cmd.{Cmd, ◌>>◌, assert, modify}

abbrev pub Ptr : Type 0
Ptr = ℕ

abbrev pub null : Ptr
null = 0

pub record Memory : Type 0 where
  pub byte : Ptr → ℕ
  pub word : Ptr → ℕ

abbrev pub update : (Ptr → ℕ) → Ptr → ℕ → Ptr → ℕ
update f p v q = if p == q then v else f q

abbrev pub InRange : Ptr → ℕ → Ptr → Type 0
InRange p n q = (p ≤ q) × (q < p + n)

-- Two ranges with no address in common.
abbrev pub Apart : Ptr → ℕ → Ptr → ℕ → Type 0
Apart p n q k = (p + n ≤ q) ⊎ (q + k ≤ p)

-- The bytes of the source in the destination, and nothing else changed.
pub record Copied (dest src n : ℕ) (m m' : Memory) : Type 0 where
  pub copied : (i : ℕ) → i < n → m'.byte (dest + i) ≡ m.byte (src + i)
  pub same : (q : Ptr) → ¬ InRange dest n q → m'.byte q ≡ m.byte q
  pub word : m'.word ≡ m.word

-- The byte `c` in each place of the range, and nothing else changed.
pub record Filled (s c n : ℕ) (m m' : Memory) : Type 0 where
  pub filled : (i : ℕ) → i < n → m'.byte (s + i) ≡ c % 256
  pub same : (q : Ptr) → ¬ InRange s n q → m'.byte q ≡ m.byte q
  pub word : m'.word ≡ m.word

-- `ALLO_IS_ALIGNED`
pub is_aligned : Ptr → ℕ → Bool
is_aligned ptr align = bit_and ptr (sub64 align 1) == 0

-- `allo_align_up`
unfoldable pub align_up : ℕ → ℕ → ℕ
align_up size align = bit_and (sub64 (add64 size align) 1) (not64 (sub64 align 1))

-- The loops of the freestanding build; they stand for the library's functions elsewhere.
memcpy_loop : (rounds i : ℕ) → (dest src : Ptr) → Memory → Memory
memcpy_loop zero i dest src m = m
memcpy_loop (suc k) i dest src m =
    memcpy_loop k (i + 1) dest src
      (record m { byte = update m.byte (add64 dest i) (m.byte (add64 src i)) })

pub memcpy_freestanding : (dest src : Ptr) → ℕ → Memory → Memory
unfolding memcpy_loop
memcpy_freestanding dest src n = memcpy_loop n 0 dest src

memset_loop : (n : ℕ) → (p : Ptr) → (c : ℕ) → Memory → Memory
memset_loop zero p c m = m
memset_loop (suc n) p c m =
    memset_loop n (add64 p 1) c (record m { byte = update m.byte p (c % 256) })

pub memset_freestanding : Ptr → (c n : ℕ) → Memory → Memory
unfolding memset_loop
memset_freestanding s c n = memset_loop n s c

-- The functions of <string.h>, which the hosted build calls, with what the C standard says of
-- them: they fill the destination and write nothing else. The ranges end within the address space.
pub record MemOps : Type 0 where
  pub memcpy : (dest src : Ptr) → ℕ → Memory → Memory
  pub memset : Ptr → (c n : ℕ) → Memory → Memory
  pub memcpy_lem :
      (dest src n : ℕ) (m : Memory)
      → dest + n ≤ 2 ^ 64
      → src + n ≤ 2 ^ 64
      → Apart dest n src n
      → Copied dest src n m (memcpy dest src n m)
  pub memset_lem : (s c n : ℕ) (m : Memory) → s + n ≤ 2 ^ 64 → Filled s c n m (memset s c n m)

module _ (ops : MemOps) where
  -- `allo_memcpy` of the hosted build, with its two assertions.
  unfoldable pub allo_memcpy : (dest src : Ptr) → ℕ → Cmd Memory (Unit {0})
  allo_memcpy dest src n = do
    assert (not (dest == null) && not (src == null))
    assert (leb (add64 dest n) src || leb (add64 src n) dest)
    modify (ops.memcpy dest src n)

  -- `allo_memset` of the hosted build.
  unfoldable pub allo_memset : Ptr → (c n : ℕ) → Cmd Memory (Unit {0})
  allo_memset s c n = do assert (not (s == null)); modify (ops.memset s c n)

-- ===== src/Mem/Copy.antt =====
-- The loops of src/allo_mem.c do what <string.h> says, and the assertions of include/allo_mem.h.
use liballo.Base.{
  ℕ, zero, suc, ◌+◌, ◌≤◌, ◌<◌, ◌%◌, ◌^◌, ◌≡◌, refl, ◌≢◌, some, inl, inr, Bool-cases, arith, ◌==◌,
  add64,
}
use liballo.Mem.{
  Ptr, null, allo_memcpy, allo_memset, Memory, update, InRange, Apart, Copied, Filled, memcpy_loop,
  memcpy_freestanding, memset_loop, memset_freestanding, MemOps,
}

-- Bytes before round `i` are in place, and the source is as it was.
record Copying (dest src n i : ℕ) (m m' : Memory) : Type 0 where
  copied : (j : ℕ) → i ≤ j → j < i + n → m'.byte (dest + j) ≡ m.byte (src + j)
  same : (q : Ptr) → ¬ InRange (dest + i) n q → m'.byte q ≡ m.byte q
  word : m'.word ≡ m.word

-- One round: byte `i` is written, and the rest of the loop does not touch it.
Copying-step :
    (dest src k i : ℕ) (m : Memory) {m' : Memory}
    → dest + i + suc k ≤ 2 ^ 64
    → src + i + suc k ≤ 2 ^ 64
    → Apart dest (i + suc k) src (i + suc k)
    → Copying dest src k
        (i + 1)
        (record m { byte = update m.byte (add64 dest i) (m.byte (add64 src i)) })
        m'
    → Copying dest src (suc k) i m m'
Copying-step dest src k i m hd hs apart rest = record {
  copied = λ j lo hi. elim (Bool-cases (j == i)) [
    | inl e ↦ ground (arith, rest.same (dest + j))
    | inr e ↦ ground (arith, rest.copied j)
  ];
  same = λ q out. ground (arith, rest.same q);
  word = rest.word;
}

memcpy_loop_lem :
    (n i dest src : ℕ) (m : Memory)
    → dest + i + n ≤ 2 ^ 64
    → src + i + n ≤ 2 ^ 64
    → Apart dest (i + n) src (i + n)
    → Copying dest src n i m (memcpy_loop n i dest src m)
unfolding memcpy_loop
memcpy_loop_lem zero i dest src m hd hs apart = record {
  copied = λ j lo hi. absurd (omega arith);
  same = λ q out. refl;
  word = refl;
}
memcpy_loop_lem (suc k) i dest src m hd hs apart =
    Copying-step dest src k i m hd hs apart
      (memcpy_loop_lem k (i + 1) dest src _ (omega arith) (omega arith) (ground arith))

-- `allo_memcpy` of src/allo_mem.c on ranges that do not overlap copies the source into the
-- destination, byte for byte, and writes nothing outside the destination.
pub memcpy_freestanding_lem :
    (dest src n : ℕ) (m : Memory)
    → dest + n ≤ 2 ^ 64
    → src + n ≤ 2 ^ 64
    → Apart dest n src n
    → Copied dest src n m (memcpy_freestanding dest src n m)
unfolding memcpy_freestanding
memcpy_freestanding_lem dest src n m hd hs apart =
    let all = memcpy_loop_lem n 0 dest src m (omega arith) (omega arith) (ground arith) in
    record {
      copied = λ i h. all.copied i (omega arith) (omega arith);
      same = λ q out. all.same q (ground arith);
      word = all.word;
    }

Filled-step :
    (p c n : ℕ) (m : Memory) {m' : Memory}
    → p + suc n ≤ 2 ^ 64
    → ((i : ℕ) → i < n → m'.byte (p + 1 + i) ≡ c % 256)
    → ((q : Ptr) → ¬ InRange (p + 1) n q → m'.byte q ≡ update m.byte p (c % 256) q)
    → m'.word ≡ m.word
    → Filled p c (suc n) m m'
Filled-step p c n m h filled same word = record {
  filled = elim [
    | zero ↦ λ lt. ground (arith, same (p + 0))
    | suc i ↦ λ lt. ground (arith, filled i)
  ];
  same = λ q out. ground (arith, same q);
  word = word;
}

memset_loop_lem : (n p c : ℕ) (m : Memory) → p + n ≤ 2 ^ 64 → Filled p c n m (memset_loop n p c m)
unfolding memset_loop
memset_loop_lem zero p c m h = record {
  filled = λ i lt. absurd (omega arith);
  same = λ q out. refl;
  word = refl;
}
memset_loop_lem (suc n) p c m h =
    let rest =
      memset_loop_lem n (add64 p 1) c (record m { byte = update m.byte p (c % 256) })
        (omega arith) in
    Filled-step p c n m h (λ i lt. ground (arith, rest.filled i))
      (λ q out. ground (arith, rest.same q)) rest.word

-- `allo_memset` of src/allo_mem.c stores the low byte of `c` in each of the `n` places from `s` on,
-- and writes nothing else.
memset_freestanding_lem :
    (s c n : ℕ) (m : Memory) → s + n ≤ 2 ^ 64 → Filled s c n m (memset_freestanding s c n m)
unfolding memset_freestanding
memset_freestanding_lem s c n m h = memset_loop_lem n s c m h

-- The freestanding build's own functions meet the contract of <string.h>.
pub freestanding : MemOps
freestanding = record {
  memcpy = memcpy_freestanding;
  memset = memset_freestanding;
  memcpy_lem = memcpy_freestanding_lem;
  memset_lem = memset_freestanding_lem;
}

module _ (ops : MemOps) where
  -- Ranges of two objects meet the assertions of `allo_memcpy`.
  pub allo_memcpy_run :
      (dest src n : ℕ) (m : Memory)
      → dest ≢ null
      → src ≢ null
      → dest + n < 2 ^ 64
      → src + n < 2 ^ 64
      → Apart dest n src n
      → allo_memcpy ops dest src n m ≡ some (tt, ops.memcpy dest src n m)
  unfolding allo_memcpy
  allo_memcpy_run dest src n m hd hs fd fs apart = ground arith

  pub allo_memset_run :
      (s c n : ℕ) (m : Memory) → s ≢ null → allo_memset ops s c n m ≡ some (tt, ops.memset s c n m)
  unfolding allo_memset
  allo_memset_run s c n m h = ground arith

-- ===== src/Mem/Tests.antt =====
-- The memory functions at concrete inputs.
use liballo.Base.{◌%◌, ◌≡◌, refl}
use liballo.Mem.{Memory, memcpy_freestanding}

abbrev counting : Memory
counting = record { byte = λ p. p % 256; word = λ p. 0 }

copied_byte : (memcpy_freestanding 64 16 8 counting).byte 70 ≡ 22
unfolding memcpy_freestanding
copied_byte = refl

-- ===== src/Base/Arith.antt =====
-- Products, which linear arithmetic does not compare by itself.
use Prim.Native.Nat.{ℕ, ◌+◌, ◌*◌, ◌/◌, ◌≤◌, ◌<◌}
use native.Mathlib.Omega.{arith}

pub mul-le : (n : ℕ) {x y : ℕ} → x ≤ y → n * x ≤ n * y
mul-le n h = grind arith

pub mul-div-le : (s v : ℕ) → s * (v / s) ≤ v
mul-div-le s v = omega arith

pub lt-mul-div : (s v : ℕ) → 0 < s → v < s * (v / s + 1)
lt-mul-div s v h = omega arith

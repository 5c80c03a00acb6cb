-- ===== src/Base/Products.antt =====
-- Orders and equations of products, which linear arithmetic does not see.
use Prim.Native.Nat.{ℕ, ◌+◌, ◌*◌, ◌≤◌, ◌<◌}
use mathlib.Core.Path.{◌≡◌}
use native.Mathlib.Omega.{arith}

pub le-mul : (a b : ℕ) → 0 < b → a ≤ a * b
le-mul a b h = grind arith

pub positive_product : (a b : ℕ) → 0 < a → 0 < b → 0 < a * b
positive_product a b h k = grind arith

pub scaled_lt : (a b c : ℕ) → a < b → 0 < c → a * c < b * c
scaled_lt a b c h pos = grind arith

pub lt_of_scaled : (a b c : ℕ) → a * c < b * c → a < b
lt_of_scaled a b c h = grind arith

-- A line is inside the buffer.
pub line_lt : (sets ways way set : ℕ) → way < ways → set < sets → way * sets + set < ways * sets
line_lt sets ways way set h k = grind arith

pub mul_rotate : (a b c d : ℕ) → d ≡ b * c → a * b * c ≡ a * d
mul_rotate a b c d e = grind arith

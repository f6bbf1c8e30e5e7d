-- ===== src/Prelude/Int.antt =====
-- Signed integers over the native numbers, under the library's names (its ℤ stands on the unary ℕ).
use Prim.Native.Nat.{ℕ}
use mathlib.Core.Path.{◌≡◌}
use mathlib.Core.Bool.{Bool, true, false}
use native.Mathlib.Omega.{arith}
use umbral.Prelude.Tests.{ltb}

-- `negsuc n` is -(n + 1).
pub data ℤ : Type 0 where
  pos : ℕ → ℤ
  negsuc : ℕ → ℤ

-- `max(0, z)`
abbrev pub pos_part : ℤ → ℕ
pos_part (pos n) = n
pos_part (negsuc n) = 0

abbrev pub int_ltb : ℤ → ℤ → Bool
int_ltb (pos a) (pos b) = ltb a b
int_ltb (pos a) (negsuc b) = false
int_ltb (negsuc a) (pos b) = true
int_ltb (negsuc a) (negsuc b) = ltb b a

pub int_ltb_trans : (a b c : ℤ) → int_ltb a b ≡ false → int_ltb b c ≡ false → int_ltb a c ≡ false
int_ltb_trans (pos a) (pos b) (pos c) h k = ground arith
int_ltb_trans (pos a) (pos b) (negsuc c) h k = ground arith
int_ltb_trans (pos a) (negsuc b) (pos c) h k = ground arith
int_ltb_trans (pos a) (negsuc b) (negsuc c) h k = ground arith
int_ltb_trans (negsuc a) (pos b) (pos c) h k = ground arith
int_ltb_trans (negsuc a) (pos b) (negsuc c) h k = ground arith
int_ltb_trans (negsuc a) (negsuc b) (pos c) h k = ground arith
int_ltb_trans (negsuc a) (negsuc b) (negsuc c) h k = ground arith

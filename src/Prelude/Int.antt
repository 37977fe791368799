-- ===== src/Prelude/Int.antt =====
-- Signed integers over the native numbers: `negsuc n` is the number below zero by `n + 1`.
use Prim.Native.Nat.{ℕ}
use mathlib.Core.Bool.{Bool, false}
use greenlight.Prelude.Tests.{◌==◌}

pub data ℤ : Type 0 where
  pos : ℕ → ℤ
  negsuc : ℕ → ℤ

abbrev pub eqz : ℤ → ℤ → Bool
eqz (pos a) (pos b) = a == b
eqz (negsuc a) (negsuc b) = a == b
eqz (pos a) (negsuc b) = false
eqz (negsuc a) (pos b) = false

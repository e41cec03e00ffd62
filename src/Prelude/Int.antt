-- ===== src/Prelude/Int.antt =====
-- Signed machine integers: the integers, and the range of `i32`.
use Prim.Native.Nat.{ℕ, ◌-◌, ◌%◌, ◌^◌, ◌<◌}
use mathlib.Core.Path.{◌≡◌}
use native.Mathlib.Omega.{arith}
use iroh_dart.Prelude.Tests.{ltb, if◌then◌else◌}

-- `negsuc n` is -(n + 1).
pub data ℤ : Type 0 where
  pos : ℕ → ℤ
  negsuc : ℕ → ℤ

abbrev pub IsI32 : ℤ → Type 0
IsI32 (pos n) = n < 2 ^ 31
IsI32 (negsuc n) = n < 2 ^ 31

-- `n as i32` of a `usize`: the low 32 bits, read as a signed number.
unfoldable pub as_i32 : ℕ → ℤ
as_i32 n = let w : ℕ = n % 2 ^ 32 in if ltb w (2 ^ 31) then pos w else negsuc (2 ^ 32 - w - 1)

pub as_i32-IsI32 : (n : ℕ) → IsI32 (as_i32 n)
unfolding as_i32
as_i32-IsI32 n = ground arith

pub as_i32-small : (n : ℕ) → n < 2 ^ 31 → as_i32 n ≡ pos n
unfolding as_i32
as_i32-small n h = ground arith

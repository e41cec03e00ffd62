-- ===== src/Wire/LittleEndian.antt =====
-- The cursor of a little-endian platform, at which the codec can run.
use native.Mathlib.Nat.{pow-suc}
use mathlib.Core.Option
use iroh_dart.Prelude.{
  ℕ, zero, suc, ◌+◌, ◌-◌, ◌*◌, ◌/◌, ◌%◌, ◌^◌, ◌<◌, ◌≡◌, Option, none, some, List, [], ◌∷◌, ◌++◌,
  arith,
}
use iroh_dart.Prelude.Int.{ℤ, pos, negsuc, as_i32, IsI32}
use iroh_dart.Wire.{Cursor, CursorLaws}

unfoldable pub write_le : ℕ → ℕ → List ℕ
write_le zero n = []
write_le (suc k) n = (n % 256) ∷ write_le k (n / 256)

unfoldable pub read_le : ℕ → List ℕ → Option (ℕ × List ℕ)
read_le zero bytes = some (0, bytes)
read_le (suc k) [] = none
read_le (suc k) (b ∷ bytes) = Option.map (λ (n, rest). (b + 256 * n, rest)) (read_le k bytes)

pub read_le-write :
    (k n : ℕ) (rest : List ℕ) → n < 256 ^ k → read_le k (write_le k n ++ rest) ≡ some (n, rest)
unfolding read_le write_le
read_le-write zero n rest h = ground arith
read_le-write (suc k) n rest h =
    let small : n / 256 < 256 ^ k = omega (arith, pow-suc 256 k) in
    rw (read_le-write k (n / 256) rest small) (ground arith)

abbrev pub to_u32 : ℤ → ℕ
to_u32 (pos n) = n
to_u32 (negsuc n) = 2 ^ 32 - 1 - n

abbrev pub little_endian : Cursor
little_endian = record {
  write_u8 = write_le 1;
  read_u8 = read_le 1;
  write_u32 = write_le 4;
  read_u32 = read_le 4;
  write_u64 = write_le 8;
  read_u64 = read_le 8;
  write_i32 = λ z. write_le 4 (to_u32 z);
  read_i32 = λ bytes. Option.map (λ (n, rest). (as_i32 n, rest)) (read_le 4 bytes);
}

pub as_i32-to_u32 : (z : ℤ) → IsI32 z → as_i32 (to_u32 z) ≡ z
unfolding as_i32
as_i32-to_u32 (pos n) h = ground arith
as_i32-to_u32 (negsuc n) h = ground arith

pub to_u32-lt : (z : ℤ) → IsI32 z → to_u32 z < 2 ^ 32
to_u32-lt (pos n) h = omega arith
to_u32-lt (negsuc n) h = omega arith

pub little_endian-CursorLaws : CursorLaws little_endian
little_endian-CursorLaws = record {
  read_u8-write = λ n rest h. read_le-write 1 n rest h;
  read_u32-write = λ n rest h. read_le-write 4 n rest h;
  read_u64-write = λ n rest h. read_le-write 8 n rest h;
  read_i32-write =
      λ z rest h. rw (read_le-write 4 (to_u32 z) rest (to_u32-lt z h), as_i32-to_u32 z h);
}

-- ===== src/Wire.antt =====
-- packages/iroh_quic/rust/src/frb_generated.rs, sections dart2rust and rust2dart: the SSE codec
-- that carries values between Dart and Rust. `byteorder` is a parameter, with the platform's byte
-- order. A decoder's `none` is a panic of the Rust code. The target has 64-bit addresses, so that
-- `usize` and `isize` are `u64` and `i64`.
pub mod Scalars
pub mod Values
pub mod Reads
pub mod LittleEndian
pub mod Dart
pub mod Tests
use iroh_dart.Prelude.{ℕ, Option, none, some, List, ◌++◌, ◌≡◌, ◌<◌, ◌^◌}
use iroh_dart.Prelude.Int.{ℤ, IsI32}

-- The reads and writes of `ReadBytesExt` and `WriteBytesExt` that the codec uses, on the bytes that
-- are left. A read fails (and its `unwrap` panics) where bytes are missing.
pub record Cursor : Type 0 where
  pub write_u8 : ℕ → List ℕ
  pub read_u8 : List ℕ → Option (ℕ × List ℕ)
  pub write_u32 : ℕ → List ℕ
  pub read_u32 : List ℕ → Option (ℕ × List ℕ)
  pub write_u64 : ℕ → List ℕ
  pub read_u64 : List ℕ → Option (ℕ × List ℕ)
  pub write_i32 : ℤ → List ℕ
  pub read_i32 : List ℕ → Option (ℤ × List ℕ)

-- Each read takes back what its write put, for values of the type.
pub record CursorLaws (c : Cursor) : Type 0 where
  pub read_u8-write :
      (n : ℕ) (rest : List ℕ) → n < 2 ^ 8 → c.read_u8 (c.write_u8 n ++ rest) ≡ some (n, rest)
  pub read_u32-write :
      (n : ℕ) (rest : List ℕ) → n < 2 ^ 32 → c.read_u32 (c.write_u32 n ++ rest) ≡ some (n, rest)
  pub read_u64-write :
      (n : ℕ) (rest : List ℕ) → n < 2 ^ 64 → c.read_u64 (c.write_u64 n ++ rest) ≡ some (n, rest)
  pub read_i32-write :
      (z : ℤ) (rest : List ℕ) → IsI32 z → c.read_i32 (c.write_i32 z ++ rest) ≡ some (z, rest)

abbrev pub Decoder : Type 0 → Type 0
Decoder A = List ℕ → Option (A × List ℕ)

infixl 5 ◌>>=◌
unfoldable pub ◌>>=◌ : {A B : Type 0} → Decoder A → (A → Decoder B) → Decoder B
◌>>=◌ m f s = elim (m s) [ none ↦ none | some (a, s') ↦ f a s' ]

unfoldable pub pure : {A : Type 0} → A → Decoder A
pure a s = some (a, s)

-- `unwrap` on `None`, `unreachable!`, or a failed allocation.
unfoldable pub panic : {A : Type 0} → Decoder A
panic s = none

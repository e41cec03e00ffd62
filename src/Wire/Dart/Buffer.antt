-- ===== src/Wire/Dart/Buffer.antt =====
-- Dart's buffer on a little-endian platform.
use mathlib.Core.Option
use iroh_dart.Prelude.{
  ℕ, zero, suc, ◌<◌, ◌^◌, ◌≡◌, refl, false, Option, none, some, List, [], ◌∷◌, ◌++◌, length, All,
  if◌then◌else◌, arith,
}
use iroh_dart.Prelude.Int.{ℤ, pos, negsuc}
use iroh_dart.Wire.Scalars.{encode_items, is_utf8}
use iroh_dart.Wire.LittleEndian.{little_endian, write_le, little_endian-CursorLaws}
use iroh_dart.Wire.Dart.{DartBuffer, BufferLaws, has_bom}

unfoldable pub split_bytes : ℕ → List ℕ → Option (List ℕ × List ℕ)
split_bytes zero bytes = some ([], bytes)
split_bytes (suc n) [] = none
split_bytes (suc n) (b ∷ bytes) = Option.map (λ (bs, rest). (b ∷ bs, rest)) (split_bytes n bytes)

abbrev split_at : ℤ → List ℕ → Option (List ℕ × List ℕ)
split_at (pos n) bytes = split_bytes n bytes
split_at (negsuc n) bytes = none

abbrev drop_bom : List ℕ → List ℕ
drop_bom (a ∷ b ∷ c ∷ rest) = if has_bom (a ∷ b ∷ c ∷ rest) then rest else a ∷ b ∷ c ∷ rest
drop_bom s = s

drop_bom_lem : (s : List ℕ) → has_bom s ≡ false → drop_bom s ≡ s
drop_bom_lem [] h = refl
drop_bom_lem (a ∷ []) h = refl
drop_bom_lem (a ∷ b ∷ []) h = refl
drop_bom_lem (a ∷ b ∷ c ∷ rest) h = rw h

abbrev pub dart_buffer : DartBuffer
dart_buffer = record {
  put_uint8 = little_endian.write_u8;
  get_uint8 = little_endian.read_u8;
  put_uint32 = little_endian.write_u32;
  put_int32 = little_endian.write_i32;
  get_int32 = little_endian.read_i32;
  put_big_uint64 = little_endian.write_u64;
  get_big_uint64 = little_endian.read_u64;
  put_uint8_list = encode_items (write_le 1);
  get_uint8_list = split_at;
  utf8_convert = λ s. if is_utf8 s then some (drop_bom s) else none;
}

split_bytes_lem :
    (bs rest : List ℕ)
    → All (λ n. n < 2 ^ 8) bs
    → split_bytes (length bs) (encode_items (write_le 1) bs ++ rest) ≡ some (bs, rest)
unfolding split_bytes encode_items write_le
split_bytes_lem [] rest h = refl
split_bytes_lem (b ∷ bs) rest h = ground (arith, split_bytes_lem bs rest)

pub dart_buffer-BufferLaws : BufferLaws little_endian dart_buffer
dart_buffer-BufferLaws = record {
  put_uint8_lem = λ n. refl;
  put_uint32_lem = λ n. refl;
  put_int32_lem = λ z. refl;
  put_big_uint64_lem = λ n. refl;
  put_uint8_list_lem = λ bs. refl;
  get_uint8-write = little_endian-CursorLaws.read_u8-write;
  get_int32-write = little_endian-CursorLaws.read_i32-write;
  get_big_uint64-write = little_endian-CursorLaws.read_u64-write;
  get_uint8_list-write = split_bytes_lem;
  utf8_convert_lem = λ s valid bare. rw (valid, drop_bom_lem s bare);
}

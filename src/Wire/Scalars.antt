-- ===== src/Wire/Scalars.antt =====
-- The codec of numbers, Booleans, byte lists and strings, and the shape of `Vec` and `Option`.
pub mod Laws
use iroh_dart.Prelude.{
  ℕ, zero, suc, ◌-◌, ◌≡◌, Bool, true, false, not, ◌&&◌, Option, none, some, List, [], ◌∷◌, ◌++◌,
  Str, length, ltb, leb, ◌==◌, if◌then◌else◌,
}
use iroh_dart.Prelude.Int.{ℤ, pos, negsuc, as_i32}
use iroh_dart.Wire.{Cursor, Decoder, ◌>>=◌, pure, panic}

-- What a first byte asks of the bytes after it: the range of the second byte, and how many follow.
abbrev lead : ℕ → Option (ℕ × ℕ × ℕ)
lead b =
    if ltb b 0x80
    then some (0, 0, 0)
    else if leb 0xc2 b && leb b 0xdf
    then some (0x80, 0xbf, 1)
    else if b == 0xe0
    then some (0xa0, 0xbf, 2)
    else if b == 0xed
    then some (0x80, 0x9f, 2)
    else if leb 0xe1 b && leb b 0xef
    then some (0x80, 0xbf, 2)
    else if b == 0xf0
    then some (0x90, 0xbf, 3)
    else if leb 0xf1 b && leb b 0xf3
    then some (0x80, 0xbf, 3)
    else if b == 0xf4
    then some (0x80, 0x8f, 3)
    else none

-- The test of `String::from_utf8`: `left` bytes of a character are still to come, the next of them
-- between `lo` and `hi`.
utf8_scan : List ℕ → ℕ → ℕ → ℕ → Bool
utf8_scan [] lo hi zero = true
utf8_scan [] lo hi (suc left) = false
utf8_scan (b ∷ bs) lo hi zero = elim (lead b) [
  | none ↦ false
  | some (lo', hi', left) ↦ utf8_scan bs lo' hi' left
]
utf8_scan (b ∷ bs) lo hi (suc left) =
    let more = utf8_scan bs 0x80 0xbf left in if leb lo b && leb b hi then more else false

unfoldable pub is_utf8 : List ℕ → Bool
unfolding utf8_scan
is_utf8 bytes = utf8_scan bytes 0 0 0

-- The loop `for item in self` of the `Vec` encoders.
unfoldable pub encode_items : {A : Type 0} → (A → List ℕ) → List A → List ℕ
encode_items enc [] = []
encode_items enc (x ∷ xs) = enc x ++ encode_items enc xs

-- The loop `for idx_ in 0..len_` of the `Vec` decoders, with its pushes.
unfoldable pub decode_items : {A : Type 0} → Decoder A → ℕ → Decoder (List A)
decode_items dec zero = pure []
decode_items dec (suc n) = do x ← dec; xs ← decode_items dec n; pure (x ∷ xs)

module _ (c : Cursor) where
  unfoldable pub encode_u8 : ℕ → List ℕ
  encode_u8 n = c.write_u8 n

  pub decode_u8 : Decoder ℕ
  decode_u8 = c.read_u8

  unfoldable pub encode_u32 : ℕ → List ℕ
  encode_u32 n = c.write_u32 n

  unfoldable pub decode_u32 : Decoder ℕ
  decode_u32 = c.read_u32

  unfoldable pub encode_u64 : ℕ → List ℕ
  encode_u64 n = c.write_u64 n

  pub decode_u64 : Decoder ℕ
  decode_u64 = c.read_u64

  unfoldable pub encode_usize : ℕ → List ℕ
  encode_usize n = c.write_u64 n

  pub decode_usize : Decoder ℕ
  decode_usize = c.read_u64

  unfoldable pub encode_i32 : ℤ → List ℕ
  encode_i32 z = c.write_i32 z

  pub decode_i32 : Decoder ℤ
  decode_i32 = c.read_i32

  unfoldable pub encode_bool : Bool → List ℕ
  encode_bool b = c.write_u8 (if b then 1 else 0)

  pub decode_bool : Decoder Bool
  decode_bool = do n ← c.read_u8; pure (not (n == 0))

  -- The count is `self.len() as i32`.
  unfoldable pub encode_list : {A : Type 0} → (A → List ℕ) → List A → List ℕ
  encode_list enc xs = encode_i32 (as_i32 (length xs)) ++ encode_items enc xs

  -- `Vec::with_capacity(len_ as usize)` panics on a negative count, which is above `isize::MAX`.
  decode_counted : {A : Type 0} → Decoder A → ℤ → Decoder (List A)
  decode_counted dec (pos n) = decode_items dec n
  decode_counted dec (negsuc n) = panic

  pub decode_list : {A : Type 0} → Decoder A → Decoder (List A)
  unfolding decode_counted
  decode_list dec = do len ← decode_i32; decode_counted dec len

  unfoldable pub encode_option : {A : Type 0} → (A → List ℕ) → Option A → List ℕ
  encode_option enc none = encode_bool false
  encode_option enc (some x) = encode_bool true ++ enc x

  pub decode_option : {A : Type 0} → Decoder A → Decoder (Option A)
  decode_option dec = do
    is_some ← decode_bool
    if is_some then (do x ← dec; pure (some x)) else pure none

  unfoldable pub encode_bytes : List ℕ → List ℕ
  encode_bytes = encode_list encode_u8

  pub decode_bytes : Decoder (List ℕ)
  decode_bytes = decode_list decode_u8

  unfoldable pub encode_string : Str → List ℕ
  encode_string s = encode_bytes s

  -- `String::from_utf8(inner).unwrap()`.
  pub decode_string : Decoder Str
  decode_string = do inner ← decode_bytes; if is_utf8 inner then pure inner else panic

-- ===== src/Wire/Scalars/Laws.antt =====
-- Round trips of numbers, Booleans, vectors, options, byte lists and strings.
use iroh_dart.Prelude.{
  AllOption, ℕ, refl, ◌<◌, ◌^◌, Bool, true, false, Option, none, some, List, [], ◌∷◌, Str, length,
  All, arith,
}
use iroh_dart.Prelude.Int.{ℤ, as_i32, as_i32-IsI32, as_i32-small, IsI32}
use iroh_dart.Wire.{Cursor, CursorLaws, Decoder, ◌>>=◌, pure}
use iroh_dart.Wire.Reads.{Reads, Reads-then, Reads-last, IsCount, IsBytes, IsStr}
use iroh_dart.Wire.Scalars.{
  encode_u8, decode_u8, encode_u32, decode_u32, encode_u64, decode_u64, encode_i32, decode_i32,
  encode_bool, decode_bool, encode_items, decode_items, encode_list, decode_list, encode_option,
  decode_option, encode_bytes, decode_bytes, encode_string, decode_string, encode_usize,
  decode_usize,
}

pub decode_items-encode :
    {A : Type 0} (P : A → Type 0) (enc : A → List ℕ) (dec : Decoder A)
    → ((a : A) → P a → Reads dec (enc a) a)
    → (xs : List A) → All P xs
    → Reads (decode_items dec (length xs)) (encode_items enc xs) xs
unfolding decode_items encode_items pure
decode_items-encode P enc dec item [] h = record { at = λ rest. refl }
decode_items-encode P enc dec item (x ∷ xs) h =
    Reads-then _ _ _ _ x _ (item x h.0)
      (Reads-last _ _ _ xs _ (decode_items-encode P enc dec item xs h.1) refl)

module _ (c : Cursor) (laws : CursorLaws c) where
  pub decode_u8-encode : (n : ℕ) → n < 2 ^ 8 → Reads (decode_u8 c) (encode_u8 c n) n
  unfolding decode_u8 encode_u8
  decode_u8-encode n h = record { at = λ rest. laws.read_u8-write n rest h }

  pub decode_u32-encode : (n : ℕ) → n < 2 ^ 32 → Reads (decode_u32 c) (encode_u32 c n) n
  unfolding decode_u32 encode_u32
  decode_u32-encode n h = record { at = λ rest. laws.read_u32-write n rest h }

  pub decode_u64-encode : (n : ℕ) → n < 2 ^ 64 → Reads (decode_u64 c) (encode_u64 c n) n
  unfolding decode_u64 encode_u64
  decode_u64-encode n h = record { at = λ rest. laws.read_u64-write n rest h }

  pub decode_usize-encode : (n : ℕ) → n < 2 ^ 64 → Reads (decode_usize c) (encode_usize c n) n
  unfolding decode_usize encode_usize
  decode_usize-encode n h = record { at = λ rest. laws.read_u64-write n rest h }

  pub decode_i32-encode : (z : ℤ) → IsI32 z → Reads (decode_i32 c) (encode_i32 c z) z
  unfolding decode_i32 encode_i32
  decode_i32-encode z h = record { at = λ rest. laws.read_i32-write z rest h }

  pub decode_bool-encode : (b : Bool) → Reads (decode_bool c) (encode_bool c b) b
  unfolding decode_bool encode_bool ◌>>=◌ pure
  decode_bool-encode true = record {
    at = λ rest. rw (laws.read_u8-write 1 rest (omega arith), ◌>>=◌);
  }
  decode_bool-encode false = record {
    at = λ rest. rw (laws.read_u8-write 0 rest (omega arith), ◌>>=◌);
  }

  -- A vector of fewer than 2^31 items comes back, if each of its items does.
  pub decode_list-encode :
      {A : Type 0} (P : A → Type 0) (enc : A → List ℕ) (dec : Decoder A)
      → ((a : A) → P a → Reads dec (enc a) a)
      → (xs : List A) → IsCount xs
      → All P xs
      → Reads (decode_list c dec) (encode_list c enc xs) xs
  unfolding decode_list encode_list
  decode_list-encode P enc dec item xs count h =
      Reads-then _ _ _ _ (as_i32 (length xs)) _
        (decode_i32-encode (as_i32 (length xs)) (as_i32-IsI32 (length xs)))
        (rw (as_i32-small (length xs) count) (decode_items-encode P enc dec item xs h))

  pub decode_option-encode :
      {A : Type 0} (P : A → Type 0) (enc : A → List ℕ) (dec : Decoder A)
      → ((a : A) → P a → Reads dec (enc a) a)
      → (o : Option A) → AllOption P o
      → Reads (decode_option c dec) (encode_option c enc o) o
  unfolding decode_option encode_option
  decode_option-encode P enc dec item none h =
      Reads-last _ _ _ false none (decode_bool-encode false) refl
  decode_option-encode P enc dec item (some x) h =
      Reads-then _ _ _ _ true _ (decode_bool-encode true)
        (Reads-last _ _ _ x (some x) (item x h) refl)

  -- A list of bytes comes back.
  pub decode_bytes-encode :
      (bytes : List ℕ) → IsBytes bytes → Reads (decode_bytes c) (encode_bytes c bytes) bytes
  unfolding decode_bytes encode_bytes
  decode_bytes-encode bytes h =
      decode_list-encode (λ n. n < 2 ^ 8) (encode_u8 c) (decode_u8 c) decode_u8-encode bytes h.0 h.1

  -- If the cursor keeps `CursorLaws`: a UTF-8 string of fewer than 2^31 bytes comes back, and the
  -- bytes behind it are left.
  pub decode_string-encode : (s : Str) → IsStr s → Reads (decode_string c) (encode_string c s) s
  unfolding decode_string encode_string
  decode_string-encode s h = Reads-last _ _ _ s s (decode_bytes-encode s h.0) (rw h.1)

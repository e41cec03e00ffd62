-- ===== src/Wire/Dart.antt =====
-- The other end of the codec, packages/iroh_quic/lib/src/rust/frb_generated.dart: the functions
-- `sse_decode_*` that read what Rust answers, and `sse_encode_*` that write the arguments. The
-- buffer of flutter_rust_bridge and Dart's `utf8` are a parameter. A decoder's `none` is a Dart
-- exception. A Dart string is its UTF-8 bytes.
pub mod Laws
pub mod Buffer
mod Tests
use iroh_dart.Prelude.{
  ℕ, zero, suc, not, Bool, true, false, ◌&&◌, Option, none, some, List, [], ◌∷◌, ◌++◌, Str, length,
  ◌≡◌, ◌<◌, ◌^◌, ◌==◌, All, if◌then◌else◌,
}
use iroh_dart.Prelude.Int.{ℤ, pos, negsuc, as_i32, IsI32}
use iroh_dart.Connection.{ConnStats}
use iroh_dart.Key.{EndpointAddrParts}
use iroh_dart.Watch.{PathEventKind, PathEventInfo, RelayStatusInfo}
use iroh_dart.Wire.{Cursor, Decoder, ◌>>=◌, pure, panic}
use iroh_dart.Wire.Scalars.{encode_items, decode_items, is_utf8}
use iroh_dart.Bridge.Dco.{values, at_index}

-- The methods of `ReadBuffer` and `WriteBuffer` that the codec uses, and `utf8.decoder.convert`.
pub record DartBuffer : Type 0 where
  pub put_uint8 : ℕ → List ℕ
  pub get_uint8 : List ℕ → Option (ℕ × List ℕ)
  pub put_uint32 : ℕ → List ℕ
  pub put_int32 : ℤ → List ℕ
  pub get_int32 : List ℕ → Option (ℤ × List ℕ)
  pub put_big_uint64 : ℕ → List ℕ
  pub get_big_uint64 : List ℕ → Option (ℕ × List ℕ)
  pub put_uint8_list : List ℕ → List ℕ
  pub get_uint8_list : ℤ → List ℕ → Option (List ℕ × List ℕ)
  pub utf8_convert : List ℕ → Option Str

-- The byte order mark at the front, which Dart's UTF-8 decoder drops.
abbrev pub has_bom : Str → Bool
has_bom (a ∷ b ∷ c ∷ rest) = a == 0xef && (b == 0xbb && c == 0xbf)
has_bom _ = false

-- Both ends run on one machine, so Dart reads what the Rust cursor writes, and writes what it
-- writes. A list of bytes goes at once, and not byte by byte.
pub record BufferLaws (c : Cursor) (d : DartBuffer) : Type 0 where
  pub put_uint8_lem : (n : ℕ) → d.put_uint8 n ≡ c.write_u8 n
  pub put_uint32_lem : (n : ℕ) → d.put_uint32 n ≡ c.write_u32 n
  pub put_int32_lem : (z : ℤ) → d.put_int32 z ≡ c.write_i32 z
  pub put_big_uint64_lem : (n : ℕ) → d.put_big_uint64 n ≡ c.write_u64 n
  pub put_uint8_list_lem : (bs : List ℕ) → d.put_uint8_list bs ≡ encode_items c.write_u8 bs
  pub get_uint8-write :
      (n : ℕ) (rest : List ℕ) → n < 2 ^ 8 → d.get_uint8 (c.write_u8 n ++ rest) ≡ some (n, rest)
  pub get_int32-write :
      (z : ℤ) (rest : List ℕ) → IsI32 z → d.get_int32 (c.write_i32 z ++ rest) ≡ some (z, rest)
  pub get_big_uint64-write :
      (n : ℕ) (rest : List ℕ)
      → n < 2 ^ 64
      → d.get_big_uint64 (c.write_u64 n ++ rest) ≡ some (n, rest)
  pub get_uint8_list-write :
      (bs rest : List ℕ)
      → All (λ n. n < 2 ^ 8) bs
      → d.get_uint8_list (pos (length bs)) (encode_items c.write_u8 bs ++ rest) ≡ some (bs, rest)
  pub utf8_convert_lem :
      (s : Str) → is_utf8 s ≡ true → has_bom s ≡ false → d.utf8_convert s ≡ some s

module _ (d : DartBuffer) where
  pub sse_decode_bool : Decoder Bool
  sse_decode_bool = do n ← d.get_uint8; pure (not (n == 0))

  pub sse_decode_list_prim_u_8_strict : Decoder (List ℕ)
  sse_decode_list_prim_u_8_strict = do len ← d.get_int32; d.get_uint8_list len

  abbrev converted : Option Str → Decoder Str
  converted none = panic
  converted (some s) = pure s

  pub sse_decode_string : Decoder Str
  sse_decode_string = do inner ← sse_decode_list_prim_u_8_strict; converted (d.utf8_convert inner)

  -- The loop `for (var idx_ = 0; idx_ < len_; ++idx_)`, which a negative count ends at once.
  pub counted : {A : Type 0} → Decoder A → ℤ → Decoder (List A)
  counted dec (pos n) = decode_items dec n
  counted dec (negsuc n) = pure []

  pub sse_decode_list : {A : Type 0} → Decoder A → Decoder (List A)
  unfolding counted
  sse_decode_list dec = do len ← d.get_int32; counted dec len

  pub sse_decode_opt : {A : Type 0} → Decoder A → Decoder (Option A)
  sse_decode_opt dec = do
    is_some ← sse_decode_bool
    if is_some then (do x ← dec; pure (some x)) else pure none

  pub sse_decode_endpoint_addr_parts : Decoder EndpointAddrParts
  sse_decode_endpoint_addr_parts = do
    id ← sse_decode_list_prim_u_8_strict
    relay_urls ← sse_decode_list sse_decode_string
    ip_addrs ← sse_decode_list sse_decode_string
    pure (record { id = id; relay_urls = relay_urls; ip_addrs = ip_addrs })

  pub sse_decode_conn_stats : Decoder ConnStats
  sse_decode_conn_stats = do
    udp_tx_datagrams ← d.get_big_uint64
    udp_tx_bytes ← d.get_big_uint64
    udp_rx_datagrams ← d.get_big_uint64
    udp_rx_bytes ← d.get_big_uint64
    sent_packets ← d.get_big_uint64
    sent_bytes ← d.get_big_uint64
    lost_packets ← d.get_big_uint64
    lost_bytes ← d.get_big_uint64
    pure (record {
      udp_tx_datagrams = udp_tx_datagrams;
      udp_tx_bytes = udp_tx_bytes;
      udp_rx_datagrams = udp_rx_datagrams;
      udp_rx_bytes = udp_rx_bytes;
      sent_packets = sent_packets;
      sent_bytes = sent_bytes;
      lost_packets = lost_packets;
      lost_bytes = lost_bytes;
    })

  abbrev kind_at : Option PathEventKind → Decoder PathEventKind
  kind_at none = panic
  kind_at (some kind) = pure kind

  -- `PathEventKind.values[inner]`
  pub sse_decode_path_event_kind : Decoder PathEventKind
  sse_decode_path_event_kind = do inner ← d.get_int32; kind_at (at_index values inner)

  pub sse_decode_path_event_info : Decoder PathEventInfo
  sse_decode_path_event_info = do
    kind ← sse_decode_path_event_kind
    remote_addr ← sse_decode_opt sse_decode_string
    missed ← sse_decode_opt d.get_big_uint64
    pure (record { kind = kind; remote_addr = remote_addr; missed = missed })

  pub sse_decode_relay_status_info : Decoder RelayStatusInfo
  sse_decode_relay_status_info = do
    url ← sse_decode_string
    connected ← sse_decode_bool
    last_error ← sse_decode_opt sse_decode_string
    auth_denied_reason ← sse_decode_opt sse_decode_string
    pure (record {
      url = url;
      connected = connected;
      last_error = last_error;
      auth_denied_reason = auth_denied_reason;
    })

  pub sse_decode_list_relay_status_info : Decoder (List RelayStatusInfo)
  sse_decode_list_relay_status_info = sse_decode_list sse_decode_relay_status_info

  -- The pointer and the size, from which Dart makes the object of a handle.
  pub sse_decode_auto_owned : Decoder (ℕ × ℤ)
  sse_decode_auto_owned = do ptr ← d.get_big_uint64; size ← d.get_int32; pure (ptr, size)

  pub sse_encode_bool : Bool → List ℕ
  sse_encode_bool b = d.put_uint8 (if b then 1 else 0)

  pub sse_encode_list_prim_u_8_strict : List ℕ → List ℕ
  sse_encode_list_prim_u_8_strict bs = d.put_int32 (as_i32 (length bs)) ++ d.put_uint8_list bs

  pub sse_encode_string : Str → List ℕ
  sse_encode_string s = sse_encode_list_prim_u_8_strict s

  pub sse_encode_list : {A : Type 0} → (A → List ℕ) → List A → List ℕ
  sse_encode_list enc xs = d.put_int32 (as_i32 (length xs)) ++ encode_items enc xs

  pub sse_encode_opt : {A : Type 0} → (A → List ℕ) → Option A → List ℕ
  sse_encode_opt enc none = sse_encode_bool false
  sse_encode_opt enc (some x) = sse_encode_bool true ++ enc x

  pub sse_encode_endpoint_addr_parts : EndpointAddrParts → List ℕ
  sse_encode_endpoint_addr_parts p =
      sse_encode_list_prim_u_8_strict p.id
      ++ (sse_encode_list sse_encode_string p.relay_urls
          ++ sse_encode_list sse_encode_string p.ip_addrs)

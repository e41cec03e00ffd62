-- ===== src/Wire/Dart/Laws.antt =====
-- What Rust encodes Dart reads back, and what Dart encodes are the bytes that Rust's encoders would
-- make, so that the round trips of Wire/Values serve for both directions.
use iroh_dart.Prelude.{
  AllOption, ℕ, ◌≡◌, refl, ap, Bool, true, false, Option, none, some, List, [], ◌∷◌, Str, length,
  All, arith,
}
use iroh_dart.Prelude.Int.{ℤ, pos, as_i32, as_i32-IsI32, as_i32-small, IsI32}
use iroh_dart.Connection.{ConnStats}
use iroh_dart.Key.{EndpointAddrParts}
use iroh_dart.Watch.{PathEventKind, PathEventInfo, RelayStatusInfo}
use iroh_dart.Wire.{Cursor, Decoder, ◌>>=◌, pure}
use iroh_dart.Wire.Reads.{Reads, Reads-then, Reads-last, IsCount, IsBytes, IsStr}
use iroh_dart.Wire.Scalars.{
  encode_u8, encode_u64, encode_usize, encode_i32, encode_bool, encode_items, encode_list,
  encode_option, encode_bytes, encode_string,
}
use iroh_dart.Wire.Scalars.Laws.{decode_items-encode}
use iroh_dart.Wire.Values.{
  encode_strings, encode_opt_string, encode_opt_u64, encode_parts, encode_stats, kind_number,
  encode_kind, encode_event, encode_status, encode_statuses, encode_byte_lists, encode_opt_bytes,
  encode_opt_parts,
}
use iroh_dart.Wire.Values.Laws.{IsU64, IsStats}
use iroh_dart.Bridge.Handles.{encode_handle}
use iroh_dart.Wire.Dart.{
  DartBuffer, BufferLaws, has_bom, sse_decode_bool, sse_decode_list_prim_u_8_strict,
  sse_decode_string, sse_decode_list, sse_decode_opt, sse_decode_endpoint_addr_parts,
  sse_decode_conn_stats, sse_decode_path_event_kind, sse_decode_path_event_info,
  sse_decode_relay_status_info, sse_decode_list_relay_status_info, sse_decode_auto_owned, converted,
  sse_encode_bool, sse_encode_list_prim_u_8_strict, sse_encode_string, sse_encode_list,
  sse_encode_opt, sse_encode_endpoint_addr_parts,
}

-- A text that Dart reads whole.
abbrev pub IsText : Str → Type 0
IsText s = IsStr s × (has_bom s ≡ false)

abbrev pub IsTexts : List Str → Type 0
IsTexts ss = IsCount ss × All IsText ss

pub record IsDartParts (p : EndpointAddrParts) : Type 0 where
  pub id : IsBytes p.id
  pub relay_urls : IsTexts p.relay_urls
  pub ip_addrs : IsTexts p.ip_addrs

pub record IsDartEvent (e : PathEventInfo) : Type 0 where
  pub remote_addr : AllOption IsText e.remote_addr
  pub missed : AllOption IsU64 e.missed

pub record IsDartStatus (r : RelayStatusInfo) : Type 0 where
  pub url : IsText r.url
  pub last_error : AllOption IsText r.last_error
  pub auth_denied_reason : AllOption IsText r.auth_denied_reason

module _ (c : Cursor) (d : DartBuffer) (laws : BufferLaws c d) where
  bool-Reads : (b : Bool) → Reads (sse_decode_bool d) (encode_bool c b) b
  unfolding sse_decode_bool encode_bool ◌>>=◌ pure
  bool-Reads true = record { at = λ rest. rw (laws.get_uint8-write 1 rest (omega arith), ◌>>=◌) }
  bool-Reads false = record { at = λ rest. rw (laws.get_uint8-write 0 rest (omega arith), ◌>>=◌) }

  i32-Reads : (z : ℤ) → IsI32 z → Reads d.get_int32 (encode_i32 c z) z
  unfolding encode_i32
  i32-Reads z h = record { at = λ rest. laws.get_int32-write z rest h }

  u64-Reads : (n : ℕ) → IsU64 n → Reads d.get_big_uint64 (encode_u64 c n) n
  unfolding encode_u64
  u64-Reads n h = record { at = λ rest. laws.get_big_uint64-write n rest h }

  list-Reads :
      {A : Type 0} (P : A → Type 0) (enc : A → List ℕ) (dec : Decoder A)
      → ((a : A) → P a → Reads dec (enc a) a)
      → (xs : List A) → IsCount xs
      → All P xs
      → Reads (sse_decode_list d dec) (encode_list c enc xs) xs
  unfolding sse_decode_list encode_list
  list-Reads P enc dec item xs count h =
      Reads-then _ _ _ _ (as_i32 (length xs)) _
        (i32-Reads (as_i32 (length xs)) (as_i32-IsI32 (length xs)))
        (rw (as_i32-small (length xs) count) (decode_items-encode P enc dec item xs h))

  opt-Reads :
      {A : Type 0} (P : A → Type 0) (enc : A → List ℕ) (dec : Decoder A)
      → ((a : A) → P a → Reads dec (enc a) a)
      → (o : Option A) → AllOption P o
      → Reads (sse_decode_opt d dec) (encode_option c enc o) o
  unfolding sse_decode_opt encode_option
  opt-Reads P enc dec item none h = Reads-last _ _ _ false none (bool-Reads false) refl
  opt-Reads P enc dec item (some x) h =
      Reads-then _ _ _ _ true _ (bool-Reads true) (Reads-last _ _ _ x (some x) (item x h) refl)

  bytes-Reads :
      (bs : List ℕ) → IsBytes bs → Reads (sse_decode_list_prim_u_8_strict d) (encode_bytes c bs) bs
  unfolding sse_decode_list_prim_u_8_strict encode_bytes encode_list encode_u8
  bytes-Reads bs h =
      Reads-then _ _ _ _ (as_i32 (length bs)) _
        (i32-Reads (as_i32 (length bs)) (as_i32-IsI32 (length bs)))
        (rw (as_i32-small (length bs) h.0)
          (record { at = λ rest. laws.get_uint8_list-write bs rest h.1 }))

  string-Reads : (s : Str) → IsText s → Reads (sse_decode_string d) (encode_string c s) s
  unfolding sse_decode_string encode_string
  string-Reads s h =
      Reads-last _ _ _ s s (bytes-Reads s h.0.0)
        (ap (converted d) (laws.utf8_convert_lem s h.0.1 h.1))

  pub parts-Reads :
      (p : EndpointAddrParts)
      → IsDartParts p
      → Reads (sse_decode_endpoint_addr_parts d) (encode_parts c p) p
  unfolding sse_decode_endpoint_addr_parts encode_parts encode_strings
  parts-Reads p h = Reads-then _ _ _ _ p.id p (bytes-Reads p.id h.id) (
      Reads-then _ _ _ _ p.relay_urls p
        (list-Reads IsText _ _ string-Reads p.relay_urls h.relay_urls.0 h.relay_urls.1)
        (Reads-last _ _ _ p.ip_addrs p
          (list-Reads IsText _ _ string-Reads p.ip_addrs h.ip_addrs.0 h.ip_addrs.1) refl))

  kind-Reads : (k : PathEventKind) → Reads (sse_decode_path_event_kind d) (encode_kind c k) k
  unfolding sse_decode_path_event_kind encode_kind kind_number
  kind-Reads PathEventKind.opened =
      Reads-last _ _ _ (pos 0) _ (i32-Reads (pos 0) (omega arith)) refl
  kind-Reads PathEventKind.closed =
      Reads-last _ _ _ (pos 1) _ (i32-Reads (pos 1) (omega arith)) refl
  kind-Reads PathEventKind.selected =
      Reads-last _ _ _ (pos 2) _ (i32-Reads (pos 2) (omega arith)) refl
  kind-Reads PathEventKind.lagged =
      Reads-last _ _ _ (pos 3) _ (i32-Reads (pos 3) (omega arith)) refl
  kind-Reads PathEventKind.unknown =
      Reads-last _ _ _ (pos 4) _ (i32-Reads (pos 4) (omega arith)) refl

  pub event-Reads :
      (e : PathEventInfo)
      → IsDartEvent e
      → Reads (sse_decode_path_event_info d) (encode_event c e) e
  unfolding sse_decode_path_event_info encode_event encode_opt_string encode_opt_u64
  event-Reads e h = Reads-then _ _ _ _ e.kind e (kind-Reads e.kind) (
      Reads-then _ _ _ _ e.remote_addr e
        (opt-Reads IsText _ _ string-Reads e.remote_addr h.remote_addr)
        (Reads-last _ _ _ e.missed e (opt-Reads IsU64 _ _ u64-Reads e.missed h.missed) refl))

  status-Reads :
      (r : RelayStatusInfo)
      → IsDartStatus r
      → Reads (sse_decode_relay_status_info d) (encode_status c r) r
  unfolding sse_decode_relay_status_info encode_status encode_opt_string
  status-Reads r h = Reads-then _ _ _ _ r.url r (string-Reads r.url h.url) (
      Reads-then _ _ _ _ r.connected r (bool-Reads r.connected) (
        Reads-then _ _ _ _ r.last_error r
          (opt-Reads IsText _ _ string-Reads r.last_error h.last_error)
          (Reads-last _ _ _ r.auth_denied_reason r
            (opt-Reads IsText _ _ string-Reads r.auth_denied_reason h.auth_denied_reason) refl)))

  pub statuses-Reads :
      (rs : List RelayStatusInfo)
      → IsCount rs
      → All IsDartStatus rs
      → Reads (sse_decode_list_relay_status_info d) (encode_statuses c rs) rs
  unfolding sse_decode_list_relay_status_info encode_statuses
  statuses-Reads rs n h = list-Reads IsDartStatus _ _ status-Reads rs n h

  stats-Reads : (s : ConnStats) → IsStats s → Reads (sse_decode_conn_stats d) (encode_stats c s) s
  unfolding sse_decode_conn_stats encode_stats
  stats-Reads s h =
      Reads-then _ _ _ _ s.udp_tx_datagrams s (u64-Reads s.udp_tx_datagrams h.udp_tx_datagrams) (
        Reads-then _ _ _ _ s.udp_tx_bytes s (u64-Reads s.udp_tx_bytes h.udp_tx_bytes) (
          Reads-then _ _ _ _ s.udp_rx_datagrams s (u64-Reads s.udp_rx_datagrams h.udp_rx_datagrams)
            (Reads-then _ _ _ _ s.udp_rx_bytes s (u64-Reads s.udp_rx_bytes h.udp_rx_bytes) (
              Reads-then _ _ _ _ s.sent_packets s (u64-Reads s.sent_packets h.sent_packets) (
                Reads-then _ _ _ _ s.sent_bytes s (u64-Reads s.sent_bytes h.sent_bytes) (
                  Reads-then _ _ _ _ s.lost_packets s (u64-Reads s.lost_packets h.lost_packets) (
                    Reads-last _ _ _ s.lost_bytes s (u64-Reads s.lost_bytes h.lost_bytes)
                      refl)))))))

  handle-Reads :
      (handle : ℕ × ℤ)
      → IsU64 handle.0
      → IsI32 handle.1
      → Reads (sse_decode_auto_owned d) (encode_handle c handle) handle
  unfolding sse_decode_auto_owned encode_handle encode_usize encode_i32
  handle-Reads (ptr, size) n h =
      Reads-then _ _ _ _ ptr (ptr, size)
        (record { at = λ rest. laws.get_big_uint64-write ptr rest n })
        (Reads-last _ _ _ size (ptr, size)
          (record { at = λ rest. laws.get_int32-write size rest h }) refl)

  -- If Dart's buffer keeps `BufferLaws`: bytes, texts, Booleans, handles, endpoint addresses, path
  -- events, lists of relay statuses and connection statistics that Rust encodes are read by Dart as
  -- they were, and the bytes behind them are left, if their numbers are in range, the texts UTF-8
  -- with no byte order mark in front, and no list has 2^31 items.
  pub sse_decode-encode :
      (bs : List ℕ) (s : Str) (b : Bool) (handle : ℕ × ℤ) (p : EndpointAddrParts)
      (e : PathEventInfo) (rs : List RelayStatusInfo) (stats : ConnStats)
      → IsBytes bs
      → IsText s
      → IsU64 handle.0
      → IsI32 handle.1
      → IsDartParts p
      → IsDartEvent e
      → IsCount rs
      → All IsDartStatus rs
      → IsStats stats
      → Reads (sse_decode_list_prim_u_8_strict d) (encode_bytes c bs) bs
        × Reads (sse_decode_string d) (encode_string c s) s
        × Reads (sse_decode_bool d) (encode_bool c b) b
        × Reads (sse_decode_auto_owned d) (encode_handle c handle) handle
        × Reads (sse_decode_endpoint_addr_parts d) (encode_parts c p) p
        × Reads (sse_decode_path_event_info d) (encode_event c e) e
        × Reads (sse_decode_list_relay_status_info d) (encode_statuses c rs) rs
        × Reads (sse_decode_conn_stats d) (encode_stats c stats) stats
  sse_decode-encode bs s b handle p e rs stats hb hs n z hp he count hr hc = (
    bytes-Reads bs hb,
    string-Reads s hs,
    bool-Reads b,
    handle-Reads handle n z,
    parts-Reads p hp,
    event-Reads e he,
    statuses-Reads rs count hr,
    stats-Reads stats hc,
  )

  items-eq :
      {A : Type 0} (enc enc' : A → List ℕ)
      → ((a : A) → enc a ≡ enc' a)
      → (xs : List A) → encode_items enc xs ≡ encode_items enc' xs
  unfolding encode_items
  items-eq enc enc' same [] = refl
  items-eq enc enc' same (x ∷ xs) = simp (same x, items-eq enc enc' same xs)

  list-eq :
      {A : Type 0} (enc enc' : A → List ℕ)
      → ((a : A) → enc a ≡ enc' a)
      → (xs : List A) → sse_encode_list d enc xs ≡ encode_list c enc' xs
  unfolding sse_encode_list encode_list encode_i32
  list-eq enc enc' same xs =
      simp (items-eq enc enc' same xs, laws.put_int32_lem (as_i32 (length xs)))

  bool-eq : (b : Bool) → sse_encode_bool d b ≡ encode_bool c b
  unfolding sse_encode_bool encode_bool
  bool-eq b = laws.put_uint8_lem _

  opt-eq :
      {A : Type 0} (enc enc' : A → List ℕ)
      → ((a : A) → enc a ≡ enc' a)
      → (o : Option A) → sse_encode_opt d enc o ≡ encode_option c enc' o
  unfolding sse_encode_opt encode_option
  opt-eq enc enc' same none = bool-eq false
  opt-eq enc enc' same (some x) = simp (bool-eq true, same x)

  bytes-eq : (bs : List ℕ) → sse_encode_list_prim_u_8_strict d bs ≡ encode_bytes c bs
  unfolding sse_encode_list_prim_u_8_strict encode_bytes encode_list encode_u8 encode_i32
  bytes-eq bs = simp (laws.put_uint8_list_lem bs, laws.put_int32_lem (as_i32 (length bs)))

  string-eq : (s : Str) → sse_encode_string d s ≡ encode_string c s
  unfolding sse_encode_string encode_string
  string-eq s = bytes-eq s

  parts-eq : (p : EndpointAddrParts) → sse_encode_endpoint_addr_parts d p ≡ encode_parts c p
  unfolding sse_encode_endpoint_addr_parts encode_parts encode_strings
  parts-eq p =
      simp (bytes-eq p.id, list-eq _ _ string-eq p.relay_urls, list-eq _ _ string-eq p.ip_addrs)

  -- If Dart's buffer keeps `BufferLaws`: an argument of a call (bytes, a text, a Boolean, protocols,
  -- an endpoint address, an optional secret key, an optional address) is encoded by Dart to the
  -- bytes that Rust's encoder of this type makes.
  pub sse_encode-eq :
      (bs : List ℕ) (s : Str) (b : Bool) (alpns : List (List ℕ)) (p : EndpointAddrParts)
      (secret : Option (List ℕ)) (found : Option EndpointAddrParts)
      → (sse_encode_list_prim_u_8_strict d bs ≡ encode_bytes c bs)
        × (sse_encode_string d s ≡ encode_string c s)
        × (sse_encode_bool d b ≡ encode_bool c b)
        × (sse_encode_list d (sse_encode_list_prim_u_8_strict d) alpns ≡ encode_byte_lists c alpns)
        × (sse_encode_endpoint_addr_parts d p ≡ encode_parts c p)
        × (sse_encode_opt d (sse_encode_list_prim_u_8_strict d) secret ≡ encode_opt_bytes c secret)
        × (sse_encode_opt d (sse_encode_endpoint_addr_parts d) found ≡ encode_opt_parts c found)
  unfolding encode_byte_lists encode_opt_bytes encode_opt_parts
  sse_encode-eq bs s b alpns p secret found = (
    bytes-eq bs,
    string-eq s,
    bool-eq b,
    list-eq _ _ bytes-eq alpns,
    parts-eq p,
    opt-eq _ _ bytes-eq secret,
    opt-eq _ _ parts-eq found,
  )

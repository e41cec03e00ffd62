-- ===== src/Wire/Values/Laws.antt =====
-- Round trips of the structs of the API.
use iroh_dart.Prelude.{AllOption, ℕ, ◌≡◌, refl, ◌<◌, ◌^◌, Option, none, some, List, Str, All, arith}
use iroh_dart.Prelude.Int.{IsI32}
use iroh_dart.Connection.{ConnStats}
use iroh_dart.Key.{EndpointAddrParts}
use iroh_dart.Watch.{PathEventKind, PathEventInfo, RelayStatusInfo}
use iroh_dart.Wire.{Cursor, CursorLaws, pure, panic}
use iroh_dart.Wire.Reads.{Reads, Reads-then, Reads-last, IsCount, IsBytes, IsStr}
use iroh_dart.Wire.Scalars.{encode_u64, decode_u64}
use iroh_dart.Wire.Scalars.Laws.{
  decode_u64-encode, decode_bool-encode, decode_i32-encode, decode_list-encode,
  decode_option-encode, decode_bytes-encode, decode_string-encode,
}
use iroh_dart.Wire.Values.{
  encode_strings, decode_strings, encode_byte_lists, decode_byte_lists, encode_opt_string,
  decode_opt_string, encode_opt_u64, decode_opt_u64, encode_opt_bytes, decode_opt_bytes,
  encode_parts, decode_parts, encode_opt_parts, decode_opt_parts, encode_stats, decode_stats,
  kind_number, kind_of, encode_kind, decode_kind, encode_event, decode_event, encode_status,
  decode_status, encode_statuses, decode_statuses,
}

abbrev pub IsU64 : ℕ → Type 0
IsU64 n = n < 2 ^ 64

abbrev pub IsStrs : List Str → Type 0
IsStrs ss = IsCount ss × All IsStr ss

-- What a struct may hold, so that it crosses: bytes, texts and numbers of their types.
pub record IsParts (p : EndpointAddrParts) : Type 0 where
  pub id : IsBytes p.id
  pub relay_urls : IsStrs p.relay_urls
  pub ip_addrs : IsStrs p.ip_addrs

pub record IsStats (s : ConnStats) : Type 0 where
  pub udp_tx_datagrams : IsU64 s.udp_tx_datagrams
  pub udp_tx_bytes : IsU64 s.udp_tx_bytes
  pub udp_rx_datagrams : IsU64 s.udp_rx_datagrams
  pub udp_rx_bytes : IsU64 s.udp_rx_bytes
  pub sent_packets : IsU64 s.sent_packets
  pub sent_bytes : IsU64 s.sent_bytes
  pub lost_packets : IsU64 s.lost_packets
  pub lost_bytes : IsU64 s.lost_bytes

pub record IsEvent (e : PathEventInfo) : Type 0 where
  pub remote_addr : AllOption IsStr e.remote_addr
  pub missed : AllOption IsU64 e.missed

pub record IsStatus (r : RelayStatusInfo) : Type 0 where
  pub url : IsStr r.url
  pub last_error : AllOption IsStr r.last_error
  pub auth_denied_reason : AllOption IsStr r.auth_denied_reason

kind_of-number : (k : PathEventKind) → (kind_of (kind_number k) ≡ some k) × IsI32 (kind_number k)
unfolding kind_of kind_number
kind_of-number PathEventKind.opened = (refl, omega arith)
kind_of-number PathEventKind.closed = (refl, omega arith)
kind_of-number PathEventKind.selected = (refl, omega arith)
kind_of-number PathEventKind.lagged = (refl, omega arith)
kind_of-number PathEventKind.unknown = (refl, omega arith)

kind_step :
    (k : PathEventKind)
    → elim (kind_of (kind_number k)) [ none ↦ panic {A = PathEventKind} | some j ↦ pure j ] ≡ pure k
kind_step k = rw (kind_of-number k).0

module _ (c : Cursor) (laws : CursorLaws c) where
  pub decode_strings-encode :
      (ss : List Str) → IsStrs ss → Reads (decode_strings c) (encode_strings c ss) ss
  unfolding decode_strings encode_strings
  decode_strings-encode ss h =
      decode_list-encode c laws IsStr _ _ (decode_string-encode c laws) ss h.0 h.1

  -- If the cursor keeps `CursorLaws`: a list of byte lists, such as the ALPN protocols, comes back,
  -- and the bytes behind it are left, if it and its items have fewer than 2^31 items.
  pub decode_byte_lists-encode :
      (bs : List (List ℕ))
      → IsCount bs
      → All IsBytes bs
      → Reads (decode_byte_lists c) (encode_byte_lists c bs) bs
  unfolding decode_byte_lists encode_byte_lists
  decode_byte_lists-encode bs n h =
      decode_list-encode c laws IsBytes _ _ (decode_bytes-encode c laws) bs n h

  decode_opt_string-encode :
      (o : Option Str) → AllOption IsStr o → Reads (decode_opt_string c) (encode_opt_string c o) o
  unfolding decode_opt_string encode_opt_string
  decode_opt_string-encode o h =
      decode_option-encode c laws IsStr _ _ (decode_string-encode c laws) o h

  decode_opt_u64-encode :
      (o : Option ℕ) → AllOption IsU64 o → Reads (decode_opt_u64 c) (encode_opt_u64 c o) o
  unfolding decode_opt_u64 encode_opt_u64
  decode_opt_u64-encode o h = decode_option-encode c laws IsU64 _ _ (decode_u64-encode c laws) o h

  -- If the cursor keeps `CursorLaws`: an optional list of fewer than 2^31 bytes, such as a secret
  -- key, comes back, and the bytes behind it are left.
  pub decode_opt_bytes-encode :
      (o : Option (List ℕ))
      → AllOption IsBytes o
      → Reads (decode_opt_bytes c) (encode_opt_bytes c o) o
  unfolding decode_opt_bytes encode_opt_bytes
  decode_opt_bytes-encode o h =
      decode_option-encode c laws IsBytes _ _ (decode_bytes-encode c laws) o h

  -- If the cursor keeps `CursorLaws`: the parts of an endpoint address come back, and the bytes
  -- behind them are left, if they are bytes and UTF-8 texts, with fewer than 2^31 items in each
  -- list.
  pub decode_parts-encode :
      (p : EndpointAddrParts) → IsParts p → Reads (decode_parts c) (encode_parts c p) p
  unfolding decode_parts encode_parts
  decode_parts-encode p h = Reads-then _ _ _ _ p.id p (decode_bytes-encode c laws p.id h.id) (
      Reads-then _ _ _ _ p.relay_urls p (decode_strings-encode p.relay_urls h.relay_urls)
        (Reads-last _ _ _ p.ip_addrs p (decode_strings-encode p.ip_addrs h.ip_addrs) refl))

  -- So do optional parts, which a Dart address lookup returns.
  pub decode_opt_parts-encode :
      (o : Option EndpointAddrParts)
      → AllOption IsParts o
      → Reads (decode_opt_parts c) (encode_opt_parts c o) o
  unfolding decode_opt_parts encode_opt_parts
  decode_opt_parts-encode o h = decode_option-encode c laws IsParts _ _ decode_parts-encode o h

  decode_kind-encode : (k : PathEventKind) → Reads (decode_kind c) (encode_kind c k) k
  unfolding decode_kind encode_kind
  decode_kind-encode k =
      Reads-last _ _ _ (kind_number k) k
        (decode_i32-encode c laws (kind_number k) (kind_of-number k).1) (kind_step k)

  -- If the cursor keeps `CursorLaws`: a path event comes back, and the bytes behind it are left, if
  -- its text is UTF-8 of fewer than 2^31 bytes, and its count a 64-bit number.
  pub decode_event-encode :
      (e : PathEventInfo) → IsEvent e → Reads (decode_event c) (encode_event c e) e
  unfolding decode_event encode_event
  decode_event-encode e h = Reads-then _ _ _ _ e.kind e (decode_kind-encode e.kind) (
      Reads-then _ _ _ _ e.remote_addr e (decode_opt_string-encode e.remote_addr h.remote_addr)
        (Reads-last _ _ _ e.missed e (decode_opt_u64-encode e.missed h.missed) refl))

  decode_status-encode :
      (r : RelayStatusInfo) → IsStatus r → Reads (decode_status c) (encode_status c r) r
  unfolding decode_status encode_status
  decode_status-encode r h = Reads-then _ _ _ _ r.url r (decode_string-encode c laws r.url h.url) (
      Reads-then _ _ _ _ r.connected r (decode_bool-encode c laws r.connected) (
        Reads-then _ _ _ _ r.last_error r (decode_opt_string-encode r.last_error h.last_error) (
          Reads-last _ _ _ r.auth_denied_reason r
            (decode_opt_string-encode r.auth_denied_reason h.auth_denied_reason) refl)))

  -- If the cursor keeps `CursorLaws`: a list of fewer than 2^31 relay statuses comes back, and the
  -- bytes behind it are left, if the texts are UTF-8 of fewer than 2^31 bytes.
  pub decode_statuses-encode :
      (rs : List RelayStatusInfo)
      → IsCount rs
      → All IsStatus rs
      → Reads (decode_statuses c) (encode_statuses c rs) rs
  unfolding decode_statuses encode_statuses
  decode_statuses-encode rs n h = decode_list-encode c laws IsStatus _ _ decode_status-encode rs n h

  -- If the cursor keeps `CursorLaws`: the counters of a connection come back, and the bytes behind
  -- them are left, if they are 64-bit numbers.
  pub decode_stats-encode :
      (s : ConnStats) → IsStats s → Reads (decode_stats c) (encode_stats c s) s
  unfolding decode_stats encode_stats
  decode_stats-encode s h =
      Reads-then _ _ _ _ s.udp_tx_datagrams s (u64 s.udp_tx_datagrams h.udp_tx_datagrams) (
        Reads-then _ _ _ _ s.udp_tx_bytes s (u64 s.udp_tx_bytes h.udp_tx_bytes) (
          Reads-then _ _ _ _ s.udp_rx_datagrams s (u64 s.udp_rx_datagrams h.udp_rx_datagrams) (
            Reads-then _ _ _ _ s.udp_rx_bytes s (u64 s.udp_rx_bytes h.udp_rx_bytes) (
              Reads-then _ _ _ _ s.sent_packets s (u64 s.sent_packets h.sent_packets) (
                Reads-then _ _ _ _ s.sent_bytes s (u64 s.sent_bytes h.sent_bytes) (
                  Reads-then _ _ _ _ s.lost_packets s (u64 s.lost_packets h.lost_packets)
                    (Reads-last _ _ _ s.lost_bytes s (u64 s.lost_bytes h.lost_bytes) refl)))))))
    where
      u64 : (n : ℕ) → IsU64 n → Reads (decode_u64 c) (encode_u64 c n) n
      u64 = decode_u64-encode c laws

-- ===== src/Wire/Values.antt =====
-- The codec of the vectors, options and structs that the API passes.
pub mod Laws
use iroh_dart.Prelude.{ℕ, zero, suc, Option, none, some, List, ◌++◌, Str}
use iroh_dart.Prelude.Int.{ℤ, pos}
use iroh_dart.Connection.{ConnStats}
use iroh_dart.Key.{EndpointAddrParts}
use iroh_dart.Watch.{PathEventKind, PathEventInfo, RelayStatusInfo}
use iroh_dart.Wire.{Cursor, Decoder, ◌>>=◌, pure, panic}
use iroh_dart.Wire.Scalars.{
  encode_u64, decode_u64, encode_i32, decode_i32, encode_bool, decode_bool, encode_list,
  decode_list, encode_option, decode_option, encode_bytes, decode_bytes, encode_string,
  decode_string,
}

-- The number of a `PathEventKind`.
unfoldable pub kind_number : PathEventKind → ℤ
kind_number PathEventKind.opened = pos 0
kind_number PathEventKind.closed = pos 1
kind_number PathEventKind.selected = pos 2
kind_number PathEventKind.lagged = pos 3
kind_number PathEventKind.unknown = pos 4

-- The match of the decoder of `PathEventKind`; another number is `unreachable!`.
pub kind_of : ℤ → Option PathEventKind
kind_of (pos zero) = some PathEventKind.opened
kind_of (pos (suc zero)) = some PathEventKind.closed
kind_of (pos (suc (suc zero))) = some PathEventKind.selected
kind_of (pos (suc (suc (suc zero)))) = some PathEventKind.lagged
kind_of (pos (suc (suc (suc (suc zero))))) = some PathEventKind.unknown
kind_of _ = none

module _ (c : Cursor) where
  unfoldable pub encode_strings : List Str → List ℕ
  encode_strings = encode_list c (encode_string c)

  pub decode_strings : Decoder (List Str)
  decode_strings = decode_list c (decode_string c)

  unfoldable pub encode_byte_lists : List (List ℕ) → List ℕ
  encode_byte_lists = encode_list c (encode_bytes c)

  pub decode_byte_lists : Decoder (List (List ℕ))
  decode_byte_lists = decode_list c (decode_bytes c)

  unfoldable pub encode_opt_string : Option Str → List ℕ
  encode_opt_string = encode_option c (encode_string c)

  pub decode_opt_string : Decoder (Option Str)
  decode_opt_string = decode_option c (decode_string c)

  unfoldable pub encode_opt_u64 : Option ℕ → List ℕ
  encode_opt_u64 = encode_option c (encode_u64 c)

  pub decode_opt_u64 : Decoder (Option ℕ)
  decode_opt_u64 = decode_option c (decode_u64 c)

  unfoldable pub encode_opt_bytes : Option (List ℕ) → List ℕ
  encode_opt_bytes = encode_option c (encode_bytes c)

  pub decode_opt_bytes : Decoder (Option (List ℕ))
  decode_opt_bytes = decode_option c (decode_bytes c)

  unfoldable pub encode_parts : EndpointAddrParts → List ℕ
  encode_parts p = encode_bytes c p.id ++ (encode_strings p.relay_urls ++ encode_strings p.ip_addrs)

  pub decode_parts : Decoder EndpointAddrParts
  decode_parts = do
    id ← decode_bytes c
    relay_urls ← decode_strings
    ip_addrs ← decode_strings
    pure (record { id = id; relay_urls = relay_urls; ip_addrs = ip_addrs })

  unfoldable pub encode_opt_parts : Option EndpointAddrParts → List ℕ
  encode_opt_parts = encode_option c encode_parts

  pub decode_opt_parts : Decoder (Option EndpointAddrParts)
  decode_opt_parts = decode_option c decode_parts

  unfoldable pub encode_stats : ConnStats → List ℕ
  encode_stats s =
      encode_u64 c s.udp_tx_datagrams
      ++ (encode_u64 c s.udp_tx_bytes
          ++ (encode_u64 c s.udp_rx_datagrams
              ++ (encode_u64 c s.udp_rx_bytes
                  ++ (encode_u64 c s.sent_packets
                      ++ (encode_u64 c s.sent_bytes
                          ++ (encode_u64 c s.lost_packets ++ encode_u64 c s.lost_bytes))))))

  pub decode_stats : Decoder ConnStats
  decode_stats = do
    udp_tx_datagrams ← decode_u64 c
    udp_tx_bytes ← decode_u64 c
    udp_rx_datagrams ← decode_u64 c
    udp_rx_bytes ← decode_u64 c
    sent_packets ← decode_u64 c
    sent_bytes ← decode_u64 c
    lost_packets ← decode_u64 c
    lost_bytes ← decode_u64 c
    pure (record {
      udp_tx_datagrams = udp_tx_datagrams;
      udp_tx_bytes = udp_tx_bytes;
      udp_rx_datagrams = udp_rx_datagrams;
      udp_rx_bytes = udp_rx_bytes;
      sent_packets = sent_packets;
      sent_bytes = sent_bytes;
      lost_packets = lost_packets;
      lost_bytes = lost_bytes;
    })

  unfoldable pub encode_kind : PathEventKind → List ℕ
  unfolding kind_number
  encode_kind k = encode_i32 c (kind_number k)

  pub decode_kind : Decoder PathEventKind
  unfolding kind_of
  decode_kind = do inner ← decode_i32 c; elim (kind_of inner) [ none ↦ panic | some k ↦ pure k ]

  unfoldable pub encode_event : PathEventInfo → List ℕ
  encode_event e =
      encode_kind e.kind ++ (encode_opt_string e.remote_addr ++ encode_opt_u64 e.missed)

  pub decode_event : Decoder PathEventInfo
  decode_event = do
    kind ← decode_kind
    remote_addr ← decode_opt_string
    missed ← decode_opt_u64
    pure (record { kind = kind; remote_addr = remote_addr; missed = missed })

  unfoldable pub encode_status : RelayStatusInfo → List ℕ
  encode_status r =
      encode_string c r.url
      ++ (encode_bool c r.connected
          ++ (encode_opt_string r.last_error ++ encode_opt_string r.auth_denied_reason))

  pub decode_status : Decoder RelayStatusInfo
  decode_status = do
    url ← decode_string c
    connected ← decode_bool c
    last_error ← decode_opt_string
    auth_denied_reason ← decode_opt_string
    pure (record {
      url = url;
      connected = connected;
      last_error = last_error;
      auth_denied_reason = auth_denied_reason;
    })

  unfoldable pub encode_statuses : List RelayStatusInfo → List ℕ
  encode_statuses = encode_list c encode_status

  pub decode_statuses : Decoder (List RelayStatusInfo)
  decode_statuses = decode_list c decode_status

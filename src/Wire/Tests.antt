-- ===== src/Wire/Tests.antt =====
-- The codec on a little-endian platform.
use iroh_dart.Prelude.{◌≡◌, refl, none, some, false, true, [], ◌∷◌, codes, arith}
use iroh_dart.Connection.{ConnStats}
use iroh_dart.Key.{EndpointAddrParts}
use iroh_dart.Watch.{PathEventKind, PathEventInfo, RelayStatusInfo}
use iroh_dart.Wire.Reads.{Reads}
use iroh_dart.Wire.Scalars.{is_utf8}
use iroh_dart.Wire.Values.{encode_parts, decode_parts}
use iroh_dart.Wire.Values.Laws.{decode_parts-encode}
use iroh_dart.Wire.LittleEndian.{little_endian, little_endian-CursorLaws}

abbrev pub parts : EndpointAddrParts
parts = record {
  id = 1 ∷ 2 ∷ 255 ∷ [];
  relay_urls = codes "https://relay.example" ∷ [];
  ip_addrs = codes "192.168.1.5:7777" ∷ codes "[::1]:9" ∷ [];
}

abbrev pub event : PathEventInfo
event = record { kind = PathEventKind.closed; remote_addr = some (codes "relay"); missed = none }

abbrev pub status : RelayStatusInfo
status = record {
  url = codes "https://relay.example";
  connected = false;
  last_error = some (codes "timeout");
  auth_denied_reason = none;
}

abbrev pub stats : ConnStats
stats = record {
  udp_tx_datagrams = 1;
  udp_tx_bytes = 1200;
  udp_rx_datagrams = 2;
  udp_rx_bytes = 2400;
  sent_packets = 3;
  sent_bytes = 18446744073709551615;
  lost_packets = 0;
  lost_bytes = 0;
}

is_utf8_runs :
    (is_utf8 (0xe2 ∷ 0x82 ∷ 0xac ∷ []) ≡ true)
    × (is_utf8 (0xc0 ∷ 0xaf ∷ []) ≡ false)
    × (is_utf8 (0xed ∷ 0xa0 ∷ 0x80 ∷ []) ≡ false)
    × (is_utf8 (0xf0 ∷ 0x9f ∷ 0x98 ∷ []) ≡ false)
unfolding is_utf8
is_utf8_runs = (refl, refl, refl, refl)

decode_parts-encode_example :
    Reads (decode_parts little_endian) (encode_parts little_endian parts) parts
unfolding is_utf8
decode_parts-encode_example =
    decode_parts-encode little_endian little_endian-CursorLaws parts (record {
      id = omega arith;
      relay_urls = (omega arith, ((omega arith, refl), tt));
      ip_addrs = (omega arith, ((omega arith, refl), ((omega arith, refl), tt)));
    })

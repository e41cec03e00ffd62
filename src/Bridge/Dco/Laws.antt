-- ===== src/Bridge/Dco/Laws.antt =====
-- What Rust turns into Dart objects, Dart reads back.
use iroh_dart.Prelude.{ℕ, ◌≡◌, refl, false, Option, none, some, List, [], ◌∷◌, map, Str}
use iroh_dart.Connection.{ConnStats}
use iroh_dart.Key.{EndpointAddrParts}
use iroh_dart.Watch.{PathEventKind, PathEventInfo, RelayStatusInfo}
use iroh_dart.Prelude.Int.{pos}
use iroh_dart.Bridge.Dco.{
  DartAbi, AbiLaws, of_option, decode_opt, decode_each, stats_into_dart, parts_into_dart,
  kind_into_dart, event_into_dart, status_into_dart, dco_decode_list_string, dco_decode_conn_stats,
  dco_decode_endpoint_addr_parts, dco_decode_path_event_kind, dco_decode_path_event_info,
  dco_decode_relay_status_info,
}

module _ (d : DartAbi) (laws : AbiLaws d) where
  decode_opt-of :
      {A : Type 0} (into : A → d.Object) (decode : d.Object → Option A)
      → ((a : A) → decode (into a) ≡ some a)
      → ((a : A) → d.is_null (into a) ≡ false)
      → (o : Option A) → decode_opt d decode (of_option d into o) ≡ some o
  decode_opt-of into decode back there none = rw laws.null refl
  decode_opt-of into decode back there (some a) = rw (there a, back a) refl

  decode_each-map : (ss : List Str) → decode_each d d.as_string (map d.of_string ss) ≡ some ss
  decode_each-map [] = refl
  decode_each-map (s ∷ ss) = rw (laws.string s, decode_each-map ss) refl

  strings : (ss : List Str) → dco_decode_list_string d (d.of_list (map d.of_string ss)) ≡ some ss
  unfolding dco_decode_list_string
  strings ss = rw (laws.list (map d.of_string ss), decode_each-map ss) refl

  opt_string : (o : Option Str) → decode_opt d d.as_string (of_option d d.of_string o) ≡ some o
  opt_string o = decode_opt-of d.of_string d.as_string laws.string laws.string_is_not_null o

  opt_u64 : (o : Option ℕ) → decode_opt d d.as_u64 (of_option d d.of_u64 o) ≡ some o
  opt_u64 o = decode_opt-of d.of_u64 d.as_u64 laws.u64 laws.u64_is_not_null o

  kind_back : (k : PathEventKind) → dco_decode_path_event_kind d (kind_into_dart d k) ≡ some k
  unfolding dco_decode_path_event_kind kind_into_dart
  kind_back PathEventKind.opened = rw (laws.int (pos 0)) refl
  kind_back PathEventKind.closed = rw (laws.int (pos 1)) refl
  kind_back PathEventKind.selected = rw (laws.int (pos 2)) refl
  kind_back PathEventKind.lagged = rw (laws.int (pos 3)) refl
  kind_back PathEventKind.unknown = rw (laws.int (pos 4)) refl

  -- If the library's objects keep `AbiLaws`: each statistics record, address, path event, event
  -- kind and relay status that Rust turns into a Dart object is read by Dart as the same one.
  pub dco_decode-into_dart :
      (s : ConnStats) (p : EndpointAddrParts) (e : PathEventInfo) (k : PathEventKind)
      (r : RelayStatusInfo)
      → (dco_decode_conn_stats d (stats_into_dart d s) ≡ some s)
        × (dco_decode_endpoint_addr_parts d (parts_into_dart d p) ≡ some p)
        × (dco_decode_path_event_info d (event_into_dart d e) ≡ some e)
        × (dco_decode_path_event_kind d (kind_into_dart d k) ≡ some k)
        × (dco_decode_relay_status_info d (status_into_dart d r) ≡ some r)
  unfolding dco_decode_conn_stats stats_into_dart dco_decode_endpoint_addr_parts parts_into_dart
      dco_decode_path_event_info event_into_dart dco_decode_relay_status_info status_into_dart
  dco_decode-into_dart s p e k r = (
    rw
        (
          laws.list _,
          laws.u64 s.udp_tx_datagrams,
          laws.u64 s.udp_tx_bytes,
          laws.u64 s.udp_rx_datagrams,
          laws.u64 s.udp_rx_bytes,
          laws.u64 s.sent_packets,
          laws.u64 s.sent_bytes,
          laws.u64 s.lost_packets,
          laws.u64 s.lost_bytes,
        )
        refl,
    rw (laws.list _, laws.bytes p.id, strings p.relay_urls, strings p.ip_addrs) refl,
    rw (laws.list _, kind_back e.kind, opt_string e.remote_addr, opt_u64 e.missed) refl,
    kind_back k,
    rw
        (
          laws.list _,
          laws.string r.url,
          laws.bool r.connected,
          opt_string r.last_error,
          opt_string r.auth_denied_reason,
        )
        refl,
  )

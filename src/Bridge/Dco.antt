-- ===== src/Bridge/Dco.antt =====
-- The section rust2dart of packages/iroh_quic/rust/src/frb_generated.rs, which turns values into
-- Dart objects, and the functions `dco_decode_*` of
-- packages/iroh_quic/lib/src/rust/frb_generated.dart, which read them. The objects are the bridge
-- library's.
pub mod Laws
pub mod Tests
use iroh_dart.Prelude.{
  ℕ, zero, suc, ◌≡◌, Bool, true, false, Option, none, some, List, [], ◌∷◌, map, Str, if◌then◌else◌,
}
use iroh_dart.Prelude.Int.{ℤ, pos, negsuc}
use iroh_dart.Connection.{ConnStats}
use iroh_dart.Key.{EndpointAddrParts}
use iroh_dart.Watch.{PathEventKind, PathEventInfo, RelayStatusInfo}

-- `DartAbi` with the library's `into_dart`, and Dart's casts of a `dynamic`; a cast that fails
-- throws.
pub record DartAbi : Type 1 where
  pub Object : Type 0
  pub null : Object
  pub of_i32 : ℤ → Object
  pub of_u64 : ℕ → Object
  pub of_bool : Bool → Object
  pub of_string : Str → Object
  pub of_bytes : List ℕ → Object
  pub of_list : List Object → Object
  pub is_null : Object → Bool
  pub as_int : Object → Option ℤ
  pub as_u64 : Object → Option ℕ
  pub as_bool : Object → Option Bool
  pub as_string : Object → Option Str
  pub as_bytes : Object → Option (List ℕ)
  pub as_list : Object → Option (List Object)

-- Dart reads what Rust made.
pub record AbiLaws (d : DartAbi) : Type 1 where
  pub int : (z : ℤ) → d.as_int (d.of_i32 z) ≡ some z
  pub u64 : (n : ℕ) → d.as_u64 (d.of_u64 n) ≡ some n
  pub bool : (b : Bool) → d.as_bool (d.of_bool b) ≡ some b
  pub string : (s : Str) → d.as_string (d.of_string s) ≡ some s
  pub bytes : (bytes : List ℕ) → d.as_bytes (d.of_bytes bytes) ≡ some bytes
  pub list : (os : List d.Object) → d.as_list (d.of_list os) ≡ some os
  pub null : d.is_null d.null ≡ true
  pub string_is_not_null : (s : Str) → d.is_null (d.of_string s) ≡ false
  pub u64_is_not_null : (n : ℕ) → d.is_null (d.of_u64 n) ≡ false

-- Dart's enum, in its order.
abbrev pub values : List PathEventKind
values =
    PathEventKind.opened ∷ PathEventKind.closed ∷ PathEventKind.selected ∷ PathEventKind.lagged
    ∷ PathEventKind.unknown ∷ []

abbrev pub nth : {A : Type 0} → List A → ℕ → Option A
nth [] n = none
nth (x ∷ xs) zero = some x
nth (x ∷ xs) (suc n) = nth xs n

-- An index out of range throws.
abbrev pub at_index : {A : Type 0} → List A → ℤ → Option A
at_index xs (pos n) = nth xs n
at_index xs (negsuc n) = none

infixl 5 ◌>>=◌
abbrev pub ◌>>=◌ : {A B : Type 0} → Option A → (A → Option B) → Option B
◌>>=◌ none next = none
◌>>=◌ (some a) next = next a

module _ (d : DartAbi) where
  abbrev pub of_option : {A : Type 0} → (A → d.Object) → Option A → d.Object
  of_option into none = d.null
  of_option into (some a) = into a

  -- `ConnStats`
  pub stats_into_dart : ConnStats → d.Object
  stats_into_dart s = d.of_list (
      d.of_u64 s.udp_tx_datagrams
      ∷ d.of_u64 s.udp_tx_bytes
      ∷ d.of_u64 s.udp_rx_datagrams
      ∷ d.of_u64 s.udp_rx_bytes
      ∷ d.of_u64 s.sent_packets
      ∷ d.of_u64 s.sent_bytes
      ∷ d.of_u64 s.lost_packets
      ∷ d.of_u64 s.lost_bytes
      ∷ [])

  -- `EndpointAddrParts`
  pub parts_into_dart : EndpointAddrParts → d.Object
  parts_into_dart p = d.of_list (
      d.of_bytes p.id
      ∷ d.of_list (map d.of_string p.relay_urls)
      ∷ d.of_list (map d.of_string p.ip_addrs)
      ∷ [])

  pub kind_into_dart : PathEventKind → d.Object
  kind_into_dart PathEventKind.opened = d.of_i32 (pos 0)
  kind_into_dart PathEventKind.closed = d.of_i32 (pos 1)
  kind_into_dart PathEventKind.selected = d.of_i32 (pos 2)
  kind_into_dart PathEventKind.lagged = d.of_i32 (pos 3)
  kind_into_dart PathEventKind.unknown = d.of_i32 (pos 4)

  pub event_into_dart : PathEventInfo → d.Object
  event_into_dart e = d.of_list (
      kind_into_dart e.kind
      ∷ of_option d.of_string e.remote_addr
      ∷ of_option d.of_u64 e.missed
      ∷ [])

  pub status_into_dart : RelayStatusInfo → d.Object
  status_into_dart r = d.of_list (
      d.of_string r.url
      ∷ d.of_bool r.connected
      ∷ of_option d.of_string r.last_error
      ∷ of_option d.of_string r.auth_denied_reason
      ∷ [])

  -- Dart's side.
  abbrev pub decode_opt : {A : Type 0} → (d.Object → Option A) → d.Object → Option (Option A)
  decode_opt decode raw = if d.is_null raw then some none else (do a ← decode raw; some (some a))

  abbrev pub decode_each : {A : Type 0} → (d.Object → Option A) → List d.Object → Option (List A)
  decode_each decode [] = some []
  decode_each decode (o ∷ os) = do a ← decode o; rest ← decode_each decode os; some (a ∷ rest)

  pub dco_decode_list_string : d.Object → Option (List Str)
  dco_decode_list_string raw = do os ← d.as_list raw; decode_each d.as_string os

  abbrev stats_of : List d.Object → Option ConnStats
  stats_of (o0 ∷ o1 ∷ o2 ∷ o3 ∷ o4 ∷ o5 ∷ o6 ∷ o7 ∷ []) = do
    udp_tx_datagrams ← d.as_u64 o0
    udp_tx_bytes ← d.as_u64 o1
    udp_rx_datagrams ← d.as_u64 o2
    udp_rx_bytes ← d.as_u64 o3
    sent_packets ← d.as_u64 o4
    sent_bytes ← d.as_u64 o5
    lost_packets ← d.as_u64 o6
    lost_bytes ← d.as_u64 o7
    some (record {
      udp_tx_datagrams = udp_tx_datagrams;
      udp_tx_bytes = udp_tx_bytes;
      udp_rx_datagrams = udp_rx_datagrams;
      udp_rx_bytes = udp_rx_bytes;
      sent_packets = sent_packets;
      sent_bytes = sent_bytes;
      lost_packets = lost_packets;
      lost_bytes = lost_bytes;
    })
  stats_of _ = none

  pub dco_decode_conn_stats : d.Object → Option ConnStats
  dco_decode_conn_stats raw = do arr ← d.as_list raw; stats_of arr

  abbrev parts_of : List d.Object → Option EndpointAddrParts
  parts_of (o0 ∷ o1 ∷ o2 ∷ []) = do
    id ← d.as_bytes o0
    relay_urls ← dco_decode_list_string o1
    ip_addrs ← dco_decode_list_string o2
    some (record { id = id; relay_urls = relay_urls; ip_addrs = ip_addrs })
  parts_of _ = none

  pub dco_decode_endpoint_addr_parts : d.Object → Option EndpointAddrParts
  dco_decode_endpoint_addr_parts raw = do arr ← d.as_list raw; parts_of arr

  -- `PathEventKind.values[raw as int]`
  pub dco_decode_path_event_kind : d.Object → Option PathEventKind
  dco_decode_path_event_kind raw = do index ← d.as_int raw; at_index values index

  abbrev event_of : List d.Object → Option PathEventInfo
  event_of (o0 ∷ o1 ∷ o2 ∷ []) = do
    kind ← dco_decode_path_event_kind o0
    remote_addr ← decode_opt d.as_string o1
    missed ← decode_opt d.as_u64 o2
    some (record { kind = kind; remote_addr = remote_addr; missed = missed })
  event_of _ = none

  pub dco_decode_path_event_info : d.Object → Option PathEventInfo
  dco_decode_path_event_info raw = do arr ← d.as_list raw; event_of arr

  abbrev status_of : List d.Object → Option RelayStatusInfo
  status_of (o0 ∷ o1 ∷ o2 ∷ o3 ∷ []) = do
    url ← d.as_string o0
    connected ← d.as_bool o1
    last_error ← decode_opt d.as_string o2
    auth_denied_reason ← decode_opt d.as_string o3
    some (record {
      url = url;
      connected = connected;
      last_error = last_error;
      auth_denied_reason = auth_denied_reason;
    })
  status_of _ = none

  pub dco_decode_relay_status_info : d.Object → Option RelayStatusInfo
  dco_decode_relay_status_info raw = do arr ← d.as_list raw; status_of arr

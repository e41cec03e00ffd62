-- ===== src/Bridge/Dco/Tests.antt =====
-- Objects as trees, at which the conversions are tried.
use iroh_dart.Prelude.{
  ℕ, ◌≡◌, refl, Bool, true, false, Option, none, some, List, [], ◌∷◌, Str, codes,
}
use iroh_dart.Prelude.Int.{ℤ}
use iroh_dart.Connection.{ConnStats}
use iroh_dart.Key.{EndpointAddrParts}
use iroh_dart.Watch.{PathEventKind, PathEventInfo, RelayStatusInfo}
use iroh_dart.Bridge.Dco.{
  DartAbi, AbiLaws, stats_into_dart, parts_into_dart, kind_into_dart, event_into_dart,
  status_into_dart, dco_decode_conn_stats, dco_decode_endpoint_addr_parts,
  dco_decode_path_event_kind, dco_decode_path_event_info, dco_decode_relay_status_info,
}
use iroh_dart.Bridge.Dco.Laws.{dco_decode-into_dart}

mutual
  data Tree : Type 0 where
    nothing : Tree
    int : ℤ → Tree
    big : ℕ → Tree
    flag : Bool → Tree
    text : Str → Tree
    typed : List ℕ → Tree
    array : Trees → Tree

  data Trees : Type 0 where
    end : Trees
    item : Tree → Trees → Trees

abbrev trees_of : List Tree → Trees
trees_of [] = end
trees_of (t ∷ ts) = item t (trees_of ts)

abbrev list_of : Trees → List Tree
list_of end = []
list_of (item t ts) = t ∷ list_of ts

list_of-trees_of : (ts : List Tree) → list_of (trees_of ts) ≡ ts
list_of-trees_of [] = refl
list_of-trees_of (t ∷ ts) = rw (list_of-trees_of ts) refl

abbrev is_nothing : Tree → Bool
is_nothing nothing = true
is_nothing _ = false

abbrev int_in : Tree → Option ℤ
int_in (int z) = some z
int_in _ = none

abbrev big_in : Tree → Option ℕ
big_in (big n) = some n
big_in _ = none

abbrev flag_in : Tree → Option Bool
flag_in (flag b) = some b
flag_in _ = none

abbrev text_in : Tree → Option Str
text_in (text s) = some s
text_in _ = none

abbrev typed_in : Tree → Option (List ℕ)
typed_in (typed bytes) = some bytes
typed_in _ = none

abbrev array_in : Tree → Option (List Tree)
array_in (array ts) = some (list_of ts)
array_in _ = none

abbrev trees : DartAbi
trees = record {
  Object = Tree;
  null = nothing;
  of_i32 = int;
  of_u64 = big;
  of_bool = flag;
  of_string = text;
  of_bytes = typed;
  of_list = λ ts. array (trees_of ts);
  is_null = is_nothing;
  as_int = int_in;
  as_u64 = big_in;
  as_bool = flag_in;
  as_string = text_in;
  as_bytes = typed_in;
  as_list = array_in;
}

trees-AbiLaws : AbiLaws trees
trees-AbiLaws = record {
  int = λ z. refl;
  u64 = λ n. refl;
  bool = λ b. refl;
  string = λ s. refl;
  bytes = λ bytes. refl;
  list = λ ts. rw (list_of-trees_of ts) refl;
  null = refl;
  string_is_not_null = λ s. refl;
  u64_is_not_null = λ n. refl;
}

abbrev stats : ConnStats
stats = record {
  udp_tx_datagrams = 1;
  udp_tx_bytes = 2;
  udp_rx_datagrams = 3;
  udp_rx_bytes = 4;
  sent_packets = 5;
  sent_bytes = 6;
  lost_packets = 7;
  lost_bytes = 8;
}

abbrev parts : EndpointAddrParts
parts = record { id = 1 ∷ 2 ∷ []; relay_urls = codes "r" ∷ codes "s" ∷ []; ip_addrs = [] }

abbrev lagged : PathEventInfo
lagged = record { kind = PathEventKind.lagged; remote_addr = none; missed = some 3 }

abbrev denied : RelayStatusInfo
denied = record {
  url = codes "r";
  connected = false;
  last_error = none;
  auth_denied_reason = some (codes "no");
}

dco_decode-into_dart_example :
    (dco_decode_conn_stats trees (stats_into_dart trees stats) ≡ some stats)
    × (dco_decode_endpoint_addr_parts trees (parts_into_dart trees parts) ≡ some parts)
    × (dco_decode_path_event_info trees (event_into_dart trees lagged) ≡ some lagged)
    × (dco_decode_path_event_kind trees (kind_into_dart trees PathEventKind.closed)
        ≡ some PathEventKind.closed)
    × (dco_decode_relay_status_info trees (status_into_dart trees denied) ≡ some denied)
dco_decode-into_dart_example =
    dco_decode-into_dart trees trees-AbiLaws stats parts lagged PathEventKind.closed denied

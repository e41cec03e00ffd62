-- ===== src/Endpoint/Tests.antt =====
-- A small instance of iroh's endpoints, at which the theorems are tried: a builder is the record of
-- the calls on it, and an endpoint its builder.
use iroh_dart.Prelude.{
  Elem, map, codes, ℕ, ◌+◌, ◌≡◌, ◌≢◌, refl, ◌↔◌, inr, false, Option, some, List, [], ◌∷◌, Str,
  wrong_length, ok, err, length, arith,
}
use iroh_dart.Prelude.Int.{pos}
use iroh_dart.Iroh.Toy.{toy, toy-KeyLaws, toy-AddrLaws, Place, home, backup, Addr}
use iroh_dart.Iroh.Binding.{Binding}
use iroh_dart.Key.{EndpointAddrParts, build_endpoint_addr}
use iroh_dart.Runtime.Job.{Job, returns, spawn}
use iroh_dart.Connection.Tests.{small, answer}
use iroh_dart.Endpoint.{map_relay_mode, endpoint_bind, addr, connect, accept, accept_incoming}
use iroh_dart.Endpoint.Laws.{binds_refuse}
use iroh_dart.Endpoint.Calls.{Agree, accept_given, accept_two_steps, connect-addr}
use iroh_dart.Endpoint.Lookup.{endpoint_bind_with_address_lookup, resolve, build_item}
use iroh_dart.Endpoint.Lookup.Laws.{resolve_items, build_item-build_endpoint_addr}

abbrev here : Addr
here = record {
  key = 9;
  relays = record { has_home = false; has_backup = false };
  socks = record { has_home = false; has_backup = false };
}

abbrev pub binding : Binding toy small
binding = record {
  RelayMode = ℕ;
  Builder = List ℕ;
  Endpoint = List ℕ;
  TransportAddr = Place;
  EndpointInfo = ℕ × List Place;
  Item = ℕ × List Place;
  relay_default = 0;
  relay_disabled = 1;
  relay_staging = 2;
  relay_custom = λ urls. 3 + length urls;
  builder = [];
  relay_mode = λ m made. m ∷ made;
  alpns = λ names made. length names ∷ made;
  secret_key = λ k made. k ∷ made;
  clear_address_lookup = λ made. made;
  address_lookup = λ lookup made. 1 ∷ made;
  bind = λ made. answer made;
  id = λ ep. 9;
  addr = λ ep w. here;
  bound_sockets = λ ep w. home ∷ [];
  set_alpns = λ ep names w. w;
  is_closed = λ ep w. false;
  connect = λ ep target alpn. answer ((target.key ∷ []) ∷ []);
  accept = λ ep. answer (some 7);
  close = λ ep. answer tt;
  relay_addr = λ u. u;
  ip_addr = λ a. a;
  from_parts = λ id addrs. (id, addrs);
  item = λ info source updated. info;
}

abbrev custom : List Str
custom = (b'h' ∷ []) ∷ (b'b' ∷ []) ∷ []

abbrev callback : List ℕ → Job ℕ (Option EndpointAddrParts)
callback bytes =
    answer
      (some (record { id = bytes; relay_urls = (b'h' ∷ []) ∷ []; ip_addrs = (b'b' ∷ []) ∷ [] }))

abbrev short : List ℕ
short = 1 ∷ 2 ∷ []

short_key : length short ≢ 32
short_key h = ground arith

mode_one : map_relay_mode toy small binding (pos 1) [] ≡ ok 1
unfolding map_relay_mode
mode_one = refl

binds_refuse_example :
    (endpoint_bind toy small binding (some short) [] (pos 1) [] 5 ≡ (err (wrong_length 32 2), 5))
    × (endpoint_bind_with_address_lookup toy small binding (some short) [] (pos 1) [] callback 5
        ≡ (err (wrong_length 32 2), 5))
binds_refuse_example =
    binds_refuse toy small binding (some short) [] (pos 1) [] callback 5 (wrong_length 32 2)
      (inr ((1, mode_one), (short, refl, short_key, refl)))

abbrev bound : List ℕ
bound = 7 ∷ 0 ∷ 1 ∷ []

accept_two_steps_example :
    Agree toy small binding
      (accept toy small binding bound 5)
      (accept_given toy small binding (accept_incoming toy small binding bound 5))
accept_two_steps_example = accept_two_steps toy small binding bound 5

connect-addr_example :
    (target : Addr) × (connect toy small binding bound (addr toy small binding bound 2) [] 5
      ≡ spawn (codes "connect") (binding.connect bound target []) 5)
    × (target.key ≡ 9)
    × (toy.relay_urls target ≡ [])
    × ((s : Str) → Elem s (map toy.socket_to_string (toy.ip_addrs target)) ↔ Elem s [])
connect-addr_example = connect-addr toy small binding toy-KeyLaws toy-AddrLaws bound bound [] 5 2

abbrev asked : EndpointAddrParts
asked = record {
  id = toy.public_as_bytes 4;
  relay_urls = (b'h' ∷ []) ∷ [];
  ip_addrs = (b'b' ∷ []) ∷ [];
}

resolve_items_example :
    resolve toy small binding callback 4 5 ≡ (returns ((4, home ∷ backup ∷ []) ∷ []), 6)
resolve_items_example = resolve_items toy small binding callback 4 5 (some asked) refl

build_item-build_endpoint_addr_example :
    ((item : ℕ × List Place) × (build_item toy small binding 4 asked ≡ ok item))
    ↔ ((a : Addr) × (build_endpoint_addr toy asked ≡ ok a))
build_item-build_endpoint_addr_example =
    build_item-build_endpoint_addr toy small binding 4 asked toy-KeyLaws refl

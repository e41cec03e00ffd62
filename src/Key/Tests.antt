-- ===== src/Key/Tests.antt =====
-- The key functions at the small instance: key 5, three spellings of two relay URLs.
use iroh_dart.Prelude.{
  ℕ, ◌≡◌, refl, ◌↔◌, true, List, [], ◌∷◌, map, Str, ok, ◌>>=◌, replicate, Elem, codes,
}
use iroh_dart.Iroh.Toy.{
  toy, toy-KeyLaws, toy-AddrLaws, toy-PostcardLaws, key_of, Place, home, backup,
}
use iroh_dart.Key.{
  EndpointAddrParts, to_arr32, secret_key_public, secret_key_sign, public_key_check,
  public_key_verify, public_key_to_z32, public_key_from_z32, public_key_to_hex, public_key_from_hex,
  add_relay_urls, add_ip_addrs, build_endpoint_addr, parts_from_endpoint_addr,
  endpoint_addr_round_trip, endpoint_addr_encode, endpoint_addr_decode,
}
use iroh_dart.Key.Laws.{verify-sign, from_text-to_text}
use iroh_dart.Key.Addr.{parse_all, build_endpoint_addr_lem, assembled}
use iroh_dart.Key.RoundTrip.{
  Parsed, build_endpoint_addr-Parsed, endpoint_addr_round_trip_members, decode-encode,
}

abbrev key : List ℕ
key = 5 ∷ replicate 31 0

abbrev parts : EndpointAddrParts
parts = record {
  id = key;
  relay_urls = codes "b/" ∷ codes "h" ∷ codes "h/" ∷ [];
  ip_addrs = codes "b" ∷ [];
}

abbrev tidy : EndpointAddrParts
tidy = record { id = key; relay_urls = codes "h/" ∷ codes "b/" ∷ []; ip_addrs = codes "b/" ∷ [] }

key_checks : public_key_check toy key ≡ ok tt
unfolding public_key_check to_arr32 key_of
key_checks = refl

round_trip_runs : endpoint_addr_round_trip toy parts ≡ ok tidy
unfolding endpoint_addr_round_trip build_endpoint_addr add_relay_urls add_ip_addrs
    parts_from_endpoint_addr to_arr32 key_of
round_trip_runs = refl

verify-sign_example :
    (do
      pk ← secret_key_public toy key
      sig ← secret_key_sign toy key (1 ∷ 2 ∷ [])
      public_key_verify toy pk (1 ∷ 2 ∷ []) sig)
    ≡ ok true
verify-sign_example = verify-sign toy toy-KeyLaws key (1 ∷ 2 ∷ []) refl

from_text-to_text_example :
    ((public_key_to_z32 toy key >>= public_key_from_z32 toy) ≡ ok key)
    × ((public_key_to_hex toy key >>= public_key_from_hex toy) ≡ ok key)
from_text-to_text_example = from_text-to_text toy toy-KeyLaws key key_checks

build_endpoint_addr_lem_example : build_endpoint_addr toy parts ≡ (do
  arr ← to_arr32 parts.id
  pk ← toy.public_from_bytes arr
  urls ← parse_all toy.relay_from_str parts.relay_urls
  socks ← parse_all toy.socket_from_str parts.ip_addrs
  ok (assembled toy pk urls socks))
build_endpoint_addr_lem_example = build_endpoint_addr_lem toy parts

build_endpoint_addr-Parsed_example :
    (build_endpoint_addr toy parts ≡ ok (assembled toy 5 (backup ∷ home ∷ home ∷ []) (backup ∷ [])))
    ↔ Parsed toy parts (assembled toy 5 (backup ∷ home ∷ home ∷ []) (backup ∷ []))
build_endpoint_addr-Parsed_example =
    build_endpoint_addr-Parsed toy parts (assembled toy 5 (backup ∷ home ∷ home ∷ []) (backup ∷ []))

endpoint_addr_round_trip_members_example :
    (urls : List Place) × (socks : List Place) × (parse_all toy.relay_from_str parts.relay_urls
      ≡ ok urls)
    × (parse_all toy.socket_from_str parts.ip_addrs ≡ ok socks)
    × (tidy.id ≡ parts.id)
    × ((s : Str) → Elem s tidy.relay_urls ↔ Elem s (map toy.relay_to_string urls))
    × ((s : Str) → Elem s tidy.ip_addrs ↔ Elem s (map toy.socket_to_string socks))
endpoint_addr_round_trip_members_example =
    endpoint_addr_round_trip_members toy toy-KeyLaws toy-AddrLaws parts tidy round_trip_runs

decode-encode_example :
    endpoint_addr_decode toy (5 ∷ 1 ∷ 1 ∷ 0 ∷ 1 ∷ []) ≡ endpoint_addr_round_trip toy parts
unfolding endpoint_addr_encode build_endpoint_addr add_relay_urls add_ip_addrs to_arr32 key_of
decode-encode_example =
    decode-encode toy toy-AddrLaws (λ p. Unit) toy-PostcardLaws parts (5 ∷ 1 ∷ 1 ∷ 0 ∷ 1 ∷ [])
      (backup ∷ []) refl (λ s h. tt) refl

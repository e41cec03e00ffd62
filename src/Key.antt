-- ===== src/Key.antt =====
-- packages/iroh_quic/rust/src/api/key.rs: identity and address functions over byte lists.
pub mod Laws
pub mod Addr
pub mod RoundTrip
mod Tests
use iroh_dart.Prelude.{
  ℕ, ◌≡◌, Bool, true, false, List, [], ◌∷◌, map, Str, Error, wrong_length, Result, ok, err, ◌>>=◌,
  ◌>>◌, length, ◌==◌, if◌then◌else◌,
}
use iroh_dart.Iroh.{IrohBase}

-- `<[u8; 32]>::try_from`: the array has the bytes of the slice.
unfoldable pub to_arr32 : List ℕ → Result (List ℕ)
to_arr32 bytes = if length bytes == 32 then ok bytes else err (wrong_length 32 (length bytes))

unfoldable pub to_arr64 : List ℕ → Result (List ℕ)
to_arr64 bytes = if length bytes == 64 then ok bytes else err (wrong_length 64 (length bytes))

abbrev is_ok {ℓ} : {A : Type ℓ} → Result A → Bool
is_ok (ok a) = true
is_ok (err e) = false

pub record EndpointAddrParts : Type 0 where
  pub id : List ℕ
  pub relay_urls : List Str
  pub ip_addrs : List Str

module _ (b : IrohBase) where
  open b use {
    SecretKey, PublicKey, Signature, RelayUrl, SocketAddr, EndpointAddr, secret_from_bytes,
    secret_to_bytes, public, sign, public_from_bytes, public_as_bytes, signature_from_bytes,
    signature_to_bytes, verify, to_z32, from_z32, public_to_string, public_from_str, fmt_short,
    relay_from_str, relay_to_string, socket_from_str, socket_to_string, new, with_relay_url,
    with_ip_addr, addr_id, to_allocvec, addr_from_bytes,
  }

  -- The argument is the key that `SecretKey::generate()` draws.
  pub secret_key_generate : SecretKey → List ℕ
  secret_key_generate drawn = secret_to_bytes drawn

  pub secret_key_public : List ℕ → Result (List ℕ)
  secret_key_public secret = do
    arr ← to_arr32 secret
    ok (public_as_bytes (public (secret_from_bytes arr)))

  pub secret_key_sign : List ℕ → List ℕ → Result (List ℕ)
  secret_key_sign secret msg = do
    arr ← to_arr32 secret
    ok (signature_to_bytes (sign (secret_from_bytes arr) msg))

  pub public_key_check : List ℕ → Result (Unit {0})
  public_key_check bytes = do arr ← to_arr32 bytes; public_from_bytes arr; ok tt

  pub public_key_verify : List ℕ → List ℕ → List ℕ → Result Bool
  public_key_verify bytes msg signature = do
    arr ← to_arr32 bytes
    pk ← public_from_bytes arr
    sig ← to_arr64 signature
    ok (is_ok (verify pk msg (signature_from_bytes sig)))

  pub public_key_to_z32 : List ℕ → Result Str
  public_key_to_z32 bytes = do arr ← to_arr32 bytes; pk ← public_from_bytes arr; ok (to_z32 pk)

  pub public_key_from_z32 : Str → Result (List ℕ)
  public_key_from_z32 z32 = do pk ← from_z32 z32; ok (public_as_bytes pk)

  pub public_key_to_hex : List ℕ → Result Str
  public_key_to_hex bytes = do
    arr ← to_arr32 bytes
    pk ← public_from_bytes arr
    ok (public_to_string pk)

  pub public_key_from_hex : Str → Result (List ℕ)
  public_key_from_hex hex = do pk ← public_from_str hex; ok (public_as_bytes pk)

  pub public_key_fmt_short : List ℕ → Result Str
  public_key_fmt_short bytes = do
    arr ← to_arr32 bytes
    pk ← public_from_bytes arr
    ok (fmt_short pk)

  pub relay_url_parse : Str → Result Str
  relay_url_parse url = do u ← relay_from_str url; ok (relay_to_string u)

  -- The two loops of `build_endpoint_addr`.
  pub add_relay_urls : List Str → EndpointAddr → Result EndpointAddr
  add_relay_urls [] addr = ok addr
  add_relay_urls (u ∷ us) addr = do
    url ← relay_from_str u
    add_relay_urls us (with_relay_url addr url)

  pub add_ip_addrs : List Str → EndpointAddr → Result EndpointAddr
  add_ip_addrs [] addr = ok addr
  add_ip_addrs (ip ∷ ips) addr = do a ← socket_from_str ip; add_ip_addrs ips (with_ip_addr addr a)

  pub build_endpoint_addr : EndpointAddrParts → Result EndpointAddr
  build_endpoint_addr parts = do
    arr ← to_arr32 parts.id
    pk ← public_from_bytes arr
    addr ← add_relay_urls parts.relay_urls (new pk)
    add_ip_addrs parts.ip_addrs addr

  unfoldable pub parts_from_endpoint_addr : EndpointAddr → EndpointAddrParts
  parts_from_endpoint_addr addr = record {
    id = public_as_bytes (addr_id addr);
    relay_urls = map relay_to_string (b.relay_urls addr);
    ip_addrs = map socket_to_string (b.ip_addrs addr);
  }

  pub endpoint_addr_round_trip : EndpointAddrParts → Result EndpointAddrParts
  endpoint_addr_round_trip parts = do
    addr ← build_endpoint_addr parts
    ok (parts_from_endpoint_addr addr)

  pub endpoint_addr_encode : EndpointAddrParts → Result (List ℕ)
  endpoint_addr_encode parts = do addr ← build_endpoint_addr parts; to_allocvec addr

  pub endpoint_addr_decode : List ℕ → Result EndpointAddrParts
  endpoint_addr_decode bytes = do addr ← addr_from_bytes bytes; ok (parts_from_endpoint_addr addr)

-- ===== src/Key/RoundTrip.antt =====
-- `endpoint_addr_round_trip`, `endpoint_addr_encode` and `endpoint_addr_decode`.
use iroh_dart.Prelude.{
  ok-injective, ℕ, ◌≡◌, sym, ap, ◌∙◌, subst, ◌↔◌, List, map, Str, ok, >>=-eq-ok, length, Elem,
  arith,
}
use iroh_dart.Iroh.{IrohBase, KeyLaws, AddrLaws, PostcardLaws}
use iroh_dart.Key.{
  EndpointAddrParts, build_endpoint_addr, parts_from_endpoint_addr, endpoint_addr_round_trip,
  endpoint_addr_encode, endpoint_addr_decode,
}
use iroh_dart.Key.Laws.{to_arr32-ok, to_arr32-eq-ok}
use iroh_dart.Key.Addr.{
  parse_all, assembled, build_endpoint_addr_lem, assembled-ips, parts-assembled, Reads,
}

module _ (b : IrohBase) where
  -- The parts are well formed, with these values.
  pub record Parsed (parts : EndpointAddrParts) (addr : b.EndpointAddr) : Type 0 where
    pub key : b.PublicKey
    pub urls : List b.RelayUrl
    pub socks : List b.SocketAddr
    pub id_length : length parts.id ≡ 32
    pub id_parses : b.public_from_bytes parts.id ≡ ok key
    pub urls_parse : parse_all b.relay_from_str parts.relay_urls ≡ ok urls
    pub socks_parse : parse_all b.socket_from_str parts.ip_addrs ≡ ok socks
    pub is_assembled : addr ≡ assembled b key urls socks

  -- `build_endpoint_addr` succeeds exactly on well-formed parts: an id of 32 bytes that is a key,
  -- and texts that all parse; its result is the address assembled from these values.
  pub build_endpoint_addr-Parsed :
      (parts : EndpointAddrParts) (addr : b.EndpointAddr)
      → (build_endpoint_addr b parts ≡ ok addr) ↔ Parsed parts addr
  build_endpoint_addr-Parsed parts addr = (to, from)
    where
      to : build_endpoint_addr b parts ≡ ok addr → Parsed parts addr
      to h =
          let (arr, e, h1) = >>=-eq-ok _ _ (sym (build_endpoint_addr_lem b parts) ∙ h) in
          let (pk, f, h2) = >>=-eq-ok _ _ h1 in
          let (urls, g, h3) = >>=-eq-ok _ _ h2 in
          let (socks, k, h4) = >>=-eq-ok _ _ h3 in
          let (len, same) = to_arr32-eq-ok parts.id arr e in
          record {
            key = pk;
            urls = urls;
            socks = socks;
            id_length = len;
            id_parses = ap b.public_from_bytes (sym same) ∙ f;
            urls_parse = g;
            socks_parse = k;
            is_assembled = ground (arith, h4);
          }

      from : Parsed parts addr → build_endpoint_addr b parts ≡ ok addr
      from p =
          rw
            (
              build_endpoint_addr_lem b parts,
              to_arr32-ok parts.id p.id_length,
              p.id_parses,
              p.urls_parse,
              p.socks_parse,
            )
            (ap ok (sym p.is_assembled))

module _ (b : IrohBase) (keys : KeyLaws b) (laws : AddrLaws b) where
  -- What a successful round trip has parsed, and what it gives back.
  round_trip-Parsed :
      (parts back : EndpointAddrParts)
      → endpoint_addr_round_trip b parts ≡ ok back
      → (addr : b.EndpointAddr) × (p : Parsed b parts addr) × (parts_from_endpoint_addr b
            (assembled b p.key p.urls p.socks)
          ≡ back)
  unfolding endpoint_addr_round_trip
  round_trip-Parsed parts back h =
      let (addr, built, e) =
        >>=-eq-ok (build_endpoint_addr b parts) (λ a. ok (parts_from_endpoint_addr b a)) h in
      let p : Parsed b parts addr = (build_endpoint_addr-Parsed b parts addr).0 built in
      (addr, p, ap (parts_from_endpoint_addr b) (sym p.is_assembled) ∙ ground (arith, e))

  -- If iroh's types keep `KeyLaws` and `AddrLaws`: a successful round trip keeps the id, and gives
  -- exactly the canonical forms of the relay URLs and of the socket addresses that went in, in an
  -- order of its own.
  pub endpoint_addr_round_trip_members :
      (parts back : EndpointAddrParts)
      → endpoint_addr_round_trip b parts ≡ ok back
      → (urls : List b.RelayUrl) × (socks : List b.SocketAddr) × (parse_all b.relay_from_str
            parts.relay_urls
          ≡ ok urls)
        × (parse_all b.socket_from_str parts.ip_addrs ≡ ok socks)
        × (back.id ≡ parts.id)
        × ((s : Str) → Elem s back.relay_urls ↔ Elem s (map b.relay_to_string urls))
        × ((s : Str) → Elem s back.ip_addrs ↔ Elem s (map b.socket_to_string socks))
  endpoint_addr_round_trip_members parts back h =
      let (addr, p, same) = round_trip-Parsed parts back h in
      let (i, r, s) =
        subst (Reads b p.key p.urls p.socks) same (parts-assembled b laws p.key p.urls p.socks) in
      (
        p.urls,
        p.socks,
        p.urls_parse,
        p.socks_parse,
        i ∙ keys.public_as_from parts.id p.key p.id_parses,
        r,
        s,
      )

module _ (b : IrohBase) (laws : AddrLaws b) where
  -- If iroh's types keep `AddrLaws`, and postcard `PostcardLaws`: when `endpoint_addr_encode`
  -- encodes parts whose socket addresses are plain, `endpoint_addr_decode` gives back the parts
  -- that the round trip without the encoding gives.
  pub decode-encode :
      (IsPlain : b.SocketAddr → Type 0)
      → PostcardLaws b IsPlain
      → (parts : EndpointAddrParts) (bytes : List ℕ) (socks : List b.SocketAddr)
      → parse_all b.socket_from_str parts.ip_addrs ≡ ok socks
      → ((s : b.SocketAddr) → Elem s socks → IsPlain s)
      → endpoint_addr_encode b parts ≡ ok bytes
      → endpoint_addr_decode b bytes ≡ endpoint_addr_round_trip b parts
  unfolding endpoint_addr_encode endpoint_addr_decode endpoint_addr_round_trip
  decode-encode IsPlain postcard parts bytes socks parsed plain h =
      let (addr, built, e) = >>=-eq-ok (build_endpoint_addr b parts) b.to_allocvec h in
      let p : Parsed b parts addr = (build_endpoint_addr-Parsed b parts addr).0 built in
      let same : p.socks ≡ socks = ok-injective _ _ (sym p.socks_parse ∙ parsed) in
      let all_plain : (s : b.SocketAddr) → Elem s (b.ip_addrs addr) → IsPlain s = λ s here.
        plain s (
          subst (Elem s) same (
            (assembled-ips b laws p.key p.urls p.socks s).0
              (subst (λ a. Elem s (b.ip_addrs a)) p.is_assembled here))) in
      rw (built, postcard.decode-encode addr bytes all_plain e)

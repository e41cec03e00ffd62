-- ===== src/Endpoint/Calls.antt =====
-- Connecting and accepting: what the calls ask of iroh.
use iroh_dart.Prelude.{
  ℕ, ◌≡◌, ◌↔◌, ◌⊎◌, inl, inr, refl, ap, ◌∙◌, subst, Option, none, some, List, [], ◌∷◌, map, Elem,
  Str, codes, Result, ok, err, panicked,
}
use iroh_dart.Iroh.{IrohBase, KeyLaws, AddrLaws}
use iroh_dart.Iroh.Quic.{Quic}
use iroh_dart.Iroh.Binding.{Binding}
use iroh_dart.Key.{parts_from_endpoint_addr}
use iroh_dart.Key.Addr.{
  parse_all, parse_all-map, texts_of_assembled, assembled, assembled-id, assembled-relays,
}
use iroh_dart.Key.RoundTrip.{Parsed, build_endpoint_addr-Parsed}
use iroh_dart.Runtime.Job.{Outcome, panics, fails, returns, spawn, proceed, pure, join}
use iroh_dart.Connection.Incoming as Inc
use iroh_dart.Connection.Incoming.{
  Incoming, Reply, connected, done, failed, wrap, take, handshake, connection_reply,
}
use iroh_dart.Connection.Streams.{map_ok, map_some}
use iroh_dart.Endpoint.Bodies.{accept_next}
use iroh_dart.Endpoint.{addr, connect, accept, accept_incoming}

module _ (b : IrohBase) (q : Quic) (n : Binding b q) where
  -- The second step, on what `accept_incoming` gives.
  abbrev pub accept_given :
      Result (Option (Incoming q.Incoming)) × q.World → Result (Option q.Connection) × q.World
  accept_given (err e, w) = (err e, w)
  accept_given (ok none, w) = (ok none, w)
  accept_given (ok (some inc), w) = let (r, h, w') = Inc.accept q inc w in (map_ok some r, w')

  -- The same result and the same calls of iroh, but that the error of a panic names the call whose
  -- task it was.
  abbrev pub Agree :
      Result (Option q.Connection) × q.World → Result (Option q.Connection) × q.World → Type 0
  Agree x y =
      (x.1 ≡ y.1)
      × ((x.0 ≡ y.0)
          ⊎ ((e : Str) × (x.0 ≡ err (panicked (codes "accept") e))
              × ((y.0 ≡ err (panicked (codes "accept_incoming") e))
                  ⊎ (y.0 ≡ err (panicked (codes "incoming accept") e)))))

  connected-given :
      (o : Outcome q.Connection) (w : q.World)
      → Agree
          (spawn (codes "accept") (λ v. proceed o (λ conn. pure (some conn)) v) w)
          (map_ok some (join (codes "incoming accept") o), w)
  connected-given (panics p) w = (refl, inr (p, refl, inr refl))
  connected-given (fails e) w = (refl, inl refl)
  connected-given (returns c) w = (refl, inl refl)

  given :
      (o : Outcome (Option q.Incoming)) (w : q.World)
      → Agree
          (spawn (codes "accept") (λ v. proceed o (accept_next b q n) v) w)
          (accept_given (map_ok (map_some (wrap q)) (join (codes "accept_incoming") o), w))
  unfolding Inc.accept take wrap
  given (panics p) w = (refl, inr (p, refl, inl refl))
  given (fails e) w = (refl, inl refl)
  given (returns none) w = (refl, inl refl)
  given (returns (some inc)) w = connected-given (handshake q inc w).0 (handshake q inc w).1

  -- `accept` does what `accept_incoming` and then `Incoming::accept` on its connection do: the same
  -- calls of iroh, and the same result, also where there is none or a step fails. Where a step
  -- panics, both give the error of that panic, which names `accept` in the one case and the call
  -- of the step in the other.
  pub accept_two_steps :
      (ep : n.Endpoint) (w : q.World)
      → Agree (accept b q n ep w) (accept_given (accept_incoming b q n ep w))
  unfolding accept accept_incoming
  accept_two_steps ep w = given (n.accept ep w).0 (n.accept ep w).1

module _ (b : IrohBase) (q : Quic) (n : Binding b q) (keys : KeyLaws b) (laws : AddrLaws b) where
  -- Socket addresses that are printed parse, to addresses that print the same.
  reparsed :
      (xs : List b.SocketAddr)
      → (ys : List b.SocketAddr) × (parse_all b.socket_from_str (map b.socket_to_string xs) ≡ ok ys)
        × (map b.socket_to_string ys ≡ map b.socket_to_string xs)
  reparsed [] = ([], refl, refl)
  reparsed (x ∷ xs) =
      let (y, parses, same) = laws.socket_from_to x in
      let (ys, all_parse, all_same) = reparsed xs in
      (
        y ∷ ys,
        rw (parses, all_parse) refl,
        ap (λ t. t ∷ map b.socket_to_string ys) same
            ∙ ap (λ ts. b.socket_to_string x ∷ ts) all_same,
      )

  self_Parsed :
      (a : b.EndpointAddr)
      → Parsed b
          (parts_from_endpoint_addr b a)
          (assembled b (b.addr_id a) (b.relay_urls a) (reparsed (b.ip_addrs a)).0)
  unfolding parts_from_endpoint_addr
  self_Parsed a = record {
    key = b.addr_id a;
    urls = b.relay_urls a;
    socks = (reparsed (b.ip_addrs a)).0;
    id_length = keys.length-public (b.addr_id a);
    id_parses = keys.public_from_as (b.addr_id a);
    urls_parse =
        parse_all-map b.relay_from_str b.relay_to_string laws.relay_from_to (b.relay_urls a);
    socks_parse = (reparsed (b.ip_addrs a)).1;
    is_assembled = refl;
  }

  -- If iroh's types keep `KeyLaws` and `AddrLaws`: a `connect` to what `addr` of an endpoint
  -- reported asks iroh to connect to an address with the same id and the same relay URLs as the
  -- one that iroh gave then, and with socket addresses of exactly the same texts. (The text of an
  -- IPv6 address leaves its flow information out.)
  pub connect-addr :
      (ep other : n.Endpoint) (alpn : List ℕ) (w v : q.World)
      → (target : b.EndpointAddr) × (connect b q n ep (addr b q n other v) alpn w
          ≡ spawn (codes "connect") (n.connect ep target alpn) w)
        × (b.addr_id target ≡ b.addr_id (n.addr other v))
        × (b.relay_urls target ≡ b.relay_urls (n.addr other v))
        × ((s : Str)
            → Elem s (map b.socket_to_string (b.ip_addrs target))
              ↔ Elem s (map b.socket_to_string (b.ip_addrs (n.addr other v))))
  unfolding connect addr
  connect-addr ep other alpn w v =
      let a = n.addr other v in
      let (socks, parse, same) = reparsed (b.ip_addrs a) in
      let target = assembled b (b.addr_id a) (b.relay_urls a) socks in
      let built =
        (build_endpoint_addr-Parsed b (parts_from_endpoint_addr b a) target).1 (self_Parsed a) in
      (
        target,
        rw built refl,
        assembled-id b laws (b.addr_id a) (b.relay_urls a) socks,
        laws.relay_order target a
            (λ u. assembled-relays b laws (b.addr_id a) (b.relay_urls a) socks u),
        λ s.
            subst (λ texts. Elem s (map b.socket_to_string (b.ip_addrs target)) ↔ Elem s texts) same
              (texts_of_assembled b laws (b.addr_id a) (b.relay_urls a) socks s),
      )

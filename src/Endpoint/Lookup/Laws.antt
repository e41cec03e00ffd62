-- ===== src/Endpoint/Lookup/Laws.antt =====
-- The address lookup: which items the stream of a `resolve` call has.
use iroh_dart.Prelude.{
  ℕ, ◌≡◌, refl, sym, ap, ◌∙◌, ◌↔◌, inl, inr, Option, none, some, List, [], ◌∷◌, ◌++◌, map,
  append_assoc, append-nil, Str, Result, ok, err, ◌>>=◌, to_option, Result-cases, >>=-eq-ok,
}
use iroh_dart.Iroh.{IrohBase, KeyLaws}
use iroh_dart.Iroh.Quic.{Quic}
use iroh_dart.Iroh.Binding.{Binding}
use iroh_dart.Key.{EndpointAddrParts, build_endpoint_addr}
use iroh_dart.Key.Addr.{parse_all, assembled}
use iroh_dart.Key.RoundTrip.{Parsed, build_endpoint_addr-Parsed}
use iroh_dart.Runtime.Job.{Job, returns}
use iroh_dart.Endpoint.Lookup.{
  provenance, push_relays, push_ips, build_item, yielded, answered, resolve,
}

-- Pushing one address and then the rest, or all of them at once.
push-rest :
    {A T : Type 0} (f : A → T) (addrs : List T) (a : A) (r : Result (List A))
    → (do rest ← r; ok ((addrs ++ (f a ∷ [])) ++ map f rest))
      ≡ (do all ← (do rest ← r; ok (a ∷ rest)); ok (addrs ++ map f all))
push-rest f addrs a (err e) = refl
push-rest f addrs a (ok rest) = ap ok (append_assoc addrs (f a ∷ []) (map f rest))

module _ (b : IrohBase) (q : Quic) (n : Binding b q) where
  push_relays-eq :
      (texts : List Str) (addrs : List n.TransportAddr)
      → push_relays b q n texts addrs
        ≡ (do urls ← parse_all b.relay_from_str texts; ok (addrs ++ map n.relay_addr urls))
  unfolding push_relays
  push_relays-eq [] addrs = ap ok (sym (append-nil addrs))
  push_relays-eq (t ∷ ts) addrs = elim (Result-cases (b.relay_from_str t)) [
    | inl (u, e) ↦
        rw (e, push_relays-eq ts (addrs ++ (n.relay_addr u ∷ [])))
          (push-rest n.relay_addr addrs u (parse_all b.relay_from_str ts))
    | inr (x, e) ↦ rw e
  ]

  push_ips-eq :
      (texts : List Str) (addrs : List n.TransportAddr)
      → push_ips b q n texts addrs
        ≡ (do socks ← parse_all b.socket_from_str texts; ok (addrs ++ map n.ip_addr socks))
  unfolding push_ips
  push_ips-eq [] addrs = ap ok (sym (append-nil addrs))
  push_ips-eq (t ∷ ts) addrs = elim (Result-cases (b.socket_from_str t)) [
    | inl (a, e) ↦
        rw (e, push_ips-eq ts (addrs ++ (n.ip_addr a ∷ [])))
          (push-rest n.ip_addr addrs a (parse_all b.socket_from_str ts))
    | inr (x, e) ↦ rw e
  ]

  -- The item of these addresses: the relays first, then the socket addresses, each in its order.
  abbrev pub item_of : b.PublicKey → List b.RelayUrl → List b.SocketAddr → n.Item
  item_of endpoint_id urls socks =
      n.item (n.from_parts endpoint_id (map n.relay_addr urls ++ map n.ip_addr socks)) provenance
        none

  pub build_item_lem :
      (endpoint_id : b.PublicKey) (parts : EndpointAddrParts)
      → build_item b q n endpoint_id parts ≡ (do
        urls ← parse_all b.relay_from_str parts.relay_urls
        socks ← parse_all b.socket_from_str parts.ip_addrs
        ok (item_of endpoint_id urls socks))
  unfolding build_item
  build_item_lem endpoint_id parts =
      elim (Result-cases (parse_all b.relay_from_str parts.relay_urls)) [
        | inl (urls, e) ↦ (elim (Result-cases (parse_all b.socket_from_str parts.ip_addrs)) [
          | inl (socks, f) ↦
              rw
                (
                  push_relays-eq parts.relay_urls [],
                  e,
                  push_ips-eq parts.ip_addrs (map n.relay_addr urls),
                  f,
                )
                refl
          | inr (x, f) ↦
              rw
                (
                  push_relays-eq parts.relay_urls [],
                  e,
                  push_ips-eq parts.ip_addrs (map n.relay_addr urls),
                  f,
                )
                refl
        ])
        | inr (x, e) ↦ rw (push_relays-eq parts.relay_urls [], e) refl
      ]

  -- One item, where all texts parse, and none otherwise.
  abbrev pub items_of :
      b.PublicKey → Result (List b.RelayUrl) → Result (List b.SocketAddr) → List n.Item
  items_of endpoint_id (ok urls) (ok socks) = item_of endpoint_id urls socks ∷ []
  items_of endpoint_id _ _ = []

  yielded-items :
      (endpoint_id : b.PublicKey) (r : Result (List b.RelayUrl)) (s : Result (List b.SocketAddr))
      → yielded b q n (to_option (do urls ← r; socks ← s; ok (item_of endpoint_id urls socks)))
        ≡ items_of endpoint_id r s
  yielded-items endpoint_id (err e) s = refl
  yielded-items endpoint_id (ok urls) (err e) = refl
  yielded-items endpoint_id (ok urls) (ok socks) = refl

  -- What the callback's answer comes to.
  abbrev pub items_answered : b.PublicKey → Option EndpointAddrParts → List n.Item
  items_answered endpoint_id none = []
  items_answered endpoint_id (some parts) =
      items_of endpoint_id (parse_all b.relay_from_str parts.relay_urls)
        (parse_all b.socket_from_str parts.ip_addrs)

  answered-items :
      (endpoint_id : b.PublicKey) (answer : Option EndpointAddrParts)
      → yielded b q n (answered b q n endpoint_id answer) ≡ items_answered endpoint_id answer
  answered-items endpoint_id none = refl
  answered-items endpoint_id (some parts) =
      rw (build_item_lem endpoint_id parts) (yielded-items endpoint_id _ _)

  -- A `resolve` calls the callback with the bytes of the endpoint id. Where it answers with `None`,
  -- the stream is empty; where it answers with parts, the stream has one item, for that id and with
  -- the addresses of the parts, if all the relay URLs and socket addresses parse, and none
  -- otherwise; the id in the parts plays no role.
  pub resolve_items :
      (callback : List ℕ → Job q.World (Option EndpointAddrParts)) (endpoint_id : b.PublicKey)
      (w : q.World) (answer : Option EndpointAddrParts)
      → (callback (b.public_as_bytes endpoint_id) w).0 ≡ returns answer
      → resolve b q n callback endpoint_id w ≡ (
        returns (items_answered endpoint_id answer),
        (callback (b.public_as_bytes endpoint_id) w).1,
      )
  unfolding resolve
  resolve_items callback endpoint_id w answer h = rw (h, answered-items endpoint_id answer) refl

  -- If keys keep their bytes: for parts with the id that was asked for, `build_item` succeeds
  -- exactly where `build_endpoint_addr`, and so `connect`, accepts the parts.
  pub build_item-build_endpoint_addr :
      (endpoint_id : b.PublicKey) (parts : EndpointAddrParts)
      → KeyLaws b
      → parts.id ≡ b.public_as_bytes endpoint_id
      → ((item : n.Item) × (build_item b q n endpoint_id parts ≡ ok item))
        ↔ ((a : b.EndpointAddr) × (build_endpoint_addr b parts ≡ ok a))
  build_item-build_endpoint_addr endpoint_id parts laws same = (to, from)
    where
      to :
          (item : n.Item) × (build_item b q n endpoint_id parts ≡ ok item)
          → (a : b.EndpointAddr) × (build_endpoint_addr b parts ≡ ok a)
      to (item, h) =
          let (urls, u, h') = >>=-eq-ok _ _ (sym (build_item_lem endpoint_id parts) ∙ h) in
          let (socks, s, h'') = >>=-eq-ok _ _ h' in
          let a = assembled b endpoint_id urls socks in
          (
            a,
            (build_endpoint_addr-Parsed b parts a).1 (record {
              key = endpoint_id;
              urls = urls;
              socks = socks;
              id_length = rw same (laws.length-public endpoint_id);
              id_parses = rw same (laws.public_from_as endpoint_id);
              urls_parse = u;
              socks_parse = s;
              is_assembled = refl;
            }),
          )

      from :
          (a : b.EndpointAddr) × (build_endpoint_addr b parts ≡ ok a)
          → (item : n.Item) × (build_item b q n endpoint_id parts ≡ ok item)
      from (a, h) =
          let p : Parsed b parts a = (build_endpoint_addr-Parsed b parts a).0 h in
          (
            item_of endpoint_id p.urls p.socks,
            build_item_lem endpoint_id parts ∙ rw (p.urls_parse, p.socks_parse) refl,
          )

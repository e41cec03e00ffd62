-- ===== src/Key/Addr.antt =====
-- Endpoint addresses: what `build_endpoint_addr` accepts, and what the accessors give back.
use mathlib.Core.List.{foldl}
use iroh_dart.Prelude.{
  ◌≡◌, refl, ap, ◌∙◌, subst, ◌↔◌, ◌⊎◌, inl, inr, List, [], ◌∷◌, map, Str, Result, ok, ◌>>=◌,
  >>=-assoc, Result-cases, Elem, Elem-map_mono, arith,
}
use iroh_dart.Iroh.{IrohBase, AddrLaws}
use iroh_dart.Key.{
  EndpointAddrParts, to_arr32, add_relay_urls, add_ip_addrs, build_endpoint_addr,
  parts_from_endpoint_addr,
}

-- Every text parses: the values, or the error of the first that does not.
abbrev pub parse_all : {A : Type 0} → (Str → Result A) → List Str → Result (List A)
parse_all parse [] = ok []
parse_all parse (s ∷ ss) = do a ← parse s; rest ← parse_all parse ss; ok (a ∷ rest)

pub parse_all-map :
    {A : Type 0} (parse : Str → Result A) (print : A → Str)
    → ((a : A) → parse (print a) ≡ ok a)
    → (xs : List A) → parse_all parse (map print xs) ≡ ok xs
parse_all-map parse print back [] = refl
parse_all-map parse print back (x ∷ xs) = rw (back x, parse_all-map parse print back xs)

regroup : {A B C D E : Type 0} → (A ↔ (B ⊎ C)) → (C ↔ (D ⊎ E)) → A ↔ ((D ⊎ B) ⊎ E)
regroup {A} {B} {C} {D} {E} f g = (λ a. to (f.0 a), λ x. f.1 (from x))
  where
    inner : C → (D ⊎ B) ⊎ E
    inner c = elim (g.0 c) [ inl d ↦ inl (inl d) | inr e ↦ inr e ]

    to : B ⊎ C → (D ⊎ B) ⊎ E
    to (inl x) = inl (inr x)
    to (inr c) = inner c

    from : (D ⊎ B) ⊎ E → B ⊎ C
    from (inl (inl d)) = inr (g.1 (inl d))
    from (inl (inr x)) = inl x
    from (inr e) = inr (g.1 (inr e))

-- Nothing is in an empty list.
drop_empty : {A P Q : Type 0} (xs : List A) (v : A) → (P ↔ (Q ⊎ Elem v xs)) → xs ≡ [] → P ↔ Q
drop_empty {A} {P} {Q} xs v f e = (λ p. left (f.0 p), λ q. f.1 (inl q))
  where
    left : Q ⊎ Elem v xs → Q
    left (inl q) = q
    left (inr m) = absurd (subst (Elem v) e m)

module _ (b : IrohBase) where
  add_relay_urls-eq :
      (us : List Str) (addr : b.EndpointAddr)
      → add_relay_urls b us addr
        ≡ (do urls ← parse_all b.relay_from_str us; ok (foldl b.with_relay_url addr urls))
  unfolding add_relay_urls
  add_relay_urls-eq [] addr = refl
  add_relay_urls-eq (u ∷ us) addr = elim (Result-cases (b.relay_from_str u)) [
    | inl (url, e) ↦ rw e (ground (arith, add_relay_urls-eq us (b.with_relay_url addr url)))
    | inr (x, e) ↦ rw e
  ]

  add_ip_addrs-eq :
      (ips : List Str) (addr : b.EndpointAddr)
      → add_ip_addrs b ips addr
        ≡ (do socks ← parse_all b.socket_from_str ips; ok (foldl b.with_ip_addr addr socks))
  unfolding add_ip_addrs
  add_ip_addrs-eq [] addr = refl
  add_ip_addrs-eq (u ∷ us) addr = elim (Result-cases (b.socket_from_str u)) [
    | inl (sock, e) ↦ rw e (ground (arith, add_ip_addrs-eq us (b.with_ip_addr addr sock)))
    | inr (x, e) ↦ rw e
  ]

  -- An address of these parts: the URLs and socket addresses added one by one to an empty address.
  abbrev pub assembled : b.PublicKey → List b.RelayUrl → List b.SocketAddr → b.EndpointAddr
  assembled pk urls socks = foldl b.with_ip_addr (foldl b.with_relay_url (b.new pk) urls) socks

  -- `build_endpoint_addr` checks the length of the id, the key, the relay URLs and the socket
  -- addresses, in this order, and fails with the error of the first that is wrong. Otherwise it
  -- assembles the address from the parsed values.
  pub build_endpoint_addr_lem :
      (parts : EndpointAddrParts)
      → build_endpoint_addr b parts ≡ (do
        arr ← to_arr32 parts.id
        pk ← b.public_from_bytes arr
        urls ← parse_all b.relay_from_str parts.relay_urls
        socks ← parse_all b.socket_from_str parts.ip_addrs
        ok (assembled pk urls socks))
  unfolding build_endpoint_addr
  build_endpoint_addr_lem parts = simp (add_relay_urls-eq, add_ip_addrs-eq, >>=-assoc)

-- These parts show this key, and exactly these addresses in their canonical forms.
abbrev pub Reads :
    (b : IrohBase) → b.PublicKey → List b.RelayUrl → List b.SocketAddr → EndpointAddrParts → Type 0
Reads b pk urls socks q =
    (q.id ≡ b.public_as_bytes pk)
    × ((s : Str) → Elem s q.relay_urls ↔ Elem s (map b.relay_to_string urls))
    × ((s : Str) → Elem s q.ip_addrs ↔ Elem s (map b.socket_to_string socks))

module _ (b : IrohBase) (laws : AddrLaws b) where
  id-relays :
      (urls : List b.RelayUrl) (a : b.EndpointAddr)
      → b.addr_id (foldl b.with_relay_url a urls) ≡ b.addr_id a
  id-relays [] a = refl
  id-relays (u ∷ us) a = id-relays us (b.with_relay_url a u) ∙ laws.id-with_relay_url a u

  id-ips :
      (socks : List b.SocketAddr) (a : b.EndpointAddr)
      → b.addr_id (foldl b.with_ip_addr a socks) ≡ b.addr_id a
  id-ips [] a = refl
  id-ips (s ∷ ss) a = id-ips ss (b.with_ip_addr a s) ∙ laws.id-with_ip_addr a s

  relays-ips :
      (socks : List b.SocketAddr) (a : b.EndpointAddr)
      → b.relay_urls (foldl b.with_ip_addr a socks) ≡ b.relay_urls a
  relays-ips [] a = refl
  relays-ips (s ∷ ss) a = relays-ips ss (b.with_ip_addr a s) ∙ laws.relay_urls-with_ip_addr a s

  ips-relays :
      (urls : List b.RelayUrl) (a : b.EndpointAddr)
      → b.ip_addrs (foldl b.with_relay_url a urls) ≡ b.ip_addrs a
  ips-relays [] a = refl
  ips-relays (u ∷ us) a = ips-relays us (b.with_relay_url a u) ∙ laws.ip_addrs-with_relay_url a u

  relays-relays :
      (urls : List b.RelayUrl) (a : b.EndpointAddr) (v : b.RelayUrl)
      → Elem v (b.relay_urls (foldl b.with_relay_url a urls))
        ↔ (Elem v urls ⊎ Elem v (b.relay_urls a))
  relays-relays [] a v = (inr, elim [ inl h ↦ absurd h | inr h ↦ h ])
  relays-relays (u ∷ us) a v =
      regroup (relays-relays us (b.with_relay_url a u) v) (laws.relay_urls-with_relay_url a u v)

  ips-ips :
      (socks : List b.SocketAddr) (a : b.EndpointAddr) (v : b.SocketAddr)
      → Elem v (b.ip_addrs (foldl b.with_ip_addr a socks)) ↔ (Elem v socks ⊎ Elem v (b.ip_addrs a))
  ips-ips [] a v = (inr, elim [ inl h ↦ absurd h | inr h ↦ h ])
  ips-ips (s ∷ ss) a v =
      regroup (ips-ips ss (b.with_ip_addr a s) v) (laws.ip_addrs-with_ip_addr a s v)

  -- An assembled address has the key, exactly the URLs and exactly the socket addresses given.
  pub assembled-id :
      (pk : b.PublicKey) (urls : List b.RelayUrl) (socks : List b.SocketAddr)
      → b.addr_id (assembled b pk urls socks) ≡ pk
  assembled-id pk urls socks =
      id-ips socks (foldl b.with_relay_url (b.new pk) urls)
      ∙ id-relays urls (b.new pk)
      ∙ laws.id-new pk

  pub assembled-relays :
      (pk : b.PublicKey) (urls : List b.RelayUrl) (socks : List b.SocketAddr) (v : b.RelayUrl)
      → Elem v (b.relay_urls (assembled b pk urls socks)) ↔ Elem v urls
  assembled-relays pk urls socks v =
      rw (relays-ips socks (foldl b.with_relay_url (b.new pk) urls))
        (drop_empty _ v (relays-relays urls (b.new pk) v) (laws.relay_urls-new pk))

  pub assembled-ips :
      (pk : b.PublicKey) (urls : List b.RelayUrl) (socks : List b.SocketAddr) (v : b.SocketAddr)
      → Elem v (b.ip_addrs (assembled b pk urls socks)) ↔ Elem v socks
  assembled-ips pk urls socks v =
      drop_empty _ v (ips-ips socks (foldl b.with_relay_url (b.new pk) urls) v)
        (ips-relays urls (b.new pk) ∙ laws.ip_addrs-new pk)

  pub texts_of_assembled :
      (pk : b.PublicKey) (urls : List b.RelayUrl) (socks : List b.SocketAddr) (s : Str)
      → Elem s (map b.socket_to_string (b.ip_addrs (assembled b pk urls socks)))
        ↔ Elem s (map b.socket_to_string socks)
  texts_of_assembled pk urls socks s = (
    Elem-map_mono _ _ _ (λ v. (assembled-ips pk urls socks v).0) s,
    Elem-map_mono _ _ _ (λ v. (assembled-ips pk urls socks v).1) s,
  )

  -- The parts of an assembled address.
  pub parts-assembled :
      (pk : b.PublicKey) (urls : List b.RelayUrl) (socks : List b.SocketAddr)
      → Reads b pk urls socks (parts_from_endpoint_addr b (assembled b pk urls socks))
  unfolding parts_from_endpoint_addr
  parts-assembled pk urls socks = (
    ap b.public_as_bytes (assembled-id pk urls socks),
    λ s. (
      Elem-map_mono _ _ _ (λ v. (assembled-relays pk urls socks v).0) s,
      Elem-map_mono _ _ _ (λ v. (assembled-relays pk urls socks v).1) s,
    ),
    texts_of_assembled pk urls socks,
  )

-- ===== src/Endpoint/Lookup.antt =====
-- packages/iroh_quic/rust/src/api/address_lookup.rs: the address lookup that asks a Dart callback,
-- and the bind with it.
pub mod Laws
use iroh_dart.Prelude.{
  ℕ, Option, none, some, List, [], ◌∷◌, ◌++◌, Str, Result, ok, ◌>>=◌, to_option,
}
use iroh_dart.Prelude.Int.{ℤ}
use iroh_dart.Iroh.{IrohBase}
use iroh_dart.Iroh.Quic.{Quic}
use iroh_dart.Iroh.Binding.{Binding}
use iroh_dart.Key.{EndpointAddrParts}
use iroh_dart.Runtime.Job.{Job}
use iroh_dart.Endpoint.Bodies.{resolve_body}
use iroh_dart.Endpoint.{bind_checked, checks}

-- "dart-address-lookup"
abbrev pub provenance : Str
provenance =
    b'd' ∷ b'a' ∷ b'r' ∷ b't' ∷ b'-' ∷ b'a' ∷ b'd' ∷ b'd' ∷ b'r' ∷ b'e' ∷ b's' ∷ b's' ∷ b'-' ∷ b'l'
    ∷ b'o' ∷ b'o' ∷ b'k' ∷ b'u' ∷ b'p' ∷ []

module _ (b : IrohBase) (q : Quic) (n : Binding b q) where
  -- The two loops of `build_item`, which push onto `addrs`.
  pub push_relays : List Str → List n.TransportAddr → Result (List n.TransportAddr)
  push_relays [] addrs = ok addrs
  push_relays (url ∷ urls) addrs = do
    u ← b.relay_from_str url
    push_relays urls (addrs ++ (n.relay_addr u ∷ []))

  pub push_ips : List Str → List n.TransportAddr → Result (List n.TransportAddr)
  push_ips [] addrs = ok addrs
  push_ips (ip ∷ ips) addrs = do
    a ← b.socket_from_str ip
    push_ips ips (addrs ++ (n.ip_addr a ∷ []))

  pub build_item : b.PublicKey → EndpointAddrParts → Result n.Item
  build_item endpoint_id parts = do
    relays ← push_relays parts.relay_urls []
    addrs ← push_ips parts.ip_addrs relays
    ok (n.item (n.from_parts endpoint_id addrs) provenance none)

  -- `yield`, where there is an item.
  abbrev pub yielded : Option n.Item → List n.Item
  yielded none = []
  yielded (some item) = item ∷ []

  abbrev pub answered : b.PublicKey → Option EndpointAddrParts → Option n.Item
  answered endpoint_id none = none
  answered endpoint_id (some parts) = to_option (build_item endpoint_id parts)

  unfoldable pub resolve :
      (List ℕ → Job q.World (Option EndpointAddrParts)) → b.PublicKey → Job q.World (List n.Item)
  resolve callback endpoint_id =
      resolve_body b q n callback (λ answer. yielded (answered endpoint_id answer)) endpoint_id

  unfoldable pub endpoint_bind_with_address_lookup :
      Option (List ℕ)
      → List (List ℕ)
      → ℤ
      → List Str
      → (List ℕ → Job q.World (Option EndpointAddrParts))
      → q.World
      → Result n.Endpoint × q.World
  unfolding resolve
  endpoint_bind_with_address_lookup secret_key alpns kind urls callback w =
      bind_checked b q n (checks b q n secret_key kind urls)
        (λ mode.
          n.address_lookup (resolve callback)
            (n.clear_address_lookup (n.alpns alpns (n.relay_mode mode n.builder))))
        w

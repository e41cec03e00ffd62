-- ===== src/Iroh.antt =====
-- The third-party code that the crate calls, as parameters: iroh-base (keys, addresses), the
-- standard `SocketAddr`, and postcard. The laws are what their documentation promises.
pub mod Toy
pub mod Quic
pub mod Binding
pub mod Routing
use iroh_dart.Prelude.{ℕ, ◌≡◌, ◌↔◌, ◌⊎◌, Bool, List, [], Str, Result, ok, err, length, Elem}

pub record IrohBase : Type 1 where
  pub SecretKey : Type 0
  pub PublicKey : Type 0
  pub Signature : Type 0
  pub RelayUrl : Type 0
  pub SocketAddr : Type 0
  pub EndpointAddr : Type 0
  pub secret_from_bytes : List ℕ → SecretKey
  pub secret_to_bytes : SecretKey → List ℕ
  pub public : SecretKey → PublicKey
  pub sign : SecretKey → List ℕ → Signature
  pub public_from_bytes : List ℕ → Result PublicKey
  pub public_as_bytes : PublicKey → List ℕ
  pub signature_from_bytes : List ℕ → Signature
  pub signature_to_bytes : Signature → List ℕ
  pub verify : PublicKey → List ℕ → Signature → Result (Unit {0})
  pub to_z32 : PublicKey → Str
  pub from_z32 : Str → Result PublicKey
  -- `Display` and `FromStr` of `PublicKey`.
  pub public_to_string : PublicKey → Str
  pub public_from_str : Str → Result PublicKey
  pub fmt_short : PublicKey → Str
  pub relay_from_str : Str → Result RelayUrl
  pub relay_to_string : RelayUrl → Str
  pub socket_from_str : Str → Result SocketAddr
  pub socket_to_string : SocketAddr → Str
  pub new : PublicKey → EndpointAddr
  pub with_relay_url : EndpointAddr → RelayUrl → EndpointAddr
  pub with_ip_addr : EndpointAddr → SocketAddr → EndpointAddr
  pub addr_id : EndpointAddr → PublicKey
  pub relay_urls : EndpointAddr → List RelayUrl
  pub ip_addrs : EndpointAddr → List SocketAddr
  pub to_allocvec : EndpointAddr → Result (List ℕ)
  pub addr_from_bytes : List ℕ → Result EndpointAddr

-- Keys and signatures keep their bytes; the text forms parse back; a signature verifies.
pub record KeyLaws (b : IrohBase) : Type 0 where
  pub length-public : (k : b.PublicKey) → length (b.public_as_bytes k) ≡ 32
  pub public_from_as : (k : b.PublicKey) → b.public_from_bytes (b.public_as_bytes k) ≡ ok k
  pub public_as_from :
      (bytes : List ℕ) (k : b.PublicKey)
      → b.public_from_bytes bytes ≡ ok k
      → b.public_as_bytes k ≡ bytes
  pub length-secret : (k : b.SecretKey) → length (b.secret_to_bytes k) ≡ 32
  pub secret_from_to : (k : b.SecretKey) → b.secret_from_bytes (b.secret_to_bytes k) ≡ k
  pub length-signature : (s : b.Signature) → length (b.signature_to_bytes s) ≡ 64
  pub signature_from_to : (s : b.Signature) → b.signature_from_bytes (b.signature_to_bytes s) ≡ s
  pub verify-sign :
      (k : b.SecretKey) (msg : List ℕ) → b.verify (b.public k) msg (b.sign k msg) ≡ ok tt
  pub from_to_z32 : (k : b.PublicKey) → b.from_z32 (b.to_z32 k) ≡ ok k
  pub from_to_string : (k : b.PublicKey) → b.public_from_str (b.public_to_string k) ≡ ok k

-- An `EndpointAddr` is an id with a set of transport addresses. The accessors read that set in the
-- order of its elements (it is a `BTreeSet`), so equal members give equal lists; a relay URL prints
-- and parses back. The text of a socket address parses to an address with the same text (the flow
-- information of an IPv6 address is not in the text).
pub record AddrLaws (b : IrohBase) : Type 0 where
  pub relay_from_to : (u : b.RelayUrl) → b.relay_from_str (b.relay_to_string u) ≡ ok u
  pub socket_from_to :
      (a : b.SocketAddr)
      → (c : b.SocketAddr) × (b.socket_from_str (b.socket_to_string a) ≡ ok c)
        × (b.socket_to_string c ≡ b.socket_to_string a)
  pub id-new : (k : b.PublicKey) → b.addr_id (b.new k) ≡ k
  pub id-with_relay_url :
      (a : b.EndpointAddr) (u : b.RelayUrl) → b.addr_id (b.with_relay_url a u) ≡ b.addr_id a
  pub id-with_ip_addr :
      (a : b.EndpointAddr) (s : b.SocketAddr) → b.addr_id (b.with_ip_addr a s) ≡ b.addr_id a
  pub relay_urls-new : (k : b.PublicKey) → b.relay_urls (b.new k) ≡ []
  pub ip_addrs-new : (k : b.PublicKey) → b.ip_addrs (b.new k) ≡ []
  pub relay_urls-with_relay_url :
      (a : b.EndpointAddr) (u v : b.RelayUrl)
      → Elem v (b.relay_urls (b.with_relay_url a u)) ↔ ((v ≡ u) ⊎ Elem v (b.relay_urls a))
  pub relay_urls-with_ip_addr :
      (a : b.EndpointAddr) (s : b.SocketAddr) → b.relay_urls (b.with_ip_addr a s) ≡ b.relay_urls a
  pub ip_addrs-with_ip_addr :
      (a : b.EndpointAddr) (s t : b.SocketAddr)
      → Elem t (b.ip_addrs (b.with_ip_addr a s)) ↔ ((t ≡ s) ⊎ Elem t (b.ip_addrs a))
  pub ip_addrs-with_relay_url :
      (a : b.EndpointAddr) (u : b.RelayUrl) → b.ip_addrs (b.with_relay_url a u) ≡ b.ip_addrs a
  pub relay_order :
      (a c : b.EndpointAddr)
      → ((u : b.RelayUrl) → Elem u (b.relay_urls a) ↔ Elem u (b.relay_urls c))
      → b.relay_urls a ≡ b.relay_urls c
  pub ip_order :
      (a c : b.EndpointAddr)
      → ((s : b.SocketAddr) → Elem s (b.ip_addrs a) ↔ Elem s (b.ip_addrs c))
      → b.ip_addrs a ≡ b.ip_addrs c

-- Postcard decodes what it encodes, for addresses whose socket addresses are plain: IPv4 addresses,
-- and IPv6 addresses without flow information and scope id, which the encoding leaves out.
pub record PostcardLaws (b : IrohBase) (IsPlain : b.SocketAddr → Type 0) : Type 0 where
  pub decode-encode :
      (a : b.EndpointAddr) (bytes : List ℕ)
      → ((s : b.SocketAddr) → Elem s (b.ip_addrs a) → IsPlain s)
      → b.to_allocvec a ≡ ok bytes
      → b.addr_from_bytes bytes ≡ ok a

-- ===== src/Endpoint.antt =====
-- packages/iroh_quic/rust/src/api/endpoint.rs: binding an endpoint, and its calls. An `Endpoint` of
-- the crate is a wrapper of iroh's, and is modelled by it.
pub mod Bodies
pub mod Lookup
pub mod Laws
pub mod Calls
pub mod Tests
use iroh_dart.Prelude.{
  codes, ℕ, zero, suc, Bool, Option, none, some, List, map, Str, Error, invalid_relay_mode, Result,
  ok, err, ◌>>=◌,
}
use iroh_dart.Prelude.Int.{ℤ, pos, negsuc}
use iroh_dart.Iroh.{IrohBase}
use iroh_dart.Iroh.Quic.{Quic}
use iroh_dart.Iroh.Binding.{Binding}
use iroh_dart.Key.{EndpointAddrParts, to_arr32, build_endpoint_addr, parts_from_endpoint_addr}
use iroh_dart.Key.Addr.{parse_all}
use iroh_dart.Runtime.Job.{spawn}
use iroh_dart.Endpoint.Bodies.{accept_body}
use iroh_dart.Connection.Incoming.{Incoming, wrap}
use iroh_dart.Connection.Streams.{map_ok, map_some}

module _ (b : IrohBase) (q : Quic) (n : Binding b q) where
  -- The arm of 3: `collect` stops at the first URL that does not parse.
  abbrev custom_mode : List Str → Result n.RelayMode
  custom_mode custom = do urls ← parse_all b.relay_from_str custom; ok (n.relay_custom urls)

  unfoldable pub map_relay_mode : ℤ → List Str → Result n.RelayMode
  map_relay_mode (pos zero) custom = ok n.relay_default
  map_relay_mode (pos (suc zero)) custom = ok n.relay_disabled
  map_relay_mode (pos (suc (suc zero))) custom = ok n.relay_staging
  map_relay_mode (pos (suc (suc (suc zero)))) custom = custom_mode custom
  map_relay_mode _ custom = err invalid_relay_mode

  abbrev pub secret_of : Option (List ℕ) → Result (Option b.SecretKey)
  secret_of none = ok none
  secret_of (some bytes) = do arr ← to_arr32 bytes; ok (some (b.secret_from_bytes arr))

  abbrev pub with_secret : Option b.SecretKey → n.Builder → n.Builder
  with_secret none builder = builder
  with_secret (some sk) builder = n.secret_key sk builder

  -- The checks before the task, and the task with what they give.
  abbrev pub bind_checked :
      Result (n.RelayMode × Option b.SecretKey)
      → (n.RelayMode → n.Builder)
      → q.World
      → Result n.Endpoint × q.World
  bind_checked (err e) prepare w = (err e, w)
  bind_checked (ok (mode, sk)) prepare w =
      spawn (codes "endpoint bind") (n.bind (with_secret sk (prepare mode))) w

  abbrev pub checks : Option (List ℕ) → ℤ → List Str → Result (n.RelayMode × Option b.SecretKey)
  checks secret_key kind urls = do
    mode ← map_relay_mode kind urls
    sk ← secret_of secret_key
    ok (mode, sk)

  unfoldable pub endpoint_bind :
      Option (List ℕ) → List (List ℕ) → ℤ → List Str → q.World → Result n.Endpoint × q.World
  endpoint_bind secret_key alpns kind urls w =
      bind_checked (checks secret_key kind urls)
        (λ mode. n.alpns alpns (n.relay_mode mode n.builder)) w

  pub id : n.Endpoint → List ℕ
  id ep = b.public_as_bytes (n.id ep)

  pub addr : n.Endpoint → q.World → EndpointAddrParts
  addr ep w = parts_from_endpoint_addr b (n.addr ep w)

  pub bound_sockets : n.Endpoint → q.World → List Str
  bound_sockets ep w = map b.socket_to_string (n.bound_sockets ep w)

  pub set_alpns : n.Endpoint → List (List ℕ) → q.World → q.World
  set_alpns ep alpns w = n.set_alpns ep alpns w

  pub is_closed : n.Endpoint → q.World → Bool
  is_closed ep w = n.is_closed ep w

  abbrev pub connect_to :
      n.Endpoint → Result b.EndpointAddr → List ℕ → q.World → Result q.Connection × q.World
  connect_to ep (err e) alpn w = (err e, w)
  connect_to ep (ok target) alpn w = spawn (codes "connect") (n.connect ep target alpn) w

  pub connect : n.Endpoint → EndpointAddrParts → List ℕ → q.World → Result q.Connection × q.World
  connect ep parts alpn w = connect_to ep (build_endpoint_addr b parts) alpn w

  pub accept : n.Endpoint → q.World → Result (Option q.Connection) × q.World
  accept ep w = spawn (codes "accept") (accept_body b q n ep) w

  pub accept_incoming : n.Endpoint → q.World → Result (Option (Incoming q.Incoming)) × q.World
  accept_incoming ep w =
      let (r, w') = spawn (codes "accept_incoming") (n.accept ep) w in
      (map_ok (map_some (wrap q)) r, w')

  -- The `JoinError` is ignored.
  pub close : n.Endpoint → q.World → q.World
  close ep w = (n.close ep w).1

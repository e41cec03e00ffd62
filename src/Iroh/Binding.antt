-- ===== src/Iroh/Binding.antt =====
-- iroh's endpoints, as parameters: the builder that binds one, its calls, and the items of an
-- address lookup.
use iroh_dart.Prelude.{ℕ, Bool, List, Option, Str}
use iroh_dart.Runtime.Job.{Job}
use iroh_dart.Iroh.{IrohBase}
use iroh_dart.Iroh.Quic.{Quic}

pub record Binding (b : IrohBase) (q : Quic) : Type 1 where
  pub RelayMode : Type 0
  pub Builder : Type 0
  pub Endpoint : Type 0
  pub TransportAddr : Type 0
  pub EndpointInfo : Type 0
  pub Item : Type 0
  pub relay_default : RelayMode
  pub relay_disabled : RelayMode
  pub relay_staging : RelayMode
  pub relay_custom : List b.RelayUrl → RelayMode
  -- `Endpoint::builder(presets::N0)`
  pub builder : Builder
  pub relay_mode : RelayMode → Builder → Builder
  pub alpns : List (List ℕ) → Builder → Builder
  pub secret_key : b.SecretKey → Builder → Builder
  pub clear_address_lookup : Builder → Builder
  -- The lookup is what its `resolve` does: the stream of an endpoint id, to its end.
  pub address_lookup : (b.PublicKey → Job q.World (List Item)) → Builder → Builder
  pub bind : Builder → Job q.World Endpoint
  pub id : Endpoint → b.PublicKey
  pub addr : Endpoint → q.World → b.EndpointAddr
  pub bound_sockets : Endpoint → q.World → List b.SocketAddr
  pub set_alpns : Endpoint → List (List ℕ) → q.World → q.World
  pub is_closed : Endpoint → q.World → Bool
  pub connect : Endpoint → b.EndpointAddr → List ℕ → Job q.World q.Connection
  pub accept : Endpoint → Job q.World (Option q.Incoming)
  pub close : Endpoint → Job q.World (Unit {0})
  pub relay_addr : b.RelayUrl → TransportAddr
  pub ip_addr : b.SocketAddr → TransportAddr
  -- `EndpointInfo::from_parts`, with the addresses collected into its data.
  pub from_parts : b.PublicKey → List TransportAddr → EndpointInfo
  pub item : EndpointInfo → Str → Option ℕ → Item

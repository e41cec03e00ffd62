-- ===== src/Iroh/Routing.antt =====
-- iroh's routers over a type of endpoints, as parameters.
use iroh_dart.Prelude.{ℕ, List, Option, Str}
use iroh_dart.Runtime.Job.{Job}
use iroh_dart.Iroh.Quic.{Quic}

pub record Routing (q : Quic) (Endpoint : Type 0) : Type 1 where
  pub RouterBuilder : Type 0
  pub Router : Type 0
  pub builder : Endpoint → RouterBuilder
  -- A handler is what its `ProtocolHandler::accept` does with a connection.
  pub accept : RouterBuilder → List ℕ → (q.Connection → Job q.World (Unit {0})) → RouterBuilder
  pub spawn : RouterBuilder → q.World → Router × q.World
  -- `none`, or the text of the error that the shutdown ends with.
  pub shutdown : Router → Job q.World (Option Str)

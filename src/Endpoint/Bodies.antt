-- ===== src/Endpoint/Bodies.antt =====
-- The bodies that the calls of packages/iroh_quic/rust/src/api/endpoint.rs and address_lookup.rs
-- spawn, where they have several steps.
use iroh_dart.Prelude.{ℕ, Option, none, some, List}
use iroh_dart.Iroh.{IrohBase}
use iroh_dart.Iroh.Quic.{Quic}
use iroh_dart.Iroh.Binding.{Binding}
use iroh_dart.Runtime.Job.{Job, ◌>>=◌, pure}
use iroh_dart.Connection.Incoming.{handshake}

module _ (b : IrohBase) (q : Quic) (n : Binding b q) where
  -- `incoming.accept()?` and `connecting.await?`, where there is an inbound connection.
  abbrev pub accept_next : Option q.Incoming → Job q.World (Option q.Connection)
  accept_next none = pure none
  accept_next (some incoming) = do conn ← handshake q incoming; pure (some conn)

  abbrev pub accept_body : n.Endpoint → Job q.World (Option q.Connection)
  accept_body ep = do maybe ← n.accept ep; accept_next maybe

  -- The stream of one `resolve` call, to its end: the callback, and what is made of its answer.
  abbrev pub resolve_body :
      {A : Type 0}
      → (List ℕ → Job q.World (Option A))
      → (Option A → List n.Item)
      → b.PublicKey
      → Job q.World (List n.Item)
  resolve_body callback yielded id = do
    answer ← callback (b.public_as_bytes id)
    pure (yielded answer)

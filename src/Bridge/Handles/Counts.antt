-- ===== src/Bridge/Handles/Counts.antt =====
-- The exports of packages/iroh_quic/rust/src/frb_generated.rs, module io, by which Dart counts its
-- references to an object: two for each type of object. (Module web has the same for wasm.)
mod Types
mod Single
pub mod Laws
mod Tests
use iroh_dart.Prelude.{ℕ, ◌<◌, Option, List, [], ◌∷◌}
use iroh_dart.Connection.Incoming.{Incoming}
use iroh_dart.Connection.Streams.{SendStream, RecvStream}
use iroh_dart.Router.{RouterBuilder}
use iroh_dart.Bridge.Handles.{Glue, State}

pub data ObjectType : Type 0 where
  connection endpoint incoming recv_stream router router_builder send_stream : ObjectType

-- One call of an export.
pub data Export : Type 0 where
  increments : ObjectType → ℕ → Export
  decrements : ObjectType → ℕ → Export

module _ {g : Glue} where
  unfoldable pub increment_strong_count : ObjectType → ℕ → State g → State g
  increment_strong_count connection ptr s = record s {
    connections = g.pools.increment _ ptr s.connections;
  }
  increment_strong_count endpoint ptr s = record s {
    endpoints = g.pools.increment _ ptr s.endpoints;
  }
  increment_strong_count incoming ptr s = record s {
    incomings = g.pools.increment _ ptr s.incomings;
  }
  increment_strong_count recv_stream ptr s = record s {
    recv_streams = g.pools.increment _ ptr s.recv_streams;
  }
  increment_strong_count router ptr s = record s { routers = g.pools.increment _ ptr s.routers }
  increment_strong_count router_builder ptr s = record s {
    builders = g.pools.increment _ ptr s.builders;
  }
  increment_strong_count send_stream ptr s = record s {
    send_streams = g.pools.increment _ ptr s.send_streams;
  }

  pub decrement_strong_count : ObjectType → ℕ → State g → State g
  decrement_strong_count connection ptr s = record s {
    connections = g.pools.decrement _ ptr s.connections;
  }
  decrement_strong_count endpoint ptr s = record s {
    endpoints = g.pools.decrement _ ptr s.endpoints;
  }
  decrement_strong_count incoming ptr s = record s {
    incomings = g.pools.decrement _ ptr s.incomings;
  }
  decrement_strong_count recv_stream ptr s = record s {
    recv_streams = g.pools.decrement _ ptr s.recv_streams;
  }
  decrement_strong_count router ptr s = record s { routers = g.pools.decrement _ ptr s.routers }
  decrement_strong_count router_builder ptr s = record s {
    builders = g.pools.decrement _ ptr s.builders;
  }
  decrement_strong_count send_stream ptr s = record s {
    send_streams = g.pools.decrement _ ptr s.send_streams;
  }

  unfoldable pub export_call : Export → State g → State g
  export_call (increments o ptr) s = increment_strong_count o ptr s
  export_call (decrements o ptr) s = decrement_strong_count o ptr s

module _ (g : Glue) where
  abbrev pub Object : ObjectType → Type 0
  Object connection = g.quic.Connection
  Object endpoint = g.binding.Endpoint
  Object incoming = Incoming g.quic.Incoming
  Object recv_stream = RecvStream g.quic.RecvStream
  Object router = g.routing.Router
  Object router_builder = RouterBuilder g.routing.RouterBuilder
  Object send_stream = SendStream g.quic.SendStream

  abbrev pub table_of : (o : ObjectType) → State g → g.pools.Table (Object o)
  table_of connection s = s.connections
  table_of endpoint s = s.endpoints
  table_of incoming s = s.incomings
  table_of recv_stream s = s.recv_streams
  table_of router s = s.routers
  table_of router_builder s = s.builders
  table_of send_stream s = s.send_streams

  abbrev pub references : ObjectType → ℕ → State g → ℕ
  references o k s = g.pools.count (Object o) k (table_of o s)

  abbrev pub object_at : (o : ObjectType) → ℕ → State g → Option (Object o)
  object_at o k s = g.pools.find (Object o) k (table_of o s)

  -- Dart counts a reference that it has, and has one left.
  abbrev pub LeavesOne : Export → State g → Type 0
  LeavesOne (increments o ptr) s = 0 < references o ptr s
  LeavesOne (decrements o ptr) s = 1 < references o ptr s

  abbrev pub run_exports : List Export → State g → State g
  run_exports [] s = s
  run_exports (e ∷ es) s = run_exports es (export_call e s)

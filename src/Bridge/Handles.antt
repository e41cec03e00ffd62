-- ===== src/Bridge/Handles.antt =====
-- The opaque handles of packages/iroh_quic/rust/src/frb_generated.rs: what the wire functions on
-- connections, streams, endpoints and routers share. A Rust object that Dart holds is kept by the
-- bridge library under a number; that library and the other third-party code are one parameter.
pub mod Counts
pub mod Connections
pub mod Streams
pub mod Endpoints
pub mod Routers
pub mod Laws
pub mod Live
pub mod Run
pub mod Toy
use iroh_dart.Prelude.{
  ℕ, suc, ◌≡◌, ◌≢◌, ◌<◌, ◌^◌, Option, none, some, List, [], ◌++◌, Bool, true, false, Str, Result,
  ok, err,
}
use iroh_dart.Prelude.Int.{ℤ, IsI32}
use iroh_dart.Iroh.{IrohBase}
use iroh_dart.Iroh.Quic.{Quic}
use iroh_dart.Iroh.Binding.{Binding}
use iroh_dart.Iroh.Routing.{Routing}
use iroh_dart.Connection.Incoming.{Incoming}
use iroh_dart.Connection.Streams.{SendStream, RecvStream}
use iroh_dart.Router.{RouterBuilder}
use iroh_dart.Runtime as Runtime
use iroh_dart.Wire.{Cursor, CursorLaws, Decoder, ◌>>=◌, pure}
use iroh_dart.Wire.Scalars.{decode_usize, encode_usize, encode_i32, encode_bool}
use iroh_dart.Bridge.{with_args}

-- The objects of one type that Dart holds (`RustOpaqueMoi<RustAutoOpaqueInner<T>>`). A handle is
-- the number under which an object is kept. A call takes the object's lock as a reader, always, so
-- calls do not wait for one another; `store` is a change behind a mutex inside the object.
pub record Pools : Type 1 where
  pub Table : Type 0 → Type 0
  -- `decode_rust_opaque_moi` and the guard.
  pub find : (A : Type 0) → ℕ → Table A → Option A
  -- `rust_auto_opaque_encode` and `sse_encode_raw`: the number and the size.
  pub put : (A : Type 0) → A → Table A → (ℕ × ℤ) × Table A
  pub store : (A : Type 0) → ℕ → A → Table A → Table A
  -- How many references there are to an object, and the library's `increment_strong_count` and
  -- `decrement_strong_count`.
  pub count : (A : Type 0) → ℕ → Table A → ℕ
  pub increment : (A : Type 0) → ℕ → Table A → Table A
  pub decrement : (A : Type 0) → ℕ → Table A → Table A

-- What was put is found, and the other objects are as they were.
pub record PoolLaws (p : Pools) : Type 1 where
  pub find-put :
      (A : Type 0) (a : A) (t : p.Table A) → p.find A (p.put A a t).0.0 (p.put A a t).1 ≡ some a
  pub find-put_other :
      (A : Type 0) (a b : A) (t : p.Table A) (k : ℕ)
      → p.find A k t ≡ some b
      → p.find A k (p.put A a t).1 ≡ some b
  pub find-store :
      (A : Type 0) (a b : A) (t : p.Table A) (k : ℕ)
      → p.find A k t ≡ some b
      → p.find A k (p.store A k a t) ≡ some a
  pub find-store_other :
      (A : Type 0) (a : A) (t : p.Table A) (k j : ℕ)
      → j ≢ k
      → p.find A j (p.store A k a t) ≡ p.find A j t
  -- An object is there as long as it has a reference.
  pub count-increment :
      (A : Type 0) (t : p.Table A) (k : ℕ)
      → 0 < p.count A k t
      → p.count A k (p.increment A k t) ≡ suc (p.count A k t)
  pub count-increment_other :
      (A : Type 0) (t : p.Table A) (k j : ℕ)
      → j ≢ k
      → p.count A j (p.increment A k t) ≡ p.count A j t
  pub find-increment :
      (A : Type 0) (t : p.Table A) (k j : ℕ) → p.find A j (p.increment A k t) ≡ p.find A j t
  pub count-decrement :
      (A : Type 0) (t : p.Table A) (k : ℕ)
      → 0 < p.count A k t
      → suc (p.count A k (p.decrement A k t)) ≡ p.count A k t
  pub count-decrement_other :
      (A : Type 0) (t : p.Table A) (k j : ℕ)
      → j ≢ k
      → p.count A j (p.decrement A k t) ≡ p.count A j t
  pub find-decrement :
      (A : Type 0) (t : p.Table A) (k : ℕ)
      → 1 < p.count A k t
      → p.find A k (p.decrement A k t) ≡ p.find A k t
  pub find-decrement_other :
      (A : Type 0) (t : p.Table A) (k j : ℕ) → j ≢ k → p.find A j (p.decrement A k t) ≡ p.find A j t
  pub find_none : (A : Type 0) (t : p.Table A) (k : ℕ) → p.count A k t ≡ 0 → p.find A k t ≡ none

-- All third-party code that the wire functions reach.
pub record Glue : Type 1 where
  pub base : IrohBase
  pub quic : Quic
  pub binding : Binding base quic
  pub routing : Routing quic binding.Endpoint
  pub pools : Pools
  pub cursor : Cursor
  -- `deserializer.end()` accepts the bytes that are left.
  pub ends : List ℕ → Bool
  -- `SecretKey::generate()`
  pub draw : quic.World → base.SecretKey × quic.World
  -- `IROH_CRATE_VERSION`
  pub crate_version : Str
  -- `dart_fn_invoke` of a closure with this number: the message in which Dart answers.
  pub invoke_accept : ℕ → quic.Connection → quic.World → List ℕ × quic.World
  pub invoke_resolve : ℕ → List ℕ → quic.World → List ℕ × quic.World

-- The state that the calls of one process share.
pub record State (g : Glue) : Type 0 where
  pub world : g.quic.World
  pub stream_tasks : Runtime.World
  pub connections : g.pools.Table g.quic.Connection
  pub incomings : g.pools.Table (Incoming g.quic.Incoming)
  pub send_streams : g.pools.Table (SendStream g.quic.SendStream)
  pub recv_streams : g.pools.Table (RecvStream g.quic.RecvStream)
  pub endpoints : g.pools.Table g.binding.Endpoint
  pub builders : g.pools.Table (RouterBuilder g.routing.RouterBuilder)
  pub routers : g.pools.Table g.routing.Router

-- A wire function: the message, and the result to send back with the new state; `none` is a panic.
abbrev pub Wire : Glue → Type 0
Wire g = List ℕ → State g → Option (Result (List ℕ) × State g)

unfoldable pub encode_handle : Cursor → ℕ × ℤ → List ℕ
encode_handle c handle = encode_usize c handle.0 ++ encode_i32 c handle.1

-- The handle is the first argument.
pub decode_call : {B : Type 0} → Cursor → Decoder B → Decoder (ℕ × B)
decode_call c decode = do that ← decode_usize c; args ← decode; pure (that, args)

-- How a value goes into an answer: its bytes, and the state with the objects that it has.
abbrev pub Put : Glue → Type 0 → Type 0
Put g A = A → State g → List ℕ × State g

module _ {g : Glue} where
  abbrev pub run_found :
      {A B : Type 0}
      → (ℕ → A → B → State g → Result (List ℕ) × State g)
      → State g
      → ℕ × B
      → Option A
      → Option (Result (List ℕ) × State g)
  run_found run s call none = none
  run_found run s (that, args) (some object) = some (run that object args s)

  abbrev pub run_call :
      {A B : Type 0}
      → (State g → g.pools.Table A)
      → (ℕ → A → B → State g → Result (List ℕ) × State g)
      → State g
      → Option (ℕ × B)
      → Option (Result (List ℕ) × State g)
  run_call table run s none = none
  run_call {A} table run s (some call) = run_found run s call (g.pools.find A call.0 (table s))

  -- The shape of a wire function on a handle: decode it and the arguments, find the object, call.
  pub on_handle :
      {A B : Type 0}
      → (State g → g.pools.Table A)
      → Decoder B
      → (ℕ → A → B → State g → Result (List ℕ) × State g)
      → Wire g
  on_handle table decode run message s =
      run_call table run s (with_args g.ends (decode_call g.cursor decode) (λ call. call) message)

  abbrev pub answer : {A : Type 0} → Put g A → Result A → State g → Result (List ℕ) × State g
  answer put (err e) s = (err e, s)
  answer put (ok a) s = let (bytes, s') = put a s in (ok bytes, s')

  -- Plain data.
  abbrev pub value : {A : Type 0} → (A → List ℕ) → Put g A
  value encode a s = (encode a, s)

  -- An object goes into its table, and its handle into the answer.
  abbrev pub put_object :
      {A : Type 0} → (State g → g.pools.Table A) → (g.pools.Table A → State g → State g) → Put g A
  put_object {A} table keep a s =
      let (handle, t) = g.pools.put A a (table s) in (encode_handle g.cursor handle, keep t s)

  pub put_connection : Put g g.quic.Connection
  put_connection = put_object (λ s. s.connections) (λ t s. record s { connections = t })

  pub put_incoming : Put g (Incoming g.quic.Incoming)
  put_incoming = put_object (λ s. s.incomings) (λ t s. record s { incomings = t })

  pub put_send : Put g (SendStream g.quic.SendStream)
  put_send = put_object (λ s. s.send_streams) (λ t s. record s { send_streams = t })

  pub put_recv : Put g (RecvStream g.quic.RecvStream)
  put_recv = put_object (λ s. s.recv_streams) (λ t s. record s { recv_streams = t })

  pub put_endpoint : Put g g.binding.Endpoint
  put_endpoint = put_object (λ s. s.endpoints) (λ t s. record s { endpoints = t })

  pub put_builder : Put g (RouterBuilder g.routing.RouterBuilder)
  put_builder = put_object (λ s. s.builders) (λ t s. record s { builders = t })

  pub put_router : Put g g.routing.Router
  put_router = put_object (λ s. s.routers) (λ t s. record s { routers = t })

  -- `(SendStream, RecvStream)`
  pub put_streams : Put g (SendStream g.quic.SendStream × RecvStream g.quic.RecvStream)
  unfolding put_send put_recv
  put_streams both s =
      let (sent, s') = put_send both.0 s in
      let (received, s'') = put_recv both.1 s' in (sent ++ received, s'')

  -- `Option<Connection>` and `Option<Incoming>`
  pub put_option : {A : Type 0} → Put g A → Put g (Option A)
  put_option put none s = (encode_bool g.cursor false, s)
  put_option put (some a) s = let (bytes, s') = put a s in (encode_bool g.cursor true ++ bytes, s')

  -- A result that is there, and one that iroh gives with its new world.
  abbrev pub now : {A : Type 0} → Put g A → A → State g → Result (List ℕ) × State g
  now put a s = answer put (ok a) s

  pub ran : {A : Type 0} → Put g A → Result A × g.quic.World → State g → Result (List ℕ) × State g
  ran put (r, w) s = answer put r (record s { world = w })

  -- The shape of a wire function with no handle.
  abbrev pub run_args :
      {B : Type 0}
      → (B → State g → Result (List ℕ) × State g)
      → State g
      → Option B
      → Option (Result (List ℕ) × State g)
  run_args run s none = none
  run_args run s (some args) = some (run args s)

  pub on_args : {B : Type 0} → Decoder B → (B → State g → Result (List ℕ) × State g) → Wire g
  on_args decode run message s = run_args run s (with_args g.ends decode (λ args. args) message)

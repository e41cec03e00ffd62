-- ===== src/Router.antt =====
-- packages/iroh_quic/rust/src/api/router.rs: the router builder, which its `spawn` uses up, and the
-- handler that sends a connection to a Dart callback.
pub mod Laws
pub mod Tests
use iroh_dart.Prelude.{
  codes, ℕ, Option, none, some, List, [], ◌∷◌, Str, Error, panicked, shutdown_failed,
  already_spawned, Result, ok, err, ok_or,
}
use iroh_dart.Iroh.Quic.{Quic}
use iroh_dart.Iroh.Routing.{Routing}
use iroh_dart.Runtime.Job.{Job, ◌>>=◌, pure, spawn}

-- `inner` is behind a mutex, which `accept` holds to its end.
pub record RouterBuilder (B : Type 0) : Type 0 where
  pub inner : Option B

module _ (q : Quic) {E : Type 0} (r : Routing q E) where
  -- What Dart makes of a connection.
  abbrev pub Callback : Type 0
  Callback = q.Connection → Job q.World (Unit {0})

  -- `DartProtocolHandler::accept`
  pub handler_accept : Callback → q.Connection → Job q.World (Unit {0})
  handler_accept on_accept connection = do _ ← on_accept connection; pure tt

  pub router_builder : E → RouterBuilder r.RouterBuilder
  router_builder endpoint = record { inner = some (r.builder endpoint) }

  -- `guard.take()` with its error, and what is left in the cell.
  abbrev pub take_builder :
      RouterBuilder r.RouterBuilder → Result r.RouterBuilder × RouterBuilder r.RouterBuilder
  take_builder cell = (ok_or cell.inner already_spawned, record cell { inner = none })

  abbrev accept_taken :
      Result r.RouterBuilder × RouterBuilder r.RouterBuilder
      → List ℕ
      → Callback
      → Result (Unit {0}) × RouterBuilder r.RouterBuilder
  accept_taken (err e, cell) alpn on_accept = (err e, cell)
  accept_taken (ok builder, cell) alpn on_accept =
      (ok tt, record cell { inner = some (r.accept builder alpn (handler_accept on_accept)) })

  pub accept :
      RouterBuilder r.RouterBuilder
      → List ℕ
      → Callback
      → Result (Unit {0}) × RouterBuilder r.RouterBuilder
  accept cell alpn on_accept = accept_taken (take_builder cell) alpn on_accept

  abbrev start_taken :
      Result r.RouterBuilder × RouterBuilder r.RouterBuilder
      → q.World
      → Result r.Router × RouterBuilder r.RouterBuilder × q.World
  start_taken (err e, cell) w = (err e, cell, w)
  start_taken (ok builder, cell) w = let (router, w') = r.spawn builder w in (ok router, cell, w')

  pub start :
      RouterBuilder r.RouterBuilder
      → q.World
      → Result r.Router × RouterBuilder r.RouterBuilder × q.World
  start cell w = start_taken (take_builder cell) w

  abbrev stopped : Result (Option Str) → Result (Unit {0})
  stopped (err e) = err e
  stopped (ok none) = ok tt
  stopped (ok (some text)) = err (shutdown_failed text)

  pub shutdown : r.Router → q.World → Result (Unit {0}) × q.World
  shutdown router w =
      let (ended, w') = spawn (codes "router shutdown") (r.shutdown router) w in (stopped ended, w')

  -- Calls on one builder, in the order in which they take its lock.
  pub data Call : Type 0 where
    accepts : List ℕ → Callback → Call
    spawns : Call

  pub data Reply : Type 0 where
    registered : Reply
    started : r.Router → Reply
    failed : Error → Reply

  abbrev registration_reply : Result (Unit {0}) → Reply
  registration_reply (err e) = failed e
  registration_reply (ok _) = registered

  abbrev start_reply : Result r.Router → Reply
  start_reply (err e) = failed e
  start_reply (ok router) = started router

  pub call :
      Call
      → RouterBuilder r.RouterBuilder
      → q.World
      → Reply × RouterBuilder r.RouterBuilder × q.World
  unfolding accept start
  call (accepts alpn on_accept) cell w =
      let (reply, cell') = accept cell alpn on_accept in (registration_reply reply, cell', w)
  call spawns cell w = let (reply, cell', w') = start cell w in (start_reply reply, cell', w')

  pub call_all :
      List Call
      → RouterBuilder r.RouterBuilder
      → q.World
      → List Reply × RouterBuilder r.RouterBuilder × q.World
  unfolding call
  call_all [] cell w = ([], cell, w)
  call_all (c ∷ cs) cell w =
      let (reply, cell', w') = call c cell w in
      let (replies, cell'', w'') = call_all cs cell' w' in (reply ∷ replies, cell'', w'')

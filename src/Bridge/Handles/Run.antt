-- ===== src/Bridge/Handles/Run.antt =====
-- All wire functions by their place in the API, and the dispatchers that reach them.
pub mod Live
pub mod Laws
pub mod Opened
pub mod Decisions
pub mod Builders
pub mod Bound
pub mod Cancelled
pub mod Version
pub mod Routed
pub mod Tests
pub mod OnceTests
use iroh_dart.Prelude.{◌≡◌, ℕ, Bool, Option, none, some, List, Result, ok, if◌then◌else◌}
use iroh_dart.Runtime as Runtime
use iroh_dart.Bridge as Bridge
use iroh_dart.Bridge.Dispatch.{Api, pde_ffi_dispatcher_primary, pde_ffi_dispatcher_sync}
use iroh_dart.Bridge.Dispatch.Dart.{func_id, has_port}
use iroh_dart.Bridge.Handles.{Glue, State, Wire}
use iroh_dart.Bridge.Handles.Counts.{Export, LeavesOne, export_call}
use iroh_dart.Bridge.Handles.Connections as Connections
use iroh_dart.Bridge.Handles.Streams as Streams
use iroh_dart.Bridge.Handles.Endpoints as Endpoints
use iroh_dart.Bridge.Handles.Routers as Routers

module _ (g : Glue) where
  -- A call on plain values leaves the state alone.
  abbrev pub plain : Option (Result (List ℕ)) → State g → Option (Result (List ℕ) × State g)
  plain none s = none
  plain (some r) s = some (r, s)

  abbrev pub cancelled :
      Option (List ℕ × Runtime.World) → State g → Option (Result (List ℕ) × State g)
  cancelled none s = none
  cancelled (some (bytes, tasks)) s = some (ok bytes, record s { stream_tasks = tasks })

  pub run : Api → Wire g
  run Api.connection_accept_bi message s = Connections.wire_connection_accept_bi g message s
  run Api.connection_accept_uni message s = Connections.wire_connection_accept_uni g message s
  run Api.connection_alpn message s = Connections.wire_connection_alpn g message s
  run Api.connection_close message s = Connections.wire_connection_close g message s
  run Api.connection_closed message s = Connections.wire_connection_closed g message s
  run Api.connection_open_bi message s = Connections.wire_connection_open_bi g message s
  run Api.connection_open_uni message s = Connections.wire_connection_open_uni g message s
  run Api.connection_path_events message s = Connections.wire_connection_path_events g message s
  run Api.connection_read_datagram message s = Connections.wire_connection_read_datagram g message s
  run Api.connection_read_many_datagrams message s =
      Connections.wire_connection_read_many_datagrams g message s
  run Api.connection_remote_id message s = Connections.wire_connection_remote_id g message s
  run Api.connection_send_datagram message s = Connections.wire_connection_send_datagram g message s
  run Api.connection_send_many_datagrams message s =
      Connections.wire_connection_send_many_datagrams g message s
  run Api.connection_stable_id message s = Connections.wire_connection_stable_id g message s
  run Api.connection_stats message s = Connections.wire_connection_stats g message s
  run Api.endpoint_accept message s = Endpoints.wire_endpoint_accept g message s
  run Api.endpoint_accept_incoming message s = Endpoints.wire_endpoint_accept_incoming g message s
  run Api.endpoint_addr message s = Endpoints.wire_endpoint_addr g message s
  run Api.endpoint_bound_sockets message s = Endpoints.wire_endpoint_bound_sockets g message s
  run Api.endpoint_close message s = Endpoints.wire_endpoint_close g message s
  run Api.endpoint_connect message s = Endpoints.wire_endpoint_connect g message s
  run Api.endpoint_home_relay_status message s =
      Endpoints.wire_endpoint_home_relay_status g message s
  run Api.endpoint_id message s = Endpoints.wire_endpoint_id g message s
  run Api.endpoint_is_closed message s = Endpoints.wire_endpoint_is_closed g message s
  run Api.endpoint_set_alpns message s = Endpoints.wire_endpoint_set_alpns g message s
  run Api.endpoint_watch_addr message s = Endpoints.wire_endpoint_watch_addr g message s
  run Api.incoming_accept message s = Connections.wire_incoming_accept g message s
  run Api.incoming_ignore message s = Connections.wire_incoming_ignore g message s
  run Api.incoming_refuse message s = Connections.wire_incoming_refuse g message s
  run Api.incoming_remote_addr message s = Connections.wire_incoming_remote_addr g message s
  run Api.incoming_retry message s = Connections.wire_incoming_retry g message s
  run Api.recv_stream_id message s = Streams.wire_recv_stream_id g message s
  run Api.recv_stream_read message s = Streams.wire_recv_stream_read g message s
  run Api.recv_stream_read_exact message s = Streams.wire_recv_stream_read_exact g message s
  run Api.recv_stream_read_to_end message s = Streams.wire_recv_stream_read_to_end g message s
  run Api.recv_stream_stop message s = Streams.wire_recv_stream_stop g message s
  run Api.router_builder_accept message s = Routers.wire_router_builder_accept g message s
  run Api.router_builder_spawn message s = Routers.wire_router_builder_spawn g message s
  run Api.router_shutdown message s = Routers.wire_router_shutdown g message s
  run Api.send_stream_finish message s = Streams.wire_send_stream_finish g message s
  run Api.send_stream_id message s = Streams.wire_send_stream_id g message s
  run Api.send_stream_reset message s = Streams.wire_send_stream_reset g message s
  run Api.send_stream_write_all message s = Streams.wire_send_stream_write_all g message s
  run Api.cancel_stream message s =
      cancelled (Bridge.wire_cancel_stream g.cursor g.ends message s.stream_tasks) s
  run Api.endpoint_addr_decode message s =
      plain (Bridge.wire_endpoint_addr_decode g.base g.cursor g.ends message) s
  run Api.endpoint_addr_encode message s =
      plain (Bridge.wire_endpoint_addr_encode g.base g.cursor g.ends message) s
  run Api.endpoint_addr_round_trip message s =
      plain (Bridge.wire_endpoint_addr_round_trip g.base g.cursor g.ends message) s
  run Api.endpoint_bind message s = Endpoints.wire_endpoint_bind g message s
  run Api.endpoint_bind_with_address_lookup message s =
      Endpoints.wire_endpoint_bind_with_address_lookup g message s
  run Api.irohdart_abi_version message s =
      plain (Bridge.wire_irohdart_abi_version g.base g.cursor g.ends message) s
  run Api.irohdart_iroh_version message s =
      plain (Bridge.wire_irohdart_iroh_version g.base g.cursor g.ends g.crate_version message) s
  run Api.public_key_check message s =
      plain (Bridge.wire_public_key_check g.base g.cursor g.ends message) s
  run Api.public_key_fmt_short message s =
      plain (Bridge.wire_public_key_fmt_short g.base g.cursor g.ends message) s
  run Api.public_key_from_hex message s =
      plain (Bridge.wire_public_key_from_hex g.base g.cursor g.ends message) s
  run Api.public_key_from_z32 message s =
      plain (Bridge.wire_public_key_from_z32 g.base g.cursor g.ends message) s
  run Api.public_key_to_hex message s =
      plain (Bridge.wire_public_key_to_hex g.base g.cursor g.ends message) s
  run Api.public_key_to_z32 message s =
      plain (Bridge.wire_public_key_to_z32 g.base g.cursor g.ends message) s
  run Api.public_key_verify message s =
      plain (Bridge.wire_public_key_verify g.base g.cursor g.ends message) s
  run Api.relay_url_parse message s =
      plain (Bridge.wire_relay_url_parse g.base g.cursor g.ends message) s
  run Api.router_builder message s = Routers.wire_router_builder g message s
  run Api.secret_key_generate message s =
      let (key, w) = g.draw s.world in
      plain (Bridge.wire_secret_key_generate g.base g.cursor g.ends key message)
        (record s { world = w })
  run Api.secret_key_public message s =
      plain (Bridge.wire_secret_key_public g.base g.cursor g.ends message) s
  run Api.secret_key_sign message s =
      plain (Bridge.wire_secret_key_sign g.base g.cursor g.ends message) s

  abbrev run_arm : Option Api → Wire g
  run_arm none message s = none
  run_arm (some api) message s = run api message s

  -- The two entry points of the library.
  pub dispatch_primary : ℕ → Wire g
  dispatch_primary id = run_arm (pde_ffi_dispatcher_primary id)

  pub dispatch_sync : ℕ → Wire g
  dispatch_sync id = run_arm (pde_ffi_dispatcher_sync id)

  -- What a Dart method does with its message.
  pub dart_call : Api → Wire g
  dart_call api =
      if has_port api then dispatch_primary (func_id api) else dispatch_sync (func_id api)

  -- The calls of one process that return, one after another. Between two of them iroh's world
  -- and the stream tasks change in any way, and Dart counts its references (its copies of a handle
  -- and their finalizers, and the copy that goes with each call), but lets no object go.
  pub data Session : State g → State g → Type 0 where
    idle : (s : State g) → Session s s
    meanwhile :
        (world : g.quic.World) (tasks : Runtime.World) (s s' : State g)
        → Session (record s { world = world; stream_tasks = tasks }) s'
        → Session s s'
    call :
        (api : Api) (message : List ℕ) (r : Result (List ℕ)) (s s' s'' : State g)
        → dart_call api message s ≡ some (r, s')
        → Session s' s''
        → Session s s''
    counts :
        (e : Export) (s s' : State g)
        → LeavesOne g e s
        → Session (export_call e s) s'
        → Session s s'

-- ===== src/Bridge/Handles/Run/Live.antt =====
-- Every call of the API keeps the objects that Dart holds, and so does every sequence of calls.
use iroh_dart.Prelude.{ℕ, ◌≡◌, sym, ap, ◌∙◌, subst, Option, none, some, List, Result}
use iroh_dart.Runtime as Runtime
use iroh_dart.Bridge.Dispatch.{Api}
use iroh_dart.Bridge.Handles.{PoolLaws, Glue, State}
use iroh_dart.Bridge.Handles.Run.{plain, cancelled, run, Session, call, idle, meanwhile, counts}
use iroh_dart.Bridge.Handles.Run.Laws.{dart_call-run}
use iroh_dart.Bridge.Handles.Live.{
  Live, Live-same, Live-refl, Live-trans, some-injective, Kept, KeptCell, Kept-refl, KeptCell-refl,
}
use iroh_dart.Bridge.Handles.Counts.{
  Export, LeavesOne, export_call, connection, endpoint, incoming, recv_stream, router,
  router_builder, send_stream,
}
use iroh_dart.Bridge.Handles.Counts.Laws.{export_call-object}
use iroh_dart.Bridge.Handles.Live.Rules.{Safe}
use iroh_dart.Bridge.Handles.Connections.Live as Connections
use iroh_dart.Bridge.Handles.Streams.Live as Streams
use iroh_dart.Bridge.Handles.Endpoints.Live as Endpoints
use iroh_dart.Bridge.Handles.Routers.Live as Routers

module _ (g : Glue) (laws : PoolLaws g.pools) where
  plain-Live :
      (o : Option (Result (List ℕ))) (s s' : State g) (r : Result (List ℕ))
      → plain g o s ≡ some (r, s')
      → Live s s'
  plain-Live none s s' r e = cc
  plain-Live (some x) s s' r e = rw (sym (ap (λ p. p.1) (some-injective _ _ e))) (Live-refl s)

  cancelled-Live :
      (o : Option (List ℕ × Runtime.World)) (s s' : State g) (r : Result (List ℕ))
      → cancelled g o s ≡ some (r, s')
      → Live s s'
  cancelled-Live none s s' r e = cc
  cancelled-Live (some (bytes, tasks)) s s' r e =
      rw (sym (ap (λ p. p.1) (some-injective _ _ e))) (Live-same s s.world tasks)

  -- Each call of the API that returns keeps what Dart holds.
  pub run-Live : (api : Api) → Safe g (run g api)
  unfolding run
  run-Live Api.connection_accept_bi message s s' r e =
      Connections.wire_connection_accept_bi-Live g laws message s s' r e
  run-Live Api.connection_accept_uni message s s' r e =
      Connections.wire_connection_accept_uni-Live g laws message s s' r e
  run-Live Api.connection_alpn message s s' r e =
      Connections.wire_connection_alpn-Live g laws message s s' r e
  run-Live Api.connection_close message s s' r e =
      Connections.wire_connection_close-Live g laws message s s' r e
  run-Live Api.connection_closed message s s' r e =
      Connections.wire_connection_closed-Live g laws message s s' r e
  run-Live Api.connection_open_bi message s s' r e =
      Connections.wire_connection_open_bi-Live g laws message s s' r e
  run-Live Api.connection_open_uni message s s' r e =
      Connections.wire_connection_open_uni-Live g laws message s s' r e
  run-Live Api.connection_path_events message s s' r e =
      Connections.wire_connection_path_events-Live g laws message s s' r e
  run-Live Api.connection_read_datagram message s s' r e =
      Connections.wire_connection_read_datagram-Live g laws message s s' r e
  run-Live Api.connection_read_many_datagrams message s s' r e =
      Connections.wire_connection_read_many_datagrams-Live g laws message s s' r e
  run-Live Api.connection_remote_id message s s' r e =
      Connections.wire_connection_remote_id-Live g laws message s s' r e
  run-Live Api.connection_send_datagram message s s' r e =
      Connections.wire_connection_send_datagram-Live g laws message s s' r e
  run-Live Api.connection_send_many_datagrams message s s' r e =
      Connections.wire_connection_send_many_datagrams-Live g laws message s s' r e
  run-Live Api.connection_stable_id message s s' r e =
      Connections.wire_connection_stable_id-Live g laws message s s' r e
  run-Live Api.connection_stats message s s' r e =
      Connections.wire_connection_stats-Live g laws message s s' r e
  run-Live Api.endpoint_accept message s s' r e =
      Endpoints.wire_endpoint_accept-Live g laws message s s' r e
  run-Live Api.endpoint_accept_incoming message s s' r e =
      Endpoints.wire_endpoint_accept_incoming-Live g laws message s s' r e
  run-Live Api.endpoint_addr message s s' r e =
      Endpoints.wire_endpoint_addr-Live g laws message s s' r e
  run-Live Api.endpoint_bound_sockets message s s' r e =
      Endpoints.wire_endpoint_bound_sockets-Live g laws message s s' r e
  run-Live Api.endpoint_close message s s' r e =
      Endpoints.wire_endpoint_close-Live g laws message s s' r e
  run-Live Api.endpoint_connect message s s' r e =
      Endpoints.wire_endpoint_connect-Live g laws message s s' r e
  run-Live Api.endpoint_home_relay_status message s s' r e =
      Endpoints.wire_endpoint_home_relay_status-Live g laws message s s' r e
  run-Live Api.endpoint_id message s s' r e =
      Endpoints.wire_endpoint_id-Live g laws message s s' r e
  run-Live Api.endpoint_is_closed message s s' r e =
      Endpoints.wire_endpoint_is_closed-Live g laws message s s' r e
  run-Live Api.endpoint_set_alpns message s s' r e =
      Endpoints.wire_endpoint_set_alpns-Live g laws message s s' r e
  run-Live Api.endpoint_watch_addr message s s' r e =
      Endpoints.wire_endpoint_watch_addr-Live g laws message s s' r e
  run-Live Api.incoming_accept message s s' r e =
      Connections.wire_incoming_accept-Live g laws message s s' r e
  run-Live Api.incoming_ignore message s s' r e =
      Connections.wire_incoming_ignore-Live g laws message s s' r e
  run-Live Api.incoming_refuse message s s' r e =
      Connections.wire_incoming_refuse-Live g laws message s s' r e
  run-Live Api.incoming_remote_addr message s s' r e =
      Connections.wire_incoming_remote_addr-Live g laws message s s' r e
  run-Live Api.incoming_retry message s s' r e =
      Connections.wire_incoming_retry-Live g laws message s s' r e
  run-Live Api.recv_stream_id message s s' r e =
      Streams.wire_recv_stream_id-Live g laws message s s' r e
  run-Live Api.recv_stream_read message s s' r e =
      Streams.wire_recv_stream_read-Live g laws message s s' r e
  run-Live Api.recv_stream_read_exact message s s' r e =
      Streams.wire_recv_stream_read_exact-Live g laws message s s' r e
  run-Live Api.recv_stream_read_to_end message s s' r e =
      Streams.wire_recv_stream_read_to_end-Live g laws message s s' r e
  run-Live Api.recv_stream_stop message s s' r e =
      Streams.wire_recv_stream_stop-Live g laws message s s' r e
  run-Live Api.router_builder_accept message s s' r e =
      Routers.wire_router_builder_accept-Live g laws message s s' r e
  run-Live Api.router_builder_spawn message s s' r e =
      Routers.wire_router_builder_spawn-Live g laws message s s' r e
  run-Live Api.router_shutdown message s s' r e =
      Routers.wire_router_shutdown-Live g laws message s s' r e
  run-Live Api.send_stream_finish message s s' r e =
      Streams.wire_send_stream_finish-Live g laws message s s' r e
  run-Live Api.send_stream_id message s s' r e =
      Streams.wire_send_stream_id-Live g laws message s s' r e
  run-Live Api.send_stream_reset message s s' r e =
      Streams.wire_send_stream_reset-Live g laws message s s' r e
  run-Live Api.send_stream_write_all message s s' r e =
      Streams.wire_send_stream_write_all-Live g laws message s s' r e
  run-Live Api.cancel_stream message s s' r e = cancelled-Live _ s s' r e
  run-Live Api.endpoint_addr_decode message s s' r e = plain-Live _ s s' r e
  run-Live Api.endpoint_addr_encode message s s' r e = plain-Live _ s s' r e
  run-Live Api.endpoint_addr_round_trip message s s' r e = plain-Live _ s s' r e
  run-Live Api.endpoint_bind message s s' r e =
      Endpoints.wire_endpoint_bind-Live g laws message s s' r e
  run-Live Api.endpoint_bind_with_address_lookup message s s' r e =
      Endpoints.wire_endpoint_bind_with_address_lookup-Live g laws message s s' r e
  run-Live Api.irohdart_abi_version message s s' r e = plain-Live _ s s' r e
  run-Live Api.irohdart_iroh_version message s s' r e = plain-Live _ s s' r e
  run-Live Api.public_key_check message s s' r e = plain-Live _ s s' r e
  run-Live Api.public_key_fmt_short message s s' r e = plain-Live _ s s' r e
  run-Live Api.public_key_from_hex message s s' r e = plain-Live _ s s' r e
  run-Live Api.public_key_from_z32 message s s' r e = plain-Live _ s s' r e
  run-Live Api.public_key_to_hex message s s' r e = plain-Live _ s s' r e
  run-Live Api.public_key_to_z32 message s s' r e = plain-Live _ s s' r e
  run-Live Api.public_key_verify message s s' r e = plain-Live _ s s' r e
  run-Live Api.relay_url_parse message s s' r e = plain-Live _ s s' r e
  run-Live Api.router_builder message s s' r e =
      Routers.wire_router_builder-Live g laws message s s' r e
  run-Live Api.secret_key_generate message s s' r e =
      Live-trans _ _ _ (Live-same s (g.draw s.world).1 s.stream_tasks) (plain-Live _ _ s' r e)
  run-Live Api.secret_key_public message s s' r e = plain-Live _ s s' r e
  run-Live Api.secret_key_sign message s s' r e = plain-Live _ s s' r e

  kept : {A : Type 0} (x y : Option A) → y ≡ x → Kept x y
  kept x y e = subst (Kept x) (sym e) (Kept-refl x)

  kept_cell : {A C : Type 0} (inner : C → Option A) (x y : Option C) → y ≡ x → KeptCell inner x y
  kept_cell inner x y e = subst (KeptCell inner x) (sym e) (KeptCell-refl inner x)

  export_call-Live : (e : Export) (s : State g) → LeavesOne g e s → Live s (export_call e s)
  export_call-Live e s h = record {
    connections = λ k. kept _ _ (export_call-object g laws connection k e s h);
    send_streams = λ k. kept _ _ (export_call-object g laws send_stream k e s h);
    recv_streams = λ k. kept _ _ (export_call-object g laws recv_stream k e s h);
    endpoints = λ k. kept _ _ (export_call-object g laws endpoint k e s h);
    routers = λ k. kept _ _ (export_call-object g laws router k e s h);
    incomings = λ k. kept_cell _ _ _ (export_call-object g laws incoming k e s h);
    builders = λ k. kept_cell _ _ _ (export_call-object g laws router_builder k e s h);
  }

  -- If the tables keep `PoolLaws`: through any calls that return, with any changes of iroh's world
  -- and of the stream tasks between them, and any counting of references that leaves one to its
  -- object, each handle that Dart holds leads to what it led to: to the same connection, stream
  -- half, endpoint or router, and to a cell of an inbound connection or of a router builder, which
  -- is empty if it was empty.
  pub Session-Live : (s s' : State g) → Session g s s' → Live s s'
  Session-Live s s' (idle _) = Live-refl s
  Session-Live s s' (meanwhile world tasks _ _ rest) =
      Live-trans _ _ _ (Live-same s world tasks) (Session-Live _ s' rest)
  Session-Live s s' (call api message r _ t _ e rest) =
      Live-trans _ _ _ (run-Live api message s t r (sym (dart_call-run g api message s) ∙ e))
        (Session-Live t s' rest)
  Session-Live s s' (counts e _ _ h rest) =
      Live-trans _ _ _ (export_call-Live e s h) (Session-Live (export_call e s) s' rest)

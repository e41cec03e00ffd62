-- ===== src/Bridge/Dispatch.antt =====
-- The two dispatchers of packages/iroh_quic/rust/src/frb_generated.rs. A function number is an
-- `i32`; no arm has a negative one, which is the unreachable case, and is left out here.
pub mod Dart
pub mod Laws
use iroh_dart.Prelude.{ℕ, Option, none, some, List, [], ◌∷◌, ◌==◌, if◌then◌else◌}

-- The functions of the API that Dart calls.
pub data Api : Type 0 where
  connection_accept_bi connection_accept_uni connection_alpn connection_close connection_closed
        connection_open_bi :
      Api
  connection_open_uni connection_path_events connection_read_datagram connection_read_many_datagrams
        connection_remote_id connection_send_datagram :
      Api
  connection_send_many_datagrams connection_stable_id connection_stats endpoint_accept
        endpoint_accept_incoming endpoint_addr :
      Api
  endpoint_bound_sockets endpoint_close endpoint_connect endpoint_home_relay_status endpoint_id
        endpoint_is_closed :
      Api
  endpoint_set_alpns endpoint_watch_addr incoming_accept incoming_ignore incoming_refuse
        incoming_remote_addr :
      Api
  incoming_retry recv_stream_id recv_stream_read recv_stream_read_exact recv_stream_read_to_end
        recv_stream_stop :
      Api
  router_builder_accept router_builder_spawn router_shutdown send_stream_finish send_stream_id
        send_stream_reset :
      Api
  send_stream_write_all cancel_stream endpoint_addr_decode endpoint_addr_encode
        endpoint_addr_round_trip endpoint_bind :
      Api
  endpoint_bind_with_address_lookup irohdart_abi_version irohdart_iroh_version public_key_check
        public_key_fmt_short public_key_from_hex :
      Api
  public_key_from_z32 public_key_to_hex public_key_to_z32 public_key_verify relay_url_parse
        router_builder :
      Api
  secret_key_generate secret_key_public secret_key_sign : Api

-- A `match` on the number, in which no number stands twice; `none` is `unreachable!`.
abbrev pub pick : List (ℕ × Api) → ℕ → Option Api
pick [] func_id = none
pick ((n, api) ∷ arms) func_id =
    let rest = pick arms func_id in if func_id == n then some api else rest

abbrev pub primary_arms : List (ℕ × Api)
primary_arms =
    (1, Api.connection_accept_bi)
    ∷ (2, Api.connection_accept_uni)
    ∷ (5, Api.connection_closed)
    ∷ (6, Api.connection_open_bi)
    ∷ (7, Api.connection_open_uni)
    ∷ (8, Api.connection_path_events)
    ∷ (9, Api.connection_read_datagram)
    ∷ (10, Api.connection_read_many_datagrams)
    ∷ (16, Api.endpoint_accept)
    ∷ (17, Api.endpoint_accept_incoming)
    ∷ (20, Api.endpoint_close)
    ∷ (21, Api.endpoint_connect)
    ∷ (22, Api.endpoint_home_relay_status)
    ∷ (26, Api.endpoint_watch_addr)
    ∷ (27, Api.incoming_accept)
    ∷ (33, Api.recv_stream_read)
    ∷ (34, Api.recv_stream_read_exact)
    ∷ (35, Api.recv_stream_read_to_end)
    ∷ (36, Api.recv_stream_stop)
    ∷ (37, Api.router_builder_accept)
    ∷ (38, Api.router_builder_spawn)
    ∷ (39, Api.router_shutdown)
    ∷ (40, Api.send_stream_finish)
    ∷ (42, Api.send_stream_reset)
    ∷ (43, Api.send_stream_write_all)
    ∷ (48, Api.endpoint_bind)
    ∷ (49, Api.endpoint_bind_with_address_lookup)
    ∷ (60, Api.router_builder)
    ∷ []

abbrev pub sync_arms : List (ℕ × Api)
sync_arms =
    (3, Api.connection_alpn)
    ∷ (4, Api.connection_close)
    ∷ (11, Api.connection_remote_id)
    ∷ (12, Api.connection_send_datagram)
    ∷ (13, Api.connection_send_many_datagrams)
    ∷ (14, Api.connection_stable_id)
    ∷ (15, Api.connection_stats)
    ∷ (18, Api.endpoint_addr)
    ∷ (19, Api.endpoint_bound_sockets)
    ∷ (23, Api.endpoint_id)
    ∷ (24, Api.endpoint_is_closed)
    ∷ (25, Api.endpoint_set_alpns)
    ∷ (28, Api.incoming_ignore)
    ∷ (29, Api.incoming_refuse)
    ∷ (30, Api.incoming_remote_addr)
    ∷ (31, Api.incoming_retry)
    ∷ (32, Api.recv_stream_id)
    ∷ (41, Api.send_stream_id)
    ∷ (44, Api.cancel_stream)
    ∷ (45, Api.endpoint_addr_decode)
    ∷ (46, Api.endpoint_addr_encode)
    ∷ (47, Api.endpoint_addr_round_trip)
    ∷ (50, Api.irohdart_abi_version)
    ∷ (51, Api.irohdart_iroh_version)
    ∷ (52, Api.public_key_check)
    ∷ (53, Api.public_key_fmt_short)
    ∷ (54, Api.public_key_from_hex)
    ∷ (55, Api.public_key_from_z32)
    ∷ (56, Api.public_key_to_hex)
    ∷ (57, Api.public_key_to_z32)
    ∷ (58, Api.public_key_verify)
    ∷ (59, Api.relay_url_parse)
    ∷ (61, Api.secret_key_generate)
    ∷ (62, Api.secret_key_public)
    ∷ (63, Api.secret_key_sign)
    ∷ []

unfoldable pub pde_ffi_dispatcher_primary : ℕ → Option Api
pde_ffi_dispatcher_primary = pick primary_arms

unfoldable pub pde_ffi_dispatcher_sync : ℕ → Option Api
pde_ffi_dispatcher_sync = pick sync_arms

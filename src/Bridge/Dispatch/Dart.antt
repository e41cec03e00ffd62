-- ===== src/Bridge/Dispatch/Dart.antt =====
-- The function numbers and modes of packages/iroh_quic/lib/src/rust/frb_generated.dart.
use iroh_dart.Prelude.{ℕ, Bool, true, false}
use iroh_dart.Bridge.Dispatch.{Api}

-- `funcId` of the Dart method.
unfoldable pub func_id : Api → ℕ
func_id Api.connection_accept_bi = 1
func_id Api.connection_accept_uni = 2
func_id Api.connection_alpn = 3
func_id Api.connection_close = 4
func_id Api.connection_closed = 5
func_id Api.connection_open_bi = 6
func_id Api.connection_open_uni = 7
func_id Api.connection_path_events = 8
func_id Api.connection_read_datagram = 9
func_id Api.connection_read_many_datagrams = 10
func_id Api.connection_remote_id = 11
func_id Api.connection_send_datagram = 12
func_id Api.connection_send_many_datagrams = 13
func_id Api.connection_stable_id = 14
func_id Api.connection_stats = 15
func_id Api.endpoint_accept = 16
func_id Api.endpoint_accept_incoming = 17
func_id Api.endpoint_addr = 18
func_id Api.endpoint_bound_sockets = 19
func_id Api.endpoint_close = 20
func_id Api.endpoint_connect = 21
func_id Api.endpoint_home_relay_status = 22
func_id Api.endpoint_id = 23
func_id Api.endpoint_is_closed = 24
func_id Api.endpoint_set_alpns = 25
func_id Api.endpoint_watch_addr = 26
func_id Api.incoming_accept = 27
func_id Api.incoming_ignore = 28
func_id Api.incoming_refuse = 29
func_id Api.incoming_remote_addr = 30
func_id Api.incoming_retry = 31
func_id Api.recv_stream_id = 32
func_id Api.recv_stream_read = 33
func_id Api.recv_stream_read_exact = 34
func_id Api.recv_stream_read_to_end = 35
func_id Api.recv_stream_stop = 36
func_id Api.router_builder_accept = 37
func_id Api.router_builder_spawn = 38
func_id Api.router_shutdown = 39
func_id Api.send_stream_finish = 40
func_id Api.send_stream_id = 41
func_id Api.send_stream_reset = 42
func_id Api.send_stream_write_all = 43
func_id Api.cancel_stream = 44
func_id Api.endpoint_addr_decode = 45
func_id Api.endpoint_addr_encode = 46
func_id Api.endpoint_addr_round_trip = 47
func_id Api.endpoint_bind = 48
func_id Api.endpoint_bind_with_address_lookup = 49
func_id Api.irohdart_abi_version = 50
func_id Api.irohdart_iroh_version = 51
func_id Api.public_key_check = 52
func_id Api.public_key_fmt_short = 53
func_id Api.public_key_from_hex = 54
func_id Api.public_key_from_z32 = 55
func_id Api.public_key_to_hex = 56
func_id Api.public_key_to_z32 = 57
func_id Api.public_key_verify = 58
func_id Api.relay_url_parse = 59
func_id Api.router_builder = 60
func_id Api.secret_key_generate = 61
func_id Api.secret_key_public = 62
func_id Api.secret_key_sign = 63

-- The Dart method waits for its answer on a port.
unfoldable pub has_port : Api → Bool
has_port Api.connection_accept_bi = true
has_port Api.connection_accept_uni = true
has_port Api.connection_alpn = false
has_port Api.connection_close = false
has_port Api.connection_closed = true
has_port Api.connection_open_bi = true
has_port Api.connection_open_uni = true
has_port Api.connection_path_events = true
has_port Api.connection_read_datagram = true
has_port Api.connection_read_many_datagrams = true
has_port Api.connection_remote_id = false
has_port Api.connection_send_datagram = false
has_port Api.connection_send_many_datagrams = false
has_port Api.connection_stable_id = false
has_port Api.connection_stats = false
has_port Api.endpoint_accept = true
has_port Api.endpoint_accept_incoming = true
has_port Api.endpoint_addr = false
has_port Api.endpoint_bound_sockets = false
has_port Api.endpoint_close = true
has_port Api.endpoint_connect = true
has_port Api.endpoint_home_relay_status = true
has_port Api.endpoint_id = false
has_port Api.endpoint_is_closed = false
has_port Api.endpoint_set_alpns = false
has_port Api.endpoint_watch_addr = true
has_port Api.incoming_accept = true
has_port Api.incoming_ignore = false
has_port Api.incoming_refuse = false
has_port Api.incoming_remote_addr = false
has_port Api.incoming_retry = false
has_port Api.recv_stream_id = false
has_port Api.recv_stream_read = true
has_port Api.recv_stream_read_exact = true
has_port Api.recv_stream_read_to_end = true
has_port Api.recv_stream_stop = true
has_port Api.router_builder_accept = true
has_port Api.router_builder_spawn = true
has_port Api.router_shutdown = true
has_port Api.send_stream_finish = true
has_port Api.send_stream_id = false
has_port Api.send_stream_reset = true
has_port Api.send_stream_write_all = true
has_port Api.cancel_stream = false
has_port Api.endpoint_addr_decode = false
has_port Api.endpoint_addr_encode = false
has_port Api.endpoint_addr_round_trip = false
has_port Api.endpoint_bind = true
has_port Api.endpoint_bind_with_address_lookup = true
has_port Api.irohdart_abi_version = false
has_port Api.irohdart_iroh_version = false
has_port Api.public_key_check = false
has_port Api.public_key_fmt_short = false
has_port Api.public_key_from_hex = false
has_port Api.public_key_from_z32 = false
has_port Api.public_key_to_hex = false
has_port Api.public_key_to_z32 = false
has_port Api.public_key_verify = false
has_port Api.relay_url_parse = false
has_port Api.router_builder = true
has_port Api.secret_key_generate = false
has_port Api.secret_key_public = false
has_port Api.secret_key_sign = false

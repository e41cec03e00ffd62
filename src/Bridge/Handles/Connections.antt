-- ===== src/Bridge/Handles/Connections.antt =====
-- The wire functions `wire__crate__api__connection__Connection_*` and `.._Incoming_*` of
-- packages/iroh_quic/rust/src/frb_generated.rs.
pub mod Live
pub mod Laws
use iroh_dart.Prelude.{ℕ, List, Str, Result, ok, err}
use iroh_dart.Connection as Conn
use iroh_dart.Connection.Incoming as Inc
use iroh_dart.Connection.Incoming.{Incoming}
use iroh_dart.Connection.Streams as Streams
use iroh_dart.Runtime.{stream_call}
use iroh_dart.Wire.{Cursor, Decoder, ◌>>=◌, pure}
use iroh_dart.Wire.Scalars.{
  decode_u32, decode_u64, decode_usize, decode_bytes, decode_string, encode_usize, encode_bytes,
  encode_string,
}
use iroh_dart.Wire.Values.{decode_byte_lists, encode_byte_lists, encode_stats}
use iroh_dart.Bridge.{nothing, encode_unit}
use iroh_dart.Bridge.Handles.{
  Glue, State, Wire, on_handle, answer, value, now, ran, put_connection, put_send, put_recv,
  put_streams,
}

-- `api_error_code` and `api_reason`.
pub decode_close_args : Cursor → Decoder (ℕ × List ℕ)
decode_close_args c = do code ← decode_u32 c; reason ← decode_bytes c; pure (code, reason)

-- `api_token` and `api_sink`; a sink is made from its text by the bridge library.
pub decode_stream_args : Cursor → Decoder (ℕ × Str)
decode_stream_args c = do token ← decode_u64 c; sink ← decode_string c; pure (token, sink)

module _ (g : Glue) where
  abbrev on_connection :
      {B : Type 0}
      → Decoder B
      → (g.quic.Connection → B → State g → Result (List ℕ) × State g)
      → Wire g
  on_connection decode run =
      on_handle (λ s. s.connections) decode (λ that conn args s. run conn args s)

  -- A call of a stream method starts a task, and returns; the sink gets its items later.
  abbrev pub start_stream : ℕ → State g → Result (List ℕ) × State g
  start_stream token s =
      now (value encode_unit) tt (record s { stream_tasks = stream_call token s.stream_tasks })

  pub wire_connection_alpn : Wire g
  wire_connection_alpn =
      on_connection nothing
        (λ conn _ s. now (value (encode_bytes g.cursor)) (Conn.alpn g.quic conn) s)

  pub wire_connection_remote_id : Wire g
  wire_connection_remote_id =
      on_connection nothing
        (λ conn _ s. now (value (encode_bytes g.cursor)) (Conn.remote_id g.quic conn) s)

  pub wire_connection_stable_id : Wire g
  wire_connection_stable_id =
      on_connection nothing
        (λ conn _ s. now (value (encode_usize g.cursor)) (Conn.stable_id g.quic conn) s)

  pub wire_connection_stats : Wire g
  wire_connection_stats =
      on_connection nothing
        (λ conn _ s. now (value (encode_stats g.cursor)) (Conn.stats g.quic conn s.world) s)

  pub wire_connection_closed : Wire g
  wire_connection_closed = on_connection nothing (λ conn _ s.
      let (text, w) = Conn.closed g.quic conn s.world in
      ran (value (encode_string g.cursor)) (ok text, w) s)

  pub wire_connection_close : Wire g
  wire_connection_close = on_connection (decode_close_args g.cursor) (λ conn args s.
      ran (value encode_unit) (ok tt, Conn.close g.quic conn args.0 args.1 s.world) s)

  unfoldable pub wire_connection_open_bi : Wire g
  wire_connection_open_bi =
      on_connection nothing (λ conn _ s. ran put_streams (Streams.open_bi g.quic conn s.world) s)

  pub wire_connection_open_uni : Wire g
  wire_connection_open_uni =
      on_connection nothing (λ conn _ s. ran put_send (Streams.open_uni g.quic conn s.world) s)

  pub wire_connection_accept_bi : Wire g
  wire_connection_accept_bi =
      on_connection nothing (λ conn _ s. ran put_streams (Streams.accept_bi g.quic conn s.world) s)

  pub wire_connection_accept_uni : Wire g
  wire_connection_accept_uni =
      on_connection nothing (λ conn _ s. ran put_recv (Streams.accept_uni g.quic conn s.world) s)

  pub wire_connection_send_datagram : Wire g
  wire_connection_send_datagram =
      on_connection (decode_bytes g.cursor) (λ conn bytes s.
        ran (value encode_unit) (Streams.send_datagram g.quic conn bytes s.world) s)

  pub wire_connection_read_datagram : Wire g
  wire_connection_read_datagram = on_connection nothing (λ conn _ s.
      ran (value (encode_bytes g.cursor)) (Streams.read_datagram g.quic conn s.world) s)

  pub wire_connection_send_many_datagrams : Wire g
  wire_connection_send_many_datagrams =
      on_connection (decode_byte_lists g.cursor) (λ conn datagrams s.
        ran (value (encode_usize g.cursor))
          (Streams.send_many_datagrams g.quic conn datagrams s.world) s)

  pub wire_connection_read_many_datagrams : Wire g
  wire_connection_read_many_datagrams = on_connection (decode_usize g.cursor) (λ conn max_count s.
      ran (value (encode_byte_lists g.cursor))
        (Streams.read_many_datagrams g.quic conn max_count s.world) s)

  unfoldable pub wire_connection_path_events : Wire g
  wire_connection_path_events =
      on_connection (decode_stream_args g.cursor) (λ conn args s. start_stream args.0 s)

  -- The calls on an inbound connection change its cell.
  unfoldable pub keep_cell :
      ℕ → Result (List ℕ) × State g → Incoming g.quic.Incoming → Result (List ℕ) × State g
  keep_cell that (r, s) cell =
      (r, record s { incomings = g.pools.store (Incoming g.quic.Incoming) that cell s.incomings })

  abbrev on_incoming : (ℕ → Incoming g.quic.Incoming → State g → Result (List ℕ) × State g) → Wire g
  on_incoming run = on_handle (λ s. s.incomings) nothing (λ that cell _ s. run that cell s)

  pub wire_incoming_remote_addr : Wire g
  wire_incoming_remote_addr =
      on_incoming (λ that cell s. now (value (encode_string g.cursor)) cell.remote_addr s)

  unfoldable pub wire_incoming_accept : Wire g
  wire_incoming_accept = on_incoming (λ that cell s.
      let (r, cell', w) = Inc.accept g.quic cell s.world in
      keep_cell that (ran put_connection (r, w) s) cell')

  unfoldable pub wire_incoming_refuse : Wire g
  wire_incoming_refuse = on_incoming (λ that cell s.
      let (r, cell', w) = Inc.refuse g.quic cell s.world in
      keep_cell that (ran (value encode_unit) (r, w) s) cell')

  unfoldable pub wire_incoming_retry : Wire g
  wire_incoming_retry = on_incoming (λ that cell s.
      let (r, cell', w) = Inc.retry g.quic cell s.world in
      keep_cell that (ran (value encode_unit) (r, w) s) cell')

  unfoldable pub wire_incoming_ignore : Wire g
  wire_incoming_ignore = on_incoming (λ that cell s.
      let (r, cell', w) = Inc.ignore g.quic cell s.world in
      keep_cell that (ran (value encode_unit) (r, w) s) cell')

-- ===== src/Bridge/Handles/Streams.antt =====
-- The wire functions `wire__crate__api__connection__SendStream_*` and `.._RecvStream_*` of
-- packages/iroh_quic/rust/src/frb_generated.rs.
pub mod Live
use iroh_dart.Prelude.{ℕ, List, Result}
use iroh_dart.Connection.Streams as Streams
use iroh_dart.Connection.Streams.{SendStream, RecvStream}
use iroh_dart.Wire.{Decoder}
use iroh_dart.Wire.Scalars.{decode_u32, decode_usize, decode_bytes, encode_u64, encode_bytes}
use iroh_dart.Wire.Values.{encode_opt_bytes}
use iroh_dart.Bridge.{nothing, encode_unit}
use iroh_dart.Bridge.Handles.{Glue, State, Wire, on_handle, value, now, ran}

module _ (g : Glue) where
  abbrev on_send :
      {B : Type 0}
      → Decoder B
      → (SendStream g.quic.SendStream → B → State g → Result (List ℕ) × State g)
      → Wire g
  on_send decode run =
      on_handle (λ s. s.send_streams) decode (λ that stream args s. run stream args s)

  abbrev on_recv :
      {B : Type 0}
      → Decoder B
      → (RecvStream g.quic.RecvStream → B → State g → Result (List ℕ) × State g)
      → Wire g
  on_recv decode run =
      on_handle (λ s. s.recv_streams) decode (λ that stream args s. run stream args s)

  pub wire_send_stream_id : Wire g
  wire_send_stream_id =
      on_send nothing (λ stream _ s. now (value (encode_u64 g.cursor)) stream.id s)

  unfoldable pub wire_send_stream_write_all : Wire g
  wire_send_stream_write_all =
      on_send (decode_bytes g.cursor) (λ stream bytes s.
        ran (value encode_unit) (Streams.write_all g.quic stream bytes s.world) s)

  pub wire_send_stream_finish : Wire g
  wire_send_stream_finish =
      on_send nothing
        (λ stream _ s. ran (value encode_unit) (Streams.finish g.quic stream s.world) s)

  pub wire_send_stream_reset : Wire g
  wire_send_stream_reset =
      on_send (decode_u32 g.cursor)
        (λ stream code s. ran (value encode_unit) (Streams.reset g.quic stream code s.world) s)

  pub wire_recv_stream_id : Wire g
  wire_recv_stream_id =
      on_recv nothing (λ stream _ s. now (value (encode_u64 g.cursor)) stream.id s)

  unfoldable pub wire_recv_stream_read : Wire g
  wire_recv_stream_read = on_recv (decode_usize g.cursor) (λ stream max_len s.
      ran (value (encode_opt_bytes g.cursor)) (Streams.read g.quic stream max_len s.world) s)

  pub wire_recv_stream_read_exact : Wire g
  wire_recv_stream_read_exact = on_recv (decode_usize g.cursor) (λ stream len s.
      ran (value (encode_bytes g.cursor)) (Streams.read_exact g.quic stream len s.world) s)

  pub wire_recv_stream_read_to_end : Wire g
  wire_recv_stream_read_to_end = on_recv (decode_usize g.cursor) (λ stream size_limit s.
      ran (value (encode_bytes g.cursor)) (Streams.read_to_end g.quic stream size_limit s.world) s)

  pub wire_recv_stream_stop : Wire g
  wire_recv_stream_stop =
      on_recv (decode_u32 g.cursor)
        (λ stream code s. ran (value encode_unit) (Streams.stop g.quic stream code s.world) s)

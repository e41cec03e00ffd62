-- ===== src/Bridge/Handles/Run/Opened.antt =====
-- A stream that a call opens, used through its handle.
use iroh_dart.Prelude.{ℕ, ◌≡◌, ap, ◌∙◌, true, some, List, [], ◌++◌, ok}
use iroh_dart.Connection.Streams as Streams
use iroh_dart.Connection.Streams.{SendStream, RecvStream}
use iroh_dart.Wire.{CursorLaws}
use iroh_dart.Wire.Reads.{IsBytes}
use iroh_dart.Wire.Scalars.{encode_usize, encode_bytes}
use iroh_dart.Wire.Scalars.Laws.{decode_bytes-encode, decode_usize-encode}
use iroh_dart.Wire.Values.{encode_opt_bytes}
use iroh_dart.Wire.Values.Laws.{IsU64}
use iroh_dart.Bridge.{encode_unit}
use iroh_dart.Bridge.Dispatch.{Api}
use iroh_dart.Bridge.Handles.{
  PoolLaws, Glue, State, value, ran, encode_handle, put_streams, put_send, put_recv,
}
use iroh_dart.Bridge.Handles.Laws.{on_handle-found, on_handle-alone}
use iroh_dart.Bridge.Handles.Live.{Live, Kept-at}
use iroh_dart.Bridge.Handles.Connections.{wire_connection_open_bi}
use iroh_dart.Bridge.Handles.Streams.{wire_send_stream_write_all, wire_recv_stream_read}
use iroh_dart.Bridge.Handles.Run.{run, dart_call, Session}
use iroh_dart.Bridge.Handles.Run.Laws.{dart_call-run}
use iroh_dart.Bridge.Handles.Run.Live.{Session-Live}

module _ (g : Glue) where
  -- The state after `open_bi`, with the two halves under their numbers.
  abbrev pub opened :
      SendStream g.quic.SendStream × RecvStream g.quic.RecvStream → g.quic.World → State g → State g
  opened both w s = record s {
    world = w;
    send_streams = (g.pools.put _ both.0 s.send_streams).1;
    recv_streams = (g.pools.put _ both.1 s.recv_streams).1;
  }

  abbrev pub send_handle : SendStream g.quic.SendStream → State g → ℕ
  send_handle half s = (g.pools.put _ half s.send_streams).0.0

  abbrev pub recv_handle : RecvStream g.quic.RecvStream → State g → ℕ
  recv_handle half s = (g.pools.put _ half s.recv_streams).0.0

  -- If the tables keep `PoolLaws`, the cursor keeps `CursorLaws`, and `end` accepts that nothing is
  -- left: a call of `open_bi` on a connection that Dart holds, which iroh answers with two halves,
  -- answers with two handles. After any calls that return, with any changes of iroh's world between
  -- them, `write_all` with the first handle writes to that first half, and `read` with the second
  -- reads from that second half, in the world as it is then.
  pub open_bi_used :
      PoolLaws g.pools
      → CursorLaws g.cursor
      → g.ends [] ≡ true
      → (s t : State g) (that : ℕ) (conn : g.quic.Connection)
        (both : SendStream g.quic.SendStream × RecvStream g.quic.RecvStream) (w : g.quic.World)
        (sent : List ℕ) (max_len : ℕ)
      → IsU64 that
      → g.pools.find _ that s.connections ≡ some conn
      → Streams.open_bi g.quic conn s.world ≡ (ok both, w)
      → Session g (opened both w s) t
      → IsU64 (send_handle both.0 s)
      → IsU64 (recv_handle both.1 s)
      → IsBytes sent
      → IsU64 max_len
      → (dart_call g Api.connection_open_bi (encode_usize g.cursor that) s
          ≡ some (
            ok (
                encode_handle g.cursor (g.pools.put _ both.0 s.send_streams).0
                ++ encode_handle g.cursor (g.pools.put _ both.1 s.recv_streams).0),
            opened both w s,
          ))
        × (dart_call g Api.send_stream_write_all
              (encode_usize g.cursor (send_handle both.0 s) ++ encode_bytes g.cursor sent)
              t
            ≡ some (ran (value encode_unit) (Streams.write_all g.quic both.0 sent t.world) t))
        × (dart_call g Api.recv_stream_read
              (encode_usize g.cursor (recv_handle both.1 s) ++ encode_usize g.cursor max_len)
              t
            ≡ some (
                ran
                  (value (encode_opt_bytes g.cursor))
                  (Streams.read g.quic both.1 max_len t.world)
                  t))
  unfolding run wire_connection_open_bi wire_send_stream_write_all wire_recv_stream_read ran
      put_streams put_send put_recv
  open_bi_used pools cursor ended s t that conn both w sent max_len small found e session hs hr
        bytes hm =
      let live : Live (opened both w s) t = Session-Live g pools _ t session in
      (
        dart_call-run g Api.connection_open_bi (encode_usize g.cursor that) s
            ∙ on_handle-alone g ended cursor _ _ that s conn small found
            ∙ ap (λ x. some (ran put_streams x s)) e,
        dart_call-run g Api.send_stream_write_all _ t
            ∙ on_handle-found g ended cursor _ _ _ (send_handle both.0 s)
                (encode_bytes g.cursor sent) sent t hs
                (decode_bytes-encode g.cursor cursor sent bytes) both.0
                (Kept-at _ _ _ (live.send_streams _) (pools.find-put _ both.0 s.send_streams)),
        dart_call-run g Api.recv_stream_read _ t
            ∙ on_handle-found g ended cursor _ _ _ (recv_handle both.1 s)
                (encode_usize g.cursor max_len) max_len t hr
                (decode_usize-encode g.cursor cursor max_len hm) both.1
                (Kept-at _ _ _ (live.recv_streams _) (pools.find-put _ both.1 s.recv_streams)),
      )

-- ===== src/Bridge/Handles/Run/Tests.antt =====
-- The theorems on the calls of a process, in one process.
use iroh_dart.Prelude.{ℕ, ◌≡◌, refl, none, some, List, [], ◌∷◌, ◌++◌, ok, arith}
use iroh_dart.Connection.Tests.{small}
use iroh_dart.Connection.Streams as Streams
use iroh_dart.Connection.Streams.{SendStream, RecvStream}
use iroh_dart.Wire.LittleEndian.{little_endian, little_endian-CursorLaws}
use iroh_dart.Wire.Reads.{IsBytes}
use iroh_dart.Wire.Scalars.{encode_usize, encode_bytes}
use iroh_dart.Wire.Values.{encode_opt_bytes}
use iroh_dart.Bridge.{encode_unit}
use iroh_dart.Bridge.Dispatch.{Api}
use iroh_dart.Bridge.Handles.{State, put_connection, ran, value, encode_handle}
use iroh_dart.Bridge.Handles.Toy.{numbered-PoolLaws, process, busy, one}
use iroh_dart.Bridge.Handles.Live.{Live}
use iroh_dart.Bridge.Handles.Run.{dart_call, Session, idle, meanwhile, call, counts}
use iroh_dart.Bridge.Handles.Counts.{connection, increments, export_call, increment_strong_count}
use iroh_dart.Prelude.Int.{pos}
use iroh_dart.Iroh.Toy.{toy}
use iroh_dart.Key.{EndpointAddrParts}
use iroh_dart.Endpoint as Ep
use iroh_dart.Endpoint.{map_relay_mode, endpoint_bind}
use iroh_dart.Endpoint.Tests.{binding}
use iroh_dart.Wire.Values.Laws.{IsParts}
use iroh_dart.Bridge.Handles.Endpoints.{BindArgs}
use iroh_dart.Bridge.Handles.Endpoints.Laws.{IsBindArgs, bind_message, connect_message}
use iroh_dart.Bridge.Handles.Run.Live.{Session-Live}
use iroh_dart.Bridge.Handles.Run.Opened.{open_bi_used, opened}
use iroh_dart.Bridge.Handles.Run.Bound.{endpoint_bind_used, bound}
use iroh_dart.Runtime.{abort_stream, looping}
use iroh_dart.Runtime.Cancel.{AsksOnly}
use iroh_dart.Runtime.Cancel.{stream_call_lem}
use iroh_dart.Prelude.{true}
use iroh_dart.Wire.Scalars.{is_utf8, encode_u64}
use iroh_dart.Bridge.Handles.Run.Cancelled.{streaming, stream_message, streams_cancelled}

abbrev both : SendStream ℕ × RecvStream (List ℕ)
both = (record { inner = 1; id = 1 }, record { inner = []; id = 0 })

opens : Streams.open_bi process.quic [] 5 ≡ (ok both, 6)
unfolding Streams.open_bi
opens = refl

abbrev after : State process
after = opened process both 6 busy

small_bytes : IsBytes (1 ∷ 2 ∷ [])
small_bytes = (ground arith, (ground arith, (ground arith, tt)))

open_bi_used_example :
    (dart_call process Api.connection_open_bi (encode_usize little_endian 0) busy
      ≡ some (
        ok (
            encode_handle little_endian (process.pools.put _ both.0 busy.send_streams).0
            ++ encode_handle little_endian (process.pools.put _ both.1 busy.recv_streams).0),
        after,
      ))
    × (dart_call process Api.send_stream_write_all
          (encode_usize little_endian 0 ++ encode_bytes little_endian (1 ∷ 2 ∷ []))
          after
        ≡ some (
            ran
              (value encode_unit)
              (Streams.write_all process.quic both.0 (1 ∷ 2 ∷ []) after.world)
              after))
    × (dart_call process Api.recv_stream_read
          (encode_usize little_endian 0 ++ encode_usize little_endian 9)
          after
        ≡ some (
            ran
              (value (encode_opt_bytes little_endian))
              (Streams.read process.quic both.1 9 after.world)
              after))
open_bi_used_example =
    open_bi_used process numbered-PoolLaws little_endian-CursorLaws refl busy after 0 [] both 6
      (1 ∷ 2 ∷ []) 9 (omega arith) refl opens (idle after) (omega arith) (omega arith) small_bytes
      (omega arith)

open_bi_opens :
    dart_call process Api.connection_open_bi (encode_usize little_endian 0) busy
    ≡ some (
      ok (encode_handle little_endian (0, pos 0) ++ encode_handle little_endian (0, pos 0)),
      after,
    )
open_bi_opens =
    (open_bi_used process numbered-PoolLaws little_endian-CursorLaws refl busy after 0 [] both 6
      (1 ∷ 2 ∷ []) 9 (omega arith) refl opens (idle after) (omega arith) (omega arith) small_bytes
      (omega arith)).0

-- After the call, iroh's world changes.
abbrev changed : State process
changed = record after { world = 9 }

-- And Dart makes a copy of the connection's handle.
abbrev copied : State process
unfolding export_call increment_strong_count
copied = export_call (increments connection 0) changed

opened_session : Session process busy copied
unfolding export_call increment_strong_count
opened_session =
    call Api.connection_open_bi (encode_usize little_endian 0) _ busy after copied open_bi_opens (
      meanwhile 9 after.stream_tasks after copied
        (counts (increments connection 0) changed copied (omega arith) (idle copied)))

Session-Live_example : Live busy copied
Session-Live_example = Session-Live process numbered-PoolLaws busy copied opened_session

-- A bind with the default relays and no more.
abbrev plain_args : BindArgs
plain_args = record {
  secret_key = none;
  alpns = [];
  relay_mode_kind = pos 0;
  custom_relay_urls = [];
}

plain_args-IsBindArgs : IsBindArgs plain_args
plain_args-IsBindArgs = record {
  secret_key = tt;
  count = ground arith;
  alpns = tt;
  relay_mode_kind = ground arith;
  custom_relay_urls = (ground arith, tt);
}

abbrev nowhere : EndpointAddrParts
nowhere = record { id = []; relay_urls = []; ip_addrs = [] }

nowhere-IsParts : IsParts nowhere
nowhere-IsParts = record {
  id = (ground arith, tt);
  relay_urls = (ground arith, tt);
  ip_addrs = (ground arith, tt);
}

abbrev endpoint : List ℕ
endpoint = 0 ∷ 0 ∷ []

binds : endpoint_bind toy small binding none [] (pos 0) [] 5 ≡ (ok endpoint, 6)
unfolding endpoint_bind map_relay_mode
binds = refl

abbrev bound_state : State process
bound_state = bound process endpoint 6 busy

endpoint_bind_used_example :
    (dart_call process Api.endpoint_bind (bind_message little_endian plain_args) busy
      ≡ some (ok (encode_handle little_endian (0, pos 0)), bound_state))
    × (dart_call process Api.endpoint_id (encode_usize little_endian 0) bound_state
        ≡ some (ok (encode_bytes little_endian (Ep.id toy small binding endpoint)), bound_state))
    × (dart_call process Api.endpoint_connect
          (encode_usize little_endian 0 ++ connect_message little_endian nowhere (1 ∷ 2 ∷ []))
          bound_state
        ≡ some (
            ran put_connection
              (Ep.connect toy small binding endpoint nowhere (1 ∷ 2 ∷ []) 6)
              bound_state))
endpoint_bind_used_example =
    endpoint_bind_used process numbered-PoolLaws little_endian-CursorLaws refl busy bound_state
      plain_args endpoint 6 nowhere (1 ∷ 2 ∷ []) plain_args-IsBindArgs binds (idle bound_state)
      (omega arith) nowhere-IsParts small_bytes

abbrev serving : State process
serving = record busy { endpoints = one [] }

filed : (streaming process 4 serving).stream_tasks.registry 4 ≡ some 0
filed = (stream_call_lem 4 serving.stream_tasks).0

is_utf8_nil : is_utf8 [] ≡ true
unfolding is_utf8
is_utf8_nil = refl

streams_cancelled_example :
    (dart_call process Api.connection_path_events (stream_message process 0 4 []) serving
      ≡ some (ok [], streaming process 4 serving))
    × (dart_call process Api.endpoint_watch_addr (stream_message process 0 4 []) serving
        ≡ some (ok [], streaming process 4 serving))
    × (dart_call process Api.endpoint_home_relay_status (stream_message process 0 4 []) serving
        ≡ some (ok [], streaming process 4 serving))
    × ((streaming process 4 serving).stream_tasks.registry 4 ≡ some 0)
    × (((streaming process 4 serving).stream_tasks.task 0).pc ≡ looping)
    × (dart_call process Api.cancel_stream
          (encode_u64 little_endian 4)
          (streaming process 4 serving)
        ≡ some (
          ok [],
          record (streaming process 4 serving) {
            stream_tasks = abort_stream 4 (streaming process 4 serving).stream_tasks;
          },
        ))
    × AsksOnly 4 0
        (streaming process 4 serving).stream_tasks
        (abort_stream 4 (streaming process 4 serving).stream_tasks)
streams_cancelled_example =
    streams_cancelled process little_endian-CursorLaws refl serving (streaming process 4 serving) 0
      0 4 [] [] [] (omega arith) (omega arith) (omega arith) ((ground arith, tt), is_utf8_nil) refl
      refl filed

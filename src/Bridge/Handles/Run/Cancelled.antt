-- ===== src/Bridge/Handles/Run/Cancelled.antt =====
-- A stream of values that a call opens, cancelled by its token.
use iroh_dart.Prelude.{ℕ, ◌≡◌, ap, ◌∙◌, true, some, List, [], ◌++◌, Str, ok}
use iroh_dart.Runtime.{stream_call, abort_stream, looping}
use iroh_dart.Runtime.Cancel.{AsksOnly, stream_call_lem, abort_stream_lem}
use iroh_dart.Wire.{CursorLaws}
use iroh_dart.Wire.Reads.{IsStr}
use iroh_dart.Wire.Scalars.{encode_usize, encode_u64, encode_string}
use iroh_dart.Wire.Values.Laws.{IsU64}
use iroh_dart.Bridge.Laws.{wire_cancel_stream_lem}
use iroh_dart.Bridge.Dispatch.{Api}
use iroh_dart.Bridge.Handles.{Glue, State}
use iroh_dart.Bridge.Handles.Laws.{on_handle-found}
use iroh_dart.Bridge.Handles.Connections.{wire_connection_path_events}
use iroh_dart.Bridge.Handles.Connections.Laws.{decode_stream_args-Reads}
use iroh_dart.Bridge.Handles.Endpoints.{wire_endpoint_watch_addr, wire_endpoint_home_relay_status}
use iroh_dart.Bridge.Handles.Run.{run, cancelled, dart_call}
use iroh_dart.Bridge.Handles.Run.Laws.{dart_call-run}

module _ (g : Glue) where
  -- The state after a stream call.
  abbrev pub streaming : ℕ → State g → State g
  streaming token s = record s { stream_tasks = stream_call token s.stream_tasks }

  -- The message of a stream call.
  abbrev pub stream_message : ℕ → ℕ → Str → List ℕ
  stream_message that token sink =
      encode_usize g.cursor that ++ (encode_u64 g.cursor token ++ encode_string g.cursor sink)

  -- If the cursor keeps `CursorLaws` and `end` accepts that nothing is left: each of the three
  -- stream calls, on a connection or an endpoint that Dart holds, starts a task and files it under
  -- the token that Dart gave. In every later state where this token still has that task, a call of
  -- `cancel_stream` with the token asks this task to stop and takes its entry out of the
  -- registry; no other task, no other entry and nothing else of the process changes.
  pub streams_cancelled :
      CursorLaws g.cursor
      → g.ends [] ≡ true
      → (s t : State g) (conn_handle endpoint_handle token : ℕ) (sink : Str)
        (conn : g.quic.Connection) (ep : g.binding.Endpoint)
      → IsU64 conn_handle
      → IsU64 endpoint_handle
      → IsU64 token
      → IsStr sink
      → g.pools.find _ conn_handle s.connections ≡ some conn
      → g.pools.find _ endpoint_handle s.endpoints ≡ some ep
      → t.stream_tasks.registry token ≡ some s.stream_tasks.next_id
      → (dart_call g Api.connection_path_events (stream_message conn_handle token sink) s
          ≡ some (ok [], streaming token s))
        × (dart_call g Api.endpoint_watch_addr (stream_message endpoint_handle token sink) s
            ≡ some (ok [], streaming token s))
        × (dart_call g Api.endpoint_home_relay_status (stream_message endpoint_handle token sink) s
            ≡ some (ok [], streaming token s))
        × ((streaming token s).stream_tasks.registry token ≡ some s.stream_tasks.next_id)
        × (((streaming token s).stream_tasks.task s.stream_tasks.next_id).pc ≡ looping)
        × (dart_call g Api.cancel_stream (encode_u64 g.cursor token) t
            ≡ some (ok [], record t { stream_tasks = abort_stream token t.stream_tasks }))
        × AsksOnly token s.stream_tasks.next_id t.stream_tasks (abort_stream token t.stream_tasks)
  unfolding run wire_connection_path_events wire_endpoint_watch_addr wire_endpoint_home_relay_status
  streams_cancelled cursor ended s t conn_handle endpoint_handle token sink conn ep hc he ht hs
        found there filed =
      let args = decode_stream_args-Reads g.cursor cursor token sink ht hs in
      let (entry, runs) = stream_call_lem token s.stream_tasks in
      (
        dart_call-run g Api.connection_path_events _ s
            ∙ on_handle-found g ended cursor _ _ _ conn_handle _ (token, sink) s hc args conn found,
        dart_call-run g Api.endpoint_watch_addr _ s
            ∙ on_handle-found g ended cursor _ _ _ endpoint_handle _ (token, sink) s he args ep
                there,
        dart_call-run g Api.endpoint_home_relay_status _ s
            ∙ on_handle-found g ended cursor _ _ _ endpoint_handle _ (token, sink) s he args ep
                there,
        entry,
        runs,
        dart_call-run g Api.cancel_stream _ t
            ∙ ap (λ o. cancelled g o t)
                (wire_cancel_stream_lem g.cursor g.ends cursor token t.stream_tasks ended ht),
        abort_stream_lem token s.stream_tasks.next_id t.stream_tasks filed,
      )

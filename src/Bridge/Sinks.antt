-- ===== src/Bridge/Sinks.antt =====
-- The stream calls `Endpoint::watch_addr` and `Endpoint::home_relay_status` of
-- packages/iroh_quic/rust/src/api/endpoint.rs and `Connection::path_events` of
-- packages/iroh_quic/rust/src/api/connection.rs, from iroh's stream to the messages that Dart gets:
-- the loop of each task beside the registry, and the codec of what it adds to its sink.
pub mod Steps
pub mod Laws
pub mod Silent
pub mod Drain
mod Tests
use mathlib.Core.Option
use iroh_dart.Prelude.{
  ℕ, Bool, true, false, Option, none, some, List, [], ◌∷◌, ◌++◌, map, Str, update, if◌then◌else◌,
}
use iroh_dart.Iroh.{IrohBase}
use iroh_dart.Key.{EndpointAddrParts, parts_from_endpoint_addr}
use iroh_dart.Watch.{
  PathEvent, PathEventInfo, RelayStatusInfo, HomeRelay, map_path_event, map_status,
}
use iroh_dart.Runtime as Runtime
use iroh_dart.Wire.{Cursor, Decoder}
use iroh_dart.Wire.Values.{encode_parts, encode_statuses, encode_event}
use iroh_dart.Wire.Dart.{
  DartBuffer, sse_decode_endpoint_addr_parts, sse_decode_list_relay_status_info,
  sse_decode_path_event_info,
}

-- What the tasks use of third-party code.
pub record Sources : Type 1 where
  pub base : IrohBase
  pub RelayStatus : Type 0
  pub home_relay : HomeRelay RelayStatus
  pub PathAddr : Type 0
  -- The `Debug` text of a path's address.
  pub debug : PathAddr → Str
  pub cursor : Cursor
  pub buffer : DartBuffer

pub data StreamCall : Type 0 where
  watch_addr home_relay_status path_events : StreamCall

-- What Dart gets of one item.
abbrev pub Shown : StreamCall → Type 0
Shown watch_addr = EndpointAddrParts
Shown home_relay_status = List RelayStatusInfo
Shown path_events = PathEventInfo

module _ (src : Sources) where
  -- What iroh's stream yields.
  abbrev pub Item : StreamCall → Type 0
  Item watch_addr = src.base.EndpointAddr
  Item home_relay_status = List src.RelayStatus
  Item path_events = PathEvent src.PathAddr

  -- The argument of `sink.add` in the three loops.
  pub show : (call : StreamCall) → Item call → Shown call
  show watch_addr addr = parts_from_endpoint_addr src.base addr
  show home_relay_status statuses = map (map_status src.home_relay) statuses
  show path_events event = map_path_event src.debug event

  -- The bytes that `sink.add` posts, without the frame of the bridge library.
  pub encode_shown : (call : StreamCall) → Shown call → List ℕ
  encode_shown watch_addr parts = encode_parts src.cursor parts
  encode_shown home_relay_status statuses = encode_statuses src.cursor statuses
  encode_shown path_events event = encode_event src.cursor event

  -- `decodeSuccessData` of the Dart stream.
  pub decode_shown : (call : StreamCall) → Decoder (Shown call)
  decode_shown watch_addr = sse_decode_endpoint_addr_parts src.buffer
  decode_shown home_relay_status = sse_decode_list_relay_status_info src.buffer
  decode_shown path_events = sse_decode_path_event_info src.buffer

  abbrev pub whole_message : {B : Type 0} → Option (B × List ℕ) → Option B
  whole_message none = none
  whole_message (some (b, [])) = some b
  whole_message (some (b, more ∷ bytes)) = none

  -- What Dart's listener gets of the messages in its port, each of which it reads to its end.
  pub listen : (call : StreamCall) → List (List ℕ) → Option (List (Shown call))
  listen call [] = some []
  listen call (m ∷ ms) = elim (whole_message (decode_shown call m)) [
    | none ↦ none
    | some b ↦ Option.map (λ bs. b ∷ bs) (listen call ms)
  ]

  -- The stream of one call.
  pub record Stream : Type 0 where
    pub call : StreamCall
    -- What iroh's stream has yielded so far, what of it the task has not taken yet, and whether
    -- there will be no more.
    pub yielded : List (Item call)
    pub waiting : List (Item call)
    pub over : Bool
    -- The messages in Dart's port, and whether `sink.add` has failed.
    pub sent : List (List ℕ)
    pub refused : Bool

  abbrev pub new_stream : StreamCall → Stream
  new_stream call = record {
    call = call;
    yielded = [];
    waiting = [];
    over = false;
    sent = [];
    refused = false;
  }

  pub message : (call : StreamCall) → Item call → List ℕ
  unfolding show encode_shown
  message call x = encode_shown call (show call x)

  abbrev pub loop_turn_on : Bool → (st : Stream) → List (Item st.call) → Stream × Bool
  loop_turn_on accepts st [] = (st, st.over)
  loop_turn_on true st (x ∷ xs) =
      (record st { waiting = xs; sent = st.sent ++ message st.call x ∷ [] }, false)
  loop_turn_on false st (x ∷ xs) = (record st { waiting = xs; refused = true }, true)

  -- One turn of `while let Some(x) = stream.next().await { if sink.add(..).is_err() { break; } }`,
  -- with the stream after it, and whether the task has left the loop. With no item at hand the
  -- task waits.
  pub loop_turn : Bool → Stream → Stream × Bool
  loop_turn accepts st = loop_turn_on accepts st st.waiting

  -- The registry with its tasks, and the stream of each task.
  pub record System : Type 0 where
    pub runtime : Runtime.World
    pub streams : ℕ → Stream

  abbrev pub start : System
  start = record { runtime = Runtime.start; streams = λ id. new_stream watch_addr }

  -- A stream call up to its `spawn`.
  pub open_stream : StreamCall → ℕ → System → System
  open_stream call token s = record {
    runtime = Runtime.spawn_task token s.runtime;
    streams = update s.streams s.runtime.next_id (new_stream call);
  }

  -- The runtime polls a task, whose sink accepts an item or not.
  pub poll_loop : Bool → ℕ → System → System
  unfolding loop_turn
  poll_loop accepts id s =
      let (st, left) = loop_turn accepts (s.streams id) in
      record {
        runtime = if left then Runtime.leave_loop id s.runtime else s.runtime;
        streams = update s.streams id st;
      }

  -- iroh's side of a stream.
  pub yield_item : (id : ℕ) (s : System) → Item (s.streams id).call → System
  yield_item id s x =
      let st = s.streams id in
      record s {
        streams =
            update s.streams id
              (record st { yielded = st.yielded ++ x ∷ []; waiting = st.waiting ++ x ∷ [] });
      }

  pub end_stream : ℕ → System → System
  end_stream id s = record s {
    streams = update s.streams id (record (s.streams id) { over = true });
  }

-- ===== src/Bridge/Sinks/Tests.antt =====
-- One path event stream: two events, of which the task has taken the first.
use iroh_dart.Prelude.{
  ◌≡◌, refl, true, false, none, some, List, [], ◌∷◌, ◌++◌, map, Str, codes, All, arith,
}
use iroh_dart.Watch.{HomeRelay, PathEvent, map_path_event}
use iroh_dart.Iroh.Toy.{toy}
use iroh_dart.Runtime.{leaving, spawn_task, finish_call, leave_loop, drop_task, abort_stream}
use iroh_dart.Wire.Scalars.{is_utf8}
use iroh_dart.Wire.LittleEndian.{little_endian}
use iroh_dart.Wire.Dart.Buffer.{dart_buffer, dart_buffer-BufferLaws}
use iroh_dart.Bridge.Sinks.{
  Sources, path_events, System, start, loop_turn, show, listen, open_stream, poll_loop, yield_item,
  end_stream,
}
use iroh_dart.Bridge.Sinks.Steps.{
  Reach, begin, next, Step, Steps, here, more, opens, registers, polls, yields, ends, after_cancel,
  after_drop,
}
use iroh_dart.Bridge.Sinks.Laws.{Fits, listen-Reach}
use iroh_dart.Bridge.Sinks.Silent.{Steps-sent, cancelled-sent}
use iroh_dart.Bridge.Sinks.Drain.{poll_times, listen-poll_times}

abbrev home : HomeRelay Str
home = record {
  url = λ s. s;
  is_connected = λ s. true;
  last_error = λ s. none;
  auth_denied_reason = λ s. none;
}

abbrev source : Sources
source = record {
  base = toy;
  RelayStatus = Str;
  home_relay = home;
  PathAddr = Str;
  debug = λ s. s;
  cursor = little_endian;
  buffer = dart_buffer;
}

abbrev called : System source
unfolding open_stream spawn_task
called = open_stream source path_events 5 (start source)

abbrev opened : PathEvent Str
opened = PathEvent.opened (codes "relay")

abbrev missed : PathEvent Str
missed = PathEvent.lagged 3

abbrev yielded : System source
unfolding open_stream spawn_task yield_item
yielded = yield_item source 0 (yield_item source 0 called opened) missed

abbrev halfway : System source
unfolding open_stream spawn_task yield_item poll_loop loop_turn
halfway = poll_loop source true 0 yielded

halfway-Reach : Reach source halfway
unfolding open_stream spawn_task yield_item poll_loop loop_turn
halfway-Reach =
    next
      (next
        (next (next begin (opens path_events 5 (λ id h. absurd (omega arith))))
          (yields 0 opened refl))
        (yields 0 missed refl))
      (polls true 0 refl)

abbrev over : System source
unfolding open_stream spawn_task yield_item poll_loop loop_turn end_stream
over = end_stream source 0 halfway

over-Reach : Reach source over
unfolding open_stream spawn_task yield_item poll_loop loop_turn end_stream
over-Reach = next halfway-Reach (ends 0)

fits : All (Fits source path_events) (opened ∷ missed ∷ [])
unfolding show is_utf8 map_path_event
fits = (
  record { remote_addr = ((omega arith, refl), refl); missed = tt },
  (record { remote_addr = tt; missed = omega arith }, tt),
)

listen-Reach_example :
    (done rest : List (PathEvent Str)) × (opened ∷ missed ∷ [] ≡ done ++ rest)
    × (listen source path_events (halfway.streams 0).sent
        ≡ some (map (show source path_events) done))
    × (rest ≡ missed ∷ [])
unfolding open_stream spawn_task yield_item poll_loop loop_turn
listen-Reach_example = listen-Reach source dart_buffer-BufferLaws 0 halfway-Reach fits

listen-poll_times_example :
    (((poll_times source 2 0 over).runtime.task 0).pc ≡ leaving)
    × (listen source path_events ((poll_times source 2 0 over).streams 0).sent
        ≡ some (map (show source path_events) (opened ∷ missed ∷ [])))
unfolding open_stream spawn_task yield_item poll_loop loop_turn end_stream
listen-poll_times_example =
    listen-poll_times source 0 dart_buffer-BufferLaws over-Reach refl refl fits

-- The sink refuses the second event, and the task leaves its loop.
abbrev refused : System source
unfolding open_stream spawn_task yield_item poll_loop loop_turn leave_loop
refused = poll_loop source false 0 halfway

abbrev later : System source
unfolding open_stream spawn_task yield_item poll_loop loop_turn leave_loop
later = yield_item source 0 refused opened

later-Steps : Steps source refused later
unfolding open_stream spawn_task yield_item poll_loop loop_turn leave_loop
later-Steps = more here (yields 0 opened refl)

Steps-sent_example : (later.streams 0).sent ≡ (refused.streams 0).sent
unfolding open_stream spawn_task yield_item poll_loop loop_turn leave_loop
Steps-sent_example = Steps-sent source 0 later-Steps (omega arith) (λ e. cc)

-- The call has returned; `cancel_stream` comes, tokio drops the task, and iroh yields once more.
abbrev registered : System source
unfolding open_stream spawn_task yield_item poll_loop loop_turn finish_call
registered = record halfway { runtime = finish_call 0 halfway.runtime }

registered-Reach : Reach source registered
unfolding open_stream spawn_task yield_item poll_loop loop_turn finish_call
registered-Reach = next halfway-Reach (registers 0 refl)

abbrev stopped : System source
unfolding open_stream spawn_task yield_item poll_loop loop_turn finish_call abort_stream drop_task
stopped = after_drop source 0 (after_cancel source 5 registered)

abbrev still_yielding : System source
unfolding open_stream spawn_task yield_item poll_loop loop_turn finish_call abort_stream drop_task
still_yielding = yield_item source 0 stopped opened

cancelled-sent_example :
    Step source (after_cancel source 5 registered) stopped
    × ((still_yielding.streams 0).sent ≡ (registered.streams 0).sent)
unfolding open_stream spawn_task yield_item poll_loop loop_turn finish_call abort_stream drop_task
cancelled-sent_example =
    cancelled-sent source 0 registered-Reach refl refl (more here (yields 0 opened refl))

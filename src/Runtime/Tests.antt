-- ===== src/Runtime/Tests.antt =====
-- Two calls with the tokens 1 and 2, of which the first has returned; and the second task leaving.
use iroh_dart.Prelude.{◌≡◌, ◌≢◌, refl, some, none, true, false, arith}
use iroh_dart.Runtime.{
  World, start, spawn_task, finish_call, leave_loop, finish_task, drop_task, abort_stream,
  stream_call, looping, ended,
}
use iroh_dart.Runtime.Steps.{
  Step, Reach, Inv, begin, next, spawns, registers, leaves, drops, cancels, Reach-Inv, Step-Inv,
}
use iroh_dart.Runtime.Cancel.{abort_stream_reaches, abort_stream_spares, abort_stream_lost}
use iroh_dart.Runtime.Stale.{now, later, finish_call_stale}
use iroh_dart.Runtime.Tokens as Tokens
use iroh_dart.Runtime.Tokens.{
  Process, Runs, new_isolate, make_stream, listen_stream, isolate-Reach, stream_call_collides,
}

abbrev two_calls : World
unfolding spawn_task finish_call
two_calls = spawn_task 2 (finish_call 0 (spawn_task 1 start))

two_calls-Reach : Reach two_calls
unfolding spawn_task finish_call
two_calls-Reach =
    next (next (next begin (spawns 1 (λ id h. absurd (omega arith)))) (registers 0 refl))
      (spawns 2 (λ id h. ground arith))

abbrev second_leaves : World
unfolding leave_loop
second_leaves = leave_loop 1 two_calls

second_leaves-Reach : Reach second_leaves
unfolding spawn_task finish_call leave_loop
second_leaves-Reach = next two_calls-Reach (leaves 1 refl)

abbrev first_cancelled : World
unfolding abort_stream drop_task
first_cancelled = drop_task 0 (abort_stream 1 two_calls)

first_cancelled-Reach : Reach first_cancelled
unfolding spawn_task finish_call abort_stream drop_task
first_cancelled-Reach = next (next two_calls-Reach (cancels 1)) (drops 0 refl refl)

Step-Inv_example : Inv (abort_stream 1 two_calls)
Step-Inv_example = Step-Inv (cancels 1) (Reach-Inv two_calls-Reach)

abort_stream_reaches_example :
    (((abort_stream 1 two_calls).task 0).abort_asked ≡ true)
    × ((abort_stream 1 two_calls).registry 1 ≢ some 0)
    × Step (abort_stream 1 two_calls) (drop_task 0 (abort_stream 1 two_calls))
unfolding spawn_task finish_call
abort_stream_reaches_example = abort_stream_reaches 0 two_calls-Reach refl refl

abort_stream_spares_example : (abort_stream 1 two_calls).task 1 ≡ two_calls.task 1
unfolding spawn_task finish_call
abort_stream_spares_example = abort_stream_spares 1 1 two_calls-Reach (omega arith)

abort_stream_lost_example :
    (abort_stream 2 two_calls ≡ two_calls)
    × (((finish_call 1 (abort_stream 2 two_calls)).task 1).pc ≡ looping)
    × ((finish_call 1 (abort_stream 2 two_calls)).registry 2 ≡ some 1)
unfolding spawn_task finish_call
abort_stream_lost_example = abort_stream_lost 1 two_calls-Reach refl refl

-- After the second task's end and registration, the first is cancelled and dropped.
finish_call_stale_example :
    (((abort_stream 1 (finish_call 1 (finish_task 1 second_leaves))).task 1).pc ≡ ended)
    × ((abort_stream 1 (finish_call 1 (finish_task 1 second_leaves))).registry 2 ≡ some 1)
unfolding spawn_task finish_call leave_loop
finish_call_stale_example =
    finish_call_stale 1 second_leaves-Reach refl refl (later now (cancels 1) (omega arith))

-- A stream is made, listened to and cancelled before `register_stream`; a second one is made.
abbrev isolate_run : Process
unfolding make_stream listen_stream
isolate_run = record {
  isolate = (make_stream (listen_stream 1 (make_stream new_isolate).1)).1;
  world = abort_stream 1 (spawn_task 1 start);
}

isolate_run-Runs : Runs isolate_run
unfolding make_stream listen_stream
isolate_run-Runs =
    Tokens.next
      (Tokens.next (Tokens.next (Tokens.next Tokens.begin Tokens.makes) (Tokens.listens 1 refl))
        (Tokens.cancels 1))
      Tokens.makes

isolate-Reach_example : Reach isolate_run.world
isolate-Reach_example = isolate-Reach isolate_run-Runs

-- The first call of each of two isolates.
first_tokens : (make_stream new_isolate).0 ≡ 1
unfolding make_stream
first_tokens = refl

stream_call_collides_example :
    let v : World = abort_stream 1 (stream_call 1 (stream_call 1 start)) in
    ((v.task 1).abort_asked ≡ true)
    × ((v.task 0).abort_asked ≡ false)
    × ((v.task 0).pc ≡ looping)
    × (v.registry 1 ≡ none)
stream_call_collides_example = stream_call_collides 1 start

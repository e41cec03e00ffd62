-- ===== src/Runtime/Cancel.antt =====
-- What `cancel_stream` and a task's normal end do, at any point of any interleaving.
use iroh_dart.Prelude.{refl, ℕ, ◌≡◌, ◌≢◌, inl, inr, none, some, true, false, Option-cases, arith}
use iroh_dart.Runtime.{
  World, looping, leaving, finish_call, finish_task, spawn_task, drop_task, abort_stream,
  stream_call, register_stream, unregister_stream, abort,
}
use iroh_dart.Runtime.Steps.{Step, drops, Reach, Inv, Reach-Inv}

pub abort_stream_asks :
    {w : World} (id : ℕ)
    → Inv w
    → (w.task id).pc ≡ looping
    → (w.task id).pending ≡ false
    → (((abort_stream (w.task id).token w).task id).abort_asked ≡ true)
      × ((abort_stream (w.task id).token w).registry (w.task id).token ≢ some id)
      × (((abort_stream (w.task id).token w).task id).pc ≡ looping)
unfolding abort_stream
abort_stream_asks {w} id v run done = elim (Option-cases (w.registry (w.task id).token)) [
  | inl e ↦ rw (e, abort_stream) (ground (arith, v.listed id), ground arith, ground arith)
  | inr (k, e) ↦
      rw (e, abort_stream)
        (
          ground (arith, v.listed id, v.unique k id, v.filed (w.task id).token k, v.fresh id),
          ground arith,
          ground arith,
        )
]

-- A whole stream call files its task, which runs.
pub stream_call_lem :
    (token : ℕ) (w : World)
    → ((stream_call token w).registry token ≡ some w.next_id)
      × (((stream_call token w).task w.next_id).pc ≡ looping)
unfolding stream_call spawn_task finish_call register_stream
stream_call_lem token w = (ground arith, ground arith)

-- The task under the token is asked, and is otherwise as it was, and its entry is gone; the other
-- tasks and the other entries are as they were.
abbrev pub AsksOnly : ℕ → ℕ → World → World → Type 0
AsksOnly token id w v =
    (v.task id ≡ record (w.task id) { abort_asked = true })
    × ((j : ℕ) → j ≢ id → v.task j ≡ w.task j)
    × (v.registry token ≡ none)
    × ((other : ℕ) → other ≢ token → v.registry other ≡ w.registry other)
    × (v.next_id ≡ w.next_id)

pub abort_stream_lem :
    (token id : ℕ) (w : World)
    → w.registry token ≡ some id
    → AsksOnly token id w (abort_stream token w)
unfolding abort_stream abort unregister_stream
abort_stream_lem token id w e =
    rw (e, abort_stream)
      (ground arith, λ j other. ground arith, ground arith, λ t other. ground arith, refl)

-- In a reachable state, `cancel_stream` with the token of a stream task that runs, and whose call
-- has returned, asks that task to stop (if it was not asked before), after which the runtime may
-- drop it, and takes its entry out of the registry.
pub abort_stream_reaches :
    {w : World} (id : ℕ)
    → Reach w
    → (w.task id).pc ≡ looping
    → (w.task id).pending ≡ false
    → (((abort_stream (w.task id).token w).task id).abort_asked ≡ true)
      × ((abort_stream (w.task id).token w).registry (w.task id).token ≢ some id)
      × Step (abort_stream (w.task id).token w) (drop_task id (abort_stream (w.task id).token w))
abort_stream_reaches {w} id r run done =
    let v : Inv w = Reach-Inv r in
    let e = abort_stream_asks id v run done in (e.0, e.1, drops id e.2 e.0)

-- In a reachable state, `cancel_stream` leaves each task alone that has another token.
pub abort_stream_spares :
    {w : World} (token id : ℕ)
    → Reach w
    → (w.task id).token ≢ token
    → (abort_stream token w).task id ≡ w.task id
unfolding abort_stream
abort_stream_spares {w} token id r other =
    let v : Inv w = Reach-Inv r in
    elim (Option-cases (w.registry token)) [
      | inl e ↦ rw (e, abort_stream)
      | inr (k, e) ↦ ground (arith, v.filed token k)
    ]

pending_unlisted :
    {w : World} (id : ℕ) → Inv w → (w.task id).pending ≡ true → w.registry (w.task id).token ≡ none
pending_unlisted {w} id v pend = elim (Option-cases (w.registry (w.task id).token)) [
  | inl e ↦ e
  | inr (k, e) ↦ ground (arith, v.filed (w.task id).token k, v.unique k id, v.fresh id)
]

-- In a reachable state, `cancel_stream` before the call's `register_stream` is lost: it changes
-- nothing, and when the call then registers the handle, a task that was running still runs and is
-- filed under the token that was cancelled.
pub abort_stream_lost :
    {w : World} (id : ℕ)
    → Reach w
    → (w.task id).pc ≡ looping
    → (w.task id).pending ≡ true
    → (abort_stream (w.task id).token w ≡ w)
      × (((finish_call id (abort_stream (w.task id).token w)).task id).pc ≡ looping)
      × ((finish_call id (abort_stream (w.task id).token w)).registry (w.task id).token ≡ some id)
unfolding abort_stream finish_call
abort_stream_lost {w} id r run pend =
    let e : w.registry (w.task id).token ≡ none = pending_unlisted id (Reach-Inv r) pend in
    ground (arith, e)

-- In a reachable state, right after a task's `unregister_stream` no token of the registry leads to
-- that task.
pub finish_task_clears :
    {w : World} (id token : ℕ)
    → Reach w
    → (w.task id).pc ≡ leaving
    → (finish_task id w).registry token ≢ some id
unfolding finish_task
finish_task_clears {w} id token r out =
    let v : Inv w = Reach-Inv r in λ e. ground (arith, v.filed token id)

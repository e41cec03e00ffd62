-- ===== src/Runtime.antt =====
-- packages/iroh_quic/rust/src/runtime.rs: the registry of live stream tasks, and the stream tasks
-- that the `watch_addr`, `home_relay_status` and `path_events` calls start on the runtime.
-- An `AbortHandle` is the number of its task. The registry's hash map is a function.
pub mod Steps
pub mod Cancel
pub mod Tokens
pub mod Stale
pub mod Job
mod Tests
use iroh_dart.Prelude.{ℕ, Option, none, some, suc, Bool, true, false, update, if◌then◌else◌, ◌==◌}

abbrev pub Registry : Type 0
Registry = ℕ → Option ℕ

-- Where a stream task stands: `looping` in `stream.next().await` and `sink.add`; `leaving` after
-- the loop and before `unregister_stream`; `ended` after it; `cancelled` when tokio has dropped it.
pub data Pc : Type 0 where
  absent looping leaving ended cancelled : Pc

-- One call of a stream method. `pending` says that the caller has spawned the task and has not yet
-- run `register_stream`; `abort_asked` that its abort handle was used.
pub record Task : Type 0 where
  pub token : ℕ
  pub pc : Pc
  pub pending : Bool
  pub abort_asked : Bool

pub record World : Type 0 where
  pub registry : Registry
  pub task : ℕ → Task
  pub next_id : ℕ

abbrev pub no_task : Task
no_task = record { token = 0; pc = absent; pending = false; abort_asked = false }

abbrev pub start : World
start = record { registry = λ _. none; task = λ _. no_task; next_id = 0 }

-- `insert` drops an older handle under the same token, which does not abort its task.
unfoldable pub register_stream : ℕ → ℕ → Registry → Registry
register_stream token handle reg = update reg token (some handle)

unfoldable pub unregister_stream : ℕ → Registry → Registry
unregister_stream token reg = update reg token none

-- `AbortHandle::abort` asks only. When tokio drops the task is a step of the runtime.
unfoldable pub abort : ℕ → (ℕ → Task) → ℕ → Task
abort id task = update task id (record (task id) { abort_asked = true })

-- `abort_stream`, which `cancel_stream` calls: take the handle out, and abort its task.
unfoldable pub abort_stream : ℕ → World → World
unfolding abort unregister_stream
abort_stream token w = elim (w.registry token) [
  | none ↦ w
  | some id ↦ record w { registry = unregister_stream token w.registry; task = abort id w.task }
]

-- The call has run `rt().spawn`: the task may run, and its handle is not registered yet.
unfoldable pub spawn_task : ℕ → World → World
spawn_task token w = record w {
  task =
      update w.task w.next_id
        (record { token = token; pc = looping; pending = true; abort_asked = false });
  next_id = suc w.next_id;
}

-- The last line of the call, `register_stream(token, handle.abort_handle())`.
unfoldable pub finish_call : ℕ → World → World
unfolding register_stream
finish_call id w = record w {
  registry = register_stream (w.task id).token id w.registry;
  task = update w.task id (record (w.task id) { pending = false });
}

-- A whole stream call, where nothing comes between its two steps.
pub stream_call : ℕ → World → World
unfolding spawn_task finish_call
stream_call token w = finish_call w.next_id (spawn_task token w)

-- The stream has ended, or `sink.add` has failed: the task is out of its loop.
unfoldable pub leave_loop : ℕ → World → World
leave_loop id w = record w { task = update w.task id (record (w.task id) { pc = leaving }) }

-- The last line of the task, `unregister_stream(token)`.
unfoldable pub finish_task : ℕ → World → World
unfolding unregister_stream
finish_task id w = record w {
  registry = unregister_stream (w.task id).token w.registry;
  task = update w.task id (record (w.task id) { pc = ended });
}

-- tokio drops a task that waits and was asked to stop.
unfoldable pub drop_task : ℕ → World → World
drop_task id w = record w { task = update w.task id (record (w.task id) { pc = cancelled }) }

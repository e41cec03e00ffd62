-- ===== src/Bridge/Sinks/Steps.antt =====
-- The interleavings of stream calls, their tasks, `cancel_stream`, iroh's streams and Dart's sinks.
-- Beside the registry they are the steps of Runtime/Steps.
use iroh_dart.Prelude.{inl, inr, Bool-cases, ℕ, ◌≡◌, ◌⊎◌, Bool, true, false}
use iroh_dart.Runtime.{
  looping, leaving, leave_loop, finish_call, finish_task, drop_task, abort_stream,
}
use iroh_dart.Runtime.Steps as Registry
use iroh_dart.Runtime.Steps.{IsNewToken}
use iroh_dart.Bridge.Sinks.{
  Sources, StreamCall, Item, System, start, loop_turn, open_stream, poll_loop, yield_item,
  end_stream,
}

module _ (src : Sources) where
  -- Dart's `cancel_stream`, and tokio's drop of a task.
  abbrev pub after_cancel : ℕ → System src → System src
  after_cancel token s = record s { runtime = abort_stream token s.runtime }

  abbrev pub after_drop : ℕ → System src → System src
  after_drop id s = record s { runtime = drop_task id s.runtime }

  pub data Step (s : System src) : System src → Type 0 where
    opens :
        (call : StreamCall) (token : ℕ)
        → IsNewToken token s.runtime
        → Step s (open_stream src call token s)
    registers :
        (id : ℕ)
        → (s.runtime.task id).pending ≡ true
        → Step s (record s { runtime = finish_call id s.runtime })
    -- The sink answers as it likes.
    polls :
        (accepts : Bool) (id : ℕ)
        → (s.runtime.task id).pc ≡ looping
        → Step s (poll_loop src accepts id s)
    unregisters :
        (id : ℕ)
        → (s.runtime.task id).pc ≡ leaving
        → Step s (record s { runtime = finish_task id s.runtime })
    drops :
        (id : ℕ)
        → (s.runtime.task id).pc ≡ looping
        → (s.runtime.task id).abort_asked ≡ true
        → Step s (after_drop id s)
    cancels : (token : ℕ) → Step s (after_cancel token s)
    yields :
        (id : ℕ) (x : Item src (s.streams id).call)
        → (s.streams id).over ≡ false
        → Step s (yield_item src id s x)
    ends : (id : ℕ) → Step s (end_stream src id s)

  pub data Reach : System src → Type 0 where
    begin : Reach (start src)
    next : {s s' : System src} → Reach s → Step s s' → Reach s'

  -- Any steps after a state.
  pub data Steps (s : System src) : System src → Type 0 where
    here : Steps s s
    more : {s' s'' : System src} → Steps s s' → Step s' s'' → Steps s s''

  -- The world of the registry takes a step of its own relation, or stays.
  poll_loop-runtime :
      (accepts : Bool) (id : ℕ) (s : System src)
      → ((poll_loop src accepts id s).runtime ≡ s.runtime)
        ⊎ ((poll_loop src accepts id s).runtime ≡ leave_loop id s.runtime)
  unfolding poll_loop
  poll_loop-runtime accepts id s = elim (Bool-cases (loop_turn src accepts (s.streams id)).1) [
    | inl e ↦ inr (rw e)
    | inr e ↦ inl (rw e)
  ]

  -- What happens to a stream and its task is a step of the registry of Runtime/Steps, or leaves the
  -- registry alone; so what is proved of the registry holds of the whole.
  pub Reach-runtime : {s : System src} → Reach s → Registry.Reach s.runtime
  unfolding open_stream yield_item end_stream
  Reach-runtime begin = Registry.begin
  Reach-runtime (next {s} r (opens call token new)) =
      Registry.next (Reach-runtime r) (Registry.spawns token new)
  Reach-runtime (next {s} r (registers id p)) =
      Registry.next (Reach-runtime r) (Registry.registers id p)
  Reach-runtime (next {s} r (polls accepts id p)) = elim (poll_loop-runtime accepts id s) [
    | inl e ↦ rw e (Reach-runtime r)
    | inr e ↦ rw e (Registry.next (Reach-runtime r) (Registry.leaves id p))
  ]
  Reach-runtime (next {s} r (unregisters id p)) =
      Registry.next (Reach-runtime r) (Registry.unregisters id p)
  Reach-runtime (next {s} r (drops id p q)) =
      Registry.next (Reach-runtime r) (Registry.drops id p q)
  Reach-runtime (next {s} r (cancels token)) =
      Registry.next (Reach-runtime r) (Registry.cancels token)
  Reach-runtime (next {s} r (yields id x p)) = Reach-runtime r
  Reach-runtime (next {s} r (ends id)) = Reach-runtime r

-- ===== src/Runtime/Stale.antt =====
-- A task that ends before its call has registered it.
use iroh_dart.Prelude.{ℕ, ◌<◌, ◌≡◌, ◌≢◌, inl, inr, Option-cases, some, true, false, arith}
use iroh_dart.Runtime.{
  World, leaving, ended, spawn_task, finish_call, leave_loop, finish_task, drop_task, abort_stream,
}
use iroh_dart.Runtime.Steps.{
  Step, spawns, registers, leaves, unregisters, drops, cancels, Reach, next, Inv, Reach-Inv,
}

-- A step that is not `cancel_stream` with this token.
abbrev pub Spares : (token : ℕ) {w v : World} → Step w v → Type 0
Spares token (spawns t new) = Unit
Spares token (registers id p) = Unit
Spares token (leaves id p) = Unit
Spares token (unregisters id p) = Unit
Spares token (drops id p q) = Unit
Spares token (cancels t) = t ≢ token

-- Any later steps, none of which is `cancel_stream` with this token.
pub data Later (token : ℕ) (w : World) : World → Type 0 where
  now : Later token w w
  later : {u v : World} → Later token w u → (s : Step u v) → Spares token s → Later token w v

-- The entry of an ended task.
abbrev Stale : ℕ → ℕ → World → Type 0
Stale token id w =
    (id < w.next_id)
    × ((w.task id).token ≡ token)
    × ((w.task id).pc ≡ ended)
    × ((w.task id).pending ≡ false)
    × (w.registry token ≡ some id)

Step-Stale :
    (token id : ℕ) {w v : World} (s : Step w v)
    → Spares token s
    → Inv w
    → Stale token id w
    → Stale token id v
unfolding spawn_task finish_call leave_loop finish_task drop_task abort_stream
Step-Stale token id {w} (spawns t new) h v (e, i, o, c, y) =
    (omega arith, ground arith, ground arith, ground arith, ground arith)
Step-Stale token id {w} (registers j p) h v (e, i, o, c, y) =
    (e, ground arith, ground arith, ground arith, ground (arith, v.unique j id, v.fresh j))
Step-Stale token id {w} (leaves j p) h v (e, i, o, c, y) =
    (e, ground arith, ground arith, ground arith, y)
Step-Stale token id {w} (unregisters j p) h v (e, i, o, c, y) =
    (e, ground arith, ground arith, ground arith, ground (arith, v.unique j id, v.fresh j))
Step-Stale token id {w} (drops j p q) h v (e, i, o, c, y) =
    (e, ground arith, ground arith, ground arith, y)
Step-Stale token id {w} (cancels t) h v (e, i, o, c, y) = elim (Option-cases (w.registry t)) [
  | inl none_there ↦ rw (none_there, abort_stream) (e, i, o, c, y)
  | inr (k, k_there) ↦
      rw (k_there, abort_stream) ((e, ground arith, ground arith, ground arith, ground arith))
]

Later-Stale :
    (token id : ℕ) {w v : World}
    → Later token w v
    → Reach w
    → Stale token id w
    → Reach v × Stale token id v
Later-Stale token id now r st = (r, st)
Later-Stale token id (later l s spares) r st =
    let (reached, stale) = Later-Stale token id l r st in
    (next reached s, Step-Stale token id s spares (Reach-Inv reached) stale)

-- In a reachable state, take a task that has left its loop while its call has not come to
-- `register_stream`. When the task first ends, and the call then registers the handle, the entry of
-- the ended task stays through all later steps of any interleaving, as long as none of them is
-- `cancel_stream` with its token.
pub finish_call_stale :
    {w v : World} (id : ℕ)
    → Reach w
    → (w.task id).pc ≡ leaving
    → (w.task id).pending ≡ true
    → Later (w.task id).token (finish_call id (finish_task id w)) v
    → ((v.task id).pc ≡ ended) × (v.registry (w.task id).token ≡ some id)
unfolding finish_call finish_task
finish_call_stale {w} id r out pend l =
    let inv : Inv w = Reach-Inv r in
    let token = (w.task id).token in
    let unregistered : Reach (finish_task id w) = next r (unregisters id out) in
    let registered : Reach (finish_call id (finish_task id w)) =
      next unregistered (registers id (ground arith)) in
    let stale : Stale token id (finish_call id (finish_task id w)) =
      (ground (arith, inv.fresh id), ground arith, ground arith, ground arith, ground arith) in
    let (reached, still) = Later-Stale token id l registered stale in (still.2, still.4)

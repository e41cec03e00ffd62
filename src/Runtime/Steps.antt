-- ===== src/Runtime/Steps.antt =====
-- The interleavings of stream calls, their tasks and `cancel_stream` on the threads of the runtime.
use iroh_dart.Prelude.{
  inl, inr, Option-cases, ℕ, ◌<◌, ◌≤◌, ◌≡◌, ◌≢◌, refl, some, true, false, arith,
}
use iroh_dart.Runtime.{
  World, absent, looping, leaving, cancelled, start, spawn_task, finish_call, leave_loop,
  finish_task, drop_task, abort_stream,
}

-- Dart counts its tokens up (`_streamTokenCounter`), so a call's token is new.
abbrev pub IsNewToken : ℕ → World → Type 0
IsNewToken token w = (id : ℕ) → id < w.next_id → (w.task id).token ≢ token

pub data Step (w : World) : World → Type 0 where
  spawns : (token : ℕ) → IsNewToken token w → Step w (spawn_task token w)
  registers : (id : ℕ) → (w.task id).pending ≡ true → Step w (finish_call id w)
  leaves : (id : ℕ) → (w.task id).pc ≡ looping → Step w (leave_loop id w)
  unregisters : (id : ℕ) → (w.task id).pc ≡ leaving → Step w (finish_task id w)
  drops :
      (id : ℕ) → (w.task id).pc ≡ looping → (w.task id).abort_asked ≡ true → Step w (drop_task id w)
  cancels : (token : ℕ) → Step w (abort_stream token w)

pub data Reach : World → Type 0 where
  begin : Reach start
  next : {w v : World} → Reach w → Step w v → Reach v

-- What the interleavings keep.
pub record Inv (w : World) : Type 0 where
  -- Tasks that do not exist yet are `absent`.
  pub fresh : (id : ℕ) → w.next_id ≤ id → ((w.task id).pc ≡ absent) × ((w.task id).pending ≡ false)
  -- An entry is filed under the token of its task, whose call has returned.
  pub filed :
      (token id : ℕ)
      → w.registry token ≡ some id
      → (id < w.next_id) × ((w.task id).token ≡ token) × ((w.task id).pending ≡ false)
  -- No two tasks have one token.
  pub unique :
      (i j : ℕ) → i < w.next_id → j < w.next_id → (w.task i).token ≡ (w.task j).token → i ≡ j
  -- Only a task that was asked to stop is cancelled.
  pub asked : (id : ℕ) → (w.task id).pc ≡ cancelled → (w.task id).abort_asked ≡ true
  -- A task that runs, was not asked to stop, and whose call has returned, is in the registry.
  pub listed :
      (id : ℕ)
      → (w.task id).pc ≡ looping
      → (w.task id).pending ≡ false
      → (w.task id).abort_asked ≡ false
      → w.registry (w.task id).token ≡ some id

start-Inv : Inv start
start-Inv = record {
  fresh = λ id h. (refl, refl);
  filed = λ token id h. cc;
  unique = λ i j hi hj e. absurd (omega arith);
  asked = λ id h. cc;
  listed = λ id h p a. cc;
}

spawn_task-Inv : (token : ℕ) (w : World) → IsNewToken token w → Inv w → Inv (spawn_task token w)
unfolding spawn_task
spawn_task-Inv token w new v = record {
  fresh = λ id h. ground (arith, v.fresh id);
  filed = λ t id h. ground (arith, v.filed t id);
  unique = λ i j hi hj e. ground (arith, v.unique i j, new i, new j);
  asked = λ id h. ground (arith, v.asked id);
  listed = λ id h p a. ground (arith, v.listed id);
}

finish_call-Inv : (id : ℕ) (w : World) → (w.task id).pending ≡ true → Inv w → Inv (finish_call id w)
unfolding finish_call
finish_call-Inv id w pend v = record {
  fresh = λ j h. ground (arith, v.fresh j, v.fresh id);
  filed = λ t j h. ground (arith, v.filed t j, v.fresh id);
  unique = λ i j hi hj e. ground (arith, v.unique i j);
  asked = λ j h. ground (arith, v.asked j);
  listed = λ j h p a. ground (arith, v.listed j, v.unique id j, v.fresh id, v.fresh j);
}

leave_loop-Inv : (id : ℕ) (w : World) → (w.task id).pc ≡ looping → Inv w → Inv (leave_loop id w)
unfolding leave_loop
leave_loop-Inv id w run v = record {
  fresh = λ j h. ground (arith, v.fresh j, v.fresh id);
  filed = λ t j h. ground (arith, v.filed t j);
  unique = λ i j hi hj e. ground (arith, v.unique i j);
  asked = λ j h. ground (arith, v.asked j);
  listed = λ j h p a. ground (arith, v.listed j);
}

finish_task-Inv : (id : ℕ) (w : World) → (w.task id).pc ≡ leaving → Inv w → Inv (finish_task id w)
unfolding finish_task
finish_task-Inv id w out v = record {
  fresh = λ j h. ground (arith, v.fresh j, v.fresh id);
  filed = λ t j h. ground (arith, v.filed t j);
  unique = λ i j hi hj e. ground (arith, v.unique i j);
  asked = λ j h. ground (arith, v.asked j);
  listed = λ j h p a. ground (arith, v.listed j, v.unique id j, v.fresh id, v.fresh j);
}

drop_task-Inv :
    (id : ℕ) (w : World)
    → (w.task id).pc ≡ looping
    → (w.task id).abort_asked ≡ true
    → Inv w
    → Inv (drop_task id w)
unfolding drop_task
drop_task-Inv id w run ask v = record {
  fresh = λ j h. ground (arith, v.fresh j, v.fresh id);
  filed = λ t j h. ground (arith, v.filed t j);
  unique = λ i j hi hj e. ground (arith, v.unique i j);
  asked = λ j h. ground (arith, v.asked j);
  listed = λ j h p a. ground (arith, v.listed j);
}

abort_stream-Inv : (token : ℕ) (w : World) → Inv w → Inv (abort_stream token w)
unfolding abort_stream
abort_stream-Inv token w v = elim (Option-cases (w.registry token)) [
  | inl e ↦ rw (e, abort_stream) v
  | inr (k, e) ↦
      rw (e, abort_stream)
        (record {
          fresh = λ j h. ground (arith, v.fresh j, v.fresh k, v.filed token k);
          filed = λ t j h. ground (arith, v.filed t j);
          unique = λ i j hi hj e'. ground (arith, v.unique i j);
          asked = λ j h. ground (arith, v.asked j);
          listed = λ j h p a. ground (arith, v.listed j, v.filed token k);
        })
]

-- Every step of any interleaving keeps the invariant: entries are filed under their task's token,
-- tokens are unique, only tasks that were asked are cancelled, and a task that runs, was not asked
-- to stop, and whose call has returned, is in the registry.
pub Step-Inv : {w v : World} → Step w v → Inv w → Inv v
Step-Inv {w} (spawns token new) h = spawn_task-Inv token w new h
Step-Inv {w} (registers id p) h = finish_call-Inv id w p h
Step-Inv {w} (leaves id p) h = leave_loop-Inv id w p h
Step-Inv {w} (unregisters id p) h = finish_task-Inv id w p h
Step-Inv {w} (drops id p q) h = drop_task-Inv id w p q h
Step-Inv {w} (cancels token) h = abort_stream-Inv token w h

pub Reach-Inv : {w : World} → Reach w → Inv w
Reach-Inv begin = start-Inv
Reach-Inv (next r s) = Step-Inv s (Reach-Inv r)

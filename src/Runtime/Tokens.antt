-- ===== src/Runtime/Tokens.antt =====
-- The tokens of the stream calls: `_cancellableStream` of packages/iroh_quic/lib/src/endpoint.dart,
-- whose counter is a static variable, of which each Dart isolate has its own.
use iroh_dart.Prelude.{
  ℕ, suc, ◌≡◌, ◌≢◌, ◌<◌, ◌≤◌, Bool, true, false, update, arith, none, some, Option-cases, inl, inr,
}
use iroh_dart.Runtime.{
  World, start, looping, leaving, spawn_task, finish_call, leave_loop, finish_task, drop_task,
  abort_stream, stream_call, register_stream, unregister_stream, abort,
}
use iroh_dart.Runtime.Cancel.{stream_call_lem}
use iroh_dart.Runtime.Steps as Steps
use iroh_dart.Runtime.Steps.{Reach}

-- `unheard` are the tokens of the streams that were made and have no listener yet.
pub record Isolate : Type 0 where
  pub stream_token_counter : ℕ
  pub unheard : ℕ → Bool

abbrev pub new_isolate : Isolate
new_isolate = record { stream_token_counter = 0; unheard = λ token. false }

-- `final token = BigInt.from(++_streamTokenCounter)`.
unfoldable pub make_stream : Isolate → ℕ × Isolate
make_stream i =
    let token = suc i.stream_token_counter in
    (token, record { stream_token_counter = token; unheard = update i.unheard token true })

-- `onListen`, which a single-subscription controller runs once, calls `create(token)`.
unfoldable pub listen_stream : ℕ → Isolate → Isolate
listen_stream token i = record i { unheard = update i.unheard token false }

-- One isolate and the Rust side.
pub record Process : Type 0 where
  pub isolate : Isolate
  pub world : World

pub data Step (p : Process) : Process → Type 0 where
  makes : Step p (record p { isolate = (make_stream p.isolate).1 })
  listens :
      (token : ℕ)
      → p.isolate.unheard token ≡ true
      → Step p
          (record { isolate = listen_stream token p.isolate; world = spawn_task token p.world })
  registers :
      (id : ℕ)
      → (p.world.task id).pending ≡ true
      → Step p (record p { world = finish_call id p.world })
  leaves :
      (id : ℕ)
      → (p.world.task id).pc ≡ looping
      → Step p (record p { world = leave_loop id p.world })
  unregisters :
      (id : ℕ)
      → (p.world.task id).pc ≡ leaving
      → Step p (record p { world = finish_task id p.world })
  drops :
      (id : ℕ)
      → (p.world.task id).pc ≡ looping
      → (p.world.task id).abort_asked ≡ true
      → Step p (record p { world = drop_task id p.world })
  -- `onCancel`
  cancels : (token : ℕ) → Step p (record p { world = abort_stream token p.world })

pub data Runs : Process → Type 0 where
  begin : Runs (record { isolate = new_isolate; world = start })
  next : {p q : Process} → Runs p → Step p q → Runs q

-- Tokens that were used are behind the counter, and none of them waits for a listener.
record Fresh (p : Process) : Type 0 where
  used : (id : ℕ) → id < p.world.next_id → (p.world.task id).token ≤ p.isolate.stream_token_counter
  made : (token : ℕ) → p.isolate.unheard token ≡ true → token ≤ p.isolate.stream_token_counter
  apart :
      (token id : ℕ)
      → p.isolate.unheard token ≡ true
      → id < p.world.next_id
      → (p.world.task id).token ≢ token

Step-Fresh : {p q : Process} → Step p q → Fresh p → Fresh q
unfolding make_stream listen_stream spawn_task finish_call leave_loop finish_task drop_task
    abort_stream
Step-Fresh makes v = record {
  used = λ id h. ground (arith, v.used id);
  made = λ token h. ground (arith, v.made token);
  apart = λ token id h l. ground (arith, v.apart token id, v.used id);
}
Step-Fresh (listens t u) v = record {
  used = λ id h. ground (arith, v.used id, v.made t);
  made = λ token h. ground (arith, v.made token);
  apart = λ token id h l. ground (arith, v.apart token id);
}
Step-Fresh (registers i u) v = record {
  used = λ id h. ground (arith, v.used id, v.used i);
  made = v.made;
  apart = λ token id h l. ground (arith, v.apart token id, v.apart token i);
}
Step-Fresh (leaves i u) v = record {
  used = λ id h. ground (arith, v.used id, v.used i);
  made = v.made;
  apart = λ token id h l. ground (arith, v.apart token id, v.apart token i);
}
Step-Fresh (unregisters i u) v = record {
  used = λ id h. ground (arith, v.used id, v.used i);
  made = v.made;
  apart = λ token id h l. ground (arith, v.apart token id, v.apart token i);
}
Step-Fresh (drops i u w) v = record {
  used = λ id h. ground (arith, v.used id, v.used i);
  made = v.made;
  apart = λ token id h l. ground (arith, v.apart token id, v.apart token i);
}
Step-Fresh {p} (cancels t) v = elim (Option-cases (p.world.registry t)) [
  | inl e ↦ rw (e, abort_stream) v
  | inr (k, e) ↦
      rw (e, abort_stream)
        (record {
          used = λ id h. ground (arith, v.used id, v.used k);
          made = v.made;
          apart = λ token id h l. ground (arith, v.apart token id, v.apart token k);
        })
]

Runs-Fresh : {p : Process} → Runs p → Fresh p
Runs-Fresh begin = record {
  used = λ id h. absurd (omega arith);
  made = λ token h. cc;
  apart = λ token id h l. absurd (omega arith);
}
Runs-Fresh (next r s) = Step-Fresh s (Runs-Fresh r)

-- When every stream call of the process comes from the wrapper in one isolate, each of its runs is
-- a run of the registry's interleavings, in which each call brings a new token.
pub isolate-Reach : {p : Process} → Runs p → Reach p.world
isolate-Reach begin = Steps.begin
isolate-Reach (next r makes) = isolate-Reach r
isolate-Reach (next r (listens t u)) =
    let v = Runs-Fresh r in Steps.next (isolate-Reach r) (Steps.spawns t (λ id h. v.apart t id u h))
isolate-Reach (next r (registers id u)) = Steps.next (isolate-Reach r) (Steps.registers id u)
isolate-Reach (next r (leaves id u)) = Steps.next (isolate-Reach r) (Steps.leaves id u)
isolate-Reach (next r (unregisters id u)) = Steps.next (isolate-Reach r) (Steps.unregisters id u)
isolate-Reach (next r (drops id u w)) = Steps.next (isolate-Reach r) (Steps.drops id u w)
isolate-Reach (next r (cancels t)) = Steps.next (isolate-Reach r) (Steps.cancels t)

-- When two calls are made with one token, as the first calls of two isolates are, `cancel_stream`
-- with it asks the second task to stop; the first runs on, was not asked, and no entry is left
-- under the token.
pub stream_call_collides :
    (token : ℕ) (w : World)
    → let v : World = abort_stream token (stream_call token (stream_call token w)) in
      ((v.task (suc w.next_id)).abort_asked ≡ true)
      × ((v.task w.next_id).abort_asked ≡ false)
      × ((v.task w.next_id).pc ≡ looping)
      × (v.registry token ≡ none)
unfolding stream_call spawn_task finish_call register_stream abort_stream abort unregister_stream
stream_call_collides token w =
    let e : (stream_call token (stream_call token w)).registry token ≡ some (suc w.next_id) =
      (stream_call_lem token (stream_call token w)).0 in
    rw (e, abort_stream) (ground arith, ground arith, ground arith, ground arith)

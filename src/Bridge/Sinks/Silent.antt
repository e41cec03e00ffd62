-- ===== src/Bridge/Sinks/Silent.antt =====
-- A task that has left its loop, or that tokio has dropped, sends nothing more.
use iroh_dart.Prelude.{
  inl, inr, Bool-cases, Option-cases, ==_iff, ℕ, ◌<◌, ◌≡◌, ◌≢◌, refl, ◌∙◌, subst, Bool, false, List,
  update, update_right, ◌==◌, arith,
}
use iroh_dart.Runtime.{
  looping, leave_loop, finish_call, finish_task, drop_task, abort_stream, spawn_task,
}
use iroh_dart.Runtime.Steps as Registry
use iroh_dart.Runtime.Cancel.{abort_stream_asks}
use iroh_dart.Bridge.Sinks.{
  Sources, Stream, System, loop_turn, open_stream, poll_loop, yield_item, end_stream,
}
use iroh_dart.Bridge.Sinks.Steps.{
  Step, opens, registers, polls, unregisters, drops, cancels, yields, ends, Steps, here, more,
  Reach, next, Reach-runtime, after_cancel, after_drop,
}

module _ (src : Sources) where
  -- The call was made, its task is out of the loop, and these messages are in Dart's port.
  record Silent (id : ℕ) (sent : List (List ℕ)) (s : System src) : Type 0 where
    made : id < s.runtime.next_id
    out : (s.runtime.task id).pc ≢ looping
    same : (s.streams id).sent ≡ sent

  sent_update :
      (f : ℕ → Stream src) (j id : ℕ) (st : Stream src)
      → st.sent ≡ (f j).sent
      → (update f j st id).sent ≡ (f id).sent
  sent_update f j id st h =
      update_right (λ (a : Stream src) (b : Stream src). b.sent ≡ a.sent) f f j st h (λ k. refl) id

  poll_loop-Silent :
      (accepts : Bool) (j id : ℕ) (sent : List (List ℕ)) (s : System src)
      → (s.runtime.task j).pc ≡ looping
      → Silent id sent s
      → Silent id sent (poll_loop src accepts j s)
  unfolding poll_loop leave_loop
  poll_loop-Silent accepts j id sent s p v = elim (Bool-cases (j == id)) [
    | inl e ↦ absurd (v.out (subst (λ k. (s.runtime.task k).pc ≡ looping) ((==_iff j id).0 e) p))
    | inr e ↦ elim (Bool-cases (loop_turn src accepts (s.streams j)).1) [
      | inl left ↦ rw left (record { made = v.made; out = rw e v.out; same = rw e v.same })
      | inr stays ↦ rw stays (record { made = v.made; out = v.out; same = rw e v.same })
    ]
  ]

  abort_stream-Silent :
      (token id : ℕ) (sent : List (List ℕ)) (s : System src)
      → Silent id sent s
      → Silent id sent (record s { runtime = abort_stream token s.runtime })
  unfolding abort_stream
  abort_stream-Silent token id sent s v = elim (Option-cases (s.runtime.registry token)) [
    | inl e ↦ rw (e, abort_stream) v
    | inr (k, e) ↦
        rw (e, abort_stream) (record { made = v.made; out = ground (arith, v.out); same = v.same })
  ]

  Step-Silent :
      {s s' : System src} (id : ℕ) (sent : List (List ℕ))
      → Step src s s'
      → Silent id sent s
      → Silent id sent s'
  unfolding open_stream yield_item end_stream spawn_task finish_call finish_task drop_task
  Step-Silent {s} id sent (opens call token new) v = record {
    made = omega (arith, v.made);
    out = ground (arith, v.out, v.made);
    same = ground (arith, v.made, v.same);
  }
  Step-Silent {s} id sent (registers j p) v = record {
    made = v.made;
    out = ground (arith, v.out);
    same = v.same;
  }
  Step-Silent {s} id sent (polls accepts j p) v = poll_loop-Silent accepts j id sent s p v
  Step-Silent {s} id sent (unregisters j p) v = record {
    made = v.made;
    out = ground (arith, v.out);
    same = v.same;
  }
  Step-Silent {s} id sent (drops j p q) v = record {
    made = v.made;
    out = ground (arith, v.out);
    same = v.same;
  }
  Step-Silent {s} id sent (cancels token) v = abort_stream-Silent token id sent s v
  Step-Silent {s} id sent (yields j x p) v = record {
    made = v.made;
    out = v.out;
    same = sent_update s.streams j id _ refl ∙ v.same;
  }
  Step-Silent {s} id sent (ends j) v = record {
    made = v.made;
    out = v.out;
    same = sent_update s.streams j id _ refl ∙ v.same;
  }

  Steps-Silent :
      {s s' : System src} (id : ℕ) (sent : List (List ℕ))
      → Steps src s s'
      → Silent id sent s
      → Silent id sent s'
  Steps-Silent id sent here v = v
  Steps-Silent id sent (more run st) v = Step-Silent id sent st (Steps-Silent id sent run v)

  -- Once the task of a stream call is out of its loop (it left it, ended, or was dropped after a
  -- cancellation), nothing that happens later puts another message into Dart's port.
  pub Steps-sent :
      {s s' : System src} (id : ℕ)
      → Steps src s s'
      → id < s.runtime.next_id
      → (s.runtime.task id).pc ≢ looping
      → (s'.streams id).sent ≡ (s.streams id).sent
  Steps-sent {s} id run made out =
      (Steps-Silent id (s.streams id).sent run
        (record { made = made; out = out; same = refl })).same

  -- In a reachable state, `cancel_stream` with the token of a stream whose task is in its loop, and
  -- whose call has returned, lets the runtime drop the task next; if it does, Dart gets no message
  -- on this stream that it had not got before the cancellation, whatever happens later.
  pub cancelled-sent :
      {s t : System src} (id : ℕ)
      → Reach src s
      → (s.runtime.task id).pc ≡ looping
      → (s.runtime.task id).pending ≡ false
      → Steps src (after_drop src id (after_cancel src (s.runtime.task id).token s)) t
      → Step src
          (after_cancel src (s.runtime.task id).token s)
          (after_drop src id (after_cancel src (s.runtime.task id).token s))
        × ((t.streams id).sent ≡ (s.streams id).sent)
  unfolding drop_task
  cancelled-sent {s} {t} id r run returned later =
      let token = (s.runtime.task id).token in
      let c : System src = after_cancel src token s in
      let v = Registry.Reach-Inv (Reach-runtime src r) in
      let (asked, gone, still) = abort_stream_asks id v run returned in
      let v' = Registry.Reach-Inv (Reach-runtime src (next r (cancels token))) in
      (drops id still asked, Steps-sent id later (ground (arith, v'.fresh id)) (ground arith))

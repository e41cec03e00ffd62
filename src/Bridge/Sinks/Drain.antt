-- ===== src/Bridge/Sinks/Drain.antt =====
-- A stream that iroh has ended is emptied into Dart's port by as many polls as it has items, and one.
use iroh_dart.Prelude.{
  ==_self, ℕ, zero, suc, ◌≡◌, refl, sym, ap, ◌∙◌, subst, Bool, true, false, some, List, [], ◌∷◌,
  ◌++◌, map, length, All, append_assoc, append-nil, if◌then◌else◌, update, arith,
}
use mathlib.Core.List.{map-append}
use iroh_dart.Runtime.{looping, leaving, leave_loop}
use iroh_dart.Wire.Dart.{BufferLaws}
use iroh_dart.Bridge.Sinks.{
  Sources, Item, Stream, System, show, message, listen, loop_turn, loop_turn_on, poll_loop,
}
use iroh_dart.Bridge.Sinks.Steps.{Reach}
use iroh_dart.Bridge.Sinks.Laws.{Delivers, Fits, Reach-Inv, listen-messages}

module _ (src : Sources) where
  -- The task is polled so many times, and its sink accepts.
  pub poll_times : ℕ → ℕ → System src → System src
  poll_times zero id s = s
  poll_times (suc n) id s = poll_times n id (poll_loop src true id s)

  update_self : {A : Type 0} (f : ℕ → A) (k : ℕ) (a : A) → update f k a k ≡ a
  update_self f k a = rw (==_self k)

  pc_after :
      (id : ℕ) (s : System src) (left : Bool)
      → (s.runtime.task id).pc ≡ looping
      → ((if left then leave_loop id s.runtime else s.runtime).task id).pc
        ≡ (if left then leaving else looping)
  unfolding leave_loop
  pc_after id s true run = rw (==_self id)
  pc_after id s false run = run

  poll_loop_lem :
      (id : ℕ) (s : System src) (st st' : Stream src) (left : Bool)
      → s.streams id ≡ st
      → (s.runtime.task id).pc ≡ looping
      → loop_turn src true st ≡ (st', left)
      → ((poll_loop src true id s).streams id ≡ st')
        × (((poll_loop src true id s).runtime.task id).pc ≡ (if left then leaving else looping))
  unfolding poll_loop
  poll_loop_lem id s st st' left at run e =
      let turned : loop_turn src true (s.streams id) ≡ (st', left) =
        ap (loop_turn src true) at ∙ e in
      (
        update_self s.streams id _ ∙ ap (λ (t : Stream src × Bool). t.0) turned,
        pc_after id s (loop_turn src true (s.streams id)).1 run
            ∙ ap (λ (t : Stream src × Bool). if t.1 then leaving else looping) turned,
      )

  poll_times_lem :
      (n id : ℕ) (s : System src) (st : Stream src) (ws : List (Item src st.call))
      → length ws ≡ n
      → s.streams id ≡ st
      → st.waiting ≡ ws
      → st.over ≡ true
      → (s.runtime.task id).pc ≡ looping
      → (((poll_times (suc n) id s).runtime.task id).pc ≡ leaving)
        × (((poll_times (suc n) id s).streams id).sent ≡ st.sent ++ map (message src st.call) ws)
  unfolding poll_times loop_turn
  poll_times_lem zero id s st [] len at rest over run =
      let turned : loop_turn src true st ≡ (st, true) =
        ap (loop_turn_on src true st) rest ∙ ap (λ (b : Bool). (st, b)) over in
      let (at', run') = poll_loop_lem id s st st true at run turned in
      (run', ap (λ (t : Stream src). t.sent) at' ∙ sym (append-nil st.sent))
  poll_times_lem (suc n) id s st [] len at rest over run = absurd (omega arith)
  poll_times_lem zero id s st (x ∷ xs) len at rest over run = absurd (omega arith)
  poll_times_lem (suc n) id s st (x ∷ xs) len at rest over run =
      let st' : Stream src = record st {
        waiting = xs;
        sent = st.sent ++ message src st.call x ∷ [];
      } in
      let turned : loop_turn src true st ≡ (st', false) = ap (loop_turn_on src true st) rest in
      let (at', run') = poll_loop_lem id s st st' false at run turned in
      let (out, sent) =
        poll_times_lem n id (poll_loop src true id s) st' xs (omega arith) at' refl over run' in
      (out, sent ∙ append_assoc st.sent (message src st.call x ∷ []) _)

  sent-waiting :
      (st : Stream src)
      → Delivers src looping st
      → st.sent ++ map (message src st.call) st.waiting ≡ map (message src st.call) st.yielded
  sent-waiting st d =
      ap (λ ms. ms ++ map (message src st.call) st.waiting) d.sent
      ∙ sym (map-append (message src st.call) d.done st.waiting)
      ∙ ap (map (message src st.call)) (ap (λ xs. d.done ++ xs) (sym (d.going refl)) ∙ sym d.split)

  -- If Dart's buffer keeps `BufferLaws`: take a reachable state and a stream that iroh has ended,
  -- whose items the codec carries and whose task is in its loop. If its sink accepts, then after as
  -- many polls as there are items that the task has not taken, and one, the task has left its loop,
  -- and Dart's listener has got all the items of the stream, in their order.
  pub listen-poll_times :
      {s : System src} (id : ℕ)
      → BufferLaws src.cursor src.buffer
      → Reach src s
      → (s.runtime.task id).pc ≡ looping
      → (s.streams id).over ≡ true
      → All (Fits src (s.streams id).call) (s.streams id).yielded
      → (((poll_times (suc (length (s.streams id).waiting)) id s).runtime.task id).pc ≡ leaving)
        × (listen src
              (s.streams id).call
              ((poll_times (suc (length (s.streams id).waiting)) id s).streams id).sent
            ≡ some (map (show src (s.streams id).call) (s.streams id).yielded))
  listen-poll_times {s} id laws r run over fits =
      let st = s.streams id in
      let d : Delivers src looping st = subst (λ pc. Delivers src pc st) run (Reach-Inv src r id) in
      let (out, sent) =
        poll_times_lem (length st.waiting) id s st st.waiting refl refl refl over run in
      (
        out,
        ap (listen src st.call) (sent ∙ sent-waiting st d)
            ∙ listen-messages src laws st.call st.yielded fits,
      )

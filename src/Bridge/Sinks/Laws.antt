-- ===== src/Bridge/Sinks/Laws.antt =====
-- What Dart gets on a stream: the items in order, none lost while the task runs, all of them if it
-- ends by itself, and none after its end.
use iroh_dart.Prelude.{
  inl, inr, Bool-cases, Option-cases, ℕ, ◌≡◌, ◌≢◌, ◌⊎◌, refl, sym, ap, subst, ◌∙◌, Bool, true,
  false, some, List, [], ◌∷◌, ◌++◌, map, if◌then◌else◌, append_assoc, append-nil, All, arith,
  update_both, update_left, All-append_left, update_right,
}
use mathlib.Core.List.{map-append}
use iroh_dart.Runtime.{
  Pc, absent, looping, leaving, ended, cancelled, Task, leave_loop, finish_call, finish_task,
  drop_task, abort_stream, spawn_task,
}
use iroh_dart.Wire.Reads.{Reads, IsCount}
use iroh_dart.Wire.Dart.{BufferLaws}
use iroh_dart.Wire.Dart.Laws.{
  IsDartParts, IsDartStatus, IsDartEvent, parts-Reads, statuses-Reads, event-Reads,
}
use iroh_dart.Bridge.Sinks.{
  show, encode_shown, decode_shown, listen, Sources, StreamCall, watch_addr, home_relay_status,
  path_events, Item, Stream, System, loop_turn, loop_turn_on, new_stream, message, open_stream,
  poll_loop, yield_item, end_stream,
}
use iroh_dart.Bridge.Sinks.Steps.{
  Step, opens, registers, polls, unregisters, drops, cancels, yields, ends, Reach, begin, next,
}

module _ (src : Sources) where
  -- The items that were sent, and those that were not.
  pub record Delivers (pc : Pc) (st : Stream src) : Type 0 where
    pub done : List (Item src st.call)
    pub rest : List (Item src st.call)
    pub split : st.yielded ≡ done ++ rest
    pub sent : st.sent ≡ map (message src st.call) done
    pub going : pc ≡ looping → rest ≡ st.waiting
    pub whole : (pc ≡ leaving) ⊎ (pc ≡ ended) → st.refused ≡ false → (rest ≡ []) × (st.over ≡ true)

  abbrev TaskDelivers : Task → Stream src → Type 0
  TaskDelivers t st = Delivers t.pc st

  new-Delivers :
      (call : StreamCall) (pc : Pc)
      → (pc ≢ leaving)
      → (pc ≢ ended)
      → Delivers pc (new_stream src call)
  new-Delivers call pc p q = record {
    done = [];
    rest = [];
    split = refl;
    sent = refl;
    going = λ e. refl;
    whole = λ e f. ground arith;
  }

  keep-Delivers :
      (pc pc' : Pc) (st : Stream src)
      → (pc' ≡ looping → pc ≡ looping)
      → ((pc' ≡ leaving) ⊎ (pc' ≡ ended) → (pc ≡ leaving) ⊎ (pc ≡ ended))
      → Delivers pc st
      → Delivers pc' st
  keep-Delivers pc pc' st loops stops d = record {
    done = d.done;
    rest = d.rest;
    split = d.split;
    sent = d.sent;
    going = λ e. d.going (loops e);
    whole = λ e f. d.whole (stops e) f;
  }

  abbrev AfterTurn : Stream src × Bool → Type 0
  AfterTurn (st, left) = Delivers (if left then leaving else looping) st

  loop_turn_on-Delivers :
      (accepts : Bool) (st : Stream src) (ws : List (Item src st.call))
      → st.waiting ≡ ws
      → Delivers looping st
      → AfterTurn (loop_turn_on src accepts st ws)
  loop_turn_on-Delivers accepts st [] e d = elim (Bool-cases st.over) [
    | inl over ↦
        subst (λ b. Delivers (if b then leaving else looping) st) (sym over)
          (record {
            done = d.done;
            rest = d.rest;
            split = d.split;
            sent = d.sent;
            going = λ f. cc;
            whole = λ f g. (d.going refl ∙ e, over);
          })
    | inr more ↦ subst (λ b. Delivers (if b then leaving else looping) st) (sym more) d
  ]
  loop_turn_on-Delivers true st (x ∷ xs) e d = record {
    done = d.done ++ x ∷ [];
    rest = xs;
    split =
        d.split ∙ ap (λ r. d.done ++ r) (d.going refl ∙ e) ∙ sym (append_assoc d.done (x ∷ []) xs);
    sent = simp (d.sent, map-append);
    going = λ f. refl;
    whole = λ f g. ground arith;
  }
  loop_turn_on-Delivers false st (x ∷ xs) e d = record {
    done = d.done;
    rest = d.rest;
    split = d.split;
    sent = d.sent;
    going = λ f. cc;
    whole = λ f g. cc;
  }

  loop_turn-Delivers :
      (accepts : Bool) (st : Stream src)
      → Delivers looping st
      → AfterTurn (loop_turn src accepts st)
  unfolding loop_turn
  loop_turn-Delivers accepts st d = loop_turn_on-Delivers accepts st st.waiting refl d

  yield-Delivers :
      (pc : Pc) (st : Stream src) (x : Item src st.call)
      → st.over ≡ false
      → Delivers pc st
      → Delivers pc (record st { yielded = st.yielded ++ x ∷ []; waiting = st.waiting ++ x ∷ [] })
  yield-Delivers pc st x more d = record {
    done = d.done;
    rest = d.rest ++ x ∷ [];
    split = ap (λ r. r ++ x ∷ []) d.split ∙ append_assoc d.done d.rest (x ∷ []);
    sent = d.sent;
    going = λ e. ap (λ r. r ++ x ∷ []) (d.going e);
    whole = λ e f. let (none_left, over) = d.whole e f in cc;
  }

  end-Delivers :
      (pc : Pc) (st : Stream src) → Delivers pc st → Delivers pc (record st { over = true })
  end-Delivers pc st d = record {
    done = d.done;
    rest = d.rest;
    split = d.split;
    sent = d.sent;
    going = d.going;
    whole = λ e f. ((d.whole e f).0, refl);
  }

  abbrev pub Inv : System src → Type 0
  Inv s = (id : ℕ) → TaskDelivers (s.runtime.task id) (s.streams id)

  poll_loop-Inv :
      (accepts : Bool) (id : ℕ) (s : System src)
      → (s.runtime.task id).pc ≡ looping
      → Inv s
      → Inv (poll_loop src accepts id s)
  unfolding poll_loop leave_loop
  poll_loop-Inv accepts id s run v =
      let (st, left) = loop_turn src accepts (s.streams id) in
      let after : Delivers (if left then leaving else looping) st =
        loop_turn-Delivers accepts (s.streams id)
          (subst (λ pc. Delivers pc (s.streams id)) run (v id)) in
      elim (Bool-cases left) [
        | inl e ↦ rw e (
            update_both TaskDelivers s.runtime.task s.streams id _ st
              (subst (λ b. Delivers (if b then leaving else looping) st) e after) v)
        | inr e ↦ rw e (
            update_right TaskDelivers s.runtime.task s.streams id st
              (subst (λ pc. Delivers pc st) (sym run)
                (subst (λ b. Delivers (if b then leaving else looping) st) e after))
              v)
      ]

  abort_stream-Inv :
      (token : ℕ) (s : System src)
      → Inv s
      → Inv (record s { runtime = abort_stream token s.runtime })
  unfolding abort_stream
  abort_stream-Inv token s v = elim (Option-cases (s.runtime.registry token)) [
    | inl e ↦ λ id. rw (e, abort_stream) (v id)
    | inr (k, e) ↦
        rw (e, abort_stream) (update_left TaskDelivers s.runtime.task s.streams k _ (v k) v)
  ]

  pub Step-Inv : {s s' : System src} → Step src s s' → Inv s → Inv s'
  unfolding open_stream yield_item end_stream spawn_task finish_call finish_task drop_task
  Step-Inv {s} (opens call token new) v =
      update_both TaskDelivers s.runtime.task s.streams s.runtime.next_id _ _
        (new-Delivers call looping (λ e. cc) (λ e. cc)) v
  Step-Inv {s} (registers id p) v = update_left TaskDelivers s.runtime.task s.streams id _ (v id) v
  Step-Inv {s} (polls accepts id p) v = poll_loop-Inv accepts id s p v
  Step-Inv {s} (unregisters id p) v =
      update_left TaskDelivers s.runtime.task s.streams id _
        (keep-Delivers _ ended (s.streams id) (λ e. cc) (λ e. inl p) (v id)) v
  Step-Inv {s} (drops id p q) v =
      update_left TaskDelivers s.runtime.task s.streams id _
        (keep-Delivers _ cancelled (s.streams id) (λ e. cc) (λ e. ground arith) (v id)) v
  Step-Inv {s} (cancels token) v = abort_stream-Inv token s v
  Step-Inv {s} (yields id x p) v =
      update_right TaskDelivers s.runtime.task s.streams id _ (yield-Delivers _ _ x p (v id)) v
  Step-Inv {s} (ends id) v =
      update_right TaskDelivers s.runtime.task s.streams id _ (end-Delivers _ _ (v id)) v

  pub Reach-Inv : {s : System src} → Reach src s → Inv s
  Reach-Inv begin = λ id. new-Delivers watch_addr absent (λ e. cc) (λ e. cc)
  Reach-Inv (next r st) = Step-Inv st (Reach-Inv r)

  -- The items that the codec carries, by what Dart gets of them.
  abbrev pub Fits : (call : StreamCall) → Item src call → Type 0
  Fits watch_addr addr = IsDartParts (show src watch_addr addr)
  Fits home_relay_status statuses =
      IsCount (show src home_relay_status statuses)
      × All IsDartStatus (show src home_relay_status statuses)
  Fits path_events event = IsDartEvent (show src path_events event)

  -- What is left of the items in each state of the task.
  abbrev pub IsLeft : Pc → (st : Stream src) → List (Item src st.call) → Type 0
  IsLeft looping st rest = rest ≡ st.waiting
  IsLeft leaving st rest = (st.refused ≡ true) ⊎ ((rest ≡ []) × (st.over ≡ true))
  IsLeft ended st rest = (st.refused ≡ true) ⊎ ((rest ≡ []) × (st.over ≡ true))
  IsLeft absent st rest = Unit {0}
  IsLeft cancelled st rest = Unit {0}

  Delivers-IsLeft : (pc : Pc) (st : Stream src) (d : Delivers pc st) → IsLeft pc st d.rest
  Delivers-IsLeft looping st d = d.going refl
  Delivers-IsLeft leaving st d = ground (arith, d.whole (inl refl))
  Delivers-IsLeft ended st d = ground (arith, d.whole (inr refl))
  Delivers-IsLeft absent st d = tt
  Delivers-IsLeft cancelled st d = tt

  module _ (laws : BufferLaws src.cursor src.buffer) where
    message-Reads :
        (call : StreamCall) (x : Item src call)
        → Fits call x
        → Reads (decode_shown src call) (message src call x) (show src call x)
    unfolding decode_shown message encode_shown
    message-Reads watch_addr x h = parts-Reads src.cursor src.buffer laws _ h
    message-Reads home_relay_status x h = statuses-Reads src.cursor src.buffer laws _ h.0 h.1
    message-Reads path_events x h = event-Reads src.cursor src.buffer laws _ h

    decode-message :
        (call : StreamCall) (x : Item src call)
        → Fits call x
        → decode_shown src call (message src call x) ≡ some (show src call x, [])
    decode-message call x h =
        ap (decode_shown src call) (sym (append-nil (message src call x)))
        ∙ (message-Reads call x h).at []

    pub listen-messages :
        (call : StreamCall) (xs : List (Item src call))
        → All (Fits call) xs
        → listen src call (map (message src call) xs) ≡ some (map (show src call) xs)
    unfolding listen
    listen-messages call [] h = refl
    listen-messages call (x ∷ xs) h =
        rw (decode-message call x h.0, listen-messages call xs h.1, listen)

    -- If Dart's buffer keeps `BufferLaws`: in every reachable state, and for each stream whose items
    -- so far the codec carries, Dart's listener has got these items in their order, each once, as the
    -- loop maps them, up to some item. While the task is in its loop, the items after it are exactly
    -- those that the task has not taken. When it is out of the loop, there are none and iroh's
    -- stream has ended, unless the sink refused one.
    pub listen-Reach :
        {s : System src} (id : ℕ)
        → Reach src s
        → All (Fits (s.streams id).call) (s.streams id).yielded
        → (done rest : List (Item src (s.streams id).call)) × ((s.streams id).yielded
            ≡ done ++ rest)
          × (listen src (s.streams id).call (s.streams id).sent
              ≡ some (map (show src (s.streams id).call) done))
          × IsLeft (s.runtime.task id).pc (s.streams id) rest
    listen-Reach {s} id r fits =
        let d = Reach-Inv r id in
        let st = s.streams id in
        (
          d.done,
          d.rest,
          d.split,
          ap (listen src st.call) d.sent
              ∙ listen-messages st.call d.done (
                  All-append_left (Fits st.call) d.done d.rest
                    (subst (All (Fits st.call)) d.split fits)),
          Delivers-IsLeft _ st d,
        )

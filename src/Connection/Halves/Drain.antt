-- ===== src/Connection/Halves/Drain.antt =====
-- A schedule that serves all calls of a stream that is closed. While it is open, a future of iroh
-- can wait without bound, for the peer's flow control or for data.
use iroh_dart.Prelude.{
  ℕ, zero, suc, ◌+◌, ◌≤◌, ◌≡◌, ◌≢◌, refl, subst, sym, ap, ◌∙◌, Option, none, some, List, [], ◌∷◌,
  ◌++◌, append-nil, arith,
}
use iroh_dart.Connection.Halves.{
  Polled, pending, ready, Held, Half, fresh, locked, lock_next, settled, polled, poll_holder, locks,
  polls, Steps, then,
}
use iroh_dart.Connection.Halves.Laws.{requests, held_request, Steps-Serial}

module _ {Request Op Stream Answer : Type 0} (future : Request → Op)
    (poll : Op → Stream → Polled Op Answer × Stream) where
  -- The runtime lets the first waiter in, and polls.
  abbrev round : Half Request Op Stream Answer → Half Request Op Stream Answer
  round h = poll_holder future poll (lock_next future poll h)

  pub drain : ℕ → Half Request Op Stream Answer → Half Request Op Stream Answer
  drain zero h = h
  drain (suc n) h = drain n (round h)

  drain-Steps :
      (Peer : Stream → Stream → Type 0) (h : Half Request Op Stream Answer) (n : ℕ)
      (k : Half Request Op Stream Answer)
      → Steps future poll Peer h k
      → Steps future poll Peer h (drain n k)
  unfolding drain
  drain-Steps Peer h zero k steps = steps
  drain-Steps Peer h (suc n) k steps =
      let entered = lock_next future poll k in
      drain-Steps Peer h n (round k)
        (then entered (round k) (then k entered steps (locks k)) (polls entered))

  -- Once the connection is lost, a stream's operations end with what is there or with an error, and
  -- it stays lost.
  pub record Ends (Closed : Stream → Type 0) : Type 0 where
    pub never_pending : (op op' : Op) (s s' : Stream) → Closed s → poll op s ≢ (pending op', s')
    pub stays : (op : Op) (s : Stream) → Closed s → Closed (poll op s).1

  abbrev pub held_work : Option (Held Request Op) → ℕ
  held_work none = 0
  held_work (some held) = 1

  abbrev pub queue_work : List Request → ℕ
  queue_work [] = 0
  queue_work (r ∷ rest) = suc (queue_work rest)

  -- The calls without an answer.
  unfoldable pub work : Half Request Op Stream Answer → ℕ
  work h = held_work h.holder + queue_work h.queue

  pub work_bound :
      (h : Half Request Op Stream Answer) (n : ℕ)
      → work h ≤ n
      → held_work h.holder + queue_work h.queue ≤ n
  unfolding work
  work_bound h n bound = bound

  pub locked-stream :
      (h : Half Request Op Stream Answer) (holder : Option (Held Request Op)) (queue : List Request)
      → (locked future poll h holder queue).stream ≡ h.stream
  locked-stream h none [] = refl
  locked-stream h none (r ∷ rest) = refl
  locked-stream h (some held) queue = refl

  settled-stream :
      (h : Half Request Op Stream Answer) (held : Held Request Op) (p : Polled Op Answer × Stream)
      → (settled future poll h held p).stream ≡ p.1
  settled-stream h held (pending op, stream) = refl
  settled-stream h held (ready answer, stream) = refl

  module _ (Closed : Stream → Type 0) (ends : Ends Closed) where
    settled-Closed :
        (h : Half Request Op Stream Answer) (held : Held Request Op)
        → Closed h.stream
        → Closed (settled future poll h held (poll held.op h.stream)).stream
    settled-Closed h held c =
        subst Closed (sym (settled-stream h held (poll held.op h.stream)))
          (ends.stays held.op h.stream c)

    polled-Closed :
        (h : Half Request Op Stream Answer) (holder : Option (Held Request Op))
        → Closed h.stream
        → Closed (polled future poll h holder).stream
    polled-Closed h none c = c
    polled-Closed h (some held) c = settled-Closed h held c

    locked-Closed :
        (h : Half Request Op Stream Answer)
        → Closed h.stream
        → Closed (locked future poll h h.holder h.queue).stream
    locked-Closed h c = subst Closed (sym (locked-stream h h.holder h.queue)) c

    pub round-Closed :
        (h : Half Request Op Stream Answer) → Closed h.stream → Closed (round h).stream
    unfolding lock_next poll_holder
    round-Closed h c =
        let k = locked future poll h h.holder h.queue in
        polled-Closed k k.holder (locked-Closed h c)

    locked-work :
        (h : Half Request Op Stream Answer) (holder : Option (Held Request Op))
        (queue : List Request)
        → held_work holder + queue_work queue ≡ held_work h.holder + queue_work h.queue
        → work (locked future poll h holder queue) ≡ held_work h.holder + queue_work h.queue
    unfolding work
    locked-work h none [] e = refl
    locked-work h none (r ∷ rest) e = omega (arith, e)
    locked-work h (some held) queue e = refl

    settled-work :
        (h : Half Request Op Stream Answer) (held : Held Request Op) (p : Polled Op Answer × Stream)
        → Closed h.stream
        → poll held.op h.stream ≡ p
        → work (settled future poll h held p) ≡ queue_work h.queue
    unfolding work
    settled-work h held (pending op, stream) c e =
        absurd (ends.never_pending held.op op h.stream stream c e)
    settled-work h held (ready answer, stream) c e = omega arith

    -- Where nobody has the guard after the lock, nobody waits.
    polled-work :
        (h : Half Request Op Stream Answer) (holder : Option (Held Request Op)) (n : ℕ)
        → Closed h.stream
        → h.holder ≡ holder
        → held_work holder + queue_work h.queue ≤ suc n
        → ((holder ≡ none) → h.queue ≡ [])
        → work (polled future poll h holder) ≤ n
    unfolding work
    polled-work h none n c e bound idle = rw (e, idle refl) (omega arith)
    polled-work h (some held) n c e bound idle =
        let less = settled-work h held (poll held.op h.stream) c refl in omega arith

    entered :
        (h : Half Request Op Stream Answer) (holder : Option (Held Request Op))
        (queue : List Request)
        → h.holder ≡ holder
        → h.queue ≡ queue
        → (locked future poll h holder queue).holder ≡ none
        → (locked future poll h holder queue).queue ≡ []
    entered h none [] e f g = f
    entered h none (r ∷ rest) e f g = cc
    entered h (some held) queue e f g = cc

    round-work :
        (h : Half Request Op Stream Answer) (n : ℕ)
        → Closed h.stream
        → work h ≤ suc n
        → work (round h) ≤ n
    unfolding work lock_next poll_holder
    round-work h n c bound =
        let k = locked future poll h h.holder h.queue in
        polled-work k k.holder n (locked-Closed h c) refl
          (rw (locked-work h h.holder h.queue refl) bound) (entered h h.holder h.queue refl refl)

    drain-work :
        (n : ℕ) (h : Half Request Op Stream Answer)
        → Closed h.stream
        → work h ≤ n
        → work (drain n h) ≡ 0
    unfolding drain
    drain-work zero h c bound = omega arith
    drain-work (suc n) h c bound =
        drain-work n (round h) (round-Closed h c) (round-work h n c bound)

    locked-calls :
        (h : Half Request Op Stream Answer) (holder : Option (Held Request Op))
        (queue : List Request)
        → (locked future poll h holder queue).calls ≡ h.calls
    locked-calls h none [] = refl
    locked-calls h none (r ∷ rest) = refl
    locked-calls h (some held) queue = refl

    settled-calls :
        (h : Half Request Op Stream Answer) (held : Held Request Op) (p : Polled Op Answer × Stream)
        → (settled future poll h held p).calls ≡ h.calls
    settled-calls h held (pending op, stream) = refl
    settled-calls h held (ready answer, stream) = refl

    polled-calls :
        (h : Half Request Op Stream Answer) (holder : Option (Held Request Op))
        → (polled future poll h holder).calls ≡ h.calls
    polled-calls h none = refl
    polled-calls h (some held) = settled-calls h held (poll held.op h.stream)

    drain-calls : (n : ℕ) (h : Half Request Op Stream Answer) → (drain n h).calls ≡ h.calls
    unfolding drain lock_next poll_holder
    drain-calls zero h = refl
    drain-calls (suc n) h =
        let k = locked future poll h h.holder h.queue in
        drain-calls n (round h) ∙ polled-calls k k.holder ∙ locked-calls h h.holder h.queue

    nothing_left :
        (holder : Option (Held Request Op)) (queue : List Request)
        → held_work holder + queue_work queue ≡ 0
        → (holder ≡ none) × (queue ≡ [])
    nothing_left none [] e = (refl, refl)
    nothing_left none (r ∷ rest) e = ground arith
    nothing_left (some held) queue e = ground arith

    -- If on a closed stream each poll of a future ends it and leaves the stream closed: from every
    -- state that arrivals, polls and acts of the peer can lead to and in which the stream is
    -- closed, as many rounds of the schedule as there are calls without an answer suffice to answer
    -- every call that has come, in the order in which they came; then nobody has the guard and
    -- nobody waits for it.
    pub drain-requests :
        (Peer : Stream → Stream → Type 0) (first : Stream) (h : Half Request Op Stream Answer)
        (n : ℕ)
        → Steps future poll Peer (fresh future poll first) h
        → Closed h.stream
        → work h ≤ n
        → (requests (drain n h).answers ≡ h.calls)
          × ((drain n h).holder ≡ none)
          × ((drain n h).queue ≡ [])
    unfolding work
    drain-requests Peer first h n steps closed bound =
        let k = drain n h in
        let (no_holder, no_queue) = nothing_left k.holder k.queue (drain-work n h closed bound) in
        let order = (Steps-Serial future poll Peer first k (drain-Steps Peer _ n h steps)).1 in
        (
          sym (append-nil (requests k.answers))
              ∙ sym (
                  ap
                    (λ (holder : Option (Held Request Op)).
                      requests k.answers ++ (held_request holder ++ []))
                    no_holder)
              ∙ sym (
                  ap
                    (λ (queue : List Request).
                      requests k.answers ++ (held_request k.holder ++ queue))
                    no_queue)
              ∙ order
              ∙ drain-calls n h,
          no_holder,
          no_queue,
        )

-- ===== src/Connection/Halves/Laws.antt =====
-- A half under its mutex is a half with one call at a time, in the order in which the calls came.
use mathlib.Core.List.{map-append}
use iroh_dart.Prelude.{
  ◌≡◌, refl, ap, ◌∙◌, Option, none, some, List, [], ◌∷◌, ◌++◌, map, append_assoc,
}
use iroh_dart.Connection.Halves.{
  Polled, pending, ready, Held, Half, fresh, arrive, locked, lock_next, settled, polled,
  poll_holder, Step, arrives, locks, polls, peer_acts, Steps, stay, then,
}
use iroh_dart.Connection.Halves.Serial.{
  Alone, begun, again, between, Serial, nothing_yet, idles, serves,
}

abbrev pub requests : {Request Answer : Type 0} → List (Request × Answer) → List Request
requests served = map (λ call. call.0) served

abbrev pub held_request : {Request Op : Type 0} → Option (Held Request Op) → List Request
held_request none = []
held_request (some held) = held.request ∷ []

module _ {Request Op Stream Answer : Type 0} (future : Request → Op)
    (poll : Op → Stream → Polled Op Answer × Stream) (Peer : Stream → Stream → Type 0)
    (first : Stream) where
  -- The call with the guard has run alone since the last one ended.
  abbrev pub Served : List (Request × Answer) → Option (Held Request Op) → Stream → Type 0
  Served answers none stream = Serial future poll Peer first answers stream
  Served answers (some held) stream =
      (s : Stream) × Serial future poll Peer first answers s
      × Alone future poll Peer (future held.request) s held.op stream

  record Orderly (answers : List (Request × Answer)) (holder : Option (Held Request Op))
      (queue : List Request) (calls : List Request) (stream : Stream) : Type 0 where
    order : requests answers ++ (held_request holder ++ queue) ≡ calls
    served : Served answers holder stream

  abbrev Inv : Half Request Op Stream Answer → Type 0
  Inv h = Orderly h.answers h.holder h.queue h.calls h.stream

  arrive-Inv :
      (r : Request) (h : Half Request Op Stream Answer) → Inv h → Inv (arrive future poll r h)
  unfolding arrive
  arrive-Inv r h inv = record {
    order =
        regroup (requests h.answers) (held_request h.holder) h.queue (r ∷ [])
        ∙ ap (λ l. l ++ (r ∷ [])) inv.order;
    served = inv.served;
  }
    where
      regroup : (x y z e : List Request) → x ++ (y ++ (z ++ e)) ≡ (x ++ (y ++ z)) ++ e
      regroup x y z e = simp (append_assoc)

  locked-Inv :
      (h : Half Request Op Stream Answer) (holder : Option (Held Request Op)) (queue : List Request)
      → Inv h
      → Orderly h.answers holder queue h.calls h.stream
      → Inv (locked future poll h holder queue)
  locked-Inv h none [] inv o = inv
  locked-Inv h none (r ∷ rest) inv o = record {
    order = o.order;
    served = (h.stream, o.served, begun);
  }
  locked-Inv h (some held) queue inv o = inv

  settled-Inv :
      (h : Half Request Op Stream Answer) (held : Held Request Op) (p : Polled Op Answer × Stream)
      → poll held.op h.stream ≡ p
      → Orderly h.answers (some held) h.queue h.calls h.stream
      → Inv (settled future poll h held p)
  settled-Inv h held (pending op, stream) e o = record {
    order = o.order;
    served = let (s, done, alone) = o.served in (s, done, again held.op op h.stream stream alone e);
  }
  settled-Inv h held (ready answer, stream) e o = record {
    order =
        ap (λ l. l ++ h.queue) (map-append (λ call. call.0) h.answers ((held.request, answer) ∷ []))
        ∙ append_assoc (requests h.answers) (held.request ∷ []) h.queue
        ∙ o.order;
    served =
        let (s, done, alone) = o.served in
        serves h.answers held.request held.op answer s h.stream stream done alone e;
  }

  polled-Inv :
      (h : Half Request Op Stream Answer) (holder : Option (Held Request Op))
      → Inv h
      → Orderly h.answers holder h.queue h.calls h.stream
      → Inv (polled future poll h holder)
  polled-Inv h none inv o = inv
  polled-Inv h (some held) inv o = settled-Inv h held (poll held.op h.stream) refl o

  acted :
      (answers : List (Request × Answer)) (holder : Option (Held Request Op)) (s t : Stream)
      → Peer s t
      → Served answers holder s
      → Served answers holder t
  acted answers none s t step done = idles answers s t done step
  acted answers (some held) s t step (u, done, alone) = (u, done, between held.op s t alone step)

  Step-Inv : (h k : Half Request Op Stream Answer) → Step future poll Peer h k → Inv h → Inv k
  unfolding lock_next poll_holder
  Step-Inv h k (arrives r _) inv = arrive-Inv r h inv
  Step-Inv h k (locks _) inv = locked-Inv h h.holder h.queue inv inv
  Step-Inv h k (polls _) inv = polled-Inv h h.holder inv inv
  Step-Inv h k (peer_acts _ stream step) inv = record {
    order = inv.order;
    served = acted h.answers h.holder h.stream stream step inv.served;
  }

  Steps-Inv :
      (h : Half Request Op Stream Answer)
      → Steps future poll Peer (fresh future poll first) h
      → Inv h
  unfolding fresh
  Steps-Inv h stay = record { order = refl; served = nothing_yet }
  Steps-Inv h (then k _ steps step) = Step-Inv k h step (Steps-Inv k steps)

  -- In every state that arrivals, polls and acts of the peer can lead to, in whatever order: the
  -- answers so far are those of whole calls, one at a time, and the call with the guard has been
  -- polled since the last of them ended, with nothing but acts of the peer between its polls; these
  -- calls, then the one with the guard, then the waiting ones, are the calls in the order in which
  -- they came.
  pub Steps-Serial :
      (h : Half Request Op Stream Answer)
      → Steps future poll Peer (fresh future poll first) h
      → Served h.answers h.holder h.stream
        × (requests h.answers ++ (held_request h.holder ++ h.queue) ≡ h.calls)
  Steps-Serial h steps = let inv = Steps-Inv h steps in (inv.served, inv.order)

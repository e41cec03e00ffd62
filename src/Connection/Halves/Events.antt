-- ===== src/Connection/Halves/Events.antt =====
-- Schedules of what happens to a half, as lists.
use iroh_dart.Prelude.{
  ℕ, suc, ◌≡◌, refl, sym, ap, ◌∙◌, Option, none, some, List, [], ◌∷◌, ◌++◌, append_assoc,
  append-nil,
}
use iroh_dart.Connection.Halves.{
  Polled, pending, ready, Held, Half, arrive, locked, lock_next, settled, polled, poll_holder,
}

module _ {Request Op Stream Answer : Type 0} (future : Request → Op)
    (poll : Op → Stream → Polled Op Answer × Stream) where
  -- What happens to a half: a call comes, the runtime lets the first waiter in and polls, the
  -- peer changes the stream.
  pub data Event : Type 0 where
    comes : Request → Event
    turn : Event
    changes : Stream → Event

  unfoldable pub happen : Event → Half Request Op Stream Answer → Half Request Op Stream Answer
  happen (comes r) h = arrive future poll r h
  happen turn h = poll_holder future poll (lock_next future poll h)
  happen (changes stream) h = record h { stream = stream }

  unfoldable pub happen_all :
      List Event → Half Request Op Stream Answer → Half Request Op Stream Answer
  happen_all [] h = h
  happen_all (e ∷ es) h = happen_all es (happen e h)

  abbrev pub turns : List Event → ℕ
  turns [] = 0
  turns (comes r ∷ es) = turns es
  turns (turn ∷ es) = suc (turns es)
  turns (changes stream ∷ es) = turns es

  -- Answers are never taken back.
  abbrev pub More : List (Request × Answer) → List (Request × Answer) → Type 0
  More old new = (more : List (Request × Answer)) × (new ≡ old ++ more)

  settled-More :
      (h : Half Request Op Stream Answer) (held : Held Request Op) (p : Polled Op Answer × Stream)
      → More h.answers (settled future poll h held p).answers
  settled-More h held (pending op, stream) = ([], sym (append-nil h.answers))
  settled-More h held (ready answer, stream) = ((held.request, answer) ∷ [], refl)

  polled-More :
      (h : Half Request Op Stream Answer) (holder : Option (Held Request Op))
      → More h.answers (polled future poll h holder).answers
  polled-More h none = ([], sym (append-nil h.answers))
  polled-More h (some held) = settled-More h held (poll held.op h.stream)

  locked-answers :
      (h : Half Request Op Stream Answer) (holder : Option (Held Request Op)) (queue : List Request)
      → (locked future poll h holder queue).answers ≡ h.answers
  locked-answers h none [] = refl
  locked-answers h none (r ∷ rest) = refl
  locked-answers h (some held) queue = refl

  happen-More :
      (e : Event) (h : Half Request Op Stream Answer) → More h.answers (happen e h).answers
  unfolding happen arrive lock_next poll_holder
  happen-More (comes r) h = ([], sym (append-nil h.answers))
  happen-More turn h =
      let k = locked future poll h h.holder h.queue in
      let (more, e) = polled-More k k.holder in
      (more, e ∙ ap (λ l. l ++ more) (locked-answers h h.holder h.queue))
  happen-More (changes stream) h = ([], sym (append-nil h.answers))

  pub happen_all-More :
      (es : List Event) (h : Half Request Op Stream Answer)
      → More h.answers (happen_all es h).answers
  unfolding happen_all
  happen_all-More [] h = ([], sym (append-nil h.answers))
  happen_all-More (e ∷ es) h =
      let (more, one) = happen-More e h in
      let (rest, all) = happen_all-More es (happen e h) in
      (more ++ rest, all ∙ ap (λ l. l ++ rest) one ∙ append_assoc h.answers more rest)

-- ===== src/Connection/Halves/Early.antt =====
-- A call that waits on a stream that is closed is answered, whatever comes after it.
use mathlib.Core.List.{map-append}
use iroh_dart.Prelude.{
  ℕ, suc, ◌+◌, ◌≤◌, ◌≡◌, refl, sym, ap, ◌∙◌, ◌⊎◌, inl, inr, Option, none, some, List, [], ◌∷◌, ◌++◌,
  append_assoc, append-nil, arith,
}
use iroh_dart.Connection.Halves.{
  Polled, pending, ready, Held, Half, Steps, fresh, arrive, lock_next, settled, poll_holder,
}
use iroh_dart.Connection.Halves.Laws.{requests, held_request, Steps-Serial}
use iroh_dart.Connection.Halves.Drain.{Ends, round-Closed, held_work, queue_work, work, work_bound}
use iroh_dart.Connection.Halves.Events.{
  Event, comes, turn, changes, happen, happen_all, turns, happen_all-More,
}

module _ {Request Op Stream Answer : Type 0} (future : Request → Op)
    (poll : Op → Stream → Polled Op Answer × Stream) where
  module _ (Closed : Stream → Type 0) (ends : Ends future poll Closed) where
    -- The calls up to some time: those that wait come before all others, and are at most
    -- `n`.
    record Early (h : Half Request Op Stream Answer) (holder : Option (Held Request Op))
        (early late calls : List Request) (n : ℕ) : Type 0 where
      queue : h.queue ≡ early ++ late
      order : requests h.answers ++ (held_request holder ++ early) ≡ calls
      bound : held_work future poll holder + queue_work future poll early ≤ n

    settled-Early :
        (h : Half Request Op Stream Answer) (held : Held Request Op) (p : Polled Op Answer × Stream)
        (early late calls : List Request) (n : ℕ)
        → Closed h.stream
        → poll held.op h.stream ≡ p
        → Early h (some held) early late calls (suc n)
        → let k = settled future poll h held p in Early k k.holder early late calls n
    settled-Early h held (pending op, stream) early late calls n c e o =
        absurd (ends.never_pending held.op op h.stream stream c e)
    settled-Early h held (ready answer, stream) early late calls n c e o =
        let bound = o.bound in
        record {
          queue = o.queue;
          order =
              ap (λ l. l ++ early)
                (map-append (λ call. call.0) h.answers ((held.request, answer) ∷ []))
              ∙ append_assoc (requests h.answers) (held.request ∷ []) early
              ∙ o.order;
          bound = omega arith;
        }

    -- A turn polls for one of the early calls, until none is left.
    turn-Early :
        (h : Half Request Op Stream Answer) (holder : Option (Held Request Op))
        (early late calls : List Request) (n : ℕ)
        → Closed h.stream
        → h.holder ≡ holder
        → Early h holder early late calls (suc n)
        → (requests h.answers ≡ calls)
          ⊎ ((early' : List Request) × Early
                (happen future poll turn h)
                (happen future poll turn h).holder
                early'
                late
                calls
                n)
    unfolding happen lock_next poll_holder
    turn-Early h none [] late calls n c e o = inl (sym (append-nil _) ∙ o.order)
    turn-Early h none (r ∷ rest) late calls n c e o =
        let bound = o.bound in
        let held : Held Request Op = record { request = r; op = future r } in
        inr (
          rest,
          rw (e, o.queue)
              (settled-Early (record h { holder = some held; queue = rest ++ late }) held
                (poll held.op h.stream) rest late calls n c refl
                (record { queue = refl; order = o.order; bound = omega arith })),
        )
    turn-Early h (some held) early late calls n c e o =
        inr (early, rw e (settled-Early h held (poll held.op h.stream) early late calls n c refl o))

    abbrev Answered :
        List (Event future poll) → Half Request Op Stream Answer → List Request → Type 0
    Answered es h calls =
        (more : List Request) × (requests (happen_all future poll es h).answers ≡ calls ++ more)

    before-Answered :
        (es : List (Event future poll)) (h : Half Request Op Stream Answer) (calls : List Request)
        → requests h.answers ≡ calls
        → Answered es h calls
    before-Answered es h calls e =
        let (more, all) = happen_all-More future poll es h in
        (
          requests more,
          ap requests all
              ∙ map-append (λ call. call.0) h.answers more
              ∙ ap (λ l. l ++ requests more) e,
        )

    arrive-Early :
        (r : Request) (h : Half Request Op Stream Answer) (early late calls : List Request) (n : ℕ)
        → Early h h.holder early late calls n
        → Early (arrive future poll r h) h.holder early (late ++ (r ∷ [])) calls n
    unfolding arrive
    arrive-Early r h early late calls n o = record {
      queue = ap (λ l. l ++ (r ∷ [])) o.queue ∙ append_assoc early late (r ∷ []);
      order = o.order;
      bound = o.bound;
    }

    none-Early :
        (h : Half Request Op Stream Answer) (holder : Option (Held Request Op))
        (early late calls : List Request)
        → Early h holder early late calls 0
        → requests h.answers ≡ calls
    none-Early h none [] late calls o = sym (append-nil _) ∙ o.order
    none-Early h none (r ∷ rest) late calls o = let bound = o.bound in ground arith
    none-Early h (some held) early late calls o = let bound = o.bound in ground arith

    -- Whatever becomes of the stream, it stays closed.
    abbrev pub AllClosed : List (Event future poll) → Type 0
    AllClosed [] = Unit
    AllClosed (comes r ∷ es) = AllClosed es
    AllClosed (turn ∷ es) = AllClosed es
    AllClosed (changes stream ∷ es) = Closed stream × AllClosed es

    Early-Answered :
        (es : List (Event future poll)) (h : Half Request Op Stream Answer)
        (early late calls : List Request)
        → Closed h.stream
        → AllClosed es
        → Early h h.holder early late calls (turns future poll es)
        → Answered es h calls
    unfolding happen_all happen arrive
    Early-Answered [] h early late calls c cs o =
        before-Answered [] h calls (none-Early h h.holder early late calls o)
    Early-Answered (comes r ∷ es) h early late calls c cs o =
        Early-Answered es (happen future poll (comes r) h) early (late ++ (r ∷ [])) calls c cs
          (arrive-Early r h early late calls (turns future poll es) o)
    Early-Answered (changes stream ∷ es) h early late calls c (closed, cs) o =
        Early-Answered es (happen future poll (changes stream) h) early late calls closed cs
          (record { queue = o.queue; order = o.order; bound = o.bound })
    Early-Answered (turn ∷ es) h early late calls c cs o =
        elim (turn-Early h h.holder early late calls (turns future poll es) c refl o) [
          | inl done ↦ before-Answered (turn ∷ es) h calls done
          | inr (early', o') ↦
              Early-Answered es (happen future poll turn h) early' late calls
                (round-Closed future poll Closed ends h c) cs o'
        ]

    -- If on a closed stream each poll of a future ends it and leaves the stream closed: take any
    -- state that arrivals, polls and acts of the peer can lead to and in which the stream is
    -- closed, and any events after it in which it stays so, with as many turns of the runtime among
    -- them as there are calls without an answer. Then all calls that had come to the mutex by that
    -- state are answered, first and in their order, whatever calls come later.
    pub happen_all_answers :
        (Peer : Stream → Stream → Type 0) (first : Stream) (h : Half Request Op Stream Answer)
        (es : List (Event future poll))
        → Steps future poll Peer (fresh future poll first) h
        → Closed h.stream
        → AllClosed es
        → work future poll h ≤ turns future poll es
        → (more : List Request) × (requests (happen_all future poll es h).answers ≡ h.calls ++ more)
    happen_all_answers Peer first h es steps closed all_closed bound =
        Early-Answered es h h.queue [] h.calls closed all_closed (record {
          queue = sym (append-nil h.queue);
          order = (Steps-Serial future poll Peer first h steps).1;
          bound = work_bound future poll h (turns future poll es) bound;
        })

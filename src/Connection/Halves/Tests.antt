-- ===== src/Connection/Halves/Tests.antt =====
-- A stream whose writes send one byte at each poll, with two calls at once, on a connection that is
-- lost.
use iroh_dart.Prelude.{
  zero, suc, Bool, true, false, not, refl, ◌≢◌, ℕ, ◌≤◌, ◌≡◌, List, [], ◌∷◌, ◌++◌, none, arith,
}
use iroh_dart.Connection.Halves.{
  Polled, pending, ready, SendRequest, writes_all, finishes, SendFutures, send_future, Half, fresh,
  arrive, lock_next, poll_holder, arrives, locks, polls, peer_acts, Steps, stay, then,
}
use iroh_dart.Connection.Halves.Laws.{requests, held_request, Served, Steps-Serial}
use iroh_dart.Connection.Halves.Drain.{drain, Ends, work, drain-requests}
use iroh_dart.Connection.Halves.Events.{Event, comes, turn, changes, happen_all}
use iroh_dart.Connection.Halves.Early.{happen_all_answers}

-- What is left to write; the other calls end at once.
data Op : Type 0 where
  writing : List ℕ → Op
  ending : Op

abbrev futures : SendFutures Op
futures = record { write_all = λ bytes. writing bytes; finish = ending; reset = λ code. ending }

-- Whether the connection is lost, how many bytes the peer's flow control lets through, and what was
-- sent.
abbrev Line : Type 0
Line = Bool × ℕ × List ℕ

-- One byte at each poll; without a window a write waits, however often it is polled.
abbrev write : Bool → ℕ → List ℕ → List ℕ → Polled Op Bool × Line
write true window bytes sent = (ready false, (true, window, sent))
write false window [] sent = (ready true, (false, window, sent))
write false zero (b ∷ bytes) sent = (pending (writing (b ∷ bytes)), (false, 0, sent))
write false (suc window) (b ∷ bytes) sent =
    (pending (writing bytes), (false, window, sent ++ (b ∷ [])))

abbrev poll : Op → Line → Polled Op Bool × Line
poll (writing bytes) (lost, window, sent) = write lost window bytes sent
poll ending (lost, window, sent) = (ready (not lost), (lost, window, sent))

abbrev Closed : Line → Type 0
Closed s = s.0 ≡ true

poll-Ends : Ends (send_future futures) poll Closed
poll-Ends = record {
  never_pending = λ op op' s s' c e. answers op op' s.0 s.1 s.2 s' c e;
  stays = λ op s c. closed op s.0 s.1 s.2 c;
}
  where
    answers :
        (op op' : Op) (lost : Bool) (window : ℕ) (sent : List ℕ) (s' : Line)
        → lost ≡ true
        → poll op (lost, window, sent) ≢ (pending op', s')
    answers (writing bytes) op' true window sent s' c e = cc
    answers ending op' true window sent s' c e = cc
    answers op op' false window sent s' c e = cc

    closed :
        (op : Op) (lost : Bool) (window : ℕ) (sent : List ℕ)
        → lost ≡ true
        → (poll op (lost, window, sent)).1.0 ≡ true
    closed (writing bytes) true window sent c = refl
    closed ending true window sent c = refl
    closed op false window sent c = cc

-- The peer may lose the connection.
abbrev Peer : Line → Line → Type 0
Peer s t = t ≡ (true, s.1, s.2)

abbrev Sending : Type 0
Sending = Half SendRequest Op Line Bool

abbrev future : SendRequest → Op
future = send_future futures

abbrev first_write : SendRequest
first_write = writes_all (1 ∷ 2 ∷ [])

-- There is room for one byte.
abbrev open_line : Line
open_line = (false, 1, [])

abbrev both : Sending
both = arrive future poll finishes (arrive future poll first_write (fresh future poll open_line))

-- The first write has the guard and has sent one byte; the end of the stream waits.
abbrev begun : Sending
begun = poll_holder future poll (lock_next future poll both)

both-Steps : Steps future poll Peer (fresh future poll open_line) both
both-Steps = then _ _ (then _ _ stay (arrives first_write _)) (arrives finishes _)

begun-Steps : Steps future poll Peer (fresh future poll open_line) begun
begun-Steps = then _ _ (then _ _ both-Steps (locks both)) (polls _)

Steps-Serial_example :
    Served future poll Peer open_line begun.answers begun.holder begun.stream
    × (requests begun.answers ++ (held_request begun.holder ++ begun.queue) ≡ begun.calls)
Steps-Serial_example = Steps-Serial future poll Peer open_line begun begun-Steps

-- The connection is lost, with the write and the end of the stream under way.
abbrev lost : Sending
lost = record begun { stream = (true, 0, 1 ∷ []) }

lost-Steps : Steps future poll Peer (fresh future poll open_line) lost
unfolding arrive fresh send_future lock_next poll_holder
lost-Steps = then _ _ begun-Steps (peer_acts begun (true, 0, 1 ∷ []) refl)

work-lost : work future poll lost ≤ 2
unfolding work arrive fresh send_future lock_next poll_holder
work-lost = omega arith

drain-requests_example :
    (requests (drain future poll 2 lost).answers ≡ lost.calls)
    × ((drain future poll 2 lost).holder ≡ none)
    × ((drain future poll 2 lost).queue ≡ [])
drain-requests_example =
    drain-requests future poll Closed poll-Ends Peer open_line lost 2 lost-Steps refl work-lost

abbrev later : List (Event future poll)
later = turn ∷ comes first_write ∷ changes (true, 4, []) ∷ turn ∷ []

happen_all_answers_example :
    (more : List SendRequest) × (requests (happen_all future poll later lost).answers
      ≡ lost.calls ++ more)
happen_all_answers_example =
    happen_all_answers future poll Closed poll-Ends Peer open_line lost later lost-Steps refl
      (refl, tt) work-lost

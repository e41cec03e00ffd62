-- ===== src/Connection/Halves/Serial.antt =====
-- Calls one at a time, without a mutex: what the calls on a half are held against.
use iroh_dart.Prelude.{◌≡◌, List, [], ◌∷◌, ◌++◌}
use iroh_dart.Connection.Halves.{Polled, pending, ready}

module _ {Request Op Stream Answer : Type 0} (future : Request → Op)
    (poll : Op → Stream → Polled Op Answer × Stream) (Peer : Stream → Stream → Type 0) where
  -- One future is polled to some point; only the peer acts between its polls.
  pub data Alone (op : Op) (stream : Stream) : Op → Stream → Type 0 where
    begun : Alone op stream op stream
    again :
        (o o' : Op) (s s' : Stream)
        → Alone op stream o s
        → poll o s ≡ (pending o', s')
        → Alone op stream o' s'
    between : (o : Op) (s s' : Stream) → Alone op stream o s → Peer s s' → Alone op stream o s'

  -- Whole calls, each after the end of the one before.
  pub data Serial (stream : Stream) : List (Request × Answer) → Stream → Type 0 where
    nothing_yet : Serial stream [] stream
    idles :
        (served : List (Request × Answer)) (s s' : Stream)
        → Serial stream served s
        → Peer s s'
        → Serial stream served s'
    serves :
        (served : List (Request × Answer)) (r : Request) (op : Op) (a : Answer) (s s' s'' : Stream)
        → Serial stream served s
        → Alone (future r) s op s'
        → poll op s' ≡ (ready a, s'')
        → Serial stream (served ++ ((r, a) ∷ [])) s''

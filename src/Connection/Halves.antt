-- ===== src/Connection/Halves.antt =====
-- Calls on one half of a stream, of packages/iroh_quic/rust/src/api/connection.rs, from any number
-- of tasks. Each call waits for the half's async mutex, awaits one future of iroh with the guard,
-- and drops the guard at the end of it; tokio's mutex serves its waiters in their order. A future
-- of iroh is polled: what a poll does is a parameter, and so is what the peer does meanwhile.
pub mod Serial
pub mod Laws
pub mod Drain
pub mod Events
pub mod Early
pub mod Tests
use iroh_dart.Prelude.{ℕ, Option, none, some, List, [], ◌∷◌, ◌++◌, replicate}

-- What a poll comes to.
pub data Polled (Op Answer : Type 0) : Type 0 where
  pending : Op → Polled Op Answer
  ready : Answer → Polled Op Answer

-- The calls of `SendStream` and of `RecvStream` that take the mutex, with their arguments.
pub data SendRequest : Type 0 where
  writes_all : List ℕ → SendRequest
  finishes : SendRequest
  resets : ℕ → SendRequest

pub data RecvRequest : Type 0 where
  reads reads_exact reads_to_end stops : ℕ → RecvRequest

-- iroh's futures, each made with the guard in hand.
pub record SendFutures (Op : Type 0) : Type 0 where
  pub write_all : List ℕ → Op
  pub finish : Op
  pub reset : ℕ → Op

pub record RecvFutures (Op : Type 0) : Type 0 where
  pub read : List ℕ → Op
  pub read_exact : List ℕ → Op
  pub read_to_end : ℕ → Op
  pub stop : ℕ → Op

pub send_future : {Op : Type 0} → SendFutures Op → SendRequest → Op
send_future f (writes_all bytes) = f.write_all bytes
send_future f finishes = f.finish
send_future f (resets error_code) = f.reset error_code

pub recv_future : {Op : Type 0} → RecvFutures Op → RecvRequest → Op
recv_future f (reads max_len) = f.read (replicate max_len 0)
recv_future f (reads_exact len) = f.read_exact (replicate len 0)
recv_future f (reads_to_end size_limit) = f.read_to_end size_limit
recv_future f (stops error_code) = f.stop error_code

-- The task with the guard.
pub record Held (Request Op : Type 0) : Type 0 where
  pub request : Request
  pub op : Op

pub record Half (Request Op Stream Answer : Type 0) : Type 0 where
  pub stream : Stream
  pub holder : Option (Held Request Op)
  pub queue : List Request
  -- What the calls that ended answered, in the order of their ends.
  pub answers : List (Request × Answer)
  -- All calls so far, in the order in which they came to the mutex.
  pub calls : List Request

module _ {Request Op Stream Answer : Type 0} (future : Request → Op)
    (poll : Op → Stream → Polled Op Answer × Stream) where
  -- `Arc::new(Mutex::new(inner))`
  pub fresh : Stream → Half Request Op Stream Answer
  fresh stream = record { stream = stream; holder = none; queue = []; answers = []; calls = [] }

  -- A task comes to `inner.lock().await`.
  pub arrive : Request → Half Request Op Stream Answer → Half Request Op Stream Answer
  arrive r h = record h { queue = h.queue ++ (r ∷ []); calls = h.calls ++ (r ∷ []) }

  abbrev pub locked :
      Half Request Op Stream Answer
      → Option (Held Request Op)
      → List Request
      → Half Request Op Stream Answer
  locked h none (r ∷ rest) = record h {
    holder = some (record { request = r; op = future r });
    queue = rest;
  }
  locked h none [] = h
  locked h (some held) queue = h

  -- The first waiter gets the guard, if no task has it.
  pub lock_next : Half Request Op Stream Answer → Half Request Op Stream Answer
  lock_next h = locked h h.holder h.queue

  abbrev pub settled :
      Half Request Op Stream Answer
      → Held Request Op
      → Polled Op Answer × Stream
      → Half Request Op Stream Answer
  settled h held (pending op, stream) = record h {
    stream = stream;
    holder = some (record held { op = op });
  }
  settled h held (ready answer, stream) = record h {
    stream = stream;
    holder = none;
    answers = h.answers ++ ((held.request, answer) ∷ []);
  }

  abbrev pub polled :
      Half Request Op Stream Answer → Option (Held Request Op) → Half Request Op Stream Answer
  polled h none = h
  polled h (some held) = settled h held (poll held.op h.stream)

  -- The future of the task with the guard is polled; at its end, with success or an error, the
  -- guard is dropped.
  pub poll_holder : Half Request Op Stream Answer → Half Request Op Stream Answer
  poll_holder h = polled h h.holder

  -- Any order of arrivals, of polls, and of what the peer and the connection do to the stream.
  pub data Step (Peer : Stream → Stream → Type 0)
      : Half Request Op Stream Answer → Half Request Op Stream Answer → Type 0 where
    arrives : (r : Request) (h : Half Request Op Stream Answer) → Step Peer h (arrive r h)
    locks : (h : Half Request Op Stream Answer) → Step Peer h (lock_next h)
    polls : (h : Half Request Op Stream Answer) → Step Peer h (poll_holder h)
    peer_acts :
        (h : Half Request Op Stream Answer) (stream : Stream)
        → Peer h.stream stream
        → Step Peer h (record h { stream = stream })

  pub data Steps (Peer : Stream → Stream → Type 0) (h : Half Request Op Stream Answer)
      : Half Request Op Stream Answer → Type 0 where
    stay : Steps Peer h h
    then : (k l : Half Request Op Stream Answer) → Steps Peer h k → Step Peer k l → Steps Peer h l

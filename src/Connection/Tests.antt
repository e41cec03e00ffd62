-- ===== src/Connection/Tests.antt =====
-- A small instance of iroh's connections: the world counts the calls, a stream holds what arrives,
-- and the theorems are tried on it.
use iroh_dart.Prelude.{
  Option, take, ◌≤◌, length-take, codes, ℕ, suc, ◌+◌, ◌≤◌, ◌≡◌, refl, ap, none, some, List, [], ◌∷◌,
  foreign, already_consumed, ok, err, length, take, arith,
}
use iroh_dart.Iroh.Quic.{Quic}
use iroh_dart.Runtime.Job.{Job, fails, returns}
use iroh_dart.Connection.Incoming.{wrap, failed, connected, accepts, refuses, ignores, decide_all}
use iroh_dart.Connection.Incoming.Laws.{decide_all_once}
use iroh_dart.Connection.Streams.{RecvStream, read, read_many_datagrams}
use iroh_dart.Connection.Streams.Laws.{BufferLaws, read-length}

-- Puts `new` in front of what the buffer holds behind it; what does not fit is left out.
abbrev fill : {A : Type 0} → List A → List A → List A
fill [] buf = buf
fill (x ∷ new) [] = []
fill (x ∷ new) (y ∷ buf) = x ∷ fill new buf

length-fill : {A : Type 0} (new buf : List A) → length (fill new buf) ≡ length buf
length-fill [] buf = refl
length-fill (x ∷ new) [] = refl
length-fill (x ∷ new) (y ∷ buf) = ap suc (length-fill new buf)

abbrev pub answer : {A : Type 0} → A → Job ℕ A
answer a w = (returns a, w + 1)

abbrev exact : List ℕ → List ℕ → Job ℕ (List ℕ)
exact [] [] w = (returns [], w + 1)
exact [] (y ∷ buf) w = (fails (foreign []), w + 1)
exact (x ∷ new) [] w = (returns [], w + 1)
exact (x ∷ new) (y ∷ buf) w = (returns (fill (x ∷ new) (y ∷ buf)), w + 1)

length-exact :
    (new buf : List ℕ) (w : ℕ) (filled : List ℕ)
    → (exact new buf w).0 ≡ returns filled
    → length filled ≡ length buf
length-exact [] [] w filled h = ground arith
length-exact [] (y ∷ buf) w filled h = cc
length-exact (x ∷ new) [] w filled h = ground arith
length-exact (x ∷ new) (y ∷ buf) w filled h = ground (arith, length-fill (x ∷ new) (y ∷ buf))

-- A connection is the list of datagrams that wait; a stream is the list of its bytes.
abbrev pub small : Quic
small = record {
  World = ℕ;
  Incoming = ℕ;
  Accepting = ℕ;
  Connection = List (List ℕ);
  SendStream = ℕ;
  RecvStream = List ℕ;
  incoming_remote_addr = λ inc. inc ∷ [];
  incoming_accept = λ inc. answer inc;
  accepting_await = λ a. answer ((a ∷ []) ∷ []);
  refuse = λ inc w. w + 1;
  ignore = λ inc w. w;
  retry = λ inc w. (err (foreign []), w);
  open_bi = λ c. answer (1, []);
  open_uni = λ c. answer 1;
  accept_bi = λ c. answer (1, []);
  accept_uni = λ c. answer [];
  send_id = λ s. s;
  recv_id = λ r. length r;
  send_datagram = λ c d w. (ok tt, w + 1);
  read_datagram = λ c. answer [];
  send_many_datagrams = λ c ds w. (ok (length ds), w + 1);
  read_many_datagrams = λ c out. answer (length (take (length out) c), fill c out);
  write_all = λ s d. answer tt;
  finish = λ s. answer tt;
  reset = λ s code. answer tt;
  read = λ r buf. answer (some (length (take (length buf) r)), fill r buf);
  read_exact = λ r buf. exact r buf;
  read_to_end = λ r limit. answer r;
  stop = λ r code. answer tt;
  remote_id = λ c. [];
  alpn = λ c. [];
  stable_id = λ c. length c;
  Stats = ℕ;
  stats = λ c w. w;
  udp_tx_datagrams = λ s. s;
  udp_tx_bytes = λ s. s;
  udp_rx_datagrams = λ s. s;
  udp_rx_bytes = λ s. s;
  sent_packets = λ s. s;
  sent_bytes = λ s. s;
  lost_packets = λ s. s;
  lost_bytes = λ s. s;
  closed = λ c. answer (codes "closed");
  close = λ c code reason w. w + 1;
}

length-answer :
    {A B : Type 0} (n : B) (new buf : List A) (w : ℕ) (n' : B) (filled : List A)
    → (answer {A = B × List A} (n, fill new buf) w).0 ≡ returns (n', filled)
    → length filled ≡ length buf
length-answer n new buf w n' filled h = ground (arith, length-fill new buf)

count-answer :
    {A : Type 0} (new buf : List A) (w n : ℕ) (filled : List A)
    → (answer {A = Option ℕ × List A} (some (length (take (length buf) new)), fill new buf) w).0
      ≡ returns (some n, filled)
    → n ≤ length buf
count-answer new buf w n filled h = ground (arith, length-take (length buf) new)

small-BufferLaws : BufferLaws small
small-BufferLaws = record {
  length-read = λ r buf w n filled h. length-answer _ r buf w n filled h;
  count-read = λ r buf w n filled h. count-answer r buf w n filled h;
  length-read_exact = λ r buf w filled h. length-exact r buf w filled h;
  length-read_many = λ c out w n filled h. length-answer _ c out w n filled h;
}

decide_all_once_example : decide_all small (accepts ∷ refuses ∷ ignores ∷ []) (wrap small 7) 3 ≡ (
  connected ((7 ∷ []) ∷ []) ∷ failed already_consumed ∷ failed already_consumed ∷ [],
  record { inner = none; remote_addr = 7 ∷ [] },
  5,
)
decide_all_once_example = decide_all_once small accepts (refuses ∷ ignores ∷ []) 7 3

abbrev stream : RecvStream (List ℕ)
stream = record { inner = 4 ∷ 5 ∷ 6 ∷ []; id = 3 }

abbrev two : List ℕ
two = 4 ∷ 5 ∷ []

read_two : (read small stream 2 0).0 ≡ ok (some two)
unfolding read
read_two = refl

read-length_example :
    (n : ℕ) × (filled : List ℕ) × ((small.read (4 ∷ 5 ∷ 6 ∷ []) (0 ∷ 0 ∷ []) 0).0
      ≡ returns (some n, filled))
    × (two ≡ take n filled)
    × (length two ≡ n)
    × (n ≤ 2)
read-length_example = read-length small small-BufferLaws stream 2 0 two read_two

abbrev waiting : List (List ℕ)
waiting = (1 ∷ []) ∷ (2 ∷ 2 ∷ []) ∷ []

abbrev one : List (List ℕ)
one = (1 ∷ []) ∷ []

read_one : (read_many_datagrams small waiting 1 0).0 ≡ ok one
unfolding read_many_datagrams
read_one = refl

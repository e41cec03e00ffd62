-- ===== src/Connection/Streams.antt =====
-- The streams and datagrams of packages/iroh_quic/rust/src/api/connection.rs. Each async call
-- spawns a body over iroh's world; a stream's lock is held for the whole body, so bodies do not
-- interleave.
pub mod Laws
use iroh_dart.Prelude.{
  ℕ, zero, suc, Bool, true, false, Option, none, some, List, [], Str, codes, Result, ok, err,
  length, take, replicate, leb, if◌then◌else◌,
}
use iroh_dart.Iroh.Quic.{Quic}
use iroh_dart.Runtime.Job.{Job, ◌>>=◌, pure, spawn, panics, returns}

-- The `Debug` text of an index out of range, which only the panic carries.
abbrev out_of_range : Str
out_of_range = []

-- `out[..n]`
abbrev pub slice_to : {W A : Type 0} → ℕ → List A → Job W (List A)
slice_to n out w =
    if leb n (length out) then (returns (take n out), w) else (panics out_of_range, w)

pub record SendStream (S : Type 0) : Type 0 where
  pub inner : S
  pub id : ℕ

pub record RecvStream (S : Type 0) : Type 0 where
  pub inner : S
  pub id : ℕ

abbrev pub map_ok : {A B : Type 0} → (A → B) → Result A → Result B
map_ok f (err e) = err e
map_ok f (ok a) = ok (f a)

abbrev pub map_some : {A B : Type 0} → (A → B) → Option A → Option B
map_some f none = none
map_some f (some a) = some (f a)

module _ (q : Quic) where
  abbrev pub wrap_send : q.SendStream → SendStream q.SendStream
  wrap_send s = record { inner = s; id = q.send_id s }

  abbrev pub wrap_recv : q.RecvStream → RecvStream q.RecvStream
  wrap_recv r = record { inner = r; id = q.recv_id r }

  abbrev pub wrap_both :
      q.SendStream × q.RecvStream → SendStream q.SendStream × RecvStream q.RecvStream
  wrap_both both = (wrap_send both.0, wrap_recv both.1)

  unfoldable pub open_bi :
      q.Connection → q.World → Result (SendStream q.SendStream × RecvStream q.RecvStream) × q.World
  open_bi conn w =
      let (r, w') = spawn (codes "open_bi") (q.open_bi conn) w in (map_ok wrap_both r, w')

  pub open_uni : q.Connection → q.World → Result (SendStream q.SendStream) × q.World
  open_uni conn w =
      let (r, w') = spawn (codes "open_uni") (q.open_uni conn) w in (map_ok wrap_send r, w')

  pub accept_bi :
      q.Connection → q.World → Result (SendStream q.SendStream × RecvStream q.RecvStream) × q.World
  accept_bi conn w =
      let (r, w') = spawn (codes "accept_bi") (q.accept_bi conn) w in (map_ok wrap_both r, w')

  pub accept_uni : q.Connection → q.World → Result (RecvStream q.RecvStream) × q.World
  accept_uni conn w =
      let (r, w') = spawn (codes "accept_uni") (q.accept_uni conn) w in (map_ok wrap_recv r, w')

  pub send_datagram : q.Connection → List ℕ → q.World → Result (Unit {0}) × q.World
  send_datagram conn bytes w = q.send_datagram conn bytes w

  pub read_datagram : q.Connection → q.World → Result (List ℕ) × q.World
  read_datagram conn w = spawn (codes "read_datagram") (q.read_datagram conn) w

  pub send_many_datagrams : q.Connection → List (List ℕ) → q.World → Result ℕ × q.World
  send_many_datagrams conn datagrams w = q.send_many_datagrams conn datagrams w

  abbrev pub read_many_body : q.Connection → ℕ → Job q.World (List (List ℕ))
  read_many_body conn max_count = do
    filled ← q.read_many_datagrams conn (replicate max_count [])
    slice_to filled.0 filled.1

  unfoldable pub read_many_datagrams : q.Connection → ℕ → q.World → Result (List (List ℕ)) × q.World
  read_many_datagrams conn max_count w =
      spawn (codes "read_many_datagrams") (read_many_body conn max_count) w

  pub write_all : SendStream q.SendStream → List ℕ → q.World → Result (Unit {0}) × q.World
  write_all s bytes w = spawn (codes "write_all") (q.write_all s.inner bytes) w

  pub finish : SendStream q.SendStream → q.World → Result (Unit {0}) × q.World
  finish s w = spawn (codes "finish") (q.finish s.inner) w

  pub reset : SendStream q.SendStream → ℕ → q.World → Result (Unit {0}) × q.World
  reset s error_code w = spawn (codes "reset") (q.reset s.inner error_code) w

  -- `buf.truncate(n)`
  abbrev pub read_body : RecvStream q.RecvStream → ℕ → Job q.World (Option (List ℕ))
  read_body r max_len = do
    filled ← q.read r.inner (replicate max_len 0)
    pure (map_some (λ n. take n filled.1) filled.0)

  unfoldable pub read : RecvStream q.RecvStream → ℕ → q.World → Result (Option (List ℕ)) × q.World
  read r max_len w = spawn (codes "read") (read_body r max_len) w

  unfoldable pub read_exact : RecvStream q.RecvStream → ℕ → q.World → Result (List ℕ) × q.World
  read_exact r len w = spawn (codes "read_exact") (q.read_exact r.inner (replicate len 0)) w

  pub read_to_end : RecvStream q.RecvStream → ℕ → q.World → Result (List ℕ) × q.World
  read_to_end r size_limit w = spawn (codes "read_to_end") (q.read_to_end r.inner size_limit) w

  pub stop : RecvStream q.RecvStream → ℕ → q.World → Result (Unit {0}) × q.World
  stop r error_code w = spawn (codes "stop") (q.stop r.inner error_code) w

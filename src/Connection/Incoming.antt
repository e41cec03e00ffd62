-- ===== src/Connection/Incoming.antt =====
-- `Incoming` of packages/iroh_quic/rust/src/api/connection.rs: an inbound connection that takes one
-- decision.
pub mod Laws
use iroh_dart.Prelude.{
  codes, Option, none, some, List, [], ◌∷◌, Str, Error, already_consumed, Result, ok, err, ok_or,
}
use iroh_dart.Iroh.Quic.{Quic}
use iroh_dart.Runtime.Job.{Job, ◌>>=◌, pure, spawn}

-- `inner` is behind a mutex, which each call holds for its `take` only.
pub record Incoming (I : Type 0) : Type 0 where
  pub inner : Option I
  pub remote_addr : Str

module _ (q : Quic) where
  unfoldable pub wrap : q.Incoming → Incoming q.Incoming
  wrap inc = record { inner = some inc; remote_addr = q.incoming_remote_addr inc }

  -- `Option::take` behind the lock, and the error for a call that comes too late.
  unfoldable pub take : Incoming q.Incoming → Result q.Incoming × Incoming q.Incoming
  take h = (ok_or h.inner already_consumed, record h { inner = none })

  -- The body that `accept` spawns: `inc.accept()?`, then `accepting.await?`.
  abbrev pub handshake : q.Incoming → Job q.World q.Connection
  handshake inc = do accepting ← q.incoming_accept inc; q.accepting_await accepting

  -- What a decision answers.
  pub data Reply : Type 0 where
    connected : q.Connection → Reply
    done : Reply
    failed : Error → Reply

  pub data Decision : Type 0 where
    accepts refuses retries ignores : Decision

  abbrev pub connection_reply : Result q.Connection → Reply
  connection_reply (err e) = failed e
  connection_reply (ok c) = connected c

  abbrev pub unit_reply : Result (Unit {0}) → Reply
  unit_reply (err e) = failed e
  unit_reply (ok _) = done

  -- The calls after their `self.take()?`.
  abbrev pub accept_taken : Result q.Incoming → q.World → Result q.Connection × q.World
  accept_taken (err e) w = (err e, w)
  accept_taken (ok inc) w = spawn (codes "incoming accept") (handshake inc) w

  abbrev pub refuse_taken : Result q.Incoming → q.World → Result (Unit {0}) × q.World
  refuse_taken (err e) w = (err e, w)
  refuse_taken (ok inc) w = (ok tt, q.refuse inc w)

  abbrev pub retry_taken : Result q.Incoming → q.World → Result (Unit {0}) × q.World
  retry_taken (err e) w = (err e, w)
  retry_taken (ok inc) w = q.retry inc w

  abbrev pub ignore_taken : Result q.Incoming → q.World → Result (Unit {0}) × q.World
  ignore_taken (err e) w = (err e, w)
  ignore_taken (ok inc) w = (ok tt, q.ignore inc w)

  unfoldable pub accept :
      Incoming q.Incoming → q.World → Result q.Connection × Incoming q.Incoming × q.World
  unfolding take
  accept h w = let (taken, h') = take h in let (r, w') = accept_taken taken w in (r, h', w')

  unfoldable pub refuse :
      Incoming q.Incoming → q.World → Result (Unit {0}) × Incoming q.Incoming × q.World
  unfolding take
  refuse h w = let (taken, h') = take h in let (r, w') = refuse_taken taken w in (r, h', w')

  unfoldable pub retry :
      Incoming q.Incoming → q.World → Result (Unit {0}) × Incoming q.Incoming × q.World
  unfolding take
  retry h w = let (taken, h') = take h in let (r, w') = retry_taken taken w in (r, h', w')

  unfoldable pub ignore :
      Incoming q.Incoming → q.World → Result (Unit {0}) × Incoming q.Incoming × q.World
  unfolding take
  ignore h w = let (taken, h') = take h in let (r, w') = ignore_taken taken w in (r, h', w')

  pub decide : Decision → Incoming q.Incoming → q.World → Reply × Incoming q.Incoming × q.World
  unfolding accept refuse retry ignore
  decide accepts h w = let (r, h', w') = accept h w in (connection_reply r, h', w')
  decide refuses h w = let (r, h', w') = refuse h w in (unit_reply r, h', w')
  decide retries h w = let (r, h', w') = retry h w in (unit_reply r, h', w')
  decide ignores h w = let (r, h', w') = ignore h w in (unit_reply r, h', w')

  -- Calls from any number of Dart tasks, in the order in which they take the lock.
  pub decide_all :
      List Decision → Incoming q.Incoming → q.World → List Reply × Incoming q.Incoming × q.World
  decide_all [] h w = ([], h, w)
  decide_all (d ∷ ds) h w =
      let (reply, h', w') = decide d h w in
      let (replies, h'', w'') = decide_all ds h' w' in (reply ∷ replies, h'', w'')

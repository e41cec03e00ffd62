-- ===== src/Iroh/Quic.antt =====
-- iroh's connections, streams and routers, as parameters. `World` is all that iroh keeps: sockets,
-- connections, streams.
use iroh_dart.Prelude.{ℕ, List, Option, Str, Result}
use iroh_dart.Runtime.Job.{Job}

pub record Quic : Type 1 where
  pub World : Type 0
  pub Incoming : Type 0
  pub Accepting : Type 0
  pub Connection : Type 0
  pub SendStream : Type 0
  pub RecvStream : Type 0
  -- The `Debug` text of the remote address.
  pub incoming_remote_addr : Incoming → Str
  pub incoming_accept : Incoming → Job World Accepting
  pub accepting_await : Accepting → Job World Connection
  pub refuse : Incoming → World → World
  pub ignore : Incoming → World → World
  pub retry : Incoming → World → Result (Unit {0}) × World
  pub open_bi : Connection → Job World (SendStream × RecvStream)
  pub open_uni : Connection → Job World SendStream
  pub accept_bi : Connection → Job World (SendStream × RecvStream)
  pub accept_uni : Connection → Job World RecvStream
  pub send_id : SendStream → ℕ
  pub recv_id : RecvStream → ℕ
  pub send_datagram : Connection → List ℕ → World → Result (Unit {0}) × World
  pub read_datagram : Connection → Job World (List ℕ)
  pub send_many_datagrams : Connection → List (List ℕ) → World → Result ℕ × World
  -- Fills the front of the buffer, and says how far.
  pub read_many_datagrams : Connection → List (List ℕ) → Job World (ℕ × List (List ℕ))
  pub write_all : SendStream → List ℕ → Job World (Unit {0})
  pub finish : SendStream → Job World (Unit {0})
  pub reset : SendStream → ℕ → Job World (Unit {0})
  -- Fills the front of the buffer, and says how far; `none` at the end of the stream.
  pub read : RecvStream → List ℕ → Job World (Option ℕ × List ℕ)
  -- Fills the buffer.
  pub read_exact : RecvStream → List ℕ → Job World (List ℕ)
  pub read_to_end : RecvStream → ℕ → Job World (List ℕ)
  pub stop : RecvStream → ℕ → Job World (Unit {0})
  pub remote_id : Connection → List ℕ
  pub alpn : Connection → List ℕ
  pub stable_id : Connection → ℕ
  -- The counters at one time, by their paths in iroh's struct.
  pub Stats : Type 0
  pub stats : Connection → World → Stats
  pub udp_tx_datagrams : Stats → ℕ
  pub udp_tx_bytes : Stats → ℕ
  pub udp_rx_datagrams : Stats → ℕ
  pub udp_rx_bytes : Stats → ℕ
  pub sent_packets : Stats → ℕ
  pub sent_bytes : Stats → ℕ
  pub lost_packets : Stats → ℕ
  pub lost_bytes : Stats → ℕ
  -- The text of the reason.
  pub closed : Connection → Job World Str
  pub close : Connection → ℕ → List ℕ → World → World

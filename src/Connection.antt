-- ===== src/Connection.antt =====
-- packages/iroh_quic/rust/src/api/connection.rs: connections, inbound connections and streams.
pub mod Incoming
pub mod Streams
pub mod Halves
pub mod Tests
use iroh_dart.Prelude.{ℕ, List, [], ◌++◌, Str, codes, Result, ok, err, panicked}
use iroh_dart.Iroh.Quic.{Quic}
use iroh_dart.Runtime.Job.{Outcome, panics, fails, returns}

pub record ConnStats : Type 0 where
  pub udp_tx_datagrams : ℕ
  pub udp_tx_bytes : ℕ
  pub udp_rx_datagrams : ℕ
  pub udp_rx_bytes : ℕ
  pub sent_packets : ℕ
  pub sent_bytes : ℕ
  pub lost_packets : ℕ
  pub lost_bytes : ℕ

-- What `closed` makes of the join handle of its task, which cannot fail.
abbrev closed_text : Outcome Str → Str
closed_text (panics p) = codes "closed task panicked: " ++ p
closed_text (fails e) = []
closed_text (returns reason) = reason

module _ (q : Quic) where
  pub remote_id : q.Connection → List ℕ
  remote_id conn = q.remote_id conn

  pub alpn : q.Connection → List ℕ
  alpn conn = q.alpn conn

  pub stable_id : q.Connection → ℕ
  stable_id conn = q.stable_id conn

  pub stats : q.Connection → q.World → ConnStats
  stats conn w =
      let s = q.stats conn w in
      record {
        udp_tx_datagrams = q.udp_tx_datagrams s;
        udp_tx_bytes = q.udp_tx_bytes s;
        udp_rx_datagrams = q.udp_rx_datagrams s;
        udp_rx_bytes = q.udp_rx_bytes s;
        sent_packets = q.sent_packets s;
        sent_bytes = q.sent_bytes s;
        lost_packets = q.lost_packets s;
        lost_bytes = q.lost_bytes s;
      }

  pub closed : q.Connection → q.World → Str × q.World
  closed conn w = let (o, w') = q.closed conn w in (closed_text o, w')

  pub close : q.Connection → ℕ → List ℕ → q.World → q.World
  close conn error_code reason w = q.close conn error_code reason w

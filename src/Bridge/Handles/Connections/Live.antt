-- ===== src/Bridge/Handles/Connections/Live.antt =====
-- Each call of Handles/Connections keeps the objects.
use iroh_dart.Prelude.{ℕ, ◌≡◌, refl, inl, none, some, List, Result}
use iroh_dart.Connection.Incoming as Inc
use iroh_dart.Connection.Incoming.{Incoming}
use iroh_dart.Bridge.Handles.{
  State, put_connection, PoolLaws, Glue, put_recv, put_send, put_streams,
}
use iroh_dart.Bridge.Handles.Connections.{
  keep_cell, wire_incoming_accept, wire_incoming_refuse, wire_incoming_retry, wire_incoming_ignore,
  wire_connection_alpn, wire_connection_remote_id, wire_connection_stable_id, wire_connection_stats,
  wire_connection_closed, wire_connection_close, wire_connection_open_bi, wire_connection_open_uni,
  wire_connection_accept_bi, wire_connection_accept_uni, wire_connection_send_datagram,
  wire_connection_read_datagram, wire_connection_send_many_datagrams,
  wire_connection_read_many_datagrams, wire_connection_path_events, wire_incoming_remote_addr,
}
use iroh_dart.Bridge.Handles.Live.{Live, KeptCell-at, Live-same, Live-refl, Live-trans}
use iroh_dart.Bridge.Handles.Live.Objects.{
  put_connection-Live, store_incoming-Live, put_recv-Live, put_send-Live,
}
use iroh_dart.Bridge.Handles.Live.Rules.{
  Safe, on_handle-Live, put_streams-Live, ran-Live, ran-value-Live,
}

module _ (g : Glue) (laws : PoolLaws g.pools) where
  pub wire_connection_alpn-Live : Safe g (wire_connection_alpn g)
  unfolding wire_connection_alpn
  wire_connection_alpn-Live = on_handle-Live g laws _ _ _ (λ that object args s found. Live-refl s)

  pub wire_connection_remote_id-Live : Safe g (wire_connection_remote_id g)
  unfolding wire_connection_remote_id
  wire_connection_remote_id-Live =
      on_handle-Live g laws _ _ _ (λ that object args s found. Live-refl s)

  pub wire_connection_stable_id-Live : Safe g (wire_connection_stable_id g)
  unfolding wire_connection_stable_id
  wire_connection_stable_id-Live =
      on_handle-Live g laws _ _ _ (λ that object args s found. Live-refl s)

  pub wire_connection_stats-Live : Safe g (wire_connection_stats g)
  unfolding wire_connection_stats
  wire_connection_stats-Live = on_handle-Live g laws _ _ _ (λ that object args s found. Live-refl s)

  pub wire_connection_closed-Live : Safe g (wire_connection_closed g)
  unfolding wire_connection_closed
  wire_connection_closed-Live =
      on_handle-Live g laws _ _ _ (λ that object args s found. ran-value-Live g laws _ _ s)

  pub wire_connection_close-Live : Safe g (wire_connection_close g)
  unfolding wire_connection_close
  wire_connection_close-Live =
      on_handle-Live g laws _ _ _ (λ that object args s found. ran-value-Live g laws _ _ s)

  pub wire_connection_open_bi-Live : Safe g (wire_connection_open_bi g)
  unfolding wire_connection_open_bi
  wire_connection_open_bi-Live =
      on_handle-Live g laws _ _ _
        (λ that object args s found. ran-Live g laws put_streams (put_streams-Live g laws) _ s)

  pub wire_connection_open_uni-Live : Safe g (wire_connection_open_uni g)
  unfolding wire_connection_open_uni
  wire_connection_open_uni-Live =
      on_handle-Live g laws _ _ _
        (λ that object args s found. ran-Live g laws put_send (put_send-Live g laws) _ s)

  pub wire_connection_accept_bi-Live : Safe g (wire_connection_accept_bi g)
  unfolding wire_connection_accept_bi
  wire_connection_accept_bi-Live =
      on_handle-Live g laws _ _ _
        (λ that object args s found. ran-Live g laws put_streams (put_streams-Live g laws) _ s)

  pub wire_connection_accept_uni-Live : Safe g (wire_connection_accept_uni g)
  unfolding wire_connection_accept_uni
  wire_connection_accept_uni-Live =
      on_handle-Live g laws _ _ _
        (λ that object args s found. ran-Live g laws put_recv (put_recv-Live g laws) _ s)

  pub wire_connection_send_datagram-Live : Safe g (wire_connection_send_datagram g)
  unfolding wire_connection_send_datagram
  wire_connection_send_datagram-Live =
      on_handle-Live g laws _ _ _ (λ that object args s found. ran-value-Live g laws _ _ s)

  pub wire_connection_read_datagram-Live : Safe g (wire_connection_read_datagram g)
  unfolding wire_connection_read_datagram
  wire_connection_read_datagram-Live =
      on_handle-Live g laws _ _ _ (λ that object args s found. ran-value-Live g laws _ _ s)

  pub wire_connection_send_many_datagrams-Live : Safe g (wire_connection_send_many_datagrams g)
  unfolding wire_connection_send_many_datagrams
  wire_connection_send_many_datagrams-Live =
      on_handle-Live g laws _ _ _ (λ that object args s found. ran-value-Live g laws _ _ s)

  pub wire_connection_read_many_datagrams-Live : Safe g (wire_connection_read_many_datagrams g)
  unfolding wire_connection_read_many_datagrams
  wire_connection_read_many_datagrams-Live =
      on_handle-Live g laws _ _ _ (λ that object args s found. ran-value-Live g laws _ _ s)

  pub wire_connection_path_events-Live : Safe g (wire_connection_path_events g)
  unfolding wire_connection_path_events
  wire_connection_path_events-Live =
      on_handle-Live g laws _ _ _ (λ that object args s found. Live-same s _ _)

  pub wire_incoming_remote_addr-Live : Safe g (wire_incoming_remote_addr g)
  unfolding wire_incoming_remote_addr
  wire_incoming_remote_addr-Live =
      on_handle-Live g laws _ _ _ (λ that object args s found. Live-refl s)

  keep_cell-Live :
      (s : State g) (that : ℕ) (x : Result (List ℕ) × State g) (cell new : Incoming g.quic.Incoming)
      → Live s x.1
      → g.pools.find _ that s.incomings ≡ some cell
      → new.inner ≡ none
      → Live s (keep_cell g that x new).1
  unfolding keep_cell
  keep_cell-Live s that x cell new h found empty =
      let there = KeptCell-at (λ c. c.inner) _ _ cell (h.incomings that) found in
      Live-trans _ _ _ h (store_incoming-Live g laws x.1 that there.0 new there.1 (inl empty))

  pub wire_incoming_accept-Live : Safe g (wire_incoming_accept g)
  unfolding wire_incoming_accept Inc.accept Inc.take
  wire_incoming_accept-Live = on_handle-Live g laws _ _ _ (λ that cell args s found.
      keep_cell-Live s that _ cell _
        (ran-Live g laws put_connection (put_connection-Live g laws) _ s) found refl)

  pub wire_incoming_refuse-Live : Safe g (wire_incoming_refuse g)
  unfolding wire_incoming_refuse Inc.refuse Inc.take
  wire_incoming_refuse-Live = on_handle-Live g laws _ _ _ (λ that cell args s found.
      keep_cell-Live s that _ cell _ (ran-value-Live g laws _ _ s) found refl)

  pub wire_incoming_retry-Live : Safe g (wire_incoming_retry g)
  unfolding wire_incoming_retry Inc.retry Inc.take
  wire_incoming_retry-Live = on_handle-Live g laws _ _ _ (λ that cell args s found.
      keep_cell-Live s that _ cell _ (ran-value-Live g laws _ _ s) found refl)

  pub wire_incoming_ignore-Live : Safe g (wire_incoming_ignore g)
  unfolding wire_incoming_ignore Inc.ignore Inc.take
  wire_incoming_ignore-Live = on_handle-Live g laws _ _ _ (λ that cell args s found.
      keep_cell-Live s that _ cell _ (ran-value-Live g laws _ _ s) found refl)

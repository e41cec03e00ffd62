-- ===== src/Bridge/Handles/Streams/Live.antt =====
-- Each call of Handles/Streams keeps the objects.
use iroh_dart.Bridge.Handles.{PoolLaws, Glue}
use iroh_dart.Bridge.Handles.Streams.{
  wire_send_stream_id, wire_send_stream_write_all, wire_send_stream_finish, wire_send_stream_reset,
  wire_recv_stream_id, wire_recv_stream_read, wire_recv_stream_read_exact,
  wire_recv_stream_read_to_end, wire_recv_stream_stop,
}
use iroh_dart.Bridge.Handles.Live.{Live-refl}
use iroh_dart.Bridge.Handles.Live.Rules.{Safe, on_handle-Live, ran-value-Live}

module _ (g : Glue) (laws : PoolLaws g.pools) where
  pub wire_send_stream_id-Live : Safe g (wire_send_stream_id g)
  unfolding wire_send_stream_id
  wire_send_stream_id-Live = on_handle-Live g laws _ _ _ (λ that object args s found. Live-refl s)

  pub wire_send_stream_write_all-Live : Safe g (wire_send_stream_write_all g)
  unfolding wire_send_stream_write_all
  wire_send_stream_write_all-Live =
      on_handle-Live g laws _ _ _ (λ that object args s found. ran-value-Live g laws _ _ s)

  pub wire_send_stream_finish-Live : Safe g (wire_send_stream_finish g)
  unfolding wire_send_stream_finish
  wire_send_stream_finish-Live =
      on_handle-Live g laws _ _ _ (λ that object args s found. ran-value-Live g laws _ _ s)

  pub wire_send_stream_reset-Live : Safe g (wire_send_stream_reset g)
  unfolding wire_send_stream_reset
  wire_send_stream_reset-Live =
      on_handle-Live g laws _ _ _ (λ that object args s found. ran-value-Live g laws _ _ s)

  pub wire_recv_stream_id-Live : Safe g (wire_recv_stream_id g)
  unfolding wire_recv_stream_id
  wire_recv_stream_id-Live = on_handle-Live g laws _ _ _ (λ that object args s found. Live-refl s)

  pub wire_recv_stream_read-Live : Safe g (wire_recv_stream_read g)
  unfolding wire_recv_stream_read
  wire_recv_stream_read-Live =
      on_handle-Live g laws _ _ _ (λ that object args s found. ran-value-Live g laws _ _ s)

  pub wire_recv_stream_read_exact-Live : Safe g (wire_recv_stream_read_exact g)
  unfolding wire_recv_stream_read_exact
  wire_recv_stream_read_exact-Live =
      on_handle-Live g laws _ _ _ (λ that object args s found. ran-value-Live g laws _ _ s)

  pub wire_recv_stream_read_to_end-Live : Safe g (wire_recv_stream_read_to_end g)
  unfolding wire_recv_stream_read_to_end
  wire_recv_stream_read_to_end-Live =
      on_handle-Live g laws _ _ _ (λ that object args s found. ran-value-Live g laws _ _ s)

  pub wire_recv_stream_stop-Live : Safe g (wire_recv_stream_stop g)
  unfolding wire_recv_stream_stop
  wire_recv_stream_stop-Live =
      on_handle-Live g laws _ _ _ (λ that object args s found. ran-value-Live g laws _ _ s)

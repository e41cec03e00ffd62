-- ===== src/Bridge/Handles/Endpoints/Live.antt =====
-- Each call of Handles/Endpoints keeps the objects.
use iroh_dart.Bridge.Handles.{
  PoolLaws, Glue, put_connection, put_endpoint, put_incoming, put_option,
}
use iroh_dart.Bridge.Handles.Endpoints.{
  wire_endpoint_bind, wire_endpoint_bind_with_address_lookup, wire_endpoint_id, wire_endpoint_addr,
  wire_endpoint_bound_sockets, wire_endpoint_set_alpns, wire_endpoint_is_closed,
  wire_endpoint_connect, wire_endpoint_accept, wire_endpoint_accept_incoming,
  wire_endpoint_watch_addr, wire_endpoint_home_relay_status, wire_endpoint_close,
}
use iroh_dart.Bridge.Handles.Live.{Live-same, Live-refl}
use iroh_dart.Bridge.Handles.Live.Objects.{
  put_connection-Live, put_endpoint-Live, put_incoming-Live,
}
use iroh_dart.Bridge.Handles.Live.Rules.{
  Safe, on_args-Live, on_handle-Live, put_option-Live, ran-Live, ran-value-Live,
}

module _ (g : Glue) (laws : PoolLaws g.pools) where
  pub wire_endpoint_bind-Live : Safe g (wire_endpoint_bind g)
  unfolding wire_endpoint_bind
  wire_endpoint_bind-Live =
      on_args-Live g laws _ _
        (λ args s. ran-Live g laws put_endpoint (put_endpoint-Live g laws) _ s)

  pub wire_endpoint_bind_with_address_lookup-Live :
      Safe g (wire_endpoint_bind_with_address_lookup g)
  unfolding wire_endpoint_bind_with_address_lookup
  wire_endpoint_bind_with_address_lookup-Live =
      on_args-Live g laws _ _
        (λ args s. ran-Live g laws put_endpoint (put_endpoint-Live g laws) _ s)

  pub wire_endpoint_id-Live : Safe g (wire_endpoint_id g)
  unfolding wire_endpoint_id
  wire_endpoint_id-Live = on_handle-Live g laws _ _ _ (λ that object args s found. Live-refl s)

  pub wire_endpoint_addr-Live : Safe g (wire_endpoint_addr g)
  unfolding wire_endpoint_addr
  wire_endpoint_addr-Live = on_handle-Live g laws _ _ _ (λ that object args s found. Live-refl s)

  pub wire_endpoint_bound_sockets-Live : Safe g (wire_endpoint_bound_sockets g)
  unfolding wire_endpoint_bound_sockets
  wire_endpoint_bound_sockets-Live =
      on_handle-Live g laws _ _ _ (λ that object args s found. Live-refl s)

  pub wire_endpoint_set_alpns-Live : Safe g (wire_endpoint_set_alpns g)
  unfolding wire_endpoint_set_alpns
  wire_endpoint_set_alpns-Live =
      on_handle-Live g laws _ _ _ (λ that object args s found. ran-value-Live g laws _ _ s)

  pub wire_endpoint_is_closed-Live : Safe g (wire_endpoint_is_closed g)
  unfolding wire_endpoint_is_closed
  wire_endpoint_is_closed-Live =
      on_handle-Live g laws _ _ _ (λ that object args s found. Live-refl s)

  pub wire_endpoint_connect-Live : Safe g (wire_endpoint_connect g)
  unfolding wire_endpoint_connect
  wire_endpoint_connect-Live =
      on_handle-Live g laws _ _ _ (λ that object args s found.
        ran-Live g laws put_connection (put_connection-Live g laws) _ s)

  pub wire_endpoint_accept-Live : Safe g (wire_endpoint_accept g)
  unfolding wire_endpoint_accept
  wire_endpoint_accept-Live = on_handle-Live g laws _ _ _ (λ that object args s found.
      ran-Live g laws (put_option put_connection)
        (put_option-Live g laws put_connection (put_connection-Live g laws)) _ s)

  pub wire_endpoint_accept_incoming-Live : Safe g (wire_endpoint_accept_incoming g)
  unfolding wire_endpoint_accept_incoming
  wire_endpoint_accept_incoming-Live = on_handle-Live g laws _ _ _ (λ that object args s found.
      ran-Live g laws (put_option put_incoming)
        (put_option-Live g laws put_incoming (put_incoming-Live g laws)) _ s)

  pub wire_endpoint_watch_addr-Live : Safe g (wire_endpoint_watch_addr g)
  unfolding wire_endpoint_watch_addr
  wire_endpoint_watch_addr-Live =
      on_handle-Live g laws _ _ _ (λ that object args s found. Live-same s _ _)

  pub wire_endpoint_home_relay_status-Live : Safe g (wire_endpoint_home_relay_status g)
  unfolding wire_endpoint_home_relay_status
  wire_endpoint_home_relay_status-Live =
      on_handle-Live g laws _ _ _ (λ that object args s found. Live-same s _ _)

  pub wire_endpoint_close-Live : Safe g (wire_endpoint_close g)
  unfolding wire_endpoint_close
  wire_endpoint_close-Live =
      on_handle-Live g laws _ _ _ (λ that object args s found. ran-value-Live g laws _ _ s)

-- ===== src/Bridge/Handles/Run/Bound.antt =====
-- An endpoint that a call binds, used through its handle.
use iroh_dart.Prelude.{ℕ, ◌≡◌, ap, ◌∙◌, true, some, List, [], ◌++◌, ok}
use iroh_dart.Key.{EndpointAddrParts}
use iroh_dart.Endpoint as Ep
use iroh_dart.Wire.{CursorLaws}
use iroh_dart.Wire.Reads.{IsBytes}
use iroh_dart.Wire.Scalars.{encode_usize, encode_bytes}
use iroh_dart.Wire.Values.Laws.{IsU64, IsParts}
use iroh_dart.Bridge.Dispatch.{Api}
use iroh_dart.Bridge.Handles.{
  PoolLaws, Glue, State, ran, encode_handle, put_endpoint, put_connection,
}
use iroh_dart.Bridge.Handles.Laws.{on_handle-found, on_handle-alone, on_args-Reads}
use iroh_dart.Bridge.Handles.Live.{Live, Kept-at}
use iroh_dart.Bridge.Handles.Endpoints.{
  BindArgs, wire_endpoint_bind, wire_endpoint_id, wire_endpoint_connect,
}
use iroh_dart.Bridge.Handles.Endpoints.Laws.{
  IsBindArgs, bind_message, connect_message, decode_bind_args-Reads, decode_connect_args-Reads,
}
use iroh_dart.Bridge.Handles.Run.{run, dart_call, Session}
use iroh_dart.Bridge.Handles.Run.Laws.{dart_call-run}
use iroh_dart.Bridge.Handles.Run.Live.{Session-Live}

module _ (g : Glue) where
  -- The state after a bind, with the endpoint under its number.
  abbrev pub bound : g.binding.Endpoint → g.quic.World → State g → State g
  bound ep w s = record s { world = w; endpoints = (g.pools.put _ ep s.endpoints).1 }

  abbrev pub endpoint_handle : g.binding.Endpoint → State g → ℕ
  endpoint_handle ep s = (g.pools.put _ ep s.endpoints).0.0

  -- If the tables keep `PoolLaws`, the cursor keeps `CursorLaws`, and `end` accepts that nothing is
  -- left: a bind from Dart with arguments that the codec carries, to which iroh gives an endpoint,
  -- answers with a handle. After any calls that return, with any changes of
  -- iroh's world between them, `id` with this handle answers with the key of that
  -- endpoint and changes nothing, and `connect` is a connect of that endpoint, to the address
  -- and the protocol that Dart gave, in the world as it is then.
  pub endpoint_bind_used :
      PoolLaws g.pools
      → CursorLaws g.cursor
      → g.ends [] ≡ true
      → (s t : State g) (args : BindArgs) (ep : g.binding.Endpoint) (w : g.quic.World)
        (addr : EndpointAddrParts) (alpn : List ℕ)
      → IsBindArgs args
      → Ep.endpoint_bind g.base g.quic g.binding args.secret_key args.alpns args.relay_mode_kind
          args.custom_relay_urls s.world
        ≡ (ok ep, w)
      → Session g (bound ep w s) t
      → IsU64 (endpoint_handle ep s)
      → IsParts addr
      → IsBytes alpn
      → (dart_call g Api.endpoint_bind (bind_message g.cursor args) s
          ≡ some (ok (encode_handle g.cursor (g.pools.put _ ep s.endpoints).0), bound ep w s))
        × (dart_call g Api.endpoint_id (encode_usize g.cursor (endpoint_handle ep s)) t
            ≡ some (ok (encode_bytes g.cursor (Ep.id g.base g.quic g.binding ep)), t))
        × (dart_call g Api.endpoint_connect
              (encode_usize g.cursor (endpoint_handle ep s) ++ connect_message g.cursor addr alpn)
              t
            ≡ some (ran put_connection (Ep.connect g.base g.quic g.binding ep addr alpn t.world) t))
  unfolding run ran put_endpoint wire_endpoint_bind wire_endpoint_id wire_endpoint_connect
  endpoint_bind_used pools cursor ended s t args ep w addr alpn carried e session small ha hb =
      let live : Live (bound ep w s) t = Session-Live g pools _ t session in
      let found = Kept-at _ _ _ (live.endpoints _) (pools.find-put _ ep s.endpoints) in
      (
        dart_call-run g Api.endpoint_bind _ s
            ∙ on_args-Reads g ended cursor _ _ _ args s
                (decode_bind_args-Reads g.cursor cursor args carried)
            ∙ ap (λ x. some (ran put_endpoint x s)) e,
        dart_call-run g Api.endpoint_id _ t
            ∙ on_handle-alone g ended cursor _ _ (endpoint_handle ep s) t ep small found,
        dart_call-run g Api.endpoint_connect _ t
            ∙ on_handle-found g ended cursor _ _ _ (endpoint_handle ep s) _ (addr, alpn) t small
                (decode_connect_args-Reads g.cursor cursor addr alpn ha hb) ep found,
      )

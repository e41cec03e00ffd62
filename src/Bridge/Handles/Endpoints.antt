-- ===== src/Bridge/Handles/Endpoints.antt =====
-- The wire functions `wire__crate__api__endpoint__*` and `wire__crate__api__address_lookup__*` of
-- packages/iroh_quic/rust/src/frb_generated.rs.
pub mod Live
pub mod Laws
use iroh_dart.Prelude.{ℕ, List, Option, Str, Result, ok}
use iroh_dart.Prelude.Int.{ℤ}
use iroh_dart.Key.{EndpointAddrParts}
use iroh_dart.Endpoint as Ep
use iroh_dart.Endpoint.Lookup.{endpoint_bind_with_address_lookup}
use iroh_dart.Wire.{Cursor, Decoder, ◌>>=◌, pure}
use iroh_dart.Wire.Scalars.{decode_usize, decode_i32, decode_bytes, encode_bool, encode_bytes}
use iroh_dart.Wire.Values.{
  decode_parts, encode_parts, decode_strings, encode_strings, decode_byte_lists, decode_opt_bytes,
}
use iroh_dart.Bridge.{nothing, encode_unit}
use iroh_dart.Bridge.Callbacks.{resolve_callback}
use iroh_dart.Bridge.Handles.{
  Glue, State, Wire, on_handle, on_args, value, now, ran, put_connection, put_incoming,
  put_endpoint, put_option,
}
use iroh_dart.Bridge.Handles.Connections.{decode_stream_args, start_stream}

-- `api_addr` and `api_alpn`.
pub decode_connect_args : Cursor → Decoder (EndpointAddrParts × List ℕ)
decode_connect_args c = do addr ← decode_parts c; alpn ← decode_bytes c; pure (addr, alpn)

-- The arguments of a bind.
pub record BindArgs : Type 0 where
  pub secret_key : Option (List ℕ)
  pub alpns : List (List ℕ)
  pub relay_mode_kind : ℤ
  pub custom_relay_urls : List Str

pub decode_bind_args : Cursor → Decoder BindArgs
decode_bind_args c = do
  secret_key ← decode_opt_bytes c
  alpns ← decode_byte_lists c
  relay_mode_kind ← decode_i32 c
  custom_relay_urls ← decode_strings c
  pure (record {
    secret_key = secret_key;
    alpns = alpns;
    relay_mode_kind = relay_mode_kind;
    custom_relay_urls = custom_relay_urls;
  })

-- The last argument is the number of a Dart closure.
pub decode_lookup_args : Cursor → Decoder (BindArgs × ℕ)
decode_lookup_args c = do bind ← decode_bind_args c; resolve ← decode_usize c; pure (bind, resolve)

module _ (g : Glue) where
  abbrev on_endpoint :
      {B : Type 0}
      → Decoder B
      → (g.binding.Endpoint → B → State g → Result (List ℕ) × State g)
      → Wire g
  on_endpoint decode run = on_handle (λ s. s.endpoints) decode (λ that ep args s. run ep args s)

  unfoldable pub wire_endpoint_bind : Wire g
  wire_endpoint_bind = on_args (decode_bind_args g.cursor) (λ args s.
      ran put_endpoint
        (Ep.endpoint_bind g.base g.quic g.binding args.secret_key args.alpns args.relay_mode_kind
          args.custom_relay_urls s.world)
        s)

  pub wire_endpoint_bind_with_address_lookup : Wire g
  wire_endpoint_bind_with_address_lookup = on_args (decode_lookup_args g.cursor) (λ args s.
      let bind = args.0 in
      ran put_endpoint
        (endpoint_bind_with_address_lookup g.base g.quic g.binding bind.secret_key bind.alpns
          bind.relay_mode_kind bind.custom_relay_urls
          (resolve_callback g.cursor g.ends (g.invoke_resolve args.1)) s.world)
        s)

  unfoldable pub wire_endpoint_id : Wire g
  wire_endpoint_id =
      on_endpoint nothing
        (λ ep _ s. now (value (encode_bytes g.cursor)) (Ep.id g.base g.quic g.binding ep) s)

  pub wire_endpoint_addr : Wire g
  wire_endpoint_addr =
      on_endpoint nothing (λ ep _ s.
        now (value (encode_parts g.cursor)) (Ep.addr g.base g.quic g.binding ep s.world) s)

  pub wire_endpoint_bound_sockets : Wire g
  wire_endpoint_bound_sockets = on_endpoint nothing (λ ep _ s.
      now (value (encode_strings g.cursor)) (Ep.bound_sockets g.base g.quic g.binding ep s.world) s)

  pub wire_endpoint_set_alpns : Wire g
  wire_endpoint_set_alpns = on_endpoint (decode_byte_lists g.cursor) (λ ep alpns s.
      ran (value encode_unit) (ok tt, Ep.set_alpns g.base g.quic g.binding ep alpns s.world) s)

  pub wire_endpoint_is_closed : Wire g
  wire_endpoint_is_closed = on_endpoint nothing (λ ep _ s.
      now (value (encode_bool g.cursor)) (Ep.is_closed g.base g.quic g.binding ep s.world) s)

  unfoldable pub wire_endpoint_connect : Wire g
  wire_endpoint_connect = on_endpoint (decode_connect_args g.cursor) (λ ep args s.
      ran put_connection (Ep.connect g.base g.quic g.binding ep args.0 args.1 s.world) s)

  pub wire_endpoint_accept : Wire g
  wire_endpoint_accept =
      on_endpoint nothing
        (λ ep _ s. ran (put_option put_connection) (Ep.accept g.base g.quic g.binding ep s.world) s)

  pub wire_endpoint_accept_incoming : Wire g
  wire_endpoint_accept_incoming = on_endpoint nothing (λ ep _ s.
      ran (put_option put_incoming) (Ep.accept_incoming g.base g.quic g.binding ep s.world) s)

  unfoldable pub wire_endpoint_watch_addr : Wire g
  wire_endpoint_watch_addr =
      on_endpoint (decode_stream_args g.cursor) (λ ep args s. start_stream g args.0 s)

  unfoldable pub wire_endpoint_home_relay_status : Wire g
  wire_endpoint_home_relay_status =
      on_endpoint (decode_stream_args g.cursor) (λ ep args s. start_stream g args.0 s)

  pub wire_endpoint_close : Wire g
  wire_endpoint_close =
      on_endpoint nothing
        (λ ep _ s. ran (value encode_unit) (ok tt, Ep.close g.base g.quic g.binding ep s.world) s)

-- ===== src/Bridge/Handles/Routers.antt =====
-- The wire functions `wire__crate__api__router__*` of packages/iroh_quic/rust/src/frb_generated.rs.
pub mod Live
pub mod Laws
use iroh_dart.Prelude.{ℕ, List, Result, ok}
use iroh_dart.Router as Rt
use iroh_dart.Router.{RouterBuilder}
use iroh_dart.Wire.{Cursor, Decoder, ◌>>=◌, pure}
use iroh_dart.Wire.Scalars.{decode_usize, decode_bytes}
use iroh_dart.Bridge.{nothing, encode_unit}
use iroh_dart.Bridge.Callbacks.{accept_callback}
use iroh_dart.Bridge.Handles.{
  Glue, State, Wire, on_handle, value, now, ran, answer, put_builder, put_router,
}

-- `api_alpn`, and the number of a Dart closure.
pub decode_accept_args : Cursor → Decoder (List ℕ × ℕ)
decode_accept_args c = do alpn ← decode_bytes c; on_accept ← decode_usize c; pure (alpn, on_accept)

module _ (g : Glue) where
  -- The calls on a builder change its cell.
  unfoldable pub keep_builder :
      ℕ
      → RouterBuilder g.routing.RouterBuilder
      → Result (List ℕ) × State g
      → Result (List ℕ) × State g
  keep_builder that cell (r, s) = (
    r,
    record s {
      builders = g.pools.store (RouterBuilder g.routing.RouterBuilder) that cell s.builders;
    },
  )

  abbrev on_builder :
      {B : Type 0}
      → Decoder B
      → (ℕ → RouterBuilder g.routing.RouterBuilder → B → State g → Result (List ℕ) × State g)
      → Wire g
  on_builder decode run = on_handle (λ s. s.builders) decode run

  unfoldable pub wire_router_builder : Wire g
  wire_router_builder =
      on_handle (λ s. s.endpoints) nothing
        (λ that ep _ s. now put_builder (Rt.router_builder g.quic g.routing ep) s)

  unfoldable pub wire_router_builder_accept : Wire g
  wire_router_builder_accept = on_builder (decode_accept_args g.cursor) (λ that cell args s.
      let (r, cell') =
        Rt.accept g.quic g.routing cell args.0
          (accept_callback g.cursor g.ends (g.invoke_accept args.1)) in
      keep_builder that cell' (answer (value encode_unit) r s))

  unfoldable pub wire_router_builder_spawn : Wire g
  wire_router_builder_spawn = on_builder nothing (λ that cell _ s.
      let (r, cell', w) = Rt.start g.quic g.routing cell s.world in
      keep_builder that cell' (ran put_router (r, w) s))

  pub wire_router_shutdown : Wire g
  wire_router_shutdown =
      on_handle (λ s. s.routers) nothing
        (λ that router _ s. ran (value encode_unit) (Rt.shutdown g.quic g.routing router s.world) s)

-- ===== src/Bridge/Handles/Run/Routed.antt =====
-- A router that calls build, handler by handler.
use mathlib.Core.List.{foldl}
use iroh_dart.Prelude.{
  ℕ, ◌≡◌, refl, ap, ◌∙◌, true, Option, none, some, List, [], ◌∷◌, ◌++◌, map, All, Result, ok,
}
use iroh_dart.Prelude.Int.{ℤ}
use iroh_dart.Router.{RouterBuilder, handler_accept}
use iroh_dart.Router.Laws.{router_builder_lem, accept_full, start_full}
use iroh_dart.Wire.{CursorLaws}
use iroh_dart.Wire.Reads.{IsBytes}
use iroh_dart.Wire.Scalars.{encode_usize, encode_bytes}
use iroh_dart.Wire.Values.Laws.{IsU64}
use iroh_dart.Bridge.Callbacks.{accept_callback}
use iroh_dart.Bridge.Dispatch.{Api}
use iroh_dart.Bridge.Handles.{PoolLaws, Glue, State, ran, encode_handle, put_builder, put_router}
use iroh_dart.Bridge.Handles.Laws.{on_handle-found, on_handle-alone}
use iroh_dart.Bridge.Handles.Routers.{
  wire_router_builder, wire_router_builder_accept, wire_router_builder_spawn, keep_builder,
}
use iroh_dart.Bridge.Handles.Routers.Laws.{decode_accept_args-Reads}
use iroh_dart.Bridge.Handles.Run.{run, dart_call}
use iroh_dart.Bridge.Handles.Run.Laws.{dart_call-run}

-- A protocol, and the number of the Dart closure that takes its connections.
abbrev pub Handler : Type 0
Handler = List ℕ × ℕ

abbrev pub IsHandler : Handler → Type 0
IsHandler h = IsBytes h.0 × IsU64 h.1

module _ (g : Glue) where
  abbrev pub accept_message : ℕ → Handler → List ℕ
  accept_message that h =
      encode_usize g.cursor that ++ (encode_bytes g.cursor h.0 ++ encode_usize g.cursor h.1)

  abbrev and_before :
      Result (List ℕ)
      → Option (List (Result (List ℕ)) × State g)
      → Option (List (Result (List ℕ)) × State g)
  and_before r none = none
  and_before r (some (rs, t)) = some (r ∷ rs, t)

  abbrev then_all :
      (State g → Option (List (Result (List ℕ)) × State g))
      → Option (Result (List ℕ) × State g)
      → Option (List (Result (List ℕ)) × State g)
  then_all rest none = none
  then_all rest (some (r, s)) = and_before r (rest s)

  -- The calls of `accept`, one for each handler, with what each of them answers.
  pub accept_each : ℕ → List Handler → State g → Option (List (Result (List ℕ)) × State g)
  accept_each that [] s = some ([], s)
  accept_each that (h ∷ hs) s =
      then_all (accept_each that hs)
        (dart_call g Api.router_builder_accept (accept_message that h) s)

  -- iroh's builder with one handler more: it calls the Dart closure with the connection.
  abbrev pub with_handler : g.routing.RouterBuilder → Handler → g.routing.RouterBuilder
  with_handler b h =
      g.routing.accept b h.0
        (handler_accept g.quic g.routing (accept_callback g.cursor g.ends (g.invoke_accept h.1)))

  abbrev pub new_cell : g.binding.Endpoint → RouterBuilder g.routing.RouterBuilder
  new_cell ep = record { inner = some (g.routing.builder ep) }

  abbrev pub builder_handle : g.binding.Endpoint → State g → ℕ × ℤ
  builder_handle ep s = (g.pools.put _ (new_cell ep) s.builders).0

  abbrev pub begun_router : g.binding.Endpoint → State g → State g
  begun_router ep s = record s { builders = (g.pools.put _ (new_cell ep) s.builders).1 }

  module _ (pools : PoolLaws g.pools) (cursor : CursorLaws g.cursor)
      (ended : g.ends [] ≡ true) where
    -- The handle leads to this builder.
    abbrev Builds : ℕ → g.routing.RouterBuilder → State g → Type 0
    Builds that b s =
        g.pools.find (RouterBuilder g.routing.RouterBuilder) that s.builders
        ≡ some (record { inner = some b })

    abbrev accepted : ℕ → Handler → g.routing.RouterBuilder → State g → State g
    accepted that h b s = record s {
      builders =
          g.pools.store (RouterBuilder g.routing.RouterBuilder) that
            (record { inner = some (with_handler b h) }) s.builders;
    }

    accept_one :
        (that : ℕ) (h : Handler) (b : g.routing.RouterBuilder) (s : State g)
        → IsU64 that
        → IsHandler h
        → Builds that b s
        → dart_call g Api.router_builder_accept (accept_message that h) s
          ≡ some (ok [], accepted that h b s)
    unfolding run wire_router_builder_accept keep_builder
    accept_one that h b s small good found =
        dart_call-run g Api.router_builder_accept _ s
        ∙ on_handle-found g ended cursor _ _ _ that _ h s small
            (decode_accept_args-Reads g.cursor cursor h.0 h.1 good.0 good.1)
            (record { inner = some b }) found
        ∙ rw
            (accept_full g.quic g.routing b h.0
              (accept_callback g.cursor g.ends (g.invoke_accept h.1)))
            refl

    accept_each-Builds :
        (that : ℕ) (hs : List Handler) (b : g.routing.RouterBuilder) (s : State g)
        → IsU64 that
        → All IsHandler hs
        → Builds that b s
        → (t : State g) × (accept_each that hs s ≡ some (map (λ h. ok []) hs, t))
          × Builds that (foldl with_handler b hs) t
          × (t.world ≡ s.world)
          × (t.routers ≡ s.routers)
    unfolding accept_each
    accept_each-Builds that [] b s small good found = (s, refl, found, refl, refl)
    accept_each-Builds that (h ∷ hs) b s small (one, others) found =
        let s' = accepted that h b s in
        let (t, runs, built, same_world, same_routers) =
          accept_each-Builds that hs (with_handler b h) s' small others
            (pools.find-store _ _ _ s.builders that found) in
        (
          t,
          ap (then_all (accept_each that hs)) (accept_one that h b s small one found)
              ∙ ap (and_before (ok [])) runs,
          built,
          same_world,
          same_routers,
        )

    -- The state after `spawn`, with the router under its number.
    abbrev spawned : ℕ → g.routing.RouterBuilder → State g → State g
    spawned that b s = record s {
      world = (g.routing.spawn b s.world).1;
      routers = (g.pools.put _ (g.routing.spawn b s.world).0 s.routers).1;
      builders =
          g.pools.store (RouterBuilder g.routing.RouterBuilder) that (record { inner = none })
            s.builders;
    }

    spawn_one :
        (that : ℕ) (b : g.routing.RouterBuilder) (s : State g)
        → IsU64 that
        → Builds that b s
        → dart_call g Api.router_builder_spawn (encode_usize g.cursor that) s
          ≡ some (
            ok (encode_handle g.cursor (g.pools.put _ (g.routing.spawn b s.world).0 s.routers).0),
            spawned that b s,
          )
    unfolding run wire_router_builder_spawn keep_builder ran put_router
    spawn_one that b s small found =
        dart_call-run g Api.router_builder_spawn _ s
        ∙ on_handle-alone g ended cursor _ _ that s (record { inner = some b }) small found
        ∙ rw (start_full g.quic g.routing b s.world) refl

    build_one :
        (that : ℕ) (ep : g.binding.Endpoint) (s : State g)
        → IsU64 that
        → g.pools.find _ that s.endpoints ≡ some ep
        → dart_call g Api.router_builder (encode_usize g.cursor that) s
          ≡ some (ok (encode_handle g.cursor (builder_handle ep s)), begun_router ep s)
    unfolding run wire_router_builder put_builder
    build_one that ep s small found =
        dart_call-run g Api.router_builder _ s
        ∙ on_handle-alone g ended cursor _ _ that s ep small found
        ∙ rw (router_builder_lem g.quic g.routing ep) refl

    -- If the tables keep `PoolLaws`, the cursor keeps `CursorLaws`, and `end` accepts that nothing is
    -- left: `router_builder` on an endpoint that Dart holds, then `accept` with the handle that it
    -- answers, once for each handler, each of which answers `ok`, then `spawn` with it, all
    -- succeed. The last handle leads to
    -- the router that iroh spawns from its builder of that endpoint with all these handlers in
    -- their order, each of which calls the Dart closure that was sent with it; and iroh's world
    -- is the one after this spawn.
    pub router_built :
        (s : State g) (that : ℕ) (ep : g.binding.Endpoint) (hs : List Handler)
        → IsU64 that
        → g.pools.find _ that s.endpoints ≡ some ep
        → IsU64 (builder_handle ep s).0
        → All IsHandler hs
        → let made = g.routing.spawn (foldl with_handler (g.routing.builder ep) hs) s.world in
          (t u : State g) × (k : ℕ × ℤ) × (dart_call g Api.router_builder
              (encode_usize g.cursor that)
              s
            ≡ some (ok (encode_handle g.cursor (builder_handle ep s)), begun_router ep s))
          × (accept_each (builder_handle ep s).0 hs (begun_router ep s)
              ≡ some (map (λ h. ok []) hs, t))
          × (dart_call g Api.router_builder_spawn (encode_usize g.cursor (builder_handle ep s).0) t
              ≡ some (ok (encode_handle g.cursor k), u))
          × (g.pools.find _ k.0 u.routers ≡ some made.0)
          × (u.world ≡ made.1)
    router_built s that ep hs small found number good =
        let h = (builder_handle ep s).0 in
        let b = foldl with_handler (g.routing.builder ep) hs in
        let (t, runs, built, same_world, same_routers) =
          accept_each-Builds h hs (g.routing.builder ep) (begun_router ep s) number good
            (pools.find-put _ (new_cell ep) s.builders) in
        let made = g.routing.spawn b t.world in
        (
          t,
          spawned h b t,
          (g.pools.put _ made.0 t.routers).0,
          build_one that ep s small found,
          runs,
          spawn_one h b t number built,
          pools.find-put _ made.0 t.routers ∙ ap (λ w. some (g.routing.spawn b w).0) same_world,
          ap (λ w. (g.routing.spawn b w).1) same_world,
        )

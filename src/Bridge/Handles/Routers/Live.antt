-- ===== src/Bridge/Handles/Routers/Live.antt =====
-- Each call of Handles/Routers keeps the objects.
use iroh_dart.Prelude.{ℕ, ◌≡◌, ◌⊎◌, inl, refl, ap, ◌∙◌, none, some, List, Result, ok, err}
use iroh_dart.Router as Rt
use iroh_dart.Router.{RouterBuilder}
use iroh_dart.Router.Laws.{accept-cell, start-cell}
use iroh_dart.Bridge.{encode_unit}
use iroh_dart.Bridge.Callbacks.{accept_callback}
use iroh_dart.Bridge.Handles.{State, value, answer, put_router, PoolLaws, Glue}
use iroh_dart.Bridge.Handles.Routers.{
  keep_builder, wire_router_builder_accept, wire_router_builder_spawn, wire_router_builder,
  wire_router_shutdown,
}
use iroh_dart.Bridge.Handles.Live.{Live, KeptCell-at, Live-trans}
use iroh_dart.Bridge.Handles.Live.Objects.{store_builder-Live, put_router-Live, put_builder-Live}
use iroh_dart.Bridge.Handles.Live.Rules.{
  answer-Live, value-Live, ran-Live, Safe, on_handle-Live, ran-value-Live,
}

module _ (g : Glue) (laws : PoolLaws g.pools) where
  pub wire_router_builder-Live : Safe g (wire_router_builder g)
  unfolding wire_router_builder
  wire_router_builder-Live =
      on_handle-Live g laws _ _ _ (λ that object args s found. put_builder-Live g laws _ s)

  pub wire_router_shutdown-Live : Safe g (wire_router_shutdown g)
  unfolding wire_router_shutdown
  wire_router_shutdown-Live =
      on_handle-Live g laws _ _ _ (λ that object args s found. ran-value-Live g laws _ _ s)

  -- The new cell is empty, or the old one was full and no call came between.
  keep_builder-Live :
      (s : State g) (that : ℕ) (x : Result (List ℕ) × State g)
      (cell new : RouterBuilder g.routing.RouterBuilder)
      → Live s x.1
      → g.pools.find _ that x.1.builders ≡ some cell
      → (new.inner ≡ none) ⊎ ((b : g.routing.RouterBuilder) × (cell.inner ≡ some b))
      → Live s (keep_builder g that new x).1
  unfolding keep_builder
  keep_builder-Live s that x cell new h found full =
      Live-trans _ _ _ h (store_builder-Live g laws x.1 that cell new found full)

  answer_unit-builders :
      (r : Result (Unit {0})) (s : State g)
      → (answer {g = g} (value encode_unit) r s).1.builders ≡ s.builders
  answer_unit-builders (err e) s = refl
  answer_unit-builders (ok _) s = refl

  pub wire_router_builder_accept-Live : Safe g (wire_router_builder_accept g)
  unfolding wire_router_builder_accept
  wire_router_builder_accept-Live = on_handle-Live g laws _ _ _ (λ that cell args s found.
      let r =
        Rt.accept g.quic g.routing cell args.0
          (accept_callback g.cursor g.ends (g.invoke_accept args.1)) in
      keep_builder-Live s that _ cell _
        (answer-Live g laws (value encode_unit) (value-Live g laws encode_unit) r.0 s)
        (ap (g.pools.find _ that) (answer_unit-builders r.0 s) ∙ found)
        (accept-cell g.quic g.routing cell _ _))

  pub wire_router_builder_spawn-Live : Safe g (wire_router_builder_spawn g)
  unfolding wire_router_builder_spawn
  wire_router_builder_spawn-Live = on_handle-Live g laws _ _ _ (λ that cell args s found.
      let h =
        ran-Live g laws put_router (put_router-Live g laws)
          (let (r, cell', w) = Rt.start g.quic g.routing cell s.world in (r, w)) s in
      let there = KeptCell-at (λ c. c.inner) _ _ cell (h.builders that) found in
      keep_builder-Live s that _ there.0 _ h there.1
        (inl (start-cell g.quic g.routing cell s.world)))

-- ===== src/Bridge/Handles/Run/Builders.antt =====
-- A router builder, used up through its handle.
use iroh_dart.Prelude.{
  ℕ, ◌≡◌, refl, sym, ◌∙◌, true, none, some, List, [], ◌++◌, Result, err, already_spawned,
}
use iroh_dart.Router as Rt
use iroh_dart.Router.{RouterBuilder}
use iroh_dart.Router.Laws.{start-cell, accept_spent, start_spent}
use iroh_dart.Wire.{CursorLaws}
use iroh_dart.Wire.Reads.{IsBytes}
use iroh_dart.Wire.Scalars.{encode_usize, encode_bytes}
use iroh_dart.Wire.Values.Laws.{IsU64}
use iroh_dart.Bridge.Dispatch.{Api}
use iroh_dart.Bridge.Handles.{PoolLaws, Glue, State, ran, put_router}
use iroh_dart.Bridge.Handles.Laws.{on_handle-found, on_handle-alone, call_at}
use iroh_dart.Bridge.Handles.Live.{Live, KeptCell-at, KeptCell-empty, some-injective}
use iroh_dart.Bridge.Handles.Live.Objects.{put_router-Live}
use iroh_dart.Bridge.Handles.Live.Rules.{ran-Live}
use iroh_dart.Bridge.Handles.Routers.{
  keep_builder, wire_router_builder_accept, wire_router_builder_spawn,
}
use iroh_dart.Bridge.Handles.Routers.Laws.{decode_accept_args-Reads}
use iroh_dart.Bridge.Handles.Run.{run, dart_call, Session}
use iroh_dart.Bridge.Handles.Run.Laws.{dart_call-run}
use iroh_dart.Bridge.Handles.Run.Live.{Session-Live}

module _ (g : Glue) (pools : PoolLaws g.pools) (cursor : CursorLaws g.cursor)
    (ended : g.ends [] ≡ true) where
  -- The handle leads to a cell with nothing in it.
  abbrev Empty : ℕ → State g → Type 0
  Empty that s =
      (c : RouterBuilder g.routing.RouterBuilder) × (g.pools.find _ that s.builders ≡ some c)
      × (c.inner ≡ none)

  started-Empty :
      (s s' : State g) (that : ℕ) (cell : RouterBuilder g.routing.RouterBuilder)
      (r : Result (List ℕ))
      → IsU64 that
      → g.pools.find _ that s.builders ≡ some cell
      → run g Api.router_builder_spawn (encode_usize g.cursor that) s ≡ some (r, s')
      → Empty that s'
  unfolding run wire_router_builder_spawn keep_builder
  started-Empty s s' that cell r small found e =
      let (router, new, w) = Rt.start g.quic g.routing cell s.world in
      let h = ran-Live g pools put_router (put_router-Live g pools) (router, w) s in
      let there = KeptCell-at (λ c. c.inner) _ _ cell (h.builders that) found in
      at_result _ (r, s') (sym (on_handle-alone g ended cursor _ _ that s cell small found) ∙ e)
        (
          new,
          pools.find-store _ new there.0 _ that there.1,
          start-cell g.quic g.routing cell s.world,
        )
    where
      at_result :
          (x y : Result (List ℕ) × State g) → some x ≡ some y → Empty that x.1 → Empty that y.1
      at_result x y k h = rw (sym (some-injective x y k)) h

  -- If the tables keep `PoolLaws`, the cursor keeps `CursorLaws`, and `end` accepts that nothing is
  -- left: once the `spawn` of a router builder that Dart holds has returned, and after any calls
  -- that return, with any changes of iroh's world between them, a second `spawn` with the same
  -- handle, and an `accept` for any protocol, both answer that the router was spawned, and leave
  -- iroh's world as it was.
  pub spawned_once :
      (s s' t : State g) (that : ℕ) (cell : RouterBuilder g.routing.RouterBuilder)
      (r : Result (List ℕ)) (alpn : List ℕ) (on_accept : ℕ)
      → IsU64 that
      → g.pools.find _ that s.builders ≡ some cell
      → dart_call g Api.router_builder_spawn (encode_usize g.cursor that) s ≡ some (r, s')
      → Session g s' t
      → IsBytes alpn
      → IsU64 on_accept
      → ((u : State g) × (dart_call g Api.router_builder_spawn (encode_usize g.cursor that) t
            ≡ some (err already_spawned, u))
          × (u.world ≡ t.world))
        × ((u : State g) × (dart_call g Api.router_builder_accept
                (encode_usize g.cursor that
                  ++ (encode_bytes g.cursor alpn ++ encode_usize g.cursor on_accept))
                t
              ≡ some (err already_spawned, u))
            × (u.world ≡ t.world))
  unfolding run wire_router_builder_spawn wire_router_builder_accept keep_builder ran
  spawned_once s s' t that cell r alpn on_accept small found first session bytes number =
      let (c, there, empty) =
        started-Empty s s' that cell r small found
          (sym (dart_call-run g Api.router_builder_spawn (encode_usize g.cursor that) s) ∙ first) in
      let live : Live s' t = Session-Live g pools s' t session in
      let (c', there', empty') =
        KeptCell-empty (λ c. c.inner) _ _ c (live.builders that) there empty in
      (
        call_at already_spawned t _ _
            (dart_call-run g Api.router_builder_spawn _ t
              ∙ on_handle-alone g ended cursor _ _ that t c' small there')
            (rw (start_spent g.quic g.routing c' t.world empty') refl)
            (rw (start_spent g.quic g.routing c' t.world empty') refl),
        call_at already_spawned t _ _
            (dart_call-run g Api.router_builder_accept _ t
              ∙ on_handle-found g ended cursor _ _ _ that _ (alpn, on_accept) t small
                  (decode_accept_args-Reads g.cursor cursor alpn on_accept bytes number) c' there')
            (rw (accept_spent g.quic g.routing c' alpn _ empty') refl)
            (rw (accept_spent g.quic g.routing c' alpn _ empty') refl),
      )

-- ===== src/Router/Laws.antt =====
-- The life of a router builder: registrations, one start, and nothing after it.
use mathlib.Core.List.{foldl}
use iroh_dart.Prelude.{
  ℕ, ◌≡◌, refl, ◌⊎◌, inl, inr, Option-cases, ok, err, none, some, List, [], ◌∷◌, ◌++◌, map,
  already_spawned, length, replicate,
}
use iroh_dart.Iroh.Quic.{Quic}
use iroh_dart.Iroh.Routing.{Routing}
use iroh_dart.Router.{
  RouterBuilder, accept, start, Callback, handler_accept, router_builder, Call, accepts, spawns,
  registered, started, failed, call, call_all,
}

module _ (q : Quic) {E : Type 0} (r : Routing q E) where
  call_spent :
      (c : Call q r) (cell : RouterBuilder r.RouterBuilder) (w : q.World)
      → cell.inner ≡ none
      → call q r c cell w ≡ (failed already_spawned, record { inner = none }, w)
  unfolding call
  call_spent (accepts alpn on_accept) cell w e = rw e refl
  call_spent spawns cell w e = rw e refl

  -- `accept` leaves a cell empty that was so.
  pub accept-cell :
      (cell : RouterBuilder r.RouterBuilder) (alpn : List ℕ) (on_accept : Callback q r)
      → ((accept q r cell alpn on_accept).1.inner ≡ none)
        ⊎ ((b : r.RouterBuilder) × (cell.inner ≡ some b))
  unfolding accept
  accept-cell cell alpn on_accept = elim (Option-cases cell.inner) [
    | inl e ↦ inl (rw e refl)
    | inr full ↦ inr full
  ]

  -- `spawn` leaves the cell empty.
  pub start-cell :
      (cell : RouterBuilder r.RouterBuilder) (w : q.World) → (start q r cell w).1.inner ≡ none
  unfolding start
  start-cell cell w = elim (Option-cases cell.inner) [ inl e ↦ rw e refl | inr (b, e) ↦ rw e refl ]

  pub accept_spent :
      (cell : RouterBuilder r.RouterBuilder) (alpn : List ℕ) (on_accept : Callback q r)
      → cell.inner ≡ none
      → accept q r cell alpn on_accept ≡ (err already_spawned, record { inner = none })
  unfolding accept
  accept_spent cell alpn on_accept e = rw e refl

  pub start_spent :
      (cell : RouterBuilder r.RouterBuilder) (w : q.World)
      → cell.inner ≡ none
      → start q r cell w ≡ (err already_spawned, record { inner = none }, w)
  unfolding start
  start_spent cell w e = rw e refl

  pub router_builder_lem : (ep : E) → router_builder q r ep ≡ record { inner = some (r.builder ep) }
  unfolding router_builder
  router_builder_lem ep = refl

  pub accept_full :
      (b : r.RouterBuilder) (alpn : List ℕ) (on_accept : Callback q r)
      → accept q r (record { inner = some b }) alpn on_accept
        ≡ (ok tt, record { inner = some (r.accept b alpn (handler_accept q r on_accept)) })
  unfolding accept
  accept_full b alpn on_accept = refl

  pub start_full :
      (b : r.RouterBuilder) (w : q.World)
      → start q r (record { inner = some b }) w
        ≡ (ok (r.spawn b w).0, record { inner = none }, (r.spawn b w).1)
  unfolding start
  start_full b w = refl

  call_all_spent :
      (cs : List (Call q r)) (w : q.World)
      → call_all q r cs (record { inner = none }) w
        ≡ (replicate (length cs) (failed already_spawned), record { inner = none }, w)
  unfolding call_all
  call_all_spent [] w = refl
  call_all_spent (c ∷ cs) w =
      rw (call_spent c (record { inner = none }) w refl, call_all_spent cs w) refl

  abbrev pub registration : List ℕ × Callback q r → Call q r
  registration h = accepts h.0 h.1

  abbrev pub register : r.RouterBuilder → List ℕ × Callback q r → r.RouterBuilder
  register builder h = r.accept builder h.0 (handler_accept q r h.1)

  call_all_registrations :
      (handlers : List (List ℕ × Callback q r)) (rest : List (Call q r)) (builder : r.RouterBuilder)
      (w : q.World)
      → let (router, w') = r.spawn (foldl register builder handlers) w in
        call_all q r
          (map registration handlers ++ (spawns ∷ rest))
          (record { inner = some builder })
          w
        ≡ (
          replicate (length handlers) registered
              ++ (started router ∷ replicate (length rest) (failed already_spawned)),
          record { inner = none },
          w',
        )
  unfolding call_all call
  call_all_registrations [] rest builder w = rw (call_all_spent rest (r.spawn builder w).1) refl
  call_all_registrations (h ∷ hs) rest builder w =
      rw (call_all_registrations hs rest (register builder h) w) refl

  -- Calls on a new router builder, in the order in which they take its lock: the registrations
  -- before the first `spawn` all succeed; that `spawn` starts the router with exactly these
  -- handlers, registered in their order, each with its protocol and its callback; every later call,
  -- `accept` or `spawn`, answers that the builder is spawned, and changes nothing.
  pub call_all_order :
      (handlers : List (List ℕ × Callback q r)) (rest : List (Call q r)) (endpoint : E)
      (w : q.World)
      → let (router, w') = r.spawn (foldl register (r.builder endpoint) handlers) w in
        call_all q r (map registration handlers ++ (spawns ∷ rest)) (router_builder q r endpoint) w
        ≡ (
          replicate (length handlers) registered
              ++ (started router ∷ replicate (length rest) (failed already_spawned)),
          record { inner = none },
          w',
        )
  unfolding router_builder
  call_all_order handlers rest endpoint w =
      call_all_registrations handlers rest (r.builder endpoint) w

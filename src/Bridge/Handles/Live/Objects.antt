-- ===== src/Bridge/Handles/Live/Objects.antt =====
-- How an object in an answer and a cell that is written back keep the other objects.
use iroh_dart.Prelude.{ℕ, ◌≡◌, sym, ◌∙◌, ap, ◌⊎◌, Option, none, some}
use native.Mathlib.Decide.{ℕ_discrete}
use iroh_dart.Connection.Incoming.{Incoming}
use iroh_dart.Router.{RouterBuilder}
use iroh_dart.Bridge.Handles.{
  PoolLaws, Glue, State, Put, put_connection, put_incoming, put_send, put_recv, put_endpoint,
  put_builder, put_router,
}
use iroh_dart.Bridge.Handles.Live.{
  Kept, KeptCell, Live, Kept-refl, KeptCell-refl, Kept-intro, KeptCell-intro, empty_or_full,
  some-injective,
}

-- A way into an answer that keeps the objects.
abbrev pub SafePut : (g : Glue) {A : Type 0} → Put g A → Type 0
SafePut g {A} put = (a : A) (s : State g) → Live s (put a s).1

module _ (g : Glue) (laws : PoolLaws g.pools) where
  abbrev Same : {A : Type 0} → g.pools.Table A → Type 0
  Same {A} t = (k : ℕ) → Kept (g.pools.find A k t) (g.pools.find A k t)

  same : {A : Type 0} (t : g.pools.Table A) → Same t
  same t k = Kept-refl _

  same_cells :
      {A C : Type 0} (inner : C → Option A) (t : g.pools.Table C) (k : ℕ)
      → KeptCell inner (g.pools.find C k t) (g.pools.find C k t)
  same_cells inner t k = KeptCell-refl inner _

  put-Kept :
      {A : Type 0} (a : A) (t : g.pools.Table A) (k : ℕ)
      → Kept (g.pools.find A k t) (g.pools.find A k (g.pools.put A a t).1)
  put-Kept {A} a t k = Kept-intro _ _ (λ b e. laws.find-put_other A a b t k e)

  put-KeptCell :
      {A C : Type 0} (inner : C → Option A) (c : C) (t : g.pools.Table C) (k : ℕ)
      → KeptCell inner (g.pools.find C k t) (g.pools.find C k (g.pools.put C c t).1)
  put-KeptCell {A} {C} inner c t k =
      KeptCell-intro inner _ _ (λ b e. (b, laws.find-put_other C c b t k e, empty_or_full inner b))

  -- A cell is written back empty, or it was full.
  store-KeptCell :
      {A C : Type 0} (inner : C → Option A) (c new : C) (t : g.pools.Table C) (that : ℕ)
      → g.pools.find C that t ≡ some c
      → (inner new ≡ none) ⊎ ((a : A) × (inner c ≡ some a))
      → (k : ℕ)
      → KeptCell inner (g.pools.find C k t) (g.pools.find C k (g.pools.store C that new t))
  store-KeptCell {A} {C} inner c new t that e full k = KeptCell-intro inner _ _ (λ b found.
      elim (ℕ_discrete k that) [
        | yes here ↦ (
          new,
          ap (λ n. g.pools.find C n (g.pools.store C that new t)) here
              ∙ laws.find-store C new c t that e,
          rw (some-injective b c (sym found ∙ ap (λ n. g.pools.find C n t) here ∙ e)) full,
        )
        | no other ↦ (b, laws.find-store_other C new t that k other ∙ found, empty_or_full inner b)
      ])

  pub put_connection-Live : SafePut g put_connection
  unfolding put_connection
  put_connection-Live a s = record {
    connections = put-Kept a s.connections;
    send_streams = same s.send_streams;
    recv_streams = same s.recv_streams;
    endpoints = same s.endpoints;
    routers = same s.routers;
    incomings = same_cells (λ c. c.inner) s.incomings;
    builders = same_cells (λ c. c.inner) s.builders;
  }

  pub put_send-Live : SafePut g put_send
  unfolding put_send
  put_send-Live a s = record {
    connections = same s.connections;
    send_streams = put-Kept a s.send_streams;
    recv_streams = same s.recv_streams;
    endpoints = same s.endpoints;
    routers = same s.routers;
    incomings = same_cells (λ c. c.inner) s.incomings;
    builders = same_cells (λ c. c.inner) s.builders;
  }

  pub put_recv-Live : SafePut g put_recv
  unfolding put_recv
  put_recv-Live a s = record {
    connections = same s.connections;
    send_streams = same s.send_streams;
    recv_streams = put-Kept a s.recv_streams;
    endpoints = same s.endpoints;
    routers = same s.routers;
    incomings = same_cells (λ c. c.inner) s.incomings;
    builders = same_cells (λ c. c.inner) s.builders;
  }

  pub put_endpoint-Live : SafePut g put_endpoint
  unfolding put_endpoint
  put_endpoint-Live a s = record {
    connections = same s.connections;
    send_streams = same s.send_streams;
    recv_streams = same s.recv_streams;
    endpoints = put-Kept a s.endpoints;
    routers = same s.routers;
    incomings = same_cells (λ c. c.inner) s.incomings;
    builders = same_cells (λ c. c.inner) s.builders;
  }

  pub put_router-Live : SafePut g put_router
  unfolding put_router
  put_router-Live a s = record {
    connections = same s.connections;
    send_streams = same s.send_streams;
    recv_streams = same s.recv_streams;
    endpoints = same s.endpoints;
    routers = put-Kept a s.routers;
    incomings = same_cells (λ c. c.inner) s.incomings;
    builders = same_cells (λ c. c.inner) s.builders;
  }

  pub put_incoming-Live : SafePut g put_incoming
  unfolding put_incoming
  put_incoming-Live a s = record {
    connections = same s.connections;
    send_streams = same s.send_streams;
    recv_streams = same s.recv_streams;
    endpoints = same s.endpoints;
    routers = same s.routers;
    incomings = put-KeptCell (λ c. c.inner) a s.incomings;
    builders = same_cells (λ c. c.inner) s.builders;
  }

  pub put_builder-Live : SafePut g put_builder
  unfolding put_builder
  put_builder-Live a s = record {
    connections = same s.connections;
    send_streams = same s.send_streams;
    recv_streams = same s.recv_streams;
    endpoints = same s.endpoints;
    routers = same s.routers;
    incomings = same_cells (λ c. c.inner) s.incomings;
    builders = put-KeptCell (λ c. c.inner) a s.builders;
  }

  pub store_incoming-Live :
      (s : State g) (that : ℕ) (c new : Incoming g.quic.Incoming)
      → g.pools.find _ that s.incomings ≡ some c
      → (new.inner ≡ none) ⊎ ((a : g.quic.Incoming) × (c.inner ≡ some a))
      → Live s
          (record s { incomings = g.pools.store (Incoming g.quic.Incoming) that new s.incomings })
  store_incoming-Live s that c new found full = record {
    connections = same s.connections;
    send_streams = same s.send_streams;
    recv_streams = same s.recv_streams;
    endpoints = same s.endpoints;
    routers = same s.routers;
    incomings = store-KeptCell (λ c. c.inner) c new s.incomings that found full;
    builders = same_cells (λ c. c.inner) s.builders;
  }

  pub store_builder-Live :
      (s : State g) (that : ℕ) (c new : RouterBuilder g.routing.RouterBuilder)
      → g.pools.find _ that s.builders ≡ some c
      → (new.inner ≡ none) ⊎ ((a : g.routing.RouterBuilder) × (c.inner ≡ some a))
      → Live s (record s {
        builders = g.pools.store (RouterBuilder g.routing.RouterBuilder) that new s.builders;
      })
  store_builder-Live s that c new found full = record {
    connections = same s.connections;
    send_streams = same s.send_streams;
    recv_streams = same s.recv_streams;
    endpoints = same s.endpoints;
    routers = same s.routers;
    incomings = same_cells (λ c. c.inner) s.incomings;
    builders = store-KeptCell (λ c. c.inner) c new s.builders that found full;
  }

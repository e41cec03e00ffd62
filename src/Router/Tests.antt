-- ===== src/Router/Tests.antt =====
-- A small instance of iroh's routers: a builder and a router are the protocols registered.
use iroh_dart.Prelude.{ℕ, ◌≡◌, ◌+◌, none, List, [], ◌∷◌, ◌++◌, already_spawned}
use iroh_dart.Iroh.Routing.{Routing}
use iroh_dart.Connection.Tests.{small, answer}
use iroh_dart.Router.{
  Callback, accepts, spawns, registered, started, failed, call_all, router_builder,
}
use iroh_dart.Router.Laws.{call_all_order}

abbrev routing : Routing small (Unit {0})
routing = record {
  RouterBuilder = List (List ℕ);
  Router = List (List ℕ);
  builder = λ ep. [];
  accept = λ made alpn handler. made ++ (alpn ∷ []);
  spawn = λ made w. (made, w + 1);
  shutdown = λ router. answer none;
}

abbrev serve : Callback small routing
serve connection = answer tt

call_all_order_example :
    call_all small routing
      (accepts (1 ∷ []) serve
        ∷ accepts (2 ∷ []) serve
        ∷ spawns
        ∷ accepts (3 ∷ []) serve
        ∷ spawns
        ∷ [])
      (router_builder small routing tt)
      4
    ≡ (
      registered
          ∷ registered
          ∷ started ((1 ∷ []) ∷ (2 ∷ []) ∷ [])
          ∷ failed already_spawned
          ∷ failed already_spawned
          ∷ [],
      record { inner = none },
      5,
    )
call_all_order_example =
    call_all_order small routing ((1 ∷ [], serve) ∷ (2 ∷ [], serve) ∷ [])
      (accepts (3 ∷ []) serve ∷ spawns ∷ []) tt 4

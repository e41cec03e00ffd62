-- ===== src/Bridge/Handles/Run/OnceTests.antt =====
-- The theorems on decisions and builders, in one process.
use mathlib.Core.List.{foldl}
use iroh_dart.Prelude.Int.{ℤ}
use iroh_dart.Bridge.Handles.{encode_handle}
use iroh_dart.Bridge.Handles.Toy.{one}
use iroh_dart.Bridge.Handles.Run.Routed.{
  Handler, with_handler, accept_each, builder_handle, begun_router, router_built,
}
use iroh_dart.Prelude.{
  ok, ℕ, ◌≡◌, ◌∙◌, refl, some, List, [], ◌∷◌, ◌++◌, Result, err, already_consumed, already_spawned,
  arith,
}
use iroh_dart.Connection.Tests.{small}
use iroh_dart.Connection.Incoming as Inc
use iroh_dart.Connection.Incoming.{Incoming, accepts, refuses}
use iroh_dart.Wire.LittleEndian.{little_endian, little_endian-CursorLaws}
use iroh_dart.Wire.Reads.{IsBytes}
use iroh_dart.Wire.Scalars.{encode_usize, encode_bytes}
use iroh_dart.Bridge.Dispatch.{Api}
use iroh_dart.Bridge.Handles.{State, put_connection, put_router, ran}
use iroh_dart.Bridge.Handles.Toy.{numbered-PoolLaws, process, busy}
use iroh_dart.Bridge.Handles.Run.{run, dart_call, idle}
use iroh_dart.Bridge.Handles.Run.Laws.{dart_call-run}
use iroh_dart.Bridge.Handles.Laws.{on_handle-alone}
use iroh_dart.Bridge.Handles.Connections.{wire_incoming_accept, keep_cell}
use iroh_dart.Bridge.Handles.Routers.{wire_router_builder_spawn, keep_builder}
use iroh_dart.Router as Rt
use iroh_dart.Router.{RouterBuilder}
use iroh_dart.Bridge.Handles.Run.Decisions.{decided_once}
use iroh_dart.Bridge.Handles.Run.Builders.{spawned_once}

small_bytes : IsBytes (1 ∷ 2 ∷ [])
small_bytes = (ground arith, (ground arith, (ground arith, tt)))

abbrev made : Result (List (List ℕ)) × Incoming ℕ × ℕ
made = Inc.accept small (record { inner = some 7; remote_addr = [] }) 5

accepted : Result (List ℕ) × State process
accepted = keep_cell process 0 (ran put_connection (made.0, made.2) busy) made.1

accepts_first :
    dart_call process Api.incoming_accept (encode_usize little_endian 0) busy ≡ some accepted
unfolding accepted run wire_incoming_accept
accepts_first =
    dart_call-run process Api.incoming_accept _ busy
    ∙ on_handle-alone process refl little_endian-CursorLaws _ _ 0 busy
        (record { inner = some 7; remote_addr = [] }) (omega arith) refl

decided_once_example :
    (u : State process) × (dart_call process Api.incoming_refuse
        (encode_usize little_endian 0)
        accepted.1
      ≡ some (err already_consumed, u))
    × (u.world ≡ accepted.1.world)
decided_once_example =
    decided_once process numbered-PoolLaws little_endian-CursorLaws refl accepts refuses busy
      accepted.1 accepted.1 0 (record { inner = some 7; remote_addr = [] }) accepted.0 (omega arith)
      refl accepts_first (idle accepted.1)

abbrev begun : Result (List (List ℕ)) × RouterBuilder (List (List ℕ)) × ℕ
begun = Rt.start small process.routing (record { inner = some [] }) 5

spawned : Result (List ℕ) × State process
spawned = keep_builder process 0 begun.1 (ran put_router (begun.0, begun.2) busy)

spawns_first :
    dart_call process Api.router_builder_spawn (encode_usize little_endian 0) busy ≡ some spawned
unfolding spawned run wire_router_builder_spawn
spawns_first =
    dart_call-run process Api.router_builder_spawn _ busy
    ∙ on_handle-alone process refl little_endian-CursorLaws _ _ 0 busy (record { inner = some [] })
        (omega arith) refl

spawned_once_example :
    ((u : State process) × (dart_call process Api.router_builder_spawn
          (encode_usize little_endian 0)
          spawned.1
        ≡ some (err already_spawned, u))
      × (u.world ≡ spawned.1.world))
    × ((u : State process) × (dart_call process Api.router_builder_accept
            (encode_usize little_endian 0
              ++ (encode_bytes little_endian (1 ∷ 2 ∷ []) ++ encode_usize little_endian 3))
            spawned.1
          ≡ some (err already_spawned, u))
        × (u.world ≡ spawned.1.world))
spawned_once_example =
    spawned_once process numbered-PoolLaws little_endian-CursorLaws refl busy spawned.1 spawned.1 0
      (record { inner = some [] }) spawned.0 (1 ∷ 2 ∷ []) 3 (omega arith) refl spawns_first
      (idle spawned.1) small_bytes (omega arith)

-- An endpoint under the number 0, and two protocols for it.
abbrev served : State process
served = record busy { endpoints = one [] }

abbrev handlers : List Handler
handlers = (1 ∷ 2 ∷ [], 3) ∷ (1 ∷ 2 ∷ [], 4) ∷ []

router_built_example :
    let made = process.routing.spawn (foldl (with_handler process) [] handlers) 5 in
    (t u : State process) × (k : ℕ × ℤ) × (dart_call process Api.router_builder
        (encode_usize little_endian 0)
        served
      ≡ some (
        ok (encode_handle little_endian (builder_handle process [] served)),
        begun_router process [] served,
      ))
    × (accept_each process 1 handlers (begun_router process [] served)
        ≡ some (ok [] ∷ ok [] ∷ [], t))
    × (dart_call process Api.router_builder_spawn (encode_usize little_endian 1) t
        ≡ some (ok (encode_handle little_endian k), u))
    × (process.pools.find _ k.0 u.routers ≡ some made.0)
    × (u.world ≡ made.1)
router_built_example =
    router_built process numbered-PoolLaws little_endian-CursorLaws refl served 0 [] handlers
      (omega arith) refl (omega arith)
      ((small_bytes, omega arith), ((small_bytes, omega arith), tt))

-- ===== src/Bridge/Handles/Run/Laws.antt =====
-- The calls as Dart makes them: each reaches its own wire function, on its own object.
use iroh_dart.Prelude.{ℕ, ◌≡◌, refl, ap, Bool, true, false, Option, List, if◌then◌else◌}
use iroh_dart.Bridge.Dispatch.{Api}
use iroh_dart.Bridge.Dispatch.Dart.{func_id, has_port}
use iroh_dart.Bridge.Dispatch.Laws.{dispatch-func_id}
use iroh_dart.Bridge.Handles.{Glue, State}
use iroh_dart.Bridge.Handles.Run.{run, run_arm, dispatch_primary, dispatch_sync, dart_call}

module _ (g : Glue) where
  pub dart_call-run :
      (api : Api) (message : List ℕ) (s : State g) → dart_call g api message s ≡ run g api message s
  unfolding dart_call dispatch_primary dispatch_sync
  dart_call-run api message s = by_mode (has_port api) refl
    where
      by_mode :
          (b : Bool)
          → has_port api ≡ b
          → (if b then dispatch_primary g (func_id api) else dispatch_sync g (func_id api)) message
              s
            ≡ run g api message s
      by_mode true p =
          ap (λ (arm : Option Api). run_arm g arm message s)
            ((dispatch-func_id (func_id api) api).0.1 (refl, p))
      by_mode false p =
          ap (λ (arm : Option Api). run_arm g arm message s)
            ((dispatch-func_id (func_id api) api).1.1 (refl, p))

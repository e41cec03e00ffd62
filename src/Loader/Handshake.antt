-- ===== src/Loader/Handshake.antt =====
-- `ensureInitialized` with the library of this crate.
use iroh_dart.Prelude.{
  ==_iff, ℕ, true, ◌≡◌, refl, sym, ap, ◌∙◌, Option, some, List, [], ◌∷◌, append-nil, subst, Str, ok,
  arith,
}
use iroh_dart.Wire.{CursorLaws}
use iroh_dart.Wire.Scalars.{encode_u32, decode_u32}
use iroh_dart.Wire.Scalars.Laws.{decode_u32-encode}
use iroh_dart.Bridge.{irohdart_abi_version}
use iroh_dart.Bridge.Dispatch.{Api}
use iroh_dart.Bridge.Handles.{Glue, State}
use iroh_dart.Bridge.Handles.Run.{dart_call}
use iroh_dart.Bridge.Handles.Run.Version.{version_answered}
use iroh_dart.Loader.{
  Surroundings, Loader, returned, expected_abi_version, ensure_initialized, finish_initializing,
  init_library, check_abi, resolve_external_library,
}
use iroh_dart.Loader.Laws.{InitLaws, new_loader}

module _ (g : Glue) (wire : CursorLaws g.cursor) where
  version_read :
      (t : State g) (answer : List ℕ) (n : ℕ)
      → g.ends [] ≡ true
      → dart_call g Api.irohdart_abi_version [] t ≡ some (ok answer, t)
      → decode_u32 g.cursor answer ≡ some (n, [])
      → n ≡ expected_abi_version
  unfolding encode_u32
  version_read t answer n ended e d =
      let sent = sym e ∙ version_answered g t ended in
      let read : decode_u32 g.cursor (encode_u32 g.cursor irohdart_abi_version)
          ≡ some (irohdart_abi_version, []) =
        subst (λ b. decode_u32 g.cursor b ≡ some (irohdart_abi_version, []))
          (append-nil (encode_u32 g.cursor irohdart_abi_version))
          ((decode_u32-encode g.cursor wire irohdart_abi_version (omega arith)).at []) in
      cc

  module _ (p : Surroundings) (laws : InitLaws p) where
    -- If the cursor keeps `CursorLaws`, `end` accepts that nothing is left, and `RustLib.init` makes
    -- its library the one that calls go to: when the first call of `ensureInitialized` finds a
    -- library, `init` with it completes, and the library answers the version call as this crate
    -- does, the call waits for `init`, then returns, and the loader is initialised.
    pub handshake :
        (path : Option Str) (l : p.Library) (r : p.RustLib) (t : State g) (answer : List ℕ)
        → g.ends [] ≡ true
        → resolve_external_library p path ≡ some l
        → (p.init l r).0 ≡ true
        → dart_call g Api.irohdart_abi_version [] t ≡ some (ok answer, t)
        → decode_u32 g.cursor answer ≡ some (p.abi_version l, [])
        → let s : Loader p = (ensure_initialized p path (new_loader p r)).1 in
          (s.waiting ≡ true ∷ [])
          × ((finish_initializing p true (record s { waiting = [] })).0 ≡ returned)
          × ((finish_initializing p true (record s { waiting = [] })).1.initialised ≡ true)
    unfolding ensure_initialized finish_initializing init_library check_abi
    handshake path l r t answer ended found completes e d =
        let right = version_read t answer (p.abi_version l) ended e d in
        let seen = (==_iff (p.abi_version l) expected_abi_version).1 right in
        let inside = laws.init-instance l r completes in
        rw (found, init_library)
          (rw (inside, check_abi) (rw seen (ap (λ b. b ∷ []) completes, refl, refl)))

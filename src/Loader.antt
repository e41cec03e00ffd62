-- ===== src/Loader.antt =====
-- packages/iroh_quic/lib/src/ffi/loader.dart: how Dart finds and opens the library of the Rust
-- crate, and the check of its version. A call of `ensureInitialized` is in two pieces, before and
-- after `RustLib.init`, between which other calls of the isolate run.
pub mod Laws
pub mod Handshake
mod Tests
use iroh_dart.Prelude.{
  ℕ, Bool, true, false, Option, none, some, List, [], ◌∷◌, ◌++◌, ◌≡◌, ◌==◌, if◌then◌else◌, ◌||◌,
  Str, codes,
}

-- What the loader asks: the platform, the files, and flutter_rust_bridge.
pub record Surroundings : Type 1 where
  pub is_ios : Bool
  pub is_mac_os : Bool
  pub is_windows : Bool
  pub exists : Str → Bool
  pub absolute : Str → Str
  -- `prebuiltCacheLibPath` of `currentPrebuiltTarget`, where there is one.
  pub prebuilt_path : Option Str
  -- The directory of `Platform.resolvedExecutable`.
  pub executable_directory : Str
  pub Library : Type 0
  -- `ExternalLibrary.open`: `none` is an `ArgumentError`.
  pub open_library : Str → Option Library
  pub process : Library
  -- What `irohdartAbiVersion` answers when this library is behind `RustLib`.
  pub abi_version : Library → ℕ
  -- `RustLib`, and the library that its calls go to.
  pub RustLib : Type 0
  pub instance_library : RustLib → Option Library
  -- `RustLib.init`: whether it will complete, or throw.
  pub init : Library → RustLib → Bool × RustLib

-- How a call of `ensureInitialized` ends; `bridge_error` is an error of `RustLib.instance`.
pub data Ending : Type 0 where
  returned argument_error load_error abi_mismatch bridge_error : Ending

abbrev pub expected_abi_version : ℕ
expected_abi_version = 3

module _ (p : Surroundings) where
  abbrev platform_library_file_name : Str
  platform_library_file_name =
      if p.is_mac_os || p.is_ios
      then codes "libirohdart_ffi.dylib"
      else (if p.is_windows then codes "irohdart_ffi.dll" else codes "libirohdart_ffi.so")

  abbrev pub prebuilt_paths : Option Str → List Str
  prebuilt_paths none = []
  prebuilt_paths (some path) = path ∷ []

  abbrev pub lib_search_paths : List Str
  lib_search_paths =
      ((codes "rust/target/debug/" ++ platform_library_file_name)
        ∷ (codes "rust/target/release/" ++ platform_library_file_name)
        ∷ (codes "../rust/target/debug/" ++ platform_library_file_name)
        ∷ (codes "../rust/target/release/" ++ platform_library_file_name)
        ∷ [])
      ++ (prebuilt_paths p.prebuilt_path
          ++ ((p.executable_directory ++ (codes "/" ++ platform_library_file_name)) ∷ []))

  pub first_existing : List Str → Option Str
  first_existing [] = none
  first_existing (path ∷ paths) =
      let rest = first_existing paths in if p.exists path then some (p.absolute path) else rest

  pub resolve_found : Option Str → Option p.Library
  resolve_found (some found) = p.open_library found
  resolve_found none =
      if p.is_ios || p.is_mac_os then some p.process else p.open_library platform_library_file_name

  pub resolve_external_library : Option Str → Option p.Library
  resolve_external_library (some library_path) = p.open_library library_path
  resolve_external_library none = resolve_found (first_existing lib_search_paths)

  -- The loader of one isolate. `waiting` are the calls in `await RustLib.init`, and whether it will
  -- complete.
  pub record Loader : Type 0 where
    pub initialised : Bool
    pub rust_lib : p.RustLib
    pub waiting : List Bool

  pub init_library : Option p.Library → Loader → Option Ending × Loader
  init_library none s = (some argument_error, s)
  init_library (some library) s =
      let (completes, after) = p.init library s.rust_lib in
      (none, record s { rust_lib = after; waiting = s.waiting ++ (completes ∷ []) })

  -- `ensureInitialized` before the await; `none` is a call that waits.
  unfoldable pub ensure_initialized : Option Str → Loader → Option Ending × Loader
  unfolding init_library
  ensure_initialized library_path s =
      if s.initialised
      then (some returned, s)
      else init_library (resolve_external_library library_path) s

  pub check_abi : Option p.Library → Loader → Ending × Loader
  check_abi none s = (bridge_error, s)
  check_abi (some library) s =
      if p.abi_version library == expected_abi_version
      then (returned, record s { initialised = true })
      else (abi_mismatch, s)

  -- `ensureInitialized` after the await.
  unfoldable pub finish_initializing : Bool → Loader → Ending × Loader
  unfolding check_abi
  finish_initializing false s = (load_error, s)
  finish_initializing true s = check_abi (p.instance_library s.rust_lib) s

  -- Calls start at any time, and the futures of `RustLib.init` complete in any order.
  pub data Step (s : Loader) : Loader → Type 0 where
    starts : (library_path : Option Str) → Step s (ensure_initialized library_path s).1
    finishes :
        (completes : Bool) (before after : List Bool)
        → s.waiting ≡ before ++ (completes ∷ after)
        → Step s (finish_initializing completes (record s { waiting = before ++ after })).1

  pub data Steps : Loader → Loader → Type 0 where
    stay : {s : Loader} → Steps s s
    after : {s t u : Loader} → Steps s t → Step t u → Steps s u

  -- A step in which a call returns normally.
  pub data Returns (s : Loader) : Loader → Type 0 where
    at_once :
        (library_path : Option Str)
        → (ensure_initialized library_path s).0 ≡ some returned
        → Returns s (ensure_initialized library_path s).1
    at_end :
        (completes : Bool) (before after : List Bool)
        → s.waiting ≡ before ++ (completes ∷ after)
        → (finish_initializing completes (record s { waiting = before ++ after })).0 ≡ returned
        → Returns s (finish_initializing completes (record s { waiting = before ++ after })).1

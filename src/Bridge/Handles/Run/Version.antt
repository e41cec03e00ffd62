-- ===== src/Bridge/Handles/Run/Version.antt =====
-- The version of iroh, from the lock file to Dart.
use iroh_dart.Prelude.{◌≡◌, ◌⊎◌, ap, ◌∙◌, true, none, some, [], ◌∷◌, ◌++◌, Str, ok, codes}
use iroh_dart.BuildScript.{Surroundings, lock_path, main, env_prefix}
use iroh_dart.BuildScript.Laws.{Locked, version_lem, main-version}
use iroh_dart.Wire.Scalars.{encode_string, encode_u32}
use iroh_dart.Bridge.{irohdart_abi_version}
use iroh_dart.Bridge.Laws.{wire_irohdart_iroh_version_lem, wire_irohdart_abi_version_lem}
use iroh_dart.Bridge.Dispatch.{Api}
use iroh_dart.Bridge.Handles.{Glue, State}
use iroh_dart.Bridge.Handles.Run.{plain, run, dart_call}
use iroh_dart.Bridge.Handles.Run.Laws.{dart_call-run}

module _ (g : Glue) where
  -- If `end` accepts that nothing is left, and the library was compiled with the version that the
  -- build script printed: Dart gets the version of iroh that stands in the lock file, and 1.4 if
  -- the script could not read that file. The lock file has iroh's name line after other lines, then
  -- lines that neither start a package nor give a version, then a version line.
  pub version_reported :
      (b : Surroundings) (v first : Str) (s : State g)
      → g.ends [] ≡ true
      → Locked b v ⊎ ((b.read_to_string (lock_path b) ≡ none) × (v ≡ codes "1.4"))
      → main b ≡ first ∷ (env_prefix ++ g.crate_version) ∷ []
      → dart_call g Api.irohdart_iroh_version [] s ≡ some (ok (encode_string g.cursor v), s)
  unfolding run
  version_reported b v first s ended found built =
      dart_call-run g Api.irohdart_iroh_version [] s
      ∙ ap (λ o. plain g o s)
          (wire_irohdart_iroh_version_lem g.cursor g.ends g.base g.crate_version ended)
      ∙ ap (λ (text : Str). some (ok (encode_string g.cursor text), s))
          (main-version b first g.crate_version built ∙ version_lem b v found)

  -- Dart gets the ABI version of this crate.
  pub version_answered :
      (t : State g)
      → g.ends [] ≡ true
      → dart_call g Api.irohdart_abi_version [] t
        ≡ some (ok (encode_u32 g.cursor irohdart_abi_version), t)
  unfolding run
  version_answered t ended =
      dart_call-run g Api.irohdart_abi_version [] t
      ∙ ap (λ o. plain g o t) (wire_irohdart_abi_version_lem g.cursor g.ends g.base ended)

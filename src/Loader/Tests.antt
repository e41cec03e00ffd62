-- ===== src/Loader/Tests.antt =====
-- Libraries whose version is the first character of their path.
use iroh_dart.Prelude.{ℕ, Bool, true, false, ◌≡◌, refl, Option, none, some, [], ◌∷◌, Str}
use iroh_dart.Wire.Scalars.{encode_u32, decode_u32}
use iroh_dart.Wire.LittleEndian.{read_le, write_le, little_endian, little_endian-CursorLaws}
use iroh_dart.Bridge.{irohdart_abi_version}
use iroh_dart.Bridge.Handles.Run.Version.{version_answered}
use iroh_dart.Bridge.Handles.Toy.{process, busy}
use iroh_dart.Loader.{
  Surroundings, Loader, returned, ensure_initialized, finish_initializing, resolve_external_library,
  starts, Steps, stay, after, Returns, at_end,
}
use iroh_dart.Loader.Laws.{InitLaws, new_loader, Loaded, loader_checked, mismatch_final}
use iroh_dart.Loader.Handshake.{handshake}

abbrev open_by_name : Str → Option ℕ
open_by_name [] = none
open_by_name (version ∷ _) = some version

abbrev init_once : ℕ → Option ℕ → Bool × Option ℕ
init_once library none = (true, some library)
init_once library (some other) = (false, some other)

abbrev linux : Surroundings
linux = record {
  is_ios = false;
  is_mac_os = false;
  is_windows = false;
  exists = λ path. false;
  absolute = λ path. path;
  prebuilt_path = none;
  executable_directory = [];
  Library = ℕ;
  open_library = open_by_name;
  process = 0;
  abi_version = λ library. library;
  RustLib = Option ℕ;
  instance_library = λ r. r;
  init = init_once;
}

linux-InitLaws : InitLaws linux
linux-InitLaws = record { init-instance = made; init_again = λ l m r e. rw e (refl, refl) }
  where
    made : (l : ℕ) (r : Option ℕ) → (init_once l r).0 ≡ true → (init_once l r).1 ≡ some l
    made l none e = refl
    made l (some m) e = cc

abbrev opening : Loader linux → ℕ → Loader linux
unfolding ensure_initialized
opening s version = (ensure_initialized linux (some (version ∷ [])) s).1

abbrev opened : Loader linux
unfolding ensure_initialized
opened = opening (new_loader linux none) 3

opened-Steps : Steps linux (new_loader linux none) opened
unfolding ensure_initialized
opened-Steps = after stay (starts (some (3 ∷ [])))

loader_checked_example :
    Loaded linux (finish_initializing linux true (record opened { waiting = [] })).1.rust_lib
unfolding ensure_initialized finish_initializing resolve_external_library
loader_checked_example = loader_checked linux none opened-Steps (at_end true [] [] refl refl)

-- A library of version 2, and then one of version 3.
abbrev refused : Loader linux
unfolding ensure_initialized finish_initializing
refused =
    (finish_initializing linux true (record (opening (new_loader linux none) 2) { waiting = [] })).1

mismatch_final_example : ¬ (
    Returns linux
      (opening refused 3)
      (finish_initializing linux false (record (opening refused 3) { waiting = [] })).1)
unfolding ensure_initialized finish_initializing resolve_external_library
mismatch_final_example =
    mismatch_final linux linux-InitLaws none true [] [] (after stay (starts (some (2 ∷ [])))) refl
      refl (after stay (starts (some (3 ∷ []))))

handshake_example :
    (opened.waiting ≡ true ∷ [])
    × ((finish_initializing linux true (record opened { waiting = [] })).0 ≡ returned)
    × ((finish_initializing linux true (record opened { waiting = [] })).1.initialised ≡ true)
unfolding ensure_initialized finish_initializing resolve_external_library encode_u32 decode_u32
    read_le write_le
handshake_example =
    handshake process little_endian-CursorLaws linux linux-InitLaws (some (3 ∷ [])) 3 none busy
      (encode_u32 little_endian irohdart_abi_version) refl refl refl
      (version_answered process busy refl) refl

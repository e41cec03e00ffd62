-- ===== src/BuildScript/Tests.antt =====
-- A build with a small lock file, and a process with the version that it prints.
use iroh_dart.Prelude.{◌≡◌, refl, inl, [], ◌∷◌, ◌++◌, Str, none, some, ok, codes}
use iroh_dart.BuildScript.{
  Surroundings, main, env_prefix, rerun_prefix, iroh_version_from_lock, scan,
}
use iroh_dart.BuildScript.Laws.{Locked}
use iroh_dart.Wire.LittleEndian.{little_endian}
use iroh_dart.Wire.Scalars.{encode_string}
use iroh_dart.Bridge.Dispatch.{Api}
use iroh_dart.Bridge.Handles.Toy.{process, busy}
use iroh_dart.Bridge.Handles.Run.{dart_call}
use iroh_dart.Bridge.Handles.Run.Version.{version_reported}

abbrev head : Str
head = codes "[[package]]\nname = \"a\"\nversion = \"1\"\n[[package]]\n"

abbrev lock : Str
lock = head ++ codes "name = \"iroh\"\nversion = \"1.4\"\n"

abbrev build : Surroundings
build = record {
  FilePath = Str;
  manifest_dir = none;
  join = λ a b. a ++ b;
  display = λ path. path;
  read_to_string = λ path. some lock;
}

locked : Locked build (codes "1.4")
locked = record {
  lock = lock;
  before =
      codes "[[package]]"
      ∷ codes "name = \"a\""
      ∷ codes "version = \"1\""
      ∷ codes "[[package]]"
      ∷ [];
  between = [];
  after = [];
  name = codes "name = \"iroh\"";
  line = codes "version = \"1.4\"";
  read = refl;
  split = refl;
  others = (refl, (refl, (refl, (refl, tt))));
  named = refl;
  betweens = tt;
  versioned = refl;
}

printed :
    main build ≡ (rerun_prefix ++ codes "Cargo.lock") ∷ (env_prefix ++ process.crate_version) ∷ []
unfolding main iroh_version_from_lock scan
printed = refl

version_reported_example :
    dart_call process Api.irohdart_iroh_version [] busy
    ≡ some (ok (encode_string little_endian (codes "1.4")), busy)
version_reported_example =
    version_reported process build (codes "1.4") (rerun_prefix ++ codes "Cargo.lock") busy refl
      (inl locked) printed

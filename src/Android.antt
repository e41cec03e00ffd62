-- ===== src/Android.antt =====
-- packages/iroh_quic/rust/src/android.rs: the JNI bootstrap, which the plugin's Java class calls
-- each time that it is attached to an engine. JNI and the two libraries that it prepares are a
-- parameter.
pub mod Laws
pub mod Tests
use iroh_dart.Prelude.{ℕ, suc, Bool, true, false, List, [], ◌∷◌, Result, ok, err, if◌then◌else◌}

pub record Jni : Type 1 where
  pub World : Type 0
  pub Context : Type 0
  pub JavaVm : Type 0
  pub GlobalRef : Type 0
  pub get_java_vm : World → Result JavaVm × World
  pub new_global_ref : Context → World → Result GlobalRef × World
  -- `rustls_platform_verifier::android::init_with_env`
  pub init_with_env : Context → World → Result (Unit {0}) × World
  -- `iroh_dns::install_android_jni_context`, which must not run twice.
  pub install_android_jni_context : JavaVm → GlobalRef → World → World

module _ (j : Jni) where
  -- `completed` is the state of the `Once`; `installs` counts the calls that it lets through.
  pub record Bootstrap : Type 0 where
    pub world : j.World
    pub completed : Bool
    pub installs : ℕ

  pub process_start : j.World → Bootstrap
  process_start w = record { world = w; completed = false; installs = 0 }

  pub install_once : j.JavaVm → j.GlobalRef → Bootstrap → Bootstrap
  install_once vm context s = if s.completed then s else record {
    world = j.install_android_jni_context vm context s.world;
    completed = true;
    installs = suc s.installs;
  }

  abbrev pub with_verifier :
      j.JavaVm
      → j.GlobalRef
      → Bootstrap
      → Result (Unit {0}) × j.World
      → Result (Unit {0}) × Bootstrap
  with_verifier vm context s (err e, w) = (err e, record s { world = w })
  with_verifier vm context s (ok _, w) = (ok tt, install_once vm context (record s { world = w }))

  abbrev pub with_ref :
      j.JavaVm
      → j.Context
      → Bootstrap
      → Result j.GlobalRef × j.World
      → Result (Unit {0}) × Bootstrap
  with_ref vm context s (err e, w) = (err e, record s { world = w })
  with_ref vm context s (ok global, w) = with_verifier vm global s (j.init_with_env context w)

  abbrev pub with_vm :
      j.Context → Bootstrap → Result j.JavaVm × j.World → Result (Unit {0}) × Bootstrap
  with_vm context s (err e, w) = (err e, record s { world = w })
  with_vm context s (ok vm, w) = with_ref vm context s (j.new_global_ref context w)

  -- An error becomes a Java `RuntimeException`.
  pub init_android_context : j.Context → Bootstrap → Result (Unit {0}) × Bootstrap
  init_android_context context s = with_vm context s (j.get_java_vm s.world)

  -- The engines of one process, one after another.
  pub attach_all : List j.Context → Bootstrap → List (Result (Unit {0})) × Bootstrap
  attach_all [] s = ([], s)
  attach_all (context ∷ rest) s =
      let (r, s') = init_android_context context s in
      let (rs, s'') = attach_all rest s' in (r ∷ rs, s'')

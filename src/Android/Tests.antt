-- ===== src/Android/Tests.antt =====
-- A platform on which the verifier refuses the context 0; the world counts the installations.
use iroh_dart.Prelude.{ℕ, zero, suc, ◌≡◌, List, [], ◌∷◌, Result, ok, err, foreign, if◌then◌else◌}
use iroh_dart.Android.{Jni, attach_all, process_start}
use iroh_dart.Android.Laws.{any_ok, attach_all-installs}

abbrev accepts_context : ℕ → Result (Unit {0})
accepts_context zero = err (foreign [])
accepts_context (suc n) = ok tt

abbrev platform : Jni
platform = record {
  World = ℕ;
  Context = ℕ;
  JavaVm = ℕ;
  GlobalRef = ℕ;
  get_java_vm = λ w. (ok 1, w);
  new_global_ref = λ context w. (ok context, w);
  init_with_env = λ context w. (accepts_context context, w);
  install_android_jni_context = λ vm context w. suc w;
}

-- Two attaches fail, and three succeed.
abbrev attaches : List ℕ
attaches = 0 ∷ 5 ∷ 0 ∷ 6 ∷ 5 ∷ []

attach_all-installs_example :
    let (rs, s) = attach_all platform attaches (process_start platform 0) in
    s.installs ≡ (if any_ok rs then 1 else 0)
attach_all-installs_example = attach_all-installs platform attaches 0

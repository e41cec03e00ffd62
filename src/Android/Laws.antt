-- ===== src/Android/Laws.antt =====
-- The context is installed once, however often the plugin is attached.
use iroh_dart.Prelude.{
  ℕ, ◌+◌, ◌≡◌, refl, sym, ap, ◌∙◌, Bool, true, false, ◌||◌, List, [], ◌∷◌, Result, ok, err,
  if◌then◌else◌, arith,
}
use iroh_dart.Android.{
  Jni, Bootstrap, process_start, install_once, with_verifier, with_ref, with_vm,
  init_android_context, attach_all,
}

abbrev pub is_ok : {A : Type 0} → Result A → Bool
is_ok (ok a) = true
is_ok (err e) = false

-- Some call succeeded.
abbrev pub any_ok : {A : Type 0} → List (Result A) → Bool
any_ok [] = false
any_ok (r ∷ rs) = is_ok r || any_ok rs

abbrev bit : Bool → ℕ
bit b = if b then 1 else 0

module _ (j : Jni) where
  -- How a call moves the `Once`.
  record Moves (s : Bootstrap j) (x : Result (Unit {0}) × Bootstrap j) : Type 0 where
    completed : x.1.completed ≡ (s.completed || is_ok x.0)
    counted : bit x.1.completed + s.installs ≡ bit s.completed + x.1.installs

  failed-Moves :
      (s : Bootstrap j) (w : j.World) (r : Result (Unit {0}))
      → is_ok r ≡ false
      → Moves s (r, record s { world = w })
  failed-Moves s w r e = record { completed = ground (arith, e); counted = refl }

  verifier-Moves :
      (vm : j.JavaVm) (context : j.GlobalRef) (s : Bootstrap j) (x : Result (Unit {0}) × j.World)
      → Moves s (with_verifier j vm context s x)
  unfolding install_once
  verifier-Moves vm context s (err e, w) = failed-Moves s w (err e) refl
  verifier-Moves vm context s (ok u, w) = record {
    completed = ground arith;
    counted = ground arith;
  }

  ref-Moves :
      (vm : j.JavaVm) (context : j.Context) (s : Bootstrap j) (x : Result j.GlobalRef × j.World)
      → Moves s (with_ref j vm context s x)
  ref-Moves vm context s (err e, w) = failed-Moves s w (err e) refl
  ref-Moves vm context s (ok global, w) = verifier-Moves vm global s (j.init_with_env context w)

  vm-Moves :
      (context : j.Context) (s : Bootstrap j) (x : Result j.JavaVm × j.World)
      → Moves s (with_vm j context s x)
  vm-Moves context s (err e, w) = failed-Moves s w (err e) refl
  vm-Moves context s (ok vm, w) = ref-Moves vm context s (j.new_global_ref context w)

  attach-Moves :
      (context : j.Context) (s : Bootstrap j) → Moves s (init_android_context j context s)
  unfolding init_android_context
  attach-Moves context s = vm-Moves context s (j.get_java_vm s.world)

  or_assoc : (a b c : Bool) → ((a || b) || c) ≡ (a || (b || c))
  or_assoc true b c = refl
  or_assoc false b c = refl

  or_false : (a : Bool) → (a || false) ≡ a
  or_false true = refl
  or_false false = refl

  -- A `Moves` of all calls together.
  attach_all-completed :
      (contexts : List j.Context) (s : Bootstrap j)
      → let (rs, t) = attach_all j contexts s in t.completed ≡ (s.completed || any_ok rs)
  unfolding attach_all
  attach_all-completed [] s = sym (or_false s.completed)
  attach_all-completed (context ∷ rest) s =
      let (r, t) = init_android_context j context s in
      attach_all-completed rest t
      ∙ ap (λ b. b || any_ok (attach_all j rest t).0) (attach-Moves context s).completed
      ∙ or_assoc s.completed (is_ok r) (any_ok (attach_all j rest t).0)

  attach_all-counted :
      (contexts : List j.Context) (s : Bootstrap j)
      → let t = (attach_all j contexts s).1 in
        bit t.completed + s.installs ≡ bit s.completed + t.installs
  unfolding attach_all
  attach_all-counted [] s = refl
  attach_all-counted (context ∷ rest) s =
      let t = (init_android_context j context s).1 in
      let first = (attach-Moves context s).counted in
      let others = attach_all-counted rest t in omega arith

  -- However often the plugin is attached in one process, and whichever of the calls fail: the
  -- context is installed once if some call succeeded, and not at all if none did; so it is never
  -- installed a second time.
  pub attach_all-installs :
      (contexts : List j.Context) (w : j.World)
      → let (rs, s) = attach_all j contexts (process_start j w) in
        s.installs ≡ (if any_ok rs then 1 else 0)
  unfolding process_start
  attach_all-installs contexts w =
      let s = process_start j w in
      let counted = attach_all-counted contexts s in
      let t = (attach_all j contexts s).1 in
      let total : t.installs ≡ bit t.completed = omega arith in
      total ∙ ap bit (attach_all-completed contexts s)

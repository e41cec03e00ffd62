-- ===== src/Loader/Laws.antt =====
-- What a call of `ensureInitialized` that returns shows of the library, for all interleavings of
-- calls in an isolate.
use iroh_dart.Prelude.{
  Bool, true, false, ◌≡◌, ◌≢◌, refl, sym, ap, subst, ◌∙◌, ◌⊎◌, inl, inr, Option, none, some, List,
  [], ◌∷◌, ◌++◌, ◌==◌, Bool-cases, ==_iff, Str, arith,
}
use mathlib.Core.Option.{some-injective}
use iroh_dart.Loader.{
  Surroundings, Loader, Ending, returned, abi_mismatch, expected_abi_version, ensure_initialized,
  finish_initializing, check_abi, init_library, resolve_external_library, Step, starts, finishes,
  Steps, stay, after, Returns, at_once, at_end,
}

-- `RustLib.init` makes its library the one that calls go to; a second `init` throws.
pub record InitLaws (p : Surroundings) : Type 0 where
  pub init-instance :
      (l : p.Library) (r : p.RustLib)
      → (p.init l r).0 ≡ true
      → p.instance_library (p.init l r).1 ≡ some l
  pub init_again :
      (l m : p.Library) (r : p.RustLib)
      → p.instance_library r ≡ some m
      → ((p.init l r).0 ≡ false) × (p.instance_library (p.init l r).1 ≡ some m)

module _ (p : Surroundings) where
  -- Calls go to a library of the version that the bindings expect.
  abbrev pub Loaded : p.RustLib → Type 0
  Loaded r =
      (l : p.Library) × (p.instance_library r ≡ some l) × (p.abi_version l ≡ expected_abi_version)

  abbrev pub new_loader : p.RustLib → Loader p
  new_loader r = record { initialised = false; rust_lib = r; waiting = [] }

  -- A call that goes on after `init` changes nothing, or returns after it has seen the version.
  abbrev Changes : Ending × Loader p → Loader p → Type 0
  Changes (e, t) s =
      ((e ≢ returned) × (t ≡ s)) ⊎ (Loaded s.rust_lib × (t ≡ record s { initialised = true }))

  check_abi_lem :
      (o : Option p.Library) (s : Loader p)
      → p.instance_library s.rust_lib ≡ o
      → Changes (check_abi p o s) s
  unfolding check_abi
  check_abi_lem none s e = inl (λ h. cc, refl)
  check_abi_lem (some l) s e = elim (Bool-cases (p.abi_version l == expected_abi_version)) [
    | inl t ↦ inr ((l, e, (==_iff (p.abi_version l) expected_abi_version).0 t), rw t)
    | inr f ↦ inl ((λ h. ground arith), rw f)
  ]

  finish_initializing_lem :
      (completes : Bool) (s : Loader p) → Changes (finish_initializing p completes s) s
  unfolding finish_initializing
  finish_initializing_lem false s = inl (λ h. cc, refl)
  finish_initializing_lem true s = check_abi_lem (p.instance_library s.rust_lib) s refl

  mismatch_lem :
      (o : Option p.Library) (s : Loader p)
      → p.instance_library s.rust_lib ≡ o
      → (check_abi p o s).0 ≡ abi_mismatch
      → (l : p.Library) × (p.instance_library s.rust_lib ≡ some l)
        × (p.abi_version l ≢ expected_abi_version)
        × ((check_abi p o s).1 ≡ s)
  unfolding check_abi
  mismatch_lem none s e h = cc
  mismatch_lem (some l) s e h = elim (Bool-cases (p.abi_version l == expected_abi_version)) [
    | inl t ↦ absurd (ground arith)
    | inr f ↦ (l, e, (λ q. ground arith), rw f)
  ]

  init_library_lem :
      (o : Option p.Library) (s : Loader p)
      → ((init_library p o s).0 ≢ some returned)
        × ((init_library p o s).1.initialised ≡ s.initialised)
  unfolding init_library
  init_library_lem none s = (λ h. cc, refl)
  init_library_lem (some l) s = (λ h. cc, refl)

  ensure_initialized_lem :
      (path : Option Str) (s : Loader p)
      → ((s.initialised ≡ true) × (ensure_initialized p path s ≡ (some returned, s)))
        ⊎ ((s.initialised ≡ false)
            × (ensure_initialized p path s ≡ init_library p (resolve_external_library p path) s))
  unfolding ensure_initialized
  ensure_initialized_lem path s = elim (Bool-cases s.initialised) [
    | inl t ↦ inl (t, rw t)
    | inr f ↦ inr (f, rw f)
  ]

  abbrev Checked : Loader p → Type 0
  Checked s = s.initialised ≡ true → Loaded s.rust_lib

  finish_initializing-Checked :
      (x : Ending × Loader p) (s : Loader p) → Changes x s → Checked s → Checked x.1
  finish_initializing-Checked x s (inl (e, same)) h = subst Checked (sym same) h
  finish_initializing-Checked x s (inr (loaded, new)) h = subst Checked (sym new) (λ i. loaded)

  Step-Checked : {s t : Loader p} → Step p s t → Checked s → Checked t
  Step-Checked {s} (starts path) h = elim (ensure_initialized_lem path s) [
    | inl (i, same) ↦ subst (λ (x : Option Ending × Loader p). Checked x.1) (sym same) h
    | inr (f, opened) ↦
        subst (λ (x : Option Ending × Loader p). Checked x.1) (sym opened)
          (λ i. let k = (init_library_lem (resolve_external_library p path) s).1 in cc)
  ]
  Step-Checked {s} (finishes completes xs ys e) h =
      finish_initializing-Checked _ (record s { waiting = xs ++ ys })
        (finish_initializing_lem completes (record s { waiting = xs ++ ys })) h

  Steps-Checked : {s t : Loader p} → Steps p s t → Checked s → Checked t
  Steps-Checked stay h = h
  Steps-Checked (after r step) h = Step-Checked step (Steps-Checked r h)

  Returns-Loaded : {s t : Loader p} → Returns p s t → Checked s → Loaded t.rust_lib
  Returns-Loaded {s} (at_once path e) h = elim (ensure_initialized_lem path s) [
    | inl (i, same) ↦ subst (λ (x : Option Ending × Loader p). Loaded x.1.rust_lib) (sym same) (h i)
    | inr (f, opened) ↦ absurd (
        (init_library_lem (resolve_external_library p path) s).0
          (sym (ap (λ (x : Option Ending × Loader p). x.0) opened) ∙ e))
  ]
  Returns-Loaded {s} (at_end completes xs ys w e) h =
      elim (finish_initializing_lem completes (record s { waiting = xs ++ ys })) [
        | inl (other, same) ↦ absurd (other e)
        | inr (loaded, new) ↦ subst (λ (x : Loader p). Loaded x.rust_lib) (sym new) loaded
      ]

  -- In an isolate whose loader is new: whatever calls of `ensureInitialized` there are and however
  -- they interleave, when one returns, the calls of the bindings go to a library that reports the
  -- version which they expect.
  pub loader_checked :
      (r : p.RustLib) {s t : Loader p}
      → Steps p (new_loader r) s
      → Returns p s t
      → Loaded t.rust_lib
  loader_checked r steps returns = Returns-Loaded returns (Steps-Checked steps (λ i. cc))

  -- A library of another version is loaded.
  abbrev Stuck : Loader p → Type 0
  Stuck s =
      (s.initialised ≡ false)
      × ((l : p.Library) × (p.instance_library s.rust_lib ≡ some l)
          × (p.abi_version l ≢ expected_abi_version))

  clash :
      (s : Loader p) (l m : p.Library)
      → p.instance_library s.rust_lib ≡ some l
      → p.abi_version l ≡ expected_abi_version
      → p.instance_library s.rust_lib ≡ some m
      → p.abi_version m ≢ expected_abi_version
      → ⊥
  clash s l m e v e' w = w (ap p.abi_version (some-injective m l (sym e' ∙ e)) ∙ v)

  finish_initializing-Stuck :
      (x : Ending × Loader p) (s : Loader p) → Changes x s → Stuck s → Stuck x.1
  finish_initializing-Stuck x s (inl (e, same)) h = subst Stuck (sym same) h
  finish_initializing-Stuck x s (inr ((l, e, v), new)) (f, (m, e', w)) =
      absurd (clash s l m e v e' w)

  module _ (laws : InitLaws p) where
    init_library-Stuck :
        (o : Option p.Library) (s : Loader p) → Stuck s → Stuck (init_library p o s).1
    unfolding init_library
    init_library-Stuck none s h = h
    init_library-Stuck (some l) s (f, (m, e, w)) = (f, (m, (laws.init_again l m s.rust_lib e).1, w))

    Step-Stuck : {s t : Loader p} → Step p s t → Stuck s → Stuck t
    Step-Stuck {s} (starts path) h = elim (ensure_initialized_lem path s) [
      | inl (i, same) ↦ subst (λ (x : Option Ending × Loader p). Stuck x.1) (sym same) h
      | inr (f, opened) ↦
          subst (λ (x : Option Ending × Loader p). Stuck x.1) (sym opened)
            (init_library-Stuck (resolve_external_library p path) s h)
    ]
    Step-Stuck {s} (finishes completes xs ys e) h =
        finish_initializing-Stuck _ (record s { waiting = xs ++ ys })
          (finish_initializing_lem completes (record s { waiting = xs ++ ys })) h

    Steps-Stuck : {s t : Loader p} → Steps p s t → Stuck s → Stuck t
    Steps-Stuck stay h = h
    Steps-Stuck (after r step) h = Step-Stuck step (Steps-Stuck r h)

    Returns-Stuck : {s t : Loader p} → Returns p s t → Stuck s → ⊥
    Returns-Stuck {s} (at_once path e) (f, stuck) = elim (ensure_initialized_lem path s) [
      | inl (i, same) ↦ cc
      | inr (f', opened) ↦
          (init_library_lem (resolve_external_library p path) s).0
            (sym (ap (λ (x : Option Ending × Loader p). x.0) opened) ∙ e)
    ]
    Returns-Stuck {s} (at_end completes xs ys q e) (f, (m, e', w)) =
        elim (finish_initializing_lem completes (record s { waiting = xs ++ ys })) [
          | inl (other, same) ↦ other e
          | inr ((l, e, v), new) ↦ clash s l m e v e' w
        ]

    finish_initializing-mismatch :
        (completes : Bool) (s : Loader p)
        → Checked s
        → (finish_initializing p completes s).0 ≡ abi_mismatch
        → Stuck (finish_initializing p completes s).1
    unfolding finish_initializing
    finish_initializing-mismatch false s h e = cc
    finish_initializing-mismatch true s h e =
        let (l, e', w, same) = mismatch_lem (p.instance_library s.rust_lib) s refl e in
        let not_initialised : s.initialised ≡ false = elim (Bool-cases s.initialised) [
          | inl t ↦ let (m, e2, v) = h t in absurd (clash s m l e2 v e' w)
          | inr f ↦ f
        ] in
        subst Stuck (sym same) (not_initialised, (l, e', w))

    -- In an isolate whose loader is new, if `RustLib.init` throws when it has completed before: once
    -- a call of `ensureInitialized` ends with the ABI mismatch, no call returns any more, not even
    -- one with the path of a right library.
    pub mismatch_final :
        (r : p.RustLib) {s t u : Loader p} (completes : Bool) (xs ys : List Bool)
        → Steps p (new_loader r) s
        → s.waiting ≡ xs ++ (completes ∷ ys)
        → (finish_initializing p completes (record s { waiting = xs ++ ys })).0 ≡ abi_mismatch
        → Steps p (finish_initializing p completes (record s { waiting = xs ++ ys })).1 t
        → ¬ (Returns p t u)
    mismatch_final r {s} completes xs ys steps w e later returns = Returns-Stuck returns (
        Steps-Stuck later (
          finish_initializing-mismatch completes (record s { waiting = xs ++ ys })
            (Steps-Checked steps (λ i. cc)) e))

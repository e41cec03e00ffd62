-- ===== src/Bridge/Dispatch/Laws.antt =====
-- Dart and Rust agree on the function numbers.
use iroh_dart.Prelude.{
  ℕ, ◌≡◌, refl, sym, ap, ◌∙◌, ◌↔◌, ◌⊎◌, inl, inr, Bool, true, false, ◌&&◌, Option, none, some, List,
  [], ◌∷◌, ◌==◌, if◌then◌else◌, arith,
}
use iroh_dart.Bridge.Dispatch.{
  Api, pick, primary_arms, sync_arms, pde_ffi_dispatcher_primary, pde_ffi_dispatcher_sync,
}
use iroh_dart.Bridge.Dispatch.Dart.{func_id, has_port}

-- Every arm has the number and the mode that Dart has for its function.
abbrev same : Bool → Bool → Bool
same true b = b
same false true = false
same false false = true

abbrev arms_match : Bool → List (ℕ × Api) → Bool
arms_match port [] = true
arms_match port ((n, api) ∷ arms) =
    (n == func_id api) && (same port (has_port api) && arms_match port arms)

same-eq : (x y : Bool) → same x y ≡ true → y ≡ x
same-eq true y h = h
same-eq false true h = ground arith
same-eq false false h = refl

all_true : (t s r : Bool) → t && (s && r) ≡ true → (t ≡ true) × (s ≡ true) × (r ≡ true)
all_true true true r h = (refl, refl, h)
all_true true false r h = cc
all_true false s r h = cc

-- The arm is taken, or it is one of the others.
taken :
    (t : Bool) (a api : Api) (rest : Option Api)
    → (if t then some a else rest) ≡ some api
    → ((t ≡ true) × (a ≡ api)) ⊎ (rest ≡ some api)
taken true a api rest h = inl (refl, ground arith)
taken false a api rest h = inr h

==-sound : (m n : ℕ) → (m == n) ≡ true → m ≡ n
==-sound m n h = ground arith

pick-eq :
    (port : Bool) (arms : List (ℕ × Api)) (id : ℕ) (api : Api)
    → arms_match port arms ≡ true
    → pick arms id ≡ some api
    → (id ≡ func_id api) × (has_port api ≡ port)
pick-eq port [] id api m h = cc
pick-eq port ((n, a) ∷ arms) id api m h =
    let (number, mode, others) = all_true _ _ _ m in
    elim (taken (id == n) a api (pick arms id) h) [
      | inl (here, e) ↦ (
        ==-sound id n here ∙ ==-sound n (func_id a) number ∙ ap func_id e,
        ap has_port (sym e) ∙ same-eq port (has_port a) mode,
      )
      | inr there ↦ pick-eq port arms id api others there
    ]

found :
    (api : Api)
    → (pde_ffi_dispatcher_primary (func_id api) ≡ (if has_port api then some api else none))
      × (pde_ffi_dispatcher_sync (func_id api) ≡ (if has_port api then none else some api))
unfolding pde_ffi_dispatcher_primary pde_ffi_dispatcher_sync func_id has_port
found _ = ground arith

primary_match : arms_match true primary_arms ≡ true
unfolding func_id has_port
primary_match = refl

sync_match : arms_match false sync_arms ≡ true
unfolding func_id has_port
sync_match = refl

reach_primary :
    (id : ℕ) (api : Api)
    → (id ≡ func_id api) × (has_port api ≡ true)
    → pde_ffi_dispatcher_primary id ≡ some api
reach_primary id api (e, p) =
    ap pde_ffi_dispatcher_primary e
    ∙ (found api).0
    ∙ ap (λ (b : Bool). if b then some api else none) p

reach_sync :
    (id : ℕ) (api : Api)
    → (id ≡ func_id api) × (has_port api ≡ false)
    → pde_ffi_dispatcher_sync id ≡ some api
reach_sync id api (e, p) =
    ap pde_ffi_dispatcher_sync e ∙ (found api).1 ∙ ap (λ (b : Bool). if b then none else some api) p

-- A dispatcher calls a function on exactly the number that the Dart method of this function sends,
-- and it is the dispatcher of the method's mode: the primary one for a method with a port, the
-- synchronous one for one without; so no message reaches another function.
pub dispatch-func_id :
    (id : ℕ) (api : Api)
    → ((pde_ffi_dispatcher_primary id ≡ some api) ↔ ((id ≡ func_id api) × (has_port api ≡ true)))
      × ((pde_ffi_dispatcher_sync id ≡ some api) ↔ ((id ≡ func_id api) × (has_port api ≡ false)))
unfolding pde_ffi_dispatcher_primary pde_ffi_dispatcher_sync
dispatch-func_id id api = (
  (pick-eq true primary_arms id api primary_match, reach_primary id api),
  (pick-eq false sync_arms id api sync_match, reach_sync id api),
)

-- ===== src/Bridge/Handles/Laws.antt =====
-- What a message on a handle comes to, where the object is found, and one without a handle.
use iroh_dart.Prelude.{
  ℕ, ◌≡◌, refl, sym, ap, append-nil, ◌∙◌, true, Option, some, List, [], ◌++◌, Error, Result, err,
}
use iroh_dart.Wire.{pure, CursorLaws, Decoder}
use iroh_dart.Wire.Reads.{Reads, Reads-then, Reads-last}
use iroh_dart.Wire.Scalars.{encode_usize}
use iroh_dart.Wire.Scalars.Laws.{decode_usize-encode}
use iroh_dart.Wire.Values.Laws.{IsU64}
use iroh_dart.Bridge.{with_args, nothing}
use iroh_dart.Bridge.Laws.{with_args-Reads}
use iroh_dart.Bridge.Handles.{
  Glue, State, decode_call, run_call, run_found, on_handle, run_args, on_args,
}

module _ (g : Glue) (ended : g.ends [] ≡ true) (laws : CursorLaws g.cursor) where
  decode_call-Reads :
      {B : Type 0} (decode : Decoder B) (that : ℕ) (bytes : List ℕ) (args : B)
      → IsU64 that
      → Reads decode bytes args
      → Reads (decode_call g.cursor decode) (encode_usize g.cursor that ++ bytes) (that, args)
  unfolding decode_call
  decode_call-Reads decode that bytes args h r =
      Reads-then _ _ _ _ that (that, args) (decode_usize-encode g.cursor laws that h)
        (Reads-last _ _ _ args (that, args) r refl)

  module _ {A B : Type 0} (table : State g → g.pools.Table A) (decode : Decoder B)
      (run : ℕ → A → B → State g → Result (List ℕ) × State g) (that : ℕ) (bytes : List ℕ) (args : B)
      (s : State g) (small : IsU64 that) (r : Reads decode bytes args) where
    called :
        with_args g.ends
          (decode_call g.cursor decode)
          (λ call. call)
          (encode_usize g.cursor that ++ bytes)
        ≡ some (that, args)
    called =
        with_args-Reads g.ends _ _ _ (that, args) ended
          (decode_call-Reads decode that bytes args small r)

    pub on_handle-found :
        (object : A)
        → g.pools.find A that (table s) ≡ some object
        → on_handle table decode run (encode_usize g.cursor that ++ bytes) s
          ≡ some (run that object args s)
    unfolding on_handle
    on_handle-found object found =
        ap (run_call table run s) called ∙ ap (run_found run s (that, args)) found

  pub on_args-Reads :
      {B : Type 0} (decode : Decoder B) (run : B → State g → Result (List ℕ) × State g)
      (bytes : List ℕ) (args : B) (s : State g)
      → Reads decode bytes args
      → on_args decode run bytes s ≡ some (run args s)
  unfolding on_args
  on_args-Reads decode run bytes args s r =
      ap (run_args run s) (with_args-Reads g.ends _ _ _ args ended r)

  -- A call with no argument but the object.
  pub on_handle-alone :
      {A : Type 0} (table : State g → g.pools.Table A)
      (run : ℕ → A → Unit {0} → State g → Result (List ℕ) × State g) (that : ℕ) (s : State g)
      (object : A)
      → IsU64 that
      → g.pools.find A that (table s) ≡ some object
      → on_handle table nothing run (encode_usize g.cursor that) s ≡ some (run that object tt s)
  unfolding pure
  on_handle-alone table run that s object small found =
      ap (λ (m : List ℕ). on_handle table nothing run m s) (sym (append-nil _))
      ∙ on_handle-found table nothing run that [] tt s small (record { at = λ rest. refl }) object
          found

-- A call that ends in an error and leaves the world alone, from what it comes to.
pub call_at :
    {g : Glue} (e : Error) (s : State g) (o : Option (Result (List ℕ) × State g))
    (x : Result (List ℕ) × State g)
    → o ≡ some x
    → x.0 ≡ err e
    → x.1.world ≡ s.world
    → (u : State g) × (o ≡ some (err e, u)) × (u.world ≡ s.world)
call_at e s o x found late same = (x.1, found ∙ ap (λ r. some (r, x.1)) late, same)

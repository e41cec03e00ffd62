-- ===== src/Bridge/Handles/Counts/Laws.antt =====
-- What a sequence of counting calls does to the references and to the objects of each type.
use iroh_dart.Prelude.{
  inl, inr, ℕ, zero, suc, ◌+◌, ◌<◌, ◌≡◌, ◌⊎◌, refl, ap, ◌∙◌, none, List, [], ◌∷◌, arith,
}
use iroh_dart.Bridge.Handles.{PoolLaws, Glue, State}
use iroh_dart.Bridge.Handles.Counts.{
  ObjectType, increment_strong_count, decrement_strong_count, Export, increments, decrements,
  export_call, Object, table_of, references, object_at, run_exports, LeavesOne,
}
use iroh_dart.Bridge.Handles.Counts.Types.{hits, hits-cases, one_if, held_at}
use iroh_dart.Bridge.Handles.Counts.Single.{
  incremented_references, decremented_references, incremented_object, decremented_object, held_type,
}

-- How many calls of each kind there are for one object.
abbrev pub made : ObjectType → ℕ → List Export → ℕ
made o k [] = 0
made o k (increments o' j ∷ es) = one_if (hits o o' k j) + made o k es
made o k (decrements o' j ∷ es) = made o k es

abbrev pub dropped : ObjectType → ℕ → List Export → ℕ
dropped o k [] = 0
dropped o k (increments o' j ∷ es) = dropped o k es
dropped o k (decrements o' j ∷ es) = one_if (hits o o' k j) + dropped o k es

module _ (g : Glue) where
  -- Dart counts only references that it has.
  abbrev pub AllHeld : List Export → State g → Type 0
  AllHeld [] s = Unit
  AllHeld (increments o k ∷ es) s =
      (0 < references g o k s) × AllHeld es (export_call (increments o k) s)
  AllHeld (decrements o k ∷ es) s =
      (0 < references g o k s) × AllHeld es (export_call (decrements o k) s)

  module _ (laws : PoolLaws g.pools) where
    -- A call after which Dart has a reference keeps every object.
    pub export_call-object :
        (o : ObjectType) (k : ℕ) (e : Export) (s : State g)
        → LeavesOne g e s
        → object_at g o k (export_call e s) ≡ object_at g o k s
    unfolding export_call
    export_call-object o k (increments o' j) s held = incremented_object g laws o o' k j s
    export_call-object o k (decrements o' j) s held =
        decremented_object g laws o o' k j s
          (λ hit. omega (arith, held_type g laws o o' k j s hit, held))

    tally :
        (o : ObjectType) (k : ℕ) (es : List Export) (s : State g)
        → AllHeld es s
        → references g o k (run_exports g es s) + dropped o k es ≡ references g o k s + made o k es
    unfolding export_call
    tally o k [] s h = refl
    tally o k (increments o' j ∷ es) s (held, h) = omega (
      arith,
      tally o k es (increment_strong_count o' j s) h,
      incremented_references g laws o o' k j s held,
    )
    tally o k (decrements o' j ∷ es) s (held, h) = omega (
      arith,
      tally o k es (decrement_strong_count o' j s) h,
      decremented_references g laws o o' k j s held,
    )

    -- An object that has no references is not counted again.
    not_hit :
        (o o' : ObjectType) (k j : ℕ) (s : State g)
        → 0 < references g o' j s
        → references g o k s ≡ 0
        → one_if (hits o o' k j) ≡ 0
    not_hit o o' k j s held none_left = elim (hits-cases o o' k j) [
      | inl (p, q, hit) ↦ absurd (omega (arith, held_at g o o' k j s p q held))
      | inr (inl (p, q, miss)) ↦ ap one_if miss
      | inr (inr (other, miss)) ↦ ap one_if miss
    ]

    stays_zero :
        (o : ObjectType) (k : ℕ) (es : List Export) (s : State g)
        → AllHeld es s
        → references g o k s ≡ 0
        → references g o k (run_exports g es s) ≡ 0
    unfolding export_call
    stays_zero o k [] s h z = z
    stays_zero o k (increments o' j ∷ es) s (held, h) z =
        stays_zero o k es (increment_strong_count o' j s) h
          (omega (arith, incremented_references g laws o o' k j s held, not_hit o o' k j s held z))
    stays_zero o k (decrements o' j ∷ es) s (held, h) z =
        stays_zero o k es (decrement_strong_count o' j s) h
          (omega (arith, decremented_references g laws o o' k j s held, not_hit o o' k j s held z))

    zero_or_more : (n : ℕ) → (n ≡ 0) ⊎ (0 < n)
    zero_or_more zero = inl refl
    zero_or_more (suc n) = inr (omega arith)

    still_there :
        (o : ObjectType) (k : ℕ) (es : List Export) (s : State g)
        → AllHeld es s
        → 0 < references g o k (run_exports g es s)
        → 0 < references g o k s
    still_there o k es s h left = elim (zero_or_more (references g o k s)) [
      | inl z ↦ absurd (omega (arith, stays_zero o k es s h z, left))
      | inr more ↦ more
    ]

    object_kept :
        (o : ObjectType) (k : ℕ) (es : List Export) (s : State g)
        → AllHeld es s
        → 0 < references g o k (run_exports g es s)
        → object_at g o k (run_exports g es s) ≡ object_at g o k s
    unfolding export_call
    object_kept o k [] s h left = refl
    object_kept o k (increments o' j ∷ es) s (held, h) left =
        object_kept o k es (increment_strong_count o' j s) h left
        ∙ incremented_object g laws o o' k j s
    object_kept o k (decrements o' j ∷ es) s (held, h) left =
        object_kept o k es (decrement_strong_count o' j s) h left
        ∙ decremented_object g laws o o' k j s (λ hit. omega (
          arith,
          still_there o k es (decrement_strong_count o' j s) h left,
          decremented_references g laws o o' k j s held,
          ap one_if hit,
        ))

    -- If the tables keep `PoolLaws`: take any sequence of counting calls of any types, each on an
    -- object that has a reference then. The references to an object after it are those before it,
    -- and the increments that name this object by its type and number, less the decrements that
    -- do. The object is the one that was there, or it has no references left and is gone.
    pub run_exports-counts :
        (o : ObjectType) (k : ℕ) (es : List Export) (s : State g)
        → AllHeld es s
        → (references g o k (run_exports g es s) + dropped o k es
            ≡ references g o k s + made o k es)
          × ((object_at g o k (run_exports g es s) ≡ object_at g o k s)
              ⊎ ((references g o k (run_exports g es s) ≡ 0)
                  × (object_at g o k (run_exports g es s) ≡ none)))
    run_exports-counts o k es s h = (
      tally o k es s h,
      elim (zero_or_more (references g o k (run_exports g es s))) [
        | inl z ↦ inr (z, laws.find_none (Object g o) (table_of g o (run_exports g es s)) k z)
        | inr more ↦ inl (object_kept o k es s h more)
      ],
    )

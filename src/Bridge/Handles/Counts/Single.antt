-- ===== src/Bridge/Handles/Counts/Single.antt =====
-- What one counting call does to the references and to the object of any handle.
use iroh_dart.Prelude.{
  inl, inr, Bool-cases, ℕ, suc, ◌+◌, ◌<◌, ◌≡◌, sym, ap, ◌∙◌, subst, true, arith,
}
use iroh_dart.Bridge.Handles.{PoolLaws, Glue, State}
use iroh_dart.Bridge.Handles.Counts.{
  ObjectType, increment_strong_count, decrement_strong_count, Object, table_of, references,
  object_at,
}
use iroh_dart.Bridge.Handles.Counts.Types.{
  hits, hits-cases, one_if, same_type, same_type-eq, incremented, incremented_other, decremented,
  decremented_other, held_at, references_at, object_at_same,
}

module _ (g : Glue) where
  module _ (laws : PoolLaws g.pools) where
    pub incremented_references :
        (o o' : ObjectType) (k j : ℕ) (s : State g)
        → 0 < references g o' j s
        → references g o k (increment_strong_count o' j s)
          ≡ one_if (hits o o' k j) + references g o k s
    incremented_references o o' k j s held = elim (hits-cases o o' k j) [
      | inl (p, q, hit) ↦
          let seen =
            references_at g increment_strong_count g.pools.increment (incremented g) o o' k j s p in
          let more : g.pools.count (Object g o) k
                (g.pools.increment (Object g o) j (table_of g o s))
              ≡ suc (references g o k s) =
            subst
              (λ i.
                g.pools.count (Object g o) k (g.pools.increment (Object g o) i (table_of g o s))
                ≡ suc (references g o k s))
              q
              (laws.count-increment (Object g o) (table_of g o s) k
                (held_at g o o' k j s p q held)) in
          omega (arith, seen, more, ap one_if hit)
      | inr (inl (p, q, miss)) ↦
          let seen =
            references_at g increment_strong_count g.pools.increment (incremented g) o o' k j s p in
          omega (
            arith,
            seen,
            laws.count-increment_other (Object g o) (table_of g o s) j k q,
            ap one_if miss,
          )
      | inr (inr (other, miss)) ↦
          let same : references g o k (increment_strong_count o' j s) ≡ references g o k s =
            ap (g.pools.count (Object g o) k) (incremented_other g o o' j s other) in
          omega (arith, same, ap one_if miss)
    ]

    pub decremented_references :
        (o o' : ObjectType) (k j : ℕ) (s : State g)
        → 0 < references g o' j s
        → one_if (hits o o' k j) + references g o k (decrement_strong_count o' j s)
          ≡ references g o k s
    decremented_references o o' k j s held = elim (hits-cases o o' k j) [
      | inl (p, q, hit) ↦
          let seen =
            references_at g decrement_strong_count g.pools.decrement (decremented g) o o' k j s p in
          let less : suc
                (g.pools.count (Object g o) k (g.pools.decrement (Object g o) j (table_of g o s)))
              ≡ references g o k s =
            subst
              (λ i.
                suc
                  (g.pools.count (Object g o) k (g.pools.decrement (Object g o) i (table_of g o s)))
                ≡ references g o k s)
              q
              (laws.count-decrement (Object g o) (table_of g o s) k
                (held_at g o o' k j s p q held)) in
          omega (arith, seen, less, ap one_if hit)
      | inr (inl (p, q, miss)) ↦
          let seen =
            references_at g decrement_strong_count g.pools.decrement (decremented g) o o' k j s p in
          omega (
            arith,
            seen,
            laws.count-decrement_other (Object g o) (table_of g o s) j k q,
            ap one_if miss,
          )
      | inr (inr (other, miss)) ↦
          let same : references g o k (decrement_strong_count o' j s) ≡ references g o k s =
            ap (g.pools.count (Object g o) k) (decremented_other g o o' j s other) in
          omega (arith, same, ap one_if miss)
    ]

    pub incremented_object :
        (o o' : ObjectType) (k j : ℕ) (s : State g)
        → object_at g o k (increment_strong_count o' j s) ≡ object_at g o k s
    incremented_object o o' k j s = elim (Bool-cases (same_type o o')) [
      | inl e ↦
          object_at_same g increment_strong_count g.pools.increment (incremented g) o o' k j s
            (same_type-eq o o' e)
          ∙ laws.find-increment (Object g o) (table_of g o s) j k
      | inr e ↦ ap (g.pools.find (Object g o) k) (incremented_other g o o' j s e)
    ]

    -- A decrement of an object with one reference lets it go; any other call keeps it.
    pub decremented_object :
        (o o' : ObjectType) (k j : ℕ) (s : State g)
        → (hits o o' k j ≡ true → 1 < references g o k s)
        → object_at g o k (decrement_strong_count o' j s) ≡ object_at g o k s
    decremented_object o o' k j s held = elim (hits-cases o o' k j) [
      | inl (p, q, hit) ↦
          object_at_same g decrement_strong_count g.pools.decrement (decremented g) o o' k j s p
          ∙ subst
              (λ i.
                g.pools.find (Object g o) k (g.pools.decrement (Object g o) i (table_of g o s))
                ≡ object_at g o k s)
              q (laws.find-decrement (Object g o) (table_of g o s) k (held hit))
      | inr (inl (p, q, miss)) ↦
          object_at_same g decrement_strong_count g.pools.decrement (decremented g) o o' k j s p
          ∙ laws.find-decrement_other (Object g o) (table_of g o s) j k q
      | inr (inr (other, miss)) ↦
          ap (g.pools.find (Object g o) k) (decremented_other g o o' j s other)
    ]

    pub held_type :
        (o o' : ObjectType) (k j : ℕ) (s : State g)
        → hits o o' k j ≡ true
        → references g o' j s ≡ references g o k s
    held_type o o' k j s h = elim (hits-cases o o' k j) [
      | inl (p, q, hit) ↦ sym (ap (λ r. references g r k s) p ∙ ap (λ i. references g o' i s) q)
      | inr (inl (p, q, miss)) ↦ cc
      | inr (inr (other, miss)) ↦ cc
    ]

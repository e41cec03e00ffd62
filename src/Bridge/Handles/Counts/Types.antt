-- ===== src/Bridge/Handles/Counts/Types.antt =====
-- The table that each counting call changes.
use iroh_dart.Prelude.{
  inl, inr, Bool-cases, ==_iff, ℕ, ◌<◌, ◌≡◌, ◌≢◌, ◌⊎◌, refl, sym, ap, subst, Bool, true, false,
  ◌&&◌, ◌==◌, arith,
}
use iroh_dart.Bridge.Handles.{Glue, State}
use iroh_dart.Bridge.Handles.Counts.{
  ObjectType, connection, endpoint, incoming, recv_stream, router, router_builder, send_stream,
  increment_strong_count, decrement_strong_count, Object, table_of, references, object_at,
}

abbrev pub same_type : ObjectType → ObjectType → Bool
same_type connection connection = true
same_type endpoint endpoint = true
same_type incoming incoming = true
same_type recv_stream recv_stream = true
same_type router router = true
same_type router_builder router_builder = true
same_type send_stream send_stream = true
same_type _ _ = false

pub same_type-eq : (o o' : ObjectType) → same_type o o' ≡ true → o ≡ o'
same_type-eq connection connection h = refl
same_type-eq endpoint endpoint h = refl
same_type-eq incoming incoming h = refl
same_type-eq recv_stream recv_stream h = refl
same_type-eq router router h = refl
same_type-eq router_builder router_builder h = refl
same_type-eq send_stream send_stream h = refl
same_type-eq _ _ h = cc

-- Whether a call is about this object.
abbrev pub hits : ObjectType → ObjectType → ℕ → ℕ → Bool
hits o o' k j = same_type o o' && k == j

pub hits-cases :
    (o o' : ObjectType) (k j : ℕ)
    → ((o ≡ o') × (k ≡ j) × (hits o o' k j ≡ true))
      ⊎ (((o ≡ o') × (k ≢ j) × (hits o o' k j ≡ false))
          ⊎ ((same_type o o' ≡ false) × (hits o o' k j ≡ false)))
hits-cases o o' k j = elim (Bool-cases (same_type o o')) [
  | inl e ↦ elim (Bool-cases (k == j)) [
    | inl f ↦ inl (same_type-eq o o' e, (==_iff k j).0 f, ground arith)
    | inr f ↦ inr (inl (same_type-eq o o' e, ground arith, ground arith))
  ]
  | inr e ↦ inr (inr (e, ground arith))
]

abbrev pub one_if : Bool → ℕ
one_if true = 1
one_if false = 0

module _ (g : Glue) where
  pub incremented :
      (o : ObjectType) (k : ℕ) (s : State g)
      → table_of g o (increment_strong_count o k s)
        ≡ g.pools.increment (Object g o) k (table_of g o s)
  unfolding increment_strong_count
  incremented connection k s = refl
  incremented endpoint k s = refl
  incremented incoming k s = refl
  incremented recv_stream k s = refl
  incremented router k s = refl
  incremented router_builder k s = refl
  incremented send_stream k s = refl

  pub incremented_other :
      (o o' : ObjectType) (k : ℕ) (s : State g)
      → same_type o o' ≡ false
      → table_of g o (increment_strong_count o' k s) ≡ table_of g o s
  unfolding increment_strong_count
  incremented_other connection connection k s h = cc
  incremented_other endpoint endpoint k s h = cc
  incremented_other incoming incoming k s h = cc
  incremented_other recv_stream recv_stream k s h = cc
  incremented_other router router k s h = cc
  incremented_other router_builder router_builder k s h = cc
  incremented_other send_stream send_stream k s h = cc
  incremented_other _ _ k s h = refl

  pub decremented :
      (o : ObjectType) (k : ℕ) (s : State g)
      → table_of g o (decrement_strong_count o k s)
        ≡ g.pools.decrement (Object g o) k (table_of g o s)
  unfolding decrement_strong_count
  decremented connection k s = refl
  decremented endpoint k s = refl
  decremented incoming k s = refl
  decremented recv_stream k s = refl
  decremented router k s = refl
  decremented router_builder k s = refl
  decremented send_stream k s = refl

  pub decremented_other :
      (o o' : ObjectType) (k : ℕ) (s : State g)
      → same_type o o' ≡ false
      → table_of g o (decrement_strong_count o' k s) ≡ table_of g o s
  unfolding decrement_strong_count
  decremented_other connection connection k s h = cc
  decremented_other endpoint endpoint k s h = cc
  decremented_other incoming incoming k s h = cc
  decremented_other recv_stream recv_stream k s h = cc
  decremented_other router router k s h = cc
  decremented_other router_builder router_builder k s h = cc
  decremented_other send_stream send_stream k s h = cc
  decremented_other _ _ k s h = refl

  pub held_at :
      (o o' : ObjectType) (k j : ℕ) (s : State g)
      → o ≡ o'
      → k ≡ j
      → 0 < references g o' j s
      → 0 < references g o k s
  held_at o o' k j s p q held =
      subst (λ i. 0 < references g o i s) (sym q) (subst (λ r. 0 < references g r j s) (sym p) held)

  -- What a call on an object of the same type is for its table.
  module _ (op : ObjectType → ℕ → State g → State g)
      (f : (A : Type 0) → ℕ → g.pools.Table A → g.pools.Table A)
      (this : (o : ObjectType) (k : ℕ) (s : State g)
        → table_of g o (op o k s) ≡ f (Object g o) k (table_of g o s)) where
    pub references_at :
        (o o' : ObjectType) (k j : ℕ) (s : State g)
        → o ≡ o'
        → references g o k (op o' j s)
          ≡ g.pools.count (Object g o) k (f (Object g o) j (table_of g o s))
    references_at o o' k j s p =
        subst
          (λ r.
            references g o k (op r j s)
            ≡ g.pools.count (Object g o) k (f (Object g o) j (table_of g o s)))
          p (ap (g.pools.count (Object g o) k) (this o j s))

    pub object_at_same :
        (o o' : ObjectType) (k j : ℕ) (s : State g)
        → o ≡ o'
        → object_at g o k (op o' j s)
          ≡ g.pools.find (Object g o) k (f (Object g o) j (table_of g o s))
    object_at_same o o' k j s p =
        subst
          (λ r.
            object_at g o k (op r j s)
            ≡ g.pools.find (Object g o) k (f (Object g o) j (table_of g o s)))
          p (ap (g.pools.find (Object g o) k) (this o j s))

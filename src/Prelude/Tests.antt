-- ===== src/Prelude/Tests.antt =====
-- Boolean tests on the native numbers, the conditional, and families indexed by numbers.
use Prim.Native.Char.{code}
use Prim.Native.Nat.{ℕ, ◌≤◌, ◌<◌, compare, Ordering}
use Prim.Native.String.{String}
use mathlib.Core.Path.{◌≡◌, refl, subst}
use mathlib.Core.Logic.{◌↔◌, ◌⊎◌, inl, inr}
use mathlib.Core.Bool.{Bool, true, false}
use mathlib.Core.Option.{Option, none, some}
use mathlib.Core.List.{List, [], ◌∷◌}
use native.Mathlib.Omega.{arith}

abbrev pub ltb : ℕ → ℕ → Bool
ltb a b = elim (compare a b) [ Ordering.lt ↦ true | _ ↦ false ]

abbrev pub leb : ℕ → ℕ → Bool
leb a b = elim (compare a b) [ Ordering.gt ↦ false | _ ↦ true ]

infix 50 ◌==◌
abbrev pub ◌==◌ : ℕ → ℕ → Bool
a == b = elim (compare a b) [ Ordering.eq ↦ true | _ ↦ false ]

infix 1 if◌then◌else◌
abbrev pub if◌then◌else◌ {ℓ} : {A : Type ℓ} → Bool → A → A → A
if true then x else y = x
if false then x else y = y

pub ltb→lt : (a b : ℕ) → ltb a b ≡ true → a < b
ltb→lt a b h = ground arith

pub lt→ltb : (a b : ℕ) → a < b → ltb a b ≡ true
lt→ltb a b h = ground arith

pub leb→le : (a b : ℕ) → leb a b ≡ true → a ≤ b
leb→le a b h = ground arith

pub ==_iff : (a b : ℕ) → ((a == b) ≡ true) ↔ (a ≡ b)
==_iff a b = ground arith

pub ==_self : (a : ℕ) → (a == a) ≡ true
==_self a = ground arith

-- To split on a computed value and keep the equation.
pub Bool-cases : (b : Bool) → (b ≡ true) ⊎ (b ≡ false)
Bool-cases true = inl refl
Bool-cases false = inr refl

pub Option-cases {ℓ} : {A : Type ℓ} (o : Option A) → (o ≡ none) ⊎ ((a : A) × (o ≡ some a))
Option-cases none = inl refl
Option-cases (some a) = inr (a, refl)

-- A map with number keys, as a function; `update` writes one key.
abbrev pub update {ℓ} : {A : Type ℓ} → (ℕ → A) → ℕ → A → ℕ → A
update f k a j = if k == j then a else f j

-- The code points of a text, which are its bytes where it is ASCII.
-- What holds of two families at each place holds after an update of one or both.
module _ {ℓ κ μ} {A : Type ℓ} {B : Type κ} (P : A → B → Type μ) (f : ℕ → A) (g : ℕ → B) where
  pub update_both :
      (n : ℕ) (a : A) (b : B)
      → P a b
      → ((j : ℕ) → P (f j) (g j))
      → (j : ℕ) → P (update f n a j) (update g n b j)
  update_both n a b new old j = elim (Bool-cases (n == j)) [
    | inl e ↦ rw e new
    | inr e ↦ rw e (old j)
  ]

  pub update_left :
      (n : ℕ) (a : A) → P a (g n) → ((j : ℕ) → P (f j) (g j)) → (j : ℕ) → P (update f n a j) (g j)
  update_left n a new old j = elim (Bool-cases (n == j)) [
    | inl e ↦ rw e (subst (λ k. P a (g k)) ((==_iff n j).0 e) new)
    | inr e ↦ rw e (old j)
  ]

  pub update_right :
      (n : ℕ) (b : B) → P (f n) b → ((j : ℕ) → P (f j) (g j)) → (j : ℕ) → P (f j) (update g n b j)
  update_right n b new old j = elim (Bool-cases (n == j)) [
    | inl e ↦ rw e (subst (λ k. P (f k) b) ((==_iff n j).0 e) new)
    | inr e ↦ rw e (old j)
  ]

abbrev pub codes : String → List ℕ
codes String.[] = []
codes (String.◌∷◌ c s) = code c ∷ codes s

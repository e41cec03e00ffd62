-- ===== src/Prelude/Results.antt =====
-- `anyhow::Result` of the crate. The errors that the crate makes itself are constructors; an error
-- of iroh or of a parser is the text that `anyhow` keeps of it.
use Prim.Native.Nat.{ℕ}
use mathlib.Core.Path.{◌≡◌, refl}
use mathlib.Core.Logic.{◌⊎◌, inl, inr}
use mathlib.Core.Option.{Option, none, some}
use mathlib.Core.List.{List}

-- A Rust `String`: its UTF-8 bytes.
abbrev pub Str : Type 0
Str = List ℕ

-- `wrong_length e g` is "expected e bytes, got g"; `panicked what e` is "what task
-- panicked: e", with the text of a `JoinError`.
pub data Error : Type 0 where
  wrong_length : ℕ → ℕ → Error
  invalid_relay_mode : Error
  already_consumed already_spawned : Error
  panicked : Str → Str → Error
  shutdown_failed foreign : Str → Error

pub data Result {ℓ} (A : Type ℓ) : Type ℓ where
  err : Error → Result A
  ok : A → Result A

infixl 5 ◌>>=◌ ◌>>◌
abbrev pub ◌>>=◌ {ℓ κ} : {A : Type ℓ} {B : Type κ} → Result A → (A → Result B) → Result B
◌>>=◌ (err e) next = err e
◌>>=◌ (ok v) next = next v

abbrev pub ◌>>◌ {ℓ κ} : {A : Type ℓ} {B : Type κ} → Result A → Result B → Result B
first >> second = first >>= λ _. second

-- `ok_or_else`
abbrev pub ok_or {ℓ} : {A : Type ℓ} → Option A → Error → Result A
ok_or none e = err e
ok_or (some a) e = ok a

-- `Result::ok`
abbrev pub to_option {ℓ} : {A : Type ℓ} → Result A → Option A
to_option (ok a) = some a
to_option (err e) = none

pub Result-cases {ℓ} :
    {A : Type ℓ} (r : Result A) → ((a : A) × (r ≡ ok a)) ⊎ ((e : Error) × (r ≡ err e))
Result-cases (ok a) = inl (a, refl)
Result-cases (err e) = inr (e, refl)

-- A chain that succeeds has a first step that succeeds.
pub >>=-eq-ok {ℓ κ} :
    {A : Type ℓ} {B : Type κ} (r : Result A) (next : A → Result B) {out : B}
    → (r >>= next) ≡ ok out
    → (v : A) × (r ≡ ok v) × (next v ≡ ok out)
>>=-eq-ok (err e) next failed = cc
>>=-eq-ok (ok v) next done = (v, refl, done)

pub >>=-assoc {ℓ κ μ} :
    {A : Type ℓ} {B : Type κ} {C : Type μ} (m : Result A) (f : A → Result B) (g : B → Result C)
    → ((m >>= f) >>= g) ≡ (m >>= λ a. f a >>= g)
>>=-assoc (ok a) f g = refl
>>=-assoc (err e) f g = refl

pub ok-injective : {A : Type 0} (a b : A) → ok a ≡ ok b → a ≡ b
ok-injective a b h = cc

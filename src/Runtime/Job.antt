-- ===== src/Runtime/Job.antt =====
-- The pattern `rt().spawn(async move { .. }).await.map_err(.. panicked ..)??` of the async calls:
-- the body runs on the runtime over the world outside the crate, and a panic of the body comes back
-- as a `JoinError`, which the call turns into an error.
use iroh_dart.Prelude.{◌≡◌, refl, Str, Error, panicked, Result, ok, err}

pub data Outcome (A : Type 0) : Type 0 where
  panics : Str → Outcome A
  fails : Error → Outcome A
  returns : A → Outcome A

abbrev pub Job : Type 0 → Type 0 → Type 0
Job W A = W → Outcome A × W

module _ {W A B : Type 0} where
  abbrev pub proceed : Outcome A → (A → Job W B) → Job W B
  proceed (panics p) k w = (panics p, w)
  proceed (fails e) k w = (fails e, w)
  proceed (returns a) k w = k a w

  -- `.await?` inside a body.
  infixl 5 ◌>>=◌
  abbrev pub ◌>>=◌ : Job W A → (A → Job W B) → Job W B
  ◌>>=◌ job k w = let (o, w') = job w in proceed o k w'

abbrev pub pure : {W A : Type 0} → A → Job W A
pure a w = (returns a, w)

-- What the caller makes of the join handle. Each call says in the error of a panic which task it
-- was: `what`.
abbrev pub join : {A : Type 0} → Str → Outcome A → Result A
join what (panics p) = err (panicked what p)
join what (fails e) = err e
join what (returns a) = ok a

abbrev pub spawn : {W A : Type 0} → Str → Job W A → W → Result A × W
spawn what job w = let (o, w') = job w in (join what o, w')

proceed-returns :
    {W A B : Type 0} (what : Str) (o : Outcome A) (k : A → Job W B) (w : W) (b : B)
    → (spawn what (λ v. proceed o k v) w).0 ≡ ok b
    → (a : A) × (o ≡ returns a) × ((spawn what (k a) w).0 ≡ ok b)
proceed-returns what (panics p) k w b h = cc
proceed-returns what (fails e) k w b h = cc
proceed-returns what (returns a) k w b h = (a, refl, h)

-- A body that gives a value went through its first step.
pub spawn-ok :
    {W A B : Type 0} (what : Str) (job : Job W A) (k : A → Job W B) (w : W) (b : B)
    → (spawn what (job >>= k) w).0 ≡ ok b
    → (a : A) × ((job w).0 ≡ returns a) × ((spawn what (k a) (job w).1).0 ≡ ok b)
spawn-ok what job k w b h = proceed-returns what (job w).0 k (job w).1 b h

pub join-ok : {A : Type 0} (what : Str) (o : Outcome A) (a : A) → join what o ≡ ok a → o ≡ returns a
join-ok what (panics p) a h = cc
join-ok what (fails e) a h = cc
join-ok what (returns b) a h = cc

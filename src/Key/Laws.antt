-- ===== src/Key/Laws.antt =====
-- Keys and signatures: lengths, text forms and verification.
use iroh_dart.Prelude.{
  ℕ, ◌≡◌, ◌≢◌, inl, inr, true, List, Error, wrong_length, ok, err, ◌>>=◌, length, arith, ap,
  >>=-eq-ok, ◌⊎◌, Str, ◌↔◌,
}
use iroh_dart.Iroh.{IrohBase, KeyLaws}
use iroh_dart.Key.{
  to_arr32, to_arr64, secret_key_generate, secret_key_public, secret_key_sign, public_key_check,
  public_key_verify, public_key_to_z32, public_key_from_z32, public_key_to_hex, public_key_from_hex,
  public_key_fmt_short,
}

-- The array conversion succeeds on 32 bytes only, and keeps them.
pub to_arr32-ok : (bytes : List ℕ) → length bytes ≡ 32 → to_arr32 bytes ≡ ok bytes
unfolding to_arr32
to_arr32-ok bytes h = ground arith

pub to_arr64-ok : (bytes : List ℕ) → length bytes ≡ 64 → to_arr64 bytes ≡ ok bytes
unfolding to_arr64
to_arr64-ok bytes h = ground arith

pub to_arr32-err :
    (bytes : List ℕ) → length bytes ≢ 32 → to_arr32 bytes ≡ err (wrong_length 32 (length bytes))
unfolding to_arr32
to_arr32-err bytes h = ground arith

pub to_arr64-err :
    (bytes : List ℕ) → length bytes ≢ 64 → to_arr64 bytes ≡ err (wrong_length 64 (length bytes))
unfolding to_arr64
to_arr64-err bytes h = ground arith

pub to_arr32-eq-ok :
    (bytes arr : List ℕ) → to_arr32 bytes ≡ ok arr → (length bytes ≡ 32) × (arr ≡ bytes)
unfolding to_arr32
to_arr32-eq-ok bytes arr h = ground arith

module _ (b : IrohBase) where
  -- What a successful `public_key_check` has established.
  pub public_key_check-eq-ok :
      (bytes : List ℕ)
      → public_key_check b bytes ≡ ok tt
      → (pk : b.PublicKey) × (to_arr32 bytes ≡ ok bytes) × (b.public_from_bytes bytes ≡ ok pk)
  unfolding public_key_check
  public_key_check-eq-ok bytes h =
      let (arr, e, h') = >>=-eq-ok (to_arr32 bytes) _ h in
      let (pk, f, _) = >>=-eq-ok (b.public_from_bytes arr) _ h' in
      let same : arr ≡ bytes = (to_arr32-eq-ok bytes arr e).1 in (pk, rw same at e, rw same at f)

module _ (b : IrohBase) (laws : KeyLaws b) where
  -- If iroh's keys keep `KeyLaws`: with a 32-byte secret key, the three calls that derive its
  -- public key, sign a message, and verify the signature under that key all succeed, with `true`.
  pub verify-sign :
      (secret msg : List ℕ)
      → length secret ≡ 32
      → (do
        pk ← secret_key_public b secret
        sig ← secret_key_sign b secret msg
        public_key_verify b pk msg sig)
        ≡ ok true
  unfolding secret_key_public secret_key_sign public_key_verify
  verify-sign secret msg h =
      let k : b.SecretKey = b.secret_from_bytes secret in
      rw (
        to_arr32-ok secret h,
        to_arr32-ok (b.public_as_bytes (b.public k)) (laws.length-public (b.public k)),
        laws.public_from_as (b.public k),
        to_arr64-ok (b.signature_to_bytes (b.sign k msg)) (laws.length-signature (b.sign k msg)),
        laws.signature_from_to (b.sign k msg),
        laws.verify-sign k msg,
      )

  -- If iroh's keys keep `KeyLaws`: a generated secret key has 32 bytes, and its public key is that
  -- of the key that was drawn.
  pub public-generate :
      (drawn : b.SecretKey)
      → (length (secret_key_generate b drawn) ≡ 32)
        × (secret_key_public b (secret_key_generate b drawn)
            ≡ ok (b.public_as_bytes (b.public drawn)))
  unfolding secret_key_generate secret_key_public
  public-generate drawn = (
    laws.length-secret drawn,
    rw (
      to_arr32-ok (b.secret_to_bytes drawn) (laws.length-secret drawn),
      laws.secret_from_to drawn,
    ),
  )

  -- If iroh's keys keep `KeyLaws`: of a key that `public_key_check` accepts, the z-base-32 form and
  -- the hex form decode to the key's bytes.
  pub from_text-to_text :
      (bytes : List ℕ)
      → public_key_check b bytes ≡ ok tt
      → ((public_key_to_z32 b bytes >>= public_key_from_z32 b) ≡ ok bytes)
        × ((public_key_to_hex b bytes >>= public_key_from_hex b) ≡ ok bytes)
  unfolding public_key_to_z32 public_key_from_z32 public_key_to_hex public_key_from_hex
  from_text-to_text bytes h =
      let (pk, e, f) = public_key_check-eq-ok b bytes h in
      let same : b.public_as_bytes pk ≡ bytes = laws.public_as_from bytes pk f in
      (rw (e, f, laws.from_to_z32 pk) (ap ok same), rw (e, f, laws.from_to_string pk) (ap ok same))

  check_as_bytes :
      (pk : b.PublicKey) (bytes : List ℕ)
      → ok (b.public_as_bytes pk) ≡ ok bytes
      → public_key_check b bytes ≡ ok tt
  unfolding public_key_check
  check_as_bytes pk bytes e =
      let same : b.public_as_bytes pk ≡ bytes = ground arith in
      rw
        (← same, to_arr32-ok (b.public_as_bytes pk) (laws.length-public pk), laws.public_from_as pk)

  -- If iroh's keys keep `KeyLaws`: a key that is decoded from either text form passes
  -- `public_key_check`.
  pub check-from_text :
      (text : Str) (bytes : List ℕ)
      → (public_key_from_z32 b text ≡ ok bytes) ⊎ (public_key_from_hex b text ≡ ok bytes)
      → public_key_check b bytes ≡ ok tt
  unfolding public_key_from_z32 public_key_from_hex
  check-from_text text bytes (inl h) =
      let (pk, _, e) = >>=-eq-ok (b.from_z32 text) _ h in check_as_bytes pk bytes e
  check-from_text text bytes (inr h) =
      let (pk, _, e) = >>=-eq-ok (b.public_from_str text) _ h in check_as_bytes pk bytes e

-- Where `public_key_check` fails, each function of a public key fails with the same error.
pub public_key_check_fails :
    (b : IrohBase) (bytes msg signature : List ℕ) (e : Error)
    → public_key_check b bytes ≡ err e
    → (public_key_verify b bytes msg signature ≡ err e)
      × (public_key_to_z32 b bytes ≡ err e)
      × (public_key_to_hex b bytes ≡ err e)
      × (public_key_fmt_short b bytes ≡ err e)
unfolding public_key_check public_key_verify public_key_to_z32 public_key_to_hex
    public_key_fmt_short
public_key_check_fails b bytes msg signature e h = ground arith

-- With a valid key, `public_key_verify` fails exactly where the signature has not 64 bytes, and
-- then says so.
pub public_key_verify-length :
    (b : IrohBase) (bytes msg signature : List ℕ) (e : Error)
    → public_key_check b bytes ≡ ok tt
    → (public_key_verify b bytes msg signature ≡ err e)
      ↔ ((length signature ≢ 64) × (e ≡ wrong_length 64 (length signature)))
unfolding public_key_verify public_key_check to_arr64
public_key_verify-length b bytes msg signature e h = (λ f. ground arith, λ f. ground arith)

-- The functions of a secret key fail exactly where it has not 32 bytes, and then say so.
pub secret_key_length :
    (b : IrohBase) (secret msg : List ℕ) (e : Error)
    → ((secret_key_public b secret ≡ err e)
        ↔ ((length secret ≢ 32) × (e ≡ wrong_length 32 (length secret))))
      × ((secret_key_sign b secret msg ≡ err e)
          ↔ ((length secret ≢ 32) × (e ≡ wrong_length 32 (length secret))))
unfolding secret_key_public secret_key_sign to_arr32
secret_key_length b secret msg e =
    ((λ f. ground arith, λ f. ground arith), (λ f. ground arith, λ f. ground arith))

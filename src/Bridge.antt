-- ===== src/Bridge.antt =====
-- The synchronous calls of packages/iroh_quic/rust/src/frb_generated.rs on plain values: a message
-- from Dart is decoded, the function of the API is called, and its result is encoded. `none` is a
-- panic. What is done with a result, an error or a panic is the bridge library's.
pub mod Laws
pub mod Dispatch
pub mod Callbacks
pub mod Sinks
pub mod Handles
pub mod Dco
pub mod Tests
use iroh_dart.Prelude.{
  ℕ, Option, none, some, List, [], ◌++◌, Bool, Str, Result, ok, err, if◌then◌else◌,
}
use iroh_dart.Iroh.{IrohBase}
use iroh_dart.Key.{
  EndpointAddrParts, secret_key_generate, secret_key_public, secret_key_sign, public_key_check,
  public_key_verify, public_key_to_z32, public_key_from_z32, public_key_to_hex, public_key_from_hex,
  public_key_fmt_short, relay_url_parse, endpoint_addr_round_trip, endpoint_addr_encode,
  endpoint_addr_decode,
}
use iroh_dart.Runtime as Runtime
use iroh_dart.Runtime.{World, abort_stream}
use iroh_dart.Wire.{Cursor, Decoder, ◌>>=◌, pure}
use iroh_dart.Wire.Scalars.{
  decode_u64, decode_bytes, decode_string, encode_u32, encode_bool, encode_bytes, encode_string,
}
use iroh_dart.Wire.Values.{decode_parts, encode_parts}

-- packages/iroh_quic/rust/src/api/simple.rs
abbrev pub irohdart_abi_version : ℕ
irohdart_abi_version = 3

-- The arguments are decoded and then `deserializer.end()` must accept the bytes that are left.
pub with_args : {A B : Type 0} → (List ℕ → Bool) → Decoder A → (A → B) → List ℕ → Option B
with_args ends decode run message = elim (decode message) [
  | none ↦ none
  | some (args, rest) ↦ if ends rest then some (run args) else none
]

abbrev pub encoded : {A : Type 0} → (A → List ℕ) → Result A → Result (List ℕ)
encoded encode (err e) = err e
encoded encode (ok a) = ok (encode a)

abbrev pub encode_unit : Unit {0} → List ℕ
encode_unit _ = []

abbrev pub nothing : Decoder (Unit {0})
unfolding pure
nothing = pure tt

module _ (c : Cursor) where
  pub decode_sign_args : Decoder (List ℕ × List ℕ)
  decode_sign_args = do secret ← decode_bytes c; msg ← decode_bytes c; pure (secret, msg)

  pub decode_verify_args : Decoder (List ℕ × List ℕ × List ℕ)
  decode_verify_args = do
    public ← decode_bytes c
    msg ← decode_bytes c
    signature ← decode_bytes c
    pure (public, msg, signature)

module _ (b : IrohBase) (c : Cursor) (ends : List ℕ → Bool) where
  abbrev Wire : Type 0
  Wire = List ℕ → Option (Result (List ℕ))

  pub wire_secret_key_generate : b.SecretKey → Wire
  wire_secret_key_generate drawn =
      with_args ends nothing (λ _. ok (encode_bytes c (secret_key_generate b drawn)))

  pub wire_secret_key_public : Wire
  wire_secret_key_public =
      with_args ends (decode_bytes c)
        (λ secret. encoded (encode_bytes c) (secret_key_public b secret))

  pub wire_secret_key_sign : Wire
  wire_secret_key_sign =
      with_args ends (decode_sign_args c)
        (λ args. encoded (encode_bytes c) (secret_key_sign b args.0 args.1))

  pub wire_public_key_check : Wire
  wire_public_key_check =
      with_args ends (decode_bytes c) (λ public. encoded encode_unit (public_key_check b public))

  pub wire_public_key_verify : Wire
  wire_public_key_verify =
      with_args ends (decode_verify_args c)
        (λ args. encoded (encode_bool c) (public_key_verify b args.0 args.1 args.2))

  pub wire_public_key_to_z32 : Wire
  wire_public_key_to_z32 =
      with_args ends (decode_bytes c)
        (λ public. encoded (encode_string c) (public_key_to_z32 b public))

  pub wire_public_key_from_z32 : Wire
  wire_public_key_from_z32 =
      with_args ends (decode_string c) (λ z32. encoded (encode_bytes c) (public_key_from_z32 b z32))

  pub wire_public_key_to_hex : Wire
  wire_public_key_to_hex =
      with_args ends (decode_bytes c)
        (λ public. encoded (encode_string c) (public_key_to_hex b public))

  pub wire_public_key_from_hex : Wire
  wire_public_key_from_hex =
      with_args ends (decode_string c) (λ hex. encoded (encode_bytes c) (public_key_from_hex b hex))

  pub wire_public_key_fmt_short : Wire
  wire_public_key_fmt_short =
      with_args ends (decode_bytes c)
        (λ public. encoded (encode_string c) (public_key_fmt_short b public))

  pub wire_relay_url_parse : Wire
  wire_relay_url_parse =
      with_args ends (decode_string c) (λ url. encoded (encode_string c) (relay_url_parse b url))

  pub wire_endpoint_addr_round_trip : Wire
  wire_endpoint_addr_round_trip =
      with_args ends (decode_parts c)
        (λ parts. encoded (encode_parts c) (endpoint_addr_round_trip b parts))

  pub wire_endpoint_addr_encode : Wire
  wire_endpoint_addr_encode =
      with_args ends (decode_parts c)
        (λ parts. encoded (encode_bytes c) (endpoint_addr_encode b parts))

  pub wire_endpoint_addr_decode : Wire
  wire_endpoint_addr_decode =
      with_args ends (decode_bytes c)
        (λ bytes. encoded (encode_parts c) (endpoint_addr_decode b bytes))

  pub wire_irohdart_abi_version : Wire
  wire_irohdart_abi_version = with_args ends nothing (λ _. ok (encode_u32 c irohdart_abi_version))

  -- The argument is the value of `IROH_CRATE_VERSION` at build time.
  pub wire_irohdart_iroh_version : Str → Wire
  wire_irohdart_iroh_version version = with_args ends nothing (λ _. ok (encode_string c version))

-- `cancel_stream` of packages/iroh_quic/rust/src/api/watch.rs is a call of `abort_stream`.
module _ (c : Cursor) (ends : List ℕ → Bool) where
  pub wire_cancel_stream : List ℕ → World → Option (List ℕ × World)
  wire_cancel_stream message w =
      with_args ends (decode_u64 c) (λ token. ([], abort_stream token w)) message

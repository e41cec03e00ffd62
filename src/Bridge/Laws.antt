-- ===== src/Bridge/Laws.antt =====
-- A call from Dart reaches its function with the arguments that were sent.
use iroh_dart.Prelude.{
  ℕ, ◌≡◌, refl, sym, ap, ◌∙◌, append-nil, Bool, true, List, [], ◌++◌, some, Str, ok,
}
use iroh_dart.Iroh.{IrohBase}
use iroh_dart.Key.{
  EndpointAddrParts, secret_key_sign, public_key_verify, secret_key_public, public_key_check,
  public_key_to_z32, public_key_to_hex, public_key_fmt_short, endpoint_addr_decode,
  public_key_from_z32, public_key_from_hex, relay_url_parse, endpoint_addr_round_trip,
  endpoint_addr_encode,
}
use iroh_dart.Runtime.{World, abort_stream}
use iroh_dart.Wire.{Cursor, CursorLaws, Decoder, pure}
use iroh_dart.Wire.Reads.{Reads, Reads-then, Reads-last, IsBytes, IsStr}
use iroh_dart.Wire.Scalars.{encode_u32, encode_bytes, encode_bool, encode_u64, encode_string}
use iroh_dart.Wire.Scalars.Laws.{decode_bytes-encode, decode_u64-encode, decode_string-encode}
use iroh_dart.Wire.Values.{encode_parts}
use iroh_dart.Wire.Values.Laws.{IsParts, IsU64, decode_parts-encode}
use iroh_dart.Bridge.{
  with_args, encoded, decode_sign_args, decode_verify_args, wire_secret_key_sign,
  wire_public_key_verify, encode_unit, wire_secret_key_public, wire_public_key_check,
  wire_public_key_to_z32, wire_public_key_to_hex, wire_public_key_fmt_short,
  wire_endpoint_addr_decode, wire_public_key_from_z32, wire_public_key_from_hex,
  wire_relay_url_parse, wire_endpoint_addr_round_trip, wire_endpoint_addr_encode,
  wire_cancel_stream, wire_irohdart_iroh_version, wire_irohdart_abi_version, irohdart_abi_version,
}

-- A message that is the arguments and nothing else is answered by the call.
pub with_args-Reads :
    {A B : Type 0} (ends : List ℕ → Bool) (decode : Decoder A) (run : A → B) (message : List ℕ)
    (args : A)
    → ends [] ≡ true
    → Reads decode message args
    → with_args ends decode run message ≡ some (run args)
unfolding with_args
with_args-Reads ends decode run message args e r =
    let whole : decode message ≡ some (args, []) = ap decode (sym (append-nil message)) ∙ r.at [] in
    rw (whole, e, with_args)

module _ (b : IrohBase) (c : Cursor) (ends : List ℕ → Bool) (laws : CursorLaws c) where
  sign_args-Reads :
      (secret msg : List ℕ)
      → IsBytes secret
      → IsBytes msg
      → Reads (decode_sign_args c) (encode_bytes c secret ++ encode_bytes c msg) (secret, msg)
  unfolding decode_sign_args
  sign_args-Reads secret msg s m =
      Reads-then _ _ _ _ secret (secret, msg) (decode_bytes-encode c laws secret s)
        (Reads-last _ _ _ msg (secret, msg) (decode_bytes-encode c laws msg m) refl)

  verify_args-Reads :
      (public msg signature : List ℕ)
      → IsBytes public
      → IsBytes msg
      → IsBytes signature
      → Reads
          (decode_verify_args c)
          (encode_bytes c public ++ (encode_bytes c msg ++ encode_bytes c signature))
          (public, msg, signature)
  unfolding decode_verify_args
  verify_args-Reads public msg signature p m s =
      Reads-then _ _ _ _ public (public, msg, signature) (decode_bytes-encode c laws public p)
        (Reads-then _ _ _ _ msg (public, msg, signature) (decode_bytes-encode c laws msg m)
          (Reads-last _ _ _ signature (public, msg, signature)
            (decode_bytes-encode c laws signature s) refl))

  -- If the cursor keeps `CursorLaws` and `end` accepts that nothing is left: for lists of fewer
  -- than 2^31 bytes, the signing call from Dart answers what `secret_key_sign` gives on these
  -- arguments, and the verifying call what `public_key_verify` gives, errors included.
  pub wire_sign-verify_lem :
      (secret public msg signature : List ℕ)
      → ends [] ≡ true
      → IsBytes secret
      → IsBytes public
      → IsBytes msg
      → IsBytes signature
      → (wire_secret_key_sign b c ends (encode_bytes c secret ++ encode_bytes c msg)
          ≡ some (encoded (encode_bytes c) (secret_key_sign b secret msg)))
        × (wire_public_key_verify b c ends
              (encode_bytes c public ++ (encode_bytes c msg ++ encode_bytes c signature))
            ≡ some (encoded (encode_bool c) (public_key_verify b public msg signature)))
  unfolding wire_secret_key_sign wire_public_key_verify
  wire_sign-verify_lem secret public msg signature e hs hp hm hg = (
    with_args-Reads ends _ _ _ (secret, msg) e (sign_args-Reads secret msg hs hm),
    with_args-Reads ends _ _ _ (public, msg, signature) e
        (verify_args-Reads public msg signature hp hm hg),
  )

  -- If the cursor keeps `CursorLaws` and `end` accepts that nothing is left: each call from Dart of
  -- a function of one argument on keys and addresses answers what this function gives on the
  -- argument that was sent, errors included, if this is a list of fewer than 2^31 bytes, or a UTF-8
  -- text of fewer than 2^31 bytes, or parts made of such, with fewer than 2^31 texts in each list.
  pub wire_key_calls :
      (bytes : List ℕ) (text : Str) (parts : EndpointAddrParts)
      → ends [] ≡ true
      → IsBytes bytes
      → IsStr text
      → IsParts parts
      → (wire_secret_key_public b c ends (encode_bytes c bytes)
          ≡ some (encoded (encode_bytes c) (secret_key_public b bytes)))
        × (wire_public_key_check b c ends (encode_bytes c bytes)
            ≡ some (encoded encode_unit (public_key_check b bytes)))
        × (wire_public_key_to_z32 b c ends (encode_bytes c bytes)
            ≡ some (encoded (encode_string c) (public_key_to_z32 b bytes)))
        × (wire_public_key_to_hex b c ends (encode_bytes c bytes)
            ≡ some (encoded (encode_string c) (public_key_to_hex b bytes)))
        × (wire_public_key_fmt_short b c ends (encode_bytes c bytes)
            ≡ some (encoded (encode_string c) (public_key_fmt_short b bytes)))
        × (wire_endpoint_addr_decode b c ends (encode_bytes c bytes)
            ≡ some (encoded (encode_parts c) (endpoint_addr_decode b bytes)))
        × (wire_public_key_from_z32 b c ends (encode_string c text)
            ≡ some (encoded (encode_bytes c) (public_key_from_z32 b text)))
        × (wire_public_key_from_hex b c ends (encode_string c text)
            ≡ some (encoded (encode_bytes c) (public_key_from_hex b text)))
        × (wire_relay_url_parse b c ends (encode_string c text)
            ≡ some (encoded (encode_string c) (relay_url_parse b text)))
        × (wire_endpoint_addr_round_trip b c ends (encode_parts c parts)
            ≡ some (encoded (encode_parts c) (endpoint_addr_round_trip b parts)))
        × (wire_endpoint_addr_encode b c ends (encode_parts c parts)
            ≡ some (encoded (encode_bytes c) (endpoint_addr_encode b parts)))
  unfolding wire_secret_key_public wire_public_key_check wire_public_key_to_z32
      wire_public_key_to_hex wire_public_key_fmt_short wire_endpoint_addr_decode
      wire_public_key_from_z32 wire_public_key_from_hex wire_relay_url_parse
      wire_endpoint_addr_round_trip wire_endpoint_addr_encode
  wire_key_calls bytes text parts e hb ht hp =
      let on_bytes = decode_bytes-encode c laws bytes hb in
      let on_text = decode_string-encode c laws text ht in
      let on_parts = decode_parts-encode c laws parts hp in
      (
        with_args-Reads ends _ _ _ bytes e on_bytes,
        with_args-Reads ends _ _ _ bytes e on_bytes,
        with_args-Reads ends _ _ _ bytes e on_bytes,
        with_args-Reads ends _ _ _ bytes e on_bytes,
        with_args-Reads ends _ _ _ bytes e on_bytes,
        with_args-Reads ends _ _ _ bytes e on_bytes,
        with_args-Reads ends _ _ _ text e on_text,
        with_args-Reads ends _ _ _ text e on_text,
        with_args-Reads ends _ _ _ text e on_text,
        with_args-Reads ends _ _ _ parts e on_parts,
        with_args-Reads ends _ _ _ parts e on_parts,
      )

module _ (c : Cursor) (ends : List ℕ → Bool) (laws : CursorLaws c) where
  -- If the cursor keeps `CursorLaws` and `end` accepts that nothing is left: the cancelling call
  -- from Dart with a 64-bit token does what `abort_stream` does with it.
  pub wire_cancel_stream_lem :
      (token : ℕ) (w : World)
      → ends [] ≡ true
      → IsU64 token
      → wire_cancel_stream c ends (encode_u64 c token) w ≡ some ([], abort_stream token w)
  unfolding wire_cancel_stream
  wire_cancel_stream_lem token w e h =
      with_args-Reads ends _ _ _ token e (decode_u64-encode c laws token h)

module _ (c : Cursor) (ends : List ℕ → Bool) where
  -- The version is sent as it is.
  pub wire_irohdart_abi_version_lem :
      (b : IrohBase)
      → ends [] ≡ true
      → wire_irohdart_abi_version b c ends [] ≡ some (ok (encode_u32 c irohdart_abi_version))
  unfolding wire_irohdart_abi_version with_args pure
  wire_irohdart_abi_version_lem b e = rw e refl

  pub wire_irohdart_iroh_version_lem :
      (b : IrohBase) (version : Str)
      → ends [] ≡ true
      → wire_irohdart_iroh_version b c ends version [] ≡ some (ok (encode_string c version))
  unfolding wire_irohdart_iroh_version with_args pure
  wire_irohdart_iroh_version_lem b version e = rw e refl

-- ===== src/Bridge/Handles/Endpoints/Laws.antt =====
-- The arguments of a bind and of a connect, as Dart writes them.
use iroh_dart.Prelude.{AllOption, ℕ, refl, List, All, ◌++◌}
use iroh_dart.Prelude.Int.{IsI32}
use iroh_dart.Key.{EndpointAddrParts}
use iroh_dart.Wire.{Cursor, CursorLaws}
use iroh_dart.Wire.Reads.{Reads, IsBytes, IsCount, Reads-then, Reads-last}
use iroh_dart.Wire.Scalars.{encode_bytes, encode_i32}
use iroh_dart.Wire.Scalars.Laws.{decode_bytes-encode, decode_i32-encode}
use iroh_dart.Wire.Values.{encode_opt_bytes, encode_byte_lists, encode_strings, encode_parts}
use iroh_dart.Wire.Values.Laws.{
  IsStrs, IsParts, decode_opt_bytes-encode, decode_byte_lists-encode, decode_strings-encode,
  decode_parts-encode,
}
use iroh_dart.Bridge.Handles.Endpoints.{BindArgs, decode_bind_args, decode_connect_args}

-- What the codec carries.
pub record IsBindArgs (args : BindArgs) : Type 0 where
  pub secret_key : AllOption IsBytes args.secret_key
  pub count : IsCount args.alpns
  pub alpns : All IsBytes args.alpns
  pub relay_mode_kind : IsI32 args.relay_mode_kind
  pub custom_relay_urls : IsStrs args.custom_relay_urls

module _ (c : Cursor) where
  abbrev pub bind_message : BindArgs → List ℕ
  bind_message args =
      encode_opt_bytes c args.secret_key
      ++ (encode_byte_lists c args.alpns
          ++ (encode_i32 c args.relay_mode_kind ++ encode_strings c args.custom_relay_urls))

  abbrev pub connect_message : EndpointAddrParts → List ℕ → List ℕ
  connect_message addr alpn = encode_parts c addr ++ encode_bytes c alpn

module _ (c : Cursor) (laws : CursorLaws c) where
  pub decode_bind_args-Reads :
      (args : BindArgs) → IsBindArgs args → Reads (decode_bind_args c) (bind_message c args) args
  unfolding decode_bind_args
  decode_bind_args-Reads args h =
      Reads-then _ _ _ _ args.secret_key args
        (decode_opt_bytes-encode c laws args.secret_key h.secret_key)
        (Reads-then _ _ _ _ args.alpns args
          (decode_byte_lists-encode c laws args.alpns h.count h.alpns)
          (Reads-then _ _ _ _ args.relay_mode_kind args
            (decode_i32-encode c laws args.relay_mode_kind h.relay_mode_kind)
            (Reads-last _ _ _ args.custom_relay_urls args
              (decode_strings-encode c laws args.custom_relay_urls h.custom_relay_urls) refl)))

  pub decode_connect_args-Reads :
      (addr : EndpointAddrParts) (alpn : List ℕ)
      → IsParts addr
      → IsBytes alpn
      → Reads (decode_connect_args c) (connect_message c addr alpn) (addr, alpn)
  unfolding decode_connect_args
  decode_connect_args-Reads addr alpn h k =
      Reads-then _ _ _ _ addr _ (decode_parts-encode c laws addr h)
        (Reads-last _ _ _ alpn _ (decode_bytes-encode c laws alpn k) refl)

-- ===== src/Bridge/Tests.antt =====
-- Calls of the bridge on a little-endian platform, with the small keys.
use iroh_dart.Prelude.{
  ℕ, ◌+◌, ◌≡◌, refl, ◌↔◌, Bool, true, false, List, [], ◌∷◌, ◌++◌, some, replicate, codes, arith,
}
use iroh_dart.Iroh.Toy.{toy}
use iroh_dart.Key.{
  EndpointAddrParts, secret_key_sign, public_key_verify, secret_key_public, public_key_check,
  public_key_to_z32, public_key_to_hex, public_key_fmt_short, endpoint_addr_decode,
  public_key_from_z32, public_key_from_hex, relay_url_parse, endpoint_addr_round_trip,
  endpoint_addr_encode,
}
use iroh_dart.Wire.LittleEndian.{little_endian, little_endian-CursorLaws}
use iroh_dart.Wire.Scalars.{is_utf8, encode_bytes, encode_bool}
use iroh_dart.Wire.Values.{encode_parts}
use iroh_dart.Runtime.Job.{panics, returns}
use iroh_dart.Connection.Tests.{small}
use iroh_dart.Endpoint.Tests.{binding}
use iroh_dart.Endpoint.Lookup.{resolve}
use iroh_dart.Iroh.Toy.{home}
use iroh_dart.Wire.Scalars.{encode_u8, encode_string}
use iroh_dart.Wire.Values.{encode_opt_parts}
use iroh_dart.Bridge.Callbacks.{resolve_callback}
use iroh_dart.Bridge.Callbacks.Laws.{resolve-returned, resolve-thrown}
use iroh_dart.Bridge.{
  encoded, wire_secret_key_sign, wire_public_key_verify, wire_secret_key_public,
  wire_public_key_check, wire_public_key_to_z32, wire_public_key_to_hex, wire_public_key_fmt_short,
  wire_endpoint_addr_decode, wire_public_key_from_z32, wire_public_key_from_hex,
  wire_relay_url_parse, wire_endpoint_addr_round_trip, wire_endpoint_addr_encode, encode_unit,
}
use iroh_dart.Bridge.Laws.{wire_sign-verify_lem, wire_key_calls}
use iroh_dart.Bridge.Dispatch.{Api, pde_ffi_dispatcher_primary, pde_ffi_dispatcher_sync}
use iroh_dart.Bridge.Dispatch.Dart.{func_id, has_port}
use iroh_dart.Bridge.Dispatch.Laws.{dispatch-func_id}

-- `end` wants that nothing is left.
abbrev is_empty : List ℕ → Bool
is_empty [] = true
is_empty (n ∷ ns) = false

abbrev secret : List ℕ
secret = replicate 32 7

abbrev msg : List ℕ
msg = 1 ∷ 2 ∷ []

abbrev public : List ℕ
public = toy.public_as_bytes 8

abbrev signature : List ℕ
signature = toy.signature_to_bytes 9

wire_sign-verify_lem_example :
    (wire_secret_key_sign toy little_endian is_empty
        (encode_bytes little_endian secret ++ encode_bytes little_endian msg)
      ≡ some (encoded (encode_bytes little_endian) (secret_key_sign toy secret msg)))
    × (wire_public_key_verify toy little_endian is_empty (
          encode_bytes little_endian public
          ++ (encode_bytes little_endian msg ++ encode_bytes little_endian signature))
        ≡ some (encoded (encode_bool little_endian) (public_key_verify toy public msg signature)))
wire_sign-verify_lem_example =
    wire_sign-verify_lem toy little_endian is_empty little_endian-CursorLaws secret public msg
      signature refl (ground arith) (ground arith) (ground arith) (ground arith)

abbrev parts : EndpointAddrParts
parts = record { id = public; relay_urls = codes "h" ∷ []; ip_addrs = [] }

abbrev oops : List ℕ
oops = codes "oops"

wire_key_calls_example :
    (wire_secret_key_public toy little_endian is_empty (encode_bytes little_endian public)
      ≡ some (encoded (encode_bytes little_endian) (secret_key_public toy public)))
    × (wire_public_key_check toy little_endian is_empty (encode_bytes little_endian public)
        ≡ some (encoded encode_unit (public_key_check toy public)))
    × (wire_public_key_to_z32 toy little_endian is_empty (encode_bytes little_endian public)
        ≡ some (encoded (encode_string little_endian) (public_key_to_z32 toy public)))
    × (wire_public_key_to_hex toy little_endian is_empty (encode_bytes little_endian public)
        ≡ some (encoded (encode_string little_endian) (public_key_to_hex toy public)))
    × (wire_public_key_fmt_short toy little_endian is_empty (encode_bytes little_endian public)
        ≡ some (encoded (encode_string little_endian) (public_key_fmt_short toy public)))
    × (wire_endpoint_addr_decode toy little_endian is_empty (encode_bytes little_endian public)
        ≡ some (encoded (encode_parts little_endian) (endpoint_addr_decode toy public)))
    × (wire_public_key_from_z32 toy little_endian is_empty (encode_string little_endian oops)
        ≡ some (encoded (encode_bytes little_endian) (public_key_from_z32 toy oops)))
    × (wire_public_key_from_hex toy little_endian is_empty (encode_string little_endian oops)
        ≡ some (encoded (encode_bytes little_endian) (public_key_from_hex toy oops)))
    × (wire_relay_url_parse toy little_endian is_empty (encode_string little_endian oops)
        ≡ some (encoded (encode_string little_endian) (relay_url_parse toy oops)))
    × (wire_endpoint_addr_round_trip toy little_endian is_empty (encode_parts little_endian parts)
        ≡ some (encoded (encode_parts little_endian) (endpoint_addr_round_trip toy parts)))
    × (wire_endpoint_addr_encode toy little_endian is_empty (encode_parts little_endian parts)
        ≡ some (encoded (encode_bytes little_endian) (endpoint_addr_encode toy parts)))
unfolding is_utf8
wire_key_calls_example =
    wire_key_calls toy little_endian is_empty little_endian-CursorLaws public oops parts refl
      (ground arith) (omega arith, refl)
      (record {
        id = ground arith;
        relay_urls = (omega arith, ((omega arith, refl), tt));
        ip_addrs = ground arith;
      })

dispatch-func_id_example :
    ((pde_ffi_dispatcher_primary 3 ≡ some Api.connection_alpn)
      ↔ ((3 ≡ func_id Api.connection_alpn) × (has_port Api.connection_alpn ≡ true)))
    × ((pde_ffi_dispatcher_sync 3 ≡ some Api.connection_alpn)
        ↔ ((3 ≡ func_id Api.connection_alpn) × (has_port Api.connection_alpn ≡ false)))
dispatch-func_id_example = dispatch-func_id 3 Api.connection_alpn

-- Dart sends this message, whichever id it is asked for.
abbrev says : List ℕ → List ℕ → ℕ → List ℕ × ℕ
says message id w = (message, w + 1)

resolve-returned_example :
    (resolve toy small binding
      (resolve_callback little_endian is_empty
        (says (encode_u8 little_endian 0 ++ encode_opt_parts little_endian (some parts))))
      8
      5).0
    ≡ returns ((8, home ∷ []) ∷ [])
unfolding is_utf8
resolve-returned_example =
    resolve-returned little_endian is_empty little_endian-CursorLaws toy small binding
      (says (encode_u8 little_endian 0 ++ encode_opt_parts little_endian (some parts))) 8 5
      (some parts) refl
      (record {
        id = ground arith;
        relay_urls = (omega arith, ((omega arith, refl), tt));
        ip_addrs = ground arith;
      })
      refl

resolve-thrown_example :
    (resolve toy small binding
      (resolve_callback little_endian is_empty
        (says (encode_u8 little_endian 1 ++ encode_string little_endian oops)))
      8
      5).0
    ≡ panics oops
unfolding is_utf8
resolve-thrown_example =
    resolve-thrown little_endian is_empty little_endian-CursorLaws toy small binding
      (says (encode_u8 little_endian 1 ++ encode_string little_endian oops)) 8 5 oops refl
      (omega arith, refl) refl

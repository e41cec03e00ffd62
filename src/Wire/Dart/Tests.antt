-- ===== src/Wire/Dart/Tests.antt =====
-- The two ends of the codec on a little-endian platform.
use iroh_dart.Prelude.{◌≡◌, refl, none, some, true, [], ◌∷◌, codes, arith}
use iroh_dart.Prelude.Int.{pos}
use iroh_dart.Wire.Reads.{Reads}
use iroh_dart.Wire.Scalars.{is_utf8, encode_bytes, encode_string, encode_bool}
use iroh_dart.Wire.Values.{
  encode_byte_lists, encode_opt_bytes, encode_parts, encode_opt_parts, encode_event,
  encode_statuses, encode_stats,
}
use iroh_dart.Wire.Tests.{parts, event, status, stats}
use iroh_dart.Wire.LittleEndian.{little_endian}
use iroh_dart.Bridge.Handles.{encode_handle}
use iroh_dart.Wire.Dart.{
  sse_decode_bool, sse_decode_list_prim_u_8_strict, sse_decode_string,
  sse_decode_endpoint_addr_parts, sse_decode_conn_stats, sse_decode_path_event_info,
  sse_decode_list_relay_status_info, sse_decode_auto_owned, sse_encode_bool,
  sse_encode_list_prim_u_8_strict, sse_encode_string, sse_encode_list, sse_encode_opt,
  sse_encode_endpoint_addr_parts,
}
use iroh_dart.Wire.Dart.Buffer.{dart_buffer, dart_buffer-BufferLaws}
use iroh_dart.Wire.Dart.Laws.{sse_decode-encode, sse_encode-eq}

sse_decode-encode_example :
    Reads
      (sse_decode_list_prim_u_8_strict dart_buffer)
      (encode_bytes little_endian (1 ∷ 255 ∷ []))
      (1 ∷ 255 ∷ [])
    × Reads (sse_decode_string dart_buffer) (encode_string little_endian (codes "hi")) (codes "hi")
    × Reads (sse_decode_bool dart_buffer) (encode_bool little_endian true) true
    × Reads
        (sse_decode_auto_owned dart_buffer)
        (encode_handle little_endian (4096, pos 8))
        (4096, pos 8)
    × Reads (sse_decode_endpoint_addr_parts dart_buffer) (encode_parts little_endian parts) parts
    × Reads (sse_decode_path_event_info dart_buffer) (encode_event little_endian event) event
    × Reads
        (sse_decode_list_relay_status_info dart_buffer)
        (encode_statuses little_endian (status ∷ []))
        (status ∷ [])
    × Reads (sse_decode_conn_stats dart_buffer) (encode_stats little_endian stats) stats
unfolding is_utf8
sse_decode-encode_example =
    sse_decode-encode little_endian dart_buffer dart_buffer-BufferLaws (1 ∷ 255 ∷ []) (codes "hi")
      true (4096, pos 8) parts event (status ∷ []) stats (omega arith) ((omega arith, refl), refl)
      (omega arith) (omega arith)
      (record {
        id = omega arith;
        relay_urls = (omega arith, (((omega arith, refl), refl), tt));
        ip_addrs = (omega arith, (((omega arith, refl), refl), (((omega arith, refl), refl), tt)));
      })
      (record { remote_addr = ((omega arith, refl), refl); missed = tt }) (omega arith)
      (
        record {
          url = ((omega arith, refl), refl);
          last_error = ((omega arith, refl), refl);
          auth_denied_reason = tt;
        },
        tt,
      )
      (omega arith)

sse_encode-eq_example :
    (sse_encode_list_prim_u_8_strict dart_buffer (7 ∷ []) ≡ encode_bytes little_endian (7 ∷ []))
    × (sse_encode_string dart_buffer (codes "hi") ≡ encode_string little_endian (codes "hi"))
    × (sse_encode_bool dart_buffer true ≡ encode_bool little_endian true)
    × (sse_encode_list dart_buffer (sse_encode_list_prim_u_8_strict dart_buffer) (codes "a" ∷ [])
        ≡ encode_byte_lists little_endian (codes "a" ∷ []))
    × (sse_encode_endpoint_addr_parts dart_buffer parts ≡ encode_parts little_endian parts)
    × (sse_encode_opt dart_buffer (sse_encode_list_prim_u_8_strict dart_buffer) none
        ≡ encode_opt_bytes little_endian none)
    × (sse_encode_opt dart_buffer (sse_encode_endpoint_addr_parts dart_buffer) (some parts)
        ≡ encode_opt_parts little_endian (some parts))
sse_encode-eq_example =
    sse_encode-eq little_endian dart_buffer dart_buffer-BufferLaws (7 ∷ []) (codes "hi") true
      (codes "a" ∷ []) parts none (some parts)

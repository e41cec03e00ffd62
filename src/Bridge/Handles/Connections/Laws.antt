-- ===== src/Bridge/Handles/Connections/Laws.antt =====
-- The arguments of a stream call, as Dart writes them.
use iroh_dart.Prelude.{ℕ, refl, Str, ◌++◌}
use iroh_dart.Wire.{Cursor, CursorLaws}
use iroh_dart.Wire.Reads.{Reads, IsStr, Reads-then, Reads-last}
use iroh_dart.Wire.Scalars.{encode_u64, encode_string}
use iroh_dart.Wire.Scalars.Laws.{decode_u64-encode, decode_string-encode}
use iroh_dart.Wire.Values.Laws.{IsU64}
use iroh_dart.Bridge.Handles.Connections.{decode_stream_args}

pub decode_stream_args-Reads :
    (c : Cursor) (laws : CursorLaws c) (token : ℕ) (sink : Str)
    → IsU64 token
    → IsStr sink
    → Reads (decode_stream_args c) (encode_u64 c token ++ encode_string c sink) (token, sink)
unfolding decode_stream_args
decode_stream_args-Reads c laws token sink h k =
    Reads-then _ _ _ _ token _ (decode_u64-encode c laws token h)
      (Reads-last _ _ _ sink _ (decode_string-encode c laws sink k) refl)

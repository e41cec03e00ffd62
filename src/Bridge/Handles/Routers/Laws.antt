-- ===== src/Bridge/Handles/Routers/Laws.antt =====
-- The arguments of a registration, as Dart writes them.
use iroh_dart.Prelude.{ℕ, refl, List, ◌++◌}
use iroh_dart.Wire.{Cursor, CursorLaws}
use iroh_dart.Wire.Reads.{Reads, IsBytes, Reads-then, Reads-last}
use iroh_dart.Wire.Scalars.{encode_usize, encode_bytes}
use iroh_dart.Wire.Scalars.Laws.{decode_bytes-encode, decode_usize-encode}
use iroh_dart.Wire.Values.Laws.{IsU64}
use iroh_dart.Bridge.Handles.Routers.{decode_accept_args}

pub decode_accept_args-Reads :
    (c : Cursor) (laws : CursorLaws c) (alpn : List ℕ) (on_accept : ℕ)
    → IsBytes alpn
    → IsU64 on_accept
    → Reads
        (decode_accept_args c)
        (encode_bytes c alpn ++ encode_usize c on_accept)
        (alpn, on_accept)
unfolding decode_accept_args
decode_accept_args-Reads c laws alpn on_accept h k =
    Reads-then _ _ _ _ alpn _ (decode_bytes-encode c laws alpn h)
      (Reads-last _ _ _ on_accept _ (decode_usize-encode c laws on_accept k) refl)

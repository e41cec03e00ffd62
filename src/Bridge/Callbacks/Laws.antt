-- ===== src/Bridge/Callbacks/Laws.antt =====
-- A lookup that asks Dart: what an answer and an exception of the callback come to.
use iroh_dart.Prelude.{AllOption, ℕ, ◌≡◌, refl, ap, Option, List, [], ◌++◌, Bool, true, Str, arith}
use iroh_dart.Iroh.{IrohBase}
use iroh_dart.Iroh.Quic.{Quic}
use iroh_dart.Iroh.Binding.{Binding}
use iroh_dart.Key.{EndpointAddrParts}
use iroh_dart.Runtime.Job.{panics, returns}
use iroh_dart.Endpoint.Lookup.{resolve}
use iroh_dart.Endpoint.Lookup.Laws.{items_answered, resolve_items}
use iroh_dart.Wire.{Cursor, CursorLaws, Decoder}
use iroh_dart.Wire.Reads.{Reads, Reads-then, Reads-last, IsStr}
use iroh_dart.Wire.Scalars.{encode_u8, encode_string}
use iroh_dart.Wire.Scalars.Laws.{decode_string-encode, decode_u8-encode}
use iroh_dart.Wire.Values.{encode_opt_parts, decode_opt_parts}
use iroh_dart.Wire.Values.Laws.{IsParts, decode_opt_parts-encode}
use iroh_dart.Bridge.Laws.{with_args-Reads}
use iroh_dart.Bridge.Callbacks.{
  Answer, returned, thrown, expect, decode_anyhow, decode_ending, decode_answer, answer_outcome,
  resolve_callback,
}

module _ (c : Cursor) (ends : List ℕ → Bool) (laws : CursorLaws c) where
  returned-Reads :
      {A : Type 0} (decode : Decoder A) (bytes : List ℕ) (a : A)
      → Reads decode bytes a
      → Reads (decode_answer c decode) (encode_u8 c 0 ++ bytes) (returned a)
  unfolding decode_answer decode_ending
  returned-Reads decode bytes a r =
      Reads-then _ _ _ _ 0 (returned a) (decode_u8-encode c laws 0 (ground arith))
        (Reads-last _ _ _ a (returned a) r refl)

  thrown-Reads :
      {A : Type 0} (decode : Decoder A) (text : Str)
      → IsStr text
      → Reads (decode_answer c decode) (encode_u8 c 1 ++ encode_string c text) (thrown text)
  unfolding decode_answer decode_ending decode_anyhow
  thrown-Reads decode text h =
      Reads-then _ _ _ _ 1 (thrown text) (decode_u8-encode c laws 1 (ground arith)) (
        Reads-last _ _ _ text (thrown text)
          (Reads-last _ _ _ text text (decode_string-encode c laws text h) refl) refl)

  module _ (b : IrohBase) (q : Quic) (n : Binding b q) where
    -- If the cursor keeps `CursorLaws` and `end` accepts that nothing is left: a `resolve` whose
    -- callback answers from Dart with `null` gives no item, and one whose callback answers with
    -- parts (of bytes and UTF-8 texts, with fewer than 2^31 items in each list) gives the one item
    -- of these parts, or none if a text in them does not parse.
    pub resolve-returned :
        (dart_fn_invoke : List ℕ → q.World → List ℕ × q.World) (endpoint_id : b.PublicKey)
        (w : q.World) (answer : Option EndpointAddrParts)
        → ends [] ≡ true
        → AllOption IsParts answer
        → (dart_fn_invoke (b.public_as_bytes endpoint_id) w).0
          ≡ encode_u8 c 0 ++ encode_opt_parts c answer
        → (resolve b q n (resolve_callback c ends dart_fn_invoke) endpoint_id w).0
          ≡ returns (items_answered b q n endpoint_id answer)
    unfolding resolve_callback answer_outcome
    resolve-returned dart_fn_invoke endpoint_id w answer e h sent =
        let got =
          with_args-Reads ends _ (λ (a : Answer (Option EndpointAddrParts)). a) _ (returned answer)
            e
            (returned-Reads (decode_opt_parts c) _ answer
              (decode_opt_parts-encode c laws answer h)) in
        ap (λ (p : _ × _). p.0)
          (resolve_items b q n (resolve_callback c ends dart_fn_invoke) endpoint_id w answer
            (rw sent (ap expect got)))

    -- If the cursor keeps `CursorLaws` and `end` accepts that nothing is left: a `resolve` whose
    -- callback throws in Dart (with a UTF-8 text of fewer than 2^31 bytes) panics with that text.
    pub resolve-thrown :
        (dart_fn_invoke : List ℕ → q.World → List ℕ × q.World) (endpoint_id : b.PublicKey)
        (w : q.World) (text : Str)
        → ends [] ≡ true
        → IsStr text
        → (dart_fn_invoke (b.public_as_bytes endpoint_id) w).0
          ≡ encode_u8 c 1 ++ encode_string c text
        → (resolve b q n (resolve_callback c ends dart_fn_invoke) endpoint_id w).0 ≡ panics text
    unfolding resolve_callback answer_outcome resolve
    resolve-thrown dart_fn_invoke endpoint_id w text e h sent =
        let got =
          with_args-Reads ends _ (λ (a : Answer (Option EndpointAddrParts)). a) _ (thrown text) e
            (thrown-Reads (decode_opt_parts c) text h) in
        rw (sent, got) refl

-- ===== src/Bridge/Callbacks.antt =====
-- The Dart callbacks of packages/iroh_quic/rust/src/frb_generated.rs, section related_funcs: what
-- the glue makes of the message in which Dart answers a call of a callback.
pub mod Laws
use iroh_dart.Prelude.{ℕ, zero, suc, Option, none, some, List, [], Bool, Str}
use iroh_dart.Key.{EndpointAddrParts}
use iroh_dart.Runtime.Job.{Job, Outcome, panics, returns}
use iroh_dart.Wire.{Cursor, Decoder, ◌>>=◌, pure, panic}
use iroh_dart.Wire.Scalars.{decode_u8, decode_string}
use iroh_dart.Wire.Values.{decode_opt_parts}
use iroh_dart.Bridge.{with_args, nothing}

-- `Ok` and `Err` of the match on the action byte.
pub data Answer (A : Type 0) : Type 0 where
  returned : A → Answer A
  thrown : Str → Answer A

-- `expect`, with which an exception of Dart is a panic.
abbrev pub expect : {A : Type 0} → Option (Answer A) → Outcome A
expect none = panics []
expect (some (thrown text)) = panics text
expect (some (returned a)) = returns a

module _ (c : Cursor) where
  -- An `anyhow::Error` is its text.
  pub decode_anyhow : Decoder Str
  decode_anyhow = do inner ← decode_string c; pure inner

  unfoldable pub decode_ending : {A : Type 0} → Decoder A → ℕ → Decoder (Answer A)
  decode_ending decode zero = do a ← decode; pure (returned a)
  decode_ending decode (suc zero) = do text ← decode_anyhow; pure (thrown text)
  decode_ending decode (suc (suc action)) = panic

  unfoldable pub decode_answer : {A : Type 0} → Decoder A → Decoder (Answer A)
  decode_answer decode = do action ← decode_u8 c; decode_ending decode action

  module _ (ends : List ℕ → Bool) where
    pub answer_outcome : {A : Type 0} → Decoder A → List ℕ → Outcome A
    answer_outcome decode message =
        expect (with_args ends (decode_answer decode) (λ answer. answer) message)

    -- The body of a callback: `dart_fn_invoke` is the bridge library's, and gives the message.
    pub accept_callback : {W A : Type 0} → (A → W → List ℕ × W) → A → Job W (Unit {0})
    accept_callback dart_fn_invoke connection w =
        let (message, w') = dart_fn_invoke connection w in (answer_outcome nothing message, w')

    pub resolve_callback :
        {W : Type 0} → (List ℕ → W → List ℕ × W) → List ℕ → Job W (Option EndpointAddrParts)
    resolve_callback dart_fn_invoke id w =
        let (message, w') = dart_fn_invoke id w in (answer_outcome (decode_opt_parts c) message, w')

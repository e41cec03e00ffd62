-- ===== src/Bridge/Handles/Live/Rules.antt =====
-- How each part of a wire function keeps the objects: the answer, and the handle that is looked up.
use iroh_dart.Prelude.{ℕ, ◌≡◌, refl, sym, Option, none, some, List, Result, ok, err}
use iroh_dart.Wire.{Decoder}
use iroh_dart.Bridge.{with_args}
use iroh_dart.Bridge.Handles.{
  PoolLaws, Glue, State, Wire, Put, answer, value, ran, put_send, put_streams, put_option, run_call,
  run_found, decode_call, on_handle, run_args, on_args,
}
use iroh_dart.Bridge.Handles.Live.{Live, Live-same, Live-refl, Live-trans, some-injective}
use iroh_dart.Bridge.Handles.Live.Objects.{SafePut, put_send-Live, put_recv-Live}

-- A wire function that keeps the objects.
abbrev pub Safe : (g : Glue) → Wire g → Type 0
Safe g w =
    (message : List ℕ) (s s' : State g) (r : Result (List ℕ))
    → w message s ≡ some (r, s')
    → Live s s'

module _ (g : Glue) (laws : PoolLaws g.pools) where
  pub put_streams-Live : SafePut g put_streams
  unfolding put_streams
  put_streams-Live both s =
      Live-trans _ _ _ (put_send-Live g laws both.0 s)
        (put_recv-Live g laws both.1 (put_send both.0 s).1)

  pub value-Live : {A : Type 0} (encode : A → List ℕ) → SafePut g (value encode)
  value-Live encode a s = Live-refl s

  pub put_option-Live : {A : Type 0} (put : Put g A) → SafePut g put → SafePut g (put_option put)
  unfolding put_option
  put_option-Live put h none s = Live-refl s
  put_option-Live put h (some a) s = h a s

  pub answer-Live :
      {A : Type 0} (put : Put g A)
      → SafePut g put
      → (r : Result A) (s : State g) → Live s (answer put r s).1
  answer-Live put h (err e) s = Live-refl s
  answer-Live put h (ok a) s = h a s

  pub ran-Live :
      {A : Type 0} (put : Put g A)
      → SafePut g put
      → (x : Result A × g.quic.World) (s : State g) → Live s (ran put x s).1
  unfolding ran
  ran-Live put h x s = Live-trans _ _ _ (Live-same s x.1 s.stream_tasks) (answer-Live put h x.0 _)

  pub ran-value-Live :
      {A : Type 0} (encode : A → List ℕ) (x : Result A × g.quic.World) (s : State g)
      → Live s (ran (value encode) x s).1
  ran-value-Live encode x s = ran-Live (value encode) (value-Live encode) x s

  Live-result :
      (s : State g) (x y : Result (List ℕ) × State g) → some x ≡ some y → Live s x.1 → Live s y.1
  Live-result s x y e h = rw (sym (some-injective x y e)) h

  pub on_handle-Live :
      {A B : Type 0} (table : State g → g.pools.Table A) (decode : Decoder B)
      (run : ℕ → A → B → State g → Result (List ℕ) × State g)
      → ((that : ℕ) (object : A) (args : B) (s : State g)
          → g.pools.find A that (table s) ≡ some object
          → Live s (run that object args s).1)
      → Safe g (on_handle table decode run)
  unfolding on_handle
  on_handle-Live {A} {B} table decode run h message s s' r =
      called (with_args g.ends (decode_call g.cursor decode) (λ call. call) message)
    where
      looked_up :
          (call : ℕ × B) (o : Option A)
          → g.pools.find A call.0 (table s) ≡ o
          → run_found run s call o ≡ some (r, s')
          → Live s s'
      looked_up call none found e = cc
      looked_up call (some object) found e = Live-result s _ _ e (h call.0 object call.1 s found)

      called : (o : Option (ℕ × B)) → run_call table run s o ≡ some (r, s') → Live s s'
      called none e = cc
      called (some call) e = looked_up call _ refl e

  pub on_args-Live :
      {B : Type 0} (decode : Decoder B) (run : B → State g → Result (List ℕ) × State g)
      → ((args : B) (s : State g) → Live s (run args s).1)
      → Safe g (on_args decode run)
  unfolding on_args
  on_args-Live {B} decode run h message s s' r =
      called (with_args g.ends decode (λ args. args) message)
    where
      called : (o : Option B) → run_args run s o ≡ some (r, s') → Live s s'
      called none e = cc
      called (some args) e = Live-result s _ _ e (h args s)

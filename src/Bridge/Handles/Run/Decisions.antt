-- ===== src/Bridge/Handles/Run/Decisions.antt =====
-- An inbound connection and a router builder, decided on through their handles.
use iroh_dart.Prelude.{
  ℕ, ◌≡◌, refl, sym, ◌∙◌, true, none, some, List, [], Result, err, already_consumed,
}
use iroh_dart.Iroh.Quic.{Quic}
use iroh_dart.Connection.Incoming as Inc
use iroh_dart.Connection.Incoming.{Incoming, Decision, accepts, refuses, retries, ignores}
use iroh_dart.Wire.{CursorLaws}
use iroh_dart.Wire.Scalars.{encode_usize}
use iroh_dart.Wire.Values.Laws.{IsU64}
use iroh_dart.Bridge.{encode_unit}
use iroh_dart.Bridge.Dispatch.{Api}
use iroh_dart.Bridge.Handles.{PoolLaws, Glue, State, ran, put_connection}
use iroh_dart.Bridge.Handles.Laws.{on_handle-alone, call_at}
use iroh_dart.Bridge.Handles.Live.{Live, KeptCell-at, KeptCell-empty, some-injective}
use iroh_dart.Bridge.Handles.Live.Objects.{put_connection-Live}
use iroh_dart.Bridge.Handles.Live.Rules.{ran-Live, ran-value-Live}
use iroh_dart.Bridge.Handles.Connections.{
  keep_cell, wire_incoming_accept, wire_incoming_refuse, wire_incoming_retry, wire_incoming_ignore,
}
use iroh_dart.Bridge.Handles.Run.{run, dart_call, Session}
use iroh_dart.Bridge.Handles.Run.Laws.{dart_call-run}
use iroh_dart.Bridge.Handles.Run.Live.{Session-Live}

abbrev pub decision_api : {q : Quic} → Decision q → Api
decision_api accepts = Api.incoming_accept
decision_api refuses = Api.incoming_refuse
decision_api retries = Api.incoming_retry
decision_api ignores = Api.incoming_ignore

module _ (g : Glue) (pools : PoolLaws g.pools) (cursor : CursorLaws g.cursor)
    (ended : g.ends [] ≡ true) where
  -- The handle leads to a cell with nothing in it.
  abbrev Empty : ℕ → State g → Type 0
  Empty that s =
      (c : Incoming g.quic.Incoming) × (g.pools.find _ that s.incomings ≡ some c) × (c.inner ≡ none)

  keep_cell-Empty :
      (s : State g) (that : ℕ) (x : Result (List ℕ) × State g) (cell new : Incoming g.quic.Incoming)
      → Live s x.1
      → g.pools.find _ that s.incomings ≡ some cell
      → new.inner ≡ none
      → Empty that (keep_cell g that x new).1
  unfolding keep_cell
  keep_cell-Empty s that x cell new h found empty =
      let there = KeptCell-at (λ c. c.inner) _ _ cell (h.incomings that) found in
      (new, pools.find-store _ new there.0 x.1.incomings that there.1, empty)

  at_result :
      (that : ℕ) (x y : Result (List ℕ) × State g)
      → some x ≡ some y
      → Empty that x.1
      → Empty that y.1
  at_result that x y e h = rw (sym (some-injective x y e)) h

  decided-Empty :
      (d : Decision g.quic) (s s' : State g) (that : ℕ) (cell : Incoming g.quic.Incoming)
      (r : Result (List ℕ))
      → IsU64 that
      → g.pools.find _ that s.incomings ≡ some cell
      → run g (decision_api d) (encode_usize g.cursor that) s ≡ some (r, s')
      → Empty that s'
  unfolding run wire_incoming_accept wire_incoming_refuse wire_incoming_retry wire_incoming_ignore
      Inc.accept Inc.refuse Inc.retry Inc.ignore Inc.take
  decided-Empty accepts s s' that cell r small found e =
      at_result that _ (r, s')
        (sym (on_handle-alone g ended cursor _ _ that s cell small found) ∙ e)
        (keep_cell-Empty s that _ cell _
          (ran-Live g pools put_connection (put_connection-Live g pools) _ s) found refl)
  decided-Empty refuses s s' that cell r small found e =
      at_result that _ (r, s')
        (sym (on_handle-alone g ended cursor _ _ that s cell small found) ∙ e)
        (keep_cell-Empty s that _ cell _ (ran-value-Live g pools encode_unit _ s) found refl)
  decided-Empty retries s s' that cell r small found e =
      at_result that _ (r, s')
        (sym (on_handle-alone g ended cursor _ _ that s cell small found) ∙ e)
        (keep_cell-Empty s that _ cell _ (ran-value-Live g pools encode_unit _ s) found refl)
  decided-Empty ignores s s' that cell r small found e =
      at_result that _ (r, s')
        (sym (on_handle-alone g ended cursor _ _ that s cell small found) ∙ e)
        (keep_cell-Empty s that _ cell _ (ran-value-Live g pools encode_unit _ s) found refl)

  Spent : Decision g.quic → ℕ → State g → Type 0
  Spent d that s =
      (u : State g) × (run g (decision_api d) (encode_usize g.cursor that) s
        ≡ some (err already_consumed, u))
      × (u.world ≡ s.world)

  decided-Spent :
      (d : Decision g.quic) (s : State g) (that : ℕ) → IsU64 that → Empty that s → Spent d that s
  unfolding Spent run ran keep_cell wire_incoming_accept wire_incoming_refuse wire_incoming_retry
      wire_incoming_ignore Inc.accept Inc.refuse Inc.retry Inc.ignore Inc.take
  decided-Spent accepts s that small (cell, found, empty) =
      call_at already_consumed s _ _ (on_handle-alone g ended cursor _ _ that s cell small found)
        (rw empty refl) (rw empty refl)
  decided-Spent refuses s that small (cell, found, empty) =
      call_at already_consumed s _ _ (on_handle-alone g ended cursor _ _ that s cell small found)
        (rw empty refl) (rw empty refl)
  decided-Spent retries s that small (cell, found, empty) =
      call_at already_consumed s _ _ (on_handle-alone g ended cursor _ _ that s cell small found)
        (rw empty refl) (rw empty refl)
  decided-Spent ignores s that small (cell, found, empty) =
      call_at already_consumed s _ _ (on_handle-alone g ended cursor _ _ that s cell small found)
        (rw empty refl) (rw empty refl)

  -- If the tables keep `PoolLaws`, the cursor keeps `CursorLaws`, and `end` accepts that nothing is
  -- left: once a decision on an inbound connection that Dart holds has returned, with success or
  -- an error, and after any calls that return, with any changes of
  -- iroh's world between them, each of the four decisions with the same handle answers
  -- that the connection was consumed, and leaves iroh's world as it was.
  pub decided_once :
      (d e : Decision g.quic) (s s' t : State g) (that : ℕ) (cell : Incoming g.quic.Incoming)
      (r : Result (List ℕ))
      → IsU64 that
      → g.pools.find _ that s.incomings ≡ some cell
      → dart_call g (decision_api d) (encode_usize g.cursor that) s ≡ some (r, s')
      → Session g s' t
      → (u : State g) × (dart_call g (decision_api e) (encode_usize g.cursor that) t
          ≡ some (err already_consumed, u))
        × (u.world ≡ t.world)
  unfolding Spent
  decided_once d e s s' t that cell r small found first session =
      let (c, there, empty) =
        decided-Empty d s s' that cell r small found
          (sym (dart_call-run g (decision_api d) (encode_usize g.cursor that) s) ∙ first) in
      let live : Live s' t = Session-Live g pools s' t session in
      let (u, late, same) =
        decided-Spent e t that small
          (KeptCell-empty (λ c. c.inner) _ _ c (live.incomings that) there empty) in
      (u, dart_call-run g (decision_api e) (encode_usize g.cursor that) t ∙ late, same)

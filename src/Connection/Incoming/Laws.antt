-- ===== src/Connection/Incoming/Laws.antt =====
-- An inbound connection takes one decision, whichever calls come, and in whatever order.
use iroh_dart.Prelude.{
  ◌≡◌, refl, none, some, List, [], ◌∷◌, already_consumed, ok, length, replicate, arith,
}
use iroh_dart.Iroh.Quic.{Quic}
use iroh_dart.Connection.Incoming.{
  connection_reply, unit_reply, Incoming, wrap, Reply, failed, Decision, accepts, refuses, retries,
  ignores, decide, decide_all, accept_taken, refuse_taken, retry_taken, ignore_taken,
}

module _ (q : Quic) where
  -- What a decision asks of iroh, where it comes first.
  abbrev pub effect : Decision q → q.Incoming → q.World → Reply q × q.World
  effect accepts inc w = let (r, w') = accept_taken q (ok inc) w in (connection_reply q r, w')
  effect refuses inc w = let (r, w') = refuse_taken q (ok inc) w in (unit_reply q r, w')
  effect retries inc w = let (r, w') = retry_taken q (ok inc) w in (unit_reply q r, w')
  effect ignores inc w = let (r, w') = ignore_taken q (ok inc) w in (unit_reply q r, w')

  -- A consumed connection refuses every decision, and nothing happens.
  decide-consumed :
      (d : Decision q) (h : Incoming q.Incoming) (w : q.World)
      → h.inner ≡ none
      → decide q d h w ≡ (failed already_consumed, record h { inner = none }, w)
  unfolding decide
  decide-consumed accepts h w e = ground arith
  decide-consumed refuses h w e = ground arith
  decide-consumed retries h w e = ground arith
  decide-consumed ignores h w e = ground arith

  decide_all-consumed :
      (ds : List (Decision q)) (h : Incoming q.Incoming) (w : q.World)
      → h.inner ≡ none
      → decide_all q ds h w
        ≡ (replicate (length ds) (failed already_consumed), record h { inner = none }, w)
  unfolding decide_all
  decide_all-consumed [] h w e = ground arith
  decide_all-consumed (d ∷ ds) h w e =
      let rest = decide_all-consumed ds (record h { inner = none }) w refl in
      rw (decide-consumed d h w e, rest) refl

  decide-fresh :
      (d : Decision q) (inc : q.Incoming) (h : Incoming q.Incoming) (w : q.World)
      → h.inner ≡ some inc
      → decide q d h w ≡ ((effect d inc w).0, record h { inner = none }, (effect d inc w).1)
  unfolding decide
  decide-fresh accepts inc h w e = ground arith
  decide-fresh refuses inc h w e = ground arith
  decide-fresh retries inc h w e = ground arith
  decide-fresh ignores inc h w e = ground arith

  -- Of any calls to `accept`, `refuse`, `retry` and `ignore` on a new inbound connection, in the
  -- order in which they take its lock, the first alone acts on iroh, with its own reply, also where
  -- it fails; every later call answers that the connection is consumed, and changes nothing. The
  -- remote address can still be read.
  pub decide_all_once :
      (d : Decision q) (ds : List (Decision q)) (inc : q.Incoming) (w : q.World)
      → decide_all q (d ∷ ds) (wrap q inc) w ≡ (
        (effect d inc w).0 ∷ replicate (length ds) (failed already_consumed),
        record { inner = none; remote_addr = q.incoming_remote_addr inc },
        (effect d inc w).1,
      )
  unfolding decide_all wrap
  decide_all_once d ds inc w =
      let first = decide-fresh d inc (wrap q inc) w refl in
      rw
        (
          first,
          decide_all-consumed ds (record (wrap q inc) { inner = none }) ((effect d inc w).1) refl,
        )
        refl

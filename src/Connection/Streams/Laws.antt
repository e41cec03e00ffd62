-- ===== src/Connection/Streams/Laws.antt =====
-- What the reads of a connection return, where iroh keeps the length of the buffer that it fills.
use iroh_dart.Prelude.{
  ok-injective, ℕ, ◌≤◌, ◌≡◌, refl, sym, ap, ◌∙◌, Option, none, some, Str, codes, List, [], ok,
  length, take, replicate, length-take, length-replicate, arith,
}
use mathlib.Core.Option.{some-injective}
use iroh_dart.Iroh.Quic.{Quic}
use iroh_dart.Runtime.Job.{returns, spawn, spawn-ok, join-ok}
use iroh_dart.Connection.Streams.{
  RecvStream, read, read_exact, read_many_datagrams, map_some, slice_to,
}

-- A slice that iroh fills keeps its length, and the count that a read gives is within it.
pub record BufferLaws (q : Quic) : Type 0 where
  pub length-read :
      (r : q.RecvStream) (buf : List ℕ) (w : q.World) (n : Option ℕ) (filled : List ℕ)
      → (q.read r buf w).0 ≡ returns (n, filled)
      → length filled ≡ length buf
  pub count-read :
      (r : q.RecvStream) (buf : List ℕ) (w : q.World) (n : ℕ) (filled : List ℕ)
      → (q.read r buf w).0 ≡ returns (some n, filled)
      → n ≤ length buf
  pub length-read_exact :
      (r : q.RecvStream) (buf : List ℕ) (w : q.World) (filled : List ℕ)
      → (q.read_exact r buf w).0 ≡ returns filled
      → length filled ≡ length buf
  pub length-read_many :
      (conn : q.Connection) (out : List (List ℕ)) (w : q.World) (n : ℕ) (filled : List (List ℕ))
      → (q.read_many_datagrams conn out w).0 ≡ returns (n, filled)
      → length filled ≡ length out

module _ {W A : Type 0} where
  -- A body that slices gives at most what there is.
  slice_to-length :
      (what : Str) (n : ℕ) (out : List A) (w : W) (items : List A)
      → (spawn what (slice_to n out) w).0 ≡ ok items
      → length items ≤ length out
  slice_to-length what n out w items h = ground (arith, length-take n out)

truncated :
    (n : Option ℕ) (buf bytes : List ℕ)
    → map_some (λ n. take n buf) n ≡ some bytes
    → (m : ℕ) × (n ≡ some m) × (bytes ≡ take m buf)
truncated none buf bytes h = cc
truncated (some n) buf bytes h = (n, refl, sym (some-injective _ _ h))

module _ (q : Quic) (laws : BufferLaws q) where
  -- Where iroh fills the front of its buffer and says how far, within its length: a `read` of at
  -- most `max_len` bytes that gives bytes gives those that iroh has filled in a buffer of `max_len`,
  -- exactly as many as it said and none of the padding behind them, so at most `max_len`.
  pub read-length :
      (r : RecvStream q.RecvStream) (max_len : ℕ) (w : q.World) (bytes : List ℕ)
      → (read q r max_len w).0 ≡ ok (some bytes)
      → (n : ℕ) × (filled : List ℕ) × ((q.read r.inner (replicate max_len 0) w).0
          ≡ returns (some n, filled))
        × (bytes ≡ take n filled)
        × (length bytes ≡ n)
        × (n ≤ max_len)
  unfolding read
  read-length r max_len w bytes h =
      let (filled, e, k) =
        spawn-ok (codes "read") (q.read r.inner (replicate max_len 0)) _ w (some bytes) h in
      let (n, counts, cut) = truncated filled.0 filled.1 bytes (ok-injective _ _ k) in
      let read_e : (q.read r.inner (replicate max_len 0) w).0 ≡ returns (some n, filled.1) =
        e ∙ ap (λ (m : Option ℕ). returns (m, filled.1)) counts in
      let kept = laws.length-read r.inner (replicate max_len 0) w (some n) filled.1 read_e in
      let within = laws.count-read r.inner (replicate max_len 0) w n filled.1 read_e in
      (
        n,
        filled.1,
        read_e,
        cut,
        omega (arith, ap (λ (bs : List ℕ). length bs) cut, length-take n filled.1, kept, within),
        omega (arith, within, length-replicate {A = ℕ} max_len 0),
      )

  -- A `read_exact` of `len` bytes that gives bytes gives `len` of them, where iroh keeps the
  -- length of the buffer that it fills.
  pub read_exact-length :
      (r : RecvStream q.RecvStream) (len : ℕ) (w : q.World) (bytes : List ℕ)
      → (read_exact q r len w).0 ≡ ok bytes
      → length bytes ≡ len
  unfolding read_exact
  read_exact-length r len w bytes h =
      let e = join-ok (codes "read_exact") (q.read_exact r.inner (replicate len 0) w).0 bytes h in
      let kept = laws.length-read_exact r.inner (replicate len 0) w bytes e in
      omega (arith, kept, length-replicate {A = ℕ} len 0)

  -- A `read_many_datagrams` of at most `max_count` that succeeds gives at most `max_count`
  -- datagrams, where iroh keeps the length of the buffer that it fills: a count that is too large
  -- is a panic of the task, and so an error.
  pub read_many_datagrams-length :
      (conn : q.Connection) (max_count : ℕ) (w : q.World) (datagrams : List (List ℕ))
      → (read_many_datagrams q conn max_count w).0 ≡ ok datagrams
      → length datagrams ≤ max_count
  unfolding read_many_datagrams
  read_many_datagrams-length conn max_count w datagrams h =
      let (filled, e, k) =
        spawn-ok (codes "read_many_datagrams") (q.read_many_datagrams conn (replicate max_count []))
          _ w datagrams h in
      let kept = laws.length-read_many conn (replicate max_count []) w filled.0 filled.1 e in
      let bound = slice_to-length (codes "read_many_datagrams") filled.0 filled.1 _ datagrams k in
      omega (arith, kept, bound, length-replicate {A = List ℕ} max_count [])

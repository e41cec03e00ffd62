-- ===== src/Lib.antt =====
-- The Rust core of iroh_dart, verified: packages/iroh_quic/rust, the crate that gives iroh's QUIC
-- endpoints to Dart. (packages/iroh_flutter/rust is a copy of it.)
--
-- The program. Dart calls a function by its number. The generated glue,
-- packages/iroh_quic/rust/src/frb_generated.rs, decodes the arguments, calls the function of
-- packages/iroh_quic/rust/src/api, and encodes the result. Synchronous functions answer at once;
-- the others spawn a task on one shared tokio runtime (packages/iroh_quic/rust/src/runtime.rs)
-- and await it. Three functions open a stream of values to Dart: each spawns a task that pumps
-- items into a sink until iroh's stream ends, the sink fails, or Dart calls `cancel_stream`,
-- which finds the task's abort handle in a registry by the token that Dart chose.
--
-- The files. Each child module `Laws` (and those named here) holds the theorems of its parent,
-- and each `Tests` the instances at which they are tried.
-- - Prelude: `anyhow::Result` with the errors that the crate makes, `i32`, lists over native
--   numbers.
-- - Runtime: the registry (`register_stream`, `unregister_stream`, `abort_stream` of
--   packages/iroh_quic/rust/src/runtime.rs), and the stream calls with their tasks. Runtime/Steps
--   is the step relation of all interleavings of calls, tasks, `cancel_stream` and tokio's drops,
--   with its invariant; Runtime/Cancel says what a cancellation and an end of a task do.
--   Runtime/Tokens is the counter of packages/iroh_quic/lib/src/endpoint.dart that gives each
--   stream its token, in one Dart isolate.
--   Runtime/Job is the pattern of the other asynchronous calls, `rt().spawn(..).await`, with a
--   panic of the task as an error that names the call. Runtime/Stale is a task that ends before its
--   call has registered it.
-- - Iroh: the third-party code that the crate calls, as record parameters with laws: keys and
--   addresses (iroh-base, `SocketAddr`, postcard), connections and streams (Iroh/Quic), endpoints
--   and address lookups (Iroh/Binding), routers (Iroh/Routing). Iroh/Toy is a small instance.
-- - Key: packages/iroh_quic/rust/src/api/key.rs, keys, signatures and endpoint addresses over
--   byte lists. Key/Addr and Key/RoundTrip treat addresses.
-- - Watch: packages/iroh_quic/rust/src/api/watch.rs and the loops of the stream tasks in
--   packages/iroh_quic/rust/src/api/endpoint.rs and packages/iroh_quic/rust/src/api/connection.rs.
-- - Connection: packages/iroh_quic/rust/src/api/connection.rs. Connection/Incoming is an inbound
--   connection, which takes one decision; Connection/Streams the streams and datagrams.
--   Connection/Halves is the async mutex around one half of a stream, with calls from many tasks:
--   Halves/Serial are the same calls one at a time, without a mutex, Halves/Drain and Halves/Early
--   two ways to schedule them once the connection is lost.
-- - Endpoint: packages/iroh_quic/rust/src/api/endpoint.rs, binding and the calls of an endpoint;
--   Endpoint/Lookup is packages/iroh_quic/rust/src/api/address_lookup.rs, and Endpoint/Calls the
--   theorems on `connect` and `accept`.
-- - Router: packages/iroh_quic/rust/src/api/router.rs, the router builder and its handlers.
-- - Wire: the codec of packages/iroh_quic/rust/src/frb_generated.rs (`SseEncode` and
--   `SseDecode`), with byteorder as a parameter and Wire/LittleEndian an instance.
--   Wire/Dart is its other end, `sse_decode_*` and `sse_encode_*` of
--   packages/iroh_quic/lib/src/rust/frb_generated.dart, with Dart's buffer as a parameter.
-- - Bridge: the synchronous calls on plain values (`wire__crate__api__key__*` and others), and
--   Bridge/Dispatch the two dispatchers, with the numbers that
--   packages/iroh_quic/lib/src/rust/frb_generated.dart sends; Bridge/Callbacks is the decoding of
--   what a Dart callback answers.
-- - Bridge/Dco: the conversions of values into Dart objects (section rust2dart of the same file),
--   and the Dart functions that read these.
-- - Bridge/Sinks: the three stream calls from iroh's items to what Dart's listener reads. `System`
--   is the registry with the stream of each task; Sinks/Steps is the step relation of all
--   interleavings, each of whose steps is one of Runtime/Steps for the registry, or none there.
-- - Bridge/Handles: the calls on opaque handles. `State` is what the calls of a process share:
--   iroh's world, the stream tasks, and a table for each type of object that Dart holds; the tables
--   are a parameter (`Pools`, `PoolLaws`). Handles/Connections, Handles/Streams, Handles/Endpoints
--   and Handles/Routers are the wire functions (`wire__crate__api__connection__Connection_*` and so
--   on); Handles/Run joins them with the two dispatchers to `dart_call`, and `Session` is a
--   sequence of such calls. Handles/Live says what a call keeps of what Dart holds; the children of
--   Handles/Run have the theorems, and Handles/Toy the process at which they are tried.
--   Handles/Counts are the exports of module io that count Dart's references to an object.
-- - BuildScript: packages/iroh_quic/rust/build.rs, the search of a lock file for iroh's version;
--   Handles/Run/Version follows that version to Dart.
-- - Android: packages/iroh_quic/rust/src/android.rs, the JNI bootstrap.
-- - Loader: packages/iroh_quic/lib/src/ffi/loader.dart, which opens the library for Dart and
--   compares its version; a step relation has all interleavings of `ensureInitialized` in one
--   isolate. Loader/Handshake is the call of this loader with this crate.
--
-- Conventions. A Rust string is its UTF-8 bytes. A state behind a mutex is passed along, and
-- calls of several threads are the list of calls in the order in which they take the mutex; for
-- the registry, a relation has a step for each piece of code between two points where another
-- thread may run. `World` of Iroh/Quic is all that iroh keeps. A task of a `Job` runs in one
-- piece: what other tasks do meanwhile is in what iroh's operations do to the world; for the
-- calls on one half of a stream, Connection/Halves shows what the mutex makes of tasks that do
-- not. The text around an error of another library (`{e}` and prefixes) is not modelled, except
-- that the crate's own errors are told apart, and that the error of a panic names the call. The
-- loops are structural recursion on lists, so no fuel is used; only `drain` and `poll_times` count
-- rounds, and `work` and the number of items say how many are enough.
--
-- Bounds. The target has 64-bit addresses. A length crosses as `len() as i32` and is read back as
-- `i32`, so the round trips are for fewer than 2^31 items; Prelude/Int has the wrap-around.
-- Tokens and counters are below 2^64.
--
-- Not modelled: tokio, flutter_rust_bridge (the tables behind the handles, of which finding,
-- putting and counting are parameters with laws, the frame of a sink's message, how a result or a
-- panic goes back to Dart), module web of the glue, which has for wasm the exports of module io,
-- the decoding of an opaque object by value and its conversion into a Dart object, which no call
-- uses, the rest of the Dart library, and the vendored build tool.
mod Prelude
pub mod Runtime
pub mod Iroh
pub mod Key
pub mod Watch
pub mod Connection
pub mod Endpoint
pub mod Router
pub mod Wire
pub mod Bridge
pub mod BuildScript
pub mod Android
pub mod Loader

-- ===== src/Bridge/Handles/Toy.antt =====
-- Small instances of all that is not the program's own code, for one process.
use iroh_dart.Prelude.{
  codes, ℕ, suc, ◌-◌, ◌&&◌, Bool, true, false, Option, none, some, List, [], ◌∷◌, ◌++◌, ◌==◌, ltb,
  if◌then◌else◌, arith,
}
use iroh_dart.Prelude.Int.{ℤ, pos}
use iroh_dart.Iroh.Toy.{toy}
use iroh_dart.Iroh.Routing.{Routing}
use iroh_dart.Connection.Tests.{small, answer}
use iroh_dart.Endpoint.Tests.{binding}
use iroh_dart.Runtime.{start}
use iroh_dart.Wire.LittleEndian.{little_endian}
use iroh_dart.Bridge.Handles.{Pools, PoolLaws, Glue, State}

-- The objects by their numbers, with their references, and the next number.
pub record Numbered (A : Type 0) : Type 0 where
  pub next : ℕ
  pub items : ℕ → Option A
  pub references : ℕ → ℕ

abbrev find_in : {A : Type 0} → ℕ → Numbered A → Option A
find_in k t = if ltb k t.next && ltb 0 (t.references k) then t.items k else none

abbrev put_in : {A : Type 0} → A → Numbered A → (ℕ × ℤ) × Numbered A
put_in a t = (
  (t.next, pos 0),
  record {
    next = suc t.next;
    items = λ k. if k == t.next then some a else t.items k;
    references = λ k. if k == t.next then 1 else t.references k;
  },
)

abbrev store_in : {A : Type 0} → ℕ → A → Numbered A → Numbered A
store_in k a t = record t { items = λ j. if j == k then some a else t.items j }

abbrev recount : {A : Type 0} → ℕ → ℕ → Numbered A → Numbered A
recount k n t = record t { references = λ j. if j == k then n else t.references j }

abbrev pub numbered : Pools
numbered = record {
  Table = Numbered;
  find = λ A k t. find_in k t;
  put = λ A a t. put_in a t;
  store = λ A k a t. store_in k a t;
  count = λ A k t. t.references k;
  increment = λ A k t. recount k (if t.references k == 0 then 0 else suc (t.references k)) t;
  decrement = λ A k t. recount k (t.references k - 1) t;
}

pub numbered-PoolLaws : PoolLaws numbered
numbered-PoolLaws = record {
  find-put = λ A a t. ground arith;
  find-put_other = λ A a b t k e. ground arith;
  find-store = λ A a b t k e. ground arith;
  find-store_other = λ A a t k j other. ground arith;
  count-increment = λ A t k h. ground arith;
  count-increment_other = λ A t k j other. ground arith;
  find-increment = λ A t k j. ground arith;
  count-decrement = λ A t k h. ground arith;
  count-decrement_other = λ A t k j other. ground arith;
  find-decrement = λ A t k h. ground arith;
  find-decrement_other = λ A t k j other. ground arith;
  find_none = λ A t k h. ground arith;
}

abbrev pub none_yet : {A : Type 0} → Numbered A
none_yet = record { next = 0; items = λ k. none; references = λ k. 0 }

abbrev pub one : {A : Type 0} → A → Numbered A
one a = record { next = 1; items = λ k. some a; references = λ k. if k == 0 then 1 else 0 }

abbrev routing : Routing small binding.Endpoint
routing = record {
  RouterBuilder = List (List ℕ);
  Router = List (List ℕ);
  builder = λ ep. [];
  accept = λ made alpn handler. made ++ (alpn ∷ []);
  spawn = λ made w. (made, suc w);
  shutdown = λ router. answer none;
}

abbrev is_empty : List ℕ → Bool
is_empty [] = true
is_empty (n ∷ ns) = false

abbrev pub process : Glue
process = record {
  base = toy;
  quic = small;
  binding = binding;
  routing = routing;
  pools = numbered;
  cursor = little_endian;
  ends = is_empty;
  draw = λ w. (w, suc w);
  crate_version = codes "1.4";
  invoke_accept = λ closure conn w. ([], suc w);
  invoke_resolve = λ closure id w. ([], suc w);
}

-- A connection, an inbound connection and a builder, each under the number 0.
abbrev pub busy : State process
busy = record {
  world = 5;
  stream_tasks = start;
  connections = one [];
  incomings = one (record { inner = some 7; remote_addr = [] });
  send_streams = none_yet;
  recv_streams = none_yet;
  endpoints = none_yet;
  builders = one (record { inner = some [] });
  routers = none_yet;
}

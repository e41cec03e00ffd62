-- ===== src/Bridge/Handles/Live.antt =====
-- No call takes an object away: what a handle leads to before a call, it leads to after it.
pub mod Objects
pub mod Rules
use iroh_dart.Prelude.{
  ℕ, ◌≡◌, refl, sym, ap, ◌∙◌, ◌⊎◌, inl, inr, Option, none, some, List, Result, ok, err,
  Option-cases, ◌==◌, arith,
}
use iroh_dart.Connection.Incoming.{Incoming}
use iroh_dart.Connection.Streams.{SendStream, RecvStream}
use iroh_dart.Router.{RouterBuilder}
use iroh_dart.Runtime as Runtime
use iroh_dart.Bridge.Handles.{Glue, State}

-- The same object, where there was one.
abbrev pub Kept : {A : Type 0} → Option A → Option A → Type 0
Kept none y = Unit
Kept (some a) y = y ≡ some a

-- A cell, where there was one, and an empty cell is still empty.
abbrev pub KeptCell : {A C : Type 0} → (C → Option A) → Option C → Option C → Type 0
KeptCell inner none y = Unit
KeptCell {A} {C} inner (some c) y =
    (c' : C) × (y ≡ some c') × ((inner c' ≡ none) ⊎ ((a : A) × (inner c ≡ some a)))

pub Kept-intro : {A : Type 0} (x y : Option A) → ((a : A) → x ≡ some a → y ≡ some a) → Kept x y
Kept-intro none y h = tt
Kept-intro (some a) y h = h a refl

pub Kept-at : {A : Type 0} (x y : Option A) (a : A) → Kept x y → x ≡ some a → y ≡ some a
Kept-at none y a h e = cc
Kept-at (some b) y a h e = h ∙ e

pub KeptCell-intro :
    {A C : Type 0} (inner : C → Option A) (x y : Option C)
    → ((c : C)
        → x ≡ some c
        → (c' : C) × (y ≡ some c') × ((inner c' ≡ none) ⊎ ((a : A) × (inner c ≡ some a))))
    → KeptCell inner x y
KeptCell-intro inner none y h = tt
KeptCell-intro inner (some c) y h = h c refl

-- A cell that was there is there.
pub KeptCell-at :
    {A C : Type 0} (inner : C → Option A) (x y : Option C) (c : C)
    → KeptCell inner x y
    → x ≡ some c
    → (c' : C) × (y ≡ some c')
KeptCell-at inner none y c h e = cc
KeptCell-at inner (some d) y c (c', e', f) e = (c', e')

-- A cell that was empty is empty.
pub KeptCell-empty :
    {A C : Type 0} (inner : C → Option A) (x y : Option C) (c : C)
    → KeptCell inner x y
    → x ≡ some c
    → inner c ≡ none
    → (c' : C) × (y ≡ some c') × (inner c' ≡ none)
KeptCell-empty inner none y c h e empty = cc
KeptCell-empty inner (some d) y c (c', e', inl f) e empty = (c', e', f)
KeptCell-empty inner (some d) y c (c', e', inr (a, f)) e empty = cc

pub record Live {g : Glue} (s t : State g) : Type 0 where
  pub connections : (k : ℕ) → Kept (g.pools.find _ k s.connections) (g.pools.find _ k t.connections)
  pub send_streams :
      (k : ℕ) → Kept (g.pools.find _ k s.send_streams) (g.pools.find _ k t.send_streams)
  pub recv_streams :
      (k : ℕ) → Kept (g.pools.find _ k s.recv_streams) (g.pools.find _ k t.recv_streams)
  pub endpoints : (k : ℕ) → Kept (g.pools.find _ k s.endpoints) (g.pools.find _ k t.endpoints)
  pub routers : (k : ℕ) → Kept (g.pools.find _ k s.routers) (g.pools.find _ k t.routers)
  pub incomings :
      (k : ℕ)
      → KeptCell
          (λ (c : Incoming g.quic.Incoming). c.inner)
          (g.pools.find _ k s.incomings)
          (g.pools.find _ k t.incomings)
  pub builders :
      (k : ℕ)
      → KeptCell
          (λ (c : RouterBuilder g.routing.RouterBuilder). c.inner)
          (g.pools.find _ k s.builders)
          (g.pools.find _ k t.builders)

pub Kept-refl : {A : Type 0} (x : Option A) → Kept x x
Kept-refl none = tt
Kept-refl (some a) = refl

Kept-trans : {A : Type 0} (x y z : Option A) → Kept x y → Kept y z → Kept x z
Kept-trans none y z h k = tt
Kept-trans (some a) none z h k = cc
Kept-trans (some a) (some b) z h k = cc

pub empty_or_full :
    {A C : Type 0} (inner : C → Option A) (c : C)
    → (inner c ≡ none) ⊎ ((a : A) × (inner c ≡ some a))
empty_or_full inner c = elim (Option-cases (inner c)) [ inl e ↦ inl e | inr e ↦ inr e ]

pub KeptCell-refl : {A C : Type 0} (inner : C → Option A) (x : Option C) → KeptCell inner x x
KeptCell-refl inner none = tt
KeptCell-refl inner (some c) = (c, refl, empty_or_full inner c)

still_empty :
    {A C : Type 0} (inner : C → Option A) (c d e : C)
    → (inner d ≡ none) ⊎ ((a : A) × (inner c ≡ some a))
    → (inner e ≡ none) ⊎ ((a : A) × (inner d ≡ some a))
    → (inner e ≡ none) ⊎ ((a : A) × (inner c ≡ some a))
still_empty inner c d e first (inl h) = inl h
still_empty inner c d e (inr h) second = inr h
still_empty inner c d e (inl h) (inr (a, k)) = cc

pub some-injective : {A : Type 0} (a b : A) → some a ≡ some b → a ≡ b
some-injective a b h = cc

KeptCell-trans :
    {A C : Type 0} (inner : C → Option A) (x y z : Option C)
    → KeptCell inner x y
    → KeptCell inner y z
    → KeptCell inner x z
KeptCell-trans inner none y z h k = tt
KeptCell-trans inner (some c) none z (d, e, f) k = cc
KeptCell-trans inner (some c) (some y) z (d, e, f) (e', z', f') =
    let same : y ≡ d = some-injective y d e in (e', z', still_empty inner c y e' (rw same f) f')

-- The tables are the same ones.
pub Live-same :
    {g : Glue} (s : State g) (w : g.quic.World) (tasks : Runtime.World)
    → Live s (record s { world = w; stream_tasks = tasks })
Live-same {g} s w tasks = record {
  connections = λ k. Kept-refl (g.pools.find _ k s.connections);
  send_streams = λ k. Kept-refl (g.pools.find _ k s.send_streams);
  recv_streams = λ k. Kept-refl (g.pools.find _ k s.recv_streams);
  endpoints = λ k. Kept-refl (g.pools.find _ k s.endpoints);
  routers = λ k. Kept-refl (g.pools.find _ k s.routers);
  incomings = λ k. KeptCell-refl _ (g.pools.find _ k s.incomings);
  builders = λ k. KeptCell-refl _ (g.pools.find _ k s.builders);
}

pub Live-refl : {g : Glue} (s : State g) → Live s s
Live-refl s = Live-same s s.world s.stream_tasks

pub Live-trans : {g : Glue} (s t u : State g) → Live s t → Live t u → Live s u
Live-trans s t u h l = record {
  connections = λ k. Kept-trans _ _ _ (h.connections k) (l.connections k);
  send_streams = λ k. Kept-trans _ _ _ (h.send_streams k) (l.send_streams k);
  recv_streams = λ k. Kept-trans _ _ _ (h.recv_streams k) (l.recv_streams k);
  endpoints = λ k. Kept-trans _ _ _ (h.endpoints k) (l.endpoints k);
  routers = λ k. Kept-trans _ _ _ (h.routers k) (l.routers k);
  incomings = λ k. KeptCell-trans _ _ _ _ (h.incomings k) (l.incomings k);
  builders = λ k. KeptCell-trans _ _ _ _ (h.builders k) (l.builders k);
}

-- ===== src/Watch.antt =====
-- packages/iroh_quic/rust/src/api/watch.rs: the values of the reactive streams, and the loop that
-- the stream tasks run. The address type of iroh's events, with its `Debug` text, is a parameter.
pub mod Laws
mod Tests
use iroh_dart.Prelude.{ℕ, Bool, Option, none, some, List, [], ◌∷◌, map, Str}

pub data PathEventKind : Type 0 where
  opened closed selected lagged unknown : PathEventKind

pub record PathEventInfo : Type 0 where
  pub kind : PathEventKind
  pub remote_addr : Option Str
  pub missed : Option ℕ

pub record RelayStatusInfo : Type 0 where
  pub url : Str
  pub connected : Bool
  pub last_error : Option Str
  pub auth_denied_reason : Option Str

-- iroh's `PathEvent` as far as the crate reads it; `other` is a variant of a later iroh version.
pub data PathEvent (Addr : Type 0) : Type 0 where
  opened closed selected : Addr → PathEvent Addr
  lagged : ℕ → PathEvent Addr
  other : PathEvent Addr

unfoldable pub map_path_event : {Addr : Type 0} → (Addr → Str) → PathEvent Addr → PathEventInfo
map_path_event debug (PathEvent.opened remote_addr) = record {
  kind = PathEventKind.opened;
  remote_addr = some (debug remote_addr);
  missed = none;
}
map_path_event debug (PathEvent.closed remote_addr) = record {
  kind = PathEventKind.closed;
  remote_addr = some (debug remote_addr);
  missed = none;
}
map_path_event debug (PathEvent.selected remote_addr) = record {
  kind = PathEventKind.selected;
  remote_addr = some (debug remote_addr);
  missed = none;
}
map_path_event debug (PathEvent.lagged missed) = record {
  kind = PathEventKind.lagged;
  remote_addr = none;
  missed = some missed;
}
map_path_event debug PathEvent.other = record {
  kind = PathEventKind.unknown;
  remote_addr = none;
  missed = none;
}

-- The accessors of iroh's home relay status.
pub record HomeRelay (S : Type 0) : Type 0 where
  pub url : S → Str
  pub is_connected : S → Bool
  pub last_error : S → Option Str
  pub auth_denied_reason : S → Option Str

pub map_status : {S : Type 0} → HomeRelay S → S → RelayStatusInfo
map_status h s = record {
  url = h.url s;
  connected = h.is_connected s;
  last_error = h.last_error s;
  auth_denied_reason = h.auth_denied_reason s;
}

-- The loop of a stream task, over the items that the iroh stream yields. `add` is `sink.add`, and
-- `none` its error, at which the loop breaks.
pub pump : {A B S : Type 0} → (A → B) → (B → S → Option S) → List A → S → S
pump f add [] s = s
pump f add (x ∷ xs) s = elim (add (f x) s) [ none ↦ s | some s' ↦ pump f add xs s' ]

-- The loop of `path_events`.
pub pump_path_events :
    {Addr S : Type 0}
    → (Addr → Str)
    → (PathEventInfo → S → Option S)
    → List (PathEvent Addr)
    → S
    → S
pump_path_events debug = pump (map_path_event debug)

-- The loop of `home_relay_status`.
pub pump_home_relay_status :
    {R S : Type 0} → HomeRelay R → (List RelayStatusInfo → S → Option S) → List (List R) → S → S
pump_home_relay_status h = pump (map (map_status h))

-- ===== src/Watch/Laws.antt =====
-- What reaches Dart: the fields that an event fills, and the items that a stream delivers.
use iroh_dart.Prelude.{
  ℕ, suc, ◌-◌, ◌≡◌, inl, inr, Option, none, some, List, [], ◌∷◌, ◌++◌, map, Str, length,
  length-append, take, take-nil, sym, ◌∙◌, append_assoc, append-nil, ltb, if◌then◌else◌, arith,
  Bool-cases,
}
use iroh_dart.Watch.{PathEvent, map_path_event, pump}

-- Two events that the mapping makes equal are equal, if equal `Debug` texts come from equal
-- addresses.
pub map_path_event_injective :
    {Addr : Type 0} (debug : Addr → Str) (e e' : PathEvent Addr)
    → ((a a' : Addr) → debug a ≡ debug a' → a ≡ a')
    → map_path_event debug e ≡ map_path_event debug e'
    → e ≡ e'
unfolding map_path_event
map_path_event_injective debug (PathEvent.opened a) (PathEvent.opened a') inj h =
    ground (arith, inj a a')
map_path_event_injective debug (PathEvent.closed a) (PathEvent.closed a') inj h =
    ground (arith, inj a a')
map_path_event_injective debug (PathEvent.selected a) (PathEvent.selected a') inj h =
    ground (arith, inj a a')
map_path_event_injective debug e e' inj h = ground arith

-- A sink that takes `room` items and then fails, as one whose Dart side has closed.
abbrev pub add_limited : {B : Type 0} → ℕ → B → List B → Option (List B)
add_limited room x log = if ltb (length log) room then some (log ++ x ∷ []) else none

-- A stream task delivers the mapped items in order, one for each item, up to the first that the
-- sink refuses, and none after it.
pub pump_delivers :
    {A B : Type 0} (f : A → B) (room : ℕ) (items : List A) (log : List B)
    → pump f (add_limited room) items log ≡ log ++ take (room - length log) (map f items)
unfolding pump
pump_delivers f room [] log = rw take-nil (sym (append-nil log))
pump_delivers f room (x ∷ xs) log = elim (Bool-cases (ltb (length log) room)) [
  | inl fits ↦
      let more : room - length log ≡ suc (room - length (log ++ f x ∷ [])) =
        ground (arith, length-append log (f x ∷ [])) in
      rw (more, fits, pump)
        (pump_delivers f room xs (log ++ f x ∷ []) ∙ append_assoc log (f x ∷ []) _)
  | inr full ↦
      let over : room - length log ≡ 0 = ground arith in
      rw (over, full, pump) (sym (append-nil log))
]

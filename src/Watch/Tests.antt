-- ===== src/Watch/Tests.antt =====
-- Events of a connection whose addresses are numbers, and a sink that takes two items.
use iroh_dart.Prelude.{ℕ, ◌≡◌, ◌∷◌, [], List, Str}
use iroh_dart.Watch.{PathEvent, pump}
use iroh_dart.Watch.Laws.{add_limited, pump_delivers}

abbrev debug : ℕ → Str
debug n = n ∷ []

debug_injective : (a b : ℕ) → debug a ≡ debug b → a ≡ b
debug_injective a b h = cc

abbrev dropped : PathEvent ℕ
dropped = PathEvent.lagged 3

abbrev items : List ℕ
items = 5 ∷ 6 ∷ 7 ∷ []

pump_delivers_example : pump debug (add_limited 2) items [] ≡ (5 ∷ []) ∷ (6 ∷ []) ∷ []
pump_delivers_example = pump_delivers debug 2 items []

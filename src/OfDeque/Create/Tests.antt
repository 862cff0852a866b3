-- ===== src/OfDeque/Create/Tests.antt =====
-- A new deque whose buffers have eight slots.
use unbounded_obstruction_fr.Base.{ℕ, ◌≡◌, true, some, [], ◌∷◌, arith}
use unbounded_obstruction_fr.OfDeque.Slot.{type_value, side_left, Slot, Buffer, edge_ok}
use unbounded_obstruction_fr.OfDeque.Hints.{GlobalHint, Hazards}
use unbounded_obstruction_fr.OfDeque.Search.{found, find_edge}
use unbounded_obstruction_fr.OfDeque.Border.Chain.{content, Ends}
use unbounded_obstruction_fr.OfDeque.Create.{create, create_lem}

abbrev raw : ℕ → Slot
raw i = record { word = 99; count = i; type = type_value }

abbrev others : ℕ → Buffer
others b = record { left_hint = 5; right_hint = 6; slots = raw }

abbrev no_hazards : Hazards
no_hazards = record { slot_0 = 0; slot_1 = 0 }

abbrev hint : GlobalHint
hint = record { buffer = 7; count = 0 }

create_lem_example :
    (let m = (create 8 7 raw others).memory in
      Ends 8 side_left m.buffers 7
      × (content 8 side_left m.buffers (7 ∷ []) ≡ [])
      × ((t' : ℕ) × (find_edge 8 side_left (λ _. m) hint 8 no_hazards 2
            ≡ some (found (record { buffer = 7; index = 4 }) no_hazards t')))
      × (edge_ok 8 side_left 4 ((m.buffers 7).slots 4) ((m.buffers 7).slots 3) ≡ true))
create_lem_example = create_lem 8 7 raw others (omega arith) side_left no_hazards 2

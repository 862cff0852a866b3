-- ===== src/OfDeque/Search/Tests.antt =====
-- The search for an edge at concrete memories.
use unbounded_obstruction_fr.Base.{
  ℕ, ◌≡◌, refl, true, some, arith, IfSome, if◌then◌else◌, ◌==◌, ltb,
}
use unbounded_obstruction_fr.OfDeque.Slot.{
  SlotType, type_left, type_right, type_value, side_left, side_right, Slot, edge_ok,
}
use unbounded_obstruction_fr.OfDeque.Hints.{GlobalHint, Memory, History, Hazards, reserve_hint}
use unbounded_obstruction_fr.OfDeque.Search.{
  found, look_far_link, look_out, look_near_link, look_sealed, look_slot, look, search, find_edge,
  oracle,
}
use unbounded_obstruction_fr.OfDeque.Search.Protected.{
  IsSearched, IsOracle, find_edge-IsSearched, oracle-IsOracle,
}
use unbounded_obstruction_fr.OfDeque.Search.Alone.{EndsAt, find_edge-alone}

abbrev slot : (word : ℕ) → SlotType → Slot
slot word type = record { word = word; count = 0; type = type }

-- Eight slots with values at 3 and 4. The local hint of the right side is too far out.
abbrev half_full : ℕ → Slot
half_full i =
    if ltb i 3 then slot 0 type_left else if ltb i 5 then slot i type_value else slot 0 type_right

-- Full up to its right end, with a link there to the buffer 7.
abbrev linked : ℕ → Slot
linked i =
    if i == 7 then slot 7 type_value else if i == 0 then slot 0 type_left else slot i type_value

abbrev memory : Memory
memory = record {
  buffers =
      λ b. record { left_hint = 1; right_hint = 90; slots = if b == 7 then half_full else linked };
  left_global_hint = record { buffer = 7; count = 3 };
  right_global_hint = record { buffer = 9; count = 6 };
}

abbrev history : History
history _ = memory

abbrev no_hazards : Hazards
no_hazards = record { slot_0 = 0; slot_1 = 0 }

abbrev hint : GlobalHint
hint = record { buffer = 7; count = 3 }

-- From the full buffer through its link to the edge in the next one.
oracle_run :
    oracle 2 20 8 side_right history no_hazards 0
    ≡ some (
      record { hint = record { buffer = 9; count = 6 }; edge = record { buffer = 7; index = 4 } },
      record { slot_0 = 9; slot_1 = 7 },
      13,
    )
unfolding oracle find_edge reserve_hint search look look_far_link look_near_link look_slot
    look_sealed look_out
oracle_run = refl

half_full-EndsAt_left : EndsAt 8 side_left memory 7 3
half_full-EndsAt_left = record {
  large = omega arith;
  edge_inside = omega arith;
  edge_bound = omega arith;
  beyond = λ i p q. ground arith;
  until = λ i p q. ground arith;
  near_end = refl;
}

find_edge-IsSearched_example :
    IfSome
      (IsSearched 8 side_left history hint 2)
      (find_edge 8 side_left history hint 9 (record { slot_0 = 7; slot_1 = 0 }) 2)
find_edge-IsSearched_example =
    find_edge-IsSearched 8 side_left history hint 9 (record { slot_0 = 7; slot_1 = 0 }) 2 refl

oracle-IsOracle_example :
    IfSome (IsOracle 8 side_right history 0) (oracle 2 20 8 side_right history no_hazards 0)
oracle-IsOracle_example = oracle-IsOracle 2 20 8 side_right history no_hazards 0

find_edge-alone_example :
    ((t' : ℕ) × (find_edge 8 side_left (λ _. memory) hint 8 no_hazards 0
        ≡ some (found (record { buffer = 7; index = 3 }) no_hazards t')))
    × (edge_ok 8 side_left 3 (half_full 3) (half_full 2) ≡ true)
find_edge-alone_example =
    find_edge-alone 8 side_left memory hint 3 half_full-EndsAt_left no_hazards 0

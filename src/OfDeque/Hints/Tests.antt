-- ===== src/OfDeque/Hints/Tests.antt =====
-- The hints at concrete memories.
use unbounded_obstruction_fr.Base.{ℕ, ◌≡◌, refl, false, some, arith, IfSome, if◌then◌else◌, ◌==◌}
use unbounded_obstruction_fr.OfDeque.Slot.{
  SlotType, type_left, type_right, type_value, type_sealed, side_right, Slot, Buffer,
}
use unbounded_obstruction_fr.OfDeque.Hints.{
  update_from, update_round, active_from, link_index, GlobalHint, Memory, History, Hazards,
  reserve_hint, is_sealed, find_active_buffer, published, update_hint,
}
use unbounded_obstruction_fr.OfDeque.Hints.Sealed.{Counted, slot_at}
use unbounded_obstruction_fr.OfDeque.Hints.Publish.{
  IsActive, IsUpdated, find_active_buffer-IsActive, update_hint-IsUpdated,
}
use unbounded_obstruction_fr.OfDeque.Hints.Alone.{update_hint-alone}

abbrev slot : (word : ℕ) → SlotType → Slot
slot word type = record { word = word; count = 0; type = type }

-- A sealed buffer of four slots, whose link on the left leads to the buffer 8.
abbrev sealed_slots : ℕ → Slot
sealed_slots i =
    if i == 0 then slot 8 type_value else if i == 1 then slot 0 type_sealed else slot 0 type_right

abbrev live_slots : ℕ → Slot
live_slots i =
    if i == 0 then slot 0 type_left else if i == 1 then slot 5 type_value else slot 0 type_right

abbrev buffers : ℕ → Buffer
buffers b = record {
  left_hint = 1;
  right_hint = 1;
  slots = if b == 7 then sealed_slots else live_slots;
}

abbrev memory : Memory
memory = record {
  buffers = buffers;
  left_global_hint = record { buffer = 7; count = 3 };
  right_global_hint = record { buffer = 7; count = 6 };
}

abbrev history : History
history _ = memory

abbrev no_hazards : Hazards
no_hazards = record { slot_0 = 0; slot_1 = 0 }

slots-Counted : (buffer : ℕ) → Counted (slot_at history buffer 1)
slots-Counted buffer t u le = (omega arith, λ _. refl)

reserve_hint_run :
    reserve_hint 3 side_right history no_hazards false 0
    ≡ some (record { buffer = 7; count = 6 }, record { slot_0 = 7; slot_1 = 0 }, 2)
unfolding reserve_hint
reserve_hint_run = refl

update_hint_run :
    update_hint 4 1 3 side_right history no_hazards 0
    ≡ some (published (record { buffer = 8; count = 7 }) 14)
unfolding update_hint update_from update_round find_active_buffer active_from is_sealed link_index
update_hint_run = refl

find_active_buffer-IsActive_example :
    (let hint : GlobalHint = record { buffer = 7; count = 6 } in
      IfSome
        (IsActive 4 side_right history slots-Counted hint 0)
        (find_active_buffer 4 3 side_right history hint no_hazards 0))
find_active_buffer-IsActive_example =
    find_active_buffer-IsActive 4 side_right history slots-Counted
      (record { buffer = 7; count = 6 }) 3 no_hazards 0

update_hint-IsUpdated_example :
    IfSome
      (IsUpdated 4 side_right history slots-Counted 6 1)
      (update_hint 4 2 3 side_right history no_hazards 0)
update_hint-IsUpdated_example =
    update_hint-IsUpdated 4 side_right history slots-Counted 3 2 no_hazards 0

update_hint-alone_example :
    (t' : ℕ) × (update_hint 4 1 2 side_right history no_hazards 0
      ≡ some (published (record { buffer = 8; count = 7 }) t'))
unfolding link_index
update_hint-alone_example =
    update_hint-alone 4 side_right memory 1 1 8 0 no_hazards (omega arith)
      (1, 0, refl, refl, (λ e. omega arith), (refl, refl))

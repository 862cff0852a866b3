-- ===== src/OfDeque/Border/Tests.antt =====
-- Pushes and pops at the border of a buffer of four slots, on the right.
use unbounded_obstruction_fr.Base.{
  ℕ, ◌+◌, ◌<◌, ◌≤◌, ◌≡◌, ◌≢◌, refl, inl, some, [], ◌∷◌, arith, if◌then◌else◌, ◌==◌,
}
use unbounded_obstruction_fr.OfDeque.Slot.{
  SlotType, type_left, type_right, type_value, type_sealed, side_right, Slot, edge_ok,
}
use unbounded_obstruction_fr.OfDeque.Hints.{GlobalHint}
use unbounded_obstruction_fr.OfDeque.Interior.{values}
use unbounded_obstruction_fr.OfDeque.Border.{
  Junk, World, Fresh, pushed, popped, backoff, edge_push, border_push, border_pop,
}
use unbounded_obstruction_fr.OfDeque.Border.Chain.{IsChain}
use unbounded_obstruction_fr.OfDeque.Border.Append.{append_lem, IsAppended}
use unbounded_obstruction_fr.OfDeque.Border.Straddle.{straddle_push_lem, IsStraddled}
use unbounded_obstruction_fr.OfDeque.Border.Boundary.{boundary_pop_lem, IsTaken}
use unbounded_obstruction_fr.OfDeque.Border.Removal.{push-removes, IsRemoved, HintsLead, cut}
use unbounded_obstruction_fr.OfDeque.Border.Sealing.{pop-removes, sealed}

abbrev large : 3 ≤ 4
large = omega arith

abbrev slot : (word : ℕ) → SlotType → Slot
slot word type = record { word = word; count = 0; type = type }

-- The buffer 7, with two values and a slot for the link on the right.
abbrev full : Slot → ℕ → Slot
full link i = if i == 0 then slot 0 type_left else if i == 3 then link else slot (50 + i) type_value

-- The buffer 8 beyond it, without a value.
abbrev beyond : Slot → ℕ → Slot
beyond near i = if i == 0 then slot 7 type_value else if i == 1 then near else slot 0 type_right

abbrev hint : GlobalHint
hint = record { buffer = 7; count = 6 }

abbrev world : (link near : Slot) → World
world link near = record {
  memory = record {
    buffers = λ b. record {
      left_hint = 1;
      right_hint = 1;
      slots = if b == 7 then full link else beyond near;
    };
    left_global_hint = record { buffer = 7; count = 3 };
    right_global_hint = hint;
  };
  left_cache = 0;
  right_cache = 0;
  hazards = record { slot_0 = 0; slot_1 = 0 };
  retired = [];
}

abbrev fresh : Fresh
fresh = record {
  address = 8;
  raw = λ i. slot 99 type_value;
  link_raw = slot 98 type_left;
  value_raw = slot 97 type_left;
}

abbrev junk : Junk
junk = record { word_sealed = 31; word_cut = 33; word_taken = 35 }

abbrev last : World
last = world (slot 0 type_right) (slot 0 type_right)

abbrev linked : World
linked = world (slot 8 type_value) (slot 0 type_right)

abbrev sealed_neighbor : World
sealed_neighbor = world (slot 8 type_value) (slot 0 type_sealed)

append_lem_example :
    (new : ℕ) × ((w' : World) × (edge_push 4 side_right 0 hint fresh last 7 5 0 ≡ some (w', pushed))
      × IsAppended 4 side_right large (51 ∷ 52 ∷ []) new 7 5 [] w')
unfolding values edge_ok
append_lem_example =
    append_lem 4 side_right large 0 hint fresh last 7 5 0 [] (tt, tt, tt) refl refl
      (inl (refl, (λ e. omega arith, tt)))

no_values : (i : ℕ) → 1 ≤ i → i < 3 → (beyond (slot 0 type_right) i).type ≢ type_value
no_values i p q e = ground arith

no_values_sealed : (i : ℕ) → 1 ≤ i → i < 3 → (beyond (slot 0 type_sealed) i).type ≢ type_value
no_values_sealed i p q e = ground arith

linked-IsChain : IsChain 4 side_right linked.memory.buffers (8 ∷ 7 ∷ [])
linked-IsChain = ((λ e. omega arith, tt), ((refl, refl), (refl, refl)), (tt, tt, tt))

sealed-IsChain : IsChain 4 side_right sealed_neighbor.memory.buffers (8 ∷ 7 ∷ [])
sealed-IsChain = ((λ e. omega arith, tt), ((refl, refl), (refl, refl)), (tt, tt, tt))

straddle_push_lem_example :
    (w' : World) × (border_push 4 side_right 0 hint fresh linked 7 5 0 ≡ some (w', pushed))
    × IsStraddled 4 side_right large (51 ∷ 52 ∷ []) (8 ∷ 7 ∷ []) 5 w'.memory.buffers
unfolding values
straddle_push_lem_example =
    straddle_push_lem 4 side_right large 0 hint fresh linked 7 5 0 [] linked-IsChain no_values refl

boundary_pop_lem_example :
    (v : ℕ) × (w' : World) × (border_pop 4 side_right 0 hint last 7 junk ≡ some (w', popped v))
    × IsTaken 4 side_right large (51 ∷ 52 ∷ []) (7 ∷ []) v w'.memory.buffers
unfolding values
boundary_pop_lem_example =
    boundary_pop_lem 4 side_right large 0 hint last 7 junk [] (tt, tt, tt) refl refl

removed-HintsLead : HintsLead 4 0 (cut 4 side_right large sealed_neighbor.memory.buffers 7 33) 7 7
removed-HintsLead = record {
  left_links = 0;
  left_target = 7;
  left_few = omega arith;
  left_leads = (refl, refl);
  right_links = 0;
  right_target = 7;
  right_few = omega arith;
  right_leads = (refl, refl);
}

push-removes_example :
    (w' : World) × (border_push 4 side_right 1 hint fresh sealed_neighbor 7 5 33
      ≡ some (w', backoff))
    × IsRemoved 4 side_right large (51 ∷ 52 ∷ []) 8 7 [] [] w'
unfolding values
push-removes_example =
    push-removes 4 side_right large 0 hint fresh sealed_neighbor 7 5 33 []
      (sealed-IsChain, no_values_sealed) refl removed-HintsLead

sealed-HintsLead :
    HintsLead 4 0
      (cut 4 side_right large (sealed 4 side_right large linked.memory.buffers 8 7 31 []) 7 33)
      7
      7
sealed-HintsLead = record {
  left_links = 0;
  left_target = 7;
  left_few = omega arith;
  left_leads = (refl, refl);
  right_links = 0;
  right_target = 7;
  right_few = omega arith;
  right_leads = (refl, refl);
}

pop-removes_example :
    (w' : World) × (border_pop 4 side_right 1 hint linked 7 junk ≡ some (w', backoff))
    × IsRemoved 4 side_right large (51 ∷ 52 ∷ []) 8 7 [] [] w'
unfolding values
pop-removes_example =
    pop-removes 4 side_right large 0 hint linked 7 junk [] (linked-IsChain, no_values) refl refl
      (λ e. omega arith) sealed-HintsLead

-- ===== src/OfDeque/Create.antt =====
-- deque/OFDeque.hpp: the constructor, and what a search for an edge finds in the new deque.
mod Tests
use unbounded_obstruction_fr.Base.{
  ℕ, zero, suc, ◌+◌, ◌-◌, ◌/◌, ◌<◌, ◌≤◌, ◌≡◌, ◌≢◌, refl, inl, inr, ◌⊎◌, true, false, Bool-cases,
  List, [], ◌∷◌, arith, ◌==◌, ltb, ==_self, update, if◌then◌else◌, tests, some,
}
use unbounded_obstruction_fr.OfDeque.Slot.{
  SlotType, type_left, type_right, type_value, Side, side_left, side_right, Slot, Buffer, far_type,
  near_type, far_index, near_link_index, fill, edge_ok,
}
use unbounded_obstruction_fr.OfDeque.Hints.{GlobalHint, Memory, Hazards, global_hint}
use unbounded_obstruction_fr.OfDeque.Interior.Inv.{values_none}
use unbounded_obstruction_fr.OfDeque.Search.{found, find_edge}
use unbounded_obstruction_fr.OfDeque.Search.Alone.{EndsAt, from_near, find_edge-alone}
use unbounded_obstruction_fr.OfDeque.Border.{World}
use unbounded_obstruction_fr.OfDeque.Border.Chain.{content, IsChain, Ends}

-- The constructor, of one thread's view: `address` is the block that the pool gives for the first buffer,
-- `raw` what it holds, and `others` the rest of the memory.
unfoldable pub create : (size address : ℕ) → (raw : ℕ → Slot) → (others : ℕ → Buffer) → World
unfolding fill
create size address raw others =
    let hint : GlobalHint = record { buffer = address; count = 0 } in
    record {
      memory = record {
        buffers = update others address (fill raw (size / 2));
        left_global_hint = hint;
        right_global_hint = hint;
      };
      left_cache = 0;
      right_cache = 0;
      hazards = record { slot_0 = 0; slot_1 = 0 };
      retired = [];
    }

left_not : type_left ≢ type_value
left_not e = ground arith

right_not : type_right ≢ type_value
right_not e = ground arith

module _ (size address : ℕ) (raw : ℕ → Slot) (others : ℕ → Buffer) (large : 4 ≤ size) where
  -- The edge of a new deque on each side.
  abbrev pub middle : Side → ℕ
  middle side_left = size / 2
  middle side_right = size / 2 - 1

  create-EndsAt :
      (side : Side) → EndsAt size side (create size address raw others).memory address (middle side)
  unfolding create fill
  create-EndsAt side_left = record {
    large = omega arith;
    edge_inside = omega arith;
    edge_bound = omega arith;
    beyond = λ i p q. rw (==_self address) (ground arith);
    until = λ i p q. rw (==_self address) (ground arith);
    near_end = rw (==_self address) (ground arith);
  }
  create-EndsAt side_right = record {
    large = omega arith;
    edge_inside = omega arith;
    edge_bound = omega arith;
    beyond = λ i p q. rw (==_self address) (ground arith);
    until = λ i p q. rw (==_self address) (ground arith);
    near_end = rw (==_self address) (ground arith);
  }

  create-Ends :
      (side : Side) → Ends size side (create size address raw others).memory.buffers address
  unfolding create fill
  create-Ends side_left = rw (==_self address) (ground arith)
  create-Ends side_right = rw (==_self address) (ground arith)

  no_value : (i : ℕ) → ((fill raw (size / 2)).slots i).type ≢ type_value
  unfolding fill
  no_value i e = elim (Bool-cases (ltb i (size / 2))) [
    | inl below ↦ left_not (rw below at e)
    | inr above ↦ right_not (rw above at e)
  ]

  content-create :
      (side : Side)
      → content size side (create size address raw others).memory.buffers (address ∷ []) ≡ []
  unfolding create
  content-create side_left =
      rw
        (
          ==_self address,
          values_none (fill raw (size / 2)).slots 1 (size - 2) (λ i p q. no_value i),
        )
        refl
  content-create side_right =
      rw
        (
          ==_self address,
          values_none (fill raw (size / 2)).slots 1 (size - 2) (λ i p q. no_value i),
        )
        refl

  -- In a new deque of at least four slots in a buffer, on either side, the chain is the one buffer, it
  -- ends in a far null and holds nothing, and `findEdge` that no other thread interrupts finds the edge
  -- in its middle, which passes the checks of `doPush` and `doPop`.
  pub create_lem :
      (side : Side) (z : Hazards) (t : ℕ)
      → (let m = (create size address raw others).memory in
          let hint : GlobalHint = record { buffer = address; count = 0 } in
          let slots = (m.buffers address).slots in
          Ends size side m.buffers address
          × (content size side m.buffers (address ∷ []) ≡ [])
          × ((t' : ℕ) × (find_edge size side (λ _. m) hint size z t
                ≡ some (found (record { buffer = address; index = middle side }) z t')))
          × (edge_ok size side
                (middle side)
                (slots (middle side))
                (slots (far_index side (middle side)))
              ≡ true))
  create_lem side z t =
      let m = (create size address raw others).memory in
      let hint : GlobalHint = record { buffer = address; count = 0 } in
      let (finds, passes) =
        find_edge-alone size side m hint (middle side) (create-EndsAt side) z t in
      (create-Ends side, content-create side, finds, passes)

-- ===== src/OfDeque/Search.antt =====
-- deque/OFDeque.hpp: `findEdge` and `oracle`, as reads of a memory that other threads change at any time.
pub mod Protected
pub mod Alone
mod Tests
use unbounded_obstruction_fr.Base.{
  ℕ, zero, suc, ◌+◌, ◌-◌, ◌^◌, Bool, true, false, not, ◌&&◌, ◌||◌, Option, none, some, ◌==◌, ltb,
  leb, if◌then◌else◌,
}
use unbounded_obstruction_fr.OfDeque.Slot.{
  SlotType, type_left, type_right, type_sealed, type_value, Side, side_left, side_right, Slot,
  same_type, far_type, near_type, far_index, far_link_index, near_link_index, far_value_index,
  near_value_index, Buffer,
}
use unbounded_obstruction_fr.OfDeque.Hints.{
  GlobalHint, Memory, global_hint, local_hint, History, Hazards, reserve, reserve_hint,
}

-- `-GetFarDirection<S>()`
abbrev pub other_side : Side → Side
other_side side_left = side_right
other_side side_right = side_left

-- `Edge`
pub record Edge : Type 0 where
  pub buffer : ℕ
  pub index : ℕ

-- The local variables of `findEdge`; `second` is `nextHazSlot`.
pub record Walk : Type 0 where
  pub buffer : ℕ
  pub index : ℕ
  pub hazards : Hazards
  pub second : Bool
  pub time : ℕ

-- How a round of `findEdge` ends.
pub data Look : Type 0 where
  found : Edge → Hazards → (t : ℕ) → Look
  walked : Walk → Look
  hint_changed : Hazards → (t : ℕ) → Look
  aborted : Look

-- The index that `findEdge` starts from, of a local hint of 32 bits in two's complement.
abbrev pub clamped : (size hint : ℕ) → ℕ
clamped size hint =
    if leb (2 ^ 31) hint || ltb hint 1 then 1 else if leb (size - 1) hint then size - 2 else hint

-- `nextHazSlot` is flipped with each reservation.
abbrev pub reserved_next : Walk → (ptr : ℕ) → Walk
reserved_next w ptr = record w { hazards = reserve w.hazards ptr w.second; second = not w.second }

module _ (size : ℕ) (side : Side) (h : History) (hint : GlobalHint) where
  abbrev pub type_at : (t buffer index : ℕ) → SlotType
  type_at t buffer index = (((h t).buffers buffer).slots index).type

  abbrev pub link_at : (t buffer index : ℕ) → ℕ
  link_at t buffer index = (((h t).buffers buffer).slots index).word

  -- `hint.m_count` is still the count of the global hint.
  abbrev pub same_count : ℕ → Bool
  same_count t = hint.count == (global_hint side (h t)).count

  -- The search goes on in the neighbor, from its local hint.
  abbrev pub enter : Walk → (neighbor t : ℕ) → Walk
  enter w neighbor t = record w {
    buffer = neighbor;
    index = clamped size (local_hint side ((h t).buffers neighbor));
    time = t + 1;
  }

  -- The reservation of the neighbor, the check of the hint at time `t`, the load of a type of the
  -- neighbor at `t + 1`, and what follows if that type ends the search.
  abbrev pub visit : Walk → (neighbor index t : ℕ) → (ends : SlotType → Bool) → Edge → Look
  visit w neighbor index t ends edge =
      let w' = reserved_next w neighbor in
      if same_count t
      then (if ends (type_at (t + 1) neighbor index)
          then found edge w'.hazards (t + 2)
          else walked (enter w' neighbor (t + 2)))
      else hint_changed w'.hazards (t + 1)

  unfoldable pub look_far_link : Walk → Look
  look_far_link w =
      let t = w.time in
      let neighbor = link_at t w.buffer w.index in
      if same_type (type_at t w.buffer w.index) (far_type side)
      then walked (record w { index = far_index (other_side side) w.index; time = t + 1 })
      else visit w neighbor (near_value_index size side) (t + 1)
          (λ type. same_type type (far_type side) || same_type type type_sealed)
          (record { buffer = w.buffer; index = far_value_index size side })

  -- The load of the slot beyond: the edge is here, or further out.
  unfoldable pub look_out : Walk → Look
  look_out w =
      let t = w.time in
      let out = far_index side w.index in
      if same_type (type_at (t + 1) w.buffer out) (far_type side)
      then found (record { buffer = w.buffer; index = w.index }) w.hazards (t + 2)
      else walked (record w { index = out; time = t + 2 })

  unfoldable pub look_near_link : Walk → Look
  unfolding look_out
  look_near_link w =
      let t = w.time in
      let neighbor = link_at t w.buffer w.index in
      if same_type (type_at t w.buffer w.index) (near_type side)
      then look_out w
      else if same_type (type_at t w.buffer w.index) type_value
      then visit w neighbor (far_value_index size side) (t + 1)
          (λ type. not (same_type type (far_type side)))
          (record { buffer = neighbor; index = far_value_index size side })
      else aborted

  -- The near or the far value slot is sealed.
  unfoldable pub look_sealed : Walk → Look
  look_sealed w =
      let t = w.time in
      let far_neighbor = link_at (t + 1) w.buffer (far_link_index size side) in
      let near_neighbor = link_at (t + 1) w.buffer (near_link_index size side) in
      if w.index == far_value_index size side
      then visit w far_neighbor (near_value_index size side) (t + 2)
          (λ type. same_type type (far_type side)) (record { buffer = w.buffer; index = w.index })
      else if w.index == near_value_index size side
      then visit w near_neighbor (far_value_index size side) (t + 2)
          (λ type. same_type type (near_type side) || same_type type type_value)
          (record { buffer = near_neighbor; index = far_value_index size side })
      else aborted

  unfoldable pub look_slot : Walk → Look
  unfolding look_out look_sealed
  look_slot w =
      let t = w.time in
      if same_type (type_at t w.buffer w.index) (far_type side)
      then walked (record w { index = far_index (other_side side) w.index; time = t + 1 })
      else if same_type (type_at t w.buffer w.index) type_sealed
      then look_sealed w
      else look_out w

  -- One round of the loop of `findEdge`.
  unfoldable pub look : Walk → Look
  unfolding look_far_link look_near_link look_slot
  look w =
      if w.index == far_link_index size side
      then look_far_link w
      else if w.index == near_link_index size side
      then look_near_link w
      else look_slot w

  -- The loop goes on as long as a round walks.
  abbrev pub after_look : (again : Walk → Option Look) → Look → Option Look
  after_look again (walked w) = again w
  after_look again other = some other

  -- At most `fuel` rounds.
  unfoldable pub search : (fuel : ℕ) → Walk → Option Look
  unfolding look
  search zero w = none
  search (suc fuel) w = after_look (λ w'. search fuel w') (look w)

  -- `findEdge`, from time `t` on.
  unfoldable pub find_edge : (fuel : ℕ) → Hazards → (t : ℕ) → Option Look
  unfolding search
  find_edge fuel z t = search fuel (record {
    buffer = hint.buffer;
    index = clamped size (local_hint side ((h t).buffers hint.buffer));
    hazards = z;
    second = true;
    time = t + 1;
  })

-- `OracleResult`
pub record OracleResult : Type 0 where
  pub hint : GlobalHint
  pub edge : Edge

-- How `oracle` goes on with what `findEdge` returns; `again` is the rest of its loop.
abbrev pub oracle_after :
    GlobalHint
    → (again : Hazards → ℕ → Option (OracleResult × Hazards × ℕ)) → Option Look
    → Option (OracleResult × Hazards × ℕ)
oracle_after hint again (some (found edge z t)) = some (record { hint = hint; edge = edge }, z, t)
oracle_after hint again (some (hint_changed z t)) = again z t
oracle_after hint again _ = none

unfoldable pub oracle :
    (rounds fuel size : ℕ)
    → Side
    → History
    → Hazards
    → (t : ℕ) → Option (OracleResult × Hazards × ℕ)
unfolding find_edge reserve_hint
oracle zero fuel size side h z t = none
oracle (suc rounds) fuel size side h z t = elim (reserve_hint fuel side h z false t) [
  | none ↦ none
  | some (hint, z', t') ↦
      oracle_after hint (λ z'' t''. oracle rounds fuel size side h z'' t'')
        (find_edge size side h hint fuel z' t')
]

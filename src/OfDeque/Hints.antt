-- ===== src/OfDeque/Hints.antt =====
-- deque/OFDeque.hpp: the global hints, `reserveHint`, `isSealed`, `findActiveBuffer` and `updateHint`,
-- as reads of a memory that other threads change at any time.
pub mod Sealed
pub mod Publish
pub mod Alone
mod Tests
use unbounded_obstruction_fr.Base.{
  ℕ, zero, suc, ◌+◌, ◌-◌, ◌%◌, ◌^◌, Bool, true, false, not, ◌&&◌, ◌||◌, Option, none, some, ◌==◌,
  ltb, leb, if◌then◌else◌, update,
}
use unbounded_obstruction_fr.OfDeque.Slot.{
  SlotType, type_sealed, Side, side_left, side_right, Slot, same_type, far_link_index,
  near_link_index, far_value_index, near_value_index, Buffer,
}

-- `GlobalHint`, whose count has 32 bits
pub record GlobalHint : Type 0 where
  pub buffer : ℕ
  pub count : ℕ

-- Buffers by address, and the global hints.
pub record Memory : Type 0 where
  pub buffers : ℕ → Buffer
  pub left_global_hint : GlobalHint
  pub right_global_hint : GlobalHint

abbrev pub global_hint : Side → Memory → GlobalHint
global_hint side_left m = m.left_global_hint
global_hint side_right m = m.right_global_hint

abbrev pub local_hint : Side → Buffer → ℕ
local_hint side_left b = b.left_hint
local_hint side_right b = b.right_hint

-- What the memory is at each access of the thread. Between two of them, others may have done anything.
abbrev pub History : Type 0
History = ℕ → Memory

-- The thread's own two hazard slots, which no other thread writes: `reserve` of the slot 0 or 1.
pub record Hazards : Type 0 where
  pub slot_0 : ℕ
  pub slot_1 : ℕ

abbrev pub reserve : Hazards → (ptr : ℕ) → (second : Bool) → Hazards
reserve z ptr false = record z { slot_0 = ptr }
reserve z ptr true = record z { slot_1 = ptr }

-- The pointer in a hazard slot.
abbrev pub reserved : Hazards → (second : Bool) → ℕ
reserved z false = z.slot_0
reserved z true = z.slot_1

-- `reserveHint`, from time `t` on, in at most `fuel` rounds: the hint, the hazard slots and the time.
unfoldable pub reserve_hint :
    (fuel : ℕ)
    → Side
    → History
    → Hazards
    → (second : Bool) → (t : ℕ) → Option (GlobalHint × Hazards × ℕ)
reserve_hint zero side h z second t = none
reserve_hint (suc fuel) side h z second t =
    let hint = global_hint side (h t) in
    let z' = reserve z hint.buffer second in
    let again = reserve_hint fuel side h z' second (t + 2) in
    if hint.count == (global_hint side (h (t + 1))).count then some (hint, z', t + 2) else again

-- How `findActiveBuffer` ends: with a buffer, with a changed hint, or with a failed assertion.
pub data Active : Type 0 where
  active : (buffer : ℕ) → Hazards → (t : ℕ) → Active
  hint_changed : Hazards → (t : ℕ) → Active
  aborted : Active

-- How a round of `updateHint` goes on. `published` and `lost` are its exchange of the hint, and `failed`
-- is a failed assertion.
pub data Update : Type 0 where
  done_by_others : (t : ℕ) → Update
  published : GlobalHint → (t : ℕ) → Update
  lost : Hazards → (t : ℕ) → Update
  failed : Update

abbrev pub same_hint : GlobalHint → GlobalHint → Bool
same_hint a b = (a.buffer == b.buffer) && (a.count == b.count)

abbrev pub publish : Side → History → GlobalHint → (buffer : ℕ) → Hazards → (t : ℕ) → Update
publish side h hint buffer z t =
    if same_hint (global_hint side (h t)) hint
    then published (record { buffer = buffer; count = (hint.count + 1) % 2 ^ 32 }) (t + 1)
    else lost z (t + 1)

-- After `findActiveBuffer`, whose buffer is asserted not to be `NULL`.
abbrev pub after_active : Side → History → GlobalHint → Active → Update
after_active side h hint (active buffer z t) =
    if buffer == 0 then failed else publish side h hint buffer z t
after_active side h hint (hint_changed z t) = lost z t
after_active side h hint aborted = failed

module _ (size : ℕ) where
  -- What `isSealed` returns, where -1 is `none`.
  abbrev pub sealed_index : Slot → Slot → Option ℕ
  sealed_index n0 n1 =
      if same_type n0.type type_sealed
      then some 1
      else if same_type n1.type type_sealed
      then some (size - 2)
      else none

  -- `isSealed`: the index and the time.
  unfoldable pub is_sealed : (fuel : ℕ) → History → (buffer : ℕ) → (t : ℕ) → Option (Option ℕ × ℕ)
  is_sealed zero h buffer t = none
  is_sealed (suc fuel) h buffer t =
      let n0 = ((h t).buffers buffer).slots 1 in
      let n1 = ((h (t + 1)).buffers buffer).slots (size - 2) in
      let again = is_sealed fuel h buffer (t + 3) in
      if n0.count == (((h (t + 2)).buffers buffer).slots 1).count
      then some (sealed_index n0 n1, t + 3)
      else again

  -- The slot with the link that the `switch` on the sealed index loads.
  unfoldable pub link_index : Side → ℕ → Option ℕ
  link_index side i =
      if i == far_value_index size side
      then some (far_link_index size side)
      else if i == near_value_index size side
      then some (near_link_index size side)
      else none

  -- The rounds of `findActiveBuffer`; `second` is `nextHazSlot`.
  unfoldable pub active_from :
      (fuel : ℕ)
      → Side
      → History
      → GlobalHint
      → Hazards
      → (second : Bool) → (buffer t : ℕ) → Option Active
  unfolding is_sealed
  active_from zero side h hint z second buffer t = none
  active_from (suc fuel) side h hint z second buffer t = elim (is_sealed (suc fuel) h buffer t) [
    | none ↦ none
    | some (none, t') ↦ some (active buffer z t')
    | some (some i, t') ↦ elim (link_index side i) [
      | none ↦ some aborted
      | some link ↦
          let next = (((h t').buffers buffer).slots link).word in
          let z' = reserve z next second in
          let again = active_from fuel side h hint z' (not second) next (t' + 2) in
          if hint.count == (global_hint side (h (t' + 1))).count
          then again
          else some (hint_changed z' (t' + 2))
    ]
  ]

  unfoldable pub find_active_buffer :
      (fuel : ℕ) → Side → History → GlobalHint → Hazards → (t : ℕ) → Option Active
  unfolding active_from
  find_active_buffer fuel side h hint z t = active_from fuel side h hint z true hint.buffer t

  unfoldable pub update_round :
      (fuel : ℕ) → Side → History → (threshold : ℕ) → Hazards → (t : ℕ) → Option Update
  unfolding is_sealed find_active_buffer
  update_round fuel side h threshold z t =
      let hint = global_hint side (h t) in
      elim (is_sealed fuel h hint.buffer (t + 1)) [
        | none ↦ none
        | some (none, t') ↦ some (
            if ltb threshold hint.count
            then done_by_others t'
            else publish side h hint hint.buffer z t')
        | some (some i, t') ↦ elim (find_active_buffer fuel side h hint z t') [
          | none ↦ none
          | some found ↦ some (after_active side h hint found)
        ]
      ]

  -- `updateHint` after its load of the threshold, in at most `rounds` rounds: it returns because
  -- others have done its work or with the hint that it has published.
  unfoldable pub update_from :
      (rounds fuel : ℕ) → Side → History → (threshold : ℕ) → Hazards → (t : ℕ) → Option Update
  unfolding update_round
  update_from zero fuel side h threshold z t = none
  update_from (suc rounds) fuel side h threshold z t =
      elim (update_round fuel side h threshold z t) [
        | none ↦ none
        | some (lost z' t') ↦ update_from rounds fuel side h threshold z' t'
        | some other ↦ some other
      ]

  unfoldable pub update_hint :
      (rounds fuel : ℕ) → Side → History → Hazards → (t : ℕ) → Option Update
  unfolding update_from
  update_hint rounds fuel side h z t =
      update_from rounds fuel side h (global_hint side (h t)).count z (t + 1)

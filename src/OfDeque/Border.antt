-- ===== src/OfDeque/Border.antt =====
-- deque/OFDeque.hpp: the branches of `doPush` and `doPop` for an edge at the border of a buffer (append,
-- straddle, seal and remove), in a round with no access of another thread in between.
pub mod Chain
pub mod Append
pub mod Straddle
pub mod Boundary
pub mod Removal
pub mod Sealing
mod Tests
use unbounded_obstruction_fr.Base.{
  ℕ, ◌+◌, ◌-◌, ◌%◌, ◌^◌, Bool, true, false, not, ◌&&◌, ◌||◌, Option, none, some, List, [], ◌∷◌,
  ◌==◌, if◌then◌else◌, update,
}
use unbounded_obstruction_fr.OfDeque.Slot.{
  SlotType, type_sealed, type_value, Side, side_left, side_right, Slot, same_type, bump, far_type,
  near_type, far_link_index, near_link_index, far_value_index, near_value_index, Buffer, cas_safe,
  cas_type, cas_value, cas_link, edge_ok,
}
use unbounded_obstruction_fr.OfDeque.Hints.{
  GlobalHint, Memory, global_hint, Hazards, Update, done_by_others, published, lost, failed,
  same_hint, update_hint,
}

-- The memory, the thread's two cached buffers, where 0 is `NULL`, and the buffers that it has handed to
-- the hazard tracker.
pub record World : Type 0 where
  pub memory : Memory
  pub left_cache : ℕ
  pub right_cache : ℕ
  pub hazards : Hazards
  pub retired : List ℕ

-- The block that the pool would allocate, what it holds, and the slots that the code leaves
-- uninitialised.
pub record Fresh : Type 0 where
  pub address : ℕ
  pub raw : ℕ → Slot
  pub link_raw : Slot
  pub value_raw : Slot

-- The words that the exchanges of a pop leave uninitialised in their new slots.
pub record Junk : Type 0 where
  pub word_sealed : ℕ
  pub word_cut : ℕ
  pub word_taken : ℕ

-- How a round of `doPush` or `doPop` ends: `goto backoff`, or `goto out`.
pub data Outcome : Type 0 where
  backoff : Outcome
  pushed : Outcome
  popped : (value : ℕ) → Outcome
  found_empty : Outcome

abbrev pub buffer_cache : Side → World → ℕ
buffer_cache side_left w = w.left_cache
buffer_cache side_right w = w.right_cache

abbrev pub set_cache : Side → ℕ → World → World
set_cache side n w = record w {
  left_cache = elim side [ side_left ↦ n | side_right ↦ w.left_cache ];
  right_cache = elim side [ side_left ↦ w.right_cache | side_right ↦ n ];
}

abbrev pub set_hint : Side → GlobalHint → Memory → Memory
set_hint side hint m = record m {
  left_global_hint = elim side [ side_left ↦ hint | side_right ↦ m.left_global_hint ];
  right_global_hint = elim side [ side_left ↦ m.right_global_hint | side_right ↦ hint ];
}

abbrev pub set_buffer : Memory → ℕ → Buffer → Memory
set_buffer m a b = record m { buffers = update m.buffers a b }

-- An exchange on a slot of the buffer at `a`.
abbrev pub at_buffer : World → ℕ → (Buffer → Bool × Buffer) → Bool × World
at_buffer w a cas =
    let (ok, b) = cas (w.memory.buffers a) in (ok, record w { memory = set_buffer w.memory a b })

-- The exchange of the global hint that the oracle returned, for `buffer`. It may fail.
abbrev pub move_global_hint : Side → GlobalHint → (buffer : ℕ) → World → World
move_global_hint side hint buffer w =
    if same_hint (global_hint side w.memory) hint
    then record w {
      memory =
          set_hint side (record { buffer = buffer; count = (hint.count + 1) % 2 ^ 32 }) w.memory;
    }
    else w

-- `slot.m_count++`
abbrev pub counted_up : Slot → Slot
counted_up s = record s { count = bump s.count }

module _ (size : ℕ) where
  -- What `updateHint` does to the memory.
  abbrev pub hint_updated : Side → World → Option Update → Option World
  hint_updated side w (some (done_by_others t)) = some w
  hint_updated side w (some (published hint t)) =
      some (record w { memory = set_hint side hint w.memory })
  hint_updated side w _ = none

  unfoldable pub run_update_hint : (fuel : ℕ) → Side → World → Option World
  run_update_hint fuel side w =
      hint_updated side w (update_hint size 1 fuel side (λ _. w.memory) w.hazards 0)

  -- `retire`; the hazard tracker is a list.
  unfoldable pub retire_buffer : (fuel : ℕ) → World → (buffer : ℕ) → Option World
  retire_buffer fuel w buffer = elim (run_update_hint fuel side_left w) [
    | none ↦ none
    | some w₁ ↦ elim (run_update_hint fuel side_right w₁) [
      | none ↦ none
      | some w₂ ↦ some (record w₂ { retired = buffer ∷ w₂.retired })
    ]
  ]

  module _ (side : Side) where
    -- The new buffer of an append: all far nulls.
    abbrev pub blank_buffer : (raw : ℕ → Slot) → Buffer
    blank_buffer raw = record {
      left_hint = near_value_index size side;
      right_hint = near_value_index size side;
      slots = λ i. record (raw i) { type = far_type side };
    }

    -- `getBufferCache<S>()[tid]`, set up if it is `NULL`.
    abbrev pub cached_buffer : Fresh → World → ℕ × World
    cached_buffer fresh w =
        if buffer_cache side w == 0
        then (
          fresh.address,
          set_cache side fresh.address
              (record w { memory = set_buffer w.memory fresh.address (blank_buffer fresh.raw) }),
        )
        else (buffer_cache side w, w)

    -- The link back and the value are stored into the new buffer.
    abbrev pub inserted : Fresh → Buffer → (buffer value : ℕ) → Buffer
    inserted fresh b buffer value = record b {
      slots =
          update
            (update b.slots (near_link_index size side)
              (record fresh.link_raw { word = buffer; type = type_value }))
            (near_value_index size side)
            (record fresh.value_raw { word = value; type = type_value });
    }

    abbrev pub stored : Fresh → World → (new buffer value : ℕ) → World
    stored fresh w new buffer value = record w {
      memory = set_buffer w.memory new (inserted fresh (w.memory.buffers new) buffer value);
    }

    -- The two exchanges of an append.
    unfoldable pub link_new :
        GlobalHint → World → (new buffer : ℕ) → (near far : Slot) → World × Outcome
    unfolding cas_safe cas_link
    link_new hint w new buffer near far =
        let (safe, w₁) = at_buffer w buffer (λ b. cas_safe b (far_value_index size side) near) in
        let (linked, w₂) =
          at_buffer w₁ buffer (λ b. cas_link b (far_link_index size side) far new) in
        if safe
        then (if linked
            then (move_global_hint side hint new (set_cache side 0 w₂), pushed)
            else (w₁, backoff))
        else (w, backoff)

    unfoldable pub append :
        GlobalHint
        → Fresh
        → World
        → (buffer : ℕ) → (near far : Slot) → (value : ℕ) → World × Outcome
    append hint fresh w buffer near far value =
        let (new, w') = cached_buffer fresh w in
        link_new hint (stored fresh w' new buffer value) new buffer near far

    -- `casSafe` on the near slot, `casType` on the link, and `retire`.
    unfoldable pub remove_sealed :
        (fuel : ℕ)
        → World
        → (buffer neighbor : ℕ) → (near far : Slot) → (junk : ℕ) → Option (World × Bool × Bool)
    unfolding cas_safe cas_type
    remove_sealed fuel w buffer neighbor near far junk =
        let (safe, w₁) = at_buffer w buffer (λ b. cas_safe b (far_value_index size side) near) in
        let (cut, w₂) =
          at_buffer w₁ buffer
            (λ b. cas_type b (far_link_index size side) far (far_type side) junk) in
        if safe
        then (if cut
            then elim (retire_buffer fuel w₂ neighbor) [
              | none ↦ none
              | some w₃ ↦ some (w₃, true, true)
            ]
            else some (w₁, true, false))
        else some (w, false, false)

    -- The straddling push, or the removal of a sealed neighbor.
    unfoldable pub straddle_push :
        (fuel : ℕ)
        → GlobalHint
        → World
        → (buffer : ℕ) → (near far : Slot) → (value junk : ℕ) → Option (World × Outcome)
    unfolding cas_safe cas_value
    straddle_push fuel hint w buffer near far value junk =
        let neighbor = far.word in
        let reaching = (w.memory.buffers neighbor).slots (near_value_index size side) in
        let back = (w.memory.buffers neighbor).slots (near_link_index size side) in
        let (safe, w₁) = at_buffer w buffer (λ b. cas_safe b (far_value_index size side) near) in
        let (done, w₂) =
          at_buffer w₁ neighbor (λ b. cas_value b (near_value_index size side) reaching value) in
        if not (back.word == buffer)
        then some (w, backoff)
        else if same_type reaching.type (far_type side)
        then some (
            if safe
            then (if done then (move_global_hint side hint neighbor w₂, pushed) else (w₁, backoff))
            else (w, backoff))
        else if same_type reaching.type type_sealed
        then elim (remove_sealed fuel w buffer neighbor near far junk) [
          | none ↦ none
          | some (w', _, _) ↦ some (w', backoff)
        ]
        else some (w, backoff)

    -- `doPush` at the far value index of `buffer`, after the check of the edge.
    unfoldable pub border_push :
        (fuel : ℕ) → GlobalHint → Fresh → World → (buffer value junk : ℕ) → Option (World × Outcome)
    border_push fuel hint fresh w buffer value junk =
        let near = (w.memory.buffers buffer).slots (far_value_index size side) in
        let far = (w.memory.buffers buffer).slots (far_link_index size side) in
        if same_type far.type (far_type side)
        then some (append hint fresh w buffer near far value)
        else straddle_push fuel hint w buffer near far value junk

    -- A round of `doPush` whose edge is at the far value index of `buffer`, with the check of the edge.
    unfoldable pub edge_push :
        (fuel : ℕ) → GlobalHint → Fresh → World → (buffer value junk : ℕ) → Option (World × Outcome)
    unfolding edge_ok
    edge_push fuel hint fresh w buffer value junk =
        let near = (w.memory.buffers buffer).slots (far_value_index size side) in
        let far = (w.memory.buffers buffer).slots (far_link_index size side) in
        if edge_ok size side (far_value_index size side) near far
        then border_push fuel hint fresh w buffer value junk
        else some (w, backoff)

    -- The slot at the far value index has not changed since it was loaded.
    abbrev pub still_near : World → (buffer : ℕ) → (near : Slot) → Bool
    still_near w buffer near =
        near.count == ((w.memory.buffers buffer).slots (far_value_index size side)).count

    unfoldable pub boundary_pop :
        GlobalHint → World → (buffer : ℕ) → (near far : Slot) → (junk : ℕ) → World × Outcome
    unfolding cas_safe cas_type
    boundary_pop hint w buffer near far junk =
        let (safe, w₁) = at_buffer w buffer (λ b. cas_safe b (far_link_index size side) far) in
        let (taken, w₂) =
          at_buffer w₁ buffer
            (λ b. cas_type b (far_value_index size side) near (far_type side) junk) in
        if same_type near.type (near_type side) && still_near w buffer near
        then (w, found_empty)
        else if safe
        then (if taken
            then (move_global_hint side hint buffer w₂, popped near.word)
            else (w₁, backoff))
        else (w, backoff)

    -- `casSafe` on the near slot, and the neighbor's near value slot sealed: the memory, and the two slots
    -- as the thread goes on with them.
    unfoldable pub seal :
        World → (buffer neighbor : ℕ) → (near reach : Slot) → (junk : ℕ) → World × Slot × Slot
    unfolding cas_safe cas_type
    seal w buffer neighbor near reach junk =
        let (safe, w₁) = at_buffer w buffer (λ b. cas_safe b (far_value_index size side) near) in
        let (sealed, w₂) =
          at_buffer w₁ neighbor
            (λ b. cas_type b (near_value_index size side) reach type_sealed junk) in
        if safe
        then (if sealed
            then (w₂, counted_up near, record (counted_up reach) { type = type_sealed })
            else (w₁, counted_up near, reach))
        else (w, near, reach)

    -- After the attempt to seal: the far buffer is removed, and the boundary pop follows.
    unfoldable pub sealed_pop :
        (fuel : ℕ)
        → GlobalHint
        → World
        → (buffer neighbor : ℕ) → (near far reach : Slot) → Junk
        → Option (World × Outcome)
    sealed_pop fuel hint w buffer neighbor near far reach junk =
        if not (same_type reach.type type_sealed)
        then some (w, backoff)
        else if same_type near.type (near_type side) && still_near w buffer near
        then some (w, found_empty)
        else elim (remove_sealed fuel w buffer neighbor near far junk.word_cut) [
          | none ↦ none
          | some (w₁, safe, cut) ↦ some (
              if cut
              then boundary_pop hint w₁ buffer (counted_up near)
                  (record (counted_up far) { type = far_type side }) junk.word_taken
              else (w₁, backoff))
        ]

    unfoldable pub straddle_pop :
        (fuel : ℕ)
        → GlobalHint
        → World
        → (buffer : ℕ) → (near far : Slot) → Junk
        → Option (World × Outcome)
    straddle_pop fuel hint w buffer near far junk =
        let neighbor = far.word in
        let reach = (w.memory.buffers neighbor).slots (near_value_index size side) in
        let back = (w.memory.buffers neighbor).slots (near_link_index size side) in
        let (w', near', reach') = seal w buffer neighbor near reach junk.word_sealed in
        if not (back.word == buffer)
        then some (w, backoff)
        else if same_type reach.type (far_type side)
        then (if (same_type near.type (near_type side) || same_type near.type type_sealed)
              && still_near w buffer near
            then some (w, found_empty)
            else sealed_pop fuel hint w' buffer neighbor near' far reach' junk)
        else sealed_pop fuel hint w buffer neighbor near far reach junk

    -- `doPop` at the far value index of `buffer`, after the check of the edge.
    unfoldable pub border_pop :
        (fuel : ℕ) → GlobalHint → World → (buffer : ℕ) → Junk → Option (World × Outcome)
    border_pop fuel hint w buffer junk =
        let near = (w.memory.buffers buffer).slots (far_value_index size side) in
        let far = (w.memory.buffers buffer).slots (far_link_index size side) in
        if same_type far.type (far_type side)
        then some (boundary_pop hint w buffer near far junk.word_taken)
        else straddle_pop fuel hint w buffer near far junk

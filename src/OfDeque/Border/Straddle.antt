-- ===== src/OfDeque/Border/Straddle.antt =====
-- deque/OFDeque.hpp: a push into the empty buffer beyond the one of the edge.
use unbounded_obstruction_fr.Base.{
  ℕ, ◌+◌, ◌-◌, ◌≤◌, ◌<◌, ◌≡◌, ◌≢◌, refl, sym, ◌∙◌, ap, ap₂, false, some, List, [], ◌∷◌, arith,
  ==_iff, ==_self, ==-ne, update,
}
use unbounded_obstruction_fr.OfDeque.Slot.{
  SlotType, type_value, Side, side_left, side_right, same_type, far_type, far_link_index,
  far_value_index, near_value_index, Buffer, cas_safe, cas_value, bump,
}
use unbounded_obstruction_fr.OfDeque.Hints.{GlobalHint}
use unbounded_obstruction_fr.OfDeque.Interior.Inv.{values_none}
use unbounded_obstruction_fr.OfDeque.Border.{
  World, Fresh, pushed, counted_up, straddle_push, border_push,
}
use unbounded_obstruction_fr.OfDeque.Border.Chain.{
  glue, glue_nil, held, values_single, content, IsChain, content_same, content-Apart, IsChain-head,
  IsChain-second, indices, values-update, same_slot_self,
}
use unbounded_obstruction_fr.OfDeque.Border.Append.{IfPushed_lem, move_global_hint_lem, far_self}

pub far_other : (side : Side) (a : SlotType) → a ≡ type_value → same_type a (far_type side) ≡ false
far_other side_left a e = ground arith
far_other side_right a e = ground arith

module _ (size : ℕ) (side : Side) (large : 3 ≤ size) where
  module _ (B : ℕ → Buffer) (neighbor buffer value : ℕ) (chain : List ℕ) where
    abbrev safe_buffer : Buffer
    safe_buffer = record (B buffer) {
      slots =
          update (B buffer).slots (far_value_index size side)
            (counted_up ((B buffer).slots (far_value_index size side)));
    }

    abbrev reached : Buffer
    reached = record (B neighbor) {
      slots = update (B neighbor).slots (near_value_index size side) (record {
        word = value;
        count = bump ((B neighbor).slots (near_value_index size side)).count;
        type = type_value;
      });
    }

    abbrev straddled : ℕ → Buffer
    straddled = update (update B buffer safe_buffer) neighbor reached

    module _ (links : IsChain size side B (neighbor ∷ buffer ∷ chain))
        (empty : (i : ℕ)
          → 1 ≤ i
          → i < 1 + (size - 2)
          → ((B neighbor).slots i).type ≢ type_value) where
      straddled-IsChain : IsChain size side straddled (neighbor ∷ buffer ∷ chain)
      straddled-IsChain =
          let at = indices size side large in
          IsChain-head size side (update B buffer safe_buffer) neighbor reached (buffer ∷ chain)
            (rw (at.near_in, ==-ne buffer neighbor (λ e. links.0.0 (sym e))) refl)
            (IsChain-second size side B buffer safe_buffer neighbor chain (rw at.near_out refl)
              (rw at.far_out refl) links)

      reached-held : held size reached ≡ value ∷ []
      reached-held =
          let at = indices size side large in
          let nv = near_value_index size side in
          values_single size reached.slots nv 1 (size - 2) at.in_low at.in_high
            (rw (==_self nv) refl) (λ i p q ne. rw (==-ne nv i (λ e. ne (sym e))) (empty i p q))
          ∙ rw (==_self nv) refl

      content-straddled :
          content size side straddled (neighbor ∷ buffer ∷ chain)
          ≡ glue side (content size side B (neighbor ∷ buffer ∷ chain)) (value ∷ [])
      content-straddled =
          ap₂ (glue side)
            (content-Apart size side (update B buffer safe_buffer) neighbor reached (buffer ∷ chain)
                links.0
              ∙ content_same size side B buffer safe_buffer (buffer ∷ chain) (
                  values-update size (B buffer).slots (far_value_index size side) _ 1 (size - 2)
                    (λ p q. (refl, refl)))
              ∙ sym (glue_nil side _)
              ∙ ap (glue side (content size side B (buffer ∷ chain)))
                  (sym (values_none (B neighbor).slots 1 (size - 2) empty)))
            (rw (==_self neighbor) reached-held)

  -- The chain after a straddling push, with one value more.
  abbrev pub IsStraddled : (before chain : List ℕ) → (value : ℕ) → (ℕ → Buffer) → Type 0
  IsStraddled before chain value B =
      IsChain size side B chain × (content size side B chain ≡ glue side before (value ∷ []))

  -- In a memory that no other thread changes, a push whose edge borders on a linked neighbor, which holds
  -- no value and whose near value slot is a far null, stores the value there: the chain stays
  -- linked, and what it holds has the value added at the far end.
  pub straddle_push_lem :
      (fuel : ℕ) (hint : GlobalHint) (fresh : Fresh) (w : World) (buffer value junk : ℕ)
      (chain : List ℕ)
      → (let B = w.memory.buffers in
          let neighbor = ((B buffer).slots (far_link_index size side)).word in
          IsChain size side B (neighbor ∷ buffer ∷ chain)
          → ((i : ℕ) → 1 ≤ i → i < 1 + (size - 2) → ((B neighbor).slots i).type ≢ type_value)
          → ((B neighbor).slots (near_value_index size side)).type ≡ far_type side
          → (w' : World) × (border_push size side fuel hint fresh w buffer value junk
              ≡ some (w', pushed))
            × IsStraddled
                (content size side B (neighbor ∷ buffer ∷ chain))
                (neighbor ∷ buffer ∷ chain)
                value
                w'.memory.buffers)
  unfolding border_push straddle_push cas_safe cas_value
  straddle_push_lem fuel hint fresh w buffer value junk chain links empty null =
      let B = w.memory.buffers in
      let near = (B buffer).slots (far_value_index size side) in
      let far = (B buffer).slots (far_link_index size side) in
      let neighbor = far.word in
      let before = content size side B (neighbor ∷ buffer ∷ chain) in
      let back = (==_iff _ _).1 links.1.1.1 in
      let reaching = (B neighbor).slots (near_value_index size side) in
      let w₂ : World = record w {
        memory = record w.memory { buffers = straddled B neighbor buffer value chain };
      } in
      IfPushed_lem (λ w'. IsStraddled before (neighbor ∷ buffer ∷ chain) value w'.memory.buffers)
        (border_push size side fuel hint fresh w buffer value junk)
        (rw
          (
            border_push,
            straddle_push,
            far_other side far.type links.1.0.0,
            back,
            far_self side _ null,
            same_slot_self near,
            ==-ne buffer neighbor (λ e. links.0.0 (sym e)),
            same_slot_self reaching,
          )
          (move_global_hint_lem (λ B' c. IsStraddled before (neighbor ∷ buffer ∷ chain) value B')
            side hint neighbor w₂
            (
              straddled-IsChain B neighbor buffer value chain links empty,
              content-straddled B neighbor buffer value chain links empty,
            )))

-- ===== src/OfDeque/Border/Removal.antt =====
-- deque/OFDeque.hpp: the removal of a sealed buffer.
use mathlib.Core.Path.{subst}
use unbounded_obstruction_fr.Base.{
  ℕ, suc, ◌+◌, ◌-◌, ◌%◌, ◌^◌, ◌≤◌, ◌<◌, ◌≡◌, ◌≢◌, refl, sym, ◌∙◌, ap, true, false, some, List, ◌∷◌,
  arith, ==_iff, ==_self, ==-ne, ==_apart, update,
}
use unbounded_obstruction_fr.OfDeque.Slot.{
  SlotType, type_value, type_sealed, Side, side_left, side_right, same_type, far_type,
  far_link_index, near_link_index, far_value_index, near_value_index, Buffer, cas_safe, cas_type,
  bump,
}
use unbounded_obstruction_fr.OfDeque.Hints.{GlobalHint}
use unbounded_obstruction_fr.OfDeque.Interior.Inv.{values_none}
use unbounded_obstruction_fr.OfDeque.Hints.Alone.{Leads, update_hint-alone}
use unbounded_obstruction_fr.OfDeque.Border.{
  World, Fresh, backoff, counted_up, set_hint, run_update_hint, retire_buffer, remove_sealed,
  straddle_push, border_push,
}
use unbounded_obstruction_fr.OfDeque.Border.Chain.{
  glue, glue_nil, content, IsChain, Ends, content_same, IsChain-head, indices, values-update,
  same_slot_self,
}
use unbounded_obstruction_fr.OfDeque.Border.Straddle.{far_other}

pub sealed_not_far :
    (side : Side) (a : SlotType) → a ≡ type_sealed → same_type a (far_type side) ≡ false
sealed_not_far side_left a e = ground arith
sealed_not_far side_right a e = ground arith

pub sealed_self : (a : SlotType) → a ≡ type_sealed → same_type a type_sealed ≡ true
sealed_self a e = ground arith

module _ (size : ℕ) where
  -- The links of sealed buffers lead from the buffers of both global hints to ones that are not sealed,
  -- over at most `fuel` links, none of them `NULL`.
  pub record HintsLead (fuel : ℕ) (buffers : ℕ → Buffer) (left right : ℕ) : Type 0 where
    pub left_links : ℕ
    pub left_target : ℕ
    pub left_few : left_links ≤ fuel
    pub left_leads : Leads size side_left buffers left_links left left_target
    pub right_links : ℕ
    pub right_target : ℕ
    pub right_few : right_links ≤ fuel
    pub right_leads : Leads size side_right buffers right_links right right_target

  -- `retire` of a thread that runs alone returns.
  pub retire_buffer_lem :
      (fuel : ℕ) (w : World) (buffer : ℕ)
      → HintsLead fuel w.memory.buffers w.memory.left_global_hint.buffer
          w.memory.right_global_hint.buffer
      → (w' : World) × (retire_buffer size (suc fuel) w buffer ≡ some w')
        × (w'.memory.buffers ≡ w.memory.buffers)
        × (w'.retired ≡ buffer ∷ w.retired)
  unfolding retire_buffer run_update_hint
  retire_buffer_lem fuel w buffer leads =
      let (t, left) =
        update_hint-alone size side_left w.memory leads.left_links fuel leads.left_target 0
          w.hazards leads.left_few leads.left_leads in
      let left_hint : GlobalHint = record {
        buffer = leads.left_target;
        count = (w.memory.left_global_hint.count + 1) % 2 ^ 32;
      } in
      let w₁ : World = record w { memory = set_hint side_left left_hint w.memory } in
      let (t', right) =
        update_hint-alone size side_right w₁.memory leads.right_links fuel leads.right_target 0
          w.hazards leads.right_few leads.right_leads in
      let right_hint : GlobalHint = record {
        buffer = leads.right_target;
        count = (w.memory.right_global_hint.count + 1) % 2 ^ 32;
      } in
      (
        record w₁ {
          memory = set_hint side_right right_hint w₁.memory;
          retired = buffer ∷ w.retired;
        },
        rw (retire_buffer, run_update_hint, left, right) refl,
        refl,
        refl,
      )

module _ (size : ℕ) (side : Side) (large : 3 ≤ size) where
  module _ (B : ℕ → Buffer) (buffer junk : ℕ) where
    abbrev safe_buffer : Buffer
    safe_buffer = record (B buffer) {
      slots =
          update (B buffer).slots (far_value_index size side)
            (counted_up ((B buffer).slots (far_value_index size side)));
    }

    abbrev cut_buffer : Buffer
    cut_buffer = record safe_buffer {
      slots = update safe_buffer.slots (far_link_index size side) (record {
        word = junk;
        count = bump ((B buffer).slots (far_link_index size side)).count;
        type = far_type side;
      });
    }

    -- The buffers after the link to the neighbor has been cut.
    abbrev pub cut : ℕ → Buffer
    cut = update (update B buffer safe_buffer) buffer cut_buffer

  -- The chain after the removal of a neighbor, which holds what it did.
  abbrev pub IsRemoved :
      (before : List ℕ) → (neighbor buffer : ℕ) → (chain retired : List ℕ) → World → Type 0
  IsRemoved before neighbor buffer chain retired w =
      IsChain size side w.memory.buffers (buffer ∷ chain)
      × Ends size side w.memory.buffers buffer
      × (content size side w.memory.buffers (buffer ∷ chain) ≡ before)
      × (w.retired ≡ neighbor ∷ retired)

  -- A neighbor at the far end that holds no value.
  abbrev pub IsEmptyNeighbor : (ℕ → Buffer) → (neighbor buffer : ℕ) → List ℕ → Type 0
  IsEmptyNeighbor B neighbor buffer chain =
      IsChain size side B (neighbor ∷ buffer ∷ chain)
      × ((i : ℕ) → 1 ≤ i → i < 1 + (size - 2) → ((B neighbor).slots i).type ≢ type_value)

  pub remove_sealed-cut :
      (fuel : ℕ) (w : World) (buffer neighbor junk : ℕ)
      → HintsLead size fuel
          (cut w.memory.buffers buffer junk)
          w.memory.left_global_hint.buffer
          w.memory.right_global_hint.buffer
      → (let slots = (w.memory.buffers buffer).slots in
          (w' : World) × (remove_sealed size side
              (suc fuel)
              w
              buffer
              neighbor
              (slots (far_value_index size side))
              (slots (far_link_index size side))
              junk
            ≡ some (w', true, true))
          × (w'.memory.buffers ≡ cut w.memory.buffers buffer junk)
          × (w'.retired ≡ neighbor ∷ w.retired))
  unfolding remove_sealed cas_safe cas_type
  remove_sealed-cut fuel w buffer neighbor junk leads =
      let at = indices size side large in
      let B = w.memory.buffers in
      let near = (B buffer).slots (far_value_index size side) in
      let far = (B buffer).slots (far_link_index size side) in
      let w₂ : World = record w { memory = record w.memory { buffers = cut B buffer junk } } in
      let (w', done, same, gone) = retire_buffer_lem size fuel w₂ neighbor leads in
      (
        w',
        rw
            (
              remove_sealed,
              same_slot_self near,
              ==_self buffer,
              at.far_out,
              same_slot_self far,
              done,
            )
            refl,
        same,
        gone,
      )

  module _ (B : ℕ → Buffer) (neighbor buffer junk : ℕ) (chain : List ℕ)
      (border : IsEmptyNeighbor B neighbor buffer chain) where
    cut-IsChain : IsChain size side (cut B buffer junk) (buffer ∷ chain)
    cut-IsChain =
        let at = indices size side large in
        let once =
          IsChain-head size side B buffer (safe_buffer B buffer junk) chain (rw at.near_out refl)
            border.0.2 in
        IsChain-head size side (update B buffer (safe_buffer B buffer junk)) buffer
          (cut_buffer B buffer junk) chain
          (rw
            (
              ==_self buffer,
              ==-ne (far_link_index size side) (near_link_index size side)
                  (λ e. ==_apart _ _ at.links (sym e)),
              at.near_out,
            )
            refl)
          once

    cut-Ends : Ends size side (cut B buffer junk) buffer
    cut-Ends = rw (==_self buffer, ==_self (far_link_index size side)) refl

    content-cut :
        content size side (cut B buffer junk) (buffer ∷ chain)
        ≡ content size side B (neighbor ∷ buffer ∷ chain)
    content-cut =
        let at = indices size side large in
        content_same size side (update B buffer (safe_buffer B buffer junk)) buffer
          (cut_buffer B buffer junk) (buffer ∷ chain)
          (rw (==_self buffer) (
            values-update size (safe_buffer B buffer junk).slots (far_link_index size side) _ 1
              (size - 2) (λ p q. absurd (at.far_outside p q))))
        ∙ content_same size side B buffer (safe_buffer B buffer junk) (buffer ∷ chain) (
            values-update size (B buffer).slots (far_value_index size side) _ 1 (size - 2)
              (λ p q. (refl, refl)))
        ∙ sym (glue_nil side _)
        ∙ ap (glue side (content size side B (buffer ∷ chain)))
            (sym (values_none (B neighbor).slots 1 (size - 2) border.1))

    pub cut-IsRemoved :
        (w w' : World)
        → w'.memory.buffers ≡ cut B buffer junk
        → w'.retired ≡ neighbor ∷ w.retired
        → IsRemoved
            (content size side B (neighbor ∷ buffer ∷ chain))
            neighbor
            buffer
            chain
            w.retired
            w'
    cut-IsRemoved w w' same gone =
        subst
          (λ B'.
            IsChain size side B' (buffer ∷ chain)
            × Ends size side B' buffer
            × (content size side B' (buffer ∷ chain)
                ≡ content size side B (neighbor ∷ buffer ∷ chain))
            × (w'.retired ≡ neighbor ∷ w.retired))
          (sym same) (cut-IsChain, cut-Ends, content-cut, gone)

  -- In a memory that no other thread changes, a push that is past the check of its edge and finds its linked
  -- neighbor sealed and without a value removes it: what the chain holds does not change, the neighbor is
  -- retired, and the push goes to its backoff. Two conditions: buffers have at least
  -- three slots; and in the memory after the exchange of the link,
  -- links of sealed buffers, at most `fuel` of them and none `NULL`, lead from the buffers of both global
  -- hints to buffers that are not sealed.
  pub push-removes :
      (fuel : ℕ) (hint : GlobalHint) (fresh : Fresh) (w : World) (buffer value junk : ℕ)
      (chain : List ℕ)
      → (let B = w.memory.buffers in
          let neighbor = ((B buffer).slots (far_link_index size side)).word in
          IsEmptyNeighbor B neighbor buffer chain
          → ((B neighbor).slots (near_value_index size side)).type ≡ type_sealed
          → HintsLead size fuel
              (cut B buffer junk)
              w.memory.left_global_hint.buffer
              w.memory.right_global_hint.buffer
          → (w' : World) × (border_push size side (suc fuel) hint fresh w buffer value junk
              ≡ some (w', backoff))
            × IsRemoved
                (content size side B (neighbor ∷ buffer ∷ chain))
                neighbor
                buffer
                chain
                w.retired
                w')
  unfolding border_push straddle_push
  push-removes fuel hint fresh w buffer value junk chain border sealed leads =
      let B = w.memory.buffers in
      let far = (B buffer).slots (far_link_index size side) in
      let (w', done, same, gone) = remove_sealed-cut fuel w buffer far.word junk leads in
      (
        w',
        rw
            (
              border_push,
              far_other side far.type border.0.1.0.0,
              straddle_push,
              (==_iff _ _).1 border.0.1.1.1,
              sealed_not_far side _ sealed,
              sealed_self _ sealed,
              done,
            )
            refl,
        cut-IsRemoved B far.word buffer junk chain border w w' same gone,
      )

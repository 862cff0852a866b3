-- ===== src/OfDeque/Border/Sealing.antt =====
-- deque/OFDeque.hpp: a pop that seals and removes an empty neighbor before it takes its value.
use mathlib.Core.Path.{subst}
use unbounded_obstruction_fr.Base.{
  ℕ, suc, ◌-◌, ◌≤◌, ◌≡◌, ◌≢◌, refl, sym, ◌∙◌, ap, ap₂, Bool-cases, inl, inr, true, false, some,
  List, ◌∷◌, arith, ◌==◌, ==_iff, ==_self, ==-ne, update,
}
use unbounded_obstruction_fr.OfDeque.Slot.{
  SlotType, type_value, type_sealed, Side, Slot, same_type, far_type, far_link_index,
  far_value_index, near_value_index, Buffer, cas_safe, cas_type, bump,
}
use unbounded_obstruction_fr.OfDeque.Hints.{GlobalHint}
use unbounded_obstruction_fr.OfDeque.Interior.Inv.{values_none}
use unbounded_obstruction_fr.OfDeque.Border.{
  World, Junk, backoff, counted_up, remove_sealed, seal, sealed_pop, boundary_pop, straddle_pop,
  border_pop,
}
use unbounded_obstruction_fr.OfDeque.Border.Chain.{
  glue, content, content_same, content-Apart, IsChain-head, IsChain-second, indices, values-update,
  same_slot_self,
}
use unbounded_obstruction_fr.OfDeque.Border.Append.{far_self}
use unbounded_obstruction_fr.OfDeque.Border.Straddle.{far_other}
use unbounded_obstruction_fr.OfDeque.Border.Boundary.{near_other}
use unbounded_obstruction_fr.OfDeque.Border.Removal.{
  HintsLead, cut, IsRemoved, IsEmptyNeighbor, remove_sealed-cut, cut-IsRemoved, sealed_self,
}

value_unsealed : (a : SlotType) → a ≡ type_value → same_type a type_sealed ≡ false
value_unsealed a e = ground arith

module _ (size : ℕ) (side : Side) (large : 3 ≤ size) where
  -- After the removal, the thread's copy of the link slot differs from the slot in its word, unless the
  -- uninitialised word of the exchange happens to be the old link.
  boundary_pop-stale :
      (hint : GlobalHint) (w : World) (buffer junk : ℕ) (near far : Slot)
      → near.type ≡ type_value
      → far.word ≢ ((w.memory.buffers buffer).slots (far_link_index size side)).word
      → boundary_pop size side hint w buffer near far junk ≡ (w, backoff)
  unfolding boundary_pop cas_safe
  boundary_pop-stale hint w buffer junk near far value stale =
      rw
        (
          boundary_pop,
          near_other side near.type value,
          ==-ne ((w.memory.buffers buffer).slots (far_link_index size side)).word far.word
              (λ e. stale (sym e)),
        )
        refl

  sealed_pop-IsRemoved :
      (fuel : ℕ) (hint : GlobalHint) (w : World) (buffer : ℕ) (junk : Junk) (chain : List ℕ)
      (near far reach : Slot)
      → (let B = w.memory.buffers in
          near ≡ (B buffer).slots (far_value_index size side)
          → far ≡ (B buffer).slots (far_link_index size side)
          → IsEmptyNeighbor size side large B far.word buffer chain
          → reach.type ≡ type_sealed
          → near.type ≡ type_value
          → junk.word_cut ≢ far.word
          → HintsLead size fuel
              (cut size side large B buffer junk.word_cut)
              w.memory.left_global_hint.buffer
              w.memory.right_global_hint.buffer
          → (w' : World) × (sealed_pop size side
                (suc fuel)
                hint
                w
                buffer
                far.word
                near
                far
                reach
                junk
              ≡ some (w', backoff))
            × IsRemoved size side large
                (content size side B (far.word ∷ buffer ∷ chain))
                far.word
                buffer
                chain
                w.retired
                w')
  unfolding sealed_pop
  sealed_pop-IsRemoved fuel hint w buffer junk chain near far reach e e' border sealed value stale
        leads =
      let B = w.memory.buffers in
      let (w', done, same, gone) =
        remove_sealed-cut size side large fuel w buffer far.word junk.word_cut leads in
      let word : ((w'.memory.buffers buffer).slots (far_link_index size side)).word
          ≡ junk.word_cut =
        rw (same, ==_self buffer, ==_self (far_link_index size side)) refl in
      let removed : remove_sealed size side (suc fuel) w buffer far.word near far junk.word_cut
          ≡ some (w', true, true) =
        rw (← e, ← e') at done in
      let again =
        boundary_pop-stale hint w' buffer junk.word_taken (counted_up near)
          (record (counted_up far) { type = far_type side }) value (λ q. stale (sym (q ∙ word))) in
      (
        w',
        rw (sealed_pop, sealed_self reach.type sealed, near_other side near.type value, removed)
            (ap some again),
        cut-IsRemoved size side large B far.word buffer junk.word_cut chain border w w' same gone,
      )

  module _ (B : ℕ → Buffer) (neighbor buffer junk : ℕ) (chain : List ℕ) where
    abbrev bumped : Buffer
    bumped = record (B buffer) {
      slots =
          update (B buffer).slots (far_value_index size side)
            (counted_up ((B buffer).slots (far_value_index size side)));
    }

    abbrev sealed_buffer : Buffer
    sealed_buffer = record (B neighbor) {
      slots = update (B neighbor).slots (near_value_index size side) (record {
        word = junk;
        count = bump ((B neighbor).slots (near_value_index size side)).count;
        type = type_sealed;
      });
    }

    -- The buffers after the seal.
    abbrev pub sealed : ℕ → Buffer
    sealed = update (update B buffer bumped) neighbor sealed_buffer

    module _ (border : IsEmptyNeighbor size side large B neighbor buffer chain) where
      sealed-IsEmptyNeighbor : IsEmptyNeighbor size side large sealed neighbor buffer chain
      sealed-IsEmptyNeighbor =
          let at = indices size side large in
          (
            IsChain-head size side (update B buffer bumped) neighbor sealed_buffer (buffer ∷ chain)
                (rw (at.near_in, ==-ne buffer neighbor (λ e. border.0.0.0 (sym e))) refl)
                (IsChain-second size side B buffer bumped neighbor chain (rw at.near_out refl)
                  (rw at.far_out refl) border.0),
            λ i p q. rw (==_self neighbor) (elim (Bool-cases (near_value_index size side == i)) [
              | inl e ↦ rw e (λ v. ground arith)
              | inr e ↦ rw e (border.1 i p q)
            ]),
          )

      content-sealed :
          content size side sealed (neighbor ∷ buffer ∷ chain)
          ≡ content size side B (neighbor ∷ buffer ∷ chain)
      content-sealed =
          ap₂ (glue side)
            (content-Apart size side (update B buffer bumped) neighbor sealed_buffer
                (buffer ∷ chain) border.0.0
              ∙ content_same size side B buffer bumped (buffer ∷ chain) (
                  values-update size (B buffer).slots (far_value_index size side) _ 1 (size - 2)
                    (λ p q. (refl, refl))))
            (values_none (sealed neighbor).slots 1 (size - 2) sealed-IsEmptyNeighbor.1
              ∙ sym (values_none (B neighbor).slots 1 (size - 2) border.1))

  -- In a memory that no other thread changes, a pop that finds beyond its value a linked neighbor without a
  -- value, whose near value slot is a far null, seals and removes it: what the chain holds does not change,
  -- the neighbor is retired, and the pop goes to its backoff, without a value. Three conditions: buffers have at
  -- least three slots; the word
  -- that the exchange of the link leaves uninitialised is not the old link; and in the memory after that
  -- exchange, links of sealed buffers, at most `fuel` of them and none `NULL`, lead from the buffers of both
  -- global hints to buffers that are not sealed.
  pub pop-removes :
      (fuel : ℕ) (hint : GlobalHint) (w : World) (buffer : ℕ) (junk : Junk) (chain : List ℕ)
      → (let B = w.memory.buffers in
          let neighbor = ((B buffer).slots (far_link_index size side)).word in
          IsEmptyNeighbor size side large B neighbor buffer chain
          → ((B neighbor).slots (near_value_index size side)).type ≡ far_type side
          → ((B buffer).slots (far_value_index size side)).type ≡ type_value
          → junk.word_cut ≢ neighbor
          → HintsLead size fuel
              (cut size side large
                (sealed B neighbor buffer junk.word_sealed chain)
                buffer
                junk.word_cut)
              w.memory.left_global_hint.buffer
              w.memory.right_global_hint.buffer
          → (w' : World) × (border_pop size side (suc fuel) hint w buffer junk ≡ some (w', backoff))
            × IsRemoved size side large
                (content size side B (neighbor ∷ buffer ∷ chain))
                neighbor
                buffer
                chain
                w.retired
                w')
  unfolding border_pop straddle_pop seal cas_safe cas_type
  pop-removes fuel hint w buffer junk chain border null value stale leads =
      let at = indices size side large in
      let B = w.memory.buffers in
      let near = (B buffer).slots (far_value_index size side) in
      let far = (B buffer).slots (far_link_index size side) in
      let reach = (B far.word).slots (near_value_index size side) in
      let apart = ==-ne buffer far.word (λ e. border.0.0.0 (sym e)) in
      let apart' = ==-ne far.word buffer border.0.0.0 in
      let w₁ : World = record w {
        memory = record w.memory { buffers = sealed B far.word buffer junk.word_sealed chain };
      } in
      let (w', done, removed) =
        sealed_pop-IsRemoved fuel hint w₁ buffer junk chain (counted_up near) far
          (record (counted_up reach) { type = type_sealed })
          (rw (apart', ==_self buffer, ==_self (far_value_index size side)) refl)
          (rw (apart', ==_self buffer, at.far_out) refl)
          (sealed-IsEmptyNeighbor B far.word buffer junk.word_sealed chain border) refl value stale
          leads in
      (
        w',
        rw
            (
              border_pop,
              far_other side far.type border.0.1.0.0,
              straddle_pop,
              (==_iff _ _).1 border.0.1.1.1,
              far_self side _ null,
              near_other side near.type value,
              value_unsealed near.type value,
              seal,
              same_slot_self near,
              apart,
              same_slot_self reach,
            )
            done,
        subst (λ l. IsRemoved size side large l far.word buffer chain w.retired w')
            (content-sealed B far.word buffer junk.word_sealed chain border) removed,
      )

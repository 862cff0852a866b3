-- ===== src/OfDeque/Border/Boundary.antt =====
-- deque/OFDeque.hpp: a pop from the last value slot of the chain.
use unbounded_obstruction_fr.Base.{
  ℕ, ◌-◌, ◌≤◌, ◌≡◌, refl, sym, ◌∙◌, ap, false, Option, none, some, List, [], ◌∷◌, arith, ◌==◌,
  ==_self, ==-ne, ==_apart, update,
}
use unbounded_obstruction_fr.OfDeque.Slot.{
  SlotType, type_value, Side, side_left, side_right, Slot, same_type, far_type, near_type,
  far_link_index, near_link_index, far_value_index, Buffer, cas_safe, cas_type, bump,
}
use unbounded_obstruction_fr.OfDeque.Hints.{GlobalHint}
use unbounded_obstruction_fr.OfDeque.Border.{
  World, Junk, Outcome, backoff, popped, found_empty, pushed, counted_up, boundary_pop, border_pop,
}
use unbounded_obstruction_fr.OfDeque.Border.Chain.{
  glue, glue_assoc, held, held_out, content, IsChain, Ends, content-Apart, IsChain-head, indices,
  values-update, same_slot_self, far_not_value,
}
use unbounded_obstruction_fr.OfDeque.Border.Append.{move_global_hint_lem, far_self}

-- What holds of the memory after a pop.
abbrev pub IfPopped : (ℕ → World → Type 0) → Option (World × Outcome) → Type 0
IfPopped P (some (w, popped v)) = P v w
IfPopped P _ = ⊥

pub IfPopped_lem :
    (P : ℕ → World → Type 0) (r : Option (World × Outcome))
    → IfPopped P r
    → (v : ℕ) × (w : World) × (r ≡ some (w, popped v)) × P v w
IfPopped_lem P none p = absurd p
IfPopped_lem P (some (w, pushed)) p = absurd p
IfPopped_lem P (some (w, backoff)) p = absurd p
IfPopped_lem P (some (w, popped v)) p = (v, w, refl, p)
IfPopped_lem P (some (w, found_empty)) p = absurd p

pub near_other :
    (side : Side) (a : SlotType) → a ≡ type_value → same_type a (near_type side) ≡ false
near_other side_left a e = ground arith
near_other side_right a e = ground arith

module _ (size : ℕ) (side : Side) (large : 3 ≤ size) where
  module _ (B : ℕ → Buffer) (buffer junk : ℕ) (chain : List ℕ) (near far : Slot) where
    abbrev safe_buffer : Buffer
    safe_buffer = record (B buffer) {
      slots = update (B buffer).slots (far_link_index size side) (counted_up far);
    }

    abbrev taken_buffer : Buffer
    taken_buffer = record safe_buffer {
      slots =
          update safe_buffer.slots (far_value_index size side)
            (record { word = junk; count = bump near.count; type = far_type side });
    }

    abbrev taken : ℕ → Buffer
    taken = update (update B buffer safe_buffer) buffer taken_buffer

    module _ (links : IsChain size side B (buffer ∷ chain)) (null : far.type ≡ far_type side)
        (value : ((B buffer).slots (far_value_index size side)).type ≡ type_value) where
      taken-IsChain : IsChain size side taken (buffer ∷ chain)
      taken-IsChain =
          let at = indices size side large in
          let once =
            IsChain-head size side B buffer safe_buffer chain
              (rw
                (==-ne (far_link_index size side) (near_link_index size side)
                  (λ e. ==_apart _ _ at.links (sym e)))
                refl)
              links in
          IsChain-head size side (update B buffer safe_buffer) buffer taken_buffer chain
            (rw (==_self buffer, at.near_out) refl) once

      taken-Ends : Ends size side taken buffer
      taken-Ends =
          let at = indices size side large in
          rw (==_self buffer, at.far_out, ==_self (far_link_index size side)) null

      held-taken :
          held size (B buffer)
          ≡ glue side
              (held size taken_buffer)
              (((B buffer).slots (far_value_index size side)).word ∷ [])
      held-taken =
          let at = indices size side large in
          let fl = far_link_index size side in
          let fv = far_value_index size side in
          let apart : (fl == fv) ≡ false = ==-ne fl fv (λ e. ==_apart _ _ at.far_out (sym e)) in
          let word_same : (safe_buffer.slots fv).word ≡ ((B buffer).slots fv).word =
            rw apart refl in
          sym (
            values-update size (B buffer).slots fl (counted_up far) 1 (size - 2)
              (λ p q. absurd (at.far_outside p q)))
          ∙ held_out size side safe_buffer.slots taken_buffer.slots large (rw apart value)
              (rw (==_self fv) (far_not_value side))
              (λ i ne. rw (==-ne fv i (λ e. ne (sym e))) refl)
          ∙ ap (λ v. glue side (held size taken_buffer) (v ∷ [])) word_same

      content-taken :
          content size side B (buffer ∷ chain)
          ≡ glue side
              (content size side taken (buffer ∷ chain))
              (((B buffer).slots (far_value_index size side)).word ∷ [])
      content-taken =
          let rest =
            content-Apart size side (update B buffer safe_buffer) buffer taken_buffer chain links.0
            ∙ content-Apart size side B buffer safe_buffer chain links.0 in
          ap (glue side (content size side B chain)) held-taken
          ∙ glue_assoc side (content size side B chain) (held size taken_buffer)
              (((B buffer).slots (far_value_index size side)).word ∷ [])
          ∙ rw (==_self buffer, rest) refl

  -- The chain after a pop, with one value less.
  abbrev pub IsTaken : (before chain : List ℕ) → (value : ℕ) → (ℕ → Buffer) → Type 0
  IsTaken before chain value B =
      IsChain size side B chain × (before ≡ glue side (content size side B chain) (value ∷ []))

  pub boundary_pop-IsTaken :
      (hint : GlobalHint) (w : World) (buffer junk : ℕ) (chain : List ℕ) (near far : Slot)
      → (let B = w.memory.buffers in
          IsChain size side B (buffer ∷ chain)
          → near ≡ (B buffer).slots (far_value_index size side)
          → far ≡ (B buffer).slots (far_link_index size side)
          → far.type ≡ far_type side
          → near.type ≡ type_value
          → IfPopped
              (λ v w'.
                IsTaken (content size side B (buffer ∷ chain)) (buffer ∷ chain) v w'.memory.buffers)
              (some (boundary_pop size side hint w buffer near far junk)))
  unfolding boundary_pop cas_safe cas_type
  boundary_pop-IsTaken hint w buffer junk chain near far links e e' null value =
      let B = w.memory.buffers in
      let at = indices size side large in
      let fl = far_link_index size side in
      let fv = far_value_index size side in
      let apart : (fl == fv) ≡ false = ==-ne fl fv (λ q. ==_apart _ _ at.far_out (sym q)) in
      let before = content size side B (buffer ∷ chain) in
      let value' : ((B buffer).slots fv).type ≡ type_value = ap (λ s. s.type) (sym e) ∙ value in
      let w₂ : World = record w {
        memory = record w.memory { buffers = taken B buffer junk chain near far };
      } in
      rw
        (
          boundary_pop,
          near_other side near.type value,
          ← e',
          same_slot_self far,
          ==_self buffer,
          apart,
          ← e,
          same_slot_self near,
        )
        (move_global_hint_lem (λ B' c. IsTaken before (buffer ∷ chain) near.word B') side hint
          buffer w₂
          (
            taken-IsChain B buffer junk chain near far links null value',
            content-taken B buffer junk chain near far links null value'
                ∙ ap
                    (λ s.
                      glue side
                        (content size side (taken B buffer junk chain near far) (buffer ∷ chain))
                        (s.word ∷ []))
                    (sym e),
          ))

  -- In a memory that no other thread changes, a pop whose edge is the last value slot of the chain, with a
  -- value, takes it: the chain stays linked, and what it held is what it holds with that value
  -- at the far end.
  pub boundary_pop_lem :
      (fuel : ℕ) (hint : GlobalHint) (w : World) (buffer : ℕ) (junk : Junk) (chain : List ℕ)
      → IsChain size side w.memory.buffers (buffer ∷ chain)
      → Ends size side w.memory.buffers buffer
      → ((w.memory.buffers buffer).slots (far_value_index size side)).type ≡ type_value
      → (v : ℕ) × (w' : World) × (border_pop size side fuel hint w buffer junk
          ≡ some (w', popped v))
        × IsTaken
            (content size side w.memory.buffers (buffer ∷ chain))
            (buffer ∷ chain)
            v
            w'.memory.buffers
  unfolding border_pop
  boundary_pop_lem fuel hint w buffer junk chain links null value =
      let near = (w.memory.buffers buffer).slots (far_value_index size side) in
      let far = (w.memory.buffers buffer).slots (far_link_index size side) in
      IfPopped_lem
        (λ v w'.
          IsTaken (content size side w.memory.buffers (buffer ∷ chain)) (buffer ∷ chain) v
            w'.memory.buffers)
        (border_pop size side fuel hint w buffer junk)
        (rw (border_pop, far_self side far.type null)
          (boundary_pop-IsTaken hint w buffer junk.word_taken chain near far links refl refl null
            value))

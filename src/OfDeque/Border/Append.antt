-- ===== src/OfDeque/Border/Append.antt =====
-- deque/OFDeque.hpp: a push that appends a new buffer.
use unbounded_obstruction_fr.Base.{
  ℕ, ◌+◌, ◌-◌, ◌≤◌, ◌<◌, ◌≡◌, ◌≢◌, refl, sym, ◌∙◌, ap₂, Bool-cases, ◌⊎◌, inl, inr, true, false,
  Option, none, some, List, [], ◌∷◌, arith, ◌==◌, ==_iff, ==_self, ==-ne, ==_apart, update,
}
use unbounded_obstruction_fr.OfDeque.Slot.{
  SlotType, type_value, Side, side_left, side_right, Slot, same_type, far_type, far_link_index,
  near_link_index, far_value_index, near_value_index, Buffer, cas_safe, cas_link, edge_ok,
}
use unbounded_obstruction_fr.OfDeque.Hints.{GlobalHint, same_hint, global_hint}
use unbounded_obstruction_fr.OfDeque.Border.{
  World, stored, set_buffer, counted_up, Fresh, Outcome, backoff, popped, found_empty, pushed,
  buffer_cache, set_cache, link_new, inserted, blank_buffer, append, border_push, edge_push,
  move_global_hint,
}
use unbounded_obstruction_fr.OfDeque.Border.Chain.{
  glue, Apart, held, values_single, content, IsChain, Ends, content_same, content-Apart,
  IsChain-Apart, IsChain-head, indices, values-update, same_slot_self, far_not_value,
}

-- What holds of the memory of a push that is done.
abbrev pub IfPushed : (World → Type 0) → Option (World × Outcome) → Type 0
IfPushed P (some (w, pushed)) = P w
IfPushed P _ = ⊥

pub IfPushed_lem :
    (P : World → Type 0) (r : Option (World × Outcome))
    → IfPushed P r
    → (w : World) × (r ≡ some (w, pushed)) × P w
IfPushed_lem P none p = absurd p
IfPushed_lem P (some (w, pushed)) p = (w, refl, p)
IfPushed_lem P (some (w, backoff)) p = absurd p
IfPushed_lem P (some (w, popped v)) p = absurd p
IfPushed_lem P (some (w, found_empty)) p = absurd p

-- The exchange of the global hint changes no buffer and no cache.
pub move_global_hint_lem :
    (Q : (ℕ → Buffer) → ℕ → Type 0) (side : Side) (hint : GlobalHint) (n : ℕ) (w : World)
    → Q w.memory.buffers (buffer_cache side w)
    → (let w' = move_global_hint side hint n w in Q w'.memory.buffers (buffer_cache side w'))
move_global_hint_lem Q side_left hint n w q =
    elim (Bool-cases (same_hint (global_hint side_left w.memory) hint)) [
      | inl e ↦ rw e q
      | inr e ↦ rw e q
    ]
move_global_hint_lem Q side_right hint n w q =
    elim (Bool-cases (same_hint (global_hint side_right w.memory) hint)) [
      | inl e ↦ rw e q
      | inr e ↦ rw e q
    ]

pub set_cache_lem :
    (Q : (ℕ → Buffer) → ℕ → Type 0) (side : Side) (n : ℕ) (w : World)
    → Q w.memory.buffers n
    → (let w' = set_cache side n w in Q w'.memory.buffers (buffer_cache side w'))
set_cache_lem Q side_left n w q = q
set_cache_lem Q side_right n w q = q

pub far_self : (side : Side) (a : SlotType) → a ≡ far_type side → same_type a (far_type side) ≡ true
far_self side_left a e = ground arith
far_self side_right a e = ground arith

module _ (size : ℕ) (side : Side) (large : 3 ≤ size) where
  -- A buffer that is ready for the append: all far nulls, but for the link inwards and the value there.
  pub record Blank (b : Buffer) : Type 0 where
    pub end_null : (b.slots (far_link_index size side)).type ≡ far_type side
    pub no_values :
        (i : ℕ)
        → 1 ≤ i
        → i < 1 + (size - 2)
        → i ≢ near_value_index size side
        → (b.slots i).type ≢ type_value

  -- The buffer after the link and the value have been stored.
  pub record Ready (b : Buffer) (buffer value : ℕ) : Type 0 where
    pub end_null : (b.slots (far_link_index size side)).type ≡ far_type side
    pub back_type : (b.slots (near_link_index size side)).type ≡ type_value
    pub back_word : (b.slots (near_link_index size side)).word ≡ buffer
    pub holds : held size b ≡ value ∷ []

  inserted-Ready :
      (fresh : Fresh) (b : Buffer) (buffer value : ℕ)
      → Blank b
      → Ready (inserted size side fresh b buffer value) buffer value
  inserted-Ready fresh b buffer value blank =
      let at = indices size side large in
      let nv = near_value_index size side in
      let new = (inserted size side fresh b buffer value).slots in
      let none_else : (i : ℕ) → 1 ≤ i → i < 1 + (size - 2) → i ≢ nv → (new i).type ≢ type_value =
        λ i p q ne.
          rw
            (
              ==-ne nv i (λ e. ne (sym e)),
              ==-ne (near_link_index size side) i
                  (λ e. at.near_outside (rw (← e) at p) (rw (← e) at q)),
            )
            (blank.no_values i p q ne) in
      record {
        end_null = rw (at.far_in, at.links) blank.end_null;
        back_type = rw (at.near_in, ==_self (near_link_index size side)) refl;
        back_word = rw (at.near_in, ==_self (near_link_index size side)) refl;
        holds =
            values_single size new nv 1 (size - 2) at.in_low at.in_high (rw (==_self nv) refl)
              none_else
            ∙ rw (==_self nv) refl;
      }

  blank_buffer-Blank : (raw : ℕ → Slot) → Blank (blank_buffer size side raw)
  blank_buffer-Blank raw = record { end_null = refl; no_values = λ i p q ne. far_not_value side }

  module _ (B : ℕ → Buffer) (new buffer value : ℕ) (chain : List ℕ) (far near : Slot) where
    -- The buffer after the two exchanges.
    abbrev safe_buffer : Buffer
    safe_buffer = record (B buffer) {
      slots =
          update (B buffer).slots (far_value_index size side)
            (record ((B buffer).slots (far_value_index size side)) { count = near.count });
    }

    abbrev linked_buffer : Buffer
    linked_buffer = record safe_buffer {
      slots =
          update safe_buffer.slots (far_link_index size side)
            (record { word = new; count = far.count; type = type_value });
    }

    abbrev appended : ℕ → Buffer
    appended = update (update B buffer safe_buffer) buffer linked_buffer

    safe-held : held size safe_buffer ≡ held size (B buffer)
    safe-held =
        values-update size (B buffer).slots (far_value_index size side) _ 1 (size - 2)
          (λ p q. (refl, refl))

    linked-held : held size linked_buffer ≡ held size safe_buffer
    linked-held =
        values-update size safe_buffer.slots (far_link_index size side) _ 1 (size - 2)
          (λ p q. absurd ((indices size side large).far_outside p q))

    module _ (blank : Ready (B new) buffer value) (apart : Apart new (buffer ∷ chain))
        (links : IsChain size side B (buffer ∷ chain)) where
      appended-IsChain : IsChain size side appended (new ∷ buffer ∷ chain)
      appended-IsChain =
          let at = indices size side large in
          let once =
            IsChain-head size side B buffer safe_buffer chain (rw at.near_out refl) links in
          let twice =
            IsChain-head size side (update B buffer safe_buffer) buffer linked_buffer chain
              (rw
                (
                  ==_self buffer,
                  ==-ne (far_link_index size side) (near_link_index size side)
                      (λ e. ==_apart _ _ at.links (sym e)),
                  at.near_out,
                )
                refl)
              once in
          (
            apart,
            rw
                (
                  ==_self buffer,
                  ==_self (far_link_index size side),
                  ==-ne buffer new (λ e. apart.0 (sym e)),
                )
                ((refl, refl), (blank.back_type, blank.back_word)),
            twice,
          )

      appended-Ends : Ends size side appended new
      appended-Ends = rw (==-ne buffer new (λ e. apart.0 (sym e))) blank.end_null

      content-appended :
          content size side appended (new ∷ buffer ∷ chain)
          ≡ glue side (content size side B (buffer ∷ chain)) (value ∷ [])
      content-appended =
          ap₂ (glue side)
            (content_same size side (update B buffer safe_buffer) buffer linked_buffer
                (buffer ∷ chain) (rw (==_self buffer) linked-held)
              ∙ content_same size side B buffer safe_buffer (buffer ∷ chain) safe-held)
            (rw (==-ne buffer new (λ e. apart.0 (sym e))) blank.holds)

  -- What `doPush` finds in the thread's cache, or makes.
  abbrev pub CacheReady : Fresh → World → List ℕ → Type 0
  CacheReady fresh w chain =
      ((buffer_cache side w ≡ 0) × Apart fresh.address chain)
      ⊎ ((buffer_cache side w ≢ 0)
          × Apart (buffer_cache side w) chain
          × Blank (w.memory.buffers (buffer_cache side w)))

  -- The chain after an append, which holds one value more, and the cache.
  abbrev pub Appended :
      (before : List ℕ) → (new buffer value : ℕ) → List ℕ → (ℕ → Buffer) → (cache : ℕ) → Type 0
  Appended before new buffer value chain B cache =
      IsChain size side B (new ∷ buffer ∷ chain)
      × Ends size side B new
      × (content size side B (new ∷ buffer ∷ chain) ≡ glue side before (value ∷ []))
      × (cache ≡ 0)

  abbrev pub IsAppended : (before : List ℕ) → (new buffer value : ℕ) → List ℕ → World → Type 0
  IsAppended before new buffer value chain w =
      Appended before new buffer value chain w.memory.buffers (buffer_cache side w)

  link_new-IsAppended :
      (hint : GlobalHint) (w : World) (new buffer value : ℕ) (chain : List ℕ)
      → Ready (w.memory.buffers new) buffer value
      → Apart new (buffer ∷ chain)
      → IsChain size side w.memory.buffers (buffer ∷ chain)
      → (let slots = (w.memory.buffers buffer).slots in
          IfPushed
            (IsAppended
              (content size side w.memory.buffers (buffer ∷ chain))
              new
              buffer
              value
              chain)
            (some (
              link_new size side hint w new buffer
                (slots (far_value_index size side))
                (slots (far_link_index size side)))))
  unfolding link_new cas_safe cas_link
  link_new-IsAppended hint w new buffer value chain ready apart links =
      let at = indices size side large in
      let near = (w.memory.buffers buffer).slots (far_value_index size side) in
      let far = (w.memory.buffers buffer).slots (far_link_index size side) in
      let Q : (ℕ → Buffer) → ℕ → Type 0 =
        Appended (content size side w.memory.buffers (buffer ∷ chain)) new buffer value chain in
      let world : Slot → Slot → World = λ n f. record w {
        memory = record w.memory {
          buffers = appended w.memory.buffers new buffer value chain (counted_up f) (counted_up n);
        };
      } in
      rw (link_new, same_slot_self near, ==_self buffer, at.far_out, same_slot_self far)
        (move_global_hint_lem Q side hint new (set_cache side 0 (world near far)) (
          set_cache_lem Q side 0 (world near far) (
            appended-IsChain w.memory.buffers new buffer value chain (counted_up far)
                (counted_up near) ready apart links,
            appended-Ends w.memory.buffers new buffer value chain (counted_up far) (counted_up near)
                ready apart links,
            content-appended w.memory.buffers new buffer value chain (counted_up far)
                (counted_up near) ready apart links,
            refl,
          )))

  -- The same from a memory with the same chain.
  link_new_from :
      (hint : GlobalHint) (w : World) (new buffer value : ℕ) (chain : List ℕ) (near far : Slot)
      (before : List ℕ)
      → Ready (w.memory.buffers new) buffer value
      → Apart new (buffer ∷ chain)
      → IsChain size side w.memory.buffers (buffer ∷ chain)
      → (let slots = (w.memory.buffers buffer).slots in
          near ≡ slots (far_value_index size side)
          → far ≡ slots (far_link_index size side)
          → before ≡ content size side w.memory.buffers (buffer ∷ chain)
          → IfPushed
              (IsAppended before new buffer value chain)
              (some (link_new size side hint w new buffer near far)))
  link_new_from hint w new buffer value chain near far before ready apart links e e' e'' =
      rw (e, e', e'') (link_new-IsAppended hint w new buffer value chain ready apart links)

  -- The branch after the check of the edge.
  appends :
      (fuel : ℕ) (hint : GlobalHint) (fresh : Fresh) (w : World) (buffer value junk : ℕ)
      (chain : List ℕ)
      → IsChain size side w.memory.buffers (buffer ∷ chain)
      → Ends size side w.memory.buffers buffer
      → CacheReady fresh w (buffer ∷ chain)
      → (new : ℕ) × ((w' : World) × (border_push size side fuel hint fresh w buffer value junk
            ≡ some (w', pushed))
          × IsAppended
              (content size side w.memory.buffers (buffer ∷ chain))
              new
              buffer
              value
              chain
              w')
  unfolding border_push append
  appends fuel hint fresh w buffer value junk chain links ends (inl (e, apart)) =
      let null : (buffer_cache side w == 0) ≡ true = (==_iff _ _).1 e in
      let new = fresh.address in
      let B = w.memory.buffers in
      let b = blank_buffer size side fresh.raw in
      let b' = inserted size side fresh b buffer value in
      let w₀ : World = set_cache side new (record w { memory = set_buffer w.memory new b }) in
      let links' = IsChain-Apart size side B new b (buffer ∷ chain) apart links in
      (
        new,
        IfPushed_lem (IsAppended (content size side B (buffer ∷ chain)) new buffer value chain)
            (border_push size side fuel hint fresh w buffer value junk)
            (rw (border_push, append, far_self side _ ends, null)
              (link_new_from hint (stored size side fresh w₀ new buffer value) new buffer value
                chain ((B buffer).slots (far_value_index size side))
                ((B buffer).slots (far_link_index size side)) (content size side B (buffer ∷ chain))
                (rw (==_self new)
                  (inserted-Ready fresh b buffer value (blank_buffer-Blank fresh.raw)))
                apart (IsChain-Apart size side (update B new b) new _ (buffer ∷ chain) apart links')
                (rw (==-ne new buffer apart.0) refl) (rw (==-ne new buffer apart.0) refl)
                (sym (
                  content-Apart size side (update B new b) new _ (buffer ∷ chain) apart
                  ∙ content-Apart size side B new b (buffer ∷ chain) apart)))),
      )
  appends fuel hint fresh w buffer value junk chain links ends (inr (e, apart, blank)) =
      let null : (buffer_cache side w == 0) ≡ false = ==-ne _ _ e in
      let new = buffer_cache side w in
      let B = w.memory.buffers in
      let b' = inserted size side fresh (B new) buffer value in
      (
        new,
        IfPushed_lem (IsAppended (content size side B (buffer ∷ chain)) new buffer value chain)
            (border_push size side fuel hint fresh w buffer value junk)
            (rw (border_push, append, far_self side _ ends, null)
              (link_new_from hint (stored size side fresh w new buffer value) new buffer value chain
                ((B buffer).slots (far_value_index size side))
                ((B buffer).slots (far_link_index size side)) (content size side B (buffer ∷ chain))
                (rw (==_self new) (inserted-Ready fresh (B new) buffer value blank)) apart
                (IsChain-Apart size side B new b' (buffer ∷ chain) apart links)
                (rw (==-ne new buffer apart.0) refl) (rw (==-ne new buffer apart.0) refl)
                (sym (content-Apart size side B new b' (buffer ∷ chain) apart)))),
      )

  -- In a memory that no other thread changes, a push whose edge is at the far end of a chain of linked
  -- buffers, whose last link slot is a far null, and whose slots pass the check of the edge appends a
  -- buffer, new or from the cache of the thread: the chain stays linked, what it holds has the value
  -- added at that end, and the buffer is no longer cached. The conditions: buffers have at least three
  -- slots, the buffer that the push takes is not in the chain, and one from the cache has a far null at
  -- its far link and no value but at its near value index.
  pub append_lem :
      (fuel : ℕ) (hint : GlobalHint) (fresh : Fresh) (w : World) (buffer value junk : ℕ)
      (chain : List ℕ)
      → IsChain size side w.memory.buffers (buffer ∷ chain)
      → Ends size side w.memory.buffers buffer
      → (let slots = (w.memory.buffers buffer).slots in
          edge_ok size side
            (far_value_index size side)
            (slots (far_value_index size side))
            (slots (far_link_index size side))
          ≡ true)
      → CacheReady fresh w (buffer ∷ chain)
      → (new : ℕ) × ((w' : World) × (edge_push size side fuel hint fresh w buffer value junk
            ≡ some (w', pushed))
          × IsAppended
              (content size side w.memory.buffers (buffer ∷ chain))
              new
              buffer
              value
              chain
              w')
  unfolding edge_push
  append_lem fuel hint fresh w buffer value junk chain links ends passes ready =
      let (new, (w', done, appended)) =
        appends fuel hint fresh w buffer value junk chain links ends ready in
      (new, (w', rw (edge_push, passes) done, appended))

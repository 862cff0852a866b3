-- ===== src/OfDeque/Interior/Solo.antt =====
-- Obstruction freedom of the interior branches: a thread that runs alone from a good edge is done
-- after six accesses.
use unbounded_obstruction_fr.Base.{
  ℕ, zero, suc, ◌≡◌, refl, Bool, ap, ◌∙◌, ◌⊎◌, true, false, List, [], ◌∷◌, update, update_self,
  arith, replicate, inl, inr,
}
use unbounded_obstruction_fr.OfDeque.Slot.{
  Side, side_left, side_right, Slot, far_type, near_type, bump, far_index, same_slot, Buffer,
  move_hint, edge_ok, type_value,
}
use unbounded_obstruction_fr.OfDeque.Interior.{
  Op, Choice, Pc, idle, looping, near_loaded, edge_loaded, checked, armed, hinting, push, pop,
  interior, advance, contents, Event, silent, pushed, popped, found_empty, System, step, run,
}

same_slot_refl : (a : Slot) → same_slot a a ≡ true
same_slot_refl a = ground arith

module _ (size : ℕ) (c : Choice) where
  solo : ℕ → Buffer → Pc → Pc × List Event
  solo zero b p = (p, [])
  solo (suc n) b p =
      let (b', p', e) = advance size c b p in let (final, es) = solo n b' p' in (final, e ∷ es)

  run-solo :
      (n t : ℕ) (s : System)
      → let (s', es) = run size s (replicate n (t, c)) in (s'.pc t, es) ≡ solo n s.buffer (s.pc t)
  unfolding solo run step
  run-solo zero t s = refl
  run-solo (suc n) t s =
      ap (λ (r : Pc × List Event). (r.0, (step size s t c).1 ∷ r.1))
        (rw (update_self s.pc t (advance size c s.buffer (s.pc t)).1) at
          (run-solo n t (step size s t c).0))

  module _ (b : Buffer) where
    abbrev near_slot : Slot
    near_slot = b.slots c.edge

    abbrev far_slot : Side → Slot
    far_slot side = b.slots (far_index side c.edge)

    -- The oracle's edge is one where the thread can go ahead.
    abbrev IsEdge : Side → Type 0
    IsEdge side =
        (interior size side c.edge ≡ true)
        × (edge_ok size side c.edge near_slot (far_slot side) ≡ true)

    load_near :
        (side : Side) (op : Op)
        → IsEdge side
        → advance size c b (looping side op) ≡ (b, near_loaded side op c.edge near_slot, silent)
    unfolding advance
    load_near side op e = rw e.0

    load_far :
        (side : Side) (op : Op)
        → IsEdge side
        → advance size c b (near_loaded side op c.edge near_slot)
          ≡ (b, edge_loaded side op c.edge near_slot (far_slot side) (contents size b), silent)
    unfolding advance
    load_far side op e = rw e.1

    -- The buffer after `casSafe` on slot `j`.
    abbrev bumped : ℕ → Buffer
    bumped j = record b {
      slots = update b.slots j (record (b.slots j) { count = bump (b.slots j).count });
    }

    safe_push :
        (side : Side) (v : ℕ)
        → advance size c b (checked side (push v) c.edge near_slot (far_slot side))
          ≡ (bumped c.edge, armed side (push v) c.edge near_slot (far_slot side), silent)
    unfolding advance
    safe_push side v = rw (same_slot_refl near_slot)

    safe_pop :
        (side : Side)
        → advance size c b (checked side pop c.edge near_slot (far_slot side)) ≡ (
          bumped (far_index side c.edge),
          armed side pop c.edge near_slot (far_slot side),
          silent,
        )
    unfolding advance
    safe_pop side = rw (same_slot_refl (far_slot side))

    write_push :
        (side : Side) (v : ℕ) (near far : Slot)
        → b.slots (far_index side c.edge) ≡ far
        → advance size c b (armed side (push v) c.edge near far) ≡ (
          record b {
            slots =
                update b.slots
                  (far_index side c.edge)
                  (record { word = v; count = bump far.count; type = type_value });
          },
          hinting side true,
          pushed side v,
        )
    unfolding advance
    write_push side v near far at = rw (at, same_slot_refl far)

    write_pop :
        (side : Side) (near far : Slot)
        → b.slots c.edge ≡ near
        → advance size c b (armed side pop c.edge near far) ≡ (
          record b {
            slots =
                update b.slots c.edge
                  (record { word = c.junk; count = bump near.count; type = far_type side });
          },
          hinting side false,
          popped side near.word,
        )
    unfolding advance
    write_pop side near far at = rw (at, same_slot_refl near)

    done :
        (side : Side) (outwards : Bool)
        → advance size c b (hinting side outwards) ≡ (move_hint b side outwards, idle, silent)
    unfolding advance
    done side outwards = refl

    apart :
        (side : Side) → IsEdge side → (bumped c.edge).slots (far_index side c.edge) ≡ far_slot side
    apart side_left e = ground arith
    apart side_right e = ground arith

    apart' : (side : Side) → IsEdge side → (bumped (far_index side c.edge)).slots c.edge ≡ near_slot
    apart' side_left e = ground arith
    apart' side_right e = ground arith

    check_push :
        (side : Side) (v : ℕ)
        → advance size c b
            (edge_loaded side (push v) c.edge near_slot (far_slot side) (contents size b))
          ≡ (b, checked side (push v) c.edge near_slot (far_slot side), silent)
    unfolding advance
    check_push side v = refl

    check_value :
        (side : Side)
        → near_slot.type ≡ type_value
        → advance size c b (edge_loaded side pop c.edge near_slot (far_slot side) (contents size b))
          ≡ (b, checked side pop c.edge near_slot (far_slot side), silent)
    unfolding advance
    check_value side_left h = rw h
    check_value side_right h = rw h

    check_empty :
        (side : Side)
        → near_slot.type ≡ near_type side
        → advance size c b (edge_loaded side pop c.edge near_slot (far_slot side) (contents size b))
          ≡ (b, idle, found_empty side (contents size b))
    unfolding advance
    check_empty side_left h = ground arith
    check_empty side_right h = ground arith

  module _ (b : Buffer) (side : Side) (edge : IsEdge b side) where
    solo-push :
        (v : ℕ)
        → solo 6 b (looping side (push v))
          ≡ (idle, silent ∷ silent ∷ silent ∷ silent ∷ pushed side v ∷ silent ∷ [])
    unfolding solo
    solo-push v = rw (
      load_near b side (push v) edge,
      load_far b side (push v) edge,
      check_push b side v,
      safe_push b side v,
      write_push (bumped b c.edge) side v (near_slot b) (far_slot b side) (apart b side edge),
      done,
    )

    solo-pop :
        (near_slot b).type ≡ type_value
        → solo 6 b (looping side pop)
          ≡ (idle, silent ∷ silent ∷ silent ∷ silent ∷ popped side (near_slot b).word ∷ silent ∷ [])
    unfolding solo
    solo-pop h = rw (
      load_near b side pop edge,
      load_far b side pop edge,
      check_value b side h,
      safe_pop b side,
      write_pop (bumped b (far_index side c.edge)) side (near_slot b) (far_slot b side)
          (apart' b side edge),
      done,
    )

    solo_empty :
        (near_slot b).type ≡ near_type side
        → solo 3 b (looping side pop)
          ≡ (idle, silent ∷ silent ∷ found_empty side (contents size b) ∷ [])
    unfolding solo
    solo_empty h = rw (load_near b side pop edge, load_far b side pop edge, check_empty b side h)

-- A good edge has a value or a near null on its near slot.
edge_types :
    (size : ℕ) (slots : ℕ → Slot) (i : ℕ) (side : Side)
    → (interior size side i ≡ true)
      × (edge_ok size side i (slots i) (slots (far_index side i)) ≡ true)
    → ((slots i).type ≡ type_value) ⊎ ((slots i).type ≡ near_type side)
unfolding edge_ok
edge_types size slots i side_left e = ground arith
edge_types size slots i side_right e = ground arith

module _ (size t : ℕ) (c : Choice) (s : System) (side : Side)
    (edge : IsEdge size c s.buffer side) where
  -- `n` accesses in a row by thread `t`: where it then stands, and the events.
  abbrev alone : ℕ → Pc × List Event
  alone n = let (s', es) = run size s (replicate n (t, c)) in (s'.pc t, es)

  -- Obstruction freedom of the interior push: a thread that takes six accesses in a row, from the head
  -- of the loop and with an edge that passes the checks, has pushed its value and returned.
  pub push_finishes :
      (v : ℕ)
      → s.pc t ≡ looping side (push v)
      → alone 6 ≡ (idle, silent ∷ silent ∷ silent ∷ silent ∷ pushed side v ∷ silent ∷ [])
  push_finishes v at = run-solo size c 6 t s ∙ rw at (solo-push size c s.buffer side edge v)

  -- Obstruction freedom of the interior pop: under the same conditions, the thread has popped the
  -- value of the near slot after six accesses, or found the deque empty after three if the near slot
  -- has a null.
  pub pop_finishes :
      s.pc t ≡ looping side pop
      → ((s.buffer.slots c.edge).type ≡ type_value)
          × (alone 6 ≡ (
            idle,
            silent
                ∷ silent
                ∷ silent
                ∷ silent
                ∷ popped side (s.buffer.slots c.edge).word
                ∷ silent
                ∷ [],
          ))
        ⊎ ((s.buffer.slots c.edge).type ≡ near_type side)
          × (alone 3 ≡ (idle, silent ∷ silent ∷ found_empty side (contents size s.buffer) ∷ []))
  pop_finishes at = elim (edge_types size s.buffer.slots c.edge side edge) [
    | inl h ↦ inl (h, run-solo size c 6 t s ∙ rw at (solo-pop size c s.buffer side edge h))
    | inr h ↦ inr (h, run-solo size c 3 t s ∙ rw at (solo_empty size c s.buffer side edge h))
  ]

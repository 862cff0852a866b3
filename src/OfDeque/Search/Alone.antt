-- ===== src/OfDeque/Search/Alone.antt =====
-- deque/OFDeque.hpp: `findEdge`, when no other thread changes the memory.
use mathlib.Core.Path.{subst}
use unbounded_obstruction_fr.Base.{
  ℕ, zero, suc, ◌+◌, ◌-◌, ◌≤◌, ◌<◌, ◌≡◌, refl, sym, Bool-cases, ◌⊎◌, inl, inr, Bool, true, false,
  some, arith, ◌==◌, ==_iff, le_or_lt,
}
use unbounded_obstruction_fr.OfDeque.Slot.{
  SlotType, type_sealed, type_value, Slot, Side, side_left, side_right, same_type, far_type,
  near_type, far_index, far_link_index, near_link_index, edge_ok,
}
use unbounded_obstruction_fr.OfDeque.Hints.{History, GlobalHint, Memory, local_hint, Hazards}
use unbounded_obstruction_fr.OfDeque.Search.{
  Walk, found, walked, other_side, clamped, type_at, look_far_link, look_out, look_near_link,
  look_slot, look, search, find_edge,
}

-- The distance of an index from the near end.
abbrev pub from_near : (size : ℕ) → Side → (index : ℕ) → ℕ
from_near size side_left index = size - 1 - index
from_near size side_right index = index

clamped_bounds :
    (size hint : ℕ) → 3 ≤ size → (1 ≤ clamped size hint) × (clamped size hint + 2 ≤ size)
clamped_bounds size hint p = ground arith

module _ (size : ℕ) (side : Side) (h : History) (hint : GlobalHint) where
  far_at : (t buffer index : ℕ) → Bool
  far_at t buffer index = same_type (type_at size side h hint t buffer index) (far_type side)

  look_in :
      (w : Walk)
      → (w.index == near_link_index size side) ≡ false
      → same_type (type_at size side h hint w.time w.buffer w.index) (far_type side) ≡ true
      → look size side h hint w
        ≡ walked (record w { index = far_index (other_side side) w.index; time = w.time + 1 })
  unfolding look look_far_link look_slot
  look_in w inside far = elim (Bool-cases (w.index == far_link_index size side)) [
    | inl e ↦ rw (e, far) refl
    | inr e ↦ rw (e, inside, far) refl
  ]

  not_far_near :
      (a : SlotType)
      → (a ≡ near_type side) ⊎ (a ≡ type_value)
      → (same_type a (far_type side) ≡ false) × (same_type a type_sealed ≡ false)
  not_far_near a e = elim side [ side_left ↦ ground arith | side_right ↦ ground arith ]

  near_self : (a : SlotType) → a ≡ near_type side → same_type a (near_type side) ≡ true
  near_self a e = elim side [ side_left ↦ ground arith | side_right ↦ ground arith ]

  far_self : (a : SlotType) → a ≡ far_type side → same_type a (far_type side) ≡ true
  far_self a e = elim side [ side_left ↦ ground arith | side_right ↦ ground arith ]

  look-look_out :
      (w : Walk)
      → (w.index == far_link_index size side) ≡ false
      → (let type = type_at size side h hint w.time w.buffer w.index in
          ((type ≡ near_type side) ⊎ (type ≡ type_value))
          × ((w.index == near_link_index size side) ≡ true → type ≡ near_type side))
      → look size side h hint w ≡ look_out size side h hint w
  unfolding look look_near_link look_slot
  look-look_out w inside (near, at_link) =
      let (not_far, unsealed) = not_far_near _ near in
      elim (Bool-cases (w.index == near_link_index size side)) [
        | inl e ↦ rw (inside, e, near_self _ (at_link e)) refl
        | inr e ↦ rw (inside, e, not_far, unsealed) refl
      ]

-- Inside the buffer `hint.buffer` of memory `m`, the slots beyond index `edge`, and only they, hold far
-- nulls; the others hold values and near nulls, a near null at the near link, and none is sealed.
pub record EndsAt (size : ℕ) (side : Side) (m : Memory) (buffer edge : ℕ) : Type 0 where
  pub large : 3 ≤ size
  pub edge_inside : from_near size side edge < size - 1
  pub edge_bound : edge < size
  pub beyond :
      (i : ℕ)
      → i < size
      → from_near size side edge < from_near size side i
      → ((m.buffers buffer).slots i).type ≡ far_type side
  pub until :
      (i : ℕ)
      → i < size
      → from_near size side i ≤ from_near size side edge
      → (let type = ((m.buffers buffer).slots i).type in
          (type ≡ near_type side) ⊎ (type ≡ type_value))
  pub near_end : ((m.buffers buffer).slots (near_link_index size side)).type ≡ near_type side

module _ (size : ℕ) (side : Side) (m : Memory) (hint : GlobalHint) (edge : ℕ)
    (ends : EndsAt size side m hint.buffer edge) where
  abbrev walk_at : (index : ℕ) → Hazards → Bool → (t : ℕ) → Walk
  walk_at index z second t = record {
    buffer = hint.buffer;
    index = index;
    hazards = z;
    second = second;
    time = t;
  }

  abbrev Finds : (fuel : ℕ) → Hazards → Walk → Type 0
  Finds fuel z w =
      (t' : ℕ) × (search size side (λ _. m) hint fuel w
        ≡ some (found (record { buffer = hint.buffer; index = edge }) z t'))

  not_far_link :
      (i : ℕ)
      → i < size
      → from_near size side i < size - 1
      → (i == far_link_index size side) ≡ false
  not_far_link i p q = elim side [ side_left ↦ ground arith | side_right ↦ ground arith ]

  not_near_link :
      (i : ℕ) → i < size → 0 < from_near size side i → (i == near_link_index size side) ≡ false
  not_near_link i p q = elim side [ side_left ↦ ground arith | side_right ↦ ground arith ]

  inwards :
      (i : ℕ)
      → i < size
      → 0 < from_near size side i
      → (far_index (other_side side) i < size)
        × (from_near size side (far_index (other_side side) i) + 1 ≡ from_near size side i)
  inwards i p q = elim side [ side_left ↦ ground arith | side_right ↦ ground arith ]

  outwards :
      (i : ℕ)
      → i < size
      → from_near size side i < size - 1
      → (far_index side i < size)
        × (from_near size side (far_index side i) ≡ from_near size side i + 1)
  outwards i p q = elim side [ side_left ↦ ground arith | side_right ↦ ground arith ]

  same_index :
      (i j : ℕ) → i < size → j < size → from_near size side i ≡ from_near size side j → i ≡ j
  same_index i j p q e = elim side [ side_left ↦ ground arith | side_right ↦ ground arith ]

  look_here :
      (i : ℕ) (z : Hazards) (second : Bool) (t : ℕ)
      → i < size
      → from_near size side i ≤ from_near size side edge
      → look size side (λ _. m) hint (walk_at i z second t)
        ≡ look_out size side (λ _. m) hint (walk_at i z second t)
  look_here i z second t p q =
      look-look_out size side (λ _. m) hint (walk_at i z second t)
        (not_far_link i p (omega (arith, ends.edge_inside)))
        (
          ends.until i p q,
          λ e.
              subst (λ j. ((m.buffers hint.buffer).slots j).type ≡ near_type side)
                (sym ((==_iff _ _).0 e)) ends.near_end,
        )

  -- The walk outwards, until the edge.
  search_out :
      (fuel i : ℕ) (z : Hazards) (second : Bool) (t : ℕ)
      → i < size
      → from_near size side i ≤ from_near size side edge
      → from_near size side edge < from_near size side i + fuel
      → Finds fuel z (walk_at i z second t)
  unfolding search look_out
  search_out zero i z second t p q r = absurd (omega arith)
  search_out (suc fuel) i z second t p q r =
      let inside = ends.edge_inside in
      let (out_bound, out) = outwards i p (omega arith) in
      elim (le_or_lt (from_near size side edge) (from_near size side i)) [
        | inr less ↦
            let (not_far, unsealed) =
              not_far_near size side (λ _. m) hint _
                (ends.until (far_index side i) out_bound (omega arith)) in
            let (t', done) =
              search_out fuel (far_index side i) z second (t + 2) out_bound (omega arith)
                (omega arith) in
            (t', rw (look_here i z second t p q, look_out, not_far) done)
        | inl same ↦
            let far =
              far_self size side (λ _. m) hint _
                (ends.beyond (far_index side i) out_bound (omega arith)) in
            (
              t + 2,
              rw
                  (
                    look_here i z second t p q,
                    look_out,
                    far,
                    same_index i edge p ends.edge_bound (omega arith),
                  )
                  refl,
            )
      ]

  -- The walk inwards, until the edge.
  search_in :
      (fuel i : ℕ) (z : Hazards) (second : Bool) (t : ℕ)
      → i < size
      → from_near size side edge ≤ from_near size side i
      → from_near size side i < from_near size side edge + fuel
      → Finds fuel z (walk_at i z second t)
  unfolding search
  search_in zero i z second t p q r = absurd (omega arith)
  search_in (suc fuel) i z second t p q r =
      elim (le_or_lt (from_near size side i) (from_near size side edge)) [
        | inr less ↦
            let (in_bound, in_step) = inwards i p (omega arith) in
            let (t', done) =
              search_in fuel (far_index (other_side side) i) z second (t + 1) in_bound (omega arith)
                (omega arith) in
            (
              t',
              rw
                  (look_in size side (λ _. m) hint (walk_at i z second t)
                    (not_near_link i p (omega arith))
                    (far_self size side (λ _. m) hint _ (ends.beyond i p less)))
                  done,
            )
        | inl same ↦ search_out (suc fuel) i z second t p (omega arith) (omega arith)
      ]

  from_near_bound : (i : ℕ) → i < size → from_near size side i < size
  from_near_bound i p = grind arith

  edge_ok_self :
      (near far : Slot)
      → (near.type ≡ near_type side) ⊎ (near.type ≡ type_value)
      → far.type ≡ far_type side
      → ((edge == near_link_index size side) ≡ true → near.type ≡ near_type side)
      → edge_ok size side edge near far ≡ true
  unfolding edge_ok
  edge_ok_self near far inside out at_link =
      let (not_far, unsealed) = not_far_near size side (λ _. m) hint near.type inside in
      let far_null = far_self size side (λ _. m) hint far.type out in
      elim (Bool-cases (far_index side edge == far_link_index size side)) [
        | inl a ↦ elim (Bool-cases (edge == near_link_index size side)) [
          | inl e ↦
              rw (not_far, unsealed, a, e, near_self size side (λ _. m) hint near.type (at_link e))
                refl
          | inr e ↦ rw (not_far, unsealed, a, e) refl
        ]
        | inr a ↦ elim (Bool-cases (edge == near_link_index size side)) [
          | inl e ↦
              rw
                (
                  not_far,
                  unsealed,
                  a,
                  far_null,
                  e,
                  near_self size side (λ _. m) hint near.type (at_link e),
                )
                refl
          | inr e ↦ rw (not_far, unsealed, a, far_null, e) refl
        ]
      ]

  search_all :
      (z : Hazards) (t : ℕ)
      → Finds size z
          (walk_at (clamped size (local_hint side (m.buffers hint.buffer))) z true (t + 1))
  search_all z t =
      let start = clamped size (local_hint side (m.buffers hint.buffer)) in
      let (low, high) = clamped_bounds size (local_hint side (m.buffers hint.buffer)) ends.large in
      let start_bound : start < size = omega arith in
      elim (le_or_lt (from_near size side edge) (from_near size side start)) [
        | inl le ↦
            search_in size start z true (t + 1) start_bound le
              (omega (arith, from_near_bound start start_bound))
        | inr lt ↦
            search_out size start z true (t + 1) start_bound (omega arith)
              (omega (arith, from_near_bound edge ends.edge_bound))
      ]

  -- `findEdge` of a thread that runs alone finds the edge of the hint's buffer, from any local hint, in at
  -- most as many rounds as the buffer has slots, and what it finds passes the checks that `doPush` and
  -- `doPop` make of the edge. The conditions: that buffer has at least three slots, and the edge
  -- is inside of it, with far nulls beyond it and
  -- only there; none of its slots is sealed; and its near link is a near null, so that it is linked to no
  -- buffer on the near side.
  pub find_edge-alone :
      (z : Hazards) (t : ℕ)
      → ((t' : ℕ) × (find_edge size side (λ _. m) hint size z t
            ≡ some (found (record { buffer = hint.buffer; index = edge }) z t')))
        × (let slots = (m.buffers hint.buffer).slots in
            edge_ok size side edge (slots edge) (slots (far_index side edge)) ≡ true)
  unfolding find_edge
  find_edge-alone z t =
      let (out_bound, out) = outwards edge ends.edge_bound ends.edge_inside in
      (
        search_all z t,
        edge_ok_self _ _ (ends.until edge ends.edge_bound (omega arith))
            (ends.beyond (far_index side edge) out_bound (omega arith))
            (λ e.
              subst (λ j. ((m.buffers hint.buffer).slots j).type ≡ near_type side)
                (sym ((==_iff _ _).0 e)) ends.near_end),
      )

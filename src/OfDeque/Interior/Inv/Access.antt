-- ===== src/OfDeque/Interior/Inv/Access.antt =====
-- Every access of a thread keeps the invariant.
use unbounded_obstruction_fr.Base.{
  ℕ, zero, suc, ◌^◌, ◌≤◌, ◌<◌, ◌≡◌, refl, true, false, Bool-cases, inl, inr, update, arith, ◌==◌,
  ◌&&◌,
}
use unbounded_obstruction_fr.OfDeque.Slot.{
  type_value, Side, side_left, side_right, Slot, far_type, near_type, far_index, same_slot,
  same_type, bump, Buffer, edge_ok,
}
use unbounded_obstruction_fr.OfDeque.Interior.{
  Choice, Pc, idle, looping, near_loaded, edge_loaded, checked, armed, hinting, push, pop, interior,
  advance,
}
use unbounded_obstruction_fr.OfDeque.Interior.Inv.Defs.{Slots, Shape, Tracks, Edge, Local, Pair}
use unbounded_obstruction_fr.OfDeque.Interior.Inv.Values.{contents_empty}
use unbounded_obstruction_fr.OfDeque.Interior.Inv.Stable.{
  Tracks-update, Local-bump, Local-pushed, Local-popped,
}

pub same_slot_eq : (a b : Slot) → same_slot a b ≡ true → a ≡ b
same_slot_eq a b h = ground arith

Tracks-self : (b : Slots) (i : ℕ) → Tracks b i (b i)
Tracks-self b i = record { past = omega arith; same = λ e. refl }

-- A pusher that has just passed `casSafe` is later than all that was loaded of the near slot.
armed_push-Pair :
    (size : ℕ) (b : Slots) (side : Side) (v i : ℕ) (near far : Slot)
    → b i ≡ near
    → (q : Pc) → Local size b q
    → Pair (armed side (push v) i near far) q
armed_push-Pair size b side v i near far at (armed _ pop _ _ _) l = ground arith
armed_push-Pair size b side v i near far at (armed _ (push _) _ _ _) l = tt
armed_push-Pair size b side v i near far at idle l = tt
armed_push-Pair size b side v i near far at _ l = tt

Pair-armed_push :
    (side : Side) (v i : ℕ) (near far : Slot) (q : Pc) → Pair q (armed side (push v) i near far)
Pair-armed_push side v i near far (armed _ (push _) _ _ _) = tt
Pair-armed_push side v i near far _ = tt

-- A popper that has just passed `casSafe` is later than all that was loaded of the far slot.
Pair-armed_pop :
    (size : ℕ) (b : Slots) (side : Side) (i : ℕ) (near far : Slot)
    → b (far_index side i) ≡ far
    → (q : Pc) → Local size b q
    → Pair q (armed side pop i near far)
Pair-armed_pop size b side i near far at (armed side_left (push _) _ _ _) l = ground arith
Pair-armed_pop size b side i near far at (armed side_right (push _) _ _ _) l = ground arith
Pair-armed_pop size b side i near far at _ l = tt

pub Pair-self : (q : Pc) → Pair q q
Pair-self (armed _ (push _) _ _ _) = tt
Pair-self (armed _ pop _ _ _) = tt
Pair-self _ = tt

abbrev Unarmed : Pc → Type 0
Unarmed (armed _ _ _ _ _) = ⊥
Unarmed _ = Unit

Pair-Unarmed : (q p : Pc) → Unarmed p → Pair q p
Pair-Unarmed (armed _ (push _) _ _ _) (armed _ _ _ _ _) u = absurd u
Pair-Unarmed (armed _ (push _) _ _ _) _ u = tt
Pair-Unarmed _ _ u = tt

Unarmed-Pair : (p q : Pc) → Unarmed p → Pair p q
Unarmed-Pair (armed _ _ _ _ _) q u = absurd u
Unarmed-Pair _ q u = tt

edge_ok-Edge :
    {size : ℕ} (side : Side) (i : ℕ) (near far : Slot)
    → interior size side i ≡ true
    → edge_ok size side i near far ≡ true
    → Edge size side i near far
unfolding edge_ok
edge_ok-Edge side_left i near far h e = ground arith
edge_ok-Edge side_right i near far h e = ground arith

-- What one access, from `b` and `p` to `b'` and `p'`, does to the parts of the invariant.
pub record Kept (size bound : ℕ) (b b' : Slots) (p p' : Pc) : Type 0 where
  pub shape : Shape size b'
  pub small : (i : ℕ) → (b' i).count ≤ suc bound
  pub local : Local size b' p'
  pub others : (q : Pc) → Local size b q → Pair p q → Pair q p → Local size b' q
  pub pair_left : (q : Pc) → Local size b q → Pair p q → Pair p' q
  pub pair_right : (q : Pc) → Local size b q → Pair q p → Pair q p'

module _ {size bound : ℕ} (b : Buffer) (shape : Shape size b.slots)
    (small : (i : ℕ) → (b.slots i).count ≤ bound) (few : suc bound < 2 ^ 30) where
  -- A write of slot `x` with the next counter.
  abbrev written : ℕ → Slot → Slots
  written x s = update b.slots x s

  small-written :
      (x : ℕ) (s : Slot)
      → s.count ≡ suc (b.slots x).count
      → (i : ℕ) → (written x s i).count ≤ suc bound
  small-written x s n i = ground (arith, small i, small x)

  -- Nothing is written.
  Kept-same :
      {p p' : Pc}
      → Local size b.slots p'
      → ((q : Pc) → Local size b.slots q → Pair p q → Pair p' q)
      → ((q : Pc) → Local size b.slots q → Pair q p → Pair q p')
      → Kept size bound b.slots b.slots p p'
  Kept-same l left right = record {
    shape = shape;
    small = λ i. omega (arith, small i);
    local = l;
    others = λ q lq pq qp. lq;
    pair_left = left;
    pair_right = right;
  }

  -- `casSafe` writes slot `x`.
  Kept-bump :
      {p p' : Pc} (x : ℕ) (s : Slot)
      → s.count ≡ suc (b.slots x).count
      → s.type ≡ (b.slots x).type
      → Local size (written x s) p'
      → ((q : Pc) → Local size b.slots q → Pair p q → Pair p' q)
      → ((q : Pc) → Local size b.slots q → Pair q p → Pair q p')
      → Kept size bound b.slots (written x s) p p'
  Kept-bump x s n e l left right = record {
    shape = λ i lt. ground (arith, shape i lt);
    small = small-written x s n;
    local = l;
    others = λ q lq pq qp. Local-bump b.slots x s n size q e lq;
    pair_left = left;
    pair_right = right;
  }

  Kept-Unarmed :
      {p p' : Pc} → Unarmed p' → Local size b.slots p' → Kept size bound b.slots b.slots p p'
  Kept-Unarmed {p' = p'} u l =
      Kept-same l (λ q lq pq. Unarmed-Pair p' q u) (λ q lq pq. Pair-Unarmed q p' u)

  pop_value :
      (side : Side) (i : ℕ) (near far : Slot)
      → Edge size side i near far
      → (same_type near.type (near_type side) && (b.slots i).count == near.count) ≡ false
      → near.count ≡ (b.slots i).count
      → near.type ≡ type_value
  pop_value side_left i near far e miss same = ground arith
  pop_value side_right i near far e miss same = ground arith

  Shape-pushed :
      (side : Side) (i v : ℕ) (near far s : Slot)
      → s.type ≡ type_value
      → b.slots (far_index side i) ≡ far
      → Local size b.slots (armed side (push v) i near far)
      → Shape size (written (far_index side i) s)
  Shape-pushed side_left zero v near far s e at l k lt = ground arith
  Shape-pushed side_left (suc i) v near far s e at l k lt = ground (arith, shape k lt, shape i)
  Shape-pushed side_right i v near far s e at l k lt = ground (arith, shape k lt)

  Shape-popped :
      (side : Side) (i : ℕ) (near far s : Slot)
      → s.type ≡ far_type side
      → b.slots i ≡ near
      → Local size b.slots (armed side pop i near far)
      → Shape size (written i s)
  Shape-popped side_left i near far s e at l k lt = ground (arith, shape k lt)
  Shape-popped side_right i near far s e at l k lt = ground (arith, shape k lt)

  -- `casSafe` makes a pusher sure of the near slot as long as the far slot does not change.
  Kept-armed_push :
      (side : Side) (v i : ℕ) (near far : Slot)
      → Local size b.slots (checked side (push v) i near far)
      → b.slots i ≡ near
      → Kept size bound b.slots
          (written i (record near { count = bump near.count }))
          (checked side (push v) i near far)
          (armed side (push v) i near far)
  Kept-armed_push side v i near far l at =
      let n : bump near.count ≡ suc (b.slots i).count = ground (arith, small i) in
      Kept-bump i _ n (ground arith)
        (l.0, ground arith, Tracks-update b.slots i _ n l.2, ground arith)
        (λ q lq _. armed_push-Pair size b.slots side v i near far at q lq)
        (λ q _ _. Pair-armed_push side v i near far q)

  -- `casSafe` makes a popper sure of the far slot as long as the near slot does not change.
  Kept-armed_pop :
      (side : Side) (i : ℕ) (near far : Slot)
      → Local size b.slots (checked side pop i near far)
      → b.slots (far_index side i) ≡ far
      → Kept size bound b.slots
          (written (far_index side i) (record far { count = bump far.count }))
          (checked side pop i near far)
          (armed side pop i near far)
  Kept-armed_pop side i near far l at =
      let n : bump far.count ≡ suc (b.slots (far_index side i)).count =
        ground (arith, small (far_index side i)) in
      Kept-bump (far_index side i) _ n (ground arith)
        (
          l.0,
          Tracks-update b.slots (far_index side i) _ n l.1,
          ground arith,
          ground arith,
          ground arith,
        )
        (λ q _ _. tt) (λ q lq _. Pair-armed_pop size b.slots side i near far at q lq)

  Kept-pushed :
      (side : Side) (v i : ℕ) (near far : Slot)
      → Local size b.slots (armed side (push v) i near far)
      → b.slots (far_index side i) ≡ far
      → Kept size bound b.slots
          (written
            (far_index side i)
            (record { word = v; count = bump far.count; type = type_value }))
          (armed side (push v) i near far)
          (hinting side true)
  Kept-pushed side v i near far l at =
      let n : bump far.count ≡ suc (b.slots (far_index side i)).count =
        ground (arith, small (far_index side i)) in
      record {
        shape = Shape-pushed side i v near far _ refl at l;
        small = small-written _ _ n;
        local = tt;
        others = λ q lq pq qp. Local-pushed size b.slots _ side v i near far q n refl at l pq lq;
        pair_left = λ q _ _. tt;
        pair_right = λ q _ _. Pair-Unarmed q (hinting side true) tt;
      }

  Kept-popped :
      (side : Side) (junk i : ℕ) (near far : Slot)
      → Local size b.slots (armed side pop i near far)
      → b.slots i ≡ near
      → Kept size bound b.slots
          (written i (record { word = junk; count = bump near.count; type = far_type side }))
          (armed side pop i near far)
          (hinting side false)
  Kept-popped side junk i near far l at =
      let n : bump near.count ≡ suc (b.slots i).count = ground (arith, small i) in
      record {
        shape = Shape-popped side i near far _ refl at l;
        small = small-written _ _ n;
        local = tt;
        others = λ q lq pq qp. Local-popped size b.slots _ side i near far q n refl at l qp lq;
        pair_left = λ q _ _. tt;
        pair_right = λ q _ _. Pair-Unarmed q (hinting side false) tt;
      }

  pub advance-Kept :
      (c : Choice) (p : Pc)
      → Local size b.slots p
      → let (b', p', e) = advance size c b p in Kept size bound b.slots b'.slots p p'
  unfolding advance
  advance-Kept c idle l = Kept-Unarmed tt tt
  advance-Kept c (looping side op) l = elim (Bool-cases (interior size side c.edge)) [
    | inl hit ↦ rw hit (Kept-Unarmed tt (hit, Tracks-self b.slots c.edge))
    | inr miss ↦ rw miss (Kept-Unarmed tt tt)
  ]
  advance-Kept c (near_loaded side op i near) l =
      elim (Bool-cases (edge_ok size side i near (b.slots (far_index side i)))) [
        | inl hit ↦ rw hit (
            Kept-Unarmed tt (
              edge_ok-Edge side i near (b.slots (far_index side i)) l.0 hit,
              l.1,
              Tracks-self b.slots (far_index side i),
              λ same type.
                  contents_empty size b shape side i l.0 (rw (l.1.same same) type)
                    (edge_ok-Edge side i near (b.slots (far_index side i)) l.0 hit).far_is_far,
            ))
        | inr miss ↦ rw miss (Kept-Unarmed tt tt)
      ]
  advance-Kept c (edge_loaded side (push v) i near far seen) l = Kept-Unarmed tt (l.0, l.1, l.2)
  advance-Kept c (edge_loaded side pop i near far seen) l =
      elim (Bool-cases (same_type near.type (near_type side) && (b.slots i).count == near.count)) [
        | inl hit ↦ rw hit (Kept-Unarmed tt tt)
        | inr miss ↦ rw miss (Kept-Unarmed tt (l.0, l.1, l.2, pop_value side i near far l.0 miss))
      ]
  advance-Kept c (checked side (push v) i near far) l =
      elim (Bool-cases (same_slot (b.slots i) near)) [
        | inl hit ↦ rw hit (Kept-armed_push side v i near far l (same_slot_eq _ _ hit))
        | inr miss ↦ rw miss (Kept-Unarmed tt tt)
      ]
  advance-Kept c (checked side pop i near far) l =
      elim (Bool-cases (same_slot (b.slots (far_index side i)) far)) [
        | inl hit ↦ rw hit (Kept-armed_pop side i near far l (same_slot_eq _ _ hit))
        | inr miss ↦ rw miss (Kept-Unarmed tt tt)
      ]
  advance-Kept c (armed side (push v) i near far) l =
      elim (Bool-cases (same_slot (b.slots (far_index side i)) far)) [
        | inl hit ↦ rw hit (Kept-pushed side v i near far l (same_slot_eq _ _ hit))
        | inr miss ↦ rw miss (Kept-Unarmed tt tt)
      ]
  advance-Kept c (armed side pop i near far) l = elim (Bool-cases (same_slot (b.slots i) near)) [
    | inl hit ↦ rw hit (Kept-popped side c.junk i near far l (same_slot_eq _ _ hit))
    | inr miss ↦ rw miss (Kept-Unarmed tt tt)
  ]
  advance-Kept c (hinting side_left true) l = Kept-Unarmed tt tt
  advance-Kept c (hinting side_left false) l = Kept-Unarmed tt tt
  advance-Kept c (hinting side_right true) l = Kept-Unarmed tt tt
  advance-Kept c (hinting side_right false) l = Kept-Unarmed tt tt

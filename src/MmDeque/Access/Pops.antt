-- ===== src/MmDeque/Access/Pops.antt =====
-- deque/MMDeque.hpp: the accesses of `right_pop` and `left_pop`.
use unbounded_obstruction_fr.Base.{
  ℕ, ◌+◌, ◌-◌, ◌≤◌, ◌<◌, ◌≡◌, ◌≢◌, inl, inr, refl, sym, ◌∙◌, ap, arith, ◌==◌, ==_iff, Bool-cases,
}
use unbounded_obstruction_fr.OfDeque.Slot.{Side, side_left, side_right}
use unbounded_obstruction_fr.MmDeque.{
  Status, stable, Anchor, Memory, pop_again, Choice, Pc, popping, pop_seen, pop_checked, pop_ready,
  reading, popped, same_anchor, end_of, status_of, cas_anchor, first_anchor, popped_anchor, leave,
  is_stable, pop_access,
}
use unbounded_obstruction_fr.MmDeque.Inv.Defs.{Chain, Seen, Prev, Local}
use unbounded_obstruction_fr.MmDeque.Inv.Keeps.{Keeps}
use unbounded_obstruction_fr.MmDeque.Inv.Allocs.{same-Chain}
use unbounded_obstruction_fr.MmDeque.Inv.Leaves.{
  Popped, leave_left-Chain, leave_left-Keeps, leave_right-Chain, leave_right-Keeps,
}
use unbounded_obstruction_fr.MmDeque.Inv.Loads.{
  same_status_lem, load-Keeps, anchor-Seen, end_null, end_some, short_stable, ends_equal,
  ends_apart, loaded-Prev, neighbor_left, neighbor_right,
}
use unbounded_obstruction_fr.MmDeque.Inv.View.{
  view, Does, leave_left-view, leave_right-view, none-view,
}
use unbounded_obstruction_fr.MmDeque.Access.Sound.{Sound, loaded, stabilize-Sound}
use unbounded_obstruction_fr.MmDeque.Access.Stabs.{cas_here}
use unbounded_obstruction_fr.MmDeque.Access.Pushes.{node_allocated}

quiet : (a : Anchor) → a.status ≡ stable → (t : Side) → a.status ≢ status_of t
quiet a e side_left z = ground arith
quiet a e side_right z = ground arith

module _ (n : ℕ) (m : Memory) (chain : Chain n m) where
  -- The anchor `a` has the neighbor of the old end at that end.
  abbrev Leaves : Side → Anchor → Type 0
  Leaves side_left a =
      Popped m a.left a.right (m.at (m.lo + 1)) m.anchor.right m.anchor.status a.status
  Leaves side_right a =
      Popped m a.right a.left (m.at (m.hi - 2)) m.anchor.left m.anchor.status a.status

  last-Leaves :
      (side : Side) (st : Status)
      → m.lo < m.hi
      → m.hi ≤ m.lo + 1
      → m.anchor.status ≡ st
      → Leaves side (first_anchor 0 st)
  last-Leaves side st lt le e = elim side as (λ k. Leaves k (first_anchor 0 st)) [
    | side_left ↦ made
    | side_right ↦ made
  ]
    where
      made : {near other : ℕ} → Popped m 0 0 near other m.anchor.status st
      made = record {
        some = lt;
        last_near = λ _. refl;
        last_far = λ _. refl;
        more_near = λ z. absurd (omega arith);
        more_far = λ z. absurd (omega arith);
        before_stable = short_stable n m chain le;
        after_stable = sym e ∙ short_stable n m chain le;
      }

  more-Leaves :
      (side : Side) (a : Anchor) (prev : ℕ)
      → m.anchor ≡ a
      → m.lo + 1 < m.hi
      → a.status ≡ stable
      → Prev m side a prev
      → Leaves side (popped_anchor side prev a)
  more-Leaves side_left a prev here lt st f = record {
    some = omega arith;
    last_near = λ z. absurd (omega arith);
    last_far = λ z. absurd (omega arith);
    more_near = λ _. sym (neighbor_left n m chain side_left a prev here lt f);
    more_far = λ _. sym (ap (λ b. b.right) here);
    before_stable = ap (λ b. b.status) here ∙ st;
    after_stable = st;
  }
  more-Leaves side_right a prev here lt st f = record {
    some = omega arith;
    last_near = λ z. absurd (omega arith);
    last_far = λ z. absurd (omega arith);
    more_near = λ _. sym (neighbor_right n m chain side_right a prev here lt f);
    more_far = λ _. sym (ap (λ b. b.left) here);
    before_stable = ap (λ b. b.status) here ∙ st;
    after_stable = st;
  }

  left-Chain : (side : Side) (a : Anchor) → Leaves side a → Chain (n + 1) (leave side a m)
  left-Chain side_left a p = leave_left-Chain n m chain a p
  left-Chain side_right a p = leave_right-Chain n m chain a p

  left-Keeps : (side : Side) (a : Anchor) → Leaves side a → (y : ℕ) → Keeps m (leave side a m) y
  left-Keeps side_left a p y = leave_left-Keeps n m chain a p y
  left-Keeps side_right a p y = leave_right-Keeps n m chain a p y

  end_allocated : (side : Side) → m.lo < m.hi → end_of side m.anchor < m.next
  end_allocated side_left lt = rw (chain.ends lt).0 (node_allocated n m chain m.lo (omega arith) lt)
  end_allocated side_right lt =
      rw (chain.ends lt).1 (node_allocated n m chain (m.hi - 1) (omega arith) (omega arith))

  left-Does :
      (side : Side) (a : Anchor)
      → m.lo < m.hi
      → Does (popped side (m.data_of (end_of side m.anchor))) (view m) (view (leave side a m))
  left-Does side_left a lt = leave_left-view m m.anchor.left a lt (chain.ends lt).0
  left-Does side_right a lt = leave_right-view m m.anchor.right a lt (chain.ends lt).1

  left_local :
      (side : Side) (a : Anchor) (x : ℕ)
      → x < m.next
      → Local (leave side a m) (reading x (m.data_of x))
  left_local side_left a x lt = (refl, lt)
  left_local side_right a x lt = (refl, lt)

  left-Sound :
      (p : Pc) (side : Side) (a b : Anchor)
      → m.anchor ≡ a
      → m.lo < m.hi
      → Leaves side b
      → Sound n m p (
        leave side b m,
        reading (end_of side a) (m.data_of (end_of side a)),
        popped side (m.data_of (end_of side a)),
      )
  left-Sound p side a b here lt l = record {
    chain = left-Chain side b l;
    local = left_local side b (end_of side a) (rw (← here) (end_allocated side lt));
    mine_next = inl refl;
    others = λ y _. left-Keeps side b l y;
    does = rw (← here) (left-Does side b lt);
  }

  module _ (c : Choice) (side : Side) where
    pub popping-Sound : Sound n m (popping side) (pop_access c m (popping side))
    popping-Sound = elim (Bool-cases (end_of side m.anchor == 0)) [
      | inl h ↦ rw h (record {
        chain = same-Chain n m chain;
        local = tt;
        mine_next = inl refl;
        others = λ y _. load-Keeps m y;
        does = (none-view m (end_null n m chain side ((==_iff _ _).0 h)), refl);
      })
      | inr h ↦ rw h (
          loaded n m chain _ (pop_seen side m.anchor)
            (anchor-Seen n m chain, λ z. ground (arith, (==_iff (end_of side m.anchor) 0).1 z))
            (inl refl))
    ]

    module _ (a : Anchor) (s : Seen m a) where
      pub pop_seen-Sound :
          end_of side a ≢ 0 → Sound n m (pop_seen side a) (pop_access c m (pop_seen side a))
      pop_seen-Sound ne = elim (Bool-cases (a.left == a.right)) [
        | inl one ↦ elim (Bool-cases (cas_anchor c.spurious a m)) [
          | inl h ↦
              let here = cas_here c.spurious a m h in
              let lt : m.lo < m.hi =
                end_some n m chain side (λ z. ne (sym (ap (end_of side) here) ∙ z)) in
              let short : m.hi ≤ m.lo + 1 =
                ends_equal n m chain (rw here ((==_iff a.left a.right).0 one)) in
              rw (one, h)
                (left-Sound _ side a (first_anchor 0 a.status) here lt
                  (last-Leaves side a.status lt short (ap (λ b. b.status) here)))
          | inr h ↦ rw (one, h) (loaded n m chain _ (popping side) tt (inl refl))
        ]
        | inr two ↦ elim (Bool-cases (is_stable a)) [
          | inl st ↦ elim (Bool-cases (same_anchor a m.anchor)) [
            | inl h ↦
                rw (two, st, h)
                  (loaded n m chain _ (pop_checked side a)
                    (
                      s,
                      (λ z. ground (arith, (==_iff a.left a.right).1 z)),
                      same_status_lem a.status stable st,
                    )
                    (inl refl))
            | inr h ↦ rw (two, st, h) (loaded n m chain _ (popping side) tt (inl refl))
          ]
          | inr st ↦ rw (two, st) (stabilize-Sound n m chain _ a (pop_again side) refl s tt)
        ]
      ]

      pub pop_checked-Sound :
          a.left ≢ a.right
          → a.status ≡ stable
          → Sound n m (pop_checked side a) (pop_access c m (pop_checked side a))
      pop_checked-Sound ne st =
          loaded n m chain _ (pop_ready side a _)
            (s, ne, st, loaded-Prev n m chain side a s (λ t _. quiet a st t)) (inl refl)

      pub pop_ready-Sound :
          (prev : ℕ)
          → a.left ≢ a.right
          → a.status ≡ stable
          → Prev m side a prev
          → Sound n m (pop_ready side a prev) (pop_access c m (pop_ready side a prev))
      pop_ready-Sound prev ne st f = elim (Bool-cases (cas_anchor c.spurious a m)) [
        | inl h ↦
            let here = cas_here c.spurious a m h in
            let lt : m.lo + 1 < m.hi = ends_apart n m chain (rw here ne) in
            rw h (
              left-Sound _ side a (popped_anchor side prev a) here (omega arith)
                (more-Leaves side a prev here lt st f))
        | inr h ↦ rw h (loaded n m chain _ (popping side) tt (inl refl))
      ]

  pub reading-Sound :
      (c : Choice) (x v : ℕ)
      → m.data_of x ≡ v
      → Sound n m (reading x v) (pop_access c m (reading x v))
  reading-Sound c x v e = record {
    chain = same-Chain n m chain;
    local = tt;
    mine_next = inl refl;
    others = λ y _. load-Keeps m y;
    does = (e, refl);
  }

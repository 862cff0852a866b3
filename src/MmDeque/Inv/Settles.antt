-- ===== src/MmDeque/Inv/Settles.antt =====
-- deque/MMDeque.hpp: the exchange of the anchor that makes it stable.
use unbounded_obstruction_fr.Base.{
  ℕ, ◌+◌, ◌-◌, ◌≤◌, ◌<◌, ◌≡◌, ◌≢◌, inl, inr, refl, sym, ◌∙◌, ap, arith, le_or_lt,
}
use unbounded_obstruction_fr.OfDeque.Slot.{Side, side_left, side_right}
use unbounded_obstruction_fr.MmDeque.{stable, Link, Anchor, Memory, end_of, status_of, outward}
use unbounded_obstruction_fr.MmDeque.Inv.Defs.{Chain, Prev, Set, Tracks}
use unbounded_obstruction_fr.MmDeque.Inv.Keeps.{Race, Keeps}
use unbounded_obstruction_fr.MmDeque.Inv.Links.{push_not_stable}
use unbounded_obstruction_fr.MmDeque.Inv.Moves.{moved-Keeps}

module _ (n : ℕ) (m : Memory) (chain : Chain n m) (a : Anchor) (side : Side) (here : m.anchor ≡ a)
    (st : a.status ≡ status_of side) where
  abbrev settled_anchor : Anchor
  settled_anchor = record a { status = stable }

  abbrev pub settled : Memory
  settled = record m { anchor = settled_anchor }

  wide : m.lo + 1 < m.hi
  wide = chain.busy (λ z. push_not_stable a side st (sym (ap (λ b. b.status) here) ∙ z))

  left_end : m.at m.lo ≡ a.left
  left_end = sym (chain.ends (omega (arith, wide))).0 ∙ ap (λ b. b.left) here

  right_end : m.at (m.hi - 1) ≡ a.right
  right_end = sym (chain.ends (omega (arith, wide))).1 ∙ ap (λ b. b.right) here

  -- The neighbor's link to the end.
  right_set :
      (t : Side)
      → a.status ≡ status_of t
      → Set m t a
      → (i : ℕ) → m.lo ≤ i
      → i + 1 < m.hi
      → (m.right (m.at i)).ptr ≡ m.at (i + 1)
  right_set side_left e set i le lt =
      chain.rights i le lt (λ z. ground (arith, ap (λ b. b.status) here))
  right_set side_right e set i le lt = elim (le_or_lt m.hi (i + 2)) [
    | inl ge ↦
        let i1 : i + 1 ≡ m.hi - 1 = omega arith in
        let i2 : m.hi - 2 ≡ i = omega arith in
        sym (ap (λ k. (m.right (m.at k)).ptr) i2) ∙ set here ∙ sym right_end ∙ ap m.at (sym i1)
    | inr small ↦ chain.rights i le lt (λ z. small)
  ]

  left_set :
      (t : Side)
      → a.status ≡ status_of t
      → Set m t a
      → (i : ℕ) → m.lo < i
      → i < m.hi
      → (m.left (m.at i)).ptr ≡ m.at (i - 1)
  left_set side_right e set i le lt =
      chain.lefts i le lt (λ z. ground (arith, ap (λ b. b.status) here))
  left_set side_left e set i le lt = elim (le_or_lt i (m.lo + 1)) [
    | inl ge ↦
        let i1 : i - 1 ≡ m.lo = omega arith in
        let i2 : m.lo + 1 ≡ i = omega arith in
        sym (ap (λ k. (m.left (m.at k)).ptr) i2) ∙ set here ∙ sym left_end ∙ ap m.at (sym i1)
    | inr small ↦ chain.lefts i le lt (λ z. small)
  ]

  -- A thread that loaded the link before it was set finds a greater serial number.
  overtaken :
      (t : Side)
      → a.status ≡ status_of t
      → Set m t a
      → (p : ℕ) (l : Link) → Prev m t a p
      → Tracks m t p l
      → l.ptr ≢ end_of t a
      → l.sn < (outward t m p).sn
  overtaken side_left e set p l f (le, same) ne =
      let q =
        f m.lo (m.hi - 1) (omega arith) (omega (arith, wide)) (omega (arith, wide)) left_end
          right_end in
      let ptr : (m.left p).ptr ≡ a.left = sym (ap (λ k. (m.left k).ptr) q) ∙ set here in
      elim (le_or_lt (m.left p).sn l.sn) [
        | inl ge ↦ absurd (ne (sym (ap (λ k. k.ptr) (same (omega arith))) ∙ ptr))
        | inr lt ↦ lt
      ]
  overtaken side_right e set p l f (le, same) ne =
      let q =
        f m.lo (m.hi - 1) (omega arith) (omega (arith, wide)) (omega (arith, wide)) left_end
          right_end in
      let two : m.hi - 2 ≡ m.hi - 1 - 1 = omega arith in
      let ptr : (m.right p).ptr ≡ a.right =
        sym (ap (λ k. (m.right k).ptr) (ap m.at two ∙ q)) ∙ set here in
      elim (le_or_lt (m.right p).sn l.sn) [
        | inl ge ↦ absurd (ne (sym (ap (λ k. k.ptr) (same (omega arith))) ∙ ptr))
        | inr lt ↦ lt
      ]

  same_side : (t : Side) → a.status ≡ status_of t → t ≡ side
  same_side t e =
      elim side as (λ k. a.status ≡ status_of k → t ≡ k) [
        | side_left ↦ λ w.
            elim t as (λ k. a.status ≡ status_of k → k ≡ side_left) [
              | side_left ↦ λ z. refl
              | side_right ↦ λ z. ground arith
            ]
              e
        | side_right ↦ λ w.
            elim t as (λ k. a.status ≡ status_of k → k ≡ side_right) [
              | side_right ↦ λ z. refl
              | side_left ↦ λ z. ground arith
            ]
              e
      ]
        st

  module _ (set : Set m side a) where
    pub settled-Chain : Chain (n + 1) settled
    settled-Chain = record {
      range = chain.range;
      room = omega (arith, chain.room);
      none_left = λ e. absurd (omega (arith, wide));
      ends = λ lt. (sym left_end, sym right_end);
      busy = λ ne. absurd (ne refl);
      known = chain.known;
      distinct = chain.distinct;
      rights = λ i le lt e. right_set side st set i le lt;
      lefts = λ i le lt e. left_set side st set i le lt;
      null = chain.null;
      some_next = chain.some_next;
      fresh = chain.fresh;
      left_count = λ x. omega (arith, chain.left_count x);
      right_count = λ x. omega (arith, chain.right_count x);
    }

    race' :
        (t : Side) (b : Anchor) (p : ℕ) (l : Link)
        → b.status ≡ status_of t
        → Prev m t b p
        → Tracks m t p l
        → l.ptr ≢ end_of t b
        → Race m t b p l
        → Race settled t b p l
    race' t b p l e f k ne (inl now) =
        let same : b ≡ a = sym now ∙ here in
        let e' : a.status ≡ status_of t = sym (ap (λ c. c.status) same) ∙ e in
        let set' : Set m t a = rw (same_side t e') set in
        let lt = overtaken t e' set' p l (rw (← same) f) k (rw (← same) ne) in
        inr (
          elim t as (λ s. l.sn < (outward s m p).sn → l.sn < (outward s settled p).sn) [
            | side_left ↦ λ z. z
            | side_right ↦ λ z. z
          ]
            lt)
    race' side_left b p l e f k ne (inr lt) = inr lt
    race' side_right b p l e f k ne (inr lt) = inr lt

    pub settled-Keeps : (y : ℕ) → Keeps m settled y
    settled-Keeps y = moved-Keeps m settled_anchor m.at m.lo m.hi m.published y (record {
      known = λ x e. e;
      unknown = λ v o. o.unpublished;
      left_new = λ z. absurd (ground arith);
      right_new = λ z. absurd (ground arith);
      low = λ i le lt k. le;
      high = λ i le lt k. lt;
      same = λ i le lt. refl;
      race = λ t b p l s e f k tr ne r. race' t b p l e f tr ne r;
    })

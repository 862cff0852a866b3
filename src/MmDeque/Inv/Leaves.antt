-- ===== src/MmDeque/Inv/Leaves.antt =====
-- deque/MMDeque.hpp: the exchanges of the anchor that pop a node, and the one that makes it stable.
use unbounded_obstruction_fr.Base.{ℕ, ◌+◌, ◌-◌, ◌<◌, ◌≡◌, refl, sym, ◌∙◌, ap, arith}
use unbounded_obstruction_fr.OfDeque.Slot.{side_left, side_right}
use unbounded_obstruction_fr.MmDeque.{Status, stable, Anchor, Memory, leave}
use unbounded_obstruction_fr.MmDeque.Inv.Defs.{Chain}
use unbounded_obstruction_fr.MmDeque.Inv.Keeps.{Keeps}
use unbounded_obstruction_fr.MmDeque.Inv.Moves.{moved-Keeps, no_race}

-- The anchor after a pop: its near end is the neighbor of the old one, if there is one.
pub record Popped (m : Memory) (near far next_near other : ℕ) (before after : Status) : Type 0 where
  pub some : m.lo < m.hi
  pub last_near : m.lo + 1 ≡ m.hi → near ≡ 0
  pub last_far : m.lo + 1 ≡ m.hi → far ≡ 0
  pub more_near : m.lo + 1 < m.hi → near ≡ next_near
  pub more_far : m.lo + 1 < m.hi → far ≡ other
  pub before_stable : before ≡ stable
  pub after_stable : after ≡ stable

module _ (n : ℕ) (m : Memory) (chain : Chain n m) (a : Anchor) where
  module _
      (p : Popped m a.left a.right (m.at (m.lo + 1)) m.anchor.right m.anchor.status a.status) where
    pub leave_left-Chain : Chain (n + 1) (leave side_left a m)
    leave_left-Chain = record {
      range = omega (arith, p.some);
      room = omega (arith, chain.room);
      none_left = λ e. (p.last_near e, p.last_far e, p.after_stable);
      ends = λ lt. (p.more_near lt, p.more_far lt ∙ (chain.ends p.some).1);
      busy = λ ne. absurd (ne p.after_stable);
      known = λ i le lt. chain.known i (omega arith) lt;
      distinct = λ i j le lt gt. chain.distinct i j (omega arith) lt gt;
      rights = λ i le lt st. chain.rights i (omega arith) lt (λ e. ground (arith, p.before_stable));
      lefts = λ i lt gt st. chain.lefts i (omega arith) gt (λ e. ground (arith, p.before_stable));
      null = chain.null;
      some_next = chain.some_next;
      fresh = chain.fresh;
      left_count = λ y. omega (arith, chain.left_count y);
      right_count = λ y. omega (arith, chain.right_count y);
    }

    pub leave_left-Keeps : (y : ℕ) → Keeps m (leave side_left a m) y
    leave_left-Keeps y = moved-Keeps m a m.at (m.lo + 1) m.hi m.published y (record {
      known = λ x e. e;
      unknown = λ v o. o.unpublished;
      left_new = λ st. absurd (ground (arith, p.after_stable));
      right_new = λ st. absurd (ground (arith, p.after_stable));
      low = λ i le lt k. omega arith;
      high = λ i le lt k. lt;
      same = λ i le lt. refl;
      race = λ side b q l s st f k t nq r.
          no_race m a m.at (m.lo + 1) m.hi m.published p.before_stable side b q l st r;
    })

  module _
      (p : Popped m a.right a.left (m.at (m.hi - 2)) m.anchor.left m.anchor.status a.status) where
    pub leave_right-Chain : Chain (n + 1) (leave side_right a m)
    leave_right-Chain = record {
      range = omega (arith, p.some);
      room = omega (arith, chain.room);
      none_left = λ e.
          let one : m.lo + 1 ≡ m.hi = omega (arith, p.some) in
          (p.last_far one, p.last_near one, p.after_stable);
      ends = λ lt.
          let two : m.hi - 1 - 1 ≡ m.hi - 2 = omega arith in
          (
            p.more_far (omega arith) ∙ (chain.ends p.some).0,
            p.more_near (omega arith) ∙ sym (ap m.at two),
          );
      busy = λ ne. absurd (ne p.after_stable);
      known = λ i le lt. chain.known i le (omega arith);
      distinct = λ i j le lt gt. chain.distinct i j le lt (omega arith);
      rights = λ i le lt st. chain.rights i le (omega arith) (λ e. ground (arith, p.before_stable));
      lefts = λ i lt gt st. chain.lefts i lt (omega arith) (λ e. ground (arith, p.before_stable));
      null = chain.null;
      some_next = chain.some_next;
      fresh = chain.fresh;
      left_count = λ y. omega (arith, chain.left_count y);
      right_count = λ y. omega (arith, chain.right_count y);
    }

    pub leave_right-Keeps : (y : ℕ) → Keeps m (leave side_right a m) y
    leave_right-Keeps y = moved-Keeps m a m.at m.lo (m.hi - 1) m.published y (record {
      known = λ x e. e;
      unknown = λ v o. o.unpublished;
      left_new = λ st. absurd (ground (arith, p.after_stable));
      right_new = λ st. absurd (ground (arith, p.after_stable));
      low = λ i le lt k. le;
      high = λ i le lt k. omega arith;
      same = λ i le lt. refl;
      race = λ side b q l s st f k t nq r.
          no_race m a m.at m.lo (m.hi - 1) m.published p.before_stable side b q l st r;
    })

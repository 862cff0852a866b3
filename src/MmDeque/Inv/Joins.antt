-- ===== src/MmDeque/Inv/Joins.antt =====
-- deque/MMDeque.hpp: the exchange of the anchor that pushes a node.
use unbounded_obstruction_fr.Base.{
  ℕ, ◌+◌, ◌-◌, ◌^◌, ◌≤◌, ◌<◌, ◌≡◌, ◌≢◌, ◌⊎◌, inl, inr, refl, sym, ◌∙◌, ap, true, false, arith, ◌==◌,
  ==-ne, ==_self, Bool-cases, le_or_lt, update,
}
use unbounded_obstruction_fr.OfDeque.Slot.{side_left, side_right}
use unbounded_obstruction_fr.MmDeque.{Status, stable, rpush, lpush, Anchor, Memory, join}
use unbounded_obstruction_fr.MmDeque.Inv.Defs.{Chain, Known, Mine}
use unbounded_obstruction_fr.MmDeque.Inv.Keeps.{Keeps}
use unbounded_obstruction_fr.MmDeque.Inv.Moves.{moved-Keeps, no_race}

-- The anchor after a push: the new node is at an end, and the other end is the old one.
pub record Pushed (m : Memory) (x : ℕ) (near far other : ℕ) (busy_status before after : Status)
    : Type 0 where
  pub near_new : near ≡ x
  pub far_first : m.lo ≡ m.hi → far ≡ x
  pub far_old : m.lo < m.hi → far ≡ other
  pub after_first : m.lo ≡ m.hi → after ≡ stable
  pub after_more : m.lo < m.hi → after ≡ busy_status
  pub before_stable : before ≡ stable

module _ (n : ℕ) (m : Memory) (chain : Chain n m) (few : n + 1 < 2 ^ 32) (x v : ℕ) (me : Mine m v x)
    (a : Anchor) where
  apart : (y : ℕ) → Known m y → x ≢ y
  apart y k e = ground (arith, k, me.unpublished, me.not_null)

  published_after : (y : ℕ) → m.published y ≡ true → update m.published x true y ≡ true
  published_after y e = elim (Bool-cases (x == y)) [ inl h ↦ rw h refl | inr h ↦ rw h e ]

  published_other : (y : ℕ) → x ≢ y → m.published y ≡ false → update m.published x true y ≡ false
  published_other y ne e = rw (==-ne x y ne) e

  module _ (p : Pushed m x a.left a.right m.anchor.right lpush m.anchor.status a.status)
      (linked : m.lo < m.hi → (m.right x).ptr ≡ m.anchor.left) where
    new_left : update m.at (m.lo - 1) x (m.lo - 1) ≡ x
    new_left = rw (==_self (m.lo - 1)) refl

    old_left : (i : ℕ) → m.lo ≤ i → update m.at (m.lo - 1) x i ≡ m.at i
    old_left i le = rw (==-ne (m.lo - 1) i (λ e. absurd (omega (arith, chain.room)))) refl

    lowest : (i : ℕ) → m.lo - 1 ≤ i → (i ≡ m.lo - 1) ⊎ (m.lo ≤ i)
    lowest i le = elim (le_or_lt m.lo i) [ inl b ↦ inr b | inr b ↦ inl (omega arith) ]

    pub join_left-Chain : Chain (n + 1) (join side_left x a m)
    join_left-Chain = record {
      range = omega (arith, chain.range);
      room = omega (arith, chain.room);
      none_left = λ e. absurd (omega (arith, chain.range, chain.room));
      ends = λ lt. elim (le_or_lt m.hi m.lo) [
        | inl none ↦
            let e : m.hi - 1 ≡ m.lo - 1 = omega (arith, chain.range) in
            (
              p.near_new ∙ sym new_left,
              p.far_first (omega (arith, chain.range))
                  ∙ sym (ap (update m.at (m.lo - 1) x) e ∙ new_left),
            )
        | inr some ↦ (
          p.near_new ∙ sym new_left,
          p.far_old some ∙ (chain.ends some).1 ∙ sym (old_left (m.hi - 1) (omega arith)),
        )
      ];
      busy = λ ne. elim (le_or_lt m.hi m.lo) [
        | inl none ↦ absurd (ne (p.after_first (omega (arith, chain.range))))
        | inr some ↦ omega (arith, chain.room)
      ];
      known = λ i le lt. elim (lowest i le) [
        | inl e ↦ rw (e, new_left, ==_self x) refl
        | inr le' ↦ rw (old_left i le') (published_after (m.at i) (chain.known i le' lt))
      ];
      distinct = λ i j le lt gt. elim (lowest i le) [
        | inl e ↦
            rw (e, new_left, old_left j (omega (arith, chain.room)))
              (apart (m.at j) (inr (chain.known j (omega (arith, chain.room)) gt)))
        | inr le' ↦ rw (old_left i le', old_left j (omega arith)) (chain.distinct i j le' lt gt)
      ];
      rights = λ i le lt st. elim (lowest i le) [
        | inl e ↦
            let some : m.lo < m.hi = omega (arith, chain.room) in
            let i1 : m.lo - 1 + 1 ≡ m.lo = omega (arith, chain.room) in
            rw (e, new_left, i1, old_left m.lo (omega arith)) (linked some ∙ (chain.ends some).0)
        | inr le' ↦
            rw (old_left i le', old_left (i + 1) (omega arith))
              (chain.rights i le' lt (λ e. ground (arith, p.before_stable)))
      ];
      lefts = λ i lt gt st. elim (le_or_lt i m.lo) [
        | inl le ↦ absurd (omega (arith, chain.room, st (p.after_more (omega (arith, chain.room)))))
        | inr lt' ↦
            rw (old_left i (omega arith), old_left (i - 1) (omega arith))
              (chain.lefts i lt' gt (λ e. ground (arith, p.before_stable)))
      ];
      null = published_other 0 me.not_null chain.null;
      some_next = chain.some_next;
      fresh =
          λ y le. published_other y (λ e. absurd (omega (arith, me.allocated))) (chain.fresh y le);
      left_count = λ y. omega (arith, chain.left_count y);
      right_count = λ y. omega (arith, chain.right_count y);
    }

    pub join_left-Keeps : (y : ℕ) → x ≢ y → Keeps m (join side_left x a m) y
    join_left-Keeps y ne =
        moved-Keeps m a (update m.at (m.lo - 1) x) (m.lo - 1) m.hi (update m.published x true) y
          (record {
            known = published_after;
            unknown = λ w o. published_other y ne o.unpublished;
            left_new = λ st z k e. absurd (apart z k (sym p.near_new ∙ e));
            right_new = λ st. elim (le_or_lt m.hi m.lo) [
              | inl none ↦ absurd (ground (arith, p.after_first (omega (arith, chain.range))))
              | inr some ↦ absurd (ground (arith, p.after_more some))
            ];
            low = λ i le lt k. elim (lowest i le) [
              | inl e ↦ absurd (apart _ k (sym (ap (update m.at (m.lo - 1) x) e ∙ new_left)))
              | inr le' ↦ le'
            ];
            high = λ i le lt k. lt;
            same = λ i le lt. old_left i le;
            race = λ side b q l s st f k t nq r.
                no_race m a (update m.at (m.lo - 1) x) (m.lo - 1) m.hi (update m.published x true)
                  p.before_stable side b q l st r;
          })

  module _ (p : Pushed m x a.right a.left m.anchor.left rpush m.anchor.status a.status)
      (linked : m.lo < m.hi → (m.left x).ptr ≡ m.anchor.right) where
    new_right : update m.at m.hi x m.hi ≡ x
    new_right = rw (==_self m.hi) refl

    old_right : (i : ℕ) → i < m.hi → update m.at m.hi x i ≡ m.at i
    old_right i lt = rw (==-ne m.hi i (λ e. absurd (omega arith))) refl

    highest : (i : ℕ) → i < m.hi + 1 → (i ≡ m.hi) ⊎ (i < m.hi)
    highest i lt = elim (le_or_lt m.hi i) [ inl b ↦ inl (omega arith) | inr b ↦ inr b ]

    last : m.hi + 1 - 1 ≡ m.hi
    last = omega arith

    pub join_right-Chain : Chain (n + 1) (join side_right x a m)
    join_right-Chain = record {
      range = omega (arith, chain.range);
      room = omega (arith, chain.room);
      none_left = λ e. absurd (omega (arith, chain.range));
      ends = λ lt. elim (le_or_lt m.hi m.lo) [
        | inl none ↦
            let e : m.lo ≡ m.hi = omega (arith, chain.range) in
            (
              p.far_first e ∙ sym (ap (update m.at m.hi x) e ∙ new_right),
              p.near_new ∙ sym (ap (update m.at m.hi x) last ∙ new_right),
            )
        | inr some ↦ (
          p.far_old some ∙ (chain.ends some).0 ∙ sym (old_right m.lo some),
          p.near_new ∙ sym (ap (update m.at m.hi x) last ∙ new_right),
        )
      ];
      busy = λ ne. elim (le_or_lt m.hi m.lo) [
        | inl none ↦ absurd (ne (p.after_first (omega (arith, chain.range))))
        | inr some ↦ omega arith
      ];
      known = λ i le lt. elim (highest i lt) [
        | inl e ↦ rw (e, new_right, ==_self x) refl
        | inr lt' ↦ rw (old_right i lt') (published_after (m.at i) (chain.known i le lt'))
      ];
      distinct = λ i j le lt gt. elim (highest j gt) [
        | inl e ↦
            rw (e, new_right, old_right i (omega arith))
              (λ z. apart (m.at i) (inr (chain.known i le (omega arith))) (sym z))
        | inr gt' ↦ rw (old_right j gt', old_right i (omega arith)) (chain.distinct i j le lt gt')
      ];
      rights = λ i le lt st. elim (le_or_lt m.hi (i + 1)) [
        | inl ge ↦ absurd (omega (arith, st (p.after_more (omega arith))))
        | inr lt' ↦
            rw (old_right (i + 1) lt', old_right i (omega arith))
              (chain.rights i le lt' (λ e. ground (arith, p.before_stable)))
      ];
      lefts = λ i lt gt st. elim (highest i gt) [
        | inl e ↦
            let some : m.lo < m.hi = omega arith in
            rw (e, new_right, old_right (m.hi - 1) (omega arith))
              (linked some ∙ (chain.ends some).1)
        | inr gt' ↦
            rw (old_right i gt', old_right (i - 1) (omega arith))
              (chain.lefts i lt gt' (λ e. ground (arith, p.before_stable)))
      ];
      null = published_other 0 me.not_null chain.null;
      some_next = chain.some_next;
      fresh =
          λ y le. published_other y (λ e. absurd (omega (arith, me.allocated))) (chain.fresh y le);
      left_count = λ y. omega (arith, chain.left_count y);
      right_count = λ y. omega (arith, chain.right_count y);
    }

    pub join_right-Keeps : (y : ℕ) → x ≢ y → Keeps m (join side_right x a m) y
    join_right-Keeps y ne =
        moved-Keeps m a (update m.at m.hi x) m.lo (m.hi + 1) (update m.published x true) y (record {
          known = published_after;
          unknown = λ w o. published_other y ne o.unpublished;
          left_new = λ st. elim (le_or_lt m.hi m.lo) [
            | inl none ↦ absurd (ground (arith, p.after_first (omega (arith, chain.range))))
            | inr some ↦ absurd (ground (arith, p.after_more some))
          ];
          right_new = λ st z k e. absurd (apart z k (sym p.near_new ∙ e));
          low = λ i le lt k. le;
          high = λ i le lt k. elim (highest i lt) [
            | inl e ↦ absurd (apart _ k (sym (ap (update m.at m.hi x) e ∙ new_right)))
            | inr lt' ↦ lt'
          ];
          same = λ i le lt. old_right i lt;
          race = λ side b q l s st f k t nq r.
              no_race m a (update m.at m.hi x) m.lo (m.hi + 1) (update m.published x true)
                p.before_stable side b q l st r;
        })

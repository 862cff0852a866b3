-- ===== src/MmDeque/Inv/Moves.antt =====
-- deque/MMDeque.hpp: what the threads know survives an exchange of the anchor.
use unbounded_obstruction_fr.Base.{
  ℕ, ◌+◌, ◌-◌, ◌≤◌, ◌<◌, ◌≡◌, ◌≢◌, inl, inr, refl, sym, ◌∙◌, ap, Bool, true, false, arith,
}
use unbounded_obstruction_fr.OfDeque.Slot.{Side, side_left, side_right}
use unbounded_obstruction_fr.MmDeque.{
  stable, rpush, lpush, Link, Anchor, Memory, end_of, status_of, inward,
}
use unbounded_obstruction_fr.MmDeque.Inv.Defs.{Known, Seen, Prev, Set, Tracks, Mine}
use unbounded_obstruction_fr.MmDeque.Inv.Keeps.{Race, Keeps}
use unbounded_obstruction_fr.MmDeque.Inv.Links.{push_not_stable}

-- An exchange of the anchor, with the positions after it.
module _ (m : Memory) (anchor : Anchor) (at_of : ℕ → ℕ) (lo hi : ℕ) (published : ℕ → Bool) where
  abbrev pub moved : Memory
  moved = record m { anchor = anchor; at = at_of; lo = lo; hi = hi; published = published }

  -- From a stable anchor, no race was open.
  pub no_race :
      m.anchor.status ≡ stable
      → (side : Side) (a : Anchor) (p : ℕ) (l : Link) → a.status ≡ status_of side
      → Race m side a p l
      → Race moved side a p l
  no_race st side a p l e (inl here) =
      absurd (push_not_stable a side e (sym (ap (λ b. b.status) here) ∙ st))
  no_race st side_left a p l e (inr lt) = inr lt
  no_race st side_right a p l e (inr lt) = inr lt

  -- A node that was known stands where it stood, and a node that was just pushed was not known.
  pub record Moves (y : ℕ) : Type 0 where
    pub known : (x : ℕ) → m.published x ≡ true → published x ≡ true
    pub unknown : (v : ℕ) → Mine m v y → published y ≡ false
    pub left_new : anchor.status ≡ lpush → (x : ℕ) → Known m x → anchor.left ≢ x
    pub right_new : anchor.status ≡ rpush → (x : ℕ) → Known m x → anchor.right ≢ x
    pub low : (i : ℕ) → lo ≤ i → i < hi → Known m (at_of i) → m.lo ≤ i
    pub high : (i : ℕ) → lo ≤ i → i < hi → Known m (at_of i) → i < m.hi
    pub same : (i : ℕ) → m.lo ≤ i → i < m.hi → at_of i ≡ m.at i
    pub race :
        (side : Side) (a : Anchor) (p : ℕ) (l : Link)
        → Seen m a
        → a.status ≡ status_of side
        → Prev m side a p
        → Known m p
        → Tracks m side p l
        → l.ptr ≢ end_of side a
        → Race m side a p l
        → Race moved side a p l

  module _ (y : ℕ) (moves : Moves y) where
    moved-Known : (x : ℕ) → Known m x → Known moved x
    moved-Known x (inl e) = inl e
    moved-Known x (inr e) = inr (moves.known x e)

    moved-Seen : (a : Anchor) → Seen m a → Seen moved a
    moved-Seen a s = record {
      left_known = moved-Known a.left s.left_known;
      right_known = moved-Known a.right s.right_known;
      left_old = λ e z. moves.left_new z a.left s.left_known;
      right_old = λ e z. moves.right_new z a.right s.right_known;
    }

    -- The two ends of an anchor that was loaded are nodes that were known.
    moved-Prev :
        (side : Side) (a : Anchor) (p : ℕ) → Seen m a → Prev m side a p → Prev moved side a p
    moved-Prev side_left a p s f = λ i j le lt gt ei ej.
        let low = moves.low i le (omega arith) (rw ei s.left_known) in
        let high = moves.high j (omega arith) gt (rw ej s.right_known) in
        moves.same (i + 1) (omega arith) (omega arith)
        ∙ f i j low lt high (sym (moves.same i low (omega arith)) ∙ ei)
            (sym (moves.same j (omega arith) high) ∙ ej)
    moved-Prev side_right a p s f = λ i j le lt gt ei ej.
        let low = moves.low i le (omega arith) (rw ei s.left_known) in
        let high = moves.high j (omega arith) gt (rw ej s.right_known) in
        moves.same (j - 1) (omega arith) (omega arith)
        ∙ f i j low lt high (sym (moves.same i low (omega arith)) ∙ ei)
            (sym (moves.same j (omega arith) high) ∙ ej)

    moved-own_link :
        (v : ℕ) (side : Side) → Mine m v y → (inward side moved y).ptr ≡ (inward side m y).ptr
    moved-own_link v side_left o = refl
    moved-own_link v side_right o = refl

    moved-Tracks :
        (side : Side) (p : ℕ) (l : Link) → Known m p → Tracks m side p l → Tracks moved side p l
    moved-Tracks side_left p l k t = t
    moved-Tracks side_right p l k t = t

    -- The anchor was not seen before, or it is stable: what is known of the link of its neighbor is void.
    moved-Set :
        (side : Side) (a : Anchor)
        → Seen m a
        → a.status ≡ status_of side
        → Set m side a
        → Set moved side a
    moved-Set side_left a s st q = λ here.
        absurd (
          moves.left_new (ap (λ b. b.status) here ∙ st) a.left s.left_known (ap (λ b. b.left) here))
    moved-Set side_right a s st q = λ here. absurd (
        moves.right_new (ap (λ b. b.status) here ∙ st) a.right s.right_known
          (ap (λ b. b.right) here))

    pub moved-Keeps : Keeps m moved y
    moved-Keeps = record {
      known = moves.known;
      seen = moved-Seen;
      mine = λ w o. record {
        not_null = o.not_null;
        allocated = o.allocated;
        unpublished = moves.unknown w o;
        holds = o.holds;
      };
      own_link = moved-own_link;
      prev = moved-Prev;
      tracks = moved-Tracks;
      race = moves.race;
      set = moved-Set;
      data_kept = λ x p. refl;
      next_kept = omega arith;
    }

-- ===== src/MmDeque/Inv/Links.antt =====
-- deque/MMDeque.hpp: a change of links that keeps those between the nodes of the deque.
use unbounded_obstruction_fr.Base.{
  ℕ, ◌+◌, ◌-◌, ◌≤◌, ◌<◌, ◌≡◌, ◌≢◌, inl, inr, refl, sym, ◌∙◌, ap, arith,
}
use unbounded_obstruction_fr.OfDeque.Slot.{Side, side_left, side_right}
use unbounded_obstruction_fr.MmDeque.{stable, Link, Anchor, Memory, end_of, status_of, inward}
use unbounded_obstruction_fr.MmDeque.Inv.Defs.{Chain, Known, Seen, Prev, Set, Tracks, Mine}
use unbounded_obstruction_fr.MmDeque.Inv.Keeps.{Race, Keeps}

pub push_not_stable : (a : Anchor) (side : Side) → a.status ≡ status_of side → a.status ≢ stable
push_not_stable a side_left e z = ground arith
push_not_stable a side_right e z = ground arith

-- A link that changes has a greater serial number.
abbrev pub Later : (old new : Link) → Type 0
Later old new = (old.sn ≤ new.sn) × (old.sn ≡ new.sn → new ≡ old)

-- A change of links that keeps those between the nodes of the deque.
module _ (n : ℕ) (m : Memory) (chain : Chain n m) (left right : ℕ → Link) where
  abbrev pub relinked : Memory
  relinked = record m { left = left; right = right }

  pub record Relinks : Type 0 where
    pub lefts_kept :
        (i : ℕ)
        → m.lo < i
        → i < m.hi
        → (m.left (m.at i)).ptr ≡ m.at (i - 1)
        → (left (m.at i)).ptr ≡ m.at (i - 1)
    pub rights_kept :
        (i : ℕ)
        → m.lo ≤ i
        → i + 1 < m.hi
        → (m.right (m.at i)).ptr ≡ m.at (i + 1)
        → (right (m.at i)).ptr ≡ m.at (i + 1)
    pub left_later : (x : ℕ) → Known m x → Later (m.left x) (left x)
    pub right_later : (x : ℕ) → Known m x → Later (m.right x) (right x)
    pub left_bound : (x : ℕ) → (left x).sn ≤ n + 1
    pub right_bound : (x : ℕ) → (right x).sn ≤ n + 1

  module _ (links : Relinks) where
    pub relinked-Chain : Chain (n + 1) relinked
    relinked-Chain = record {
      range = chain.range;
      room = omega (arith, chain.room);
      none_left = chain.none_left;
      ends = chain.ends;
      busy = chain.busy;
      known = chain.known;
      distinct = chain.distinct;
      rights = λ i p q e. links.rights_kept i p q (chain.rights i p q e);
      lefts = λ i p q e. links.lefts_kept i p q (chain.lefts i p q e);
      null = chain.null;
      some_next = chain.some_next;
      fresh = chain.fresh;
      left_count = links.left_bound;
      right_count = links.right_bound;
    }

    pub relinked-Keeps :
        (x : ℕ)
        → ((v : ℕ)
            → Mine m v x
            → ((left x).ptr ≡ (m.left x).ptr) × ((right x).ptr ≡ (m.right x).ptr))
        → Keeps m relinked x
    relinked-Keeps x kept = record {
      known = λ y e. e;
      seen = λ a s. record {
        left_known = s.left_known;
        right_known = s.right_known;
        left_old = s.left_old;
        right_old = s.right_old;
      };
      mine = λ w o. record {
        not_null = o.not_null;
        allocated = o.allocated;
        unpublished = o.unpublished;
        holds = o.holds;
      };
      own_link = own;
      prev = prev';
      tracks = tracks';
      race = race';
      set = set';
      data_kept = λ y p. refl;
      next_kept = omega arith;
    }
      where
        own :
            (w : ℕ) (side : Side)
            → Mine m w x
            → (inward side relinked x).ptr ≡ (inward side m x).ptr
        own w side_left o = (kept w o).1
        own w side_right o = (kept w o).0

        prev' :
            (side : Side) (a : Anchor) (p : ℕ) → Seen m a → Prev m side a p → Prev relinked side a p
        prev' side_left a p s f = f
        prev' side_right a p s f = f

        still :
            (old new l : Link)
            → Later old new
            → (l.sn ≤ old.sn) × (l.sn ≡ old.sn → old ≡ l)
            → (l.sn ≤ new.sn) × (l.sn ≡ new.sn → new ≡ l)
        still old new l (le, same) (le', same') =
            (omega arith, λ e. same (omega arith) ∙ same' (omega arith))

        tracks' :
            (side : Side) (p : ℕ) (l : Link)
            → Known m p
            → Tracks m side p l
            → Tracks relinked side p l
        tracks' side_left p l k t = still (m.left p) (left p) l (links.left_later p k) t
        tracks' side_right p l k t = still (m.right p) (right p) l (links.right_later p k) t

        race' :
            (side : Side) (a : Anchor) (p : ℕ) (l : Link)
            → Seen m a
            → a.status ≡ status_of side
            → Prev m side a p
            → Known m p
            → Tracks m side p l
            → l.ptr ≢ end_of side a
            → Race m side a p l
            → Race relinked side a p l
        race' side a p l s e f k t ne (inl here) = inl here
        race' side_left a p l s e f k t ne (inr lt) = inr (omega (arith, (links.left_later p k).0))
        race' side_right a p l s e f k t ne (inr lt) =
            inr (omega (arith, (links.right_later p k).0))

        set' :
            (side : Side) (a : Anchor)
            → Seen m a
            → a.status ≡ status_of side
            → Set m side a
            → Set relinked side a
        set' side_left a s e q = λ here.
            let wide =
              chain.busy (λ z. push_not_stable a side_left e (sym (ap (λ b. b.status) here) ∙ z)) in
            let end : a.left ≡ m.at m.lo =
              sym (ap (λ b. b.left) here) ∙ (chain.ends (omega arith)).0 in
            let step : m.lo + 1 - 1 ≡ m.lo = omega arith in
            links.lefts_kept (m.lo + 1) (omega arith) (omega arith)
              (q here ∙ end ∙ ap m.at (sym step))
            ∙ ap m.at step
            ∙ sym end
        set' side_right a s e q = λ here.
            let wide =
              chain.busy
                (λ z. push_not_stable a side_right e (sym (ap (λ b. b.status) here) ∙ z)) in
            let end : a.right ≡ m.at (m.hi - 1) =
              sym (ap (λ b. b.right) here) ∙ (chain.ends (omega arith)).1 in
            let step : m.hi - 2 + 1 ≡ m.hi - 1 = omega arith in
            links.rights_kept (m.hi - 2) (omega arith) (omega arith)
              (q here ∙ end ∙ ap m.at (sym step))
            ∙ ap m.at step
            ∙ sym end

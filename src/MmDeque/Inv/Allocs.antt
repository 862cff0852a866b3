-- ===== src/MmDeque/Inv/Allocs.antt =====
-- deque/MMDeque.hpp: the access that takes a new node, and those that change nothing.
use unbounded_obstruction_fr.Base.{ℕ, ◌+◌, ◌≡◌, ◌≢◌, refl, arith, ==-ne, ==_self, update}
use unbounded_obstruction_fr.OfDeque.Slot.{Side, side_left, side_right}
use unbounded_obstruction_fr.MmDeque.{Link, Anchor, Memory, end_of, status_of, inward}
use unbounded_obstruction_fr.MmDeque.Inv.Defs.{Chain, Known, Seen, Prev, Set, Tracks, Mine}
use unbounded_obstruction_fr.MmDeque.Inv.Keeps.{Race, Keeps}

module _ (n : ℕ) (m : Memory) (chain : Chain n m) where
  abbrev pub allocated : (v : ℕ) → Memory
  allocated v = record m { data_of = update m.data_of m.next v; next = m.next + 1 }

  pub same-Chain : Chain (n + 1) m
  same-Chain = record {
    range = chain.range;
    room = omega (arith, chain.room);
    none_left = chain.none_left;
    ends = chain.ends;
    busy = chain.busy;
    known = chain.known;
    distinct = chain.distinct;
    rights = chain.rights;
    lefts = chain.lefts;
    null = chain.null;
    some_next = chain.some_next;
    fresh = chain.fresh;
    left_count = λ x. omega (arith, chain.left_count x);
    right_count = λ x. omega (arith, chain.right_count x);
  }

  pub allocated-Chain : (v : ℕ) → Chain (n + 1) (allocated v)
  allocated-Chain v = record {
    range = chain.range;
    room = omega (arith, chain.room);
    none_left = chain.none_left;
    ends = chain.ends;
    busy = chain.busy;
    known = chain.known;
    distinct = chain.distinct;
    rights = chain.rights;
    lefts = chain.lefts;
    null = chain.null;
    some_next = omega arith;
    fresh = λ x p. chain.fresh x (omega arith);
    left_count = λ x. omega (arith, chain.left_count x);
    right_count = λ x. omega (arith, chain.right_count x);
  }

  pub allocated-Mine : (v : ℕ) → Mine (allocated v) v m.next
  allocated-Mine v = record {
    not_null = omega (arith, chain.some_next);
    allocated = omega arith;
    unpublished = chain.fresh m.next (omega arith);
    holds = rw (==_self m.next) refl;
  }

  pub allocated-Keeps : (v x : ℕ) → Keeps m (allocated v) x
  allocated-Keeps v x = record {
    known = λ y e. e;
    seen = λ a s. record {
      left_known = s.left_known;
      right_known = s.right_known;
      left_old = s.left_old;
      right_old = s.right_old;
    };
    mine = λ w o. record {
      not_null = o.not_null;
      allocated = omega (arith, o.allocated);
      unpublished = o.unpublished;
      holds = rw (==-ne m.next x (λ e. absurd (omega (arith, o.allocated)))) o.holds;
    };
    own_link = own;
    prev = prev';
    tracks = tracks';
    race = race';
    set = set';
    data_kept = λ y p. rw (==-ne m.next y (λ e. absurd (omega arith))) refl;
    next_kept = omega arith;
  }
    where
      m' : Memory
      m' = allocated v

      own :
          (w : ℕ) (side : Side)
          → Mine m w x
          → (inward side (allocated v) x).ptr ≡ (inward side m x).ptr
      own w side_left o = refl
      own w side_right o = refl

      prev' :
          (side : Side) (a : Anchor) (p : ℕ)
          → Seen m a
          → Prev m side a p
          → Prev (allocated v) side a p
      prev' side_left a p s f = f
      prev' side_right a p s f = f

      tracks' :
          (side : Side) (p : ℕ) (l : Link)
          → Known m p
          → Tracks m side p l
          → Tracks (allocated v) side p l
      tracks' side_left p l k t = t
      tracks' side_right p l k t = t

      race' :
          (side : Side) (a : Anchor) (p : ℕ) (l : Link)
          → Seen m a
          → a.status ≡ status_of side
          → Prev m side a p
          → Known m p
          → Tracks m side p l
          → l.ptr ≢ end_of side a
          → Race m side a p l
          → Race (allocated v) side a p l
      race' side_left a p l s e f k t ne r = r
      race' side_right a p l s e f k t ne r = r

      set' :
          (side : Side) (a : Anchor)
          → Seen m a
          → a.status ≡ status_of side
          → Set m side a
          → Set (allocated v) side a
      set' side_left a s e q = q
      set' side_right a s e q = q

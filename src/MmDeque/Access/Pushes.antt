-- ===== src/MmDeque/Access/Pushes.antt =====
-- deque/MMDeque.hpp: the accesses of `right_push` and `left_push`.
use unbounded_obstruction_fr.Base.{
  ℕ, ◌+◌, ◌-◌, ◌^◌, ◌≤◌, ◌<◌, ◌≡◌, ◌≢◌, inl, inr, refl, sym, ◌∙◌, ap, arith, ◌==◌, ==_iff, ==-ne,
  ==_self, Bool-cases, le_or_lt,
}
use unbounded_obstruction_fr.OfDeque.Slot.{Side, side_left, side_right}
use unbounded_obstruction_fr.MmDeque.{
  Status, stable, rpush, lpush, Link, Anchor, Memory, push_again, finish, Choice, Pc, idle, pushing,
  push_seen, push_linked, stab_start, silent, pushed, end_of, inward, set_inward, cas_anchor,
  first_anchor, pushed_anchor, join, is_stable, push_access,
}
use unbounded_obstruction_fr.MmDeque.Inv.Defs.{Chain, Seen, Mine, Local, private_node}
use unbounded_obstruction_fr.MmDeque.Inv.Keeps.{Keeps}
use unbounded_obstruction_fr.MmDeque.Inv.Allocs.{
  allocated, allocated-Chain, allocated-Mine, allocated-Keeps,
}
use unbounded_obstruction_fr.MmDeque.Inv.Inits.{init-Chain, init-Keeps}
use unbounded_obstruction_fr.MmDeque.Inv.Joins.{
  Pushed, join_left-Chain, join_left-Keeps, join_right-Chain, join_right-Keeps,
}
use unbounded_obstruction_fr.MmDeque.Inv.Loads.{same_status_lem, anchor-Seen, end_null, end_some}
use unbounded_obstruction_fr.MmDeque.Inv.View.{
  items_ext, view, Does, join_left-view, join_right-view,
}
use unbounded_obstruction_fr.MmDeque.Access.Sound.{Sound, loaded, stabilize-Sound}
use unbounded_obstruction_fr.MmDeque.Access.Stabs.{cas_here}

module _ (n : ℕ) (m : Memory) (chain : Chain n m) where
  -- A node of the deque was allocated.
  pub node_allocated : (i : ℕ) → m.lo ≤ i → i < m.hi → m.at i < m.next
  node_allocated i le lt = elim (le_or_lt m.next (m.at i)) [
    | inl ge ↦ absurd (ground (arith, chain.known i le lt, chain.fresh (m.at i) ge))
    | inr less ↦ less
  ]

  allocated-view : (v : ℕ) → view (allocated n m chain v) ≡ view m
  allocated-view v = items_ext _ _ m.lo (m.hi - m.lo) (λ i p q.
      rw (==-ne m.next (m.at i) (λ e. absurd (omega (arith, node_allocated i p (omega arith)))))
        refl)

  -- The call of a push.
  pub called_push-Sound :
      (side : Side) (v : ℕ) → Sound n m idle (allocated n m chain v, pushing side v m.next, silent)
  called_push-Sound side v = record {
    chain = allocated-Chain n m chain v;
    local = allocated-Mine n m chain v;
    mine_next = inr (inr (omega arith));
    others = λ y _. allocated-Keeps n m chain v y;
    does = allocated-view v;
  }

  module _ (few : n + 1 < 2 ^ 32) (x v : ℕ) (me : Mine m v x) where
    -- The anchor `a` has the new node at one end, and the other end is the old one.
    abbrev Joins : Side → Anchor → Type 0
    Joins side_left a =
        Pushed m x a.left a.right m.anchor.right lpush m.anchor.status a.status
        × (m.lo < m.hi → (m.right x).ptr ≡ m.anchor.left)
    Joins side_right a =
        Pushed m x a.right a.left m.anchor.left rpush m.anchor.status a.status
        × (m.lo < m.hi → (m.left x).ptr ≡ m.anchor.right)

    first-Joins :
        (side : Side) (st : Status) → m.lo ≡ m.hi → st ≡ stable → Joins side (first_anchor x st)
    first-Joins side_left st e h = (
      record {
        near_new = refl;
        far_first = λ _. refl;
        far_old = λ lt. absurd (omega arith);
        after_first = λ _. h;
        after_more = λ lt. absurd (omega arith);
        before_stable = (chain.none_left e).2;
      },
      λ lt. absurd (omega arith),
    )
    first-Joins side_right st e h = (
      record {
        near_new = refl;
        far_first = λ _. refl;
        far_old = λ lt. absurd (omega arith);
        after_first = λ _. h;
        after_more = λ lt. absurd (omega arith);
        before_stable = (chain.none_left e).2;
      },
      λ lt. absurd (omega arith),
    )

    more-Joins :
        (side : Side) (a : Anchor)
        → m.anchor ≡ a
        → m.lo < m.hi
        → a.status ≡ stable
        → (inward side m x).ptr ≡ end_of side a
        → Joins side (pushed_anchor side x a)
    more-Joins side_left a here lt st e = (
      record {
        near_new = refl;
        far_first = λ z. absurd (omega arith);
        far_old = λ _. sym (ap (λ b. b.right) here);
        after_first = λ z. absurd (omega arith);
        after_more = λ _. refl;
        before_stable = ap (λ b. b.status) here ∙ st;
      },
      λ _. e ∙ sym (ap (λ b. b.left) here),
    )
    more-Joins side_right a here lt st e = (
      record {
        near_new = refl;
        far_first = λ z. absurd (omega arith);
        far_old = λ _. sym (ap (λ b. b.left) here);
        after_first = λ z. absurd (omega arith);
        after_more = λ _. refl;
        before_stable = ap (λ b. b.status) here ∙ st;
      },
      λ _. e ∙ sym (ap (λ b. b.right) here),
    )

    joined-Chain : (side : Side) (a : Anchor) → Joins side a → Chain (n + 1) (join side x a m)
    joined-Chain side_left a (p, l) = join_left-Chain n m chain few x v me a p l
    joined-Chain side_right a (p, l) = join_right-Chain n m chain few x v me a p l

    joined-Keeps :
        (side : Side) (a : Anchor)
        → Joins side a
        → (y : ℕ) → (x ≡ y → x ≡ 0)
        → Keeps m (join side x a m) y
    joined-Keeps side_left a (p, l) y ne =
        join_left-Keeps n m chain few x v me a p l y (λ e. me.not_null (ne e))
    joined-Keeps side_right a (p, l) y ne =
        join_right-Keeps n m chain few x v me a p l y (λ e. me.not_null (ne e))

    joined-Does :
        (side : Side) (a : Anchor)
        → Joins side a
        → Does (pushed side v) (view m) (view (join side x a m))
    joined-Does side_left a j =
        rw (← me.holds) (join_left-view m x a (omega (arith, chain.room)) chain.range)
    joined-Does side_right a j = rw (← me.holds) (join_right-view m x a chain.range)

    joined-Sound :
        (p : Pc) (side : Side) (a : Anchor) (q : Pc)
        → private_node p ≡ x
        → private_node q ≡ 0
        → Joins side a
        → Local (join side x a m) q
        → Sound n m p (join side x a m, q, pushed side v)
    joined-Sound p side a q e e' j l = record {
      chain = joined-Chain side a j;
      local = l;
      mine_next = inl e';
      others = λ y ne. joined-Keeps side a j y (λ z. sym e ∙ ne (e ∙ z));
      does = joined-Does side a j;
    }

    stored-Mine : (side : Side) (l : Link) → Mine (set_inward side x l m) v x
    stored-Mine side_left l = record {
      not_null = me.not_null;
      allocated = me.allocated;
      unpublished = me.unpublished;
      holds = me.holds;
    }
    stored-Mine side_right l = record {
      not_null = me.not_null;
      allocated = me.allocated;
      unpublished = me.unpublished;
      holds = me.holds;
    }

    stored_ptr : (side : Side) (l : Link) → (inward side (set_inward side x l m) x).ptr ≡ l.ptr
    stored_ptr side_left l = rw (==_self x) refl
    stored_ptr side_right l = rw (==_self x) refl

    stored-view : (side : Side) (l : Link) → view (set_inward side x l m) ≡ view m
    stored-view side_left l = refl
    stored-view side_right l = refl

    module _ (c : Choice) (side : Side) (a : Anchor) (s : Seen m a) where
      pub push_seen-Sound :
          Sound n m (push_seen side v x a) (push_access c m (push_seen side v x a))
      push_seen-Sound = elim (Bool-cases (end_of side a == 0)) [
        | inl none ↦ elim (Bool-cases (cas_anchor c.spurious a m)) [
          | inl h ↦
              let here = cas_here c.spurious a m h in
              let empty : m.lo ≡ m.hi =
                end_null n m chain side (ap (end_of side) here ∙ (==_iff _ _).0 none) in
              let st : a.status ≡ stable =
                sym (ap (λ b. b.status) here) ∙ (chain.none_left empty).2 in
              rw (none, h)
                (joined-Sound _ side (first_anchor x a.status) idle refl refl
                  (first-Joins side a.status empty st) tt)
          | inr h ↦ rw (none, h) (loaded n m chain _ (pushing side v x) me (inr refl))
        ]
        | inr some_node ↦ elim (Bool-cases (is_stable a)) [
          | inl st ↦
              let l : Link = record { ptr = end_of side a; sn = 0 } in
              let keeps = init-Keeps n m chain x v l me refl side in
              rw (some_node, st)
                (record {
                  chain = init-Chain n m chain x v l me refl side;
                  local = (
                    (keeps 0 me.not_null).seen a s,
                    stored-Mine side l,
                    stored_ptr side l,
                    same_status_lem a.status stable st,
                    λ z. ground (arith, (==_iff (end_of side a) 0).1 z),
                  );
                  mine_next = inr (inl refl);
                  others = λ y ne. keeps y (λ e. me.not_null (ne e));
                  does = stored-view side l;
                })
          | inr st ↦
              rw (some_node, st) (stabilize-Sound n m chain _ a (push_again side v x) refl s me)
        ]
      ]

      pub push_linked-Sound :
          (inward side m x).ptr ≡ end_of side a
          → a.status ≡ stable
          → end_of side a ≢ 0
          → Sound n m (push_linked side v x a) (push_access c m (push_linked side v x a))
      push_linked-Sound e st ne = elim (Bool-cases (cas_anchor c.spurious a m)) [
        | inl h ↦
            let here = cas_here c.spurious a m h in
            let lt : m.lo < m.hi =
              end_some n m chain side (λ z. ne (sym (ap (end_of side) here) ∙ z)) in
            let j = more-Joins side a here lt st e in
            rw h (
              joined-Sound _ side (pushed_anchor side x a)
                (stab_start side (pushed_anchor side x a) finish) refl refl j
                (joined-Seen side a (joined-Chain side (pushed_anchor side x a) j)))
        | inr h ↦ rw h (loaded n m chain _ (pushing side v x) me (inr refl))
      ]
        where
          joined-Seen :
              (t : Side) (b : Anchor)
              → Chain (n + 1) (join t x (pushed_anchor t x b) m)
              → Local (join t x (pushed_anchor t x b) m) (stab_start t (pushed_anchor t x b) finish)
          joined-Seen side_left b ch = (anchor-Seen (n + 1) _ ch, refl, tt)
          joined-Seen side_right b ch = (anchor-Seen (n + 1) _ ch, refl, tt)

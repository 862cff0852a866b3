-- ===== src/MmDeque/Inv/Inits.antt =====
-- deque/MMDeque.hpp: the link that a push stores in its own node.
use unbounded_obstruction_fr.Base.{
  ℕ, ◌+◌, ◌≤◌, ◌<◌, ◌≡◌, ◌≢◌, inl, inr, refl, false, arith, ◌==◌, ==-ne, Bool-cases, update,
}
use unbounded_obstruction_fr.OfDeque.Slot.{Side, side_left, side_right}
use unbounded_obstruction_fr.MmDeque.{Link, Memory, set_inward}
use unbounded_obstruction_fr.MmDeque.Inv.Defs.{Chain, Known, Mine}
use unbounded_obstruction_fr.MmDeque.Inv.Keeps.{Keeps}
use unbounded_obstruction_fr.MmDeque.Inv.Links.{Later, Relinks, relinked-Chain, relinked-Keeps}

-- The link inwards of a node that is not yet pushed.
module _ (n : ℕ) (m : Memory) (chain : Chain n m) (x v : ℕ) (l : Link) (me : Mine m v x)
    (zero_sn : l.sn ≡ 0) where
  not_at : (i : ℕ) → m.lo ≤ i → i < m.hi → (x == m.at i) ≡ false
  not_at i p q = ==-ne x (m.at i) (λ e. ground (arith, chain.known i, me.unpublished))

  other_node : (y : ℕ) → Known m y → (x == y) ≡ false
  other_node y k = ==-ne x y (λ e. ground (arith, k, me.unpublished, me.not_null))

  unchanged : (old : Link) → Later old old
  unchanged old = (omega arith, λ e. refl)

  bound : (f : ℕ → Link) → ((y : ℕ) → (f y).sn ≤ n) → (y : ℕ) → (update f x l y).sn ≤ n + 1
  bound f h y = elim (Bool-cases (x == y)) [
    | inl e ↦ rw (e, zero_sn) (omega arith)
    | inr e ↦ rw e (omega (arith, h y))
  ]

  init_left-Relinks : Relinks n m chain (update m.left x l) m.right
  init_left-Relinks = record {
    lefts_kept = λ i p q e. rw (not_at i (omega arith) q) e;
    rights_kept = λ i p q e. e;
    left_later = λ y k. rw (other_node y k) (unchanged (m.left y));
    right_later = λ y k. unchanged (m.right y);
    left_bound = bound m.left chain.left_count;
    right_bound = λ y. omega (arith, chain.right_count y);
  }

  init_right-Relinks : Relinks n m chain m.left (update m.right x l)
  init_right-Relinks = record {
    lefts_kept = λ i p q e. e;
    rights_kept = λ i p q e. rw (not_at i p (omega arith)) e;
    left_later = λ y k. unchanged (m.left y);
    right_later = λ y k. rw (other_node y k) (unchanged (m.right y));
    left_bound = λ y. omega (arith, chain.left_count y);
    right_bound = bound m.right chain.right_count;
  }

  pub init-Chain : (side : Side) → Chain (n + 1) (set_inward side x l m)
  init-Chain side_left = relinked-Chain n m chain m.left (update m.right x l) init_right-Relinks
  init-Chain side_right = relinked-Chain n m chain (update m.left x l) m.right init_left-Relinks

  pub init-Keeps : (side : Side) (y : ℕ) → x ≢ y → Keeps m (set_inward side x l m) y
  init-Keeps side_left y ne =
      relinked-Keeps n m chain m.left (update m.right x l) init_right-Relinks y
        (λ w o. (refl, rw (==-ne x y ne) refl))
  init-Keeps side_right y ne =
      relinked-Keeps n m chain (update m.left x l) m.right init_left-Relinks y
        (λ w o. (rw (==-ne x y ne) refl, refl))

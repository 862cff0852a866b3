-- ===== src/MmDeque/Access/Sound.antt =====
-- deque/MMDeque.hpp: what is claimed of an access.
use unbounded_obstruction_fr.Base.{ℕ, ◌+◌, ◌≤◌, ◌≡◌, ◌⊎◌, inl, inr, refl, sym, ◌∙◌}
use unbounded_obstruction_fr.OfDeque.Slot.{side_left, side_right}
use unbounded_obstruction_fr.MmDeque.{
  stable, rpush, lpush, Anchor, Memory, Resume, finish, push_again, pop_again, Pc, stab_start,
  Event, silent, resumed, stabilize, stabilize_by,
}
use unbounded_obstruction_fr.MmDeque.Inv.Defs.{Chain, Seen, Owns, Local, owned, private_node, Pair}
use unbounded_obstruction_fr.MmDeque.Inv.Keeps.{Keeps, Keeps-Local}
use unbounded_obstruction_fr.MmDeque.Inv.Allocs.{same-Chain}
use unbounded_obstruction_fr.MmDeque.Inv.Loads.{load-Keeps}
use unbounded_obstruction_fr.MmDeque.Inv.View.{view, Does}

-- The access of a thread at `p`, from `m`, that leads to the memory, the place and the event `r`. Another
-- thread has `y` for its own node.
pub record Sound (n : ℕ) (m : Memory) (p : Pc) (r : Memory × Pc × Event) : Type 0 where
  pub chain : Chain (n + 1) r.0
  pub local : Local r.0 r.1
  pub mine_next :
      (private_node r.1 ≡ 0) ⊎ (private_node r.1 ≡ private_node p) ⊎ (m.next ≤ private_node r.1)
  pub others : (y : ℕ) → (private_node p ≡ y → private_node p ≡ 0) → Keeps m r.0 y
  pub does : Does r.2 (view m) (view r.0)

resumed-private_node : (k : Resume) → private_node (resumed k) ≡ owned k
resumed-private_node finish = refl
resumed-private_node (push_again side v n) = refl
resumed-private_node (pop_again side) = refl

pub resumed-Local : (m : Memory) (k : Resume) → Owns m k → Local m (resumed k)
resumed-Local m finish o = o
resumed-Local m (push_again side v n) o = o
resumed-Local m (pop_again side) o = o

pub Keeps-Owns : {m m' : Memory} (k : Resume) → Keeps m m' (owned k) → Owns m k → Owns m' k
Keeps-Owns finish keeps o = o
Keeps-Owns (push_again side v n) keeps o = keeps.mine v o
Keeps-Owns (pop_again side) keeps o = o

module _ (n : ℕ) (m : Memory) (chain : Chain n m) (p : Pc) where
  -- An access that only loads.
  pub loaded :
      (q : Pc)
      → Local m q
      → (private_node q ≡ 0) ⊎ (private_node q ≡ private_node p)
      → Sound n m p (m, q, silent)
  loaded q l (inl e) = record {
    chain = same-Chain n m chain;
    local = l;
    mine_next = inl e;
    others = λ y ne. load-Keeps m y;
    does = refl;
  }
  loaded q l (inr e) = record {
    chain = same-Chain n m chain;
    local = l;
    mine_next = inr (inl e);
    others = λ y ne. load-Keeps m y;
    does = refl;
  }

  -- The return from `stabilize`, which may have changed memory.
  pub returned-Sound :
      (m' : Memory) (k : Resume)
      → private_node p ≡ owned k
      → Chain (n + 1) m'
      → Owns m k
      → ((y : ℕ) → Keeps m m' y)
      → view m' ≡ view m
      → Sound n m p (m', resumed k, silent)
  returned-Sound m' k e c o keeps same = record {
    chain = c;
    local = resumed-Local m' k (Keeps-Owns k (keeps (owned k)) o);
    mine_next = inr (inl (resumed-private_node k ∙ sym e));
    others = λ y ne. keeps y;
    does = same;
  }

  pub loaded_again :
      (k : Resume) → private_node p ≡ owned k → Owns m k → Sound n m p (m, resumed k, silent)
  loaded_again k e o =
      loaded (resumed k) (resumed-Local m k o) (inr (resumed-private_node k ∙ sym e))

  pub stabilize-Sound :
      (a : Anchor) (k : Resume)
      → private_node p ≡ owned k
      → Seen m a
      → Owns m k
      → Sound n m p (m, stabilize a k, silent)
  stabilize-Sound a k e s o =
      elim a.status as (λ st. a.status ≡ st → Sound n m p (m, stabilize_by st a k, silent)) [
        | stable ↦ λ h. loaded_again k e o
        | rpush ↦ λ h. loaded (stab_start side_right a k) (s, h, o) (inr (sym e))
        | lpush ↦ λ h. loaded (stab_start side_left a k) (s, h, o) (inr (sym e))
      ]
        refl

-- A thread that is not the mover keeps what it knows, and its node is not the mover's.
pub Sound-Local :
    (n : ℕ) (m : Memory) (p : Pc) (r : Memory × Pc × Event)
    → Sound n m p r
    → (q : Pc) → Local m q
    → Pair p q
    → Local r.0 q
Sound-Local n m p r s q l pair = Keeps-Local q (s.others (private_node q) pair) l

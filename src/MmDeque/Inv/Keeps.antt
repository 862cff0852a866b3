-- ===== src/MmDeque/Inv/Keeps.antt =====
-- deque/MMDeque.hpp: what a thread knows survives the accesses that keep each of its parts.
use unbounded_obstruction_fr.Base.{ℕ, ◌≤◌, ◌<◌, ◌≡◌, ◌≢◌, ◌⊎◌, inl, inr, ◌∙◌, true, arith}
use unbounded_obstruction_fr.OfDeque.Slot.{Side}
use unbounded_obstruction_fr.MmDeque.{
  Link, Anchor, Memory, Resume, finish, push_again, pop_again, Pc, idle, pushing, push_seen,
  push_linked, popping, pop_seen, pop_checked, pop_ready, reading, stab_start, stab_prev,
  stab_check, stab_next, stab_recheck, stab_link, stab_settle, end_of, status_of, inward, outward,
}
use unbounded_obstruction_fr.MmDeque.Inv.Defs.{
  Known, Seen, Prev, Set, Tracks, Mine, Owns, Stab, Local, owned, private_node,
}

-- The race for the neighbor's link: it is still open, or others have set the link.
abbrev pub Race : Memory → Side → Anchor → (prev : ℕ) → Link → Type 0
Race m side a prev l = (m.anchor ≡ a) ⊎ (l.sn < (outward side m prev).sn)

-- An access from `m` to `m'` by a thread other than the one that pushes node `n`.
pub record Keeps (m m' : Memory) (n : ℕ) : Type 0 where
  pub known : (x : ℕ) → m.published x ≡ true → m'.published x ≡ true
  pub seen : (a : Anchor) → Seen m a → Seen m' a
  pub mine : (v : ℕ) → Mine m v n → Mine m' v n
  pub own_link : (v : ℕ) (side : Side) → Mine m v n → (inward side m' n).ptr ≡ (inward side m n).ptr
  pub prev : (side : Side) (a : Anchor) (p : ℕ) → Seen m a → Prev m side a p → Prev m' side a p
  pub tracks : (side : Side) (p : ℕ) (l : Link) → Known m p → Tracks m side p l → Tracks m' side p l
  pub race :
      (side : Side) (a : Anchor) (p : ℕ) (l : Link)
      → Seen m a
      → a.status ≡ status_of side
      → Prev m side a p
      → Known m p
      → Tracks m side p l
      → l.ptr ≢ end_of side a
      → Race m side a p l
      → Race m' side a p l
  pub set :
      (side : Side) (a : Anchor)
      → Seen m a
      → a.status ≡ status_of side
      → Set m side a
      → Set m' side a
  pub data_kept : (x : ℕ) → x < m.next → m'.data_of x ≡ m.data_of x
  pub next_kept : m.next ≤ m'.next

module _ {m m' : Memory} where
  Keeps-Known : {n : ℕ} → Keeps m m' n → (x : ℕ) → Known m x → Known m' x
  Keeps-Known k x (inl e) = inl e
  Keeps-Known k x (inr e) = inr (k.known x e)

  Keeps-Owns : (r : Resume) → Keeps m m' (owned r) → Owns m r → Owns m' r
  Keeps-Owns finish k o = o
  Keeps-Owns (push_again t v n) k o = k.mine v o
  Keeps-Owns (pop_again t) k o = o

  Keeps-Stab :
      (side : Side) (a : Anchor) (r : Resume)
      → Keeps m m' (owned r)
      → Stab m side a r
      → Stab m' side a r
  Keeps-Stab side a r k (s, e, o) = (k.seen a s, e, Keeps-Owns r k o)

  pub Keeps-Local : (q : Pc) → Keeps m m' (private_node q) → Local m q → Local m' q
  Keeps-Local idle k l = l
  Keeps-Local (pushing side v n) k l = k.mine v l
  Keeps-Local (push_seen side v n a) k (s, o) = (k.seen a s, k.mine v o)
  Keeps-Local (push_linked side v n a) k (s, o, e, st, ne) =
      (k.seen a s, k.mine v o, k.own_link v side o ∙ e, st, ne)
  Keeps-Local (popping side) k l = l
  Keeps-Local (pop_seen side a) k (s, ne) = (k.seen a s, ne)
  Keeps-Local (pop_checked side a) k (s, ne, st) = (k.seen a s, ne, st)
  Keeps-Local (pop_ready side a p) k (s, ne, st, f) = (k.seen a s, ne, st, k.prev side a p s f)
  Keeps-Local (reading x v) k (e, b) = (k.data_kept x b ∙ e, omega (arith, k.next_kept))
  Keeps-Local (stab_start side a r) k st = Keeps-Stab side a r k st
  Keeps-Local (stab_prev side a r) k st = Keeps-Stab side a r k st
  Keeps-Local (stab_check side a p r) k (st, f) = (Keeps-Stab side a r k st, k.prev side a p st.0 f)
  Keeps-Local (stab_next side a p r) k (st, f, o) =
      (Keeps-Stab side a r k st, k.prev side a p st.0 f, Keeps-Known k p o)
  Keeps-Local (stab_recheck side a p l r) k (st, f, o, t, ne) = (
    Keeps-Stab side a r k st,
    k.prev side a p st.0 f,
    Keeps-Known k p o,
    k.tracks side p l o t,
    ne,
  )
  Keeps-Local (stab_link side a p l r) k (st, f, o, t, ne, race) = (
    Keeps-Stab side a r k st,
    k.prev side a p st.0 f,
    Keeps-Known k p o,
    k.tracks side p l o t,
    ne,
    k.race side a p l st.0 st.1 f o t ne race,
  )
  Keeps-Local (stab_settle side a r) k (st, set) =
      (Keeps-Stab side a r k st, k.set side a st.0 st.1 set)

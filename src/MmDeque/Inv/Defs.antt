-- ===== src/MmDeque/Inv/Defs.antt =====
-- deque/MMDeque.hpp: the linked nodes, and what a thread knows of what it has loaded.
use unbounded_obstruction_fr.Base.{ℕ, ◌+◌, ◌-◌, ◌^◌, ◌≤◌, ◌<◌, ◌≡◌, ◌≢◌, ◌⊎◌, true, false}
use unbounded_obstruction_fr.OfDeque.Slot.{Side, side_left, side_right}
use unbounded_obstruction_fr.MmDeque.{
  stable, rpush, lpush, Link, Anchor, Memory, Resume, finish, push_again, pop_again, Pc, idle,
  pushing, push_seen, push_linked, popping, pop_seen, pop_checked, pop_ready, reading, stab_start,
  stab_prev, stab_check, stab_next, stab_recheck, stab_link, stab_settle, end_of, status_of, inward,
  outward,
}

-- The nodes at the positions, and the anchor. Only the link to a node that was just pushed may be missing.
-- `n` accesses have been made.
pub record Chain (n : ℕ) (m : Memory) : Type 0 where
  pub range : m.lo ≤ m.hi
  pub room : 2 ^ 32 ≤ m.lo + n
  pub none_left :
      m.lo ≡ m.hi → (m.anchor.left ≡ 0) × (m.anchor.right ≡ 0) × (m.anchor.status ≡ stable)
  pub ends : m.lo < m.hi → (m.anchor.left ≡ m.at m.lo) × (m.anchor.right ≡ m.at (m.hi - 1))
  pub busy : m.anchor.status ≢ stable → m.lo + 1 < m.hi
  pub known : (i : ℕ) → m.lo ≤ i → i < m.hi → m.published (m.at i) ≡ true
  pub distinct : (i j : ℕ) → m.lo ≤ i → i < j → j < m.hi → m.at i ≢ m.at j
  pub rights :
      (i : ℕ)
      → m.lo ≤ i
      → i + 1 < m.hi
      → (m.anchor.status ≡ rpush → i + 2 < m.hi)
      → (m.right (m.at i)).ptr ≡ m.at (i + 1)
  pub lefts :
      (i : ℕ)
      → m.lo < i
      → i < m.hi
      → (m.anchor.status ≡ lpush → m.lo + 1 < i)
      → (m.left (m.at i)).ptr ≡ m.at (i - 1)
  pub null : m.published 0 ≡ false
  pub some_next : 0 < m.next
  pub fresh : (x : ℕ) → m.next ≤ x → m.published x ≡ false
  pub left_count : (x : ℕ) → (m.left x).sn ≤ n
  pub right_count : (x : ℕ) → (m.right x).sn ≤ n

-- A pointer that was loaded from the anchor.
abbrev pub Known : Memory → ℕ → Type 0
Known m x = (x ≡ 0) ⊎ (m.published x ≡ true)

-- What is known of an anchor that was loaded: a node that is at its end and was not just pushed when it
-- was loaded is not just pushed later.
pub record Seen (m : Memory) (a : Anchor) : Type 0 where
  pub left_known : Known m a.left
  pub right_known : Known m a.right
  pub left_old : a.status ≢ lpush → m.anchor.status ≡ lpush → m.anchor.left ≢ a.left
  pub right_old : a.status ≢ rpush → m.anchor.status ≡ rpush → m.anchor.right ≢ a.right

-- As long as both ends of the anchor are in the deque, `prev` is the neighbor of the one on that side.
abbrev pub Prev : Memory → Side → Anchor → (prev : ℕ) → Type 0
Prev m side_right a prev =
    (i j : ℕ)
    → m.lo ≤ i
    → i < j
    → j < m.hi
    → m.at i ≡ a.left
    → m.at j ≡ a.right
    → m.at (j - 1) ≡ prev
Prev m side_left a prev =
    (i j : ℕ)
    → m.lo ≤ i
    → i < j
    → j < m.hi
    → m.at i ≡ a.left
    → m.at j ≡ a.right
    → m.at (i + 1) ≡ prev

-- The neighbor's link to the end of the deque has been set.
abbrev pub Set : Memory → Side → Anchor → Type 0
Set m side_right a = m.anchor ≡ a → (m.right (m.at (m.hi - 2))).ptr ≡ a.right
Set m side_left a = m.anchor ≡ a → (m.left (m.at (m.lo + 1))).ptr ≡ a.left

-- A link that was loaded from `prev`, whose counter goes up with every change.
abbrev pub Tracks : Memory → Side → (prev : ℕ) → Link → Type 0
Tracks m side prev l =
    (l.sn ≤ (outward side m prev).sn) × (l.sn ≡ (outward side m prev).sn → outward side m prev ≡ l)

-- The node of a push that is not yet done.
pub record Mine (m : Memory) (v n : ℕ) : Type 0 where
  pub not_null : n ≢ 0
  pub allocated : n < m.next
  pub unpublished : m.published n ≡ false
  pub holds : m.data_of n ≡ v

abbrev pub Owns : Memory → Resume → Type 0
Owns m finish = Unit
Owns m (push_again side v n) = Mine m v n
Owns m (pop_again side) = Unit

abbrev pub Stab : Memory → Side → Anchor → Resume → Type 0
Stab m side a k = Seen m a × (a.status ≡ status_of side) × Owns m k

abbrev pub Local : Memory → Pc → Type 0
Local m idle = Unit
Local m (pushing side v n) = Mine m v n
Local m (push_seen side v n a) = Seen m a × Mine m v n
Local m (push_linked side v n a) =
    Seen m a
    × Mine m v n
    × ((inward side m n).ptr ≡ end_of side a)
    × (a.status ≡ stable)
    × (end_of side a ≢ 0)
Local m (popping side) = Unit
Local m (pop_seen side a) = Seen m a × (end_of side a ≢ 0)
Local m (pop_checked side a) = Seen m a × (a.left ≢ a.right) × (a.status ≡ stable)
Local m (pop_ready side a prev) =
    Seen m a × (a.left ≢ a.right) × (a.status ≡ stable) × Prev m side a prev
Local m (reading x v) = (m.data_of x ≡ v) × (x < m.next)
Local m (stab_start side a k) = Stab m side a k
Local m (stab_prev side a k) = Stab m side a k
Local m (stab_check side a prev k) = Stab m side a k × Prev m side a prev
Local m (stab_next side a prev k) = Stab m side a k × Prev m side a prev × Known m prev
Local m (stab_recheck side a prev l k) =
    Stab m side a k
    × Prev m side a prev
    × Known m prev
    × Tracks m side prev l
    × (l.ptr ≢ end_of side a)
Local m (stab_link side a prev l k) =
    Stab m side a k
    × Prev m side a prev
    × Known m prev
    × Tracks m side prev l
    × (l.ptr ≢ end_of side a)
    × ((m.anchor ≡ a) ⊎ (l.sn < (outward side m prev).sn))
Local m (stab_settle side a k) = Stab m side a k × Set m side a

-- The node that a thread has not yet pushed.
abbrev pub owned : Resume → ℕ
owned finish = 0
owned (push_again side v n) = n
owned (pop_again side) = 0

abbrev pub private_node : Pc → ℕ
private_node (pushing side v n) = n
private_node (push_seen side v n a) = n
private_node (push_linked side v n a) = n
private_node (stab_start side a k) = owned k
private_node (stab_prev side a k) = owned k
private_node (stab_check side a prev k) = owned k
private_node (stab_next side a prev k) = owned k
private_node (stab_recheck side a prev l k) = owned k
private_node (stab_link side a prev l k) = owned k
private_node (stab_settle side a k) = owned k
private_node _ = 0

-- Two threads push different nodes.
abbrev pub Pair : Pc → Pc → Type 0
Pair p q = (private_node p ≡ private_node q) → private_node p ≡ 0

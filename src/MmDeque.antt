-- ===== src/MmDeque.antt =====
-- deque/MMDeque.hpp: the deque of Maged Michael, for any number of threads, one shared access at a time.
pub mod Inv
pub mod Access
pub mod Refine
pub mod AnchorWord
pub mod Turns
pub mod Alone
mod Tests
use unbounded_obstruction_fr.Base.{
  ℕ, zero, suc, ◌+◌, ◌-◌, ◌%◌, ◌^◌, Bool, true, false, not, ◌&&◌, List, [], ◌∷◌, ◌==◌,
  if◌then◌else◌, update,
}
use unbounded_obstruction_fr.OfDeque.Slot.{Side, side_left, side_right}

-- `StatusType`
pub data Status : Type 0 where
  stable rpush lpush : Status

-- `cptr<node_t>`: a pointer and its serial number of 32 bits.
pub record Link : Type 0 where
  pub ptr : ℕ
  pub sn : ℕ

-- `anchor_t`, whose word packs the left pointer and the status.
pub record Anchor : Type 0 where
  pub left : ℕ
  pub right : ℕ
  pub status : Status

-- The nodes by address, where 0 is `NULL`, and the anchor. No address is allocated twice. The last four
-- fields are not the program's: the nodes of the deque stand at the positions from `lo` up to before `hi`,
-- and `published` are the nodes that were ever pushed.
pub record Memory : Type 0 where
  pub anchor : Anchor
  pub left : ℕ → Link
  pub right : ℕ → Link
  pub data_of : ℕ → ℕ
  pub next : ℕ
  pub at : ℕ → ℕ
  pub lo : ℕ
  pub hi : ℕ
  pub published : ℕ → Bool

pub data Op : Type 0 where
  push : ℕ → Op
  pop : Op

-- What a thread does when `stabilize` has returned.
pub data Resume : Type 0 where
  finish : Resume
  push_again : Side → (v n : ℕ) → Resume
  pop_again : Side → Resume

-- Where a thread stands, with the local variables that are live there.
pub data Pc : Type 0 where
  idle : Pc
  pushing : Side → (v n : ℕ) → Pc  -- head of the `for` of a push of node `n`
  push_seen : Side → (v n : ℕ) → Anchor → Pc
  push_linked : Side → (v n : ℕ) → Anchor → Pc  -- before `casAnchor(a, a2)`
  popping : Side → Pc  -- head of the `for` of a pop
  pop_seen : Side → Anchor → Pc
  pop_checked : Side → Anchor → Pc  -- before the load of `prev`
  pop_ready : Side → Anchor → (prev : ℕ) → Pc  -- before `casAnchor`
  reading : (x v : ℕ) → Pc  -- before the load of the data of `x`; `v` is not the program's
  stab_start : Side → Anchor → Resume → Pc  -- `stabilizeRight` or `stabilizeLeft`
  stab_prev : Side → Anchor → Resume → Pc
  stab_check : Side → Anchor → (prev : ℕ) → Resume → Pc
  stab_next : Side → Anchor → (prev : ℕ) → Resume → Pc
  stab_recheck : Side → Anchor → (prev : ℕ) → Link → Resume → Pc
  stab_link : Side → Anchor → (prev : ℕ) → Link → Resume → Pc
  stab_settle : Side → Anchor → Resume → Pc

-- What is not decided by the code: the next call, and whether a weak exchange fails for no reason.
pub record Choice : Type 0 where
  pub side : Side
  pub op : Op
  pub spurious : Bool

-- What an access does to the abstract deque. `returned` has what a pop returns, and the value that it took.
pub data Event : Type 0 where
  silent : Event
  pushed : Side → ℕ → Event
  popped : Side → ℕ → Event
  returned : ℕ → ℕ → Event
  found_empty : Event

abbrev pub same_status : Status → Status → Bool
same_status stable stable = true
same_status rpush rpush = true
same_status lpush lpush = true
same_status _ _ = false

abbrev pub same_anchor : Anchor → Anchor → Bool
same_anchor a b = (a.left == b.left) && (a.right == b.right) && same_status a.status b.status

abbrev pub same_link : Link → Link → Bool
same_link a b = (a.ptr == b.ptr) && (a.sn == b.sn)

-- `getRight` or `getLeft`
abbrev pub end_of : Side → Anchor → ℕ
end_of side_left a = a.left
end_of side_right a = a.right

-- The status of a push on a side that is not yet stable.
abbrev pub status_of : Side → Status
status_of side_left = lpush
status_of side_right = rpush

-- The link of the node at the end of a side, from there inwards, and the link of its neighbor to it.
abbrev pub inward : Side → Memory → ℕ → Link
inward side_left m x = m.right x
inward side_right m x = m.left x

abbrev pub outward : Side → Memory → ℕ → Link
outward side_left m x = m.left x
outward side_right m x = m.right x

abbrev pub set_inward : Side → ℕ → Link → Memory → Memory
set_inward side_left x l m = record m { right = update m.right x l }
set_inward side_right x l m = record m { left = update m.left x l }

abbrev pub set_outward : Side → ℕ → Link → Memory → Memory
set_outward side_left x l m = record m { left = update m.left x l }
set_outward side_right x l m = record m { right = update m.right x l }

abbrev pub resumed : Resume → Pc
resumed finish = idle
resumed (push_again side v n) = pushing side v n
resumed (pop_again side) = popping side

-- `MMDeque`: no node, and memory as it comes from the pool.
abbrev pub created : (left right : ℕ → Link) → (data_of : ℕ → ℕ) → Memory
created left right data_of = record {
  anchor = record { left = 0; right = 0; status = stable };
  left = left;
  right = right;
  data_of = data_of;
  next = 1;
  at = λ _. 0;
  lo = 2 ^ 32;
  hi = 2 ^ 32;
  published = λ _. false;
}

-- `stabilize`
abbrev pub stabilize_by : Status → Anchor → Resume → Pc
stabilize_by rpush a k = stab_start side_right a k
stabilize_by lpush a k = stab_start side_left a k
stabilize_by stable a k = resumed k

abbrev pub stabilize : Anchor → Resume → Pc
stabilize a k = stabilize_by a.status a k

-- `casAnchor`
abbrev pub cas_anchor : (spurious : Bool) → Anchor → Memory → Bool
cas_anchor spurious exp m = not spurious && same_anchor m.anchor exp

-- The anchor of a deque that holds the one node `n`, and of one without its end.
abbrev pub first_anchor : ℕ → Status → Anchor
first_anchor n status = record { left = n; right = n; status = status }

abbrev pub pushed_anchor : Side → ℕ → Anchor → Anchor
pushed_anchor side_left n a = record { left = n; right = a.right; status = lpush }
pushed_anchor side_right n a = record { left = a.left; right = n; status = rpush }

abbrev pub popped_anchor : Side → (prev : ℕ) → Anchor → Anchor
popped_anchor side_left prev a = record a { left = prev }
popped_anchor side_right prev a = record a { right = prev }

-- A node joins or leaves the positions.
abbrev pub join : Side → (n : ℕ) → Anchor → Memory → Memory
join side_left n a m = record m {
  anchor = a;
  at = update m.at (m.lo - 1) n;
  lo = m.lo - 1;
  published = update m.published n true;
}
join side_right n a m = record m {
  anchor = a;
  at = update m.at m.hi n;
  hi = m.hi + 1;
  published = update m.published n true;
}

abbrev pub leave : Side → Anchor → Memory → Memory
leave side_left a m = record m { anchor = a; lo = m.lo + 1 }
leave side_right a m = record m { anchor = a; hi = m.hi - 1 }

abbrev pub is_stable : Anchor → Bool
is_stable a = same_status a.status stable

-- An access of `right_push` or `left_push`.
abbrev pub push_access : Choice → Memory → Pc → Memory × Pc × Event
push_access c m (pushing side v n) = (m, push_seen side v n m.anchor, silent)
push_access c m (push_seen side v n a) =
    if end_of side a == 0
    then (if cas_anchor c.spurious a m
        then (join side n (first_anchor n a.status) m, idle, pushed side v)
        else (m, pushing side v n, silent))
    else if is_stable a
    then (
      set_inward side n (record { ptr = end_of side a; sn = 0 }) m,
      push_linked side v n a,
      silent,
    )
    else (m, stabilize a (push_again side v n), silent)
push_access c m (push_linked side v n a) =
    if cas_anchor c.spurious a m
    then (
      join side n (pushed_anchor side n a) m,
      stab_start side (pushed_anchor side n a) finish,
      pushed side v,
    )
    else (m, pushing side v n, silent)
push_access c m p = (m, p, silent)

-- An access of `right_pop` or `left_pop`. The hazard slots and `retire` are left out.
abbrev pub pop_access : Choice → Memory → Pc → Memory × Pc × Event
pop_access c m (popping side) =
    if end_of side m.anchor == 0
    then (m, idle, found_empty)
    else (m, pop_seen side m.anchor, silent)
pop_access c m (pop_seen side a) =
    if a.left == a.right
    then (if cas_anchor c.spurious a m
        then (
          leave side (first_anchor 0 a.status) m,
          reading (end_of side a) (m.data_of (end_of side a)),
          popped side (m.data_of (end_of side a)),
        )
        else (m, popping side, silent))
    else if is_stable a
    then (m, (if same_anchor a m.anchor then pop_checked side a else popping side), silent)
    else (m, stabilize a (pop_again side), silent)
pop_access c m (pop_checked side a) =
    (m, pop_ready side a (inward side m (end_of side a)).ptr, silent)
pop_access c m (pop_ready side a prev) =
    if cas_anchor c.spurious a m
    then (
      leave side (popped_anchor side prev a) m,
      reading (end_of side a) (m.data_of (end_of side a)),
      popped side (m.data_of (end_of side a)),
    )
    else (m, popping side, silent)
pop_access c m (reading x v) = (m, idle, returned (m.data_of x) v)
pop_access c m p = (m, p, silent)

-- An access of `stabilizeRight` or `stabilizeLeft`.
abbrev pub stab_access : Choice → Memory → Pc → Memory × Pc × Event
stab_access c m (stab_start side a k) =
    (m, (if same_anchor a m.anchor then stab_prev side a k else resumed k), silent)
stab_access c m (stab_prev side a k) =
    (m, stab_check side a (inward side m (end_of side a)).ptr k, silent)
stab_access c m (stab_check side a prev k) =
    (m, (if same_anchor a m.anchor then stab_next side a prev k else resumed k), silent)
stab_access c m (stab_next side a prev k) =
    let l = outward side m prev in
    (
      m,
      (if l.ptr == end_of side a then stab_settle side a k else stab_recheck side a prev l k),
      silent,
    )
stab_access c m (stab_recheck side a prev l k) =
    (m, (if same_anchor a m.anchor then stab_link side a prev l k else resumed k), silent)
stab_access c m (stab_link side a prev l k) =
    if same_link (outward side m prev) l
    then (
      set_outward side prev (record { ptr = end_of side a; sn = (l.sn + 1) % 2 ^ 32 }) m,
      stab_settle side a k,
      silent,
    )
    else (m, resumed k, silent)
stab_access c m (stab_settle side a k) = (
  (if cas_anchor c.spurious a m then record m { anchor = record a { status = stable } } else m),
  resumed k,
  silent,
)
stab_access c m p = (m, p, silent)

-- One shared access of a thread, or its next call; `new_Node` stores the value in a node of its own.
unfoldable pub advance : Choice → Memory → Pc → Memory × Pc × Event
advance c m idle = elim c.op [
  | push v ↦ (
    record m { data_of = update m.data_of m.next v; next = m.next + 1 },
    pushing c.side v m.next,
    silent,
  )
  | pop ↦ (m, popping c.side, silent)
]
advance c m (pushing side v n) = push_access c m (pushing side v n)
advance c m (push_seen side v n a) = push_access c m (push_seen side v n a)
advance c m (push_linked side v n a) = push_access c m (push_linked side v n a)
advance c m (popping side) = pop_access c m (popping side)
advance c m (pop_seen side a) = pop_access c m (pop_seen side a)
advance c m (pop_checked side a) = pop_access c m (pop_checked side a)
advance c m (pop_ready side a prev) = pop_access c m (pop_ready side a prev)
advance c m (reading x v) = pop_access c m (reading x v)
advance c m (stab_start side a k) = stab_access c m (stab_start side a k)
advance c m (stab_prev side a k) = stab_access c m (stab_prev side a k)
advance c m (stab_check side a prev k) = stab_access c m (stab_check side a prev k)
advance c m (stab_next side a prev k) = stab_access c m (stab_next side a prev k)
advance c m (stab_recheck side a prev l k) = stab_access c m (stab_recheck side a prev l k)
advance c m (stab_link side a prev l k) = stab_access c m (stab_link side a prev l k)
advance c m (stab_settle side a k) = stab_access c m (stab_settle side a k)

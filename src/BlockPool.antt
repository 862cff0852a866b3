-- ===== src/BlockPool.antt =====
-- cpp_harness/BlockPool.hpp: the pool of free blocks, for any number of threads, one shared access at a time.
pub mod Inv
pub mod Access
pub mod Refine
mod Tests
use unbounded_obstruction_fr.Base.{
  ℕ, zero, suc, ◌+◌, ◌-◌, ◌*◌, ◌%◌, ◌^◌, ◌≤◌, ◌<◌, Bool, true, false, ◌&&◌, ◌==◌, if◌then◌else◌,
  update, ltb, leb,
}

-- Where a block is: in no group yet, with a caller, at a height in the list of a thread, or at a height in one
-- of the groups of the global pool.
pub data Place : Type 0 where
  unmapped : Place
  held : Place
  local : (tid rank : ℕ) → Place
  pooled : (group rank : ℕ) → Place

-- The blocks by address, counted in blocks, and `global_pool`. The last four fields are not the program's:
-- where each block is, and which block is at which height.
pub record Memory : Type 0 where
  pub next : ℕ → ℕ
  pub next_group : ℕ → ℕ
  pub global_ptr : ℕ
  pub global_sn : ℕ
  pub fresh : ℕ
  pub place : ℕ → Place
  pub node : (tid rank : ℕ) → ℕ
  pub group : (index rank : ℕ) → ℕ
  pub groups : ℕ

-- Where a call stands: between two accesses of the global pool, with the local variables that are live there.
pub data Pc : Type 0 where
  idle : Pc
  looking : Pc  -- `alloc`, head of the loop
  looked : (old sn : ℕ) → Pc
  grabbing : (old sn after : ℕ) → Pc  -- before the exchange
  giving : (ng : ℕ) → Pc  -- `free`, head of the loop
  linking : (ng old sn : ℕ) → Pc
  linked : (ng old sn : ℕ) → Pc  -- before the exchange

-- A thread and its `block_head_node_t`.
pub record Thread : Type 0 where
  pub tid : ℕ
  pub top : ℕ
  pub nth : ℕ
  pub count : ℕ
  pub pc : Pc

pub data Op : Type 0 where
  alloc : Op
  free : (block : ℕ) → Op

-- The next call, and how far `memalign` leaves the memory behind that it has given out.
pub record Choice : Type 0 where
  pub op : Op
  pub gap : ℕ

-- What happens to the blocks that callers hold.
pub data Event : Type 0 where
  silent : Event
  allocated : ℕ → Event
  freed : ℕ → Event

abbrev pub group_size : ℕ
group_size = 8

abbrev pub is_held : Place → Bool
is_held held = true
is_held _ = false

-- `BlockPool`: no block. The memory is what it was.
abbrev pub created : (next next_group : ℕ → ℕ) → Memory
created next next_group = record {
  next = next;
  next_group = next_group;
  global_ptr = 0;
  global_sn = 0;
  fresh = 1;
  place = λ _. unmapped;
  node = λ _ _. 0;
  group = λ _ _. 0;
  groups = 0;
}

abbrev pub new_thread : (tid : ℕ) → Thread
new_thread tid = record { tid = tid; top = 0; nth = 0; count = 0; pc = idle }

-- A block leaves the list of its thread, or joins it.
abbrev pub take_top : Thread → Memory → Memory
take_top w m = record m { place = update m.place w.top held }

abbrev pub taken : Thread → Memory → Thread
taken w m = record w {
  top = m.next w.top;
  count = w.count - 1;
  nth = if w.top == w.nth then 0 else w.nth;
  pc = idle;
}

abbrev pub put_top : ℕ → Thread → Memory → Memory
put_top b w m = record m {
  next = update m.next b w.top;
  place = update m.place b (local w.tid w.count);
  node = update m.node w.tid (update (m.node w.tid) w.count b);
}

-- `free` up to the tests of the count, and `ng`.
abbrev pub put : ℕ → Thread → Memory → Thread
put b w m =
    if w.count + 1 == group_size + 1
    then record w { top = b; count = w.count + 1; nth = b; pc = idle }
    else if w.count + 1 == group_size * 2
    then record w { top = b; count = w.count + 1; pc = giving (m.next w.nth) }
    else record w { top = b; count = w.count + 1; pc = idle }

-- Where the blocks are when a thread has grabbed the last group.
abbrev pub grabbed_place : (tid index : ℕ) → Place → Place
grabbed_place tid index (pooled h i) =
    if h == index then (if i == 7 then held else local tid i) else pooled h i
grabbed_place tid index p = p

abbrev pub grab : Thread → (after : ℕ) → Memory → Memory
grab w after m = record m {
  global_ptr = after;
  global_sn = (m.global_sn + 1) % 2 ^ 32;
  place = λ x. grabbed_place w.tid (m.groups - 1) (m.place x);
  node = update m.node w.tid (m.group (m.groups - 1));
  groups = m.groups - 1;
}

-- Where they are when it has given the lower half of its list.
abbrev pub given_place : (tid index : ℕ) → Place → Place
given_place tid index (local u i) =
    if u == tid then (if ltb i 8 then pooled index i else local u (i - 8)) else local u i
given_place tid index p = p

abbrev pub give : Thread → (ng : ℕ) → Memory → Memory
give w ng m = record m {
  next = update m.next w.nth 0;
  global_ptr = ng;
  global_sn = (m.global_sn + 1) % 2 ^ 32;
  place = λ x. given_place w.tid m.groups (m.place x);
  node = update m.node w.tid (λ i. m.node w.tid (i + 8));
  group = update m.group m.groups (m.node w.tid);
  groups = m.groups + 1;
}

-- `appendBlockGroup`, for an array at `base`.
abbrev pub in_array : (base x : ℕ) → Bool
in_array base x = leb base x && ltb x (base + group_size)

abbrev pub append_array : Thread → (base : ℕ) → Memory → Memory
append_array w base m = record m {
  next = λ x. if in_array base x then (if x == base + 7 then 0 else x + 1) else m.next x;
  next_group = λ x. if in_array base x then 0 else m.next_group x;
  fresh = base + group_size;
  place = λ x. if in_array base x then local w.tid (base + 7 - x) else m.place x;
  node = update m.node w.tid (λ i. base + 7 - i);
}

abbrev pub append_head : Thread → (base : ℕ) → Thread
append_head w base = record w { top = base; nth = base; count = group_size }

-- The call of `alloc`.
abbrev pub call_alloc : Memory → Thread → Memory × Thread × Event
call_alloc m w =
    if w.top == 0
    then (m, record w { pc = looking }, silent)
    else (take_top w m, taken w m, allocated w.top)

-- The call of `free`. Callers free blocks that they hold.
abbrev pub call_free : (block : ℕ) → Memory → Thread → Memory × Thread × Event
call_free b m w =
    if is_held (m.place b)
    then (put_top b w m, put b w (put_top b w m), freed b)
    else (m, w, silent)

abbrev pub call : Op → Memory → Thread → Memory × Thread × Event
call alloc m w = call_alloc m w
call (free b) m w = call_free b m w

-- `global_pool->CAS`, which compares the pointer and its serial number.
abbrev pub exchanges : Memory → (old sn : ℕ) → Bool
exchanges m old sn = (m.global_ptr == old) && (m.global_sn == sn)

abbrev pub access : Choice → Memory → Thread → Pc → Memory × Thread × Event
access c m w idle = call c.op m w
access c m w looking =
    let base = m.fresh + c.gap in
    let m' = append_array w base m in
    let w' = append_head w base in
    if m.global_ptr == 0
    then (take_top w' m', taken w' m', allocated base)
    else (m, record w { pc = looked m.global_ptr m.global_sn }, silent)
access c m w (looked old sn) = (m, record w { pc = grabbing old sn (m.next_group old) }, silent)
access c m w (grabbing old sn after) =
    if exchanges m old sn
    then (
      grab w after m,
      record w { top = m.next old; count = group_size - 1; pc = idle },
      allocated old,
    )
    else (m, record w { pc = looking }, silent)
access c m w (giving ng) = (m, record w { pc = linking ng m.global_ptr m.global_sn }, silent)
access c m w (linking ng old sn) = (
  record m { next_group = update m.next_group ng old },
  record w { pc = linked ng old sn },
  silent,
)
access c m w (linked ng old sn) =
    if exchanges m old sn
    then (give w ng m, record w { nth = 0; count = w.count - group_size; pc = idle }, silent)
    else (m, record w { pc = giving ng }, silent)

unfoldable pub advance : Choice → Memory → Thread → Memory × Thread × Event
advance c m w = access c m w w.pc

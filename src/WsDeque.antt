-- ===== src/WsDeque.antt =====
-- deque/WSDeque.hpp: the work-stealing deque of one thread, on a ring that grows.
pub mod Content
pub mod Refine
pub mod Contended
pub mod Queue
mod Tests
use unbounded_obstruction_fr.Base.{
  ℕ, zero, suc, ◌+◌, ◌-◌, ◌%◌, ◌^◌, Bool, true, false, not, Option, none, some, List, [], ◌∷◌, ◌==◌,
  ltb, leb, ◌&&◌, if◌then◌else◌, update,
}

-- `ring_t`
pub record Ring (A : Type 0) : Type 0 where
  pub logsize : ℕ
  pub arr : ℕ → A

-- `deque_t`, and the rings that were handed to the hazard tracker, the last one first.
pub record Deque (A : Type 0) : Type 0 where
  pub top : ℕ
  pub bottom : ℕ
  pub ring : Ring A
  pub retired : List (Ring A)

-- `OP_FLAG`, with the value of a success
pub data Result (A : Type 0) : Type 0 where
  op_success : A → Result A
  op_empty : Result A
  op_abort : Result A

-- `pop` or `steal` before its exchange of `m_nTop`: either it has returned, or `t` and `o` are its variables.
pub data Taking (A : Type 0) : Type 0 where
  returned : Result A → Taking A
  exchanging : ℕ → A → Taking A

module _ {A : Type 0} where
  abbrev pub size : Ring A → ℕ
  size r = 2 ^ r.logsize

  unfoldable pub get : Ring A → ℕ → A
  get r i = r.arr (i % size r)

  unfoldable pub put : Ring A → ℕ → A → Ring A
  put r i value = record r { arr = update r.arr (i % size r) value }

  -- The loop of `grow`, after `n` rounds.
  unfoldable pub copied : (old : Ring A) → (top n : ℕ) → Ring A → Ring A
  copied old top zero a = a
  copied old top (suc n) a = put (copied old top n a) (top + n) (get old (top + n))

  -- `raw` is what the new array held.
  unfoldable pub grow : (raw : ℕ → A) → Ring A → (bottom top : ℕ) → Ring A
  unfolding copied
  grow raw r bottom top =
      copied r top (bottom - top) (record { logsize = r.logsize + 1; arr = raw })

  -- `push`. The test is `size >= ring->size() - 1` for `size = b - t`, which may be negative.
  unfoldable pub push : (raw : ℕ → A) → A → Deque A → Deque A
  unfolding put grow
  push raw value d =
      if leb (d.top + size d.ring) (d.bottom + 1)
      then record d {
        ring = put (grow raw d.ring d.bottom d.top) d.bottom value;
        retired = d.ring ∷ d.retired;
        bottom = d.bottom + 1;
      }
      else record d { ring = put d.ring d.bottom value; bottom = d.bottom + 1 }

  -- The bottom that it stores first, `b - 1`, is replaced by `t` where `b - 1 < t`.
  unfoldable pub pop_start : Deque A → Deque A × Taking A
  unfolding get
  pop_start d =
      if leb d.bottom d.top
      then (record d { bottom = d.top }, returned op_empty)
      else if ltb (d.top + 1) d.bottom
      then (record d { bottom = d.bottom - 1 }, returned (op_success (get d.ring (d.bottom - 1))))
      else (record d { bottom = d.bottom - 1 }, exchanging d.top (get d.ring (d.bottom - 1)))

  -- `casTop`; a weak exchange may fail although the values agree.
  abbrev pub cas_top : (spurious : Bool) → ℕ → ℕ → Deque A → Bool × Deque A
  cas_top spurious e t d =
      if not spurious && d.top == e then (true, record d { top = t }) else (false, d)

  abbrev pub after_pop : (t : ℕ) → A → Bool × Deque A → Deque A × Result A
  after_pop t o (true, d) = (record d { bottom = t + 1 }, op_success o)
  after_pop t o (false, d) = (d, op_empty)

  unfoldable pub pop_finish : (spurious : Bool) → Deque A → Taking A → Deque A × Result A
  pop_finish spurious d (returned r) = (d, r)
  pop_finish spurious d (exchanging t o) = after_pop t o (cas_top spurious t (t + 1) d)

  -- `pop` that no other thread interrupts
  abbrev pub pop : (spurious : Bool) → Deque A → Deque A × Result A
  pop spurious d = let (d', p) = pop_start d in pop_finish spurious d' p

  abbrev pub after_steal : A → Bool × Deque A → Deque A × Result A
  after_steal o (true, d) = (d, op_success o)
  after_steal o (false, d) = (d, op_abort)

  -- `steal` before its exchange of `m_nTop`: the ring that it reserves is then still the active one.
  unfoldable pub steal_start : Deque A → Taking A
  unfolding get
  steal_start d =
      if leb d.bottom d.top then returned op_empty else exchanging d.top (get d.ring d.top)

  unfoldable pub steal_finish : (spurious : Bool) → Deque A → Taking A → Deque A × Result A
  steal_finish spurious d (returned r) = (d, r)
  steal_finish spurious d (exchanging t o) = after_steal o (cas_top spurious t (t + 1) d)

  -- `steal` that no other thread interrupts
  abbrev pub steal : (spurious : Bool) → Deque A → Deque A × Result A
  steal spurious d = steal_finish spurious d (steal_start d)

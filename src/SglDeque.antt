-- ===== src/SglDeque.antt =====
-- deque/SGLDeque.hpp: a `std::deque` under one test-and-set lock, for any number of threads, one
-- access of the lock or of the deque at a time.
pub mod Inv
mod Tests
use unbounded_obstruction_fr.Base.{
  ℕ, ◌≡◌, Bool, true, false, Option, none, some, List, [], ◌∷◌, ◌==◌, if◌then◌else◌,
}
use unbounded_obstruction_fr.Spec.{push_left, push_right, pop_left, pop_right}

-- The interface of deque/RDeque.hpp.
pub data Op (A : Type 0) : Type 0 where
  left_push : A → Op A
  right_push : A → Op A
  left_pop : Op A
  right_pop : Op A

pub record Memory (A : Type 0) : Type 0 where
  pub lock : ℕ
  pub deque : List A

-- Where a thread stands, with the local variables that are live there.
pub data Pc (A : Type 0) : Type 0 where
  idle : Pc A
  testing : Op A → Pc A  -- before `__sync_lock_test_and_set`
  spinning : Op A → Pc A  -- the inner `while` of `lock`
  entered : Op A → Pc A  -- the lock is held
  reading : Op A → Pc A  -- the deque was not empty
  removing : Op A → A → Pc A  -- before `pop_front` or `pop_back`
  leaving : Option A → Pc A  -- before `unlock`, with the value to return
  faulted : Pc A  -- `front`, `back`, `pop_front` or `pop_back` of an empty deque

pub data Event (A : Type 0) : Type 0 where
  silent : Event A
  pushed_left : A → Event A
  pushed_right : A → Event A
  popped_left : A → Event A
  popped_right : A → Event A
  found_empty : Event A

module _ {A : Type 0} where
  abbrev pub is_empty : List A → Bool
  is_empty [] = true
  is_empty (x ∷ l) = false

  -- `front` and `pop_front`, or `back` and `pop_back`
  abbrev pub end_of : Op A → List A → Option (A × List A)
  end_of left_pop l = pop_left l
  end_of _ l = pop_right l

  abbrev pub popped : Op A → A → Event A
  popped left_pop v = popped_left v
  popped _ v = popped_right v

module _ {A : Type 0} (empty : A) where
  -- The body between `lock` and `unlock`: its first access.
  pub enter : Op A → Memory A → Memory A × Pc A × Event A
  enter (left_push v) m = (record m { deque = push_left v m.deque }, leaving none, pushed_left v)
  enter (right_push v) m = (record m { deque = push_right v m.deque }, leaving none, pushed_right v)
  enter left_pop m =
      if is_empty m.deque
      then (m, leaving (some empty), found_empty)
      else (m, reading left_pop, silent)
  enter right_pop m =
      if is_empty m.deque
      then (m, leaving (some empty), found_empty)
      else (m, reading right_pop, silent)

module _ {A : Type 0} where
  pub read_end : Op A → Memory A → Memory A × Pc A × Event A
  read_end op m = elim (end_of op m.deque) [
    | none ↦ (m, faulted, silent)
    | some (v, l) ↦ (m, removing op v, silent)
  ]

  pub remove_end : Op A → A → Memory A → Memory A × Pc A × Event A
  remove_end op value m = elim (end_of op m.deque) [
    | none ↦ (m, faulted, silent)
    | some (v, l) ↦ (record m { deque = l }, leaving (some value), popped op value)
  ]

module _ {A : Type 0} (empty : A) where
  -- One access of a thread; an idle thread calls the operation that is chosen.
  pub advance : Op A → Memory A → Pc A → Memory A × Pc A × Event A
  unfolding enter read_end remove_end
  advance call m idle = (m, testing call, silent)
  advance call m (testing op) =
      (record m { lock = 1 }, (if m.lock == 0 then entered op else spinning op), silent)
  advance call m (spinning op) = (m, (if m.lock == 0 then testing op else spinning op), silent)
  advance call m (entered op) = enter empty op m
  advance call m (reading op) = read_end op m
  advance call m (removing op value) = remove_end op value m
  advance call m (leaving result) = (record m { lock = 0 }, idle, silent)
  advance call m faulted = (m, faulted, silent)

-- ===== src/OfDeque/Interior.antt =====
-- deque/OFDeque.hpp: the interior branches of `doPush` and `doPop`, in which the edge lies inside
-- one buffer, for any number of threads, one shared access at a time.
pub mod Inv
pub mod Unsealed
pub mod Refine
pub mod Solo
mod Tests
use unbounded_obstruction_fr.Base.{
  ℕ, zero, suc, ◌+◌, ◌≤◌, Bool, true, false, not, ◌&&◌, List, [], ◌∷◌, ◌==◌, ltb, leb,
  if◌then◌else◌, update,
}
use unbounded_obstruction_fr.OfDeque.Slot.{
  SlotType, type_value, Side, side_left, side_right, Slot, same_type, far_type, near_type,
  far_index, Buffer, cas_safe, cas_type, cas_value, move_hint, edge_ok,
}

pub data Op : Type 0 where
  push : ℕ → Op
  pop : Op

-- Where a thread stands, with the local variables that are live there.
pub data Pc : Type 0 where
  idle : Pc
  looping : Side → Op → Pc  -- head of the `for`
  near_loaded : Side → Op → ℕ → Slot → Pc
  -- The list is not the program's: it is what the deque held when the far slot was loaded.
  edge_loaded : Side → Op → ℕ → Slot → Slot → List ℕ → Pc
  checked : Side → Op → ℕ → Slot → Slot → Pc  -- before `casSafe`
  armed : Side → Op → ℕ → Slot → Slot → Pc  -- after `casSafe`
  hinting : Side → Bool → Pc  -- before the update of the local hint

-- What is not decided by the code: the next call, the edge that the oracle returns, and the word of
-- an uninitialised slot.
pub record Choice : Type 0 where
  pub side : Side
  pub op : Op
  pub edge : ℕ
  pub junk : ℕ

pub record System : Type 0 where
  pub buffer : Buffer
  pub pc : ℕ → Pc

-- What a step does to the abstract deque.
pub data Event : Type 0 where
  silent : Event
  pushed : Side → ℕ → Event
  popped : Side → ℕ → Event
  found_empty : Side → List ℕ → Event

-- The values of the `n` slots from `lo` on.
unfoldable pub values : (ℕ → Slot) → (lo n : ℕ) → List ℕ
values slots lo zero = []
values slots lo (suc n) =
    let rest = values slots (suc lo) n in
    if same_type (slots lo).type type_value then (slots lo).word ∷ rest else rest

module _ (size : ℕ) where
  pub contents : Buffer → List ℕ
  contents b = values b.slots 0 size

  -- The indices at which `nearIndex != GetFarValueIndex<S>()`, of those that the oracle returns.
  abbrev pub interior : Side → ℕ → Bool
  interior side_left i = leb 2 i && ltb i size
  interior side_right i = ltb (i + 2) size

  abbrev pub after_cas : Bool × Buffer → (won lost : Pc) → Event → Buffer × Pc × Event
  after_cas (true, b) won lost e = (b, won, e)
  after_cas (false, b) won lost e = (b, lost, Event.silent)

  -- One shared access of a thread.
  pub advance : Choice → Buffer → Pc → Buffer × Pc × Event
  unfolding cas_safe cas_type cas_value move_hint edge_ok contents
  advance c b idle = (b, looping c.side c.op, silent)
  advance c b (looping side op) =
      if interior side c.edge
      then (b, near_loaded side op c.edge (b.slots c.edge), silent)
      else (b, looping side op, silent)
  advance c b (near_loaded side op i near) =
      let far = b.slots (far_index side i) in
      if edge_ok size side i near far
      then (b, edge_loaded side op i near far (contents b), silent)
      else (b, looping side op, silent)
  advance c b (edge_loaded side (push v) i near far seen) =
      (b, checked side (push v) i near far, silent)
  advance c b (edge_loaded side pop i near far seen) =
      if same_type near.type (near_type side) && (b.slots i).count == near.count
      then (b, idle, found_empty side seen)
      else (b, checked side pop i near far, silent)
  advance c b (checked side (push v) i near far) =
      after_cas (cas_safe b i near) (armed side (push v) i near far) (looping side (push v)) silent
  advance c b (checked side pop i near far) =
      after_cas (cas_safe b (far_index side i) far) (armed side pop i near far) (looping side pop)
        silent
  advance c b (armed side (push v) i near far) =
      after_cas (cas_value b (far_index side i) far v) (hinting side true) (looping side (push v))
        (pushed side v)
  advance c b (armed side pop i near far) =
      after_cas (cas_type b i near (far_type side) c.junk) (hinting side false) (looping side pop)
        (popped side near.word)
  advance c b (hinting side outwards) = (move_hint b side outwards, idle, silent)

  pub step : System → ℕ → Choice → System × Event
  unfolding advance
  step s t c =
      let (b, p, e) = advance c s.buffer (s.pc t) in
      (record { buffer = b; pc = update s.pc t p }, e)

  -- A schedule says whose turn it is, and what the choices are.
  pub run : System → List (ℕ × Choice) → System × List Event
  unfolding step
  run s [] = (s, [])
  run s ((t, c) ∷ rest) =
      let (s', e) = step s t c in let (final, es) = run s' rest in (final, e ∷ es)

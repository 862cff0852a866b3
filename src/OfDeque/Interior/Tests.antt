-- ===== src/OfDeque/Interior/Tests.antt =====
-- Runs of the interior branches, and the theorems at them.
use unbounded_obstruction_fr.Base.{
  ℕ, ◌≡◌, refl, ◌⊎◌, List, [], ◌∷◌, arith, replicate, ◌==◌, if◌then◌else◌,
}
use unbounded_obstruction_fr.OfDeque.Slot.{
  type_left, type_value, side_right, Slot, near_type, fill, edge_ok,
}
use unbounded_obstruction_fr.OfDeque.Interior.{
  Choice, Op, push, pop, Pc, idle, looping, Event, silent, pushed, popped, found_empty, System,
  contents, values, run,
}
use unbounded_obstruction_fr.OfDeque.Interior.Inv.{Shape}
use unbounded_obstruction_fr.OfDeque.Interior.Refine.{
  Explains, start, interior_linearizable, interior-Shape,
}
use unbounded_obstruction_fr.OfDeque.Interior.Unsealed.{Unsealed}
use unbounded_obstruction_fr.OfDeque.Interior.Solo.{push_finishes, pop_finishes}

-- What the memory of a new buffer happens to hold.
abbrev raw : ℕ → Slot
raw i = record { word = 99; count = i; type = type_left }

abbrev small_raw : ℕ → Slot
small_raw i = record { word = 99; count = 3; type = type_value }

abbrev right : Op → ℕ → Choice
right op edge = record { side = side_right; op = op; edge = edge; junk = 77 }

-- Thread 0 pushes 5 while thread 1 tries to pop from the same edge, and then pops.
abbrev contended : List (ℕ × Choice)
contended =
    (0, right (push 5) 3)
    ∷ (0, right (push 5) 3)
    ∷ (1, right pop 3)
    ∷ (1, right pop 3)
    ∷ (0, right (push 5) 3)
    ∷ (0, right (push 5) 3)
    ∷ (0, right (push 5) 3)
    ∷ (1, right pop 3)
    ∷ (0, right (push 5) 3)
    ∷ (0, right (push 5) 3)
    ∷ (1, right pop 4)
    ∷ (1, right pop 4)
    ∷ (1, right pop 4)
    ∷ (1, right pop 4)
    ∷ (1, right pop 4)
    ∷ (1, right pop 4)
    ∷ (1, right pop 4)
    ∷ []

contended_events :
    (run 8 (start small_raw 4) contended).1
    ≡ silent
      ∷ silent
      ∷ silent
      ∷ silent
      ∷ silent
      ∷ silent
      ∷ silent
      ∷ silent
      ∷ pushed side_right 5
      ∷ silent
      ∷ silent
      ∷ silent
      ∷ silent
      ∷ silent
      ∷ silent
      ∷ silent
      ∷ popped side_right 5
      ∷ []
unfolding run fill values contents
contended_events = refl

interior_linearizable_example :
    let (s, es) = run 8 (start small_raw 4) contended in Explains es [] (contents 8 s.buffer)
interior_linearizable_example =
    interior_linearizable 8 3 4 small_raw contended (λ i. omega arith) (omega arith)

interior-Shape_example :
    let b = (run 8 (start small_raw 4) contended).0.buffer in Shape 8 b.slots × Unsealed b.slots
interior-Shape_example = interior-Shape 8 3 4 small_raw contended (λ i. omega arith) (omega arith)

-- An empty buffer of eight slots, with thread 0 about to push and the others about to pop.
abbrev ready : System
ready = record {
  buffer = fill small_raw 4;
  pc = λ t. if t == 0 then looping side_right (push 5) else looping side_right pop;
}

push_finishes_example :
    let (s, es) = run 8 ready (replicate 6 (0, right (push 5) 3)) in
    ◌≡◌ {A = Pc × List Event}
      (s.pc 0, es)
      (idle, silent ∷ silent ∷ silent ∷ silent ∷ pushed side_right 5 ∷ silent ∷ [])
unfolding fill edge_ok
push_finishes_example = push_finishes 8 0 (right (push 5) 3) ready side_right (refl, refl) 5 refl

-- The pop at the same edge finds the deque empty.
pop_finishes_example :
    ((ready.buffer.slots 3).type ≡ type_value)
      × ◌≡◌ {A = Pc × List Event}
          (
            (run 8 ready (replicate 6 (1, right pop 3))).0.pc 1,
            (run 8 ready (replicate 6 (1, right pop 3))).1,
          )
          (
            idle,
            silent
                ∷ silent
                ∷ silent
                ∷ silent
                ∷ popped side_right (ready.buffer.slots 3).word
                ∷ silent
                ∷ [],
          )
    ⊎ ((ready.buffer.slots 3).type ≡ near_type side_right)
      × ◌≡◌ {A = Pc × List Event}
          (
            (run 8 ready (replicate 3 (1, right pop 3))).0.pc 1,
            (run 8 ready (replicate 3 (1, right pop 3))).1,
          )
          (idle, silent ∷ silent ∷ found_empty side_right (contents 8 ready.buffer) ∷ [])
unfolding fill edge_ok
pop_finishes_example = pop_finishes 8 1 (right pop 3) ready side_right (refl, refl) refl

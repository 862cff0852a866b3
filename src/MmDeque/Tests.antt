-- ===== src/MmDeque/Tests.antt =====
-- Concrete runs of the deque of Maged Michael.
use unbounded_obstruction_fr.Base.{
  ◌≤◌, ℕ, zero, suc, ◌≡◌, refl, arith, true, false, List, [], ◌∷◌, ◌++◌,
}
use unbounded_obstruction_fr.OfDeque.Slot.{Side, side_left, side_right}
use unbounded_obstruction_fr.Threads.{run, Explains}
use unbounded_obstruction_fr.MmDeque.AnchorWord.{
  set, set_status, get_status, get_left, get_right, differs, pack, get-set, differs-pack,
}
use unbounded_obstruction_fr.MmDeque.{
  Memory, idle, stable, rpush, Anchor, Link, Choice, Op, push, pop, Event, silent, pushed, popped,
  returned, advance,
}
use unbounded_obstruction_fr.MmDeque.Turns.{alone}
use unbounded_obstruction_fr.MmDeque.Alone.{Answers, mm_finishes}
use unbounded_obstruction_fr.MmDeque.Inv.Defs.{Chain}
use unbounded_obstruction_fr.MmDeque.Inv.View.{view, Does}
use unbounded_obstruction_fr.MmDeque.Refine.{start, mm_linearizable, mm_run-Chain}

abbrev call : Side → Op → Choice
call side op = record { side = side; op = op; spurious = false }

-- A thread makes `n` accesses.
abbrev turns : ℕ → ℕ → Choice → List (ℕ × Choice)
turns t zero c = []
turns t (suc n) c = (t, c) ∷ turns t n c

-- Links that were left in memory.
abbrev raw : ℕ → Link
raw x = record { ptr = 5; sn = 3 }

-- Thread 0 pushes 7 on the right, and 8, but stops before it sets the link. Thread 1 pushes 9 on the left,
-- for which it sets the link, and pops 8 on the right.
abbrev schedule : List (ℕ × Choice)
schedule =
    turns 0 3 (call side_right (push 7))
    ++ (turns 0 4 (call side_right (push 8))
        ++ (turns 1 20 (call side_left (push 9)) ++ turns 1 10 (call side_right pop)))

abbrev loud : List Event → List Event
loud [] = []
loud (silent ∷ es) = loud es
loud (e ∷ es) = e ∷ loud es

events :
    loud (run advance (start raw raw (λ _. 0)) schedule).1
    ≡ pushed side_right 7
      ∷ pushed side_right 8
      ∷ pushed side_left 9
      ∷ popped side_right 8
      ∷ returned 8 8
      ∷ []
unfolding run advance
events = refl

mm_linearizable_example :
    let (s, es) = run advance (start raw raw (λ _. 0)) schedule in
    Explains Does es [] (view s.shared)
mm_linearizable_example =
    mm_linearizable 3 raw raw (λ _. 0) schedule (λ x. omega arith) (λ x. omega arith) (omega arith)

mm_run-Chain_example : Chain 40 (run advance (start raw raw (λ _. 0)) schedule).0.shared
mm_run-Chain_example =
    mm_run-Chain 3 raw raw (λ _. 0) schedule (λ x. omega arith) (λ x. omega arith) (omega arith)

abbrev two_nodes : Anchor
two_nodes = record { left = 64; right = 96; status = rpush }

abbrev settled_nodes : Anchor
settled_nodes = record { left = 64; right = 96; status = stable }

get-set_example :
    (get_left (set 64 96 rpush) ≡ 64)
    × (get_right (set 64 96 rpush) ≡ 96)
    × (get_status (set 64 96 rpush) ≡ 1)
    × (set_status (set 64 96 rpush) stable ≡ set 64 96 stable)
get-set_example = get-set 64 96 rpush stable refl

differs-pack_example : differs (pack two_nodes) (pack settled_nodes) ≡ true
differs-pack_example = differs-pack two_nodes settled_nodes refl refl

-- A deque of two nodes, of which the right one is not yet linked.
abbrev unsettled : Memory
unsettled =
    (run advance (start raw raw (λ _. 0))
      (turns 0 3 (call side_right (push 7)) ++ turns 0 4 (call side_right (push 8)))).0.shared

mm_finishes_example :
    (k : ℕ) × (k ≤ 20)
    × (let (m', q, es) = alone k (call side_left (push 9)) unsettled idle in
        (q ≡ idle) × Answers (push 9) side_left es)
mm_finishes_example = mm_finishes (call side_left (push 9)) refl unsettled

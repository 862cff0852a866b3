-- ===== src/BlockPool/Tests.antt =====
-- Concrete runs of the block pool.
use unbounded_obstruction_fr.Base.{
  ℕ, zero, suc, ◌≤◌, ◌<◌, ◌≡◌, refl, arith, false, List, [], ◌∷◌, ◌++◌,
}
use unbounded_obstruction_fr.Threads.{run, Explains}
use unbounded_obstruction_fr.BlockPool.{
  alloc, free, Choice, Event, silent, allocated, freed, idle, advance,
}
use unbounded_obstruction_fr.BlockPool.Inv.Defs.{holds, Does}
use unbounded_obstruction_fr.BlockPool.Refine.{start, alloc_exclusive, count_bound}

abbrev alloc_turns : (t n : ℕ) → List (ℕ × Choice)
alloc_turns t zero = []
alloc_turns t (suc n) = (t, record { op = alloc; gap = 0 }) ∷ alloc_turns t n

abbrev free_turns : (t b n : ℕ) → List (ℕ × Choice)
free_turns t b zero = []
free_turns t b (suc n) = (t, record { op = free b; gap = 0 }) ∷ free_turns t (suc b) n

-- Thread 0 takes two arrays, and frees all of their blocks, by which one group goes to the global pool. Thread 1
-- takes two blocks of it.
abbrev schedule : List (ℕ × Choice)
schedule = alloc_turns 0 18 ++ (free_turns 0 1 19 ++ alloc_turns 1 5)

abbrev raw : ℕ → ℕ
raw x = 5

abbrev last_events : ℕ → List Event → List Event
last_events zero es = es
last_events (suc n) [] = []
last_events (suc n) (e ∷ es) = last_events n es

events :
    last_events 33 (run advance (start raw raw) schedule).1
    ≡ freed 16
      ∷ silent
      ∷ silent
      ∷ silent
      ∷ silent
      ∷ silent
      ∷ silent
      ∷ allocated 8
      ∷ allocated 7
      ∷ []
unfolding run advance
events = refl

alloc_exclusive_example :
    let (s, es) = run advance (start raw raw) schedule in
    Explains Does es (λ _. false) (holds s.shared)
alloc_exclusive_example = alloc_exclusive raw raw schedule (omega arith)

count_bound_example :
    let w = (run advance (start raw raw) schedule).0.pc 0 in
    (w.count ≤ 16) × (w.pc ≡ idle → w.count < 16)
count_bound_example = count_bound raw raw schedule (omega arith) 0

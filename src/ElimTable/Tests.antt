-- ===== src/ElimTable/Tests.antt =====
-- Runs of two threads over the elimination table, and the theorems at them.
use unbounded_obstruction_fr.Base.{ℕ, ◌≡◌, refl, false, List, [], ◌∷◌, arith}
use unbounded_obstruction_fr.Threads.{Explains}
use unbounded_obstruction_fr.ElimTable.{
  Op, push, pop, out, Choice, Scan, idle, attempting, matching, silent, met, missed, System, start,
  run, step, advance, exchanged, posted,
}
use unbounded_obstruction_fr.ElimTable.Local.{Does}
use unbounded_obstruction_fr.ElimTable.Meets.{elimination_explained}
use unbounded_obstruction_fr.ElimTable.Missed.{push_missed}

abbrev turn : ℕ → Op → ℕ × Choice
turn t op = (t, record { op = op; start = 0; scan_count = 2; succeeds = false; junk = 33 })

-- Thread 0 posts an operation; thread 1 posts its own, fails on the deque and finds that of thread 0.
abbrev prefix : (first second : Op) → List (ℕ × Choice)
prefix first second =
    turn 0 first
    ∷ turn 0 first
    ∷ turn 1 second
    ∷ turn 1 second
    ∷ turn 1 second
    ∷ turn 1 second
    ∷ turn 1 second
    ∷ turn 1 second
    ∷ turn 1 second
    ∷ turn 1 second
    ∷ turn 1 second
    ∷ []

abbrev ready : (first second : Op) → System
ready first second = (run 2 (start (λ i. i)) (prefix first second)).0

abbrev found : Scan
found = record { start = 0; count = 2; n = 0 }

ready-found : (ready (push 5) pop).pc 1 ≡ matching pop found (posted (push 5) 33)
unfolding run step advance exchanged
ready-found = refl

elimination_explained_example :
    let (s, es) = run 2 (start (λ i. i)) (prefix (push 5) pop) in
    Explains Does es (λ _. out) s.shared.phases
elimination_explained_example = elimination_explained 2 (λ i. i) (prefix (push 5) pop)

abbrev any : Choice
any = (turn 0 pop).1

push_missed_example :
    let (s', es) = run 2 (ready (push 5) pop) ((0, any) ∷ (1, any) ∷ (0, any) ∷ []) in
    (es ≡ silent ∷ met 1 0 5 ∷ missed 0 (push 5) ∷ [])
    × (s'.pc 1 ≡ idle)
    × (s'.pc 0 ≡ attempting (push 5))
unfolding run step advance exchanged
push_missed_example =
    push_missed 2 0 1 5 33 any any any (ready (push 5) pop) found (omega arith) refl refl refl refl

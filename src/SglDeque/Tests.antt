-- ===== src/SglDeque/Tests.antt =====
-- A run of two threads over the locked deque, and the theorems at it.
use unbounded_obstruction_fr.Base.{ℕ, ◌≡◌, refl, List, [], ◌∷◌}
use unbounded_obstruction_fr.Spec.{push_right, pop_left}
use unbounded_obstruction_fr.Threads.{run, Explains}
use unbounded_obstruction_fr.SglDeque.{
  Op, right_push, left_pop, silent, pushed_right, popped_left, advance,
}
use unbounded_obstruction_fr.SglDeque.Inv.{Does, start, final, mutual_exclusion, sgl_linearizable}

-- Thread 0 pushes 7 while thread 1 waits for the lock, and then pops it.
abbrev schedule : List (ℕ × Op ℕ)
schedule =
    (0, right_push 7)
    ∷ (1, left_pop)
    ∷ (0, left_pop)
    ∷ (1, left_pop)
    ∷ (0, left_pop)
    ∷ (0, left_pop)
    ∷ (1, left_pop)
    ∷ (1, left_pop)
    ∷ (1, left_pop)
    ∷ (1, left_pop)
    ∷ (1, left_pop)
    ∷ []

events :
    (run (advance 0) (start 0) schedule).1
    ≡ silent
      ∷ silent
      ∷ silent
      ∷ silent
      ∷ pushed_right 7
      ∷ silent
      ∷ silent
      ∷ silent
      ∷ silent
      ∷ silent
      ∷ popped_left 7
      ∷ []
unfolding run advance pop_left push_right
events = refl

sgl_linearizable_example :
    Explains Does (run (advance 0) (start 0) schedule).1 [] (final 0 schedule).shared.deque
sgl_linearizable_example = sgl_linearizable 0 schedule

mutual_exclusion_example : ◌≡◌ {A = ℕ} 1 1
unfolding run advance pop_left push_right
mutual_exclusion_example = mutual_exclusion 0 schedule 1 1 refl refl

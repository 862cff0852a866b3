-- ===== src/ElimTable/Meets.antt =====
-- deque/ElimTable.hpp: who meets whom, and what the two then have.
use unbounded_obstruction_fr.Base.{
  ℕ, refl, sym, ◌∙◌, Bool-cases, inl, inr, List, [], ◌∷◌, ◌==◌, ==_iff,
}
use mathlib.Core.Bool.{true≢false}
use unbounded_obstruction_fr.Threads.{Explains}
use unbounded_obstruction_fr.ElimTable.{out, Choice, System, start, step, run}
use unbounded_obstruction_fr.ElimTable.Local.{Does, Local}
use unbounded_obstruction_fr.ElimTable.Access.{advance-Kept}

abbrev Inv : System → Type 0
Inv s = (u : ℕ) → Local (s.shared.table u) (s.shared.phases u) (s.pc u)

step-Inv :
    (threads : ℕ) (s : System) (t : ℕ) (c : Choice)
    → Inv s
    → let (s', e) = step threads s t c in Inv s' × Does e s.shared.phases s'.shared.phases
unfolding step
step-Inv threads s t c inv =
    let k = advance-Kept threads t c s.shared s.pc inv (s.pc t) (inv t) in
    (
      λ u. elim (Bool-cases (t == u)) [
        | inl same ↦ rw (same, ← (==_iff t u).0 same) k.local
        | inr other ↦
            rw other
              (k.others u (λ h. true≢false (sym ((==_iff t u).1 h) ∙ other)) (s.pc u) (inv u))
      ],
      k.does,
    )

run-Explains :
    (threads : ℕ) (schedule : List (ℕ × Choice)) (s : System)
    → Inv s
    → let (s', es) = run threads s schedule in
      Inv s' × Explains Does es s.shared.phases s'.shared.phases
unfolding run
run-Explains threads [] s inv = (inv, refl)
run-Explains threads ((t, c) ∷ rest) s inv =
    let (inv', does) = step-Inv threads s t c inv in
    let (inv'', es) = run-Explains threads rest (step threads s t c).0 inv' in
    (inv'', (_, does, es))

-- For any number of threads and every schedule, from a new table, the events are those of operations
-- that wait and meet: `met` pairs two that wait, one of them a push and the other a pop, with the value
-- of the push; an operation returns as eliminated only if it has met its partner, and a pop then returns
-- the value that it got; only one that waits is done on the deque; and `missed` sets one that has met
-- its partner back to waiting.
pub elimination_explained :
    (threads : ℕ) (raw : ℕ → ℕ) (schedule : List (ℕ × Choice))
    → let (s, es) = run threads (start raw) schedule in Explains Does es (λ _. out) s.shared.phases
elimination_explained threads raw schedule =
    (run-Explains threads schedule (start raw) (λ u. (refl, refl))).1

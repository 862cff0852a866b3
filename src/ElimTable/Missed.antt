-- ===== src/ElimTable/Missed.antt =====
-- deque/ElimTable.hpp: an operation is eliminated between the load and the exchange of `removePush` or
-- `removePop`.
use unbounded_obstruction_fr.Base.{ℕ, ◌≡◌, ◌≢◌, none, List, [], ◌∷◌, arith}
use unbounded_obstruction_fr.ElimTable.{
  push, pop, Choice, Scan, removing, attempting, matching, idle, silent, met, missed, scanned,
  System, exchanged, advance, step, run, posted,
}

module _ (threads t u v junk : ℕ) (c c' c'' : Choice) (s : System) (scan : Scan) (apart : t ≢ u)
    (at : scanned threads scan ≡ t) where
  -- Thread `t` loads its slot, thread `u` exchanges it, and then `t` does.
  abbrev pub race : List (ℕ × Choice)
  race = (t, c) ∷ (u, c') ∷ (t, c'') ∷ []

  -- A popper takes the value of a pusher that has just loaded its posted slot and returns, and the
  -- pusher's `removePush` then says that it was not eliminated: it goes on to push the value once more.
  pub push_missed :
      s.shared.table t ≡ posted (push v) junk
      → s.pc t ≡ removing (push v) none
      → s.pc u ≡ matching pop scan (posted (push v) junk)
      → let (s', es) = run threads s race in
        (es ≡ silent ∷ met u t v ∷ missed t (push v) ∷ [])
        × (s'.pc u ≡ idle)
        × (s'.pc t ≡ attempting (push v))
  unfolding run step advance exchanged
  push_missed slot pusher popper = ground arith

  -- A pusher gives its value to a popper that has just loaded its posted slot and returns, and the
  -- popper's `removePop` then says that it was not eliminated: the value is lost.
  pub pop_missed :
      s.shared.table t ≡ posted pop junk
      → s.pc t ≡ removing pop none
      → s.pc u ≡ matching (push v) scan (posted pop junk)
      → let (s', es) = run threads s race in
        (es ≡ silent ∷ met u t v ∷ missed t pop ∷ [])
        × (s'.pc u ≡ idle)
        × (s'.pc t ≡ attempting pop)
  unfolding run step advance exchanged
  pop_missed slot popper pusher = ground arith

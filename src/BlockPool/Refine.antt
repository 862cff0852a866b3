-- ===== src/BlockPool/Refine.antt =====
-- cpp_harness/BlockPool.hpp: no block is given to two callers, whatever the schedule.
use native.Mathlib.Nat.{add-zero}
use unbounded_obstruction_fr.Base.{
  ℕ, suc, ◌+◌, ◌^◌, ◌≤◌, ◌<◌, ◌≡◌, ◌≢◌, refl, sym, ◌∙◌, arith, false, List, [], ◌∷◌, length,
}
use unbounded_obstruction_fr.Threads.{System, step, run, Explains, update_keeps}
use unbounded_obstruction_fr.BlockPool.{
  Memory, Pc, idle, looking, looked, grabbing, giving, linking, linked, Thread, Choice, advance,
  created, new_thread,
}
use unbounded_obstruction_fr.BlockPool.Inv.Defs.{
  Shape, Stands, Local, Pair, holds, Does, Keeps-Local,
}
use unbounded_obstruction_fr.BlockPool.Access.{access-Sound}

-- What holds after `n` accesses.
pub record Inv (n : ℕ) (s : System Memory Thread) : Type 0 where
  pub shape : Shape n s.shared
  pub locals : (u : ℕ) → Local s.shared (s.pc u)
  pub pair : (u w : ℕ) → u ≢ w → Pair (s.pc u) (s.pc w)

pool_step-Inv :
    (n : ℕ) (s : System Memory Thread) (t : ℕ) (c : Choice)
    → n + 1 < 2 ^ 32
    → Inv n s
    → let (s', e) = step advance s t c in Inv (n + 1) s' × Does e (holds s.shared) (holds s'.shared)
unfolding step advance
pool_step-Inv n s t c few inv =
    let w = s.pc t in
    let l = inv.locals t in
    let sound = access-Sound n s.shared inv.shape few c w l.listed w.pc refl l.stands in
    let (locals, pair) = update_keeps advance Local Pair s t c inv.locals inv.pair (
      sound.local_next,
      λ q lq pq qp. (
        Keeps-Local sound.keeps q qp lq,
        (λ z. pq (sym sound.same_tid ∙ z)),
        λ z. qp (z ∙ sound.same_tid),
      ),
    ) in
    (record { shape = sound.shape; locals = locals; pair = pair }, sound.does)

pool_run-Inv :
    (schedule : List (ℕ × Choice)) (n : ℕ) (s : System Memory Thread)
    → n + length schedule < 2 ^ 32
    → Inv n s
    → let (s', es) = run advance s schedule in
      Inv (n + length schedule) s' × Explains Does es (holds s.shared) (holds s'.shared)
unfolding run
pool_run-Inv [] n s few inv = (rw add-zero inv, refl)
pool_run-Inv ((t, c) ∷ rest) n s few inv =
    let (inv', does) = pool_step-Inv n s t c (omega arith) inv in
    let (final, es) = pool_run-Inv rest (n + 1) (step advance s t c).0 (omega arith) inv' in
    let longer : n + suc (length rest) ≡ n + 1 + length rest = omega arith in
    (rw longer final, (_, does, es))

Stands-count :
    (m : Memory) (w : Thread) (p : Pc) → Stands m w p → (w.count ≤ 16) × (p ≡ idle → w.count < 16)
Stands-count m w idle s = (omega (arith, s.0), λ _. s.0)
Stands-count m w looking s = (omega (arith, s.0), λ _. omega (arith, s.0))
Stands-count m w (looked old sn) s = (omega (arith, s.0), λ _. omega (arith, s.0))
Stands-count m w (grabbing old sn after) s = (omega (arith, s.0), λ _. omega (arith, s.0))
Stands-count m w (giving ng) s = (omega (arith, s.0), λ z. ground arith)
Stands-count m w (linking ng old sn) s = (omega (arith, s.0.0), λ z. ground arith)
Stands-count m w (linked ng old sn) s = (omega (arith, s.0.0), λ z. ground arith)

-- A new pool, with every thread idle.
abbrev pub start : (next next_group : ℕ → ℕ) → System Memory Thread
start next next_group = record { shared = created next next_group; pc = new_thread }

module _ (next next_group : ℕ → ℕ) (schedule : List (ℕ × Choice))
    (few : length schedule < 2 ^ 32) where
  start-Inv : Inv 0 (start next next_group)
  start-Inv = record {
    shape = record {
      small_sn = omega arith;
      some_fresh = omega arith;
      null = refl;
      above = λ x le. refl;
      at_place = λ h i lh li. absurd (omega arith);
      exact = λ x h i e. absurd (ground arith);
      chain = λ h i lh li. absurd (omega arith);
      bottom = λ h lh. absurd (omega arith);
      global_top = refl;
      group_links = λ h lh. absurd (omega arith);
    };
    locals = λ u. record {
      listed = record {
        at_place = λ i lt. absurd (omega arith);
        exact = λ x i e. absurd (ground arith);
        chain = λ i lt. absurd (omega arith);
        bottom = λ lt. absurd (omega arith);
        no_top = λ e. refl;
        some_top = λ lt. absurd (omega arith);
      };
      stands = (omega arith, ((λ le. absurd (omega arith)), λ lt. refl));
    };
    pair = λ u w ne. ne;
  }

  explained :
      let (s, es) = run advance (start next next_group) schedule in
      Inv (0 + length schedule) s × Explains Does es (λ _. false) (holds s.shared)
  explained = pool_run-Inv schedule 0 (start next next_group) (omega arith) start-Inv

  -- From a new pool, any number of threads allocate blocks and free blocks that are held, in any order of their
  -- accesses. If the schedule is so short that the serial number of the global pool does not wrap round, then
  -- every block that is allocated is not `NULL` and is held by no caller, and from then until it is freed it is
  -- held, whatever groups move between the threads and the global pool.
  pub alloc_exclusive :
      let (s, es) = run advance (start next next_group) schedule in
      Explains Does es (λ _. false) (holds s.shared)
  alloc_exclusive = explained.1

  -- Under the same conditions, a thread has at most sixteen blocks in its list, and fewer than sixteen between
  -- its calls.
  pub count_bound :
      (u : ℕ)
      → let w = (run advance (start next next_group) schedule).0.pc u in
        (w.count ≤ 16) × (w.pc ≡ idle → w.count < 16)
  count_bound u =
      let s = (run advance (start next next_group) schedule).0 in
      Stands-count s.shared (s.pc u) (s.pc u).pc (explained.0.locals u).stands

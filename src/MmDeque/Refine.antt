-- ===== src/MmDeque/Refine.antt =====
-- deque/MMDeque.hpp: the deque of Maged Michael refines the abstract deque, whatever the schedule.
use native.Mathlib.Nat.{add-zero}
use unbounded_obstruction_fr.Base.{
  ℕ, suc, ◌+◌, ◌^◌, ◌≤◌, ◌<◌, ◌≡◌, ◌≢◌, ◌⊎◌, inl, inr, refl, arith, List, [], ◌∷◌, length,
}
use unbounded_obstruction_fr.Threads.{System, step, run, Explains, update_keeps}
use unbounded_obstruction_fr.MmDeque.{
  Link, Memory, Resume, finish, push_again, pop_again, push, pop, Choice, Pc, idle, pushing,
  push_seen, push_linked, popping, pop_seen, pop_checked, pop_ready, reading, stab_start, stab_prev,
  stab_check, stab_next, stab_recheck, stab_link, stab_settle, Event, silent, advance, created,
}
use unbounded_obstruction_fr.MmDeque.Inv.Defs.{Chain, Owns, Local, owned, private_node, Pair}
use unbounded_obstruction_fr.MmDeque.Inv.Allocs.{allocated}
use unbounded_obstruction_fr.MmDeque.Inv.View.{view, Does, none-view}
use unbounded_obstruction_fr.MmDeque.Access.Sound.{Sound, Sound-Local, loaded}
use unbounded_obstruction_fr.MmDeque.Access.Stabs.{
  stab_start-Sound, stab_prev-Sound, stab_check-Sound, stab_next-Sound, stab_recheck-Sound,
  stab_link-Sound, stab_settle-Sound,
}
use unbounded_obstruction_fr.MmDeque.Access.Pushes.{
  called_push-Sound, push_seen-Sound, push_linked-Sound,
}
use unbounded_obstruction_fr.MmDeque.Access.Pops.{
  popping-Sound, pop_seen-Sound, pop_checked-Sound, pop_ready-Sound, reading-Sound,
}
use unbounded_obstruction_fr.MmDeque.Inv.Loads.{anchor-Seen}

module _ (n : ℕ) (m : Memory) (chain : Chain n m) (few : n + 1 < 2 ^ 32) (c : Choice) where
  advance-Sound : (p : Pc) → Local m p → Sound n m p (advance c m p)
  unfolding advance
  advance-Sound idle l =
      elim c.op
        as (λ o. Sound n m idle (elim o [
          | push v ↦ (allocated n m chain v, pushing c.side v m.next, silent)
          | pop ↦ (m, popping c.side, silent)
        ])) [
          | push v ↦ called_push-Sound n m chain c.side v
          | pop ↦ loaded n m chain _ (popping c.side) tt (inl refl)
        ]
  advance-Sound (pushing side v x) me =
      loaded n m chain _ (push_seen side v x m.anchor) (anchor-Seen n m chain, me) (inr refl)
  advance-Sound (push_seen side v x a) (s, me) = push_seen-Sound n m chain few x v me c side a s
  advance-Sound (push_linked side v x a) (s, me, e, st, ne) =
      push_linked-Sound n m chain few x v me c side a s e st ne
  advance-Sound (popping side) l = popping-Sound n m chain c side
  advance-Sound (pop_seen side a) (s, ne) = pop_seen-Sound n m chain c side a s ne
  advance-Sound (pop_checked side a) (s, ne, st) = pop_checked-Sound n m chain c side a s ne st
  advance-Sound (pop_ready side a prev) (s, ne, st, f) =
      pop_ready-Sound n m chain c side a s prev ne st f
  advance-Sound (reading x v) (e, lt) = reading-Sound n m chain c x v e
  advance-Sound (stab_start side a k) l = stab_start-Sound n m chain few c side a k l
  advance-Sound (stab_prev side a k) l = stab_prev-Sound n m chain few c side a k l
  advance-Sound (stab_check side a prev k) l = stab_check-Sound n m chain few c side a prev k l
  advance-Sound (stab_next side a prev k) l = stab_next-Sound n m chain few c side a prev k l
  advance-Sound (stab_recheck side a prev l k) h =
      stab_recheck-Sound n m chain few c side a prev l k h
  advance-Sound (stab_link side a prev l k) h = stab_link-Sound n m chain few c side a prev l k h
  advance-Sound (stab_settle side a k) h = stab_settle-Sound n m chain few c side a k h

owned_allocated : (m : Memory) (k : Resume) → Owns m k → (owned k ≡ 0) ⊎ (owned k < m.next)
owned_allocated m finish o = inl refl
owned_allocated m (push_again side v x) o = inr o.allocated
owned_allocated m (pop_again side) o = inl refl

-- The node of a thread is allocated.
private-allocated :
    (m : Memory) (p : Pc) → Local m p → (private_node p ≡ 0) ⊎ (private_node p < m.next)
private-allocated m (pushing side v x) me = inr me.allocated
private-allocated m (push_seen side v x a) (s, me) = inr me.allocated
private-allocated m (push_linked side v x a) (s, me, e, st, ne) = inr me.allocated
private-allocated m (stab_start side a k) (s, e, o) = owned_allocated m k o
private-allocated m (stab_prev side a k) (s, e, o) = owned_allocated m k o
private-allocated m (stab_check side a prev k) ((s, e, o), h) = owned_allocated m k o
private-allocated m (stab_next side a prev k) ((s, e, o), f, known) = owned_allocated m k o
private-allocated m (stab_recheck side a prev l k) ((s, e, o), f, known, t, ne) =
    owned_allocated m k o
private-allocated m (stab_link side a prev l k) ((s, e, o), f, known, t, ne, race) =
    owned_allocated m k o
private-allocated m (stab_settle side a k) ((s, e, o), h) = owned_allocated m k o
private-allocated m idle l = inl refl
private-allocated m (popping side) l = inl refl
private-allocated m (pop_seen side a) l = inl refl
private-allocated m (pop_checked side a) l = inl refl
private-allocated m (pop_ready side a prev) l = inl refl
private-allocated m (reading x v) l = inl refl

-- Two threads keep different nodes.
Sound-Pair :
    (n : ℕ) (m : Memory) (p : Pc) (r : Memory × Pc × Event)
    → Sound n m p r
    → (q : Pc) → Local m q
    → Pair p q
    → Pair q p
    → Pair r.1 q × Pair q r.1
Sound-Pair n m p r s q l pq qp = ground (arith, s.mine_next, private-allocated m q l)

-- What holds after `n` accesses.
pub record Inv (n : ℕ) (s : System Memory Pc) : Type 0 where
  pub chain : Chain n s.shared
  pub local : (u : ℕ) → Local s.shared (s.pc u)
  pub pair : (u w : ℕ) → u ≢ w → Pair (s.pc u) (s.pc w)

mm_step-Inv :
    (n : ℕ) (s : System Memory Pc) (t : ℕ) (c : Choice)
    → n + 1 < 2 ^ 32
    → Inv n s
    → let (s', e) = step advance s t c in Inv (n + 1) s' × Does e (view s.shared) (view s'.shared)
unfolding step
mm_step-Inv n s t c few inv =
    let sound = advance-Sound n s.shared inv.chain few c (s.pc t) (inv.local t) in
    let r = advance c s.shared (s.pc t) in
    let (local, pair) = update_keeps advance Local Pair s t c inv.local inv.pair (
      sound.local,
      λ q l pq qp.
          let (pq', qp') = Sound-Pair n s.shared (s.pc t) r sound q l pq qp in
          (Sound-Local n s.shared (s.pc t) r sound q l pq, pq', qp'),
    ) in
    (record { chain = sound.chain; local = local; pair = pair }, sound.does)

mm_run-Inv :
    (schedule : List (ℕ × Choice)) (n : ℕ) (s : System Memory Pc)
    → n + length schedule < 2 ^ 32
    → Inv n s
    → let (s', es) = run advance s schedule in
      Inv (n + length schedule) s' × Explains Does es (view s.shared) (view s'.shared)
unfolding run
mm_run-Inv [] n s few inv = (rw add-zero inv, refl)
mm_run-Inv ((t, c) ∷ rest) n s few inv =
    let (inv', does) = mm_step-Inv n s t c (omega arith) inv in
    let (final, es) = mm_run-Inv rest (n + 1) (step advance s t c).0 (omega arith) inv' in
    let longer : n + suc (length rest) ≡ n + 1 + length rest = omega arith in
    (rw longer final, (_, does, es))

-- A new deque, with every thread idle.
abbrev pub start : (left right : ℕ → Link) → (data_of : ℕ → ℕ) → System Memory Pc
start left right data_of = record { shared = created left right data_of; pc = λ _. idle }

module _ (bound : ℕ) (left right : ℕ → Link) (data_of : ℕ → ℕ) (schedule : List (ℕ × Choice))
    (left_small : (x : ℕ) → (left x).sn ≤ bound) (right_small : (x : ℕ) → (right x).sn ≤ bound)
    (few : bound + length schedule < 2 ^ 32) where
  start-Inv : Inv bound (start left right data_of)
  start-Inv = record {
    chain = record {
      range = omega arith;
      room = omega arith;
      none_left = λ _. (refl, refl, refl);
      ends = λ lt. absurd (omega arith);
      busy = λ ne. absurd (ne refl);
      known = λ i le lt. absurd (omega arith);
      distinct = λ i j le lt gt. absurd (omega arith);
      rights = λ i le lt st. absurd (omega arith);
      lefts = λ i lt gt st. absurd (omega arith);
      null = refl;
      some_next = omega arith;
      fresh = λ x le. refl;
      left_count = left_small;
      right_count = right_small;
    };
    local = λ u. tt;
    pair = λ u w ne e. refl;
  }

  -- From a new deque, whose memory has serial numbers of at most `bound`, any number of threads push and pop
  -- at both ends, in any order of their accesses, and their weak exchanges may fail for no reason. If the
  -- schedule is so short that no serial number wraps round, then the events, each at the access where it
  -- happens, are a run of the abstract deque from the empty one to the values of the nodes, and every pop
  -- returns the value that its exchange of the anchor took.
  pub mm_linearizable :
      let (s, es) = run advance (start left right data_of) schedule in
      Explains Does es [] (view s.shared)
  mm_linearizable =
      rw (none-view (created left right data_of) refl) at
        (mm_run-Inv schedule bound (start left right data_of) few start-Inv).1

  -- Under the same conditions, the anchor has the first and the last node, or `NULL` twice, it is stable
  -- while there is at most one node, and the nodes are linked in both directions, but for the link to a node
  -- that was pushed on a side that is not yet stable.
  pub mm_run-Chain :
      Chain (bound + length schedule) (run advance (start left right data_of) schedule).0.shared
  mm_run-Chain = (mm_run-Inv schedule bound (start left right data_of) few start-Inv).0.chain

-- ===== src/WsDeque/Contended.antt =====
-- deque/WSDeque.hpp: the owner and a thief take the last value at once.
use mathlib.Core.Path.{subst}
use unbounded_obstruction_fr.Base.{
  ==_self, ℕ, ◌+◌, ◌-◌, ◌≤◌, ◌<◌, ◌≡◌, refl, sym, true, false, [], arith, ◌==◌, ltb, leb,
}
use unbounded_obstruction_fr.WsDeque.{
  Deque, Result, op_success, op_empty, size, get, put, push, pop_start, pop_finish, pop,
  steal_start, steal_finish,
}
use unbounded_obstruction_fr.WsDeque.Content.{view, IsValid, window_none}

module _ {A : Type 0} where
  popped_none : (d : Deque A) → d.bottom ≤ d.top → (pop false d).1 ≡ op_empty
  unfolding pop_start pop_finish
  popped_none d h = let none_left : leb d.bottom d.top ≡ true = ground arith in rw none_left refl

  module _ (d : Deque A) (valid : IsValid d) where
    -- The last value is stolen while the owner pops it. The thief has loaded both ends before the owner
    -- stores the bottom, and the owner has loaded the top before the thief exchanges it.
    abbrev pub contended : (Deque A × Result A) × Result A
    contended =
        let thief = steal_start d in
        let (d', owner) = pop_start d in
        let (d'', stolen) = steal_finish false d' thief in (pop_finish false d'' owner, stolen)

    abbrev left_behind : Deque A
    left_behind = record d { top = d.top + 1; bottom = d.bottom - 1 }

    contended-left_behind :
        d.bottom ≡ d.top + 1 → contended ≡ ((left_behind, op_empty), op_success (get d.ring d.top))
    unfolding pop_start pop_finish steal_start steal_finish get
    contended-left_behind one =
        let some_left : leb d.bottom d.top ≡ false = ground arith in
        let last : ltb (d.top + 1) d.bottom ≡ false = ground arith in
        let moved : (d.top + 1 == d.top) ≡ false = ground arith in
        rw (some_left, last, ==_self d.top, moved) refl

    pushed-left_behind :
        d.bottom ≡ d.top + 1
        → (raw : ℕ → A) (v : A)
        → push raw v left_behind
          ≡ record left_behind { ring = put d.ring (d.bottom - 1) v; bottom = d.bottom - 1 + 1 }
    unfolding push
    pushed-left_behind one raw v =
        let free : leb (d.top + 1 + size d.ring) (d.bottom - 1 + 1) ≡ false =
          ground (arith, valid.room) in
        rw free refl

    -- The thief has the value, the pop finds the deque empty and leaves the bottom below the top, and a
    -- value that is then pushed is not in the deque, so that the next pop finds it empty.
    abbrev LosesPush : (raw : ℕ → A) → A → (Deque A × Result A) × Result A → Type 0
    LosesPush raw v ((d', popped), stolen) =
        (stolen ≡ op_success (get d.ring d.top))
        × (popped ≡ op_empty)
        × (d'.bottom < d'.top)
        × (view (push raw v d') ≡ [])
        × ((pop false (push raw v d')).1 ≡ op_empty)

    -- If a thief takes the last value between the owner's load of the top and its exchange, the owner's
    -- pop leaves the bottom below the top, and the value that it pushes next is lost.
    pub contended-LosesPush :
        d.bottom ≡ d.top + 1
        → (raw : ℕ → A) (v : A)
        → let ((d', popped), stolen) = contended in
          (stolen ≡ op_success (get d.ring d.top))
          × (popped ≡ op_empty)
          × (d'.bottom < d'.top)
          × (view (push raw v d') ≡ [])
          × ((pop false (push raw v d')).1 ≡ op_empty)
    contended-LosesPush one raw v =
        let pushed = record left_behind {
          ring = put d.ring (d.bottom - 1) v;
          bottom = d.bottom - 1 + 1;
        } in
        subst (LosesPush raw v) (sym (contended-left_behind one)) (
          refl,
          refl,
          omega (arith, one),
          subst (λ (x : Deque A). view x ≡ []) (sym (pushed-left_behind one raw v))
              (window_none (get pushed.ring) (d.top + 1) (omega (arith, one))),
          subst (λ (x : Deque A). (pop false x).1 ≡ op_empty) (sym (pushed-left_behind one raw v))
              (popped_none pushed (omega (arith, one))),
        )

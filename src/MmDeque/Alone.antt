-- ===== src/MmDeque/Alone.antt =====
-- deque/MMDeque.hpp: a thread that runs alone finishes its operation.
use unbounded_obstruction_fr.Base.{
  ℕ, ◌+◌, ◌≤◌, ◌≡◌, ◌⊎◌, inl, inr, refl, ◌∙◌, ap, arith, true, false, ◌==◌, Bool-cases, List, [],
  ◌∷◌, update,
}
use unbounded_obstruction_fr.OfDeque.Slot.{Side, side_left, side_right}
use unbounded_obstruction_fr.MmDeque.{
  Anchor, Memory, finish, push_again, pop_again, Op, push, pop, Choice, Pc, idle, pushing,
  push_seen, push_linked, popping, pop_seen, pop_checked, pop_ready, reading, stab_start, Event,
  silent, pushed, popped, returned, found_empty, end_of, inward, set_inward, is_stable,
  first_anchor, pushed_anchor, popped_anchor, join, leave, advance,
}
use unbounded_obstruction_fr.MmDeque.Turns.{
  add, alone, Reaches, done, turn, same_anchor_self, set_inward_anchor, cas_sure, stabilize_alone,
  join_anchor, busy_side, settled_end,
}

module _ (c : Choice) (sure : c.spurious ≡ false) (side : Side) (v x : ℕ) where
  abbrev Pushed : Memory → Pc → List Event → Type 0
  Pushed m q es = (q ≡ idle) × (es ≡ pushed side v ∷ [])

  abbrev Returns : Memory → Pc → List Event → Type 0
  Returns m q es = Pushed m q (add (pushed side v) es)

  stable_push :
      (m : Memory)
      → is_stable m.anchor ≡ true
      → (end_of side m.anchor == 0) ≡ false
      → Reaches c m (pushing side v x) 10 Pushed
  unfolding advance
  stable_push m st ne =
      let a : Anchor = m.anchor in
      let m₁ : Memory = set_inward side x (record { ptr = end_of side a; sn = 0 }) m in
      let a₂ : Anchor = pushed_anchor side x a in
      turn c Pushed m _ m (push_seen side v x a) silent 9 refl (
        turn c Pushed m _ m₁ (push_linked side v x a) silent 8 (rw (ne, st) refl) (
          turn c Pushed m₁ _ (join side x a₂ m₁) (stab_start side a₂ finish) (pushed side v) 7
            (rw (cas_sure c sure Returns m₁ a (set_inward_anchor side x _ m)) refl)
            (stabilize_alone c sure Returns side a₂ finish (join side x a₂ m₁) 0
              (join_anchor side x a₂ m₁) (λ m' e. done c Returns m' idle 0 (refl, refl)))))

  try_push : (m : Memory) → Reaches c m (pushing side v x) 19 Pushed
  unfolding advance
  try_push m = elim (Bool-cases (end_of side m.anchor == 0)) [
    | inl none ↦ turn c Pushed m _ m (push_seen side v x m.anchor) silent 18 refl (
        turn c Pushed m _ (join side x (first_anchor x m.anchor.status) m) idle (pushed side v) 17
          (rw (none, cas_sure c sure Pushed m m.anchor refl) refl)
          (done c Returns _ idle 17 (refl, refl)))
    | inr ne ↦ elim (Bool-cases (is_stable m.anchor)) [
      | inl st ↦ let (k, le, q) = stable_push m st ne in (k, omega arith, q)
      | inr busy ↦
          let (t, start, same) = busy_side m.anchor (push_again side v x) busy in
          turn c Pushed m _ m (push_seen side v x m.anchor) silent 18 refl (
            turn c Pushed m _ m (stab_start t m.anchor (push_again side v x)) silent 17
              (rw (ne, busy, start) refl)
              (stabilize_alone c sure Pushed t m.anchor (push_again side v x) m 10 refl (λ m' e.
                stable_push m' (ap is_stable e) (
                  ap (λ b. end_of side b == 0) e
                  ∙ ap (λ y. y == 0) (settled_end side m.anchor)
                  ∙ ne))))
    ]
  ]

module _ (c : Choice) (sure : c.spurious ≡ false) (side : Side) where
  abbrev Popped : Memory → Pc → List Event → Type 0
  Popped m q es =
      (q ≡ idle) × ((es ≡ found_empty ∷ []) ⊎ ((w : ℕ) × (es ≡ popped side w ∷ returned w w ∷ [])))

  -- After the exchange of a pop that took `w`.
  abbrev Took : (w : ℕ) → Memory → Pc → List Event → Type 0
  Took w m q es = Popped m q (add (popped side w) es)

  abbrev Answered : (w w' : ℕ) → Memory → Pc → List Event → Type 0
  Answered w w' m q es = Took w m q (add (returned w' w) es)

  abbrev FoundEmpty : Memory → Pc → List Event → Type 0
  FoundEmpty m q es = Popped m q (add found_empty es)

  read_alone : (m : Memory) (x w : ℕ) → m.data_of x ≡ w → Reaches c m (reading x w) 1 (Took w)
  unfolding advance
  read_alone m x w e =
      turn c (Took w) m (reading x w) m idle (returned (m.data_of x) w) 0 refl
        (done c (Answered w (m.data_of x)) m idle 0 (refl, inr (w, rw e refl)))

  leave_data : (a : Anchor) (m : Memory) (x : ℕ) → (leave side a m).data_of x ≡ m.data_of x
  leave_data a m x = elim side as (λ s. (leave s a m).data_of x ≡ m.data_of x) [
    | side_left ↦ refl
    | side_right ↦ refl
  ]

  one_pop :
      (m : Memory)
      → (end_of side m.anchor == 0) ≡ false
      → (m.anchor.left == m.anchor.right) ≡ true
      → Reaches c m (popping side) 3 Popped
  unfolding advance
  one_pop m ne one =
      let a : Anchor = m.anchor in
      let w : ℕ = m.data_of (end_of side a) in
      let m₁ : Memory = leave side (first_anchor 0 a.status) m in
      turn c Popped m (popping side) m (pop_seen side a) silent 2 (rw ne refl) (
        turn c Popped m (pop_seen side a) m₁ (reading (end_of side a) w) (popped side w) 1
          (rw (one, cas_sure c sure Popped m a refl) refl)
          (read_alone m₁ (end_of side a) w
            (leave_data (first_anchor 0 a.status) m (end_of side a))))

  stable_pop :
      (m : Memory)
      → is_stable m.anchor ≡ true
      → (end_of side m.anchor == 0) ≡ false
      → (m.anchor.left == m.anchor.right) ≡ false
      → Reaches c m (popping side) 5 Popped
  unfolding advance
  stable_pop m st ne two =
      let a : Anchor = m.anchor in
      let w : ℕ = m.data_of (end_of side a) in
      let prev : ℕ = (inward side m (end_of side a)).ptr in
      let m₁ : Memory = leave side (popped_anchor side prev a) m in
      turn c Popped m (popping side) m (pop_seen side a) silent 4 (rw ne refl) (
        turn c Popped m (pop_seen side a) m (pop_checked side a) silent 3
          (rw (two, st, same_anchor_self a) refl)
          (turn c Popped m (pop_checked side a) m (pop_ready side a prev) silent 2 refl (
            turn c Popped m (pop_ready side a prev) m₁ (reading (end_of side a) w) (popped side w) 1
              (rw (cas_sure c sure Popped m a refl) refl)
              (read_alone m₁ (end_of side a) w
                (leave_data (popped_anchor side prev a) m (end_of side a))))))

  try_pop : (m : Memory) → Reaches c m (popping side) 14 Popped
  unfolding advance
  try_pop m = elim (Bool-cases (end_of side m.anchor == 0)) [
    | inl none ↦
        turn c Popped m (popping side) m idle found_empty 13 (rw none refl)
          (done c FoundEmpty m idle 13 (refl, inl refl))
    | inr ne ↦ elim (Bool-cases (m.anchor.left == m.anchor.right)) [
      | inl one ↦ let (k, le, q) = one_pop m ne one in (k, omega arith, q)
      | inr two ↦ elim (Bool-cases (is_stable m.anchor)) [
        | inl st ↦ let (k, le, q) = stable_pop m st ne two in (k, omega arith, q)
        | inr busy ↦
            let (t, start, same) = busy_side m.anchor (pop_again side) busy in
            turn c Popped m (popping side) m (pop_seen side m.anchor) silent 13 (rw ne refl) (
              turn c Popped m (pop_seen side m.anchor) m (stab_start t m.anchor (pop_again side))
                silent 12 (rw (two, busy, start) refl)
                (stabilize_alone c sure Popped t m.anchor (pop_again side) m 5 refl (λ m' e.
                  stable_pop m' (ap is_stable e)
                    (ap (λ b. end_of side b == 0) e
                      ∙ ap (λ y. y == 0) (settled_end side m.anchor)
                      ∙ ne)
                    (ap (λ b. b.left == b.right) e ∙ two))))
      ]
    ]
  ]

-- What an operation that finishes has done: a push has pushed its value, and a pop has found the deque empty, or
-- has taken a value and returned it.
abbrev pub Answers : Op → Side → List Event → Type 0
Answers (push v) side es = es ≡ pushed side v ∷ []
Answers pop side es = (es ≡ found_empty ∷ []) ⊎ ((w : ℕ) × (es ≡ popped side w ∷ returned w w ∷ []))

module _ (c : Choice) (sure : c.spurious ≡ false) (m : Memory) where
  call_alone :
      (o : Op) → c.op ≡ o → Reaches c m idle 20 (λ m' q es. (q ≡ idle) × Answers o c.side es)
  unfolding advance
  call_alone (push v) e =
      let m₁ : Memory = record m { data_of = update m.data_of m.next v; next = m.next + 1 } in
      turn c (Pushed c sure c.side v m.next) m idle m₁ (pushing c.side v m.next) silent 19
        (rw e refl) (try_push c sure c.side v m.next m₁)
  call_alone pop e =
      let (k, le, q) =
        turn c (Popped c sure c.side) m idle m (popping c.side) silent 14 (rw e refl)
          (try_pop c sure c.side m) in
      (k, omega arith, q)

  -- Obstruction freedom: from any memory, at most twenty accesses of a thread that runs alone, and whose exchanges
  -- do not fail for no reason, finish its operation: a push pushes its value once, and a pop finds the deque empty,
  -- or takes one value and returns it.
  pub mm_finishes :
      (k : ℕ) × (k ≤ 20)
      × (let (m', q, es) = alone k c m idle in (q ≡ idle) × Answers c.op c.side es)
  mm_finishes = call_alone c.op refl

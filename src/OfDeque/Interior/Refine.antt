-- ===== src/OfDeque/Interior/Refine.antt =====
-- The interior branches refine the abstract deque, whatever the schedule.
use native.Mathlib.Nat.{add-zero}
use unbounded_obstruction_fr.Base.{
  ℕ, suc, ◌+◌, ◌-◌, ◌^◌, ◌≤◌, ◌<◌, ◌≡◌, ◌≢◌, refl, Bool, true, false, Bool-cases, inl, inr, some,
  List, [], ◌∷◌, ◌++◌, append-nil, update, arith, ◌==◌, ◌&&◌, length,
}
use unbounded_obstruction_fr.Spec.{push_left, push_right, pop_left, pop_right, pop_right-push_right}
use unbounded_obstruction_fr.OfDeque.Slot.{
  type_value, Side, side_left, side_right, Slot, far_type, near_type, far_index, same_slot,
  same_type, Buffer, move_hint, edge_ok, fill, bump,
}
use unbounded_obstruction_fr.OfDeque.Interior.{
  Choice, Pc, idle, looping, near_loaded, edge_loaded, checked, armed, hinting, push, pop, interior,
  advance, contents, values, Event, silent, pushed, popped, found_empty, System, step, run,
}
use unbounded_obstruction_fr.OfDeque.Interior.Inv.{
  Slots, Shape, Edge, Local, Pair, Inv, Pair-self, values_none, contents-write, values-around,
  values_left, values_right, same_slot_eq, Kept, advance-Kept,
}
use unbounded_obstruction_fr.OfDeque.Interior.Unsealed.{Unsealed, run-Unsealed, fill-Unsealed}

-- What an event does to the abstract deque.
abbrev pub Does : Event → List ℕ → List ℕ → Type 0
Does silent l l' = l' ≡ l
Does (pushed side_left v) l l' = l' ≡ push_left v l
Does (pushed side_right v) l l' = l' ≡ push_right v l
Does (popped side_left v) l l' = pop_left l ≡ some (v, l')
Does (popped side_right v) l l' = pop_right l ≡ some (v, l')
Does (found_empty _ seen) l l' = (seen ≡ []) × (l' ≡ l)

module _ (size : ℕ) (b : Buffer) (shape : Shape size b.slots) where
  one_value : (f : Slots) (j : ℕ) → (f j).type ≡ type_value → values f j 1 ≡ (f j).word ∷ []
  unfolding values
  one_value f j h = ground arith

  no_value : (f : Slots) (j : ℕ) → (f j).type ≢ type_value → values f j 1 ≡ []
  unfolding values
  no_value f j h = ground arith

  around :
      (j : ℕ)
      → j < size
      → contents size b
        ≡ values b.slots 0 j ++ (values b.slots j 1 ++ values b.slots (j + 1) (size - (j + 1)))
  unfolding contents
  around j h = values-around size b.slots j h

  write_around :
      (j : ℕ) (s : Slot)
      → j < size
      → contents size (record b { slots = update b.slots j s })
        ≡ values b.slots 0 j
          ++ (values (update b.slots j s) j 1 ++ values b.slots (j + 1) (size - (j + 1)))
  unfolding contents
  write_around j s h = contents-write size b.slots j s h

  abbrev after : ℕ → Slot → List ℕ
  after j s = contents size (record b { slots = update b.slots j s })

  bumped-Does :
      (j : ℕ) (exp : Slot)
      → j < size
      → b.slots j ≡ exp
      → after j (record exp { count = bump exp.count }) ≡ contents size b
  unfolding values
  bumped-Does j exp h at =
      ground (arith, around j h, write_around j (record exp { count = bump exp.count }) h)

  pushed-Does :
      (side : Side) (v i : ℕ) (near far s : Slot)
      → s.type ≡ type_value
      → b.slots (far_index side i) ≡ far
      → Local size b.slots (armed side (push v) i near far)
      → s.word ≡ v
      → Does (pushed side v) (contents size b) (after (far_index side i) s)
  unfolding push_left push_right values
  pushed-Does side_left v i near far s e at l w = ground (
    arith,
    around (i - 1),
    write_around (i - 1) s,
    values_left size b.slots shape (i - 1) 0 (i - 1),
  )
  pushed-Does side_right v i near far s e at l w = ground (
    arith,
    around (i + 1),
    write_around (i + 1) s,
    values_right size b.slots shape (i + 1) (i + 1 + 1) (size - (i + 1 + 1)),
    append-nil (values b.slots 0 (i + 1)),
  )

  popped-Does :
      (side : Side) (i : ℕ) (near far s : Slot)
      → s.type ≡ far_type side
      → b.slots i ≡ near
      → Local size b.slots (armed side pop i near far)
      → Does (popped side near.word) (contents size b) (after i s)
  unfolding pop_left push_right values
  popped-Does side_left i near far s e at l =
      ground (arith, around i, write_around i s, values_left size b.slots shape (i - 1) 0 i)
  popped-Does side_right i near far s e at l = ground (
    arith,
    around i,
    write_around i s,
    values_right size b.slots shape (i + 1) (i + 1) (size - (i + 1)),
    append-nil (values b.slots 0 i),
    pop_right-push_right near.word (values b.slots 0 i),
  )

  hints-Does :
      (side : Side) (outwards : Bool) → contents size (move_hint b side outwards) ≡ contents size b
  unfolding move_hint contents
  hints-Does side_left true = refl
  hints-Does side_left false = refl
  hints-Does side_right true = refl
  hints-Does side_right false = refl

  in_range :
      (side : Side) (i : ℕ) {near far : Slot}
      → Edge size side i near far
      → (i < size) × (far_index side i < size)
  in_range side_left i e = ground arith
  in_range side_right i e = ground arith

  -- Every access does to the contents what its event says.
  advance-Does :
      (c : Choice) (p : Pc)
      → Local size b.slots p
      → let (b', p', e) = advance size c b p in Does e (contents size b) (contents size b')
  unfolding advance
  advance-Does c idle l = refl
  advance-Does c (looping side op) l = elim (Bool-cases (interior size side c.edge)) [
    | inl hit ↦ rw hit refl
    | inr miss ↦ rw miss refl
  ]
  advance-Does c (near_loaded side op i near) l =
      elim (Bool-cases (edge_ok size side i near (b.slots (far_index side i)))) [
        | inl hit ↦ rw hit refl
        | inr miss ↦ rw miss refl
      ]
  advance-Does c (edge_loaded side (push v) i near far seen) l = refl
  advance-Does c (edge_loaded side pop i near far seen) l =
      elim (Bool-cases (same_type near.type (near_type side) && (b.slots i).count == near.count)) [
        | inl hit ↦ rw hit (l.3 (ground arith) (ground arith), refl)
        | inr miss ↦ rw miss refl
      ]
  advance-Does c (checked side (push v) i near far) l =
      elim (Bool-cases (same_slot (b.slots i) near)) [
        | inl hit ↦ rw hit (bumped-Does i near (in_range side i l.0).0 (same_slot_eq _ _ hit))
        | inr miss ↦ rw miss refl
      ]
  advance-Does c (checked side pop i near far) l =
      elim (Bool-cases (same_slot (b.slots (far_index side i)) far)) [
        | inl hit ↦
            rw hit
              (bumped-Does (far_index side i) far (in_range side i l.0).1 (same_slot_eq _ _ hit))
        | inr miss ↦ rw miss refl
      ]
  advance-Does c (armed side (push v) i near far) l =
      elim (Bool-cases (same_slot (b.slots (far_index side i)) far)) [
        | inl hit ↦ rw hit (pushed-Does side v i near far _ refl (same_slot_eq _ _ hit) l refl)
        | inr miss ↦ rw miss refl
      ]
  advance-Does c (armed side pop i near far) l = elim (Bool-cases (same_slot (b.slots i) near)) [
    | inl hit ↦ rw hit (popped-Does side i near far _ refl (same_slot_eq _ _ hit) l)
    | inr miss ↦ rw miss refl
  ]
  advance-Does c (hinting side outwards) l = hints-Does side outwards

abbrev pub InvOf : ℕ → ℕ → System → Type 0
InvOf size bound s = Inv size bound s.buffer.slots s.pc

-- A step of any thread keeps the invariant, as long as the counters do not wrap round.
pub step-Inv :
    (size bound : ℕ) (s : System) (t : ℕ) (c : Choice)
    → suc bound < 2 ^ 30
    → InvOf size bound s
    → InvOf size (suc bound) (step size s t c).0
unfolding step
step-Inv size bound s t c few inv = record {
  shape = k.shape;
  small = k.small;
  local = local';
  pair = pair';
}
  where
    k :
        Kept size bound s.buffer.slots
          (advance size c s.buffer (s.pc t)).0.slots
          (s.pc t)
          (advance size c s.buffer (s.pc t)).1
    k = advance-Kept s.buffer inv.shape inv.small few c (s.pc t) (inv.local t)

    local' :
        (u : ℕ)
        → Local size
            (advance size c s.buffer (s.pc t)).0.slots
            (update s.pc t (advance size c s.buffer (s.pc t)).1 u)
    local' u = elim (Bool-cases (t == u)) [
      | inl hit ↦ rw hit k.local
      | inr miss ↦ rw miss (k.others (s.pc u) (inv.local u) (inv.pair t u) (inv.pair u t))
    ]

    pair' :
        (u w : ℕ)
        → Pair
            (update s.pc t (advance size c s.buffer (s.pc t)).1 u)
            (update s.pc t (advance size c s.buffer (s.pc t)).1 w)
    pair' u w = elim (Bool-cases (t == u)) [
      | inl hit ↦ elim (Bool-cases (t == w)) [
        | inl hit' ↦ rw (hit, hit') (Pair-self (advance size c s.buffer (s.pc t)).1)
        | inr miss ↦ rw (hit, miss) (k.pair_left (s.pc w) (inv.local w) (inv.pair t w))
      ]
      | inr miss ↦ elim (Bool-cases (t == w)) [
        | inl hit ↦ rw (hit, miss) (k.pair_right (s.pc u) (inv.local u) (inv.pair u t))
        | inr miss' ↦ rw (miss, miss') (inv.pair u w)
      ]
    ]

pub step-Does :
    (size bound : ℕ) (s : System) (t : ℕ) (c : Choice)
    → InvOf size bound s
    → let (s', e) = step size s t c in Does e (contents size s.buffer) (contents size s'.buffer)
unfolding step
step-Does size bound s t c inv = advance-Does size s.buffer inv.shape c (s.pc t) (inv.local t)

-- A sequence of events leads from one content of the abstract deque to another.
abbrev pub Explains : List Event → List ℕ → List ℕ → Type 0
Explains [] l l' = l' ≡ l
Explains (e ∷ es) l l' = (m : List ℕ) × Does e l m × Explains es m l'

run-Explains :
    (size bound : ℕ) (s : System) (schedule : List (ℕ × Choice))
    → bound + length schedule < 2 ^ 30
    → InvOf size bound s
    → let (s', es) = run size s schedule in
      Explains es (contents size s.buffer) (contents size s'.buffer)
      × InvOf size (bound + length schedule) s'
unfolding run
run-Explains size bound s [] few inv = (refl, rw add-zero inv)
run-Explains size bound s ((t, c) ∷ rest) few inv =
    let (es, inv') =
      run-Explains size (suc bound) (step size s t c).0 rest (omega arith)
        (step-Inv size bound s t c (omega arith) inv) in
    let longer : bound + suc (length rest) ≡ suc bound + length rest = omega arith in
    ((_, step-Does size bound s t c inv, es), rw longer inv')

-- A new buffer with every thread idle.
abbrev pub start : (ℕ → Slot) → ℕ → System
start raw split = record { buffer = fill raw split; pc = λ _. idle }

fill-Shape : (size split : ℕ) (raw : ℕ → Slot) → Shape size (fill raw split).slots
unfolding fill
fill-Shape size split raw i h = ground arith

fill-contents : (size split : ℕ) (raw : ℕ → Slot) → contents size (fill raw split) ≡ []
unfolding contents fill
fill-contents size split raw = values_none (fill raw split).slots 0 size (λ i _ _. ground arith)

start-Inv :
    (size bound split : ℕ) (raw : ℕ → Slot)
    → ((i : ℕ) → (raw i).count ≤ bound)
    → InvOf size bound (start raw split)
unfolding fill
start-Inv size bound split raw small = record {
  shape = fill-Shape size split raw;
  small = small;
  local = λ t. tt;
  pair = λ t u. tt;
}

module _ (size bound split : ℕ) (raw : ℕ → Slot) (schedule : List (ℕ × Choice))
    (small : (i : ℕ) → (raw i).count ≤ bound) (few : bound + length schedule < 2 ^ 30) where
  explained :
      let (s, es) = run size (start raw split) schedule in
      Explains es (contents size (start raw split).buffer) (contents size s.buffer)
      × InvOf size (bound + length schedule) s
  explained =
      run-Explains size bound (start raw split) schedule few (start-Inv size bound split raw small)

  -- From a new buffer, whose counters start at most at `bound`, and for every schedule so short that
  -- no counter wraps round: the events, each at the access where it happens, are a run of the abstract
  -- deque from the empty one to the contents of the buffer, and what a pop that finds the deque empty
  -- has seen is empty.
  pub interior_linearizable :
      let (s, es) = run size (start raw split) schedule in Explains es [] (contents size s.buffer)
  interior_linearizable = rw (fill-contents size split raw) at explained.0

  -- Under the same conditions, the buffer is left nulls, then values, then right nulls, and nothing in
  -- it is sealed.
  pub interior-Shape :
      let b = (run size (start raw split) schedule).0.buffer in
      Shape size b.slots × Unsealed b.slots
  interior-Shape =
      (explained.1.shape, run-Unsealed size schedule (start raw split) (fill-Unsealed raw split))

-- ===== src/OfDeque/Interior/Unsealed.antt =====
-- deque/OFDeque.hpp: the interior branches seal no slot.
use unbounded_obstruction_fr.Base.{
  ℕ, ◌≡◌, ◌≢◌, ap, ◌∙◌, Bool, true, false, Bool-cases, inl, inr, List, [], ◌∷◌, arith, ◌==◌, ◌&&◌,
}
use unbounded_obstruction_fr.OfDeque.Slot.{
  type_sealed, Side, side_left, side_right, Slot, far_type, near_type, far_index, same_slot,
  same_type, Buffer, move_hint, edge_ok, fill, cas_slot, cas_safe, cas_type, cas_value,
}
use unbounded_obstruction_fr.OfDeque.Interior.{
  Choice, Pc, idle, looping, near_loaded, edge_loaded, checked, armed, hinting, push, pop, interior,
  advance, after_cas, Event, System, step, run,
}
use unbounded_obstruction_fr.OfDeque.Interior.Inv.{Slots, same_slot_eq}

-- No slot is sealed.
abbrev pub Unsealed : Slots → Type 0
Unsealed b = (i : ℕ) → (b i).type ≢ type_sealed

cas-Unsealed :
    (b : Buffer) (i : ℕ) (exp s : Slot)
    → (b.slots i ≡ exp → s.type ≢ type_sealed)
    → Unsealed b.slots
    → Unsealed (cas_slot b i exp s).1.slots
cas-Unsealed b i exp s new old j = elim (Bool-cases (same_slot (b.slots i) exp)) [
  | inl hit ↦ rw hit (elim (Bool-cases (i == j)) [
    | inl e ↦ rw e (new (same_slot_eq (b.slots i) exp hit))
    | inr e ↦ rw e (old j)
  ])
  | inr miss ↦ rw miss (old j)
]

safe-Unsealed :
    (b : Buffer) (i : ℕ) (exp : Slot) → Unsealed b.slots → Unsealed (cas_safe b i exp).1.slots
unfolding cas_safe
safe-Unsealed b i exp old = cas-Unsealed b i exp _ (λ e z. old i (ap (λ s. s.type) e ∙ z)) old

value-Unsealed :
    (b : Buffer) (i : ℕ) (exp : Slot) (v : ℕ)
    → Unsealed b.slots
    → Unsealed (cas_value b i exp v).1.slots
unfolding cas_value
value-Unsealed b i exp v old = cas-Unsealed b i exp _ (λ e z. ground arith) old

far_unsealed : (side : Side) → far_type side ≢ type_sealed
far_unsealed side_left e = ground arith
far_unsealed side_right e = ground arith

type-Unsealed :
    (b : Buffer) (i : ℕ) (exp : Slot) (side : Side) (junk : ℕ)
    → Unsealed b.slots
    → Unsealed (cas_type b i exp (far_type side) junk).1.slots
unfolding cas_type
type-Unsealed b i exp side junk old = cas-Unsealed b i exp _ (λ e. far_unsealed side) old

hint-Unsealed :
    (b : Buffer) (side : Side) (outwards : Bool)
    → Unsealed b.slots
    → Unsealed (move_hint b side outwards).slots
unfolding move_hint
hint-Unsealed b side_left true old = old
hint-Unsealed b side_left false old = old
hint-Unsealed b side_right true old = old
hint-Unsealed b side_right false old = old

after-Unsealed :
    (size : ℕ) (r : Bool × Buffer) (won lost : Pc) (e : Event)
    → Unsealed r.1.slots
    → Unsealed (after_cas size r won lost e).0.slots
after-Unsealed size (true, b) won lost e old = old
after-Unsealed size (false, b) won lost e old = old

module _ (size : ℕ) where
  advance-Unsealed :
      (c : Choice) (b : Buffer) (p : Pc) → Unsealed b.slots → Unsealed (advance size c b p).0.slots
  unfolding advance
  advance-Unsealed c b idle old = old
  advance-Unsealed c b (looping side op) old = elim (Bool-cases (interior size side c.edge)) [
    | inl e ↦ rw e old
    | inr e ↦ rw e old
  ]
  advance-Unsealed c b (near_loaded side op i near) old =
      elim (Bool-cases (edge_ok size side i near (b.slots (far_index side i)))) [
        | inl e ↦ rw e old
        | inr e ↦ rw e old
      ]
  advance-Unsealed c b (edge_loaded side (push v) i near far seen) old = old
  advance-Unsealed c b (edge_loaded side pop i near far seen) old =
      elim (Bool-cases (same_type near.type (near_type side) && (b.slots i).count == near.count)) [
        | inl e ↦ rw e old
        | inr e ↦ rw e old
      ]
  advance-Unsealed c b (checked side (push v) i near far) old =
      after-Unsealed size (cas_safe b i near) _ _ _ (safe-Unsealed b i near old)
  advance-Unsealed c b (checked side pop i near far) old =
      after-Unsealed size (cas_safe b (far_index side i) far) _ _ _
        (safe-Unsealed b (far_index side i) far old)
  advance-Unsealed c b (armed side (push v) i near far) old =
      after-Unsealed size (cas_value b (far_index side i) far v) _ _ _
        (value-Unsealed b (far_index side i) far v old)
  advance-Unsealed c b (armed side pop i near far) old =
      after-Unsealed size (cas_type b i near (far_type side) c.junk) _ _ _
        (type-Unsealed b i near side c.junk old)
  advance-Unsealed c b (hinting side outwards) old = hint-Unsealed b side outwards old

  pub run-Unsealed :
      (schedule : List (ℕ × Choice)) (s : System)
      → Unsealed s.buffer.slots
      → Unsealed (run size s schedule).0.buffer.slots
  unfolding run step
  run-Unsealed [] s old = old
  run-Unsealed ((t, c) ∷ rest) s old =
      run-Unsealed rest (step size s t c).0 (advance-Unsealed c s.buffer (s.pc t) old)

pub fill-Unsealed : (raw : ℕ → Slot) (split : ℕ) → Unsealed (fill raw split).slots
unfolding fill
fill-Unsealed raw split i e = ground arith

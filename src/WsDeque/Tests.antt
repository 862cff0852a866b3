-- ===== src/WsDeque/Tests.antt =====
-- Calls of the work-stealing deque, and the theorems at them.
use unbounded_obstruction_fr.Base.{
  Bool-cases, inl, inr, some, ◌==◌, if◌then◌else◌, ℕ, ◌<◌, ◌≡◌, refl, false, [], ◌∷◌, arith,
}
use unbounded_obstruction_fr.Spec.{push_right, pop_left, pop_right}
use unbounded_obstruction_fr.WsDeque.{
  Deque, op_success, op_empty, pop_start, pop_finish, steal_start, steal_finish, push, pop, steal,
  get, put, grow, copied,
}
use unbounded_obstruction_fr.WsDeque.Content.{Answers, view, IsValid}
use unbounded_obstruction_fr.WsDeque.Refine.{push-view, pop-view, steal-view}
use unbounded_obstruction_fr.WsDeque.Queue.{dequeue, steal_from}
use unbounded_obstruction_fr.WsDeque.Queue.Refine.{Dequeued, dequeue-Dequeued}
use unbounded_obstruction_fr.WsDeque.Contended.{contended, contended-LosesPush}

-- A ring of four places, of which three are taken across its end.
abbrev full : Deque ℕ
full = record { top = 3; bottom = 6; ring = record { logsize = 2; arr = λ i. i }; retired = [] }

abbrev raw : ℕ → ℕ
raw i = 99

grown : view (push raw 7 full) ≡ 3 ∷ 0 ∷ 1 ∷ 7 ∷ []
unfolding push grow copied put get
grown = refl

full-IsValid : IsValid full
full-IsValid = record { ordered = omega arith; room = omega arith }

push-view_example : IsValid (push raw 7 full) × (view (push raw 7 full) ≡ push_right 7 (view full))
push-view_example = push-view full full-IsValid raw 7

pop-view_example : IsValid (pop false full).0 × Answers (pop_right (view full)) (pop false full)
pop-view_example = pop-view full full-IsValid

steal-view_example :
    IsValid (steal false full).0 × Answers (pop_left (view full)) (steal false full)
steal-view_example = steal-view full full-IsValid

abbrev last : Deque ℕ
last = record { top = 3; bottom = 4; ring = record { logsize = 2; arr = λ i. i }; retired = [] }

last-IsValid : IsValid last
last-IsValid = record { ordered = omega arith; room = omega arith }

contended-LosesPush_example :
    let ((d', popped), stolen) = contended last last-IsValid in
    (stolen ≡ op_success 3)
    × (popped ≡ op_empty)
    × (d'.bottom < d'.top)
    × (view (push raw 7 d') ≡ [])
    × ((pop false (push raw 7 d')).1 ≡ op_empty)
unfolding get
contended-LosesPush_example = contended-LosesPush last last-IsValid refl raw 7

-- Thread 0 has an empty deque, the others three values each.
abbrev deques : ℕ → Deque ℕ
deques j =
    if j == 0
    then record { top = 2; bottom = 2; ring = record { logsize = 2; arr = λ i. i }; retired = [] }
    else full

deques-IsValid : (j : ℕ) → IsValid (deques j)
deques-IsValid j = elim (Bool-cases (j == 0)) [
  | inl e ↦ rw e (record { ordered = omega arith; room = omega arith })
  | inr e ↦ rw e full-IsValid
]

stolen : (dequeue (λ i. i) (λ i. false) 3 0 deques).0 ≡ some 3
unfolding dequeue steal_from pop_start pop_finish steal_start steal_finish get
stolen = refl

dequeue-Dequeued_example :
    Dequeued (λ i. i) (λ i. false) 3 0 (λ i. refl) deques (dequeue (λ i. i) (λ i. false) 3 0 deques)
dequeue-Dequeued_example =
    dequeue-Dequeued (λ i. i) (λ i. false) 3 0 (λ i. refl) deques deques-IsValid

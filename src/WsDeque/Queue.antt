-- ===== src/WsDeque/Queue.antt =====
-- deque/WSDeque.hpp: `enqueue` and `dequeue` of the deques of all threads, in calls that no other
-- thread interrupts.
pub mod Refine
use unbounded_obstruction_fr.Base.{
  ℕ, zero, suc, ◌+◌, ◌-◌, ◌%◌, ◌<◌, ◌≤◌, ◌≡◌, ◌≢◌, refl, sym, ap, ◌∙◌, Bool, true, false,
  Bool-cases, inl, inr, Option, none, some, List, [], ◌∷◌, arith, ◌==◌, ==_self, ==-ne, ==_apart,
  ==_iff, update, if◌then◌else◌, Option-cases,
}
use unbounded_obstruction_fr.Spec.{push_right, pop_left, pop_right}
use unbounded_obstruction_fr.WsDeque.{
  Deque, Result, op_success, op_empty, op_abort, push, pop, steal,
}
use unbounded_obstruction_fr.WsDeque.Content.{Answers, view, IsValid}
use unbounded_obstruction_fr.WsDeque.Refine.{push-view, pop-view, steal-view}

module _ {A : Type 0} where
  abbrev pub enqueue : (raw : ℕ → A) → A → (tid : ℕ) → (ℕ → Deque A) → ℕ → Deque A
  enqueue raw t tid deques = update deques tid (push raw t (deques tid))

  -- How a round of the loop of `dequeue` goes on.
  abbrev pub after_round :
      (r : ℕ)
      → (ℕ → Deque A)
      → (again : (ℕ → Deque A) → Option A × (ℕ → Deque A)) → Deque A × Result A
      → Option A × (ℕ → Deque A)
  after_round r deques again (d, op_success v) = (some v, update deques r d)
  after_round r deques again (d, op_empty) = again (update deques r d)
  after_round r deques again (d, op_abort) = again (update deques r d)

  module _ (rand : ℕ → ℕ) (spurious : ℕ → Bool) (threads tid : ℕ) where
    -- The last `k` rounds of the loop, from round `i` on.
    unfoldable pub steal_from : (k i : ℕ) → (ℕ → Deque A) → Option A × (ℕ → Deque A)
    steal_from zero i deques = (none, deques)
    steal_from (suc k) i deques =
        let r = rand i % threads in
        if r == tid
        then steal_from k (suc i) deques
        else after_round r deques (λ ds. steal_from k (suc i) ds) (steal (spurious i) (deques r))

    -- What `dequeue` does after the pop of its own deque.
    abbrev pub after_own : (ℕ → Deque A) → Deque A × Result A → Option A × (ℕ → Deque A)
    after_own deques (d, op_success v) = (some v, update deques tid d)
    after_own deques (d, op_empty) = steal_from 10 0 (update deques tid d)
    after_own deques (d, op_abort) = steal_from 10 0 (update deques tid d)

    -- `dequeue`, where `none` stands for `m_empty`.
    unfoldable pub dequeue : (ℕ → Deque A) → Option A × (ℕ → Deque A)
    unfolding steal_from
    dequeue deques = after_own deques (pop (spurious 10) (deques tid))

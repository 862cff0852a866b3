-- ===== src/WsDeque/Queue/Refine.antt =====
-- deque/WSDeque.hpp: what `enqueue` and `dequeue` do to the contents of the deques.
use unbounded_obstruction_fr.Base.{
  ℕ, zero, suc, ◌+◌, ◌%◌, ◌<◌, ◌≤◌, ◌≡◌, ◌≢◌, refl, sym, ap, ◌∙◌, Bool, false, Bool-cases,
  Option-cases, ◌⊎◌, inl, inr, Option, none, some, List, [], ◌∷◌, arith, ◌==◌, ==_self, ==-ne,
  ==_apart, ==_iff, le_or_lt, update,
}
use unbounded_obstruction_fr.Spec.{pop_left, pop_right}
use unbounded_obstruction_fr.WsDeque.{Deque, Result, op_success, op_empty, op_abort, pop, steal}
use unbounded_obstruction_fr.WsDeque.Content.{Answers, view, IsValid}
use unbounded_obstruction_fr.WsDeque.Refine.{pop-view, steal-view}
use unbounded_obstruction_fr.WsDeque.Queue.{after_round, steal_from, after_own, dequeue}

module _ {A : Type 0} where
  pop_left-none : (l : List A) → pop_left l ≡ none → l ≡ []
  unfolding pop_left
  pop_left-none [] e = refl
  pop_left-none (x ∷ l) e = ground arith

  some-none : {a : A × List A} → some a ≢ none
  some-none e = ground arith

  pop_right-none : (l : List A) → pop_right l ≡ none → l ≡ []
  unfolding pop_right
  pop_right-none [] e = refl
  pop_right-none (x ∷ l) e = elim (Option-cases (pop_right l)) [
    | inl none_left ↦ absurd (some-none (rw (pop_right, none_left) at e))
    | inr ((v, rest), more) ↦ absurd (some-none (rw (pop_right, more) at e))
  ]

  module _ (rand : ℕ → ℕ) (spurious : ℕ → Bool) (threads tid : ℕ)
      (strong : (i : ℕ) → spurious i ≡ false) where
    abbrev AllValid : (ℕ → Deque A) → Type 0
    AllValid deques = (j : ℕ) → IsValid (deques j)

    abbrev SameViews : (ℕ → Deque A) → (ℕ → Deque A) → Type 0
    SameViews ds ds' = (j : ℕ) → view (ds' j) ≡ view (ds j)

    -- A value was taken from the left of another deque, or the `k` deques tried from round `i` on were empty.
    abbrev pub Stolen : (k i : ℕ) → (ℕ → Deque A) → Option A × (ℕ → Deque A) → Type 0
    Stolen k i ds (some v, ds') =
        AllValid ds'
        × ((r : ℕ) × (r ≢ tid)
            × (pop_left (view (ds r)) ≡ some (v, view (ds' r)))
            × ((j : ℕ) → j ≢ r → view (ds' j) ≡ view (ds j)))
    Stolen k i ds (none, ds') =
        AllValid ds'
        × SameViews ds ds'
        × ((m : ℕ) → i ≤ m → m < i + k → rand m % threads ≢ tid → view (ds (rand m % threads)) ≡ [])

    Stolen-later :
        (k i : ℕ) (ds ds₁ : ℕ → Deque A)
        → SameViews ds ds₁
        → (rand i % threads ≢ tid → view (ds (rand i % threads)) ≡ [])
        → (r : Option A × (ℕ → Deque A)) → Stolen k (suc i) ds₁ r
        → Stolen (suc k) i ds r
    Stolen-later k i ds ds₁ same here (some v, ds') (valid, (r, ne, took, others)) =
        (valid, (r, ne, rw (← same r) took, λ j p. others j p ∙ same j))
    Stolen-later k i ds ds₁ same here (none, ds') (valid, views, tried) = (
      valid,
      (λ j. views j ∙ same j),
      λ m p q ne. elim (le_or_lt m i) [
        | inl le ↦ let e : m ≡ i = omega arith in rw e (here (rw e at ne))
        | inr lt ↦ sym (same (rand m % threads)) ∙ tried m (omega arith) (omega arith) ne
      ],
    )

    update-AllValid :
        (ds : ℕ → Deque A) (r : ℕ) (d : Deque A)
        → AllValid ds
        → IsValid d
        → AllValid (update ds r d)
    update-AllValid ds r d valid v j = elim (Bool-cases (r == j)) [
      | inl e ↦ rw e v
      | inr e ↦ rw e (valid j)
    ]

    update-SameViews :
        (ds : ℕ → Deque A) (r : ℕ) (d : Deque A)
        → view d ≡ view (ds r)
        → SameViews ds (update ds r d)
    update-SameViews ds r d same j = elim (Bool-cases (r == j)) [
      | inl e ↦ rw e (same ∙ ap (λ i. view (ds i)) ((==_iff r j).0 e))
      | inr e ↦ rw e refl
    ]

    after_round-Stolen :
        (k i : ℕ) (ds : ℕ → Deque A) (again : (ℕ → Deque A) → Option A × (ℕ → Deque A))
        → AllValid ds
        → rand i % threads ≢ tid
        → ((ds₁ : ℕ → Deque A) → AllValid ds₁ → Stolen k (suc i) ds₁ (again ds₁))
        → (expected : Option (A × List A)) (result : Deque A × Result A)
        → pop_left (view (ds (rand i % threads))) ≡ expected
        → IsValid result.0
        → Answers expected result
        → Stolen (suc k) i ds (after_round (rand i % threads) ds again result)
    after_round-Stolen k i ds again valid ne rest (some (v, l)) (d, op_success w) e ok
          (same, left) =
        let r = rand i % threads in
        (
          update-AllValid ds r d valid ok,
          (
            r,
            ne,
            e ∙ rw (==_self (rand i % threads), same, left) refl,
            λ j p. rw (==-ne r j (λ q. p (sym q))) refl,
          ),
        )
    after_round-Stolen k i ds again valid ne rest none (d, op_empty) e ok left =
        let r = rand i % threads in
        let nothing = pop_left-none (view (ds r)) e in
        let ds₁ = update ds r d in
        Stolen-later k i ds ds₁ (update-SameViews ds r d (left ∙ sym nothing)) (λ q. nothing)
          (again ds₁) (rest ds₁ (update-AllValid ds r d valid ok))
    after_round-Stolen k i ds again valid ne rest none (d, op_success w) e ok a = absurd a
    after_round-Stolen k i ds again valid ne rest none (d, op_abort) e ok a = absurd a
    after_round-Stolen k i ds again valid ne rest (some (v, l)) (d, op_empty) e ok a = absurd a
    after_round-Stolen k i ds again valid ne rest (some (v, l)) (d, op_abort) e ok a = absurd a

    steal_from-Stolen :
        (k i : ℕ) (ds : ℕ → Deque A)
        → AllValid ds
        → Stolen k i ds (steal_from rand spurious threads tid k i ds)
    unfolding steal_from
    steal_from-Stolen zero i ds valid = (valid, (λ j. refl), λ m p q ne. absurd (omega arith))
    steal_from-Stolen (suc k) i ds valid =
        let r = rand i % threads in
        elim (Bool-cases (r == tid)) [
          | inl own ↦ rw own (
              Stolen-later k i ds ds (λ j. refl) (λ ne. absurd (ne ((==_iff r tid).0 own))) _
                (steal_from-Stolen k (suc i) ds valid))
          | inr other ↦
              let taken = steal-view (ds r) (valid r) in
              rw (other, strong i)
                (after_round-Stolen k i ds (steal_from rand spurious threads tid k (suc i)) valid
                  (==_apart r tid other) (steal_from-Stolen k (suc i)) (pop_left (view (ds r)))
                  (steal false (ds r)) refl taken.0 taken.1)
        ]

    -- What a call of `dequeue` has done to the deques.
    abbrev pub Dequeued : (ℕ → Deque A) → Option A × (ℕ → Deque A) → Type 0
    Dequeued ds (some v, ds') =
        AllValid ds'
        × ((pop_right (view (ds tid)) ≡ some (v, view (ds' tid)))
              × ((j : ℕ) → j ≢ tid → view (ds' j) ≡ view (ds j))
            ⊎ (view (ds tid) ≡ [])
              × ((r : ℕ) × (r ≢ tid)
                  × (pop_left (view (ds r)) ≡ some (v, view (ds' r)))
                  × ((j : ℕ) → j ≢ r → view (ds' j) ≡ view (ds j))))
    Dequeued ds (none, ds') =
        AllValid ds'
        × SameViews ds ds'
        × (view (ds tid) ≡ [])
        × ((i : ℕ) → i < 10 → rand i % threads ≢ tid → view (ds (rand i % threads)) ≡ [])

    Stolen-Dequeued :
        (ds ds₁ : ℕ → Deque A)
        → SameViews ds ds₁
        → view (ds tid) ≡ []
        → (r : Option A × (ℕ → Deque A)) → Stolen 10 0 ds₁ r
        → Dequeued ds r
    Stolen-Dequeued ds ds₁ same own (some v, ds') (valid, (r, ne, took, others)) =
        (valid, inr (own, (r, ne, rw (← same r) took, λ j p. others j p ∙ same j)))
    Stolen-Dequeued ds ds₁ same own (none, ds') (valid, views, tried) = (
      valid,
      (λ j. views j ∙ same j),
      own,
      λ i q ne. sym (same (rand i % threads)) ∙ tried i (omega arith) (omega arith) ne,
    )

    after_own-Dequeued :
        (ds : ℕ → Deque A)
        → AllValid ds
        → (expected : Option (A × List A)) (result : Deque A × Result A)
        → pop_right (view (ds tid)) ≡ expected
        → IsValid result.0
        → Answers expected result
        → Dequeued ds (after_own rand spurious threads tid ds result)
    after_own-Dequeued ds valid (some (v, l)) (d, op_success w) e ok (same, left) = (
      update-AllValid ds tid d valid ok,
      inl (e ∙ rw (==_self tid, same, left) refl, λ j p. rw (==-ne tid j (λ q. p (sym q))) refl),
    )
    after_own-Dequeued ds valid none (d, op_empty) e ok left =
        let nothing = pop_right-none (view (ds tid)) e in
        let ds₁ = update ds tid d in
        Stolen-Dequeued ds ds₁ (update-SameViews ds tid d (left ∙ sym nothing)) nothing _
          (steal_from-Stolen 10 0 ds₁ (update-AllValid ds tid d valid ok))
    after_own-Dequeued ds valid none (d, op_success w) e ok a = absurd a
    after_own-Dequeued ds valid none (d, op_abort) e ok a = absurd a
    after_own-Dequeued ds valid (some (v, l)) (d, op_empty) e ok a = absurd a
    after_own-Dequeued ds valid (some (v, l)) (d, op_abort) e ok a = absurd a

    -- `dequeue` that no other thread interrupts and whose exchanges do not fail without a reason: it takes the
    -- last value of the thread's own deque; or, if that one is empty, the first value of another; or it
    -- finds its own and the ones that it draws empty. The other deques keep their content, and all
    -- of them stay valid.
    pub dequeue-Dequeued :
        (ds : ℕ → Deque A) → AllValid ds → Dequeued ds (dequeue rand spurious threads tid ds)
    unfolding dequeue
    dequeue-Dequeued ds valid =
        let taken = pop-view (ds tid) (valid tid) in
        rw (strong 10) (
          after_own-Dequeued ds valid (pop_right (view (ds tid))) (pop false (ds tid)) refl taken.0
            taken.1)

-- ===== src/WsDeque/Refine.antt =====
-- deque/WSDeque.hpp: calls that no other thread interrupts refine the abstract deque.
use unbounded_obstruction_fr.Base.{
  ==_self, ℕ, suc, ◌+◌, ◌-◌, ◌<◌, ◌≡◌, refl, sym, ap, ◌∙◌, true, false, Bool-cases, inl, inr, some,
  [], arith, ltb, leb,
}
use unbounded_obstruction_fr.Spec.{push_right, pop_left, pop_right, pop_right-push_right}
use unbounded_obstruction_fr.WsDeque.{
  Deque, size, get, grow, push, pop_start, pop_finish, pop, steal_start, steal_finish, steal,
}
use unbounded_obstruction_fr.WsDeque.Content.{
  Answers, window, view, IsValid, window_none, window_last, size-put, size-grow, get-grow, view-put,
}

module _ {A : Type 0} where
  module _ (d : Deque A) (valid : IsValid d) where
    -- `push` keeps one place of the ring free, growing it if it must, and adds the value on the right.
    pub push-view :
        (raw : ℕ → A) (v : A)
        → IsValid (push raw v d) × (view (push raw v d) ≡ push_right v (view d))
    unfolding push
    push-view raw v = elim (Bool-cases (leb (d.top + size d.ring) (d.bottom + 1))) [
      | inl full ↦
          let grown = size-grow raw d.ring d.bottom d.top in
          let room : d.bottom + 1 < d.top + size (grow raw d.ring d.bottom d.top) =
            omega (arith, grown, valid.room, valid.ordered) in
          rw full (
            record {
              ordered = omega (arith, valid.ordered);
              room = rw (size-put (grow raw d.ring d.bottom d.top) d.bottom v) room;
            },
            view-put d (grow raw d.ring d.bottom d.top) v valid.ordered (omega arith)
                (λ i p q. get-grow raw d.ring d.bottom d.top i (omega (arith, valid.room)) p q),
          )
      | inr free ↦ rw free (
        record {
          ordered = omega (arith, valid.ordered);
          room = rw (size-put d.ring d.bottom v) (ground arith);
        },
        view-put d d.ring v valid.ordered valid.room (λ i p q. refl),
      )
    ]

    empty-view : leb d.bottom d.top ≡ true → view d ≡ []
    empty-view e = let none_left : d.bottom - d.top ≡ 0 = ground arith in rw none_left refl

    last_view :
        d.top < d.bottom
        → pop_right (view d)
          ≡ some (get d.ring (d.bottom - 1), window (get d.ring) d.top (d.bottom - 1 - d.top))
    last_view h =
        let more : d.bottom - d.top ≡ suc (d.bottom - 1 - d.top) = omega arith in
        let last : d.top + (d.bottom - 1 - d.top) ≡ d.bottom - 1 = omega arith in
        rw more (
          ap pop_right (window_last (get d.ring) d.top (d.bottom - 1 - d.top))
          ∙ (pop_right-push_right (get d.ring (d.top + (d.bottom - 1 - d.top)))
                (window (get d.ring) d.top (d.bottom - 1 - d.top))
              ∙ ap (λ i. some (get d.ring i, window (get d.ring) d.top (d.bottom - 1 - d.top)))
                  last))

    first_view :
        d.top < d.bottom
        → pop_left (view d)
          ≡ some (get d.ring d.top, window (get d.ring) (suc d.top) (d.bottom - (d.top + 1)))
    unfolding pop_left
    first_view h =
        let more : d.bottom - d.top ≡ suc (d.bottom - (d.top + 1)) = omega arith in rw more refl

    -- `pop` that no thief interrupts, and whose weak exchange does not fail for no reason, takes the last
    -- value, or finds the deque empty if it is, and keeps the deque valid.
    pub pop-view : IsValid (pop false d).0 × Answers (pop_right (view d)) (pop false d)
    unfolding pop_start pop_finish get pop_right
    pop-view = elim (Bool-cases (leb d.bottom d.top)) [
      | inl none_left ↦
          rw (none_left, empty-view none_left)
            (
              record { ordered = omega arith; room = omega (arith, valid.room, valid.ordered) },
              window_none (get d.ring) d.top (omega arith),
            )
      | inr some_left ↦ elim (Bool-cases (ltb (d.top + 1) d.bottom)) [
        | inl many ↦
            rw (some_left, many, last_view (ground arith))
              (record { ordered = ground arith; room = omega (arith, valid.room) }, (refl, refl))
        | inr one ↦
            rw (some_left, one, last_view (ground arith), ==_self d.top)
              (
                record { ordered = omega arith; room = ground (arith, valid.room) },
                (
                  refl,
                  window_none (get d.ring) (d.top + 1) (omega arith)
                      ∙ sym (window_none (get d.ring) d.top (ground arith)),
                ),
              )
      ]
    ]

    -- `steal` that no other thread interrupts, and whose weak exchange does not fail for no reason, takes the
    -- first value, or finds the deque empty if it is, and keeps the deque valid.
    pub steal-view : IsValid (steal false d).0 × Answers (pop_left (view d)) (steal false d)
    unfolding steal_start steal_finish get pop_left
    steal-view = elim (Bool-cases (leb d.bottom d.top)) [
      | inl none_left ↦ rw (none_left, empty-view none_left) (valid, empty-view none_left)
      | inr some_left ↦
          rw (some_left, first_view (ground arith), ==_self d.top)
            (
              record { ordered = ground arith; room = omega (arith, valid.room) },
              (refl, ap (λ k. window (get d.ring) k (d.bottom - (d.top + 1))) (omega arith)),
            )
    ]

-- ===== src/FcDeque/Served.antt =====
-- deque/FCDeque.hpp: every pending request is served once by a pass of the combiner.
use unbounded_obstruction_fr.Base.{
  ℕ, zero, suc, ◌+◌, ◌<◌, ◌≡◌, ◌≢◌, refl, ◌∙◌, ap, Bool, true, false, Bool-cases, ◌⊎◌, inl, inr,
  Option, none, some, List, [], ◌∷◌, ◌++◌, ◌==◌, ltb, ◌&&◌, if◌then◌else◌, arith, ==_iff,
}
use mathlib.Core.Bool.{false≢true}
use unbounded_obstruction_fr.Spec.{pop_left, pop_right}
use unbounded_obstruction_fr.FcDeque.{
  Status, right_push, left_push, right_pop, left_pop, complete, Request, do_combining,
}
use unbounded_obstruction_fr.FcDeque.Combine.{
  World, is_push, is_left_pop, is_right_pop, is_pending, select, order, times, Every, Every-append,
  select-Every, done, pop_done, serve, serve_all, view, one_round, round_lem,
}

one_kind :
    (s : Status) (b : Bool)
    → (if b && is_push s then 1 else 0)
        + ((if b && is_left_pop s then 1 else 0) + (if b && is_right_pop s then 1 else 0))
      ≡ (if b && is_pending s then 1 else 0)
one_kind left_push true = refl
one_kind right_push true = refl
one_kind left_pop true = refl
one_kind right_pop true = refl
one_kind complete true = refl
one_kind _ false = refl

not_pending : (s : Status) → is_pending s ≡ false → s ≡ complete
not_pending complete h = refl
not_pending left_push h = cc
not_pending right_push h = cc
not_pending left_pop h = cc
not_pending right_pop h = cc

push-pending : (s : Status) → is_push s ≡ true → is_pending s ≡ true
push-pending complete h = absurd (false≢true h)
push-pending _ h = refl

left_pop-pending : (s : Status) → is_left_pop s ≡ true → is_pending s ≡ true
left_pop-pending complete h = absurd (false≢true h)
left_pop-pending _ h = refl

right_pop-pending : (s : Status) → is_right_pop s ≡ true → is_pending s ≡ true
right_pop-pending complete h = absurd (false≢true h)
right_pop-pending _ h = refl

module _ {A : Type 0} where
  Every-weaken :
      (keep keep' : Status → Bool)
      → ((s : Status) → keep s ≡ true → keep' s ≡ true)
      → (calls : List (ℕ × Request A)) → Every keep calls
      → Every keep' calls
  Every-weaken keep keep' f [] h = tt
  Every-weaken keep keep' f ((i, q) ∷ calls) (k, h) =
      (f q.status k, Every-weaken keep keep' f calls h)

  order-Every : (requests : ℕ → Request A) (n : ℕ) → Every is_pending (order requests n)
  order-Every requests n =
      Every-append is_pending _ _
        (Every-weaken is_push is_pending push-pending _ (select-Every is_push requests n))
        (Every-append is_pending _ _
          (Every-weaken is_left_pop is_pending left_pop-pending _
            (select-Every is_left_pop requests n))
          (Every-weaken is_right_pop is_pending right_pop-pending _
            (select-Every is_right_pop requests n)))

  times-append :
      (i : ℕ) (xs ys : List (ℕ × Request A)) → times i (xs ++ ys) ≡ times i xs + times i ys
  times-append i [] ys = omega arith
  times-append i ((j, q) ∷ xs) ys = ground (arith, times-append i xs ys)

  here :
      (keep : Status → Bool) (requests : ℕ → Request A) (i n : ℕ) {b : Bool}
      → keep (requests n).status ≡ b
      → n ≡ i
      → keep (requests i).status ≡ b
  here keep requests i n k e = rw (← e) k

  times-select :
      (keep : Status → Bool) (requests : ℕ → Request A) (i n : ℕ)
      → times i (select keep requests n) ≡ (if ltb i n && keep (requests i).status then 1 else 0)
  times-select keep requests i zero = ground arith
  times-select keep requests i (suc n) = elim (Bool-cases (keep (requests n).status)) [
    | inl k ↦ rw k (
        rw (times-append i (select keep requests n))
          (ground (arith, times-select keep requests i n, here keep requests i n k)))
    | inr k ↦ rw k (
        rw (times-append i (select keep requests n))
          (ground (arith, times-select keep requests i n, here keep requests i n k)))
  ]

  times-order :
      (requests : ℕ → Request A) (i n : ℕ)
      → times i (order requests n) ≡ (if ltb i n && is_pending (requests i).status then 1 else 0)
  times-order requests i n =
      rw
        (
          times-append i (select is_push requests n),
          times-append i (select is_left_pop requests n),
          times-select,
          times-select,
          times-select,
        )
        (one_kind (requests i).status (ltb i n))

module _ {A : Type 0} (empty : A) where
  abbrev status_of : World A → ℕ → Status
  status_of w i = (w.requests i).status

  -- A request that is not served stays, and a served one is complete.
  record Turn (i j : ℕ) (w w' : World A) : Type 0 where
    same : j ≢ i → w'.requests i ≡ w.requests i
    own : j ≡ i → status_of w' i ≡ complete

  done-Turn :
      (i j : ℕ) (w : World A) (deque : List A) (value : A) → Turn i j w (done w j deque value)
  done-Turn i j w deque value = record { same = λ ne. ground arith; own = λ e. ground arith }

  pop_done-Turn :
      (i j : ℕ) (w : World A) (o : Option (A × List A)) → Turn i j w (pop_done empty w j o)
  pop_done-Turn i j w none = done-Turn i j w w.deque empty
  pop_done-Turn i j w (some (value, rest)) = done-Turn i j w rest value

  serve-Turn :
      (i j : ℕ) (v : A) (s : Status) (w : World A)
      → is_pending s ≡ true
      → Turn i j w (serve empty j v s w)
  serve-Turn i j v left_push w p = done-Turn i j w _ v
  serve-Turn i j v right_push w p = done-Turn i j w _ v
  serve-Turn i j v left_pop w p = pop_done-Turn i j w (pop_left w.deque)
  serve-Turn i j v right_pop w p = pop_done-Turn i j w (pop_right w.deque)
  serve-Turn i j v complete w p = cc

  serve_all-Turn :
      (i : ℕ) (calls : List (ℕ × Request A)) (w : World A)
      → Every is_pending calls
      → ((status_of w i ≡ complete) ⊎ (times i calls ≢ 0)
          → status_of (serve_all empty calls w) i ≡ complete)
        × (times i calls ≡ 0 → (serve_all empty calls w).requests i ≡ w.requests i)
  serve_all-Turn i [] w h = (λ c. elim c [ inl c ↦ c | inr n ↦ absurd (n refl) ], λ z. refl)
  serve_all-Turn i ((j, q) ∷ calls) w (k, h) =
      let apart : (j == i) ≡ false → j ≢ i = λ e. ground arith in
      let turn = serve-Turn i j q.value q.status w k in
      let (c, s) = serve_all-Turn i calls (serve empty j q.value q.status w) h in
      elim (Bool-cases (j == i)) [
        | inl e ↦ (λ _. c (inl (turn.own ((==_iff j i).0 e))), λ z. ground arith)
        | inr e ↦ rw e (
          λ d. c (elim d [
            | inl f ↦ inl (ap (λ (r : Request A). r.status) (turn.same (apart e)) ∙ f)
            | inr n ↦ inr n
          ]),
          λ z. s z ∙ turn.same (apart e),
        )
      ]

  module _ (threads tid : ℕ) (deque : List A) (requests : ℕ → Request A)
      (inside : tid < threads) where
    -- The combiner's pass is the pending requests, one after the other on the abstract deque: the pushes
    -- by thread, then the left pops, then the right pops, each answered. Each pending request of a thread
    -- is served once and no other request is.
    pub do_combining-serve_all :
        (view empty (do_combining empty threads tid deque requests)
          ≡ serve_all empty
              (order requests threads)
              (record { deque = deque; requests = requests }))
        × ((i : ℕ)
            → times i (order requests threads)
              ≡ (if ltb i threads && is_pending (requests i).status then 1 else 0))
    do_combining-serve_all = (
      ap (view empty) (one_round empty threads tid deque requests inside)
          ∙ (round_lem empty threads tid deque requests).0,
      λ i. times-order requests i threads,
    )

    -- If no thread posts a request during the pass of the combiner, the request of every thread is complete
    -- after it, and one that was complete before has not changed.
    pub do_combining-completes :
        (i : ℕ)
        → i < threads
        → (((do_combining empty threads tid deque requests).requests i).status ≡ complete)
          × ((requests i).status ≡ complete
              → (do_combining empty threads tid deque requests).requests i ≡ requests i)
    do_combining-completes i l =
        let (turn, kept) =
          serve_all-Turn i (order requests threads) (record { deque = deque; requests = requests })
            (order-Every requests threads) in
        let served = times-order requests i threads in
        rw (one_round empty threads tid deque requests inside) (
          ap (λ (w : World A). status_of w i) (round_lem empty threads tid deque requests).0
              ∙ turn (elim (Bool-cases (is_pending (requests i).status)) [
                | inl p ↦ inr (ground (arith, served))
                | inr p ↦ inl (not_pending (requests i).status p)
              ]),
          λ c.
              ap (λ (w : World A). w.requests i) (round_lem empty threads tid deque requests).0
              ∙ kept (rw c at served ∙ ground arith),
        )

-- ===== src/FcDeque/Tests.antt =====
-- A run of the combiner, and the theorems at it.
use unbounded_obstruction_fr.Base.{
  ℕ, ◌≡◌, refl, List, [], ◌∷◌, arith, if◌then◌else◌, ltb, ◌&&◌, ◌==◌,
}
use unbounded_obstruction_fr.FcDeque.{
  right_push, left_pop, complete, Request, do_combining, stage_one, serve_left, serve_right, round,
  rounds,
}
use unbounded_obstruction_fr.Spec.{pop_left, push_right}
use unbounded_obstruction_fr.FcDeque.Combine.{order, times, is_pending, serve_all, view}
use unbounded_obstruction_fr.FcDeque.Served.{do_combining-serve_all, do_combining-completes}

-- Thread 0 pops on the left, thread 1 pushes 7 on the right, thread 2 waits for nothing, and the others
-- pop on the left.
abbrev posted : ℕ → Request ℕ
posted i =
    if i == 1
    then record { value = 7; status = right_push }
    else if i == 2
    then record { value = 5; status = complete }
    else record { value = 0; status = left_pop }

-- The first pop gets 9, the second what is pushed in the same pass, and 99 is `m_empty`.
answers :
    let r = do_combining 99 5 1 (9 ∷ []) posted in
    ◌≡◌ {A = List ℕ}
      ((r.requests 0).value
        ∷ (r.requests 2).value
        ∷ (r.requests 3).value
        ∷ (r.requests 4).value
        ∷ r.deque)
      (9 ∷ 5 ∷ 7 ∷ 99 ∷ [])
unfolding do_combining rounds round stage_one serve_left serve_right pop_left push_right
answers = refl

do_combining-serve_all_example :
    (view 99 (do_combining 99 5 1 (9 ∷ []) posted)
      ≡ serve_all 99 (order posted 5) (record { deque = 9 ∷ []; requests = posted }))
    × ((i : ℕ)
        → times i (order posted 5) ≡ (if ltb i 5 && is_pending (posted i).status then 1 else 0))
do_combining-serve_all_example = do_combining-serve_all 99 5 1 (9 ∷ []) posted (omega arith)

do_combining-completes_example :
    (((do_combining 99 5 1 (9 ∷ []) posted).requests 3).status ≡ complete)
    × ((posted 3).status ≡ complete → (do_combining 99 5 1 (9 ∷ []) posted).requests 3 ≡ posted 3)
do_combining-completes_example =
    do_combining-completes 99 5 1 (9 ∷ []) posted (omega arith) 3 (omega arith)

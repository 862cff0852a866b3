-- ===== src/FcDeque/Combine.antt =====
-- deque/FCDeque.hpp: what a pass of the combiner does to the deque and to the requests.
use unbounded_obstruction_fr.Base.{
  ℕ, zero, suc, ◌≤◌, ◌<◌, ◌≡◌, refl, sym, ◌∙◌, ap, Bool, true, false, Bool-cases, inl, inr, Option,
  none, some, List, [], ◌∷◌, ◌++◌, append-nil, append_assoc, ◌==◌, if◌then◌else◌, update, arith,
}
use mathlib.Core.Bool.{false≢true}
use unbounded_obstruction_fr.Spec.{push_left, push_right, pop_left, pop_right}
use unbounded_obstruction_fr.FcDeque.{
  Status, right_push, left_push, right_pop, left_pop, complete, Request, Round, visit, stage_one,
  answer, serve_left, serve_right, round, rounds, do_combining,
}

pub record World (A : Type 0) : Type 0 where
  pub deque : List A
  pub requests : ℕ → Request A

abbrev pub is_push : Status → Bool
is_push left_push = true
is_push right_push = true
is_push _ = false

abbrev pub is_left_pop : Status → Bool
is_left_pop left_pop = true
is_left_pop _ = false

abbrev pub is_right_pop : Status → Bool
is_right_pop right_pop = true
is_right_pop _ = false

abbrev pub is_pending : Status → Bool
is_pending complete = false
is_pending _ = true

module _ {A : Type 0} where
  abbrev pub done : World A → ℕ → List A → A → World A
  done w i deque value = record {
    deque = deque;
    requests = update w.requests i (record { value = value; status = complete });
  }

  -- The requests below `n` of a kind, by thread.
  abbrev pub select : (Status → Bool) → (ℕ → Request A) → ℕ → List (ℕ × Request A)
  select keep requests zero = []
  select keep requests (suc n) =
      select keep requests n ++ (if keep (requests n).status then (n, requests n) ∷ [] else [])

  -- The pushes by thread, then the left pops, then the right pops.
  abbrev pub order : (ℕ → Request A) → ℕ → List (ℕ × Request A)
  order requests n =
      select is_push requests n ++ (select is_left_pop requests n ++ select is_right_pop requests n)

  -- How often a thread is served.
  abbrev pub times : ℕ → List (ℕ × Request A) → ℕ
  times i [] = 0
  times i ((j, req) ∷ calls) = if j == i then suc (times i calls) else times i calls

  abbrev threads_of : List (ℕ × Request A) → List ℕ
  threads_of [] = []
  threads_of ((j, req) ∷ calls) = j ∷ threads_of calls

  abbrev pub Every : (Status → Bool) → List (ℕ × Request A) → Type 0
  Every keep [] = Unit
  Every keep ((i, req) ∷ calls) = (keep req.status ≡ true) × Every keep calls

  pub Every-append :
      (keep : Status → Bool) (xs ys : List (ℕ × Request A))
      → Every keep xs
      → Every keep ys
      → Every keep (xs ++ ys)
  Every-append keep [] ys p q = q
  Every-append keep ((i, req) ∷ xs) ys (k, p) q = (k, Every-append keep xs ys p q)

  pub select-Every :
      (keep : Status → Bool) (requests : ℕ → Request A) (n : ℕ)
      → Every keep (select keep requests n)
  select-Every keep requests zero = tt
  select-Every keep requests (suc n) =
      Every-append keep _ _ (select-Every keep requests n)
        (elim (Bool-cases (keep (requests n).status)) [ inl k ↦ rw k (k, tt) | inr k ↦ rw k tt ])

module _ {A : Type 0} (empty : A) where
  abbrev pub pop_done : World A → ℕ → Option (A × List A) → World A
  pop_done w i none = done w i w.deque empty
  pop_done w i (some (value, rest)) = done w i rest value

  -- One request on the abstract deque, with its answer.
  abbrev pub serve : ℕ → A → Status → World A → World A
  serve i v left_push w = done w i (push_left v w.deque) v
  serve i v right_push w = done w i (push_right v w.deque) v
  serve i v left_pop w = pop_done w i (pop_left w.deque)
  serve i v right_pop w = pop_done w i (pop_right w.deque)
  serve i v complete w = w

  -- One request after the other.
  abbrev pub serve_all : List (ℕ × Request A) → World A → World A
  serve_all [] w = w
  serve_all ((i, req) ∷ calls) w = serve_all calls (serve i req.value req.status w)

  pub serve_all-append :
      (xs ys : List (ℕ × Request A)) (w : World A)
      → serve_all (xs ++ ys) w ≡ serve_all ys (serve_all xs w)
  serve_all-append [] ys w = refl
  serve_all-append ((i, req) ∷ xs) ys w = serve_all-append xs ys (serve i req.value req.status w)

  abbrev pub view : Round A → World A
  view r = record { deque = r.deque; requests = r.requests }

  module _ (tid : ℕ) (r₀ : Round A) where
    -- Stage one, before the visit of request `n`.
    record Visited (n : ℕ) (r : Round A) : Type 0 where
      world : view r ≡ serve_all (select is_push r₀.requests n) (view r₀)
      lefts : r.left_poppers ≡ r₀.left_poppers ++ threads_of (select is_left_pop r₀.requests n)
      rights : r.right_poppers ≡ r₀.right_poppers ++ threads_of (select is_right_pop r₀.requests n)
      fresh : (i : ℕ) → n ≤ i → r.requests i ≡ r₀.requests i
      finished : tid < n → r.finished ≡ true

    threads_of-append :
        (xs ys : List (ℕ × Request A)) → threads_of (xs ++ ys) ≡ threads_of xs ++ threads_of ys
    threads_of-append [] ys = refl
    threads_of-append ((i, q) ∷ xs) ys = ap (λ l. i ∷ l) (threads_of-append xs ys)

    skipped :
        (keep : Status → Bool) (n : ℕ) {s : Status}
        → (r₀.requests n).status ≡ s
        → keep s ≡ false
        → select keep r₀.requests (suc n) ≡ select keep r₀.requests n
    skipped keep n e k = rw (e, k, append-nil) refl

    taken :
        (keep : Status → Bool) (n : ℕ) {s : Status}
        → (r₀.requests n).status ≡ s
        → keep s ≡ true
        → select keep r₀.requests (suc n) ≡ select keep r₀.requests n ++ ((n, r₀.requests n) ∷ [])
    taken keep n e k = rw (e, k) refl

    more :
        (keep : Status → Bool) (n : ℕ) (start : List ℕ) {s : Status} {l : List ℕ}
        → (r₀.requests n).status ≡ s
        → keep s ≡ true
        → l ≡ start ++ threads_of (select keep r₀.requests n)
        → l ++ (n ∷ []) ≡ start ++ threads_of (select keep r₀.requests (suc n))
    more keep n start e k h = rw (h, taken keep n e k, threads_of-append, append_assoc) refl

    pushed_world :
        (n : ℕ) (r : Round A) (s : Status)
        → (r₀.requests n).status ≡ s
        → is_push s ≡ true
        → Visited n r
        → serve n (r.requests n).value s (view r)
          ≡ serve_all (select is_push r₀.requests (suc n)) (view r₀)
    pushed_world n r s e k v =
        rw (taken is_push n e k, serve_all-append, v.fresh n (omega arith), ← v.world, e) refl

    Visited-visit :
        (n : ℕ) (r : Round A) (s : Status)
        → (r₀.requests n).status ≡ s
        → Visited n r
        → Visited
            (suc n)
            (visit s n (record r { finished = if n == tid then true else r.finished }))
    unfolding visit
    Visited-visit n r left_push e v = record {
      world = pushed_world n r left_push e refl v;
      lefts = rw (skipped is_left_pop n e refl) v.lefts;
      rights = rw (skipped is_right_pop n e refl) v.rights;
      fresh = λ i l. ground (arith, v.fresh i);
      finished = λ l. ground (arith, v.finished);
    }
    Visited-visit n r right_push e v = record {
      world = pushed_world n r right_push e refl v;
      lefts = rw (skipped is_left_pop n e refl) v.lefts;
      rights = rw (skipped is_right_pop n e refl) v.rights;
      fresh = λ i l. ground (arith, v.fresh i);
      finished = λ l. ground (arith, v.finished);
    }
    Visited-visit n r left_pop e v = record {
      world = rw (skipped is_push n e refl) v.world;
      lefts = more is_left_pop n r₀.left_poppers e refl v.lefts;
      rights = rw (skipped is_right_pop n e refl) v.rights;
      fresh = λ i l. v.fresh i (omega arith);
      finished = λ l. ground (arith, v.finished);
    }
    Visited-visit n r right_pop e v = record {
      world = rw (skipped is_push n e refl) v.world;
      lefts = rw (skipped is_left_pop n e refl) v.lefts;
      rights = more is_right_pop n r₀.right_poppers e refl v.rights;
      fresh = λ i l. v.fresh i (omega arith);
      finished = λ l. ground (arith, v.finished);
    }
    Visited-visit n r complete e v = record {
      world = rw (skipped is_push n e refl) v.world;
      lefts = rw (skipped is_left_pop n e refl) v.lefts;
      rights = rw (skipped is_right_pop n e refl) v.rights;
      fresh = λ i l. v.fresh i (omega arith);
      finished = λ l. ground (arith, v.finished);
    }

    stage_one-Visited : (n : ℕ) → Visited n (stage_one tid n r₀)
    unfolding stage_one
    stage_one-Visited zero = record {
      world = refl;
      lefts = sym (append-nil _);
      rights = sym (append-nil _);
      fresh = λ i l. refl;
      finished = λ l. absurd (omega arith);
    }
    stage_one-Visited (suc n) =
        let v = stage_one-Visited n in
        Visited-visit n (stage_one tid n r₀) _
          (sym (ap (λ (q : Request A). q.status) (v.fresh n (omega arith)))) v

  answer-finished :
      (r : Round A) (i : ℕ) (o : Option (A × List A)) → (answer empty r i o).finished ≡ r.finished
  answer-finished r i none = refl
  answer-finished r i (some (value, rest)) = refl

  view-answer :
      (r : Round A) (i : ℕ) (o : Option (A × List A))
      → view (answer empty r i o) ≡ pop_done (view r) i o
  view-answer r i none = refl
  view-answer r i (some (value, rest)) = refl

  serve_left_pop :
      (i : ℕ) (v : A) (s : Status) (w : World A)
      → is_left_pop s ≡ true
      → serve i v s w ≡ pop_done w i (pop_left w.deque)
  serve_left_pop i v left_pop w h = refl
  serve_left_pop i v left_push w h = absurd (false≢true h)
  serve_left_pop i v right_push w h = absurd (false≢true h)
  serve_left_pop i v right_pop w h = absurd (false≢true h)
  serve_left_pop i v complete w h = absurd (false≢true h)

  serve_right_pop :
      (i : ℕ) (v : A) (s : Status) (w : World A)
      → is_right_pop s ≡ true
      → serve i v s w ≡ pop_done w i (pop_right w.deque)
  serve_right_pop i v right_pop w h = refl
  serve_right_pop i v left_push w h = absurd (false≢true h)
  serve_right_pop i v right_push w h = absurd (false≢true h)
  serve_right_pop i v left_pop w h = absurd (false≢true h)
  serve_right_pop i v complete w h = absurd (false≢true h)

  -- Stage two is the pops of its lists, one after the other, and leaves `finished`.
  serve_left_lem :
      (calls : List (ℕ × Request A)) (r : Round A)
      → Every is_left_pop calls
      → (view (serve_left empty (threads_of calls) r) ≡ serve_all calls (view r))
        × ((serve_left empty (threads_of calls) r).finished ≡ r.finished)
  unfolding serve_left
  serve_left_lem [] r h = (refl, refl)
  serve_left_lem ((i, q) ∷ calls) r (k, h) =
      let next = answer empty r i (pop_left r.deque) in
      let (w, f) = serve_left_lem calls next h in
      (
        w
            ∙ ap (serve_all calls) (
                view-answer r i (pop_left r.deque)
                ∙ sym (serve_left_pop i q.value q.status (view r) k)),
        f ∙ answer-finished r i (pop_left r.deque),
      )

  serve_right_lem :
      (calls : List (ℕ × Request A)) (r : Round A)
      → Every is_right_pop calls
      → (view (serve_right empty (threads_of calls) r) ≡ serve_all calls (view r))
        × ((serve_right empty (threads_of calls) r).finished ≡ r.finished)
  unfolding serve_right
  serve_right_lem [] r h = (refl, refl)
  serve_right_lem ((i, q) ∷ calls) r (k, h) =
      let next = answer empty r i (pop_right r.deque) in
      let (w, f) = serve_right_lem calls next h in
      (
        w
            ∙ ap (serve_all calls) (
                view-answer r i (pop_right r.deque)
                ∙ sym (serve_right_pop i q.value q.status (view r) k)),
        f ∙ answer-finished r i (pop_right r.deque),
      )

  module _ (threads tid : ℕ) (deque : List A) (requests : ℕ → Request A) where
    abbrev pub before : Round A
    before = record {
      deque = deque;
      requests = requests;
      finished = false;
      left_poppers = [];
      right_poppers = [];
    }

    pub round_lem :
        (view (round empty threads tid before) ≡ serve_all (order requests threads) (view before))
        × (tid < threads → (round empty threads tid before).finished ≡ true)
    unfolding round
    round_lem =
        let v = stage_one-Visited tid before threads in
        let l =
          serve_left_lem (select is_left_pop requests threads) (stage_one tid threads before)
            (select-Every is_left_pop requests threads) in
        let r =
          serve_right_lem (select is_right_pop requests threads)
            (serve_left empty (threads_of (select is_left_pop requests threads))
              (stage_one tid threads before))
            (select-Every is_right_pop requests threads) in
        rw (v.lefts, v.rights, serve_all-append, serve_all-append)
          (
            r.0
                ∙ ap (serve_all (select is_right_pop requests threads))
                    (l.0 ∙ ap (serve_all (select is_left_pop requests threads)) v.world),
            λ h. r.1 ∙ (l.1 ∙ v.finished h),
          )

    pub one_round :
        tid < threads
        → do_combining empty threads tid deque requests ≡ round empty threads tid before
    unfolding do_combining rounds
    one_round h = rw (round_lem.1 h) refl

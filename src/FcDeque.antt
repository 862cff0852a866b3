-- ===== src/FcDeque.antt =====
-- deque/FCDeque.hpp: the flat-combining deque. Threads post requests, and the one that has the lock
-- serves those of all.
pub mod Combine
pub mod Served
mod Tests
use unbounded_obstruction_fr.Base.{
  ℕ, zero, suc, ◌+◌, Bool, true, false, Option, none, some, List, [], ◌∷◌, ◌++◌, ◌==◌,
  if◌then◌else◌, update, not, ◌&&◌,
}
use unbounded_obstruction_fr.Spec.{push_left, push_right, pop_left, pop_right}

-- `REQUEST_STATUS`
pub data Status : Type 0 where
  right_push left_push right_pop left_pop complete : Status

-- `request_t`
pub record Request (A : Type 0) : Type 0 where
  pub value : A
  pub status : Status

-- What the combiner works on: the deque and the requests, and its own `finished`, `leftPoppers` and
-- `rightPoppers`, the arrays with their counts as lists.
pub record Round (A : Type 0) : Type 0 where
  pub deque : List A
  pub requests : ℕ → Request A
  pub finished : Bool
  pub left_poppers : List ℕ
  pub right_poppers : List ℕ

module _ {A : Type 0} where
  -- `req->setStatus(COMPLETE)`
  abbrev pub completed : Round A → ℕ → ℕ → Request A
  completed r i = update r.requests i (record (r.requests i) { status = complete })

  -- The `switch` on the status of request `i`.
  unfoldable pub visit : Status → ℕ → Round A → Round A
  visit left_push i r = record r {
    deque = push_left (r.requests i).value r.deque;
    requests = completed r i;
  }
  visit right_push i r = record r {
    deque = push_right (r.requests i).value r.deque;
    requests = completed r i;
  }
  visit left_pop i r = record r { left_poppers = r.left_poppers ++ (i ∷ []) }
  visit right_pop i r = record r { right_poppers = r.right_poppers ++ (i ∷ []) }
  visit complete i r = r

  -- Stage one, whose `i` goes up to the number of threads: the requests below `n` have been visited.
  unfoldable pub stage_one : (tid n : ℕ) → Round A → Round A
  unfolding visit
  stage_one tid zero r = r
  stage_one tid (suc n) r =
      let before = stage_one tid n r in
      visit (before.requests n).status n
        (record before { finished = if n == tid then true else before.finished })

  -- A popper's request after its turn in stage two.
  abbrev pub answered : Round A → ℕ → A → ℕ → Request A
  answered r i value = update r.requests i (record { value = value; status = complete })

module _ {A : Type 0} (empty : A) where
  abbrev pub answer : Round A → ℕ → Option (A × List A) → Round A
  answer r i none = record r { requests = answered r i empty }
  answer r i (some (value, rest)) = record r { deque = rest; requests = answered r i value }

  -- Stage two.
  unfoldable pub serve_left : List ℕ → Round A → Round A
  serve_left [] r = r
  serve_left (i ∷ poppers) r = serve_left poppers (answer r i (pop_left r.deque))

  unfoldable pub serve_right : List ℕ → Round A → Round A
  serve_right [] r = r
  serve_right (i ∷ poppers) r = serve_right poppers (answer r i (pop_right r.deque))

  unfoldable pub round : (threads tid : ℕ) → Round A → Round A
  unfolding stage_one serve_left serve_right
  round threads tid r =
      let one = stage_one tid threads r in
      let left = serve_left one.left_poppers one in serve_right one.right_poppers left

  -- The rounds that are left, at most `fuel`: the two counts are not reset between them.
  unfoldable pub rounds : (fuel threads tid : ℕ) → Round A → Round A
  unfolding round
  rounds zero threads tid r = r
  rounds (suc fuel) threads tid r =
      let next = rounds fuel threads tid (round threads tid r) in if r.finished then r else next

  abbrev max_combining_rounds : ℕ
  max_combining_rounds = 10

  -- `doCombining`, with the requests that its pass over them reads: one that is posted during the pass
  -- is read if its turn is still to come, and otherwise keeps for the next combiner.
  unfoldable pub do_combining : (threads tid : ℕ) → List A → (ℕ → Request A) → Round A
  unfolding rounds
  do_combining threads tid deque requests = rounds max_combining_rounds threads tid (record {
    deque = deque;
    requests = requests;
    finished = false;
    left_poppers = [];
    right_poppers = [];
  })

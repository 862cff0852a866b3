-- ===== src/Spec.antt =====
-- What a double-ended queue promises: the abstract deque that the implementations refine.
use unbounded_obstruction_fr.Base.{◌≡◌, refl, Option, none, some, List, [], ◌∷◌, ◌++◌}

module _ {ℓ} {A : Type ℓ} where
  unfoldable pub push_left : A → List A → List A
  push_left v l = v ∷ l

  unfoldable pub push_right : A → List A → List A
  push_right v l = l ++ (v ∷ [])

  unfoldable pub pop_left : List A → Option (A × List A)
  pop_left [] = none
  pop_left (x ∷ l) = some (x, l)

  unfoldable pub pop_right : List A → Option (A × List A)
  pop_right [] = none
  pop_right (x ∷ l) = elim (pop_right l) [ none ↦ some (x, []) | some (y, r) ↦ some (y, x ∷ r) ]

  pub pop_right-push_right : (v : A) (l : List A) → pop_right (push_right v l) ≡ some (v, l)
  unfolding push_right pop_right
  pop_right-push_right v [] = refl
  pop_right-push_right v (x ∷ l) = rw (pop_right-push_right v l)

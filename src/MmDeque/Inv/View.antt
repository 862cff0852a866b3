-- ===== src/MmDeque/Inv/View.antt =====
-- deque/MMDeque.hpp: the abstract deque, and how an exchange of the anchor changes it.
use unbounded_obstruction_fr.Base.{
  ℕ, zero, suc, ◌+◌, ◌-◌, ◌≤◌, ◌<◌, ◌≡◌, refl, ap, arith, ==-ne, ==_self, update, List, [], ◌∷◌,
  ◌++◌, some,
}
use unbounded_obstruction_fr.OfDeque.Slot.{side_left, side_right}
use unbounded_obstruction_fr.Spec.{push_left, push_right, pop_left, pop_right, pop_right-push_right}
use unbounded_obstruction_fr.MmDeque.{
  Anchor, Memory, Event, silent, pushed, popped, returned, found_empty, join, leave,
}

-- What the `n` positions from `lo` on hold.
unfoldable pub items : (ℕ → ℕ) → (lo n : ℕ) → List ℕ
items f lo zero = []
items f lo (suc n) = let rest = items f (suc lo) n in f lo ∷ rest

-- The values of the deque, from left to right.
abbrev pub view : Memory → List ℕ
view m = items (λ i. m.data_of (m.at i)) m.lo (m.hi - m.lo)

-- What an event does to the abstract deque. A pop returns the value that it took.
abbrev pub Does : Event → List ℕ → List ℕ → Type 0
Does silent l l' = l' ≡ l
Does (pushed side_left v) l l' = l' ≡ push_left v l
Does (pushed side_right v) l l' = l' ≡ push_right v l
Does (popped side_left v) l l' = pop_left l ≡ some (v, l')
Does (popped side_right v) l l' = pop_right l ≡ some (v, l')
Does (returned w v) l l' = (w ≡ v) × (l' ≡ l)
Does found_empty l l' = (l ≡ []) × (l' ≡ l)

pub items_ext :
    (f g : ℕ → ℕ) (lo n : ℕ)
    → ((i : ℕ) → lo ≤ i → i < lo + n → f i ≡ g i)
    → items f lo n ≡ items g lo n
unfolding items
items_ext f g lo zero h = refl
items_ext f g lo (suc n) h = ground (
  arith,
  h lo (omega arith) (omega arith),
  items_ext f g (suc lo) n (λ i p q. h i (omega arith) (omega arith)),
)

-- The last of the positions.
items_last : (f : ℕ → ℕ) (lo n : ℕ) → items f lo (suc n) ≡ items f lo n ++ (f (lo + n) ∷ [])
unfolding items
items_last f lo zero = let e : lo + 0 ≡ lo = omega arith in rw e refl
items_last f lo (suc n) =
    let e : lo + suc n ≡ suc lo + n = omega arith in
    rw e (ap (λ r. f lo ∷ r) (items_last f (suc lo) n))

module _ (m : Memory) (x : ℕ) (a : Anchor) where
  pub join_left-view :
      0 < m.lo
      → m.lo ≤ m.hi
      → Does (pushed side_left (m.data_of x)) (view m) (view (join side_left x a m))
  unfolding items push_left
  join_left-view pos range =
      let count : m.hi - (m.lo - 1) ≡ suc (m.hi - m.lo) = omega arith in
      let first : suc (m.lo - 1) ≡ m.lo = omega arith in
      rw (count, ==_self (m.lo - 1), first)
        (ap (λ r. m.data_of x ∷ r)
          (items_ext _ _ m.lo (m.hi - m.lo)
            (λ i p q. rw (==-ne (m.lo - 1) i (λ e. absurd (omega arith))) refl)))

  pub join_right-view :
      m.lo ≤ m.hi → Does (pushed side_right (m.data_of x)) (view m) (view (join side_right x a m))
  unfolding push_right
  join_right-view range =
      let count : m.hi + 1 - m.lo ≡ suc (m.hi - m.lo) = omega arith in
      let last : m.lo + (m.hi - m.lo) ≡ m.hi = omega arith in
      rw
        (
          count,
          items_last (λ i. m.data_of (update m.at m.hi x i)) m.lo (m.hi - m.lo),
          last,
          ==_self m.hi,
        )
        (ap (λ r. r ++ (m.data_of x ∷ []))
          (items_ext _ _ m.lo (m.hi - m.lo)
            (λ i p q. rw (==-ne m.hi i (λ e. absurd (omega arith))) refl)))

  pub leave_left-view :
      m.lo < m.hi
      → x ≡ m.at m.lo
      → Does (popped side_left (m.data_of x)) (view m) (view (leave side_left a m))
  unfolding items pop_left
  leave_left-view lt here =
      let count : m.hi - m.lo ≡ suc (m.hi - (m.lo + 1)) = omega arith in
      let next : suc m.lo ≡ m.lo + 1 = omega arith in rw (count, here, next) refl

  pub leave_right-view :
      m.lo < m.hi
      → x ≡ m.at (m.hi - 1)
      → Does (popped side_right (m.data_of x)) (view m) (view (leave side_right a m))
  unfolding push_right
  leave_right-view lt here =
      let count : m.hi - m.lo ≡ suc (m.hi - 1 - m.lo) = omega arith in
      let last : m.lo + (m.hi - 1 - m.lo) ≡ m.hi - 1 = omega arith in
      rw (count, items_last (λ i. m.data_of (m.at i)) m.lo (m.hi - 1 - m.lo), last, here)
        (pop_right-push_right _ _)

-- The deque without nodes.
pub none-view : (m : Memory) → m.lo ≡ m.hi → view m ≡ []
unfolding items
none-view m e = let zero_count : m.hi - m.lo ≡ 0 = omega arith in rw zero_count refl

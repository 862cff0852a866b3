-- ===== src/OfDeque/Interior/Inv/Values.antt =====
-- The contents of a buffer that has the shape.
use native.Mathlib.Nat.{zero-add, add-zero}
use unbounded_obstruction_fr.Base.{
  ℕ, zero, suc, ◌+◌, ◌-◌, ◌≤◌, ◌<◌, ◌≡◌, ◌≢◌, refl, true, [], ◌++◌, update, ap, ap₂, ◌∙◌, ◌⊎◌, inl,
  inr, arith,
}
use unbounded_obstruction_fr.OfDeque.Slot.{
  type_left, type_right, type_value, Side, side_left, side_right, Slot, far_type, near_type,
  far_index, Buffer,
}
use unbounded_obstruction_fr.OfDeque.Interior.{interior, contents, values}
use unbounded_obstruction_fr.OfDeque.Interior.Inv.Defs.{Slots, Shape, rank}

pub values_none :
    (b : Slots) (lo n : ℕ)
    → ((i : ℕ) → lo ≤ i → i < lo + n → (b i).type ≢ type_value)
    → values b lo n ≡ []
unfolding values
values_none b lo zero h = refl
values_none b lo (suc n) h =
    ground (arith, h lo, values_none b (suc lo) n (λ i l u. h i (omega arith) (omega arith)))

pub values-split :
    (b : Slots) (lo m n : ℕ) → values b lo (m + n) ≡ values b lo m ++ values b (lo + m) n
unfolding values
values-split b lo zero n = rw (zero-add, add-zero)
values-split b lo (suc m) n =
    let shorter : suc m + n ≡ suc (m + n) = omega arith in
    let later : lo + suc m ≡ suc lo + m = omega arith in
    rw (shorter, later) (ground (arith, values-split b (suc lo) m n))

Shape-mono :
    (size : ℕ) (b : Slots)
    → Shape size b
    → (i k : ℕ) → i + k < size
    → rank (b i).type ≤ rank (b (i + k)).type
Shape-mono size b shape i zero h = ground arith
Shape-mono size b shape i (suc k) h = ground (arith, shape (i + k), Shape-mono size b shape i k)

Shape-le :
    (size : ℕ) (b : Slots)
    → Shape size b
    → (i j : ℕ) → i ≤ j
    → j < size
    → rank (b i).type ≤ rank (b j).type
Shape-le size b shape i j l h = ground (arith, Shape-mono size b shape i (j - i))

pub contents_empty :
    (size : ℕ) (b : Buffer)
    → Shape size b.slots
    → (side : Side) (i : ℕ) → interior size side i ≡ true
    → (b.slots i).type ≡ near_type side
    → (b.slots (far_index side i)).type ≡ far_type side
    → contents size b ≡ []
unfolding contents
contents_empty size b shape side_left i h n f =
    values_none b.slots 0 size λ k l u.
      ground (arith, Shape-le size b.slots shape k (i - 1), Shape-le size b.slots shape i k)
contents_empty size b shape side_right i h n f =
    values_none b.slots 0 size λ k l u.
      ground (arith, Shape-le size b.slots shape k i, Shape-le size b.slots shape (i + 1) k)

-- A write of slot `j` changes the values of no other slot.
values-update :
    (b : Slots) (j : ℕ) (s : Slot) (lo n : ℕ)
    → (lo + n ≤ j) ⊎ (j < lo)
    → values (update b j s) lo n ≡ values b lo n
unfolding values
values-update b j s lo zero h = refl
values-update b j s lo (suc n) h = ground (
  arith,
  values-update b j s (suc lo) n (elim h [ inl l ↦ inl (omega arith) | inr r ↦ inr (omega arith) ]),
)

-- The values before slot `j`, of the slot, and after it.
pub values-around :
    (size : ℕ) (b : Slots) (j : ℕ)
    → j < size
    → values b 0 size ≡ values b 0 j ++ (values b j 1 ++ values b (j + 1) (size - (j + 1)))
values-around size b j h =
    let whole : size ≡ j + (1 + (size - (j + 1))) = omega arith in
    ap (values b 0) whole
    ∙ (values-split b 0 j (1 + (size - (j + 1)))
        ∙ rw zero-add (ap (λ l. values b 0 j ++ l) (values-split b j 1 (size - (j + 1)))))

pub contents-write :
    (size : ℕ) (b : Slots) (j : ℕ) (s : Slot)
    → j < size
    → values (update b j s) 0 size
      ≡ values b 0 j ++ (values (update b j s) j 1 ++ values b (j + 1) (size - (j + 1)))
contents-write size b j s h =
    values-around size (update b j s) j h
    ∙ ap₂ (λ l r. l ++ (values (update b j s) j 1 ++ r))
        (values-update b j s 0 j (inl (omega arith)))
        (values-update b j s (j + 1) (size - (j + 1)) (inr (omega arith)))

-- Beyond a right null there is no value, and before a left null there is none.
pub values_right :
    (size : ℕ) (b : Slots)
    → Shape size b
    → (j lo n : ℕ) → j ≤ lo
    → lo + n ≤ size
    → (b j).type ≡ type_right
    → values b lo n ≡ []
values_right size b shape j lo n k h r =
    values_none b lo n λ i l u. ground (arith, Shape-le size b shape j i)

pub values_left :
    (size : ℕ) (b : Slots)
    → Shape size b
    → (j lo n : ℕ) → lo + n ≤ suc j
    → j < size
    → (b j).type ≡ type_left
    → values b lo n ≡ []
values_left size b shape j lo n k h r =
    values_none b lo n λ i l u. ground (arith, Shape-le size b shape i j)

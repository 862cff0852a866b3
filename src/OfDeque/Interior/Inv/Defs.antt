-- ===== src/OfDeque/Interior/Inv/Defs.antt =====
-- The invariant of the interior protocol: the shape of the buffer, what each thread knows of the
-- slots that it has loaded, and what two threads on the same edge know of each other.
use unbounded_obstruction_fr.Base.{ℕ, suc, ◌≤◌, ◌<◌, ◌≡◌, ◌≢◌, true, []}
use unbounded_obstruction_fr.OfDeque.Slot.{
  SlotType, type_left, type_right, type_sealed, type_value, Side, Slot, far_type, near_type,
  far_index,
}
use unbounded_obstruction_fr.OfDeque.Interior.{
  Pc, idle, looping, near_loaded, edge_loaded, checked, armed, hinting, push, pop, interior,
}

abbrev pub Slots : Type 0
Slots = ℕ → Slot

abbrev pub rank : SlotType → ℕ
rank type_left = 0
rank type_value = 1
rank type_sealed = 1
rank type_right = 2

-- From left to right: left nulls, then values, then right nulls.
abbrev pub Shape : ℕ → Slots → Type 0
Shape size b = (i : ℕ) → suc i < size → rank (b i).type ≤ rank (b (suc i)).type

-- `s` is a past state of slot `i`, and its present state if the counters agree.
pub record Tracks (b : Slots) (i : ℕ) (s : Slot) : Type 0 where
  pub past : s.count ≤ (b i).count
  pub same : s.count ≡ (b i).count → b i ≡ s

-- The loaded slots passed the checks on the edge.
pub record Edge (size : ℕ) (side : Side) (i : ℕ) (near far : Slot) : Type 0 where
  pub inside : interior size side i ≡ true
  pub near_not_far : near.type ≢ far_type side
  pub near_not_sealed : near.type ≢ type_sealed
  pub far_is_far : far.type ≡ far_type side

module _ (size : ℕ) where
  abbrev pub Local : Slots → Pc → Type 0
  Local b idle = Unit
  Local b (looping _ _) = Unit
  Local b (hinting _ _) = Unit
  Local b (near_loaded side op i near) = (interior size side i ≡ true) × Tracks b i near
  Local b (edge_loaded side op i near far seen) =
      Edge size side i near far
      × Tracks b i near
      × Tracks b (far_index side i) far
      × (near.count ≡ (b i).count → near.type ≡ near_type side → seen ≡ [])
  Local b (checked side (push v) i near far) =
      Edge size side i near far × Tracks b i near × Tracks b (far_index side i) far
  Local b (checked side pop i near far) =
      Edge size side i near far
      × Tracks b i near
      × Tracks b (far_index side i) far
      × (near.count ≡ (b i).count → near.type ≡ type_value)
  Local b (armed side (push v) i near far) =
      Edge size side i near far
      × (near.count < (b i).count)
      × Tracks b (far_index side i) far
      × (far.count ≡ (b (far_index side i)).count → (b i).type ≢ far_type side)
  Local b (armed side pop i near far) =
      Edge size side i near far
      × Tracks b i near
      × (far.count < (b (far_index side i)).count)
      × (near.count ≡ (b i).count → near.type ≡ type_value)
      × (near.count ≡ (b i).count → (b (far_index side i)).type ≡ far_type side)

-- If a popper's `casSafe` came before a pusher loaded the far slot, then the pusher's `casSafe`
-- came after the popper loaded the near slot.
abbrev pub Pair : Pc → Pc → Type 0
Pair (armed side (push _) i near far) (armed side' pop i' near' far') =
    side ≡ side' → i ≡ i' → far'.count < far.count → near'.count ≤ near.count
Pair _ _ = Unit

pub record Inv (size bound : ℕ) (b : Slots) (pc : ℕ → Pc) : Type 0 where
  pub shape : Shape size b
  pub small : (i : ℕ) → (b i).count ≤ bound
  pub local : (t : ℕ) → Local size b (pc t)
  pub pair : (t u : ℕ) → Pair (pc t) (pc u)

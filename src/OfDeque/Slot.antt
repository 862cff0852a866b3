-- ===== src/OfDeque/Slot.antt =====
-- deque/OFDeque.hpp: the slots of a buffer, the compare-and-exchange operations on them, and the
-- indices, directions and types that the two sides see.
use unbounded_obstruction_fr.Base.{
  ℕ, ◌+◌, ◌-◌, ◌%◌, ◌^◌, Bool, true, false, not, ◌&&◌, ◌||◌, ◌==◌, ltb, if◌then◌else◌, update,
}

-- `enum Type`
pub data SlotType : Type 0 where
  type_left type_right type_sealed type_value : SlotType

-- `enum Side`
pub data Side : Type 0 where
  side_left side_right : Side

-- A slot: the union of a value of at most four bytes and a link (pointers have 32 bits, since the
-- code compares a slot as one 64-bit word), a counter of 30 bits, and the type.
pub record Slot : Type 0 where
  pub word : ℕ
  pub count : ℕ
  pub type : SlotType

abbrev pub same_type : SlotType → SlotType → Bool
same_type type_left type_left = true
same_type type_right type_right = true
same_type type_sealed type_sealed = true
same_type type_value type_value = true
same_type _ _ = false

-- The comparison of two slots as 64-bit words.
abbrev pub same_slot : Slot → Slot → Bool
same_slot a b = (a.word == b.word) && (a.count == b.count) && same_type a.type b.type

-- `exp.m_count + 1` in the 30-bit field
abbrev pub bump : ℕ → ℕ
bump c = (c + 1) % 2 ^ 30

abbrev pub far_type : Side → SlotType
far_type side_left = type_left
far_type side_right = type_right

abbrev pub near_type : Side → SlotType
near_type side_left = type_right
near_type side_right = type_left

-- `nearIndex + GetFarDirection<S>()`, at an index that has a neighbour on that side
abbrev pub far_index : Side → ℕ → ℕ
far_index side_left i = i - 1
far_index side_right i = i + 1

module _ (size : ℕ) where
  abbrev pub far_link_index : Side → ℕ
  far_link_index side_left = 0
  far_link_index side_right = size - 1

  abbrev pub near_link_index : Side → ℕ
  near_link_index side_left = size - 1
  near_link_index side_right = 0

  abbrev pub far_value_index : Side → ℕ
  far_value_index side_left = 1
  far_value_index side_right = size - 2

  abbrev pub near_value_index : Side → ℕ
  near_value_index side_left = size - 2
  near_value_index side_right = 1

-- A buffer. The local hints are 32-bit integers in two's complement; there is a slot at each index
-- below the buffer's size.
pub record Buffer : Type 0 where
  pub left_hint : ℕ
  pub right_hint : ℕ
  pub slots : ℕ → Slot

-- `compare_exchange_strong` on one slot
abbrev pub cas_slot : Buffer → ℕ → Slot → Slot → Bool × Buffer
cas_slot b i exp s =
    if same_slot (b.slots i) exp
    then (true, record b { slots = update b.slots i s })
    else (false, b)

unfoldable pub cas_safe : Buffer → ℕ → Slot → Bool × Buffer
cas_safe b i exp = cas_slot b i exp (record exp { count = bump exp.count })

-- The new slot's word is not initialised: `junk` is what it happens to hold.
unfoldable pub cas_type : Buffer → ℕ → Slot → SlotType → (junk : ℕ) → Bool × Buffer
cas_type b i exp type junk =
    cas_slot b i exp (record { word = junk; count = bump exp.count; type = type })

unfoldable pub cas_value : Buffer → ℕ → Slot → ℕ → Bool × Buffer
cas_value b i exp value =
    cas_slot b i exp (record { word = value; count = bump exp.count; type = type_value })

unfoldable pub cas_link : Buffer → ℕ → Slot → ℕ → Bool × Buffer
cas_link b i exp link =
    cas_slot b i exp (record { word = link; count = bump exp.count; type = type_value })

-- `GetLocalHint<S>(buffer).fetch_add(GetFarDirection<S>())`, and its opposite after a pop
unfoldable pub move_hint : Buffer → Side → (outwards : Bool) → Buffer
move_hint b side_left true = record b { left_hint = (b.left_hint + 2 ^ 32 - 1) % 2 ^ 32 }
move_hint b side_left false = record b { left_hint = (b.left_hint + 1) % 2 ^ 32 }
move_hint b side_right true = record b { right_hint = (b.right_hint + 1) % 2 ^ 32 }
move_hint b side_right false = record b { right_hint = (b.right_hint + 2 ^ 32 - 1) % 2 ^ 32 }

-- The checks of `doPush` and `doPop` on the edge that the oracle returned.
unfoldable pub edge_ok : (size : ℕ) → Side → ℕ → Slot → Slot → Bool
edge_ok size side i near far =
    not (
      same_type near.type (far_type side)
      || (same_type near.type type_sealed && not (i == far_value_index size side)))
    && (far_index side i == far_link_index size side || same_type far.type (far_type side))
    && (not (i == near_link_index size side) || same_type near.type (near_type side))

-- `Buffer::fill`. Only the types are initialised: `raw` is what the memory held.
unfoldable pub fill : (raw : ℕ → Slot) → (split : ℕ) → Buffer
fill raw split = record {
  left_hint = split;
  right_hint = (split + 2 ^ 32 - 1) % 2 ^ 32;
  slots = λ i. record (raw i) { type = if ltb i split then type_left else type_right };
}

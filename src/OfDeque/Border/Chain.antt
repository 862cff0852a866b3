-- ===== src/OfDeque/Border/Chain.antt =====
-- deque/OFDeque.hpp: the chain of linked buffers, and what the deque holds in it.
use unbounded_obstruction_fr.Base.{
  ℕ, zero, suc, ◌+◌, ◌-◌, ◌≤◌, ◌<◌, ◌≡◌, ◌≢◌, refl, sym, ap, Bool-cases, inl, inr, true, false,
  List, [], ◌∷◌, ◌++◌, append-nil, append_assoc, arith, ◌==◌, ==_iff, ==_self, ==-ne, le_or_lt,
  update,
}
use unbounded_obstruction_fr.OfDeque.Slot.{
  SlotType, type_value, Side, side_left, side_right, Slot, same_type, same_slot, far_type,
  far_link_index, near_link_index, far_value_index, near_value_index, Buffer,
}
use unbounded_obstruction_fr.OfDeque.Interior.{values}
use unbounded_obstruction_fr.OfDeque.Interior.Inv.{values_none, values-split}

-- The list `b` joined to `a` on the side that is far.
abbrev pub glue : Side → List ℕ → List ℕ → List ℕ
glue side_left a b = b ++ a
glue side_right a b = a ++ b

pub glue_nil : (side : Side) (a : List ℕ) → glue side a [] ≡ a
glue_nil side_left a = refl
glue_nil side_right a = append-nil a

pub glue_assoc :
    (side : Side) (a b c : List ℕ) → glue side a (glue side b c) ≡ glue side (glue side a b) c
glue_assoc side_left a b c = append_assoc c b a
glue_assoc side_right a b c = sym (append_assoc a b c)

abbrev pub Apart : ℕ → List ℕ → Type 0
Apart a [] = Unit
Apart a (b ∷ chain) = (a ≢ b) × Apart a chain

same_yes : (a : SlotType) → a ≡ type_value → same_type a type_value ≡ true
same_yes a e = ground arith

same_no : (a : SlotType) → a ≢ type_value → same_type a type_value ≡ false
same_no a ne = ground arith

-- Where the links and the outermost values stand.
pub record Indices (size : ℕ) (side : Side) : Type 0 where
  pub links : (near_link_index size side == far_link_index size side) ≡ false
  pub near_out : (far_value_index size side == near_link_index size side) ≡ false
  pub far_out : (far_value_index size side == far_link_index size side) ≡ false
  pub near_in : (near_value_index size side == near_link_index size side) ≡ false
  pub far_in : (near_value_index size side == far_link_index size side) ≡ false
  pub in_low : 1 ≤ near_value_index size side
  pub in_high : near_value_index size side < 1 + (size - 2)
  pub far_outside : 1 ≤ far_link_index size side → far_link_index size side < 1 + (size - 2) → ⊥
  pub near_outside : 1 ≤ near_link_index size side → near_link_index size side < 1 + (size - 2) → ⊥

pub indices : (size : ℕ) (side : Side) → 3 ≤ size → Indices size side
indices size side_left large = record {
  links = ground arith;
  near_out = ground arith;
  far_out = ground arith;
  near_in = ground arith;
  far_in = ground arith;
  in_low = omega arith;
  in_high = omega arith;
  far_outside = λ p q. omega arith;
  near_outside = λ p q. omega arith;
}
indices size side_right large = record {
  links = ground arith;
  near_out = ground arith;
  far_out = ground arith;
  near_in = ground arith;
  far_in = ground arith;
  in_low = omega arith;
  in_high = omega arith;
  far_outside = λ p q. omega arith;
  near_outside = λ p q. omega arith;
}

pub same_slot_self : (s : Slot) → same_slot s s ≡ true
same_slot_self s = ground arith

pub far_not_value : (side : Side) → far_type side ≢ type_value
far_not_value side_left e = ground arith
far_not_value side_right e = ground arith

module _ (size : ℕ) where
  -- The values of a buffer, between its two links.
  abbrev pub held : Buffer → List ℕ
  held b = values b.slots 1 (size - 2)

  pub values_same :
      (f g : ℕ → Slot) (lo n : ℕ)
      → ((i : ℕ) → lo ≤ i → i < lo + n → ((f i).type ≡ (g i).type) × ((f i).word ≡ (g i).word))
      → values f lo n ≡ values g lo n
  unfolding values
  values_same f g lo zero same = refl
  values_same f g lo (suc n) same =
      let (t, w) = same lo (omega arith) (omega arith) in
      rw (t, w, values_same f g (suc lo) n (λ i p q. same i (omega arith) (omega arith))) refl

  -- A write of a slot that is not a value slot, or that keeps the value.
  pub values-update :
      (f : ℕ → Slot) (j : ℕ) (s : Slot) (lo n : ℕ)
      → (lo ≤ j → j < lo + n → (s.type ≡ (f j).type) × (s.word ≡ (f j).word))
      → values (update f j s) lo n ≡ values f lo n
  values-update f j s lo n same = values_same (update f j s) f lo n (λ i l u.
      elim (Bool-cases (j == i)) [
        | inl e ↦
            let here : j ≡ i = (==_iff _ _).0 e in
            let (t, w) = same (omega arith) (omega arith) in rw (e, ← here) (t, w)
        | inr e ↦ rw e (refl, refl)
      ])

  -- One value among slots without any.
  pub values_single :
      (f : ℕ → Slot) (j : ℕ) (lo n : ℕ)
      → lo ≤ j
      → j < lo + n
      → (f j).type ≡ type_value
      → ((i : ℕ) → lo ≤ i → i < lo + n → i ≢ j → (f i).type ≢ type_value)
      → values f lo n ≡ (f j).word ∷ []
  unfolding values
  values_single f j lo zero p q v others = absurd (omega arith)
  values_single f j lo (suc n) p q v others = elim (le_or_lt j lo) [
    | inl le ↦
        let here : lo ≡ j = omega arith in
        let rest : values f (suc lo) n ≡ [] =
          values_none f (suc lo) n
            (λ i l u. others i (omega arith) (omega arith) (λ e. absurd (omega arith))) in
        rw (here, v) (rw (← here, rest) refl)
    | inr lt ↦ ground (
      arith,
      others lo (omega arith) (omega arith),
      values_single f j (suc lo) n (omega arith) (omega arith) v
          (λ i l u. others i (omega arith) (omega arith)),
    )
  ]

  -- A value taken from the outermost slot.
  pub held_out :
      (side : Side) (f g : ℕ → Slot)
      → 3 ≤ size
      → (let out = far_value_index size side in
          (f out).type ≡ type_value
          → (g out).type ≢ type_value
          → ((i : ℕ) → i ≢ out → g i ≡ f i)
          → values f 1 (size - 2) ≡ glue side (values g 1 (size - 2)) ((f out).word ∷ []))
  unfolding values
  held_out side_left f g large v gone others =
      let count : size - 2 ≡ suc (size - 3) = omega arith in
      let rest : values g 2 (size - 3) ≡ values f 2 (size - 3) =
        values_same g f 2 (size - 3) (λ i l u.
          (ap (λ s. s.type) (others i (omega arith)), ap (λ s. s.word) (others i (omega arith)))) in
      rw (count, same_yes _ v, same_no _ gone, rest) refl
  held_out side_right f g large v gone others =
      let count : size - 2 ≡ size - 3 + 1 = omega arith in
      let last : 1 + (size - 3) ≡ size - 2 = omega arith in
      let rest : values g 1 (size - 3) ≡ values f 1 (size - 3) =
        values_same g f 1 (size - 3) (λ i l u.
          (ap (λ s. s.type) (others i (omega arith)), ap (λ s. s.word) (others i (omega arith)))) in
      rw
        (
          count,
          values-split f 1 (size - 3) 1,
          values-split g 1 (size - 3) 1,
          rest,
          last,
          same_yes _ v,
          same_no _ gone,
          append-nil,
        )
        (ap (λ i. values f 1 (size - 3) ++ (f i).word ∷ []) count)

  module _ (side : Side) where
    -- What the deque holds, if the buffers of the chain are listed from the far end on.
    abbrev pub content : (ℕ → Buffer) → List ℕ → List ℕ
    content m [] = []
    content m (b ∷ chain) = glue side (content m chain) (held (m b))

    -- The two links between neighbors.
    abbrev pub Linked : (ℕ → Buffer) → (neighbor : ℕ) → List ℕ → Type 0
    Linked m neighbor [] = Unit
    Linked m neighbor (b ∷ chain) =
        let far = (m b).slots (far_link_index size side) in
        let back = (m neighbor).slots (near_link_index size side) in
        ((far.type ≡ type_value) × (far.word ≡ neighbor))
        × ((back.type ≡ type_value) × (back.word ≡ b))

    abbrev pub IsChain : (ℕ → Buffer) → List ℕ → Type 0
    IsChain m [] = Unit
    IsChain m (b ∷ chain) = Apart b chain × Linked m b chain × IsChain m chain

    -- The link at the far end is a far null.
    abbrev pub Ends : (ℕ → Buffer) → (b : ℕ) → Type 0
    Ends m b = ((m b).slots (far_link_index size side)).type ≡ far_type side

    -- A write of a buffer that keeps what it holds.
    pub content_same :
        (m : ℕ → Buffer) (a : ℕ) (b : Buffer) (chain : List ℕ)
        → held b ≡ held (m a)
        → content (update m a b) chain ≡ content m chain
    content_same m a b [] same = refl
    content_same m a b (c ∷ chain) same =
        let rest = content_same m a b chain same in
        elim (Bool-cases (a == c)) [
          | inl e ↦ rw (e, rest, same, (==_iff _ _).0 e) refl
          | inr e ↦ rw (e, rest) refl
        ]

    pub content-Apart :
        (m : ℕ → Buffer) (a : ℕ) (b : Buffer) (chain : List ℕ)
        → Apart a chain
        → content (update m a b) chain ≡ content m chain
    content-Apart m a b [] apart = refl
    content-Apart m a b (c ∷ chain) (ne, apart) =
        rw (==-ne a c ne, content-Apart m a b chain apart) refl

    update_head : (m : ℕ → Buffer) (a : ℕ) (b : Buffer) → update m a b a ≡ b
    update_head m a b = rw (==_self a) refl

    Linked-Apart :
        (m : ℕ → Buffer) (a : ℕ) (b : Buffer) (n : ℕ) (chain : List ℕ)
        → a ≢ n
        → Apart a chain
        → Linked m n chain
        → Linked (update m a b) n chain
    Linked-Apart m a b n [] ne apart l = l
    Linked-Apart m a b n (c ∷ chain) ne (ne', apart) l = rw (==-ne a n ne, ==-ne a c ne') l

    pub IsChain-Apart :
        (m : ℕ → Buffer) (a : ℕ) (b : Buffer) (chain : List ℕ)
        → Apart a chain
        → IsChain m chain
        → IsChain (update m a b) chain
    IsChain-Apart m a b [] apart l = l
    IsChain-Apart m a b (c ∷ chain) (ne, apart) (p, q, r) =
        (p, Linked-Apart m a b c chain ne apart q, IsChain-Apart m a b chain apart r)

    -- A write of the buffer at the far end that keeps its link inwards.
    pub IsChain-head :
        (m : ℕ → Buffer) (a : ℕ) (b : Buffer) (chain : List ℕ)
        → b.slots (near_link_index size side) ≡ (m a).slots (near_link_index size side)
        → IsChain m (a ∷ chain)
        → IsChain (update m a b) (a ∷ chain)
    IsChain-head m a b [] same l = l
    IsChain-head m a b (c ∷ chain) same (p, q, r) =
        (p, rw (==_self a, ==-ne a c p.0, same) q, IsChain-Apart m a b (c ∷ chain) p r)

    -- A write of the buffer next to the one at the far end that keeps both of its links.
    pub IsChain-second :
        (m : ℕ → Buffer) (a : ℕ) (b : Buffer) (n : ℕ) (chain : List ℕ)
        → b.slots (near_link_index size side) ≡ (m a).slots (near_link_index size side)
        → b.slots (far_link_index size side) ≡ (m a).slots (far_link_index size side)
        → IsChain m (n ∷ a ∷ chain)
        → IsChain (update m a b) (n ∷ a ∷ chain)
    IsChain-second m a b n chain near far (p, q, r) =
        (p, rw (==_self a, ==-ne a n (λ e. p.0 (sym e)), far) q, IsChain-head m a b chain near r)

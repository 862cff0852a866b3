-- ===== src/HazardTracker/Slots.antt =====
-- cpp_harness/HazardTracker.cpp: each thread writes its own slots, and what it reserves is seen.
use unbounded_obstruction_fr.Base.{
  ℕ, zero, suc, ◌+◌, ◌*◌, ◌≤◌, ◌<◌, ◌≡◌, ◌≢◌, refl, Bool, true, Option, some, List, [], ◌∷◌, length,
  get_elem?, get_elem?-set_self, get_elem?-set_ne, length-set, length-replicate, arith, ◌∙◌, sym,
  ap,
}
use native.Mathlib.Decide.{dec_lt, ℕ_discrete}
use unbounded_obstruction_fr.HazardTracker.Release.{count, retire_lem}
use unbounded_obstruction_fr.HazardTracker.{
  Tracker, create, slot_index, reserve, clear_slot, clear_below, clear_all, danger, retire,
  returned,
}

-- There is a slot for every thread and number.
pub record IsValid (h : Tracker) : Type 0 where
  pub slots : length h.slots ≡ h.task_num * h.slots_per_thread

pub create-IsValid : (n k freq : ℕ) (collect : Bool) → IsValid (create n k freq collect)
unfolding create
create-IsValid n k freq collect = record { slots = length-replicate (n * k) 0 }

pub reserve-IsValid :
    (h : Tracker) (ptr slot tid : ℕ) → IsValid h → IsValid (reserve h ptr slot tid)
unfolding reserve
reserve-IsValid h ptr slot tid v = record {
  slots = length-set h.slots (slot_index h slot tid) ptr ∙ v.slots;
}

reserve_freed :
    (h : Tracker) (ptr slot tid a : ℕ) → count a (reserve h ptr slot tid).freed ≡ count a h.freed
unfolding reserve
reserve_freed h ptr slot tid a = refl

slot_index-lt :
    (h : Tracker) (slot tid : ℕ)
    → slot < h.slots_per_thread
    → tid < h.task_num
    → slot_index h slot tid < h.task_num * h.slots_per_thread
slot_index-lt h slot tid p q = grind arith

row_le : (k a b : ℕ) → a < b → a * k + k ≤ b * k
row_le k a b h = grind arith

-- Different threads have different slots, and so have different numbers.
pub slot_index-injective :
    (h : Tracker) (slot slot' tid tid' : ℕ)
    → slot < h.slots_per_thread
    → slot' < h.slots_per_thread
    → slot_index h slot tid ≡ slot_index h slot' tid'
    → (slot ≡ slot') × (tid ≡ tid')
slot_index-injective h slot slot' tid tid' p q e = elim (dec_lt tid tid') [
  | yes l ↦ absurd (omega (arith, row_le h.slots_per_thread tid tid' l))
  | no l ↦ elim (dec_lt tid' tid) [
    | yes g ↦ absurd (omega (arith, row_le h.slots_per_thread tid' tid g))
    | no g ↦
        let same : tid ≡ tid' = omega arith in
        (omega (arith, ap (λ t. t * h.slots_per_thread) same), same)
  ]
]

danger_of_elem :
    (slots : List ℕ) (i ptr : ℕ) → get_elem? slots i ≡ some ptr → danger slots ptr ≡ true
unfolding danger
danger_of_elem [] i ptr h = cc
danger_of_elem (s ∷ slots) zero ptr h = ground arith
danger_of_elem (s ∷ slots) (suc i) ptr h = ground (arith, danger_of_elem slots i ptr h)

-- What a slot holds.
abbrev pub slot_of : Tracker → (slot tid : ℕ) → Option ℕ
slot_of h slot tid = get_elem? h.slots (slot_index h slot tid)

module _ (h : Tracker) (ptr slot tid : ℕ) (v : IsValid h) (p : slot < h.slots_per_thread) where
  reserve_self : tid < h.task_num → slot_of (reserve h ptr slot tid) slot tid ≡ some ptr
  unfolding reserve
  reserve_self q =
      get_elem?-set_self h.slots (slot_index h slot tid) ptr
        (rw v.slots (slot_index-lt h slot tid p q))

  reserve_other :
      (slot' tid' : ℕ)
      → slot' < h.slots_per_thread
      → (slot ≡ slot' → tid ≢ tid')
      → slot_of (reserve h ptr slot tid) slot' tid' ≡ slot_of h slot' tid'
  unfolding reserve
  reserve_other slot' tid' p' ne =
      get_elem?-set_ne h.slots ptr
        λ e. let (a, b) = slot_index-injective h slot slot' tid tid' p p' e in ne a b

  -- A reservation is in its slot and in no other, and no `retire` that returns releases the block
  -- while it stands there.
  pub reserve_protects :
      tid < h.task_num
      → (slot_of (reserve h ptr slot tid) slot tid ≡ some ptr)
        × ((slot' tid' : ℕ)
            → slot' < h.slots_per_thread
            → (slot ≡ slot' → tid ≢ tid')
            → slot_of (reserve h ptr slot tid) slot' tid' ≡ slot_of h slot' tid')
        × ((block u : ℕ) (h' : Tracker)
            → block ≢ 0
            → retire (reserve h ptr slot tid) block u ≡ returned h'
            → count ptr h'.freed ≡ count ptr h.freed)
  unfolding reserve
  reserve_protects q = (
    reserve_self q,
    reserve_other,
    λ block u h' ne e.
        (retire_lem (reserve h ptr slot tid) block u ne e).reserved ptr (
          danger_of_elem (reserve h ptr slot tid).slots (slot_index h slot tid) ptr
            (reserve_self q))
        ∙ reserve_freed h ptr slot tid ptr,
  )

clear_slot-reserve : (h : Tracker) (slot tid : ℕ) → clear_slot h slot tid ≡ reserve h 0 slot tid
unfolding clear_slot reserve
clear_slot-reserve h slot tid = refl

module _ (h : Tracker) (tid : ℕ) (v : IsValid h) (q : tid < h.task_num) where
  -- After the first `n` rounds of the loop of `clearAll`.
  record Cleared (n : ℕ) (g : Tracker) : Type 0 where
    valid : IsValid g
    per_thread : g.slots_per_thread ≡ h.slots_per_thread
    threads : g.task_num ≡ h.task_num
    own : (slot : ℕ) → slot < n → slot_of g slot tid ≡ some 0
    others :
        (slot' tid' : ℕ)
        → slot' < h.slots_per_thread
        → tid' ≢ tid
        → slot_of g slot' tid' ≡ slot_of h slot' tid'

  Cleared-next :
      (n : ℕ) (g : Tracker)
      → n < h.slots_per_thread
      → Cleared n g
      → Cleared (suc n) (reserve g 0 n tid)
  unfolding reserve
  Cleared-next n g p c =
      let fits : n < g.slots_per_thread = rw c.per_thread p in
      let mine : tid < g.task_num = rw c.threads q in
      record {
        valid = reserve-IsValid g 0 n tid c.valid;
        per_thread = c.per_thread;
        threads = c.threads;
        own = λ slot l. elim (ℕ_discrete n slot) [
          | yes e ↦ rw (← e) (reserve_self g 0 n tid c.valid fits mine)
          | no ne ↦
              reserve_other g 0 n tid c.valid fits slot tid (omega (arith, c.per_thread))
                (λ e. absurd (ne e))
              ∙ c.own slot (omega arith)
        ];
        others = λ slot' tid' l ne.
            reserve_other g 0 n tid c.valid fits slot' tid' (omega (arith, c.per_thread))
              (λ e e'. ne (sym e'))
            ∙ c.others slot' tid' l ne;
      }

  clear_below-Cleared : (n : ℕ) → n ≤ h.slots_per_thread → Cleared n (clear_below h n tid)
  unfolding clear_below
  clear_below-Cleared zero p = record {
    valid = v;
    per_thread = refl;
    threads = refl;
    own = λ slot l. absurd (omega arith);
    others = λ _ _ _ _. refl;
  }
  clear_below-Cleared (suc n) p =
      let c = clear_below-Cleared n (omega arith) in
      rw (clear_slot-reserve (clear_below h n tid) n tid) (Cleared-next n (clear_below h n tid) p c)

  -- `clearAll` clears every slot of its thread and no slot of another.
  pub clear_all_lem :
      (slot tid' : ℕ)
      → slot < h.slots_per_thread
      → (slot_of (clear_all h tid) slot tid ≡ some 0)
        × (tid' ≢ tid → slot_of (clear_all h tid) slot tid' ≡ slot_of h slot tid')
  unfolding clear_all
  clear_all_lem slot tid' l =
      let c = clear_below-Cleared h.slots_per_thread (omega arith) in
      (c.own slot l, c.others slot tid' l)

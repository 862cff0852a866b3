-- ===== src/CountedPointer/Serial.antt =====
-- cpp_harness/ConcurrentPrimitives.hpp: the serial number tells words with the same pointer apart.
use unbounded_obstruction_fr.Base.{
  ℕ, ◌+◌, ◌%◌, ◌^◌, ◌<◌, ◌≡◌, ◌≢◌, refl, ap, ◌∙◌, true, false, some, List, [], ◌∷◌, ◌++◌, length,
  arith, ==-ne, ==_self,
}
use unbounded_obstruction_fr.CountedPointer.{pack, ptr, sn, cas, stored, store_ptr}

-- What is packed is unpacked, and fits into 64 bits.
pub pack_lem :
    (p n : ℕ)
    → p < 2 ^ 32
    → n < 2 ^ 32
    → (ptr (pack p n) ≡ p) × (sn (pack p n) ≡ n) × (pack p n < 2 ^ 64)
unfolding pack ptr sn
pack_lem p n h k = (omega arith, omega arith, omega arith)

-- Every word of 64 bits is what its parts pack to.
pub pack-ptr-sn : (ui : ℕ) → ui < 2 ^ 64 → pack (ptr ui) (sn ui) ≡ ui
unfolding pack ptr sn
pack-ptr-sn ui h = omega arith

sn-pack : (p n : ℕ) → sn (pack p n) ≡ n % 2 ^ 32
unfolding pack sn
sn-pack p n = omega arith

cas_self : (ui p : ℕ) → cas ui ui p ≡ (true, pack p (sn ui + 1))
unfolding cas
cas_self ui p = rw (==_self ui) refl

cas_other : (ui oldval p : ℕ) → ui ≢ oldval → cas ui oldval p ≡ (false, ui)
unfolding cas
cas_other ui oldval p ne = rw (==-ne ui oldval ne) refl

sn_bound : (ui : ℕ) → sn ui < 2 ^ 32
unfolding sn
sn_bound ui = omega arith

sn-stored : (ui : ℕ) (ps : List ℕ) → sn (stored ui ps) ≡ (sn ui + length ps) % 2 ^ 32
unfolding stored
sn-stored ui [] = omega (arith, sn_bound ui)
sn-stored ui (p ∷ ps) =
    rw (cas_self ui p)
      (sn-stored (pack p (sn ui + 1)) ps ∙ rw (sn-pack p (sn ui + 1)) (omega arith))

-- A `CAS` with an old value fails if others have stored pointers since, the same pointer or another,
-- but fewer than 2 ^ 32 of them.
pub cas-stored :
    (ui newval : ℕ) (ps : List ℕ)
    → 0 < length ps
    → length ps < 2 ^ 32
    → cas (stored ui ps) ui newval ≡ (false, stored ui ps)
cas-stored ui newval ps some_stored few =
    cas_other (stored ui ps) ui newval (λ e. omega (arith, ap sn e, sn-stored ui ps, sn_bound ui))

-- Rounds in which others are in between.
abbrev pub Contended : List (List ℕ) → Type 0
Contended [] = Unit
Contended (ps ∷ rounds) = (0 < length ps) × (length ps < 2 ^ 32) × Contended rounds

abbrev pub all_stored : ℕ → List (List ℕ) → ℕ
all_stored ui [] = ui
all_stored ui (ps ∷ rounds) = all_stored (stored ui ps) rounds

-- In rounds in each of which others store at least one and fewer than 2 ^ 32 pointers in between, `storePtr`
-- goes on, and in the first round in which none is stored in between, it stores its pointer with the next
-- serial number.
pub store_ptr_lem :
    (ui newval : ℕ) (rounds : List (List ℕ))
    → Contended rounds
    → store_ptr (rounds ++ ([] ∷ [])) newval ui ≡ some (pack newval (sn (all_stored ui rounds) + 1))
unfolding store_ptr stored
store_ptr_lem ui newval [] h = rw (cas_self ui newval) refl
store_ptr_lem ui newval (ps ∷ rounds) (p, q, h) =
    rw (cas-stored ui newval ps p q) (store_ptr_lem (stored ui ps) newval rounds h)

-- ===== src/CountedPointer.antt =====
-- cpp_harness/ConcurrentPrimitives.hpp: counted pointers, a pointer of 32 bits and a serial number of 32
-- bits in one 64-bit word.
pub mod Serial
mod Tests
use unbounded_obstruction_fr.Base.{
  ℕ, ◌+◌, ◌*◌, ◌/◌, ◌%◌, ◌^◌, Bool, true, false, Option, none, some, List, [], ◌∷◌, ◌==◌,
  if◌then◌else◌,
}

-- `init(T* ptr, uint32_t sn)`
unfoldable pub pack : (ptr sn : ℕ) → ℕ
pack ptr sn = (ptr % 2 ^ 32 * 2 ^ 32 + sn % 2 ^ 32) % 2 ^ 64

unfoldable pub ptr : ℕ → ℕ
ptr ui = ui / 2 ^ 32 % 2 ^ 32

unfoldable pub sn : ℕ → ℕ
sn ui = ui % 2 ^ 32

-- `CAS`: whether it succeeds, and the word after it.
unfoldable pub cas : (ui oldval newval : ℕ) → Bool × ℕ
unfolding pack sn
cas ui oldval newval = if ui == oldval then (true, pack newval (sn oldval + 1)) else (false, ui)

-- The word after others have stored pointers, one after the other.
unfoldable pub stored : ℕ → List ℕ → ℕ
unfolding cas
stored ui [] = ui
stored ui (p ∷ ps) = stored (cas ui ui p).1 ps

abbrev after_cas : Bool × ℕ → Option ℕ → Option ℕ
after_cas (true, ui) again = some ui
after_cas (false, ui) again = again

-- `storePtr`: each entry of the first list is what others store between the load and the exchange of
-- one round of the loop, and the result is `none` if there are no more rounds.
unfoldable pub store_ptr : List (List ℕ) → (newval ui : ℕ) → Option ℕ
unfolding stored cas
store_ptr [] newval ui = none
store_ptr (others ∷ rounds) newval ui =
    let again = store_ptr rounds newval (stored ui others) in
    after_cas (cas (stored ui others) ui newval) again

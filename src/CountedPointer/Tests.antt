-- ===== src/CountedPointer/Tests.antt =====
-- Counted pointers, and the theorems at them.
use unbounded_obstruction_fr.Base.{ℕ, ◌+◌, ◌≡◌, Bool, false, some, [], ◌∷◌, ◌++◌, arith}
use unbounded_obstruction_fr.CountedPointer.{pack, sn, cas, stored, store_ptr}
use unbounded_obstruction_fr.CountedPointer.Serial.{cas-stored, all_stored, store_ptr_lem}

-- The pointer 64 is replaced and put back, and the exchange fails.
cas-stored_example :
    ◌≡◌ {A = Bool × ℕ}
      (cas (stored (pack 64 7) (32 ∷ 64 ∷ [])) (pack 64 7) 96)
      (false, stored (pack 64 7) (32 ∷ 64 ∷ []))
cas-stored_example = cas-stored (pack 64 7) 96 (32 ∷ 64 ∷ []) (omega arith) (omega arith)

store_ptr_lem_example :
    store_ptr (((32 ∷ 64 ∷ []) ∷ []) ++ ([] ∷ [])) 96 (pack 64 7)
    ≡ some (pack 96 (sn (all_stored (pack 64 7) ((32 ∷ 64 ∷ []) ∷ [])) + 1))
store_ptr_lem_example =
    store_ptr_lem (pack 64 7) 96 ((32 ∷ 64 ∷ []) ∷ []) (omega arith, omega arith, tt)

-- ===== src/HazardTracker/Tests.antt =====
-- Calls of the hazard tracker, and the theorems at them.
use unbounded_obstruction_fr.Base.{
  ℕ, ◌<◌, ◌≡◌, ◌≢◌, refl, true, some, [], ◌∷◌, arith, update, replicate,
}
use unbounded_obstruction_fr.HazardTracker.{
  Tracker, returned, undefined, reserve, danger, empty, retire,
}
use unbounded_obstruction_fr.HazardTracker.Release.{
  count, Moves, retire_lem, HalfReleased, empty_undefined, empty-HalfReleased,
}
use unbounded_obstruction_fr.HazardTracker.Slots.{slot_of, reserve_protects}

-- Two threads with two slots each, in the second of which thread 1 has block 5.
abbrev two : Tracker
two = record {
  task_num = 2;
  slots_per_thread = 2;
  freq = 2;
  collect = true;
  slots = 0 ∷ 0 ∷ 0 ∷ 5 ∷ [];
  cntrs = λ _. 2;
  retired = λ _. 5 ∷ 6 ∷ [];
  freed = [];
}

-- Thread 0 retires block 7, and its list is scanned: 5 stays, 6 is released and 7 passed over.
abbrev after : Tracker
after = record two {
  cntrs = update (update two.cntrs 0 0) 0 1;
  retired = update (update two.retired 0 (5 ∷ 6 ∷ 7 ∷ [])) 0 (5 ∷ 7 ∷ []);
  freed = 6 ∷ [];
}

retire-two : retire two 7 0 ≡ returned after
unfolding retire
retire-two = refl

retire_lem_example : Moves two 0 (7 ∷ []) after
retire_lem_example = retire_lem two 7 0 (omega arith) retire-two

-- The same without a reservation.
abbrev unreserved : Tracker
unreserved = record two { slots = 0 ∷ 0 ∷ 0 ∷ 0 ∷ [] }

abbrev three : Tracker
three = record unreserved { retired = λ _. 5 ∷ 6 ∷ 7 ∷ [] }

empty_undefined_example : empty three 0 ≡ undefined
unfolding danger
empty_undefined_example = empty_undefined three 0 (refl, (refl, (refl, tt))) (omega arith)

empty-HalfReleased_example : HalfReleased unreserved 0 (empty unreserved 0)
unfolding danger
empty-HalfReleased_example = empty-HalfReleased unreserved 0 (refl, (refl, tt)) (omega arith)

abbrev fresh : Tracker
fresh = record {
  task_num = 2;
  slots_per_thread = 2;
  freq = 2;
  collect = true;
  slots = replicate 4 0;
  cntrs = λ _. 0;
  retired = λ _. [];
  freed = [];
}

reserve_protects_example :
    (slot_of (reserve fresh 9 1 1) 1 1 ≡ some 9)
    × ((slot' tid' : ℕ)
        → slot' < 2
        → (1 ≡ slot' → 1 ≢ tid')
        → slot_of (reserve fresh 9 1 1) slot' tid' ≡ slot_of fresh slot' tid')
    × ((block u : ℕ) (h' : Tracker)
        → block ≢ 0
        → retire (reserve fresh 9 1 1) block u ≡ returned h'
        → count 9 h'.freed ≡ count 9 fresh.freed)
reserve_protects_example =
    reserve_protects fresh 9 1 1 (record { slots = refl }) (omega arith) (omega arith)

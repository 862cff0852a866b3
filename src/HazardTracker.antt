-- ===== src/HazardTracker.antt =====
-- cpp_harness/HazardTracker.cpp: hazard slots, the blocks that each thread has retired, and their
-- release to the allocator.
pub mod Release
pub mod Slots
mod Tests
use unbounded_obstruction_fr.Base.{
  ℕ, zero, suc, ◌+◌, ◌*◌, Bool, true, false, ◌&&◌, ◌||◌, Option, none, some, List, [], ◌∷◌, ◌++◌,
  ◌==◌, if◌then◌else◌, update, set, replicate,
}

-- Pointers are numbers, and `NULL` is 0. The allocator is outside: `freed` lists the blocks that were
-- handed to its `freeBlock`, the last one first.
pub record Tracker : Type 0 where
  pub task_num : ℕ
  pub slots_per_thread : ℕ
  pub freq : ℕ
  pub collect : Bool
  pub slots : List ℕ
  pub cntrs : ℕ → ℕ
  pub retired : ℕ → List ℕ
  pub freed : List ℕ

-- How a call ends: it returns, an assertion fails, or its behaviour is undefined.
pub data Outcome (A : Type 0) : Type 0 where
  returned : A → Outcome A
  aborted : Outcome A
  undefined : Outcome A

-- The constructor; the four-argument one passes `true`.
unfoldable pub create : ℕ → ℕ → ℕ → Bool → Tracker
create task_num slots_per_thread empty_freq collect = record {
  task_num = task_num;
  slots_per_thread = slots_per_thread;
  freq = empty_freq;
  collect = collect;
  slots = replicate (task_num * slots_per_thread) 0;
  cntrs = λ _. 0;
  retired = λ _. [];
  freed = [];
}

-- The index of a thread's slot.
abbrev pub slot_index : Tracker → (slot tid : ℕ) → ℕ
slot_index h slot tid = tid * h.slots_per_thread + slot

unfoldable pub reserve : Tracker → (ptr slot tid : ℕ) → Tracker
reserve h ptr slot tid = record h { slots = set h.slots (slot_index h slot tid) ptr }

unfoldable pub clear_slot : Tracker → (slot tid : ℕ) → Tracker
clear_slot h slot tid = record h { slots = set h.slots (slot_index h slot tid) 0 }

-- The loop of `clearAll`, whose `i` goes up to the count: the slots below `n` are cleared.
clear_below : Tracker → ℕ → (tid : ℕ) → Tracker
unfolding clear_slot
clear_below h zero tid = h
clear_below h (suc n) tid = clear_slot (clear_below h n tid) n tid

unfoldable pub clear_all : Tracker → (tid : ℕ) → Tracker
unfolding clear_below
clear_all h tid = clear_below h h.slots_per_thread tid

-- The inner loop of `empty`: is the block in some slot?
pub danger : List ℕ → ℕ → Bool
danger [] ptr = false
danger (s ∷ slots) ptr = ptr == s || danger slots ptr

abbrev pub keep : ℕ → Option (List ℕ × List ℕ) → Option (List ℕ × List ℕ)
keep p none = none
keep p (some (kept, freed)) = some (p ∷ kept, freed)

abbrev pub release : ℕ → Option (List ℕ × List ℕ) → Option (List ℕ × List ℕ)
release p none = none
release p (some (kept, freed)) = some (kept, p ∷ freed)

-- The outer loop of `empty` over the blocks from the iterator on: those that stay, and those that are
-- freed, in order. `erase` returns the iterator of the next block, and the loop's `++` then passes it
-- over; behind the last block that `++` is undefined, which is `none`.
pub scan : List ℕ → List ℕ → Option (List ℕ × List ℕ)
scan slots [] = some ([], [])
scan slots (p ∷ []) = if danger slots p then some (p ∷ [], []) else none
scan slots (p ∷ (q ∷ rest)) =
    let stay = keep p (scan slots (q ∷ rest)) in
    let go = release p (keep q (scan slots rest)) in if danger slots p then stay else go

abbrev pub reversed_onto : List ℕ → List ℕ → List ℕ
reversed_onto [] out = out
reversed_onto (x ∷ xs) out = reversed_onto xs (x ∷ out)

-- The end of `empty`: what stays in the thread's list, and what the allocator has got.
abbrev pub finish : Tracker → (tid : ℕ) → Option (List ℕ × List ℕ) → Outcome Tracker
finish h tid none = undefined
finish h tid (some (kept, freed)) =
    returned (record h { retired = update h.retired tid kept; freed = reversed_onto freed h.freed })

pub empty : Tracker → (tid : ℕ) → Outcome Tracker
unfolding scan danger
empty h tid = finish h tid (scan h.slots (h.retired tid))

abbrev pub counted : (tid : ℕ) → Outcome Tracker → Outcome Tracker
counted tid (returned h) = returned (record h { cntrs = update h.cntrs tid (h.cntrs tid + 1) })
counted tid aborted = aborted
counted tid undefined = undefined

-- `myTrash->push_back(ptr)`
abbrev pub added : Tracker → (ptr tid : ℕ) → Tracker
added h ptr tid = record h { retired = update h.retired tid (h.retired tid ++ (ptr ∷ [])) }

-- `cntrs[tid]=0`
abbrev pub restarted : Tracker → (tid : ℕ) → Tracker
restarted h tid = record h { cntrs = update h.cntrs tid 0 }

pub retire : Tracker → (ptr tid : ℕ) → Outcome Tracker
unfolding danger empty
retire h ptr tid =
    if ptr == 0
    then returned h
    else if danger (h.retired tid) ptr
    then aborted
    else if h.collect && h.cntrs tid == h.freq
    then counted tid (empty (restarted (added h ptr tid) tid) tid)
    else counted tid (returned (added h ptr tid))

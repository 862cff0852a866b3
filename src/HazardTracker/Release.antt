-- ===== src/HazardTracker/Release.antt =====
-- cpp_harness/HazardTracker.cpp: which blocks `empty` and `retire` release.
use unbounded_obstruction_fr.Base.{
  ℕ, ◌+◌, ◌*◌, ◌%◌, ◌≡◌, ◌≢◌, ◌∙◌, ap, sym, refl, true, false, Bool-cases, inl, inr, ◌&&◌, Option,
  none, some, List, [], ◌∷◌, ◌++◌, ◌==◌, if◌then◌else◌, update, update_self, update_other, ==-ne,
  length, arith,
}
use unbounded_obstruction_fr.HazardTracker.{
  Tracker, Outcome, returned, aborted, undefined, danger, keep, release, scan, reversed_onto,
  finish, empty, added, restarted, counted, retire,
}

-- How often a block stands in a list.
unfoldable pub count : ℕ → List ℕ → ℕ
count a [] = 0
count a (x ∷ xs) = (if a == x then 1 else 0) + count a xs

abbrev pub All : (ℕ → Type 0) → List ℕ → Type 0
All P [] = Unit
All P (x ∷ xs) = P x × All P xs

count-append : (a : ℕ) (xs ys : List ℕ) → count a (xs ++ ys) ≡ count a xs + count a ys
unfolding count
count-append a [] ys = omega arith
count-append a (x ∷ xs) ys = omega (arith, count-append a xs ys)

count-reversed : (a : ℕ) (xs ys : List ℕ) → count a (reversed_onto xs ys) ≡ count a xs + count a ys
unfolding count
count-reversed a [] ys = omega arith
count-reversed a (x ∷ xs) ys = ground (arith, count-reversed a xs (x ∷ ys))

-- What a defined pass over the retired blocks does: it neither loses nor copies a block, and frees
-- no block that is in a slot.
pub record Split (slots l kept freed : List ℕ) : Type 0 where
  pub conserved : (a : ℕ) → count a kept + count a freed ≡ count a l
  pub safe : All (λ p. danger slots p ≡ false) freed

abbrev SplitOf : List ℕ → List ℕ → Option (List ℕ × List ℕ) → Type 0
SplitOf slots l none = Unit
SplitOf slots l (some (kept, freed)) = Split slots l kept freed

SplitOf-keep :
    (slots l : List ℕ) (p : ℕ) (o : Option (List ℕ × List ℕ))
    → SplitOf slots l o
    → SplitOf slots (p ∷ l) (keep p o)
unfolding count
SplitOf-keep slots l p none s = tt
SplitOf-keep slots l p (some (k, f)) s = record {
  conserved = λ a. ground (arith, s.conserved a);
  safe = s.safe;
}

SplitOf-release :
    (slots l : List ℕ) (p : ℕ) (o : Option (List ℕ × List ℕ))
    → danger slots p ≡ false
    → SplitOf slots l o
    → SplitOf slots (p ∷ l) (release p o)
unfolding count
SplitOf-release slots l p none d s = tt
SplitOf-release slots l p (some (k, f)) d s = record {
  conserved = λ a. ground (arith, s.conserved a);
  safe = (d, s.safe);
}

scan-SplitOf : (slots l : List ℕ) → SplitOf slots l (scan slots l)
unfolding scan count
scan-SplitOf slots [] = record { conserved = λ a. omega arith; safe = tt }
scan-SplitOf slots (p ∷ []) = elim (Bool-cases (danger slots p)) [
  | inl d ↦ rw d (record { conserved = λ a. omega arith; safe = tt })
  | inr d ↦ rw d tt
]
scan-SplitOf slots (p ∷ (q ∷ rest)) = elim (Bool-cases (danger slots p)) [
  | inl d ↦ rw d (SplitOf-keep slots (q ∷ rest) p _ (scan-SplitOf slots (q ∷ rest)))
  | inr d ↦ rw d (
      SplitOf-release slots (q ∷ rest) p _ d
        (SplitOf-keep slots rest q _ (scan-SplitOf slots rest)))
]

pub scan-Split :
    (slots l : List ℕ) {kept freed : List ℕ}
    → scan slots l ≡ some (kept, freed)
    → Split slots l kept freed
scan-Split slots l h = rw h at (scan-SplitOf slots l)

-- With no block in a slot, every other block is freed, and an odd number of blocks ends in a step
-- past the end.
abbrev Half : List ℕ → Option (List ℕ × List ℕ) → Type 0
Half l none = length l % 2 ≡ 1
Half l (some (kept, freed)) = (length kept ≡ length freed) × (length l ≡ 2 * length freed)

Half-step :
    (p q : ℕ) (l : List ℕ) (o : Option (List ℕ × List ℕ))
    → Half l o
    → Half (p ∷ (q ∷ l)) (release p (keep q o))
Half-step p q l none h = omega arith
Half-step p q l (some (k, f)) h = omega arith

scan-Half : (slots l : List ℕ) → All (λ p. danger slots p ≡ false) l → Half l (scan slots l)
unfolding scan
scan-Half slots [] h = omega arith
scan-Half slots (p ∷ []) h = rw h.0 (omega arith)
scan-Half slots (p ∷ (q ∷ rest)) h =
    rw h.0 (Half-step p q rest (scan slots rest) (scan-Half slots rest h.1.1))

count_safe :
    (slots freed : List ℕ) (a : ℕ)
    → All (λ p. danger slots p ≡ false) freed
    → danger slots a ≡ true
    → count a freed ≡ 0
unfolding count
count_safe slots [] a h d = refl
count_safe slots (x ∷ freed) a h d = ground (arith, count_safe slots freed a)

-- A call that returns moves the thread's blocks from `retired` to `freed`, none that is in a slot,
-- and adds the blocks of `new`.
pub record Moves (h : Tracker) (tid : ℕ) (new : List ℕ) (h' : Tracker) : Type 0 where
  pub conserved :
      (a : ℕ)
      → count a (h'.retired tid) + count a h'.freed
        ≡ count a (h.retired tid) + count a h.freed + count a new
  pub reserved : (a : ℕ) → danger h.slots a ≡ true → count a h'.freed ≡ count a h.freed
  pub others : (u : ℕ) → u ≢ tid → (h'.retired u ≡ h.retired u) × (h'.cntrs u ≡ h.cntrs u)
  pub same_slots : h'.slots ≡ h.slots

abbrev MovesOf : Tracker → ℕ → List ℕ → Outcome Tracker → Type 0
MovesOf h tid new (returned h') = Moves h tid new h'
MovesOf h tid new aborted = Unit
MovesOf h tid new undefined = Unit

finish-MovesOf :
    (h : Tracker) (tid : ℕ) (o : Option (List ℕ × List ℕ))
    → SplitOf h.slots (h.retired tid) o
    → MovesOf h tid [] (finish h tid o)
unfolding count
finish-MovesOf h tid none s = tt
finish-MovesOf h tid (some (k, f)) s = record {
  conserved = λ a.
      rw (update_self h.retired tid k) (omega (arith, count-reversed a f h.freed, s.conserved a));
  reserved = λ a d. omega (arith, count-reversed a f h.freed, count_safe h.slots f a s.safe d);
  others = λ u ne. (ground arith, refl);
  same_slots = refl;
}

empty-MovesOf : (h : Tracker) (tid : ℕ) → MovesOf h tid [] (empty h tid)
unfolding empty
empty-MovesOf h tid = finish-MovesOf h tid _ (scan-SplitOf h.slots (h.retired tid))

-- The block is added, and then, if it is time, the list is scanned.
MovesOf-add :
    (h g : Tracker) (ptr tid : ℕ) (o : Outcome Tracker)
    → g.slots ≡ h.slots
    → g.freed ≡ h.freed
    → g.retired ≡ update h.retired tid (h.retired tid ++ (ptr ∷ []))
    → ((u : ℕ) → u ≢ tid → g.cntrs u ≡ h.cntrs u)
    → MovesOf g tid [] o
    → MovesOf h tid (ptr ∷ []) (counted tid o)
unfolding count
MovesOf-add h g ptr tid aborted e1 e2 e3 e4 m = tt
MovesOf-add h g ptr tid undefined e1 e2 e3 e4 m = tt
MovesOf-add h g ptr tid (returned g') e1 e2 e3 e4 m = record {
  conserved = λ a. omega (
    arith,
    m.conserved a,
    ap (λ (r : ℕ → List ℕ). count a (r tid)) e3
        ∙ ap (count a) (update_self h.retired tid (h.retired tid ++ (ptr ∷ []))),
    ap (count a) e2,
    count-append a (h.retired tid) (ptr ∷ []),
  );
  reserved = λ a d. m.reserved a (rw e1 d) ∙ ap (count a) e2;
  others = λ u ne. (
    (m.others u ne).0
        ∙ (ap (λ (r : ℕ → List ℕ). r u) e3 ∙ update_other h.retired tid u _ (λ e. ne (sym e))),
    update_other g'.cntrs tid u _ (λ e. ne (sym e)) ∙ ((m.others u ne).1 ∙ e4 u ne),
  );
  same_slots = m.same_slots ∙ e1;
}

MovesOf-refl : (h : Tracker) (tid : ℕ) → MovesOf h tid [] (returned h)
unfolding count
MovesOf-refl h tid = record {
  conserved = λ a. omega arith;
  reserved = λ a d. refl;
  others = λ u ne. (refl, refl);
  same_slots = refl;
}

retire-MovesOf : (h : Tracker) (ptr tid : ℕ) → ptr ≢ 0 → MovesOf h tid (ptr ∷ []) (retire h ptr tid)
unfolding retire
retire-MovesOf h ptr tid ne = rw (==-ne ptr 0 ne) (elim (Bool-cases (danger (h.retired tid) ptr)) [
  | inl d ↦ rw d tt
  | inr d ↦ rw d (elim (Bool-cases (h.collect && h.cntrs tid == h.freq)) [
    | inl c ↦ rw c (
        MovesOf-add h (restarted (added h ptr tid) tid) ptr tid
          (empty (restarted (added h ptr tid) tid) tid) refl refl refl
          (λ u other. update_other h.cntrs tid u 0 (λ e. other (sym e)))
          (empty-MovesOf (restarted (added h ptr tid) tid) tid))
    | inr c ↦ rw c (
        MovesOf-add h (added h ptr tid) ptr tid (returned (added h ptr tid)) refl refl refl
          (λ u other. refl) (MovesOf-refl (added h ptr tid) tid))
  ])
])

-- `retire` of a block: if it returns, the block and those retired before are in the thread's list or
-- released, none that stands in a slot is released, and no other thread's list changes.
pub retire_lem :
    (h : Tracker) (ptr tid : ℕ) {h' : Tracker}
    → ptr ≢ 0
    → retire h ptr tid ≡ returned h'
    → Moves h tid (ptr ∷ []) h'
retire_lem h ptr tid ne e = rw e at (retire-MovesOf h ptr tid ne)

finish-Half :
    (h : Tracker) (tid : ℕ) (o : Option (List ℕ × List ℕ))
    → Half (h.retired tid) o
    → length (h.retired tid) % 2 ≡ 1
    → finish h tid o ≡ undefined
finish-Half h tid none p odd = refl
finish-Half h tid (some (k, f)) p odd = absurd (omega arith)

-- If no retired block stands in a slot and their number is odd, `empty` steps past the end of the list.
pub empty_undefined :
    (h : Tracker) (tid : ℕ)
    → All (λ p. danger h.slots p ≡ false) (h.retired tid)
    → length (h.retired tid) % 2 ≡ 1
    → empty h tid ≡ undefined
unfolding empty
empty_undefined h tid safe odd = finish-Half h tid _ (scan-Half h.slots (h.retired tid) safe) odd

length-reversed : (xs ys : List ℕ) → length (reversed_onto xs ys) ≡ length xs + length ys
length-reversed [] ys = omega arith
length-reversed (x ∷ xs) ys = omega (arith, length-reversed xs (x ∷ ys))

-- Half of the retired blocks have gone to the allocator.
abbrev pub HalfReleased : Tracker → ℕ → Outcome Tracker → Type 0
HalfReleased h tid (returned h') =
    (2 * length (h'.retired tid) ≡ length (h.retired tid))
    × (2 * length h'.freed ≡ 2 * length h.freed + length (h.retired tid))
HalfReleased h tid aborted = ⊥
HalfReleased h tid undefined = ⊥

finish-HalfReleased :
    (h : Tracker) (tid : ℕ) (o : Option (List ℕ × List ℕ))
    → Half (h.retired tid) o
    → length (h.retired tid) % 2 ≡ 0
    → HalfReleased h tid (finish h tid o)
finish-HalfReleased h tid none p even = absurd (omega arith)
finish-HalfReleased h tid (some (k, f)) p even =
    rw (update_self h.retired tid k) (omega arith, omega (arith, length-reversed f h.freed))

-- If no retired block stands in a slot and their number is even, `empty` returns, and half of the blocks
-- are released and half stay in the list.
pub empty-HalfReleased :
    (h : Tracker) (tid : ℕ)
    → All (λ p. danger h.slots p ≡ false) (h.retired tid)
    → length (h.retired tid) % 2 ≡ 0
    → HalfReleased h tid (empty h tid)
unfolding empty
empty-HalfReleased h tid safe even =
    finish-HalfReleased h tid _ (scan-Half h.slots (h.retired tid) safe) even

-- ===== src/OfDeque/Hints/Sealed.antt =====
-- deque/OFDeque.hpp: `isSealed` is a snapshot of two slots.
use unbounded_obstruction_fr.Base.{
  ℕ, zero, suc, ◌+◌, ◌*◌, ◌-◌, ◌≤◌, ◌<◌, ◌≡◌, refl, sym, ap, Bool-cases, inl, inr, true, Option,
  some, arith, ◌==◌, IfSome, IfSome-weaken, if_cases, ==_iff,
}
use unbounded_obstruction_fr.OfDeque.Slot.{Slot}
use unbounded_obstruction_fr.OfDeque.Hints.{History, is_sealed, sealed_index}

-- A slot whose counter goes up with every change and does not wrap round.
abbrev pub Counted : (ℕ → Slot) → Type 0
Counted f =
    (t u : ℕ) → t ≤ u → ((f t).count ≤ (f u).count) × ((f t).count ≡ (f u).count → f u ≡ f t)

abbrev pub slot_at : History → (buffer i : ℕ) → ℕ → Slot
slot_at h buffer i t = ((h t).buffers buffer).slots i

module _ (size : ℕ) (h : History) (buffer : ℕ) where
  -- At time `u` from `t` up to before `t'`, the two slots are as the result says.
  pub record Snapshot (t : ℕ) (result : Option ℕ) (t' : ℕ) : Type 0 where
    pub at : ℕ
    pub since : t ≤ at
    pub until : at < t'
    pub value : result ≡ sealed_index size (slot_at h buffer 1 at) (slot_at h buffer (size - 2) at)

  abbrev pub IsSnapshot : ℕ → Option ℕ × ℕ → Type 0
  IsSnapshot t (result, t') = Snapshot t result t'

  later : {t₀ t t' : ℕ} {r : Option ℕ} → t₀ ≤ t → Snapshot t r t' → Snapshot t₀ r t'
  later le s = record {
    at = s.at;
    since = omega (arith, s.since);
    until = s.until;
    value = s.value;
  }

  pub is_sealed-Snapshot :
      Counted (slot_at h buffer 1)
      → (fuel t : ℕ) → IfSome (IsSnapshot t) (is_sealed size fuel h buffer t)
  unfolding is_sealed
  is_sealed-Snapshot counted zero t = tt
  is_sealed-Snapshot counted (suc fuel) t =
      if_cases (IfSome (IsSnapshot t)) _
        (λ same.
          let quiet : (slot_at h buffer 1 t).count ≡ (slot_at h buffer 1 (t + 2)).count =
            (==_iff _ _).0 same in
          let before = counted t (t + 1) (omega arith) in
          let after = counted (t + 1) (t + 2) (omega arith) in
          record {
            at = t + 1;
            since = omega arith;
            until = omega arith;
            value =
                ap (λ s. sealed_index size s (slot_at h buffer (size - 2) (t + 1)))
                  (sym (before.1 (omega (arith, before.0, after.0, quiet))));
          })
        (λ changed.
          IfSome-weaken {P = IsSnapshot (t + 3)} {Q = IsSnapshot t}
            (λ r s. later {t₀ = t} {t = t + 3} (omega arith) s)
            (is_sealed size fuel h buffer (t + 3)) (is_sealed-Snapshot counted fuel (t + 3)))

  -- `isSealed` returns in its round `k`, if the counter of the slot 1 does not change during that round.
  pub is_sealed_ends :
      (k t : ℕ)
      → (slot_at h buffer 1 (t + 3 * k)).count ≡ (slot_at h buffer 1 (t + 3 * k + 2)).count
      → (r : Option ℕ × ℕ) × (is_sealed size (suc k) h buffer t ≡ some r) × (r.1 ≤ t + 3 * k + 3)
  unfolding is_sealed
  is_sealed_ends zero t quiet =
      let same : ((slot_at h buffer 1 t).count == (slot_at h buffer 1 (t + 2)).count) ≡ true =
        ground (arith, quiet) in
      rw same (_, refl, omega arith)
  is_sealed_ends (suc k) t quiet =
      elim (Bool-cases ((slot_at h buffer 1 t).count == (slot_at h buffer 1 (t + 2)).count)) [
        | inl same ↦ rw same (_, refl, omega arith)
        | inr changed ↦ rw changed (
            let shift : t + 3 * suc k ≡ t + 3 + 3 * k = omega arith in
            let (r, e, le) = is_sealed_ends k (t + 3) (rw shift at quiet) in
            (r, e, omega (arith, le)))
      ]

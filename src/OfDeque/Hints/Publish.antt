-- ===== src/OfDeque/Hints/Publish.antt =====
-- deque/OFDeque.hpp: what `reserveHint`, `findActiveBuffer` and `updateHint` return with.
use unbounded_obstruction_fr.Base.{
  ℕ, zero, suc, ◌+◌, ◌-◌, ◌%◌, ◌^◌, ◌≤◌, ◌<◌, ◌≡◌, ◌≢◌, refl, sym, ◌∙◌, ap, Bool-cases,
  Option-cases, ◌⊎◌, inl, inr, Bool, true, false, not, none, some, arith, ◌==◌, ltb, IfSome,
  IfSome-weaken, ==_iff, ==_apart,
}
use unbounded_obstruction_fr.OfDeque.Slot.{Slot, Side, side_left, side_right}
use unbounded_obstruction_fr.OfDeque.Hints.{
  History, GlobalHint, global_hint, Hazards, reserve, reserved, reserve_hint, is_sealed,
  sealed_index, link_index, Active, active, hint_changed, aborted, active_from, find_active_buffer,
  Update, done_by_others, published, lost, failed, same_hint, publish, after_active, update_round,
  update_from, update_hint,
}
use unbounded_obstruction_fr.OfDeque.Hints.Sealed.{Counted, slot_at, Snapshot, is_sealed-Snapshot}

module _ (side : Side) (h : History) where
  -- The buffer of the hint stands in the hazard slot, and after it was put there the count of the hint
  -- was still the same.
  pub record Reserved (z : Hazards) (second : Bool) (t : ℕ) (hint : GlobalHint) (z' : Hazards)
      (t' : ℕ) : Type 0 where
    pub here : reserved z' second ≡ hint.buffer
    pub other : reserved z' (not second) ≡ reserved z (not second)
    pub at : ℕ
    pub since : t ≤ at
    pub loaded : global_hint side (h at) ≡ hint
    pub ends : t' ≡ at + 2
    pub still : (global_hint side (h (at + 1))).count ≡ hint.count

  abbrev pub IsReserved : Hazards → Bool → ℕ → GlobalHint × Hazards × ℕ → Type 0
  IsReserved z second t (hint, z', t') = Reserved z second t hint z' t'

  reserve_lem :
      (z : Hazards) (p : ℕ) (second : Bool)
      → (reserved (reserve z p second) second ≡ p)
        × (reserved (reserve z p second) (not second) ≡ reserved z (not second))
  reserve_lem z p false = (refl, refl)
  reserve_lem z p true = (refl, refl)

  pub reserve_hint-Reserved :
      (fuel : ℕ) (z : Hazards) (second : Bool) (t : ℕ)
      → IfSome (IsReserved z second t) (reserve_hint fuel side h z second t)
  unfolding reserve_hint
  reserve_hint-Reserved zero z second t = tt
  reserve_hint-Reserved (suc fuel) z second t =
      let p = (global_hint side (h t)).buffer in
      let (here, other) = reserve_lem z p second in
      elim (Bool-cases ((global_hint side (h t)).count == (global_hint side (h (t + 1))).count)) [
        | inl same ↦ rw same (record {
          here = here;
          other = other;
          at = t;
          since = omega arith;
          loaded = refl;
          ends = refl;
          still = sym ((==_iff _ _).0 same);
        })
        | inr changed ↦ rw changed (
            IfSome-weaken {P = IsReserved (reserve z p second) second (t + 2)}
              {Q = IsReserved z second t}
              (λ r s. record {
                here = s.here;
                other = s.other ∙ other;
                at = s.at;
                since = omega (arith, s.since);
                loaded = s.loaded;
                ends = s.ends;
                still = s.still;
              })
              (reserve_hint fuel side h (reserve z p second) second (t + 2))
              (reserve_hint-Reserved fuel (reserve z p second) second (t + 2)))
      ]

module _ (size : ℕ) (side : Side) (h : History)
    (counted : (buffer : ℕ) → Counted (slot_at h buffer 1)) where
  -- The buffer was not sealed at some time from `t` up to before `t'`.
  Unsealed : (buffer t t' : ℕ) → Type 0
  Unsealed buffer t t' = Snapshot size h buffer t none t'

  link_of_sealed :
      (n0 n1 : Slot) (i : ℕ) → sealed_index size n0 n1 ≡ some i → link_index size side i ≢ none
  unfolding link_index
  link_of_sealed n0 n1 i e = elim side [ side_left ↦ ground arith | side_right ↦ ground arith ]

  -- A buffer that was not sealed, and that is the hint's or stands in a hazard slot; or the hint's count
  -- was another at a time before the end. No assertion fails.
  abbrev pub IsActive : GlobalHint → ℕ → Active → Type 0
  IsActive hint t (active buffer z t') =
      Snapshot size h buffer t none t'
      × ((buffer ≡ hint.buffer) ⊎ ((second : Bool) × (reserved z second ≡ buffer)))
  IsActive hint t (hint_changed z t') =
      (u : ℕ) × (t ≤ u) × (u < t') × ((global_hint side (h u)).count ≢ hint.count)
  IsActive hint t aborted = ⊥

  IsActive-later :
      (hint : GlobalHint) (t t' : ℕ)
      → t ≤ t'
      → (r : Active) → IsActive hint t' r
      → IsActive hint t r
  IsActive-later hint t t' le (active buffer z e) (s, p) =
      (record { at = s.at; since = omega (arith, s.since); until = s.until; value = s.value }, p)
  IsActive-later hint t t' le (hint_changed z e) (u, p, q, ne) = (u, omega arith, q, ne)
  IsActive-later hint t t' le aborted a = a

  twice :
      (z : Hazards) (p : ℕ) (second : Bool) → reserved (reserve z p second) (not (not second)) ≡ p
  twice z p false = refl
  twice z p true = refl

  active_from-IsActive :
      (hint : GlobalHint) (fuel : ℕ) (z : Hazards) (second : Bool) (buffer t : ℕ)
      → (buffer ≡ hint.buffer) ⊎ (reserved z (not second) ≡ buffer)
      → IfSome (IsActive hint t) (active_from size fuel side h hint z second buffer t)
  unfolding active_from
  active_from-IsActive hint zero z second buffer t p = tt
  active_from-IsActive hint (suc fuel) z second buffer t p =
      let snap = is_sealed-Snapshot size h buffer (counted buffer) (suc fuel) t in
      elim (Option-cases (is_sealed size (suc fuel) h buffer t)) [
        | inl e ↦ rw (e, IfSome) tt
        | inr ((none, t'), e) ↦
            rw (e, IfSome)
              (rw (e, IfSome) at snap, elim p [ inl q ↦ inl q | inr q ↦ inr (not second, q) ])
        | inr ((some i, t'), e) ↦
            rw (e, IfSome)
              (let snap' : Snapshot size h buffer t (some i) t' = rw (e, IfSome) at snap in
                elim (Option-cases (link_index size side i)) [
                  | inl none_there ↦ absurd (
                      link_of_sealed (slot_at h buffer 1 snap'.at)
                        (slot_at h buffer (size - 2) snap'.at) i (sym snap'.value) none_there)
                  | inr (link, at) ↦
                      let next = (((h t').buffers buffer).slots link).word in
                      rw at
                        (elim (Bool-cases (hint.count == (global_hint side (h (t' + 1))).count)) [
                          | inl same ↦ rw same (
                              IfSome-weaken {P = IsActive hint (t' + 2)} {Q = IsActive hint t}
                                (λ r a.
                                  IsActive-later hint t (t' + 2)
                                    (omega (arith, snap'.since, snap'.until)) r a)
                                _
                                (active_from-IsActive hint fuel (reserve z next second) (not second)
                                  next (t' + 2) (inr (twice z next second))))
                          | inr changed ↦ rw changed (
                            t' + 1,
                            omega (arith, snap'.since, snap'.until),
                            omega arith,
                            λ c. ==_apart hint.count _ changed (sym c),
                          )
                        ])
                ])
      ]

  -- The hint's buffer, or a link of a buffer that was seen to be sealed, was `NULL` at a time from `t` on.
  abbrev pub NullSeen : (t : ℕ) → Type 0
  NullSeen t =
      ((u : ℕ) × (t ≤ u) × ((global_hint side (h u)).buffer ≡ 0))
      ⊎ ((buffer i link u : ℕ) × Snapshot size h buffer t (some i) u
          × (link_index size side i ≡ some link)
          × ((((h u).buffers buffer).slots link).word ≡ 0))

  NullSeen-later : (t t' : ℕ) → t ≤ t' → NullSeen t' → NullSeen t
  NullSeen-later t t' le (inl (u, p, e)) = inl (u, omega arith, e)
  NullSeen-later t t' le (inr (buffer, i, link, u, s, e, null)) = inr (
    buffer,
    i,
    link,
    u,
    record { at = s.at; since = omega (arith, s.since); until = s.until; value = s.value },
    e,
    null,
  )

  -- Why a buffer that was found is `NULL`.
  abbrev IfNull : (t : ℕ) → Active → Type 0
  IfNull t (active buffer z t') = buffer ≡ 0 → NullSeen t
  IfNull t (hint_changed z t') = Unit
  IfNull t aborted = Unit

  active_from-IfNull :
      (hint : GlobalHint) (fuel : ℕ) (z : Hazards) (second : Bool) (buffer t₀ t : ℕ)
      → t₀ ≤ t
      → (buffer ≡ 0 → NullSeen t₀)
      → IfSome (IfNull t₀) (active_from size fuel side h hint z second buffer t)
  unfolding active_from
  active_from-IfNull hint zero z second buffer t₀ t le null = tt
  active_from-IfNull hint (suc fuel) z second buffer t₀ t le null =
      let snap = is_sealed-Snapshot size h buffer (counted buffer) (suc fuel) t in
      elim (Option-cases (is_sealed size (suc fuel) h buffer t)) [
        | inl e ↦ rw (e, IfSome) tt
        | inr ((none, t'), e) ↦ rw (e, IfSome) null
        | inr ((some i, t'), e) ↦
            rw (e, IfSome)
              (let s : Snapshot size h buffer t (some i) t' = rw (e, IfSome) at snap in
                elim (Option-cases (link_index size side i)) [
                  | inl none_there ↦ rw (none_there, IfSome) tt
                  | inr (link, at) ↦
                      let next = (((h t').buffers buffer).slots link).word in
                      let s₀ : Snapshot size h buffer t₀ (some i) t' = record {
                        at = s.at;
                        since = omega (arith, s.since);
                        until = s.until;
                        value = s.value;
                      } in
                      rw at
                        (elim (Bool-cases (hint.count == (global_hint side (h (t' + 1))).count)) [
                          | inl same ↦ rw same (
                              active_from-IfNull hint fuel (reserve z next second) (not second) next
                                t₀ (t' + 2) (omega (arith, s.since, s.until))
                                (λ zero_link. inr (buffer, i, link, t', s₀, at, zero_link)))
                          | inr changed ↦ rw changed tt
                        ])
                ])
      ]

  -- How `updateHint` ends: the count has passed the threshold, or it has exchanged the hint that stood
  -- there for one with the next count and a buffer that was not sealed at a time before, or its assertion
  -- has failed.
  abbrev pub IsUpdated : (threshold t : ℕ) → Update → Type 0
  IsUpdated threshold t (done_by_others t') =
      (u : ℕ) × (t ≤ u) × (u < t') × (threshold < (global_hint side (h u)).count)
  IsUpdated threshold t (published hint t') =
      (u : ℕ) × (t ≤ u)
      × (t' ≡ u + 1)
      × (hint.count ≡ ((global_hint side (h u)).count + 1) % 2 ^ 32)
      × Snapshot size h hint.buffer t none u
  IsUpdated threshold t (lost z t') = ⊥
  IsUpdated threshold t failed = NullSeen t

  -- The same for a round, which may have lost its exchange.
  abbrev IsRound : (threshold t : ℕ) → Update → Type 0
  IsRound threshold t (lost z t') = t ≤ t'
  IsRound threshold t other = IsUpdated threshold t other

  same_count : (a b : GlobalHint) → same_hint a b ≡ true → b.count ≡ a.count
  same_count a b e = ground arith

  publish-IsRound :
      (threshold t : ℕ) (hint : GlobalHint) (buffer t' : ℕ) (z : Hazards)
      → Snapshot size h buffer t none t'
      → IsRound threshold t (publish side h hint buffer z t')
  publish-IsRound threshold t hint buffer t' z s =
      elim (Bool-cases (same_hint (global_hint side (h t')) hint)) [
        | inl same ↦ rw same (
          t',
          omega (arith, s.since, s.until),
          refl,
          ap (λ c. (c + 1) % 2 ^ 32) (same_count (global_hint side (h t')) hint same),
          s,
        )
        | inr other ↦ rw other (omega (arith, s.since, s.until))
      ]

  after_active-IsRound :
      (threshold t : ℕ) (hint : GlobalHint) (found : Active)
      → IsActive hint t found
      → IfNull t found
      → IsRound threshold t (after_active side h hint found)
  after_active-IsRound threshold t hint (active buffer z t') (s, p) null =
      elim (Bool-cases (buffer == 0)) [
        | inl e ↦ rw e (null ((==_iff buffer 0).0 e))
        | inr e ↦ rw e (publish-IsRound threshold t hint buffer t' z s)
      ]
  after_active-IsRound threshold t hint (hint_changed z t') (u, p, q, ne) null = omega arith
  after_active-IsRound threshold t hint aborted a null = absurd a

  IsUpdated-later :
      (threshold t t' : ℕ)
      → t ≤ t'
      → (r : Update) → IsUpdated threshold t' r
      → IsUpdated threshold t r
  IsUpdated-later threshold t t' le (done_by_others e) (u, p, q, c) = (u, omega arith, q, c)
  IsUpdated-later threshold t t' le (published hint e) (u, p, q, c, s) = (
    u,
    omega arith,
    q,
    c,
    record { at = s.at; since = omega (arith, s.since); until = s.until; value = s.value },
  )
  IsUpdated-later threshold t t' le (lost z e) a = a
  IsUpdated-later threshold t t' le failed a = NullSeen-later t t' le a

  IsRound-later :
      (threshold t t' : ℕ) → t ≤ t' → (r : Update) → IsRound threshold t' r → IsRound threshold t r
  IsRound-later threshold t t' le (done_by_others e) a =
      IsUpdated-later threshold t t' le (done_by_others e) a
  IsRound-later threshold t t' le (published hint e) a =
      IsUpdated-later threshold t t' le (published hint e) a
  IsRound-later threshold t t' le (lost z e) a = omega arith
  IsRound-later threshold t t' le failed a = NullSeen-later t t' le a

  update_round-IsRound :
      (threshold fuel : ℕ) (z : Hazards) (t : ℕ)
      → IfSome (IsRound threshold t) (update_round size fuel side h threshold z t)
  unfolding update_round find_active_buffer
  update_round-IsRound threshold fuel z t =
      let hint = global_hint side (h t) in
      let snap = is_sealed-Snapshot size h hint.buffer (counted hint.buffer) fuel (t + 1) in
      elim (Option-cases (is_sealed size fuel h hint.buffer (t + 1))) [
        | inl e ↦ rw (e, IfSome) tt
        | inr ((none, t'), e) ↦
            rw (e, IfSome)
              (let s : Snapshot size h hint.buffer (t + 1) none t' = rw (e, IfSome) at snap in
                elim (Bool-cases (ltb threshold hint.count)) [
                  | inl past ↦
                      rw past (t, omega arith, omega (arith, s.since, s.until), ground arith)
                  | inr not_past ↦ rw not_past (
                      IsRound-later threshold t (t + 1) (omega arith) _
                        (publish-IsRound threshold (t + 1) hint hint.buffer t' z s))
                ])
        | inr ((some i, t'), e) ↦
            rw (e, IfSome)
              (let s : Snapshot size h hint.buffer (t + 1) (some i) t' = rw (e, IfSome) at snap in
                let a = active_from-IsActive hint fuel z true hint.buffer t' (inl refl) in
                let null =
                  active_from-IfNull hint fuel z true hint.buffer t t'
                    (omega (arith, s.since, s.until)) (λ e₀. inl (t, omega arith, e₀)) in
                elim (Option-cases (active_from size fuel side h hint z true hint.buffer t')) [
                  | inl f ↦ rw (f, IfSome) tt
                  | inr (found, f) ↦
                      rw (f, IfSome)
                        (after_active-IsRound threshold t hint found
                          (IsActive-later hint t t' (omega (arith, s.since, s.until)) found
                            (rw (f, IfSome) at a))
                          (rw (f, IfSome) at null))
                ])
      ]

  update_from-IsUpdated :
      (threshold fuel rounds : ℕ) (z : Hazards) (t : ℕ)
      → IfSome (IsUpdated threshold t) (update_from size rounds fuel side h threshold z t)
  unfolding update_from
  update_from-IsUpdated threshold fuel zero z t = tt
  update_from-IsUpdated threshold fuel (suc rounds) z t =
      let a = update_round-IsRound threshold fuel z t in
      elim (Option-cases (update_round size fuel side h threshold z t)) [
        | inl e ↦ rw (e, IfSome) tt
        | inr (done_by_others t', e) ↦ rw (e, IfSome) (rw (e, IfSome) at a)
        | inr (published hint t', e) ↦ rw (e, IfSome) (rw (e, IfSome) at a)
        | inr (lost z' t', e) ↦
            rw (e, IfSome)
              (let le : t ≤ t' = rw (e, IfSome) at a in
                IfSome-weaken {P = IsUpdated threshold t'} {Q = IsUpdated threshold t}
                  (IsUpdated-later threshold t t' le) _
                  (update_from-IsUpdated threshold fuel rounds z' t'))
        | inr (failed, e) ↦ rw (e, IfSome) (rw (e, IfSome) at a)
      ]

  -- `updateHint` ends only when its hint has been moved on: others have raised the count above what it
  -- was at the start, or it has itself put a hint with the next count and a buffer that was not sealed
  -- at a time since the start; or, with its assertion failed, when the buffer of the hint or the link of
  -- a buffer that it has seen sealed was `NULL`.
  pub update_hint-IsUpdated :
      (fuel rounds : ℕ) (z : Hazards) (t : ℕ)
      → IfSome
          (IsUpdated (global_hint side (h t)).count (t + 1))
          (update_hint size rounds fuel side h z t)
  unfolding update_hint
  update_hint-IsUpdated fuel rounds z t =
      update_from-IsUpdated (global_hint side (h t)).count fuel rounds z (t + 1)

  -- `findActiveBuffer`: the buffer that it returns was not sealed at a time in between, and is the hint's
  -- or stands in a hazard slot; if it returns false, the count of the hint has changed; no assertion fails.
  pub find_active_buffer-IsActive :
      (hint : GlobalHint) (fuel : ℕ) (z : Hazards) (t : ℕ)
      → IfSome (IsActive hint t) (find_active_buffer size fuel side h hint z t)
  unfolding find_active_buffer
  find_active_buffer-IsActive hint fuel z t =
      active_from-IsActive hint fuel z true hint.buffer t (inl refl)

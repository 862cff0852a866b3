-- ===== src/OfDeque/Hints/Alone.antt =====
-- deque/OFDeque.hpp: `updateHint` of a thread that runs alone.
use unbounded_obstruction_fr.Base.{
  ℕ, zero, suc, ◌+◌, ◌-◌, ◌%◌, ◌^◌, ◌≤◌, ◌≡◌, ◌≢◌, refl, sym, ap, ◌∙◌, Bool, true, false, not,
  Option, none, some, arith, ltb, ==_self, ==-ne, ◌==◌,
}
use unbounded_obstruction_fr.OfDeque.Slot.{Side, Buffer}
use unbounded_obstruction_fr.OfDeque.Hints.{
  GlobalHint, Memory, global_hint, Hazards, reserve, is_sealed, sealed_index, link_index, active,
  active_from, find_active_buffer, published, publish, update_round, update_from, update_hint,
}

module _ (size : ℕ) (side : Side) (buffers : ℕ → Buffer) where
  abbrev pub sealed_of : (buffer : ℕ) → Option ℕ
  sealed_of buffer =
      sealed_index size ((buffers buffer).slots 1) ((buffers buffer).slots (size - 2))

  -- The links of `k` sealed buffers, none of them `NULL`, lead to one that is not sealed.
  abbrev pub Leads : (k buffer target : ℕ) → Type 0
  Leads zero buffer target = (sealed_of buffer ≡ none) × (target ≡ buffer)
  Leads (suc k) buffer target =
      (i link : ℕ) × (sealed_of buffer ≡ some i)
      × (link_index size side i ≡ some link)
      × (((buffers buffer).slots link).word ≢ 0)
      × Leads k ((buffers buffer).slots link).word target

  Leads-target : (k buffer target : ℕ) → buffer ≢ 0 → Leads k buffer target → target ≢ 0
  Leads-target zero buffer target ne (e, same) = λ null. ne (sym same ∙ null)
  Leads-target (suc k) buffer target ne (i, link, e, at, ne', rest) =
      Leads-target k ((buffers buffer).slots link).word target ne' rest

module _ (size : ℕ) (side : Side) (m : Memory) where
  is_sealed-alone :
      (fuel buffer t : ℕ)
      → is_sealed size (suc fuel) (λ _. m) buffer t
        ≡ some (sealed_of size side m.buffers buffer, t + 3)
  unfolding is_sealed
  is_sealed-alone fuel buffer t = rw (==_self ((m.buffers buffer).slots 1).count) refl

  active_from-alone :
      (hint : GlobalHint)
      → hint ≡ global_hint side m
      → (k fuel : ℕ) (z : Hazards) (second : Bool) (buffer target t : ℕ) → k ≤ fuel
      → Leads size side m.buffers k buffer target
      → (z' : Hazards) × (t' : ℕ) × (active_from size
            (suc fuel)
            side
            (λ _. m)
            hint
            z
            second
            buffer
            t
          ≡ some (active target z' t'))
  unfolding active_from
  active_from-alone hint cur zero fuel z second buffer target t le (e, same) =
      (z, t + 3, rw (active_from, is_sealed-alone fuel buffer t, e, same) refl)
  active_from-alone hint cur (suc k) zero z second buffer target t le leads = absurd (omega arith)
  active_from-alone hint cur (suc k) (suc fuel) z second buffer target t le
        (i, link, e, at, ne, rest) =
      let next = ((m.buffers buffer).slots link).word in
      let (z', t', done) =
        active_from-alone hint cur k fuel (reserve z next second) (not second) next target
          (t + 3 + 2) (omega arith) rest in
      (
        z',
        t',
        rw
            (
              active_from,
              is_sealed-alone (suc fuel) buffer t,
              e,
              at,
              cur,
              ==_self (global_hint side m).count,
            )
            done,
      )

  abbrev pub moved_to : ℕ → GlobalHint
  moved_to target = record { buffer = target; count = ((global_hint side m).count + 1) % 2 ^ 32 }

  publish-alone :
      (target t : ℕ) (z : Hazards)
      → publish side (λ _. m) (global_hint side m) target z t ≡ published (moved_to target) (t + 1)
  publish-alone target t z =
      rw (==_self (global_hint side m).buffer, ==_self (global_hint side m).count) refl

  round-alone :
      (k fuel target t : ℕ) (z : Hazards)
      → k ≤ fuel
      → Leads size side m.buffers k (global_hint side m).buffer target
      → (t' : ℕ) × (update_round size (suc fuel) side (λ _. m) (global_hint side m).count z t
          ≡ some (published (moved_to target) t'))
  unfolding update_round find_active_buffer
  round-alone zero fuel target t z le (e, same) =
      let not_past : ltb (global_hint side m).count (global_hint side m).count ≡ false =
        ground arith in
      (
        t + 1 + 3 + 1,
        rw
            (
              update_round,
              is_sealed-alone fuel (global_hint side m).buffer (t + 1),
              e,
              not_past,
              same,
            )
            (ap some (publish-alone (global_hint side m).buffer (t + 1 + 3) z)),
      )
  round-alone (suc k) fuel target t z le (i, link, e, at, ne, rest) =
      let (z', t', done) =
        active_from-alone (global_hint side m) refl (suc k) fuel z true (global_hint side m).buffer
          target (t + 1 + 3) le (i, link, e, at, ne, rest) in
      let live : (target == 0) ≡ false =
        ==-ne target 0 (Leads-target size side m.buffers k _ target ne rest) in
      (
        t' + 1,
        rw (update_round, is_sealed-alone fuel (global_hint side m).buffer (t + 1), e, done, live)
            (ap some (publish-alone target t' z')),
      )

  -- `updateHint` of a thread that runs alone: if the links of `k` sealed buffers, none of them `NULL`,
  -- lead from the hint's buffer to one that is not sealed, and `fuel` is at least `k`, it publishes that one
  -- in its first round.
  pub update_hint-alone :
      (k fuel target t : ℕ) (z : Hazards)
      → k ≤ fuel
      → Leads size side m.buffers k (global_hint side m).buffer target
      → (t' : ℕ) × (update_hint size 1 (suc fuel) side (λ _. m) z t
          ≡ some (published (moved_to target) t'))
  unfolding update_hint update_from
  update_hint-alone k fuel target t z le leads =
      let (t', done) = round-alone k fuel target (t + 1) z le leads in
      (t', rw (update_hint, update_from, done) refl)

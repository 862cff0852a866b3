-- ===== src/MmDeque/Turns.antt =====
-- deque/MMDeque.hpp: accesses of one thread in a row, and `stabilize` of a thread that runs alone.
use unbounded_obstruction_fr.Base.{
  ℕ, zero, suc, ◌+◌, ◌%◌, ◌^◌, ◌≤◌, ◌≡◌, inl, inr, refl, ◌∙◌, arith, true, false, ◌==◌, ==_self,
  Bool-cases, List, [], ◌∷◌,
}
use unbounded_obstruction_fr.OfDeque.Slot.{Side, side_left, side_right}
use unbounded_obstruction_fr.MmDeque.{
  Status, stable, rpush, lpush, Link, Anchor, Memory, Resume, Choice, Pc, stab_start, stab_prev,
  stab_check, stab_next, stab_recheck, stab_link, stab_settle, Event, silent, same_status,
  same_anchor, same_link, end_of, inward, outward, set_inward, set_outward, resumed, stabilize_by,
  stabilize, cas_anchor, is_stable, join, advance,
}

abbrev pub add : Event → List Event → List Event
add silent es = es
add e es = e ∷ es

-- `k` accesses of one thread, and what is not silent of their events.
unfoldable pub alone : ℕ → Choice → Memory → Pc → Memory × Pc × List Event
unfolding advance
alone zero c m p = (m, p, [])
alone (suc k) c m p =
    let (m₁, p₁, e) = advance c m p in let (m₂, p₂, es) = alone k c m₁ p₁ in (m₂, p₂, add e es)

-- At most `bound` accesses lead from `p` to `q`, with an anchor as told.
abbrev pub Reaches :
    Choice → Memory → Pc → (bound : ℕ) → (Memory → Pc → List Event → Type 0) → Type 0
Reaches c m p bound Q = (k : ℕ) × (k ≤ bound) × (let (m', q, es) = alone k c m p in Q m' q es)

module _ (c : Choice) (Q : Memory → Pc → List Event → Type 0) where
  pub done : (m : Memory) (p : Pc) (bound : ℕ) → Q m p [] → Reaches c m p bound Q
  unfolding alone
  done m p bound q = (0, omega arith, q)

  -- One access, and then the rest.
  pub turn :
      (m : Memory) (p : Pc) (m₁ : Memory) (p₁ : Pc) (e : Event) (bound : ℕ)
      → advance c m p ≡ (m₁, p₁, e)
      → Reaches c m₁ p₁ bound (λ m' q es. Q m' q (add e es))
      → Reaches c m p (bound + 1) Q
  unfolding alone
  turn m p m₁ p₁ e bound h (k, le, q) = (suc k, omega arith, rw h q)

same_status_self : (s : Status) → same_status s s ≡ true
same_status_self stable = refl
same_status_self rpush = refl
same_status_self lpush = refl

pub same_anchor_self : (a : Anchor) → same_anchor a a ≡ true
same_anchor_self a = rw (==_self a.left, ==_self a.right, same_status_self a.status) refl

same_link_self : (l : Link) → same_link l l ≡ true
same_link_self l = rw (==_self l.ptr, ==_self l.sn) refl

set_outward_anchor :
    (side : Side) (x : ℕ) (l : Link) (m : Memory) → (set_outward side x l m).anchor ≡ m.anchor
set_outward_anchor side_left x l m = refl
set_outward_anchor side_right x l m = refl

pub set_inward_anchor :
    (side : Side) (x : ℕ) (l : Link) (m : Memory) → (set_inward side x l m).anchor ≡ m.anchor
set_inward_anchor side_left x l m = refl
set_inward_anchor side_right x l m = refl

abbrev pub settled : Anchor → Anchor
settled a = record a { status = stable }

module _ (c : Choice) (sure : c.spurious ≡ false) (Q : Memory → Pc → List Event → Type 0) where
  -- The exchange of the anchor succeeds.
  pub cas_sure : (m : Memory) (a : Anchor) → m.anchor ≡ a → cas_anchor c.spurious a m ≡ true
  cas_sure m a h = rw (sure, h) (same_anchor_self a)

  settle_alone :
      (side : Side) (a : Anchor) (k : Resume) (m : Memory) (bound : ℕ)
      → m.anchor ≡ a
      → ((m' : Memory) → m'.anchor ≡ settled a → Reaches c m' (resumed k) bound Q)
      → Reaches c m (stab_settle side a k) (bound + 1) Q
  unfolding advance
  settle_alone side a k m bound h rest =
      turn c Q m _ _ (resumed k) silent bound (rw (cas_sure m a h) refl)
        (rest (record m { anchor = settled a }) refl)

  -- `stabilize` alone sets the link and makes the anchor stable.
  pub stabilize_alone :
      (side : Side) (a : Anchor) (k : Resume) (m : Memory) (bound : ℕ)
      → m.anchor ≡ a
      → ((m' : Memory) → m'.anchor ≡ settled a → Reaches c m' (resumed k) bound Q)
      → Reaches c m (stab_start side a k) (bound + 1 + 1 + 1 + 1 + 1 + 1 + 1) Q
  unfolding advance
  stabilize_alone side a k m bound h rest =
      let prev : ℕ = (inward side m (end_of side a)).ptr in
      let l : Link = outward side m prev in
      let m₂ : Memory =
        set_outward side prev (record { ptr = end_of side a; sn = (l.sn + 1) % 2 ^ 32 }) m in
      let same : same_anchor a m.anchor ≡ true = rw h (same_anchor_self a) in
      turn c Q m _ m (stab_prev side a k) silent _ (rw same refl) (
        turn c Q m _ m (stab_check side a prev k) silent _ refl (
          turn c Q m _ m (stab_next side a prev k) silent _ (rw same refl)
            (elim (Bool-cases (l.ptr == end_of side a)) [
              | inl set ↦ turn c Q m _ m (stab_settle side a k) silent _ (rw set refl) (
                  wider (bound + 1) m (stab_settle side a k) (settle_alone side a k m bound h rest))
              | inr unset ↦ turn c Q m _ m (stab_recheck side a prev l k) silent _ (rw unset refl) (
                  turn c Q m _ m (stab_link side a prev l k) silent _ (rw same refl) (
                    turn c Q m _ m₂ (stab_settle side a k) silent _ (rw (same_link_self l) refl)
                      (settle_alone side a k m₂ bound (set_outward_anchor side prev _ m ∙ h) rest)))
            ])))
    where
      wider : (b : ℕ) (m' : Memory) (p : Pc) → Reaches c m' p b Q → Reaches c m' p (b + 1 + 1) Q
      wider b m' p (j, le, q) = (j, omega arith, q)

pub join_anchor : (side : Side) (x : ℕ) (a : Anchor) (m : Memory) → (join side x a m).anchor ≡ a
join_anchor side_left x a m = refl
join_anchor side_right x a m = refl

-- `stabilize` of an anchor that is not stable starts on the side of its push.
pub busy_side :
    (a : Anchor) (k : Resume)
    → is_stable a ≡ false
    → (side : Side) × (stabilize a k ≡ stab_start side a k)
      × (end_of side (settled a) ≡ end_of side a)
busy_side a k e =
    elim a.status
        as (λ s.
          same_status s stable ≡ false
          → (side : Side) × (stabilize_by s a k ≡ stab_start side a k)
            × (end_of side (settled a) ≡ end_of side a)) [
              | stable ↦ λ h. absurd (ground arith)
              | rpush ↦ λ h. (side_right, refl, refl)
              | lpush ↦ λ h. (side_left, refl, refl)
            ]
      e

pub settled_end : (side : Side) (a : Anchor) → end_of side (settled a) ≡ end_of side a
settled_end side_left a = refl
settled_end side_right a = refl

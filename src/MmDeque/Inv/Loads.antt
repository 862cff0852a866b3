-- ===== src/MmDeque/Inv/Loads.antt =====
-- deque/MMDeque.hpp: what the loads of a thread establish.
use unbounded_obstruction_fr.Base.{
  ℕ, ◌+◌, ◌-◌, ◌≤◌, ◌<◌, ◌≡◌, ◌≢◌, inl, inr, refl, sym, ◌∙◌, ap, Bool, true, false, arith, le_or_lt,
  ◌==◌, ◌&&◌, ==_iff,
}
use unbounded_obstruction_fr.OfDeque.Slot.{Side, side_left, side_right}
use unbounded_obstruction_fr.MmDeque.{
  Status, stable, rpush, lpush, Link, Anchor, Memory, end_of, status_of, inward, outward,
  same_status, same_anchor, same_link,
}
use unbounded_obstruction_fr.MmDeque.Inv.Defs.{Chain, Known, Seen, Prev, Set, Tracks}
use unbounded_obstruction_fr.MmDeque.Inv.Keeps.{Keeps}
use unbounded_obstruction_fr.MmDeque.Inv.Links.{push_not_stable}

pub same_status_lem : (s t : Status) → same_status s t ≡ true → s ≡ t
same_status_lem stable stable e = refl
same_status_lem rpush rpush e = refl
same_status_lem lpush lpush e = refl
same_status_lem stable rpush e = ground arith
same_status_lem stable lpush e = ground arith
same_status_lem rpush stable e = ground arith
same_status_lem rpush lpush e = ground arith
same_status_lem lpush stable e = ground arith
same_status_lem lpush rpush e = ground arith

pub and_true : (a b : Bool) → a && b ≡ true → (a ≡ true) × (b ≡ true)
and_true true b e = (refl, e)
and_true false b e = ground arith

pub same_anchor_lem : (a b : Anchor) → same_anchor a b ≡ true → a ≡ b
same_anchor_lem a b e =
    let (xy, z) =
      and_true ((a.left == b.left) && (a.right == b.right)) (same_status a.status b.status) e in
    let (x, y) = and_true (a.left == b.left) (a.right == b.right) xy in
    λ i. record {
      left = (==_iff a.left b.left).0 x i;
      right = (==_iff a.right b.right).0 y i;
      status = same_status_lem a.status b.status z i;
    }

pub same_link_lem : (a b : Link) → same_link a b ≡ true → a ≡ b
same_link_lem a b e =
    let (x, y) = and_true (a.ptr == b.ptr) (a.sn == b.sn) e in
    λ i. record { ptr = (==_iff a.ptr b.ptr).0 x i; sn = (==_iff a.sn b.sn).0 y i }

-- An access that loads.
pub load-Keeps : (m : Memory) (y : ℕ) → Keeps m m y
load-Keeps m y = record {
  known = λ x e. e;
  seen = λ a s. s;
  mine = λ v o. o;
  own_link = λ v side o. refl;
  prev = λ side a p s f. f;
  tracks = λ side p l k t. t;
  race = λ side a p l s e f k t ne r. r;
  set = λ side a s e q. q;
  data_kept = λ x p. refl;
  next_kept = omega arith;
}

module _ (n : ℕ) (m : Memory) (chain : Chain n m) where
  pub anchor-Seen : Seen m m.anchor
  anchor-Seen = record {
    left_known = elim (le_or_lt m.hi m.lo) [
      | inl none ↦ inl (chain.none_left (omega (arith, chain.range))).0
      | inr some ↦ rw (chain.ends some).0 (inr (chain.known m.lo (omega arith) some))
    ];
    right_known = elim (le_or_lt m.hi m.lo) [
      | inl none ↦ inl (chain.none_left (omega (arith, chain.range))).1
      | inr some ↦ rw (chain.ends some).1 (inr (chain.known (m.hi - 1) (omega arith) (omega arith)))
    ];
    left_old = λ ne e. absurd (ne e);
    right_old = λ ne e. absurd (ne e);
  }

  -- The end of a deque is `NULL` if and only if there is no node.
  pub end_null : (side : Side) → end_of side m.anchor ≡ 0 → m.lo ≡ m.hi
  end_null side_left e = elim (le_or_lt m.hi m.lo) [
    | inl none ↦ omega (arith, chain.range)
    | inr some ↦ absurd (
        ground
          (arith, chain.null, chain.known m.lo (omega arith) some, sym (chain.ends some).0 ∙ e))
  ]
  end_null side_right e = elim (le_or_lt m.hi m.lo) [
    | inl none ↦ omega (arith, chain.range)
    | inr some ↦ absurd (
        ground (
          arith,
          chain.null,
          chain.known (m.hi - 1) (omega arith) (omega arith),
          sym (chain.ends some).1 ∙ e,
        ))
  ]

  pub end_some : (side : Side) → end_of side m.anchor ≢ 0 → m.lo < m.hi
  end_some side ne = elim (le_or_lt m.hi m.lo) [
    | inl none ↦
        let (l, r, s) = chain.none_left (omega (arith, chain.range)) in
        absurd (ne (elim side as (λ k. end_of k m.anchor ≡ 0) [ side_left ↦ l | side_right ↦ r ]))
    | inr some ↦ some
  ]

  -- The status of a deque of at most one node.
  pub short_stable : m.hi ≤ m.lo + 1 → m.anchor.status ≡ stable
  short_stable le =
      elim m.anchor.status as (λ s. m.anchor.status ≡ s → m.anchor.status ≡ stable) [
        | stable ↦ λ e. e
        | rpush ↦ λ e. absurd (omega (arith, chain.busy (λ z. ground arith)))
        | lpush ↦ λ e. absurd (omega (arith, chain.busy (λ z. ground arith)))
      ]
        refl

  -- The ends are equal when there is at most one node.
  pub ends_equal : m.anchor.left ≡ m.anchor.right → m.hi ≤ m.lo + 1
  ends_equal e = elim (le_or_lt m.hi (m.lo + 1)) [
    | inl short ↦ short
    | inr wide ↦
        let (l, r) = chain.ends (omega arith) in
        absurd
          (chain.distinct m.lo (m.hi - 1) (omega arith) (omega arith) (omega arith) (sym l ∙ e ∙ r))
  ]

  pub ends_apart : m.anchor.left ≢ m.anchor.right → m.lo + 1 < m.hi
  ends_apart ne = elim (le_or_lt m.hi (m.lo + 1)) [
    | inl short ↦ elim (le_or_lt m.hi m.lo) [
      | inl none ↦
          let (l, r, s) = chain.none_left (omega (arith, chain.range)) in absurd (ne (l ∙ sym r))
      | inr some ↦
          let (l, r) = chain.ends some in
          let e : m.hi - 1 ≡ m.lo = omega arith in absurd (ne (l ∙ sym (r ∙ ap m.at e)))
    ]
    | inr wide ↦ wide
  ]

  -- The link inwards of an end, loaded while the anchor was not busy on the other side.
  pub loaded-Prev :
      (side : Side) (a : Anchor)
      → Seen m a
      → ((t : Side) → t ≢ side → a.status ≢ status_of t)
      → Prev m side a (inward side m (end_of side a)).ptr
  loaded-Prev side_right a s quiet = λ i j le lt gt ei ej. rw (← ej) (
      sym (
        chain.lefts j (omega arith) gt (λ st. elim (le_or_lt j (m.lo + 1)) [
          | inl near ↦
              let first : i ≡ m.lo = omega arith in
              absurd (
                s.left_old (quiet side_left (λ z. ground arith)) st
                  ((chain.ends (omega arith)).0 ∙ ap m.at (sym first) ∙ ei))
          | inr far ↦ far
        ])))
  loaded-Prev side_left a s quiet = λ i j le lt gt ei ej. rw (← ei) (
      sym (
        chain.rights i le (omega arith) (λ st. elim (le_or_lt m.hi (i + 2)) [
          | inl near ↦
              let last : m.hi - 1 ≡ j = omega arith in
              absurd (
                s.right_old (quiet side_right (λ z. ground arith)) st
                  ((chain.ends (omega arith)).1 ∙ ap m.at last ∙ ej))
          | inr far ↦ far
        ])))

  module _ (side : Side) (a : Anchor) (prev : ℕ) (here : m.anchor ≡ a)
      (wide : m.lo + 1 < m.hi) where
    -- The neighbor, while the anchor is the one that was loaded.
    pub neighbor_left : Prev m side_left a prev → m.at (m.lo + 1) ≡ prev
    neighbor_left f =
        let (l, r) = chain.ends (omega arith) in
        f m.lo (m.hi - 1) (omega arith) (omega arith) (omega arith) (sym l ∙ ap (λ b. b.left) here)
          (sym r ∙ ap (λ b. b.right) here)

    pub neighbor_right : Prev m side_right a prev → m.at (m.hi - 2) ≡ prev
    neighbor_right f =
        let (l, r) = chain.ends (omega arith) in
        let two : m.hi - 2 ≡ m.hi - 1 - 1 = omega arith in
        ap m.at two
        ∙ f m.lo (m.hi - 1) (omega arith) (omega arith) (omega arith)
            (sym l ∙ ap (λ b. b.left) here) (sym r ∙ ap (λ b. b.right) here)

    pub neighbor-Known : Prev m side a prev → Known m prev
    neighbor-Known = elim side as (λ k. Prev m k a prev → Known m prev) [
      | side_left ↦ λ f. rw (← neighbor_left f) (inr (chain.known (m.lo + 1) (omega arith) wide))
      | side_right ↦
          λ f. rw (← neighbor_right f) (inr (chain.known (m.hi - 2) (omega arith) (omega arith)))
    ]

  pub busy_wide :
      (side : Side) (a : Anchor) → m.anchor ≡ a → a.status ≡ status_of side → m.lo + 1 < m.hi
  busy_wide side a here st =
      chain.busy (λ z. push_not_stable a side st (sym (ap (λ b. b.status) here) ∙ z))

  -- The neighbor's link was found to be set.
  pub loaded-Set :
      (side : Side) (a : Anchor) (prev : ℕ)
      → a.status ≡ status_of side
      → Prev m side a prev
      → (outward side m prev).ptr ≡ end_of side a
      → Set m side a
  loaded-Set side_left a prev st f e =
      λ here. rw (neighbor_left side_left a prev here (busy_wide side_left a here st) f) e
  loaded-Set side_right a prev st f e =
      λ here. rw (neighbor_right side_right a prev here (busy_wide side_right a here st) f) e

  pub loaded-Tracks : (side : Side) (prev : ℕ) → Tracks m side prev (outward side m prev)
  loaded-Tracks side prev = (omega arith, λ e. refl)

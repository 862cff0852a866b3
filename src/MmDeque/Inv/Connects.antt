-- ===== src/MmDeque/Inv/Connects.antt =====
-- deque/MMDeque.hpp: the link to the end of the deque that `stabilize` sets.
use unbounded_obstruction_fr.Base.{
  ℕ, ◌+◌, ◌-◌, ◌%◌, ◌^◌, ◌≤◌, ◌<◌, ◌≡◌, inl, inr, refl, sym, ◌∙◌, ap, false, arith, ◌==◌, ==-ne,
  ==_self, ==_iff, Bool-cases, le_or_lt, update,
}
use unbounded_obstruction_fr.OfDeque.Slot.{Side, side_left, side_right}
use unbounded_obstruction_fr.MmDeque.{
  rpush, lpush, Link, Anchor, Memory, end_of, status_of, outward, set_outward,
}
use unbounded_obstruction_fr.MmDeque.Inv.Defs.{Chain, Known, Prev, Set, Mine}
use unbounded_obstruction_fr.MmDeque.Inv.Keeps.{Race, Keeps}
use unbounded_obstruction_fr.MmDeque.Inv.Links.{
  Later, Relinks, relinked-Chain, relinked-Keeps, push_not_stable,
}

-- The link that `stabilize` sets, from the neighbor to the end.
module _ (n : ℕ) (m : Memory) (chain : Chain n m) (a : Anchor) (prev : ℕ) (l : Link)
    (few : n + 1 < 2 ^ 32) where
  abbrev set_link : (end : ℕ) → Link
  set_link end = record { ptr = end; sn = (l.sn + 1) % 2 ^ 32 }

  link-Later :
      (f : ℕ → Link)
      → ((y : ℕ) → (f y).sn ≤ n)
      → f prev ≡ l
      → (end y : ℕ) → Later (f y) (update f prev (set_link end) y)
  link-Later f count same end y = elim (Bool-cases (prev == y)) [
    | inl e ↦
        let here : prev ≡ y = (==_iff prev y).0 e in
        let old : (f y).sn ≡ l.sn = ap (λ k. k.sn) (ap f (sym here) ∙ same) in
        let up : (l.sn + 1) % 2 ^ 32 ≡ l.sn + 1 = omega (arith, count prev, ap (λ k. k.sn) same) in
        rw e (omega arith, λ z. absurd (omega arith))
    | inr e ↦ rw e (omega arith, λ z. refl)
  ]

  link_count :
      (f : ℕ → Link)
      → ((y : ℕ) → (f y).sn ≤ n)
      → f prev ≡ l
      → (end y : ℕ) → (update f prev (set_link end) y).sn ≤ n + 1
  link_count f count same end y = elim (Bool-cases (prev == y)) [
    | inl e ↦
        let up : (l.sn + 1) % 2 ^ 32 ≡ l.sn + 1 = omega (arith, count prev, ap (λ k. k.sn) same) in
        rw e (omega (arith, count prev, ap (λ k. k.sn) same))
    | inr e ↦ rw e (omega (arith, count y))
  ]

  -- The exchange of the link succeeds only while the anchor is still the one that was loaded.
  here_left : m.left prev ≡ l → Race m side_left a prev l → m.anchor ≡ a
  here_left same (inl here) = here
  here_left same (inr lt) = absurd (omega (arith, ap (λ k. k.sn) same))

  here_right : m.right prev ≡ l → Race m side_right a prev l → m.anchor ≡ a
  here_right same (inl here) = here
  here_right same (inr lt) = absurd (omega (arith, ap (λ k. k.sn) same))

  link_left-Relinks :
      Prev m side_left a prev
      → a.status ≡ lpush
      → m.left prev ≡ l
      → m.anchor ≡ a
      → Relinks n m chain (update m.left prev (set_link a.left)) m.right
  link_left-Relinks f st same here =
      let wide =
        chain.busy (λ z. push_not_stable a side_left st (sym (ap (λ b. b.status) here) ∙ z)) in
      let (le, re) = chain.ends (omega arith) in
      let el : m.at m.lo ≡ a.left = sym le ∙ ap (λ b. b.left) here in
      let er : m.at (m.hi - 1) ≡ a.right = sym re ∙ ap (λ b. b.right) here in
      let neighbor : m.at (m.lo + 1) ≡ prev =
        f m.lo (m.hi - 1) (omega arith) (omega arith) (omega arith) el er in
      record {
        lefts_kept = λ i p q e. elim (Bool-cases (prev == m.at i)) [
          | inl hit ↦ rw hit (elim (le_or_lt i (m.lo + 1)) [
            | inl small ↦ let first : i - 1 ≡ m.lo = omega arith in sym (ap m.at first ∙ el)
            | inr large ↦
                absurd (
                  chain.distinct (m.lo + 1) i (omega arith) large q (neighbor ∙ (==_iff _ _).0 hit))
          ])
          | inr miss ↦ rw miss e
        ];
        rights_kept = λ i p q e. e;
        left_later = λ y k. link-Later m.left chain.left_count same a.left y;
        right_later = λ y k. (omega arith, λ z. refl);
        left_bound = link_count m.left chain.left_count same a.left;
        right_bound = λ y. omega (arith, chain.right_count y);
      }

  link_right-Relinks :
      Prev m side_right a prev
      → a.status ≡ rpush
      → m.right prev ≡ l
      → m.anchor ≡ a
      → Relinks n m chain m.left (update m.right prev (set_link a.right))
  link_right-Relinks f st same here =
      let wide =
        chain.busy (λ z. push_not_stable a side_right st (sym (ap (λ b. b.status) here) ∙ z)) in
      let (le, re) = chain.ends (omega arith) in
      let el : m.at m.lo ≡ a.left = sym le ∙ ap (λ b. b.left) here in
      let er : m.at (m.hi - 1) ≡ a.right = sym re ∙ ap (λ b. b.right) here in
      let neighbor : m.at (m.hi - 1 - 1) ≡ prev =
        f m.lo (m.hi - 1) (omega arith) (omega arith) (omega arith) el er in
      record {
        lefts_kept = λ i p q e. e;
        rights_kept = λ i p q e. elim (Bool-cases (prev == m.at i)) [
          | inl hit ↦ rw hit (elim (le_or_lt (m.hi - 1 - 1) i) [
            | inl large ↦ let last : i + 1 ≡ m.hi - 1 = omega arith in sym (ap m.at last ∙ er)
            | inr small ↦ absurd (
                chain.distinct i (m.hi - 1 - 1) p small (omega arith)
                  (sym (neighbor ∙ (==_iff _ _).0 hit)))
          ])
          | inr miss ↦ rw miss e
        ];
        left_later = λ y k. (omega arith, λ z. refl);
        right_later = λ y k. link-Later m.right chain.right_count same a.right y;
        left_bound = λ y. omega (arith, chain.left_count y);
        right_bound = link_count m.right chain.right_count same a.right;
      }

  module _ (known : Known m prev) where
    pub link-Chain :
        (side : Side)
        → Prev m side a prev
        → a.status ≡ status_of side
        → outward side m prev ≡ l
        → Race m side a prev l
        → Chain (n + 1) (set_outward side prev (set_link (end_of side a)) m)
    link-Chain side_left f st same race =
        relinked-Chain n m chain _ m.right (link_left-Relinks f st same (here_left same race))
    link-Chain side_right f st same race =
        relinked-Chain n m chain m.left _ (link_right-Relinks f st same (here_right same race))

    own_apart : (y v : ℕ) → Mine m v y → (prev == y) ≡ false
    own_apart y v o = ==-ne prev y (λ e. ground (arith, known, o.unpublished, o.not_null))

    pub link-Keeps :
        (side : Side)
        → Prev m side a prev
        → a.status ≡ status_of side
        → outward side m prev ≡ l
        → Race m side a prev l
        → (y : ℕ) → Keeps m (set_outward side prev (set_link (end_of side a)) m) y
    link-Keeps side_left f st same race y =
        relinked-Keeps n m chain _ m.right (link_left-Relinks f st same (here_left same race)) y
          (λ w o. (rw (own_apart y w o) refl, refl))
    link-Keeps side_right f st same race y =
        relinked-Keeps n m chain m.left _ (link_right-Relinks f st same (here_right same race)) y
          (λ w o. (refl, rw (own_apart y w o) refl))

    -- The link is then set.
    pub link-Set :
        (side : Side)
        → Prev m side a prev
        → a.status ≡ status_of side
        → outward side m prev ≡ l
        → Race m side a prev l
        → Set (set_outward side prev (set_link (end_of side a)) m) side a
    link-Set side_left f st same race = λ here.
        let wide =
          chain.busy (λ z. push_not_stable a side_left st (sym (ap (λ b. b.status) here) ∙ z)) in
        let (le, re) = chain.ends (omega arith) in
        let neighbor =
          f m.lo (m.hi - 1) (omega arith) (omega arith) (omega arith)
            (sym le ∙ ap (λ b. b.left) here) (sym re ∙ ap (λ b. b.right) here) in
        rw (neighbor, ==_self prev) refl
    link-Set side_right f st same race = λ here.
        let wide =
          chain.busy (λ z. push_not_stable a side_right st (sym (ap (λ b. b.status) here) ∙ z)) in
        let (le, re) = chain.ends (omega arith) in
        let neighbor =
          f m.lo (m.hi - 1) (omega arith) (omega arith) (omega arith)
            (sym le ∙ ap (λ b. b.left) here) (sym re ∙ ap (λ b. b.right) here) in
        let index : m.hi - 2 ≡ m.hi - 1 - 1 = omega arith in rw (index, neighbor, ==_self prev) refl

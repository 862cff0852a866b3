-- ===== src/MmDeque/Access/Stabs.antt =====
-- deque/MMDeque.hpp: the accesses of `stabilizeRight` and `stabilizeLeft`.
use unbounded_obstruction_fr.Base.{
  ℕ, ◌+◌, ◌^◌, ◌<◌, ◌≡◌, ◌≢◌, inl, inr, refl, sym, arith, Bool, true, not, ◌==◌, ==_iff, Bool-cases,
}
use unbounded_obstruction_fr.OfDeque.Slot.{Side, side_left, side_right}
use unbounded_obstruction_fr.MmDeque.{
  Link, Anchor, Memory, Resume, Choice, stab_start, stab_prev, stab_check, stab_next, stab_recheck,
  stab_link, stab_settle, same_anchor, same_link, end_of, status_of, outward, set_outward,
  cas_anchor, stab_access,
}
use unbounded_obstruction_fr.MmDeque.Inv.Defs.{Chain, Local, owned}
use unbounded_obstruction_fr.MmDeque.Inv.Connects.{link-Chain, link-Keeps, link-Set}
use unbounded_obstruction_fr.MmDeque.Inv.Settles.{settled-Chain, settled-Keeps}
use unbounded_obstruction_fr.MmDeque.Inv.Loads.{
  same_anchor_lem, same_link_lem, loaded-Prev, neighbor-Known, busy_wide, loaded-Set, loaded-Tracks,
  and_true,
}
use unbounded_obstruction_fr.MmDeque.Inv.View.{view}
use unbounded_obstruction_fr.MmDeque.Access.Sound.{
  Sound, loaded, loaded_again, returned-Sound, Keeps-Owns,
}

-- An anchor is not busy on the side of no push.
other_side :
    (a : Anchor) (side : Side)
    → a.status ≡ status_of side
    → (t : Side) → t ≢ side
    → a.status ≢ status_of t
other_side a side_left e side_left ne z = ne refl
other_side a side_left e side_right ne z = ground arith
other_side a side_right e side_left ne z = ground arith
other_side a side_right e side_right ne z = ne refl

pub cas_here :
    (spurious : Bool) (a : Anchor) (m : Memory) → cas_anchor spurious a m ≡ true → m.anchor ≡ a
cas_here spurious a m e =
    same_anchor_lem m.anchor a (and_true (not spurious) (same_anchor m.anchor a) e).1

module _ (n : ℕ) (m : Memory) (chain : Chain n m) (few : n + 1 < 2 ^ 32) (c : Choice) where
  pub stab_start-Sound :
      (side : Side) (a : Anchor) (k : Resume)
      → Local m (stab_start side a k)
      → Sound n m (stab_start side a k) (stab_access c m (stab_start side a k))
  stab_start-Sound side a k (s, e, o) = elim (Bool-cases (same_anchor a m.anchor)) [
    | inl h ↦ rw h (loaded n m chain _ (stab_prev side a k) (s, e, o) (inr refl))
    | inr h ↦ rw h (loaded_again n m chain _ k refl o)
  ]

  pub stab_prev-Sound :
      (side : Side) (a : Anchor) (k : Resume)
      → Local m (stab_prev side a k)
      → Sound n m (stab_prev side a k) (stab_access c m (stab_prev side a k))
  stab_prev-Sound side a k (s, e, o) =
      loaded n m chain _ _ ((s, e, o), loaded-Prev n m chain side a s (other_side a side e))
        (inr refl)

  pub stab_check-Sound :
      (side : Side) (a : Anchor) (prev : ℕ) (k : Resume)
      → Local m (stab_check side a prev k)
      → Sound n m (stab_check side a prev k) (stab_access c m (stab_check side a prev k))
  stab_check-Sound side a prev k ((s, e, o), f) = elim (Bool-cases (same_anchor a m.anchor)) [
    | inl h ↦
        let here : m.anchor ≡ a = sym (same_anchor_lem a m.anchor h) in
        rw h (
          loaded n m chain _ (stab_next side a prev k)
            (
              (s, e, o),
              f,
              neighbor-Known n m chain side a prev here (busy_wide n m chain side a here e) f,
            )
            (inr refl))
    | inr h ↦ rw h (loaded_again n m chain _ k refl o)
  ]

  pub stab_next-Sound :
      (side : Side) (a : Anchor) (prev : ℕ) (k : Resume)
      → Local m (stab_next side a prev k)
      → Sound n m (stab_next side a prev k) (stab_access c m (stab_next side a prev k))
  stab_next-Sound side a prev k ((s, e, o), f, known) =
      elim (Bool-cases ((outward side m prev).ptr == end_of side a)) [
        | inl h ↦ rw h (
            loaded n m chain _ (stab_settle side a k)
              ((s, e, o), loaded-Set n m chain side a prev e f ((==_iff _ _).0 h)) (inr refl))
        | inr h ↦ rw h (
            loaded n m chain _ (stab_recheck side a prev (outward side m prev) k)
              (
                (s, e, o),
                f,
                known,
                loaded-Tracks n m chain side prev,
                λ z. ground (arith, (==_iff _ _).1 z),
              )
              (inr refl))
      ]

  pub stab_recheck-Sound :
      (side : Side) (a : Anchor) (prev : ℕ) (l : Link) (k : Resume)
      → Local m (stab_recheck side a prev l k)
      → Sound n m (stab_recheck side a prev l k) (stab_access c m (stab_recheck side a prev l k))
  stab_recheck-Sound side a prev l k ((s, e, o), f, known, t, ne) =
      elim (Bool-cases (same_anchor a m.anchor)) [
        | inl h ↦ rw h (
            loaded n m chain _ (stab_link side a prev l k)
              ((s, e, o), f, known, t, ne, inl (sym (same_anchor_lem a m.anchor h))) (inr refl))
        | inr h ↦ rw h (loaded_again n m chain _ k refl o)
      ]

  set_outward-view : (side : Side) (x : ℕ) (l : Link) → view (set_outward side x l m) ≡ view m
  set_outward-view side_left x l = refl
  set_outward-view side_right x l = refl

  pub stab_link-Sound :
      (side : Side) (a : Anchor) (prev : ℕ) (l : Link) (k : Resume)
      → Local m (stab_link side a prev l k)
      → Sound n m (stab_link side a prev l k) (stab_access c m (stab_link side a prev l k))
  stab_link-Sound side a prev l k ((s, e, o), f, known, t, ne, race) =
      elim (Bool-cases (same_link (outward side m prev) l)) [
        | inl h ↦
            let same : outward side m prev ≡ l = same_link_lem _ _ h in
            let keeps = link-Keeps n m chain a prev l few known side f e same race in
            rw h (record {
              chain = link-Chain n m chain a prev l few known side f e same race;
              local = (
                ((keeps 0).seen a s, e, Keeps-Owns k (keeps (owned k)) o),
                link-Set n m chain a prev l few known side f e same race,
              );
              mine_next = inr (inl refl);
              others = λ y _. keeps y;
              does = set_outward-view side prev _;
            })
        | inr h ↦ rw h (loaded_again n m chain _ k refl o)
      ]

  pub stab_settle-Sound :
      (side : Side) (a : Anchor) (k : Resume)
      → Local m (stab_settle side a k)
      → Sound n m (stab_settle side a k) (stab_access c m (stab_settle side a k))
  stab_settle-Sound side a k ((s, e, o), set) = elim (Bool-cases (cas_anchor c.spurious a m)) [
    | inl h ↦
        let here = cas_here c.spurious a m h in
        rw h (
          returned-Sound n m chain _ _ k refl (settled-Chain n m chain a side here e set) o
            (settled-Keeps n m chain a side here e set) refl)
    | inr h ↦ rw h (loaded_again n m chain _ k refl o)
  ]

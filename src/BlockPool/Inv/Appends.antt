-- ===== src/BlockPool/Inv/Appends.antt =====
-- cpp_harness/BlockPool.hpp: `alloc` takes the first block of a new array.
use unbounded_obstruction_fr.Base.{
  ℕ, zero, suc, ◌+◌, ◌-◌, ◌≤◌, ◌<◌, ◌≡◌, ◌≢◌, ◌⊎◌, inl, inr, refl, sym, ap, ◌∙◌, arith, true, false,
  ==-ne, ==_self, le_or_lt,
}
use unbounded_obstruction_fr.BlockPool.{
  Place, unmapped, local, pooled, Memory, Thread, is_held, allocated, in_array, append_array,
  append_head, take_top, taken,
}
use unbounded_obstruction_fr.BlockPool.Inv.Defs.{Shape, Listed, Keeps, top_of}
use unbounded_obstruction_fr.BlockPool.Inv.Lists.{Sound, take-Sound, rank_same, tid_apart}

inside : (base x : ℕ) → base ≤ x → x < base + 8 → in_array base x ≡ true
inside base x le lt = ground arith

outside : (base x : ℕ) → (x < base) ⊎ (base + 8 ≤ x) → in_array base x ≡ false
outside base x e = ground arith

inside_or :
    (base x : ℕ)
    → ((base ≤ x) × (x < base + 8) × (in_array base x ≡ true)) ⊎ (in_array base x ≡ false)
inside_or base x = elim (le_or_lt base x) [
  | inl le ↦ elim (le_or_lt (base + 8) x) [
    | inl ge ↦ inr (outside base x (inr ge))
    | inr lt ↦ inl (le, lt, inside base x le lt)
  ]
  | inr lt ↦ inr (outside base x (inl lt))
]

Keeps-trans : {m m' m'' : Memory} {t : ℕ} → Keeps m m' t → Keeps m' m'' t → Keeps m m'' t
Keeps-trans {m} {m'} {m''} {t} j k = record {
  stays = λ u x i ne e. k.stays u x i ne (j.stays u x i ne e);
  came = λ u x i ne e. j.came u x i ne (k.came u x i ne e);
  next_kept = λ u x i ne e. k.next_kept u x i ne (j.stays u x i ne e) ∙ j.next_kept u x i ne e;
  link_kept = λ u x i ne e. k.link_kept u x i ne (j.stays u x i ne e) ∙ j.link_kept u x i ne e;
  node_kept = λ u i ne. k.node_kept u i ne ∙ j.node_kept u i ne;
  sn_grows = omega (arith, j.sn_grows, k.sn_grows);
  ptr_kept = λ e.
      k.ptr_kept (omega (arith, j.sn_grows, k.sn_grows))
      ∙ j.ptr_kept (omega (arith, j.sn_grows, k.sn_grows));
  global_link_kept = λ e ne.
      let first : m.global_sn ≡ m'.global_sn = omega (arith, j.sn_grows, k.sn_grows) in
      let second : m'.global_sn ≡ m''.global_sn = omega (arith, j.sn_grows, k.sn_grows) in
      let same = j.ptr_kept first in
      ap m''.next_group (sym same)
      ∙ k.global_link_kept second (λ z. ne (sym same ∙ z))
      ∙ ap m'.next_group same
      ∙ j.global_link_kept first ne;
}

module _ (n : ℕ) (m : Memory) (shape : Shape n m) (w : Thread)
    (listed : Listed m w.tid w.top w.count) (empty : w.count ≡ 0) (base : ℕ)
    (new : m.fresh ≤ base) where
  -- A block that was in a group before is not in the array.
  mapped : (x : ℕ) (p : Place) → m.place x ≡ p → unmapped ≢ p → in_array base x ≡ false
  mapped x p e ne = elim (le_or_lt m.fresh x) [
    | inl ge ↦ absurd (ne (sym (shape.above x ge) ∙ e))
    | inr lt ↦ outside base x (inl (omega arith))
  ]

  kept : (x : ℕ) (p : Place) → m.place x ≡ p → unmapped ≢ p → (append_array w base m).place x ≡ p
  kept x p e ne = rw (mapped x p e ne) e

  -- A place after the array was linked, and what it was.
  was :
      (x : ℕ) (p : Place)
      → (append_array w base m).place x ≡ p
      → ((i : ℕ) → local w.tid i ≢ p)
      → m.place x ≡ p
  was x p e ne = elim (inside_or base x) [
    | inl (le, lt, h) ↦ absurd (ne (base + 7 - x) (rw h at e))
    | inr h ↦ rw h at e
  ]

  next_old :
      (x : ℕ) (p : Place) → m.place x ≡ p → unmapped ≢ p → (append_array w base m).next x ≡ m.next x
  next_old x p e ne = rw (mapped x p e ne) refl

  link_old :
      (x : ℕ) (p : Place)
      → m.place x ≡ p
      → unmapped ≢ p
      → (append_array w base m).next_group x ≡ m.next_group x
  link_old x p e ne = rw (mapped x p e ne) refl

  not_pooled : (h i : ℕ) → unmapped ≢ pooled h i
  not_pooled h i e = ground arith

  not_local : (u i : ℕ) → unmapped ≢ local u i
  not_local u i e = ground arith

  node_at : (i : ℕ) → (append_array w base m).node w.tid i ≡ base + 7 - i
  node_at i = rw (==_self w.tid) refl

  appended-Shape : Shape n (append_array w base m)
  appended-Shape = record {
    small_sn = shape.small_sn;
    some_fresh = omega arith;
    null = rw (outside base 0 (inl (omega (arith, shape.some_fresh)))) shape.null;
    above = λ x le. rw (outside base x (inr le)) (shape.above x (omega arith));
    at_place = λ h i lh li. kept (m.group h i) _ (shape.at_place h i lh li) (not_pooled h i);
    exact = λ x h i e. shape.exact x h i (was x (pooled h i) e (λ j z. ground arith));
    chain = λ h i lh li.
        next_old (m.group h (i + 1)) _ (shape.at_place h (i + 1) lh (omega arith))
          (not_pooled h (i + 1))
        ∙ shape.chain h i lh li;
    bottom = λ h lh.
        next_old (m.group h 0) _ (shape.at_place h 0 lh (omega arith)) (not_pooled h 0)
        ∙ shape.bottom h lh;
    global_top = shape.global_top;
    group_links = λ h lh.
        link_old (m.group h 7) _ (shape.at_place h 7 lh (omega arith)) (not_pooled h 7)
        ∙ shape.group_links h lh;
  }

  appended-Listed : Listed (append_array w base m) w.tid base 8
  appended-Listed = record {
    at_place = λ i lt.
        let rank : base + 7 - (base + 7 - i) ≡ i = omega arith in
        rw (node_at i, inside base (base + 7 - i) (omega arith) (omega arith), rank) refl;
    exact = λ x i e. elim (inside_or base x) [
      | inl (le, lt, h) ↦
          let rank : base + 7 - x ≡ i = rank_same w.tid _ i (rw h at e) in
          let index : x ≡ base + 7 - i = omega arith in (index ∙ sym (node_at i), omega arith)
      | inr h ↦ absurd (omega (arith, (listed.exact x i (rw h at e)).1))
    ];
    chain = λ i lt.
        let step : base + 7 - (i + 1) + 1 ≡ base + 7 - i = omega arith in
        rw
          (
            node_at (i + 1),
            node_at i,
            inside base (base + 7 - (i + 1)) (omega arith) (omega arith),
            ==-ne (base + 7 - (i + 1)) (base + 7) (λ z. absurd (omega arith)),
          )
          step;
    bottom = λ lt.
        let last : base + 7 - 0 ≡ base + 7 = omega arith in
        rw (node_at 0, last, inside base (base + 7) (omega arith) (omega arith), ==_self (base + 7))
          refl;
    no_top = λ e. absurd (omega arith);
    some_top = λ lt. let first : base ≡ base + 7 - 7 = omega arith in first ∙ sym (node_at 7);
  }

  appended-Keeps : Keeps m (append_array w base m) w.tid
  appended-Keeps = record {
    stays = λ u x i ne e. kept x (local u i) e (not_local u i);
    came = λ u x i ne e. was x (local u i) e (λ j. tid_apart w.tid u j i (λ z. ne (sym z)));
    next_kept = λ u x i ne e. next_old x (local u i) e (not_local u i);
    link_kept = λ u x i ne e. link_old x (local u i) e (not_local u i);
    node_kept = λ u i ne. rw (==-ne w.tid u (λ z. ne (sym z))) refl;
    sn_grows = omega arith;
    ptr_kept = λ e. refl;
    global_link_kept = λ e ne. global_link m.groups refl ne;
  }
    where
      global_link :
          (k : ℕ)
          → m.groups ≡ k
          → m.global_ptr ≢ 0
          → (append_array w base m).next_group m.global_ptr ≡ m.next_group m.global_ptr
      global_link zero e ne = absurd (ne (shape.global_top ∙ ap (top_of m.group) e))
      global_link (suc k) e ne =
          let top : m.global_ptr ≡ m.group k 7 = shape.global_top ∙ ap (top_of m.group) e in
          link_old m.global_ptr (pooled k 7)
            (rw top (shape.at_place k 7 (omega arith) (omega arith))) (not_pooled k 7)

  not_held : (x : ℕ) → is_held ((append_array w base m).place x) ≡ is_held (m.place x)
  not_held x = elim (inside_or base x) [
    | inl (le, lt, h) ↦ rw (h, shape.above x (omega arith)) refl
    | inr h ↦ rw h refl
  ]

  pub append-Sound : Sound n m w (
    take_top (append_head w base) (append_array w base m),
    taken (append_head w base) (append_array w base m),
    allocated base,
  )
  append-Sound =
      let s =
        take-Sound n (append_array w base m) appended-Shape (append_head w base) appended-Listed
          (λ z. absurd (omega (arith, shape.some_fresh))) (omega arith) (λ le. absurd (omega arith))
          (λ lt. inr refl) in
      let (nz, f, t, others) = s.does in
      record {
        shape = s.shape;
        local_next = s.local_next;
        same_tid = refl;
        keeps = Keeps-trans appended-Keeps s.keeps;
        does = (nz, sym (not_held base) ∙ f, t, λ x ne. others x ne ∙ not_held x);
      }

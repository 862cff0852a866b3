-- ===== src/BlockPool/Inv/Grabs.antt =====
-- cpp_harness/BlockPool.hpp: `alloc` takes a group from the global pool.
use unbounded_obstruction_fr.Base.{
  ℕ, zero, suc, ◌+◌, ◌-◌, ◌%◌, ◌^◌, ◌<◌, ◌≡◌, ◌≢◌, ◌⊎◌, inl, inr, refl, sym, ap, ◌∙◌, arith, ◌==◌,
  ==-ne, ==_self, ==_iff, Bool-cases, le_or_lt,
}
use unbounded_obstruction_fr.BlockPool.{
  Place, unmapped, held, local, pooled, Memory, idle, Thread, is_held, allocated, group_size, grab,
  grabbed_place,
}
use unbounded_obstruction_fr.BlockPool.Inv.Defs.{Shape, Listed, top_of}
use unbounded_obstruction_fr.BlockPool.Inv.Lists.{Sound}

-- A place after the grab, and what it was.
grabbed_was :
    (t g u i : ℕ) (p : Place)
    → grabbed_place t g p ≡ local u i
    → (p ≡ local u i) ⊎ ((u ≡ t) × (p ≡ pooled g i) × (i ≢ 7))
grabbed_was t g u i unmapped e = ground arith
grabbed_was t g u i held e = ground arith
grabbed_was t g u i (local v j) e = inl e
grabbed_was t g u i (pooled h j) e = elim (Bool-cases (h == g)) [
  | inl hit ↦ elim (Bool-cases (j == 7)) [
    | inl first ↦ absurd (ground (arith, rw (hit, first) at e))
    | inr later ↦
        let e' : local t j ≡ local u i = rw (hit, later) at e in
        let rank : j ≡ i = ap (λ p. elim p [ local v k ↦ k | _ ↦ 0 ]) e' in
        let owner : t ≡ u = ap (λ p. elim p [ local v k ↦ v | _ ↦ 0 ]) e' in
        inr (
          sym owner,
          rw ((==_iff h g).0 hit, rank) refl,
          λ z. ground (arith, (==_iff j 7).1 (rank ∙ z)),
        )
  ]
  | inr miss ↦ absurd (ground (arith, rw miss at e))
]

grabbed_pooled :
    (t g h i : ℕ) (p : Place) → grabbed_place t g p ≡ pooled h i → (p ≡ pooled h i) × (h ≢ g)
grabbed_pooled t g h i unmapped e = ground arith
grabbed_pooled t g h i held e = ground arith
grabbed_pooled t g h i (local v j) e = ground arith
grabbed_pooled t g h i (pooled k j) e = elim (Bool-cases (k == g)) [
  | inl hit ↦ elim (Bool-cases (j == 7)) [
    | inl first ↦ absurd (ground (arith, rw (hit, first) at e))
    | inr later ↦ absurd (ground (arith, rw (hit, later) at e))
  ]
  | inr miss ↦
      let e' : pooled k j ≡ pooled h i = rw miss at e in
      let index : k ≡ h = ap (λ p. elim p [ pooled v l ↦ v | _ ↦ 0 ]) e' in
      (e', λ z. ground (arith, (==_iff k g).1 (index ∙ z)))
]

-- The blocks that callers hold are the same, but for the first of the group.
grabbed_held : (t g : ℕ) (p : Place) → p ≢ pooled g 7 → is_held (grabbed_place t g p) ≡ is_held p
grabbed_held t g unmapped ne = refl
grabbed_held t g held ne = refl
grabbed_held t g (local v j) ne = refl
grabbed_held t g (pooled h j) ne = elim (Bool-cases (h == g)) [
  | inl hit ↦ elim (Bool-cases (j == 7)) [
    | inl first ↦ absurd (ne (rw ((==_iff h g).0 hit, (==_iff j 7).0 first) refl))
    | inr later ↦ rw (hit, later) refl
  ]
  | inr miss ↦ rw miss refl
]

module _ (n : ℕ) (m : Memory) (shape : Shape n m) (few : n + 1 < 2 ^ 32) (w : Thread)
    (listed : Listed m w.tid w.top w.count) (empty : w.count ≡ 0) (no_nth : w.nth ≡ 0)
    (old after : ℕ) (some_group : old ≢ 0) (here : m.global_ptr ≡ old)
    (link : m.next_group old ≡ after) where
  top_index : (k : ℕ) → m.groups ≡ k → 0 < m.groups
  top_index zero e = absurd (some_group (sym here ∙ shape.global_top ∙ ap (top_of m.group) e))
  top_index (suc k) e = omega arith

  some_groups : 0 < m.groups
  some_groups = top_index m.groups refl

  index : ℕ
  index = m.groups - 1

  index_suc : m.groups ≡ suc (m.groups - 1)
  index_suc = let pos = some_groups in omega arith

  old_is : old ≡ m.group (m.groups - 1) 7
  old_is = sym here ∙ shape.global_top ∙ ap (top_of m.group) index_suc

  place_of : (i : ℕ) → i < 8 → m.place (m.group (m.groups - 1) i) ≡ pooled (m.groups - 1) i
  place_of i lt = let pos = some_groups in shape.at_place (m.groups - 1) i (omega arith) lt

  up : (m.global_sn + 1) % 2 ^ 32 ≡ m.global_sn + 1
  up = let small = shape.small_sn in omega arith

  node_at : (i : ℕ) → (grab w after m).node w.tid i ≡ m.group (m.groups - 1) i
  node_at i = rw (==_self w.tid) refl

  grabbed_thread : Thread
  grabbed_thread = record w { top = m.next old; count = group_size - 1; pc = idle }

  grabbed-Listed : Listed (grab w after m) w.tid (m.next old) 7
  grabbed-Listed = record {
    at_place = λ i lt.
        rw
          (
            node_at i,
            place_of i (omega arith),
            ==_self (m.groups - 1),
            ==-ne i 7 (λ z. absurd (omega arith)),
          )
          refl;
    exact = λ x i e. elim (grabbed_was w.tid (m.groups - 1) w.tid i (m.place x) e) [
      | inl e' ↦ absurd (omega (arith, (listed.exact x i e').1))
      | inr (t, p, ne) ↦
          let (same, lh, li) = shape.exact x (m.groups - 1) i p in
          (same ∙ sym (node_at i), omega arith)
    ];
    chain = λ i lt.
        let pos = some_groups in
        rw (node_at (i + 1), node_at i) (shape.chain (m.groups - 1) i (omega arith) (omega arith));
    bottom =
        λ lt. let pos = some_groups in rw (node_at 0) (shape.bottom (m.groups - 1) (omega arith));
    no_top = λ e. absurd (omega arith);
    some_top = λ lt.
        let pos = some_groups in
        rw (node_at 6)
          (ap m.next old_is ∙ shape.chain (m.groups - 1) 6 (omega arith) (omega arith));
  }

  kept_place : (x u i : ℕ) → m.place x ≡ local u i → (grab w after m).place x ≡ local u i
  kept_place x u i e = ap (grabbed_place w.tid (m.groups - 1)) e

  pub grab-Sound : Sound n m w (
    grab w after m,
    record w { top = m.next old; count = group_size - 1; pc = idle },
    allocated old,
  )
  grab-Sound = record {
    shape = record {
      small_sn = let small = shape.small_sn in rw up (omega arith);
      some_fresh = shape.some_fresh;
      null = ap (grabbed_place w.tid (m.groups - 1)) shape.null;
      above = λ x le. ap (grabbed_place w.tid (m.groups - 1)) (shape.above x le);
      at_place = λ h i lh li.
          rw
            (
              shape.at_place h i (omega arith) li,
              ==-ne h (m.groups - 1) (λ z. absurd (omega arith)),
            )
            refl;
      exact = λ x h i e.
          let (p, ne) = grabbed_pooled w.tid (m.groups - 1) h i (m.place x) e in
          let (same, lh, li) = shape.exact x h i p in
          (
            same,
            elim (le_or_lt (m.groups - 1) h) [ inl ge ↦ absurd (ne (omega arith)) | inr lt ↦ lt ],
            li,
          );
      chain = λ h i lh li. shape.chain h i (omega arith) li;
      bottom = λ h lh. shape.bottom h (omega arith);
      global_top =
          let pos = some_groups in
          sym link ∙ ap m.next_group old_is ∙ shape.group_links (m.groups - 1) (omega arith);
      group_links = λ h lh. shape.group_links h (omega arith);
    };
    local_next = record {
      listed = grabbed-Listed;
      stands = (omega arith, ((λ le. absurd (omega arith)), λ lt. no_nth));
    };
    same_tid = refl;
    keeps = record {
      stays = λ u x i ne e. kept_place x u i e;
      came = λ u x i ne e. elim (grabbed_was w.tid (m.groups - 1) u i (m.place x) e) [
        | inl e' ↦ e'
        | inr (t, p, q) ↦ absurd (ne t)
      ];
      next_kept = λ u x i ne e. refl;
      link_kept = λ u x i ne e. refl;
      node_kept = λ u i ne. rw (==-ne w.tid u (λ z. ne (sym z))) refl;
      sn_grows = rw up (omega arith);
      ptr_kept = λ e. absurd (omega (arith, e ∙ up));
      global_link_kept = λ e. absurd (omega (arith, e ∙ up));
    };
    does = (
      some_group,
      rw (old_is, place_of 7 (omega arith)) refl,
      rw (old_is, place_of 7 (omega arith), ==_self (m.groups - 1)) refl,
      λ x ne.
          grabbed_held w.tid (m.groups - 1) (m.place x)
            (λ p. ne ((shape.exact x (m.groups - 1) 7 p).0 ∙ sym old_is)),
    );
  }

-- ===== src/BlockPool/Inv/Gives.antt =====
-- cpp_harness/BlockPool.hpp: `free` gives the lower half of the list to the global pool.
use unbounded_obstruction_fr.Base.{
  ℕ, zero, suc, ◌+◌, ◌-◌, ◌%◌, ◌^◌, ◌≤◌, ◌<◌, ◌≡◌, ◌≢◌, ◌⊎◌, inl, inr, refl, sym, ap, ◌∙◌, arith,
  true, false, ◌==◌, ==-ne, ==_self, ==_iff, Bool-cases, le_or_lt, ltb,
}
use unbounded_obstruction_fr.BlockPool.{
  Place, unmapped, held, local, pooled, Memory, idle, Thread, is_held, silent, group_size, give,
  given_place,
}
use unbounded_obstruction_fr.BlockPool.Inv.Defs.{Shape, Listed, Keeps, top_of}
use unbounded_obstruction_fr.BlockPool.Inv.Lists.{Sound, places_differ, rank_apart, tid_apart}

lower : (i : ℕ) → i < 8 → ltb i 8 ≡ true
lower i lt = ground arith

upper : (i : ℕ) → 8 ≤ i → ltb i 8 ≡ false
upper i le = ground arith

halves : (i : ℕ) → ((i < 8) × (ltb i 8 ≡ true)) ⊎ ((8 ≤ i) × (ltb i 8 ≡ false))
halves i = elim (le_or_lt 8 i) [ inl le ↦ inr (le, upper i le) | inr lt ↦ inl (lt, lower i lt) ]

-- A place after the exchange, and what it was.
given_local :
    (t g u i : ℕ) (p : Place)
    → given_place t g p ≡ local u i
    → ((u ≢ t) × (p ≡ local u i)) ⊎ ((u ≡ t) × (p ≡ local t (i + 8)))
given_local t g u i unmapped e = ground arith
given_local t g u i held e = ground arith
given_local t g u i (pooled h j) e = ground arith
given_local t g u i (local v j) e = elim (Bool-cases (v == t)) [
  | inl mine ↦ elim (halves j) [
    | inl low ↦ absurd (ground (arith, rw (mine, low.1) at e))
    | inr high ↦
        let e' : local v (j - 8) ≡ local u i = rw (mine, high.1) at e in
        let rank : j - 8 ≡ i = ap (λ p. elim p [ local w k ↦ k | _ ↦ 0 ]) e' in
        let owner : v ≡ u = ap (λ p. elim p [ local w k ↦ w | _ ↦ 0 ]) e' in
        let j8 : j ≡ i + 8 = omega (arith, high.0) in
        inr (sym owner ∙ (==_iff v t).0 mine, rw ((==_iff v t).0 mine, j8) refl)
  ]
  | inr others ↦
      let e' : local v j ≡ local u i = rw others at e in
      let owner : v ≡ u = ap (λ p. elim p [ local w k ↦ w | _ ↦ 0 ]) e' in
      inl ((λ z. ground (arith, (==_iff v t).1 (owner ∙ z))), e')
]

given_pooled :
    (t g h i : ℕ) (p : Place)
    → given_place t g p ≡ pooled h i
    → (p ≡ pooled h i) ⊎ ((h ≡ g) × (p ≡ local t i) × (i < 8))
given_pooled t g h i unmapped e = ground arith
given_pooled t g h i held e = ground arith
given_pooled t g h i (pooled k j) e = inl e
given_pooled t g h i (local v j) e = elim (Bool-cases (v == t)) [
  | inl mine ↦ elim (halves j) [
    | inl low ↦
        let e' : pooled g j ≡ pooled h i = rw (mine, low.1) at e in
        let rank : j ≡ i = ap (λ p. elim p [ pooled w k ↦ k | _ ↦ 0 ]) e' in
        let index : g ≡ h = ap (λ p. elim p [ pooled w k ↦ w | _ ↦ 0 ]) e' in
        inr (sym index, rw ((==_iff v t).0 mine, rank) refl, rw (← rank) low.0)
    | inr high ↦ absurd (ground (arith, rw (mine, high.1) at e))
  ]
  | inr others ↦ absurd (ground (arith, rw others at e))
]

given_held : (t g : ℕ) (p : Place) → is_held (given_place t g p) ≡ is_held p
given_held t g unmapped = refl
given_held t g held = refl
given_held t g (pooled h j) = refl
given_held t g (local v j) = elim (Bool-cases (v == t)) [
  | inl mine ↦ elim (halves j) [
    | inl low ↦ rw (mine, low.1) refl
    | inr high ↦ rw (mine, high.1) refl
  ]
  | inr others ↦ rw others refl
]

top_of_suc : (g : ℕ → ℕ → ℕ) (k : ℕ) → top_of g (k + 1) ≡ g k 7
top_of_suc g k = let e : k + 1 ≡ suc k = omega arith in rw e refl

module _ (n : ℕ) (m : Memory) (shape : Shape n m) (few : n + 1 < 2 ^ 32) (w : Thread)
    (listed : Listed m w.tid w.top w.count) (full : w.count ≡ 16) (nth_is : w.nth ≡ m.node w.tid 8)
    (ng old : ℕ) (ng_is : ng ≡ m.node w.tid 7) (here : m.global_ptr ≡ old)
    (link : m.next_group ng ≡ old) where
  node_at : (i : ℕ) → (give w ng m).node w.tid i ≡ m.node w.tid (i + 8)
  node_at i = rw (==_self w.tid) refl

  group_old : (h i : ℕ) → h < m.groups → (give w ng m).group h i ≡ m.group h i
  group_old h i lt = rw (==-ne m.groups h (λ z. absurd (omega arith))) refl

  group_new : (i : ℕ) → (give w ng m).group m.groups i ≡ m.node w.tid i
  group_new i = rw (==_self m.groups) refl

  top_old : (h : ℕ) → h ≤ m.groups → top_of (give w ng m).group h ≡ top_of m.group h
  top_old zero le = refl
  top_old (suc h) le = group_old h 7 (omega arith)

  last_or : (h : ℕ) → h < m.groups + 1 → (h ≡ m.groups) ⊎ (h < m.groups)
  last_or h lt = elim (le_or_lt m.groups h) [ inl ge ↦ inl (omega arith) | inr less ↦ inr less ]

  place_mine : (i : ℕ) → i < 16 → m.place (m.node w.tid i) ≡ local w.tid i
  place_mine i lt = listed.at_place i (omega (arith, full))

  nth_place : m.place w.nth ≡ local w.tid 8
  nth_place = rw nth_is (place_mine 8 (omega arith))

  next_old :
      (x : ℕ) (p : Place) → m.place x ≡ p → local w.tid 8 ≢ p → (give w ng m).next x ≡ m.next x
  next_old x p e ne = rw (places_differ m w.nth x _ p nth_place e ne) refl

  next_mine :
      (i : ℕ) → i < 16 → i ≢ 8 → (give w ng m).next (m.node w.tid i) ≡ m.next (m.node w.tid i)
  next_mine i lt ne =
      next_old (m.node w.tid i) (local w.tid i) (place_mine i lt)
        (rank_apart w.tid 8 i (λ z. ne (sym z)))

  up : (m.global_sn + 1) % 2 ^ 32 ≡ m.global_sn + 1
  up = let small = shape.small_sn in omega arith

  given-Shape : Shape (n + 1) (give w ng m)
  given-Shape = record {
    small_sn = let small = shape.small_sn in rw up (omega arith);
    some_fresh = shape.some_fresh;
    null = ap (given_place w.tid m.groups) shape.null;
    above = λ x le. ap (given_place w.tid m.groups) (shape.above x le);
    at_place = λ h i lh li. elim (last_or h lh) [
      | inl e ↦ rw (e, group_new i, place_mine i (omega arith), ==_self w.tid, lower i li) refl
      | inr less ↦
          ap (λ x. (give w ng m).place x) (group_old h i less)
          ∙ ap (given_place w.tid m.groups) (shape.at_place h i less li)
    ];
    exact = λ x h i e. elim (given_pooled w.tid m.groups h i (m.place x) e) [
      | inl p ↦
          let (same, lh, li) = shape.exact x h i p in
          (same ∙ sym (group_old h i lh), omega arith, li)
      | inr (g, p, li) ↦ (
        (listed.exact x i p).0 ∙ sym (ap (λ k. (give w ng m).group k i) g ∙ group_new i),
        omega arith,
        li,
      )
    ];
    chain = λ h i lh li. elim (last_or h lh) [
      | inl e ↦
          rw (e, group_new (i + 1), group_new i)
            (next_mine (i + 1) (omega arith) (λ z. absurd (omega arith))
              ∙ listed.chain i (omega (arith, full)))
      | inr less ↦
          rw (group_old h (i + 1) less, group_old h i less)
            (next_old (m.group h (i + 1)) _ (shape.at_place h (i + 1) less (omega arith))
                (λ z. ground arith)
              ∙ shape.chain h i less li)
    ];
    bottom = λ h lh. elim (last_or h lh) [
      | inl e ↦
          rw (e, group_new 0)
            (next_mine 0 (omega arith) (λ z. absurd (omega arith))
              ∙ listed.bottom (omega (arith, full)))
      | inr less ↦ rw (group_old h 0 less) (
          next_old (m.group h 0) _ (shape.at_place h 0 less (omega arith)) (λ z. ground arith)
          ∙ shape.bottom h less)
    ];
    global_top = ng_is ∙ sym (top_of_suc (give w ng m).group m.groups ∙ group_new 7);
    group_links = λ h lh. elim (last_or h lh) [
      | inl e ↦
          rw (e, group_new 7, top_old m.groups (omega arith))
            (ap m.next_group (sym ng_is) ∙ link ∙ sym here ∙ shape.global_top)
      | inr less ↦ rw (group_old h 7 less, top_old h (omega arith)) (shape.group_links h less)
    ];
  }

  given-Listed : Listed (give w ng m) w.tid w.top 8
  given-Listed = record {
    at_place = λ i lt.
        let down : i + 8 - 8 ≡ i = omega arith in
        rw
          (
            node_at i,
            place_mine (i + 8) (omega arith),
            ==_self w.tid,
            upper (i + 8) (omega arith),
            down,
          )
          refl;
    exact = λ x i e. elim (given_local w.tid m.groups w.tid i (m.place x) e) [
      | inl (ne, p) ↦ absurd (ne refl)
      | inr (t, p) ↦
          let (same, lt) = listed.exact x (i + 8) p in (same ∙ sym (node_at i), omega (arith, full))
    ];
    chain = λ i lt.
        let shift : i + 1 + 8 ≡ i + 8 + 1 = omega arith in
        rw (node_at (i + 1), node_at i, shift)
          (next_mine (i + 8 + 1) (omega arith) (λ z. absurd (omega arith))
            ∙ listed.chain (i + 8) (omega (arith, full)));
    bottom = λ lt. rw (node_at 0, ← nth_is, ==_self w.nth) refl;
    no_top = λ e. absurd (omega arith);
    some_top = λ lt.
        let last : w.count - 1 ≡ 15 = omega (arith, full) in
        listed.some_top (omega (arith, full)) ∙ ap (m.node w.tid) last ∙ sym (node_at 7);
  }

  given-Keeps : Keeps m (give w ng m) w.tid
  given-Keeps = record {
    stays = λ u x i ne e. ap (given_place w.tid m.groups) e ∙ rw (==-ne u w.tid ne) refl;
    came = λ u x i ne e. elim (given_local w.tid m.groups u i (m.place x) e) [
      | inl (q, p) ↦ p
      | inr (q, p) ↦ absurd (ne q)
    ];
    next_kept = λ u x i ne e. next_old x (local u i) e (tid_apart w.tid u 8 i (λ z. ne (sym z)));
    link_kept = λ u x i ne e. refl;
    node_kept = λ u i ne. rw (==-ne w.tid u (λ z. ne (sym z))) refl;
    sn_grows = rw up (omega arith);
    ptr_kept = λ e. absurd (omega (arith, e ∙ up));
    global_link_kept = λ e. absurd (omega (arith, e ∙ up));
  }

  pub give-Sound :
      Sound n m w
        (give w ng m, record w { nth = 0; count = w.count - group_size; pc = idle }, silent)
  give-Sound =
      let left : w.count - 8 ≡ 8 = omega (arith, full) in
      record {
        shape = given-Shape;
        local_next = record {
          listed = rw left given-Listed;
          stands = (omega (arith, full), ((λ le. absurd (omega (arith, full))), λ lt. refl));
        };
        same_tid = refl;
        keeps = given-Keeps;
        does = λ x. given_held w.tid m.groups (m.place x);
      }

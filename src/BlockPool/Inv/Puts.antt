-- ===== src/BlockPool/Inv/Puts.antt =====
-- cpp_harness/BlockPool.hpp: `free` puts a block on the list of the thread.
use unbounded_obstruction_fr.Base.{
  ℕ, ◌+◌, ◌-◌, ◌*◌, ◌<◌, ◌≡◌, ◌≢◌, ◌⊎◌, inl, inr, refl, sym, ap, ◌∙◌, arith, true, false, ◌==◌,
  ==-ne, ==_self, ==_iff, Bool-cases, le_or_lt, update,
}
use unbounded_obstruction_fr.BlockPool.{
  Place, unmapped, held, local, pooled, Memory, Thread, is_held, freed, put_top, put, group_size,
}
use unbounded_obstruction_fr.BlockPool.Inv.Defs.{Shape, Listed, NthIs, Local}
use unbounded_obstruction_fr.BlockPool.Inv.Lists.{Sound, places_differ, rank_same, tid_apart}

is_held_lem : (p : Place) → is_held p ≡ true → p ≡ held
is_held_lem held e = refl
is_held_lem unmapped e = ground arith
is_held_lem (local u i) e = ground arith
is_held_lem (pooled h i) e = ground arith

module _ (n : ℕ) (m : Memory) (shape : Shape n m) (w : Thread)
    (listed : Listed m w.tid w.top w.count) (few : w.count < 16)
    (nth_is : NthIs m w.tid w.nth w.count) (b : ℕ) (with_caller : is_held (m.place b) ≡ true) where
  here : m.place b ≡ held
  here = is_held_lem (m.place b) with_caller

  other : (x : ℕ) (p : Place) → m.place x ≡ p → held ≢ p → (b == x) ≡ false
  other x p e ne = places_differ m b x held p here e ne

  node_at : (i : ℕ) → (put_top b w m).node w.tid i ≡ update (m.node w.tid) w.count b i
  node_at i = rw (==_self w.tid) refl

  node_old : (i : ℕ) → i < w.count → (put_top b w m).node w.tid i ≡ m.node w.tid i
  node_old i lt = node_at i ∙ rw (==-ne w.count i (λ z. absurd (omega arith))) refl

  node_new : (put_top b w m).node w.tid w.count ≡ b
  node_new = node_at w.count ∙ rw (==_self w.count) refl

  next_old : (i : ℕ) → i < w.count → (put_top b w m).next (m.node w.tid i) ≡ m.next (m.node w.tid i)
  next_old i lt =
      rw (other (m.node w.tid i) (local w.tid i) (listed.at_place i lt) (λ z. ground arith)) refl

  next_new : (put_top b w m).next b ≡ w.top
  next_new = rw (==_self b) refl

  last_or : (i : ℕ) → i < w.count + 1 → (i ≡ w.count) ⊎ (i < w.count)
  last_or i lt = elim (le_or_lt w.count i) [ inl ge ↦ inl (omega arith) | inr less ↦ inr less ]

  put-Listed : Listed (put_top b w m) w.tid b (w.count + 1)
  put-Listed = record {
    at_place = λ i lt. elim (last_or i lt) [
      | inl e ↦ rw (e, node_new, ==_self b) refl
      | inr less ↦
          rw
            (
              node_old i less,
              other (m.node w.tid i) (local w.tid i) (listed.at_place i less) (λ z. ground arith),
            )
            (listed.at_place i less)
    ];
    exact = λ x i e. elim (Bool-cases (b == x)) [
      | inl h ↦
          let rank : w.count ≡ i = rank_same w.tid w.count i (rw h at e) in
          (
            sym ((==_iff b x).0 h) ∙ sym node_new ∙ ap ((put_top b w m).node w.tid) rank,
            omega arith,
          )
      | inr h ↦
          let (same, lt) = listed.exact x i (rw h at e) in (same ∙ sym (node_old i lt), omega arith)
    ];
    chain = λ i lt. elim (last_or (i + 1) lt) [
      | inl e ↦
          let prior : w.count - 1 ≡ i = omega arith in
          rw (e, node_new, node_old i (omega arith), next_new)
            (listed.some_top (omega arith) ∙ ap (m.node w.tid) prior)
      | inr less ↦
          rw (node_old (i + 1) less, node_old i (omega arith), next_old (i + 1) less)
            (listed.chain i less)
    ];
    bottom = λ lt. elim (last_or 0 lt) [
      | inl e ↦
          ap (put_top b w m).next (ap ((put_top b w m).node w.tid) e ∙ node_new)
          ∙ next_new
          ∙ listed.no_top (sym e)
      | inr less ↦ rw (node_old 0 less, next_old 0 less) (listed.bottom less)
    ];
    no_top = λ e. absurd (omega arith);
    some_top = λ lt.
        let last : w.count + 1 - 1 ≡ w.count = omega arith in
        sym (ap ((put_top b w m).node w.tid) last ∙ node_new);
  }

  put_memory :
      (r : Thread)
      → r.tid ≡ w.tid
      → Local (put_top b w m) r
      → Sound n m w (put_top b w m, r, freed b)
  put_memory r t l = record {
    shape = record {
      small_sn = omega (arith, shape.small_sn);
      some_fresh = shape.some_fresh;
      null = rw (other 0 unmapped shape.null (λ z. ground arith)) shape.null;
      above =
          λ x le. rw (other x unmapped (shape.above x le) (λ z. ground arith)) (shape.above x le);
      at_place = λ h i lh li.
          rw (other (m.group h i) (pooled h i) (shape.at_place h i lh li) (λ z. ground arith))
            (shape.at_place h i lh li);
      exact = λ x h i e. elim (Bool-cases (b == x)) [
        | inl hit ↦ absurd (ground (arith, rw hit at e))
        | inr miss ↦ shape.exact x h i (rw miss at e)
      ];
      chain = λ h i lh li.
          rw
            (other (m.group h (i + 1)) (pooled h (i + 1))
              (shape.at_place h (i + 1) lh (omega arith)) (λ z. ground arith))
            (shape.chain h i lh li);
      bottom = λ h lh.
          rw
            (other (m.group h 0) (pooled h 0) (shape.at_place h 0 lh (omega arith))
              (λ z. ground arith))
            (shape.bottom h lh);
      global_top = shape.global_top;
      group_links = shape.group_links;
    };
    local_next = l;
    same_tid = t;
    keeps = record {
      stays = λ u x i ne e. rw (other x (local u i) e (λ z. ground arith)) e;
      came = λ u x i ne e. elim (Bool-cases (b == x)) [
        | inl hit ↦ absurd (tid_apart w.tid u w.count i (λ z. ne (sym z)) (rw hit at e))
        | inr miss ↦ rw miss at e
      ];
      next_kept = λ u x i ne e. rw (other x (local u i) e (λ z. ground arith)) refl;
      link_kept = λ u x i ne e. refl;
      node_kept = λ u i ne. rw (==-ne w.tid u (λ z. ne (sym z))) refl;
      sn_grows = omega arith;
      ptr_kept = λ e. refl;
      global_link_kept = λ e ne. refl;
    };
    does = (with_caller, rw (==_self b) refl, λ x ne. rw (==-ne b x (λ z. ne (sym z))) refl);
  }

  -- The block is on the list, `nth` is set at nine blocks, and at sixteen the lower half is to go.
  pub put-Sound : Sound n m w (put_top b w m, put b w (put_top b w m), freed b)
  put-Sound = elim (Bool-cases (w.count + 1 == group_size + 1)) [
    | inl nine ↦
        let count : w.count ≡ 8 = omega (arith, (==_iff (w.count + 1) (group_size + 1)).0 nine) in
        rw nine (
          put_memory _ refl (record {
            listed = put-Listed;
            stands = (
              omega arith,
              (
                (λ _. sym (ap ((put_top b w m).node w.tid) (sym count) ∙ node_new)),
                λ lt. absurd (omega arith),
              ),
            );
          }))
    | inr not_nine ↦ elim (Bool-cases (w.count + 1 == group_size * 2)) [
      | inl full ↦
          let count : w.count ≡ 15 =
            omega (arith, (==_iff (w.count + 1) (group_size * 2)).0 full) in
          let nth : w.nth ≡ m.node w.tid 8 = nth_is.0 (omega arith) in
          rw (not_nine, full)
            (put_memory _ refl (record {
              listed = put-Listed;
              stands = (
                omega arith,
                nth ∙ sym (node_old 8 (omega arith)),
                ap (put_top b w m).next nth
                    ∙ next_old 8 (omega arith)
                    ∙ listed.chain 7 (omega arith)
                    ∙ sym (node_old 7 (omega arith)),
              );
            }))
      | inr not_full ↦
          let ne9 : w.count ≢ 8 =
            (λ z. ground (arith, (==_iff (w.count + 1) (group_size + 1)).1 (omega arith))) in
          let ne16 : w.count ≢ 15 =
            (λ z. ground (arith, (==_iff (w.count + 1) (group_size * 2)).1 (omega arith))) in
          rw (not_nine, not_full)
            (put_memory _ refl (record {
              listed = put-Listed;
              stands = (
                omega arith,
                (
                  (λ le. nth_is.0 (omega arith) ∙ sym (node_old 8 (omega arith))),
                  λ lt. nth_is.1 (omega arith),
                ),
              );
            }))
    ]
  ]

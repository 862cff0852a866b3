-- ===== src/BlockPool/Inv/Lists.antt =====
-- cpp_harness/BlockPool.hpp: the accesses that only change the list of the thread.
use unbounded_obstruction_fr.Base.{
  ℕ, ◌+◌, ◌-◌, ◌≤◌, ◌<◌, ◌≡◌, ◌≢◌, ◌⊎◌, inl, inr, refl, sym, ap, ◌∙◌, arith, false, ◌==◌, ==-ne,
  ==_self, ==_iff, Bool-cases, le_or_lt, if◌then◌else◌,
}
use unbounded_obstruction_fr.BlockPool.{
  Place, unmapped, held, local, pooled, Memory, Thread, Event, allocated, take_top, taken,
}
use unbounded_obstruction_fr.BlockPool.Inv.Defs.{Shape, Listed, NthIs, Local, holds, Does, Keeps}

-- What is claimed of an access.
pub record Sound (n : ℕ) (m : Memory) (w : Thread) (r : Memory × Thread × Event) : Type 0 where
  pub shape : Shape (n + 1) r.0
  pub local_next : Local r.0 r.1
  pub same_tid : r.1.tid ≡ w.tid
  pub keeps : Keeps m r.0 w.tid
  pub does : Does r.2 (holds m) (holds r.0)

-- Blocks in different places differ.
pub places_apart :
    (m : Memory) (x y : ℕ) (p q : Place) → m.place x ≡ p → m.place y ≡ q → p ≢ q → x ≢ y
places_apart m x y p q ep eq ne e = ne (sym ep ∙ ap m.place e ∙ eq)

pub places_differ :
    (m : Memory) (x y : ℕ) (p q : Place) → m.place x ≡ p → m.place y ≡ q → p ≢ q → (x == y) ≡ false
places_differ m x y p q ep eq ne = ==-ne x y (places_apart m x y p q ep eq ne)

pub rank_apart : (t i j : ℕ) → i ≢ j → local t i ≢ local t j
rank_apart t i j ne e = ne (ap (λ p. elim p [ local u k ↦ k | _ ↦ 0 ]) e)

pub tid_apart : (t u i j : ℕ) → t ≢ u → local t i ≢ local u j
tid_apart t u i j ne e = ne (ap (λ p. elim p [ local v k ↦ v | _ ↦ 0 ]) e)

pub rank_same : (t i j : ℕ) → local t i ≡ local t j → i ≡ j
rank_same t i j e = ap (λ p. elim p [ local u k ↦ k | _ ↦ 0 ]) e

module _ (n : ℕ) (m : Memory) (shape : Shape n m) (w : Thread)
    (listed : Listed m w.tid w.top w.count) where
  module _ (some_block : w.top ≢ 0) (few : w.count < 16)
      (high : 9 ≤ w.count → w.nth ≡ m.node w.tid 8)
      (low : w.count < 9 → (w.nth ≡ 0) ⊎ (w.nth ≡ w.top)) where
    counted : 0 < w.count
    counted = elim (le_or_lt w.count 0) [
      | inl le ↦ absurd (some_block (listed.no_top (omega arith)))
      | inr lt ↦ lt
    ]

    before : w.count - 1 + 1 ≡ w.count
    before = let pos = counted in omega arith

    top_place : m.place w.top ≡ local w.tid (w.count - 1)
    top_place =
        let pos = counted in
        rw (listed.some_top counted) (listed.at_place (w.count - 1) (omega arith))

    other :
        (x : ℕ) (p : Place) → m.place x ≡ p → local w.tid (w.count - 1) ≢ p → (w.top == x) ≡ false
    other x p e ne = places_differ m w.top x _ p top_place e ne

    -- A place that is not with a caller was so before.
    was :
        (x : ℕ) (p : Place) → p ≢ held → (take_top w m).place x ≡ p → (m.place x ≡ p) × (w.top ≢ x)
    was x p ne e = elim (Bool-cases (w.top == x)) [
      | inl h ↦ absurd (ne (sym e ∙ rw h refl))
      | inr h ↦ (rw h at e, λ z. ground (arith, (==_iff w.top x).1 z))
    ]

    next_top : (w.count ≡ 1) ⊎ (1 < w.count)
    next_top =
        let pos = counted in
        elim (le_or_lt w.count 1) [ inl le ↦ inl (omega arith) | inr lt ↦ inr lt ]

    taken-Listed : Listed (take_top w m) w.tid (m.next w.top) (w.count - 1)
    taken-Listed = record {
      at_place = λ i lt.
          let pos = counted in
          rw
            (other (m.node w.tid i) (local w.tid i) (listed.at_place i (omega arith))
              (rank_apart w.tid _ i (λ z. absurd (omega arith))))
            (listed.at_place i (omega arith));
      exact = λ x i e.
          let (e', ne) = was x (local w.tid i) (λ z. ground arith) e in
          let (same, lt) = listed.exact x i e' in
          (
            same,
            elim (le_or_lt (w.count - 1) i) [
              | inl ge ↦
                  let last : w.count - 1 ≡ i = omega arith in
                  absurd (ne (listed.some_top counted ∙ ap (m.node w.tid) last ∙ sym same))
              | inr less ↦ less
            ],
          );
      chain = λ i lt. listed.chain i (omega arith);
      bottom = λ lt. listed.bottom counted;
      no_top = λ e.
          let pos = counted in
          let first : w.count - 1 ≡ 0 = e in
          rw (listed.some_top counted, first) (listed.bottom counted);
      some_top = λ lt.
          let step : w.count - 1 - 1 + 1 ≡ w.count - 1 = omega arith in
          ap m.next (listed.some_top counted ∙ ap (m.node w.tid) (sym step))
          ∙ listed.chain (w.count - 1 - 1) (omega arith);
    }

    nth-NthIs : NthIs (take_top w m) w.tid (if w.top == w.nth then 0 else w.nth) (w.count - 1)
    nth-NthIs = (
      (λ le.
          let e = high (omega arith) in
          rw
            (
              e,
              other (m.node w.tid 8) (local w.tid 8) (listed.at_place 8 (omega arith))
                  (rank_apart w.tid _ 8 (λ z. absurd (omega arith))),
            )
            refl),
      λ lt. elim (le_or_lt 9 w.count) [
        | inl nine ↦
            let last : w.count - 1 ≡ 8 = omega arith in
            rw (high nine, listed.some_top counted, last, ==_self (m.node w.tid 8)) refl
        | inr less ↦ elim (low less) [
          | inl e ↦ elim (Bool-cases (w.top == w.nth)) [ inl h ↦ rw h refl | inr h ↦ rw h e ]
          | inr e ↦ rw (e, ==_self w.top) refl
        ]
      ],
    )

    pub take-Sound : Sound n m w (take_top w m, taken w m, allocated w.top)
    take-Sound = record {
      shape = record {
        small_sn = omega (arith, shape.small_sn);
        some_fresh = shape.some_fresh;
        null = rw (other 0 unmapped shape.null (λ z. ground arith)) shape.null;
        above =
            λ x le. rw (other x unmapped (shape.above x le) (λ z. ground arith)) (shape.above x le);
        at_place = λ h i lh li.
            rw (other (m.group h i) (pooled h i) (shape.at_place h i lh li) (λ z. ground arith))
              (shape.at_place h i lh li);
        exact = λ x h i e. shape.exact x h i (was x (pooled h i) (λ z. ground arith) e).0;
        chain = shape.chain;
        bottom = shape.bottom;
        global_top = shape.global_top;
        group_links = shape.group_links;
      };
      local_next = record { listed = taken-Listed; stands = (omega (arith, few), nth-NthIs) };
      same_tid = refl;
      keeps = record {
        stays =
            λ u x i ne e. rw (other x (local u i) e (tid_apart w.tid u _ i (λ z. ne (sym z)))) e;
        came = λ u x i ne e. (was x (local u i) (λ z. ground arith) e).0;
        next_kept = λ u x i ne e. refl;
        link_kept = λ u x i ne e. refl;
        node_kept = λ u i ne. refl;
        sn_grows = omega arith;
        ptr_kept = λ e. refl;
        global_link_kept = λ e ne. refl;
      };
      does = (
        some_block,
        rw top_place refl,
        rw (==_self w.top) refl,
        λ x ne. rw (==-ne w.top x (λ z. ne (sym z))) refl,
      );
    }

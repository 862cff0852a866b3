-- ===== src/BlockPool/Access.antt =====
-- cpp_harness/BlockPool.hpp: what every access of a thread keeps.
use unbounded_obstruction_fr.Base.{
  ℕ, zero, suc, ◌+◌, ◌-◌, ◌^◌, ◌<◌, ◌≡◌, ◌≢◌, inl, inr, refl, sym, ◌∙◌, ap, arith, true, false,
  ◌==◌, ==_self, ==_iff, Bool-cases, update,
}
use unbounded_obstruction_fr.BlockPool.{
  Place, local, pooled, Memory, Pc, idle, looking, looked, grabbing, giving, linking, linked,
  Thread, Op, alloc, free, Choice, silent, is_held, exchanges, access, call,
}
use unbounded_obstruction_fr.BlockPool.Inv.Defs.{Shape, Listed, Stands, Keeps, top_of}
use unbounded_obstruction_fr.BlockPool.Inv.Lists.{Sound, take-Sound, places_differ}
use unbounded_obstruction_fr.BlockPool.Inv.Puts.{put-Sound}
use unbounded_obstruction_fr.BlockPool.Inv.Grabs.{grab-Sound}
use unbounded_obstruction_fr.BlockPool.Inv.Gives.{give-Sound}
use unbounded_obstruction_fr.BlockPool.Inv.Appends.{append-Sound}

later-Shape : (n : ℕ) (m : Memory) → Shape n m → Shape (n + 1) m
later-Shape n m s = record {
  small_sn = omega (arith, s.small_sn);
  some_fresh = s.some_fresh;
  null = s.null;
  above = s.above;
  at_place = s.at_place;
  exact = s.exact;
  chain = s.chain;
  bottom = s.bottom;
  global_top = s.global_top;
  group_links = s.group_links;
}

load-Keeps : (m : Memory) (t : ℕ) → Keeps m m t
load-Keeps m t = record {
  stays = λ u x i ne e. e;
  came = λ u x i ne e. e;
  next_kept = λ u x i ne e. refl;
  link_kept = λ u x i ne e. refl;
  node_kept = λ u i ne. refl;
  sn_grows = omega arith;
  ptr_kept = λ e. refl;
  global_link_kept = λ e ne. refl;
}

exchanges_lem :
    (m : Memory) (old sn : ℕ)
    → exchanges m old sn ≡ true
    → (m.global_ptr ≡ old) × (m.global_sn ≡ sn)
exchanges_lem m old sn e = elim (Bool-cases (m.global_ptr == old)) [
  | inl h ↦ ((==_iff m.global_ptr old).0 h, (==_iff m.global_sn sn).0 (rw h at e))
  | inr h ↦ absurd (ground (arith, rw h at e))
]

module _ (n : ℕ) (m : Memory) (shape : Shape n m) (few : n + 1 < 2 ^ 32) (c : Choice) (w : Thread)
    (listed : Listed m w.tid w.top w.count) where
  loaded : (p : Pc) → Stands m w p → Sound n m w (m, record w { pc = p }, silent)
  loaded p s = record {
    shape = later-Shape n m shape;
    local_next = record { listed = listed; stands = s };
    same_tid = refl;
    keeps = load-Keeps m w.tid;
    does = λ x. refl;
  }

  -- A thread without a block looks at the global pool.
  none_listed : w.top ≡ 0 → w.count ≡ 0
  none_listed e = elim (Bool-cases (w.count == 0)) [
    | inl h ↦ (==_iff w.count 0).0 h
    | inr h ↦
        let some_block : 0 < w.count = ground (arith, (==_iff w.count 0).1) in
        let here = listed.at_place (w.count - 1) (omega arith) in
        absurd (ground (arith, here, ap m.place (sym (listed.some_top some_block) ∙ e), shape.null))
  ]

  call-Sound : (o : Op) → w.pc ≡ idle → Stands m w idle → Sound n m w (call o m w)
  call-Sound alloc here (lt, (high, low)) = elim (Bool-cases (w.top == 0)) [
    | inl h ↦
        let e = none_listed ((==_iff w.top 0).0 h) in rw h (loaded looking (e, low (omega arith)))
    | inr h ↦ rw h (
        take-Sound n m shape w listed (λ z. ground (arith, (==_iff w.top 0).1 z)) lt high
          (λ less. inl (low less)))
  ]
  call-Sound (free b) here (lt, nth_is) = elim (Bool-cases (is_held (m.place b))) [
    | inl h ↦ rw h (put-Sound n m shape w listed lt nth_is b h)
    | inr h ↦ rw h (rest (lt, nth_is))
  ]
    where
      rest : Stands m w idle → Sound n m w (m, w, silent)
      rest s = record {
        shape = later-Shape n m shape;
        local_next = record { listed = listed; stands = rw here s };
        same_tid = refl;
        keeps = load-Keeps m w.tid;
        does = λ x. refl;
      }

  -- The link of the group that a thread is about to give.
  linked-Sound :
      (ng old sn : ℕ)
      → Stands m w (linking ng old sn)
      → Sound n m w (
        record m { next_group = update m.next_group ng old },
        record w { pc = linked ng old sn },
        silent,
      )
  linked-Sound ng old sn ((full, nth_is, ng_is), track) = record {
    shape = record {
      small_sn = omega (arith, shape.small_sn);
      some_fresh = shape.some_fresh;
      null = shape.null;
      above = shape.above;
      at_place = shape.at_place;
      exact = shape.exact;
      chain = shape.chain;
      bottom = shape.bottom;
      global_top = shape.global_top;
      group_links = λ h lh.
          rw (other (m.group h 7) _ (shape.at_place h 7 lh (omega arith)) (λ z. ground arith))
            (shape.group_links h lh);
    };
    local_next = record {
      listed = record {
        at_place = listed.at_place;
        exact = listed.exact;
        chain = listed.chain;
        bottom = listed.bottom;
        no_top = listed.no_top;
        some_top = listed.some_top;
      };
      stands = ((full, nth_is, ng_is), track, rw (==_self ng) refl);
    };
    same_tid = refl;
    keeps = record {
      stays = λ u x i ne e. e;
      came = λ u x i ne e. e;
      next_kept = λ u x i ne e. refl;
      link_kept = λ u x i ne e.
          rw (other x (local u i) e (λ z. ne (sym (ap (λ p. elim p [ local v k ↦ v | _ ↦ 0 ]) z))))
            refl;
      node_kept = λ u i ne. refl;
      sn_grows = omega arith;
      ptr_kept = λ e. refl;
      global_link_kept = λ e ne. global_link m.groups refl ne;
    };
    does = λ x. refl;
  }
    where
      mine : m.place ng ≡ local w.tid 7
      mine = rw ng_is (listed.at_place 7 (omega (arith, full)))

      other : (x : ℕ) (p : Place) → m.place x ≡ p → local w.tid 7 ≢ p → (ng == x) ≡ false
      other x p e ne = places_differ m ng x _ p mine e ne

      global_link :
          (k : ℕ)
          → m.groups ≡ k
          → m.global_ptr ≢ 0
          → update m.next_group ng old m.global_ptr ≡ m.next_group m.global_ptr
      global_link zero e ne = absurd (ne (shape.global_top ∙ ap (top_of m.group) e))
      global_link (suc k) e ne =
          let top : m.global_ptr ≡ m.group k 7 = shape.global_top ∙ ap (top_of m.group) e in
          rw
            (other m.global_ptr (pooled k 7)
              (rw top (shape.at_place k 7 (omega arith) (omega arith))) (λ z. ground arith))
            refl

  pub access-Sound : (p : Pc) → w.pc ≡ p → Stands m w p → Sound n m w (access c m w p)
  access-Sound idle here s = call-Sound c.op here s
  access-Sound looking here (e, no_nth) = elim (Bool-cases (m.global_ptr == 0)) [
    | inl h ↦ rw h (append-Sound n m shape w listed e (m.fresh + c.gap) (omega arith))
    | inr h ↦ rw h (
        loaded (looked m.global_ptr m.global_sn)
          (e, no_nth, (λ z. ground (arith, (==_iff m.global_ptr 0).1 z)), (omega arith, λ _. refl)))
  ]
  access-Sound (looked old sn) here (e, no_nth, nz, track) =
      loaded (grabbing old sn (m.next_group old)) (e, no_nth, nz, track, λ _. refl)
  access-Sound (grabbing old sn after) here (e, no_nth, nz, track, f) =
      elim (Bool-cases (exchanges m old sn)) [
        | inl h ↦
            let (ptr, same) = exchanges_lem m old sn h in
            rw h (grab-Sound n m shape few w listed e no_nth old after nz ptr (f (sym same)))
        | inr h ↦ rw h (loaded looking (e, no_nth))
      ]
  access-Sound (giving ng) here g =
      loaded (linking ng m.global_ptr m.global_sn) (g, (omega arith, λ _. refl))
  access-Sound (linking ng old sn) here s = linked-Sound ng old sn s
  access-Sound (linked ng old sn) here ((full, nth_is, ng_is), track, f) =
      elim (Bool-cases (exchanges m old sn)) [
        | inl h ↦ rw h (
            give-Sound n m shape few w listed full nth_is ng old ng_is (exchanges_lem m old sn h).0
              f)
        | inr h ↦ rw h (loaded (giving ng) (full, nth_is, ng_is))
      ]

-- ===== src/SglDeque/Inv.antt =====
-- The lock excludes, and so every operation is atomic on the abstract deque.
use mathlib.Core.Bool.{true≢false}
use unbounded_obstruction_fr.Base.{
  ℕ, ◌≡◌, ◌≢◌, refl, sym, ap, ==_iff, ◌∙◌, ◌⊎◌, Bool, true, false, Bool-cases, inl, inr, some, List,
  [], ◌∷◌, ◌==◌, arith, update_self,
}
use unbounded_obstruction_fr.Spec.{push_left, push_right, pop_left, pop_right}
use unbounded_obstruction_fr.Threads.{System, step, run, Explains, run_keeps, update_keeps}
use unbounded_obstruction_fr.SglDeque.{
  Op, left_push, right_push, left_pop, right_pop, Memory, Pc, idle, testing, spinning, entered,
  reading, removing, leaving, faulted, Event, silent, pushed_left, pushed_right, popped_left,
  popped_right, found_empty, advance, enter, read_end, remove_end, end_of, is_empty, popped,
}

zero_ne_one : ¬ (◌≡◌ {A = ℕ} 0 1)
zero_ne_one e = omega arith

module _ {A : Type 0} where
  abbrev pub Does : Event A → List A → List A → Type 0
  Does silent l l' = l' ≡ l
  Does (pushed_left v) l l' = l' ≡ push_left v l
  Does (pushed_right v) l l' = l' ≡ push_right v l
  Does (popped_left v) l l' = pop_left l ≡ some (v, l')
  Does (popped_right v) l l' = pop_right l ≡ some (v, l')
  Does found_empty l l' = (l ≡ []) × (l' ≡ l)

  -- Between `lock` and `unlock`.
  abbrev pub critical : Pc A → Bool
  critical idle = false
  critical (testing _) = false
  critical (spinning _) = false
  critical _ = true

  abbrev pub IsPop : Op A → Type 0
  IsPop left_pop = Unit
  IsPop right_pop = Unit
  IsPop _ = ⊥

  -- What a thread knows of the lock and of the deque.
  abbrev pub Local : Memory A → Pc A → Type 0
  Local m idle = Unit
  Local m (testing _) = Unit
  Local m (spinning _) = Unit
  Local m (entered _) = m.lock ≡ 1
  Local m (reading op) = (m.lock ≡ 1) × IsPop op × (m.deque ≢ [])
  Local m (removing op v) =
      (m.lock ≡ 1) × IsPop op × ((l : List A) × (end_of op m.deque ≡ some (v, l)))
  Local m (leaving _) = m.lock ≡ 1
  Local m faulted = ⊥

  abbrev pub Excludes : Pc A → Pc A → Type 0
  Excludes p q = critical p ≡ true → critical q ≡ true → ⊥

  pub record Inv (s : System (Memory A) (Pc A)) : Type 0 where
    pub local : (t : ℕ) → Local s.shared (s.pc t)
    pub excludes : (t u : ℕ) → t ≢ u → Excludes (s.pc t) (s.pc u)
    pub held : s.shared.lock ≢ 0 → (t : ℕ) × (critical (s.pc t) ≡ true)

  -- What one access does to the parts of the invariant.
  record Kept (m : Memory A) (p : Pc A) (m' : Memory A) (p' : Pc A) : Type 0 where
    local : Local m' p'
    others :
        (q : Pc A)
        → Local m q
        → Excludes p q
        → Excludes q p
        → Local m' q × Excludes p' q × Excludes q p'
    holder : (critical p' ≡ true) ⊎ (m'.lock ≢ 0 → (m.lock ≢ 0) × (critical p ≡ false))

  pub critical_locked : (m : Memory A) (q : Pc A) → Local m q → critical q ≡ true → m.lock ≡ 1
  critical_locked m idle l c = cc
  critical_locked m (testing _) l c = cc
  critical_locked m (spinning _) l c = cc
  critical_locked m (entered _) l c = l
  critical_locked m (reading _) l c = l.0
  critical_locked m (removing _ _) l c = l.0
  critical_locked m (leaving _) l c = l
  critical_locked m faulted l c = absurd l

  Local-outside : (m : Memory A) (q : Pc A) → critical q ≡ false → Local m q
  Local-outside m idle c = tt
  Local-outside m (testing _) c = tt
  Local-outside m (spinning _) c = tt
  Local-outside m _ c = cc

  -- A thread inside is the only one inside: what it changes, no other thread relies on.
  Kept-inside :
      {m m' : Memory A} (p p' : Pc A)
      → critical p ≡ true
      → (critical p' ≡ true) ⊎ (m'.lock ≡ 0)
      → Local m' p'
      → Kept m p m' p'
  Kept-inside {m' = m'} p p' inside still l = record {
    local = l;
    others = λ q lq pq qp. elim (Bool-cases (critical q)) [
      | inl c ↦ absurd (pq inside c)
      | inr c ↦ (Local-outside m' q c, (λ _ c'. cc), λ c' _. cc)
    ];
    holder = elim still [ inl c ↦ inl c | inr z ↦ inr (λ ne. absurd (ne z)) ];
  }

  Local-relock :
      (m m' : Memory A) (q : Pc A)
      → m'.deque ≡ m.deque
      → (m.lock ≡ 1 → m'.lock ≡ 1)
      → Local m q
      → Local m' q
  Local-relock m m' idle e k l = tt
  Local-relock m m' (testing _) e k l = tt
  Local-relock m m' (spinning _) e k l = tt
  Local-relock m m' (entered _) e k l = k l
  Local-relock m m' (reading _) e k l = (k l.0, l.1, rw e l.2)
  Local-relock m m' (removing _ _) e k l = (k l.0, l.1, rw e l.2)
  Local-relock m m' (leaving _) e k l = k l
  Local-relock m m' faulted e k l = l

  -- A thread outside that stays outside.
  Kept-outside :
      {m m' : Memory A} (p p' : Pc A)
      → critical p ≡ false
      → critical p' ≡ false
      → m'.deque ≡ m.deque
      → (m.lock ≡ 1 → m'.lock ≡ 1)
      → (m'.lock ≢ 0 → m.lock ≢ 0)
      → Kept m p m' p'
  Kept-outside {m} {m'} p p' c c' same keep lost = record {
    local = Local-outside m' p' c';
    others = λ q lq pq qp. (Local-relock m m' q same keep lq, (λ a _. cc), λ _ a. cc);
    holder = inr (λ ne. (lost ne, c));
  }

  Kept-enter :
      {m : Memory A} (op : Op A)
      → m.lock ≡ 0
      → Kept m (testing op) (record m { lock = 1 }) (entered op)
  Kept-enter op free = record {
    local = refl;
    others = λ q lq pq qp. elim (Bool-cases (critical q)) [
      | inl c ↦ absurd (zero_ne_one (sym free ∙ critical_locked _ q lq c))
      | inr c ↦ (Local-outside _ q c, (λ _ c'. cc), λ c' _. cc)
    ];
    holder = inl refl;
  }

  pop_right-some : (x : A) (l : List A) → (v : A) × (r : List A) × (pop_right (x ∷ l) ≡ some (v, r))
  unfolding pop_right
  pop_right-some x [] = (x, [], refl)
  pop_right-some x (y ∷ l) = let (v, r, e) = pop_right-some y l in (v, x ∷ r, rw (e, pop_right))

  end_of-some :
      (op : Op A) (l : List A)
      → IsPop op
      → l ≢ []
      → (v : A) × (r : List A) × (end_of op l ≡ some (v, r))
  unfolding pop_left
  end_of-some op [] h ne = absurd (ne refl)
  end_of-some left_pop (x ∷ l) h ne = (x, l, refl)
  end_of-some right_pop (x ∷ l) h ne = pop_right-some x l
  end_of-some (left_push _) (x ∷ l) h ne = absurd h
  end_of-some (right_push _) (x ∷ l) h ne = absurd h

  is_empty_eq : (l : List A) → is_empty l ≡ true → l ≡ []
  is_empty_eq [] h = refl
  is_empty_eq (x ∷ l) h = cc

  is_empty_ne : (l : List A) → is_empty l ≡ false → l ≢ []
  is_empty_ne [] h e = cc
  is_empty_ne (x ∷ l) h e = cc

  popped-Does :
      (op : Op A) (v : A) (l r : List A)
      → IsPop op
      → end_of op l ≡ some (v, r)
      → Does (popped op v) l r
  popped-Does left_pop v l r h e = e
  popped-Does right_pop v l r h e = e
  popped-Does (left_push _) v l r h e = absurd h
  popped-Does (right_push _) v l r h e = absurd h

module _ {A : Type 0} (empty : A) where
  Kept-enter_body :
      (op : Op A) (m : Memory A)
      → m.lock ≡ 1
      → let (m', p', e) = enter empty op m in Kept m (entered op) m' p' × Does e m.deque m'.deque
  unfolding enter
  Kept-enter_body (left_push v) m l = (Kept-inside _ _ refl (inl refl) l, refl)
  Kept-enter_body (right_push v) m l = (Kept-inside _ _ refl (inl refl) l, refl)
  Kept-enter_body left_pop m l = elim (Bool-cases (is_empty m.deque)) [
    | inl none_left ↦
        rw none_left (Kept-inside _ _ refl (inl refl) l, (is_empty_eq m.deque none_left, refl))
    | inr some_left ↦
        rw some_left (Kept-inside _ _ refl (inl refl) (l, tt, is_empty_ne m.deque some_left), refl)
  ]
  Kept-enter_body right_pop m l = elim (Bool-cases (is_empty m.deque)) [
    | inl none_left ↦
        rw none_left (Kept-inside _ _ refl (inl refl) l, (is_empty_eq m.deque none_left, refl))
    | inr some_left ↦
        rw some_left (Kept-inside _ _ refl (inl refl) (l, tt, is_empty_ne m.deque some_left), refl)
  ]

  advance-Kept :
      (call : Op A) (m : Memory A) (p : Pc A)
      → Local m p
      → let (m', p', e) = advance empty call m p in Kept m p m' p' × Does e m.deque m'.deque
  unfolding advance
  advance-Kept call m idle l =
      (Kept-outside idle (testing call) refl refl refl (λ h. h) (λ h. h), refl)
  advance-Kept call m (testing op) l = elim (Bool-cases (m.lock == 0)) [
    | inl free ↦ rw free (Kept-enter op (ground arith), refl)
    | inr taken ↦
        rw taken
          (Kept-outside (testing op) (spinning op) refl refl refl (λ h. refl) (ground arith), refl)
  ]
  advance-Kept call m (spinning op) l = elim (Bool-cases (m.lock == 0)) [
    | inl free ↦
        rw free (Kept-outside (spinning op) (testing op) refl refl refl (λ h. h) (λ h. h), refl)
    | inr taken ↦
        rw taken (Kept-outside (spinning op) (spinning op) refl refl refl (λ h. h) (λ h. h), refl)
  ]
  advance-Kept call m (entered op) l = Kept-enter_body op m l
  advance-Kept call m (reading op) l =
      let (v, r, e) = end_of-some op m.deque l.1 l.2 in
      rw (e, read_end)
        (Kept-inside (reading op) (removing op v) refl (inl refl) (l.0, l.1, (r, e)), refl)
  advance-Kept call m (removing op v) l =
      rw (l.2.1, remove_end)
        (
          Kept-inside (removing op v) (leaving (some v)) refl (inl refl) l.0,
          popped-Does op v m.deque l.2.0 l.1 l.2.1,
        )
  advance-Kept call m (leaving r) l = (Kept-inside _ _ refl (inr refl) tt, refl)
  advance-Kept call m faulted l = absurd l

  abbrev pub sgl_step : System (Memory A) (Pc A) → ℕ → Op A → System (Memory A) (Pc A) × Event A
  sgl_step = step (advance empty)

  holder-step :
      (s : System (Memory A) (Pc A)) (t : ℕ) (call : Op A)
      → Inv s
      → let s' = (sgl_step s t call).0 in s'.shared.lock ≢ 0 → (u : ℕ) × (critical (s'.pc u) ≡ true)
  unfolding step
  holder-step s t call inv ne = elim (advance-Kept call s.shared (s.pc t) (inv.local t)).0.holder [
    | inl c ↦ (t, rw update_self c)
    | inr h ↦
        let (u, c) = inv.held (h ne).0 in
        elim (Bool-cases (t == u)) [
          | inl same ↦ absurd (
              true≢false
                (sym c ∙ (ap (λ i. critical (s.pc i)) (sym ((==_iff t u).0 same)) ∙ (h ne).1)))
          | inr other ↦ (u, rw other c)
        ]
  ]

  sgl_step-Inv :
      (s : System (Memory A) (Pc A)) (t : ℕ) (call : Op A)
      → Inv s
      → let (s', e) = sgl_step s t call in Inv s' × Does e s.shared.deque s'.shared.deque
  sgl_step-Inv s t call inv =
      let k = advance-Kept call s.shared (s.pc t) (inv.local t) in
      let (local, excludes) =
        update_keeps (advance empty) Local Excludes s t call inv.local inv.excludes
          (k.0.local, k.0.others) in
      (
        record { local = local; excludes = excludes; held = holder-step s t call inv },
        unfold step in k.1,
      )

  -- An unlocked, empty deque that no thread uses.
  abbrev pub start : System (Memory A) (Pc A)
  start = record { shared = record { lock = 0; deque = [] }; pc = λ _. idle }

  start-Inv : Inv start
  start-Inv = record {
    local = λ t. tt;
    excludes = λ t u ne c c'. cc;
    held = λ ne. absurd (ne refl);
  }

  module _ (schedule : List (ℕ × Op A)) where
    abbrev pub final : System (Memory A) (Pc A)
    final = (run (advance empty) start schedule).0

    explained :
        Inv final × Explains Does (run (advance empty) start schedule).1 [] final.shared.deque
    explained =
        run_keeps (advance empty) (λ m. m.deque) Does Inv sgl_step-Inv schedule start start-Inv

    -- Two threads are never between `lock` and `unlock` together.
    pub mutual_exclusion :
        (t u : ℕ) → critical (final.pc t) ≡ true → critical (final.pc u) ≡ true → t ≡ u
    mutual_exclusion t u c c' = elim (Bool-cases (t == u)) [
      | inl same ↦ (==_iff t u).0 same
      | inr other ↦
          absurd (explained.0.excludes t u (λ e. true≢false (sym ((==_iff t u).1 e) ∙ other)) c c')
    ]

    -- For every schedule, the events are a run of the abstract deque from the empty one to the content
    -- of the `std::deque`.
    pub sgl_linearizable :
        Explains Does (run (advance empty) start schedule).1 [] final.shared.deque
    sgl_linearizable = explained.1

    -- No thread reads or removes an end of an empty deque.
    pub never_faulted : (t : ℕ) → final.pc t ≢ faulted
    never_faulted t e = rw e at (explained.0.local t)

    -- Whenever the lock is taken, some thread is between `lock` and `unlock`.
    pub lock_is_held : final.shared.lock ≢ 0 → (t : ℕ) × (critical (final.pc t) ≡ true)
    lock_is_held = explained.0.held

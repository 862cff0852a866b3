-- ===== src/Threads.antt =====
-- Threads that take turns: each turn is one shared access of one thread.
use unbounded_obstruction_fr.Base.{
  ℕ, ◌≡◌, ◌≢◌, refl, sym, arith, List, [], ◌∷◌, ◌==◌, update, Bool-cases, inl, inr,
}

pub record System (M P : Type 0) : Type 0 where
  pub shared : M
  pub pc : ℕ → P

-- `advance c m p` is the access of a thread that stands at `p`: the new memory, where the thread
-- then stands, and what happened.
module _ {C M P E : Type 0} (advance : C → M → P → M × P × E) where
  unfoldable pub step : System M P → ℕ → C → System M P × E
  step s t c =
      let (m, p, e) = advance c s.shared (s.pc t) in
      (record { shared = m; pc = update s.pc t p }, e)

  -- A schedule says whose turn it is, and what is not decided by the code.
  unfoldable pub run : System M P → List (ℕ × C) → System M P × List E
  unfolding step
  run s [] = (s, [])
  run s ((t, c) ∷ rest) =
      let (s', e) = step s t c in let (final, es) = run s' rest in (final, e ∷ es)

-- A sequence of events leads from one state of a specification to another.
abbrev pub Explains : {E L : Type 0} → (E → L → L → Type 0) → List E → L → L → Type 0
Explains Does [] l l' = l' ≡ l
Explains {L} Does (e ∷ es) l l' = (m : L) × Does e l m × Explains Does es m l'

module _ {C M P E L : Type 0} (advance : C → M → P → M × P × E) (view : M → L)
    (Does : E → L → L → Type 0) (Inv : System M P → Type 0) where
  -- What every access does, every schedule does.
  pub run_keeps :
      ((s : System M P) (t : ℕ) (c : C)
        → Inv s
        → let (s', e) = step advance s t c in Inv s' × Does e (view s.shared) (view s'.shared))
      → (schedule : List (ℕ × C)) (s : System M P) → Inv s
      → let (s', es) = run advance s schedule in
        Inv s' × Explains Does es (view s.shared) (view s'.shared)
  unfolding run
  run_keeps keep [] s inv = (inv, refl)
  run_keeps keep ((t, c) ∷ rest) s inv =
      let (inv', does) = keep s t c inv in
      let (final, es) = run_keeps keep rest (step advance s t c).0 inv' in (final, (_, does, es))

module _ {C M P E : Type 0} (advance : C → M → P → M × P × E) (Local : M → P → Type 0)
    (Pair : P → P → Type 0) where
  -- An invariant of the threads one by one and two by two is kept, if the mover's access keeps it.
  pub update_keeps :
      (s : System M P) (t : ℕ) (c : C)
      → ((u : ℕ) → Local s.shared (s.pc u))
      → ((u w : ℕ) → u ≢ w → Pair (s.pc u) (s.pc w))
      → (let (m, p, e) = advance c s.shared (s.pc t) in
          Local m p
          × ((q : P)
              → Local s.shared q
              → Pair (s.pc t) q
              → Pair q (s.pc t)
              → Local m q × Pair p q × Pair q p))
      → let s' = (step advance s t c).0 in
        ((u : ℕ) → Local s'.shared (s'.pc u)) × ((u w : ℕ) → u ≢ w → Pair (s'.pc u) (s'.pc w))
  unfolding step
  update_keeps s t c local pair h = (local', pair')
    where
      others :
          (u : ℕ)
          → t ≢ u
          → let (m, p, e) = advance c s.shared (s.pc t) in
            Local m (s.pc u) × Pair p (s.pc u) × Pair (s.pc u) p
      others u ne = h.1 (s.pc u) (local u) (pair t u ne) (pair u t (λ e. ne (sym e)))

      local' : (u : ℕ) → let (m, p, e) = advance c s.shared (s.pc t) in Local m (update s.pc t p u)
      local' u = elim (Bool-cases (t == u)) [
        | inl hit ↦ rw hit h.0
        | inr miss ↦ rw miss (others u (ground arith)).0
      ]

      pair' :
          (u w : ℕ)
          → u ≢ w
          → let (m, p, e) = advance c s.shared (s.pc t) in
            Pair (update s.pc t p u) (update s.pc t p w)
      pair' u w ne = elim (Bool-cases (t == u)) [
        | inl hit ↦ elim (Bool-cases (t == w)) [
          | inl hit' ↦ absurd (ne (ground arith))
          | inr miss ↦ rw (hit, miss) (others w (ground arith)).1
        ]
        | inr miss ↦ elim (Bool-cases (t == w)) [
          | inl hit ↦ rw (hit, miss) (others u (ground arith)).2
          | inr miss' ↦ rw (miss, miss') (pair u w ne)
        ]
      ]

-- ===== src/WsDeque/Content.antt =====
-- deque/WSDeque.hpp: what the ring holds between the top and the bottom, and that growing keeps it.
use native.Mathlib.Nat.{div-add-mod', pow-succ'}
use native.Mathlib.Decide.{dec_lt, ℕ_discrete}
use unbounded_obstruction_fr.Base.{
  ℕ, zero, suc, ◌+◌, ◌-◌, ◌*◌, ◌/◌, ◌%◌, ◌^◌, ◌≤◌, ◌<◌, ◌≡◌, ◌≢◌, refl, sym, ap, ap₂, ◌∙◌, Option,
  none, some, List, [], ◌∷◌, ◌++◌, update_self, update_other, arith,
}
use unbounded_obstruction_fr.Spec.{push_right}
use unbounded_obstruction_fr.WsDeque.{
  Ring, Deque, Result, op_success, op_empty, size, get, put, copied, grow,
}

row_le : (k a b : ℕ) → a < b → a * k + k ≤ b * k
row_le k a b h = grind arith

mod-lt_ne : (s i j : ℕ) → i < j → j < i + s → i % s ≢ j % s
mod-lt_ne s i j p q e = elim (dec_lt (i / s) (j / s)) [
  | yes l ↦ omega (arith, row_le s (i / s) (j / s) l, div-add-mod' i s, div-add-mod' j s)
  | no l ↦ elim (dec_lt (j / s) (i / s)) [
    | yes g ↦ omega (arith, row_le s (j / s) (i / s) g, div-add-mod' i s, div-add-mod' j s)
    | no g ↦
        let same : i / s ≡ j / s = omega arith in
        omega (arith, ap (λ k. k * s) same, div-add-mod' i s, div-add-mod' j s)
  ]
]

double : (k : ℕ) → 2 ^ (k + 1) ≡ 2 * 2 ^ k
double k = ap (λ i. 2 ^ i) (omega arith) ∙ pow-succ' 2 k

module _ {A : Type 0} where
  abbrev pub window : (ℕ → A) → (lo n : ℕ) → List A
  window f lo zero = []
  window f lo (suc n) = f lo ∷ window f (suc lo) n

  pub window_none : (f : ℕ → A) (lo : ℕ) {n : ℕ} → n ≡ 0 → window f lo n ≡ []
  window_none f lo e = rw e refl

  window-same :
      (f g : ℕ → A) (lo n : ℕ)
      → ((i : ℕ) → lo ≤ i → i < lo + n → f i ≡ g i)
      → window f lo n ≡ window g lo n
  window-same f g lo zero h = refl
  window-same f g lo (suc n) h =
      ap₂ (λ x l. x ∷ l) (h lo (omega arith) (omega arith))
        (window-same f g (suc lo) n (λ i p q. h i (omega arith) (omega arith)))

  pub window_last :
      (f : ℕ → A) (lo n : ℕ) → window f lo (suc n) ≡ push_right (f (lo + n)) (window f lo n)
  unfolding push_right
  window_last f lo zero = ap (λ i. f i ∷ []) (omega arith)
  window_last f lo (suc n) =
      ap (λ l. f lo ∷ l)
        (window_last f (suc lo) n ∙ ap (λ i. window f (suc lo) n ++ (f i ∷ [])) (omega arith))

  -- The content: what stands from the top up to the bottom.
  abbrev pub view : Deque A → List A
  view d = window (get d.ring) d.top (d.bottom - d.top)

  -- One place of the ring stays free.
  pub record IsValid (d : Deque A) : Type 0 where
    pub ordered : d.top ≤ d.bottom
    pub room : d.bottom < d.top + size d.ring

  pub get-put_same : (r : Ring A) (i : ℕ) (v : A) → get (put r i v) i ≡ v
  unfolding get put
  get-put_same r i v = update_self r.arr (i % size r) v

  pub get-put_other :
      (r : Ring A) (i j : ℕ) (v : A) → i < j → j < i + size r → get (put r j v) i ≡ get r i
  unfolding get put
  get-put_other r i j v p q =
      update_other r.arr (j % size r) (i % size r) v (λ e. mod-lt_ne (size r) i j p q (sym e))

  pub size-put : (r : Ring A) (i : ℕ) (v : A) → size (put r i v) ≡ size r
  unfolding put
  size-put r i v = refl

  size-copied : (old a : Ring A) (top n : ℕ) → size (copied old top n a) ≡ size a
  unfolding copied
  size-copied old a top zero = refl
  size-copied old a top (suc n) =
      size-put (copied old top n a) (top + n) _ ∙ size-copied old a top n

  get-copied :
      (old a : Ring A) (top n i : ℕ)
      → n ≤ size a
      → top ≤ i
      → i < top + n
      → get (copied old top n a) i ≡ get old i
  unfolding copied
  get-copied old a top zero i h p q = absurd (omega arith)
  get-copied old a top (suc n) i h p q = elim (ℕ_discrete i (top + n)) [
    | yes e ↦ rw e (get-put_same (copied old top n a) (top + n) (get old (top + n)))
    | no ne ↦
        get-put_other (copied old top n a) i (top + n) (get old (top + n)) (omega arith)
          (rw (size-copied old a top n) (omega arith))
        ∙ get-copied old a top n i (omega arith) p (omega arith)
  ]

  pub size-grow :
      (raw : ℕ → A) (r : Ring A) (bottom top : ℕ) → size (grow raw r bottom top) ≡ 2 * size r
  unfolding grow
  size-grow raw r bottom top = size-copied r _ top (bottom - top) ∙ double r.logsize

  pub get-grow :
      (raw : ℕ → A) (r : Ring A) (bottom top i : ℕ)
      → bottom - top ≤ 2 * size r
      → top ≤ i
      → i < bottom
      → get (grow raw r bottom top) i ≡ get r i
  unfolding grow
  get-grow raw r bottom top i h p q =
      get-copied r _ top (bottom - top) i (rw (double r.logsize) h) p (omega arith)

  -- A value put at the bottom of a ring that holds the content.
  pub view-put :
      (d : Deque A) (r : Ring A) (v : A)
      → d.top ≤ d.bottom
      → d.bottom < d.top + size r
      → ((i : ℕ) → d.top ≤ i → i < d.bottom → get r i ≡ get d.ring i)
      → window (get (put r d.bottom v)) d.top (d.bottom + 1 - d.top) ≡ push_right v (view d)
  view-put d r v le room same =
      let more : d.bottom + 1 - d.top ≡ suc (d.bottom - d.top) = omega arith in
      let last : d.top + (d.bottom - d.top) ≡ d.bottom = omega arith in
      rw more (
        window_last (get (put r d.bottom v)) d.top (d.bottom - d.top)
        ∙ ap₂ push_right (ap (get (put r d.bottom v)) last ∙ get-put_same r d.bottom v) (
            window-same (get (put r d.bottom v)) (get d.ring) d.top (d.bottom - d.top) (λ i p q.
              get-put_other r i d.bottom v (omega arith) (omega arith) ∙ same i p (omega arith))))

  -- What a call returns and leaves, from what the abstract deque returns and leaves.
  abbrev pub Answers : Option (A × List A) → Deque A × Result A → Type 0
  Answers none (d', op_empty) = view d' ≡ []
  Answers (some (v, rest)) (d', op_success w) = (w ≡ v) × (view d' ≡ rest)
  Answers _ _ = ⊥

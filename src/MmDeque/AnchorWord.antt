-- ===== src/MmDeque/AnchorWord.antt =====
-- deque/MMDeque.hpp: the words of an `anchor_t`, of 32 bits, of which the first has the status in its low bits.
use unbounded_obstruction_fr.Base.{
  ℕ, ◌+◌, ◌*◌, ◌/◌, ◌%◌, ◌^◌, ◌<◌, ◌≡◌, refl, arith, Bool, true, false, not, ◌&&◌, ◌||◌, ◌==◌,
  ==_iff, ==_self, ==-ne, Bool-cases, inl, inr,
}
use unbounded_obstruction_fr.MmDeque.{
  Status, stable, rpush, lpush, Anchor, same_status, same_anchor,
}

-- `m_leftMost` and `m_rightMost`
pub record Packed : Type 0 where
  pub left_most : ℕ
  pub right_most : ℕ

-- The numbers of `StatusType`.
abbrev pub code : Status → ℕ
code stable = 0
code rpush = 1
code lpush = 2

-- `k & 0xFFFFFFFC`
abbrev pub masked : ℕ → ℕ
masked k = k / 4 * 4

-- `setStatus`: the two low bits are clear before the status goes there.
unfoldable pub set_status : Packed → Status → Packed
set_status p s = record p { left_most = masked p.left_most + code s }

-- `set`
unfoldable pub set : (left right : ℕ) → Status → Packed
unfolding set_status
set left right s = set_status (record { left_most = left; right_most = right }) s

-- `getStatus`: `k & 0x3`
unfoldable pub get_status : Packed → ℕ
get_status p = p.left_most % 4

-- `getLeft`
unfoldable pub get_left : Packed → ℕ
get_left p = masked p.left_most

-- `getRight`
unfoldable pub get_right : Packed → ℕ
get_right p = p.right_most

-- `operator!=`
unfoldable pub differs : Packed → Packed → Bool
differs p q = not (p.left_most == q.left_most) || not (p.right_most == q.right_most)

abbrev pub pack : Anchor → Packed
pack a = set a.left a.right a.status

code_bound : (s : Status) → code s < 3
code_bound stable = omega arith
code_bound rpush = omega arith
code_bound lpush = omega arith

pub code_same : (s t : Status) → (code s == code t) ≡ same_status s t
code_same stable stable = refl
code_same stable rpush = refl
code_same stable lpush = refl
code_same rpush stable = refl
code_same rpush rpush = refl
code_same rpush lpush = refl
code_same lpush stable = refl
code_same lpush rpush = refl
code_same lpush lpush = refl

words_same :
    (x y s t : ℕ)
    → x % 4 ≡ 0
    → y % 4 ≡ 0
    → s < 3
    → t < 3
    → (x / 4 * 4 + s == y / 4 * 4 + t) ≡ (x == y) && (s == t)
words_same x y s t ex ey ls lt = elim (Bool-cases (x == y)) [
  | inl e ↦ elim (Bool-cases (s == t)) [
    | inl e' ↦ rw (e, e', (==_iff x y).0 e, (==_iff s t).0 e') (==_self _)
    | inr e' ↦ rw (e, e') (==-ne _ _ (λ z. ground (arith, (==_iff x y).0 e, (==_iff s t).1)))
  ]
  | inr e ↦ rw e (==-ne _ _ (λ z. ground (arith, (==_iff x y).1)))
]

regroup : (l r s : Bool) → not (l && s) || not r ≡ not (l && r && s)
regroup true true s = ground arith
regroup true false true = refl
regroup true false false = refl
regroup false r s = refl

-- An anchor whose left pointer is a multiple of four comes back from its words, and a status that is set later
-- changes neither pointer.
pub get-set :
    (left right : ℕ) (s t : Status)
    → left % 4 ≡ 0
    → (get_left (set left right s) ≡ left)
      × (get_right (set left right s) ≡ right)
      × (get_status (set left right s) ≡ code s)
      × (set_status (set left right s) t ≡ set left right t)
unfolding set set_status get_left get_right get_status
get-set left right s t even =
    let bound = code_bound s in
    let clear : (left / 4 * 4 + code s) / 4 * 4 ≡ left / 4 * 4 = omega arith in
    (
      omega arith,
      refl,
      omega arith,
      λ i. record { left_most = clear i + code t; right_most = right },
    )

-- The word of a left pointer of 32 bits and a status has 32 bits, whether or not the pointer is a multiple of
-- four.
pub set-left_bound :
    (left right : ℕ) (s : Status) → left < 2 ^ 32 → (set left right s).left_most < 2 ^ 32
unfolding set set_status
set-left_bound left right s lt = let bound = code_bound s in omega arith

-- Two anchors whose left pointers are multiples of four differ as words if and only if a pointer or the
-- status differs.
pub differs-pack :
    (a b : Anchor)
    → a.left % 4 ≡ 0
    → b.left % 4 ≡ 0
    → differs (pack a) (pack b) ≡ not (same_anchor a b)
unfolding differs set set_status
differs-pack a b ea eb =
    rw
      (
        words_same a.left b.left (code a.status) (code b.status) ea eb (code_bound a.status)
            (code_bound b.status),
        code_same a.status b.status,
      )
      (regroup (a.left == b.left) (a.right == b.right) (same_status a.status b.status))

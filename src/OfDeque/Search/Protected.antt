-- ===== src/OfDeque/Search/Protected.antt =====
-- deque/OFDeque.hpp: the edge that `findEdge` and `oracle` return was seen, in a buffer that a hazard slot
-- protects.
use unbounded_obstruction_fr.Base.{
  ℕ, zero, suc, ◌+◌, ◌≤◌, ◌<◌, ◌≡◌, ◌≢◌, refl, sym, ◌∙◌, Bool-cases, Option-cases, ◌⊎◌, inl, inr,
  Bool, true, false, not, ◌||◌, Option, none, some, arith, ◌==◌, IfSome, IfSome-weaken, ==_iff,
  ==_apart,
}
use mathlib.Core.Path.{subst}
use unbounded_obstruction_fr.OfDeque.Slot.{
  SlotType, type_sealed, type_value, Side, side_left, side_right, same_type, far_type, near_type,
  far_index, far_link_index, near_link_index, far_value_index, near_value_index,
}
use unbounded_obstruction_fr.OfDeque.Hints.{
  History, GlobalHint, global_hint, Hazards, reserve, reserved, reserve_hint,
}
use unbounded_obstruction_fr.OfDeque.Hints.Publish.{IsReserved, reserve_hint-Reserved}
use unbounded_obstruction_fr.OfDeque.Search.{
  Edge, Walk, Look, found, walked, hint_changed, aborted, type_at, link_at, same_count, visit,
  after_look, look_far_link, look_out, look_near_link, look_sealed, look_slot, look, search,
  find_edge, OracleResult, oracle_after, oracle,
}

module _ (size : ℕ) (side : Side) (h : History) (hint : GlobalHint) where
  -- At time `v`, the near value slot where the link of time `u` leads is a far null or sealed.
  abbrev pub Beyond : (buffer link u v : ℕ) → Type 0
  Beyond buffer link u v =
      let type =
        type_at size side h hint v (link_at size side h hint u buffer link)
          (near_value_index size side) in
      (type ≡ far_type side) ⊎ (type ≡ type_sealed)

  -- What was seen of an edge at times from `t` up to before `t'`: a slot without a far null, and then a
  -- far null beyond it; or, at the far value index, a slot without a far null, or a sealed or far null
  -- slot where the link beyond it leads.
  pub data Seen (t t' : ℕ) (edge : Edge) : Type 0 where
    seen_inside :
        (u : ℕ)
        → t ≤ u
        → u + 1 < t'
        → type_at size side h hint u edge.buffer edge.index ≢ far_type side
        → type_at size side h hint (u + 1) edge.buffer (far_index side edge.index) ≡ far_type side
        → Seen t t' edge
    seen_near :
        (u : ℕ)
        → t ≤ u
        → u < t'
        → edge.index ≡ far_value_index size side
        → type_at size side h hint u edge.buffer edge.index ≢ far_type side
        → Seen t t' edge
    seen_beyond :
        (u v : ℕ)
        → t ≤ u
        → u < v
        → v < t'
        → edge.index ≡ far_value_index size side
        → Beyond edge.buffer (far_link_index size side) u v
        → Seen t t' edge

  -- What an assertion of `findEdge` has met at a time from `t` on: at the near link neither a near null nor
  -- a value, or a sealed slot that is not at either value index.
  abbrev pub Broken : (t : ℕ) → Type 0
  Broken t =
      (u buffer index : ℕ) × (t ≤ u)
      × (((index ≡ near_link_index size side)
            × (type_at size side h hint u buffer index ≢ near_type side)
            × (type_at size side h hint u buffer index ≢ type_value))
          ⊎ ((type_at size side h hint u buffer index ≡ type_sealed)
              × (index ≢ far_value_index size side)
              × (index ≢ near_value_index size side)))

  -- How `findEdge` ends.
  abbrev pub IsLook : (t : ℕ) → Look → Type 0
  IsLook t (found edge z t') =
      ((second : Bool) × (reserved z second ≡ edge.buffer)) × Seen t t' edge
  IsLook t (walked w) = (t ≤ w.time) × (reserved w.hazards (not w.second) ≡ w.buffer)
  IsLook t (hint_changed z t') =
      (u : ℕ) × (t ≤ u) × (u < t') × ((global_hint side (h u)).count ≢ hint.count)
  IsLook t aborted = Broken t

  abbrev IsWalk : Walk → Type 0
  IsWalk w = reserved w.hazards (not w.second) ≡ w.buffer

  reserved_here : (z : Hazards) (p : ℕ) (second : Bool) → reserved (reserve z p second) second ≡ p
  reserved_here z p false = refl
  reserved_here z p true = refl

  reserved_twice :
      (z : Hazards) (p : ℕ) (second : Bool) → reserved (reserve z p second) (not (not second)) ≡ p
  reserved_twice z p false = refl
  reserved_twice z p true = refl

  reserved_other :
      (z : Hazards) (p : ℕ) (second : Bool)
      → reserved (reserve z p second) (not second) ≡ reserved z (not second)
  reserved_other z p false = refl
  reserved_other z p true = refl

  type_eq : (a b : SlotType) → same_type a b ≡ true → a ≡ b
  type_eq a b e = ground arith

  type_ne : (a b : SlotType) → same_type a b ≡ false → a ≢ b
  type_ne a b e = ground arith

  -- A visit of a neighbor ends in its buffer or in the present one, if what its type shows is an edge.
  visit-IsLook :
      (w : Walk) (neighbor index t t₀ : ℕ) (ends : SlotType → Bool) (edge : Edge)
      → IsWalk w
      → t₀ ≤ t
      → (edge.buffer ≡ neighbor) ⊎ (edge.buffer ≡ w.buffer)
      → (ends (type_at size side h hint (t + 1) neighbor index) ≡ true → Seen t₀ (t + 2) edge)
      → IsLook t₀ (visit size side h hint w neighbor index t ends edge)
  visit-IsLook w neighbor index t t₀ ends edge safe le here seen =
      elim (Bool-cases (same_count size side h hint t)) [
        | inl same ↦
            rw same (elim (Bool-cases (ends (type_at size side h hint (t + 1) neighbor index))) [
              | inl e ↦ rw e (
                elim here [
                  | inl n ↦ (w.second, reserved_here w.hazards neighbor w.second ∙ sym n)
                  | inr b ↦
                      (not w.second, reserved_other w.hazards neighbor w.second ∙ (safe ∙ sym b))
                ],
                seen e,
              )
              | inr e ↦ rw e (omega arith, reserved_twice w.hazards neighbor w.second)
            ])
        | inr changed ↦ rw changed (t, le, omega arith, λ c. ==_apart hint.count _ changed (sym c))
      ]

  look_out-IsLook :
      (w : Walk)
      → IsWalk w
      → type_at size side h hint w.time w.buffer w.index ≢ far_type side
      → IsLook w.time (look_out size side h hint w)
  unfolding look_out
  look_out-IsLook w safe near =
      elim (Bool-cases (
        same_type (type_at size side h hint (w.time + 1) w.buffer (far_index side w.index))
          (far_type side))) [
            | inl far ↦ rw far (
              (not w.second, safe),
              seen_inside w.time (omega arith) (omega arith) near (type_eq _ _ far),
            )
            | inr further ↦ rw further (omega arith, safe)
          ]

  near_not_far : (a : SlotType) → same_type a (near_type side) ≡ true → a ≢ far_type side
  near_not_far a e = elim side [ side_left ↦ ground arith | side_right ↦ ground arith ]

  far_or_sealed :
      (a : SlotType)
      → (same_type a (far_type side) || same_type a type_sealed) ≡ true
      → (a ≡ far_type side) ⊎ (a ≡ type_sealed)
  far_or_sealed a e = elim side [ side_left ↦ ground arith | side_right ↦ ground arith ]

  not_far : (a : SlotType) → not (same_type a (far_type side)) ≡ true → a ≢ far_type side
  not_far a e = elim side [ side_left ↦ ground arith | side_right ↦ ground arith ]

  near_or_value :
      (a : SlotType)
      → (same_type a (near_type side) || same_type a type_value) ≡ true
      → a ≢ far_type side
  near_or_value a e = elim side [ side_left ↦ ground arith | side_right ↦ ground arith ]

  look_far_link-IsLook :
      (w : Walk)
      → IsWalk w
      → w.index ≡ far_link_index size side
      → IsLook w.time (look_far_link size side h hint w)
  unfolding look_far_link
  look_far_link-IsLook w safe here =
      elim (Bool-cases
        (same_type (type_at size side h hint w.time w.buffer w.index) (far_type side))) [
          | inl far ↦ rw far (omega arith, safe)
          | inr linked ↦ rw linked (
              visit-IsLook w (link_at size side h hint w.time w.buffer w.index)
                (near_value_index size side) (w.time + 1) w.time
                (λ type. same_type type (far_type side) || same_type type type_sealed)
                (record { buffer = w.buffer; index = far_value_index size side }) safe (omega arith)
                (inr refl)
                (λ e.
                  seen_beyond w.time (w.time + 1 + 1) (omega arith) (omega arith) (omega arith) refl
                    (subst (λ i. Beyond w.buffer i w.time (w.time + 1 + 1)) here
                      (far_or_sealed _ e))))
        ]

  look_near_link-IsLook :
      (w : Walk)
      → IsWalk w
      → w.index ≡ near_link_index size side
      → IsLook w.time (look_near_link size side h hint w)
  unfolding look_near_link
  look_near_link-IsLook w safe here =
      elim (Bool-cases
        (same_type (type_at size side h hint w.time w.buffer w.index) (near_type side))) [
          | inl near ↦ rw near (look_out-IsLook w safe (near_not_far _ near))
          | inr linked ↦
              rw linked
                (elim (Bool-cases
                  (same_type (type_at size side h hint w.time w.buffer w.index) type_value)) [
                    | inl value ↦ rw value (
                        let neighbor = link_at size side h hint w.time w.buffer w.index in
                        visit-IsLook w neighbor (far_value_index size side) (w.time + 1) w.time
                          (λ type. not (same_type type (far_type side)))
                          (record { buffer = neighbor; index = far_value_index size side }) safe
                          (omega arith) (inl refl)
                          (λ e.
                            seen_near (w.time + 1 + 1) (omega arith) (omega arith) refl
                              (not_far _ e)))
                    | inr other ↦ rw other (
                      w.time,
                      w.buffer,
                      w.index,
                      omega arith,
                      inl (here, type_ne _ _ linked, type_ne _ _ other),
                    )
                  ])
        ]

  look_sealed-IsLook :
      (w : Walk)
      → IsWalk w
      → type_at size side h hint w.time w.buffer w.index ≡ type_sealed
      → IsLook w.time (look_sealed size side h hint w)
  unfolding look_sealed
  look_sealed-IsLook w safe sealed = elim (Bool-cases (w.index == far_value_index size side)) [
    | inl far ↦ rw far (
        visit-IsLook w (link_at size side h hint (w.time + 1) w.buffer (far_link_index size side))
          (near_value_index size side) (w.time + 2) w.time (λ type. same_type type (far_type side))
          (record { buffer = w.buffer; index = w.index }) safe (omega arith) (inr refl)
          (λ e.
            seen_beyond (w.time + 1) (w.time + 2 + 1) (omega arith) (omega arith) (omega arith)
              ((==_iff _ _).0 far) (inl (type_eq _ _ e))))
    | inr not_far_value ↦
        rw not_far_value (elim (Bool-cases (w.index == near_value_index size side)) [
          | inl near ↦ rw near (
              let neighbor =
                link_at size side h hint (w.time + 1) w.buffer (near_link_index size side) in
              visit-IsLook w neighbor (far_value_index size side) (w.time + 2) w.time
                (λ type. same_type type (near_type side) || same_type type type_value)
                (record { buffer = neighbor; index = far_value_index size side }) safe (omega arith)
                (inl refl)
                (λ e.
                  seen_near (w.time + 2 + 1) (omega arith) (omega arith) refl (near_or_value _ e)))
          | inr other ↦ rw other (
            w.time,
            w.buffer,
            w.index,
            omega arith,
            inr (sealed, (λ e. ==_apart _ _ not_far_value e), λ e. ==_apart _ _ other e),
          )
        ])
  ]

  look_slot-IsLook : (w : Walk) → IsWalk w → IsLook w.time (look_slot size side h hint w)
  unfolding look_slot
  look_slot-IsLook w safe =
      elim (Bool-cases
        (same_type (type_at size side h hint w.time w.buffer w.index) (far_type side))) [
          | inl far ↦ rw far (omega arith, safe)
          | inr near ↦
              rw near
                (elim (Bool-cases
                  (same_type (type_at size side h hint w.time w.buffer w.index) type_sealed)) [
                    | inl sealed ↦ rw sealed (look_sealed-IsLook w safe (type_eq _ _ sealed))
                    | inr unsealed ↦ rw unsealed (look_out-IsLook w safe (type_ne _ _ near))
                  ])
        ]

  look-IsLook : (w : Walk) → IsWalk w → IsLook w.time (look size side h hint w)
  unfolding look
  look-IsLook w safe = elim (Bool-cases (w.index == far_link_index size side)) [
    | inl far ↦ rw far (look_far_link-IsLook w safe ((==_iff _ _).0 far))
    | inr not_far_link ↦ rw not_far_link (elim (Bool-cases (w.index == near_link_index size side)) [
      | inl near ↦ rw near (look_near_link-IsLook w safe ((==_iff _ _).0 near))
      | inr other ↦ rw other (look_slot-IsLook w safe)
    ])
  ]

  Seen-later : (t₀ t t' : ℕ) (edge : Edge) → t₀ ≤ t → Seen t t' edge → Seen t₀ t' edge
  Seen-later t₀ t t' edge le (seen_inside u p q near far) = seen_inside u (omega arith) q near far
  Seen-later t₀ t t' edge le (seen_near u p q here near) = seen_near u (omega arith) q here near
  Seen-later t₀ t t' edge le (seen_beyond u v p q r here far) =
      seen_beyond u v (omega arith) q r here far

  IsLook-later : (t₀ t : ℕ) → t₀ ≤ t → (r : Look) → IsLook t r → IsLook t₀ r
  IsLook-later t₀ t le (found edge z t') (safe, seen) = (safe, Seen-later t₀ t t' edge le seen)
  IsLook-later t₀ t le (walked w) (p, safe) = (omega arith, safe)
  IsLook-later t₀ t le (hint_changed z t') (u, p, q, ne) = (u, omega arith, q, ne)
  IsLook-later t₀ t le aborted (u, buffer, index, p, bad) = (u, buffer, index, omega arith, bad)

  -- The search does not end in the middle of its walk.
  abbrev pub IsSearched : (t : ℕ) → Look → Type 0
  IsSearched t (walked w) = ⊥
  IsSearched t other = IsLook t other

  IsSearched-later : (t₀ t : ℕ) → t₀ ≤ t → (r : Look) → IsSearched t r → IsSearched t₀ r
  IsSearched-later t₀ t le (found edge z t') a = IsLook-later t₀ t le (found edge z t') a
  IsSearched-later t₀ t le (walked w) a = a
  IsSearched-later t₀ t le (hint_changed z t') a = IsLook-later t₀ t le (hint_changed z t') a
  IsSearched-later t₀ t le aborted a = IsLook-later t₀ t le aborted a

  after_look-IsSearched :
      (again : Walk → Option Look) (t : ℕ) (r : Look)
      → IsLook t r
      → ((w : Walk) → IsWalk w → IfSome (IsSearched w.time) (again w))
      → IfSome (IsSearched t) (after_look size side h hint again r)
  after_look-IsSearched again t (found edge z t') a rest = a
  after_look-IsSearched again t (walked w) (le, safe) rest =
      IfSome-weaken {P = IsSearched w.time} {Q = IsSearched t} (IsSearched-later t w.time le) _
        (rest w safe)
  after_look-IsSearched again t (hint_changed z t') a rest = a
  after_look-IsSearched again t aborted a rest = a

  search-IsSearched :
      (fuel : ℕ) (w : Walk) → IsWalk w → IfSome (IsSearched w.time) (search size side h hint fuel w)
  unfolding search
  search-IsSearched zero w safe = tt
  search-IsSearched (suc fuel) w safe =
      after_look-IsSearched (search size side h hint fuel) w.time (look size side h hint w)
        (look-IsLook w safe) (search-IsSearched fuel)

  -- `findEdge`, called with the buffer of the hint in hazard slot 0, ends in one of three ways. It returns an
  -- edge whose buffer stands in a hazard slot and which it has seen since it was called; it finds no edge,
  -- and the count of the global hint was at a time in between not the one of the hint; or an assertion
  -- fails, and it has seen at a near link neither a near null nor a value, or a sealed slot that is not at
  -- either value index.
  pub find_edge-IsSearched :
      (fuel : ℕ) (z : Hazards) (t : ℕ)
      → reserved z false ≡ hint.buffer
      → IfSome (IsSearched t) (find_edge size side h hint fuel z t)
  unfolding find_edge
  find_edge-IsSearched fuel z t safe =
      IfSome-weaken {P = IsSearched (t + 1)} {Q = IsSearched t}
        (IsSearched-later t (t + 1) (omega arith)) _ (search-IsSearched fuel _ safe)

-- What `oracle` promises of its result.
abbrev pub IsOracle : (size : ℕ) → Side → History → (t : ℕ) → OracleResult × Hazards × ℕ → Type 0
IsOracle size side h t (result, z, t') =
    ((second : Bool) × (reserved z second ≡ result.edge.buffer))
    × ((u : ℕ) × (t ≤ u)
        × (global_hint side (h u) ≡ result.hint)
        × Seen size side h result.hint u t' result.edge)

IsOracle-later :
    (size : ℕ) (side : Side) (h : History) (t₀ t : ℕ)
    → t₀ ≤ t
    → (r : OracleResult × Hazards × ℕ) → IsOracle size side h t r
    → IsOracle size side h t₀ r
IsOracle-later size side h t₀ t le (result, z, t') (safe, (u, p, q, s)) =
    (safe, (u, omega arith, q, s))

oracle_after-IsOracle :
    (size : ℕ) (side : Side) (h : History) (t u t₁ : ℕ) (hint : GlobalHint)
    (again : Hazards → ℕ → Option (OracleResult × Hazards × ℕ)) (found_edge : Option Look)
    → t ≤ u
    → u ≤ t₁
    → global_hint side (h u) ≡ hint
    → ((z : Hazards) (t' : ℕ) → t ≤ t' → IfSome (IsOracle size side h t) (again z t'))
    → IfSome (IsSearched size side h hint t₁) found_edge
    → IfSome (IsOracle size side h t) (oracle_after hint again found_edge)
oracle_after-IsOracle size side h t u t₁ hint again none le le' loaded rest a = tt
oracle_after-IsOracle size side h t u t₁ hint again (some (found edge z t')) le le' loaded rest
      (safe, seen) =
    (safe, (u, le, loaded, Seen-later size side h hint u t₁ t' edge le' seen))
oracle_after-IsOracle size side h t u t₁ hint again (some (walked w)) le le' loaded rest a = tt
oracle_after-IsOracle size side h t u t₁ hint again (some (hint_changed z t')) le le' loaded rest
      (v, p, q, ne) =
    rest z t' (omega arith)
oracle_after-IsOracle size side h t u t₁ hint again (some aborted) le le' loaded rest a = tt

-- `oracle` returns with an edge in a buffer that a hazard slot protects, together with a hint that was
-- the global hint at a time since the call; the edge was seen since that time.
pub oracle-IsOracle :
    (rounds fuel size : ℕ) (side : Side) (h : History) (z : Hazards) (t : ℕ)
    → IfSome (IsOracle size side h t) (oracle rounds fuel size side h z t)
unfolding oracle
oracle-IsOracle zero fuel size side h z t = tt
oracle-IsOracle (suc rounds) fuel size side h z t =
    let reserved_hint = reserve_hint-Reserved side h fuel z false t in
    elim (Option-cases (reserve_hint fuel side h z false t)) [
      | inl e ↦ rw (oracle, e, IfSome) tt
      | inr ((hint, z', t'), e) ↦
          let r : IsReserved side h z false t (hint, z', t') = rw (e, IfSome) at reserved_hint in
          rw (oracle, e, IfSome)
            (oracle_after-IsOracle size side h t r.at t' hint _ _ r.since (omega (arith, r.ends))
              r.loaded
              (λ z'' t'' le.
                IfSome-weaken {P = IsOracle size side h t''} {Q = IsOracle size side h t}
                  (IsOracle-later size side h t t'' le) _
                  (oracle-IsOracle rounds fuel size side h z'' t''))
              (find_edge-IsSearched size side h hint fuel z' t' r.here))
    ]

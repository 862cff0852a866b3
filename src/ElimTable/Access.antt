-- ===== src/ElimTable/Access.antt =====
-- deque/ElimTable.hpp: every access keeps what holds of all threads.
use unbounded_obstruction_fr.Base.{
  ℕ, ◌≡◌, ◌≢◌, refl, sym, ap, ◌∙◌, true, false, Bool-cases, inl, inr, Option, none, some, ◌==◌, ltb,
  update, update_self, update_other, arith, ==_iff,
}
use mathlib.Core.Bool.{true≢false}
use unbounded_obstruction_fr.ElimTable.{
  Flag, flag_inactive, flag_eliminated, flag_push, flag_pop, Slot, same_flag, same_slot, Op, push,
  pop, Phase, out, waiting, Memory, Choice, Scan, Pc, idle, inserting, removing, exchanging,
  attempting, reinserting, scanning, matching, restoring, Event, silent, met, alone, missed, posted,
  partner, closed, handed, met_phase, scanned, next, resumed, store, become, exchanged, advance,
}
use unbounded_obstruction_fr.ElimTable.Local.{
  Phases, Met, Does, quiet, Posted, Live, Quiet, Known, Local, partner-quiet, partner-Posted,
  Local-waiting, closed-Local,
}

-- What an access of thread `t` does.
pub record Kept (t : ℕ) (m m' : Memory) (p' : Pc) (e : Event) : Type 0 where
  pub local : Local (m'.table t) (m'.phases t) p'
  pub others :
      (u : ℕ)
      → t ≢ u
      → (q : Pc) → Local (m.table u) (m.phases u) q
      → Local (m'.table u) (m'.phases u) q
  pub does : Does e m.phases m'.phases

-- An access of the thread's own slot and operation.
own-Kept :
    (t : ℕ) (m : Memory) (slot : Slot) (ph : Phase) (p' : Pc) (e : Event)
    → Local slot ph p'
    → Does e m.phases (update m.phases t ph)
    → Kept t m (become (store m t slot) t ph) p' e
own-Kept t m slot ph p' e l d = record {
  local = rw (update_self m.table t slot, update_self m.phases t ph) l;
  others = λ u ne q h. rw (update_other m.table t u slot ne, update_other m.phases t u ph ne) h;
  does = d;
}

-- An access that changes nothing.
read-Kept :
    (t : ℕ) (m : Memory) (p' : Pc) → Local (m.table t) (m.phases t) p' → Kept t m m p' silent
read-Kept t m p' l = record { local = l; others = λ u ne q h. h; does = refl }

store-Kept :
    (t : ℕ) (m : Memory) (slot : Slot) (p' : Pc)
    → Local slot (m.phases t) p'
    → Kept t m (store m t slot) p' silent
store-Kept t m slot p' l = record {
  local = rw (update_self m.table t slot) l;
  others = λ u ne q h. rw (update_other m.table t u slot ne) h;
  does = refl;
}

become-Kept :
    (t : ℕ) (m : Memory) (ph : Phase) (p' : Pc) (e : Event)
    → Local (m.table t) ph p'
    → Does e m.phases (update m.phases t ph)
    → Kept t m (become m t ph) p' e
become-Kept t m ph p' e l d = record {
  local = rw (update_self m.phases t ph) l;
  others = λ u ne q h. rw (update_other m.phases t u ph ne) h;
  does = d;
}

posted-Live : (op : Op) (junk : ℕ) (ph : Phase) → ph ≡ waiting op → Live op (posted op junk) ph
posted-Live (push v) junk ph h = inl ((refl, refl), h)
posted-Live pop junk ph h = inl (refl, h)

resumed-Local :
    (op : Op) (k : Option (Scan × Slot)) (slot : Slot) (ph : Phase)
    → Quiet op slot ph
    → Known op k
    → Local slot ph (resumed op k)
resumed-Local op none slot ph q h = q
resumed-Local op (some (scan, seen)) slot ph q h = (q, h)

Posted-flag : (op : Op) (slot : Slot) → Posted op slot → quiet slot.flag ≡ false
Posted-flag (push v) slot h = rw h.0 refl
Posted-flag pop slot h = rw h refl

-- The exchange of the thread's own slot.
exchanged-Kept :
    (t : ℕ) (op : Op) (k : Option (Scan × Slot)) (m : Memory) (junk : ℕ) (f : Flag)
    → (m.table t).flag ≡ f
    → Live op (m.table t) (m.phases t)
    → Known op k
    → let (m', p', e) =
        exchanged t op k
          (store m t (record { value = junk; flag = flag_inactive }))
          (m.table t)
          f in
      Kept t m m' p' e
unfolding exchanged
exchanged-Kept t op k m junk flag_inactive e l h = elim l [
  | inl (p, w) ↦ absurd (true≢false (sym (ap quiet e) ∙ Posted-flag op (m.table t) p))
  | inr (z, w) ↦ cc
]
exchanged-Kept t op k m junk flag_eliminated e l h = elim l [
  | inl (p, w) ↦ absurd (true≢false (sym (ap quiet e) ∙ Posted-flag op (m.table t) p))
  | inr (z, w) ↦
      own-Kept t m (record { value = junk; flag = flag_inactive }) (waiting op) (resumed op k)
        (missed t op)
        (resumed-Local op k (record { value = junk; flag = flag_inactive }) (waiting op)
          (refl, refl) h)
        ((m.table t).value, w, refl)
]
exchanged-Kept t op k m junk flag_push e l h = elim l [
  | inl (p, w) ↦
      store-Kept t m (record { value = junk; flag = flag_inactive }) (resumed op k)
        (resumed-Local op k (record { value = junk; flag = flag_inactive }) (m.phases t) (refl, w)
          h)
  | inr (z, w) ↦ cc
]
exchanged-Kept t op k m junk flag_pop e l h = elim l [
  | inl (p, w) ↦
      store-Kept t m (record { value = junk; flag = flag_inactive }) (resumed op k)
        (resumed-Local op k (record { value = junk; flag = flag_inactive }) (m.phases t) (refl, w)
          h)
  | inr (z, w) ↦ cc
]

module _ (t i : ℕ) (op : Op) (m : Memory) (junk : ℕ) (e : (m.table i).flag ≡ partner op)
    (l : Quiet op (m.table t) (m.phases t)) where
  abbrev given : Phases
  given = update m.phases i (met_phase op (handed op (m.table i)))

  abbrev matched : Memory
  matched =
      become (become (store m i (closed op junk)) i (met_phase op (handed op (m.table i)))) t out

  apart : t ≢ i
  apart h =
      true≢false (sym l.0 ∙ (ap (λ j. quiet (m.table j).flag) h ∙ (ap quiet e ∙ partner-quiet op)))

  matched_self : (matched.table t ≡ m.table t) × (matched.phases t ≡ out)
  matched_self =
      (update_other m.table i t (closed op junk) (λ h. apart (sym h)), update_self given t out)

  matched_at :
      (matched.table i ≡ closed op junk) × (matched.phases i ≡ met_phase op (handed op (m.table i)))
  matched_at = (
    update_self m.table i (closed op junk),
    update_other given t i out apart
        ∙ update_self m.phases i (met_phase op (handed op (m.table i))),
  )

  matched_away :
      (u : ℕ) → t ≢ u → i ≢ u → (matched.table u ≡ m.table u) × (matched.phases u ≡ m.phases u)
  matched_away u ne ne' = (
    update_other m.table i u (closed op junk) ne',
    update_other given t u out ne
        ∙ update_other m.phases i u (met_phase op (handed op (m.table i))) ne',
  )

  matched-Kept :
      (q : Pc)
      → Local (m.table i) (m.phases i) q
      → Kept t m matched idle (met t i (handed op (m.table i)))
  matched-Kept q other = record {
    local = rw (matched_self.0, matched_self.1) (l.0, refl);
    others = λ u ne q' h. elim (Bool-cases (i == u)) [
      | inl same ↦
          let at : i ≡ u = (==_iff i u).0 same in
          rw (← at) (
            rw (matched_at.0, matched_at.1)
              (closed-Local op q' (m.table i) (m.phases i) junk e (rw at h)))
      | inr other ↦
          let ne' : i ≢ u = λ h. true≢false (sym ((==_iff i u).1 h) ∙ other) in
          rw ((matched_away u ne ne').0, (matched_away u ne ne').1) h
    ];
    does =
        let (op', p, w) =
          Local-waiting q (m.table i) (m.phases i) (ap quiet e ∙ partner-quiet op) other in
        (op, op', l.1, w, apart, partner-Posted op op' (m.table i) e p, refl);
  }

flag_of : (f g : Flag) → same_flag f g ≡ true → f ≡ g
flag_of flag_inactive flag_inactive e = refl
flag_of flag_eliminated flag_eliminated e = refl
flag_of flag_push flag_push e = refl
flag_of flag_pop flag_pop e = refl
flag_of _ _ e = cc

slot_of : (a b : Slot) → same_slot a b ≡ true → a ≡ b
slot_of a b e = let same : a.flag ≡ b.flag = flag_of a.flag b.flag (ground arith) in ground arith

Live-eliminated :
    (op : Op) (slot : Slot) (ph : Phase)
    → slot.flag ≡ flag_eliminated
    → Live op slot ph
    → Met op slot.value ph
Live-eliminated op slot ph e (inl (p, w)) =
    absurd (true≢false (sym (ap quiet e) ∙ Posted-flag op slot p))
Live-eliminated op slot ph e (inr (z, w)) = w

module _ (threads t : ℕ) (c : Choice) (m : Memory) (pc : ℕ → Pc)
    (all : (u : ℕ) → Local (m.table u) (m.phases u) (pc u)) where
  scan-Kept :
      (op : Op) (scan : Scan)
      → Live op (m.table t) (m.phases t)
      → let (m', p', e) = advance threads t c m (scanning op scan) in Kept t m m' p' e
  unfolding advance
  scan-Kept op scan l = elim (Bool-cases (ltb scan.n scan.count)) [
    | inl more ↦ rw more (elim (Bool-cases (scanned threads scan == t)) [
      | inl own ↦ rw own (read-Kept t m (scanning op (next scan)) l)
      | inr other ↦
          rw other
            (elim (Bool-cases (same_flag (m.table (scanned threads scan)).flag (partner op))) [
              | inl found ↦ rw found (
                  read-Kept t m (removing op (some (scan, m.table (scanned threads scan))))
                    (l, flag_of _ _ found))
              | inr none_here ↦ rw none_here (read-Kept t m (scanning op (next scan)) l)
            ])
    ])
    | inr over ↦ rw over (read-Kept t m (removing op none) (l, tt))
  ]

  match-Kept :
      (op : Op) (scan : Scan) (seen : Slot)
      → Quiet op (m.table t) (m.phases t)
      → seen.flag ≡ partner op
      → let (m', p', e) = advance threads t c m (matching op scan seen) in Kept t m m' p' e
  unfolding advance
  match-Kept op scan seen l k =
      elim (Bool-cases (same_slot (m.table (scanned threads scan)) seen)) [
        | inl same ↦ rw same (
            let at : m.table (scanned threads scan) ≡ seen = slot_of _ _ same in
            rw (← at) (
              matched-Kept t (scanned threads scan) op m c.junk (ap (λ (q : Slot). q.flag) at ∙ k) l
                (pc (scanned threads scan)) (all (scanned threads scan))))
        | inr changed ↦ rw changed (read-Kept t m (restoring op scan) l)
      ]

  pub advance-Kept :
      (p : Pc)
      → Local (m.table t) (m.phases t) p
      → let (m', p', e) = advance threads t c m p in Kept t m m' p' e
  unfolding advance
  advance-Kept idle l = become-Kept t m (waiting c.op) _ _ (l.0, refl) (l.1, refl)
  advance-Kept (inserting op) l =
      store-Kept t m (posted op c.junk) _ (posted-Live op c.junk _ l.1, tt)
  advance-Kept (removing op k) l = elim (Bool-cases (same_flag (m.table t).flag flag_eliminated)) [
    | inl gone ↦ rw gone (
        become-Kept t m out idle _ (ap quiet (flag_of _ _ gone), refl)
          (Live-eliminated op (m.table t) (m.phases t) (flag_of _ _ gone) l.0, refl))
    | inr there ↦ rw there (read-Kept t m (exchanging op k) l)
  ]
  advance-Kept (exchanging op k) l = exchanged-Kept t op k m c.junk (m.table t).flag refl l.0 l.1
  advance-Kept (attempting op) l = elim (Bool-cases c.succeeds) [
    | inl done ↦ rw done (become-Kept t m out idle (alone t) (l.0, refl) (op, l.1, refl))
    | inr failed ↦ rw failed (read-Kept t m (reinserting op) l)
  ]
  advance-Kept (reinserting op) l =
      store-Kept t m (posted op c.junk) _ (posted-Live op c.junk _ l.1)
  advance-Kept (scanning op scan) l = scan-Kept op scan l
  advance-Kept (matching op scan seen) l = match-Kept op scan seen l.0 l.1
  advance-Kept (restoring op scan) l =
      store-Kept t m (posted op c.junk) _ (posted-Live op c.junk _ l.1)

-- ===== src/ElimTable/Local.antt =====
-- deque/ElimTable.hpp: what holds of a thread's slot and operation, wherever it stands.
use unbounded_obstruction_fr.Base.{
  ℕ, ◌≡◌, ◌≢◌, refl, sym, ap, ◌∙◌, Bool, true, false, ◌⊎◌, inl, inr, Option, none, some, update,
}
use mathlib.Core.Bool.{true≢false}
use unbounded_obstruction_fr.ElimTable.{
  Flag, flag_eliminated, flag_push, flag_pop, Slot, Op, push, pop, Phase, out, waiting, met_push,
  met_pop, Scan, Pc, idle, inserting, removing, exchanging, attempting, reinserting, scanning,
  matching, restoring, Event, silent, called, met, eliminated, alone, missed, partner, closed,
  handed, met_phase,
}

abbrev pub Phases : Type 0
Phases = ℕ → Phase

-- A pusher and a popper, and the value that goes from one to the other.
abbrev pub Pairs : Op → Op → ℕ → Type 0
Pairs (push v) pop w = w ≡ v
Pairs pop (push v) w = w ≡ v
Pairs _ _ w = ⊥

-- The phase of an operation that has met its partner; a popper gets `w`.
abbrev pub Met : Op → ℕ → Phase → Type 0
Met (push v) w ph = ph ≡ met_push v
Met pop w ph = ph ≡ met_pop w

-- What an event does to the operations.
abbrev pub Does : Event → Phases → Phases → Type 0
Does silent l l' = l' ≡ l
Does (called t op) l l' = (l t ≡ out) × (l' ≡ update l t (waiting op))
Does (met t i w) l l' =
    (op : Op) × (op' : Op) × (l t ≡ waiting op)
    × (l i ≡ waiting op')
    × (t ≢ i)
    × Pairs op op' w
    × (l' ≡ update (update l i (met_phase op w)) t out)
Does (eliminated t op w) l l' = Met op w (l t) × (l' ≡ update l t out)
Does (alone t) l l' = (op : Op) × (l t ≡ waiting op) × (l' ≡ update l t out)
Does (missed t op) l l' = (w : ℕ) × Met op w (l t) × (l' ≡ update l t (waiting op))

abbrev pub quiet : Flag → Bool
quiet flag_push = false
quiet flag_pop = false
quiet _ = true

abbrev pub Posted : Op → Slot → Type 0
Posted (push v) slot = (slot.flag ≡ flag_push) × (slot.value ≡ v)
Posted pop slot = slot.flag ≡ flag_pop

-- The slot of an operation that others may eliminate: it is posted, or has been eliminated.
abbrev pub Live : Op → Slot → Phase → Type 0
Live op slot ph =
    (Posted op slot × (ph ≡ waiting op)) ⊎ ((slot.flag ≡ flag_eliminated) × Met op slot.value ph)

abbrev pub Quiet : Op → Slot → Phase → Type 0
Quiet op slot ph = (quiet slot.flag ≡ true) × (ph ≡ waiting op)

abbrev pub Known : Op → Option (Scan × Slot) → Type 0
Known op none = Unit
Known op (some (scan, slot)) = slot.flag ≡ partner op

-- What holds of a thread's own slot and operation.
abbrev pub Local : Slot → Phase → Pc → Type 0
Local slot ph idle = (quiet slot.flag ≡ true) × (ph ≡ out)
Local slot ph (inserting op) = Quiet op slot ph
Local slot ph (removing op k) = Live op slot ph × Known op k
Local slot ph (exchanging op k) = Live op slot ph × Known op k
Local slot ph (attempting op) = Quiet op slot ph
Local slot ph (reinserting op) = Quiet op slot ph
Local slot ph (scanning op scan) = Live op slot ph
Local slot ph (matching op scan seen) = Quiet op slot ph × (seen.flag ≡ partner op)
Local slot ph (restoring op scan) = Quiet op slot ph

pub partner-quiet : (op : Op) → quiet (partner op) ≡ false
partner-quiet (push v) = refl
partner-quiet pop = refl

pub partner-Posted :
    (op op' : Op) (slot : Slot)
    → slot.flag ≡ partner op
    → Posted op' slot
    → Pairs op op' (handed op slot)
partner-Posted (push v) (push v') slot e p = cc
partner-Posted (push v) pop slot e p = refl
partner-Posted pop (push v') slot e p = p.1
partner-Posted pop pop slot e p = cc

pub closed-Live :
    (op op' : Op) (slot : Slot) (ph : Phase) (junk : ℕ)
    → slot.flag ≡ partner op
    → Live op' slot ph
    → Live op' (closed op junk) (met_phase op (handed op slot))
closed-Live (push v) (push v') slot ph junk e (inl (p, w)) = cc
closed-Live (push v) pop slot ph junk e (inl (p, w)) = inr (refl, refl)
closed-Live pop (push v') slot ph junk e (inl (p, w)) = inr (refl, ap met_push p.1)
closed-Live pop pop slot ph junk e (inl (p, w)) = cc
closed-Live (push v) op' slot ph junk e (inr (z, w)) = cc
closed-Live pop op' slot ph junk e (inr (z, w)) = cc

pub Live-waiting :
    (op : Op) (slot : Slot) (ph : Phase)
    → quiet slot.flag ≡ false
    → Live op slot ph
    → (op' : Op) × Posted op' slot × (ph ≡ waiting op')
Live-waiting op slot ph e (inl (p, w)) = (op, p, w)
Live-waiting op slot ph e (inr (z, w)) = absurd (true≢false (sym (ap quiet z) ∙ e))

-- A slot that shows an operation is that of a waiting one.
pub Local-waiting :
    (q : Pc) (slot : Slot) (ph : Phase)
    → quiet slot.flag ≡ false
    → Local slot ph q
    → (op' : Op) × Posted op' slot × (ph ≡ waiting op')
Local-waiting (removing op k) slot ph e l = Live-waiting op slot ph e l.0
Local-waiting (exchanging op k) slot ph e l = Live-waiting op slot ph e l.0
Local-waiting (scanning op scan) slot ph e l = Live-waiting op slot ph e l
Local-waiting idle slot ph e l = absurd (true≢false (sym l.0 ∙ e))
Local-waiting (inserting op) slot ph e l = absurd (true≢false (sym l.0 ∙ e))
Local-waiting (attempting op) slot ph e l = absurd (true≢false (sym l.0 ∙ e))
Local-waiting (reinserting op) slot ph e l = absurd (true≢false (sym l.0 ∙ e))
Local-waiting (matching op scan seen) slot ph e l = absurd (true≢false (sym l.0.0 ∙ e))
Local-waiting (restoring op scan) slot ph e l = absurd (true≢false (sym l.0 ∙ e))

pub closed-Local :
    (op : Op) (q : Pc) (slot : Slot) (ph : Phase) (junk : ℕ)
    → slot.flag ≡ partner op
    → Local slot ph q
    → Local (closed op junk) (met_phase op (handed op slot)) q
closed-Local op (removing op' k) slot ph junk e l = (closed-Live op op' slot ph junk e l.0, l.1)
closed-Local op (exchanging op' k) slot ph junk e l = (closed-Live op op' slot ph junk e l.0, l.1)
closed-Local op (scanning op' scan) slot ph junk e l = closed-Live op op' slot ph junk e l
closed-Local op idle slot ph junk e l =
    absurd (true≢false (sym l.0 ∙ (ap quiet e ∙ partner-quiet op)))
closed-Local op (inserting _) slot ph junk e l =
    absurd (true≢false (sym l.0 ∙ (ap quiet e ∙ partner-quiet op)))
closed-Local op (attempting _) slot ph junk e l =
    absurd (true≢false (sym l.0 ∙ (ap quiet e ∙ partner-quiet op)))
closed-Local op (reinserting _) slot ph junk e l =
    absurd (true≢false (sym l.0 ∙ (ap quiet e ∙ partner-quiet op)))
closed-Local op (matching _ scan seen) slot ph junk e l =
    absurd (true≢false (sym l.0.0 ∙ (ap quiet e ∙ partner-quiet op)))
closed-Local op (restoring _ scan) slot ph junk e l =
    absurd (true≢false (sym l.0 ∙ (ap quiet e ∙ partner-quiet op)))

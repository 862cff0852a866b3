-- ===== src/ElimTable.antt =====
-- deque/ElimTable.hpp: the elimination table, as `doPush` and `doPop` of deque/OFDeque.hpp use it, for
-- any number of threads, one shared access at a time.
pub mod Local
pub mod Access
pub mod Meets
pub mod Missed
mod Tests
use unbounded_obstruction_fr.Base.{
  ℕ, suc, ◌+◌, ◌%◌, Bool, true, false, Option, none, some, List, [], ◌∷◌, ◌==◌, ltb, ◌&&◌,
  if◌then◌else◌, update, min,
}

pub data Flag : Type 0 where
  flag_inactive flag_eliminated flag_push flag_pop : Flag

pub record Slot : Type 0 where
  pub value : ℕ
  pub flag : Flag

abbrev pub same_flag : Flag → Flag → Bool
same_flag flag_inactive flag_inactive = true
same_flag flag_eliminated flag_eliminated = true
same_flag flag_push flag_push = true
same_flag flag_pop flag_pop = true
same_flag _ _ = false

-- The comparison of slots in `compare_exchange_strong`.
abbrev pub same_slot : Slot → Slot → Bool
same_slot a b = (a.value == b.value) && same_flag a.flag b.flag

pub data Op : Type 0 where
  push : ℕ → Op
  pop : Op

-- What has become of a thread's operation. The table does not hold it: it is for the theorems.
pub data Phase : Type 0 where
  out : Phase
  waiting : Op → Phase
  met_push : ℕ → Phase  -- a popper has taken the value
  met_pop : ℕ → Phase  -- a pusher has given the value

pub record Memory : Type 0 where
  pub table : ℕ → Slot
  pub phases : ℕ → Phase

-- What is not decided by the table: the next operation, the random number and the count of a scan,
-- whether the attempt on the deque succeeds, and the value of an uninitialised slot.
pub record Choice : Type 0 where
  pub op : Op
  pub start : ℕ
  pub scan_count : ℕ
  pub succeeds : Bool
  pub junk : ℕ

-- The local variables of a scan: `s`, `scanCount` and `n`.
pub record Scan : Type 0 where
  pub start : ℕ
  pub count : ℕ
  pub n : ℕ

-- Where a thread stands.
pub data Pc : Type 0 where
  idle : Pc
  inserting : Op → Pc  -- before the first `insertPush` or `insertPop`
  -- Before the load of `removePush` or `removePop`, in a scan with the slot that was loaded there.
  removing : Op → Option (Scan × Slot) → Pc
  exchanging : Op → Option (Scan × Slot) → Pc
  attempting : Op → Pc  -- on the deque
  reinserting : Op → Pc  -- at `backoff`
  scanning : Op → Scan → Pc
  matching : Op → Scan → Slot → Pc  -- before the exchange of the other's slot
  restoring : Op → Scan → Pc  -- after it has failed

pub data Event : Type 0 where
  silent : Event
  called : ℕ → Op → Event
  met : (actor other value : ℕ) → Event
  eliminated : ℕ → Op → ℕ → Event  -- returned, with the value in the slot
  alone : ℕ → Event  -- done on the deque
  missed : ℕ → Op → Event  -- the thread's exchange has wiped out that it was eliminated

abbrev pub posted : Op → (junk : ℕ) → Slot
posted (push v) junk = record { value = v; flag = flag_push }
posted pop junk = record { value = junk; flag = flag_pop }

abbrev pub partner : Op → Flag
partner (push v) = flag_pop
partner pop = flag_push

-- What the actor leaves in the other's slot.
abbrev pub closed : Op → (junk : ℕ) → Slot
closed (push v) junk = record { value = v; flag = flag_eliminated }
closed pop junk = record { value = junk; flag = flag_eliminated }

abbrev pub handed : Op → Slot → ℕ
handed (push v) slot = v
handed pop slot = slot.value

abbrev pub met_phase : Op → ℕ → Phase
met_phase (push v) value = met_pop value
met_phase pop value = met_push value

-- `i` of a scan
abbrev pub scanned : (threads : ℕ) → Scan → ℕ
scanned threads scan = (scan.start + scan.n) % threads

abbrev pub next : Scan → Scan
next scan = record scan { n = suc scan.n }

-- Where `removePush` and `removePop` return to with `false`.
abbrev pub resumed : Op → Option (Scan × Slot) → Pc
resumed op none = attempting op
resumed op (some (scan, slot)) = matching op scan slot

abbrev pub store : Memory → ℕ → Slot → Memory
store m t slot = record m { table = update m.table t slot }

abbrev pub become : Memory → ℕ → Phase → Memory
become m t phase = record m { phases = update m.phases t phase }

-- The end of `removePush` and `removePop`: the thread has exchanged its slot for an inactive one.
pub exchanged : ℕ → Op → Option (Scan × Slot) → Memory → Slot → Flag → Memory × Pc × Event
exchanged t op k m slot flag_inactive = (become m t out, idle, eliminated t op slot.value)
exchanged t op k m slot flag_eliminated = (become m t (waiting op), resumed op k, missed t op)
exchanged t op k m slot flag_push = (m, resumed op k, silent)
exchanged t op k m slot flag_pop = (m, resumed op k, silent)

-- One shared access of thread `t`.
pub advance : (threads t : ℕ) → Choice → Memory → Pc → Memory × Pc × Event
unfolding exchanged
advance threads t c m idle = (become m t (waiting c.op), inserting c.op, called t c.op)
advance threads t c m (inserting op) = (store m t (posted op c.junk), removing op none, silent)
advance threads t c m (removing op k) =
    if same_flag (m.table t).flag flag_eliminated
    then (become m t out, idle, eliminated t op (m.table t).value)
    else (m, exchanging op k, silent)
advance threads t c m (exchanging op k) =
    exchanged t op k (store m t (record { value = c.junk; flag = flag_inactive })) (m.table t)
      (m.table t).flag
advance threads t c m (attempting op) =
    if c.succeeds then (become m t out, idle, alone t) else (m, reinserting op, silent)
advance threads t c m (reinserting op) = (
  store m t (posted op c.junk),
  scanning op (record { start = c.start; count = min threads c.scan_count; n = 0 }),
  silent,
)
advance threads t c m (scanning op scan) =
    let i = scanned threads scan in
    if ltb scan.n scan.count
    then (if i == t
        then (m, scanning op (next scan), silent)
        else if same_flag (m.table i).flag (partner op)
        then (m, removing op (some (scan, m.table i)), silent)
        else (m, scanning op (next scan), silent))
    else (m, removing op none, silent)
advance threads t c m (matching op scan slot) =
    let i = scanned threads scan in
    let value = handed op slot in
    if same_slot (m.table i) slot
    then (
      become (become (store m i (closed op c.junk)) i (met_phase op value)) t out,
      idle,
      met t i value,
    )
    else (m, restoring op scan, silent)
advance threads t c m (restoring op scan) = (store m t (posted op c.junk), scanning op scan, silent)

pub record System : Type 0 where
  pub shared : Memory
  pub pc : ℕ → Pc

-- The constructor stores inactive slots, whose values are not initialised.
abbrev pub start : (raw : ℕ → ℕ) → System
start raw = record {
  shared = record {
    table = λ i. record { value = raw i; flag = flag_inactive };
    phases = λ _. out;
  };
  pc = λ _. idle;
}

pub step : (threads : ℕ) → System → ℕ → Choice → System × Event
unfolding advance
step threads s t c =
    let (m, p, e) = advance threads t c s.shared (s.pc t) in
    (record { shared = m; pc = update s.pc t p }, e)

-- A schedule says whose turn it is, and what the choices are.
pub run : (threads : ℕ) → System → List (ℕ × Choice) → System × List Event
unfolding step
run threads s [] = (s, [])
run threads s ((t, c) ∷ rest) =
    let (s', e) = step threads s t c in let (final, es) = run threads s' rest in (final, e ∷ es)

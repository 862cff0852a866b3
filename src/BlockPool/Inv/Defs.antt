-- ===== src/BlockPool/Inv/Defs.antt =====
-- cpp_harness/BlockPool.hpp: the lists of the threads and the groups of the global pool.
use unbounded_obstruction_fr.Base.{
  ℕ, zero, suc, ◌+◌, ◌-◌, ◌≤◌, ◌<◌, ◌≡◌, ◌≢◌, sym, ap, ◌∙◌, arith, Bool, true, false,
}
use unbounded_obstruction_fr.BlockPool.{
  unmapped, local, pooled, Memory, Pc, idle, looking, looked, grabbing, giving, linking, linked,
  Thread, is_held, Event, silent, allocated, freed,
}

-- The first block of the group at the top of `k` groups, if there is one.
abbrev pub top_of : (ℕ → ℕ → ℕ) → ℕ → ℕ
top_of g zero = 0
top_of g (suc k) = g k 7

-- The global pool: each group has eight linked blocks, and its first is linked to that of the next group.
-- `n` accesses have been made.
pub record Shape (n : ℕ) (m : Memory) : Type 0 where
  pub small_sn : m.global_sn ≤ n
  pub some_fresh : 0 < m.fresh
  pub null : m.place 0 ≡ unmapped
  pub above : (x : ℕ) → m.fresh ≤ x → m.place x ≡ unmapped
  pub at_place : (h i : ℕ) → h < m.groups → i < 8 → m.place (m.group h i) ≡ pooled h i
  pub exact : (x h i : ℕ) → m.place x ≡ pooled h i → (x ≡ m.group h i) × (h < m.groups) × (i < 8)
  pub chain : (h i : ℕ) → h < m.groups → i < 7 → m.next (m.group h (i + 1)) ≡ m.group h i
  pub bottom : (h : ℕ) → h < m.groups → m.next (m.group h 0) ≡ 0
  pub global_top : m.global_ptr ≡ top_of m.group m.groups
  pub group_links : (h : ℕ) → h < m.groups → m.next_group (m.group h 7) ≡ top_of m.group h

-- The list of a thread: its blocks from the bottom up.
pub record Listed (m : Memory) (tid top count : ℕ) : Type 0 where
  pub at_place : (i : ℕ) → i < count → m.place (m.node tid i) ≡ local tid i
  pub exact : (x i : ℕ) → m.place x ≡ local tid i → (x ≡ m.node tid i) × (i < count)
  pub chain : (i : ℕ) → i + 1 < count → m.next (m.node tid (i + 1)) ≡ m.node tid i
  pub bottom : 0 < count → m.next (m.node tid 0) ≡ 0
  pub no_top : count ≡ 0 → top ≡ 0
  pub some_top : 0 < count → top ≡ m.node tid (count - 1)

-- `nth` is the ninth block from the bottom.
abbrev pub NthIs : Memory → (tid nth count : ℕ) → Type 0
NthIs m tid nth count = (9 ≤ count → nth ≡ m.node tid 8) × (count < 9 → nth ≡ 0)

-- The global pool was loaded, and every exchange since has changed its serial number.
abbrev pub Tracks : Memory → (old sn : ℕ) → Type 0
Tracks m old sn = (sn ≤ m.global_sn) × (sn ≡ m.global_sn → m.global_ptr ≡ old)

-- A thread that gives its lower half away has sixteen blocks.
abbrev pub Gives : Memory → Thread → (ng : ℕ) → Type 0
Gives m w ng = (w.count ≡ 16) × (w.nth ≡ m.node w.tid 8) × (ng ≡ m.node w.tid 7)

abbrev pub Stands : Memory → Thread → Pc → Type 0
Stands m w idle = (w.count < 16) × NthIs m w.tid w.nth w.count
Stands m w looking = (w.count ≡ 0) × (w.nth ≡ 0)
Stands m w (looked old sn) = (w.count ≡ 0) × (w.nth ≡ 0) × (old ≢ 0) × Tracks m old sn
Stands m w (grabbing old sn after) =
    (w.count ≡ 0)
    × (w.nth ≡ 0)
    × (old ≢ 0)
    × Tracks m old sn
    × (sn ≡ m.global_sn → m.next_group old ≡ after)
Stands m w (giving ng) = Gives m w ng
Stands m w (linking ng old sn) = Gives m w ng × Tracks m old sn
Stands m w (linked ng old sn) = Gives m w ng × Tracks m old sn × (m.next_group ng ≡ old)

pub record Local (m : Memory) (w : Thread) : Type 0 where
  pub listed : Listed m w.tid w.top w.count
  pub stands : Stands m w w.pc

abbrev pub Pair : Thread → Thread → Type 0
Pair w u = w.tid ≢ u.tid

-- The blocks that callers hold.
abbrev pub holds : Memory → ℕ → Bool
holds m x = is_held (m.place x)

-- What an event does to them. A block is given to one caller, and no block is given that one holds.
abbrev pub Does : Event → (ℕ → Bool) → (ℕ → Bool) → Type 0
Does silent h h' = (x : ℕ) → h' x ≡ h x
Does (allocated b) h h' = (b ≢ 0) × (h b ≡ false) × (h' b ≡ true) × ((x : ℕ) → x ≢ b → h' x ≡ h x)
Does (freed b) h h' = (h b ≡ true) × (h' b ≡ false) × ((x : ℕ) → x ≢ b → h' x ≡ h x)

-- An access of the thread `t`, as another thread sees it.
pub record Keeps (m m' : Memory) (t : ℕ) : Type 0 where
  pub stays : (u x i : ℕ) → u ≢ t → m.place x ≡ local u i → m'.place x ≡ local u i
  pub came : (u x i : ℕ) → u ≢ t → m'.place x ≡ local u i → m.place x ≡ local u i
  pub next_kept : (u x i : ℕ) → u ≢ t → m.place x ≡ local u i → m'.next x ≡ m.next x
  pub link_kept : (u x i : ℕ) → u ≢ t → m.place x ≡ local u i → m'.next_group x ≡ m.next_group x
  pub node_kept : (u i : ℕ) → u ≢ t → m'.node u i ≡ m.node u i
  pub sn_grows : m.global_sn ≤ m'.global_sn
  pub ptr_kept : m.global_sn ≡ m'.global_sn → m'.global_ptr ≡ m.global_ptr
  pub global_link_kept :
      m.global_sn ≡ m'.global_sn
      → m.global_ptr ≢ 0
      → m'.next_group m.global_ptr ≡ m.next_group m.global_ptr

module _ {m m' : Memory} {t : ℕ} (k : Keeps m m' t) where
  Keeps-Tracks : (old sn : ℕ) → Tracks m old sn → Tracks m' old sn
  Keeps-Tracks old sn (le, same) = (
    omega (arith, k.sn_grows),
    λ e. k.ptr_kept (omega (arith, k.sn_grows)) ∙ same (omega (arith, k.sn_grows)),
  )

  module _ (w : Thread) (ne : w.tid ≢ t) (l : Listed m w.tid w.top w.count) where
    Keeps-Listed : Listed m' w.tid w.top w.count
    Keeps-Listed = record {
      at_place = λ i lt. rw (k.node_kept w.tid i ne) (k.stays w.tid _ i ne (l.at_place i lt));
      exact = λ x i e. rw (k.node_kept w.tid i ne) (l.exact x i (k.came w.tid x i ne e));
      chain = λ i lt.
          rw (k.node_kept w.tid (i + 1) ne, k.node_kept w.tid i ne)
            (k.next_kept w.tid _ (i + 1) ne (l.at_place (i + 1) lt) ∙ l.chain i lt);
      bottom = λ lt.
          rw (k.node_kept w.tid 0 ne) (k.next_kept w.tid _ 0 ne (l.at_place 0 lt) ∙ l.bottom lt);
      no_top = l.no_top;
      some_top = λ lt. rw (k.node_kept w.tid (w.count - 1) ne) (l.some_top lt);
    }

    Keeps-Gives : (ng : ℕ) → Gives m w ng → Gives m' w ng
    Keeps-Gives ng (c, e, e') =
        (c, e ∙ sym (k.node_kept w.tid 8 ne), e' ∙ sym (k.node_kept w.tid 7 ne))

    Keeps-Stands : (p : Pc) → Stands m w p → Stands m' w p
    Keeps-Stands idle (lt, (hi, lo)) = (lt, ((λ le. hi le ∙ sym (k.node_kept w.tid 8 ne)), lo))
    Keeps-Stands looking s = s
    Keeps-Stands (looked old sn) (c, e, nz, track) = (c, e, nz, Keeps-Tracks old sn track)
    Keeps-Stands (grabbing old sn after) (c, e, nz, track, f) = (
      c,
      e,
      nz,
      Keeps-Tracks old sn track,
      λ z.
          let same : m.global_sn ≡ m'.global_sn = omega (arith, track.0, k.sn_grows) in
          let sn_same : sn ≡ m.global_sn = omega (arith, track.0, k.sn_grows) in
          let here : m.global_ptr ≡ old = track.1 sn_same in
          sym (ap m'.next_group here)
          ∙ k.global_link_kept same (λ q. nz (sym here ∙ q))
          ∙ ap m.next_group here
          ∙ f sn_same,
    )
    Keeps-Stands (giving ng) g = Keeps-Gives ng g
    Keeps-Stands (linking ng old sn) (g, track) = (Keeps-Gives ng g, Keeps-Tracks old sn track)
    Keeps-Stands (linked ng old sn) ((c, e, e'), track, f) = (
      Keeps-Gives ng (c, e, e'),
      Keeps-Tracks old sn track,
      k.link_kept w.tid ng 7 ne (rw e' (l.at_place 7 (omega arith))) ∙ f,
    )

  -- What another thread knows stays.
  pub Keeps-Local : (w : Thread) → w.tid ≢ t → Local m w → Local m' w
  Keeps-Local w ne l = record {
    listed = Keeps-Listed w ne l.listed;
    stands = Keeps-Stands w ne l.listed w.pc l.stands;
  }

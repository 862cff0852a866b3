-- ===== src/OfDeque/Interior/Inv/Stable.antt =====
-- What a thread knows survives the accesses of the other threads.
use unbounded_obstruction_fr.Base.{ℕ, suc, ◌≡◌, update, arith}
use unbounded_obstruction_fr.OfDeque.Slot.{
  type_value, Side, side_left, side_right, Slot, far_type, far_index,
}
use unbounded_obstruction_fr.OfDeque.Interior.{
  Pc, idle, looping, near_loaded, edge_loaded, checked, armed, hinting, push, pop,
}
use unbounded_obstruction_fr.OfDeque.Interior.Inv.Defs.{Slots, Tracks, Local, Pair}

module _ (b : Slots) (x : ℕ) (s : Slot) (next : s.count ≡ suc (b x).count) where
  pub Tracks-update : {i : ℕ} {old : Slot} → Tracks b i old → Tracks (update b x s) i old
  Tracks-update {i} {old} k = record { past = ground arith; same = ground arith }

  -- `casSafe` changes only a counter, so that nothing a thread knows is lost.
  pub Local-bump :
      (size : ℕ) (q : Pc) → s.type ≡ (b x).type → Local size b q → Local size (update b x s) q
  Local-bump size idle e l = tt
  Local-bump size (looping _ _) e l = tt
  Local-bump size (hinting _ _) e l = tt
  Local-bump size (near_loaded side op i near) e l = (l.0, Tracks-update l.1)
  Local-bump size (edge_loaded side op i near far seen) e l =
      (l.0, Tracks-update l.1, Tracks-update l.2, ground arith)
  Local-bump size (checked side (push v) i near far) e l =
      (l.0, Tracks-update l.1, Tracks-update l.2)
  Local-bump size (checked side pop i near far) e l =
      (l.0, Tracks-update l.1, Tracks-update l.2, ground arith)
  Local-bump size (armed side (push v) i near far) e l =
      (l.0, ground arith, Tracks-update l.2, ground arith)
  Local-bump size (armed side pop i near far) e l =
      (l.0, Tracks-update l.1, ground arith, ground arith, ground arith)

-- The write of a pusher: no popper on the same edge is between its two accesses.
pub Local-pushed :
    (size : ℕ) (b : Slots) (s : Slot) (side : Side) (v i : ℕ) (near far : Slot) (q : Pc)
    → s.count ≡ suc (b (far_index side i)).count
    → s.type ≡ type_value
    → b (far_index side i) ≡ far
    → Local size b (armed side (push v) i near far)
    → Pair (armed side (push v) i near far) q
    → Local size b q
    → Local size (update b (far_index side i) s) q
Local-pushed size b s side v i near far idle n e at me p l = tt
Local-pushed size b s side v i near far (looping _ _) n e at me p l = tt
Local-pushed size b s side v i near far (hinting _ _) n e at me p l = tt
Local-pushed size b s side v i near far (near_loaded side' op i' near') n e at me p l =
    (l.0, Tracks-update b _ s n l.1)
Local-pushed size b s side v i near far (edge_loaded side' op i' near' far' seen) n e at me p l =
    (l.0, Tracks-update b _ s n l.1, Tracks-update b _ s n l.2, ground arith)
Local-pushed size b s side v i near far (checked side' (push _) i' near' far') n e at me p l =
    (l.0, Tracks-update b _ s n l.1, Tracks-update b _ s n l.2)
Local-pushed size b s side v i near far (checked side' pop i' near' far') n e at me p l =
    (l.0, Tracks-update b _ s n l.1, Tracks-update b _ s n l.2, ground arith)
Local-pushed size b s side v i near far (armed side' (push _) i' near' far') n e at me p l =
    (l.0, ground arith, Tracks-update b _ s n l.2, ground arith)
Local-pushed size b s side_left v i near far (armed side_left pop i' near' far') n e at me p l =
    (l.0, Tracks-update b _ s n l.1, ground arith, ground arith, ground arith)
Local-pushed size b s side_left v i near far (armed side_right pop i' near' far') n e at me p l =
    (l.0, Tracks-update b _ s n l.1, ground arith, ground arith, ground arith)
Local-pushed size b s side_right v i near far (armed side_left pop i' near' far') n e at me p l =
    (l.0, Tracks-update b _ s n l.1, ground arith, ground arith, ground arith)
Local-pushed size b s side_right v i near far (armed side_right pop i' near' far') n e at me p l =
    (l.0, Tracks-update b _ s n l.1, ground arith, ground arith, ground arith)

-- The write of a popper: no pusher on the same edge is between its two accesses.
pub Local-popped :
    (size : ℕ) (b : Slots) (s : Slot) (side : Side) (i : ℕ) (near far : Slot) (q : Pc)
    → s.count ≡ suc (b i).count
    → s.type ≡ far_type side
    → b i ≡ near
    → Local size b (armed side pop i near far)
    → Pair q (armed side pop i near far)
    → Local size b q
    → Local size (update b i s) q
Local-popped size b s side i near far idle n e at me p l = tt
Local-popped size b s side i near far (looping _ _) n e at me p l = tt
Local-popped size b s side i near far (hinting _ _) n e at me p l = tt
Local-popped size b s side i near far (near_loaded side' op i' near') n e at me p l =
    (l.0, Tracks-update b _ s n l.1)
Local-popped size b s side i near far (edge_loaded side' op i' near' far' seen) n e at me p l =
    (l.0, Tracks-update b _ s n l.1, Tracks-update b _ s n l.2, ground arith)
Local-popped size b s side i near far (checked side' (push _) i' near' far') n e at me p l =
    (l.0, Tracks-update b _ s n l.1, Tracks-update b _ s n l.2)
Local-popped size b s side i near far (checked side' pop i' near' far') n e at me p l =
    (l.0, Tracks-update b _ s n l.1, Tracks-update b _ s n l.2, ground arith)
Local-popped size b s side_left i near far (armed side_left (push _) i' near' far') n e at me p l =
    (l.0, ground arith, Tracks-update b _ s n l.2, ground arith)
Local-popped size b s side_left i near far (armed side_right (push _) i' near' far') n e at me p l =
    (l.0, ground arith, Tracks-update b _ s n l.2, ground arith)
Local-popped size b s side_right i near far (armed side_left (push _) i' near' far') n e at me p l =
    (l.0, ground arith, Tracks-update b _ s n l.2, ground arith)
Local-popped size b s side_right i near far (armed side_right (push _) i' near' far') n e at me p
      l =
    (l.0, ground arith, Tracks-update b _ s n l.2, ground arith)
Local-popped size b s side i near far (armed side' pop i' near' far') n e at me p l =
    (l.0, Tracks-update b _ s n l.1, ground arith, ground arith, ground arith)

-- ===== src/OfDeque/Interior/Inv.antt =====
-- What holds between any two accesses of the interior branches.
mod Defs
mod Stable
mod Values
mod Access
pub use Defs.*
pub use Values.{
  values_none, values-split, contents_empty, contents-write, values-around, values_left,
  values_right,
}
pub use Access.{Pair-self, same_slot_eq, Kept, advance-Kept}

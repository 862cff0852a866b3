-- ===== src/MmDeque/Inv.antt =====
-- What holds between any two accesses of the deque of Maged Michael.
pub mod Defs
pub mod Keeps
pub mod Links
pub mod Allocs
pub mod Inits
pub mod Connects
pub mod Moves
pub mod Joins
pub mod Leaves
pub mod Settles
pub mod Loads
pub mod View

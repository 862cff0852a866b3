-- ===== src/OfDeque.antt =====
-- The unbounded obstruction-free deque of deque/OFDeque.hpp.
pub mod Slot
pub mod Interior
pub mod Hints
pub mod Search
pub mod Border
pub mod Create

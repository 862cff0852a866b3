-- ===== src/MmDeque/Access.antt =====
-- What an access of a thread keeps, by the operation that makes it.
pub mod Sound
pub mod Stabs
pub mod Pushes
pub mod Pops

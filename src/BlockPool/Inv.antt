-- ===== src/BlockPool/Inv.antt =====
-- What holds between any two accesses of the block pool.
pub mod Defs
pub mod Lists
pub mod Puts
pub mod Grabs
pub mod Gives
pub mod Appends

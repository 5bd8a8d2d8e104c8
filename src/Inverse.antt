-- ===== src/Inverse.antt =====
-- lib/inverse.c: the table that gives for each cluster the reference of which it is the target.
pub mod Slots
pub mod Moves
pub mod Filled
pub mod Stores
pub mod Renamed
pub mod Kept
pub mod Moved
pub mod Wanted
pub mod Swapped

-- ===== src/Reference.antt =====
-- lib/reference.c: references to clusters, and the moving of the clusters that they point to.
pub mod Target
pub mod Move
pub mod Renames
pub mod Moved
pub mod Swapped
pub mod Follow

-- ===== src/Units.antt =====
-- lib/unit.h, lib/unit.c: units, which are sectors or clusters of the filesystem held in memory,
-- and the cache of units.
mod Block
pub mod Host
pub mod Io
pub mod Cache
pub mod Hits
pub mod Device
pub mod Flush
pub mod Flushed
pub mod Moves
pub use Block.*

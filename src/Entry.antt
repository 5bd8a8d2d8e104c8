-- ===== src/Entry.antt =====
-- lib/entry.c: an entry of a directory, the 32 bytes of a file in a cluster.
pub mod Fields
pub mod Time
pub mod FieldTrip
pub mod TimeTrip
pub mod Names
pub mod NameTrip
pub mod Padding

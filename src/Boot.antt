-- ===== src/Boot.antt =====
-- lib/boot.c: the data in a boot sector and in the information sector.
pub mod Fields
pub mod Size
pub mod Root
pub mod Label
pub mod Info
pub mod Check
pub mod Bits
pub mod Layout
pub mod MinSize
pub mod RoundTrip
pub mod Resize
pub mod BestSize
pub mod TableSize
pub mod LabelTrip
pub mod InfoTrip
pub mod Counters

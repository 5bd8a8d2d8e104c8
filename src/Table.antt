-- ===== src/Table.antt =====
-- lib/table.h, lib/table.c: the file allocation tables.
pub mod Raw
pub mod Sectors
pub mod Flat
pub mod Place
pub mod Read
pub mod Replace
pub mod Write
pub mod Entries
pub mod Next
pub mod Chains
pub mod Succ
pub mod Frame
pub mod Free
pub mod Linear
pub mod Scan
pub mod View
pub mod Count
pub mod Find
pub mod Areas
pub mod Window
pub mod BestWindow
pub mod Position
pub mod Sites
pub mod DirtyBits
pub mod DirtyTrip
pub mod Whole
pub mod SiteFrame

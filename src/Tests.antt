-- ===== src/Tests.antt =====
-- Examples of what is modelled, and the theorems at them.
pub mod Host
pub mod Boot
pub mod Table
pub mod Reference
pub mod Search
pub mod Inverse
pub mod Cache
pub mod Entry
pub mod Directory
pub mod Walk
pub mod Ucs2
mod Device
mod Session
mod Dirty
mod Create
mod Long

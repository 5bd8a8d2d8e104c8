-- ===== src/Long.antt =====
-- lib/long.c: long names.
pub mod Scan
pub mod Names
pub mod Cut
pub mod Legal
pub mod Walk

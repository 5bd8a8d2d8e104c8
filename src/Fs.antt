-- ===== src/Fs.antt =====
-- lib/fs.h, lib/fs.c: an open filesystem, `fat`, and its global parameters.
pub mod State
pub mod Geometry
pub mod Setters
pub mod Session
pub mod Saved
pub mod Stored
pub mod Reopened
pub mod Sane
pub mod Same

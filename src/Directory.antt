-- ===== src/Directory.antt =====
-- lib/directory.c: the names of files, and the walk over a directory.
pub mod Names
pub mod Tidy
pub mod Valid
pub mod Walk
pub mod Found
pub mod Free
pub mod Create
pub mod FreeFound
pub mod NewEntry
pub mod Firsts
pub mod Created
pub mod Grown
pub mod Parts
pub mod Paths

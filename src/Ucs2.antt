-- ===== src/Ucs2.antt =====
-- lib/ucs2conv.c: long names between UCS-2 and UTF-8.
pub mod Encode
pub mod Decoded

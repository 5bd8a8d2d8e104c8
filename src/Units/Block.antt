-- ===== src/Units/Block.antt =====
-- lib/unit.h: a unit, which is a sector or a cluster of the filesystem held in memory.
-- A pointer that may be NULL is an `Option`.
use libllfat.Prelude.{ℕ, Bool, true}
use libllfat.Prelude.Int.{ℤ}
use libllfat.Bytes.{Bytes, put8, put16, put32, write_bytes}

-- `loaded` is false for a deallocated unit, whose `data` pointer is NULL; the accessors of the
-- other modules read a loaded unit. The boot and information sectors stay loaded, since the
-- library sets their `refer`. `user`, which the library never reads, is left out.
pub record FatUnit : Type 0 where
  pub fd : ℤ
  pub n : ℕ
  pub size : ℕ
  pub origin : ℕ
  pub loaded : Bool
  pub data_bytes : Bytes
  pub error : ℕ
  pub dirty : Bool
  pub refer : ℕ

-- Stores through the `_unit...int` macros, which by themselves leave `dirty` alone.
abbrev pub store8 : FatUnit → ℕ → ℕ → FatUnit
store8 u i v = record u { data_bytes = put8 u.data_bytes i v }

abbrev pub store16 : FatUnit → ℕ → ℕ → FatUnit
store16 u i v = record u { data_bytes = put16 u.data_bytes i v }

abbrev pub store32 : FatUnit → ℕ → ℕ → FatUnit
store32 u i v = record u { data_bytes = put32 u.data_bytes i v }

abbrev pub store_bytes : FatUnit → ℕ → Bytes → FatUnit
store_bytes u i xs = record u { data_bytes = write_bytes u.data_bytes i xs }

-- `u->dirty = 1`
abbrev pub mark_dirty : FatUnit → FatUnit
mark_dirty u = record u { dirty = true }

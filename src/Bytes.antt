-- ===== src/Bytes.antt =====
-- Little-endian integers in a byte array: the macros `_unit8int`, `_unit16int`, `_unit32int` and
-- their unsigned versions of lib/unit.h, joined with the `le16toh`/`htole16` family, which on every
-- host amounts to this order of the bytes.
pub mod Laws
use libllfat.Prelude.{
  ℕ, ◌+◌, ◌*◌, ◌/◌, ◌%◌, ◌<◌, List, [], ◌∷◌, length, get_or, set, take, drop, ◌++◌, zero, suc,
}

abbrev pub Bytes : Type 0
Bytes = List ℕ

-- All elements are bytes.
abbrev pub IsBytes : Bytes → Type 0
IsBytes d = (i : ℕ) → get_or d i 0 < 256

unfoldable pub get8 : Bytes → ℕ → ℕ
get8 d i = get_or d i 0

unfoldable pub put8 : Bytes → ℕ → ℕ → Bytes
put8 d i v = set d i (v % 256)

unfoldable pub get16 : Bytes → ℕ → ℕ
get16 d i = get8 d i + 256 * get8 d (i + 1)

unfoldable pub put16 : Bytes → ℕ → ℕ → Bytes
put16 d i v = put8 (put8 d i v) (i + 1) (v / 256)

unfoldable pub get32 : Bytes → ℕ → ℕ
get32 d i = get16 d i + 65536 * get16 d (i + 2)

unfoldable pub put32 : Bytes → ℕ → ℕ → Bytes
put32 d i v = put16 (put16 d i v) (i + 2) (v / 65536)

-- `memcpy` out of and into an array.
unfoldable pub read_bytes : Bytes → ℕ → ℕ → Bytes
read_bytes d i zero = []
read_bytes d i (suc n) = get8 d i ∷ read_bytes d (i + 1) n

unfoldable pub write_bytes : Bytes → ℕ → Bytes → Bytes
write_bytes d i [] = d
write_bytes d i (x ∷ xs) = write_bytes (put8 d i x) (i + 1) xs

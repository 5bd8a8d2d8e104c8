-- ===== src/Long/Scan.antt =====
-- lib/long.c: the checksum of a short name, and the scan of the entries of a directory for names, long
-- and short. tolower(3) and what malloc(3) leaves in a block are parameters.
use libllfat.Prelude.{
  ℕ, zero, suc, ◌+◌, ◌-◌, ◌*◌, ◌/◌, ◌%◌, true, false, not, ◌&&◌, ◌||◌, ◌==◌, if◌then◌else◌, Option,
  none, some, List, [], ◌∷◌, ◌++◌, length, map, take, drop,
}
use libllfat.Prelude.Int.{ℤ, pos, minus_one, eqb_ℤ, ltb_ℤ, ◌+ℤ◌, ◌-ℤ◌}
use libllfat.Bytes.{Bytes, get16, read_bytes, write_bytes}
use libllfat.Units.{FatUnit}
use libllfat.Entry.Fields.{entry_byte, entry_exists, entry_end, is_long_part}
use libllfat.Entry.Names.{short_to_string}
use libllfat.Ucs2.Encode.{fat_ucs2_to_utf8, fat_char_to_utf8}

-- `FAT_END`, `FAT_SHORT`, `FAT_LONG_ALL`, `FAT_LONG_SOME`, `FAT_LONG_FIRST`, `FAT_LONG_ERR`
abbrev pub fat_end : ℕ
fat_end = 0x8000

abbrev pub fat_short : ℕ
fat_short = 0x4000

abbrev pub fat_long_all : ℕ
fat_long_all = 0x2000

abbrev pub fat_long_some : ℕ
fat_long_some = 0x1000

abbrev pub fat_long_first : ℕ
fat_long_first = 0x0800

abbrev pub fat_long_err : ℕ
fat_long_err = 0x0400

-- One round: rotate right by one bit, then add, in a `uint8_t`. The list is the array of 11 bytes.
unfoldable pub checksum_from : ℕ → Bytes → ℕ
checksum_from res [] = res
checksum_from res (x ∷ xs) = checksum_from ((res % 2 * 128 + res / 2 + x) % 256) xs

unfoldable pub checksum : Bytes → ℕ
checksum = checksum_from 0

unfoldable pub entry_checksum : FatUnit → ℕ → ℕ
entry_checksum directory index = checksum (read_bytes directory.data_bytes (index * 32) 11)

-- `struct fatlongscan`; `name` is the block that `name` points to. The place of the long name is a
-- cluster with an index.
pub record LongScan : Type 0 where
  pub n : ℤ
  pub checksum_read : ℕ
  pub long_directory : ℕ
  pub long_index : ℕ
  pub name : Option Bytes
  pub len : ℕ
  pub err : ℤ

-- The fields that `fatlonginit` leaves unset are 0; `len` is -1 there, and not read before it is set.
unfoldable pub long_init : LongScan
long_init = record {
  n = minus_one;
  checksum_read = 0;
  long_directory = 0;
  long_index = 0;
  name = none;
  len = 0;
  err = pos 0;
}

unfoldable pub long_end : LongScan → LongScan
long_end s = record s { n = minus_one; name = none; len = 0; err = pos 0 }

-- The 16-bit units of a part of the name.
unfoldable pub part_units : FatUnit → (at count : ℕ) → List ℕ
part_units directory at zero = []
part_units directory at (suc count) =
    get16 directory.data_bytes at ∷ part_units directory (at + 2) count

abbrev pub block_of : Option Bytes → Bytes
block_of none = []
block_of (some b) = b

module _ (to_lower : ℕ → ℕ) (garbage : ℕ → Bytes) where
  unfoldable pub short_to_wide : FatUnit → ℕ → Bytes
  short_to_wide directory index =
      let raw = read_bytes directory.data_bytes (index * 32) 11 in
      let case_byte = entry_byte directory index 12 in
      let base = if case_byte / 8 % 2 == 1 then map to_lower (take 8 raw) else take 8 raw in
      let ext = if case_byte / 16 % 2 == 1 then map to_lower (drop 8 raw) else drop 8 raw in
      (fat_char_to_utf8 false (short_to_string (base ++ ext)) none).0

  -- `_fatscanstart`: a block of three bytes, the first of which is 0.
  unfoldable pub scan_start : FatUnit → ℕ → LongScan → LongScan
  scan_start directory index s = record s {
    name = some (write_bytes (garbage 3) 0 (0 ∷ []));
    len = 1;
    err = pos 0;
    long_directory = directory.n;
    long_index = index;
  }

  -- realloc(3) to a size that is not smaller.
  abbrev pub enlarged : Bytes → ℕ → Bytes
  enlarged block size = block ++ garbage (size - length block)

  -- The end of `fatlongscan`: what was read of the name moves up by 13 bytes, and the 13 units of the
  -- entry are converted into the place before it.
  unfoldable pub take_part : FatUnit → ℕ → LongScan → LongScan
  take_part directory index s =
      let block = enlarged (block_of s.name) ((s.len + 13) * 3) in
      let moved = write_bytes block 13 (read_bytes block 0 s.len) in
      let (a, e₁) = fat_ucs2_to_utf8 true (part_units directory (index * 32 + 1) 5) (some 5) in
      let (b, e₂) = fat_ucs2_to_utf8 true (part_units directory (index * 32 + 14) 6) (some 6) in
      let (c, e₃) = fat_ucs2_to_utf8 true (part_units directory (index * 32 + 28) 2) (some 2) in
      record s {
        name = some (write_bytes (write_bytes (write_bytes moved 0 a) 5 b) 11 c);
        len = s.len + 13;
        err = ((s.err +ℤ e₁) +ℤ e₂) +ℤ e₃;
      }

  -- A part of a long name: the first one, the next one in order, or another.
  unfoldable pub scan_part : FatUnit → ℕ → LongScan → LongScan × ℕ
  scan_part directory index s =
      let byte = entry_byte directory index 0 in
      let sum = entry_byte directory index 13 in
      if byte / 0x40 % 2 == 1
      then (
        take_part directory index
            (scan_start directory index (record s { n = pos (byte % 0x40); checksum_read = sum })),
        fat_long_some + fat_long_first,
      )
      else if not (s.checksum_read == sum)
          || not (ltb_ℤ (pos 0) s.n)
          || not (eqb_ℤ s.n (pos (byte % 0x40)))
      then (record s { n = minus_one }, 0)
      else (take_part directory index s, fat_long_some)

  -- The short entry that ends a name, which is the long one if all its parts were there.
  unfoldable pub scan_short : FatUnit → ℕ → LongScan → LongScan × ℕ
  scan_short directory index s =
      let s' = record s { n = s.n -ℤ pos 1 } in
      if eqb_ℤ s.n (pos 0) && entry_checksum directory index == s.checksum_read
      then (s', fat_short + fat_long_all)
      else (
        record s' {
          name = some (short_to_wide directory index);
          long_directory = directory.n;
          long_index = index;
        },
        fat_short,
      )

  unfoldable pub long_scan : FatUnit → ℕ → LongScan → LongScan × ℕ
  long_scan directory index s =
      let s' = record s { n = s.n -ℤ pos 1 } in
      if entry_end (some directory) index
      then (long_end s, fat_end)
      else if not (entry_exists directory index)
      then (long_end s, 0)
      else if not (is_long_part directory index)
      then scan_short directory index s'
      else scan_part directory index s'

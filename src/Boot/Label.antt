-- ===== src/Boot/Label.antt =====
-- lib/boot.c: the dirty bits and the extended boot record, which stand at one place on FAT12 and
-- FAT16 and at another on FAT32.
use libllfat.Prelude.{ℕ, ◌+◌, ◌-◌, ◌%◌, ◌==◌, if◌then◌else◌, Option, none, some}
use libllfat.Prelude.Int.{ℤ, pos, minus_one, wrap, eqb_ℤ}
use libllfat.Bytes.{Bytes, get8, get32, read_bytes}
use libllfat.Units.{FatUnit, store8, store32, store_bytes, mark_dirty}
use libllfat.Boot.Size.{B, pure, ◌>>=◌, known_bits}
use libllfat.Boot.Root.{fat_err, is_12_or_16}

-- The place of a field on FAT12 and FAT16, that on FAT32, or neither.
abbrev pub place : ℤ → ℕ → ℕ → Option ℕ
place b small large =
    if is_12_or_16 b then some small else if eqb_ℤ b (pos 32) then some large else none

-- The `if` on the bits that begins each function below: `k` at the field's place, or `other`.
unfoldable pub at_place : {A : Type 0} → FatUnit → ℕ → ℕ → (ℕ → A) → A → B A
at_place boot small large k other = do
  b ← known_bits boot
  pure (elim (place b small large) [ none ↦ other | some i ↦ k i ])

-- `FAT_UNCLEAN | FAT_IOERROR` is 3: `& 3` is the remainder by 4.
unfoldable pub get_dirty_bits : FatUnit → B ℤ
get_dirty_bits boot = at_place boot 0x25 0x41 (λ i. pos (get8 boot.data_bytes i % 4)) minus_one

-- `& ~3` clears the two bits, and `|` then sets them.
unfoldable pub replace_dirty : ℕ → ℕ → ℕ
replace_dirty c dirty = c - c % 4 + dirty % 4

unfoldable pub set_dirty_bits : FatUnit → ℤ → B (FatUnit × ℤ)
set_dirty_bits boot dirty =
    at_place boot 0x25 0x41
      (λ i.
        (mark_dirty (store8 boot i (replace_dirty (get8 boot.data_bytes i) (wrap 4 dirty))), pos 0))
      (boot, minus_one)

unfoldable pub get_extended_boot_signature : FatUnit → B ℤ
get_extended_boot_signature boot =
    at_place boot 0x26 0x42 (λ i. if get8 boot.data_bytes i == 0x29 then pos 1 else pos 0) fat_err

-- These two do not mark the unit dirty.
unfoldable pub add_extended_boot_signature : FatUnit → B (FatUnit × ℤ)
add_extended_boot_signature boot =
    at_place boot 0x26 0x42 (λ i. (store8 boot i 0x29, pos 0)) (boot, fat_err)

unfoldable pub delete_extended_boot_signature : FatUnit → B (FatUnit × ℤ)
delete_extended_boot_signature boot =
    at_place boot 0x26 0x42 (λ i. (store8 boot i 0x0, pos 0)) (boot, fat_err)

-- The two functions use no byte order conversion: this is the host's order when it is little-endian.
-- `FAT_ERR` is returned as a `uint32_t`.
unfoldable pub get_serial_number : FatUnit → B ℕ
get_serial_number boot =
    at_place boot 0x27 0x43 (λ i. get32 boot.data_bytes i) (wrap 0x1_0000_0000 fat_err)

unfoldable pub set_serial_number : FatUnit → ℕ → B (FatUnit × ℤ)
set_serial_number boot serial =
    at_place boot 0x27 0x43 (λ i. (mark_dirty (store32 boot i serial), pos 0)) (boot, fat_err)

unfoldable pub get_volume_label : FatUnit → B (Option Bytes)
get_volume_label boot = at_place boot 0x2b 0x47 (λ i. some (read_bytes boot.data_bytes i 11)) none

-- `l` has 11 bytes.
unfoldable pub set_volume_label : FatUnit → Bytes → B (FatUnit × ℤ)
set_volume_label boot l =
    at_place boot 0x2b 0x47 (λ i. (mark_dirty (store_bytes boot i l), pos 0)) (boot, minus_one)

unfoldable pub get_filesystem_type : FatUnit → B (Option Bytes)
get_filesystem_type boot = at_place boot 0x36 0x52 (λ i. some (read_bytes boot.data_bytes i 8)) none

-- `t` has 8 bytes.
unfoldable pub set_filesystem_type : FatUnit → Bytes → B (FatUnit × ℤ)
set_filesystem_type boot t =
    at_place boot 0x36 0x52 (λ i. (mark_dirty (store_bytes boot i t), pos 0)) (boot, minus_one)

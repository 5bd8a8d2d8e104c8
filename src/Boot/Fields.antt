-- ===== src/Boot/Fields.antt =====
-- lib/boot.c: the fields of the boot sector whose place does not depend on the bits of the FAT.
-- A setter takes NULL or a unit, and returns the unit after the call with the result.
use libllfat.Prelude.{
  ℕ, ◌-◌, ◌*◌, ◌/◌, ◌%◌, Bool, not, ◌&&◌, ◌||◌, ltb, leb, ◌==◌, if◌then◌else◌, Option, none, some,
}
use libllfat.Prelude.Int.{ℤ, pos, negsuc, minus_one, u16, u32, wrap, i8, i32, ltb_ℤ, eqb_ℤ}
use libllfat.Bytes.{get8, get16, get32}
use libllfat.Units.{FatUnit, store8, store16, store32, mark_dirty}

-- The argument has exactly one bit 1; an `int` has more than two bytes.
unfoldable pub onebit : ℕ → Bool
onebit c = not (c == 0) && ((c - 1) * 0x8000 / c) % 0x100 == 0

unfoldable pub bits_from_clusters : ℤ → ℤ
bits_from_clusters n =
    if ltb_ℤ n (pos 4085) then pos 12 else if ltb_ℤ n (pos 65525) then pos 16 else pos 32

unfoldable pub get_bytes_per_sector : FatUnit → ℕ
get_bytes_per_sector boot = get16 boot.data_bytes 0x0b

unfoldable pub set_bytes_per_sector : Option FatUnit → ℤ → Option FatUnit × ℤ
set_bytes_per_sector none bytes = (none, minus_one)
set_bytes_per_sector (some boot) bytes = (some (mark_dirty (store16 boot 0x0b (u16 bytes))), pos 0)

unfoldable pub get_sectors_per_cluster : FatUnit → ℕ
get_sectors_per_cluster boot = get8 boot.data_bytes 0x0d

unfoldable pub set_sectors_per_cluster : Option FatUnit → ℤ → Option FatUnit × ℤ
set_sectors_per_cluster none sectors = (none, minus_one)
set_sectors_per_cluster (some boot) (negsuc n) = (some boot, minus_one)
set_sectors_per_cluster (some boot) (pos n) =
    if leb 256 n || not (onebit n)
    then (some boot, minus_one)
    else (some (mark_dirty (store8 boot 0x0d n)), pos 0)

unfoldable pub bytes_per_cluster : FatUnit → ℕ
bytes_per_cluster boot = get_bytes_per_sector boot * get_sectors_per_cluster boot

unfoldable pub get_reserved_sectors : FatUnit → ℕ
get_reserved_sectors boot = get16 boot.data_bytes 0x0e

unfoldable pub set_reserved_sectors : Option FatUnit → ℤ → Option FatUnit × ℤ
set_reserved_sectors none sectors = (none, minus_one)
set_reserved_sectors (some boot) sectors =
    (some (mark_dirty (store16 boot 0x0e (u16 sectors))), pos 0)

-- The byte is read as an `int8_t`, so a count from 128 on comes out negative.
unfoldable pub get_num_fats : FatUnit → ℤ
get_num_fats boot = i8 (get8 boot.data_bytes 0x10)

unfoldable pub set_num_fats : Option FatUnit → ℤ → Option FatUnit × ℤ
set_num_fats none nfat = (none, minus_one)
set_num_fats (some boot) nfat = (some (mark_dirty (store8 boot 0x10 (wrap 0x100 nfat))), pos 0)

unfoldable pub get_fatsize16 : Option FatUnit → ℤ
get_fatsize16 none = minus_one
get_fatsize16 (some boot) = pos (get16 boot.data_bytes 0x16)

-- Neither of these two setters marks the unit dirty.
unfoldable pub set_fatsize16 : Option FatUnit → ℤ → Option FatUnit × ℤ
set_fatsize16 none size = (none, minus_one)
set_fatsize16 (some boot) size = (some (store16 boot 0x16 (u16 size)), pos 0)

unfoldable pub get_fatsize32 : Option FatUnit → ℤ
get_fatsize32 none = minus_one
get_fatsize32 (some boot) = i32 (get32 boot.data_bytes 0x24)

unfoldable pub set_fatsize32 : Option FatUnit → ℤ → Option FatUnit × ℤ
set_fatsize32 none size = (none, minus_one)
set_fatsize32 (some boot) size = (some (store32 boot 0x24 (u32 size)), pos 0)

unfoldable pub get_info_pos : FatUnit → ℕ
get_info_pos boot = get16 boot.data_bytes 0x30

unfoldable pub set_info_pos : FatUnit → ℤ → FatUnit × ℤ
set_info_pos boot position = (mark_dirty (store16 boot 0x30 (u16 position)), pos 0)

unfoldable pub get_backup_sector : FatUnit → ℤ
get_backup_sector boot =
    let b = get16 boot.data_bytes 0x32 in if b == 0 || b == 0xffff then minus_one else pos b

unfoldable pub set_backup_sector : Option FatUnit → ℤ → Option FatUnit × ℤ
set_backup_sector none sector = (none, minus_one)
set_backup_sector (some boot) sector =
    if eqb_ℤ sector (pos 0)
      || ltb_ℤ (pos (get_reserved_sectors boot)) sector
      || eqb_ℤ sector (pos (get_info_pos boot))
    then (some boot, minus_one)
    else (some (mark_dirty (store16 boot 0x32 (u16 sector))), pos 0)

unfoldable pub get_media : FatUnit → ℕ
get_media boot = get8 boot.data_bytes 0x15

unfoldable pub set_media : FatUnit → ℕ → FatUnit × ℤ
set_media boot media = (mark_dirty (store8 boot 0x15 media), pos 0)

-- For sectors below 2 bytes the C value is negative, and an access there is out of the array.
unfoldable pub signature_pos : FatUnit → ℕ
signature_pos boot = let b = get_bytes_per_sector boot in (if ltb b 512 then b else 512) - 2

-- NULL ends the program.
unfoldable pub get_boot_signature : FatUnit → Bool
get_boot_signature boot = get16 boot.data_bytes (signature_pos boot) == 0xaa55

unfoldable pub set_boot_signature : Option FatUnit → Option FatUnit × ℤ
set_boot_signature none = (none, minus_one)
set_boot_signature (some boot) =
    (some (mark_dirty (store16 boot (signature_pos boot) 0xaa55)), pos 0)

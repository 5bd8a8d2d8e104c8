-- ===== src/Boot/Info.antt =====
-- lib/boot.c: the information sector of a FAT32 filesystem.
use libllfat.Prelude.{◌&&◌, ◌==◌, if◌then◌else◌, Option, none, some}
use libllfat.Prelude.Int.{ℤ, pos, minus_one, u32, i32, eqb_ℤ}
use libllfat.Bytes.{get16, get32}
use libllfat.Units.{FatUnit, store16, store32, mark_dirty}

unfoldable pub get_info_signatures : Option FatUnit → ℤ
get_info_signatures none = minus_one
get_info_signatures (some info) =
    if get32 info.data_bytes 0x000 == 0x41615252
      && (get32 info.data_bytes 0x1e4 == 0x61417272 && get16 info.data_bytes 0x1fe == 0xaa55)
    then pos 1
    else pos 0

unfoldable pub set_info_signatures : Option FatUnit → Option FatUnit × ℤ
set_info_signatures none = (none, minus_one)
set_info_signatures (some info) = (
  some (
      mark_dirty (store16 (store32 (store32 info 0x000 0x41615252) 0x1e4 0x61417272) 0x1fe 0xaa55)),
  pos 0,
)

unfoldable pub get_last_allocated_cluster : Option FatUnit → ℤ
get_last_allocated_cluster none = minus_one
get_last_allocated_cluster (some info) = i32 (get32 info.data_bytes 0x1ec)

-- A store of the value that is there already is left out, and the unit is not marked.
unfoldable pub set_last_allocated_cluster : Option FatUnit → ℤ → Option FatUnit
set_last_allocated_cluster none last = none
set_last_allocated_cluster (some info) last =
    if eqb_ℤ last (i32 (get32 info.data_bytes 0x1ec))
    then some info
    else some (mark_dirty (store32 info 0x1ec (u32 last)))

unfoldable pub get_free_clusters : Option FatUnit → ℤ
get_free_clusters none = minus_one
get_free_clusters (some info) = i32 (get32 info.data_bytes 0x1e8)

unfoldable pub set_free_clusters : Option FatUnit → ℤ → Option FatUnit
set_free_clusters none last = none
set_free_clusters (some info) last =
    if eqb_ℤ last (i32 (get32 info.data_bytes 0x1e8))
    then some info
    else some (mark_dirty (store32 info 0x1e8 (u32 last)))

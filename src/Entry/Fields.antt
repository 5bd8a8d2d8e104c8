-- ===== src/Entry/Fields.antt =====
-- lib/entry.c: which entries there are, first cluster, attributes, size, deletion.
use libllfat.Prelude.{
  ℕ, ◌+◌, ◌*◌, ◌/◌, ◌%◌, Bool, true, not, ◌&&◌, ◌==◌, ltb, if◌then◌else◌, Option, none, some,
  replicate,
}
use libllfat.Prelude.Int.{ℤ, pos, negsuc, minus_one, eqb_ℤ, i32, u32}
use libllfat.Bytes.{get8, get16, get32}
use libllfat.Units.{FatUnit, store8, store16, store32, store_bytes, mark_dirty}

-- `ENTRYPOS`
unfoldable pub entry_byte : FatUnit → ℕ → ℕ → ℕ
entry_byte directory index p = get8 directory.data_bytes (index * 32 + p)

unfoldable pub entry_exists : FatUnit → ℕ → Bool
entry_exists directory index =
    let c = entry_byte directory index 0 in not (c == 0x00) && not (c == 0xe5)

unfoldable pub entry_end : Option FatUnit → ℕ → Bool
entry_end none index = true
entry_end (some directory) index = entry_byte directory index 0 == 0x00

unfoldable pub get_attributes : FatUnit → ℕ → ℕ
get_attributes directory index = entry_byte directory index 11

unfoldable pub set_attributes : FatUnit → ℕ → ℕ → FatUnit
set_attributes directory index attr = mark_dirty (store8 directory (index * 32 + 11) attr)

-- The mask `FAT_ATTR_ALL` keeps the low six bits; `FAT_ATTR_LONGNAME` is the low four.
unfoldable pub is_long_part : FatUnit → ℕ → Bool
is_long_part directory index = get_attributes directory index % 0x40 == 0x0f

-- The bit `FAT_ATTR_DIR`.
unfoldable pub is_directory : FatUnit → ℕ → Bool
is_directory directory index = get_attributes directory index / 0x10 % 2 == 1

unfoldable pub set_first : FatUnit → ℕ → ℕ → FatUnit
set_first directory index first = mark_dirty (store8 directory (index * 32) first)

unfoldable pub delete : FatUnit → ℕ → FatUnit
delete directory index = set_first directory index 0xe5

unfoldable pub zero_entry : FatUnit → ℕ → FatUnit
zero_entry directory index = mark_dirty (store_bytes directory (index * 32) (replicate 32 0))

-- The high half is stored on FAT32 only.
unfoldable pub get_first_cluster : FatUnit → ℕ → ℤ → ℤ
get_first_cluster directory index bits =
    let low = get16 directory.data_bytes (index * 32 + 26) in
    if eqb_ℤ bits (pos 32)
    then i32 (low + 0x1_0000 * get16 directory.data_bytes (index * 32 + 20))
    else pos low

-- What is stored for a cluster: of `FAT_ROOT`, which is 1, it is 0.
unfoldable pub stored_cluster : ℤ → ℤ → ℕ
stored_cluster bits n =
    let masked = if eqb_ℤ bits (pos 12) then u32 n % 0x1000 else u32 n in
    if masked == 1 then 0 else masked

unfoldable pub set_first_cluster : FatUnit → ℤ → ℤ → ℤ → FatUnit × ℤ
set_first_cluster directory (negsuc i) bits n = (directory, minus_one)
set_first_cluster directory (pos index) bits n =
    let value = stored_cluster bits n in
    let low = store16 directory (index * 32 + 26) value in
    if ltb directory.size (index * 32) then (directory, minus_one) else (
      mark_dirty
          (if eqb_ℤ bits (pos 32) then store16 low (index * 32 + 20) (value / 0x1_0000) else low),
      pos 0,
    )

unfoldable pub get_size : FatUnit → ℕ → ℕ
get_size directory index = get32 directory.data_bytes (index * 32 + 0x1c)

unfoldable pub set_size : FatUnit → ℕ → ℕ → FatUnit
set_size directory index size = mark_dirty (store32 directory (index * 32 + 0x1c) size)

-- ===== src/Boot/Root.antt =====
-- lib/boot.c: the root directory, and the functions that relate the sizes to one another.

use libllfat.Prelude.{
  ◌+◌, ◌-◌, ◌*◌, ◌%◌, Bool, not, ◌&&◌, ◌||◌, leb, ◌==◌, if◌then◌else◌, Option, none, some,
}
use libllfat.Prelude.Int.{
  ℤ, pos, negsuc, pos_part, neg_part, minus_one, u16, u32, i32, eqb_ℤ, ◌+ℤ◌, ◌*ℤ◌, div_ℤ,
}
use libllfat.Bytes.{get32}
use libllfat.Units.{FatUnit, store16, store32, mark_dirty}
use libllfat.Boot.Fields.{
  get_bytes_per_sector, get_sectors_per_cluster, get_reserved_sectors, get_num_fats,
  bytes_per_cluster,
}
use libllfat.Boot.Size.{
  B, pure, lift, ◌>>=◌, known_bits, boot_bits, get_fatsize, get_root_entries, get_num_sectors,
  division,
}

-- `FAT_ROOT`, `FAT_ERR` of lib/table.h.
abbrev pub fat_root : ℤ
fat_root = pos 1

abbrev pub fat_err : ℤ
fat_err = negsuc 999

abbrev pub is_12_or_16 : ℤ → Bool
is_12_or_16 b = eqb_ℤ b (pos 12) || eqb_ℤ b (pos 16)

unfoldable pub get_root_begin : FatUnit → B ℤ
get_root_begin boot = do
  b ← known_bits boot
  pure (
      if is_12_or_16 b
      then fat_root
      else if eqb_ℤ b (pos 32)
      then i32 (get32 boot.data_bytes 0x2c)
      else fat_err)

unfoldable pub set_root_begin : FatUnit → ℤ → B (FatUnit × ℤ)
set_root_begin boot num = do
  b ← known_bits boot
  pure (
      if is_12_or_16 b
      then (boot, minus_one)
      else if eqb_ℤ b (pos 32)
      then (mark_dirty (store32 boot 0x2c (u32 num)), pos 0)
      else (boot, minus_one))

-- The remainder of a negative number is zero exactly when that of its absolute value is.
unfoldable pub set_root_entries : Option FatUnit → ℤ → B (Option FatUnit × ℤ)
set_root_entries none entries = pure (none, minus_one)
set_root_entries (some boot) entries =
    if bytes_per_cluster boot == 0
    then lift none
    else if (pos_part entries + neg_part entries) * 32 % bytes_per_cluster boot == 0
    then (do
      b ← known_bits boot
      let v = if eqb_ℤ b (pos 32) then 0 else u16 entries
      pure (some (mark_dirty (store16 boot 0x11 v)), pos 0))
    else pure (some boot, negsuc 1)

-- Sums are taken in `uint32_t`.
unfoldable pub consistent_size : FatUnit → B Bool
consistent_size boot = do
  fatsize ← get_fatsize (some boot)
  entries ← get_root_entries boot
  root ← lift (division (entries * 32) (get_bytes_per_sector boot))
  b ← known_bits boot
  sectors ← get_num_sectors boot
  let clusters = get_sectors_per_cluster boot * (if eqb_ℤ b (pos 32) then 2 else 1)
  let fats = u32 (fatsize *ℤ get_num_fats boot)
  let total = (get_reserved_sectors boot + fats + root + clusters) % 0x1_0000_0000
  pure (leb total sectors)

-- `_fatbootnumclusters`, in `uint32_t` up to the division.
unfoldable pub num_clusters : FatUnit → B ℤ
num_clusters boot = do
  sectors ← get_num_sectors boot
  fatsize ← get_fatsize (some boot)
  let fats = u32 (get_num_fats boot *ℤ fatsize)
  let rest = (sectors + 0x2_0000_0000 - get_reserved_sectors boot - fats) % 0x1_0000_0000
  q ← lift (division rest (get_sectors_per_cluster boot))
  pure (i32 q)

-- The bytes of a table of `nentries` entries of `bits` bits.
unfoldable pub table_bytes : ℤ → ℤ → ℤ
table_bytes bits nentries =
    div_ℤ (nentries *ℤ bits) 8
    +ℤ pos (if eqb_ℤ bits (pos 12) && not (u32 nentries % 2 == 0) then 1 else 0)

-- `nclusters` is an `int32_t`; the sums are `long long`, which they do not overflow, and the result is
-- cut to `int`.
unfoldable pub min_fatsize : FatUnit → ℤ → Option ℤ
min_fatsize boot nclusters =
    let bps = get_bytes_per_sector boot in
    elim (boot_bits boot) [
      | none ↦ none
      | some bits ↦
          if bps == 0
          then none
          else some (i32 (u32 (div_ℤ (table_bytes bits (pos 2 +ℤ nclusters) +ℤ pos (bps - 1)) bps)))
    ]

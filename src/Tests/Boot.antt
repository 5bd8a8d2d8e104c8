-- ===== src/Tests/Boot.antt =====
-- The theorems on lib/boot.c at a boot sector with a FAT of 16 bits.
use libllfat.Prelude.{
  ℕ, ◌+◌, ◌*◌, ◌<◌, ◌≤◌, ◌≡◌, ◌≢◌, ◌↔◌, refl, arith, true, false, some, [], ◌∷◌, ◌++◌, replicate,
  inl, inr,
}
use libllfat.Prelude.Int.{pos, minus_one, ◌*ℤ◌}
use libllfat.Bytes.{Bytes, get8, get16, get32}
use libllfat.Units.{FatUnit}
use libllfat.Boot.Fields.{
  get_bytes_per_sector, get_sectors_per_cluster, get_reserved_sectors, get_num_fats,
  bits_from_clusters, get_fatsize16, get_fatsize32, get_info_pos,
}
use libllfat.Boot.Size.{
  boot_bits, data_clusters_of, num_sectors_any, fatsize_any, root_entries_any, root_sectors_of,
  conditional_minus, division,
}
use libllfat.Boot.Root.{min_fatsize}
use libllfat.Boot.Layout.{IsRegular, overhead, data_clusters_of-exact}
use libllfat.Boot.MinSize.{IsLeast, min_fatsize-IsLeast}
use libllfat.Boot.RoundTrip.{IsSector}
use libllfat.Tests.Host.{all_bytes, all_bytes-IsBytes}

-- 512 bytes per sector, 4 sectors per cluster, 3 reserved sectors, 2 tables of 20 sectors, 512
-- root entries, 20000 sectors.
abbrev header : Bytes
header =
    0xeb ∷ 0x3c ∷ 0x90 ∷ replicate 8 0x20
    ++ (0 ∷ 2 ∷ 4 ∷ 3 ∷ 0 ∷ 2 ∷ 0 ∷ 2 ∷ 0x20 ∷ 0x4e ∷ 0xf8 ∷ 20 ∷ 0 ∷ [])

abbrev boot : FatUnit
boot = record {
  fd = pos 3;
  n = 0;
  size = 512;
  origin = 0;
  loaded = true;
  data_bytes = header ++ replicate 488 0;
  error = 0;
  dirty = false;
  refer = 1;
}

boot-IsSector : IsSector boot
unfolding all_bytes
boot-IsSector = record { bytes = all_bytes-IsBytes boot.data_bytes refl; wide = omega arith }

boot-IsRegular : IsRegular boot 2 20000 20
unfolding get_bytes_per_sector get_sectors_per_cluster get_num_fats get8 get16
boot-IsRegular = record {
  bytes = omega arith;
  per_cluster = omega arith;
  fats = refl;
  tables = omega arith;
  sectors_fit = omega arith;
}

boot_16 : boot_bits boot ≡ some (pos 16)
unfolding boot_bits get_bytes_per_sector get_sectors_per_cluster get_num_fats get_reserved_sectors
    get8 get16 get32 get_fatsize16 get_fatsize32 num_sectors_any fatsize_any root_entries_any
    data_clusters_of root_sectors_of conditional_minus division bits_from_clusters ◌*ℤ◌
boot_16 = refl

-- Of 19927 sectors behind the root directory, 4981 clusters are made.
data_clusters_of-exact_example :
    ((c : ℕ)
      → (data_clusters_of boot 20000 (pos 20) 512 ≡ some (pos c))
        ↔ (overhead boot 2 20 512 + c * get_sectors_per_cluster boot ≤ 20000)
          × (20000
              < overhead boot 2 20 512
                + c * get_sectors_per_cluster boot
                + get_sectors_per_cluster boot))
    × ((data_clusters_of boot 20000 (pos 20) 512 ≡ some minus_one)
        ↔ (20000 < overhead boot 2 20 512))
data_clusters_of-exact_example = data_clusters_of-exact boot 2 20000 20 512 boot-IsRegular

positive_size : 8 ≤ get_bytes_per_sector boot
unfolding get_bytes_per_sector get8 get16
positive_size = omega arith

min_fatsize-IsLeast_example :
    (s : ℕ) × (min_fatsize boot (pos 4981) ≡ some (pos s))
    × IsLeast s (get_bytes_per_sector boot * 8) ((2 + 4981) * 16)
min_fatsize-IsLeast_example =
    min_fatsize-IsLeast boot 16 4981 boot_16 (inr (inl refl)) positive_size (omega arith)

reserved_enough : 3 ≤ get_reserved_sectors boot
unfolding get_reserved_sectors get8 get16
reserved_enough = omega arith

info_elsewhere : 3 ≢ get_info_pos boot
unfolding get_info_pos get8 get16
info_elsewhere = ground arith

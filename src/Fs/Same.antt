-- ===== src/Fs/Same.antt =====
-- lib/boot.c: the getters of the boot sector and of the information sector read the bytes alone.
use libllfat.Prelude.{◌≡◌, ap, some}
use libllfat.Prelude.Int.{pos}
use libllfat.Bytes.{Bytes, get16}
use libllfat.Units.{FatUnit}
use libllfat.Boot.Fields
use libllfat.Boot.Size
use libllfat.Boot.Info

module _ (u w : FatUnit) (e : u.data_bytes ≡ w.data_bytes) where
  abbrev with_bytes : Bytes → FatUnit
  with_bytes d = record w { data_bytes = d }

  pub same-boot_bits : Size.boot_bits u ≡ Size.boot_bits w
  unfolding Size.boot_bits Fields.get_bytes_per_sector Fields.get_sectors_per_cluster
      Size.data_clusters_of Size.num_sectors_any Size.fatsize_any Size.root_entries_any
      Size.root_sectors_of Fields.get_num_fats Fields.get_fatsize16 Fields.get_fatsize32
      Fields.get_reserved_sectors
  same-boot_bits = ap (λ (d : Bytes). Size.boot_bits (with_bytes d)) e

  pub same-num_data_clusters :
      Size.num_data_clusters u (some (pos 32)) ≡ Size.num_data_clusters w (some (pos 32))
  unfolding Size.num_data_clusters Size.get_num_sectors Size.get_fatsize Size.get_root_entries
      Size.known_bits Fields.get_bytes_per_sector Fields.get_sectors_per_cluster
      Size.data_clusters_of Size.num_sectors_any Size.fatsize_any Size.root_entries_any
      Size.root_sectors_of Fields.get_num_fats Fields.get_fatsize16 Fields.get_fatsize32
      Fields.get_reserved_sectors
  same-num_data_clusters =
      ap (λ (d : Bytes). Size.num_data_clusters (with_bytes d) (some (pos 32))) e

  pub same-get_info_pos : Fields.get_info_pos u ≡ Fields.get_info_pos w
  unfolding Fields.get_info_pos
  same-get_info_pos = ap (λ (d : Bytes). get16 d 0x30) e

  pub same-get_bytes_per_sector : Fields.get_bytes_per_sector u ≡ Fields.get_bytes_per_sector w
  unfolding Fields.get_bytes_per_sector
  same-get_bytes_per_sector = ap (λ (d : Bytes). get16 d 0x0b) e

  pub same-info :
      (Info.get_info_signatures (some u) ≡ Info.get_info_signatures (some w))
      × (Info.get_last_allocated_cluster (some u) ≡ Info.get_last_allocated_cluster (some w))
      × (Info.get_free_clusters (some u) ≡ Info.get_free_clusters (some w))
  unfolding Info.get_info_signatures Info.get_last_allocated_cluster Info.get_free_clusters
  same-info = (
    ap (λ (d : Bytes). Info.get_info_signatures (some (with_bytes d))) e,
    ap (λ (d : Bytes). Info.get_last_allocated_cluster (some (with_bytes d))) e,
    ap (λ (d : Bytes). Info.get_free_clusters (some (with_bytes d))) e,
  )

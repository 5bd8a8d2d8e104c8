-- ===== src/Boot/Layout.antt =====
-- `fatbootnumdataclusters` and `fatbootminfatsize` against the layout of the filesystem: reserved
-- sectors, tables, root directory, clusters.
use libllfat.Prelude.{ℕ, ◌+◌, ◌-◌, ◌*◌, ◌/◌, ◌<◌, ◌≤◌, ◌≡◌, ◌↔◌, arith, ltb, some, if◌then◌else◌}
use libllfat.Prelude.Int.{ℤ, pos, minus_one, i32, pos-*ℤ}
use native.Mathlib.Nat.{div-le_self}
use libllfat.Prelude.Division.{quotient_iff}
use libllfat.Units.{FatUnit}
use libllfat.Boot.Fields.{
  get_bytes_per_sector, get_sectors_per_cluster, get_reserved_sectors, get_num_fats,
}
use libllfat.Boot.Size.{data_clusters_of, root_sectors_of, conditional_minus, division}

-- A boot sector with no zero size, and tables whose total size fits 32 bits.
pub record IsRegular (boot : FatUnit) (nfats sectors fatsize : ℕ) : Type 0 where
  pub bytes : 0 < get_bytes_per_sector boot
  pub per_cluster : 0 < get_sectors_per_cluster boot
  pub fats : get_num_fats boot ≡ pos nfats
  pub tables : nfats * fatsize < 0x1_0000_0000
  pub sectors_fit : sectors < 0x8000_0000

-- The sectors that hold the root directory: its 32-byte entries, rounded up.
abbrev pub root_size : FatUnit → ℕ → ℕ
root_size boot entries =
    (entries * 32 + (get_bytes_per_sector boot - 1)) / get_bytes_per_sector boot

abbrev pub overhead : FatUnit → ℕ → ℕ → ℕ → ℕ
overhead boot nfats fatsize entries =
    get_reserved_sectors boot + nfats * fatsize + root_size boot entries

module _ (boot : FatUnit) (nfats sectors fatsize entries : ℕ)
    (regular : IsRegular boot nfats sectors fatsize) where
  clusters_from : ℕ → ℤ
  clusters_from rest = i32 (rest / get_sectors_per_cluster boot)

  data_clusters_lem : data_clusters_of boot sectors (pos fatsize) entries ≡ (
      if ltb sectors (overhead boot nfats fatsize entries)
      then some minus_one
      else some (clusters_from (sectors - overhead boot nfats fatsize entries)))
  unfolding data_clusters_of conditional_minus root_sectors_of division clusters_from
  data_clusters_lem = ground (
    arith,
    regular.bytes,
    regular.per_cluster,
    regular.fats,
    regular.tables,
    regular.sectors_fit,
    pos-*ℤ nfats fatsize,
  )

  -- The quotient is small enough to be an `int32_t`.
  small :
      (sectors - overhead boot nfats fatsize entries) / get_sectors_per_cluster boot < 0x8000_0000
  small = ground (
    arith,
    regular.sectors_fit,
    regular.per_cluster,
    div-le_self (sectors - overhead boot nfats fatsize entries) (get_sectors_per_cluster boot),
  )

  -- On a boot sector with no zero size, less than 2^31 sectors, a number of tables that is not
  -- negative, and tables that together fit 32 bits, fatbootnumdataclusters returns c exactly when
  -- the reserved sectors, the tables, the root directory and c clusters fit and one more cluster
  -- does not, and -1 exactly when the part before the clusters does not fit.
  pub data_clusters_of-exact :
      ((c : ℕ)
        → (data_clusters_of boot sectors (pos fatsize) entries ≡ some (pos c))
          ↔ (overhead boot nfats fatsize entries + c * get_sectors_per_cluster boot ≤ sectors)
            × (sectors
                < overhead boot nfats fatsize entries
                  + c * get_sectors_per_cluster boot
                  + get_sectors_per_cluster boot))
      × ((data_clusters_of boot sectors (pos fatsize) entries ≡ some minus_one)
          ↔ (sectors < overhead boot nfats fatsize entries))
  unfolding clusters_from
  data_clusters_of-exact = (
    λ c.
        let q =
          quotient_iff (sectors - overhead boot nfats fatsize entries)
            (get_sectors_per_cluster boot) c regular.per_cluster in
        (
          ground (arith, data_clusters_lem, regular.sectors_fit, q, small),
          ground (arith, data_clusters_lem, regular.sectors_fit, q, small),
        ),
    (ground (arith, data_clusters_lem, small), ground (arith, data_clusters_lem)),
  )

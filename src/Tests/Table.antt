-- ===== src/Tests/Table.antt =====
-- The theorems on lib/table.c at a FAT of 12 bits in sectors of 4 bytes, where entries lie across
-- two sectors.
use libllfat.Prelude.{
  ◌%◌, ◌+◌, ℕ, zero, suc, ◌<◌, ◌≤◌, ◌≡◌, ◌≢◌, refl, arith, true, false, none, some, [], ◌∷◌, ◌++◌,
  replicate, inl,
}
use libllfat.Prelude.Int.{ℤ, pos, minus_one, ◌*ℤ◌, ◌+ℤ◌}
use libllfat.Bytes.{Bytes, get8, get16, get32}
use libllfat.Units.{FatUnit}
use libllfat.Boot.Fields.{
  get_bytes_per_sector, get_sectors_per_cluster, get_reserved_sectors, get_num_fats, get_fatsize16,
  get_fatsize32,
}
use libllfat.Boot.Size.{
  known_bits, data_clusters_of, num_sectors_any, root_sectors_of, conditional_minus, division,
  get_num_sectors, get_fatsize, num_data_clusters, last_cluster, get_root_entries, root_entries_any,
  fatsize_any,
}
use libllfat.Fs.State.{Fat}
use libllfat.Fs.Geometry
use libllfat.Table.Raw.{entry_offset, extract12, get_fat_entry, set_fat_entry}
use libllfat.Table.Sectors.{sector_bytes, IsCached, Change}
use libllfat.Table.Place.{Layout, Fits, IsReady}
use libllfat.Table.Entries.{get_fat_entry-set}
use libllfat.Table.Next.{classify, is_fat_bad, is_fat_eof, get_next_cluster, set_next_cluster}
use libllfat.Table.Chains.{Uses, get_next_cluster-set}
use libllfat.Table.Scan.{num_free_between}
use libllfat.Table.Flat.{flat}
use libllfat.Table.Read.{entry_of, entry_at}
use libllfat.Table.View.{View, Uses-View, successors}
use libllfat.Table.Position.{cluster_position, sector_position}
use libllfat.Table.Sites.{IsSized, sector_position-cluster_position}
use libllfat.Table.Count.{num_free_between-count, free_between, free_in}
use libllfat.Tests.Host.{list_host, tfind, all_bytes, all_bytes-IsBytes}

-- 4 bytes per sector, 1 sector per cluster, 1 reserved sector, 1 table of 3 sectors, 10 sectors.
abbrev pub header : Bytes
header = replicate 11 0 ++ (4 ∷ 0 ∷ 1 ∷ 1 ∷ 0 ∷ 1 ∷ 0 ∷ 0 ∷ 10 ∷ 0 ∷ 0xf8 ∷ 3 ∷ 0 ∷ replicate 40 0)

abbrev pub sector : ℕ → Bytes → FatUnit
sector n bytes = record {
  fd = pos 3;
  n = n;
  size = 4;
  origin = 0;
  loaded = true;
  data_bytes = bytes;
  error = 0;
  dirty = false;
  refer = 0;
}

-- The clusters 2, 3 and 4 form a chain; 5 to 7 are free.
abbrev pub table_1 : FatUnit
table_1 = sector 1 (0xf8 ∷ 0xff ∷ 0xff ∷ 0x03 ∷ [])

abbrev pub table_2 : FatUnit
table_2 = sector 2 (0x40 ∷ 0x00 ∷ 0xff ∷ 0x0f ∷ [])

abbrev pub table_3 : FatUnit
table_3 = sector 3 (0 ∷ 0 ∷ 0 ∷ 0 ∷ [])

abbrev pub fs : Fat list_host
fs = record {
  fd = pos 3;
  offset = 0;
  bits = pos 12;
  nfat = pos 0;
  insensitive = false;
  boot = sector 0 header;
  info = none;
  sectors = table_1 ∷ table_2 ∷ table_3 ∷ [];
  clusters = [];
  last = pos 0;
  free = minus_one;
  disk = λ at. 0;
}

abbrev pub layout : Layout
layout = record {
  bits = 12;
  bps = 4;
  reserved = 1;
  size = 3;
  count = 1;
  width = inl refl;
  pos_bps = omega arith;
  aligned = refl;
  limited = omega arith;
}

pub IsCached-at : (k : ℕ) → 1 ≤ k → k < 4 → IsCached 4 fs k
unfolding tfind all_bytes
IsCached-at zero lo hi = absurd (omega arith)
IsCached-at (suc zero) lo hi = record {
  u = table_1;
  found = refl;
  loaded = refl;
  whole = refl;
  bytes = all_bytes-IsBytes table_1.data_bytes refl;
}
IsCached-at (suc (suc zero)) lo hi = record {
  u = table_2;
  found = refl;
  loaded = refl;
  whole = refl;
  bytes = all_bytes-IsBytes table_2.data_bytes refl;
}
IsCached-at (suc (suc (suc zero))) lo hi = record {
  u = table_3;
  found = refl;
  loaded = refl;
  whole = refl;
  bytes = all_bytes-IsBytes table_3.data_bytes refl;
}
IsCached-at (suc (suc (suc (suc k)))) lo hi = absurd (omega arith)

fs-IsReady : IsReady layout fs
unfolding Geometry.get_bytes_per_sector Geometry.get_reserved_sectors Geometry.get_num_fats
    get_bytes_per_sector get_reserved_sectors get_num_fats get8 get16 get_fatsize get_fatsize16
    known_bits
fs-IsReady = record {
  bits = refl;
  bps = refl;
  reserved = refl;
  count = refl;
  size = refl;
  cached = IsCached-at;
}

pub fs-Uses : Uses layout 0 7 fs
unfolding last_cluster num_data_clusters data_clusters_of get_num_sectors get_fatsize get_fatsize16
    get_fatsize32 get_root_entries root_sectors_of conditional_minus division known_bits
    get_bytes_per_sector get_sectors_per_cluster get_reserved_sectors get_num_fats num_sectors_any
    root_entries_any fatsize_any get8 get16 get32 ◌*ℤ◌ ◌+ℤ◌
fs-Uses = record {
  ready = fs-IsReady;
  table = refl;
  exists = omega arith;
  last_is = refl;
  small = omega arith;
}

pub all_fit : (m : ℕ) → m ≤ 7 → Fits layout m
unfolding entry_offset
all_fit m h = ground arith

-- The entry of cluster 2 lies in the first and in the second sector of the table.
get_fat_entry-set_example :
    (f' : Fat list_host) × (set_fat_entry [] (pos 0) 2 0xabc fs ≡ some (pos 0, f'))
    × IsReady layout f'
    × Change 4 fs f'
    × (get_fat_entry [] (pos 0) 2 f' ≡ some (pos 0xabc, f'))
    × ((m : ℕ)
        → Fits layout m
        → m ≢ 2
        → (v : ℕ) × (get_fat_entry [] (pos 0) m fs ≡ some (pos v, fs))
          × (get_fat_entry [] (pos 0) m f' ≡ some (pos v, f')))
get_fat_entry-set_example =
    get_fat_entry-set [] layout fs 0 2 0xabc fs-IsReady (omega arith) (all_fit 2 (omega arith))
      (omega arith)

get_next_cluster-set_example :
    (f' : Fat list_host) × (set_next_cluster [] (pos 2) (pos 7) fs ≡ some (pos 0, f'))
    × Uses layout 0 7 f'
    × (get_next_cluster [] (pos 2) f' ≡ some (pos 7, f'))
    × ((m : ℕ)
        → 2 ≤ m
        → m ≤ 7
        → Fits layout m
        → m ≢ 2
        → (v : ℤ) × (get_next_cluster [] (pos m) fs ≡ some (v, fs))
          × (get_next_cluster [] (pos m) f' ≡ some (v, f')))
get_next_cluster-set_example =
    get_next_cluster-set [] layout 0 7 fs 2 (pos 7) fs-Uses (omega arith) (omega arith)
      (all_fit 2 (omega arith)) (inl (7, refl, omega arith))

pub fs-View : View [] 7 (successors layout 0 7 fs) fs
fs-View = Uses-View [] layout 0 7 fs fs-Uses all_fit

-- From cluster 6 round the end to cluster 3 there are two free clusters, 6 and 7.
num_free_between-count_example : num_free_between [] 6 3 fs ≡ some (2, fs)
unfolding free_between free_in successors classify is_fat_bad is_fat_eof entry_of entry_at flat
    sector_bytes tfind get8 extract12 entry_offset
num_free_between-count_example =
    num_free_between-count [] 7 (successors layout 0 7 fs) fs fs-View 6 3 (omega arith)
      (omega arith) (omega arith) (omega arith)

fs-IsSized : IsSized 4 1 1 3 0 1 fs
unfolding Geometry.get_bytes_per_sector Geometry.get_reserved_sectors Geometry.get_num_fats
    Geometry.get_sectors_per_cluster Geometry.get_fatsize Geometry.get_root_entries
    Geometry.with_bits get_bytes_per_sector get_sectors_per_cluster get_reserved_sectors
    get_num_fats get8 get16 get_fatsize get_fatsize16 get_root_entries known_bits root_entries_any
fs-IsSized = record {
  bytes = refl;
  sectors = refl;
  reserved_is = refl;
  fats = refl;
  size_is = refl;
  entries_is = refl;
  pos_bps = omega arith;
  pos_per = omega arith;
  whole = refl;
}

-- Cluster 6 is sector 8.
sector_position-cluster_position_example :
    (origin : ℕ) × (cluster_position (pos 6) fs ≡ some ((origin, 4), fs))
    × ((origin + 24) % 0x1_0000_0000_0000_0000 ≡ 32)
    × ((k : ℕ) → k < 1 → sector_position (8 + k) fs ≡ some (pos 6, fs))
sector_position-cluster_position_example =
    sector_position-cluster_position 4 1 1 3 0 1 fs 4 fs-IsSized (omega arith) (omega arith)

-- ===== src/Tests/Walk.antt =====
-- A directory of two clusters, 3 and 4, in the FAT of 12 bits of the tests of the table.
use libllfat.Prelude.{ℕ, ◌≡◌, refl, arith, false, Option, none, some, [], ◌∷◌, ◌++◌, replicate}
use libllfat.Prelude.Int.{pos, ◌+ℤ◌, ◌-ℤ◌, ◌*ℤ◌}
use libllfat.Bytes.{Bytes, get8, get16, read_bytes}
use libllfat.Units.{FatUnit}
use libllfat.Boot.Fields.{
  get_bytes_per_sector, get_sectors_per_cluster, get_reserved_sectors, get_num_fats, get_fatsize16,
}
use libllfat.Boot.Size.{known_bits, get_fatsize, get_root_entries, root_entries_any}
use libllfat.Fs.State.{Fat}
use libllfat.Fs.Geometry
use libllfat.Entry.Fields.{entry_byte, entry_end}
use libllfat.Entry.Names.{get_short_name, short_to_string, trim, until_nul, same_string}
use libllfat.Table.Position.{cluster_position}
use libllfat.Table.Succ.{Represents}
use libllfat.Table.Frame.{with_clusters, Represents-frame}
use libllfat.Reference.Renames.{IsHeld}
use libllfat.Directory.Walk.{lookup_file, fat_cmp}
use libllfat.Directory.Found.{lookup_file-first}
use libllfat.Tests.Host.{list_host, tfind}
use libllfat.Tests.Table.{fs, layout, sector}
use libllfat.Tests.Reference.{v, fs-Represents, place}

-- An entry of a name of one letter.
abbrev pub entry_of : ℕ → Bytes
entry_of c = c ∷ replicate 10 b' ' ++ replicate 21 0

abbrev pub three : FatUnit
three = record (sector 3 (entry_of b'A' ++ entry_of b'B')) { size = 64 }

-- Behind the entry of C the directory ends; what follows is no entry.
abbrev pub four : FatUnit
four = record (sector 4 (entry_of b'C' ++ (replicate 32 0 ++ entry_of b'D'))) { size = 96 }

abbrev pub dirs : Fat list_host
dirs = with_clusters fs (three ∷ four ∷ []) fs.disk

pub dirs-Represents : Represents [] layout 0 7 v dirs
dirs-Represents = Represents-frame [] layout 0 7 v fs fs-Represents dirs.clusters fs.disk

pub placed_3 : cluster_position (pos 3) dirs ≡ some (place, dirs)
unfolding cluster_position Geometry.get_bytes_per_sector Geometry.get_reserved_sectors
    Geometry.get_num_fats Geometry.get_sectors_per_cluster Geometry.get_fatsize
    Geometry.get_root_entries Geometry.with_bits get_bytes_per_sector get_sectors_per_cluster
    get_reserved_sectors get_num_fats get8 get16 get_fatsize get_fatsize16 get_root_entries
    known_bits root_entries_any ◌+ℤ◌ ◌-ℤ◌ ◌*ℤ◌
placed_3 = refl

pub placed_4 : cluster_position (pos 4) dirs ≡ some (place, dirs)
unfolding cluster_position Geometry.get_bytes_per_sector Geometry.get_reserved_sectors
    Geometry.get_num_fats Geometry.get_sectors_per_cluster Geometry.get_fatsize
    Geometry.get_root_entries Geometry.with_bits get_bytes_per_sector get_sectors_per_cluster
    get_reserved_sectors get_num_fats get8 get16 get_fatsize get_fatsize16 get_root_entries
    known_bits root_entries_any ◌+ℤ◌ ◌-ℤ◌ ◌*ℤ◌
placed_4 = refl

found_3 : tfind 3 dirs.clusters ≡ some three
unfolding tfind
found_3 = refl

found_4 : tfind 4 dirs.clusters ≡ some four
unfolding tfind
found_4 = refl

abbrev held_3 : IsHeld dirs 3
held_3 = record { u = three; found = found_3; loaded = refl; place = place; placed = placed_3 }

abbrev held_4 : IsHeld dirs 4
held_4 = record { u = four; found = found_4; loaded = refl; place = place; placed = placed_4 }

abbrev pub no_position : Bytes → Option (ℕ × ℕ)
no_position name = none

-- The file C is the first entry of cluster 4.
lookup_file-first_example :
    lookup_file [] same_string false no_position 6 3 (b'C' ∷ []) dirs
    ≡ some (some (some 4, 0), dirs)
unfolding fat_cmp get_short_name short_to_string trim until_nul same_string read_bytes get8
    entry_byte entry_end
lookup_file-first_example =
    lookup_file-first [] v dirs same_string false (b'C' ∷ []) no_position 6 three (four ∷ []) refl
      (held_3, refl, omega arith, dirs-Represents.reads 3 (omega arith) (omega arith))
      (
        refl,
        omega arith,
        (held_4, refl, omega arith, dirs-Represents.reads 4 (omega arith) (omega arith)),
        refl,
      )
      (omega arith)

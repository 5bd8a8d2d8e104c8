-- ===== src/Tests/Dirty.antt =====
-- The theorem on the dirty bits of a table at a FAT of 16 bits.
use libllfat.Prelude.{ℕ, ◌%◌, ◌/◌, ◌^◌, ◌≡◌, ◌≢◌, refl, arith, some, [], inl, inr}
use libllfat.Prelude.Int.{pos}
use libllfat.Bytes.{get8, get16}
use libllfat.Boot.Fields
use libllfat.Boot.Size
use libllfat.Fs.State.{Fat}
use libllfat.Fs.Geometry
use libllfat.Table.Raw.{entry_offset, get_fat_entry}
use libllfat.Table.Sectors.{Change}
use libllfat.Table.Place.{Layout, Fits, IsReady}
use libllfat.Table.DirtyBits.{get_fat_dirty_bits, set_fat_dirty_bits}
use libllfat.Table.DirtyTrip.{get_fat_dirty_bits-set}
use libllfat.Tests.Host.{list_host}
use libllfat.Tests.Table.{fs, IsCached-at}

abbrev fs_16 : Fat list_host
fs_16 = record fs { bits = pos 16 }

abbrev layout_16 : Layout
layout_16 = record {
  bits = 16;
  bps = 4;
  reserved = 1;
  size = 3;
  count = 1;
  width = inr (inl refl);
  pos_bps = omega arith;
  aligned = refl;
  limited = omega arith;
}

fs_16-IsReady : IsReady layout_16 fs_16
unfolding Geometry.get_bytes_per_sector Geometry.get_reserved_sectors Geometry.get_num_fats
    Fields.get_bytes_per_sector Fields.get_reserved_sectors Fields.get_num_fats get8 get16
    Size.get_fatsize Fields.get_fatsize16 Size.known_bits
fs_16-IsReady = record {
  bits = refl;
  bps = refl;
  reserved = refl;
  count = refl;
  size = refl;
  cached = λ k lo hi.
      let c = IsCached-at k lo hi in
      record { u = c.u; found = c.found; loaded = c.loaded; whole = c.whole; bytes = c.bytes };
}

get_fat_dirty_bits-set_example :
    (f' : Fat list_host) × (set_fat_dirty_bits [] (pos 0) 2 fs_16 ≡ some (pos 0, f'))
    × Change 4 fs_16 f'
    × (get_fat_dirty_bits [] (pos 0) f' ≡ some (pos 2, f'))
    × ((v : ℕ) × (v' : ℕ) × (get_fat_entry [] (pos 0) 1 fs_16 ≡ some (pos v, fs_16))
        × (get_fat_entry [] (pos 0) 1 f' ≡ some (pos v', f'))
        × (v' % 2 ^ 14 ≡ v % 2 ^ 14)
        × (v' / 2 ^ 14 / 4 ≡ v / 2 ^ 14 / 4))
    × ((m : ℕ)
        → Fits layout_16 m
        → m ≢ 1
        → (v : ℕ) × (get_fat_entry [] (pos 0) m fs_16 ≡ some (pos v, fs_16))
          × (get_fat_entry [] (pos 0) m f' ≡ some (pos v, f')))
unfolding entry_offset
get_fat_dirty_bits-set_example =
    get_fat_dirty_bits-set [] layout_16 fs_16 0 2 14 fs_16-IsReady (omega arith) (ground arith)
      (omega arith) (inl (refl, refl))

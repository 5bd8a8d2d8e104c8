-- ===== src/Tests/Reference.antt =====
-- Moving and swapping clusters of the FAT of 12 bits in the tests of the table.
use libllfat.Prelude.{
  ℕ, zero, suc, ◌≡◌, ◌≤◌, refl, ap, ◌∙◌, arith, false, ◌==◌, if◌then◌else◌, none, some, [], ◌∷◌,
  inl,
}
use libllfat.Prelude.Int.{ℤ, pos, ◌+ℤ◌, ◌-ℤ◌, ◌*ℤ◌}
use libllfat.Bytes.{get8, get16}
use libllfat.Units.{FatUnit, mark_dirty}
use libllfat.Boot.Fields.{
  get_bytes_per_sector, get_sectors_per_cluster, get_reserved_sectors, get_num_fats, get_fatsize16,
}
use libllfat.Boot.Size.{known_bits, get_fatsize, get_root_entries, root_entries_any}
use libllfat.Fs.State.{Fat}
use libllfat.Fs.Geometry
use libllfat.Table.Raw.{entry_offset, extract12}
use libllfat.Table.Sectors.{sector_bytes}
use libllfat.Table.Flat.{flat}
use libllfat.Table.Read.{entry_of, entry_at}
use libllfat.Table.Next.{fat_eof, classify, is_fat_bad, is_fat_eof}
use libllfat.Table.View.{View, successors, with_last}
use libllfat.Table.Position.{cluster_position}
use libllfat.Table.Succ.{Represents}
use libllfat.Table.Frame.{with_clusters, Represents-frame, Represents-ext}
use libllfat.Reference.Target.{chain}
use libllfat.Reference.Move.{cluster_move}
use libllfat.Reference.Renames.{IsHeld, renamed}
use libllfat.Reference.Moved.{IsMovable, cluster_move-renamed}
use libllfat.Tests.Host.{list_host, tfind}
use libllfat.Tests.Table.{fs, layout, fs-Uses, all_fit, fs-View, sector}

-- The successors: 2, 3, 4 and the end.
abbrev pub v : ℕ → ℤ
v m = if m == 2 then pos 3 else if m == 3 then pos 4 else if m == 4 then fat_eof else pos 0

same : (m : ℕ) → 2 ≤ m → m ≤ 7 → successors layout 0 7 fs m ≡ v m
unfolding successors classify is_fat_bad is_fat_eof entry_of entry_at flat sector_bytes tfind get8
    extract12 entry_offset
same zero lo hi = absurd (omega arith)
same (suc zero) lo hi = absurd (omega arith)
same (suc (suc zero)) lo hi = refl
same (suc (suc (suc zero))) lo hi = refl
same (suc (suc (suc (suc zero)))) lo hi = refl
same (suc (suc (suc (suc (suc zero))))) lo hi = refl
same (suc (suc (suc (suc (suc (suc zero)))))) lo hi = refl
same (suc (suc (suc (suc (suc (suc (suc zero))))))) lo hi = refl
same (suc (suc (suc (suc (suc (suc (suc (suc m)))))))) lo hi = absurd (omega arith)

pub fs-Represents : Represents [] layout 0 7 v fs
fs-Represents =
    Represents-ext [] layout 0 7 (successors layout 0 7 fs) fs
      (record { uses = fs-Uses; fits = all_fit; reads = fs-View.reads fs.last }) v same

pub view : View [] 7 v fs
view = record {
  reads = λ x m lo hi. fs-View.reads x m lo hi ∙ ap (λ w. some (w, with_last fs x)) (same m lo hi);
  bound = fs-View.bound;
}

-- Clusters 3 and 4 are cached.
abbrev pub three : FatUnit
three = sector 3 (0x33 ∷ 0 ∷ 0 ∷ 0 ∷ [])

abbrev pub four : FatUnit
four = sector 4 (0x44 ∷ 0 ∷ 0 ∷ 0 ∷ [])

abbrev pub full : Fat list_host
full = with_clusters fs (three ∷ four ∷ []) fs.disk

pub full-Represents : Represents [] layout 0 7 v full
full-Represents = Represents-frame [] layout 0 7 v fs fs-Represents full.clusters fs.disk

abbrev pub place : ℕ × ℕ
place = (8, 4)

pub placed_3 : cluster_position (pos 3) full ≡ some (place, full)
unfolding cluster_position Geometry.get_bytes_per_sector Geometry.get_reserved_sectors
    Geometry.get_num_fats Geometry.get_sectors_per_cluster Geometry.get_fatsize
    Geometry.get_root_entries Geometry.with_bits get_bytes_per_sector get_sectors_per_cluster
    get_reserved_sectors get_num_fats get8 get16 get_fatsize get_fatsize16 get_root_entries
    known_bits root_entries_any ◌+ℤ◌ ◌-ℤ◌ ◌*ℤ◌
placed_3 = refl

pub placed_4 : cluster_position (pos 4) full ≡ some (place, full)
unfolding cluster_position Geometry.get_bytes_per_sector Geometry.get_reserved_sectors
    Geometry.get_num_fats Geometry.get_sectors_per_cluster Geometry.get_fatsize
    Geometry.get_root_entries Geometry.with_bits get_bytes_per_sector get_sectors_per_cluster
    get_reserved_sectors get_num_fats get8 get16 get_fatsize get_fatsize16 get_root_entries
    known_bits root_entries_any ◌+ℤ◌ ◌-ℤ◌ ◌*ℤ◌
placed_4 = refl

pub found_3 : tfind 3 full.clusters ≡ some three
unfolding tfind
found_3 = refl

pub found_4 : tfind 4 full.clusters ≡ some four
unfolding tfind
found_4 = refl

abbrev pub held_3 : IsHeld full 3
held_3 = record { u = three; found = found_3; loaded = refl; place = place; placed = placed_3 }

abbrev pub held_4 : IsHeld full 4
held_4 = record { u = four; found = found_4; loaded = refl; place = place; placed = placed_4 }

to_6 : IsMovable 7 v 2 3 6
to_6 = record {
  p_lo = omega arith;
  p_hi = omega arith;
  c_lo = omega arith;
  c_hi = omega arith;
  t_lo = omega arith;
  t_hi = omega arith;
  at = refl;
  free = refl;
  in_use = ground arith;
  next_is = inl (4, refl, omega arith);
  alone = λ m lo hi ne. ground arith;
  unreferred = λ m lo hi. ground arith;
  straight = ground arith;
}

-- Cluster 3 moves to 6: the chain is 2, 6, 4.
cluster_move-renamed_example :
    (f' : Fat list_host) × (cluster_move [] (chain (pos 2)) 6 false full ≡ some (pos 0, f'))
    × Represents [] layout 0 7 (renamed 3 6 v) f'
    × ((k : ℕ)
        → tfind k f'.clusters ≡ (
            if 6 == k
            then some (mark_dirty (record three { n = 6 }))
            else if 3 == k
            then none
            else tfind k full.clusters))
cluster_move-renamed_example =
    cluster_move-renamed [] layout 0 7 v full full-Represents 2 3 6 to_6 held_3

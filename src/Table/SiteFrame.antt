-- ===== src/Table/SiteFrame.antt =====
-- Where a cluster lies depends neither on the cache of clusters nor on the device.
use libllfat.Prelude.{ℕ, ◌≡◌, refl, ap, arith, ◌==◌, if◌then◌else◌, some, Bool-cases, inl, inr}
use libllfat.Prelude.Int.{ℤ, pos, ltb_ℤ, eqb_ℤ}
use libllfat.Units.{FatUnit}
use libllfat.Units.Host.{Host}
use mathlib.Core.Option.{some-injective}
use libllfat.Boot.Size
use libllfat.Boot.Root.{fat_root}
use libllfat.Boot.MinSize.{IsWidth}
use libllfat.Fs.Saved.{with_bits_lem}
use libllfat.Fs.State.{Fat, ◌>>=◌}
use libllfat.Fs.Geometry.{
  get_root_entries, get_fatsize, get_bytes_per_sector, get_sectors_per_cluster,
  get_reserved_sectors, get_num_fats,
}
use libllfat.Table.Place.{Layout, IsReady, fatsize_lem}
use libllfat.Table.Position.{cluster_position}
use libllfat.Table.Frame.{with_clusters}

root_entries_known :
    (boot : FatUnit) (b : ℕ)
    → IsWidth b
    → Size.get_root_entries boot (some (pos b))
      ≡ some ((if b == 32 then 0 else Size.root_entries_any boot), some (pos b))
unfolding Size.get_root_entries Size.known_bits
root_entries_known boot b (inl e) = rw e refl
root_entries_known boot b (inr (inl e)) = rw e refl
root_entries_known boot b (inr (inr e)) = rw e refl

module _ {h : Host} (l : Layout) (f : Fat h) (r : IsReady l f) (t : h.Tree) (d : h.Disk) where
  abbrev other : Fat h
  other = with_clusters f t d

  abbrev count : ℕ
  count = if l.bits == 32 then 0 else Size.root_entries_any f.boot

  entries_run : get_root_entries f ≡ some (count, f)
  unfolding get_root_entries
  entries_run =
      with_bits_lem Size.get_root_entries count f
        (rw r.bits (root_entries_known f.boot l.bits l.width))

  entries_run' : get_root_entries other ≡ some (count, other)
  unfolding get_root_entries
  entries_run' =
      with_bits_lem Size.get_root_entries count other
        (rw r.bits (root_entries_known f.boot l.bits l.width))

  size_run' : get_fatsize other ≡ some (pos l.size, other)
  unfolding get_fatsize
  size_run' =
      with_bits_lem (λ boot. Size.get_fatsize (some boot)) (pos l.size) other (rw r.bits r.size)

  -- Where a cluster lies does not depend on the cache.
  pub cluster_position_frame :
      (c : ℤ) (place : ℕ × ℕ)
      → cluster_position c f ≡ some (place, f)
      → cluster_position c other ≡ some (place, other)
  unfolding cluster_position get_bytes_per_sector get_sectors_per_cluster get_reserved_sectors
      get_num_fats
  cluster_position_frame c place e = elim (Bool-cases (ltb_ℤ c fat_root)) [
    | inl low ↦
        let bad =
          rw (cluster_position, ◌>>=◌, entries_run, ◌>>=◌, fatsize_lem l r, low, if◌then◌else◌) at
            e in
        absurd (ground arith)
    | inr high ↦ elim (Bool-cases (eqb_ℤ c fat_root)) [
      | inl root ↦
          let is =
            rw (cluster_position, ◌>>=◌, entries_run, ◌>>=◌, fatsize_lem l r, high, root) at e in
          rw (cluster_position, ◌>>=◌, entries_run', ◌>>=◌, size_run', high, root)
            (ap (λ p. some (p.0, other)) (some-injective _ _ is))
      | inr beyond ↦
          let is =
            rw (cluster_position, ◌>>=◌, entries_run, ◌>>=◌, fatsize_lem l r, high, beyond) at e in
          rw (cluster_position, ◌>>=◌, entries_run', ◌>>=◌, size_run', high, beyond)
            (ap (λ p. some (p.0, other)) (some-injective _ _ is))
    ]
  ]

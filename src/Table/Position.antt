-- ===== src/Table/Position.antt =====
-- lib/table.c: where a cluster lies on the device, and in which cluster a sector lies.
use libllfat.Prelude.{
  ℕ, ◌+◌, ◌-◌, ◌*◌, ◌/◌, false, ◌==◌, ltb, if◌then◌else◌, Option, none, some, List,
}
use libllfat.Prelude.Int.{ℤ, pos, wrap, u32, i32, ltb_ℤ, eqb_ℤ, ◌+ℤ◌, ◌-ℤ◌, ◌*ℤ◌}
use libllfat.Units.{FatUnit}
use libllfat.Units.Host.{Host}
use libllfat.Units.Io.{SimulatedError, create}
use libllfat.Units.Cache
use libllfat.Boot.Root.{fat_root, fat_err}
use libllfat.Fs.State.{M, pure, exit, ◌>>=◌, get_fat}
use libllfat.Fs.Geometry.{
  get_bytes_per_sector, get_sectors_per_cluster, get_reserved_sectors, get_num_fats, get_fatsize,
  get_root_entries,
}

abbrev pub u64 : ℤ → ℕ
u64 = wrap 0x1_0000_0000_0000_0000

module _ {h : Host} where
  -- The origin and the size of a cluster: the cluster `cl` begins `cl` sizes behind the origin. The
  -- arithmetic is that of 64 bits without sign, reduced here at the end.
  unfoldable pub cluster_position : ℤ → M h (ℕ × ℕ)
  cluster_position cl = do
    f ← get_fat
    entries ← get_root_entries
    fatsize ← get_fatsize
    let bps = get_bytes_per_sector f
    let tables_end = pos bps *ℤ (pos (get_reserved_sectors f) +ℤ get_num_fats f *ℤ fatsize)
    let root_size = entries * 32
    let size = bps * get_sectors_per_cluster f
    if ltb_ℤ cl fat_root
        then exit
        else if eqb_ℤ cl fat_root
        then pure (u64 (tables_end -ℤ pos root_size), root_size)
        else pure (u64 ((tables_end +ℤ pos root_size) -ℤ pos (2 * size)), size)

  -- Unsigned division, which faults on 0.
  unfoldable pub quotient : ℕ → ℕ → M h ℕ
  quotient a b = if b == 0 then exit else pure (a / b)

  -- A sector before the tables, in a table, in the root directory, or in a cluster.
  unfoldable pub sector_position : ℕ → M h ℤ
  sector_position sector = do
    f ← get_fat
    fatsize ← get_fatsize
    let reserved = get_reserved_sectors f
    let s = sector - reserved
    let tables = u32 (fatsize *ℤ get_num_fats f)
    let s' = s - tables
    if ltb sector reserved
        then pure (fat_err -ℤ pos 1)
        else if ltb s tables
        then (do q ← quotient s (u32 fatsize); pure ((fat_err -ℤ pos q) -ℤ pos 2))
        else (do
          entries ← get_root_entries
          root ← quotient (entries * 32) (get_bytes_per_sector f)
          if ltb s' root
              then pure fat_root
              else (do q ← quotient (s' - root) (get_sectors_per_cluster f); pure (i32 (q + 2))))

module _ {h : Host} (errors : List SimulatedError) where
  -- `fatunitget` on the cache of clusters.
  unfoldable pub cluster_read : ℕ → M h (Option FatUnit)
  cluster_read cl = do
    place ← cluster_position (pos cl)
    f ← get_fat
    let got = Cache.get h errors f.disk f.clusters (u64 (pos (f.offset + place.0))) place.1 cl f.fd
    λ f'. some (got.0, record f' { clusters = got.1 })

  -- A cluster that cannot be read is made anew.
  unfoldable pub cluster_create : ℕ → M h (Option FatUnit)
  cluster_create cl = do
    place ← cluster_position (pos cl)
    old ← cluster_read cl
    let fresh = record (create h place.1) { n = cl }
    λ f. elim old [
      | some u ↦ some (some u, f)
      | none ↦
          let u = record fresh { origin = u64 (pos (f.offset + place.0)) } in
          let (clusters, r) = Cache.insert h errors f.clusters u false in
          some (
            (if eqb_ℤ r (pos 0) then h.tfind cl clusters else none),
            record f { clusters = clusters },
          )
    ]

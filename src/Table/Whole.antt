-- ===== src/Table/Whole.antt =====
-- lib/table.c: reading a whole table into the cache, and `fatinittable`, which writes an empty one.
use libllfat.Prelude.{ℕ, zero, suc, ◌+◌, ◌-◌, ◌*◌, not, ◌||◌, if◌then◌else◌, none, some, List}
use libllfat.Prelude.Int.{ℤ, pos, minus_one, pos_part, eqb_ℤ, ltb_ℤ, ◌-ℤ◌}
use libllfat.Units.{FatUnit}
use libllfat.Units.Host.{Host}
use libllfat.Units.Io.{SimulatedError, write_back}
use libllfat.Units.Cache
use libllfat.Fs.State.{M, pure, exit, ◌>>=◌, ◌>>◌, get_fat, modify}
use libllfat.Fs.Geometry.{
  get_bytes_per_sector, get_reserved_sectors, get_num_fats, get_media, get_fatsize, get_root_begin,
  num_data_clusters, last_cluster,
}
use libllfat.Table.Raw.{get_sector}
use libllfat.Table.Next.{
  fat_all, fat_unused, fat_eof, fat_first, set_next_cluster, fix_table_header,
}

module _ {h : Host} (errors : List SimulatedError) where
  -- The loop of `fatreadfat`; `left` sectors are left.
  unfoldable pub read_sectors : (left sector : ℕ) → M h ℤ
  read_sectors zero sector = pure (pos 0)
  read_sectors (suc left) sector =
      let rest = read_sectors left (sector + 1) in
      (do u ← get_sector errors sector; elim u [ none ↦ pure minus_one | some w ↦ rest ])

  unfoldable pub read_fat : ℤ → M h ℤ
  read_fat nfat = do
    f ← get_fat
    if ltb_ℤ nfat fat_all || not (ltb_ℤ nfat (get_num_fats f)) then pure minus_one else (do
      size ← get_fatsize
      let all = eqb_ℤ nfat fat_all
      let start = get_reserved_sectors f + (if all then 0 else pos_part nfat * pos_part size)
      let count = pos_part size * (if all then pos_part (get_num_fats f) else 1)
      read_sectors count start)

  -- `fatsetnextcluster(f, cl, FAT_UNUSED)` on `left` clusters; its result is not looked at.
  unfoldable pub clear_entries : (left cl : ℕ) → M h (Unit {0})
  clear_entries zero cl = pure tt
  clear_entries (suc left) cl = do
    r ← set_next_cluster errors (pos cl) fat_unused
    clear_entries left (cl + 1)

  -- `fatunitwriteback` of a unit of the cache, whatever its result.
  unfoldable pub write_sector : FatUnit → M h FatUnit
  write_sector u f =
      let (disk', u', ok) = write_back h errors f.disk u in
      some (u', record f { disk = disk'; sectors = h.put u' f.sectors })

  -- The sector of zeros is moved to the next number and written there, `left` times.
  unfoldable pub write_zeros : (left : ℕ) → FatUnit → M h FatUnit
  write_zeros zero u = pure u
  write_zeros (suc left) u = do
    f ← get_fat
    let moved = Cache.move h errors f.sectors u (u.n + 1)
    modify (λ g. record g { sectors = moved.0 })
    u' ← write_sector moved.1
    write_zeros left u'

  -- The sectors behind those of the first clusters; `fatunitgetdata` of NULL ends the program.
  unfoldable pub zero_rest : ℕ → M h (Unit {0})
  zero_rest nfat = do
    f ← get_fat
    size ← get_fatsize
    let start = get_reserved_sectors f + pos_part size * nfat
    table ← get_sector errors (start + 1)
    elim table [
      | none ↦ exit
      | some u ↦ (do
        u' ← write_sector u
        u'' ← write_zeros (pos_part size - 2) u'
        modify (λ g. record g { sectors = (Cache.delete h errors g.sectors u''.n).0 }))
    ]

  unfoldable pub init_table : ℤ → M h ℤ
  init_table nfat = do
    f ← get_fat
    if ltb_ℤ nfat (pos 0) || not (ltb_ℤ nfat (get_num_fats f)) then pure minus_one else (do
      fixed ← fix_table_header errors nfat (get_media f)
      modify (λ g. record g { nfat = nfat })
      last ← last_cluster
      let pilot = 2 * get_bytes_per_sector f
      if not (ltb_ℤ (pos pilot) last)
          then clear_entries (pos_part last - 1) fat_first
          else (do clear_entries (pilot - 2) fat_first; zero_rest (pos_part nfat))
      root ← get_root_begin
      if not (ltb_ℤ root (pos fat_first))
          then (do r ← set_next_cluster errors root fat_eof; pure tt)
          else pure tt
      clusters ← num_data_clusters
      modify (λ g. record g { nfat = f.nfat; last = pos fat_first; free = clusters -ℤ pos 1 })
      pure (pos 0))

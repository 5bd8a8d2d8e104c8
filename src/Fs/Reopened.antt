-- ===== src/Fs/Reopened.antt =====
-- lib/fs.c: opening again a filesystem that was closed.
use libllfat.Prelude.{
  ℕ, ◌+◌, ◌*◌, ◌%◌, ◌≡◌, refl, subst, sym, ◌∙◌, arith, Bool, true, false, ◌==◌, ◌||◌, if◌then◌else◌,
  none, some, [],
}
use libllfat.Prelude.Int.{ℤ, pos, minus_one, ltb_ℤ, ◌+ℤ◌}
use libllfat.Units.{FatUnit}
use libllfat.Units.Host.{Host}
use libllfat.Units.Io.{position}
use libllfat.Units.Device.{Works}
use libllfat.Units.Flushed.{get-miss, read_into}
use libllfat.Boot.Fields
use libllfat.Boot.Size
use libllfat.Boot.Info
use libllfat.Fs.State.{Fat, ◌>>=◌, ◌>>◌}
use libllfat.Fs.Geometry.{fat_bits, num_data_clusters, get_bytes_per_sector}
use libllfat.Fs.Setters.{
  is_valid_cluster, get_info_pos, get_last_allocated_cluster, get_free_clusters,
}
use libllfat.Fs.Session.{
  Opened, create, opened, start, read_boot_sector, open_only, read_info_sector, take_counters,
  open_with, open_fat, close, quit,
}
use libllfat.Fs.Saved.{IsSavable, HasCounters, counters-HasCounters, with_bits_lem}
use libllfat.Fs.Stored.{save-stored}
use libllfat.Fs.Same.{
  same-boot_bits, same-num_data_clusters, same-get_info_pos, same-get_bytes_per_sector, same-info,
}

module _ {h : Host} (works : Works h) (clusters last free : ℕ) (info : FatUnit) (f : Fat h)
    (s : IsSavable clusters last free info f) (info' : FatUnit)
    (c : HasCounters last free info info') (d : h.Disk)
    (boot_read : h.read d f.fd (position h f.boot) f.boot.size ≡ some f.boot.data_bytes)
    (info_read : h.read d f.fd (position h info') info'.size ≡ some info'.data_bytes) where
  abbrev boot_got : FatUnit
  boot_got = read_into h f.offset 512 0 f.fd f.boot.data_bytes

  abbrev boot_kept : FatUnit
  boot_kept = record boot_got { refer = 1 }

  abbrev fresh : Fat h
  fresh = record (create d) { fd = f.fd; offset = f.offset }

  abbrev with_boot : Fat h
  with_boot = record fresh { boot = boot_kept; sectors = h.put boot_kept (h.put boot_got h.empty) }

  abbrev known : Fat h
  known = record with_boot { bits = pos 32 }

  abbrev info_got : FatUnit
  info_got = read_into h f.offset info'.size info.n f.fd info'.data_bytes

  abbrev info_kept : FatUnit
  info_kept = record info_got { refer = 1 }

  abbrev informed : Fat h
  informed = record known {
    info = some info_kept;
    sectors = h.put info_kept (h.put info_got (h.put boot_kept (h.put boot_got h.empty)));
  }

  abbrev final : Fat h
  final = record informed { last = pos last; free = pos free }

  boot_run : read_boot_sector [] 0 fresh ≡ some (pos 0, with_boot)
  unfolding read_boot_sector create
  boot_run =
      let place : position h f.boot ≡ (f.offset + 0 * 512) % 0x1_0000_0000_0000_0000 =
        rw (s.boot_n, s.boot_size, s.boot_origin) refl in
      let sized : h.read d f.fd (position h f.boot) 512 ≡ some f.boot.data_bytes =
        subst (λ (z : ℕ). h.read d f.fd (position h f.boot) z ≡ some f.boot.data_bytes) s.boot_size
          boot_read in
      let here = subst (λ (p : ℕ). h.read d f.fd p 512 ≡ some f.boot.data_bytes) place sized in
      let got =
        get-miss h works d h.empty f.offset 512 0 f.fd f.boot.data_bytes (h.tfind-empty 0) here in
      rw (read_boot_sector, create, got, got) refl

  bits_run : fat_bits with_boot ≡ some (pos 32, known)
  unfolding fat_bits create
  bits_run = rw (same-boot_bits boot_kept f.boot refl ∙ s.boot_bits_is) refl

  again_run : fat_bits known ≡ some (pos 32, known)
  unfolding fat_bits
  again_run = refl

  info_missing : h.tfind info.n known.sectors ≡ none
  unfolding create
  info_missing = ground (
    arith,
    h.tfind-put boot_kept (h.put boot_got h.empty) info.n,
    h.tfind-put boot_got h.empty info.n,
    h.tfind-empty info.n,
    s.info_other,
  )

  data_run : Size.num_data_clusters boot_kept (some (pos 32)) ≡ some (pos clusters, some (pos 32))
  data_run = same-num_data_clusters boot_kept f.boot refl ∙ s.clusters_is

  last_valid :
      Size.is_valid_cluster boot_kept (pos last) (some (pos 32)) ≡ some (true, some (pos 32))
  unfolding Size.is_valid_cluster Size.last_cluster ◌+ℤ◌
  last_valid =
      rw (Size.is_valid_cluster, Size.◌>>=◌, Size.last_cluster, Size.◌>>=◌, data_run)
        (ground (arith, s.last_low, s.last_high))

  counters_run : take_counters informed ≡ some (pos 0, final)
  unfolding take_counters is_valid_cluster num_data_clusters get_last_allocated_cluster
      get_free_clusters
  counters_run =
      let (sig, l, fr) = same-info info_kept info' refl in
      let last_is : Info.get_last_allocated_cluster (some info_kept) ≡ pos last =
        l ∙ c.last_stored in
      let free_is : Info.get_free_clusters (some info_kept) ≡ pos free = fr ∙ c.free_stored in
      let good : (ltb_ℤ (pos free) (pos 0) || ltb_ℤ (pos clusters) (pos free)) ≡ false =
        ground (arith, s.free_high) in
      rw
        (
          last_is,
          with_bits_lem (λ boot. Size.is_valid_cluster boot (pos last)) true informed last_valid,
          ◌>>=◌,
          with_bits_lem Size.num_data_clusters (pos clusters) informed data_run,
          ◌>>=◌,
          last_is,
          free_is,
          good,
        )
        refl

  info_run : read_info_sector [] info.n known ≡ some (pos 0, final)
  unfolding read_info_sector get_bytes_per_sector create
  info_run =
      let real : (info.n == 0 || info.n == 0xffff) ≡ false =
        ground (arith, s.info_other, s.info_real) in
      let bytes : Fields.get_bytes_per_sector boot_kept ≡ info'.size =
        same-get_bytes_per_sector boot_kept f.boot refl
        ∙ sym s.info_size
        ∙ sym c.update.size_same in
      let place : position h info' ≡ (f.offset + info.n * info'.size) % 0x1_0000_0000_0000_0000 =
        rw (c.update.n_same, c.update.origin_same, s.info_origin) refl in
      let here =
        subst (λ (p : ℕ). h.read d f.fd p info'.size ≡ some info'.data_bytes) place info_read in
      let got =
        get-miss h works d known.sectors f.offset info'.size info.n f.fd info'.data_bytes
          info_missing here in
      let signed : Info.get_info_signatures (some info_got) ≡ pos 1 =
        (same-info info_got info' refl).0 ∙ c.update.signatures ∙ s.signed in
      rw (read_info_sector, real, if◌then◌else◌, bytes, got, signed, bytes, got, counters_run) refl

  info_pos : Fields.get_info_pos boot_kept ≡ info.n
  info_pos = same-get_info_pos boot_kept f.boot refl ∙ sym s.info_n

  only_run :
      (opens : Bool → Opened)
      → opens true ≡ Opened.descriptor f.fd
      → open_only [] opens d f.offset 0 ≡ some with_boot
  unfolding open_only opened create
  only_run opens e = rw (open_only, e, opened, boot_run) refl

  start_run : start [] fat_bits with_boot ≡ some (pos 0, final)
  unfolding start get_info_pos
  start_run =
      rw
        (
          start, ◌>>=◌, bits_run, ◌>>◌, ◌>>=◌, again_run, ◌>>=◌, again_run, ◌>>=◌, info_pos,
          info_run,
        )
        refl

  open_run :
      (opens : Bool → Opened)
      → opens true ≡ Opened.descriptor f.fd
      → open_fat [] opens d f.offset ≡ some (some final)
  unfolding open_fat open_with
  open_run opens e = rw (open_fat, open_with, only_run opens e, start_run) refl

module _ {h : Host} where
  -- A FAT32 filesystem with an information sector, whose cached units do not meet on a device that
  -- works, and whose counters are a cluster and a number of free clusters: fatclose saves it, with the
  -- result of close(2), and fatopen of that device with the same descriptor succeeds; the boot
  -- sector, the last allocated cluster and the number of free clusters are then as they were.
  pub open_fat-close :
      (works : Works h) (closes : h.Disk → ℤ → Bool) (opens : Bool → Opened)
      (clusters last free : ℕ) (info : FatUnit) (f : Fat h)
      → IsSavable clusters last free info f
      → opens true ≡ Opened.descriptor f.fd
      → (d : h.Disk) × (g : Fat h) × (close [] closes f
          ≡ some (if closes d f.fd then pos 0 else minus_one, d))
        × (open_fat [] opens d f.offset ≡ some (some g))
        × (g.boot.data_bytes ≡ f.boot.data_bytes)
        × (g.last ≡ f.last)
        × (g.free ≡ f.free)
  unfolding close quit
  open_fat-close works closes opens clusters last free info f s e =
      let (info', c) = counters-HasCounters clusters last free info f s in
      let (f', run, fds, boot_read, info_read) =
        save-stored works clusters last free info f s info' c in
      (
        f'.disk,
        final works clusters last free info f s info' c f'.disk boot_read info_read,
        rw (close, run, quit, fds) refl,
        open_run works clusters last free info f s info' c f'.disk boot_read info_read opens e,
        refl,
        sym s.last_is,
        sym s.free_is,
      )

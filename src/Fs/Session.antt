-- ===== src/Fs/Session.antt =====
-- lib/fs.c: creating, opening, flushing and closing a filesystem.
use libllfat.Prelude.{
  ℕ, Bool, true, false, not, ◌&&◌, ◌||◌, ◌==◌, if◌then◌else◌, Option, none, some, List, [],
}
use libllfat.Prelude.Int.{ℤ, pos, minus_one, pos_part, eqb_ℤ, ltb_ℤ}
use libllfat.Units.{FatUnit}
use libllfat.Units.Host.{Host}
use libllfat.Units.Io.{SimulatedError}
use libllfat.Units.Cache
use libllfat.Boot.Check
use libllfat.Boot.Info
use libllfat.Fs.State.{Fat, M, pure, ◌>>=◌, ◌>>◌, get_fat, modify}
use libllfat.Fs.Geometry.{fat_bits, get_bytes_per_sector, num_data_clusters}
use libllfat.Fs.Setters.{
  is_valid_cluster, get_info_pos, get_backup_sector, get_last_allocated_cluster, get_free_clusters,
  set_last_allocated_cluster, set_free_clusters, get_info_signatures, signature_bits,
}

-- What open(2) returns: a descriptor, EACCES, or another error.
pub data Opened : Type 0 where
  descriptor : ℤ → Opened
  denied : Opened
  failed : Opened

-- The NULL of `f->boot`, which stands there until the boot sector is read.
abbrev no_boot : FatUnit
no_boot = record {
  fd = minus_one;
  n = 0;
  size = 0;
  origin = 0;
  loaded = false;
  data_bytes = [];
  error = 0;
  dirty = false;
  refer = 0;
}

-- A sector as it is in the cache, where it is there.
abbrev pub reload : FatUnit → (ℕ → Option FatUnit) → FatUnit
reload u finds = elim (finds u.n) [ none ↦ u | some w ↦ w ]

abbrev pub reload_info : Option FatUnit → (ℕ → Option FatUnit) → Option FatUnit
reload_info none finds = none
reload_info (some u) finds = some (reload u finds)

abbrev pub is_some : Option FatUnit → Bool
is_some none = false
is_some (some u) = true

module _ {h : Host} where
  -- `fatcreate`; `FAT_ALL` is -1. No device is open, so the one to be opened is given here. `offset` is
  -- left unset by the code.
  unfoldable pub create : h.Disk → Fat h
  create disk = record {
    fd = minus_one;
    offset = 0;
    bits = pos 0;
    nfat = minus_one;
    insensitive = false;
    boot = no_boot;
    info = none;
    sectors = h.empty;
    clusters = h.empty;
    last = pos 2;
    free = minus_one;
    disk = disk;
  }

  unfoldable pub check : Fat h → Option ℤ
  check f = Check.check f.boot

  -- The boot and the information sector as the cache of sectors holds them.
  abbrev pub held : Fat h → h.Tree
  held f = elim f.info [
    | none ↦ h.put f.boot f.sectors
    | some info ↦ h.put info (h.put f.boot f.sectors)
  ]

  -- The last allocated cluster, where it is one, and the number of free clusters, where it can be.
  unfoldable pub take_counters : M h ℤ
  take_counters = do
    f ← get_fat
    let last = get_last_allocated_cluster f
    valid ← is_valid_cluster last
    clusters ← num_data_clusters
    let free = get_free_clusters f
    let bad_free = ltb_ℤ free (pos 0) || ltb_ℤ clusters free
    modify (λ g. record g {
      last = if valid then last else pos 2;
      free = if bad_free then minus_one else free;
    })
    pure (pos 0)

  -- The result with the device; the structure is gone. `closes` is close(2).
  unfoldable pub quit : (h.Disk → ℤ → Bool) → Fat h → ℤ × h.Disk
  quit closes f = (if closes f.disk f.fd then pos 0 else minus_one, f.disk)

  unfoldable pub store_counters : M h (Unit {0})
  store_counters = do
    f ← get_fat
    valid ← is_valid_cluster f.last
    modify (λ g. if valid then set_last_allocated_cluster g g.last else g)
    clusters ← num_data_clusters
    modify (λ g. if not (ltb_ℤ clusters g.free) then set_free_clusters g g.free else g)

module _ {h : Host} (errors : List SimulatedError) where
  unfoldable pub read_boot_sector : ℕ → M h ℤ
  read_boot_sector boot f =
      let (got, sectors) = Cache.get h errors f.disk f.sectors f.offset 512 boot f.fd in
      elim got [
        | none ↦ some (minus_one, record f { sectors = sectors })
        | some u ↦
            let read = record u { refer = 1 } in
            some (pos 0, record f { boot = read; sectors = h.put read sectors })
      ]

  -- `fatopenonly` once the device is open.
  unfoldable pub opened : h.Disk → (offset boot : ℕ) → ℤ → Option (Fat h)
  opened disk offset boot fd =
      elim (read_boot_sector boot (record (create disk) { fd = fd; offset = offset })) [
        | none ↦ none
        | some (r, f) ↦ if eqb_ℤ r (pos 0) then some f else none
      ]

  -- `open` is asked with O_RDWR, which is true, and after EACCES with O_RDONLY. `none` is NULL.
  unfoldable pub open_only : (Bool → Opened) → h.Disk → (offset boot : ℕ) → Option (Fat h)
  open_only opens disk offset boot = elim (opens true) [
    | Opened.descriptor fd ↦ opened disk offset boot fd
    | Opened.denied ↦ elim (opens false) [
      | Opened.descriptor fd ↦ opened disk offset boot fd
      | Opened.denied ↦ none
      | Opened.failed ↦ none
    ]
    | Opened.failed ↦ none
  ]

  unfoldable pub read_info_sector : ℕ → M h ℤ
  read_info_sector info f =
      if info == 0 || info == 0xffff
      then some (pos 0, f)
      else let (got, sectors) =
          Cache.get h errors f.disk f.sectors f.offset (get_bytes_per_sector f) info f.fd in
        elim got [
          | none ↦ some (minus_one, record f { sectors = sectors })
          | some u ↦
              if eqb_ℤ (Info.get_info_signatures (some u)) (pos 0)
              then some (minus_one, record f { sectors = sectors })
              else let read = record u { refer = 1 } in
                take_counters (record f { info = some read; sectors = h.put read sectors })
        ]

  -- `_fatopen` once the boot sector is read: the function of the bits is called three times.
  unfoldable pub start : M h ℤ → M h ℤ
  start bits = do
    b ← bits
    modify (λ g. record g { bits = b })
    b' ← bits
    if eqb_ℤ b' minus_one then pure minus_one else do
      b'' ← bits
      f ← get_fat
      if not (eqb_ℤ b'' (pos 32)) then pure (pos 0) else read_info_sector (get_info_pos f)

  -- `_fatopen`; NULL is the inner `none`.
  unfoldable pub open_with :
      M h ℤ → (Bool → Opened) → h.Disk → (offset : ℕ) → Option (Option (Fat h))
  open_with bits opens disk offset = elim (open_only opens disk offset 0) [
    | none ↦ some none
    | some f ↦ elim (start bits f) [
      | none ↦ none
      | some (r, f') ↦ some (if eqb_ℤ r (pos 0) then some f' else none)
    ]
  ]

  unfoldable pub open_fat : (Bool → Opened) → h.Disk → (offset : ℕ) → Option (Option (Fat h))
  open_fat = open_with fat_bits

  unfoldable pub signature_open : (Bool → Opened) → h.Disk → (offset : ℕ) → Option (Option (Fat h))
  signature_open = open_with (λ f. some (signature_bits f, f))

  -- The two sectors are in the cache, and are flushed with it.
  unfoldable pub flush : M h ℤ
  flush f =
      let (disk', sectors) = Cache.flush h errors f.disk (held f) in
      let (disk'', clusters) = Cache.flush h errors disk' f.clusters in
      some (
        pos 0,
        record f {
          boot = reload f.boot (λ k. h.tfind k sectors);
          info = reload_info f.info (λ k. h.tfind k sectors);
          sectors = sectors;
          clusters = clusters;
          disk = disk'';
        },
      )

  -- `fatclose` up to `fatquit`
  unfoldable pub save : M h ℤ
  save = do
    f ← get_fat
    if is_some f.info && not (eqb_ℤ (get_info_signatures f) (pos 0))
        then store_counters
        else pure tt
    flush

  unfoldable pub close : (h.Disk → ℤ → Bool) → Fat h → Option (ℤ × h.Disk)
  close closes f = elim (save f) [
    | none ↦ none
    | some (r, f') ↦ some (if eqb_ℤ r (pos 0) then quit closes f' else (minus_one, f'.disk))
  ]

  -- The number is neither that of the boot sector nor that of the information sector.
  unfoldable pub copy_boot_to_backup : M h ℤ
  copy_boot_to_backup f =
      let n = get_backup_sector f in
      if eqb_ℤ n minus_one
      then some (minus_one, f)
      else let copy = record f.boot { n = pos_part n } in
        some (pos 0, record f { sectors = (Cache.insert h errors f.sectors copy true).0 })

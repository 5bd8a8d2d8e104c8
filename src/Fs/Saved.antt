-- ===== src/Fs/Saved.antt =====
-- lib/fs.c: what `fatclose` leaves on the device of a FAT32 filesystem with an information sector.
use libllfat.Prelude.{ℕ, ◌+◌, ◌<◌, ◌≤◌, ◌≡◌, ◌≢◌, refl, ◌∙◌, arith, true, false, not, some, length}
use libllfat.Prelude.Int.{pos, ◌+ℤ◌, ltb_ℤ}
use libllfat.Units.{FatUnit}
use libllfat.Units.Host.{Host}
use libllfat.Units.Io.{position}
use libllfat.Units.Device.{IsSound, apart}
use libllfat.Boot.Fields
use libllfat.Boot.Size
use libllfat.Boot.Info
use libllfat.Boot.RoundTrip.{IsSector}
use libllfat.Boot.InfoTrip.{get_last_allocated_cluster-set, get_free_clusters-set}
use libllfat.Boot.Counters.{
  IsUpdate, IsUpdate-trans, set_last_allocated_cluster-IsUpdate, set_free_clusters-IsUpdate,
}
use libllfat.Fs.State.{Fat, ◌>>=◌, ◌>>◌}
use libllfat.Fs.Geometry.{with_bits, num_data_clusters}
use libllfat.Fs.Setters.{is_valid_cluster, set_last_allocated_cluster, set_free_clusters}
use libllfat.Fs.Session.{held, store_counters}

-- The information sector with the two counters.
pub record HasCounters (last free : ℕ) (info info' : FatUnit) : Type 0 where
  pub update : IsUpdate info info'
  pub last_stored : Info.get_last_allocated_cluster (some info') ≡ pos last
  pub free_stored : Info.get_free_clusters (some info') ≡ pos free
  pub run :
      Info.set_free_clusters (Info.set_last_allocated_cluster (some info) (pos last)) (pos free)
      ≡ some info'

module _ {h : Host} where
  -- A parameter that leaves the bits as they are.
  pub with_bits_lem :
      {A : Type 0} (g : FatUnit → Size.B A) (a : A) (f' : Fat h)
      → g f'.boot (some f'.bits) ≡ some (a, some f'.bits)
      → with_bits g f' ≡ some (a, f')
  unfolding with_bits
  with_bits_lem g a f' e = rw (with_bits, e) refl

  -- A FAT32 filesystem of `clusters` clusters, whose boot sector is sector 0 and whose information
  -- sector is `info`, with counters that can be stored. The cached units do not meet on the device,
  -- and the device holds what is in these two sectors where they are not dirty.
  pub record IsSavable (clusters last free : ℕ) (info : FatUnit) (f : Fat h) : Type 0 where
    pub bits_is : f.bits ≡ pos 32
    pub boot_bits_is : Size.boot_bits f.boot ≡ some (pos 32)
    pub clusters_is :
        Size.num_data_clusters f.boot (some (pos 32)) ≡ some (pos clusters, some (pos 32))
    pub last_is : f.last ≡ pos last
    pub last_low : 2 ≤ last
    pub last_high : last ≤ clusters + 1
    pub small : clusters + 1 < 0x8000_0000
    pub free_is : f.free ≡ pos free
    pub free_high : free ≤ clusters
    pub boot_fd : f.boot.fd ≡ f.fd
    pub boot_n : f.boot.n ≡ 0
    pub boot_size : f.boot.size ≡ 512
    pub boot_origin : f.boot.origin ≡ f.offset
    pub info_is : f.info ≡ some info
    pub info_fd : info.fd ≡ f.fd
    pub info_n : info.n ≡ Fields.get_info_pos f.boot
    pub info_other : info.n ≢ 0
    pub info_real : info.n ≢ 0xffff
    pub info_size : info.size ≡ Fields.get_bytes_per_sector f.boot
    pub info_origin : info.origin ≡ f.offset
    pub info_sector : IsSector info
    pub info_long : length info.data_bytes ≡ info.size
    pub signed : Info.get_info_signatures (some info) ≡ pos 1
    pub sound : IsSound h f.fd (held f)
    pub clusters_sound : IsSound h f.fd f.clusters
    pub far :
        (i j : ℕ) (u w : FatUnit)
        → h.tfind i (held f) ≡ some u
        → h.tfind j f.clusters ≡ some w
        → apart (position h w) w.size (position h u) u.size ≡ true
    pub boot_stored :
        f.boot.dirty ≡ false
        → h.read f.disk f.fd (position h f.boot) f.boot.size ≡ some f.boot.data_bytes
    pub info_stored :
        info.dirty ≡ false → h.read f.disk f.fd (position h info) info.size ≡ some info.data_bytes

module _ {h : Host} (clusters last free : ℕ) (info : FatUnit) (f : Fat h)
    (s : IsSavable clusters last free info f) where
  pub counters-HasCounters : (info' : FatUnit) × HasCounters last free info info'
  counters-HasCounters =
      let (mid, e, l, fr, mark) =
        get_last_allocated_cluster-set info (pos last) s.info_sector
          (ground (arith, s.last_high, s.small), ground arith) in
      let up = set_last_allocated_cluster-IsUpdate info mid (pos last) s.info_sector.wide e in
      let mid_sector : IsSector mid = record {
        bytes = up.bytes s.info_sector.bytes;
        wide = ground (arith, up.long, s.info_sector.wide);
      } in
      let (info', e', fr', l', mark') =
        get_free_clusters-set mid (pos free) mid_sector
          (ground (arith, s.free_high, s.small), ground arith) in
      let up' = set_free_clusters-IsUpdate mid info' (pos free) mid_sector.wide e' in
      (
        info',
        record {
          update = IsUpdate-trans info mid info' up up';
          last_stored = l' ∙ l;
          free_stored = fr';
          run = rw (e, e') refl;
        },
      )

  abbrev pub with_info : FatUnit → Fat h
  with_info info' = record f { info = some info' }

  clusters_run : Size.num_data_clusters f.boot (some f.bits) ≡ some (pos clusters, some f.bits)
  clusters_run = rw s.bits_is s.clusters_is

  valid_run : Size.is_valid_cluster f.boot f.last (some f.bits) ≡ some (true, some f.bits)
  unfolding Size.is_valid_cluster Size.last_cluster ◌+ℤ◌
  valid_run =
      rw (Size.is_valid_cluster, Size.◌>>=◌, Size.last_cluster, Size.◌>>=◌, clusters_run, s.last_is)
        (ground (arith, s.last_low, s.last_high))

  pub store_counters_lem :
      (info' : FatUnit)
      → HasCounters last free info info'
      → store_counters f ≡ some (tt, with_info info')
  unfolding store_counters is_valid_cluster num_data_clusters set_last_allocated_cluster
      set_free_clusters
  store_counters_lem info' c =
      let mid : Fat h = record f { info = Info.set_last_allocated_cluster f.info f.last } in
      let fits : not (ltb_ℤ (pos clusters) f.free) ≡ true =
        rw s.free_is (ground (arith, s.free_high)) in
      let stored : Info.set_free_clusters (Info.set_last_allocated_cluster f.info f.last) f.free
          ≡ some info' =
        rw (s.info_is, s.last_is, s.free_is) c.run in
      rw
        (
          with_bits_lem (λ boot. Size.is_valid_cluster boot f.last) true f valid_run,
          ◌>>=◌,
          ◌>>◌,
          with_bits_lem Size.num_data_clusters (pos clusters) mid clusters_run,
          ◌>>=◌,
          fits,
          stored,
        )
        refl

-- ===== src/Fs/Stored.antt =====
-- lib/fs.c: what `fatclose` leaves on the device of a FAT32 filesystem with an information sector.
use libllfat.Prelude.{
  ℕ, ◌≡◌, ◌⊎◌, refl, sym, ap, ◌∙◌, arith, true, false, not, ◌&&◌, ◌==◌, if◌then◌else◌, none, some,
  [], length, Bool-cases, inl, inr, subst,
}
use libllfat.Prelude.Int.{ℤ, pos, eqb_ℤ}
use libllfat.Bytes.{IsBytes}
use libllfat.Units.{FatUnit}
use libllfat.Units.Host.{Host}
use libllfat.Units.Io.{position}
use libllfat.Units.Cache
use libllfat.Units.Device.{Works, IsSound}
use libllfat.Units.Flushed.{flush_lem, flush-elsewhere}
use libllfat.Boot.Info
use libllfat.Boot.Counters.{IsUpdate}
use libllfat.Fs.State.{Fat, ◌>>=◌, ◌>>◌}
use libllfat.Fs.Setters.{get_info_signatures}
use libllfat.Fs.Session.{held, is_some, save, flush}
use libllfat.Fs.Saved.{IsSavable, HasCounters, with_info, store_counters_lem}

module _ (h : Host) (info info' : FatUnit) (t : h.Tree) (up : IsUpdate info info') where
  -- What stands under a number after the information sector is updated, and before.
  found-update :
      (k : ℕ) (u' : FatUnit)
      → h.tfind k (h.put info' t) ≡ some u'
      → (u : FatUnit) × (h.tfind k (h.put info t) ≡ some u)
        × (u'.fd ≡ u.fd)
        × (u'.size ≡ u.size)
        × (position h u' ≡ position h u)
        × ((u' ≡ u) ⊎ (u' ≡ info'))
  found-update k u' e = elim (Bool-cases (info'.n == k)) [
    | inl here ↦
        let same : u' ≡ info' = ground (arith, h.tfind-put info' t k) in
        (
          info,
          ground (arith, h.tfind-put info t k, up.n_same),
          rw same up.fd_same,
          rw same up.size_same,
          rw (same, up.n_same, up.size_same, up.origin_same) refl,
          inr same,
        )
    | inr other ↦ (
      u',
      ground (arith, h.tfind-put info t k, h.tfind-put info' t k, up.n_same),
      refl,
      refl,
      refl,
      inl refl,
    )
  ]

  put-IsSound :
      (fd : ℤ)
      → length info.data_bytes ≡ info.size
      → IsBytes info.data_bytes
      → IsSound h fd (h.put info t)
      → IsSound h fd (h.put info' t)
  put-IsSound fd long bytes s = record {
    whole = λ i u' e dirty.
        let (u, there, a, b, c, or) = found-update i u' e in
        elim or [
          | inl p ↦ rw p (s.whole i u there (ap (λ (w : FatUnit). w.dirty) (sym p) ∙ dirty))
          | inr p ↦ rw p (up.long ∙ long ∙ sym up.size_same, up.bytes bytes)
        ];
    same_fd =
        λ i u' e. let (u, there, a, b, c, or) = found-update i u' e in a ∙ s.same_fd i u there;
    apart_units = λ i j u' w' e e' ne.
        let (u, there, a, b, c, or) = found-update i u' e in
        let (w, there', a', b', c', or') = found-update j w' e' in
        rw (c, b, c', b') (s.apart_units i j u w there there' ne);
  }

module _ {h : Host} (works : Works h) (clusters last free : ℕ) (info : FatUnit) (f : Fat h)
    (s : IsSavable clusters last free info f) (info' : FatUnit)
    (c : HasCounters last free info info') where
  cached : h.Tree
  cached = h.put info' (h.put f.boot f.sectors)

  held_before : held f ≡ h.put info (h.put f.boot f.sectors)
  held_before = rw s.info_is refl

  cached-IsSound : IsSound h f.fd cached
  unfolding cached
  cached-IsSound =
      put-IsSound h info info' (h.put f.boot f.sectors) c.update f.fd s.info_long
        s.info_sector.bytes (subst (IsSound h f.fd) held_before s.sound)

  abbrev flushed : h.Disk
  flushed = (Cache.flush h [] (Cache.flush h [] f.disk cached).0 f.clusters).0

  -- A unit of the cache of sectors, flushed there and then left alone by the clusters.
  unit_stored :
      (i : ℕ) (u w : FatUnit)
      → h.tfind i cached ≡ some u
      → h.tfind i (held f) ≡ some w
      → u.size ≡ w.size
      → position h u ≡ position h w
      → (u.dirty ≡ false → h.read f.disk f.fd (position h u) u.size ≡ some u.data_bytes)
      → h.read flushed f.fd (position h u) u.size ≡ some u.data_bytes
  unit_stored i u w there before size place calm =
      let fd = cached-IsSound.same_fd i u there in
      let at = ((flush_lem h works f.fd f.disk cached i cached-IsSound).1 u there).1 in
      let kept =
        flush-elsewhere h works f.fd (Cache.flush h [] f.disk cached).0 f.clusters (position h w)
          w.size s.clusters_sound (λ j v e. s.far i j w v before e) in
      let kept' : h.read flushed f.fd (position h u) u.size
          ≡ h.read (Cache.flush h [] f.disk cached).0 f.fd (position h u) u.size =
        rw (place, size) kept in
      kept' ∙ elim (Bool-cases u.dirty) [
        | inl dirty ↦ ground (arith, at, fd)
        | inr clean ↦ ground (arith, at, fd, calm clean)
      ]

  boot_there : h.tfind 0 cached ≡ some f.boot
  unfolding cached
  boot_there = ground (
    arith,
    h.tfind-put info' (h.put f.boot f.sectors) 0,
    h.tfind-put f.boot f.sectors 0,
    s.boot_n,
    s.info_other,
    c.update.n_same,
  )

  boot_before : h.tfind 0 (held f) ≡ some f.boot
  boot_before = rw held_before (
      ground (
        arith,
        h.tfind-put info (h.put f.boot f.sectors) 0,
        h.tfind-put f.boot f.sectors 0,
        s.boot_n,
        s.info_other,
      ))

  info_there : h.tfind info.n cached ≡ some info'
  unfolding cached
  info_there = ground (arith, h.tfind-put info' (h.put f.boot f.sectors) info.n, c.update.n_same)

  info_before : h.tfind info.n (held f) ≡ some info
  info_before = rw held_before (ground (arith, h.tfind-put info (h.put f.boot f.sectors) info.n))

  info_place : position h info' ≡ position h info
  info_place = rw (c.update.n_same, c.update.size_same, c.update.origin_same) refl

  info_calm :
      info'.dirty ≡ false → h.read f.disk f.fd (position h info') info'.size ≡ some info'.data_bytes
  info_calm clean =
      let same = c.update.calm clean in
      rw same (s.info_stored (ap (λ (u : FatUnit). u.dirty) (sym same) ∙ clean))

  -- `fatclose` up to `fatquit` succeeds, and the device then holds the boot sector and the updated
  -- information sector.
  pub save-stored :
      (f' : Fat h) × (save [] f ≡ some (pos 0, f'))
      × (f'.fd ≡ f.fd)
      × (h.read f'.disk f.fd (position h f.boot) f.boot.size ≡ some f.boot.data_bytes)
      × (h.read f'.disk f.fd (position h info') info'.size ≡ some info'.data_bytes)
  unfolding save flush get_info_signatures cached
  save-stored =
      let signed : (is_some f.info && not (eqb_ℤ (Info.get_info_signatures f.info) (pos 0)))
          ≡ true =
        rw (s.info_is, s.signed) refl in
      let f' : Fat h = elim (flush [] (with_info clusters last free info f s info')) [
        | none ↦ f
        | some (r, g) ↦ g
      ] in
      (
        f',
        rw
            (
              signed,
              if◌then◌else◌,
              store_counters_lem clusters last free info f s info' c,
              ◌>>=◌,
              ◌>>◌,
            )
            refl,
        refl,
        unit_stored 0 f.boot f.boot boot_there boot_before refl refl s.boot_stored,
        unit_stored info.n info' info info_there info_before c.update.size_same info_place
            info_calm,
      )
